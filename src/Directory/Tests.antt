-- ===== src/Directory/Tests.antt =====
-- internal/directory/index.go on concrete events: tests, and the theorems at these inputs.
use wppconnect_server_go.Prelude.{◌≡◌, refl, true, false, [], ◌∷◌, arith, ok, Faults, str_eq}
use wppconnect_server_go.Directory.{
  Chat, ChatId, new_chat, add_message, set_deleted, message, delete, patch, keep_newest,
  transaction, handle,
}
use wppconnect_server_go.Directory.Chats.{
  IsIndex, handle_all, handle_all-IsIndex, add_messages, message_once,
}

abbrev sure : Faults
sure = λ _. false

abbrev id : ChatId
id = record { key = "a@s"; user = "a"; is_supported = true }

abbrev counted : Chat
counted = record (new_chat id) { t = 5; unread = 1; seen = "m1" ∷ [] }

counts : handle (λ s. s) str_eq sure (message id "m1" false 5) [] ≡ ok (("a@s", counted) ∷ [])
unfolding handle transaction patch keep_newest add_message
counts = refl

handle_all-IsIndex_example : IsIndex (
    handle_all
      (λ s. s)
      str_eq
      ((sure, message id "m1" false 5) ∷ (sure, delete id 9) ∷ (sure, message id "m2" false 7) ∷ [])
      [])
handle_all-IsIndex_example =
    handle_all-IsIndex (λ s. s) str_eq
      ((sure, message id "m1" false 5) ∷ (sure, delete id 9) ∷ (sure, message id "m2" false 7) ∷ [])
      [] (record { few = omega arith; short = tt })

-- A message from before the deletion does not bring the chat back.
deletes :
    handle_all
      (λ s. s)
      str_eq
      ((sure, message id "m1" false 5) ∷ (sure, delete id 9) ∷ (sure, message id "m2" false 7) ∷ [])
      []
    ≡ (
      "a@s",
      record counted {
        unread = 0;
        unread_known = true;
        read_at = 9;
        deleted_at = 9;
        archive_at = 9;
        pin_at = 9;
        seen = "m1" ∷ "m2" ∷ [];
      },
    )
      ∷ []
unfolding handle transaction patch keep_newest add_message set_deleted
deletes = refl

message_once_example :
    add_message "m1" true 8 (
      add_messages
        (("m2", false, 6) ∷ ("m3", true, 7) ∷ [])
        (add_message "m1" false 5 (new_chat id)))
    ≡ add_messages
        (("m2", false, 6) ∷ ("m3", true, 7) ∷ [])
        (add_message "m1" false 5 (new_chat id))
message_once_example =
    message_once "m1" false true 5 8 (("m2", false, 6) ∷ ("m3", true, 7) ∷ []) (new_chat id) refl
      (omega arith)
