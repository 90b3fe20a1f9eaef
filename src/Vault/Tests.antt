-- ===== src/Vault/Tests.antt =====
-- internal/vault/vault.go on a concrete bucket: tests, and the theorems at these inputs.
use wppconnect_server_go.Prelude.{
  ℕ, ◌==◌, if◌then◌else◌, ◌≤◌, ◌<◌, String, ◌≡◌, refl, Bool, true, false, none, some, List, [], ◌∷◌,
  arith, str_eq, eq_iff, ok, err, ◌*◌, Faults, In, lookup, insert, remove, lookup-insert,
  lookup-insert_same, lookup-remove,
}
use wppconnect_server_go.History.{Outside, day, unix_milli, valid_id, valid_chat}
use wppconnect_server_go.History.Tests.{outside, zeros31}
use wppconnect_server_go.History.Attachments.{
  StoredMedia, max_media, is_media, reserve, finish_media, media, expired_media, forget_media,
}
use wppconnect_server_go.Vault.{
  Objects, bad_object, limited, owns, new_media, archive, download, delete, clean, cleanup,
}
use wppconnect_server_go.Vault.Archives.{IsFaithful, download-archive, download_safe}

abbrev Bucket : Type 0
Bucket = List (String × String)

abbrev shelf : Objects Bucket
shelf = record {
  put = λ b key body mime. (true, insert key body b);
  get = λ b key. lookup key b;
  delete = λ b key. (true, remove key b);
}

shelf-IsFaithful : IsFaithful shelf
shelf-IsFaithful = record {
  stores = λ b key body mime h. lookup-insert_same key body b;
  puts_only = λ b key body mime other h.
      ground (arith, lookup-insert key other body b, eq_iff key other, eq_iff other key);
  deletes_only = λ b key other h.
      ground (arith, lookup-remove key other b, eq_iff key other, eq_iff other key);
}

abbrev digits : List ℕ → String
digits [] = ""
digits (n ∷ ns) =
    if n == 0
    then "0000000000000000000000000000000000000000000000000000000000000000"
    else "0123456789012345678901234567890123456789012345678901234567890123"

abbrev hashing : Outside
hashing = record outside {
  digest = λ c. (if str_eq c "beta" then 0 else 1) ∷ zeros31;
  hex = digits;
}

abbrev sure : Faults
sure = λ _. false

abbrev is_uuid : String → Bool
is_uuid u = str_eq u "u-1"

abbrev photo : StoredMedia
photo = new_media hashing is_uuid shelf 0 day "u-1" "alpha" "c" "m1" "image/png" "abc"

abbrev filled : Bucket
filled = (photo.key, "abc") ∷ []

archives :
    (archive hashing is_uuid shelf true day sure sure 0 0 0 "u-1" "alpha" "c" "m1" "image/png" "abc"
      [] []).error
    ≡ none
unfolding archive reserve finish_media valid_id valid_chat
archives = refl

download-archive_example :
    let a =
      archive hashing is_uuid shelf true day sure sure 0 0 0 "u-1" "alpha" "c" "m1" "image/png"
        "abc" [] [] in
    download hashing is_uuid shelf (λ _. false) 5 "alpha" "c" "m1" a.rows a.bucket
    ≡ ok (a.result, "abc")
download-archive_example =
    download-archive hashing is_uuid shelf day sure sure 0 0 0 5 "u-1" "alpha" "c" "m1" "image/png"
      "abc" [] [] shelf-IsFaithful refl archives (omega arith)

abbrev stored : StoredMedia
stored = record photo { ready = true }

downloads :
    download hashing is_uuid shelf sure 5 "alpha" "c" "m1" (stored ∷ []) filled ≡ ok (stored, "abc")
unfolding download media owns limited
downloads = refl

download_safe_example :
    In stored (stored ∷ [])
    × (is_media "c" "m1" stored ≡ true)
    × (stored.ready ≡ true)
    × (unix_milli 5 < stored.expires)
    × (owns hashing is_uuid "alpha" stored ≡ true)
    × (shelf.get filled stored.key ≡ some "abc")
    × (3 ≡ stored.size)
    × (3 ≤ max_media)
    × (hashing.hex (hashing.digest "abc") ≡ stored.hash)
download_safe_example =
    download_safe hashing is_uuid shelf sure 5 "alpha" "c" "m1" (stored ∷ []) filled stored "abc"
      downloads

-- Bytes that were changed in the store are refused.
changed :
    download hashing is_uuid shelf sure 5 "alpha" "c" "m1" (stored ∷ []) ((stored.key, "abcd") ∷ [])
    ≡ err bad_object
unfolding download media owns limited
changed = refl

-- A day later the first attachment is expired and the second one is not.
abbrev fresh : StoredMedia
fresh = record stored { id = "m2"; key = "k"; expires = unix_milli (3 * day) }

cleans :
    cleanup hashing is_uuid shelf
      (λ k. sure)
      (2 * day)
      "alpha"
      (stored ∷ fresh ∷ [])
      ((stored.key, "abc") ∷ ("k", "x") ∷ [])
    ≡ (none, fresh ∷ [], ("k", "x") ∷ [])
unfolding cleanup clean delete expired_media forget_media owns
cleans = refl

-- The object of another session under the same chat and message.
abbrev elsewhere : StoredMedia
elsewhere = new_media hashing is_uuid shelf 0 day "u-1" "beta" "c" "m1" "image/png" "x"
