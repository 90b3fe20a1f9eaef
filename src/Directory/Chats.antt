-- ===== src/Directory/Chats.antt =====
-- The bounds of the index, and messages that are delivered twice.
use wppconnect_server_go.Prelude.{
  ℕ, zero, suc, ◌+◌, ◌-◌, ◌≤◌, ◌<◌, String, ◌≡◌, refl, sym, ap, subst, ◌∙◌, inl, inr, Bool, true,
  false, not, ◌&&◌, ◌||◌, Option, Option-cases, none, some, List, [], ◌∷◌, ◌++◌, arith, ltb, leb,
  str_eq, eq_refl, if◌then◌else◌, Bool-cases, length, length-append, length-drop, length-take-le,
  drop, take, lookup, insert, Result-cases, All, All-take, All-of_In, All-In, ok, err, Faults,
  Result, ◌==◌,
}
use wppconnect_server_go.Table.{exists, order_by}
use wppconnect_server_go.Table.Order.{In-order_by}
use wppconnect_server_go.Directory.{
  IndexError, Chat, ChatId, Rows, max_chats, max_seen, last_seen, has_seen, count_message,
  add_message, set_muted, set_archived, set_pinned, set_read, set_deleted, set_name, set_joined,
  Conversation, see, import_unread, import_recent, import_archived, import_pinned, import_name,
  import_chat, or_chat, patch, is_newer, keep_newest, patch_all, transaction, ChatEvent, message,
  mute, history, archive, pin, read, delete, group_name, joined, imports, is_indexed, handle,
}

abbrev pub IsShort : Chat → Type 0
IsShort c = length c.seen ≤ max_seen

abbrev pub IsKept : (Chat → Chat) → Type 0
IsKept f = (c : Chat) → IsShort c → IsShort (f c)

last_seen-le : (seen : List String) → length (last_seen seen) ≤ max_seen
last_seen-le seen = omega (arith, length-drop (length seen - max_seen) seen)

count_message-seen : (from_me : Bool) (t : ℕ) (c : Chat) → (count_message from_me t c).seen ≡ c.seen
count_message-seen from_me t c = elim (Bool-cases (ltb t c.deleted_at)) [
  | inl e ↦ rw e refl
  | inr e ↦ elim (Bool-cases (not from_me && ltb c.read_at t && ltb c.unread 1000000)) [
    | inl f ↦ rw (e, f) refl
    | inr f ↦ rw (e, f) refl
  ]
]

add_message-IsKept : (id : String) (from_me : Bool) (t : ℕ) → IsKept (add_message id from_me t)
unfolding add_message
add_message-IsKept id from_me t c h = elim (Bool-cases (has_seen id c)) [
  | inl e ↦ rw e h
  | inr e ↦ rw e (
      subst (λ (s : List String). length s ≤ max_seen)
        (sym (count_message-seen from_me t (record c { seen = last_seen (c.seen ++ id ∷ []) })))
        (last_seen-le (c.seen ++ id ∷ [])))
]

if_kept : (b : Bool) (x c : Chat) → x.seen ≡ c.seen → IsShort c → IsShort (if b then x else c)
if_kept true x c e h = subst (λ (s : List String). length s ≤ max_seen) (sym e) h
if_kept false x c e h = h

set_read-IsKept : (b : Bool) (at : ℕ) → IsKept (set_read b at)
unfolding set_read
set_read-IsKept true at c h = if_kept (leb c.read_at at) _ c refl h
set_read-IsKept false at c h = elim (Bool-cases (leb c.read_at at)) [
  | inl e ↦ rw e (if_kept (c.unread == 0) _ (record c { read_at = at }) refl h)
  | inr e ↦ rw e h
]

import_unread-seen : (t : ℕ) (n : Option ℕ) (c : Chat) → (import_unread t n c).seen ≡ c.seen
import_unread-seen t none c = refl
import_unread-seen t (some n) c = elim (Bool-cases (leb c.read_at t)) [
  | inl e ↦ rw e refl
  | inr e ↦ rw e refl
]

import_recent-IsKept : (v : Conversation) → IsKept (import_recent v)
import_recent-IsKept v c h = elim (Bool-cases (leb c.t v.t)) [
  | inl e ↦ rw e (last_seen-le (see (take max_seen v.messages) c.seen))
  | inr e ↦ rw e h
]

import_archived-IsKept : (t : ℕ) (b : Option Bool) → IsKept (import_archived t b)
import_archived-IsKept t none c h = h
import_archived-IsKept t (some b) c h = if_kept (leb c.archive_at t) _ c refl h

import_pinned-IsKept : (t : ℕ) (n : Option ℕ) → IsKept (import_pinned t n)
import_pinned-IsKept t none c h = h
import_pinned-IsKept t (some n) c h = if_kept (leb c.pin_at t) _ c refl h

import_name-IsKept : (user : String) (v : Conversation) → IsKept (import_name user v)
import_name-IsKept user v c h =
    let name = if str_eq v.name "" then v.display_name else v.name in
    if_kept (not (str_eq name "") && (str_eq c.name user || leb c.t v.t)) _ c refl h

import_chat-IsKept : (user : String) (v : Conversation) → IsKept (import_chat user v)
unfolding import_chat
import_chat-IsKept user v c h = elim (Bool-cases (ltb 0 c.deleted_at && leb v.t c.deleted_at)) [
  | inl e ↦ rw e h
  | inr e ↦ rw e (
      import_pinned-IsKept v.t v.pinned _ (
        import_archived-IsKept v.t v.archived _
          (import_recent-IsKept v _ (import_name-IsKept user v (record c { deleted_at = 0 }) h))))
]

set_joined-IsKept : (name : String) (created : Option ℕ) → IsKept (set_joined name created)
set_joined-IsKept name none c h = h
set_joined-IsKept name (some t) c h = elim (Bool-cases (c.t == 0)) [
  | inl e ↦ rw e h
  | inr e ↦ rw e h
]

All-insert :
    (P : String × Chat → Type 0) (k : String) (v : Chat) (m : Rows)
    → P (k, v)
    → All P m
    → All P (insert k v m)
All-insert P k v [] p h = (p, tt)
All-insert P k v ((j, w) ∷ m) p h = elim (Bool-cases (str_eq j k)) [
  | inl e ↦ rw e (p, h.1)
  | inr e ↦ rw e (h.0, All-insert P k v m p h.1)
]

lookup-IsShort :
    (id : ChatId) (m : Rows) → All (λ r. IsShort r.1) m → IsShort (or_chat id (lookup id.key m))
lookup-IsShort id [] h = omega arith
lookup-IsShort id ((j, w) ∷ m) h = elim (Bool-cases (str_eq j id.key)) [
  | inl e ↦ rw e h.0
  | inr e ↦ rw e (lookup-IsShort id m h.1)
]

pub record IsIndex (rows : Rows) : Type 0 where
  pub few : length rows ≤ max_chats
  pub short : All (λ r. IsShort r.1) rows

-- The rows after a transaction that may have failed.
abbrev pub or_same : Rows → Result IndexError Rows → Rows
or_same rows (ok rows') = rows'
or_same rows (err e) = rows

drop-append : (n : ℕ) (xs ys : List String) → n ≤ length xs → drop n (xs ++ ys) ≡ drop n xs ++ ys
drop-append zero xs ys h = refl
drop-append (suc n) [] ys h = absurd (omega arith)
drop-append (suc n) (x ∷ xs) ys h = drop-append n xs ys (omega arith)

append_assoc : (xs ys zs : List String) → (xs ++ ys) ++ zs ≡ xs ++ (ys ++ zs)
append_assoc [] ys zs = refl
append_assoc (x ∷ xs) ys zs = ap (◌∷◌ x) (append_assoc xs ys zs)

exists-middle : (id : String) (xs ys : List String) → exists (str_eq id) (xs ++ id ∷ ys) ≡ true
exists-middle id [] ys = rw (eq_refl id) refl
exists-middle id (x ∷ xs) ys = ground (arith, exists-middle id xs ys)

-- The message is remembered, with at most `n` later ones.
record IsRecent (id : String) (n : ℕ) (c : Chat) : Type 0 where
  front : List String
  back : List String
  seen_is : c.seen ≡ front ++ id ∷ back
  few : length back ≤ n

IsRecent-seen :
    (id : String) (n : ℕ) (c x : Chat) → x.seen ≡ c.seen → IsRecent id n c → IsRecent id n x
IsRecent-seen id n c x e v = record {
  front = v.front;
  back = v.back;
  seen_is = e ∙ v.seen_is;
  few = v.few;
}

IsRecent-first :
    (id : String) (from_me : Bool) (t : ℕ) (c : Chat)
    → has_seen id c ≡ false
    → IsRecent id 0 (add_message id from_me t c)
unfolding add_message
IsRecent-first id from_me t c e =
    let next = record c { seen = last_seen (c.seen ++ id ∷ []) } in
    let m = length (c.seen ++ id ∷ []) - max_seen in
    rw e (
      IsRecent-seen id 0 next (count_message from_me t next) (count_message-seen from_me t next)
        (record {
          front = drop m c.seen;
          back = [];
          seen_is = drop-append m c.seen (id ∷ []) (omega (arith, length-append c.seen (id ∷ [])));
          few = omega arith;
        }))

IsRecent-next :
    (id other : String) (n : ℕ) (from_me : Bool) (t : ℕ) (c : Chat)
    → n + 1 < max_seen
    → IsRecent id n c
    → IsRecent id (n + 1) (add_message other from_me t c)
unfolding add_message
IsRecent-next id other n from_me t c small v = elim (Bool-cases (has_seen other c)) [
  | inl e ↦
      rw e
        (record { front = v.front; back = v.back; seen_is = v.seen_is; few = omega (arith, v.few) })
  | inr e ↦
      let next = record c { seen = last_seen (c.seen ++ other ∷ []) } in
      let zs = id ∷ (v.back ++ other ∷ []) in
      let m = length (v.front ++ zs) - max_seen in
      let all_is : c.seen ++ other ∷ [] ≡ v.front ++ zs =
        ap (λ s. s ++ other ∷ []) v.seen_is ∙ append_assoc v.front (id ∷ v.back) (other ∷ []) in
      rw e (
        IsRecent-seen id (n + 1) next (count_message from_me t next)
          (count_message-seen from_me t next)
          (record {
            front = drop m v.front;
            back = v.back ++ other ∷ [];
            seen_is =
                ap last_seen all_is
                ∙ drop-append m v.front zs (
                    omega
                      (arith, length-append v.front zs, length-append v.back (other ∷ []), v.few));
            few = omega (arith, length-append v.back (other ∷ []), v.few);
          }))
]

-- The deliveries of messages of one chat, one after the other: their identifiers, whether they are
-- the account's own, and their times.
abbrev pub add_messages : List (String × Bool × ℕ) → Chat → Chat
add_messages [] c = c
add_messages ((id, from_me, t) ∷ ms) c = add_messages ms (add_message id from_me t c)

IsRecent-all :
    (id : String) (n : ℕ) (ms : List (String × Bool × ℕ)) (c : Chat)
    → n + length ms < max_seen
    → IsRecent id n c
    → IsRecent id (n + length ms) (add_messages ms c)
IsRecent-all id n [] c small v = record {
  front = v.front;
  back = v.back;
  seen_is = v.seen_is;
  few = omega (arith, v.few);
}
IsRecent-all id n ((other, from_me, t) ∷ ms) c small v =
    subst (λ k. IsRecent id k (add_messages ms (add_message other from_me t c)))
      (shift n (length ms))
      (IsRecent-all id (n + 1) ms (add_message other from_me t c) (omega arith)
        (IsRecent-next id other n from_me t c (omega arith) v))
  where
    shift : (n m : ℕ) → n + 1 + m ≡ n + suc m
    shift n m = omega arith

-- A message that the chat did not remember and that is now delivered is not counted again: delivered
-- once more after fewer than 64 deliveries of any messages of the chat, with whatever time and
-- sender, it changes nothing of the chat.
pub message_once :
    (id : String) (from_me again : Bool) (t u : ℕ) (ms : List (String × Bool × ℕ)) (c : Chat)
    → has_seen id c ≡ false
    → length ms < max_seen
    → add_message id again u (add_messages ms (add_message id from_me t c))
      ≡ add_messages ms (add_message id from_me t c)
unfolding add_message
message_once id from_me again t u ms c new few =
    let x = add_messages ms (add_message id from_me t c) in
    let v =
      IsRecent-all id 0 ms (add_message id from_me t c) (omega arith)
        (IsRecent-first id from_me t c new) in
    let remembered : has_seen id x ≡ true =
      ap (exists (str_eq id)) v.seen_is ∙ exists-middle id v.front v.back in
    rw remembered refl

module _ (clip : String → String) (before : String → String → Bool) where
  patch-IsShort :
      (id : ChatId) (f : Chat → Chat) (rows : Rows)
      → IsKept f
      → All (λ r. IsShort r.1) rows
      → All (λ r. IsShort r.1) (patch clip before id f rows)
  unfolding patch
  patch-IsShort id f rows k h = elim (Bool-cases id.is_supported) [
    | inl e ↦ rw e (
        All-insert (λ r. IsShort r.1) id.key _ rows
          (k (or_chat id (lookup id.key rows)) (lookup-IsShort id rows h)) h)
    | inr e ↦ rw e h
  ]

  patch_all-IsShort :
      (changes : List (ChatId × (Chat → Chat))) (rows : Rows)
      → All (λ x. IsKept x.1) changes
      → All (λ r. IsShort r.1) rows
      → All (λ r. IsShort r.1) (patch_all clip before changes rows)
  patch_all-IsShort [] rows k h = h
  patch_all-IsShort ((id, f) ∷ changes) rows k h =
      patch_all-IsShort changes (patch clip before id f rows) k.1 (patch-IsShort id f rows k.0 h)

  keep_newest-IsIndex :
      (rows : Rows) → All (λ r. IsShort r.1) rows → IsIndex (keep_newest clip before rows)
  unfolding keep_newest
  keep_newest-IsIndex rows h =
      let sorted = order_by (is_newer clip before) rows in
      elim (Bool-cases (ltb max_chats (length rows))) [
        | inr e ↦ rw e (record { few = ground (arith, e); short = h })
        | inl e ↦ rw e (record {
          few = length-take-le max_chats sorted;
          short =
              All-take (λ r. IsShort r.1) max_chats sorted
                (All-of_In (λ r. IsShort r.1) sorted
                  λ r m.
                    All-In (λ r. IsShort r.1) r rows h
                      (In-order_by (is_newer clip before) r rows m));
        })
      ]

  transaction-IsIndex :
      (fails : Faults) (changes : List (ChatId × (Chat → Chat))) (rows rows' : Rows)
      → All (λ x. IsKept x.1) changes
      → IsIndex rows
      → transaction clip before fails changes rows ≡ ok rows'
      → IsIndex rows'
  unfolding transaction
  transaction-IsIndex fails changes rows rows' k v h =
      let same : keep_newest clip before (patch_all clip before changes rows) ≡ rows' =
        ground arith in
      subst IsIndex same (
        keep_newest-IsIndex (patch_all clip before changes rows)
          (patch_all-IsShort changes rows k v.short))

  imports-IsKept : (vs : List Conversation) → All (λ x. IsKept x.1) (imports vs)
  imports-IsKept [] = tt
  imports-IsKept (v ∷ vs) = elim (Option-cases v.id) [
    | inl e ↦ rw e (imports-IsKept vs)
    | inr (id, e) ↦ rw e (import_chat-IsKept id.user v, imports-IsKept vs)
  ]

  handle-IsIndex :
      (fails : Faults) (e : ChatEvent) (rows rows' : Rows)
      → IsIndex rows
      → handle clip before fails e rows ≡ ok rows'
      → IsIndex rows'
  unfolding handle set_muted set_archived set_pinned set_deleted
  handle-IsIndex fails (message id m from_me t) rows rows' v h =
      elim (Bool-cases (is_indexed id m)) [
        | inl e ↦
            transaction-IsIndex fails ((id, add_message m from_me t) ∷ []) rows rows'
              (add_message-IsKept m from_me t, tt) v (ground (arith, e, h))
        | inr e ↦ subst IsIndex (ground (arith, e, h)) v
      ]
  handle-IsIndex fails (mute id muted until at) rows rows' v h =
      transaction-IsIndex fails ((id, set_muted muted until at) ∷ []) rows rows'
        ((λ c k. if_kept (leb c.mute_at at) _ c refl k), tt) v h
  handle-IsIndex fails (history vs) rows rows' v h =
      transaction-IsIndex fails (imports vs) rows rows' (imports-IsKept vs) v h
  handle-IsIndex fails (archive id archived at) rows rows' v h =
      transaction-IsIndex fails ((id, set_archived archived at) ∷ []) rows rows'
        ((λ c k. if_kept (leb c.archive_at at) _ c refl k), tt) v h
  handle-IsIndex fails (pin id pinned at) rows rows' v h =
      transaction-IsIndex fails ((id, set_pinned pinned at) ∷ []) rows rows'
        ((λ c k. if_kept (leb c.pin_at at) _ c refl k), tt) v h
  handle-IsIndex fails (read id b at) rows rows' v h =
      transaction-IsIndex fails ((id, set_read b at) ∷ []) rows rows' (set_read-IsKept b at, tt) v h
  handle-IsIndex fails (delete id at) rows rows' v h =
      transaction-IsIndex fails ((id, set_deleted at) ∷ []) rows rows'
        ((λ c k. if_kept (ltb c.deleted_at at && leb c.t at) _ c refl k), tt) v h
  handle-IsIndex fails (group_name id name) rows rows' v h =
      transaction-IsIndex fails ((id, set_name name) ∷ []) rows rows' ((λ c k. k), tt) v h
  handle-IsIndex fails (joined id name created) rows rows' v h =
      transaction-IsIndex fails ((id, set_joined name created) ∷ []) rows rows'
        (set_joined-IsKept name created, tt) v h

  abbrev pub handle_all : List (Faults × ChatEvent) → Rows → Rows
  handle_all [] rows = rows
  handle_all ((fails, e) ∷ es) rows = handle_all es (or_same rows (handle clip before fails e rows))

  -- However many events an index handles, whatever they say and whichever of them fail, it has at most
  -- 10,000 chats, and of each chat it remembers at most 64 messages.
  pub handle_all-IsIndex :
      (es : List (Faults × ChatEvent)) (rows : Rows) → IsIndex rows → IsIndex (handle_all es rows)
  handle_all-IsIndex [] rows v = v
  handle_all-IsIndex ((fails, e) ∷ es) rows v =
      handle_all-IsIndex es (or_same rows (handle clip before fails e rows))
        (elim (Result-cases (handle clip before fails e rows)) [
          | inl (x, p) ↦ rw p (handle-IsIndex fails e rows x v p)
          | inr (x, p) ↦ rw p v
        ])
