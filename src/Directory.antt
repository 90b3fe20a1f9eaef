-- ===== src/Directory.antt =====
-- internal/directory/index.go: the index of chats. The JSON text of a chat in its row is the chat; its
-- column `t` is that of the chat. Times are seconds, a time before the epoch is 0. `clip` cuts a name
-- to 256 runes, and `before` is SQLite's order of texts.
pub mod Chats
pub mod Tests
use wppconnect_server_go.Prelude.{
  ℕ, ◌+◌, ◌-◌, String, len, max, Bool, true, false, not, ◌&&◌, ◌||◌, Option, none, some, List, [],
  ◌∷◌, ◌++◌, ltb, leb, str_eq, ◌==◌, if◌then◌else◌, length, take, drop, lookup, insert, Result, ok,
  ◌>>=◌, ◌>>◌, Faults, call, is_some,
}
use wppconnect_server_go.Table.{exists, order_by}

pub record Chat : Type 0 where
  pub jid : String
  pub name : String
  pub t : ℕ
  pub unread : ℕ
  pub unread_known : Bool
  pub archived : Bool
  pub pinned : Bool
  pub muted : Bool
  pub mute_until : ℕ
  pub mute_at : ℕ
  pub archive_at : ℕ
  pub pin_at : ℕ
  pub read_at : ℕ
  pub deleted_at : ℕ
  pub seen : List String

-- A parsed chat identifier: its text without a device, its user, and what `Supported` says of it.
pub record ChatId : Type 0 where
  pub key : String
  pub user : String
  pub is_supported : Bool

abbrev pub Rows : Type 0
Rows = List (String × Chat)

pub data IndexError : Type 0 where
  index_failed : IndexError

abbrev pub max_chats : ℕ
max_chats = 10000

abbrev pub max_seen : ℕ
max_seen = 64

abbrev pub new_chat : ChatId → Chat
new_chat id = record {
  jid = id.key;
  name = id.user;
  t = 0;
  unread = 0;
  unread_known = false;
  archived = false;
  pinned = false;
  muted = false;
  mute_until = 0;
  mute_at = 0;
  archive_at = 0;
  pin_at = 0;
  read_at = 0;
  deleted_at = 0;
  seen = [];
}

-- `c.Seen[len(c.Seen)-64:]` where there are more.
abbrev pub last_seen : List String → List String
last_seen seen = drop (length seen - max_seen) seen

abbrev pub has_seen : String → Chat → Bool
has_seen id c = exists (str_eq id) c.seen

-- The end of the change of a message, from `c.DeletedAt` on.
abbrev pub count_message : Bool → ℕ → Chat → Chat
count_message from_me t c =
    let live = record c { deleted_at = 0 } in
    let counted =
      if not from_me && ltb c.read_at t && ltb c.unread 1000000
      then record live { unread = c.unread + 1 }
      else live in
    if ltb t c.deleted_at then c else record counted { t = max c.t t }

unfoldable pub add_message : (id : String) → (from_me : Bool) → (t : ℕ) → Chat → Chat
add_message id from_me t c =
    if has_seen id c
    then c
    else count_message from_me t (record c { seen = last_seen (c.seen ++ id ∷ []) })

unfoldable pub set_muted : Bool → (until at : ℕ) → Chat → Chat
set_muted muted until at c =
    if leb c.mute_at at then record c { muted = muted; mute_until = until; mute_at = at } else c

unfoldable pub set_archived : Bool → ℕ → Chat → Chat
set_archived archived at c =
    if leb c.archive_at at then record c { archived = archived; archive_at = at } else c

unfoldable pub set_pinned : Bool → ℕ → Chat → Chat
set_pinned pinned at c = if leb c.pin_at at then record c { pinned = pinned; pin_at = at } else c

abbrev pub mark : Bool → Chat → Chat
mark true c = record c { unread = 0; unread_known = true }
mark false c = if c.unread == 0 then record c { unread = 1; unread_known = false } else c

unfoldable pub set_read : Bool → ℕ → Chat → Chat
set_read read at c = if leb c.read_at at then mark read (record c { read_at = at }) else c

unfoldable pub set_deleted : ℕ → Chat → Chat
set_deleted at c =
    if ltb c.deleted_at at && leb c.t at
    then record c {
      deleted_at = at;
      unread = 0;
      unread_known = true;
      read_at = at;
      archived = false;
      pinned = false;
      archive_at = at;
      pin_at = at;
    }
    else c

abbrev pub set_name : String → Chat → Chat
set_name name c = record c { name = name }

abbrev pub set_joined : String → Option ℕ → Chat → Chat
set_joined name none c = record c { name = name }
set_joined name (some created) c =
    if c.t == 0 then record c { name = name; t = created } else record c { name = name }

-- What is read of a conversation of a history sync; `t` is its last time.
pub record Conversation : Type 0 where
  pub id : Option ChatId
  pub t : ℕ
  pub name : String
  pub display_name : String
  pub unread : Option ℕ
  pub archived : Option Bool
  pub pinned : Option ℕ
  pub messages : List String

-- The loop over the first 64 messages of a conversation; an empty text is a missing identifier.
abbrev pub see : List String → List String → List String
see [] seen = seen
see (id ∷ ids) seen = see ids (
    if not (str_eq id "") && not (exists (str_eq id) seen) && leb (len id) 256
    then seen ++ id ∷ []
    else seen)

abbrev pub import_unread : ℕ → Option ℕ → Chat → Chat
import_unread t none c = c
import_unread t (some n) c =
    if leb c.read_at t then record c { unread = n; unread_known = true } else c

abbrev pub import_recent : Conversation → Chat → Chat
import_recent v c =
    let counted = import_unread v.t v.unread (record c { t = v.t }) in
    if leb c.t v.t
    then record counted { seen = last_seen (see (take max_seen v.messages) c.seen) }
    else c

abbrev pub import_archived : ℕ → Option Bool → Chat → Chat
import_archived t none c = c
import_archived t (some b) c =
    if leb c.archive_at t then record c { archived = b; archive_at = t } else c

abbrev pub import_pinned : ℕ → Option ℕ → Chat → Chat
import_pinned t none c = c
import_pinned t (some n) c =
    if leb c.pin_at t then record c { pinned = not (n == 0); pin_at = t } else c

abbrev pub import_name : String → Conversation → Chat → Chat
import_name user v c =
    let name = if str_eq v.name "" then v.display_name else v.name in
    if not (str_eq name "") && (str_eq c.name user || leb c.t v.t)
    then record c { name = name }
    else c

unfoldable pub import_chat : String → Conversation → Chat → Chat
import_chat user v c =
    if ltb 0 c.deleted_at && leb v.t c.deleted_at
    then c
    else import_pinned v.t v.pinned (
        import_archived v.t v.archived
          (import_recent v (import_name user v (record c { deleted_at = 0 }))))

abbrev pub or_chat : ChatId → Option Chat → Chat
or_chat id none = new_chat id
or_chat id (some c) = c

-- The events that `Message` and `Event` handle.
pub data ChatEvent : Type 0 where
  message : ChatId → (id : String) → (from_me : Bool) → (t : ℕ) → ChatEvent
  mute : ChatId → Bool → (until at : ℕ) → ChatEvent
  history : List Conversation → ChatEvent
  archive : ChatId → Bool → (at : ℕ) → ChatEvent
  pin : ChatId → Bool → (at : ℕ) → ChatEvent
  read : ChatId → Bool → (at : ℕ) → ChatEvent
  delete : ChatId → (at : ℕ) → ChatEvent
  group_name : ChatId → String → ChatEvent
  joined : ChatId → String → Option ℕ → ChatEvent

abbrev pub imports : List Conversation → List (ChatId × (Chat → Chat))
imports [] = []
imports (v ∷ vs) =
    let rest = imports vs in
    elim v.id [ none ↦ rest | some id ↦ (id, import_chat id.user v) ∷ rest ]

abbrev pub is_indexed : ChatId → String → Bool
is_indexed id m = id.is_supported && not (str_eq m "") && leb (len m) 256

module _ (clip : String → String) (before : String → String → Bool) where
  abbrev pub clipped : Chat → Chat
  clipped c = record c { name = clip c.name }

  unfoldable pub patch : ChatId → (Chat → Chat) → Rows → Rows
  patch id change rows =
      if id.is_supported
      then insert id.key (clipped (change (or_chat id (lookup id.key rows)))) rows
      else rows

  -- ORDER BY t DESC,jid
  abbrev pub is_newer : String × Chat → String × Chat → Bool
  is_newer (j, x) (k, y) = ltb y.t x.t || x.t == y.t && before j k

  -- The DELETE at the end of a transaction leaves the newest rows.
  unfoldable pub keep_newest : Rows → Rows
  keep_newest rows =
      if ltb max_chats (length rows) then take max_chats (order_by is_newer rows) else rows

  -- The changes of one transaction, one after the other.
  abbrev pub patch_all : List (ChatId × (Chat → Chat)) → Rows → Rows
  patch_all [] rows = rows
  patch_all ((id, change) ∷ changes) rows = patch_all changes (patch id change rows)

  -- The calls that may fail: the beginning, any of the changes, the DELETE and the commit. A transaction
  -- that fails is rolled back and returns no rows.
  unfoldable pub transaction :
      Faults → List (ChatId × (Chat → Chat)) → Rows → Result IndexError Rows
  transaction fails changes rows = do
    call fails 0 index_failed
    call fails 1 index_failed
    call fails 2 index_failed
    call fails 3 index_failed
    ok (keep_newest (patch_all changes rows))

  unfoldable pub handle : Faults → ChatEvent → Rows → Result IndexError Rows
  handle fails (message id m from_me t) rows =
      if is_indexed id m
      then transaction fails ((id, add_message m from_me t) ∷ []) rows
      else ok rows
  handle fails (mute id muted until at) rows =
      transaction fails ((id, set_muted muted until at) ∷ []) rows
  handle fails (history vs) rows = transaction fails (imports vs) rows
  handle fails (archive id archived at) rows =
      transaction fails ((id, set_archived archived at) ∷ []) rows
  handle fails (pin id pinned at) rows = transaction fails ((id, set_pinned pinned at) ∷ []) rows
  handle fails (read id is_read at) rows = transaction fails ((id, set_read is_read at) ∷ []) rows
  handle fails (delete id at) rows = transaction fails ((id, set_deleted at) ∷ []) rows
  handle fails (group_name id name) rows = transaction fails ((id, set_name name) ∷ []) rows
  handle fails (joined id name created) rows =
      transaction fails ((id, set_joined name created) ∷ []) rows
