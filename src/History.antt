-- ===== src/History.antt =====
-- internal/history/store.go: the message history of a session, its SQLite tables, their triggers,
-- and the storing and pruning of messages. Clocks are nanoseconds since the epoch, the times in the
-- table are seconds; a time before the epoch counts as 0. `fails k` says that the k-th call of the
-- database fails; a transaction that fails is rolled back and returns no new store.
pub mod Reads
pub mod Edits
pub mod Rows
pub mod Invariant
pub mod Steps
pub mod Reach
pub mod Bounds
pub mod Falling
pub mod Paging
pub mod Retained
pub mod Ordering
pub mod Receipts
pub mod Votes
pub mod Tally
pub mod Uploads
pub mod Tests
pub mod Labels
pub mod Polls
pub mod Attachments
use wppconnect_server_go.Prelude.{
  ℕ, ◌+◌, ◌-◌, ◌*◌, ◌/◌, max, String, len, Bool, true, false, not, ◌&&◌, ◌||◌, Option, none, some,
  List, [], ◌∷◌, ◌++◌, ltb, leb, str_eq, if◌then◌else◌, sum_by, Result, ok, err, ◌>>=◌, ◌>>◌, guard,
  or_fail, Faults, call, all_chars, ◌==◌, ℤ,
}
use wppconnect_server_go.Table.{select, delete, exists, count}
use wppconnect_server_go.Media.Messages.{Message, unwrap}

abbrev pub second : ℕ
second = 1000000000

abbrev pub unix : ℕ → ℕ
unix now = now / second

abbrev pub unix_milli : ℕ → ℕ
unix_milli now = now / 1000000

abbrev pub day : ℕ
day = 24 * 3600 * second

-- `retention` is nanoseconds.
pub record Options : Type 0 where
  pub retention : ℕ
  pub max_messages : ℕ
  pub max_bytes : ℕ

abbrev pub default_options : Options
default_options = record { retention = 30 * day; max_messages = 100000; max_bytes = 268435456 }

abbrev pub valid_options : Options → Bool
valid_options o =
    ltb 0 o.retention
    && leb o.retention (365 * day)
    && leb 1 o.max_messages
    && leb o.max_messages 1000000
    && leb 1048576 o.max_bytes
    && leb o.max_bytes 10737418240

-- A row of history_messages.
pub record Row : Type 0 where
  pub seq : ℕ
  pub chat : String
  pub id : String
  pub sender : String
  pub from_me : Bool
  pub t : ℕ
  pub read : Bool
  pub deleted : Bool
  pub edited : Bool
  pub content : String
  pub protocol : String
  pub bytes : ℕ

pub record Label : Type 0 where
  pub id : String
  pub name : String
  pub color : ℤ
  pub deleted : Bool
  pub updated : ℕ

-- A row of history_label_links; the message is empty where a chat has the label.
pub record Link : Type 0 where
  pub label : String
  pub chat : String
  pub message : String
  pub active : Bool
  pub updated : ℕ

pub record Vote : Type 0 where
  pub chat : String
  pub poll : String
  pub voter : String
  pub updated : ℕ
  pub choices : List String

pub record Receipt : Type 0 where
  pub chat : String
  pub id : String
  pub sender : String
  pub kind : String
  pub t : ℕ

-- The tables, the AUTOINCREMENT counter, and the row of history_stats that the triggers keep.
pub record Store : Type 0 where
  pub options : Options
  pub rows : List Row
  pub sequence : ℕ
  pub n : ℕ
  pub b : ℕ
  pub labels : List Label
  pub links : List Link
  pub votes : List Vote
  pub receipts : List Receipt

pub data Error : Type 0 where
  db_error invalid_limits invalid_identity too_large marshal_failed not_found bad_row : Error
  ambiguous invalid_query invalid_chat invalid_time invalid_receipt : Error
  invalid_label quota_reached not_a_poll invalid_vote unknown_option : Error

-- A parsed JID; `whole` is its text.
pub record Jid : Type 0 where
  pub user : String
  pub server : String

-- The versions of the poll creation message that are read.
pub data Version : Type 0 where
  v1 v2 v3 v5 v6 : Version

pub record Poll : Type 0 where
  pub options : List String
  pub selectable : ℕ

-- What is used of types.MessageInfo; `chat_key` and `sender` are written without a device.
pub record Info : Type 0 where
  pub id : String
  pub chat : String
  pub chat_key : String
  pub sender : String
  pub from_me : Bool
  pub time : ℕ
  pub is_zero : Bool

-- What the model takes from outside: whatsmeow's JIDs with its names of servers and its status JID,
-- protobuf's size, encoding and decoding, the JSON text of a message's view (encoding/json on what
-- media.Event makes of it), of the same with `updatedAt`, of `{"updatedAt": at}` alone and of a
-- listed record (its length), SQLite's json_extract of `$.updatedAt` and its order of texts, Go's
-- tests on UTF-8, the poll that a decoded message creates, SHA-256 and hexadecimal.
pub record Outside : Type 0 where
  pub parse_jid : String → Option Jid
  pub user_server : String
  pub hidden_server : String
  pub group_server : String
  pub newsletter_server : String
  pub is_status : Jid → Bool
  pub size : Message → ℕ
  pub marshal : Message → Option String
  pub view : Info → Message → Option String
  pub view_at : Row → Message → ℕ → Option String
  pub mark : ℕ → String
  pub updated_at : String → Option ℕ
  pub json_reads : String → Bool
  pub proto_reads : String → Bool
  pub listed_size : Row → ℕ
  pub valid_utf8 : String → Bool
  pub rune_count : String → ℕ
  pub text_before : String → String → Bool
  pub poll_of : Version → String → Option Poll
  pub digest : String → List ℕ
  pub hex : List ℕ → String

-- `strings.ContainsAny(v, "\x00\r\n")`
abbrev pub is_plain : ℕ → Bool
is_plain c = not (c == 0 || c == 13 || c == 10)

unfoldable pub valid_id : String → Bool
valid_id v = not (str_eq v "") && leb (len v) 256 && all_chars is_plain v

module _ (out : Outside) where
  open out use {parse_jid, user_server, hidden_server, group_server, newsletter_server, is_status}

  abbrev pub valid_jid : Jid → Bool
  valid_jid j =
      not (str_eq j.user "")
      && leb (len j.user) 128
      && (str_eq j.server user_server
          || str_eq j.server hidden_server
          || str_eq j.server group_server
          || str_eq j.server newsletter_server
          || is_status j)

  unfoldable pub valid_chat : String → Bool
  valid_chat v = elim (parse_jid v) [ none ↦ false | some j ↦ valid_jid j ]

abbrev pub is_row : String → String → Row → Bool
is_row chat id r = str_eq r.chat chat && str_eq r.id id

-- `EXISTS(SELECT 1 FROM history_messages m WHERE m.chat=… AND m.id=…)`
abbrev pub has_row : List Row → String → String → Bool
has_row rows chat id = exists (is_row chat id) rows

-- DELETE FROM history_messages, with its trigger.
unfoldable pub delete_rows : (Row → Bool) → Store → Store
delete_rows p s = record s {
  rows = delete p s.rows;
  n = s.n - count p s.rows;
  b = s.b - sum_by (λ r. r.bytes) (select p s.rows);
}

-- INSERT … ON CONFLICT(chat,id) DO NOTHING, with its trigger.
unfoldable pub insert_row : Row → Store → Store
insert_row r s =
    if has_row s.rows r.chat r.id
    then s
    else record s { rows = s.rows ++ r ∷ []; sequence = r.seq; n = s.n + 1; b = s.b + r.bytes }

abbrev pub is_at_or_after : Row → Row → Bool
is_at_or_after r x = leb r.seq x.seq

-- row_number() and sum(bytes) OVER(ORDER BY seq DESC): of the rows that are not older.
abbrev pub is_over : ℕ → ℕ → List Row → Row → Bool
is_over keep budget rows r =
    ltb keep (count (is_at_or_after r) rows)
    || ltb budget (sum_by (λ x. x.bytes) (select (is_at_or_after r) rows))

abbrev pub keep_of : Options → ℕ
keep_of o = max 1 (o.max_messages * 95 / 100)

abbrev pub budget_of : Options → ℕ
budget_of o = o.max_bytes * 95 / 100

unfoldable pub enforce_limits : Store → Store
enforce_limits s =
    if ltb s.options.max_messages s.n || ltb s.options.max_bytes s.b
    then delete_rows (is_over (keep_of s.options) (budget_of s.options) s.rows) s
    else s

-- The last statement of `prune`: what belongs to a message goes with it.
unfoldable pub drop_orphans : Store → Store
drop_orphans s = record s {
  votes = select (λ v. has_row s.rows v.chat v.poll) s.votes;
  receipts = select (λ x. has_row s.rows x.chat x.id) s.receipts;
  links = select (λ l. str_eq l.message "" || has_row s.rows l.chat l.message) s.links;
}

abbrev pub cutoff : ℕ → Store → ℕ
cutoff now s = unix (now - s.options.retention)

unfoldable pub prune : Faults → ℕ → ℕ → Store → Result Error Store
prune fails k now s = do
  call fails k db_error
  let fresh = delete_rows (λ r. ltb r.t (cutoff now s)) s
  call fails (k + 1) db_error
  call fails (k + 2) db_error
  call fails (k + 3) db_error
  ok (drop_orphans (enforce_limits fresh))

-- `Prune`: BeginTx, prune, Commit.
unfoldable pub prune_all : Faults → ℕ → Store → Result Error Store
prune_all fails now s = do
  call fails 0 db_error
  s' ← prune fails 1 now s
  call fails 5 db_error
  ok s'

-- 256 KiB
abbrev pub max_part : ℕ
max_part = 262144

abbrev pub stored_time : ℕ → Info → ℕ
stored_time now info =
    if info.is_zero || ltb (unix (now + day)) info.time then unix now else info.time

module _ (out : Outside) where
  abbrev pub new_row : ℕ → ℕ → Info → String → String → Row
  new_row now seq info content raw = record {
    seq = seq;
    chat = info.chat_key;
    id = info.id;
    sender = info.sender;
    from_me = info.from_me;
    t = stored_time now info;
    read = info.from_me;
    deleted = false;
    edited = false;
    content = content;
    protocol = raw;
    bytes = len raw + len content;
  }

  abbrev pub put_message : Faults → (now later : ℕ) → Info → Message → Store → Result Error Store
  put_message fails now later info m s = do
    guard (leb (out.size m) max_part) too_large
    raw ← or_fail (out.marshal m) marshal_failed
    encoded ← or_fail (out.view info m) marshal_failed
    guard (leb (len encoded) max_part) too_large
    call fails 0 db_error
    call fails 1 db_error
    s' ← prune fails 2 later (insert_row (new_row now (s.sequence + 1) info encoded raw) s)
    call fails 6 db_error
    ok s'

  -- `now` and `later` are the clock's answers before the transaction and in `prune`.
  unfoldable pub put : Faults → (now later : ℕ) → Info → Option Message → Store → Result Error Store
  put fails now later info none s = ok s
  put fails now later info (some m) s = do
    guard (valid_id info.id && valid_chat out info.chat) invalid_identity
    put_message fails now later info (unwrap m) s
