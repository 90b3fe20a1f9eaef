-- ===== src/History/Edits.antt =====
-- internal/history/store.go: the changes of stored messages, their deletion and their receipts. An
-- operation outside a transaction that fails half-way keeps what it has done, so it returns the
-- store in any case. A change reads the message with one call of the database and updates it with a
-- later one, so the state `seen` by the first is a parameter of its own.
use wppconnect_server_go.Prelude.{
  ℕ, ◌+◌, ◌-◌, ◌*◌, max, String, len, Bool, true, not, ◌&&◌, ◌||◌, Option, none, some, List, [],
  ◌∷◌, ◌++◌, ltb, leb, str_eq, if◌then◌else◌, sum_by, Result, ok, ◌>>=◌, ◌>>◌, guard, or_fail,
  Faults, call, length,
}
use wppconnect_server_go.Table.{select, delete, update, exists}
use wppconnect_server_go.Media.Messages.{Message}
use wppconnect_server_go.History.{
  Row, Receipt, Store, Error, db_error, invalid_time, too_large, marshal_failed, invalid_chat,
  invalid_receipt, Outside, day, unix_milli, max_part, is_row, has_row, delete_rows, valid_id,
  valid_chat,
}
use wppconnect_server_go.History.Reads.{get}

-- UPDATE history_messages SET …, with its trigger on `bytes`.
unfoldable pub update_rows : (Row → Bool) → (Row → Row) → Store → Store
update_rows p f s = record s {
  rows = update p f s.rows;
  b = s.b + sum_by (λ r. (f r).bytes) (select p s.rows) - sum_by (λ r. r.bytes) (select p s.rows);
}

abbrev pub set_read : Row → Row
set_read r = record r { read = true }

unfoldable pub mark_read : Faults → ℕ → String → List String → Store → Option Error × Store
mark_read fails k chat [] s = (none, s)
mark_read fails k chat (id ∷ ids) s =
    let rest = mark_read fails (k + 1) chat ids (update_rows (is_row chat id) set_read s) in
    if fails k then (some db_error, s) else rest

abbrev pub erased : String → Row → Row
erased text r = record r { deleted = true; content = text; protocol = ""; bytes = len text }

abbrev pub replaced : String → String → Row → Row
replaced text raw r = record r {
  edited = true;
  content = text;
  protocol = raw;
  bytes = len text + len raw;
}

abbrev pub in_chat : String → String → Bool
in_chat chat c = str_eq chat "" || str_eq c chat

-- The four DELETE statements of `Purge`.
abbrev pub purged : String → Store → Store
purged chat s = record (delete_rows (λ r. in_chat chat r.chat) s) {
  votes = delete (λ v. in_chat chat v.chat) s.votes;
  receipts = delete (λ x. in_chat chat x.chat) s.receipts;
  links = delete (λ l. not (str_eq l.message "") && in_chat chat l.chat) s.links;
}

module _ (out : Outside) where
  -- `coalesce(json_extract(content,'$.updatedAt'),t*1000)`
  abbrev pub changed_at : Row → ℕ
  changed_at r = elim (out.updated_at r.content) [ none ↦ r.t * 1000 | some at ↦ at ]

  abbrev pub may_erase : String → String → ℕ → Row → Bool
  may_erase chat id at r = is_row chat id r && leb (changed_at r) at

  abbrev pub may_edit : String → String → ℕ → Row → Bool
  may_edit chat id at r = is_row chat id r && not r.deleted && leb (changed_at r) at

  unfoldable pub erase : Faults → String → String → ℕ → Store → Result Error Store
  erase fails chat id at s = do
    call fails 0 db_error
    ok (update_rows (may_erase chat id at) (erased (out.mark at)) s)

  unfoldable pub edit :
      Faults → ℕ → String → String → Message → ℕ → (seen s : Store) → Result Error Store
  edit fails now chat id m at seen s = do
    r ← get out fails 0 now chat id seen
    guard (leb (out.size m) max_part) too_large
    raw ← or_fail (out.marshal m) marshal_failed
    text ← or_fail (out.view_at r m at) marshal_failed
    call fails 1 db_error
    ok (update_rows (may_edit chat id at) (replaced text raw) s)

  abbrev pub change_by :
      Faults → ℕ → String → String → Option Message → ℕ → (seen s : Store) → Result Error Store
  change_by fails now chat id none at seen s = erase fails chat id at s
  change_by fails now chat id (some m) at seen s = edit fails now chat id m at seen s

  -- `ChangeAt`: no replacement deletes the message.
  unfoldable pub change_at :
      Faults → ℕ → String → String → Option Message → ℕ → (seen s : Store) → Result Error Store
  change_at fails now chat id replacement at seen s = do
    guard (ltb 0 at && leb at (unix_milli (now + day))) invalid_time
    change_by fails now chat id replacement at seen s

  -- `Change`: the clock is read here and once more in `ChangeAt`.
  unfoldable pub change :
      Faults
      → (first now : ℕ) → String
      → String
      → Option Message
      → (seen s : Store) → Result Error Store
  change fails first now chat id replacement seen s =
      change_at fails now chat id replacement (unix_milli first) seen s

  unfoldable pub purge : Faults → String → Store → Result Error Store
  purge fails chat s = do
    guard (str_eq chat "" || valid_chat out chat) invalid_chat
    call fails 0 db_error
    call fails 1 db_error
    call fails 2 db_error
    call fails 3 db_error
    call fails 4 db_error
    call fails 5 db_error
    ok (purged chat s)

-- What is used of events.Receipt.
pub record ReceiptEvent : Type 0 where
  pub chat : String
  pub sender : String
  pub kind : String
  pub ids : List String
  pub time : ℕ

abbrev pub is_receipt : ReceiptEvent → String → Receipt → Bool
is_receipt e id x =
    str_eq x.chat e.chat && str_eq x.id id && str_eq x.sender e.sender && str_eq x.kind e.kind

abbrev pub later : ℕ → Receipt → Receipt
later t x = record x { t = max x.t t }

abbrev pub new_receipt : ReceiptEvent → String → Receipt
new_receipt e id = record { chat = e.chat; id = id; sender = e.sender; kind = e.kind; t = e.time }

-- INSERT INTO history_receipts … WHERE EXISTS … ON CONFLICT … DO UPDATE SET t=MAX(t,excluded.t)
unfoldable pub upsert_receipt : ReceiptEvent → String → Store → Store
upsert_receipt e id s =
    if not (has_row s.rows e.chat id)
    then s
    else if exists (is_receipt e id) s.receipts
    then record s { receipts = update (is_receipt e id) (later e.time) s.receipts }
    else record s { receipts = s.receipts ++ new_receipt e id ∷ [] }

-- The loop of `Receipt`; an invalid identifier makes no call of the database.
unfoldable pub receipts_of : Faults → ℕ → ReceiptEvent → List String → Store → Option Error × Store
receipts_of fails k e [] s = (none, s)
receipts_of fails k e (id ∷ ids) s =
    let skip = receipts_of fails k e ids s in
    let rest = receipts_of fails (k + 1) e ids (upsert_receipt e id s) in
    if not (valid_id id) then skip else if fails k then (some db_error, s) else rest

unfoldable pub receipt : Faults → Option ReceiptEvent → Store → Option Error × Store
receipt fails none s = (some invalid_receipt, s)
receipt fails (some e) s =
    if ltb 1000 (length e.ids) then (some invalid_receipt, s) else receipts_of fails 0 e e.ids s
