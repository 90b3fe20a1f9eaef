-- ===== src/History/Labels.antt =====
-- internal/history/metadata.go: labels, what they are attached to, and the quotas of both. A
-- statement outside a transaction stays when the check of its result fails, so an operation returns
-- the store in any case.
use wppconnect_server_go.Prelude.{
  ℕ, ◌+◌, String, Bool, true, false, not, ◌&&◌, ◌||◌, Option, none, some, List, [], ◌∷◌, ◌++◌, map,
  ltb, leb, str_eq, if◌then◌else◌, Result, ok, ◌>>◌, Faults, call, ◌==◌, length, ℤ, pos, negsuc,
  lookup, insert,
}
use wppconnect_server_go.Table.{select, update, exists, count, order_by}
use wppconnect_server_go.History.{
  Label, Link, Store, Error, db_error, invalid_label, quota_reached, Outside, unix_milli, valid_id,
  valid_chat,
}

-- INSERT … SELECT … WHERE (the table has room or the key) ON CONFLICT DO UPDATE … WHERE: the rows
-- and the number of rows it changed.
unfoldable pub upsert {ℓ} :
    {A : Type ℓ} → (limit : ℕ) (same may : A → Bool) (set : A → A) (new : A) → List A → List A × ℕ
upsert limit same may set new rows =
    if exists same rows
    then (update (λ r. same r && may r) set rows, count (λ r. same r && may r) rows)
    else if ltb (length rows) limit
    then (rows ++ new ∷ [], 1)
    else (rows, 0)

-- `quotaResult`: `found` is whether the key is in the table.
unfoldable pub quota_result : Faults → ℕ → (affected : ℕ) → (found : Bool) → Option Error
quota_result fails k affected found =
    if fails k
    then some db_error
    else if ltb 0 affected
    then none
    else if fails (k + 1)
    then some db_error
    else if found
    then none
    else some quota_reached

abbrev pub max_labels : ℕ
max_labels = 1000

abbrev pub max_links : ℕ
max_links = 100000

abbrev pub valid_color : ℤ → Bool
valid_color (pos n) = leb n 19
valid_color (negsuc n) = false

abbrev pub has_label : String → Label → Bool
has_label id l = str_eq l.id id

abbrev pub is_link : String → String → String → Link → Bool
is_link label chat message l =
    str_eq l.label label && str_eq l.chat chat && str_eq l.message message

-- `if v.Updated == 0 { v.Updated = now }`
abbrev pub or_now : ℕ → ℕ → ℕ
or_now now at = if at == 0 then unix_milli now else at

abbrev pub renamed : Label → Label → Label
renamed v l = record l { name = v.name; color = v.color; deleted = v.deleted; updated = v.updated }

abbrev pub put_label : Faults → Label → Store → Option Error × Store
put_label fails v s =
    let (rows, affected) =
      upsert max_labels (has_label v.id) (λ l. leb l.updated v.updated) (renamed v) v s.labels in
    if fails 0
    then (some db_error, s)
    else (quota_result fails 1 affected (exists (has_label v.id) rows), record s { labels = rows })

abbrev pub relinked : Link → Link → Link
relinked v l = record l { active = v.active; updated = v.updated }

abbrev pub put_link : Faults → Link → Store → Option Error × Store
put_link fails v s =
    let same = is_link v.label v.chat v.message in
    let (rows, affected) =
      upsert max_links same (λ l. leb l.updated v.updated) (relinked v) v s.links in
    if fails 0
    then (some db_error, s)
    else (quota_result fails 1 affected (exists same rows), record s { links = rows })

-- `JOIN history_labels d ON d.id=l.label … d.deleted=0`; a label's id is the key of its table.
abbrev pub is_shown : List Label → Link → Bool
is_shown labels l = l.active && exists (λ d. str_eq d.id l.label && not d.deleted) labels

abbrev pub set_of : Option (List (String × Bool)) → List (String × Bool)
set_of none = []
set_of (some m) = m

-- `out[chat][label] = true` for the rows of the query.
abbrev pub add_labels :
    List Link → List (String × List (String × Bool)) → List (String × List (String × Bool))
add_labels [] sets = sets
add_labels (l ∷ links) sets =
    add_labels links (insert l.chat (insert l.label true (set_of (lookup l.chat sets))) sets)

-- The events of `ObserveLabels` whose action is there; every other event changes nothing.
pub data LabelEvent : Type 0 where
  label_edit : (id name : String) → (color : ℤ) → (deleted : Bool) → (at : ℕ) → LabelEvent
  label_chat : (label chat : String) → (labeled : Bool) → (at : ℕ) → LabelEvent
  label_message : (label chat message : String) → (labeled : Bool) → (at : ℕ) → LabelEvent
  other_event : LabelEvent

module _ (out : Outside) where
  abbrev pub valid_label : Label → Bool
  valid_label v =
      valid_id v.id
      && out.valid_utf8 v.name
      && leb (out.rune_count v.name) 100
      && (v.deleted || not (str_eq v.name ""))
      && valid_color v.color

  unfoldable pub set_label : Faults → ℕ → Label → Store → Option Error × Store
  set_label fails now v s =
      if not (valid_label v)
      then (some invalid_label, s)
      else put_label fails (record v { updated = or_now now v.updated }) s

  abbrev pub label_before : Label → Label → Bool
  label_before x y = out.text_before x.id y.id

  unfoldable pub labels : Faults → Store → Result Error (List Label)
  labels fails s = do
    call fails 0 db_error
    call fails 1 db_error
    ok (order_by label_before (select (λ l. not l.deleted) s.labels))

  abbrev pub valid_link : String → String → String → Bool
  valid_link label chat message =
      valid_id label && valid_chat out chat && (str_eq message "" || valid_id message)

  unfoldable pub associate :
      Faults → ℕ → (label chat message : String) → Bool → ℕ → Store → Option Error × Store
  associate fails now label chat message active at s =
      if not (valid_link label chat message)
      then (some invalid_label, s)
      else put_link fails
          (record {
            label = label;
            chat = chat;
            message = message;
            active = active;
            updated = or_now now at;
          })
          s

  unfoldable pub chat_labels : Faults → (chat message : String) → Store → Result Error (List String)
  chat_labels fails chat message s = do
    call fails 0 db_error
    call fails 1 db_error
    ok (
        order_by out.text_before (
          map (λ (l : Link). l.label)
            (select (λ l. str_eq l.chat chat && str_eq l.message message && is_shown s.labels l)
              s.links)))

  unfoldable pub chat_label_sets :
      Faults → Store → Result Error (List (String × List (String × Bool)))
  chat_label_sets fails s = do
    call fails 0 db_error
    call fails 1 db_error
    ok (add_labels (select (λ l. str_eq l.message "" && is_shown s.labels l) s.links) [])

  unfoldable pub observe_labels : Faults → ℕ → LabelEvent → Store → Option Error × Store
  observe_labels fails now (label_edit id name color deleted at) s =
      set_label fails now
        (record { id = id; name = name; color = color; deleted = deleted; updated = at }) s
  observe_labels fails now (label_chat label chat labeled at) s =
      associate fails now label chat "" labeled at s
  observe_labels fails now (label_message label chat message labeled at) s =
      associate fails now label chat message labeled at s
  observe_labels fails now other_event s = (none, s)
