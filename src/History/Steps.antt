-- ===== src/History/Steps.antt =====
-- Every sequence of operations keeps the tables of a history consistent.
use wppconnect_server_go.Prelude.{
  ℕ, ◌+◌, ◌≤◌, String, ◌≡◌, refl, sym, subst, inl, inr, Bool, true, false, not, ◌&&◌, Option,
  Option-cases, none, some, List, [], ◌∷◌, ◌++◌, arith, str_eq, eq_iff, length, length-append, All,
  All-append, All-imp, In, All-of_In, All-In, Bool-cases, ok, Faults, Result-cases, leb, ltb,
}
use wppconnect_server_go.Table.{select, delete, update, exists}
use wppconnect_server_go.Table.Laws.{All-update, In-select, In-delete, length-update, length-delete}
use wppconnect_server_go.Media.Messages.{Message}
use wppconnect_server_go.History.{
  Row, Receipt, Store, Outside, is_row, has_row, delete_rows, valid_id, cutoff,
}
use wppconnect_server_go.History.Rows.{delete_rows-IsSound, Keeps, update_rows-IsSound}
use wppconnect_server_go.History.Invariant.{IsValid}
use wppconnect_server_go.History.Reads.{scan, one_of, get}
use wppconnect_server_go.History.Edits.{
  update_rows, set_read, mark_read, erased, replaced, may_erase, may_edit, erase, edit, change_at,
  in_chat, purged, purge, ReceiptEvent, is_receipt, later, new_receipt, upsert_receipt, receipts_of,
  receipt,
}
use wppconnect_server_go.History.Labels.{upsert}

-- What `Get` returns is a row of the table with that key, within retention.
pub get_ok :
    (out : Outside) (fails : Faults) (k now : ℕ) (chat id : String) (s : Store) (r : Row)
    → get out fails k now chat id s ≡ ok r
    → In r s.rows × (is_row chat id r ≡ true) × (cutoff now s ≤ r.t)
unfolding get scan
get_ok out fails k now chat id s r h =
    let p = λ (x : Row). is_row chat id x && leb (cutoff now s) x.t in
    let m = first (select p s.rows) (ground arith) in
    let (old, q) = In-select p r s.rows m in (old, ground arith, ground arith)
  where
    first : (rows : List Row) → one_of out rows ≡ ok r → In r rows
    first [] e = absurd (ground (arith, e))
    first (x ∷ rows) e = inl (ground arith)

has_row-update :
    (p : Row → Bool) (f : Row → Row) (chat id : String)
    → Keeps f
    → (rows : List Row) → has_row (update p f rows) chat id ≡ has_row rows chat id
has_row-update p f chat id k [] = refl
has_row-update p f chat id k (r ∷ rows) =
    ground (arith, has_row-update p f chat id k rows, k.same_chat r, k.same_id r)

update_rows-IsValid :
    (p : Row → Bool) (f : Row → Row) (s : Store) → Keeps f → IsValid s → IsValid (update_rows p f s)
unfolding update_rows
update_rows-IsValid p f s k v = record {
  sound = update_rows-IsSound p f s k v.sound;
  received =
      All-imp (λ x. has_row s.rows x.chat x.id ≡ true)
        (λ x. has_row (update p f s.rows) x.chat x.id ≡ true)
        (λ x h. ground (arith, has_row-update p f x.chat x.id k s.rows)) s.receipts v.received;
  few_labels = v.few_labels;
  few_links = v.few_links;
  few_votes = v.few_votes;
}

pub mark_read-IsValid :
    (fails : Faults) (k : ℕ) (chat : String) (ids : List String) (s : Store)
    → IsValid s
    → IsValid (mark_read fails k chat ids s).1
unfolding mark_read
mark_read-IsValid fails k chat [] s v = v
mark_read-IsValid fails k chat (id ∷ ids) s v = elim (Bool-cases (fails k)) [
  | inl e ↦ rw e v
  | inr e ↦ rw e (
      mark_read-IsValid fails (k + 1) chat ids (update_rows (is_row chat id) set_read s) (
        update_rows-IsValid (is_row chat id) set_read s
          (record { same_seq = λ r. refl; same_chat = λ r. refl; same_id = λ r. refl }) v))
]

pub change_at-IsValid :
    (out : Outside) (fails : Faults) (now : ℕ) (chat id : String) (m : Option Message) (at : ℕ)
    (seen s s' : Store)
    → IsValid s
    → change_at out fails now chat id m at seen s ≡ ok s'
    → IsValid s'
unfolding change_at erase edit
change_at-IsValid out fails now chat id none at seen s s' v h = subst IsValid (ground arith) (
    update_rows-IsValid (may_erase out chat id at) (erased (out.mark at)) s
      (record { same_seq = λ r. refl; same_chat = λ r. refl; same_id = λ r. refl }) v)
change_at-IsValid out fails now chat id (some m) at seen s s' v h =
    elim (Result-cases (get out fails 0 now chat id seen)) [
      | inr (e, p) ↦ absurd (ground (arith, p))
      | inl (r, p) ↦ elim (Option-cases (out.marshal m)) [
        | inl q ↦ absurd (ground (arith, p, q))
        | inr (raw, q) ↦ elim (Option-cases (out.view_at r m at)) [
          | inl t ↦ absurd (ground (arith, p, q, t))
          | inr (text, t) ↦ subst IsValid (ground (arith, p, q, t)) (
              update_rows-IsValid (may_edit out chat id at) (replaced text raw) s
                (record { same_seq = λ r. refl; same_chat = λ r. refl; same_id = λ r. refl }) v)
        ]
      ]
    ]

-- A message outside the purged chats stays, and with it what belongs to it.
kept_outside :
    (chat c id : String) (rows : List Row)
    → in_chat chat c ≡ false
    → has_row rows c id ≡ true
    → has_row (delete (λ r. in_chat chat r.chat) rows) c id ≡ true
kept_outside chat c id [] o h = h
kept_outside chat c id (r ∷ rows) o h = ground (arith, kept_outside chat c id rows, eq_iff r.chat c)

purged-IsValid : (chat : String) (s : Store) → IsValid s → IsValid (purged chat s)
unfolding delete_rows
purged-IsValid chat s v =
    let p = λ (r : Row). in_chat chat r.chat in
    let w = delete_rows-IsSound p s v.sound in
    record {
      sound = record {
        counted = w.counted;
        sized = w.sized;
        rising = w.rising;
        bounded = w.bounded;
        distinct = w.distinct;
      };
      received = All-of_In _ _ λ x m.
          let (old, q) = In-delete (λ y. in_chat chat y.chat) x s.receipts m in
          kept_outside chat x.chat x.id s.rows q
            (All-In (λ y. has_row s.rows y.chat y.id ≡ true) x s.receipts v.received old);
      few_labels = v.few_labels;
      few_links = omega (
        arith,
        v.few_links,
        length-delete (λ l. not (str_eq l.message "") && in_chat chat l.chat) s.links,
      );
      few_votes = omega (arith, v.few_votes, length-delete (λ y. in_chat chat y.chat) s.votes);
    }

pub purge-IsValid :
    (out : Outside) (fails : Faults) (chat : String) (s s' : Store)
    → IsValid s
    → purge out fails chat s ≡ ok s'
    → IsValid s'
unfolding purge
purge-IsValid out fails chat s s' v h =
    subst IsValid (done (ground arith)) (purged-IsValid chat s v)
  where
    done : s' ≡ purged chat s → purged chat s ≡ s'
    done e = sym e

-- A table of quota `limit` that is within it stays so, whatever is upserted.
pub upsert-le :
    {A : Type 0} (limit : ℕ) (same may : A → Bool) (set : A → A) (new : A) (rows : List A)
    → length rows ≤ limit
    → length (upsert limit same may set new rows).0 ≤ limit
unfolding upsert
upsert-le limit same may set new rows h = elim (Bool-cases (exists same rows)) [
  | inl e ↦ ground (arith, e, length-update (λ r. same r && may r) set rows)
  | inr e ↦ ground (arith, e, length-append rows (new ∷ []))
]

upsert_receipt-IsValid :
    (e : ReceiptEvent) (id : String) (s : Store) → IsValid s → IsValid (upsert_receipt e id s)
unfolding upsert_receipt
upsert_receipt-IsValid e id s v = elim (Bool-cases (has_row s.rows e.chat id)) [
  | inr h ↦ rw h v
  | inl h ↦ elim (Bool-cases (exists (is_receipt e id) s.receipts)) [
    | inl x ↦
        rw (h, x)
          (with_receipts s (update (is_receipt e id) (later e.time) s.receipts) v (
            All-update (λ y. has_row s.rows y.chat y.id ≡ true) (is_receipt e id) (later e.time)
              (λ a t p. p) s.receipts v.received))
    | inr x ↦
        rw (h, x)
          (with_receipts s (s.receipts ++ new_receipt e id ∷ []) v (
            All-append (λ y. has_row s.rows y.chat y.id ≡ true) s.receipts (new_receipt e id ∷ [])
              v.received (h, tt)))
  ]
]
  where
    with_receipts :
        (s : Store) (rows : List Receipt)
        → IsValid s
        → All (λ x. has_row s.rows x.chat x.id ≡ true) rows
        → IsValid (record s { receipts = rows })
    with_receipts s rows v h = record {
      sound = record {
        counted = v.sound.counted;
        sized = v.sound.sized;
        rising = v.sound.rising;
        bounded = v.sound.bounded;
        distinct = v.sound.distinct;
      };
      received = h;
      few_labels = v.few_labels;
      few_links = v.few_links;
      few_votes = v.few_votes;
    }

receipts_of-IsValid :
    (fails : Faults) (k : ℕ) (e : ReceiptEvent) (ids : List String) (s : Store)
    → IsValid s
    → IsValid (receipts_of fails k e ids s).1
unfolding receipts_of
receipts_of-IsValid fails k e [] s v = v
receipts_of-IsValid fails k e (id ∷ ids) s v = elim (Bool-cases (valid_id id)) [
  | inr q ↦ rw q (receipts_of-IsValid fails k e ids s v)
  | inl q ↦ elim (Bool-cases (fails k)) [
    | inl f ↦ rw (q, f) v
    | inr f ↦
        rw (q, f)
          (receipts_of-IsValid fails (k + 1) e ids (upsert_receipt e id s)
            (upsert_receipt-IsValid e id s v))
  ]
]

pub receipt-IsValid :
    (fails : Faults) (e : Option ReceiptEvent) (s : Store)
    → IsValid s
    → IsValid (receipt fails e s).1
unfolding receipt
receipt-IsValid fails none s v = v
receipt-IsValid fails (some e) s v = elim (Bool-cases (ltb 1000 (length e.ids))) [
  | inl q ↦ rw q v
  | inr q ↦ rw q (receipts_of-IsValid fails 0 e e.ids s v)
]
