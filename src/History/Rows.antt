-- ===== src/History/Rows.antt =====
-- The rows of history_messages: what the statements that insert, delete and change them keep.
use wppconnect_server_go.Prelude.{
  ℕ, ◌+◌, ◌≤◌, ◌<◌, ◌≡◌, refl, sym, subst, inl, inr, Bool, true, false, List, [], ◌∷◌, ◌++◌, arith,
  eq_iff, length, length-append, sum_by, sum_by-append, All, All-append, All-imp, Bool-cases,
  if◌then◌else◌,
}
use wppconnect_server_go.Table.{select, delete, update}
use wppconnect_server_go.Table.Laws.{
  length-delete, sum_by-delete, All-delete, All-update, length-update,
}
use wppconnect_server_go.History.{Row, Store, is_row, has_row, delete_rows, insert_row}
use wppconnect_server_go.History.Edits.{update_rows}

abbrev pub row_bytes : Row → ℕ
row_bytes r = r.bytes

-- The sequence numbers rise along the table, from above `lo`.
abbrev pub Rising : ℕ → List Row → Type 0
Rising lo [] = Unit
Rising lo (r ∷ rows) = (lo < r.seq) × Rising r.seq rows

-- No two rows have the same chat and message.
abbrev pub Distinct : List Row → Type 0
Distinct [] = Unit
Distinct (r ∷ rows) = All (λ x. is_row r.chat r.id x ≡ false) rows × Distinct rows

pub record IsSound (s : Store) : Type 0 where
  pub counted : s.n ≡ length s.rows
  pub sized : s.b ≡ sum_by row_bytes s.rows
  pub rising : Rising 0 s.rows
  pub bounded : All (λ r. r.seq ≤ s.sequence) s.rows
  pub distinct : Distinct s.rows

pub Rising-mono : (a b : ℕ) (rows : List Row) → a ≤ b → Rising b rows → Rising a rows
Rising-mono a b [] h s = tt
Rising-mono a b (r ∷ rows) h s = (omega arith, s.1)

delete-Rising :
    (p : Row → Bool) (lo : ℕ) (rows : List Row) → Rising lo rows → Rising lo (delete p rows)
delete-Rising p lo [] s = tt
delete-Rising p lo (r ∷ rows) s =
    ground (arith, delete-Rising p r.seq rows s.1, Rising-mono lo r.seq (delete p rows))

append-Rising :
    (lo : ℕ) (r : Row) (rows : List Row)
    → lo < r.seq
    → Rising lo rows
    → All (λ x. x.seq < r.seq) rows
    → Rising lo (rows ++ r ∷ [])
append-Rising lo r [] h s b = (h, tt)
append-Rising lo r (x ∷ rows) h s b = (s.0, append-Rising x.seq r rows b.0 s.1 b.1)

delete-Distinct : (p : Row → Bool) (rows : List Row) → Distinct rows → Distinct (delete p rows)
delete-Distinct p [] h = tt
delete-Distinct p (r ∷ rows) h = elim (Bool-cases (p r)) [
  | inl e ↦ rw e (delete-Distinct p rows h.1)
  | inr e ↦
      rw e (All-delete (λ x. is_row r.chat r.id x ≡ false) p rows h.0, delete-Distinct p rows h.1)
]

append-Distinct :
    (r : Row) (rows : List Row)
    → has_row rows r.chat r.id ≡ false
    → Distinct rows
    → Distinct (rows ++ r ∷ [])
append-Distinct r [] h k = (tt, tt)
append-Distinct r (x ∷ rows) h k = (
  All-append (λ y. is_row x.chat x.id y ≡ false) rows (r ∷ []) k.0
      (
        ground
            (arith, eq_iff x.chat r.chat, eq_iff r.chat x.chat, eq_iff x.id r.id, eq_iff r.id x.id),
        tt,
      ),
  append-Distinct r rows (ground arith) k.1,
)

pub delete_rows-IsSound : (p : Row → Bool) (s : Store) → IsSound s → IsSound (delete_rows p s)
unfolding delete_rows
delete_rows-IsSound p s v = record {
  counted = omega (arith, length-delete p s.rows, v.counted);
  sized = omega (arith, sum_by-delete p row_bytes s.rows, v.sized);
  rising = delete-Rising p 0 s.rows v.rising;
  bounded = All-delete (λ r. r.seq ≤ s.sequence) p s.rows v.bounded;
  distinct = delete-Distinct p s.rows v.distinct;
}

pub insert_row-IsSound :
    (r : Row) (s : Store) → r.seq ≡ s.sequence + 1 → IsSound s → IsSound (insert_row r s)
unfolding insert_row
insert_row-IsSound r s q v = elim (Bool-cases (has_row s.rows r.chat r.id)) [
  | inl e ↦ rw e v
  | inr e ↦ rw e (record {
    counted = omega (arith, length-append s.rows (r ∷ []), v.counted);
    sized = omega (arith, sum_by-append row_bytes s.rows (r ∷ []), v.sized);
    rising = append-Rising 0 r s.rows (omega arith) v.rising (
        All-imp (λ x. x.seq ≤ s.sequence) (λ x. x.seq < r.seq) (λ x h. omega arith) s.rows
          v.bounded);
    bounded =
        All-append (λ x. x.seq ≤ r.seq) s.rows (r ∷ [])
          (All-imp (λ x. x.seq ≤ s.sequence) (λ x. x.seq ≤ r.seq) (λ x h. omega arith) s.rows
            v.bounded)
          (omega arith, tt);
    distinct = append-Distinct r s.rows e v.distinct;
  })
]

-- A change of rows that keeps their keys and their numbers.
pub record Keeps (f : Row → Row) : Type 0 where
  pub same_seq : (r : Row) → (f r).seq ≡ r.seq
  pub same_chat : (r : Row) → (f r).chat ≡ r.chat
  pub same_id : (r : Row) → (f r).id ≡ r.id

if_keeps {ℓ} :
    {A : Type ℓ} (g : Row → A) (f : Row → Row) (b : Bool) (r : Row)
    → g (f r) ≡ g r
    → g (if b then f r else r) ≡ g r
if_keeps g f true r h = h
if_keeps g f false r h = refl

update-Rising :
    (p : Row → Bool) (f : Row → Row)
    → Keeps f
    → (lo : ℕ) (rows : List Row) → Rising lo rows
    → Rising lo (update p f rows)
update-Rising p f k lo [] s = tt
update-Rising p f k lo (r ∷ rows) s =
    rw (if_keeps (λ x. x.seq) f (p r) r (k.same_seq r)) (s.0, update-Rising p f k r.seq rows s.1)

update-Distinct :
    (p : Row → Bool) (f : Row → Row)
    → Keeps f
    → (rows : List Row) → Distinct rows
    → Distinct (update p f rows)
update-Distinct p f k [] h = tt
update-Distinct p f k (r ∷ rows) h = (
  rw
      (
        if_keeps (λ x. x.chat) f (p r) r (k.same_chat r),
        if_keeps (λ x. x.id) f (p r) r (k.same_id r),
      )
      (All-update (λ x. is_row r.chat r.id x ≡ false) p f
        (λ a t e. rw (k.same_chat a, k.same_id a) e) rows h.0),
  update-Distinct p f k rows h.1,
)

sum-update :
    (p : Row → Bool) (f : Row → Row) (rows : List Row)
    → sum_by row_bytes (update p f rows) + sum_by row_bytes (select p rows)
      ≡ sum_by row_bytes rows + sum_by (λ r. (f r).bytes) (select p rows)
sum-update p f [] = refl
sum-update p f (r ∷ rows) = ground (arith, sum-update p f rows)

pub update_rows-IsSound :
    (p : Row → Bool) (f : Row → Row) (s : Store) → Keeps f → IsSound s → IsSound (update_rows p f s)
unfolding update_rows
update_rows-IsSound p f s k v = record {
  counted = omega (arith, length-update p f s.rows, v.counted);
  sized = omega (arith, sum-update p f s.rows, v.sized);
  rising = update-Rising p f k 0 s.rows v.rising;
  bounded =
      All-update (λ r. r.seq ≤ s.sequence) p f
        (λ a t h. subst (λ n. n ≤ s.sequence) (sym (k.same_seq a)) h) s.rows v.bounded;
  distinct = update-Distinct p f k s.rows v.distinct;
}
