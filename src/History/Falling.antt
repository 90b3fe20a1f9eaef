-- ===== src/History/Falling.antt =====
-- Rows in falling order, and what `List` asks for from a cursor on.
use wppconnect_server_go.Prelude.{
  ℕ, ◌≤◌, ◌<◌, ◌≡◌, refl, sym, ap, ◌∙◌, ◌⊎◌, inl, inr, Bool, true, false, not, ◌&&◌, ◌||◌, List, [],
  ◌∷◌, ◌++◌, arith, All, All-append, In, Bool-cases, ltb, leb, ◌==◌, str_eq, pos, pos_part,
}
use wppconnect_server_go.Table.{select, insert_by, order_by}
use wppconnect_server_go.History.{Row, Store}
use wppconnect_server_go.History.Rows.{Rising, Rising-mono}
use wppconnect_server_go.History.Invariant.{IsValid}
use wppconnect_server_go.History.Reads.{Query, is_newer, is_listed, matching, last_seq}

-- The sequence numbers fall along the rows, from below `hi`.
abbrev pub Falling : ℕ → List Row → Type 0
Falling hi [] = Unit
Falling hi (r ∷ rows) = (r.seq < hi) × Falling r.seq rows

-- The rows, the last first.
abbrev rev : List Row → List Row
rev [] = []
rev (r ∷ rows) = rev rows ++ r ∷ []

select-append :
    (p : Row → Bool) (xs ys : List Row) → select p (xs ++ ys) ≡ select p xs ++ select p ys
select-append p [] ys = refl
select-append p (x ∷ xs) ys = ground (arith, select-append p xs ys)

select-rev : (p : Row → Bool) (rows : List Row) → select p (rev rows) ≡ rev (select p rows)
select-rev p [] = refl
select-rev p (r ∷ rows) = elim (Bool-cases (p r)) [
  | inl e ↦ rw (select-append p (rev rows) (r ∷ []), e, select-rev p rows) refl
  | inr e ↦
      rw (select-append p (rev rows) (r ∷ []), e, select-rev p rows)
        (append_nil (rev (select p rows)))
]
  where
    append_nil : (xs : List Row) → xs ++ [] ≡ xs
    append_nil [] = refl
    append_nil (x ∷ xs) = ap (◌∷◌ x) (append_nil xs)

pub All-Rising : (lo : ℕ) (rows : List Row) → Rising lo rows → All (λ r. lo < r.seq) rows
All-Rising lo [] s = tt
All-Rising lo (r ∷ rows) s =
    (s.0, All-Rising lo rows (Rising-mono lo r.seq rows (omega (arith, s.0)) s.1))

insert_last :
    (r : Row) (rows : List Row)
    → All (λ x. r.seq < x.seq) rows
    → insert_by is_newer r rows ≡ rows ++ r ∷ []
insert_last r [] h = refl
insert_last r (x ∷ rows) h = ground (arith, insert_last r rows)

All-rev : (P : Row → Type 0) (rows : List Row) → All P rows → All P (rev rows)
All-rev P [] h = tt
All-rev P (r ∷ rows) h = All-append P (rev rows) (r ∷ []) (All-rev P rows h.1) (h.0, tt)

-- Rows in the order of their sequence numbers are sorted by turning them round.
pub order_by-rev : (lo : ℕ) (rows : List Row) → Rising lo rows → order_by is_newer rows ≡ rev rows
order_by-rev lo [] s = refl
order_by-rev lo (r ∷ rows) s =
    rw (order_by-rev r.seq rows s.1)
      (insert_last r (rev rows) (All-rev (λ x. r.seq < x.seq) rows (All-Rising r.seq rows s.1)))

append-Falling :
    (hi : ℕ) (r : Row) (rows : List Row)
    → r.seq < hi
    → Falling hi rows
    → All (λ x. r.seq < x.seq) rows
    → Falling hi (rows ++ r ∷ [])
append-Falling hi r [] h f a = (h, tt)
append-Falling hi r (x ∷ rows) h f a = (f.0, append-Falling x.seq r rows a.0 f.1 a.1)

pub rev-Falling :
    (lo hi : ℕ) (rows : List Row)
    → All (λ r. r.seq < hi) rows
    → Rising lo rows
    → Falling hi (rev rows)
rev-Falling lo hi [] b s = tt
rev-Falling lo hi (r ∷ rows) b s =
    append-Falling hi r (rev rows) b.0 (rev-Falling r.seq hi rows b.1 s.1)
      (All-rev (λ x. r.seq < x.seq) rows (All-Rising r.seq rows s.1))

pub select-Rising :
    (p : Row → Bool) (lo : ℕ) (rows : List Row) → Rising lo rows → Rising lo (select p rows)
select-Rising p lo [] s = tt
select-Rising p lo (r ∷ rows) s =
    ground (arith, select-Rising p r.seq rows s.1, Rising-mono lo r.seq (select p rows))

abbrev pub is_before : ℕ → Row → Bool
is_before c r = ltb r.seq c

select_all :
    (hi c : ℕ) (rows : List Row) → hi ≤ c → Falling hi rows → select (is_before c) rows ≡ rows
select_all hi c [] h f = refl
select_all hi c (r ∷ rows) h f = ground (arith, select_all r.seq c rows)

-- Behind the rows of a page are exactly those with a smaller number than its last row.
pub select_rest :
    (hi : ℕ) (r : Row) (page rest : List Row)
    → Falling hi ((r ∷ page) ++ rest)
    → (last_seq (r ∷ page) ≤ r.seq)
      × (select (is_before (last_seq (r ∷ page))) ((r ∷ page) ++ rest) ≡ rest)
select_rest hi r [] rest f = (omega arith, ground (arith, select_all r.seq r.seq rest))
select_rest hi r (x ∷ page) rest f =
    let k = select_rest r.seq x page rest f.1 in
    (omega (arith, k.0, f.1.0), ground (arith, k.0, k.1, f.1.0))

pub last_seq-In :
    (r : Row) (page : List Row) → (x : Row) × In x (r ∷ page) × (x.seq ≡ last_seq (r ∷ page))
last_seq-In r [] = (r, inl refl, refl)
last_seq-In r (y ∷ page) = let (x, m, e) = last_seq-In y page in (x, inr m, e)

abbrev pub following : Query → ℕ → Query
following q c = record q { before = pos c }

narrower :
    (a b u t wide : Bool)
    → (t ≡ true → wide ≡ true)
    → (a && b && t && u) ≡ ((a && b && wide && u) && t)
narrower false b u t wide h = refl
narrower true false u t wide h = refl
narrower true true true true wide h = rw (h refl) refl
narrower true true false true wide h = rw (h refl) refl
narrower true true true false true h = refl
narrower true true true false false h = refl
narrower true true false false true h = refl
narrower true true false false false h = refl

is_listed-following :
    (since c : ℕ) (q : Query) (r : Row)
    → 1 ≤ c
    → (pos_part q.before ≡ 0) ⊎ (c ≤ pos_part q.before)
    → is_listed since (following q c) r ≡ (is_listed since q r && is_before c r)
is_listed-following since c q r h b =
    ap
      (λ z.
        leb since r.t
        && (str_eq q.chat "" || str_eq r.chat q.chat)
        && z
        && (not q.unread || not r.read && not r.from_me))
      (not_zero c (ltb r.seq c) h)
    ∙ narrower (leb since r.t) (str_eq q.chat "" || str_eq r.chat q.chat)
        (not q.unread || not r.read && not r.from_me) (ltb r.seq c)
        (pos_part q.before == 0 || ltb r.seq (pos_part q.before)) (inside (pos_part q.before) b)
  where
    not_zero : (c : ℕ) (t : Bool) → 1 ≤ c → (c == 0 || t) ≡ t
    not_zero c t h = ground arith

    inside : (m : ℕ) → (m ≡ 0) ⊎ (c ≤ m) → ltb r.seq c ≡ true → (m == 0 || ltb r.seq m) ≡ true
    inside m b e = ground arith

select_twice :
    (p q t : Row → Bool) (rows : List Row)
    → ((r : Row) → p r ≡ (q r && t r))
    → select p rows ≡ select t (select q rows)
select_twice p q t [] h = refl
select_twice p q t (r ∷ rows) h = elim (Bool-cases (q r)) [
  | inl e ↦ rw (h r, e, select_twice p q t rows h) refl
  | inr e ↦ rw (h r, e) (select_twice p q t rows h)
]

pub matching-following :
    (since c : ℕ) (q : Query) (s : Store)
    → IsValid s
    → 1 ≤ c
    → (pos_part q.before ≡ 0) ⊎ (c ≤ pos_part q.before)
    → matching since (following q c) s ≡ select (is_before c) (matching since q s)
matching-following since c q s v h b =
    let asked = select (is_listed since q) s.rows in
    let rising = select-Rising (is_listed since q) 0 s.rows v.sound.rising in
    let same =
      select_twice (is_listed since (following q c)) (is_listed since q) (is_before c) s.rows
        (λ r. is_listed-following since c q r h b) in
    ap (order_by is_newer) same
    ∙ order_by-rev 0 (select (is_before c) asked) (select-Rising (is_before c) 0 asked rising)
    ∙ sym (select-rev (is_before c) asked)
    ∙ ap (select (is_before c)) (sym (order_by-rev 0 asked rising))
