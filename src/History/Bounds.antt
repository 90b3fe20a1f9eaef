-- ===== src/History/Bounds.antt =====
-- The limits of the history, and the message that a `Put` adds.
use wppconnect_server_go.Prelude.{
  ℕ, ◌+◌, ◌*◌, ◌/◌, ◌≤◌, ◌≡◌, refl, sym, ap, subst, ◌∙◌, inl, inr, Bool, true, false, ◌||◌, some,
  List, [], ◌∷◌, arith, length, sum_by, max, All, In, Bool-cases, ok, Faults, ltb,
}
use wppconnect_server_go.Table.{select, delete, count}
use wppconnect_server_go.Table.Laws.{In-delete}
use wppconnect_server_go.Media.Messages.{Message}
use wppconnect_server_go.History.{
  Options, valid_options, Row, Store, Outside, Info, is_at_or_after, delete_rows, insert_row,
  is_over, keep_of, budget_of, enforce_limits, drop_orphans, cutoff, new_row, put,
}
use wppconnect_server_go.History.Rows.{
  IsSound, Rising, row_bytes, delete_rows-IsSound, insert_row-IsSound,
}
use wppconnect_server_go.History.Invariant.{
  IsValid, pruned, put_ok, fresh-SameTables, insert_row-SameTables,
}

-- What one test leaves is bounded by what another one selects.
sum_by-delete-le :
    (p q : Row → Bool) (rows : List Row)
    → All (λ r. q r ≡ true) (delete p rows)
    → sum_by row_bytes (delete p rows) ≤ sum_by row_bytes (select q rows)
sum_by-delete-le p q [] h = omega arith
sum_by-delete-le p q (r ∷ rows) h = ground (arith, sum_by-delete-le p q rows)

length-delete-le :
    (p q : Row → Bool) (rows : List Row)
    → All (λ r. q r ≡ true) (delete p rows)
    → length (delete p rows) ≤ count q rows
length-delete-le p q [] h = omega arith
length-delete-le p q (r ∷ rows) h = ground (arith, length-delete-le p q rows)

above :
    (r : Row) (lo : ℕ) (rows : List Row)
    → r.seq ≤ lo
    → Rising lo rows
    → All (λ x. is_at_or_after r x ≡ true) rows
above r lo [] h s = tt
above r lo (x ∷ rows) h s = (ground arith, above r x.seq rows (omega arith) s.1)

-- The rows that are kept number at most `keep` and have at most `budget` bytes: the oldest of them
-- passes the test, and the test counts what is not older.
kept-le :
    (keep budget lo : ℕ) (rows kept : List Row)
    → kept ≡ delete (is_over keep budget rows) rows
    → Rising lo kept
    → (length kept ≤ keep) × (sum_by row_bytes kept ≤ budget)
kept-le keep budget lo rows [] e s = (omega arith, omega arith)
kept-le keep budget lo rows (r ∷ kept) e s =
    let p = is_over keep budget rows in
    let (old, fits) = In-delete p r rows (subst (In r) e (inl refl)) in
    let after : All (λ x. is_at_or_after r x ≡ true) (r ∷ kept) =
      (ground arith, above r r.seq kept (omega arith) s.1) in
    let after' = subst (All (λ x. is_at_or_after r x ≡ true)) e after in
    let few = length-delete-le p (is_at_or_after r) rows after' in
    let small = sum_by-delete-le p (is_at_or_after r) rows after' in
    (
      omega (arith, few, ap (λ (x : List Row). length x) e, not_many fits),
      omega (arith, small, ap (λ x. sum_by row_bytes x) e, not_big fits),
    )
  where
    not_many : is_over keep budget rows r ≡ false → count (is_at_or_after r) rows ≤ keep
    not_many h = ground arith

    not_big :
        is_over keep budget rows r ≡ false
        → sum_by row_bytes (select (is_at_or_after r) rows) ≤ budget
    not_big h = ground arith

shares : (m b : ℕ) → 1 ≤ m → (max 1 (m * 95 / 100) ≤ m) × (b * 95 / 100 ≤ b)
shares m b h = (omega arith, omega arith)

enforce_limits-le :
    (s : Store)
    → valid_options s.options ≡ true
    → IsSound s
    → (length (enforce_limits s).rows ≤ s.options.max_messages)
      × (sum_by row_bytes (enforce_limits s).rows ≤ s.options.max_bytes)
unfolding enforce_limits delete_rows
enforce_limits-le s o v =
    elim (Bool-cases (ltb s.options.max_messages s.n || ltb s.options.max_bytes s.b)) [
      | inr e ↦ rw e (omega (arith, v.counted, few e), omega (arith, v.sized, small e))
      | inl e ↦ rw e (
          let p = is_over (keep_of s.options) (budget_of s.options) s.rows in
          let k = bounded (delete_rows-IsSound p s v) in
          let w = shares s.options.max_messages s.options.max_bytes (ground arith) in
          (omega (arith, k.0, w.0), omega (arith, k.1, w.1)))
    ]
  where
    few :
        (ltb s.options.max_messages s.n || ltb s.options.max_bytes s.b) ≡ false
        → s.n ≤ s.options.max_messages
    few e = ground arith

    small :
        (ltb s.options.max_messages s.n || ltb s.options.max_bytes s.b) ≡ false
        → s.b ≤ s.options.max_bytes
    small e = ground arith

    bounded :
        IsSound (delete_rows (is_over (keep_of s.options) (budget_of s.options) s.rows) s)
        → (length (delete_rows (is_over (keep_of s.options) (budget_of s.options) s.rows) s).rows
            ≤ keep_of s.options)
          × (sum_by row_bytes
                (delete_rows (is_over (keep_of s.options) (budget_of s.options) s.rows) s).rows
              ≤ budget_of s.options)
    bounded w = kept-le (keep_of s.options) (budget_of s.options) 0 s.rows _ refl w.rising

pruned-le :
    (now : ℕ) (s : Store)
    → valid_options s.options ≡ true
    → IsSound s
    → (length (pruned now s).rows ≤ s.options.max_messages)
      × (sum_by row_bytes (pruned now s).rows ≤ s.options.max_bytes)
      × ((pruned now s).options ≡ s.options)
unfolding drop_orphans delete_rows
pruned-le now s o v =
    let old = λ (r : Row). ltb r.t (cutoff now s) in
    let k = enforce_limits-le (delete_rows old s) o (delete_rows-IsSound old s v) in
    (k.0, k.1, (fresh-SameTables old s).0)

-- With valid limits, a consistent history holds no more messages and no more bytes than its limits
-- allow after every successful `Put`, whatever the size of the new message and however far the
-- history was over its limits before, and the limits do not change.
pub put_bounded :
    (out : Outside) (fails : Faults) (now later : ℕ) (info : Info) (m : Message) (s s' : Store)
    → valid_options s.options ≡ true
    → IsValid s
    → put out fails now later info (some m) s ≡ ok s'
    → (length s'.rows ≤ s.options.max_messages)
      × (sum_by row_bytes s'.rows ≤ s.options.max_bytes)
      × (s'.options ≡ s.options)
put_bounded out fails now later info m s s' o v h =
    let st = put_ok out fails now later info m s s' h in
    let row = new_row out now (s.sequence + 1) info st.text st.raw in
    let t = insert_row-SameTables row s in
    let k =
      pruned-le later (insert_row row s) (subst (λ x. valid_options x ≡ true) (sym t.0) o)
        (insert_row-IsSound row s refl v.sound) in
    subst
      (λ (x : Store).
        (length x.rows ≤ s.options.max_messages)
        × (sum_by row_bytes x.rows ≤ s.options.max_bytes)
        × (x.options ≡ s.options))
      (sym st.result_is)
      (
        subst (λ (x : Options). length (pruned later (insert_row row s)).rows ≤ x.max_messages) t.0
            k.0,
        subst
            (λ (x : Options). sum_by row_bytes (pruned later (insert_row row s)).rows ≤ x.max_bytes)
            t.0 k.1,
        k.2 ∙ t.0,
      )
