-- ===== src/History/Retained.antt =====
-- The message that a `Put` adds, and the one that it finds.
use wppconnect_server_go.Prelude.{
  ℕ, ◌+◌, ◌-◌, ◌*◌, ◌/◌, ◌≤◌, ◌<◌, String, len, ◌≡◌, refl, sym, ap, subst, ◌∙◌, inl, inr, Bool,
  true, false, ◌||◌, some, List, [], ◌∷◌, ◌++◌, arith, sum_by, max, All, All-imp, All-of_In, In,
  In-append_right, Bool-cases, ok, Faults, ltb,
}
use wppconnect_server_go.Table.{select, delete, count}
use wppconnect_server_go.Table.Laws.{In-delete, delete-In, All-delete}
use wppconnect_server_go.Media.Messages.{Message, unwrap}
use wppconnect_server_go.History.{
  Options, valid_options, Row, Store, Outside, Info, has_row, is_at_or_after, delete_rows,
  insert_row, is_over, keep_of, budget_of, enforce_limits, drop_orphans, cutoff, new_row, put,
  stored_time, max_part, unix,
}
use wppconnect_server_go.History.Rows.{row_bytes}
use wppconnect_server_go.History.Invariant.{IsValid, pruned, put_ok, insert_row-SameTables}

delete_append :
    (p : Row → Bool) (r : Row) (rows : List Row)
    → p r ≡ false
    → delete p (rows ++ r ∷ []) ≡ delete p rows ++ r ∷ []
delete_append p r [] h = rw h
delete_append p r (x ∷ rows) h = ground (arith, delete_append p r rows h)

-- Of rows that all stand before it, none is counted for the newest row.
newest :
    (r : Row) (rows : List Row)
    → All (λ x. x.seq < r.seq) rows
    → (count (is_at_or_after r) (rows ++ r ∷ []) ≡ 1)
      × (sum_by row_bytes (select (is_at_or_after r) (rows ++ r ∷ [])) ≡ r.bytes)
newest r [] h = (ground arith, ground arith)
newest r (x ∷ rows) h =
    let k = newest r rows h.1 in (ground (arith, k.0, h.0), ground (arith, k.1, h.0))

-- The newest row is not over the limits when it alone is within the budget.
newest_kept :
    (s : Store) (r : Row) (rows : List Row)
    → s.rows ≡ rows ++ r ∷ []
    → All (λ x. x.seq < r.seq) rows
    → r.bytes ≤ budget_of s.options
    → In r (enforce_limits s).rows
unfolding enforce_limits delete_rows
newest_kept s r rows e before small =
    let there : In r s.rows = subst (In r) (sym e) (In-append_right r rows (r ∷ []) (inl refl)) in
    let k =
      subst
        (λ x.
          (count (is_at_or_after r) x ≡ 1)
          × (sum_by row_bytes (select (is_at_or_after r) x) ≡ r.bytes))
        (sym e) (newest r rows before) in
    let fits : is_over (keep_of s.options) (budget_of s.options) s.rows r ≡ false =
      not_over (keep_of s.options) (budget_of s.options) (count (is_at_or_after r) s.rows)
        (sum_by row_bytes (select (is_at_or_after r) s.rows)) (omega arith) (omega (arith, k.0))
        (omega (arith, k.1, small)) in
    elim (Bool-cases (ltb s.options.max_messages s.n || ltb s.options.max_bytes s.b)) [
      | inr q ↦ rw q there
      | inl q ↦
          rw q (
            delete-In (is_over (keep_of s.options) (budget_of s.options) s.rows) r s.rows there
              fits)
    ]
  where
    not_over :
        (keep budget n b : ℕ) → 1 ≤ keep → n ≤ 1 → b ≤ budget → (ltb keep n || ltb budget b) ≡ false
    not_over keep budget n b h1 h2 h3 = ground arith

-- A message whose identity is new, and whose time is within retention, is in the history after a
-- successful `Put`, with valid limits and where the encoding has the size that protobuf announces:
-- the limits drop older messages and never the new one.
pub put_retains :
    (out : Outside) (fails : Faults) (now later : ℕ) (info : Info) (m : Message) (s s' : Store)
    → ((x : Message) (raw : String) → out.marshal x ≡ some raw → len raw ≤ out.size x)
    → valid_options s.options ≡ true
    → IsValid s
    → has_row s.rows info.chat_key info.id ≡ false
    → cutoff later s ≤ stored_time now info
    → put out fails now later info (some m) s ≡ ok s'
    → (text raw : String) × (out.marshal (unwrap m) ≡ some raw)
      × (out.view info (unwrap m) ≡ some text)
      × In (new_row out now (s.sequence + 1) info text raw) s'.rows
unfolding insert_row drop_orphans delete_rows
put_retains out fails now later info m s s' size o v fresh young h =
    let st = put_ok out fails now later info m s s' h in
    let row = new_row out now (s.sequence + 1) info st.text st.raw in
    let old = λ (r : Row). ltb r.t (cutoff later s) in
    let inserted : insert_row row s ≡ record s {
      rows = s.rows ++ row ∷ [];
      sequence = row.seq;
      n = s.n + 1;
      b = s.b + row.bytes;
    } =
      rw fresh in
    let x = insert_row row s in
    let rows_are : (delete_rows old x).rows ≡ delete old s.rows ++ row ∷ [] =
      ap (λ (y : Store). delete old y.rows) inserted
      ∙ delete_append old row s.rows (ground arith) in
    let low : All (λ r. r.seq < row.seq) (delete old s.rows) =
      All-delete (λ r. r.seq < row.seq) old s.rows
        (All-imp (λ r. r.seq ≤ s.sequence) (λ r. r.seq < row.seq) (λ r q. omega arith) s.rows
          v.sound.bounded) in
    let t = insert_row-SameTables row s in
    let small : row.bytes ≤ budget_of s.options =
      fits (len st.raw) (len st.text) s.options.max_bytes
        (omega (arith, size (unwrap m) st.raw st.marshalled, st.fits)) st.small (ground arith) in
    let kept : In row (enforce_limits (delete_rows old x)).rows =
      newest_kept (delete_rows old x) row (delete old s.rows) rows_are low
        (subst (λ (y : Options). row.bytes ≤ budget_of y) (sym t.0) small) in
    let same : cutoff later s ≡ cutoff later x =
      ap (λ (y : Options). unix (later - y.retention)) (sym t.0) in
    (
      st.text,
      st.raw,
      st.marshalled,
      st.viewed,
      subst (λ (y : Store). In row y.rows) (sym st.result_is)
          (subst (λ c. In row (drop_orphans (enforce_limits (delete_rows (λ r. ltb r.t c) x))).rows)
            same kept),
    )
  where
    fits : (a b max : ℕ) → a ≤ max_part → b ≤ max_part → 1048576 ≤ max → a + b ≤ max * 95 / 100
    fits a b max ha hb hm = omega arith

enforce_limits-In :
    (s : Store)
    → ((enforce_limits s).sequence ≡ s.sequence) × All (λ r. In r s.rows) (enforce_limits s).rows
unfolding enforce_limits delete_rows
enforce_limits-In s =
    elim (Bool-cases (ltb s.options.max_messages s.n || ltb s.options.max_bytes s.b)) [
      | inl e ↦ rw e (
        refl,
        All-of_In _ _ λ r m.
            (In-delete (is_over (keep_of s.options) (budget_of s.options) s.rows) r s.rows m).0,
      )
      | inr e ↦ rw e (refl, All-of_In _ s.rows λ r m. m)
    ]

pruned-In :
    (now : ℕ) (s : Store)
    → ((pruned now s).sequence ≡ s.sequence) × All (λ r. In r s.rows) (pruned now s).rows
unfolding drop_orphans delete_rows
pruned-In now s =
    let old = λ (r : Row). ltb r.t (cutoff now s) in
    let k = enforce_limits-In (delete_rows old s) in
    (
      k.0,
      All-imp _ _ (λ r m. (In-delete old r s.rows m).0) (enforce_limits (delete_rows old s)).rows
          k.1,
    )

-- A message whose identity is stored already is not stored again and does not replace the first: a
-- `Put` of it leaves only rows that were there.
pub put_keeps_first :
    (out : Outside) (fails : Faults) (now later : ℕ) (info : Info) (m : Message) (s s' : Store)
    → has_row s.rows info.chat_key info.id ≡ true
    → put out fails now later info (some m) s ≡ ok s'
    → (s'.sequence ≡ s.sequence) × All (λ r. In r s.rows) s'.rows
unfolding insert_row
put_keeps_first out fails now later info m s s' there h =
    let st = put_ok out fails now later info m s s' h in
    let row = new_row out now (s.sequence + 1) info st.text st.raw in
    let same : insert_row row s ≡ s = rw there in
    let k = pruned-In later s in
    subst (λ (x : Store). (x.sequence ≡ s.sequence) × All (λ r. In r s.rows) x.rows)
      (sym (st.result_is ∙ ap (pruned later) same)) k
