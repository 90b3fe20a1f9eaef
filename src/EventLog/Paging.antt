-- ===== src/EventLog/Paging.antt =====
-- Paging: `List` returns the events of one session in order, without a gap.
use wppconnect_server_go.Prelude.{
  ℕ, zero, suc, ◌+◌, ◌-◌, ◌≤◌, ◌<◌, String, ◌≡◌, ◌≢◌, refl, sym, ap, subst, ◌∙◌, ◌⊎◌, inl, inr,
  Bool, true, false, not, ◌&&◌, List, [], ◌∷◌, ◌++◌, arith, Result-cases, ok, Faults, In,
  In-append_right, if◌then◌else◌, Bool-cases, ltb, length, take, drop, length-take-le,
  length-append, sum_by, ℤ, pos_part,
}
use wppconnect_server_go.Table.{select, insert_by, order_by}
use wppconnect_server_go.Table.Laws.{In-select}
use wppconnect_server_go.EventLog.{Event, Log, size, max_page}
use wppconnect_server_go.EventLog.Leases.{is_listed, by_sequence, fill_page, list}
use wppconnect_server_go.EventLog.Invariant.{IsValid, Ascending, Ascending-mono}

select-Ascending :
    (p : Event → Bool) (lo : ℕ) (es : List Event) → Ascending lo es → Ascending lo (select p es)
select-Ascending p lo [] s = tt
select-Ascending p lo (e ∷ es) s =
    ground (arith, select-Ascending p e.sequence es s.1, Ascending-mono lo e.sequence (select p es))

-- A table in the order of its sequence numbers is sorted already.
order_by-Ascending : (lo : ℕ) (es : List Event) → Ascending lo es → order_by by_sequence es ≡ es
order_by-Ascending lo [] s = refl
order_by-Ascending lo (e ∷ es) s = rw (order_by-Ascending e.sequence es s.1) (front es s.1)
  where
    front : (xs : List Event) → Ascending e.sequence xs → insert_by by_sequence e xs ≡ e ∷ xs
    front [] t = refl
    front (x ∷ xs) t = ground arith

take-drop : (n : ℕ) (es : List Event) → es ≡ take n es ++ drop n es
take-drop zero es = refl
take-drop (suc n) [] = refl
take-drop (suc n) (e ∷ es) = ap (◌∷◌ e) (take-drop n es)

append_assoc_lem : (xs ys zs : List Event) → (xs ++ ys) ++ zs ≡ xs ++ (ys ++ zs)
append_assoc_lem [] ys zs = refl
append_assoc_lem (x ∷ xs) ys zs = ap (◌∷◌ x) (append_assoc_lem xs ys zs)

-- The page is a first part of the rows, within the byte limit beyond its first row.
record Filled (bytes : ℕ) (empty : Bool) (rows page : List Event) : Type 0 where
  rest : List Event
  splits : rows ≡ page ++ rest
  small : (bytes + sum_by size page ≤ max_page) ⊎ (length page ≤ (if empty then 1 else 0))
  moves : (page ≢ []) ⊎ (rest ≡ []) ⊎ (empty ≡ false)

small-cons :
    (bytes : ℕ) (empty : Bool) (e : Event) (page : List Event)
    → (ltb max_page (bytes + size e) && not empty) ≡ false
    → ((bytes + size e) + sum_by size page ≤ max_page) ⊎ (length page ≤ 0)
    → (bytes + sum_by size (e ∷ page) ≤ max_page) ⊎ (length (e ∷ page) ≤ (if empty then 1 else 0))
small-cons bytes empty e page t (inl h) = inl (omega arith)
small-cons bytes true e [] t (inr h) = inr (omega arith)
small-cons bytes false e [] t (inr h) = inl (ground arith)
small-cons bytes empty e (x ∷ page) t (inr h) = absurd (omega arith)

fill_page-Filled :
    (fails : Faults) (k bytes : ℕ) (empty : Bool) (rows page : List Event)
    → fill_page fails k bytes empty rows ≡ ok page
    → Filled bytes empty rows page
unfolding fill_page
fill_page-Filled fails k bytes empty [] page h =
    let none_left : page ≡ [] = ground arith in
    record {
      rest = [];
      splits = ground (arith, none_left);
      small = inr (rw none_left (ground arith));
      moves = inr (inl refl);
    }
fill_page-Filled fails k bytes empty (e ∷ es) page h =
    elim (Bool-cases (ltb max_page (bytes + size e) && not empty)) [
      | inl full ↦
          let none_left : page ≡ [] = ground arith in
          record {
            rest = e ∷ es;
            splits = rw none_left;
            small = inr (rw none_left (ground arith));
            moves = inr (inr (ground arith));
          }
      | inr fits ↦ elim (Result-cases (fill_page fails (k + 1) (bytes + size e) false es)) [
        | inr (x, p) ↦ absurd (ground (arith, p))
        | inl (page', p) ↦
            let f = fill_page-Filled fails (k + 1) (bytes + size e) false es page' p in
            let more : page ≡ e ∷ page' = ground (arith, p) in
            record {
              rest = f.rest;
              splits = rw more (ap (◌∷◌ e) f.splits);
              small = rw more (small-cons bytes empty e page' fits f.small);
              moves = inl (λ q. cc (more, q));
            }
      ]
    ]

-- A page of a consistent log is a first part of all events of the session that follow the cursor
-- and are within retention, in rising order: nothing in between is left out. It has at most
-- `limit` events, at most 2 MiB of them unless it is a single event, and it is empty only when
-- nothing is left to list.
pub list_lem :
    (fails : Faults) (now : ℕ) (session : String) (after limit : ℤ) (log : Log) (page : List Event)
    → IsValid log
    → list fails now session after limit log ≡ ok page
    → (rest : List Event) × (select
          (is_listed session (pos_part after) (now - log.retention))
          log.events
        ≡ page ++ rest)
      × (length page ≤ pos_part limit)
      × ((sum_by size page ≤ max_page) ⊎ (length page ≤ 1))
      × ((page ≢ []) ⊎ (rest ≡ []))
unfolding list
list_lem fails now session after limit log page v h =
    let asked = select (is_listed session (pos_part after) (now - log.retention)) log.events in
    let sorted = order_by-Ascending 0 asked (select-Ascending _ 0 log.events v.ascending) in
    let raw : fill_page fails 1 0 true (take (pos_part limit) (order_by by_sequence asked))
        ≡ ok page =
      ground arith in
    let wide : 1 ≤ pos_part limit = ground arith in
    let f = fill_page-Filled fails 1 0 true (take (pos_part limit) asked) page (
      subst (λ rows. fill_page fails 1 0 true (take (pos_part limit) rows) ≡ ok page) sorted raw) in
    let left = f.rest ++ drop (pos_part limit) asked in
    (
      left,
      take-drop (pos_part limit) asked
          ∙ ap (λ t. t ++ drop (pos_part limit) asked) f.splits
          ∙ append_assoc_lem page f.rest (drop (pos_part limit) asked),
      omega (
        arith,
        length-take-le (pos_part limit) asked,
        ap (λ (t : List Event). length t) f.splits,
        length-append page f.rest,
      ),
      omega (arith, f.small),
      moves-on (pos_part limit) asked page f.rest wide f.splits f.moves,
    )
  where
    moves-on :
        (n : ℕ) (asked page rest : List Event)
        → 1 ≤ n
        → take n asked ≡ page ++ rest
        → (page ≢ []) ⊎ (rest ≡ []) ⊎ (◌≡◌ {A = Bool} true false)
        → (page ≢ []) ⊎ (rest ++ drop n asked ≡ [])
    moves-on n asked page rest w t (inl q) = inl q
    moves-on n asked page rest w t (inr (inr q)) = cc
    moves-on zero asked page rest w t (inr (inl q)) = absurd (omega arith)
    moves-on (suc n) [] page rest w t (inr (inl q)) = inr (rw q)
    moves-on (suc n) (x ∷ xs) [] rest w t (inr (inl q)) = cc
    moves-on (suc n) (x ∷ xs) (y ∷ page) rest w t (inr (inl q)) = inl (λ z. cc z)

select-above :
    (session : String) (after cutoff : ℕ) (e : Event) (es : List Event)
    → after ≤ e.sequence
    → select (is_listed session e.sequence cutoff) es
      ≡ select (λ x. ltb e.sequence x.sequence) (select (is_listed session after cutoff) es)
select-above session after cutoff e [] h = refl
select-above session after cutoff e (x ∷ es) h =
    ground (arith, select-above session after cutoff e es h)

select_all :
    (lo b : ℕ) (es : List Event) → b ≤ lo → Ascending lo es → select (λ x. ltb b x.sequence) es ≡ es
select_all lo b [] h s = refl
select_all lo b (x ∷ es) h s = ground (arith, select_all x.sequence b es)

select_rest :
    (lo : ℕ) (page : List Event) (e : Event) (rest : List Event)
    → Ascending lo (page ++ e ∷ rest)
    → (lo < e.sequence) × (select (λ x. ltb e.sequence x.sequence) (page ++ e ∷ rest) ≡ rest)
select_rest lo [] e rest s = (s.0, ground (arith, select_all e.sequence e.sequence rest))
select_rest lo (x ∷ page) e rest s =
    let r = select_rest x.sequence page e rest s.1 in
    (omega (arith, r.0, s.0), ground (arith, r.0, r.1))

-- With the last event of a page as the next cursor, the events left to list are exactly those that
-- the page left over: pages that are read one after the other, while the log does not change and no
-- event of it expires, show each event once.
pub list_resumes :
    (fails : Faults) (now : ℕ) (session : String) (after limit : ℤ) (log : Log) (page : List Event)
    (last : Event)
    → IsValid log
    → list fails now session after limit log ≡ ok (page ++ last ∷ [])
    → select (is_listed session (pos_part after) (now - log.retention)) log.events
      ≡ (page ++ last ∷ [])
        ++ select (is_listed session last.sequence (now - log.retention)) log.events
list_resumes fails now session after limit log page last v h =
    let cutoff = now - log.retention in
    let asked = select (is_listed session (pos_part after) cutoff) log.events in
    let l = list_lem fails now session after limit log (page ++ last ∷ []) v h in
    let splits = l.1 ∙ append_assoc_lem page (last ∷ []) l.0 in
    let listed = is_listed session (pos_part after) cutoff in
    let rising = select-Ascending listed 0 log.events v.ascending in
    let r = select_rest 0 page last l.0 (subst (Ascending 0) splits rising) in
    let there : In last asked =
      subst (In last) (sym splits) (In-append_right last page (last ∷ l.0) (inl refl)) in
    let above : pos_part after ≤ last.sequence =
      beyond (In-select listed last log.events there).1 in
    let rest_is : select (is_listed session last.sequence cutoff) log.events ≡ l.0 =
      select-above session (pos_part after) cutoff last log.events above
      ∙ ap (select (λ x. ltb last.sequence x.sequence)) splits
      ∙ r.1 in
    l.1 ∙ ap (λ t. (page ++ last ∷ []) ++ t) (sym rest_is)
  where
    beyond :
        is_listed session (pos_part after) (now - log.retention) last ≡ true
        → pos_part after ≤ last.sequence
    beyond q = ground arith
