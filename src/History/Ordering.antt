-- ===== src/History/Ordering.antt =====
-- Changes, deletions and receipts that arrive out of order.
use wppconnect_server_go.Prelude.{
  ℕ, ◌+◌, ◌-◌, ◌≤◌, ◌<◌, String, ◌≡◌, refl, sym, ap, subst, ◌∙◌, ◌⊎◌, inl, inr, Bool, true, false,
  ◌&&◌, Option, Option-cases, none, some, List, [], ◌∷◌, arith, sum_by, All, All-In, All-of_In, In,
  ok, Faults, Result-cases, leb,
}
use wppconnect_server_go.Table.{select, update}
use wppconnect_server_go.Table.Laws.{update-In, update-In_hit, In-update}
use wppconnect_server_go.Media.Messages.{Message}
use wppconnect_server_go.History.{Row, Store, Outside, is_row}
use wppconnect_server_go.History.Reads.{get}
use wppconnect_server_go.History.Edits.{
  update_rows, changed_at, erased, replaced, may_erase, may_edit, erase, edit, change_at,
}

-- json_extract finds the `updatedAt` that the JSON text was written with.
pub record IsStamped (out : Outside) : Type 0 where
  pub of_mark : (at : ℕ) → out.updated_at (out.mark at) ≡ some at
  pub of_view :
      (r : Row) (m : Message) (at : ℕ) (text : String)
      → out.view_at r m at ≡ some text
      → out.updated_at text ≡ some at

-- What a change that returns without an error has done.
record Change (out : Outside) (chat id : String) (m : Option Message) (at : ℕ) (s s' : Store)
    : Type 0 where
  chosen : Row → Bool
  change : Row → Row
  result_is : s' ≡ update_rows chosen change s
  stamped : (r : Row) → out.updated_at (change r).content ≡ some at
  same_key : (r : Row) → is_row chat id (change r) ≡ is_row chat id r
  refused :
      (r : Row)
      → chosen r ≡ false
      → (m ≡ none) ⊎ ((is_row chat id r && r.deleted) ≡ false)
      → (is_row chat id r && leb (changed_at out r) at) ≡ false
  needs : (r : Row) → (is_row chat id r && leb (changed_at out r) at) ≡ false → chosen r ≡ false

change_at_ok :
    (out : Outside) (fails : Faults) (now : ℕ) (chat id : String) (m : Option Message) (at : ℕ)
    (seen s s' : Store)
    → IsStamped out
    → change_at out fails now chat id m at seen s ≡ ok s'
    → Change out chat id m at s s'
unfolding change_at erase edit
change_at_ok out fails now chat id none at seen s s' j h = record {
  chosen = may_erase out chat id at;
  change = erased (out.mark at);
  result_is = ground arith;
  stamped = λ r. j.of_mark at;
  same_key = λ r. refl;
  refused = λ r q l. q;
  needs = λ r q. q;
}
change_at_ok out fails now chat id (some m) at seen s s' j h =
    elim (Result-cases (get out fails 0 now chat id seen)) [
      | inr (e, p) ↦ absurd (ground (arith, p))
      | inl (r, p) ↦ elim (Option-cases (out.marshal m)) [
        | inl q ↦ absurd (ground (arith, p, q))
        | inr (raw, q) ↦ elim (Option-cases (out.view_at r m at)) [
          | inl t ↦ absurd (ground (arith, p, q, t))
          | inr (text, t) ↦ record {
            chosen = may_edit out chat id at;
            change = replaced text raw;
            result_is = ground (arith, p, q, t);
            stamped = λ x. j.of_view r m at text t;
            same_key = λ x. refl;
            refused = λ x c l. elim l [ inl e ↦ cc e | inr e ↦ ground arith ];
            needs = λ x c. ground arith;
          }
        ]
      ]
    ]

-- Where no row is chosen an UPDATE changes nothing.
update_none :
    (p : Row → Bool) (f : Row → Row) (rows : List Row)
    → All (λ r. p r ≡ false) rows
    → (update p f rows ≡ rows) × (select p rows ≡ [])
update_none p f [] h = (refl, refl)
update_none p f (r ∷ rows) h = let k = update_none p f rows h.1 in (rw (h.0, k.0), rw (h.0, k.1))

update_rows_none :
    (p : Row → Bool) (f : Row → Row) (s : Store)
    → All (λ r. p r ≡ false) s.rows
    → update_rows p f s ≡ s
unfolding update_rows
update_rows_none p f s h =
    let k = update_none p f s.rows h in
    let b_is : s.b
          + sum_by (λ r. (f r).bytes) (select p s.rows)
          - sum_by (λ r. r.bytes) (select p s.rows)
        ≡ s.b =
      rw k.1 (omega arith) in
    ap
      (λ x. record s {
        rows = x;
        b =
            s.b
            + sum_by (λ r. (f r).bytes) (select p s.rows)
            - sum_by (λ r. r.bytes) (select p s.rows);
      })
      k.0
    ∙ ap (λ x. record s { b = x }) b_is

-- After a change of a message at one time, a change of the same message with an older time is
-- ignored and leaves the whole history as it is, whether the two are edits or deletions, where the
-- stored message is not deleted or the newer change is itself a deletion.
pub stale_change_ignored :
    (out : Outside) (fails later_fails : Faults) (now then_now : ℕ) (chat id : String)
    (newer older : Option Message) (at before : ℕ) (seen seen' s s' s'' : Store)
    → IsStamped out
    → before < at
    → (newer ≡ none) ⊎ All (λ r. (is_row chat id r && r.deleted) ≡ false) s.rows
    → change_at out fails now chat id newer at seen s ≡ ok s'
    → change_at out later_fails then_now chat id older before seen' s' ≡ ok s''
    → s'' ≡ s'
unfolding update_rows
stale_change_ignored out fails later_fails now then_now chat id newer older at before seen seen' s
      s' s'' j lt live h k =
    let c = change_at_ok out fails now chat id newer at seen s s' j h in
    let d = change_at_ok out later_fails then_now chat id older before seen' s' s'' j k in
    let refuses : All (λ r. d.chosen r ≡ false) s'.rows =
      All-of_In _ s'.rows
        λ r m. d.needs r (stale c r (subst (λ (x : Store). In r x.rows) c.result_is m)) in
    d.result_is ∙ update_rows_none d.chosen d.change s' refuses
  where
    live_at : (r : Row) → In r s.rows → (newer ≡ none) ⊎ ((is_row chat id r && r.deleted) ≡ false)
    live_at r m = elim live [
      | inl e ↦ inl e
      | inr a ↦ inr (All-In (λ x. (is_row chat id x && x.deleted) ≡ false) r s.rows a m)
    ]

    weaken :
        (x : Row)
        → (is_row chat id x && leb (changed_at out x) at) ≡ false
        → (is_row chat id x && leb (changed_at out x) before) ≡ false
    weaken x q = ground arith

    stale :
        (c : Change out chat id newer at s s') (r : Row)
        → In r (update c.chosen c.change s.rows)
        → (is_row chat id r && leb (changed_at out r) before) ≡ false
    stale c r m =
        let (x, old, how) = In-update c.chosen c.change r s.rows m in
        elim how [
          | inl (q, e) ↦
              let stamp : out.updated_at r.content ≡ some at =
                subst (λ (y : Row). out.updated_at y.content ≡ some at) (sym e) (c.stamped x) in
              ground (arith, stamp)
          | inr (q, e) ↦
              subst (λ (y : Row). (is_row chat id y && leb (changed_at out y) before) ≡ false)
                (sym e) (weaken x (c.refused x q (live_at x old)))
        ]

-- A deletion of a stored message that was not changed later takes its content, and no later edit of
-- the message, whatever its time, brings content back.
pub deletion_final :
    (out : Outside) (fails later_fails : Faults) (now then_now : ℕ) (chat id : String) (m : Message)
    (at edited_at : ℕ) (seen seen' s s' s'' : Store) (r : Row)
    → In r s.rows
    → is_row chat id r ≡ true
    → changed_at out r ≤ at
    → change_at out fails now chat id none at seen s ≡ ok s'
    → change_at out later_fails then_now chat id (some m) edited_at seen' s' ≡ ok s''
    → In (erased (out.mark at) r) s'.rows × In (erased (out.mark at) r) s''.rows
unfolding change_at erase edit update_rows
deletion_final out fails later_fails now then_now chat id m at edited_at seen seen' s s' s'' r there
      key old h k =
    let gone = erased (out.mark at) r in
    let first : s' ≡ update_rows (may_erase out chat id at) (erased (out.mark at)) s =
      ground arith in
    let erased_in : In gone s'.rows =
      subst (λ (x : Store). In gone x.rows) (sym first)
        (update-In_hit (may_erase out chat id at) (erased (out.mark at)) r s.rows there
          (ground arith)) in
    (erased_in, stays erased_in)
  where
    stays : In (erased (out.mark at) r) s'.rows → In (erased (out.mark at) r) s''.rows
    stays i = elim (Result-cases (get out later_fails 0 then_now chat id seen')) [
      | inr (e, p) ↦ absurd (ground (arith, p))
      | inl (x, p) ↦ elim (Option-cases (out.marshal m)) [
        | inl q ↦ absurd (ground (arith, p, q))
        | inr (raw, q) ↦ elim (Option-cases (out.view_at x m edited_at)) [
          | inl t ↦ absurd (ground (arith, p, q, t))
          | inr (text, t) ↦
              let second : s''
                  ≡ update_rows (may_edit out chat id edited_at) (replaced text raw) s' =
                ground (arith, p, q, t) in
              subst (λ (y : Store). In (erased (out.mark at) r) y.rows) (sym second)
                (update-In (may_edit out chat id edited_at) (replaced text raw)
                  (erased (out.mark at) r) s'.rows i (ground arith))
        ]
      ]
    ]
