-- ===== src/EventLog/Claims.antt =====
-- What a successful `claim` has taken.
use wppconnect_server_go.Prelude.{
  ℕ, ◌+◌, ◌≤◌, String, ◌≡◌, sym, ap, subst, ◌∙◌, inl, inr, true, some, Option-cases, List, [], ◌∷◌,
  arith, eq_iff, ok, Faults, head?, In,
}
use wppconnect_server_go.Table.{select, order_by}
use wppconnect_server_go.Table.Laws.{In-select}
use wppconnect_server_go.Table.Order.{In-order_by}
use wppconnect_server_go.EventLog.{Event, Delivery, Claim, Log, has_id, is_pending}
use wppconnect_server_go.EventLog.Leases.{Job, join, is_ready, sooner, ready_jobs, grant, claim}

pub record Claimed (clock : ℕ → ℕ) (lease_time : ℕ) (lease : String) (targets : List String)
    (log : Log) (c : Claim) (log' : Log) : Type 0 where
  pub job : Job
  pub at : ℕ
  pub first : head? (ready_jobs c.target (clock at) (clock (at + 1)) log) ≡ some job
  pub target_in : In c.target targets
  pub event_is : c.event ≡ job.event
  pub attempt_is : c.attempt ≡ job.row.attempt
  pub lease_is : c.lease ≡ lease
  pub log_is : log' ≡ grant job.event.id c.target lease (clock (at + 2) + lease_time) log

pub claim_ok :
    (fails : Faults) (clock : ℕ → ℕ) (k lease_time : ℕ) (lease : String) (targets : List String)
    (log : Log) (c : Claim) (log' : Log)
    → claim fails clock k lease_time lease targets log ≡ ok (c, log')
    → Claimed clock lease_time lease targets log c log'
unfolding claim
claim_ok fails clock k lease_time lease [] log c log' h = cc
claim_ok fails clock k lease_time lease (t ∷ ts) log c log' h =
    elim (Option-cases (head? (ready_jobs t (clock k) (clock (k + 1)) log))) [
      | inl e ↦
          let r = claim_ok fails clock (k + 4) lease_time lease ts log c log' (ground (arith, e)) in
          record {
            job = r.job;
            at = r.at;
            first = r.first;
            target_in = inr r.target_in;
            event_is = r.event_is;
            attempt_is = r.attempt_is;
            lease_is = r.lease_is;
            log_is = r.log_is;
          }
      | inr (job, e) ↦
          let same : c.target ≡ t = ground (arith, e) in
          record {
            job = job;
            at = k;
            first = rw same e;
            target_in = inl same;
            event_is = ground (arith, e);
            attempt_is = ground (arith, e);
            lease_is = ground (arith, e);
            log_is = ground (arith, e);
          }
    ]

In-head? : {A : Type 0} (a : A) (xs : List A) → head? xs ≡ some a → In a xs
In-head? a [] h = cc
In-head? a (x ∷ xs) h = inl (ground arith)

select_head :
    (id : String) (es : List Event) (e : Event)
    → head? (select (has_id id) es) ≡ some e
    → In e es × (e.id ≡ id)
select_head id es e h =
    let (m, q) = In-select (has_id id) e es (In-head? e (select (has_id id) es) h) in
    (m, (eq_iff e.id id).0 q)

-- A joined pair is a delivery of the list with an event of the table that has its id.
pub join_sound :
    (es : List Event) (ds : List Delivery) (j : Job)
    → In j (join es ds)
    → In j.row ds × In j.event es × (j.event.id ≡ j.row.event)
join_sound es [] j m = absurd m
join_sound es (d ∷ ds) j m = elim (Option-cases (head? (select (has_id d.event) es))) [
  | inl e ↦ let r = join_sound es ds j (ground (arith, e)) in (inr r.0, r.1, r.2)
  | inr (x, e) ↦ hit (join_sound es ds j) x e (rw e at m)
]
  where
    hit :
        (In j (join es ds) → In j.row ds × In j.event es × (j.event.id ≡ j.row.event))
        → (x : Event) → head? (select (has_id d.event) es) ≡ some x
        → In j (record { row = d; event = x } ∷ join es ds)
        → In j.row (d ∷ ds) × In j.event es × (j.event.id ≡ j.row.event)
    hit ih x e (inl q) =
        let f = select_head d.event es x e in
        (
          inl (ap (λ (y : Job). y.row) q),
          subst (λ (y : Job). In y.event es) (sym q) f.0,
          ground (arith, q, f.1),
        )
    hit ih x e (inr r) = let s = ih r in (inr s.0, s.1, s.2)

record IsDue (target : String) (due free : ℕ) (d : Delivery) : Type 0 where
  target_is : d.target ≡ target
  pending : is_pending d.state ≡ true
  next_le : d.next ≤ due
  unleased : d.lease_until ≤ free

is_ready-IsDue :
    (target : String) (due free : ℕ) (d : Delivery)
    → is_ready target due free d ≡ true
    → IsDue target due free d
is_ready-IsDue target due free d h = ground (arith, eq_iff d.target target)

pub record IsSound (clock : ℕ → ℕ) (targets : List String) (log : Log) (c : Claim) (job : Job)
    (at : ℕ) : Type 0 where
  pub row_in : In job.row log.deliveries
  pub event_in : In c.event log.events
  pub same_event : c.event.id ≡ job.row.event
  pub same_target : c.target ≡ job.row.target
  pub wanted : In c.target targets
  pub pending : is_pending job.row.state ≡ true
  pub due : job.row.next ≤ clock at
  pub unleased : job.row.lease_until ≤ clock (at + 1)

-- The claimed job is a delivery of one of the worker's targets that was pending, due and not
-- leased, with its own event.
pub claim-IsSound :
    {clock : ℕ → ℕ} {lease_time : ℕ} {lease : String} {targets : List String} {log : Log}
    {c : Claim} {log' : Log} (r : Claimed clock lease_time lease targets log c log')
    → IsSound clock targets log c r.job r.at
claim-IsSound {clock} {targets = targets} {log = log} {c = c} r =
    let before =
      join log.events (select (is_ready c.target (clock r.at) (clock (r.at + 1))) log.deliveries) in
    let j =
      join_sound log.events _ r.job
        (In-order_by sooner r.job before (In-head? r.job (order_by sooner before) r.first)) in
    let s =
      In-select (is_ready c.target (clock r.at) (clock (r.at + 1))) r.job.row log.deliveries j.0 in
    let d = is_ready-IsDue c.target (clock r.at) (clock (r.at + 1)) r.job.row s.1 in
    record {
      row_in = s.0;
      event_in = subst (λ (e : Event). In e log.events) (sym r.event_is) j.1;
      same_event = ap (λ (e : Event). e.id) r.event_is ∙ j.2;
      same_target = sym d.target_is;
      wanted = r.target_in;
      pending = d.pending;
      due = d.next_le;
      unleased = d.unleased;
    }
