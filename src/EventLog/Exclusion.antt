-- ===== src/EventLog/Exclusion.antt =====
-- Leases: while one worker holds a delivery no other gets it, and a worker whose lease was taken
-- over changes nothing.
use wppconnect_server_go.Prelude.{
  ℕ, ◌+◌, ◌<◌, String, ◌≡◌, ◌≢◌, refl, sym, ap, subst, ◌∙◌, inl, inr, Bool, true, false, List, [],
  ◌∷◌, arith, eq_iff, ok, Faults, All, All-of_In, In, Bool-cases,
}
use wppconnect_server_go.Table.{update}
use wppconnect_server_go.Table.Laws.{In-update}
use wppconnect_server_go.EventLog.{Event, Delivery, State, Claim, Log, is_delivery}
use wppconnect_server_go.EventLog.Leases.{grant, with_lease, is_held, acknowledge, claim, finish}
use wppconnect_server_go.EventLog.Claims.{claim_ok, claim-IsSound}

leased_rows :
    (id target lease : String) (until : ℕ) (log : Log) (d : Delivery)
    → In d (grant id target lease until log).deliveries
    → d.event ≡ id
    → d.target ≡ target
    → d.lease_until ≡ until
leased_rows id target lease until log d m e t =
    let (a, old, how) =
      In-update (is_delivery id target) (with_lease lease until) d log.deliveries m in
    ground (arith, how, eq_iff a.event id, eq_iff a.target target)

-- After a claim has taken an event for a target, a second claim, by any worker and from any
-- targets, whose clock shows times before the end of that lease, does not get the same event for
-- the same target.
pub claim_excludes :
    (fails fails' : Faults) (clock clock' : ℕ → ℕ) (k k' lease_time lease_time' : ℕ)
    (lease lease' : String) (targets targets' : List String) (log log' log'' : Log) (c c' : Claim)
    → claim fails clock k lease_time lease targets log ≡ ok (c, log')
    → claim fails' clock' k' lease_time' lease' targets' log' ≡ ok (c', log'')
    → ((i j : ℕ) → clock' i < clock j + lease_time)
    → ¬ ((c'.event.id ≡ c.event.id) × (c'.target ≡ c.target))
claim_excludes fails fails' clock clock' k k' lease_time lease_time' lease lease' targets targets'
      log log' log'' c c' h h' early same =
    let r = claim_ok fails clock k lease_time lease targets log c log' h in
    let r' = claim_ok fails' clock' k' lease_time' lease' targets' log' c' log'' h' in
    let s' = claim-IsSound r' in
    let row = r'.job.row in
    let until =
      leased_rows r.job.event.id c.target lease (clock (r.at + 2) + lease_time) log row
        (subst (λ (x : Log). In row x.deliveries) r.log_is s'.row_in)
        (sym s'.same_event ∙ same.0 ∙ ap (λ (e : Event). e.id) r.event_is)
        (sym s'.same_target ∙ same.1) in
    omega (arith, until, s'.unleased, early (r'.at + 1) (r.at + 2))

update_none :
    (p : Delivery → Bool) (f : Delivery → Delivery) (ds : List Delivery)
    → All (λ d. p d ≡ false) ds
    → update p f ds ≡ ds
update_none p f [] h = refl
update_none p f (d ∷ ds) h = rw (h.0, update_none p f ds h.1)

leased_by :
    (id target lease : String) (until : ℕ) (log : Log) (d : Delivery)
    → In d (grant id target lease until log).deliveries
    → is_delivery id target d ≡ true
    → d.lease ≡ lease
leased_by id target lease until log d m q =
    let (a, old, how) =
      In-update (is_delivery id target) (with_lease lease until) d log.deliveries m in
    ground (
      arith,
      how,
      eq_iff a.event id,
      eq_iff a.target target,
      eq_iff d.event id,
      eq_iff d.target target,
    )

is_held_sound :
    (c : Claim) (d : Delivery)
    → is_held c d ≡ true
    → (d.event ≡ c.event.id) × (d.target ≡ c.target) × (d.lease ≡ c.lease)
is_held_sound c d h =
    ground (arith, eq_iff d.event c.event.id, eq_iff d.target c.target, eq_iff d.lease c.lease)

-- When a second worker has claimed the event and target of an earlier claim under another lease,
-- the acknowledgement of the earlier claim, whatever outcome it reports, changes nothing.
pub takeover_fences :
    (fails fails' : Faults) (clock' : ℕ → ℕ) (k' lease_time' : ℕ) (lease' : String)
    (targets' : List String) (log log' : Log) (c c' : Claim) (state : State) (next : ℕ)
    → claim fails clock' k' lease_time' lease' targets' log ≡ ok (c', log')
    → c'.event.id ≡ c.event.id
    → c'.target ≡ c.target
    → c.lease ≢ lease'
    → (finish fails' state next c log').1 ≡ log'
unfolding finish
takeover_fences fails fails' clock' k' lease_time' lease' targets' log log' c c' state next h
      same_id same_target other =
    let r = claim_ok fails clock' k' lease_time' lease' targets' log c' log' h in
    let until = clock' (r.at + 2) + lease_time' in
    let quiet : All (λ d. is_held c d ≡ false) log'.deliveries =
      All-of_In (λ d. is_held c d ≡ false) log'.deliveries
        λ d m.
          not_held d
            (leased_by r.job.event.id c'.target lease' until log d
              (subst (λ (x : Log). In d x.deliveries) r.log_is m))
            (ap (λ (e : Event). e.id) (sym r.event_is) ∙ same_id) in
    elim (Bool-cases (fails' 0)) [
      | inl e ↦ rw e
      | inr e ↦ rw (e, update_none (is_held c) (acknowledge state next) log'.deliveries quiet)
    ]
  where
    not_held :
        (d : Delivery) {id : String}
        → (is_delivery id c'.target d ≡ true → d.lease ≡ lease')
        → id ≡ c.event.id
        → is_held c d ≡ false
    not_held d {id} by e = elim (Bool-cases (is_held c d)) [
      | inr quiet ↦ quiet
      | inl held ↦
          let (a, b, l) = is_held_sound c d held in
          let hit : is_delivery id c'.target d ≡ true =
            ground (arith, a, b, eq_iff d.event id, eq_iff d.target c'.target) in
          absurd (other (sym l ∙ by hit))
    ]
