-- ===== src/Bus/Attempts.antt =====
-- internal/eventbus/bus.go: no delivery has more attempts recorded than the options allow, however
-- the workers' claims and acknowledgements, the publications and the replays interleave.
use wppconnect_server_go.Prelude.{
  ℕ, ◌+◌, ◌≤◌, ◌≡◌, refl, sym, ap, subst, ◌∙◌, ◌⊎◌, inl, inr, true, false, String, str_eq, eq_iff,
  List, [], ◌∷◌, ◌++◌, arith, if◌then◌else◌, Bool-cases, All, All-In, All-imp, All-of_In,
  All-append, In, Result-cases, ok, Faults,
}
use wppconnect_server_go.Table.{exists}
use wppconnect_server_go.Table.Laws.{In-update, All-delete, All-update}
use wppconnect_server_go.EventLog.{
  Delivery, Event, Claim, Log, Json, is_pending, is_delivery, new_delivery, append, delete_events,
  insert_deliveries,
}
use wppconnect_server_go.EventLog.Leases.{
  claim, finish, replay, replay_targets, upsert, reset, with_lease, acknowledge, is_held, grant,
}
use wppconnect_server_go.EventLog.Append.{expire, append_ok}
use wppconnect_server_go.EventLog.Claims.{claim_ok, claim-IsSound}
use wppconnect_server_go.EventLog.Invariant.{
  IsValid, Distinct, Step-IsValid, appends, claims, finishes, replays,
}
use wppconnect_server_go.Bus.{Options, Round, verdict, settle, add_ms}
use wppconnect_server_go.Bus.Backoff.{verdict_leaves_attempts}

-- The log and the claims that workers have been given so far.
pub record System : Type 0 where
  pub log : Log
  pub held : List Claim

abbrev pub Agrees : Delivery → Claim → Type 0
Agrees d c = (is_held c d ≡ false) ⊎ ((d.attempt ≡ c.attempt) × (is_pending d.state ≡ true))

-- A delivery that is still pending has an attempt left, and a worker that holds it knows how
-- many were made.
abbrev pub Good : Options → List Claim → Delivery → Type 0
Good o held d =
    (d.attempt + (if is_pending d.state then 1 else 0) ≤ o.attempts) × All (Agrees d) held

pub record Inv (o : Options) (s : System) : Type 0 where
  pub valid : IsValid s.log
  pub good : All (Good o s.held) s.log.deliveries
  pub named : All (λ c. str_eq c.lease "" ≡ false) s.held

-- A new lease is a UUID: not empty, and in no claim so far.
pub data Move (json : Json) (o : Options) (s t : System) : Type 0 where
  publishes :
      (fails : Faults) (created now : ℕ) (id name session : String)
      (fields : List (String × Json.Value json)) (targets : List String) (e : Event) (log' : Log)
      → append json fails created now id name session fields targets s.log ≡ ok (e, log')
      → t ≡ record s { log = log' }
      → Move json o s t
  takes :
      (fails : Faults) (clock : ℕ → ℕ) (k lease_time : ℕ) (lease : String) (targets : List String)
      (c : Claim) (log' : Log)
      → str_eq lease "" ≡ false
      → All (λ x. str_eq x.lease lease ≡ false) s.held
      → claim fails clock k lease_time lease targets s.log ≡ ok (c, log')
      → t ≡ record { log = log'; held = c ∷ s.held }
      → Move json o s t
  settles :
      (round : Round) (c : Claim)
      → In c s.held
      → t ≡ record s { log = settle o round c s.log }
      → Move json o s t
  resends :
      (fails : Faults) (clock : ℕ → ℕ) (session id : String) (targets : List String) (log' : Log)
      → replay fails clock session id targets s.log ≡ ok log'
      → t ≡ record s { log = log' }
      → Move json o s t

pub data Moves (json : Json) (o : Options) (s : System) : System → Type 0 where
  rest : Moves json o s s
  more : {t u : System} → Moves json o s t → Move json o t u → Moves json o s u

-- A delivery without a lease is held by nobody.
unleased-Agrees :
    (d : Delivery) (held : List Claim)
    → d.lease ≡ ""
    → All (λ c. str_eq c.lease "" ≡ false) held
    → All (Agrees d) held
unleased-Agrees d [] e h = tt
unleased-Agrees d (c ∷ held) e h =
    (inl (ground (arith, eq_iff d.lease c.lease, eq_iff c.lease "")), unleased-Agrees d held e h.1)

insert_deliveries-All :
    (P : Delivery → Type 0) (fails : Faults) (k : ℕ) (id : String) (targets : List String)
    (ds rows : List Delivery)
    → ((target : String) → P (new_delivery id target))
    → All P ds
    → insert_deliveries fails k id targets ds ≡ ok rows
    → All P rows
unfolding insert_deliveries
insert_deliveries-All P fails k id [] ds rows f a h = subst (All P) (ground arith) a
insert_deliveries-All P fails k id (t ∷ ts) ds rows f a h =
    insert_deliveries-All P fails (k + 1) id ts (ds ++ new_delivery id t ∷ []) rows f
      (All-append P ds (new_delivery id t ∷ []) a (f t, tt)) (ground arith)

upsert-All :
    (P : Delivery → Type 0) (id target : String) (ds : List Delivery)
    → ((d : Delivery) → P (reset d))
    → All P ds
    → P (new_delivery id target)
    → All P (upsert id target ds)
upsert-All P id target ds f a n = elim (Bool-cases (exists (is_delivery id target) ds)) [
  | inl e ↦ rw e (All-update P (is_delivery id target) reset (λ d q p. f d) ds a)
  | inr e ↦ rw e (All-append P ds (new_delivery id target ∷ []) a (n, tt))
]

replay_targets-All :
    (P : Delivery → Type 0) (fails : Faults) (clock : ℕ → ℕ) (k : ℕ) (id : String)
    (targets : List String) (ds rows : List Delivery)
    → ((d : Delivery) → P (reset d))
    → ((target : String) → P (new_delivery id target))
    → All P ds
    → replay_targets fails clock k id targets ds ≡ ok rows
    → All P rows
unfolding replay_targets
replay_targets-All P fails clock k id [] ds rows f n a h = subst (All P) (ground arith) a
replay_targets-All P fails clock k id (t ∷ ts) ds rows f n a h =
    replay_targets-All P fails clock (k + 2) id ts (upsert id t ds) rows f n
      (upsert-All P id t ds f a (n t)) (ground arith)

module _ (json : Json) (o : Options) (some_attempts : 1 ≤ o.attempts) where
  blank-Good :
      (held : List Claim) (d : Delivery)
      → d.lease ≡ ""
      → d.attempt ≡ 0
      → All (λ c. str_eq c.lease "" ≡ false) held
      → Good o held d
  blank-Good held d l a n = (ground arith, unleased-Agrees d held l n)

  publish-Good :
      (fails : Faults) (created now : ℕ) (id name session : String)
      (fields : List (String × Json.Value json)) (targets : List String) (e : Event)
      (log log' : Log) (held : List Claim)
      → append json fails created now id name session fields targets log ≡ ok (e, log')
      → All (λ c. str_eq c.lease "" ≡ false) held
      → All (Good o held) log.deliveries
      → All (Good o held) log'.deliveries
  unfolding delete_events
  publish-Good fails created now id name session fields targets e log log' held h n g =
      let a = append_ok json fails created now id name session fields targets log e log' h in
      subst (All (Good o held)) (sym (ap (λ (x : Log). x.deliveries) a.log_is)) (
        insert_deliveries-All (Good o held) fails 5 id targets (expire now log).deliveries a.rows
          (λ target. blank-Good held (new_delivery id target) refl refl n)
          (All-delete (Good o held) _ log.deliveries g) a.inserted)

  replay-Good :
      (fails : Faults) (clock : ℕ → ℕ) (session id : String) (targets : List String)
      (log log' : Log) (held : List Claim)
      → replay fails clock session id targets log ≡ ok log'
      → All (λ c. str_eq c.lease "" ≡ false) held
      → All (Good o held) log.deliveries
      → All (Good o held) log'.deliveries
  unfolding replay
  replay-Good fails clock session id targets log log' held h n g =
      elim (Result-cases (replay_targets fails clock 2 id targets log.deliveries)) [
        | inr (x, p) ↦ absurd (ground (arith, p))
        | inl (rows, p) ↦
            let rows_are : rows ≡ log'.deliveries = ground (arith, p) in
            subst (All (Good o held)) rows_are (
              replay_targets-All (Good o held) fails clock 2 id targets log.deliveries rows
                (λ d. blank-Good held (reset d) refl refl n)
                (λ target. blank-Good held (new_delivery id target) refl refl n) g p)
      ]

  acknowledged-Good :
      (round : Round) (c : Claim) (held : List Claim) (d : Delivery)
      → In c held
      → All (λ x. str_eq x.lease "" ≡ false) held
      → is_held c d ≡ true
      → Good o held d
      → (next : ℕ) → Good o held (acknowledge (verdict o c.attempt (round.answer c)).0 next d)
  acknowledged-Good round c held d m n h g next =
      let agrees = All-In (Agrees d) c held g.1 m in
      let left = verdict_leaves_attempts o c.attempt (round.answer c) in
      (
        ground (arith, agrees, left),
        unleased-Agrees (acknowledge (verdict o c.attempt (round.answer c)).0 next d) held refl n,
      )

  settle-Good :
      (round : Round) (c : Claim) (log : Log) (held : List Claim)
      → In c held
      → All (λ x. str_eq x.lease "" ≡ false) held
      → All (Good o held) log.deliveries
      → All (Good o held) (settle o round c log).deliveries
  unfolding settle finish
  settle-Good round c log held m n g = elim (Bool-cases round.canceled) [
    | inl e ↦ rw e g
    | inr e ↦ elim (Bool-cases (round.ack_fails 0)) [
      | inl f ↦ rw (e, f) g
      | inr f ↦
          rw (e, f)
            (All-update (Good o held) (is_held c) _
              (λ d h q.
                acknowledged-Good round c held d m n h q
                  (add_ms round.now (verdict o c.attempt (round.answer c)).1))
              log.deliveries g)
    ]
  ]

same_key :
    (id target : String) (x b : Delivery)
    → is_delivery x.event x.target b ≡ false
    → is_delivery id target x ≡ true
    → is_delivery id target b ≡ true
    → ⊥
same_key id target x b q hx hb = ground (
  arith,
  eq_iff x.event id,
  eq_iff x.target target,
  eq_iff b.event id,
  eq_iff b.target target,
  eq_iff b.event x.event,
  eq_iff b.target x.target,
)

-- Two rows with the same key are the same row.
key_unique :
    (id target : String) (ds : List Delivery) (a b : Delivery)
    → Distinct ds
    → In a ds
    → In b ds
    → is_delivery id target a ≡ true
    → is_delivery id target b ≡ true
    → a ≡ b
key_unique id target [] a b u ma mb ha hb = absurd ma
key_unique id target (x ∷ ds) a b u (inl e) (inl f) ha hb = e ∙ sym f
key_unique id target (x ∷ ds) a b u (inr m) (inr n) ha hb =
    key_unique id target ds a b u.1 m n ha hb
key_unique id target (x ∷ ds) a b u (inl e) (inr n) ha hb = absurd (
    same_key id target x b (All-In (λ y. is_delivery x.event x.target y ≡ false) b ds u.0 n)
      (subst (λ y. is_delivery id target y ≡ true) e ha) hb)
key_unique id target (x ∷ ds) a b u (inr m) (inl f) ha hb = absurd (
    same_key id target x a (All-In (λ y. is_delivery x.event x.target y ≡ false) a ds u.0 m)
      (subst (λ y. is_delivery id target y ≡ true) f hb) ha)

fresh-Agrees :
    (d : Delivery) (lease : String) (held : List Claim)
    → d.lease ≡ lease
    → All (λ c. str_eq c.lease lease ≡ false) held
    → All (Agrees d) held
fresh-Agrees d lease [] e h = tt
fresh-Agrees d lease (c ∷ held) e h = (
  inl (ground (arith, eq_iff d.lease c.lease, eq_iff c.lease lease)),
  fresh-Agrees d lease held e h.1,
)

module _ (o : Options) where
  -- What a claim does to the rows, seen from the claims that stand.
  take-Good :
      (clock : ℕ → ℕ) (fails : Faults) (k lease_time : ℕ) (lease : String) (targets : List String)
      (c : Claim) (log log' : Log) (held : List Claim)
      → IsValid log
      → str_eq lease "" ≡ false
      → All (λ x. str_eq x.lease lease ≡ false) held
      → claim fails clock k lease_time lease targets log ≡ ok (c, log')
      → All (Good o held) log.deliveries
      → All (Good o (c ∷ held)) log'.deliveries
  take-Good clock fails k lease_time lease targets c log log' held v n fresh h g =
      let r = claim_ok fails clock k lease_time lease targets log c log' h in
      let s = claim-IsSound r in
      let until = clock (r.at + 2) + lease_time in
      subst (All (Good o (c ∷ held))) (sym (ap (λ (x : Log). x.deliveries) r.log_is)) (
        All-of_In (Good o (c ∷ held)) (grant r.job.event.id c.target lease until log).deliveries
          λ d m.
            let (a, old, how) =
              In-update (is_delivery r.job.event.id c.target) (with_lease lease until) d
                log.deliveries m in
            taken-Good r.job.event.id (ap (λ (e : Event). e.id) r.event_is) r.job.row
              (sym s.same_event) (sym s.same_target) s.row_in r.attempt_is s.pending until d a old
              (All-In (Good o held) a log.deliveries g old) how)
    where
      taken-Good :
          (id : String)
          → c.event.id ≡ id
          → (row : Delivery) → row.event ≡ c.event.id
          → row.target ≡ c.target
          → In row log.deliveries
          → c.attempt ≡ row.attempt
          → is_pending row.state ≡ true
          → (until : ℕ) (d a : Delivery) → In a log.deliveries
          → Good o held a
          → (((is_delivery id c.target a ≡ true) × (d ≡ with_lease lease until a))
              ⊎ ((is_delivery id c.target a ≡ false) × (d ≡ a)))
          → Good o (c ∷ held) d
      taken-Good id e row re rt m at p until d a old good (inl (hit, changed)) =
          let same : a ≡ row =
            key_unique id c.target log.deliveries a row v.distinct old m hit
              (ground (arith, e, re, rt, eq_iff row.event id, eq_iff row.target c.target)) in
          (
            ground (arith, changed, good.0),
            (
              inr (ground (arith, changed, same, at), ground (arith, changed, same, p)),
              fresh-Agrees d lease held (ground (arith, changed)) fresh,
            ),
          )
      taken-Good id e row re rt m at p until d a old good (inr (miss, kept)) = (
        ground (arith, kept, good.0),
        (inl (ground (arith, kept, e, miss)), subst (λ x. All (Agrees x) held) (sym kept) good.1),
      )

settle-IsValid :
    (json : Json) (o : Options) (round : Round) (c : Claim) (log : Log)
    → IsValid log
    → IsValid (settle o round c log)
unfolding settle
settle-IsValid json o round c log v = elim (Bool-cases round.canceled) [
  | inl e ↦ rw e v
  | inr e ↦
      let (state, delay) = verdict o c.attempt (round.answer c) in
      rw e
        (Step-IsValid json log _ (finishes round.ack_fails state (add_ms round.now delay) c refl) v)
]

module _ (json : Json) (o : Options) (some_attempts : 1 ≤ o.attempts) where
  Move-Inv : (s t : System) → Move json o s t → Inv o s → Inv o t
  Move-Inv s t (publishes fails created now id name session fields targets e log' h q) i =
      subst (Inv o) (sym q) (record {
        valid =
            Step-IsValid json s.log log'
              (appends fails created now id name session fields targets e h) i.valid;
        good =
            publish-Good json o some_attempts fails created now id name session fields targets e
              s.log log' s.held h i.named i.good;
        named = i.named;
      })
  Move-Inv s t (takes fails clock k lease_time lease targets c log' n fresh h q) i =
      let r = claim_ok fails clock k lease_time lease targets s.log c log' h in
      subst (Inv o) (sym q) (record {
        valid =
            Step-IsValid json s.log log' (claims fails clock k lease_time lease targets c h)
              i.valid;
        good =
            take-Good o clock fails k lease_time lease targets c s.log log' s.held i.valid n fresh h
              i.good;
        named = (rw r.lease_is n, i.named);
      })
  Move-Inv s t (settles round c m q) i = subst (Inv o) (sym q) (record {
    valid = settle-IsValid json o round c s.log i.valid;
    good = settle-Good json o some_attempts round c s.log s.held m i.named i.good;
    named = i.named;
  })
  Move-Inv s t (resends fails clock session id targets log' h q) i = subst (Inv o) (sym q) (record {
    valid = Step-IsValid json s.log log' (replays fails clock session id targets h) i.valid;
    good =
        replay-Good json o some_attempts fails clock session id targets s.log log' s.held h i.named
          i.good;
    named = i.named;
  })

  Moves-Inv : (s t : System) → Moves json o s t → Inv o s → Inv o t
  Moves-Inv s t rest i = i
  Moves-Inv s t (more {t = m} r x) i = Move-Inv m t x (Moves-Inv s m r i)

  -- Whatever workers, publishers and replays do, in any order and with any failures, and however
  -- long deliveries take, the table of deliveries records for none more attempts than the options
  -- allow, and for one that is still pending it records fewer. An attempt is recorded when it is
  -- acknowledged: one whose acknowledgement fails or comes after its lease was taken over is not
  -- recorded, and the delivery may be sent again. New leases are assumed to be fresh, as UUIDs are.
  pub attempts_bounded :
      (s t : System)
      → Inv o s
      → Moves json o s t
      → All (λ d. d.attempt + (if is_pending d.state then 1 else 0) ≤ o.attempts) t.log.deliveries
  attempts_bounded s t i r =
      All-imp (Good o t.held) (λ d. d.attempt + (if is_pending d.state then 1 else 0) ≤ o.attempts)
        (λ d g. g.0) t.log.deliveries (Moves-Inv s t r i).good
