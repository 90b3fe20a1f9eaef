-- ===== src/EventLog/Invariant.antt =====
-- The tables of the event log stay consistent: counters, order, keys and references.
use wppconnect_server_go.Prelude.{
  ℕ, ◌+◌, ◌-◌, ◌≤◌, ◌<◌, String, ◌≡◌, refl, sym, subst, inl, inr, Bool, true, false, List, [], ◌∷◌,
  ◌++◌, arith, str_eq, eq_iff, Result-cases, leb, ok, Faults, length, length-append, sum_by,
  sum_by-append, All, All-append, All-imp, All-of_In, All-In, Bool-cases, ◌&&◌, if◌then◌else◌,
}
use wppconnect_server_go.Table.{select, delete, update, exists}
use wppconnect_server_go.Table.Laws.{
  length-delete, sum_by-delete, All-delete, All-update, In-delete,
}
use wppconnect_server_go.EventLog.{
  Event, Delivery, State, Claim, Log, Json, size, has_id, is_delivery, delete_events, insert_event,
  new_delivery, insert_deliveries, append, open_log,
}
use wppconnect_server_go.EventLog.Leases.{
  claim, finish, replay, with_lease, acknowledge, reset, upsert, replay_targets, is_held,
}
use wppconnect_server_go.EventLog.Claims.{claim_ok}
use wppconnect_server_go.EventLog.Append.{expire, append_ok}

-- The sequence numbers rise along the table, from above `lo`.
abbrev pub Ascending : ℕ → List Event → Type 0
Ascending lo [] = Unit
Ascending lo (e ∷ es) = (lo < e.sequence) × Ascending e.sequence es

-- No two rows have the same event and target.
abbrev pub Distinct : List Delivery → Type 0
Distinct [] = Unit
Distinct (d ∷ ds) = All (λ x. is_delivery d.event d.target x ≡ false) ds × Distinct ds

pub record IsValid (log : Log) : Type 0 where
  pub counted : log.n ≡ length log.events
  pub sized : log.b ≡ sum_by size log.events
  pub ascending : Ascending 0 log.events
  pub bounded : All (λ e. e.sequence ≤ log.sequence) log.events
  pub linked : All (λ d. exists (has_id d.event) log.events ≡ true) log.deliveries
  pub distinct : Distinct log.deliveries

pub Ascending-mono : (a b : ℕ) (es : List Event) → a ≤ b → Ascending b es → Ascending a es
Ascending-mono a b [] h s = tt
Ascending-mono a b (e ∷ es) h s = (omega arith, s.1)

delete-Ascending :
    (p : Event → Bool) (lo : ℕ) (es : List Event) → Ascending lo es → Ascending lo (delete p es)
delete-Ascending p lo [] s = tt
delete-Ascending p lo (e ∷ es) s =
    ground (arith, delete-Ascending p e.sequence es s.1, Ascending-mono lo e.sequence (delete p es))

append-Ascending :
    (lo : ℕ) (e : Event) (es : List Event)
    → lo < e.sequence
    → Ascending lo es
    → All (λ x. x.sequence < e.sequence) es
    → Ascending lo (es ++ e ∷ [])
append-Ascending lo e [] h s b = (h, tt)
append-Ascending lo e (x ∷ es) h s b = (s.0, append-Ascending x.sequence e es b.0 s.1 b.1)

exists-append :
    (q : Event → Bool) (xs ys : List Event) → exists q xs ≡ true → exists q (xs ++ ys) ≡ true
exists-append q [] ys h = cc
exists-append q (x ∷ xs) ys h = ground (arith, exists-append q xs ys)

exists-append_self :
    (q : Event → Bool) (xs : List Event) (e : Event) → q e ≡ true → exists q (xs ++ e ∷ []) ≡ true
exists-append_self q [] e h = rw h
exists-append_self q (x ∷ xs) e h = ground (arith, exists-append_self q xs e)

exists-delete :
    (q p : Event → Bool) (es : List Event)
    → exists q es ≡ true
    → exists q (select p es) ≡ false
    → exists q (delete p es) ≡ true
exists-delete q p [] h k = cc
exists-delete q p (e ∷ es) h k = ground (arith, exists-delete q p es)

delete-Distinct : (p : Delivery → Bool) (ds : List Delivery) → Distinct ds → Distinct (delete p ds)
delete-Distinct p [] h = tt
delete-Distinct p (d ∷ ds) h = elim (Bool-cases (p d)) [
  | inl e ↦ rw e (delete-Distinct p ds h.1)
  | inr e ↦
      rw e (
        All-delete (λ x. is_delivery d.event d.target x ≡ false) p ds h.0,
        delete-Distinct p ds h.1,
      )
]

-- A deletion of events keeps the tables consistent.
pub delete_events-IsValid :
    (p : Event → Bool) (log : Log) → IsValid log → IsValid (delete_events p log)
unfolding delete_events
delete_events-IsValid p log v = record {
  counted = omega (arith, length-delete p log.events, v.counted);
  sized = omega (arith, sum_by-delete p size log.events, v.sized);
  ascending = delete-Ascending p 0 log.events v.ascending;
  bounded = All-delete (λ e. e.sequence ≤ log.sequence) p log.events v.bounded;
  linked =
      All-of_In _ (delete (λ d. exists (has_id d.event) (select p log.events)) log.deliveries)
        λ d m.
          let (old, kept) =
            In-delete (λ x. exists (has_id x.event) (select p log.events)) d log.deliveries m in
          exists-delete (has_id d.event) p log.events
            (All-In (λ x. exists (has_id x.event) log.events ≡ true) d log.deliveries v.linked old)
            kept;
  distinct = delete-Distinct _ log.deliveries v.distinct;
}

append-Distinct :
    (d : Delivery) (ds : List Delivery)
    → exists (is_delivery d.event d.target) ds ≡ false
    → Distinct ds
    → Distinct (ds ++ d ∷ [])
append-Distinct d [] h k = (tt, tt)
append-Distinct d (x ∷ ds) h k = (
  All-append (λ y. is_delivery x.event x.target y ≡ false) ds (d ∷ []) k.0
      (
        ground (
          arith,
          eq_iff x.event d.event,
          eq_iff d.event x.event,
          eq_iff x.target d.target,
          eq_iff d.target x.target,
        ),
        tt,
      ),
  append-Distinct d ds (ground arith) k.1,
)

-- The loop over the targets adds rows of one event, each target once.
insert_deliveries-keeps :
    (fails : Faults) (k : ℕ) (id : String) (targets : List String) (es : List Event)
    (ds : List Delivery) {rows : List Delivery}
    → insert_deliveries fails k id targets ds ≡ ok rows
    → exists (has_id id) es ≡ true
    → All (λ d. exists (has_id d.event) es ≡ true) ds
    → Distinct ds
    → All (λ d. exists (has_id d.event) es ≡ true) rows × Distinct rows
unfolding insert_deliveries
insert_deliveries-keeps fails k id [] es ds h e l u = ground arith
insert_deliveries-keeps fails k id (t ∷ ts) es ds {rows} h e l u =
    insert_deliveries-keeps fails (k + 1) id ts es (ds ++ new_delivery id t ∷ []) {rows = rows}
      (ground arith) e
      (All-append (λ d. exists (has_id d.event) es ≡ true) ds (new_delivery id t ∷ []) l (e, tt))
      (append-Distinct (new_delivery id t) ds (ground arith) u)

insert_event-IsValid :
    (e : Event) (x : Log) (rows : List Delivery)
    → IsValid x
    → e.sequence ≡ x.sequence + 1
    → All (λ d. exists (has_id d.event) (x.events ++ e ∷ []) ≡ true) rows
    → Distinct rows
    → IsValid (record (insert_event e x) { deliveries = rows })
unfolding insert_event
insert_event-IsValid e x rows v q linked distinct = record {
  counted = omega (arith, length-append x.events (e ∷ []), v.counted);
  sized = omega (arith, sum_by-append size x.events (e ∷ []), v.sized);
  ascending = append-Ascending 0 e x.events (omega arith) v.ascending (
      All-imp (λ y. y.sequence ≤ x.sequence) (λ y. y.sequence < e.sequence) (λ y h. omega arith)
        x.events v.bounded);
  bounded =
      All-append (λ y. y.sequence ≤ e.sequence) x.events (e ∷ [])
        (All-imp (λ y. y.sequence ≤ x.sequence) (λ y. y.sequence ≤ e.sequence) (λ y h. omega arith)
          x.events v.bounded)
        (omega arith, tt);
  linked = linked;
  distinct = distinct;
}

-- Every successful append, whatever it expires and whatever targets it has, keeps the tables
-- consistent.
pub append-IsValid :
    (json : Json) (fails : Faults) (created now : ℕ) (id name session : String)
    (fields : List (String × Json.Value json)) (targets : List String) (log : Log) (e : Event)
    (log' : Log)
    → IsValid log
    → append json fails created now id name session fields targets log ≡ ok (e, log')
    → IsValid log'
unfolding delete_events
append-IsValid json fails created now id name session fields targets log e log' v h =
    let a = append_ok json fails created now id name session fields targets log e log' h in
    let x = expire now log in
    let w : IsValid x = delete_events-IsValid _ log v in
    let self : exists (has_id id) (x.events ++ e ∷ []) ≡ true =
      exists-append_self (has_id id) x.events e ((eq_iff e.id id).1 a.id_is) in
    let rows =
      insert_deliveries-keeps fails 5 id targets (x.events ++ e ∷ []) x.deliveries a.inserted self
        (All-imp (λ d. exists (has_id d.event) x.events ≡ true)
          (λ d. exists (has_id d.event) (x.events ++ e ∷ []) ≡ true)
          (λ d h. exists-append (has_id d.event) x.events (e ∷ []) h) x.deliveries w.linked)
        w.distinct in
    subst IsValid (sym a.log_is) (insert_event-IsValid e x a.rows w a.sequence_is rows.0 rows.1)

if_keeps :
    (g : Delivery → String) (f : Delivery → Delivery) (b : Bool) (d : Delivery)
    → g (f d) ≡ g d
    → g (if b then f d else d) ≡ g d
if_keeps g f true d h = h
if_keeps g f false d h = refl

update-Distinct :
    (p : Delivery → Bool) (f : Delivery → Delivery)
    → ((d : Delivery) → (f d).event ≡ d.event)
    → ((d : Delivery) → (f d).target ≡ d.target)
    → (ds : List Delivery) → Distinct ds
    → Distinct (update p f ds)
update-Distinct p f he ht [] h = tt
update-Distinct p f he ht (d ∷ ds) h = (
  rw (if_keeps (λ x. x.event) f (p d) d (he d), if_keeps (λ x. x.target) f (p d) d (ht d))
      (All-update (λ x. is_delivery d.event d.target x ≡ false) p f (λ a t k. rw (he a, ht a) k) ds
        h.0),
  update-Distinct p f he ht ds h.1,
)

-- A change of rows that keeps their keys keeps the tables consistent.
update_rows-IsValid :
    (p : Delivery → Bool) (f : Delivery → Delivery)
    → ((d : Delivery) → (f d).event ≡ d.event)
    → ((d : Delivery) → (f d).target ≡ d.target)
    → (log : Log) → IsValid log
    → IsValid (record log { deliveries = update p f log.deliveries })
update_rows-IsValid p f he ht log v = record {
  counted = v.counted;
  sized = v.sized;
  ascending = v.ascending;
  bounded = v.bounded;
  linked =
      All-update (λ d. exists (has_id d.event) log.events ≡ true) p f
        (λ d t h. subst (λ s. exists (has_id s) log.events ≡ true) (sym (he d)) h) log.deliveries
        v.linked;
  distinct = update-Distinct p f he ht log.deliveries v.distinct;
}

finish-IsValid :
    (fails : Faults) (state : State) (next : ℕ) (c : Claim) (log : Log)
    → IsValid log
    → IsValid (finish fails state next c log).1
unfolding finish
finish-IsValid fails state next c log v = elim (Bool-cases (fails 0)) [
  | inl e ↦ rw e v
  | inr e ↦
      rw e (update_rows-IsValid (is_held c) (acknowledge state next) (λ d. refl) (λ d. refl) log v)
]

claim-IsValid :
    (fails : Faults) (clock : ℕ → ℕ) (k lease_time : ℕ) (lease : String) (targets : List String)
    (log : Log) (c : Claim) (log' : Log)
    → IsValid log
    → claim fails clock k lease_time lease targets log ≡ ok (c, log')
    → IsValid log'
claim-IsValid fails clock k lease_time lease targets log c log' v h =
    let r = claim_ok fails clock k lease_time lease targets log c log' h in
    subst IsValid (sym r.log_is) (
      update_rows-IsValid (is_delivery r.job.event.id c.target)
        (with_lease lease (clock (r.at + 2) + lease_time)) (λ d. refl) (λ d. refl) log v)

upsert-IsValid :
    (id target : String) (log : Log)
    → exists (has_id id) log.events ≡ true
    → IsValid log
    → IsValid (record log { deliveries = upsert id target log.deliveries })
upsert-IsValid id target log e v =
    elim (Bool-cases (exists (is_delivery id target) log.deliveries)) [
      | inl h ↦
          rw h (update_rows-IsValid (is_delivery id target) reset (λ d. refl) (λ d. refl) log v)
      | inr h ↦ rw h (record {
        counted = v.counted;
        sized = v.sized;
        ascending = v.ascending;
        bounded = v.bounded;
        linked =
            All-append (λ d. exists (has_id d.event) log.events ≡ true) log.deliveries
              (new_delivery id target ∷ []) v.linked (e, tt);
        distinct = append-Distinct (new_delivery id target) log.deliveries h v.distinct;
      })
    ]

replay_targets-IsValid :
    (fails : Faults) (clock : ℕ → ℕ) (k : ℕ) (id : String) (targets : List String) (log : Log)
    (rows : List Delivery)
    → exists (has_id id) log.events ≡ true
    → IsValid log
    → replay_targets fails clock k id targets log.deliveries ≡ ok rows
    → IsValid (record log { deliveries = rows })
unfolding replay_targets
replay_targets-IsValid fails clock k id [] log rows e v h =
    subst (λ r. IsValid (record log { deliveries = r })) (ground arith) v
replay_targets-IsValid fails clock k id (t ∷ ts) log rows e v h =
    replay_targets-IsValid fails clock (k + 2) id ts
      (record log { deliveries = upsert id t log.deliveries }) rows e (upsert-IsValid id t log e v)
      (ground arith)

exists-imp :
    (q r : Event → Bool) (es : List Event)
    → ((e : Event) → q e ≡ true → r e ≡ true)
    → exists q es ≡ true
    → exists r es ≡ true
exists-imp q r [] f h = cc
exists-imp q r (e ∷ es) f h = ground (arith, f e, exists-imp q r es f)

replay-IsValid :
    (fails : Faults) (clock : ℕ → ℕ) (session id : String) (targets : List String) (log log' : Log)
    → IsValid log
    → replay fails clock session id targets log ≡ ok log'
    → IsValid log'
unfolding replay
replay-IsValid fails clock session id targets log log' v h =
    elim (Result-cases (replay_targets fails clock 2 id targets log.deliveries)) [
      | inl (rows, p) ↦ subst IsValid (ground (arith, p)) (
          replay_targets-IsValid fails clock 2 id targets log rows
            (exists-imp
              (λ e.
                has_id id e && str_eq e.session session && leb (clock 1 - log.retention) e.created)
              (has_id id) log.events (λ e q. ground arith) (ground (arith, p)))
            v p)
      | inr (x, p) ↦ ground (arith, p)
    ]

-- One operation of the log that returns without an error, or an acknowledgement in any case.
pub data Step (json : Json) (log log' : Log) : Type 0 where
  appends :
      (fails : Faults) (created now : ℕ) (id name session : String)
      (fields : List (String × Json.Value json)) (targets : List String) (e : Event)
      → append json fails created now id name session fields targets log ≡ ok (e, log')
      → Step json log log'
  claims :
      (fails : Faults) (clock : ℕ → ℕ) (k lease_time : ℕ) (lease : String) (targets : List String)
      (c : Claim)
      → claim fails clock k lease_time lease targets log ≡ ok (c, log')
      → Step json log log'
  finishes :
      (fails : Faults) (state : State) (next : ℕ) (c : Claim)
      → (finish fails state next c log).1 ≡ log'
      → Step json log log'
  replays :
      (fails : Faults) (clock : ℕ → ℕ) (session id : String) (targets : List String)
      → replay fails clock session id targets log ≡ ok log'
      → Step json log log'

pub data Reach (json : Json) (first : Log) : Log → Type 0 where
  here : Reach json first first
  next : {log log' : Log} → Reach json first log → Step json log log' → Reach json first log'

pub Step-IsValid : (json : Json) (log log' : Log) → Step json log log' → IsValid log → IsValid log'
Step-IsValid json log log' (appends fails created now id name session fields targets e h) v =
    append-IsValid json fails created now id name session fields targets log e log' v h
Step-IsValid json log log' (claims fails clock k lease_time lease targets c h) v =
    claim-IsValid fails clock k lease_time lease targets log c log' v h
Step-IsValid json log log' (finishes fails state at c h) v =
    subst IsValid h (finish-IsValid fails state at c log v)
Step-IsValid json log log' (replays fails clock session id targets h) v =
    replay-IsValid fails clock session id targets log log' v h

-- From any consistent log, in particular the empty one, every sequence of appends, claims,
-- acknowledgements and replays, with any failures of the database, leads to a log whose counters
-- equal the number and the bytes of its events, whose sequence numbers rise strictly up to the
-- AUTOINCREMENT counter, whose deliveries all belong to a stored event, and which has at most one
-- delivery for each event and target.
pub Reach-IsValid :
    (json : Json) {first log : Log} → IsValid first → Reach json first log → IsValid log
Reach-IsValid json v here = v
Reach-IsValid json v (next {log = a} {log' = b} r s) =
    Step-IsValid json a b s (Reach-IsValid json v r)

pub open_log-IsValid : IsValid open_log
unfolding open_log
open_log-IsValid = record {
  counted = refl;
  sized = refl;
  ascending = tt;
  bounded = tt;
  linked = tt;
  distinct = tt;
}
