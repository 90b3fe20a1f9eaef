-- ===== src/EventLog/Pending.antt =====
-- The bounds of the log, and what an append may not drop.
use wppconnect_server_go.Prelude.{
  ℕ, ◌+◌, ◌-◌, ◌≤◌, String, ◌≡◌, refl, sym, ap, subst, ◌∙◌, inl, inr, true, false, ◌&&◌, List, [],
  ◌∷◌, ◌++◌, arith, str_eq, eq_iff, ok, Faults, All, All-of_In, In, In-append_left, In-append_right,
  Bool-cases, length, sum_by,
}
use wppconnect_server_go.Table.{select, exists}
use wppconnect_server_go.Table.Laws.{In-select, delete-In, exists-In, exists_sound}
use wppconnect_server_go.EventLog.{
  Event, Delivery, Log, Json, size, has_id, is_expired, is_pending, delete_events, insert_event,
  new_delivery, insert_deliveries, append,
}
use wppconnect_server_go.EventLog.Append.{expire, append_ok}
use wppconnect_server_go.EventLog.Invariant.{IsValid, append-IsValid}

limits-expire :
    (now : ℕ) (log : Log)
    → ((expire now log).limit ≡ log.limit) × ((expire now log).max_bytes ≡ log.max_bytes)
unfolding delete_events
limits-expire now log = (refl, refl)

-- After a successful append to a consistent log, the log holds no more events and no more bytes than
-- its limits allow.
pub append_bounded :
    (json : Json) (fails : Faults) (created now : ℕ) (id name session : String)
    (fields : List (String × Json.Value json)) (targets : List String) (log : Log) (e : Event)
    (log' : Log)
    → IsValid log
    → append json fails created now id name session fields targets log ≡ ok (e, log')
    → (length log'.events ≤ log.limit)
      × (sum_by size log'.events ≤ log.max_bytes)
      × (log'.limit ≡ log.limit)
      × (log'.max_bytes ≡ log.max_bytes)
unfolding insert_event
append_bounded json fails created now id name session fields targets log e log' v h =
    let a = append_ok json fails created now id name session fields targets log e log' h in
    let w = append-IsValid json fails created now id name session fields targets log e log' v h in
    let kept = limits-expire now log in
    (
      omega (arith, w.counted, ap (λ (x : Log). x.n) a.log_is, a.room),
      omega (arith, w.sized, ap (λ (x : Log). x.b) a.log_is, a.bytes),
      ap (λ (x : Log). x.limit) a.log_is ∙ kept.0,
      ap (λ (x : Log). x.max_bytes) a.log_is ∙ kept.1,
    )

insert_deliveries-In :
    (fails : Faults) (k : ℕ) (id : String) (targets : List String) (ds : List Delivery)
    (d : Delivery) {rows : List Delivery}
    → insert_deliveries fails k id targets ds ≡ ok rows
    → In d ds
    → In d rows
unfolding insert_deliveries
insert_deliveries-In fails k id [] ds d h m = ground arith
insert_deliveries-In fails k id (t ∷ ts) ds d {rows} h m =
    insert_deliveries-In fails (k + 1) id ts (ds ++ new_delivery id t ∷ []) d {rows = rows}
      (ground arith) (In-append_left d ds (new_delivery id t ∷ []) m)

-- An event with pending work is not expired.
kept_while_pending :
    (cutoff : ℕ) (ds : List Delivery) (d : Delivery) (e : Event)
    → In d ds
    → is_pending d.state ≡ true
    → e.id ≡ d.event
    → is_expired cutoff ds e ≡ false
kept_while_pending cutoff ds d e m p q =
    let found : exists (λ x. str_eq x.event e.id && is_pending x.state) ds ≡ true =
      exists-In (λ x. str_eq x.event e.id && is_pending x.state) d ds m
        (ground (arith, eq_iff d.event e.id)) in
    ground (arith, found)

delivery_survives :
    (cutoff : ℕ) (log : Log) (d : Delivery)
    → In d log.deliveries
    → is_pending d.state ≡ true
    → In d (delete_events (is_expired cutoff log.deliveries) log).deliveries
unfolding delete_events
delivery_survives cutoff log d m p =
    let expired = is_expired cutoff log.deliveries in
    elim (Bool-cases (exists (has_id d.event) (select expired log.events))) [
      | inr none_found ↦
          delete-In (λ x. exists (has_id x.event) (select expired log.events)) d log.deliveries m
            none_found
      | inl found ↦
          let (e, old, same) = exists_sound (has_id d.event) (select expired log.events) found in
          let gone = (In-select expired e log.events old).1 in
          let stays =
            kept_while_pending cutoff log.deliveries d e m p ((eq_iff e.id d.event).0 same) in
          cc (gone, stays)
    ]

-- The loop over the targets adds one new pending delivery for each of them.
insert_deliveries-adds :
    (fails : Faults) (k : ℕ) (id target : String) (targets : List String) (ds : List Delivery)
    {rows : List Delivery}
    → insert_deliveries fails k id targets ds ≡ ok rows
    → In target targets
    → In (new_delivery id target) rows
unfolding insert_deliveries
insert_deliveries-adds fails k id target [] ds h m = absurd m
insert_deliveries-adds fails k id target (t ∷ ts) ds {rows} h (inl e) =
    insert_deliveries-In fails (k + 1) id ts (ds ++ new_delivery id t ∷ []) (new_delivery id target)
      {rows = rows} (ground arith)
      (In-append_right (new_delivery id target) ds (new_delivery id t ∷ [])
        (inl (ap (new_delivery id) e)))
insert_deliveries-adds fails k id target (t ∷ ts) ds {rows} h (inr m) =
    insert_deliveries-adds fails (k + 1) id target ts (ds ++ new_delivery id t ∷ []) {rows = rows}
      (ground arith) m

-- A successful append stores the event under its identity and a fresh pending delivery of it for
-- each target, and loses no pending delivery that the log had: expiry never drops work to do.
pub append_keeps_pending :
    (json : Json) (fails : Faults) (created now : ℕ) (id name session : String)
    (fields : List (String × Json.Value json)) (targets : List String) (log : Log) (e : Event)
    (log' : Log)
    → append json fails created now id name session fields targets log ≡ ok (e, log')
    → In e log'.events
      × (e.id ≡ id)
      × (e.session ≡ session)
      × (e.name ≡ name)
      × (e.sequence ≡ log.sequence + 1)
      × All (λ target. In (new_delivery id target) log'.deliveries) targets
      × All (λ d. In d log'.deliveries) (select (λ d. is_pending d.state) log.deliveries)
unfolding insert_event
append_keeps_pending json fails created now id name session fields targets log e log' h =
    let a = append_ok json fails created now id name session fields targets log e log' h in
    let rows_are : log'.deliveries ≡ a.rows = ap (λ (x : Log). x.deliveries) a.log_is in
    (
      subst (In e) (sym (ap (λ (x : Log). x.events) a.log_is))
          (In-append_right e (expire now log).events (e ∷ []) (inl refl)),
      a.id_is,
      a.session_is,
      a.name_is,
      a.sequence_is,
      All-of_In (λ target. In (new_delivery id target) log'.deliveries) targets
          λ target m. subst (In (new_delivery id target)) (sym rows_are) (
            insert_deliveries-adds fails 5 id target targets (expire now log).deliveries
              {rows = a.rows} a.inserted m),
      All-of_In (λ d. In d log'.deliveries) (select (λ d. is_pending d.state) log.deliveries)
          λ d m.
            let (old, p) = In-select (λ x. is_pending x.state) d log.deliveries m in
            subst (In d) (sym rows_are) (
              insert_deliveries-In fails 5 id targets (expire now log).deliveries d {rows = a.rows}
                a.inserted (delivery_survives (now - log.retention) log d old p)),
    )
