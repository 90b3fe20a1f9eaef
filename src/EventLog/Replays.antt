-- ===== src/EventLog/Replays.antt =====
-- Replay makes the deliveries of one event of one session fresh again, and nothing else.
use wppconnect_server_go.Prelude.{
  ℕ, ◌+◌, ◌-◌, ◌≤◌, String, ◌≡◌, refl, sym, ap, subst, ◌∙◌, inl, inr, Bool, true, false, not, ◌&&◌,
  List, ◌++◌, eq_refl, [], ◌∷◌, arith, str_eq, eq_iff, Result-cases, ok, Faults, All, All-of_In, In,
  In-append_left, In-append_right, Bool-cases, leb,
}
use wppconnect_server_go.Table.{select, update, exists}
use wppconnect_server_go.Table.Laws.{update-In, update-In_hit, exists-In, exists_sound}
use wppconnect_server_go.EventLog.{Event, Delivery, Log, has_id, is_delivery, new_delivery}
use wppconnect_server_go.EventLog.Leases.{reset, upsert, replay, replay_targets}

is_delivery_sound :
    (id target : String) (d : Delivery)
    → is_delivery id target d ≡ true
    → (d.event ≡ id) × (d.target ≡ target)
is_delivery_sound id target d h = ground (arith, eq_iff d.event id, eq_iff d.target target)

reset-new_delivery :
    (id target : String) (d : Delivery)
    → is_delivery id target d ≡ true
    → reset d ≡ new_delivery id target
reset-new_delivery id target d h = let (e, t) = is_delivery_sound id target d h in cc (e, t)

upsert-adds :
    (id target : String) (ds : List Delivery) → In (new_delivery id target) (upsert id target ds)
upsert-adds id target ds = elim (Bool-cases (exists (is_delivery id target) ds)) [
  | inl e ↦
      let (d, m, q) = exists_sound (is_delivery id target) ds e in
      rw e (
        subst (λ x. In x (update (is_delivery id target) reset ds))
          (reset-new_delivery id target d q) (update-In_hit (is_delivery id target) reset d ds m q))
  | inr e ↦
      rw e (In-append_right (new_delivery id target) ds (new_delivery id target ∷ []) (inl refl))
]

upsert-keeps_new :
    (id target t : String) (ds : List Delivery)
    → In (new_delivery id t) ds
    → In (new_delivery id t) (upsert id target ds)
upsert-keeps_new id target t ds m = elim (Bool-cases (exists (is_delivery id target) ds)) [
  | inl e ↦ rw e (elim (Bool-cases (is_delivery id target (new_delivery id t))) [
    | inl hit ↦ update-In_hit (is_delivery id target) reset (new_delivery id t) ds m hit
    | inr miss ↦ update-In (is_delivery id target) reset (new_delivery id t) ds m miss
  ])
  | inr e ↦ rw e (In-append_left (new_delivery id t) ds (new_delivery id target ∷ []) m)
]

-- What holds for no delivery of the event to the target selects the same rows before and after.
upsert-select :
    (id target : String) (q : Delivery → Bool) (ds : List Delivery)
    → ((d : Delivery) → is_delivery id target d ≡ true → q d ≡ false)
    → select q (upsert id target ds) ≡ select q ds
upsert-select id target q ds k = elim (Bool-cases (exists (is_delivery id target) ds)) [
  | inl e ↦ rw e (updated ds)
  | inr e ↦ rw e (appended ds)
]
  where
    updated :
        (ds : List Delivery) → select q (update (is_delivery id target) reset ds) ≡ select q ds
    updated [] = refl
    updated (d ∷ ds) = elim (Bool-cases (is_delivery id target d)) [
      | inl e ↦ rw (e, k d e, k (reset d) e) (updated ds)
      | inr e ↦ rw (e, updated ds) refl
    ]

    appended : (ds : List Delivery) → select q (ds ++ new_delivery id target ∷ []) ≡ select q ds
    appended [] = rw (k (new_delivery id target) (ground (arith, eq_refl id, eq_refl target))) refl
    appended (d ∷ ds) = rw (appended ds) refl

-- The deliveries that a replay of the event to these targets does not address.
abbrev pub is_other : String → List String → Delivery → Bool
is_other id targets d = not (str_eq d.event id && exists (str_eq d.target) targets)

module _ (fails : Faults) (clock : ℕ → ℕ) (id : String) where
  targets-keep_new :
      (k : ℕ) (t : String) (targets : List String) (ds rows : List Delivery)
      → replay_targets fails clock k id targets ds ≡ ok rows
      → In (new_delivery id t) ds
      → In (new_delivery id t) rows
  unfolding replay_targets
  targets-keep_new k t [] ds rows h m = subst (In (new_delivery id t)) (ground arith) m
  targets-keep_new k t (x ∷ xs) ds rows h m =
      targets-keep_new (k + 2) t xs (upsert id x ds) rows (ground arith)
        (upsert-keeps_new id x t ds m)

  targets-add :
      (k : ℕ) (t : String) (targets : List String) (ds rows : List Delivery)
      → replay_targets fails clock k id targets ds ≡ ok rows
      → In t targets
      → In (new_delivery id t) rows
  unfolding replay_targets
  targets-add k t [] ds rows h m = absurd m
  targets-add k t (x ∷ xs) ds rows h (inl e) =
      targets-keep_new (k + 2) t xs (upsert id x ds) rows (ground arith)
        (subst (λ y. In (new_delivery id y) (upsert id x ds)) (sym e) (upsert-adds id x ds))
  targets-add k t (x ∷ xs) ds rows h (inr m) =
      targets-add (k + 2) t xs (upsert id x ds) rows (ground arith) m

  targets-select :
      (k : ℕ) (q : Delivery → Bool) (targets : List String) (ds rows : List Delivery)
      → replay_targets fails clock k id targets ds ≡ ok rows
      → ((d : Delivery) (t : String) → In t targets → is_delivery id t d ≡ true → q d ≡ false)
      → select q rows ≡ select q ds
  unfolding replay_targets
  targets-select k q [] ds rows h other = ap (select q) (ground arith)
  targets-select k q (x ∷ xs) ds rows h other =
      targets-select (k + 2) q xs (upsert id x ds) rows (ground arith) (λ d t m. other d t (inr m))
      ∙ upsert-select id x q ds (λ d. other d x (inl refl))

is_other_none :
    (id : String) (targets : List String) (d : Delivery) (t : String)
    → In t targets
    → is_delivery id t d ≡ true
    → is_other id targets d ≡ false
is_other_none id targets d t m h =
    let same = is_delivery_sound id t d h in
    let found = exists-In (str_eq d.target) t targets m ((eq_iff d.target t).1 same.1) in
    ground (arith, found, (eq_iff d.event id).1 same.0)

-- A replay that succeeds had an event with that identifier in that session, not yet past its
-- retention; after it every target has a delivery of the event that is pending, due at once, with
-- no attempt made and no lease. All other deliveries, those of other events and those of this event
-- to other targets, are the same rows in the same order as before, none added and none missing,
-- and the events are unchanged.
pub replay_lem :
    (fails : Faults) (clock : ℕ → ℕ) (session id : String) (targets : List String) (log log' : Log)
    → replay fails clock session id targets log ≡ ok log'
    → ((e : Event) × In e log.events
        × (e.id ≡ id)
        × (e.session ≡ session)
        × (clock 1 - log.retention ≤ e.created))
      × All (λ target. In (new_delivery id target) log'.deliveries) targets
      × (select (is_other id targets) log'.deliveries ≡ select (is_other id targets) log.deliveries)
      × (log'.events ≡ log.events)
unfolding replay
replay_lem fails clock session id targets log log' h =
    let wanted = λ (e : Event).
      has_id id e && str_eq e.session session && leb (clock 1 - log.retention) e.created in
    elim (Result-cases (replay_targets fails clock 2 id targets log.deliveries)) [
      | inr (x, p) ↦ absurd (ground (arith, p))
      | inl (rows, p) ↦
          let (e, m, q) = exists_sound wanted log.events (ground (arith, p)) in
          let rows_are : rows ≡ log'.deliveries = ground (arith, p) in
          (
            (
              e,
              m,
              ground (arith, eq_iff e.id id),
              ground (arith, eq_iff e.session session),
              ground arith,
            ),
            All-of_In (λ target. In (new_delivery id target) log'.deliveries) targets
                λ t n.
                  subst (In (new_delivery id t)) rows_are
                    (targets-add fails clock id 2 t targets log.deliveries rows p n),
            ap (select (is_other id targets)) (sym rows_are)
                ∙ targets-select fails clock id 2 (is_other id targets) targets log.deliveries rows
                    p (is_other_none id targets),
            ground (arith, p),
          )
    ]
