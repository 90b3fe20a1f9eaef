-- ===== src/EventLog/Tests.antt =====
-- internal/eventbus/store.go on concrete logs: tests, and the theorems at these inputs.
use Prim.Native.String.{◌++◌ as concat}
use wppconnect_server_go.Prelude.{
  ◌+◌, ◌-◌, ◌≤◌, String, ◌≡◌, ◌≢◌, refl, ◌⊎◌, false, some, List, [], ◌∷◌, ◌++◌, arith, eq_iff, ok,
  Faults, All, In, sum_by, pos,
}
use wppconnect_server_go.Table.{select}
use wppconnect_server_go.EventLog.{
  Event, Delivery, delivered, Claim, Log, Json, open_log, append, delete_events, insert_event,
  insert_deliveries, new_delivery, size, is_pending, max_page,
}
use wppconnect_server_go.EventLog.Leases.{
  claim, finish, list, fill_page, replay, replay_targets, is_listed,
}
use wppconnect_server_go.EventLog.Invariant.{
  IsValid, here, next, appends, claims, Reach-IsValid, open_log-IsValid,
}
use wppconnect_server_go.EventLog.Pending.{append_bounded, append_keeps_pending}
use wppconnect_server_go.EventLog.Exclusion.{claim_excludes, takeover_fences}
use wppconnect_server_go.EventLog.Paging.{list_lem, list_resumes}
use wppconnect_server_go.EventLog.Replays.{is_other, replay_lem}

-- An encoder that writes the texts of the fields one after the other.
abbrev pub joined : List (String × String) → String
joined [] = ""
joined ((k, v) ∷ rest) = concat k (concat v (joined rest))

abbrev pub plain : Json
plain = record { Value = String; text = λ s. s; marshal = λ fields. some (joined fields) }

abbrev pub steady : Faults
steady = λ _. false

abbrev pub two_targets : List String
two_targets = "webhook" ∷ "nats" ∷ []

abbrev pub hello : Event
hello = record {
  sequence = 1;
  id = "id-1";
  session = "alpha";
  name = "onmessage";
  created = 1000;
  body = "eventonmessagesessionalpha";
  attempt = 0;
}

abbrev pub first_log : Log
first_log = record {
  events = hello ∷ [];
  deliveries = new_delivery "id-1" "webhook" ∷ new_delivery "id-1" "nats" ∷ [];
  sequence = 1;
  n = 1;
  b = 26;
  limit = 100000;
  max_bytes = 134217728;
  retention = 604800000;
}

pub appends_first :
    append plain steady 1000 1000 "id-1" "onmessage" "alpha" [] two_targets open_log
    ≡ ok (hello, first_log)
unfolding append open_log delete_events insert_event insert_deliveries
appends_first = refl

abbrev pub second_log : Log
second_log = record first_log {
  deliveries =
      record (new_delivery "id-1" "webhook") { lease = "lease-a"; lease_until = 26000 }
      ∷ new_delivery "id-1" "nats"
      ∷ [];
}

abbrev pub held : Claim
held = record { event = hello; target = "webhook"; attempt = 0; lease = "lease-a" }

pub claims_first :
    claim steady (λ _. 1000) 0 25000 "lease-a" ("webhook" ∷ []) first_log ≡ ok (held, second_log)
unfolding claim
claims_first = refl

first_log-IsValid : IsValid first_log
first_log-IsValid = Reach-IsValid plain open_log-IsValid (
    next here
      (appends steady 1000 1000 "id-1" "onmessage" "alpha" [] two_targets hello appends_first))

Reach-IsValid_example : IsValid second_log
Reach-IsValid_example =
    Reach-IsValid plain {first = first_log} first_log-IsValid
      (next here (claims steady (λ _. 1000) 0 25000 "lease-a" ("webhook" ∷ []) held claims_first))

append_bounded_example :
    (1 ≤ open_log.limit)
    × (sum_by size first_log.events ≤ open_log.max_bytes)
    × (first_log.limit ≡ open_log.limit)
    × (first_log.max_bytes ≡ open_log.max_bytes)
append_bounded_example =
    append_bounded plain steady 1000 1000 "id-1" "onmessage" "alpha" [] two_targets open_log hello
      first_log open_log-IsValid appends_first

abbrev bye : Event
bye = record hello { sequence = 2; id = "id-2"; created = 2000 }

abbrev later_log : Log
later_log = record second_log {
  events = hello ∷ bye ∷ [];
  deliveries =
      record (new_delivery "id-1" "webhook") { lease = "lease-a"; lease_until = 26000 }
      ∷ new_delivery "id-1" "nats"
      ∷ new_delivery "id-2" "nats"
      ∷ [];
  sequence = 2;
  n = 2;
  b = 52;
}

appends_second :
    append plain steady 2000 2000 "id-2" "onmessage" "alpha" [] ("nats" ∷ []) second_log
    ≡ ok (bye, later_log)
unfolding append delete_events insert_event insert_deliveries
appends_second = refl

append_keeps_pending_example :
    In bye later_log.events
    × (bye.id ≡ "id-2")
    × (bye.session ≡ "alpha")
    × (bye.name ≡ "onmessage")
    × (bye.sequence ≡ second_log.sequence + 1)
    × All (λ target. In (new_delivery "id-2" target) later_log.deliveries) ("nats" ∷ [])
    × All
        (λ d. In d later_log.deliveries)
        (select (λ (d : Delivery). is_pending d.state) second_log.deliveries)
append_keeps_pending_example =
    append_keeps_pending plain steady 2000 2000 "id-2" "onmessage" "alpha" [] ("nats" ∷ [])
      second_log bye later_log appends_second

-- With both targets, the second worker is given the other one.
abbrev held_nats : Claim
held_nats = record { event = hello; target = "nats"; attempt = 0; lease = "lease-b" }

abbrev third_log : Log
third_log = record first_log {
  deliveries =
      record (new_delivery "id-1" "webhook") { lease = "lease-a"; lease_until = 26000 }
      ∷ record (new_delivery "id-1" "nats") { lease = "lease-b"; lease_until = 45000 }
      ∷ [];
}

claims_second :
    claim steady (λ _. 20000) 0 25000 "lease-b" two_targets second_log ≡ ok (held_nats, third_log)
unfolding claim
claims_second = refl

claim_excludes_example : ¬ ((held_nats.event.id ≡ held.event.id) × (held_nats.target ≡ held.target))
claim_excludes_example =
    claim_excludes steady steady (λ _. 1000) (λ _. 20000) 0 0 25000 25000 "lease-a" "lease-b"
      ("webhook" ∷ []) two_targets first_log second_log third_log held held_nats claims_first
      claims_second (λ i j. omega arith)

-- After the first lease has run out another worker takes the delivery over.
abbrev taken_over : Log
taken_over = record first_log {
  deliveries =
      record (new_delivery "id-1" "webhook") { lease = "lease-b"; lease_until = 55000 }
      ∷ new_delivery "id-1" "nats"
      ∷ [];
}

abbrev held_again : Claim
held_again = record held { lease = "lease-b" }

takes_over :
    claim steady (λ _. 30000) 0 25000 "lease-b" ("webhook" ∷ []) second_log
    ≡ ok (held_again, taken_over)
unfolding claim
takes_over = refl

leases_differ : ◌≢◌ {A = String} "lease-a" "lease-b"
leases_differ = ground (arith, eq_iff "lease-a" "lease-b")

takeover_fences_example : (finish steady delivered 0 held taken_over).1 ≡ taken_over
takeover_fences_example =
    takeover_fences steady steady (λ _. 30000) 0 25000 "lease-b" ("webhook" ∷ []) second_log
      taken_over held held_again delivered 0 takes_over refl refl leases_differ

later_log-IsValid : IsValid later_log
later_log-IsValid = Reach-IsValid plain {first = second_log} Reach-IsValid_copy (
    next here
      (appends steady 2000 2000 "id-2" "onmessage" "alpha" [] ("nats" ∷ []) bye appends_second))
  where
    Reach-IsValid_copy : IsValid second_log
    Reach-IsValid_copy =
        Reach-IsValid plain {first = first_log} first_log-IsValid (
          next here
            (claims steady (λ _. 1000) 0 25000 "lease-a" ("webhook" ∷ []) held claims_first))

lists_one : list steady 3000 "alpha" (pos 0) (pos 1) later_log ≡ ok (hello ∷ [])
unfolding list fill_page
lists_one = refl

list_lem_example :
    (rest : List Event) × (select (is_listed "alpha" 0 0) later_log.events ≡ (hello ∷ []) ++ rest)
    × (1 ≤ 1)
    × ((sum_by size (hello ∷ []) ≤ max_page) ⊎ (1 ≤ 1))
    × ((hello ∷ [] ≢ []) ⊎ (rest ≡ []))
list_lem_example =
    list_lem steady 3000 "alpha" (pos 0) (pos 1) later_log (hello ∷ []) later_log-IsValid lists_one

list_resumes_example :
    select (is_listed "alpha" 0 0) later_log.events
    ≡ (hello ∷ []) ++ select (is_listed "alpha" 1 0) later_log.events
list_resumes_example =
    list_resumes steady 3000 "alpha" (pos 0) (pos 1) later_log [] hello later_log-IsValid lists_one

abbrev replayed : Log
replayed = record later_log {
  deliveries =
      record (new_delivery "id-1" "webhook") { lease = "lease-a"; lease_until = 26000 }
      ∷ new_delivery "id-1" "nats"
      ∷ new_delivery "id-2" "nats"
      ∷ new_delivery "id-2" "webhook"
      ∷ [];
}

replays_second : replay steady (λ _. 3000) "alpha" "id-2" two_targets later_log ≡ ok replayed
unfolding replay replay_targets
replays_second = refl

replay_lem_example :
    ((e : Event) × In e later_log.events
      × (e.id ≡ "id-2")
      × (e.session ≡ "alpha")
      × (3000 - later_log.retention ≤ e.created))
    × All (λ target. In (new_delivery "id-2" target) replayed.deliveries) two_targets
    × (select (is_other "id-2" two_targets) replayed.deliveries
        ≡ select (is_other "id-2" two_targets) later_log.deliveries)
    × (replayed.events ≡ later_log.events)
replay_lem_example =
    replay_lem steady (λ _. 3000) "alpha" "id-2" two_targets later_log replayed replays_second
