-- ===== src/Bus/Tests.antt =====
-- internal/eventbus/bus.go and targets.go at concrete inputs: tests, and the theorems there.
use wppconnect_server_go.Prelude.{
  ◌+◌, ◌-◌, ◌≤◌, ◌^◌, ◌≡◌, refl, true, false, some, none, [], ◌∷◌, inl, eq_iff, ◌*◌, arith, err,
  if◌then◌else◌, All, pos, negsuc,
}
use wppconnect_server_go.EventLog.{Delivery, new_delivery, open_log, is_pending}
use wppconnect_server_go.EventLog.Invariant.{open_log-IsValid}
use wppconnect_server_go.EventLog.Leases.{finish}
use wppconnect_server_go.EventLog.Tests.{
  plain, steady, hello, first_log, second_log, held, two_targets, appends_first, claims_first,
}
use wppconnect_server_go.Bus.{
  default_options, accepted, rejected, backoff, verdict, longest, new_bus, register,
  duplicate_target, http_answer, second, Round, settle,
}
use wppconnect_server_go.Bus.Attempts.{
  System, Inv, Moves, rest, more, publishes, takes, settles, attempts_bounded,
}

delays : (backoff default_options 0 ≡ pos 250000000) × (backoff default_options 9 ≡ pos longest)
unfolding backoff
delays = (refl, refl)

-- A base of 2^63 - 1 ns is accepted by `New` and its doubling is negative.
overflows : backoff (record default_options { retry_base = 2 ^ 63 - 1 }) 1 ≡ negsuc 1
unfolding backoff
overflows = refl

abbrev start : System
start = record { log = open_log; held = [] }

start-Inv : Inv default_options start
unfolding open_log
start-Inv = record { valid = open_log-IsValid; good = tt; named = tt }

-- The receiver answers 503 to the first delivery.
abbrev busy : Round
busy = record {
  stopped = false;
  fails = steady;
  clock = λ _. 1000;
  lease = "lease-a";
  answer = λ _. rejected false 0;
  canceled = false;
  now = 1000000000;
  ack_fails = steady;
}

abbrev after_publish : System
after_publish = record { log = first_log; held = [] }

abbrev after_take : System
after_take = record { log = second_log; held = held ∷ [] }

abbrev after_settle : System
after_settle = record { log = settle default_options busy held second_log; held = held ∷ [] }

one_attempt : Moves plain default_options start after_settle
one_attempt =
    more
      (more
        (more rest (
          publishes steady 1000 1000 "id-1" "onmessage" "alpha" [] two_targets hello first_log
            appends_first refl))
        (takes steady (λ _. 1000) 0 25000 "lease-a" ("webhook" ∷ []) held second_log
          (ground (arith, eq_iff "lease-a" "")) tt claims_first refl))
      (settles busy held (inl refl) refl)

attempts_bounded_example :
    All
      (λ (d : Delivery). d.attempt + (if is_pending d.state then 1 else 0) ≤ 4)
      after_settle.log.deliveries
attempts_bounded_example =
    attempts_bounded plain default_options (omega arith) start after_settle start-Inv one_attempt

one_attempt_result :
    after_settle.log.deliveries
    ≡ record (new_delivery "id-1" "webhook") { attempt = 1; next = 1250 }
      ∷ new_delivery "id-1" "nats"
      ∷ []
unfolding settle finish verdict backoff
one_attempt_result = refl

duplicates : new_bus default_options ("nats" ∷ "nats" ∷ []) ≡ err duplicate_target
unfolding new_bus register
duplicates = refl

-- 429 with `Retry-After: 7`, and 404.
answers :
    (http_answer (λ _. some (pos 7)) (λ _. none) (some (429, "7")) ≡ rejected false (7 * second))
    × (http_answer (λ _. none) (λ _. none) (some (404, "")) ≡ rejected true 0)
    × (http_answer (λ _. none) (λ _. none) (some (204, "")) ≡ accepted)
unfolding http_answer
answers = (refl, refl, refl)
