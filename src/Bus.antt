-- ===== src/Bus.antt =====
-- internal/eventbus/bus.go and the HTTP target of targets.go: which events are published, how a
-- worker delivers one claimed event, and what it writes back. Durations are nanoseconds. A target
-- is what it answers: the brokers' and the receiver's side is an argument.
pub mod Backoff
pub mod Attempts
mod Tests
use wppconnect_server_go.Prelude.{
  ℕ, zero, suc, ◌+◌, ◌-◌, ◌*◌, ◌/◌, ◌%◌, ◌^◌, min, max, String, Bool, true, false, not, ◌&&◌, ◌||◌,
  Option, none, some, List, [], ◌∷◌, ◌++◌, ltb, leb, ◌==◌, str_eq, if◌then◌else◌, length, take,
  drop, Result, ok, err, ◌>>=◌, ◌>>◌, guard, Faults, map, ℤ, pos, negsuc, wrap64, at_most, at_least,
}
use wppconnect_server_go.Table.{exists}
use wppconnect_server_go.EventLog.{
  State, pending, delivered, failed, Claim, Event, Log, Json, append,
}
use wppconnect_server_go.EventLog.Leases.{claim, finish, pending_count, is_one_of}

pub record Options : Type 0 where
  pub workers : ℕ
  pub attempts : ℕ
  pub timeout : ℕ
  pub retry_base : ℕ

abbrev pub second : ℕ
second = 1000000000

abbrev pub default_options : Options
default_options = record {
  workers = 2;
  attempts = 4;
  timeout = 10 * second;
  retry_base = 250000000;
}

-- The limits that `New` puts on its options.
abbrev pub valid_options : Options → Bool
valid_options o =
    leb 1 o.workers
    && leb o.workers 32
    && leb 1 o.attempts
    && leb o.attempts 10
    && ltb 0 o.timeout
    && leb o.timeout (60 * second)
    && ltb 0 o.retry_base

pub data Refusal : Type 0 where
  invalid_options duplicate_target closing not_persisted : Refusal

-- The loop of `New` over the targets' names: none is empty, none is given twice.
unfoldable pub register : List String → List String → Result Refusal (List String)
register names [] = ok names
register names (t ∷ ts) = do
  guard (not (str_eq t "") && not (is_one_of names t)) duplicate_target
  register (names ++ t ∷ []) ts

unfoldable pub new_bus : Options → List String → Result Refusal (List String)
new_bus o targets = do guard (valid_options o) invalid_options; register [] targets

-- The bus between two calls of `Publish`.
pub record Bus : Type 0 where
  pub log : Log
  pub names : List String
  pub closing : Bool
  pub rejected : ℕ

module _ (json : Json) where
  open json use {Value, text}

  -- `created`, `now` and `id` are the clock's and the UUID generator's answers.
  unfoldable pub publish :
      Faults
      → (created now : ℕ) → (id event name : String) → List (String × Value)
      → Bus
      → Result Refusal (Unit {0}) × Bus
  publish fails created now id event name fields bus =
      if bus.closing
      then (err closing, bus)
      else elim (append json fails created now id event name fields bus.names bus.log) [
        | ok (e, log') ↦ (ok tt, record bus { log = log' })
        | err x ↦ (err not_persisted, record bus { rejected = bus.rejected + 1 })
      ]

-- 30 seconds: no delay is longer.
abbrev pub longest : ℕ
longest = 30 * second

-- `min(30s, RetryBase << min(attempt, 7))`
unfoldable pub backoff : Options → ℕ → ℤ
backoff o attempt = at_most longest (wrap64 (o.retry_base * 2 ^ min attempt 7))

-- What a target's `Deliver` returns: no error, any other error, or a `DeliveryError`.
pub data Answer : Type 0 where
  accepted : Answer
  unreachable : Answer
  rejected : (permanent : Bool) → (after : ℕ) → Answer

abbrev pub last_attempt : Options → ℕ → Bool
last_attempt o attempt = leb o.attempts (attempt + 1)

-- The state and the delay that a worker decides on.
unfoldable pub verdict : Options → ℕ → Answer → State × ℤ
verdict o attempt accepted = (delivered, pos 0)
verdict o attempt unreachable =
    (if last_attempt o attempt then failed else pending, backoff o attempt)
verdict o attempt (rejected permanent after) = (
  if last_attempt o attempt then failed else if permanent then failed else pending,
  at_least (min longest after) (backoff o attempt),
)

-- A time in milliseconds; one before the epoch counts as 0.
abbrev pub add_ms : ℕ → ℤ → ℕ
add_ms now (pos d) = (now + d) / 1000000
add_ms now (negsuc d) = (now - suc d) / 1000000

-- What the surroundings decide in one round of a worker: whether the bus is stopped before the
-- claim or during the delivery, the clocks, the new lease, and the target's answer.
pub record Round : Type 0 where
  pub stopped : Bool
  pub fails : Faults
  pub clock : ℕ → ℕ
  pub lease : String
  pub answer : Claim → Answer
  pub canceled : Bool
  pub now : ℕ
  pub ack_fails : Faults

-- The acknowledgement; a delivery that was cut short by the shutdown keeps its lease.
unfoldable pub settle : Options → Round → Claim → Log → Log
settle o round c log =
    if round.canceled
    then log
    else let (state, delay) = verdict o c.attempt (round.answer c) in
      (finish round.ack_fails state (add_ms round.now delay) c log).1

abbrev pub rotate : List String → List String
rotate [] = []
rotate (x ∷ xs) = xs ++ x ∷ []

abbrev pub lease_ms : Options → ℕ
lease_ms o = (o.timeout + 15 * second) / 1000000

-- One turn of the loop of `worker`; `none` is the return at shutdown.
unfoldable pub worker_round : Options → Round → List String × Log → Option (List String × Log)
worker_round o round (names, log) =
    if round.stopped
    then none
    else elim (claim round.fails round.clock 0 (lease_ms o) round.lease names log) [
      | err x ↦ some (names, log)
      | ok (c, log') ↦ some (if round.canceled then names else rotate names, settle o round c log')
    ]

-- The order in which a worker asks the targets: rotated by its number.
unfoldable pub worker_names : ℕ → List String → List String
worker_names offset names = let n = offset % length names in drop n names ++ take n names

-- `HTTP.Deliver`: no answer is a plain error. The two readers of Retry-After, as a number of
-- seconds and as a date from now, are the standard library's.
module _ (atoi until : String → Option ℤ) where
  abbrev pub date_wait : Option ℤ → ℕ
  date_wait (some (pos d)) = min longest d
  date_wait _ = 0

  abbrev pub header_wait : String → Option ℤ → ℕ
  header_wait header (some (pos (suc n))) = min (suc n) 30 * second
  header_wait header _ = date_wait (until header)

  abbrev pub is_transient : ℕ → Bool
  is_transient status = status == 408 || status == 425 || status == 429 || leb 500 status

  unfoldable pub http_answer : Option (ℕ × String) → Answer
  http_answer none = unreachable
  http_answer (some (status, header)) =
      if leb 200 status && ltb status 300
      then accepted
      else rejected (not (is_transient status)) (header_wait header (atoi header))
