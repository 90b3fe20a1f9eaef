-- ===== src/Webhook.antt =====
-- internal/webhook/dispatcher.go: the bounded queue of webhook events and the attempts to deliver
-- one. Durations are nanoseconds. The receiver's replies, the readers of Retry-After, the random
-- jitter and the encoder are arguments.
pub mod Retry
pub mod Account
mod Tests
use wppconnect_server_go.Prelude.{
  ℕ, zero, suc, ◌+◌, ◌-◌, ◌*◌, ◌/◌, ◌%◌, ◌^◌, ◌≤◌, min, max, String, len, Bool, true, false, not,
  ◌&&◌, ◌||◌, Option, none, some, List, [], ◌∷◌, ◌++◌, ltb, leb, ◌==◌, str_eq, if◌then◌else◌,
  length, insert, ℤ, pos, negsuc, wrap64, at_most,
}
use wppconnect_server_go.EventLog.{Json}

pub record Options : Type 0 where
  pub workers : ℕ
  pub queue_size : ℕ
  pub attempts : ℕ
  pub timeout : ℕ
  pub retry_base : ℕ
  pub retry_max : ℕ
  pub max_payload : ℕ

abbrev pub second : ℕ
second = 1000000000

abbrev pub default_options : Options
default_options = record {
  workers = 2;
  queue_size = 256;
  attempts = 4;
  timeout = 10 * second;
  retry_base = 250000000;
  retry_max = 30 * second;
  max_payload = 1048576;
}

-- The limits that `NewWithOptions` puts on its options.
abbrev pub valid_options : Options → Bool
valid_options o =
    leb 1 o.workers
    && leb o.workers 32
    && leb 1 o.queue_size
    && leb o.queue_size 10000
    && leb 1 o.attempts
    && leb o.attempts 10
    && ltb 0 o.timeout
    && ltb 0 o.retry_base
    && leb o.retry_base o.retry_max
    && leb 1 o.max_payload
    && leb o.max_payload 16777216

pub record Item : Type 0 where
  pub id : String
  pub body : String

-- The counters are uint64.
pub record Dispatcher : Type 0 where
  pub url : String
  pub options : Options
  pub queue : List Item
  pub closed : Bool
  pub delivered : ℕ
  pub failed : ℕ
  pub dropped : ℕ
  pub retries : ℕ

abbrev pub u64 : ℕ → ℕ
u64 n = n % 2 ^ 64

abbrev pub drop_one : Dispatcher → Dispatcher
drop_one d = record d { dropped = u64 (d.dropped + 1) }

-- `parse` is url.Parse, with the scheme and the host of what it returns.
abbrev pub valid_url : (String → Option (String × String)) → String → Bool
valid_url parse url = if str_eq url "" then true else elim (parse url) [
  | none ↦ false
  | some (scheme, host) ↦ (str_eq scheme "http" || str_eq scheme "https") && not (str_eq host "")
]

unfoldable pub new_dispatcher :
    (String → Option (String × String)) → String → Options → Option Dispatcher
new_dispatcher parse url o =
    if valid_url parse url && valid_options o
    then some (record {
      url = url;
      options = o;
      queue = [];
      closed = false;
      delivered = 0;
      failed = 0;
      dropped = 0;
      retries = 0;
    })
    else none

module _ (json : Json) where
  open json use {Value, text, marshal}

  -- `for k, v := range payload { body[k] = v }`: the payload is written over the two first fields.
  abbrev pub merge : List (String × Value) → List (String × Value) → List (String × Value)
  merge body [] = body
  merge body ((k, v) ∷ payload) = merge (insert k v body) payload

  abbrev pub body_fields : String → String → List (String × Value) → List (String × Value)
  body_fields event session payload =
      merge (("event", text event) ∷ ("session", text session) ∷ []) payload

  abbrev pub enqueue : Item → Dispatcher → Dispatcher
  enqueue item d =
      if d.closed
      then drop_one d
      else if ltb (length d.queue) d.options.queue_size
      then record d { queue = d.queue ++ item ∷ [] }
      else drop_one d

  -- `id` is the new UUID.
  unfoldable pub post :
      (id event session : String) → List (String × Value) → Dispatcher → Dispatcher
  post id event session payload d =
      if str_eq d.url "" then d else elim (marshal (body_fields event session payload)) [
        | none ↦ drop_one d
        | some b ↦
            if ltb d.options.max_payload (len b)
            then drop_one d
            else enqueue (record { id = id; body = b }) d
      ]

-- strconv.Atoi and the time until http.ParseTime's date, where they succeed.
pub record Headers : Type 0 where
  pub atoi : String → Option ℤ
  pub until : String → Option ℤ

abbrev pub until_date : ℕ → Option ℤ → ℕ
until_date maximum (some (pos d)) = min d maximum
until_date maximum _ = 0

abbrev pub seconds_or_date : Headers → String → ℕ → Option ℤ → ℕ
seconds_or_date h value maximum (some (pos s)) =
    if ltb (maximum / second) s then maximum else min (s * second) maximum
seconds_or_date h value maximum _ = until_date maximum (h.until value)

unfoldable pub retry_after : Headers → String → ℕ → ℕ
retry_after h value maximum = seconds_or_date h value maximum (h.atoi value)

pub record Reply : Type 0 where
  pub status : ℕ
  pub header : String

-- What happens to the attempts of one delivery: a stop seen before the attempt, a request that
-- cannot be built, the reply if there is one, the jitter, and a stop while waiting.
pub record World : Type 0 where
  pub headers : Headers
  pub stopped : ℕ → Bool
  pub unbuildable : Bool
  pub reply : ℕ → Option Reply
  pub jitter : ℕ → ℤ → ℤ
  pub stopped_waiting : ℕ → Bool

abbrev pub is_success : ℕ → Bool
is_success status = leb 200 status && ltb status 300

abbrev pub is_transient : ℕ → Bool
is_transient status = status == 408 || status == 425 || status == 429 || leb 500 status

-- The three ends of one request: accepted, refused for good, or to be tried again after `asked`.
pub data Verdict : Type 0 where
  accepted refused : Verdict
  again : ℕ → Verdict

unfoldable pub judge : Options → Headers → Option Reply → Verdict
judge o h none = again 0
judge o h (some r) =
    if is_success r.status
    then accepted
    else if is_transient r.status
    then again (retry_after h r.header o.retry_max)
    else refused

-- `wait = min(RetryMax, max(wait, backoff))`
abbrev pub longer : ℕ → ℤ → ℕ
longer asked (pos b) = max asked b
longer asked (negsuc b) = asked

abbrev pub backoff : Options → ℕ → ℤ
backoff o attempt = at_most o.retry_max (wrap64 (o.retry_base * 2 ^ (attempt - 1)))

unfoldable pub pause : Options → World → ℕ → ℕ → ℕ
pause o w attempt asked = min o.retry_max (longer asked (w.jitter attempt (backoff o attempt)))

-- The loop of `deliver` with `left` attempts to go; the waits made are returned beside the result.
unfoldable pub deliver_from : Options → World → (left attempt : ℕ) → Bool × List ℕ
deliver_from o w zero attempt = (false, [])
deliver_from o w (suc left) attempt =
    let rest = deliver_from o w left (attempt + 1) in
    if w.stopped attempt || w.unbuildable
    then (false, [])
    else elim (judge o w.headers (w.reply attempt)) [
      | accepted ↦ (true, [])
      | refused ↦ (false, [])
      | again asked ↦
          if attempt == o.attempts
          then (false, [])
          else if w.stopped_waiting attempt
          then (false, pause o w attempt asked ∷ [])
          else (rest.0, pause o w attempt asked ∷ rest.1)
    ]

unfoldable pub deliver : Options → World → Bool × List ℕ
deliver o w = deliver_from o w o.attempts 1

-- One turn of `worker` with an item: the retries are counted while it is delivered.
abbrev pub finish_item : Bool × List ℕ → Dispatcher → Dispatcher
finish_item (true, waits) d = record d {
  delivered = u64 (d.delivered + 1);
  retries = u64 (d.retries + length waits);
}
finish_item (false, waits) d = record d {
  failed = u64 (d.failed + 1);
  retries = u64 (d.retries + length waits);
}

abbrev pub work_on : World → List Item → Dispatcher → Dispatcher
work_on w [] d = d
work_on w (item ∷ rest) d = finish_item (deliver d.options w) (record d { queue = rest })

unfoldable pub work : World → Dispatcher → Dispatcher
work w d = work_on w d.queue d

unfoldable pub close : Dispatcher → Dispatcher
close d = record d { closed = true }
