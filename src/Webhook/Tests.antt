-- ===== src/Webhook/Tests.antt =====
-- internal/webhook/dispatcher.go at concrete inputs: tests, and the theorems there.
use wppconnect_server_go.Prelude.{
  ℕ, zero, suc, ◌+◌, ◌*◌, ◌≤◌, ◌<◌, ◌≡◌, refl, min, true, false, some, none, List, [], ◌∷◌, arith,
  ◌==◌, if◌then◌else◌, length, pos,
}
use wppconnect_server_go.EventLog.Tests.{plain}
use wppconnect_server_go.Webhook.{
  default_options, Dispatcher, Headers, World, accepted, again, judge, second, u64, retry_after,
  deliver, deliver_from, pause, post, close, work, new_dispatcher,
}
use wppconnect_server_go.Webhook.Retry.{retry_after_lem}
use wppconnect_server_go.Webhook.Account.{Call, posts, works, closes, run, step, run_accounts}

-- Retry-After is a number of seconds, 7.
abbrev seven : Headers
seven = record { atoi = λ _. some (pos 7); until = λ _. none }

retry_after_lem_example : retry_after seven "7" (30 * second) ≡ min (7 * second) (30 * second)
retry_after_lem_example = retry_after_lem seven "7" (30 * second) 7 refl

-- The receiver answers 429 once and then 200.
abbrev busy_once : World
busy_once = record {
  headers = seven;
  stopped = λ _. false;
  unbuildable = false;
  reply = λ k.
      if k == 1
      then some (record { status = 429; header = "7" })
      else some (record { status = 200; header = "" });
  jitter = λ _ d. d;
  stopped_waiting = λ _. false;
}

delivers : deliver default_options busy_once ≡ (true, 7 * second ∷ [])
unfolding deliver deliver_from judge pause retry_after
delivers = refl

-- A receiver that is never reached is tried four times, with three pauses that double.
gives_up :
    deliver default_options (record busy_once { reply = λ _. none })
    ≡ (false, 250000000 ∷ 500000000 ∷ 1000000000 ∷ [])
unfolding deliver deliver_from judge pause
gives_up = refl

second_reply : judge default_options seven (busy_once.reply 2) ≡ accepted
unfolding judge
second_reply = refl

first_reply :
    (i : ℕ)
    → i < 2
    → 1 ≤ i
    → (asked : ℕ) × (judge default_options seven (busy_once.reply i) ≡ again asked)
unfolding judge retry_after
first_reply zero h l = absurd (omega arith)
first_reply (suc zero) h l = (7 * second, refl)
first_reply (suc (suc i)) h l = absurd (omega arith)

abbrev fresh : Dispatcher
fresh = record {
  url = "http://hooks";
  options = default_options;
  queue = [];
  closed = false;
  delivered = 0;
  failed = 0;
  dropped = 0;
  retries = 0;
}

news : new_dispatcher (λ _. some ("http", "hooks")) "http://hooks" default_options ≡ some fresh
unfolding new_dispatcher
news = refl

abbrev calls : List (Call plain)
calls =
    posts "id-1" "onmessage" "alpha" []
    ∷ posts "id-2" "onmessage" "alpha" []
    ∷ works busy_once
    ∷ closes
    ∷ posts "id-3" "onmessage" "alpha" []
    ∷ []

run_accounts_example :
    (u64 (
        (run plain calls fresh).delivered
        + (run plain calls fresh).failed
        + (run plain calls fresh).dropped
        + length (run plain calls fresh).queue)
      ≡ 3)
    × (length (run plain calls fresh).queue ≤ (run plain calls fresh).options.queue_size)
run_accounts_example = run_accounts plain calls fresh refl (omega arith)

-- One event was delivered, one is queued and the one posted after the close was dropped.
run_result : run plain calls fresh ≡ record fresh {
  queue = record { id = "id-2"; body = "eventonmessagesessionalpha" } ∷ [];
  closed = true;
  delivered = 1;
  dropped = 1;
  retries = 1;
}
unfolding run step post work close deliver deliver_from judge pause retry_after
run_result = refl
