-- ===== src/Bus/Backoff.antt =====
-- internal/eventbus/bus.go: the delay before the next attempt, and the end of the attempts.
use wppconnect_server_go.Prelude.{
  ℕ, zero, suc, ◌+◌, ◌*◌, ◌^◌, ◌≤◌, ◌<◌, min, max, ◌≡◌, refl, ◌||◌, arith, if◌then◌else◌, leb,
  wrap64, pos,
}
use wppconnect_server_go.EventLog.{State, pending, delivered, failed, is_pending}
use wppconnect_server_go.Bus.{
  Options, Answer, accepted, unreachable, rejected, backoff, verdict, longest, wrap64,
}

pow_bounds : (k : ℕ) → k ≤ 7 → (1 ≤ 2 ^ k) × (2 ^ k ≤ 128)
pow_bounds zero h = omega arith
pow_bounds (suc zero) h = omega arith
pow_bounds (suc (suc zero)) h = omega arith
pow_bounds (suc (suc (suc zero))) h = omega arith
pow_bounds (suc (suc (suc (suc zero)))) h = omega arith
pow_bounds (suc (suc (suc (suc (suc zero))))) h = omega arith
pow_bounds (suc (suc (suc (suc (suc (suc zero)))))) h = omega arith
pow_bounds (suc (suc (suc (suc (suc (suc (suc zero))))))) h = omega arith
pow_bounds (suc (suc (suc (suc (suc (suc (suc (suc k)))))))) h = absurd (omega arith)

scaled : (base p : ℕ) → 1 ≤ p → p ≤ 128 → (base ≤ base * p) × (base * p ≤ base * 128)
scaled base p h k = (grind arith, grind arith)

wrap64_small : (x : ℕ) → x < 2 ^ 63 → wrap64 x ≡ pos x
wrap64_small x h = ground arith

backoff_exact :
    (o : Options) (attempt : ℕ)
    → o.retry_base < 2 ^ 56
    → (p : ℕ) × (1 ≤ p) × (p ≤ 128) × (backoff o attempt ≡ pos (min longest (o.retry_base * p)))
unfolding backoff
backoff_exact o attempt h =
    let p = 2 ^ min attempt 7 in
    let b = pow_bounds (min attempt 7) (omega arith) in
    let s = scaled o.retry_base p b.0 b.1 in
    let small : o.retry_base * p < 2 ^ 63 = omega (arith, s.1) in
    (p, b.0, b.1, rw (wrap64_small (o.retry_base * p) small))

-- With a base below 2^56 ns (two years) no shift overflows: the delay before the next attempt is
-- at least the base, or 30 s where that is less, and at most 30 s, for every number of attempts.
pub backoff_bounds :
    (o : Options) (attempt : ℕ)
    → o.retry_base < 2 ^ 56
    → (d : ℕ) × (backoff o attempt ≡ pos d) × (min longest o.retry_base ≤ d) × (d ≤ longest)
backoff_bounds o attempt h =
    let (p, low, high, e) = backoff_exact o attempt h in
    let s = scaled o.retry_base p low high in
    (min longest (o.retry_base * p), e, omega (arith, s.0), omega arith)

-- What is owed for an answer after `attempt` earlier ones: the state and the delay.
abbrev pub Owed : Options → ℕ → Answer → State → ℕ → Type 0
Owed o attempt accepted state d = state ≡ delivered
Owed o attempt unreachable state d =
    state ≡ (if leb o.attempts (attempt + 1) then failed else pending)
Owed o attempt (rejected permanent after) state d =
    (min longest after ≤ d)
    × (state ≡ (if permanent || leb o.attempts (attempt + 1) then failed else pending))

-- What a worker writes for each answer of a target: an accepted event is delivered; any other
-- answer at the last attempt, and a permanent refusal at any attempt, fails it; before that a
-- transient refusal leaves it pending. The delay is never above 30 s, and a refusal's delay is at
-- least what Retry-After asks for, up to 30 s.
pub verdict_lem :
    (o : Options) (attempt : ℕ) (a : Answer)
    → o.retry_base < 2 ^ 56
    → (d : ℕ) × ((verdict o attempt a).1 ≡ pos d)
      × (d ≤ longest)
      × Owed o attempt a (verdict o attempt a).0 d
unfolding verdict
verdict_lem o attempt accepted h = (0, refl, omega arith, refl)
verdict_lem o attempt unreachable h =
    let (d, e, low, high) = backoff_bounds o attempt h in (d, e, high, refl)
verdict_lem o attempt (rejected permanent after) h =
    let (d, e, low, high) = backoff_bounds o attempt h in
    (max d (min longest after), rw e, omega arith, (omega arith, ground arith))

-- A delivery that stays pending has attempts left.
pub verdict_leaves_attempts :
    (o : Options) (attempt : ℕ) (a : Answer)
    → attempt < o.attempts
    → attempt + 1 + (if is_pending (verdict o attempt a).0 then 1 else 0) ≤ o.attempts
unfolding verdict
verdict_leaves_attempts o attempt accepted h = omega arith
verdict_leaves_attempts o attempt unreachable h = ground arith
verdict_leaves_attempts o attempt (rejected permanent after) h = ground arith
