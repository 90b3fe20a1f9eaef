-- ===== src/Webhook/Retry.antt =====
-- internal/webhook/dispatcher.go: how often and how long `deliver` tries.
use wppconnect_server_go.Prelude.{
  ℕ, zero, suc, ◌+◌, ◌*◌, ◌≤◌, ◌<◌, min, String, ◌≡◌, refl, ap, subst, ◌⊎◌, inl, inr, Bool, true,
  false, ◌||◌, Option, none, some, List, [], ◌∷◌, arith, ◌==◌, if◌then◌else◌, length, All, ℤ, pos,
  negsuc, Bool-cases,
}
use wppconnect_server_go.Webhook.{
  Options, Headers, World, Verdict, accepted, refused, again, judge, pause, longer, backoff,
  deliver_from, deliver, retry_after, seconds_or_date, until_date, second,
}

-- A number of seconds in Retry-After is honoured, up to the longest pause that the options allow.
pub retry_after_lem :
    (h : Headers) (value : String) (maximum s : ℕ)
    → h.atoi value ≡ some (pos s)
    → retry_after h value maximum ≡ min (s * second) maximum
unfolding retry_after
retry_after_lem h value maximum s e = rw e (ground arith)

until_date-le : (maximum : ℕ) (d : Option ℤ) → until_date maximum d ≤ maximum
until_date-le maximum none = omega arith
until_date-le maximum (some (pos d)) = omega arith
until_date-le maximum (some (negsuc d)) = omega arith

retry_after-le :
    (h : Headers) (value : String) (maximum : ℕ) → retry_after h value maximum ≤ maximum
unfolding retry_after
retry_after-le h value maximum = go (h.atoi value)
  where
    go : (n : Option ℤ) → seconds_or_date h value maximum n ≤ maximum
    go none = until_date-le maximum (h.until value)
    go (some (pos s)) = ground arith
    go (some (negsuc s)) = until_date-le maximum (h.until value)

pause_bounds :
    (o : Options) (w : World) (attempt asked : ℕ)
    → (min o.retry_max asked ≤ pause o w attempt asked) × (pause o w attempt asked ≤ o.retry_max)
unfolding pause
pause_bounds o w attempt asked = go (w.jitter attempt (backoff o attempt))
  where
    go :
        (b : ℤ)
        → (min o.retry_max asked ≤ min o.retry_max (longer asked b))
          × (min o.retry_max (longer asked b) ≤ o.retry_max)
    go (pos b) = omega arith
    go (negsuc b) = omega arith

-- What a run of the loop from `attempt` on has done.
record Ran (o : Options) (w : World) (left attempt : ℕ) (r : Bool × List ℕ) : Type 0 where
  short : All (λ t. t ≤ o.retry_max) r.1
  few : length r.1 ≤ left
  within : (r.1 ≡ []) ⊎ (attempt + length r.1 ≤ o.attempts)
  won :
      (r.0 ≡ false)
      ⊎ ((judge o w.headers (w.reply (attempt + length r.1)) ≡ accepted) × (length r.1 < left))

gives_up : (o : Options) (w : World) (left attempt : ℕ) → Ran o w left attempt (false, [])
gives_up o w left attempt = record {
  short = tt;
  few = omega arith;
  within = inl refl;
  won = inl refl;
}

Verdict-cases : (v : Verdict) → (v ≡ accepted) ⊎ (v ≡ refused) ⊎ ((asked : ℕ) × (v ≡ again asked))
Verdict-cases accepted = inl refl
Verdict-cases refused = inr (inl refl)
Verdict-cases (again asked) = inr (inr (asked, refl))

one_more :
    (o : Options) (w : World) (left attempt t : ℕ) (r : Bool × List ℕ)
    → t ≤ o.retry_max
    → attempt < o.attempts
    → Ran o w left (attempt + 1) r
    → Ran o w (suc left) attempt (r.0, t ∷ r.1)
one_more o w left attempt t r h before rest = record {
  short = (h, rest.short);
  few = omega (arith, rest.few);
  within = elim rest.within [
    | inl q ↦ inr (omega (arith, ap (λ (l : List ℕ). length l) q, before))
    | inr q ↦ inr (omega (arith, q))
  ];
  won = elim rest.won [
    | inl q ↦ inl q
    | inr (v, q) ↦
        let same : attempt + 1 + length r.1 ≡ attempt + suc (length r.1) = omega arith in
        inr (subst (λ k. judge o w.headers (w.reply k) ≡ accepted) same v, omega (arith, q))
  ];
}

deliver_from-Ran :
    (o : Options) (w : World) (left attempt : ℕ)
    → attempt + left ≤ o.attempts + 1
    → Ran o w left attempt (deliver_from o w left attempt)
unfolding deliver_from
deliver_from-Ran o w zero attempt h = gives_up o w 0 attempt
deliver_from-Ran o w (suc left) attempt h = elim (Bool-cases (w.stopped attempt || w.unbuildable)) [
  | inl e ↦ rw e (gives_up o w (suc left) attempt)
  | inr e ↦ elim (Verdict-cases (judge o w.headers (w.reply attempt))) [
    | inl v ↦
        rw (e, v)
          (record {
            short = tt;
            few = omega arith;
            within = inl refl;
            won = inr (ground (arith, v), omega arith);
          })
    | inr (inl v) ↦ rw (e, v) (gives_up o w (suc left) attempt)
    | inr (inr (asked, v)) ↦
        rw (e, v) (tries_again asked (deliver_from-Ran o w left (attempt + 1) (omega arith)))
  ]
]
  where
    tries_again :
        (asked : ℕ)
        → Ran o w left (attempt + 1) (deliver_from o w left (attempt + 1))
        → Ran o w (suc left) attempt (
            if attempt == o.attempts
            then (false, [])
            else if w.stopped_waiting attempt
            then (false, pause o w attempt asked ∷ [])
            else (
              (deliver_from o w left (attempt + 1)).0,
              pause o w attempt asked ∷ (deliver_from o w left (attempt + 1)).1,
            ))
    tries_again asked rest = elim (Bool-cases (attempt == o.attempts)) [
      | inl last ↦ rw last (gives_up o w (suc left) attempt)
      | inr more ↦ elim (Bool-cases (w.stopped_waiting attempt)) [
        | inl stop ↦
            rw (more, stop)
              (record {
                short = ((pause_bounds o w attempt asked).1, tt);
                few = omega arith;
                within = inr (ground arith);
                won = inl refl;
              })
        | inr goes ↦
            rw (more, goes)
              (one_more o w left attempt (pause o w attempt asked)
                (deliver_from o w left (attempt + 1)) (pause_bounds o w attempt asked).1
                (ground arith) rest)
      ]
    ]

-- Where at least one attempt is allowed, one delivery waits less often than it may attempt, and never
-- longer than the longest pause: with n attempts allowed there are at most n - 1 waits.
pub deliver_waits :
    (o : Options) (w : World)
    → 1 ≤ o.attempts
    → (length (deliver o w).1 < o.attempts) × All (λ t. t ≤ o.retry_max) (deliver o w).1
unfolding deliver
deliver_waits o w h =
    let r = deliver_from-Ran o w o.attempts 1 (omega arith) in
    (
      elim r.within [
        | inl q ↦ omega (arith, ap (λ (l : List ℕ). length l) q)
        | inr q ↦ omega (arith, q)
      ],
      r.short,
    )

-- A delivery that reports success got a 2xx reply to one of its attempts, the one after its waits.
pub deliver_won :
    (o : Options) (w : World)
    → (deliver o w).0 ≡ true
    → (k : ℕ) × (k ≡ 1 + length (deliver o w).1)
      × (k ≤ o.attempts)
      × (judge o w.headers (w.reply k) ≡ accepted)
unfolding deliver
deliver_won o w h =
    let r = deliver_from-Ran o w o.attempts 1 (omega arith) in
    elim r.won [
      | inl lost ↦ cc (lost, h)
      | inr (v, q) ↦ (1 + length (deliver_from o w o.attempts 1).1, refl, omega (arith, q), v)
    ]

reaches :
    (o : Options) (w : World) (n left attempt : ℕ)
    → attempt + n ≤ o.attempts
    → n < left
    → ((i : ℕ) → w.stopped i ≡ false)
    → ((i : ℕ) → w.stopped_waiting i ≡ false)
    → w.unbuildable ≡ false
    → ((i : ℕ)
        → i < attempt + n
        → attempt ≤ i
        → (asked : ℕ) × (judge o w.headers (w.reply i) ≡ again asked))
    → judge o w.headers (w.reply (attempt + n)) ≡ accepted
    → (deliver_from o w left attempt).0 ≡ true
unfolding deliver_from
reaches o w n zero attempt h l s sw u t v = absurd (omega arith)
reaches o w zero (suc left) attempt h l s sw u t v =
    let here : judge o w.headers (w.reply attempt) ≡ accepted =
      subst (λ k. judge o w.headers (w.reply k) ≡ accepted) (omega arith) v in
    rw (s attempt, u, here)
reaches o w (suc n) (suc left) attempt h l s sw u t v =
    let (asked, a) = t attempt (omega arith) (omega arith) in
    let more : (attempt == o.attempts) ≡ false = ground arith in
    rw (s attempt, u, a, more, sw attempt)
      (reaches o w n left (attempt + 1) (omega arith) (omega arith) s sw u
        (λ i p q. t i (omega arith) (omega arith))
        (subst (λ k. judge o w.headers (w.reply k) ≡ accepted) (omega arith) v))

-- While the dispatcher is not stopped and its requests can be built, transient failures do not lose
-- an event: if the attempts before the k-th are answered transiently and the k-th with a 2xx, and k
-- attempts are allowed, the delivery succeeds.
pub deliver_reaches :
    (o : Options) (w : World) (k : ℕ)
    → 1 ≤ k
    → k ≤ o.attempts
    → ((i : ℕ) → w.stopped i ≡ false)
    → ((i : ℕ) → w.stopped_waiting i ≡ false)
    → w.unbuildable ≡ false
    → ((i : ℕ) → i < k → 1 ≤ i → (asked : ℕ) × (judge o w.headers (w.reply i) ≡ again asked))
    → judge o w.headers (w.reply k) ≡ accepted
    → (deliver o w).0 ≡ true
unfolding deliver
deliver_reaches o w zero h l s sw u t v = absurd (omega arith)
deliver_reaches o w (suc k) h l s sw u t v =
    reaches o w k o.attempts 1 (omega arith) (omega arith) s sw u
      (λ i p q. t i (omega arith) (omega arith))
      (subst (λ j. judge o w.headers (w.reply j) ≡ accepted) (omega arith) v)
