-- ===== src/Webhook/Account.antt =====
-- internal/webhook/dispatcher.go: every posted event is queued, delivered, failed or dropped.
use wppconnect_server_go.Prelude.{
  ℕ, ◌+◌, ◌≤◌, String, len, ◌≡◌, refl, sym, ap, subst, inl, inr, Bool, true, false, List, [], ◌∷◌,
  ◌++◌, arith, ltb, str_eq, if◌then◌else◌, length, length-append, Bool-cases, Option-cases,
}
use wppconnect_server_go.EventLog.{Json}
use wppconnect_server_go.Webhook.{
  Dispatcher, Item, World, u64, post, enqueue, body_fields, drop_one, work, work_on, finish_item,
  deliver, close,
}

module _ (json : Json) where
  open json use {Value}

  -- A call of the dispatcher, or a turn of one of its workers.
  pub data Call : Type 0 where
    posts : (id event session : String) → List (String × Value) → Call
    works : World → Call
    closes : Call

  unfoldable pub step : Call → Dispatcher → Dispatcher
  step (posts id event session payload) d = post json id event session payload d
  step (works w) d = work w d
  step closes d = close d

  unfoldable pub run : List Call → Dispatcher → Dispatcher
  run [] d = d
  run (c ∷ cs) d = run cs (step c d)

  abbrev pub posted : List Call → ℕ
  posted [] = 0
  posted (posts id event session payload ∷ cs) = 1 + posted cs
  posted (_ ∷ cs) = posted cs

  posted-cons : (c : Call) (cs : List Call) → posted (c ∷ cs) ≡ posted (c ∷ []) + posted cs
  posted-cons (posts id event session payload) cs = omega arith
  posted-cons (works w) cs = omega arith
  posted-cons closes cs = omega arith

  -- What a call leaves behind: the account, the bound of the queue, the settings.
  record Kept (posts : ℕ) (d d' : Dispatcher) : Type 0 where
    account :
        u64 (d'.delivered + d'.failed + d'.dropped + length d'.queue)
        ≡ u64 (posts + d.delivered + d.failed + d.dropped + length d.queue)
    bounded : length d.queue ≤ d.options.queue_size → length d'.queue ≤ d'.options.queue_size
    url_kept : d'.url ≡ d.url
    options_kept : d'.options ≡ d.options

  drop_one-Kept : (d : Dispatcher) → Kept 1 d (drop_one d)
  drop_one-Kept d = record {
    account = omega arith;
    bounded = λ h. h;
    url_kept = refl;
    options_kept = refl;
  }

  enqueue-Kept : (item : Item) (d : Dispatcher) → Kept 1 d (enqueue json item d)
  enqueue-Kept item d = go d.closed (ltb (length d.queue) d.options.queue_size) refl
    where
      go :
          (closed room : Bool)
          → ltb (length d.queue) d.options.queue_size ≡ room
          → Kept 1 d (
              if closed
              then drop_one d
              else if room
              then record d { queue = d.queue ++ item ∷ [] }
              else drop_one d)
      go true room f = drop_one-Kept d
      go false false f = drop_one-Kept d
      go false true f = record {
        account = omega (arith, length-append d.queue (item ∷ []));
        bounded = λ h. ground (arith, length-append d.queue (item ∷ []), f);
        url_kept = refl;
        options_kept = refl;
      }

  post-Kept :
      (id event session : String) (payload : List (String × Value)) (d : Dispatcher)
      → str_eq d.url "" ≡ false
      → Kept 1 d (post json id event session payload d)
  unfolding post
  post-Kept id event session payload d u =
      elim (Option-cases (Json.marshal json (body_fields json event session payload))) [
        | inl e ↦ rw (u, e) (drop_one-Kept d)
        | inr (b, e) ↦ elim (Bool-cases (ltb d.options.max_payload (len b))) [
          | inl f ↦ rw (u, e, f) (drop_one-Kept d)
          | inr f ↦ rw (u, e, f) (enqueue-Kept (record { id = id; body = b }) d)
        ]
      ]

  finish_item-Kept :
      (r : Bool × List ℕ) (item : Item) (rest : List Item) (d : Dispatcher)
      → d.queue ≡ item ∷ rest
      → Kept 0 d (finish_item r (record d { queue = rest }))
  finish_item-Kept (true, waits) item rest d e = record {
    account = omega (arith, ap (λ (l : List Item). length l) e);
    bounded = λ h. omega (arith, ap (λ (l : List Item). length l) e);
    url_kept = refl;
    options_kept = refl;
  }
  finish_item-Kept (false, waits) item rest d e = record {
    account = omega (arith, ap (λ (l : List Item). length l) e);
    bounded = λ h. omega (arith, ap (λ (l : List Item). length l) e);
    url_kept = refl;
    options_kept = refl;
  }

  work_on-Kept :
      (w : World) (q : List Item) (d : Dispatcher) → d.queue ≡ q → Kept 0 d (work_on w q d)
  work_on-Kept w [] d e = record {
    account = omega arith;
    bounded = λ h. h;
    url_kept = refl;
    options_kept = refl;
  }
  work_on-Kept w (item ∷ rest) d e = finish_item-Kept (deliver d.options w) item rest d e

  step-Kept :
      (c : Call) (d : Dispatcher) → str_eq d.url "" ≡ false → Kept (posted (c ∷ [])) d (step c d)
  unfolding step work close
  step-Kept (posts id event session payload) d u = post-Kept id event session payload d u
  step-Kept (works w) d u = work_on-Kept w d.queue d refl
  step-Kept closes d u = record {
    account = omega arith;
    bounded = λ h. h;
    url_kept = refl;
    options_kept = refl;
  }

  -- With a URL configured and a queue within its size, after any sequence of posts, worker turns and
  -- closes the events that were delivered, failed, dropped or are queued are together those that were
  -- at first and those posted since, modulo the 2^64 of the counters, and the queue is still within
  -- its size.
  pub run_accounts :
      (cs : List Call) (d : Dispatcher)
      → str_eq d.url "" ≡ false
      → length d.queue ≤ d.options.queue_size
      → (u64 (
            (run cs d).delivered + (run cs d).failed + (run cs d).dropped + length (run cs d).queue)
          ≡ u64 (posted cs + d.delivered + d.failed + d.dropped + length d.queue))
        × (length (run cs d).queue ≤ (run cs d).options.queue_size)
  unfolding run
  run_accounts [] d u b = (omega arith, b)
  run_accounts (c ∷ cs) d u b =
      let k = step-Kept c d u in
      let r =
        run_accounts cs (step c d) (subst (λ s. str_eq s "" ≡ false) (sym k.url_kept) u)
          (k.bounded b) in
      (omega (arith, r.0, k.account, posted-cons c cs), r.1)

  -- A closed dispatcher takes in nothing: a post leaves its queue as it is.
  pub post_after_close :
      (id event session : String) (payload : List (String × Value)) (d : Dispatcher)
      → (post json id event session payload (close d)).queue ≡ d.queue
  unfolding post close
  post_after_close id event session payload d = elim (Bool-cases (str_eq d.url "")) [
    | inl u ↦ rw u
    | inr u ↦ elim (Option-cases (Json.marshal json (body_fields json event session payload))) [
      | inl e ↦ rw (u, e)
      | inr (b, e) ↦ elim (Bool-cases (ltb d.options.max_payload (len b))) [
        | inl f ↦ rw (u, e, f)
        | inr f ↦ rw (u, e, f)
      ]
    ]
  ]
