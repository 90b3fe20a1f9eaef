-- ===== src/Config/Limits.antt =====
-- internal/config/config.go: a configuration that is loaded suits the parts that it configures.
use wppconnect_server_go.Prelude.{
  ℕ, ◌*◌, ◌≤◌, String, len, str_eq, eq_iff, Bool-cases, ◌⊎◌, inl, inr, ◌≡◌, refl, subst, Bool, true,
  false, arith, Result, ok, err, ◌>>=◌, guard, ℤ, pos, negsuc, Option, none, some,
}
use wppconnect_server_go.History
use wppconnect_server_go.Bus
use wppconnect_server_go.Config.{
  Env, Config, S3, history_options, bus_options, between, flag, number, bytes, duration, s3_of,
  complete_s3, strong_token, load, day, get_env,
}

bind_elim {ℓ κ μ ν} :
    {E : Type ℓ} {A : Type κ} {B : Type μ} (m : Result E A) (f : A → Result E B) (b : B)
    → (m >>= f) ≡ ok b
    → (P : Type ν) → ((a : A) → m ≡ ok a → f a ≡ ok b → P)
    → P
bind_elim (ok a) f b h P k = k a refl h
bind_elim (err e) f b h P k = absurd (ground (arith, h))

between_ok :
    (key : String) (lo hi n : ℕ) (v : Option ℤ) → between key lo hi v ≡ ok n → (lo ≤ n) × (n ≤ hi)
between_ok key lo hi n none h = absurd (ground (arith, h))
between_ok key lo hi n (some (negsuc m)) h = absurd (ground (arith, h))
between_ok key lo hi n (some (pos m)) h = (ground (arith, h), ground (arith, h))

abbrev pub IsBetween : (lo hi n : ℕ) → Type 0
IsBetween lo hi n = (lo ≤ n) × (n ≤ hi)

within :
    (key : String) (lo hi n : ℕ) (v : Option ℤ) → between key lo hi v ≡ ok n → IsBetween lo hi n
within key lo hi n v h = between_ok key lo hi n v h

days : (hi n : ℕ) → IsBetween 1 hi n → IsBetween day (hi * day) (n * day)
days hi n h = (scale 1 n h.0, scale n hi h.1)
  where
    scale : (a b : ℕ) → a ≤ b → a * day ≤ b * day
    scale a b h = omega (arith, h)

guard_ok : (b : Bool) (key : String) (x : Unit {0}) → guard b key ≡ ok x → b ≡ true
guard_ok true key x h = refl
guard_ok false key x h = absurd (ground (arith, h))

ok_inj : (r : Result String Config) (c d : Config) → r ≡ ok c → r ≡ ok d → c ≡ d
ok_inj r c d e h = ground (arith, e, h)

-- What the checks of `Load` leave.
record IsChecked (env : Env) (c : Config) : Type 0 where
  strong : strong_token env c.admin_token ≡ true
  complete : complete_s3 env c.s3 ≡ true
  history_days : IsBetween day (365 * day) c.limited.history_retention
  outbox_days : IsBetween day (30 * day) c.limited.outbox_retention
  media_days : IsBetween day (30 * day) c.limited.media_retention
  messages : IsBetween 1 1000000 c.limited.history_max_messages
  events : IsBetween 1 1000000 c.limited.outbox_max_events
  history_bytes : IsBetween 1048576 10737418240 c.limited.history_max_bytes
  outbox_bytes : IsBetween 1048576 10737418240 c.limited.outbox_max_bytes
  shutdown : IsBetween 1000000 (300 * 1000000000) c.limited.shutdown_timeout
  timeout : IsBetween 1000000 (60 * 1000000000) c.limited.webhook_timeout
  workers : IsBetween 1 32 c.limited.webhook_workers
  queue : IsBetween 1 10000 c.limited.webhook_queue_size
  attempts : IsBetween 1 10 c.limited.webhook_attempts

load-IsChecked : (env : Env) (c : Config) → load env ≡ ok c → IsChecked env c
unfolding load
load-IsChecked env c h0 =
    bind_elim (flag env "ENABLE_EXPERIMENTAL_INTERACTIVES" "false") _ c h0 (IsChecked env c)
      (λ experimental p1 h1.
        bind_elim (flag env "ENABLE_MANAGER" "true") _ c h1 (IsChecked env c) (λ manager p2 h2.
          bind_elim (flag env "S3_USE_SSL" "true") _ c h2 (IsChecked env c) (λ secure p3 h3.
            bind_elim (guard (strong_token env (env.lookup_env "ADMIN_TOKEN")) "ADMIN_TOKEN") _ c h3
              (IsChecked env c)
              (λ x4 p4 h4.
                bind_elim (number env "HISTORY_RETENTION_DAYS" "30" 365) _ c h4 (IsChecked env c)
                  (λ hd p5 h5.
                    bind_elim (number env "OUTBOX_RETENTION_DAYS" "7" 30) _ c h5 (IsChecked env c)
                      (λ od p6 h6.
                        bind_elim (number env "MEDIA_RETENTION_DAYS" "7" 30) _ c h6
                          (IsChecked env c)
                          (λ md p7 h7.
                            bind_elim (number env "HISTORY_MAX_MESSAGES" "100000" 1000000) _ c h7
                              (IsChecked env c)
                              (λ messages p8 h8.
                                bind_elim (number env "OUTBOX_MAX_EVENTS" "100000" 1000000) _ c h8
                                  (IsChecked env c)
                                  (λ events p9 h9.
                                    bind_elim (bytes env "HISTORY_MAX_BYTES" "268435456") _ c h9
                                      (IsChecked env c)
                                      (λ hb p10 h10.
                                        bind_elim (bytes env "OUTBOX_MAX_BYTES" "134217728") _ c h10
                                          (IsChecked env c)
                                          (λ ob p11 h11.
                                            bind_elim
                                              (guard (complete_s3 env (s3_of env)) "S3_ENDPOINT") _
                                              c h11 (IsChecked env c)
                                              (λ x12 p12 h12.
                                                bind_elim (flag env "AUTO_RESTORE_SESSIONS" "true")
                                                  _ c h12 (IsChecked env c)
                                                  (λ restore p13 h13.
                                                    bind_elim
                                                      (duration env "SHUTDOWN_TIMEOUT" "25s"
                                                        (300 * 1000000000))
                                                      _ c h13 (IsChecked env c)
                                                      (λ shutdown p14 h14.
                                                        bind_elim
                                                          (duration env "WEBHOOK_TIMEOUT" "10s"
                                                            (60 * 1000000000))
                                                          _ c h14 (IsChecked env c)
                                                          (λ timeout p15 h15.
                                                            bind_elim
                                                            (number env "WEBHOOK_WORKERS" "2" 32) _
                                                            c h15 (IsChecked env c)
                                                            (λ workers p16 h16.
                                                            bind_elim
                                                            (number env "WEBHOOK_QUEUE_SIZE" "256"
                                                            10000)
                                                            _ c h16 (IsChecked env c)
                                                            (λ queue p17 h17.
                                                            bind_elim
                                                            (number env "WEBHOOK_ATTEMPTS" "4" 10) _
                                                            c h17 (IsChecked env c)
                                                            (λ attempts p18 h18.
                                                            bind_elim
                                                            (between "PORT" 1 65535
                                                            (env.atoi (get_env env "PORT" "21465")))
                                                            _ c h18 (IsChecked env c)
                                                            (λ port p19 h19.
                                                            subst (IsChecked env)
                                                            (ok_inj _ _ c refl h19)
                                                            (record {
                                                            strong =
                                                            guard_ok
                                                            (strong_token env
                                                            (env.lookup_env "ADMIN_TOKEN"))
                                                            "ADMIN_TOKEN" x4 p4;
                                                            complete =
                                                            guard_ok (complete_s3 env (s3_of env))
                                                            "S3_ENDPOINT" x12 p12;
                                                            history_days = days 365 hd (
                                                            within "HISTORY_RETENTION_DAYS" 1 (365)
                                                            hd
                                                            (env.atoi (
                                                            get_env env "HISTORY_RETENTION_DAYS"
                                                            "30"))
                                                            p5);
                                                            outbox_days = days 30 od (
                                                            within "OUTBOX_RETENTION_DAYS" 1 (30) od
                                                            (env.atoi (
                                                            get_env env "OUTBOX_RETENTION_DAYS"
                                                            "7"))
                                                            p6);
                                                            media_days = days 30 md (
                                                            within "MEDIA_RETENTION_DAYS" 1 (30) md
                                                            (env.atoi (
                                                            get_env env "MEDIA_RETENTION_DAYS" "7"))
                                                            p7);
                                                            messages =
                                                            within "HISTORY_MAX_MESSAGES" 1
                                                            (1000000) messages
                                                            (env.atoi (
                                                            get_env env "HISTORY_MAX_MESSAGES"
                                                            "100000"))
                                                            p8;
                                                            events =
                                                            within "OUTBOX_MAX_EVENTS" 1 (1000000)
                                                            events
                                                            (env.atoi (
                                                            get_env env "OUTBOX_MAX_EVENTS"
                                                            "100000"))
                                                            p9;
                                                            history_bytes =
                                                            within "HISTORY_MAX_BYTES" 1048576
                                                            (10737418240) hb
                                                            (env.parse_int (
                                                            get_env env "HISTORY_MAX_BYTES"
                                                            "268435456"))
                                                            p10;
                                                            outbox_bytes =
                                                            within "OUTBOX_MAX_BYTES" 1048576
                                                            (10737418240) ob
                                                            (env.parse_int (
                                                            get_env env "OUTBOX_MAX_BYTES"
                                                            "134217728"))
                                                            p11;
                                                            shutdown =
                                                            within "SHUTDOWN_TIMEOUT" 1000000
                                                            (300 * 1000000000) shutdown
                                                            (env.parse_duration
                                                            (get_env env "SHUTDOWN_TIMEOUT" "25s"))
                                                            p14;
                                                            timeout =
                                                            within "WEBHOOK_TIMEOUT" 1000000
                                                            (60 * 1000000000) timeout
                                                            (env.parse_duration
                                                            (get_env env "WEBHOOK_TIMEOUT" "10s"))
                                                            p15;
                                                            workers =
                                                            within "WEBHOOK_WORKERS" 1 (32) workers
                                                            (env.atoi
                                                            (get_env env "WEBHOOK_WORKERS" "2"))
                                                            p16;
                                                            queue =
                                                            within "WEBHOOK_QUEUE_SIZE" 1 (10000)
                                                            queue
                                                            (env.atoi (
                                                            get_env env "WEBHOOK_QUEUE_SIZE" "256"))
                                                            p17;
                                                            attempts =
                                                            within "WEBHOOK_ATTEMPTS" 1 (10)
                                                            attempts
                                                            (env.atoi
                                                            (get_env env "WEBHOOK_ATTEMPTS" "4"))
                                                            p18;
                                                            }))))))))))))))))))))

token_lem : (env : Env) (t : String) → strong_token env t ≡ true → (t ≡ "") ⊎ (32 ≤ len t)
token_lem env t h = elim (Bool-cases (str_eq t "")) [
  | inl e ↦ inl ((eq_iff t "").0 e)
  | inr e ↦ inr (ground (arith, h, e))
]

abbrev pub IsComplete : S3 → Type 0
IsComplete s =
    (str_eq s.access_key "" ≡ false)
    × (str_eq s.secret_key "" ≡ false)
    × (str_eq s.bucket "" ≡ false)

s3_lem : (env : Env) (s : S3) → complete_s3 env s ≡ true → (s.endpoint ≡ "") ⊎ IsComplete s
s3_lem env s h = elim (Bool-cases (str_eq s.endpoint "")) [
  | inl e ↦ inl ((eq_iff s.endpoint "").0 e)
  | inr e ↦ inr (ground (arith, h, e), ground (arith, h, e), ground (arith, h, e))
]

pub record IsWithin (c : Config) : Type 0 where
  pub strong : (c.admin_token ≡ "") ⊎ (32 ≤ len c.admin_token)
  pub complete : (c.s3.endpoint ≡ "") ⊎ IsComplete c.s3
  pub history : History.valid_options (history_options c) ≡ true
  pub bus : Bus.valid_options (bus_options c) ≡ true
  pub media_days : IsBetween day (30 * day) c.limited.media_retention
  pub outbox_days : IsBetween day (30 * day) c.limited.outbox_retention
  pub events : IsBetween 1 1000000 c.limited.outbox_max_events
  pub outbox_bytes : IsBetween 1048576 10737418240 c.limited.outbox_max_bytes
  pub shutdown : IsBetween 1000000 (300 * 1000000000) c.limited.shutdown_timeout
  pub queue : IsBetween 1 10000 c.limited.webhook_queue_size

-- Whatever the environment holds, a configuration that loads has no admin token or one of at least 32
-- bytes, and no S3 endpoint or an access key, a secret key and a bucket with it. The options of the
-- history and of the event bus that the server makes of it are within the limits that history.Open and
-- eventbus.New put on them. Attachments and logged events are kept for 1 to 30 days, the event log has 1
-- to 1,000,000 events and 1 MiB to 10 GiB, the shutdown takes 1 ms to 300 s, and a webhook queue has 1
-- to 10,000 places.
pub load-IsWithin : (env : Env) (c : Config) → load env ≡ ok c → IsWithin c
load-IsWithin env c h =
    let k = load-IsChecked env c h in
    record {
      strong = token_lem env c.admin_token k.strong;
      complete = s3_lem env c.s3 k.complete;
      history = ground (arith, k.history_days, k.messages, k.history_bytes);
      bus = ground (arith, k.workers, k.attempts, k.timeout);
      media_days = k.media_days;
      outbox_days = k.outbox_days;
      events = k.events;
      outbox_bytes = k.outbox_bytes;
      shutdown = k.shutdown;
      queue = k.queue;
    }
