-- ===== src/Config.antt =====
-- internal/config/config.go: what the server takes from its environment, and the limits on it. The
-- options of the history and of the event bus are made of it in cmd/server/main.go.
-- Durations are nanoseconds.
pub mod Limits
mod Tests
use wppconnect_server_go.History
use wppconnect_server_go.Bus
use wppconnect_server_go.Prelude.{
  ℕ, ◌*◌, String, len, Bool, true, false, not, ◌&&◌, ◌||◌, Option, none, some, leb, ltb, str_eq,
  if◌then◌else◌, Result, ok, err, ◌>>=◌, ◌>>◌, guard, or_fail, ℤ, pos, negsuc,
}

-- os.Getenv, and the readers of strconv and time.ParseDuration.
pub record Env : Type 0 where
  pub lookup_env : String → String
  pub parse_bool : String → Option Bool
  pub atoi : String → Option ℤ
  pub parse_int : String → Option ℤ
  pub parse_duration : String → Option ℤ

pub record S3 : Type 0 where
  pub endpoint : String
  pub access_key : String
  pub secret_key : String
  pub bucket : String
  pub region : String

-- The numbers that have limits.
pub record Limited : Type 0 where
  pub history_retention : ℕ
  pub outbox_retention : ℕ
  pub media_retention : ℕ
  pub history_max_messages : ℕ
  pub outbox_max_events : ℕ
  pub history_max_bytes : ℕ
  pub outbox_max_bytes : ℕ
  pub shutdown_timeout : ℕ
  pub webhook_timeout : ℕ
  pub webhook_workers : ℕ
  pub webhook_queue_size : ℕ
  pub webhook_attempts : ℕ

pub record Config : Type 0 where
  pub experimental_interactives : Bool
  pub manager_enabled : Bool
  pub s3_secure : Bool
  pub auto_restore : Bool
  pub port : String
  pub secret_key : String
  pub webhook_url : String
  pub data_dir : String
  pub admin_token : String
  pub nats_url : String
  pub rabbitmq_url : String
  pub s3 : S3
  pub limited : Limited

abbrev pub history_options : Config → History.Options
history_options c = record {
  retention = c.limited.history_retention;
  max_messages = c.limited.history_max_messages;
  max_bytes = c.limited.history_max_bytes;
}

abbrev pub bus_options : Config → Bus.Options
bus_options c = record Bus.default_options {
  workers = c.limited.webhook_workers;
  attempts = c.limited.webhook_attempts;
  timeout = c.limited.webhook_timeout;
}

abbrev pub get_env : Env → String → String → String
get_env env key fallback = if str_eq (env.lookup_env key) "" then fallback else env.lookup_env key

-- A number that was read, if it lies between the bounds.
abbrev pub between : String → (lo hi : ℕ) → Option ℤ → Result String ℕ
between key lo hi (some (pos n)) = if leb lo n && leb n hi then ok n else err key
between key lo hi _ = err key

abbrev pub day : ℕ
day = 24 * 3600 * 1000000000

module _ (env : Env) where
  abbrev pub flag : String → String → Result String Bool
  flag key fallback = or_fail (env.parse_bool (get_env env key fallback)) key

  abbrev pub number : String → String → ℕ → Result String ℕ
  number key fallback hi = between key 1 hi (env.atoi (get_env env key fallback))

  abbrev pub bytes : String → String → Result String ℕ
  bytes key fallback = between key 1048576 10737418240 (env.parse_int (get_env env key fallback))

  abbrev pub duration : String → String → ℕ → Result String ℕ
  duration key fallback hi = between key 1000000 hi (env.parse_duration (get_env env key fallback))

  abbrev pub s3_of : S3
  s3_of = record {
    endpoint = env.lookup_env "S3_ENDPOINT";
    access_key = env.lookup_env "S3_ACCESS_KEY_ID";
    secret_key = env.lookup_env "S3_SECRET_ACCESS_KEY";
    bucket = env.lookup_env "S3_BUCKET";
    region = env.lookup_env "S3_REGION";
  }

  abbrev pub complete_s3 : S3 → Bool
  complete_s3 s =
      str_eq s.endpoint ""
      || (not (str_eq s.access_key "") && not (str_eq s.secret_key "") && not (str_eq s.bucket ""))

  abbrev pub strong_token : String → Bool
  strong_token t = str_eq t "" || leb 32 (len t)

  unfoldable pub load : Result String Config
  load = do
    experimental ← flag "ENABLE_EXPERIMENTAL_INTERACTIVES" "false"
    manager ← flag "ENABLE_MANAGER" "true"
    secure ← flag "S3_USE_SSL" "true"
    guard (strong_token (env.lookup_env "ADMIN_TOKEN")) "ADMIN_TOKEN"
    history_days ← number "HISTORY_RETENTION_DAYS" "30" 365
    outbox_days ← number "OUTBOX_RETENTION_DAYS" "7" 30
    media_days ← number "MEDIA_RETENTION_DAYS" "7" 30
    messages ← number "HISTORY_MAX_MESSAGES" "100000" 1000000
    events ← number "OUTBOX_MAX_EVENTS" "100000" 1000000
    history_bytes ← bytes "HISTORY_MAX_BYTES" "268435456"
    outbox_bytes ← bytes "OUTBOX_MAX_BYTES" "134217728"
    guard (complete_s3 s3_of) "S3_ENDPOINT"
    restore ← flag "AUTO_RESTORE_SESSIONS" "true"
    shutdown ← duration "SHUTDOWN_TIMEOUT" "25s" (300 * 1000000000)
    timeout ← duration "WEBHOOK_TIMEOUT" "10s" (60 * 1000000000)
    workers ← number "WEBHOOK_WORKERS" "2" 32
    queue ← number "WEBHOOK_QUEUE_SIZE" "256" 10000
    attempts ← number "WEBHOOK_ATTEMPTS" "4" 10
    port ← between "PORT" 1 65535 (env.atoi (get_env env "PORT" "21465"))
    ok (record {
      experimental_interactives = experimental;
      manager_enabled = manager;
      s3_secure = secure;
      auto_restore = restore;
      port = get_env env "PORT" "21465";
      secret_key = get_env env "SECRET_KEY" "THISISMYSECURETOKEN";
      webhook_url = get_env env "WEBHOOK_URL" "";
      data_dir = get_env env "DATA_DIR" "./userDataDir";
      admin_token = env.lookup_env "ADMIN_TOKEN";
      nats_url = env.lookup_env "NATS_URL";
      rabbitmq_url = env.lookup_env "AMQP_URL";
      s3 = s3_of;
      limited = record {
        history_retention = history_days * day;
        outbox_retention = outbox_days * day;
        media_retention = media_days * day;
        history_max_messages = messages;
        outbox_max_events = events;
        history_max_bytes = history_bytes;
        outbox_max_bytes = outbox_bytes;
        shutdown_timeout = shutdown;
        webhook_timeout = timeout;
        webhook_workers = workers;
        webhook_queue_size = queue;
        webhook_attempts = attempts;
      };
    })
