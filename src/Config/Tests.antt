-- ===== src/Config/Tests.antt =====
-- internal/config/config.go in an empty environment and in others: tests, and the theorem there.
use wppconnect_server_go.Prelude.{
  ◌*◌, String, ◌≡◌, refl, true, false, Option, some, none, str_eq, if◌then◌else◌, ok, err, ℤ, pos,
}
use wppconnect_server_go.Config.{Env, Config, load, day}
use wppconnect_server_go.Config.Limits.{IsWithin, load-IsWithin}

-- Readers that know the texts that the defaults are written with.
abbrev read_number : String → Option ℤ
read_number s =
    if str_eq s "30"
    then some (pos 30)
    else if str_eq s "7"
    then some (pos 7)
    else if str_eq s "100000"
    then some (pos 100000)
    else if str_eq s "268435456"
    then some (pos 268435456)
    else if str_eq s "134217728"
    then some (pos 134217728)
    else if str_eq s "2"
    then some (pos 2)
    else if str_eq s "256"
    then some (pos 256)
    else if str_eq s "4"
    then some (pos 4)
    else if str_eq s "21465"
    then some (pos 21465)
    else if str_eq s "25s"
    then some (pos 25000000000)
    else if str_eq s "10s"
    then some (pos 10000000000)
    else none

abbrev empty : Env
empty = record {
  lookup_env = λ _. "";
  parse_bool = λ s. some (str_eq s "true");
  atoi = read_number;
  parse_int = read_number;
  parse_duration = read_number;
}

abbrev defaults : Config
defaults = record {
  experimental_interactives = false;
  manager_enabled = true;
  s3_secure = true;
  auto_restore = true;
  port = "21465";
  secret_key = "THISISMYSECURETOKEN";
  webhook_url = "";
  data_dir = "./userDataDir";
  admin_token = "";
  nats_url = "";
  rabbitmq_url = "";
  s3 = record { endpoint = ""; access_key = ""; secret_key = ""; bucket = ""; region = "" };
  limited = record {
    history_retention = 30 * day;
    outbox_retention = 7 * day;
    media_retention = 7 * day;
    history_max_messages = 100000;
    outbox_max_events = 100000;
    history_max_bytes = 268435456;
    outbox_max_bytes = 134217728;
    shutdown_timeout = 25000000000;
    webhook_timeout = 10000000000;
    webhook_workers = 2;
    webhook_queue_size = 256;
    webhook_attempts = 4;
  };
}

loads : load empty ≡ ok defaults
unfolding load
loads = refl

-- With an admin token of 32 bytes and S3 settings.
abbrev settings : String → String
settings key =
    if str_eq key "ADMIN_TOKEN"
    then "0123456789abcdef0123456789abcdef"
    else if str_eq key "S3_ENDPOINT"
    then "s3.example:9000"
    else if str_eq key "S3_ACCESS_KEY_ID"
    then "access"
    else if str_eq key "S3_SECRET_ACCESS_KEY"
    then "secret"
    else if str_eq key "S3_BUCKET"
    then "media"
    else ""

abbrev filled : Config
filled = record defaults {
  admin_token = "0123456789abcdef0123456789abcdef";
  s3 = record {
    endpoint = "s3.example:9000";
    access_key = "access";
    secret_key = "secret";
    bucket = "media";
    region = "";
  };
}

loads_filled : load (record empty { lookup_env = settings }) ≡ ok filled
unfolding load
loads_filled = refl

-- A token of 31 bytes, or an endpoint without a bucket, is refused.
refuses_short :
    load (record empty {
      lookup_env =
          λ key. if str_eq key "ADMIN_TOKEN" then "0123456789abcdef0123456789abcde" else "";
    })
    ≡ err "ADMIN_TOKEN"
unfolding load
refuses_short = refl

refuses_partial :
    load (record empty { lookup_env = λ key. if str_eq key "S3_BUCKET" then "" else settings key })
    ≡ err "S3_ENDPOINT"
unfolding load
refuses_partial = refl

load-IsWithin_example : IsWithin filled
load-IsWithin_example = load-IsWithin (record empty { lookup_env = settings }) filled loads_filled
