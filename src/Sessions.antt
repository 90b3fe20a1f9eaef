-- ===== src/Sessions.antt =====
-- internal/session/manager.go, restore.go and settings.go: the sessions that are live, the files
-- that say which of them to bring back, and the operations on both. Every operation holds the
-- manager's lock, so it is one step here.
pub mod Records
pub mod Opening
pub mod Lifecycle
pub mod Restore
pub mod Invariant
pub mod Steps
pub mod Saves
pub mod Starts
pub mod Ends
pub mod Changes
pub mod Drains
pub mod Reach
pub mod Resume
pub mod Lasting
mod Tests
use wppconnect_server_go.Prelude.{
  ℕ, ◌+◌, String, Bool, true, false, not, ◌&&◌, ◌||◌, Option, none, some, List, [], ◌∷◌, ◌++◌, leb,
  ◌==◌, str_eq, if◌then◌else◌, count, all_chars, is_alphanumeric,
}

pub record Settings : Type 0 where
  pub auto_read : Bool
  pub always_online : Bool
  pub proxy_url : String

abbrev pub no_settings : Settings
no_settings = record { auto_read = false; always_online = false; proxy_url = "" }

-- `sessionRecord`, what a file NAME.session.json holds.
pub record Record : Type 0 where
  pub name : String
  pub restore : Bool
  pub revoked : Bool
  pub settings : Settings

abbrev pub blank : String → Record
blank name = record { name = name; restore = false; revoked = false; settings = no_settings }

pub data Status : Type 0 where
  initializing qr_code connected closed disconnected unpaired : Status

-- `key` tells the handles apart, as their pointers do.
pub record Handle : Type 0 where
  pub key : ℕ
  pub name : String
  pub status : Status
  pub code : String
  pub paired : Bool
  pub closing : Bool
  pub settings : Settings

-- `files` are the session files of the data directory; `released` the handles that were given up.
pub record Manager : Type 0 where
  pub sessions : List (String × Handle)
  pub files : List (String × String)
  pub stopping : Bool
  pub canceled : Bool
  pub opened : ℕ
  pub released : List Handle

pub data Error : Type 0 where
  invalid_name stopping canceled too_many not_connected io_failed : Error
  too_large bad_syntax wrong_name bad_settings open_failed : Error
  qr_failed connect_failed logout_failed release_failed : Error

-- What the model takes from outside: filepath.IsLocal, encoding/json on records, and url.Parse with
-- the scheme and the host of its result. json.Unmarshal fills in a record that is given.
pub record Outside : Type 0 where
  pub is_local : String → Bool
  pub encode : Record → Option String
  pub decode : Record → String → Option Record
  pub parse : String → Option (String × String)

-- `^[A-Za-z0-9_-]{1,64}$` and IsLocal
abbrev pub is_name_char : ℕ → Bool
is_name_char c = is_alphanumeric c || c == 95 || c == 45

unfoldable pub valid_name : Outside → String → Bool
valid_name out name =
    leb 1 (count name) && leb (count name) 64 && all_chars is_name_char name && out.is_local name
