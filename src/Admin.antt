-- ===== src/Admin.antt =====
-- internal/httpapi/admin.go: the sessions of administrators and the limit on their logins. The fields
-- adminSessions and loginAttempts of the server are dictionaries; a time of 0 is the zero time.
pub mod Limits
pub mod Attempts
pub mod Grants
pub mod Tests
use wppconnect_server_go.Prelude.{
  ℕ, ◌+◌, ◌*◌, String, Bool, true, false, not, ◌&&◌, ◌||◌, Option, none, some, List, [], ◌∷◌, ltb,
  leb, str_eq, ◌==◌, if◌then◌else◌, length, lookup, insert, remove, Result, ok, err,
}

pub record AdminSession : Type 0 where
  pub expires : ℕ
  pub csrf : String

pub record LoginAttempts : Type 0 where
  pub until : ℕ
  pub failures : ℕ

pub record Admin : Type 0 where
  pub sessions : List (String × AdminSession)
  pub attempts : List (String × LoginAttempts)

-- What the handlers read of a request; `token` is that of its JSON body, or the status that
-- `mediaError` answers where the body cannot be read.
pub record Request : Type 0 where
  pub authorization : List String
  pub cookie : Option String
  pub origin : String
  pub host : String
  pub csrf : String
  pub remote : String
  pub token : Result ℕ String

pub record Origin : Type 0 where
  pub scheme : String
  pub host : String

-- strings.EqualFold, SHA-256, url.Parse and net.SplitHostPort (the host).
pub record Web : Type 0 where
  pub equal_fold : String → String → Bool
  pub hash : String → String
  pub parse : String → Option Origin
  pub split_host : String → Option String

-- Nanoseconds.
abbrev pub second : ℕ
second = 1000000000

abbrev pub minute : ℕ
minute = 60 * second

abbrev pub session_time : ℕ
session_time = 8 * 3600 * second

abbrev pub max_sessions : ℕ
max_sessions = 128

abbrev pub max_addresses : ℕ
max_addresses = 1000

abbrev pub max_failures : ℕ
max_failures = 8

-- The loops that delete the entries of a map whose time has passed.
module _ {V : Type 0} (is_over : V → Bool) where
  abbrev pub sweep : List (String × V) → List (String × V)
  sweep [] = []
  sweep ((k, v) ∷ m) = let rest = sweep m in if is_over v then rest else (k, v) ∷ rest

abbrev pub is_past : ℕ → LoginAttempts → Bool
is_past now a = ltb a.until now

abbrev pub is_expired : ℕ → AdminSession → Bool
is_expired now v = ltb v.expires now

abbrev pub or_new : Option LoginAttempts → LoginAttempts
or_new none = record { until = 0; failures = 0 }
or_new (some a) = a

-- `blocked`, of the swept attempts.
abbrev pub is_blocked : ℕ → LoginAttempts → List (String × LoginAttempts) → Bool
is_blocked now rate attempts =
    leb max_failures rate.failures && ltb now rate.until
    || leb max_addresses (length attempts) && rate.until == 0

abbrev pub next_rate : ℕ → LoginAttempts → LoginAttempts
next_rate now rate =
    if rate.until == 0 || ltb rate.until now
    then record { until = now + minute; failures = 1 }
    else record rate { failures = rate.failures + 1 }

pub data Answer : Type 0 where
  refused : (status : ℕ) → Answer
  logged_in : (token csrf : String) → (expires : ℕ) → Answer

module _ (web : Web) where
  unfoldable pub equal_secret : String → String → Bool
  equal_secret a b = str_eq (web.hash a) (web.hash b)

  abbrev pub is_origin : String → Option Origin → Bool
  is_origin host none = false
  is_origin host (some u) =
      (str_eq u.scheme "http" || str_eq u.scheme "https") && str_eq u.host host

  unfoldable pub same_origin : Request → Bool
  same_origin r = str_eq r.origin "" || is_origin r.host (web.parse r.origin)

  abbrev pub is_bearer : String → List String → Bool
  is_bearer secret [] = false
  is_bearer secret (a ∷ []) = false
  is_bearer secret (a ∷ b ∷ []) = web.equal_fold a "Bearer" && equal_secret b secret
  is_bearer secret (a ∷ b ∷ c ∷ rest) = false

  abbrev pub by_session : ℕ → Bool → Request → String → Option AdminSession → Admin → Bool × Admin
  by_session now csrf r key none s = (false, record s { sessions = remove key s.sessions })
  by_session now csrf r key (some v) s =
      if is_expired now v
      then (false, record s { sessions = remove key s.sessions })
      else (not (csrf && not (equal_secret v.csrf r.csrf)), s)

  abbrev pub by_cookie : ℕ → Bool → Request → Option String → Admin → Bool × Admin
  by_cookie now csrf r none s = (false, s)
  by_cookie now csrf r (some cookie) s =
      if not (same_origin r)
      then (false, s)
      else by_session now csrf r (web.hash cookie) (lookup (web.hash cookie) s.sessions) s

  unfoldable pub admin_credentials :
      (secret : String) → (now : ℕ) → Request → (csrf : Bool) → Admin → Bool × Admin
  admin_credentials secret now r csrf s =
      if str_eq secret ""
      then (false, s)
      else if is_bearer secret r.authorization
      then (true, s)
      else by_cookie now csrf r r.cookie s

  -- `adminOnly`: the status that it answers, or none where the handler runs.
  unfoldable pub admin_only :
      (secret : String) → (now : ℕ) → (method : String) → Request → Admin → Option ℕ × Admin
  admin_only secret now method r s =
      let (allowed, s') =
        admin_credentials secret now r (not (str_eq method "GET") && not (str_eq method "HEAD"))
          s in
      if str_eq secret "" then (some 403, s) else (if allowed then none else some 401, s')

  abbrev pub address : Request → String
  address r = elim (web.split_host r.remote) [ none ↦ r.remote | some ip ↦ ip ]

  -- The second part of `adminLogin`: the token is right, and a session is made.
  abbrev pub grant : (now : ℕ) → (ip token csrf : String) → Admin → Answer × Admin
  grant now ip token csrf s =
      let kept = sweep (is_expired now) s.sessions in
      if leb max_sessions (length kept) then (refused 429, record s { sessions = kept }) else (
        logged_in token csrf (now + session_time),
        record {
          sessions =
              insert (web.hash token) (record { expires = now + session_time; csrf = csrf }) kept;
          attempts = remove ip s.attempts;
        },
      )

  abbrev pub rate_of : String → List (String × LoginAttempts) → LoginAttempts
  rate_of ip attempts = or_new (lookup ip attempts)

  -- The first part of `adminLogin`: the status that it answers, or none where it goes on.
  unfoldable pub begin_login : (secret : String) → (now : ℕ) → Request → Admin → Option ℕ × Admin
  begin_login secret now r s =
      let ip = address r in
      let swept = sweep (is_past now) s.attempts in
      let rate = rate_of ip swept in
      if str_eq secret "" || not (same_origin r)
      then (some 403, s)
      else if is_blocked now rate swept
      then (some 429, record s { attempts = swept })
      else (none, record s { attempts = insert ip (next_rate now rate) swept })

  -- The second part, from the reading of the body on; the lock was given up in between.
  abbrev pub finish_login :
      (secret : String)
      → (now : ℕ) → (ip token csrf : String) → Result ℕ String
      → Admin
      → Answer × Admin
  finish_login secret now ip token csrf (err status) s = (refused status, s)
  finish_login secret now ip token csrf (ok given) s =
      if not (equal_secret given secret) then (refused 401, s) else grant now ip token csrf s

  abbrev pub go_on :
      Option ℕ
      → (secret : String) → (now : ℕ) → (ip token csrf : String) → Result ℕ String
      → Admin
      → Answer × Admin
  go_on (some status) secret now ip token csrf body s = (refused status, s)
  go_on none secret now ip token csrf body s = finish_login secret now ip token csrf body s

  -- `token` and `csrf` are the two answers of randomToken.
  unfoldable pub admin_login :
      (secret : String) → (now : ℕ) → (token csrf : String) → Request → Admin → Answer × Admin
  admin_login secret now token csrf r s =
      let (status, s') = begin_login secret now r s in
      go_on status secret now (address r) token csrf r.token s'

  unfoldable pub admin_logout : Request → Admin → Admin
  admin_logout r s = elim r.cookie [
    | none ↦ s
    | some cookie ↦ record s { sessions = remove (web.hash cookie) s.sessions }
  ]

  -- The CSRF token that `adminAuth` answers.
  unfoldable pub admin_auth : Request → Admin → String
  admin_auth r s = elim r.cookie [
    | none ↦ ""
    | some cookie ↦ elim (lookup (web.hash cookie) s.sessions) [ none ↦ "" | some v ↦ v.csrf ]
  ]
