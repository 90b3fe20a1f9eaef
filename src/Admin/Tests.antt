-- ===== src/Admin/Tests.antt =====
-- internal/httpapi/admin.go on concrete requests: tests, and the theorems at these inputs.
use wppconnect_server_go.Prelude.{
  ◌+◌, ◌*◌, ◌≤◌, String, ◌≡◌, refl, true, false, not, ◌&&◌, none, some, [], ◌∷◌, arith, leb, str_eq,
  ok,
}
use wppconnect_server_go.Admin.{
  Admin, Request, Web, second, minute, session_time, max_failures, refused, logged_in, equal_secret,
  same_origin, admin_credentials, begin_login, admin_login, admin_logout, admin_only,
}
use wppconnect_server_go.Admin.Limits.{
  IsBounded, empty_admin, here, next, begins, AdminReach-IsBounded,
}
use wppconnect_server_go.Admin.Attempts.{attempt, comparisons, attempts_limited}
use wppconnect_server_go.Admin.Grants.{login_grants}

abbrev web : Web
web = record { equal_fold = str_eq; hash = λ s. s; parse = λ s. none; split_host = λ s. some s }

abbrev request : Request
request = record {
  authorization = [];
  cookie = none;
  origin = "";
  host = "h";
  csrf = "";
  remote = "10.0.0.1";
  token = ok "wrong";
}

-- The first attempt at 1 s opens a window of a minute.
abbrev tried : Admin
tried = record empty_admin {
  attempts = ("10.0.0.1", record { until = 61 * second; failures = 1 }) ∷ [];
}

tries : begin_login web "secret" second request empty_admin ≡ (none, tried)
unfolding begin_login same_origin
tries = refl

empty_admin-IsBounded : IsBounded empty_admin
empty_admin-IsBounded = record {
  sessions_map = tt;
  attempts_map = tt;
  few_sessions = omega arith;
  few_attempts = omega arith;
}

AdminReach-IsBounded_example : IsBounded (begin_login web "secret" second request empty_admin).1
AdminReach-IsBounded_example =
    AdminReach-IsBounded web "secret" {first = empty_admin}
      {s = (begin_login web "secret" second request empty_admin).1} empty_admin-IsBounded
      (next here (begins second request refl))

attempts_limited_example :
    comparisons web "secret" "10.0.0.1"
        (attempt (2 * second) request ∷ attempt (3 * second) request ∷ [])
        tried
      + 1
    ≤ max_failures
attempts_limited_example =
    attempts_limited web "secret" "10.0.0.1" (61 * second) 1
      (attempt (2 * second) request ∷ attempt (3 * second) request ∷ []) tried refl (omega arith)
      (omega arith, (omega arith, tt))

-- Eight failures, and the right token in the same minute is refused.
abbrev exhausted : Admin
exhausted = record empty_admin {
  attempts = ("10.0.0.1", record { until = 61 * second; failures = 8 }) ∷ [];
}

refuses :
    (admin_login web "secret"
      (30 * second)
      "t"
      "c"
      (record request { token = ok "secret" })
      exhausted).0
    ≡ refused 429
unfolding admin_login begin_login same_origin
refuses = refl

abbrev login : Request
login = record request { token = ok "secret" }

abbrev visitor : Request
visitor = record request { cookie = some "t"; csrf = "c" }

logs_in :
    (admin_login web "secret" second "t" "c" login empty_admin).0
    ≡ logged_in "t" "c" (second + session_time)
unfolding admin_login begin_login same_origin equal_secret
logs_in = refl

visitor_same : same_origin web visitor ≡ true
unfolding same_origin
visitor_same = refl

login_grants_example :
    let s' = (admin_login web "secret" second "t" "c" login empty_admin).1 in
    ((given : String) × (login.token ≡ ok given)
      × (str_eq (web.hash given) (web.hash "secret") ≡ true))
    × ((admin_credentials web "secret" minute visitor true s').0 ≡ (
        leb minute (second + session_time)
        && not (true && not (str_eq (web.hash "c") (web.hash visitor.csrf)))))
    × ((admin_credentials web "secret" minute visitor true (admin_logout web visitor s')).0 ≡ false)
login_grants_example =
    login_grants web "secret" second minute "t" "c" "t" "c" (second + session_time) login visitor
      true empty_admin logs_in refl refl visitor_same

-- Without the CSRF token a request that changes something is refused.
needs_csrf :
    (admin_only web "secret" minute "POST"
      (record visitor { csrf = "" })
      (admin_login web "secret" second "t" "c" login empty_admin).1).0
    ≡ some 401
unfolding admin_only admin_credentials admin_login begin_login same_origin equal_secret
needs_csrf = refl
