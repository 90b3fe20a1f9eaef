-- ===== src/Admin/Limits.antt =====
-- The bounds of the two dictionaries, and the limit on the login attempts of one address.
use wppconnect_server_go.Prelude.{
  ℕ, ◌+◌, ◌≤◌, String, ◌≡◌, refl, sym, subst, inl, inr, Bool, false, not, ◌||◌, Option,
  Option-cases, none, some, List, [], ◌∷◌, arith, leb, str_eq, Bool-cases, length, lookup, insert,
  remove, length-insert, length-remove-le, IsMap, insert-IsMap, remove-IsMap, Result, ok, err,
}
use wppconnect_server_go.Admin.{
  AdminSession, LoginAttempts, Admin, Request, Web, session_time, max_sessions, max_addresses,
  sweep, is_past, is_expired, is_blocked, next_rate, by_session, by_cookie, is_bearer, same_origin,
  admin_credentials, address, grant, rate_of, begin_login, finish_login, equal_secret, admin_logout,
}

module _ {V : Type 0} (is_over : V → Bool) where
  length-sweep-le : (m : List (String × V)) → length (sweep is_over m) ≤ length m
  length-sweep-le [] = omega arith
  length-sweep-le ((k, v) ∷ m) = ground (arith, length-sweep-le m)

  sweep-absent :
      (k : String) (m : List (String × V)) → lookup k m ≡ none → lookup k (sweep is_over m) ≡ none
  sweep-absent k [] h = refl
  sweep-absent k ((j, v) ∷ m) h = ground (arith, sweep-absent k m)

  sweep-IsMap : (m : List (String × V)) → IsMap m → IsMap (sweep is_over m)
  sweep-IsMap [] h = tt
  sweep-IsMap ((k, v) ∷ m) h = elim (Bool-cases (is_over v)) [
    | inl e ↦ rw e (sweep-IsMap m h.1)
    | inr e ↦ rw e (sweep-absent k m h.0, sweep-IsMap m h.1)
  ]

  pub lookup-sweep :
      (k : String) (v : V) (m : List (String × V))
      → lookup k m ≡ some v
      → is_over v ≡ false
      → lookup k (sweep is_over m) ≡ some v
  lookup-sweep k v [] h e = absurd (ground (arith, h))
  lookup-sweep k v ((j, w) ∷ m) h e = elim (Bool-cases (str_eq j k)) [
    | inl q ↦
        let same : w ≡ v = ground (arith, h, q) in
        rw (subst (λ x. is_over x ≡ false) (sym same) e) (ground (arith, q, same))
    | inr q ↦
        let rest = lookup-sweep k v m (ground (arith, h, q)) e in
        elim (Bool-cases (is_over w)) [ inl o ↦ rw o rest | inr o ↦ rw (o, q) rest ]
  ]

pub record IsBounded (s : Admin) : Type 0 where
  pub sessions_map : IsMap s.sessions
  pub attempts_map : IsMap s.attempts
  pub few_sessions : length s.sessions ≤ max_sessions
  pub few_attempts : length s.attempts ≤ max_addresses

abbrev pub empty_admin : Admin
empty_admin = record { sessions = []; attempts = [] }

module _ (web : Web) where
  begin_login-IsBounded :
      (secret : String) (now : ℕ) (r : Request) (s : Admin)
      → IsBounded s
      → IsBounded (begin_login web secret now r s).1
  unfolding begin_login
  begin_login-IsBounded secret now r s v =
      let swept = sweep (is_past now) s.attempts in
      let map = sweep-IsMap (is_past now) s.attempts v.attempts_map in
      let few : length swept ≤ max_addresses =
        omega (arith, length-sweep-le (is_past now) s.attempts, v.few_attempts) in
      let ip = address web r in
      elim (Bool-cases (str_eq secret "" || not (same_origin web r))) [
        | inl e ↦ rw e v
        | inr e ↦ elim (Bool-cases (is_blocked now (rate_of web ip swept) swept)) [
          | inl b ↦
              rw (e, b)
                (record {
                  sessions_map = v.sessions_map;
                  attempts_map = map;
                  few_sessions = v.few_sessions;
                  few_attempts = few;
                })
          | inr b ↦
              rw (e, b)
                (record {
                  sessions_map = v.sessions_map;
                  attempts_map = insert-IsMap ip (next_rate now (rate_of web ip swept)) swept map;
                  few_sessions = v.few_sessions;
                  few_attempts = room ip (next_rate now (rate_of web ip swept)) swept few b;
                })
        ]
      ]
    where
      room :
          (ip : String) (rate : LoginAttempts) (swept : List (String × LoginAttempts))
          → length swept ≤ max_addresses
          → is_blocked now (rate_of web ip swept) swept ≡ false
          → length (insert ip rate swept) ≤ max_addresses
      room ip rate swept few b = elim (Option-cases (lookup ip swept)) [
        | inl e ↦ ground (arith, e, b, few, length-insert ip rate swept)
        | inr (old, e) ↦ ground (arith, e, few, length-insert ip rate swept)
      ]

  grant-IsBounded :
      (now : ℕ) (ip token csrf : String) (s : Admin)
      → IsBounded s
      → IsBounded (grant web now ip token csrf s).1
  grant-IsBounded now ip token csrf s v =
      let kept = sweep (is_expired now) s.sessions in
      let map = sweep-IsMap (is_expired now) s.sessions v.sessions_map in
      let value : AdminSession = record { expires = now + session_time; csrf = csrf } in
      elim (Bool-cases (leb max_sessions (length kept))) [
        | inl e ↦ rw e (record {
          sessions_map = map;
          attempts_map = v.attempts_map;
          few_sessions = omega (arith, length-sweep-le (is_expired now) s.sessions, v.few_sessions);
          few_attempts = v.few_attempts;
        })
        | inr e ↦ rw e (record {
          sessions_map = insert-IsMap (web.hash token) value kept map;
          attempts_map = remove-IsMap ip s.attempts v.attempts_map;
          few_sessions = ground (arith, e, length-insert (web.hash token) value kept);
          few_attempts = omega (arith, length-remove-le ip s.attempts, v.few_attempts);
        })
      ]

  without_session :
      (key : String) (s : Admin)
      → IsBounded s
      → IsBounded (record s { sessions = remove key s.sessions })
  without_session key s v = record {
    sessions_map = remove-IsMap key s.sessions v.sessions_map;
    attempts_map = v.attempts_map;
    few_sessions = omega (arith, length-remove-le key s.sessions, v.few_sessions);
    few_attempts = v.few_attempts;
  }

  by_session-IsBounded :
      (now : ℕ) (csrf : Bool) (r : Request) (key : String) (found : Option AdminSession) (s : Admin)
      → IsBounded s
      → IsBounded (by_session web now csrf r key found s).1
  by_session-IsBounded now csrf r key none s v = without_session key s v
  by_session-IsBounded now csrf r key (some x) s v = elim (Bool-cases (is_expired now x)) [
    | inl e ↦ rw e (without_session key s v)
    | inr e ↦ rw e v
  ]

  by_cookie-IsBounded :
      (now : ℕ) (csrf : Bool) (r : Request) (cookie : Option String) (s : Admin)
      → IsBounded s
      → IsBounded (by_cookie web now csrf r cookie s).1
  by_cookie-IsBounded now csrf r none s v = v
  by_cookie-IsBounded now csrf r (some cookie) s v = elim (Bool-cases (same_origin web r)) [
    | inr e ↦ rw e v
    | inl e ↦ rw e (
        by_session-IsBounded now csrf r (web.hash cookie) (lookup (web.hash cookie) s.sessions) s v)
  ]

  admin_credentials-IsBounded :
      (secret : String) (now : ℕ) (r : Request) (csrf : Bool) (s : Admin)
      → IsBounded s
      → IsBounded (admin_credentials web secret now r csrf s).1
  unfolding admin_credentials
  admin_credentials-IsBounded secret now r csrf s v = elim (Bool-cases (str_eq secret "")) [
    | inl e ↦ rw e v
    | inr e ↦ elim (Bool-cases (is_bearer web secret r.authorization)) [
      | inl b ↦ rw (e, b) v
      | inr b ↦ rw (e, b) (by_cookie-IsBounded now csrf r r.cookie s v)
    ]
  ]

  finish_login-IsBounded :
      (secret : String) (now : ℕ) (ip token csrf : String) (body : Result ℕ String) (s : Admin)
      → IsBounded s
      → IsBounded (finish_login web secret now ip token csrf body s).1
  finish_login-IsBounded secret now ip token csrf (err status) s v = v
  finish_login-IsBounded secret now ip token csrf (ok given) s v =
      elim (Bool-cases (equal_secret web given secret)) [
        | inr e ↦ rw e v
        | inl e ↦ rw e (grant-IsBounded now ip token csrf s v)
      ]

  admin_logout-IsBounded :
      (r : Request) (s : Admin) → IsBounded s → IsBounded (admin_logout web r s)
  unfolding admin_logout
  admin_logout-IsBounded r s v = elim (Option-cases r.cookie) [
    | inl e ↦ rw e v
    | inr (cookie, e) ↦ rw e (without_session (web.hash cookie) s v)
  ]

  -- What the handlers do between two acquisitions of the lock, in any order: a login is two steps.
  pub data AdminStep (secret : String) (s s' : Admin) : Type 0 where
    begins :
        (now : ℕ) (r : Request) → (begin_login web secret now r s).1 ≡ s' → AdminStep secret s s'
    finishes :
        (now : ℕ) (ip token csrf : String) (body : Result ℕ String)
        → (finish_login web secret now ip token csrf body s).1 ≡ s'
        → AdminStep secret s s'
    asks :
        (now : ℕ) (r : Request) (csrf : Bool)
        → (admin_credentials web secret now r csrf s).1 ≡ s'
        → AdminStep secret s s'
    leaves : (r : Request) → admin_logout web r s ≡ s' → AdminStep secret s s'

  pub data AdminReach (secret : String) (first : Admin) : Admin → Type 0 where
    here : AdminReach secret first first
    next :
        {s s' : Admin}
        → AdminReach secret first s
        → AdminStep secret s s'
        → AdminReach secret first s'

  AdminStep-IsBounded :
      (secret : String) (s s' : Admin) → AdminStep secret s s' → IsBounded s → IsBounded s'
  AdminStep-IsBounded secret s s' (begins now r h) v =
      subst IsBounded h (begin_login-IsBounded secret now r s v)
  AdminStep-IsBounded secret s s' (finishes now ip token csrf body h) v =
      subst IsBounded h (finish_login-IsBounded secret now ip token csrf body s v)
  AdminStep-IsBounded secret s s' (asks now r csrf h) v =
      subst IsBounded h (admin_credentials-IsBounded secret now r csrf s v)
  AdminStep-IsBounded secret s s' (leaves r h) v = subst IsBounded h (admin_logout-IsBounded r s v)

  -- However logins, checks of credentials and logouts interleave, and whatever the requests say, there
  -- are never more than 128 administrator sessions nor counters for more than 1,000 addresses, and each
  -- key stands once.
  pub AdminReach-IsBounded :
      (secret : String) {first s : Admin}
      → IsBounded first
      → AdminReach secret first s
      → IsBounded s
  AdminReach-IsBounded secret v here = v
  AdminReach-IsBounded secret v (next {s = a} {s' = b} r t) =
      AdminStep-IsBounded secret a b t (AdminReach-IsBounded secret v r)
