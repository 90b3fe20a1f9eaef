-- ===== src/Admin/Attempts.antt =====
-- The limit on the login attempts of one address.
use wppconnect_server_go.Prelude.{
  ℕ, ◌+◌, ◌≤◌, ◌<◌, String, ◌≡◌, sym, ap, subst, ◌∙◌, inl, inr, true, false, not, ◌||◌, Option,
  none, some, List, [], ◌∷◌, arith, leb, str_eq, eq_iff, if◌then◌else◌, Bool-cases, length, lookup,
  insert, lookup-insert_same, lookup-insert_other, lookup-remove_other, All,
}
use wppconnect_server_go.Admin.{
  LoginAttempts, Admin, Request, Web, max_sessions, max_failures, sweep, is_past, is_expired,
  or_new, is_blocked, next_rate, same_origin, address, grant, rate_of, begin_login,
}
use wppconnect_server_go.Admin.Limits.{lookup-sweep}

-- What changes the counters: the first part of a login, and the second part of one with the right token.
pub data Visit : Type 0 where
  attempt : (now : ℕ) → Request → Visit
  entry : (now : ℕ) → (ip token csrf : String) → Visit

module _ (web : Web) (secret : String) where
  abbrev pub visit : Visit → Admin → Admin
  visit (attempt now r) s = (begin_login web secret now r s).1
  visit (entry now ip token csrf) s = (grant web now ip token csrf s).1

  abbrev pub goes_on : Option ℕ → ℕ
  goes_on none = 1
  goes_on (some status) = 0

  -- 1 where the visit is an attempt of the address whose token is then compared.
  abbrev pub compared : String → Visit → Admin → ℕ
  compared ip (attempt now r) s =
      if str_eq (address web r) ip then goes_on (begin_login web secret now r s).0 else 0
  compared ip (entry now other token csrf) s = 0

  abbrev pub comparisons : String → List Visit → Admin → ℕ
  comparisons ip [] s = 0
  comparisons ip (v ∷ vs) s = let rest = comparisons ip vs (visit v s) in compared ip v s + rest

  -- The attempt is before the end of the window, and the address has not given the right token.
  abbrev pub IsInside : ℕ → String → Visit → Type 0
  IsInside until ip (attempt now r) = now < until
  IsInside until ip (entry now other token csrf) = str_eq other ip ≡ false

  abbrev window : ℕ → ℕ → LoginAttempts
  window until k = record { until = until; failures = k }

  -- An attempt of the address is counted, or it is refused and the count is at the limit.
  own_attempt :
      (ip : String) (until k now : ℕ) (r : Request) (s : Admin)
      → lookup ip s.attempts ≡ some (window until k)
      → k ≤ max_failures
      → now < until
      → str_eq (address web r) ip ≡ true
      → (n : ℕ) × (n ≤ max_failures)
        × (lookup ip (begin_login web secret now r s).1.attempts ≡ some (window until n))
        × (goes_on (begin_login web secret now r s).0 + k ≤ n)
  unfolding begin_login
  own_attempt ip until k now r s h few inside same =
      let swept = sweep (is_past now) s.attempts in
      let ip_is : address web r ≡ ip = (eq_iff (address web r) ip).0 same in
      let there : lookup ip swept ≡ some (window until k) =
        lookup-sweep (is_past now) ip (window until k) s.attempts h (ground arith) in
      let rate_is : rate_of web (address web r) swept ≡ window until k =
        ap (λ a. or_new (lookup a swept)) ip_is ∙ ap or_new there in
      elim (Bool-cases (str_eq secret "" || not (same_origin web r))) [
        | inl e ↦ rw e (k, few, h, omega arith)
        | inr e ↦ elim (Bool-cases (is_blocked now (rate_of web (address web r) swept) swept)) [
          | inl b ↦ rw (e, b) (k, few, there, omega arith)
          | inr b ↦
              rw (e, b)
                (let next_is : next_rate now (rate_of web (address web r) swept)
                      ≡ window until (k + 1) =
                    ap (next_rate now) rate_is ∙ ground arith in
                  let low : k + 1 ≤ max_failures =
                    below swept (subst (λ x. is_blocked now x swept ≡ false) rate_is b) in
                  (
                    k + 1,
                    low,
                    subst
                          (λ a.
                            lookup ip
                              (insert a (next_rate now (rate_of web (address web r) swept)) swept)
                            ≡ some (next_rate now (rate_of web (address web r) swept)))
                          (sym ip_is)
                          (lookup-insert_same ip (next_rate now (rate_of web (address web r) swept))
                            swept)
                        ∙ ap some next_is,
                    omega arith,
                  ))
        ]
      ]
    where
      below :
          (swept : List (String × LoginAttempts))
          → is_blocked now (window until k) swept ≡ false
          → k + 1 ≤ max_failures
      below swept b = ground (arith, b, inside)

  -- The attempt of another address leaves the counter.
  other_attempt :
      (ip : String) (until k now : ℕ) (r : Request) (s : Admin)
      → lookup ip s.attempts ≡ some (window until k)
      → now < until
      → str_eq (address web r) ip ≡ false
      → lookup ip (begin_login web secret now r s).1.attempts ≡ some (window until k)
  unfolding begin_login
  other_attempt ip until k now r s h inside other =
      let swept = sweep (is_past now) s.attempts in
      let there : lookup ip swept ≡ some (window until k) =
        lookup-sweep (is_past now) ip (window until k) s.attempts h (ground arith) in
      elim (Bool-cases (str_eq secret "" || not (same_origin web r))) [
        | inl e ↦ rw e h
        | inr e ↦ elim (Bool-cases (is_blocked now (rate_of web (address web r) swept) swept)) [
          | inl b ↦ rw (e, b) there
          | inr b ↦
              rw (e, b)
                (lookup-insert_other (address web r) ip
                  (next_rate now (rate_of web (address web r) swept)) (window until k) swept other
                  there)
        ]
      ]

  other_entry :
      (ip : String) (w : LoginAttempts) (now : ℕ) (other token csrf : String) (s : Admin)
      → lookup ip s.attempts ≡ some w
      → str_eq other ip ≡ false
      → lookup ip (grant web now other token csrf s).1.attempts ≡ some w
  other_entry ip w now other token csrf s h apart =
      elim (Bool-cases (leb max_sessions (length (sweep (is_expired now) s.sessions)))) [
        | inl e ↦ rw e h
        | inr e ↦ rw e (lookup-remove_other other ip w s.attempts apart h)
      ]

  -- Within the window that an address's first attempt opens, however the logins of other addresses
  -- interleave, no more than 8 of its attempts get as far as the comparison of the token, those before
  -- counted, as long as none of them brought the right token.
  pub attempts_limited :
      (ip : String) (until k : ℕ) (visits : List Visit) (s : Admin)
      → lookup ip s.attempts ≡ some (record { until = until; failures = k })
      → k ≤ max_failures
      → All (IsInside until ip) visits
      → comparisons ip visits s + k ≤ max_failures
  attempts_limited ip until k [] s h few inside = omega arith
  attempts_limited ip until k (attempt now r ∷ vs) s h few inside =
      elim (Bool-cases (str_eq (address web r) ip)) [
        | inl e ↦
            let (n, low, there, more) = own_attempt ip until k now r s h few inside.0 e in
            let rest =
              attempts_limited ip until n vs (visit (attempt now r) s) there low inside.1 in
            rw e (omega (arith, rest, more))
        | inr e ↦
            let there = other_attempt ip until k now r s h inside.0 e in
            let rest =
              attempts_limited ip until k vs (visit (attempt now r) s) there few inside.1 in
            rw e (omega (arith, rest))
      ]
  attempts_limited ip until k (entry now other token csrf ∷ vs) s h few inside =
      let there = other_entry ip (window until k) now other token csrf s h inside.0 in
      omega (
        arith,
        attempts_limited ip until k vs (visit (entry now other token csrf) s) there few inside.1,
      )
