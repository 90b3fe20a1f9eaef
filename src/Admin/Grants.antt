-- ===== src/Admin/Grants.antt =====
-- What a login grants, and for how long.
use wppconnect_server_go.Prelude.{
  ℕ, ◌+◌, String, ◌≡◌, refl, sym, ap, ◌∙◌, inl, inr, Bool, true, false, not, ◌&&◌, Option-cases,
  none, some, arith, ltb, leb, str_eq, eq_refl, Bool-cases, length, lookup, remove,
  lookup-insert_same, lookup-remove, Result, ok, err,
}
use wppconnect_server_go.Admin.{
  Admin, Request, Web, session_time, max_sessions, sweep, is_expired, logged_in, equal_secret,
  same_origin, is_bearer, by_cookie, admin_credentials, address, begin_login, finish_login,
  admin_login, admin_logout,
}

module _ (web : Web) where
  -- A login that succeeds: the token has the hash of the secret, and its session is in the map.
  record Granted (secret : String) (now : ℕ) (token csrf : String) (body : Result ℕ String) (e : ℕ)
      (s : Admin) : Type 0 where
    given : String
    body_is : body ≡ ok given
    right : str_eq (web.hash given) (web.hash secret) ≡ true
    time_is : e ≡ now + session_time
    stored : lookup (web.hash token) s.sessions ≡ some (record { expires = e; csrf = csrf })

  finish_ok :
      (secret : String) (now : ℕ) (ip token csrf : String) (body : Result ℕ String) (s : Admin)
      (t c : String) (e : ℕ)
      → (finish_login web secret now ip token csrf body s).0 ≡ logged_in t c e
      → (t ≡ token)
        × (c ≡ csrf)
        × Granted secret now token csrf body e (finish_login web secret now ip token csrf body s).1
  unfolding equal_secret
  finish_ok secret now ip token csrf (err status) s t c e h = absurd (ground (arith, h))
  finish_ok secret now ip token csrf (ok given) s t c e h =
      elim (Bool-cases (str_eq (web.hash given) (web.hash secret))) [
        | inr q ↦ absurd (ground (arith, q, h))
        | inl q ↦
            let kept = sweep (is_expired now) s.sessions in
            elim (Bool-cases (leb max_sessions (length kept))) [
              | inl f ↦ absurd (ground (arith, q, f, h))
              | inr f ↦
                  let time : e ≡ now + session_time = ground (arith, q, f, h) in
                  (
                    ground (arith, q, f, h),
                    ground (arith, q, f, h),
                    record {
                      given = given;
                      body_is = refl;
                      right = q;
                      time_is = time;
                      stored =
                          rw (q, f, time)
                            (lookup-insert_same (web.hash token)
                              (record { expires = now + session_time; csrf = csrf }) kept);
                    },
                  )
            ]
      ]

  with_cookie :
      (secret : String) (later : ℕ) (check : Bool) (r : Request) (token csrf : String) (e : ℕ)
      (s : Admin)
      → str_eq secret "" ≡ false
      → lookup (web.hash token) s.sessions ≡ some (record { expires = e; csrf = csrf })
      → is_bearer web secret r.authorization ≡ false
      → r.cookie ≡ some token
      → same_origin web r ≡ true
      → (admin_credentials web secret later r check s).0
        ≡ (leb later e && not (check && not (str_eq (web.hash csrf) (web.hash r.csrf))))
  unfolding admin_credentials equal_secret
  with_cookie secret later check r token csrf e s n h b c o = elim (Bool-cases (ltb e later)) [
    | inl t ↦ rw (n, b, c, by_cookie, o, h, t) (ground (arith, t))
    | inr t ↦ rw (n, b, c, by_cookie, o, h, t) (ground (arith, t))
  ]

  logged_out :
      (secret : String) (later : ℕ) (check : Bool) (r : Request) (token : String) (s : Admin)
      → str_eq secret "" ≡ false
      → is_bearer web secret r.authorization ≡ false
      → r.cookie ≡ some token
      → same_origin web r ≡ true
      → (admin_credentials web secret later r check (admin_logout web r s)).0 ≡ false
  unfolding admin_credentials admin_logout
  logged_out secret later check r token s n b c o =
      let key = web.hash token in
      let none_left : lookup key (remove key s.sessions) ≡ none =
        ground (arith, lookup-remove key key s.sessions, eq_refl key) in
      rw (n, b, c, by_cookie, o, none_left) refl

  begins_with_secret :
      (secret : String) (now : ℕ) (r : Request) (s : Admin)
      → (begin_login web secret now r s).0 ≡ none
      → str_eq secret "" ≡ false
  unfolding begin_login
  begins_with_secret secret now r s h = ground arith

  -- A login that succeeds was given the administrator's token, and its cookie then opens the
  -- administration to requests of the same origin: until eight hours after the login and no longer, and,
  -- where the method needs it, only with the CSRF token that the login returned. After a logout with
  -- this cookie it opens nothing.
  pub login_grants :
      (secret : String) (now later : ℕ) (token csrf t c : String) (e : ℕ) (login r : Request)
      (check : Bool) (s : Admin)
      → (admin_login web secret now token csrf login s).0 ≡ logged_in t c e
      → is_bearer web secret r.authorization ≡ false
      → r.cookie ≡ some t
      → same_origin web r ≡ true
      → let s' = (admin_login web secret now token csrf login s).1 in
        ((given : String) × (login.token ≡ ok given)
          × (str_eq (web.hash given) (web.hash secret) ≡ true))
        × ((admin_credentials web secret later r check s').0 ≡ (
            leb later (now + session_time)
            && not (check && not (str_eq (web.hash c) (web.hash r.csrf)))))
        × ((admin_credentials web secret later r check (admin_logout web r s')).0 ≡ false)
  unfolding admin_login
  login_grants secret now later token csrf t c e login r check s h b k o =
      let begun = begin_login web secret now login s in
      elim (Option-cases begun.0) [
        | inr (status, p) ↦ absurd (ground (arith, h, p))
        | inl p ↦
            let (t_is, c_is, g) =
              finish_ok secret now (address web login) token csrf login.token begun.1 t c e
                (ground (arith, h, p)) in
            let nonempty = begins_with_secret secret now login s p in
            rw p (
              (g.given, g.body_is, g.right),
              with_cookie secret later check r token c e
                    (finish_login web secret now (address web login) token csrf login.token
                      begun.1).1
                    nonempty
                    (g.stored ∙ ap (λ x. some (record { expires = e; csrf = x })) (sym c_is)) b
                    (k ∙ ap some t_is) o
                  ∙ ap
                      (λ x.
                        leb later x && not (check && not (str_eq (web.hash c) (web.hash r.csrf))))
                      g.time_is,
              gone
                  (finish_login web secret now (address web login) token csrf login.token begun.1).1
                  nonempty,
            )
      ]
    where
      gone :
          (x : Admin)
          → str_eq secret "" ≡ false
          → (admin_credentials web secret later r check (admin_logout web r x)).0 ≡ false
      gone x n = logged_out secret later check r t x n b k o
