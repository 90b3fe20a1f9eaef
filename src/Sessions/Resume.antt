-- ===== src/Sessions/Resume.antt =====
-- internal/session/restore.go: a restart brings back what was not ended.
use wppconnect_server_go.Prelude.{
  ◌+◌, ◌==◌, String, ◌≡◌, ◌∙◌, refl, sym, ap, subst, ◌⊎◌, inl, inr, Bool, true, false, not, ◌&&◌,
  ◌||◌, some, List, [], ◌∷◌, arith, leb, str_eq, eq_iff, is_some, length, lookup, lookup-insert,
  lookup-remove, insert, Result, ok, err, Bool-cases, Option-cases, Result-cases,
}
use wppconnect_server_go.Sessions.{Record, blank, Handle, Manager, Error, Outside}
use wppconnect_server_go.Sessions.Records.{read_record, write_record, write_ok}
use wppconnect_server_go.Sessions.Opening.{open_handle, open_ok}
use wppconnect_server_go.Sessions.Lifecycle.{
  Starting, connect, save_start, begin, open_new, start_locked, max_sessions,
}
use wppconnect_server_go.Sessions.Saves.{read-name}
use wppconnect_server_go.Sessions.Restore.{
  Turn, Restored, restore_one, restore_list, count_started, is_ended, add_turn, check_stop,
}

module _ (out : Outside) where
  -- Neither the session nor its file are touched.
  record Untouched (name : String) (m m' : Manager) : Type 0 where
    session : lookup name m'.sessions ≡ lookup name m.sessions
    file : lookup name m'.files ≡ lookup name m.files

  untouched : (name : String) (m : Manager) → Untouched name m m
  untouched name m = record { session = refl; file = refl }

  connect-Untouched :
      (s : Starting) (h : Handle) (name b : String) (m : Manager)
      → str_eq h.name name ≡ false
      → Untouched name m
          (connect out s h (record m {
            opened = m.opened + 1;
            files = insert h.name b m.files;
            sessions = insert h.name h m.sessions;
          })).1
  connect-Untouched s h name b m e = record {
    session = ground (
      arith,
      e,
      lookup-insert h.name name h m.sessions,
      lookup-remove h.name name (insert h.name h m.sessions),
    );
    file = ground (arith, e, lookup-insert h.name name b m.files);
  }

  begin-Untouched :
      (s : Starting) (h : Handle) (name : String) (m : Manager)
      → str_eq h.name name ≡ false
      → Untouched name m (begin out s h (record m { opened = m.opened + 1 })).1
  begin-Untouched s h name m q = elim (Result-cases (read_record out s.read_fails h.name m.files)) [
    | inr (e, p) ↦ rw (p, begin) (record { session = refl; file = refl })
    | inl (r, p) ↦
        elim (Result-cases
          (write_record out s.write_fails (record r { restore = true; revoked = false }) m.files)) [
            | inr (e, w) ↦ rw (p, begin, save_start, w) (record { session = refl; file = refl })
            | inl (files', w) ↦
                let (b, v, e, f) =
                  write_ok out s.write_fails (record r { restore = true; revoked = false }) m.files
                    files' w in
                let f' : files' ≡ insert h.name b m.files =
                  f
                  ∙ ap (λ x. insert x b m.files) (read-name out s.read_fails h.name m.files r p) in
                rw (p, begin, save_start, w, f') (connect-Untouched s h name b m q)
          ]
  ]

  open_new-Untouched :
      (s : Starting) (j name : String) (m : Manager)
      → str_eq j name ≡ false
      → Untouched name m (open_new out s j m).1
  open_new-Untouched s j name m q =
      elim (Result-cases (open_handle out s.answers m.opened j m.files).0) [
        | inr (e, p) ↦ rw (p, open_new) (untouched name m)
        | inl (h, p) ↦
            let o = open_ok out s.answers m.opened j m.files h p in
            rw (p, open_new)
              (begin-Untouched s h name m (ap (λ (x : Handle). str_eq x.name name) o.handle_is ∙ q))
      ]

  start_locked-Untouched :
      (s : Starting) (j name : String) (m : Manager)
      → str_eq j name ≡ false
      → Untouched name m (start_locked out s j m).1
  unfolding start_locked
  start_locked-Untouched s j name m q = elim (Bool-cases (m.stopping || m.canceled)) [
    | inl a ↦ rw (start_locked, a) (untouched name m)
    | inr a ↦ elim (Bool-cases s.request_done) [
      | inl b ↦ rw (start_locked, a, b) (untouched name m)
      | inr b ↦ elim (Option-cases (lookup j m.sessions)) [
        | inr (h, l) ↦ rw (start_locked, a, b, l) (untouched name m)
        | inl l ↦ elim (Bool-cases (leb max_sessions (length m.sessions))) [
          | inl c ↦ rw (start_locked, a, b, l, c) (untouched name m)
          | inr c ↦ rw (start_locked, a, b, l, c) (open_new-Untouched s j name m q)
        ]
      ]
    ]
  ]

  count_started-state : (r : Result Error Handle × Manager) → (count_started out r).1 ≡ r.1
  count_started-state (ok h, m) = refl
  count_started-state (err e, m) = refl

  -- What a turn for one session does to the manager: nothing, or a start of that session.
  restore_one-cases :
      (t : Turn) (j : String) (m : Manager)
      → ((restore_one out t j m).1 ≡ m)
        ⊎ ((restore_one out t j m).1 ≡ (start_locked out t.starting j m).1)
  unfolding restore_one
  restore_one-cases t j m = elim (Result-cases (read_record out t.read_fails j m.files)) [
    | inr (e, p) ↦ inl (ground (arith, p))
    | inl (r, p) ↦ elim (Option-cases t.all_devices) [
      | inl d ↦ inl (ground (arith, p, d))
      | inr (n, d) ↦
          elim (Bool-cases (
            ((is_some (lookup j m.files) && not t.stat_fails) && is_ended out r)
            || t.container_fails
            || t.close_fails
            || n == 0)) [
              | inl x ↦ inl (ground (arith, p, d, x))
              | inr x ↦
                  inr
                    (ground (arith, p, d, x, count_started-state (start_locked out t.starting j m)))
            ]
    ]
  ]

  -- The session is marked as ended in its file.
  abbrev pub IsEnded : String → List (String × String) → Type 0
  IsEnded name files =
      (r : Record) × (b : String) × (lookup name files ≡ some b)
      × (Outside.decode out (blank name) b ≡ some r)
      × ((r.restore ≡ false) ⊎ (r.revoked ≡ true))

  restore_one-skips :
      (t : Turn) (name : String) (m : Manager)
      → t.stat_fails ≡ false
      → IsEnded name m.files
      → (restore_one out t name m).1 ≡ m
  unfolding restore_one read_record
  restore_one-skips t name m s (r, b, l, d, inl e) = ground (arith, s, l, d, e)
  restore_one-skips t name m s (r, b, l, d, inr e) = ground (arith, s, l, d, e)

  restore_one-Untouched :
      (t : Turn) (j name : String) (m : Manager)
      → t.stat_fails ≡ false
      → IsEnded name m.files
      → Untouched name m (restore_one out t j m).1
  restore_one-Untouched t j name m s e = elim (Bool-cases (str_eq j name)) [
    | inl q ↦
        subst (Untouched name m)
          (sym (
            subst (λ x. (restore_one out t x m).1 ≡ m) (sym ((eq_iff j name).0 q))
              (restore_one-skips t name m s e)))
          (untouched name m)
    | inr q ↦ elim (restore_one-cases t j m) [
      | inl x ↦ subst (Untouched name m) (sym x) (untouched name m)
      | inr x ↦ subst (Untouched name m) (sym x) (start_locked-Untouched t.starting j name m q)
    ]
  ]

  stops :
      (name : String) (a b : Bool) (r : Restored) (m : Manager) (rest : Restored × Manager)
      → lookup name rest.1.sessions ≡ lookup name m.sessions
      → lookup name (check_stop out a b r m rest).1.sessions ≡ lookup name m.sessions
  stops name true b r m rest h = refl
  stops name false true r m rest h = refl
  stops name false false r m rest h = h

  -- Restoring honours what was recorded: a session whose file says that it is not to be restored, or
  -- that it was revoked, is not started, whichever sessions are in the directory and whatever fails
  -- for them, as long as the file's existence can be checked.
  pub restore_honors :
      (turn : String → Turn) (names : List String) (r : Restored) (name : String) (m : Manager)
      → ((j : String) → (turn j).stat_fails ≡ false)
      → IsEnded name m.files
      → lookup name (restore_list out turn names r m).1.sessions ≡ lookup name m.sessions
  unfolding restore_list
  restore_honors turn [] r name m s e = refl
  restore_honors turn (j ∷ names) r name m s e =
      let one = restore_one out (turn j) j m in
      let u = restore_one-Untouched (turn j) j name m (s j) e in
      let (x, b, l, d, i) = e in
      let rest =
        restore_honors turn names (add_turn out j one.0 r) name one.1 s (x, b, u.file ∙ l, d, i) in
      stops name (turn j).request_done m.stopping r m
        (restore_list out turn names (add_turn out j one.0 r) one.1) (rest ∙ u.session)
