-- ===== src/Sessions/Starts.antt =====
-- internal/session/manager.go, Start: every way it ends keeps the manager sound.
use wppconnect_server_go.Prelude.{
  ◌+◌, ◌<◌, String, ◌≡◌, ◌∙◌, refl, sym, ap, subst, ◌⊎◌, inl, inr, Bool, true, false, not, ◌&&◌,
  ◌||◌, none, List, arith, leb, length, lookup, insert, ok, Bool-cases, Option-cases, Result-cases,
  lookup-insert_same,
}
use wppconnect_server_go.Sessions.{Record, Handle, Manager, Outside}
use wppconnect_server_go.Sessions.Records.{read_record, write_record}
use wppconnect_server_go.Sessions.Opening.{open_handle, open_ok}
use wppconnect_server_go.Sessions.Lifecycle.{
  give_up, Starting, connect, save_start, begin, open_new, start_locked, max_sessions,
}
use wppconnect_server_go.Sessions.Invariant.{IsIntended, IsSound, SameBut, SameBut-refl}
use wppconnect_server_go.Sessions.Steps.{retire-IsSound, discard-IsSound, add-IsSound}
use wppconnect_server_go.Sessions.Saves.{read-name, read_twice, write-SameBut, write-IsIntended}

module _ (out : Outside) where
  connect_ends :
      (s : Starting) (h : Handle) (m : Manager)
      → ((connect out s h m).1 ≡ give_up h.name h m) ⊎ ((connect out s h m).1 ≡ m)
  connect_ends s h m = elim (Bool-cases (not h.paired && s.qr_fails)) [
    | inl a ↦ inl (simp a refl)
    | inr a ↦ elim (Bool-cases s.connect_fails) [
      | inl b ↦ inl (simp (a, b) refl)
      | inr b ↦ elim (Bool-cases s.life_done) [
        | inl c ↦ inl (simp (a, b, c) refl)
        | inr c ↦ inr (simp (a, b, c) refl)
      ]
    ]
  ]

  -- `Start` of a session that is not live, once its stores are open.
  connect-IsSound :
      (s : Starting) (h : Handle) (files' : List (String × String)) (m : Manager)
      → IsSound out m
      → lookup h.name m.sessions ≡ none
      → length m.sessions < max_sessions
      → h.key ≡ m.opened
      → h.closing ≡ false
      → SameBut h.name m.files files'
      → IsIntended out files' h
      → IsSound out
          (connect out s h (record m {
            opened = m.opened + 1;
            files = files';
            sessions = insert h.name h m.sessions;
          })).1
  connect-IsSound s h files' m g l room k c same i =
      let m' = record m {
        opened = m.opened + 1;
        files = files';
        sessions = insert h.name h m.sessions;
      } in
      let live = add-IsSound out h files' m g l room k c same i in
      elim (connect_ends s h m') [
        | inr e ↦ subst (IsSound out) (sym e) live
        | inl e ↦ subst (IsSound out) (sym e) (
            retire-IsSound out h.name h h files' m' live (lookup-insert_same h.name h m.sessions)
              refl (SameBut-refl h.name files'))
      ]

  begin-IsSound :
      (s : Starting) (io : Bool) (old : Record) (h : Handle) (m : Manager)
      → IsSound out m
      → lookup h.name m.sessions ≡ none
      → length m.sessions < max_sessions
      → h.key ≡ m.opened
      → h.closing ≡ false
      → read_record out io h.name m.files ≡ ok old
      → old.settings ≡ h.settings
      → IsSound out (begin out s h (record m { opened = m.opened + 1 })).1
  begin-IsSound s io old h m g l room k c q t =
      elim (Result-cases (read_record out s.read_fails h.name m.files)) [
        | inr (e, p) ↦ rw (p, begin) (discard-IsSound out h m g k)
        | inl (r, p) ↦
            elim (Result-cases (
              write_record out s.write_fails (record r { restore = true; revoked = false })
                m.files)) [
                  | inr (e, w) ↦ rw (p, begin, save_start, w) (discard-IsSound out h m g k)
                  | inl (files', w) ↦
                      let n = read-name out s.read_fails h.name m.files r p in
                      let same = read_twice out s.read_fails io h.name m.files r old p q in
                      rw (p, begin, save_start, w)
                        (connect-IsSound s h files' m g l room k c
                          (write-SameBut out s.write_fails h.name
                            (record r { restore = true; revoked = false }) m.files files' w n)
                          (write-IsIntended out s.write_fails
                            (record r { restore = true; revoked = false }) m.files files' h w refl
                            refl n (ap (λ (x : Record). x.settings) same ∙ t)))
                ]
      ]

  open_new-IsSound :
      (s : Starting) (name : String) (m : Manager)
      → IsSound out m
      → lookup name m.sessions ≡ none
      → length m.sessions < max_sessions
      → IsSound out (open_new out s name m).1
  open_new-IsSound s name m g l room =
      elim (Result-cases (open_handle out s.answers m.opened name m.files).0) [
        | inr (e, p) ↦ rw (p, open_new) g
        | inl (h, p) ↦
            let o = open_ok out s.answers m.opened name m.files h p in
            let n : h.name ≡ name = ap (λ (x : Handle). x.name) o.handle_is in
            rw (p, open_new)
              (begin-IsSound s s.answers.read_fails o.record_read h m g
                (subst (λ x. lookup x m.sessions ≡ none) (sym n) l) room
                (ap (λ (x : Handle). x.key) o.handle_is)
                (ap (λ (x : Handle). x.closing) o.handle_is)
                (subst (λ x. read_record out s.answers.read_fails x m.files ≡ ok o.record_read)
                  (sym n) o.was_read)
                (ap (λ (x : Handle). x.settings) (sym o.handle_is)))
      ]

  pub start-IsSound :
      (s : Starting) (name : String) (m : Manager)
      → IsSound out m
      → IsSound out (start_locked out s name m).1
  unfolding start_locked
  start-IsSound s name m g = elim (Bool-cases (m.stopping || m.canceled)) [
    | inl a ↦ simp a g
    | inr a ↦ elim (Bool-cases s.request_done) [
      | inl b ↦ simp (a, b) g
      | inr b ↦ elim (Option-cases (lookup name m.sessions)) [
        | inr (h, l) ↦ simp (a, b, l) g
        | inl l ↦ elim (Bool-cases (leb max_sessions (length m.sessions))) [
          | inl c ↦ simp (a, b, l, c) g
          | inr c ↦ simp (a, b, l, c) (open_new-IsSound s name m g l (ground (arith, c)))
        ]
      ]
    ]
  ]
