-- ===== src/Sessions/Ends.antt =====
-- internal/session/manager.go: Close, Logout and permanent keep the manager sound.
use wppconnect_server_go.Prelude.{
  ℕ, ◌==◌, String, ◌≡◌, refl, sym, subst, inl, inr, Bool, true, false, List, arith, lookup,
  Bool-cases, Option-cases, Result-cases,
}
use wppconnect_server_go.Sessions.{
  Settings, Status, closed, Handle, Manager, unpaired, Outside, valid_name,
}
use wppconnect_server_go.Sessions.Records.{read_record, write_record}
use wppconnect_server_go.Sessions.Lifecycle.{
  give_up, finish_live, close, save_end, ended, revoke, logout, permanent,
}
use wppconnect_server_go.Sessions.Invariant.{IsLive, IsSound, SameBut, SameBut-refl}
use wppconnect_server_go.Sessions.Steps.{retire-IsSound, file-IsSound}
use wppconnect_server_go.Sessions.Saves.{read-name, write-SameBut}

module _ (out : Outside) where
  finish_live-IsSound :
      (fails : Bool) (st : Status) (name : String) (files' : List (String × String)) (m : Manager)
      → IsSound out m
      → SameBut name m.files files'
      → IsSound out (finish_live out fails st name (record m { files = files' })).1
  finish_live-IsSound fails st name files' m g same = elim (Option-cases (lookup name m.sessions)) [
    | inl l ↦ rw (l, finish_live) (file-IsSound out name files' m g l same)
    | inr (h, l) ↦
        rw (l, finish_live)
          (retire-IsSound out name h (record h { status = st }) files' m g l refl same)
  ]

  save_end-IsSound :
      (fails : Bool) (name : String) (v : Settings) (revoked : Bool) (h h' : Handle) (m : Manager)
      → IsSound out m
      → IsLive m name h
      → h'.key ≡ h.key
      → IsSound out (give_up name h' (save_end out fails (ended out revoked name v) m).1)
  save_end-IsSound fails name v revoked h h' m g l k =
      elim (Result-cases (write_record out fails (ended out revoked name v) m.files)) [
        | inr (e, w) ↦
            rw (w, save_end)
              (retire-IsSound out name h h' m.files m g l k (SameBut-refl name m.files))
        | inl (files', w) ↦
            rw (w, save_end)
              (retire-IsSound out name h h' files' m g l k
                (write-SameBut out fails name (ended out revoked name v) m.files files' w refl))
      ]

  pub close-IsSound :
      (rf wf ef : Bool) (name : String) (m : Manager)
      → IsSound out m
      → IsSound out (close out rf wf ef name m).1
  unfolding close
  close-IsSound rf wf ef name m g = elim (Bool-cases (valid_name out name)) [
    | inr a ↦ rw (close, a) g
    | inl a ↦ elim (Bool-cases m.stopping) [
      | inl b ↦ rw (close, a, b) g
      | inr b ↦ elim (Result-cases (read_record out rf name m.files)) [
        | inr (e, p) ↦ rw (close, a, b, p) g
        | inl (r, p) ↦
            elim (Result-cases (write_record out wf (record r { restore = false }) m.files)) [
              | inr (e, w) ↦ rw (close, a, b, p, w) g
              | inl (files', w) ↦
                  rw (close, a, b, p, w)
                    (finish_live-IsSound ef closed name files' m g (
                      write-SameBut out wf name (record r { restore = false }) m.files files' w
                        (read-name out rf name m.files r p)))
            ]
      ]
    ]
  ]

  revoke-IsSound :
      (li lf wf ef : Bool) (name : String) (h : Handle) (m : Manager)
      → IsSound out m
      → IsLive m name h
      → IsSound out (revoke out li lf wf ef name h m).1
  revoke-IsSound false lf wf ef name h m g l = g
  revoke-IsSound true true wf ef name h m g l = g
  revoke-IsSound true false wf ef name h m g l =
      save_end-IsSound wf name h.settings true h (record h { status = unpaired }) m g l refl

  pub logout-IsSound :
      (li lf wf ef : Bool) (name : String) (m : Manager)
      → IsSound out m
      → IsSound out (logout out li lf wf ef name m).1
  unfolding logout
  logout-IsSound li lf wf ef name m g = elim (Bool-cases (valid_name out name)) [
    | inr a ↦ rw (a, logout) g
    | inl a ↦ elim (Bool-cases m.stopping) [
      | inl b ↦ subst (IsSound out) (sym (ground (arith, a, b))) g
      | inr b ↦ elim (Option-cases (lookup name m.sessions)) [
        | inl l ↦ rw (logout, a, b, l) g
        | inr (h, l) ↦ rw (logout, a, b, l) (revoke-IsSound li lf wf ef name h m g l)
      ]
    ]
  ]

  pub permanent-IsSound :
      (revoked wf : Bool) (name : String) (key : ℕ) (m : Manager)
      → IsSound out m
      → IsSound out (permanent out revoked wf name key m)
  unfolding permanent
  permanent-IsSound revoked wf name key m g = elim (Option-cases (lookup name m.sessions)) [
    | inl l ↦ rw (permanent, l) g
    | inr (h, l) ↦ elim (Bool-cases (h.key == key)) [
      | inr k ↦ rw (permanent, l, k) g
      | inl k ↦ rw (permanent, l, k) (save_end-IsSound wf name h.settings revoked h h m g l refl)
    ]
  ]
