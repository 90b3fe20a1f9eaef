-- ===== src/Sessions/Lasting.antt =====
-- internal/session: closing or logging out lasts over a restart.
use wppconnect_server_go.Prelude.{
  String, ◌≡◌, ◌∙◌, refl, sym, ap, subst, inl, inr, Bool, true, false, not, none, List, arith,
  eq_refl, lookup, lookup-remove, ok, Option-cases, Result-cases, lookup-insert_same, guard, ◌>>◌,
}
use wppconnect_server_go.Sessions.{Record, Status, closed, Manager, stopping, Outside, valid_name}
use wppconnect_server_go.Sessions.Records.{read_record, write_record, write_ok}
use wppconnect_server_go.Sessions.Lifecycle.{finish_live, close}
use wppconnect_server_go.Sessions.Saves.{IsCodec, read-name}
use wppconnect_server_go.Sessions.Restore.{Turn, Restored, restore_list}
use wppconnect_server_go.Sessions.{invalid_name}
use wppconnect_server_go.Sessions.Lifecycle.{ended, logout}
use wppconnect_server_go.Sessions.Resume.{IsEnded, restore_honors}

module _ (out : Outside) where
  write-IsEnded :
      (io : Bool) (name : String) (r : Record) (files files' : List (String × String))
      → IsCodec out
      → write_record out io r files ≡ ok files'
      → r.name ≡ name
      → r.restore ≡ false
      → IsEnded out name files'
  write-IsEnded io name r files files' law w n e =
      let (b, v, c, f) = write_ok out io r files files' w in
      subst (λ x. IsEnded out x files') n
        (subst (λ x. IsEnded out r.name x) (sym f)
          (r, b, lookup-insert_same r.name b files, law r b c, inl e))

  finish_live-gone :
      (fails : Bool) (st : Status) (name : String) (m : Manager)
      → ((finish_live out fails st name m).1.files ≡ m.files)
        × (lookup name (finish_live out fails st name m).1.sessions ≡ none)
  finish_live-gone fails st name m = elim (Option-cases (lookup name m.sessions)) [
    | inl l ↦ (ground (arith, l), ground (arith, l))
    | inr (h, l) ↦
        (ground (arith, l), ground (arith, l, lookup-remove name name m.sessions, eq_refl name))
  ]

  close_ends :
      (rf wf ef : Bool) (name : String) (m : Manager)
      → IsCodec out
      → (close out rf wf ef name m).0 ≡ ok tt
      → IsEnded out name (close out rf wf ef name m).1.files
        × (lookup name (close out rf wf ef name m).1.sessions ≡ none)
  unfolding close
  close_ends rf wf ef name m law h =
      elim (Result-cases
        (guard (valid_name out name) invalid_name >> guard (not m.stopping) stopping)) [
          | inr (e, a) ↦ absurd (ground (arith, a, h))
          | inl (x, a) ↦ elim (Result-cases (read_record out rf name m.files)) [
            | inr (e, p) ↦ absurd (ground (arith, a, p, h))
            | inl (r, p) ↦
                elim (Result-cases (write_record out wf (record r { restore = false }) m.files)) [
                  | inr (e, w) ↦ absurd (ground (arith, a, p, w, h))
                  | inl (files', w) ↦
                      let q : (close out rf wf ef name m).1
                          ≡ (finish_live out ef closed name (record m { files = files' })).1 =
                        ground (arith, a, p, w) in
                      let g = finish_live-gone ef closed name (record m { files = files' }) in
                      (
                        subst (λ x. IsEnded out name x)
                            (sym (ap (λ (x : Manager). x.files) q ∙ g.0))
                            (write-IsEnded wf name (record r { restore = false }) m.files files' law
                              w (read-name out rf name m.files r p) refl),
                        ap (λ (x : Manager). lookup name x.sessions) q ∙ g.1,
                      )
                ]
          ]
        ]

  -- A session that `Close` ended without an error is not live, and no later restoration, over
  -- whichever sessions and whatever fails for them, brings it back, as long as json.Unmarshal reads
  -- back what json.Marshal wrote and the existence of the session files can be checked.
  pub close_lasts :
      (rf wf ef : Bool) (name : String) (m : Manager) (turn : String → Turn) (names : List String)
      (r : Restored)
      → IsCodec out
      → (close out rf wf ef name m).0 ≡ ok tt
      → ((j : String) → (turn j).stat_fails ≡ false)
      → lookup name (restore_list out turn names r (close out rf wf ef name m).1).1.sessions ≡ none
  close_lasts rf wf ef name m turn names r law h s =
      let (e, l) = close_ends rf wf ef name m law h in
      restore_honors out turn names r name (close out rf wf ef name m).1 s e ∙ l

  logout_ends :
      (li lf wf ef : Bool) (name : String) (m : Manager)
      → IsCodec out
      → (logout out li lf wf ef name m).0 ≡ ok tt
      → IsEnded out name (logout out li lf wf ef name m).1.files
        × (lookup name (logout out li lf wf ef name m).1.sessions ≡ none)
  unfolding logout
  logout_ends li lf wf ef name m law h = elim (Option-cases (lookup name m.sessions)) [
    | inl l ↦ absurd (ground (arith, l, h))
    | inr (g, l) ↦
        elim (Result-cases (write_record out wf (ended out true name g.settings) m.files)) [
          | inr (e, w) ↦ absurd (ground (arith, l, w, h))
          | inl (files', w) ↦ (
            subst (λ x. IsEnded out name x) (ground (arith, l, w, h))
                (write-IsEnded wf name (ended out true name g.settings) m.files files' law w refl
                  refl),
            ground (arith, l, w, h, lookup-remove name name m.sessions, eq_refl name),
          )
        ]
  ]

  -- A session that `Logout` ended without an error is not live, and no later restoration brings it
  -- back, whatever else fails, as long as json.Unmarshal reads back what json.Marshal wrote and the
  -- existence of the session files can be checked.
  pub logout_lasts :
      (li lf wf ef : Bool) (name : String) (m : Manager) (turn : String → Turn)
      (names : List String) (r : Restored)
      → IsCodec out
      → (logout out li lf wf ef name m).0 ≡ ok tt
      → ((j : String) → (turn j).stat_fails ≡ false)
      → lookup name (restore_list out turn names r (logout out li lf wf ef name m).1).1.sessions
        ≡ none
  logout_lasts li lf wf ef name m turn names r law h s =
      let (e, l) = logout_ends li lf wf ef name m law h in
      restore_honors out turn names r name (logout out li lf wf ef name m).1 s e ∙ l
