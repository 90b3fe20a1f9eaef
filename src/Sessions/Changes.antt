-- ===== src/Sessions/Changes.antt =====
-- internal/session/manager.go and settings.go: events and settings keep the manager sound.
use wppconnect_server_go.Prelude.{
  String, ◌≡◌, ◌∙◌, refl, sym, ap, subst, inl, inr, Bool, not, List, arith, lookup, insert, ok,
  Option-cases, Result-cases, ◌>>◌, guard,
}
use wppconnect_server_go.Sessions.{
  invalid_name, stopping, Settings, Record, blank, Handle, Manager, Outside, valid_name,
}
use wppconnect_server_go.Sessions.Records.{read_record, validate_settings, write_record, read_ok}
use wppconnect_server_go.Sessions.Lifecycle.{
  ClientEvent, connects, disconnects, stops, qr_code_shown, qr_ends, observe, on_event,
  update_settings,
}
use wppconnect_server_go.Sessions.Invariant.{IsLive, IsSound, SameBut-refl}
use wppconnect_server_go.Sessions.Steps.{change-IsSound, file-IsSound}
use wppconnect_server_go.Sessions.Saves.{IsCodec, read-name, write-SameBut, write-IsIntended}

module _ (out : Outside) where
  observe-keeps :
      (e : ClientEvent) (h : Handle)
      → ((observe e h).key ≡ h.key)
        × ((observe e h).name ≡ h.name)
        × ((observe e h).closing ≡ h.closing)
        × ((observe e h).settings ≡ h.settings)
  observe-keeps connects h = ground arith
  observe-keeps disconnects h = ground arith
  observe-keeps (stops x) h = ground arith
  observe-keeps (qr_code_shown x) h = ground arith
  observe-keeps qr_ends h = ground arith

  pub on_event-IsSound :
      (e : ClientEvent) (name : String) (m : Manager)
      → IsSound out m
      → IsSound out (on_event e name m)
  unfolding on_event
  on_event-IsSound e name m g = elim (Option-cases (lookup name m.sessions)) [
    | inl l ↦ rw (on_event, l) g
    | inr (h, l) ↦
        let f = g.each name h l in
        let k = observe-keeps e h in
        rw (on_event, l)
          (change-IsSound out name h (observe e h) m.files m g l k.0 k.1 (k.2 ∙ f.alive)
            (SameBut-refl name m.files)
            (record {
              saved = f.intended.saved;
              bytes = f.intended.bytes;
              file = ap (λ n. lookup n m.files) k.1 ∙ f.intended.file;
              encoded = f.intended.encoded;
              restored = f.intended.restored;
              valid = f.intended.valid;
              name_is = f.intended.name_is ∙ sym k.1;
              settings_are = f.intended.settings_are ∙ sym k.3;
            }))
  ]

  updated-IsSound :
      (rf wf : Bool) (name : String) (v : Settings) (r : Record) (h : Handle)
      (files' : List (String × String)) (m : Manager)
      → IsCodec out
      → IsSound out m
      → IsLive m name h
      → read_record out rf name m.files ≡ ok r
      → write_record out wf (record r { settings = v }) m.files ≡ ok files'
      → IsSound out (record m {
        files = files';
        sessions = insert name (record h { settings = v }) m.sessions;
      })
  updated-IsSound rf wf name v r h files' m law g l p w =
      let f = g.each name h l in
      let i = f.intended in
      let n = read-name out rf name m.files r p in
      let same : r ≡ i.saved =
        read_ok out rf name i.bytes m.files r i.saved
          (ap (λ x. lookup x m.files) (sym f.named) ∙ i.file)
          (ap (λ x. Outside.decode out (blank x) i.bytes) (sym (i.name_is ∙ f.named))
            ∙ law i.saved i.bytes i.encoded)
          p in
      change-IsSound out name h (record h { settings = v }) files' m g l refl refl f.alive
        (write-SameBut out wf name (record r { settings = v }) m.files files' w n)
        (write-IsIntended out wf (record r { settings = v }) m.files files'
          (record h { settings = v }) w (ap (λ (x : Record). x.restore) same ∙ i.restored)
          (ap (λ (x : Record). x.revoked) same ∙ i.valid) (n ∙ sym f.named) refl)

  pub update-IsSound :
      (rf wf : Bool) (name : String) (v : Settings) (m : Manager)
      → IsCodec out
      → IsSound out m
      → IsSound out (update_settings out rf wf name v m).1
  unfolding update_settings
  update-IsSound rf wf name v m law g =
      elim (Result-cases (
        guard (valid_name out name) invalid_name
        >> validate_settings out v
        >> guard (not m.stopping) stopping)) [
          | inr (e, a) ↦ subst (IsSound out) (sym (ground (arith, a))) g
          | inl (x, a) ↦ elim (Result-cases (read_record out rf name m.files)) [
            | inr (e, p) ↦ subst (IsSound out) (sym (ground (arith, a, p))) g
            | inl (r, p) ↦
                elim (Result-cases (write_record out wf (record r { settings = v }) m.files)) [
                  | inr (e, w) ↦ subst (IsSound out) (sym (ground (arith, a, p, w))) g
                  | inl (files', w) ↦ elim (Option-cases (lookup name m.sessions)) [
                    | inl l ↦ subst (IsSound out) (sym (ground (arith, a, p, w, l))) (
                        file-IsSound out name files' m g l (
                          write-SameBut out wf name (record r { settings = v }) m.files files' w
                            (read-name out rf name m.files r p)))
                    | inr (h, l) ↦
                        subst (IsSound out) (sym (ground (arith, a, p, w, l)))
                          (updated-IsSound rf wf name v r h files' m law g l p w)
                  ]
                ]
          ]
        ]
