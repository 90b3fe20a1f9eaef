-- ===== src/Sessions/Saves.antt =====
-- internal/session/restore.go: what a record that was read or written says of the files.
use wppconnect_server_go.Prelude.{
  String, ◌≡◌, sym, subst, inl, inr, Bool, true, false, some, List, arith, eq_iff, lookup, ok,
  Option-cases, lookup-insert_same,
}
use wppconnect_server_go.Sessions.{Record, blank, Handle, Outside}
use wppconnect_server_go.Sessions.Records.{read_record, write_record, write_ok}
use wppconnect_server_go.Sessions.Invariant.{IsIntended, SameBut, insert-SameBut}

-- json.Unmarshal reads back what json.Marshal wrote.
abbrev pub IsCodec : Outside → Type 0
IsCodec out =
    (r : Record) (b : String)
    → Outside.encode out r ≡ some b
    → Outside.decode out (blank r.name) b ≡ some r

module _ (out : Outside) where
  pub read-name :
      (io : Bool) (name : String) (files : List (String × String)) (r : Record)
      → read_record out io name files ≡ ok r
      → r.name ≡ name
  unfolding read_record
  read-name io name files r e = elim (Option-cases (lookup name files)) [
    | inl l ↦ ground (arith, l, e)
    | inr (b, l) ↦ elim (Option-cases (Outside.decode out (blank name) b)) [
      | inl d ↦ ground (arith, l, d, e)
      | inr (q, d) ↦ ground (arith, l, d, e, eq_iff q.name name)
    ]
  ]

  pub read_twice :
      (io io' : Bool) (name : String) (files : List (String × String)) (r r' : Record)
      → read_record out io name files ≡ ok r
      → read_record out io' name files ≡ ok r'
      → r ≡ r'
  unfolding read_record
  read_twice true true name files r r' e e' = ground (arith, e)
  read_twice true false name files r r' e e' = ground (arith, e)
  read_twice false true name files r r' e e' = ground (arith, e')
  read_twice false false name files r r' e e' = cc (e, e')

  pub write-SameBut :
      (io : Bool) (name : String) (r : Record) (files files' : List (String × String))
      → write_record out io r files ≡ ok files'
      → r.name ≡ name
      → SameBut name files files'
  write-SameBut io name r files files' w n =
      let (b, v, e, f) = write_ok out io r files files' w in
      subst (λ x. SameBut x files files') n
        (subst (λ x. SameBut r.name files x) (sym f) (insert-SameBut r.name b files))

  pub write-IsIntended :
      (io : Bool) (r : Record) (files files' : List (String × String)) (h : Handle)
      → write_record out io r files ≡ ok files'
      → r.restore ≡ true
      → r.revoked ≡ false
      → r.name ≡ h.name
      → r.settings ≡ h.settings
      → IsIntended out files' h
  write-IsIntended io r files files' h w a c n p =
      let (b, v, e, f) = write_ok out io r files files' w in
      record {
        saved = r;
        bytes = b;
        file =
            subst (λ x. lookup x files' ≡ some b) n
              (subst (λ x. lookup r.name x ≡ some b) (sym f) (lookup-insert_same r.name b files));
        encoded = e;
        restored = a;
        valid = c;
        name_is = n;
        settings_are = p;
      }
