-- ===== src/Sessions/Invariant.antt =====
-- internal/session/manager.go: what holds of the manager between two operations.
use wppconnect_server_go.Prelude.{
  ℕ, ◌≤◌, ◌<◌, String, ◌≡◌, ◌≢◌, ◌∙◌, refl, sym, subst, ◌⊎◌, inl, inr, true, false, none, some,
  List, arith, str_eq, eq_iff, length, In, All, lookup, insert, IsMap, lookup-insert, Bool-cases,
}
use wppconnect_server_go.Sessions.{Record, Handle, Manager, Outside}
use wppconnect_server_go.Sessions.Lifecycle.{max_sessions}

abbrev pub IsLive : Manager → String → Handle → Type 0
IsLive m name h = lookup name m.sessions ≡ some h

-- The file of the session says that it is to be restored, with the settings that the handle has.
pub record IsIntended (out : Outside) (files : List (String × String)) (h : Handle) : Type 0 where
  pub saved : Record
  pub bytes : String
  pub file : lookup h.name files ≡ some bytes
  pub encoded : Outside.encode out saved ≡ some bytes
  pub restored : saved.restore ≡ true
  pub valid : saved.revoked ≡ false
  pub name_is : saved.name ≡ h.name
  pub settings_are : saved.settings ≡ h.settings

-- What holds of one live handle.
pub record IsFine (out : Outside) (m : Manager) (name : String) (h : Handle) : Type 0 where
  pub named : h.name ≡ name
  pub alive : h.closing ≡ false
  pub known : h.key < m.opened
  pub intended : IsIntended out m.files h
  pub apart : (g : Handle) → In g m.released → g.key ≢ h.key

pub record IsSound (out : Outside) (m : Manager) : Type 0 where
  pub each : (name : String) (h : Handle) → IsLive m name h → IsFine out m name h
  pub one_name :
      (name name' : String) (h h' : Handle)
      → IsLive m name h
      → IsLive m name' h'
      → h.key ≡ h'.key
      → name ≡ name'
  pub accounted :
      (k : ℕ)
      → k < m.opened
      → ((name : String) × (h : Handle) × IsLive m name h × (h.key ≡ k))
        ⊎ ((g : Handle) × In g m.released × (g.key ≡ k))
  pub keyed : IsMap m.sessions
  pub few : length m.sessions ≤ max_sessions
  pub ended : All (λ (g : Handle). (g.closing ≡ true) × (g.key < m.opened)) m.released

-- The files differ at most in the one of `name`.
abbrev pub SameBut : String → List (String × String) → List (String × String) → Type 0
SameBut name files files' = (j : String) → str_eq name j ≡ false → lookup j files' ≡ lookup j files

pub SameBut-refl : (name : String) (files : List (String × String)) → SameBut name files files
SameBut-refl name files j e = refl

pub insert-SameBut :
    (name b : String) (files : List (String × String)) → SameBut name files (insert name b files)
insert-SameBut name b files j e = ground (arith, lookup-insert name j b files, e)

module _ (out : Outside) where
  IsIntended-SameBut :
      (name : String) (files files' : List (String × String)) (h : Handle)
      → SameBut name files files'
      → str_eq name h.name ≡ false
      → IsIntended out files h
      → IsIntended out files' h
  IsIntended-SameBut name files files' h same e i = record {
    saved = i.saved;
    bytes = i.bytes;
    file = same h.name e ∙ i.file;
    encoded = i.encoded;
    restored = i.restored;
    valid = i.valid;
    name_is = i.name_is;
    settings_are = i.settings_are;
  }

  -- What held of another session's handle still does.
  pub other-IsFine :
      (name j : String) (g : Handle) (m m' : Manager)
      → IsFine out m j g
      → str_eq name j ≡ false
      → SameBut name m.files m'.files
      → m.opened ≤ m'.opened
      → ((x : Handle) → In x m'.released → x.key ≢ g.key)
      → IsFine out m' j g
  other-IsFine name j g m m' f q same o r = record {
    named = f.named;
    alive = f.alive;
    known = omega (arith, f.known, o);
    intended =
        IsIntended-SameBut name m.files m'.files g same
          (subst (λ x. str_eq name x ≡ false) (sym f.named) q) f.intended;
    apart = r;
  }

  pub differs :
      (name j : String) (g : Handle) (m : Manager)
      → lookup name m.sessions ≡ none
      → IsLive m j g
      → str_eq name j ≡ false
  differs name j g m l u = elim (Bool-cases (str_eq name j)) [
    | inr t ↦ t
    | inl t ↦
        absurd (ground (arith, subst (λ x. lookup x m.sessions ≡ none) ((eq_iff name j).0 t) l, u))
  ]

  pub same_handle :
      (name j : String) (h g : Handle) (m : Manager)
      → str_eq name j ≡ true
      → IsLive m name h
      → IsLive m j g
      → h ≡ g
  same_handle name j h g m t l u =
      ground (arith, subst (λ x. lookup x m.sessions ≡ some h) ((eq_iff name j).0 t) l, u)
