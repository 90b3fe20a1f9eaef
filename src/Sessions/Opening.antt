-- ===== src/Sessions/Opening.antt =====
-- internal/session/manager.go, openHandle: the stores that a session opens, and their release when
-- a later step fails.
use wppconnect_server_go.Prelude.{
  ℕ, zero, suc, ◌+◌, String, ◌≡◌, inl, inr, Bool, true, false, not, ◌&&◌, Option, none, some, List,
  arith, str_eq, if◌then◌else◌, Result, ok, err, Result-cases,
}
use wppconnect_server_go.Sessions.{
  Settings, Record, Handle, initializing, Error, open_failed, Outside,
}
use wppconnect_server_go.Sessions.Records.{read_record, validate_settings}

-- What the stores answer: whether each step fails, the number of devices that are stored, which
-- deletions fail, and whether the device that is used is paired.
pub record Answers : Type 0 where
  pub container_fails : Bool
  pub read_fails : Bool
  pub all_devices : Option ℕ
  pub delete_fails : ℕ → Bool
  pub first_device : Option Bool
  pub index_fails : Bool
  pub proxy_fails : Bool
  pub archive_fails : Bool

-- Which stores are open.
pub record Resources : Type 0 where
  pub container : Bool
  pub index : Bool
  pub archive : Bool

abbrev pub all_closed : Resources
all_closed = record { container = false; index = false; archive = false }

abbrev pub all_open : Resources
all_open = record { container = true; index = true; archive = true }

abbrev pub delete_devices : (ℕ → Bool) → (n k : ℕ) → Result Error ℕ
delete_devices fails zero k = ok k
delete_devices fails (suc n) k =
    let rest = delete_devices fails n (k + 1) in if fails k then err open_failed else rest

-- The devices of a revoked session are deleted; the number of them is returned.
abbrev pub wipe : Answers → Bool → Result Error ℕ
wipe a false = ok 0
wipe a true = elim a.all_devices [
  | none ↦ err open_failed
  | some n ↦ delete_devices a.delete_fails n 0
]

-- The handle, from the settings of the record and the device that is used.
abbrev pub new_handle : ℕ → String → Settings → Bool → Handle
new_handle key name settings paired = record {
  key = key;
  name = name;
  status = initializing;
  code = "";
  paired = paired;
  closing = false;
  settings = settings;
}

module _ (out : Outside) where
  abbrev pub open_archive :
      Answers → ℕ → String → Settings → Bool → Resources → Result Error Handle × Resources
  open_archive a key name settings paired held =
      if a.archive_fails
      then (err open_failed, record held { index = false; container = false })
      else (ok (new_handle key name settings paired), record held { archive = true })

  abbrev pub open_client :
      Answers → ℕ → String → Settings → Bool → Resources → Result Error Handle × Resources
  open_client a key name settings paired held = elim (validate_settings out settings) [
    | err e ↦ (err e, record held { index = false; container = false })
    | ok x ↦
        if not (str_eq settings.proxy_url "") && a.proxy_fails
        then (err open_failed, record held { index = false; container = false })
        else open_archive a key name settings paired held
  ]

  abbrev pub open_index :
      Answers → ℕ → String → Settings → Resources → Result Error Handle × Resources
  open_index a key name settings held = elim a.first_device [
    | none ↦ (err open_failed, record held { container = false })
    | some paired ↦
        if a.index_fails
        then (err open_failed, record held { container = false })
        else open_client a key name settings paired (record held { index = true })
  ]

  abbrev pub open_device :
      Answers → ℕ → String → Record → Resources → Result Error Handle × Resources
  open_device a key name r held = elim (wipe a r.revoked) [
    | err e ↦ (err e, record held { container = false })
    | ok n ↦ open_index a key name r.settings held
  ]

  -- The stores that are open when it returns stand beside its result; `key` is the new handle's.
  unfoldable pub open_handle :
      Answers → ℕ → String → List (String × String) → Result Error Handle × Resources
  open_handle a key name files =
      if a.container_fails
      then (err open_failed, all_closed)
      else elim (read_record out a.read_fails name files) [
        | err e ↦ (err e, all_closed)
        | ok r ↦ open_device a key name r (record all_closed { container = true })
      ]

  -- What a handle that was opened is, and that everything it needs is open.
  pub record Opened (a : Answers) (key : ℕ) (name : String) (files : List (String × String))
      (h : Handle) (held : Resources) : Type 0 where
    pub record_read : Record
    pub was_read : read_record out a.read_fails name files ≡ ok record_read
    pub wiped : ℕ
    pub was_wiped : wipe a record_read.revoked ≡ ok wiped
    pub handle_is : h ≡ new_handle key name record_read.settings h.paired
    pub device_is : a.first_device ≡ some h.paired
    pub opens_all : held ≡ all_open

  pub open_ok :
      (a : Answers) (key : ℕ) (name : String) (files : List (String × String)) (h : Handle)
      → (open_handle a key name files).0 ≡ ok h
      → Opened a key name files h (open_handle a key name files).1
  unfolding open_handle
  open_ok a key name files h p = elim (Result-cases (read_record out a.read_fails name files)) [
    | inr (e, q) ↦ absurd (ground (arith, p, q))
    | inl (r, q) ↦ elim (Result-cases (wipe a r.revoked)) [
      | inr (e, w) ↦ absurd (ground (arith, p, q, w))
      | inl (n, w) ↦ record {
        record_read = r;
        was_read = q;
        wiped = n;
        was_wiped = w;
        handle_is = ground (arith, p, q, w);
        device_is = ground (arith, p, q, w);
        opens_all = ground (arith, p, q, w);
      }
    ]
  ]

  -- When a session cannot be opened, none of its stores is left open.
  pub open_fails :
      (a : Answers) (key : ℕ) (name : String) (files : List (String × String)) (e : Error)
      → (open_handle a key name files).0 ≡ err e
      → (open_handle a key name files).1 ≡ all_closed
  unfolding open_handle
  open_fails a key name files e p = ground (arith, p)
