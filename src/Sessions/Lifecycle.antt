-- ===== src/Sessions/Lifecycle.antt =====
-- internal/session/manager.go and settings.go: start, close, log out, shut down, change settings,
-- and what the client's events do to a handle.
use wppconnect_server_go.Prelude.{
  ℕ, ◌+◌, ◌==◌, String, Bool, true, false, not, ◌&&◌, ◌||◌, Option, none, some, List, [], ◌∷◌, leb,
  if◌then◌else◌, length, Result, ok, err, ◌>>=◌, ◌>>◌, guard, lookup, insert, remove,
}
use wppconnect_server_go.Sessions.{
  Settings, Record, Status, qr_code, connected, closed, disconnected, unpaired, Handle, Manager,
  Error, invalid_name, stopping, canceled, too_many, not_connected, qr_failed, connect_failed,
  logout_failed, release_failed, Outside, valid_name,
}
use wppconnect_server_go.Sessions.Records.{read_record, write_record, validate_settings}
use wppconnect_server_go.Sessions.Opening.{Answers, open_handle}

-- What the client reports and what the manager's handler does with it. `permanent` is called beside.
pub data ClientEvent : Type 0 where
  connects disconnects : ClientEvent
  stops : (logged_out : Bool) → ClientEvent
  qr_code_shown : String → ClientEvent
  qr_ends : ClientEvent

abbrev pub observe_open : ClientEvent → Handle → Handle
observe_open connects h = record h { status = connected; code = "" }
observe_open disconnects h = record h { status = disconnected; code = "" }
observe_open (stops logged_out) h = record h { status = if logged_out then unpaired else closed }
observe_open (qr_code_shown c) h = record h { status = qr_code; code = c }
observe_open qr_ends h = record h { code = "" }

abbrev pub observe : ClientEvent → Handle → Handle
observe e h = if h.closing then h else observe_open e h

unfoldable pub on_event : ClientEvent → String → Manager → Manager
on_event e name m = elim (lookup name m.sessions) [
  | none ↦ m
  | some h ↦ record m { sessions = insert name (observe e h) m.sessions }
]

-- `release` and the deletion from the map. The handle keeps no QR code and takes no more events.
abbrev pub release : Handle → Manager → Manager
release h m = record m { released = record h { closing = true; code = "" } ∷ m.released }

abbrev pub give_up : String → Handle → Manager → Manager
give_up name h m = record (release h m) { sessions = remove name m.sessions }

-- What happens around one `Start`.
pub record Starting : Type 0 where
  pub request_done : Bool
  pub answers : Answers
  pub read_fails : Bool
  pub write_fails : Bool
  pub qr_fails : Bool
  pub connect_fails : Bool
  pub life_done : Bool

abbrev pub max_sessions : ℕ
max_sessions = 100

module _ (out : Outside) where
  abbrev pub connect : Starting → Handle → Manager → Result Error Handle × Manager
  connect s h m =
      if not h.paired && s.qr_fails
      then (err qr_failed, give_up h.name h m)
      else if s.connect_fails
      then (err connect_failed, give_up h.name h m)
      else if s.life_done
      then (err canceled, give_up h.name h m)
      else (ok h, m)

  abbrev pub save_start : Starting → Record → Handle → Manager → Result Error Handle × Manager
  save_start s r h m =
      elim (write_record out s.write_fails (record r { restore = true; revoked = false }) m.files) [
        | err e ↦ (err e, release h m)
        | ok files' ↦
            connect s h (record m { files = files'; sessions = insert h.name h m.sessions })
      ]

  abbrev pub begin : Starting → Handle → Manager → Result Error Handle × Manager
  begin s h m = elim (read_record out s.read_fails h.name m.files) [
    | err e ↦ (err e, release h m)
    | ok r ↦ save_start s r h m
  ]

  abbrev pub open_new : Starting → String → Manager → Result Error Handle × Manager
  open_new s name m = elim (open_handle out s.answers m.opened name m.files).0 [
    | err e ↦ (err e, m)
    | ok h ↦ begin s h (record m { opened = m.opened + 1 })
  ]

  unfoldable pub start_locked : Starting → String → Manager → Result Error Handle × Manager
  start_locked s name m =
      if m.stopping || m.canceled
      then (err stopping, m)
      else if s.request_done
      then (err canceled, m)
      else elim (lookup name m.sessions) [
        | some h ↦ (ok h, m)
        | none ↦
            if leb max_sessions (length m.sessions) then (err too_many, m) else open_new s name m
      ]

  unfoldable pub start : Starting → String → Manager → Result Error Handle × Manager
  start s name m = if valid_name out name then start_locked s name m else (err invalid_name, m)

  -- `status` and `release` of the live handle, if there is one; `fails` is the release's error.
  abbrev pub finish_live :
      (fails : Bool) → Status → String → Manager → Result Error (Unit {0}) × Manager
  finish_live fails status name m = elim (lookup name m.sessions) [
    | none ↦ (ok tt, m)
    | some h ↦
        (if fails then err release_failed else ok tt, give_up name (record h { status = status }) m)
  ]

  unfoldable pub close :
      (read_fails write_fails release_fails : Bool)
      → String
      → Manager
      → Result Error (Unit {0}) × Manager
  close read_fails write_fails release_fails name m =
      elim (do
        guard (valid_name out name) invalid_name
        guard (not m.stopping) stopping
        r ← read_record out read_fails name m.files
        write_record out write_fails (record r { restore = false }) m.files) [
          | err e ↦ (err e, m)
          | ok files' ↦ finish_live release_fails closed name (record m { files = files' })
        ]

  -- The record that a logout or a permanent stop leaves.
  abbrev pub ended : Bool → String → Settings → Record
  ended revoked name settings = record {
    name = name;
    restore = false;
    revoked = revoked;
    settings = settings;
  }

  -- A record that cannot be written is reported, and the session ends all the same.
  abbrev pub save_end : Bool → Record → Manager → Result Error (Unit {0}) × Manager
  save_end fails r m = elim (write_record out fails r m.files) [
    | err e ↦ (err e, m)
    | ok files' ↦ (ok tt, record m { files = files' })
  ]

  abbrev pub join : Result Error (Unit {0}) → (release_fails : Bool) → Result Error (Unit {0})
  join (err e) fails = err e
  join (ok x) fails = if fails then err release_failed else ok tt

  abbrev pub revoke :
      (logged_in logout_fails write_fails release_fails : Bool)
      → String
      → Handle
      → Manager
      → Result Error (Unit {0}) × Manager
  revoke false logout_fails write_fails release_fails name h m = (err not_connected, m)
  revoke true true write_fails release_fails name h m = (err logout_failed, m)
  revoke true false write_fails release_fails name h m =
      let (e, m') = save_end write_fails (ended true name h.settings) m in
      (join e release_fails, give_up name (record h { status = unpaired }) m')

  unfoldable pub logout :
      (logged_in logout_fails write_fails release_fails : Bool)
      → String
      → Manager
      → Result Error (Unit {0}) × Manager
  logout logged_in logout_fails write_fails release_fails name m =
      if not (valid_name out name)
      then (err invalid_name, m)
      else if m.stopping
      then (err stopping, m)
      else elim (lookup name m.sessions) [
        | none ↦ (err not_connected, m)
        | some h ↦ revoke logged_in logout_fails write_fails release_fails name h m
      ]

  -- `permanent(h, revoked)`, for the handle with this name and key: nothing if it is not live.
  unfoldable pub permanent : (revoked write_fails : Bool) → String → ℕ → Manager → Manager
  permanent revoked write_fails name key m = elim (lookup name m.sessions) [
    | none ↦ m
    | some h ↦
        if h.key == key
        then give_up name h (save_end write_fails (ended revoked name h.settings) m).1
        else m
  ]

  unfoldable pub update_settings :
      (read_fails write_fails : Bool)
      → String
      → Settings
      → Manager
      → Result Error (Unit {0}) × Manager
  update_settings read_fails write_fails name v m =
      elim (do
        guard (valid_name out name) invalid_name
        validate_settings out v
        guard (not m.stopping) stopping
        r ← read_record out read_fails name m.files
        write_record out write_fails (record r { settings = v }) m.files) [
          | err e ↦ (err e, m)
          | ok files' ↦ (ok tt, set_live (lookup name m.sessions) (record m { files = files' }))
        ]
    where
      set_live : Option Handle → Manager → Manager
      set_live none m' = m'
      set_live (some h) m' = record m' {
        sessions = insert name (record h { settings = v }) m'.sessions;
      }

-- `Shutdown`: new work is refused at once; the draining of the sessions follows under the lock.
abbrev pub stop : Manager → Manager
stop m = record m { stopping = true; canceled = true }

abbrev pub drain_list : List (String × Handle) → Manager → Manager
drain_list [] m = m
drain_list ((name, h) ∷ rest) m = drain_list rest (give_up name (record h { status = closed }) m)

unfoldable pub drain : Manager → Manager
drain m = drain_list m.sessions m
