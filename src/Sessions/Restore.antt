-- ===== src/Sessions/Restore.antt =====
-- internal/session/restore.go, restore: which sessions come back when the server starts.
use wppconnect_server_go.Prelude.{
  ℕ, ◌+◌, ◌==◌, String, Bool, true, false, not, ◌&&◌, ◌||◌, Option, none, some, List, [], ◌∷◌, ◌++◌,
  if◌then◌else◌, is_some, lookup, Result, ok, err,
}
use wppconnect_server_go.Sessions.{
  Record, Handle, Manager, Error, open_failed, canceled, stopping, Outside,
}
use wppconnect_server_go.Sessions.Records.{read_record}
use wppconnect_server_go.Sessions.Lifecycle.{Starting, start_locked}

-- What happens around one session of the loop.
pub record Turn : Type 0 where
  pub request_done : Bool
  pub read_fails : Bool
  pub stat_fails : Bool
  pub container_fails : Bool
  pub all_devices : Option ℕ
  pub close_fails : Bool
  pub starting : Starting

-- What `restore` returns: the sessions that it started, the failures, and why it stopped early.
pub record Restored : Type 0 where
  pub count : ℕ
  pub failures : List String
  pub stopped : Option Error

module _ (out : Outside) where
  -- `true` is a session that was started, `false` one that is left alone.
  abbrev pub count_started : Result Error Handle × Manager → Result Error Bool × Manager
  count_started (ok h, m) = (ok true, m)
  count_started (err e, m) = (err e, m)

  abbrev pub start_paired : Turn → String → Option ℕ → Manager → Result Error Bool × Manager
  start_paired t name none m = (err open_failed, m)
  start_paired t name (some n) m =
      if t.close_fails
      then (err open_failed, m)
      else if n == 0
      then (ok false, m)
      else count_started (start_locked out t.starting name m)

  abbrev pub is_ended : Record → Bool
  is_ended r = not r.restore || r.revoked

  unfoldable pub restore_one : Turn → String → Manager → Result Error Bool × Manager
  restore_one t name m = elim (read_record out t.read_fails name m.files) [
    | err e ↦ (err e, m)
    | ok r ↦
        if (is_some (lookup name m.files) && not t.stat_fails) && is_ended r
        then (ok false, m)
        else if t.container_fails
        then (err open_failed, m)
        else start_paired t name t.all_devices m
  ]

  abbrev pub add_turn : String → Result Error Bool → Restored → Restored
  add_turn name (ok true) r = record r { count = r.count + 1 }
  add_turn name (ok false) r = r
  add_turn name (err e) r = record r { failures = r.failures ++ name ∷ [] }

  -- The two checks before a turn, and the rest of the loop with this turn.
  abbrev pub check_stop :
      (request_done stops : Bool) → Restored → Manager → Restored × Manager → Restored × Manager
  check_stop true stops r m rest = (record r { stopped = some canceled }, m)
  check_stop false true r m rest = (record r { failures = []; stopped = some stopping }, m)
  check_stop false false r m rest = rest

  -- The loop over the names that the directory has stores for, in order.
  unfoldable pub restore_list :
      (String → Turn) → List String → Restored → Manager → Restored × Manager
  restore_list turn [] r m = (r, m)
  restore_list turn (name ∷ names) r m =
      let one = restore_one (turn name) name m in
      let rest = restore_list turn names (add_turn name one.0 r) one.1 in
      check_stop (turn name).request_done m.stopping r m rest
