-- ===== src/Sessions/Reach.antt =====
-- internal/session: sequences of operations, and what they keep.
use wppconnect_server_go.Prelude.{ℕ, String, inl, inr, Bool, List, [], ◌∷◌, Bool-cases}
use wppconnect_server_go.Sessions.{Settings, Manager, Outside, valid_name}
use wppconnect_server_go.Sessions.Lifecycle.{
  ClientEvent, on_event, Starting, start, close, logout, permanent, update_settings, stop, drain,
}
use wppconnect_server_go.Sessions.Invariant.{IsSound}
use wppconnect_server_go.Sessions.Saves.{IsCodec}
use wppconnect_server_go.Sessions.Starts.{start-IsSound}
use wppconnect_server_go.Sessions.Ends.{close-IsSound, logout-IsSound, permanent-IsSound}
use wppconnect_server_go.Sessions.Changes.{on_event-IsSound, update-IsSound}
use wppconnect_server_go.Sessions.Drains.{stop-IsSound, drain-Drained}

pub data Call : Type 0 where
  starts : Starting → String → Call
  closes : (read_fails write_fails release_fails : Bool) → String → Call
  logs_out : (logged_in logout_fails write_fails release_fails : Bool) → String → Call
  ends : (revoked write_fails : Bool) → String → ℕ → Call
  updates : (read_fails write_fails : Bool) → String → Settings → Call
  reports : ClientEvent → String → Call
  stops_all drains : Call

module _ (out : Outside) where
  unfoldable pub step : Call → Manager → Manager
  step (starts s name) m = (start out s name m).1
  step (closes r w f name) m = (close out r w f name m).1
  step (logs_out l x w f name) m = (logout out l x w f name m).1
  step (ends revoked w name key) m = permanent out revoked w name key m
  step (updates r w name v) m = (update_settings out r w name v m).1
  step (reports e name) m = on_event e name m
  step stops_all m = stop m
  step drains m = drain m

  unfoldable pub run : List Call → Manager → Manager
  run [] m = m
  run (c ∷ cs) m = run cs (step c m)

  step-IsSound : (c : Call) (m : Manager) → IsCodec out → IsSound out m → IsSound out (step c m)
  unfolding step start
  step-IsSound (starts s name) m law g = elim (Bool-cases (valid_name out name)) [
    | inl a ↦ rw (step, start, a) (start-IsSound out s name m g)
    | inr a ↦ rw (step, start, a) g
  ]
  step-IsSound (closes r w f name) m law g = close-IsSound out r w f name m g
  step-IsSound (logs_out l x w f name) m law g = logout-IsSound out l x w f name m g
  step-IsSound (ends revoked w name key) m law g = permanent-IsSound out revoked w name key m g
  step-IsSound (updates r w name v) m law g = update-IsSound out r w name v m law g
  step-IsSound (reports e name) m law g = on_event-IsSound out e name m g
  step-IsSound stops_all m law g = stop-IsSound out m g
  step-IsSound drains m law g = (drain-Drained out m g).sound

  -- Whatever operations are called in whatever order and whichever of their steps fail, a sound
  -- manager stays sound: each live handle stands under its own name, still takes events, and has a
  -- file that says to restore it, not revoked, with the settings that it uses; every handle that was
  -- ever opened is either live or was released, none is both, and a released one takes no more
  -- events; there are at most 100 live sessions. It is assumed that json.Unmarshal reads back what
  -- json.Marshal wrote.
  pub run-IsSound :
      (cs : List Call) (m : Manager) → IsCodec out → IsSound out m → IsSound out (run cs m)
  unfolding run
  run-IsSound [] m law g = g
  run-IsSound (c ∷ cs) m law g = run-IsSound cs (step c m) law (step-IsSound c m law g)
