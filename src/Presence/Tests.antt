-- ===== src/Presence/Tests.antt =====
-- internal/directory/presence.go on concrete states: tests, and the theorems at these inputs.
use wppconnect_server_go.Prelude.{◌<◌, ◌≡◌, refl, true, false, none, [], ◌∷◌, arith}
use wppconnect_server_go.Presence.{Observation, State, new_state, begin_signal, end_signal}
use wppconnect_server_go.Presence.Commands.{here, next, ends, newer_command_wins}

abbrev seen : Observation
seen = record { key = "a"; is_kept = true; unavailable = false; last_seen = 0 }

abbrev first : State
first = record new_state { generation = 1; owners = ("a", 1) ∷ [] }

abbrev after : State
after = record new_state { generation = 2; owners = ("a", 2) ∷ [] }

begins_first : begin_signal false true 0 "a" new_state ≡ (none, 1, first)
unfolding begin_signal
begins_first = refl

begins_second : begin_signal false true 0 "a" first ≡ (none, 2, after)
unfolding begin_signal
begins_second = refl

-- The second command ends before the first one.
ended : (end_signal "a" 2 after).1 ≡ record after { owners = [] }
unfolding end_signal
ended = refl

newer_command_wins_example :
    ((end_signal "a" 1 first).0 ≡ true)
    × (1 < 2)
    × ((end_signal "a" 1 (record after { owners = [] })).0 ≡ false)
newer_command_wins_example =
    newer_command_wins false true false true 0 0 "a" 1 2 new_state first first after
      (record after { owners = [] }) tt begins_first here begins_second
      (next here (ends "a" 2 ended)) (omega arith)

-- The generation wraps around.
abbrev last : State
last = record new_state { generation = 18446744073709551615 }

wraps :
    begin_signal false true 0 "a" last
    ≡ (none, 0, record last { generation = 0; owners = ("a", 0) ∷ [] })
unfolding begin_signal
wraps = refl
