-- ===== src/Presence.antt =====
-- internal/directory/presence.go and the State of internal/directory/index.go: the cache of presences
-- and the commands that end by themselves. One answer of the clock stands for the readings within an
-- operation, which follow each other at once. A map gives its entries in any order, so that the one
-- entry that a full map drops is an argument.
pub mod Cache
pub mod Commands
pub mod Tests
use wppconnect_server_go.Prelude.{
  ℕ, zero, suc, ◌+◌, ◌*◌, ◌-◌, ◌%◌, ◌^◌, String, Bool, true, false, not, ◌&&◌, ◌||◌, Option, none,
  some, List, [], ◌∷◌, ltb, leb, str_eq, ◌==◌, if◌then◌else◌, length, lookup, insert, remove,
}

abbrev pub max_chats : ℕ
max_chats = 10000

abbrev pub second : ℕ
second = 1000000000

abbrev pub presence_ttl : ℕ
presence_ttl = 5 * 60 * second

pub record Presence : Type 0 where
  pub online : Bool
  pub last_seen : ℕ
  pub observed : ℕ

-- What is read of events.Presence; `key` is the sender without a device, and `is_kept` whether it is
-- supported and no group.
pub record Observation : Type 0 where
  pub key : String
  pub is_kept : Bool
  pub unavailable : Bool
  pub last_seen : ℕ

-- `now.Sub(observed) >= PresenceTTL`
abbrev pub is_stale : ℕ → Presence → Bool
is_stale now p = leb presence_ttl (now - p.observed)

abbrev pub drop_stale : ℕ → List (String × Presence) → List (String × Presence)
drop_stale now [] = []
drop_stale now ((k, p) ∷ entries) =
    let rest = drop_stale now entries in if is_stale now p then rest else (k, p) ∷ rest

-- `for id := range m { delete(m, id); break }`: the entry at a place, or the last.
abbrev pub drop_one {ℓ} : {V : Type ℓ} → ℕ → List (String × V) → List (String × V)
drop_one n [] = []
drop_one n (x ∷ []) = []
drop_one zero (x ∷ y ∷ m) = y ∷ m
drop_one (suc n) (x ∷ y ∷ m) = x ∷ drop_one n (y ∷ m)

abbrev pub make_room : ℕ → ℕ → List (String × Presence) → List (String × Presence)
make_room now victim entries =
    if leb max_chats (length entries)
    then (let fresh = drop_stale now entries in
        if leb max_chats (length fresh) then drop_one victim fresh else fresh)
    else entries

unfoldable pub observe :
    ℕ → (victim : ℕ) → Option Observation → List (String × Presence) → List (String × Presence)
observe now victim none entries = entries
observe now victim (some e) entries =
    if not e.is_kept
    then entries
    else insert e.key
        (record { online = not e.unavailable; last_seen = e.last_seen; observed = now })
        (make_room now victim entries)

abbrev pub fresh_or_drop :
    ℕ
    → String
    → Option Presence
    → List (String × Presence)
    → Option Presence × List (String × Presence)
fresh_or_drop now key none entries = (none, entries)
fresh_or_drop now key (some p) entries =
    if is_stale now p then (none, remove key entries) else (some p, entries)

unfoldable pub get_presence :
    ℕ → String → List (String × Presence) → Option Presence × List (String × Presence)
get_presence now key entries = fresh_or_drop now key (lookup key entries) entries

-- The fields of State that `commands` guards; `generation` is a uint64.
pub record State : Type 0 where
  pub generation : ℕ
  pub owners : List (String × ℕ)
  pub closed : Bool

abbrev pub new_state : State
new_state = record { generation = 0; owners = []; closed = false }

pub data SignalError : Type 0 where
  is_closed is_cancelled send_failed : SignalError

-- `s.generation++`
abbrev pub next_generation : ℕ → ℕ
next_generation g = (g + 1) % 2 ^ 64

-- The first part of `Signal`, up to the timer: the generation of the command.
unfoldable pub begin_signal :
    (cancelled sends : Bool)
    → (victim : ℕ) → (jid : String) → State
    → Option SignalError × ℕ × State
begin_signal cancelled sends victim jid s =
    let room = if leb max_chats (length s.owners) then drop_one victim s.owners else s.owners in
    if s.closed
    then (some is_closed, 0, s)
    else if cancelled
    then (some is_cancelled, 0, s)
    else if not sends
    then (some send_failed, 0, s)
    else (
      none,
      next_generation s.generation,
      record s {
        generation = next_generation s.generation;
        owners = insert jid (next_generation s.generation) room;
      },
    )

abbrev pub or_zero : Option ℕ → ℕ
or_zero none = 0
or_zero (some n) = n

-- The second part, after the timer: whether a pause is sent.
unfoldable pub end_signal : (jid : String) → (generation : ℕ) → State → Bool × State
end_signal jid generation s =
    if s.closed || not (or_zero (lookup jid s.owners) == generation)
    then (false, s)
    else (true, record s { owners = remove jid s.owners })

unfoldable pub reset_presence : State → State
reset_presence s = record s { owners = [] }

unfoldable pub close_state : State → State
close_state s = record s { closed = true; owners = [] }
