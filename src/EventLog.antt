-- ===== src/EventLog.antt =====
-- internal/eventbus/store.go: the durable event log, its SQLite tables and their operations.
-- Times are milliseconds since the epoch. `fails k` says that the operation's k-th call of the
-- database fails, and `clock k` is the time that is read next to that call. A transaction that
-- fails is rolled back, so a failed operation has no new log.
pub mod Leases
pub mod Append
pub mod Claims
pub mod Invariant
pub mod Exclusion
pub mod Tests
pub mod Paging
pub mod Replays
pub mod Pending
use wppconnect_server_go.Prelude.{
  ℕ, zero, suc, ◌+◌, ◌-◌, String, len, Bool, true, false, not, ◌&&◌, ◌||◌, Option, none, some, List,
  [], ◌∷◌, ◌++◌, ltb, leb, ◌==◌, str_eq, if◌then◌else◌, length, take, head?, sum_by, Result, ok,
  err, ◌>>=◌, ◌>>◌, guard, or_fail, Faults, call, insert, ℤ, is_negative, pos_part,
}
use wppconnect_server_go.Table.{select, delete, update, exists, count, order_by}

-- A row of bus_events; `attempt` is not stored, and is 0 in the table.
pub record Event : Type 0 where
  pub sequence : ℕ
  pub id : String
  pub session : String
  pub name : String
  pub created : ℕ
  pub body : String
  pub attempt : ℕ

pub data State : Type 0 where
  pending delivered failed : State

abbrev pub is_pending : State → Bool
is_pending pending = true
is_pending _ = false

-- A row of bus_deliveries.
pub record Delivery : Type 0 where
  pub event : String
  pub target : String
  pub attempt : ℕ
  pub next : ℕ
  pub state : State
  pub lease : String
  pub lease_until : ℕ

-- The `delivery` that a worker holds.
pub record Claim : Type 0 where
  pub event : Event
  pub target : String
  pub attempt : ℕ
  pub lease : String

-- The tables, the AUTOINCREMENT counter, and the row of bus_stats that the triggers keep.
pub record Log : Type 0 where
  pub events : List Event
  pub deliveries : List Delivery
  pub sequence : ℕ
  pub n : ℕ
  pub b : ℕ
  pub limit : ℕ
  pub max_bytes : ℕ
  pub retention : ℕ

pub data Error : Type 0 where
  invalid_identity marshal_failed too_large db_error full : Error
  missing in_progress bad_cursor no_rows : Error

-- encoding/json: the values that a payload may hold, and the encoder of an object.
pub record Json : Type 1 where
  pub Value : Type 0
  pub text : String → Value
  pub marshal : List (String × Value) → Option String

abbrev pub max_event : ℕ
max_event = 1048576

abbrev pub max_page : ℕ
max_page = 2097152

-- The limits that `Open` sets.
unfoldable pub open_log : Log
open_log = record {
  events = [];
  deliveries = [];
  sequence = 0;
  n = 0;
  b = 0;
  limit = 100000;
  max_bytes = 134217728;
  retention = 604800000;
}

abbrev pub size : Event → ℕ
size e = len e.body

abbrev pub has_id : String → Event → Bool
has_id id e = str_eq e.id id

abbrev pub is_delivery : String → String → Delivery → Bool
is_delivery id target d = str_eq d.event id && str_eq d.target target

abbrev pub valid_identity : String → String → Bool
valid_identity name session =
    not (str_eq name "") && leb (len name) 64 && not (str_eq session "") && leb (len session) 64

-- `created<? AND NOT EXISTS(… d.event=bus_events.id AND d.state='pending')`
abbrev pub is_expired : ℕ → List Delivery → Event → Bool
is_expired cutoff ds e =
    ltb e.created cutoff && not (exists (λ d. str_eq d.event e.id && is_pending d.state) ds)

-- DELETE FROM bus_events: ON DELETE CASCADE takes the deliveries along, the trigger the counts.
unfoldable pub delete_events : (Event → Bool) → Log → Log
delete_events p log = record log {
  events = delete p log.events;
  deliveries = delete (λ d. exists (has_id d.event) (select p log.events)) log.deliveries;
  n = log.n - count p log.events;
  b = log.b - sum_by size (select p log.events);
}

-- INSERT INTO bus_events, with its trigger.
unfoldable pub insert_event : Event → Log → Log
insert_event e log = record log {
  events = log.events ++ e ∷ [];
  sequence = e.sequence;
  n = log.n + 1;
  b = log.b + size e;
}

abbrev pub new_delivery : String → String → Delivery
new_delivery id target = record {
  event = id;
  target = target;
  attempt = 0;
  next = 0;
  state = pending;
  lease = "";
  lease_until = 0;
}

-- The loop of `Append` over the targets; the primary key refuses a second row of a target.
unfoldable pub insert_deliveries :
    Faults → ℕ → String → List String → List Delivery → Result Error (List Delivery)
insert_deliveries fails k id [] ds = ok ds
insert_deliveries fails k id (target ∷ targets) ds = do
  call fails k db_error
  guard (not (exists (is_delivery id target) ds)) db_error
  insert_deliveries fails (k + 1) id targets (ds ++ new_delivery id target ∷ [])

module _ (json : Json) where
  open json use {Value, text, marshal}

  -- The caller's fields, with `event` and `session` set last.
  abbrev pub body_fields : String → String → List (String × Value) → List (String × Value)
  body_fields name session fields =
      insert "session" (text session) (insert "event" (text name) fields)

  -- `created` is read at the start, `now` for the cutoff; `id` is the new UUID.
  unfoldable pub append :
      Faults
      → (created now : ℕ) → (id name session : String) → List (String × Value)
      → List String
      → Log
      → Result Error (Event × Log)
  append fails created now id name session fields targets log = do
    guard (valid_identity name session) invalid_identity
    encoded ← or_fail (marshal (body_fields name session fields)) marshal_failed
    guard (leb (len encoded) max_event) too_large
    call fails 0 db_error
    call fails 1 db_error
    let expired = delete_events (is_expired (now - log.retention) log.deliveries) log
    call fails 2 db_error
    guard (ltb expired.n log.limit && leb (expired.b + len encoded) log.max_bytes) full
    call fails 3 db_error
    guard (not (exists (has_id id) expired.events)) db_error
    let e : Event = record {
      sequence = log.sequence + 1;
      id = id;
      session = session;
      name = name;
      created = created;
      body = encoded;
      attempt = 0;
    }
    let inserted = insert_event e expired
    call fails 4 db_error
    deliveries ← insert_deliveries fails 5 id targets inserted.deliveries
    call fails (5 + length targets) db_error
    ok (e, record inserted { deliveries = deliveries })
