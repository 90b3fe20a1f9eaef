-- ===== src/EventLog/Leases.antt =====
-- internal/eventbus/store.go: paging, leases, acknowledgement, replay and counts.
use wppconnect_server_go.Prelude.{
  ℕ, ◌+◌, ◌-◌, String, Bool, true, false, not, ◌&&◌, ◌||◌, Option, none, some, List, [], ◌∷◌, ◌++◌,
  ltb, leb, ◌==◌, str_eq, if◌then◌else◌, length, take, head?, Result, ok, err, ◌>>=◌, ◌>>◌, guard,
  Faults, call, ℤ, is_negative, pos_part,
}
use wppconnect_server_go.Table.{select, update, exists, count, order_by}
use wppconnect_server_go.EventLog.{
  Event, Delivery, State, pending, delivered, failed, Claim, Log, Error, db_error, missing,
  in_progress, bad_cursor, no_rows, is_pending, has_id, is_delivery, new_delivery, max_page, size,
}

-- The rows that `List` asks for: `session=? AND seq>? AND created>=?`.
abbrev pub is_listed : String → ℕ → ℕ → Event → Bool
is_listed session after cutoff e =
    str_eq e.session session && ltb after e.sequence && leb cutoff e.created

abbrev pub by_sequence : Event → Event → Bool
by_sequence e f = leb e.sequence f.sequence

-- The loop over the rows: the page ends before a row that would pass 2 MiB, but holds one row.
unfoldable pub fill_page : Faults → ℕ → ℕ → Bool → List Event → Result Error (List Event)
fill_page fails k bytes empty [] = do call fails k db_error; ok []
fill_page fails k bytes empty (e ∷ es) =
    let rest = fill_page fails (k + 1) (bytes + size e) false es in
    do
      call fails k db_error
      if ltb max_page (bytes + size e) && not empty
          then call fails (k + 1) db_error >> ok []
          else rest >>= λ page. ok (e ∷ page)

unfoldable pub list : Faults → ℕ → String → ℤ → ℤ → Log → Result Error (List Event)
unfolding fill_page
list fails now session after limit log = do
  guard
      (not (is_negative after)
        && (not (is_negative limit) && leb 1 (pos_part limit) && leb (pos_part limit) 200))
      bad_cursor
  call fails 0 db_error
  let asked = select (is_listed session (pos_part after) (now - log.retention)) log.events
  fill_page fails 1 0 true (take (pos_part limit) (order_by by_sequence asked))

-- A delivery with its event.
pub record Job : Type 0 where
  pub row : Delivery
  pub event : Event

abbrev pub add_job : Delivery → Option Event → List Job → List Job
add_job d none jobs = jobs
add_job d (some e) jobs = record { row = d; event = e } ∷ jobs

-- `bus_deliveries d JOIN bus_events e ON e.id=d.event`
abbrev pub join : List Event → List Delivery → List Job
join es [] = []
join es (d ∷ ds) = add_job d (head? (select (has_id d.event) es)) (join es ds)

-- `d.target=? AND d.state='pending' AND d.next<=? AND d.lease_until<=?`
abbrev pub is_ready : String → ℕ → ℕ → Delivery → Bool
is_ready target due free d =
    str_eq d.target target && is_pending d.state && leb d.next due && leb d.lease_until free

-- `ORDER BY d.next,e.seq`
abbrev pub sooner : Job → Job → Bool
sooner i j =
    ltb i.row.next j.row.next || (i.row.next == j.row.next && leb i.event.sequence j.event.sequence)

abbrev pub ready_jobs : String → ℕ → ℕ → Log → List Job
ready_jobs target due free log =
    order_by sooner (join log.events (select (is_ready target due free) log.deliveries))

abbrev pub with_lease : String → ℕ → Delivery → Delivery
with_lease lease until d = record d { lease = lease; lease_until = until }

abbrev pub grant : String → String → String → ℕ → Log → Log
grant id target lease until log = record log {
  deliveries = update (is_delivery id target) (with_lease lease until) log.deliveries;
}

-- One transaction for each target, until one has work. `lease` is the new UUID.
unfoldable pub claim :
    Faults
    → (clock : ℕ → ℕ) → (k lease_time : ℕ) → String
    → List String
    → Log
    → Result Error (Claim × Log)
claim fails clock k lease_time lease [] log = err no_rows
claim fails clock k lease_time lease (target ∷ targets) log =
    let others = claim fails clock (k + 4) lease_time lease targets log in
    do
      call fails k db_error
      call fails (k + 1) db_error
      elim (head? (ready_jobs target (clock k) (clock (k + 1)) log)) [
        | none ↦ others
        | some job ↦ do
          call fails (k + 2) db_error
          call fails (k + 3) db_error
          ok (
            record { event = job.event; target = target; attempt = job.row.attempt; lease = lease },
            grant job.event.id target lease (clock (k + 2) + lease_time) log,
          )
      ]

-- `event=? AND target=? AND lease=?`
abbrev pub is_held : Claim → Delivery → Bool
is_held c d = is_delivery c.event.id c.target d && str_eq d.lease c.lease

abbrev pub acknowledge : State → ℕ → Delivery → Delivery
acknowledge state next d = record d {
  state = state;
  attempt = d.attempt + 1;
  next = next;
  lease = "";
  lease_until = 0;
}

-- One statement; on an error the log stays as it was.
unfoldable pub finish : Faults → State → ℕ → Claim → Log → Result Error (Unit {0}) × Log
finish fails state next c log = if fails 0 then (err db_error, log) else (
  ok tt,
  record log { deliveries = update (is_held c) (acknowledge state next) log.deliveries },
)

abbrev pub reset : Delivery → Delivery
reset d = record d { attempt = 0; next = 0; state = pending; lease = ""; lease_until = 0 }

-- INSERT … ON CONFLICT(event,target) DO UPDATE
abbrev pub upsert : String → String → List Delivery → List Delivery
upsert id target ds =
    if exists (is_delivery id target) ds
    then update (is_delivery id target) reset ds
    else ds ++ new_delivery id target ∷ []

-- The loop of `Replay` over the targets, inside its transaction.
unfoldable pub replay_targets :
    Faults → (ℕ → ℕ) → ℕ → String → List String → List Delivery → Result Error (List Delivery)
replay_targets fails clock k id [] ds = ok ds
replay_targets fails clock k id (target ∷ targets) ds = do
  call fails k db_error
  guard (count (λ d. is_delivery id target d && ltb (clock k) d.lease_until) ds == 0) in_progress
  call fails (k + 1) db_error
  replay_targets fails clock (k + 2) id targets (upsert id target ds)

unfoldable pub replay : Faults → (ℕ → ℕ) → String → String → List String → Log → Result Error Log
replay fails clock session id targets log = do
  call fails 0 db_error
  call fails 1 db_error
  guard
      (exists
        (λ e. has_id id e && str_eq e.session session && leb (clock 1 - log.retention) e.created)
        log.events)
      missing
  deliveries ← replay_targets fails clock 2 id targets log.deliveries
  call fails (2 + length targets + length targets) db_error
  ok (record log { deliveries = deliveries })

-- `SELECT state,count(*) FROM bus_deliveries GROUP BY state`, with 0 where no row has the state.
pub record Stats : Type 0 where
  pub pending : ℕ
  pub delivered : ℕ
  pub failed : ℕ

abbrev pub is_delivered : State → Bool
is_delivered delivered = true
is_delivered _ = false

abbrev pub is_failed : State → Bool
is_failed failed = true
is_failed _ = false

unfoldable pub stats : Log → Stats
stats log = record {
  pending = count (λ d. is_pending d.state) log.deliveries;
  delivered = count (λ d. is_delivered d.state) log.deliveries;
  failed = count (λ d. is_failed d.state) log.deliveries;
}

abbrev pub is_one_of : List String → String → Bool
is_one_of names name = exists (λ n. str_eq n name) names

unfoldable pub pending_count : List String → Log → ℕ
pending_count targets log =
    count (λ d. is_pending d.state && is_one_of targets d.target) log.deliveries
