-- ===== src/EventLog/Append.antt =====
-- What a successful `append` has done, part by part.
use wppconnect_server_go.Prelude.{
  ℕ, ◌+◌, ◌-◌, ◌≤◌, ◌<◌, String, len, ◌≡◌, inl, inr, false, some, List, arith, Result-cases, ok,
  Faults,
}
use wppconnect_server_go.Table.{exists}
use wppconnect_server_go.EventLog.{
  Event, Delivery, Log, Json, has_id, is_expired, delete_events, insert_event, insert_deliveries,
  body_fields, append, max_event,
}

abbrev pub expire : ℕ → Log → Log
expire now log = delete_events (is_expired (now - log.retention) log.deliveries) log

pub record Appended (json : Json) (fails : Faults) (created now : ℕ) (id name session : String)
    (fields : List (String × Json.Value json)) (targets : List String) (log : Log) (e : Event)
    (log' : Log) : Type 0 where
  pub rows : List Delivery
  pub inserted : insert_deliveries fails 5 id targets (expire now log).deliveries ≡ ok rows
  pub log_is : log' ≡ record (insert_event e (expire now log)) { deliveries = rows }
  pub encoded : Json.marshal json (body_fields json name session fields) ≡ some e.body
  pub fits : len e.body ≤ max_event
  pub room : (expire now log).n < log.limit
  pub bytes : (expire now log).b + len e.body ≤ log.max_bytes
  pub fresh : exists (has_id id) (expire now log).events ≡ false
  pub id_is : e.id ≡ id
  pub session_is : e.session ≡ session
  pub name_is : e.name ≡ name
  pub created_is : e.created ≡ created
  pub sequence_is : e.sequence ≡ log.sequence + 1

pub append_ok :
    (json : Json) (fails : Faults) (created now : ℕ) (id name session : String)
    (fields : List (String × Json.Value json)) (targets : List String) (log : Log) (e : Event)
    (log' : Log)
    → append json fails created now id name session fields targets log ≡ ok (e, log')
    → Appended json fails created now id name session fields targets log e log'
unfolding append insert_event
append_ok json fails created now id name session fields targets log e log' h =
    elim (Result-cases (insert_deliveries fails 5 id targets (expire now log).deliveries)) [
      | inl (ds, p) ↦ record {
        rows = ds;
        inserted = p;
        log_is = ground (arith, p);
        encoded = ground (arith, p);
        fits = ground (arith, p);
        room = ground (arith, p);
        bytes = ground (arith, p);
        fresh = ground (arith, p);
        id_is = ground (arith, p);
        session_is = ground (arith, p);
        name_is = ground (arith, p);
        created_is = ground (arith, p);
        sequence_is = ground (arith, p);
      }
      | inr (x, p) ↦ ground (arith, p)
    ]
