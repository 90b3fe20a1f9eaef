-- ===== src/History/Invariant.antt =====
-- The tables of a history stay consistent and within their quotas under every operation.
use wppconnect_server_go.Prelude.{
  ℕ, ◌+◌, ◌≤◌, String, len, ◌≡◌, refl, sym, subst, inl, inr, Bool, true, ◌||◌, Option, Option-cases,
  none, some, List, arith, str_eq, length, All, All-of_In, Bool-cases, ok, Faults, Result-cases,
  ltb,
}
use wppconnect_server_go.Table.Laws.{In-select, length-select-le}
use wppconnect_server_go.Media.Messages.{Message, unwrap}
use wppconnect_server_go.History.{
  Row, Label, Link, Vote, Store, Outside, Info, has_row, delete_rows, insert_row, is_over, keep_of,
  budget_of, enforce_limits, drop_orphans, cutoff, prune, prune_all, new_row, put_message, put,
  max_part,
}
use wppconnect_server_go.History.Rows.{IsSound, delete_rows-IsSound, insert_row-IsSound}
use wppconnect_server_go.History.Labels.{max_labels, max_links}
use wppconnect_server_go.History.Polls.{max_votes}

pub record IsValid (s : Store) : Type 0 where
  pub sound : IsSound s
  pub received : All (λ x. has_row s.rows x.chat x.id ≡ true) s.receipts
  pub few_labels : length s.labels ≤ max_labels
  pub few_links : length s.links ≤ max_links
  pub few_votes : length s.votes ≤ max_votes

-- What a successful `prune` leaves.
abbrev pub pruned : ℕ → Store → Store
pruned now s = drop_orphans (enforce_limits (delete_rows (λ r. ltb r.t (cutoff now s)) s))

pub prune_ok :
    (fails : Faults) (k now : ℕ) (s s' : Store) → prune fails k now s ≡ ok s' → s' ≡ pruned now s
unfolding prune
prune_ok fails k now s s' h = ground arith

pub enforce_limits-IsSound : (s : Store) → IsSound s → IsSound (enforce_limits s)
unfolding enforce_limits
enforce_limits-IsSound s v =
    elim (Bool-cases (ltb s.options.max_messages s.n || ltb s.options.max_bytes s.b)) [
      | inl e ↦
          rw e (delete_rows-IsSound (is_over (keep_of s.options) (budget_of s.options) s.rows) s v)
      | inr e ↦ rw e v
    ]

-- Neither a deletion of rows nor the limits touch the other tables.
abbrev pub SameTables : Store → Store → Type 0
SameTables s s' =
    (s'.options ≡ s.options)
    × (s'.labels ≡ s.labels)
    × (s'.links ≡ s.links)
    × (s'.votes ≡ s.votes)
    × (s'.receipts ≡ s.receipts)

pub insert_row-SameTables : (r : Row) (s : Store) → SameTables s (insert_row r s)
unfolding insert_row
insert_row-SameTables r s = elim (Bool-cases (has_row s.rows r.chat r.id)) [
  | inl e ↦ rw e (refl, refl, refl, refl, refl)
  | inr e ↦ rw e (refl, refl, refl, refl, refl)
]

pub fresh-SameTables :
    (p : Row → Bool) (s : Store) → SameTables s (enforce_limits (delete_rows p s))
unfolding enforce_limits delete_rows
fresh-SameTables p s =
    elim (Bool-cases (
      ltb s.options.max_messages (delete_rows p s).n
      || ltb s.options.max_bytes (delete_rows p s).b)) [
        | inl e ↦ rw e (refl, refl, refl, refl, refl)
        | inr e ↦ rw e (refl, refl, refl, refl, refl)
      ]

-- A store with sound rows whose orphans are dropped.
drop_orphans-IsValid :
    (s : Store)
    → IsSound s
    → length s.labels ≤ max_labels
    → length s.links ≤ max_links
    → length s.votes ≤ max_votes
    → IsValid (drop_orphans s)
unfolding drop_orphans
drop_orphans-IsValid s v labels links votes = record {
  sound = record {
    counted = v.counted;
    sized = v.sized;
    rising = v.rising;
    bounded = v.bounded;
    distinct = v.distinct;
  };
  received = All-of_In _ _ λ x m. (In-select (λ x. has_row s.rows x.chat x.id) x s.receipts m).1;
  few_labels = labels;
  few_links = omega (
    arith,
    links,
    length-select-le (λ l. str_eq l.message "" || has_row s.rows l.chat l.message) s.links,
  );
  few_votes = omega (arith, votes, length-select-le (λ v. has_row s.rows v.chat v.poll) s.votes);
}

pub pruned-IsValid :
    (now : ℕ) (s : Store)
    → IsSound s
    → length s.labels ≤ max_labels
    → length s.links ≤ max_links
    → length s.votes ≤ max_votes
    → IsValid (pruned now s)
pruned-IsValid now s v labels links votes =
    let old = λ (r : Row). ltb r.t (cutoff now s) in
    let t = fresh-SameTables old s in
    drop_orphans-IsValid (enforce_limits (delete_rows old s))
      (enforce_limits-IsSound (delete_rows old s) (delete_rows-IsSound old s v))
      (subst (λ (x : List Label). length x ≤ max_labels) (sym t.1) labels)
      (subst (λ (x : List Link). length x ≤ max_links) (sym t.2) links)
      (subst (λ (x : List Vote). length x ≤ max_votes) (sym t.3) votes)

pub prune_all-IsValid :
    (fails : Faults) (now : ℕ) (s s' : Store)
    → IsValid s
    → prune_all fails now s ≡ ok s'
    → IsValid s'
unfolding prune_all
prune_all-IsValid fails now s s' v h = elim (Result-cases (prune fails 1 now s)) [
  | inl (x, p) ↦
      let same : s' ≡ pruned now s = ground (arith, p, prune_ok fails 1 now s x p) in
      subst IsValid (sym same) (pruned-IsValid now s v.sound v.few_labels v.few_links v.few_votes)
  | inr (e, p) ↦ absurd (ground (arith, p))
]

-- What a `Put` that returns without an error has done.
pub record Stored (out : Outside) (now later : ℕ) (info : Info) (m : Message) (s s' : Store)
    : Type 0 where
  pub raw : String
  pub text : String
  pub marshalled : out.marshal m ≡ some raw
  pub viewed : out.view info m ≡ some text
  pub small : len text ≤ max_part
  pub fits : out.size m ≤ max_part
  pub result_is : s' ≡ pruned later (insert_row (new_row out now (s.sequence + 1) info text raw) s)

put_message_ok :
    (out : Outside) (fails : Faults) (now later : ℕ) (info : Info) (m : Message) (s s' : Store)
    → put_message out fails now later info m s ≡ ok s'
    → Stored out now later info m s s'
put_message_ok out fails now later info m s s' h = elim (Option-cases (out.marshal m)) [
  | inl r ↦ absurd (ground (arith, r))
  | inr (raw, r) ↦ elim (Option-cases (out.view info m)) [
    | inl t ↦ absurd (ground (arith, r, t))
    | inr (text, t) ↦
        let row = new_row out now (s.sequence + 1) info text raw in
        elim (Result-cases (prune fails 2 later (insert_row row s))) [
          | inl (x, p) ↦
              let q = prune_ok fails 2 later (insert_row row s) x p in
              record {
                raw = raw;
                text = text;
                marshalled = r;
                viewed = t;
                small = ground (arith, r, t, p);
                fits = ground (arith, r, t, p);
                result_is = ground (arith, r, t, p, q);
              }
          | inr (e, p) ↦ absurd (ground (arith, r, t, p))
        ]
  ]
]

pub put_ok :
    (out : Outside) (fails : Faults) (now later : ℕ) (info : Info) (m : Message) (s s' : Store)
    → put out fails now later info (some m) s ≡ ok s'
    → Stored out now later info (unwrap m) s s'
unfolding put
put_ok out fails now later info m s s' h =
    put_message_ok out fails now later info (unwrap m) s s' (ground arith)

pub Stored-IsValid :
    (out : Outside) (now later : ℕ) (info : Info) (m : Message) (s s' : Store)
    → IsValid s
    → Stored out now later info m s s'
    → IsValid s'
Stored-IsValid out now later info m s s' v st =
    let row = new_row out now (s.sequence + 1) info st.text st.raw in
    let t = insert_row-SameTables row s in
    subst IsValid (sym st.result_is) (
      pruned-IsValid later (insert_row row s) (insert_row-IsSound row s refl v.sound)
        (subst (λ (x : List Label). length x ≤ max_labels) (sym t.1) v.few_labels)
        (subst (λ (x : List Link). length x ≤ max_links) (sym t.2) v.few_links)
        (subst (λ (x : List Vote). length x ≤ max_votes) (sym t.3) v.few_votes))

pub put-IsValid :
    (out : Outside) (fails : Faults) (now later : ℕ) (info : Info) (m : Option Message)
    (s s' : Store)
    → IsValid s
    → put out fails now later info m s ≡ ok s'
    → IsValid s'
unfolding put
put-IsValid out fails now later info none s s' v h = subst IsValid (ground arith) v
put-IsValid out fails now later info (some m) s s' v h =
    Stored-IsValid out now later info (unwrap m) s s' v (put_ok out fails now later info m s s' h)
