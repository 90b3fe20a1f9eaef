-- ===== src/History/Reach.antt =====
-- The labels, the links and the votes stay within their quotas, and every sequence of operations
-- keeps a history consistent.
use wppconnect_server_go.Prelude.{
  ℕ, String, ◌≡◌, refl, subst, inl, inr, Bool, Option, List, [], arith, Bool-cases, ok, Faults,
  Result-cases, ltb, leb,
}
use wppconnect_server_go.Media.Messages.{Message}
use wppconnect_server_go.History.{Label, Link, Vote, Store, Outside, Info, Options, prune_all, put}
use wppconnect_server_go.History.Invariant.{IsValid, put-IsValid, prune_all-IsValid}
use wppconnect_server_go.History.Edits.{mark_read, change_at, purge, ReceiptEvent, receipt}
use wppconnect_server_go.History.Labels.{
  max_labels, max_links, has_label, is_link, renamed, put_label, relinked, put_link, set_label,
  associate, valid_label, valid_link, or_now,
}
use wppconnect_server_go.History.Polls.{max_votes, is_vote, checked_vote, put_vote, vote}
use wppconnect_server_go.History.Steps.{
  mark_read-IsValid, change_at-IsValid, purge-IsValid, receipt-IsValid, upsert-le,
}

put_label-IsValid :
    (fails : Faults) (x : Label) (s : Store) → IsValid s → IsValid (put_label fails x s).1
put_label-IsValid fails x s v = elim (Bool-cases (fails 0)) [
  | inl e ↦ rw e v
  | inr e ↦ rw e (record {
    sound = record {
      counted = v.sound.counted;
      sized = v.sound.sized;
      rising = v.sound.rising;
      bounded = v.sound.bounded;
      distinct = v.sound.distinct;
    };
    received = v.received;
    few_labels =
        upsert-le max_labels (has_label x.id) (λ l. leb l.updated x.updated) (renamed x) x s.labels
          v.few_labels;
    few_links = v.few_links;
    few_votes = v.few_votes;
  })
]

set_label-IsValid :
    (out : Outside) (fails : Faults) (now : ℕ) (x : Label) (s : Store)
    → IsValid s
    → IsValid (set_label out fails now x s).1
unfolding set_label
set_label-IsValid out fails now x s v = elim (Bool-cases (valid_label out x)) [
  | inr e ↦ rw e v
  | inl e ↦ rw e (put_label-IsValid fails (record x { updated = or_now now x.updated }) s v)
]

put_link-IsValid :
    (fails : Faults) (x : Link) (s : Store) → IsValid s → IsValid (put_link fails x s).1
put_link-IsValid fails x s v = elim (Bool-cases (fails 0)) [
  | inl e ↦ rw e v
  | inr e ↦ rw e (record {
    sound = record {
      counted = v.sound.counted;
      sized = v.sound.sized;
      rising = v.sound.rising;
      bounded = v.sound.bounded;
      distinct = v.sound.distinct;
    };
    received = v.received;
    few_labels = v.few_labels;
    few_links =
        upsert-le max_links (is_link x.label x.chat x.message) (λ l. leb l.updated x.updated)
          (relinked x) x s.links v.few_links;
    few_votes = v.few_votes;
  })
]

associate-IsValid :
    (out : Outside) (fails : Faults) (now : ℕ) (label chat message : String) (active : Bool)
    (at : ℕ) (s : Store)
    → IsValid s
    → IsValid (associate out fails now label chat message active at s).1
unfolding associate
associate-IsValid out fails now label chat message active at s v =
    elim (Bool-cases (valid_link out label chat message)) [
      | inr e ↦ rw e v
      | inl e ↦ rw e (
          put_link-IsValid fails
            (record {
              label = label;
              chat = chat;
              message = message;
              active = active;
              updated = or_now now at;
            })
            s v)
    ]

put_vote-IsValid :
    (fails : Faults) (x : Vote) (s : Store) → IsValid s → IsValid (put_vote fails x s).1
put_vote-IsValid fails x s v =
    let set = λ (y : Vote). record y { updated = x.updated; choices = x.choices } in
    let same = is_vote x.chat x.poll x.voter in
    elim (Bool-cases (fails 1)) [
      | inl e ↦ rw e v
      | inr e ↦ rw e (record {
        sound = record {
          counted = v.sound.counted;
          sized = v.sound.sized;
          rising = v.sound.rising;
          bounded = v.sound.bounded;
          distinct = v.sound.distinct;
        };
        received = v.received;
        few_labels = v.few_labels;
        few_links = v.few_links;
        few_votes =
            upsert-le max_votes same (λ y. ltb y.updated x.updated) set x s.votes v.few_votes;
      })
    ]

vote-IsValid :
    (out : Outside) (fails : Faults) (now : ℕ) (chat poll voter : String) (at : ℕ)
    (hashes : List (List ℕ)) (seen s : Store)
    → IsValid s
    → IsValid (vote out fails now chat poll voter at hashes seen s).1
unfolding vote
vote-IsValid out fails now chat poll voter at hashes seen s v =
    elim (Result-cases (checked_vote out fails now chat poll voter at hashes seen)) [
      | inl (selected, p) ↦ rw p (
          put_vote-IsValid fails
            (record { chat = chat; poll = poll; voter = voter; updated = at; choices = selected }) s
            v)
      | inr (e, p) ↦ rw p v
    ]

-- One operation on the history. Those in a transaction count when they return without an error, the
-- others in any case. A change or a vote may have read its message from any other state of the
-- history, since other operations run between its two calls of the database.
pub data Step (out : Outside) (s s' : Store) : Type 0 where
  puts :
      (fails : Faults) (now later : ℕ) (info : Info) (m : Option Message)
      → put out fails now later info m s ≡ ok s'
      → Step out s s'
  prunes : (fails : Faults) (now : ℕ) → prune_all fails now s ≡ ok s' → Step out s s'
  reads :
      (fails : Faults) (k : ℕ) (chat : String) (ids : List String)
      → (mark_read fails k chat ids s).1 ≡ s'
      → Step out s s'
  changes :
      (fails : Faults) (now : ℕ) (chat id : String) (m : Option Message) (at : ℕ) (seen : Store)
      → change_at out fails now chat id m at seen s ≡ ok s'
      → Step out s s'
  purges : (fails : Faults) (chat : String) → purge out fails chat s ≡ ok s' → Step out s s'
  receives : (fails : Faults) (e : Option ReceiptEvent) → (receipt fails e s).1 ≡ s' → Step out s s'
  labels :
      (fails : Faults) (now : ℕ) (x : Label) → (set_label out fails now x s).1 ≡ s' → Step out s s'
  links :
      (fails : Faults) (now : ℕ) (label chat message : String) (active : Bool) (at : ℕ)
      → (associate out fails now label chat message active at s).1 ≡ s'
      → Step out s s'
  votes :
      (fails : Faults) (now : ℕ) (chat poll voter : String) (at : ℕ) (hashes : List (List ℕ))
      (seen : Store)
      → (vote out fails now chat poll voter at hashes seen s).1 ≡ s'
      → Step out s s'

pub data Reached (out : Outside) (first : Store) : Store → Type 0 where
  here : Reached out first first
  next : {s s' : Store} → Reached out first s → Step out s s' → Reached out first s'

Step-IsValid : (out : Outside) (s s' : Store) → Step out s s' → IsValid s → IsValid s'
Step-IsValid out s s' (puts fails now later info m h) v =
    put-IsValid out fails now later info m s s' v h
Step-IsValid out s s' (prunes fails now h) v = prune_all-IsValid fails now s s' v h
Step-IsValid out s s' (reads fails k chat ids h) v =
    subst IsValid h (mark_read-IsValid fails k chat ids s v)
Step-IsValid out s s' (changes fails now chat id m at seen h) v =
    change_at-IsValid out fails now chat id m at seen s s' v h
Step-IsValid out s s' (purges fails chat h) v = purge-IsValid out fails chat s s' v h
Step-IsValid out s s' (receives fails e h) v = subst IsValid h (receipt-IsValid fails e s v)
Step-IsValid out s s' (labels fails now x h) v =
    subst IsValid h (set_label-IsValid out fails now x s v)
Step-IsValid out s s' (links fails now label chat message active at h) v =
    subst IsValid h (associate-IsValid out fails now label chat message active at s v)
Step-IsValid out s s' (votes fails now chat poll voter at hashes seen h) v =
    subst IsValid h (vote-IsValid out fails now chat poll voter at hashes seen s v)

abbrev pub new_store : Options → Store
new_store o = record {
  options = o;
  rows = [];
  sequence = 0;
  n = 0;
  b = 0;
  labels = [];
  links = [];
  votes = [];
  receipts = [];
}

pub new_store-IsValid : (o : Options) → IsValid (new_store o)
new_store-IsValid o = record {
  sound = record { counted = refl; sized = refl; rising = tt; bounded = tt; distinct = tt };
  received = tt;
  few_labels = omega arith;
  few_links = omega arith;
  few_votes = omega arith;
}

-- From any consistent store, in particular a new one, every sequence of stored messages, prunings,
-- changes, deletions, purges, receipts, labels, associations and votes, with any failures of the
-- database, leads to a store whose counters equal the number and the bytes of its messages, whose
-- sequence numbers rise strictly up to the AUTOINCREMENT counter, which has one row for each chat and
-- message, whose receipts all belong to a stored message, and which has at most 1,000 labels, 100,000
-- associations and 100,000 votes. The message that a change or a vote is checked against may have
-- been read from any other state of the history.
pub Reached-IsValid :
    (out : Outside) {first s : Store} → IsValid first → Reached out first s → IsValid s
Reached-IsValid out v here = v
Reached-IsValid out v (next {s = a} {s' = b} r t) = Step-IsValid out a b t (Reached-IsValid out v r)
