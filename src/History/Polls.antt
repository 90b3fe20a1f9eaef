-- ===== src/History/Polls.antt =====
-- internal/history/metadata.go: the votes on stored polls and their count. The JSON list of a
-- vote's choices is the list. `Vote` reads the message with one call of the database and writes the
-- vote with a later one, and `PollResults` reads the votes with a later one, so the state `seen` by
-- the first is a parameter of its own.
use wppconnect_server_go.Prelude.{
  ℕ, ◌+◌, String, Bool, not, ◌&&◌, ◌||◌, Option, none, some, List, [], ◌∷◌, ◌++◌, ltb, leb, str_eq,
  if◌then◌else◌, Result, ok, err, ◌>>=◌, ◌>>◌, guard, Faults, call, ◌==◌, length, lookup, insert,
}
use wppconnect_server_go.Table.{select, exists, count}
use wppconnect_server_go.History.{
  Row, Vote, Store, Error, db_error, not_found, not_a_poll, invalid_vote, unknown_option, Outside,
  Version, v1, v2, v3, v5, v6, Poll, day, unix_milli, valid_chat,
}
use wppconnect_server_go.History.Reads.{get}
use wppconnect_server_go.History.Labels.{upsert, quota_result}

abbrev pub max_votes : ℕ
max_votes = 100000

abbrev pub is_vote : String → String → String → Vote → Bool
is_vote chat poll voter v = str_eq v.chat chat && str_eq v.poll poll && str_eq v.voter voter

abbrev pub text_in : String → List String → Bool
text_in k ks = exists (str_eq k) ks

abbrev pub put_vote : Faults → Vote → Store → Option Error × Store
put_vote fails v s =
    let same = is_vote v.chat v.poll v.voter in
    let (rows, affected) =
      upsert max_votes same (λ x. ltb x.updated v.updated)
        (λ x. record x { updated = v.updated; choices = v.choices }) v s.votes in
    if fails 1
    then (some db_error, s)
    else (quota_result fails 2 affected (exists same rows), record s { votes = rows })

abbrev pub store_vote :
    Faults
    → (chat poll voter : String) → ℕ
    → Result Error (List String)
    → Store
    → Option Error × Store
store_vote fails chat poll voter at (err e) s = (some e, s)
store_vote fails chat poll voter at (ok selected) s =
    put_vote fails
      (record { chat = chat; poll = poll; voter = voter; updated = at; choices = selected }) s

abbrev pub Counts : Type 0
Counts = List (String × ℕ)

abbrev pub zeros : List String → Counts → Counts
zeros [] counts = counts
zeros (c ∷ cs) counts = zeros cs (insert c 0 counts)

abbrev pub or_zero : Option ℕ → ℕ
or_zero none = 0
or_zero (some n) = n

-- `if name, ok := keys[key]; ok { counts[name]++ }`
abbrev pub bump : Option String → Counts → Counts
bump none counts = counts
bump (some name) counts = insert name (or_zero (lookup name counts) + 1) counts

unfoldable pub tally : List (String × String) → List String → Counts → Counts
tally keys [] counts = counts
tally keys (k ∷ ks) counts = tally keys ks (bump (lookup k keys) counts)

unfoldable pub tally_all : List (String × String) → List Vote → Counts → Counts
tally_all keys [] counts = counts
tally_all keys (v ∷ vs) counts = tally_all keys vs (tally keys v.choices counts)

abbrev pub has_choice : Vote → Bool
has_choice v = ltb 0 (length v.choices)

pub record Results : Type 0 where
  pub choices : List String
  pub selectable : ℕ
  pub counts : Counts
  pub voters : ℕ

module _ (out : Outside) where
  -- The first version that the message has.
  abbrev pub first_poll : List Version → String → Option Poll
  first_poll [] raw = none
  first_poll (v ∷ vs) raw =
      let rest = first_poll vs raw in elim (out.poll_of v raw) [ none ↦ rest | some p ↦ some p ]

  abbrev pub supported : Option Poll → Result Error Poll
  supported none = err not_a_poll
  supported (some p) =
      if ltb (length p.options) 2 || ltb 12 (length p.options) then err not_a_poll else ok p

  unfoldable pub poll_choices : Row → Result Error Poll
  poll_choices r =
      if r.deleted
      then err not_found
      else supported (first_poll (v1 ∷ v2 ∷ v3 ∷ v5 ∷ v6 ∷ []) r.protocol)

  abbrev pub key_of : String → String
  key_of choice = out.hex (out.digest choice)

  -- The map `known` has these keys.
  abbrev pub is_known : List String → String → Bool
  is_known choices k = exists (λ c. str_eq (key_of c) k) choices

  -- The loop over the hashes; `seen` holds what `selected` does.
  unfoldable pub select_hashes :
      (choices selected : List String) → List (List ℕ) → Result Error (List String)
  select_hashes choices selected [] = ok selected
  select_hashes choices selected (h ∷ hs) =
      let k = out.hex h in
      let rest = select_hashes choices (selected ++ k ∷ []) hs in
      if not (length h == 32) || not (is_known choices k) || text_in k selected
      then err unknown_option
      else rest

  abbrev pub valid_vote : ℕ → Poll → String → ℕ → List (List ℕ) → Bool
  valid_vote now p voter at hashes =
      valid_chat out voter
      && leb (length hashes) (length p.options)
      && (p.selectable == 0 || leb (length hashes) p.selectable)
      && ltb 0 at
      && leb at (unix_milli (now + day))

  abbrev pub checked_vote :
      Faults
      → ℕ
      → (chat poll voter : String) → ℕ
      → List (List ℕ)
      → Store
      → Result Error (List String)
  checked_vote fails now chat poll voter at hashes s = do
    r ← get out fails 0 now chat poll s
    p ← poll_choices r
    guard (valid_vote now p voter at hashes) invalid_vote
    select_hashes p.options [] hashes

  unfoldable pub vote :
      Faults
      → ℕ
      → (chat poll voter : String) → ℕ
      → List (List ℕ)
      → (seen s : Store) → Option Error × Store
  vote fails now chat poll voter at hashes seen s =
      store_vote fails chat poll voter at (checked_vote fails now chat poll voter at hashes seen) s

  abbrev pub keys_of : List String → List (String × String) → List (String × String)
  keys_of [] keys = keys
  keys_of (c ∷ cs) keys = keys_of cs (insert (key_of c) c keys)

  unfoldable pub poll_results :
      Faults → ℕ → (chat id : String) → (seen s : Store) → Result Error Results
  poll_results fails now chat id seen s = do
    r ← get out fails 0 now chat id seen
    p ← poll_choices r
    call fails 1 db_error
    call fails 2 db_error
    let cast = select (λ v. str_eq v.chat chat && str_eq v.poll id) s.votes
    ok (record {
      choices = p.options;
      selectable = p.selectable;
      counts = tally_all (keys_of p.options []) cast (zeros p.options []);
      voters = count has_choice cast;
    })
