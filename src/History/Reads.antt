-- ===== src/History/Reads.antt =====
-- internal/history/store.go: the reading of messages by identity and by pages. A record is its row;
-- the decoded content and message are what the row's two texts say, and `scan` fails where they
-- do not decode.
use wppconnect_server_go.Prelude.{
  ℕ, ◌+◌, String, Bool, true, false, not, ◌&&◌, ◌||◌, List, [], ◌∷◌, ◌++◌, ltb, leb, str_eq,
  if◌then◌else◌, Result, ok, err, ◌>>=◌, ◌>>◌, guard, Faults, call, ◌==◌, take, length, ℤ,
  is_negative, pos_part,
}
use wppconnect_server_go.Table.{select, order_by}
use wppconnect_server_go.History.{
  Row, Store, Error, bad_row, not_found, ambiguous, db_error, invalid_query, invalid_chat, Outside,
  cutoff, is_row, valid_chat,
}

pub record Query : Type 0 where
  pub chat : String
  pub before : ℤ
  pub limit : ℤ
  pub unread : Bool

-- `next` is 0 where there is no next page.
pub record Page : Type 0 where
  pub messages : List Row
  pub next : ℕ

abbrev pub is_newer : Row → Row → Bool
is_newer x y = leb y.seq x.seq

-- The WHERE clause of `List`.
abbrev pub is_listed : ℕ → Query → Row → Bool
is_listed since q r =
    leb since r.t
    && (str_eq q.chat "" || str_eq r.chat q.chat)
    && (pos_part q.before == 0 || ltb r.seq (pos_part q.before))
    && (not q.unread || not r.read && not r.from_me)

abbrev pub matching : ℕ → Query → Store → List Row
matching since q s = order_by is_newer (select (is_listed since q) s.rows)

abbrev pub page_limit : Query → ℕ
page_limit q = if pos_part q.limit == 0 then 50 else pos_part q.limit

-- 4 MiB
abbrev pub max_response : ℕ
max_response = 4194304

abbrev pub last_seq : List Row → ℕ
last_seq [] = 0
last_seq (r ∷ []) = r.seq
last_seq (r ∷ x ∷ rows) = last_seq (x ∷ rows)

abbrev pub is_nil : List Row → Bool
is_nil [] = true
is_nil (r ∷ rows) = false

-- Cuts off the row that was asked for to see whether there is a next page.
unfoldable pub cut : ℕ → Page → Page
cut limit page =
    if ltb limit (length page.messages)
    then record { messages = take limit page.messages; next = last_seq (take limit page.messages) }
    else page

module _ (out : Outside) where
  unfoldable pub scan : Row → Result Error Row
  scan r = do
    guard (out.json_reads r.content) bad_row
    guard (str_eq r.protocol "" || out.proto_reads r.protocol) bad_row
    ok r

  abbrev pub one_of : List Row → Result Error Row
  one_of [] = err not_found
  one_of (r ∷ rows) = scan r

  -- `QueryRow`: the first row, or ErrNoRows.
  unfoldable pub get : Faults → ℕ → ℕ → String → String → Store → Result Error Row
  get fails k now chat id s = do
    call fails k db_error
    one_of (select (λ r. is_row chat id r && leb (cutoff now s) r.t) s.rows)

  abbrev pub scan_all : List Row → Result Error (List Row)
  scan_all [] = ok []
  scan_all (r ∷ rows) = let rest = scan_all rows in scan r >>= λ x. rest >>= λ xs. ok (x ∷ xs)

  abbrev pub only : List Row → Result Error Row
  only [] = err not_found
  only (r ∷ []) = ok r
  only (r ∷ x ∷ rows) = err ambiguous

  unfoldable pub find : Faults → ℕ → String → Store → Result Error Row
  find fails now id s = do
    call fails 0 db_error
    found ← scan_all (take 2 (select (λ r. str_eq r.id id && leb (cutoff now s) r.t) s.rows))
    call fails 1 db_error
    only found

  -- The loop of `List`; `got` and `size` are out.Messages and responseBytes.
  unfoldable pub fill : List Row → (got : List Row) → (size : ℕ) → Result Error Page
  fill [] got size = ok (record { messages = got; next = 0 })
  fill (r ∷ rows) got size =
      let rest = fill rows (got ++ r ∷ []) (size + out.listed_size r) in
      scan r >>= λ x.
      if not (is_nil got) && ltb max_response (size + out.listed_size r)
      then ok (record { messages = got; next = last_seq got })
      else rest

  unfoldable pub list : Faults → ℕ → Query → Store → Result Error Page
  list fails now q s = do
    guard
        (not (is_negative q.limit)
          && leb 1 (page_limit q)
          && leb (page_limit q) 200
          && not (is_negative q.before))
        invalid_query
    guard (str_eq q.chat "" || valid_chat out q.chat) invalid_chat
    call fails 0 db_error
    page ← fill (take (page_limit q + 1) (matching (cutoff now s) q s)) [] 0
    call fails 1 db_error
    ok (cut (page_limit q) page)
