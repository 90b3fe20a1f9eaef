-- ===== src/History/Attachments.antt =====
-- internal/history/attachments.go: the table of the attachments that are kept in object storage, with
-- its quotas. An upload reserves a row first and marks it ready when the object is stored.
use wppconnect_server_go.Prelude.{
  ℕ, ◌+◌, String, len, Bool, true, false, not, ◌&&◌, ◌||◌, Option, none, some, List, [], ◌∷◌, ◌++◌,
  ltb, leb, str_eq, if◌then◌else◌, sum_by, Result, ok, err, ◌>>◌, guard, Faults, call, ◌==◌, length,
  take,
}
use wppconnect_server_go.Table.{select, delete, update, exists, count, order_by}
use wppconnect_server_go.History.{Outside, unix_milli, valid_id, valid_chat}

pub record StoredMedia : Type 0 where
  pub chat : String
  pub id : String
  pub key : String
  pub mime : String
  pub size : ℕ
  pub hash : String
  pub expires : ℕ
  pub ready : Bool

pub data MediaError : Type 0 where
  media_db invalid_media media_quota already_stored media_missing : MediaError

-- 16 MiB
abbrev pub max_media : ℕ
max_media = 16777216

-- 512 MiB
abbrev pub max_total : ℕ
max_total = 536870912

abbrev pub max_objects : ℕ
max_objects = 1000

abbrev pub media_size : StoredMedia → ℕ
media_size m = m.size

abbrev pub is_media : String → String → StoredMedia → Bool
is_media chat id m = str_eq m.chat chat && str_eq m.id id

-- `PRIMARY KEY(chat,id)` and `object … UNIQUE`.
abbrev pub conflicts : StoredMedia → StoredMedia → Bool
conflicts m x = is_media m.chat m.id x || str_eq x.key m.key

abbrev pub has_key : StoredMedia → StoredMedia → Bool
has_key m x = is_media m.chat m.id x && str_eq x.key m.key

module _ (out : Outside) where
  abbrev pub valid_media : ℕ → StoredMedia → Bool
  valid_media now m =
      valid_chat out m.chat
      && valid_id m.id
      && not (str_eq m.key "")
      && leb 1 m.size
      && leb m.size max_media
      && len m.hash == 64
      && ltb (unix_milli now) m.expires

  unfoldable pub reserve :
      Faults → ℕ → StoredMedia → List StoredMedia → Result MediaError (List StoredMedia)
  reserve fails now m rows = do
    guard (valid_media now m) invalid_media
    call fails 0 media_db
    call fails 1 media_db
    guard (ltb (length rows) max_objects && leb (sum_by media_size rows + m.size) max_total)
        media_quota
    guard (not (fails 2) && not (exists (conflicts m) rows)) already_stored
    call fails 3 media_db
    ok (rows ++ record m { ready = false } ∷ [])

abbrev pub made_ready : ℕ → StoredMedia → StoredMedia
made_ready expires x = record x { ready = true; expires = expires }

unfoldable pub finish_media :
    Faults → StoredMedia → List StoredMedia → Option MediaError × List StoredMedia
finish_media fails m rows = if fails 0 then (some media_db, rows) else (
  if fails 1
      then some media_db
      else if count (has_key m) rows == 1
      then none
      else some media_missing,
  update (has_key m) (made_ready m.expires) rows,
)

abbrev pub first_media : List StoredMedia → Result MediaError StoredMedia
first_media [] = err media_missing
first_media (m ∷ rows) = ok m

unfoldable pub media :
    Faults → ℕ → String → String → List StoredMedia → Result MediaError StoredMedia
media fails now chat id rows = do
  call fails 0 media_db
  first_media (select (λ m. is_media chat id m && m.ready && ltb (unix_milli now) m.expires) rows)

abbrev pub expires_before : StoredMedia → StoredMedia → Bool
expires_before x y = leb x.expires y.expires

-- `now` is milliseconds.
unfoldable pub expired_media : Faults → ℕ → List StoredMedia → Result MediaError (List StoredMedia)
expired_media fails now rows = do
  call fails 0 media_db
  call fails 1 media_db
  ok (take 100 (order_by expires_before (select (λ m. leb m.expires now) rows)))

unfoldable pub forget_media :
    Faults → (chat id key : String) → List StoredMedia → Result MediaError (List StoredMedia)
forget_media fails chat id key rows = do
  call fails 0 media_db
  ok (delete (λ m. is_media chat id m && str_eq m.key key) rows)
