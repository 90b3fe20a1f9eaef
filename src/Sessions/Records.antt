-- ===== src/Sessions/Records.antt =====
-- internal/session/restore.go, readRecord and writeRecord; settings.go, ValidateSettings.
use wppconnect_server_go.Prelude.{
  ◌<◌, String, len, ◌≡◌, inl, inr, Bool, true, false, not, ◌&&◌, ◌||◌, none, some, List, arith, leb,
  str_eq, eq_refl, if◌then◌else◌, Result, ok, err, ◌>>=◌, ◌>>◌, guard, or_fail, lookup, insert,
  lookup-insert, Option-cases,
}
use wppconnect_server_go.Sessions.{
  Settings, Record, blank, Error, invalid_name, io_failed, too_large, bad_syntax, wrong_name,
  bad_settings, Outside, valid_name,
}

module _ (out : Outside) where
  open out use {encode, decode, parse}

  abbrev pub parse_record : String → String → Result Error Record
  parse_record name b = do
    guard (leb (len b) 4096) too_large
    r ← or_fail (decode (blank name) b) bad_syntax
    guard (str_eq r.name name) wrong_name
    ok r

  -- `io` says that the file system fails other than by having no such file.
  unfoldable pub read_record : (io : Bool) → String → List (String × String) → Result Error Record
  read_record io name files = do
    guard (valid_name out name) invalid_name
    guard (not io) io_failed
    elim (lookup name files) [ none ↦ ok (blank name) | some b ↦ parse_record name b ]

  -- A temporary file that is renamed: a failure leaves the files as they were.
  unfoldable pub write_record :
      (io : Bool) → Record → List (String × String) → Result Error (List (String × String))
  write_record io r files = do
    guard (valid_name out r.name) invalid_name
    b ← or_fail (encode r) bad_syntax
    guard (not io) io_failed
    ok (insert r.name b files)

  abbrev pub valid_scheme : String → Bool
  valid_scheme s = str_eq s "http" || str_eq s "https" || str_eq s "socks5"

  unfoldable pub validate_settings : Settings → Result Error (Unit {0})
  validate_settings v = if str_eq v.proxy_url "" then ok tt else do
    (scheme, host) ← or_fail (parse v.proxy_url) bad_settings
    guard (not (str_eq host "") && valid_scheme scheme) bad_settings
    guard (leb (len v.proxy_url) 2048) bad_settings

  pub write_ok :
      (io : Bool) (r : Record) (files files' : List (String × String))
      → write_record io r files ≡ ok files'
      → (b : String) × (valid_name out r.name ≡ true)
        × (encode r ≡ some b)
        × (files' ≡ insert r.name b files)
  unfolding write_record
  write_ok io r files files' w = elim (Option-cases (encode r)) [
    | inl e ↦ ground (arith, w, e)
    | inr (b, e) ↦ (b, ground (arith, w, e), e, ground (arith, w, e))
  ]

  -- What a record that was read successfully came from.
  pub read_ok :
      (io : Bool) (name b : String) (files : List (String × String)) (r r' : Record)
      → lookup name files ≡ some b
      → decode (blank name) b ≡ some r'
      → read_record io name files ≡ ok r
      → r ≡ r'
  unfolding read_record
  read_ok io name b files r r' l d w = ground (arith, l, d, w)

  -- A record of a valid name whose encoding takes more than 4 KiB is written without an error where
  -- the file system does not fail, and reading it after that is refused, since it is too large.
  pub oversized_lem :
      (r : Record) (b : String) (files : List (String × String))
      → valid_name out r.name ≡ true
      → encode r ≡ some b
      → 4096 < len b
      → (write_record false r files ≡ ok (insert r.name b files))
        × (read_record false r.name (insert r.name b files) ≡ err too_large)
  unfolding read_record write_record
  oversized_lem r b files v e l =
      let found : lookup r.name (insert r.name b files) ≡ some b =
        ground (arith, lookup-insert r.name r.name b files, eq_refl r.name) in
      (ground (arith, v, e), ground (arith, v, found, l))
