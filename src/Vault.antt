-- ===== src/Vault.antt =====
-- internal/vault/vault.go: the archive of media in object storage. `Objects` is the interface of the
-- same name over the bucket that the server keeps; an operation that fails may still have changed it.
pub mod Archives
pub mod Ownership
pub mod Tests
use Prim.Native.String.{String, [], ◌∷◌, ◌++◌}
use Prim.Native.Char.{code}
use wppconnect_server_go.Prelude.{
  ℕ, ◌+◌, ◌*◌, len, Bool, true, false, not, ◌&&◌, ◌||◌, Option, none, some, ltb, leb, str_eq, ◌==◌,
  if◌then◌else◌, Result, ok, err, ◌>>=◌, ◌>>◌, guard, or_fail, Faults, List,
}
use wppconnect_server_go.History.{Outside, day, second, unix_milli}
use wppconnect_server_go.History.Attachments.{
  StoredMedia, MediaError, max_media, reserve, finish_media, media, expired_media, forget_media,
}

-- `put` and `delete` answer whether they return without an error.
pub record Objects (Bucket : Type 0) : Type 0 where
  pub put : Bucket → (key body mime : String) → Bool × Bucket
  pub get : Bucket → String → Option String
  pub delete : Bucket → String → Bool × Bucket

-- `S3.Get` reads one byte more than the limit to see whether the object is larger.
unfoldable pub limited : Option String → Option String
limited none = none
limited (some body) = if ltb max_media (len body) then none else some body

pub data VaultError : Type 0 where
  bad_config upload_failed finish_failed not_owned download_failed bad_object delete_failed :
      VaultError
  store_failed : MediaError → VaultError

-- What stands behind a prefix: strings.HasPrefix with strings.TrimPrefix.
abbrev pub after_prefix : String → String → Option String
after_prefix s [] = some s
after_prefix [] (c ∷ p) = none
after_prefix (d ∷ s) (c ∷ p) = if code d == code c then after_prefix s p else none

pub record Archived (Bucket : Type 0) : Type 0 where
  pub error : Option VaultError
  pub result : StoredMedia
  pub rows : List StoredMedia
  pub bucket : Bucket

abbrev pub empty_media : StoredMedia
empty_media = record {
  chat = "";
  id = "";
  key = "";
  mime = "";
  size = 0;
  hash = "";
  expires = 0;
  ready = false;
}

abbrev pub hour : ℕ
hour = 3600 * second

-- `is_uuid` is uuid.Parse without an error.
module _ (out : Outside) (is_uuid : String → Bool) where
  open out use {digest, hex}

  abbrev pub object_key : (session chat id : String) → String
  object_key session chat id =
      "wppconnect/" ++ hex (digest session) ++ "/" ++ hex (digest (chat ++ "\0" ++ id))

  abbrev pub key_prefix : String → StoredMedia → String
  key_prefix session m = object_key session m.chat m.id ++ "/"

  unfoldable pub owns : String → StoredMedia → Bool
  owns session m = elim (after_prefix m.key (key_prefix session m)) [
    | none ↦ false
    | some rest ↦ is_uuid rest
  ]

  module _ {Bucket : Type 0} (objects : Objects Bucket) where
    abbrev pub new_media :
        (now retention : ℕ) → (uuid session chat id mime body : String) → StoredMedia
    new_media now retention uuid session chat id mime body = record {
      chat = chat;
      id = id;
      key = (object_key session chat id ++ "/") ++ uuid;
      mime = mime;
      size = len body;
      hash = hex (digest body);
      expires = unix_milli (now + retention);
      ready = false;
    }

    -- The upload and the acknowledgement, once a row is reserved.
    abbrev pub finish_archive :
        Bool × Bucket → Faults → StoredMedia → List StoredMedia → Archived Bucket
    finish_archive (false, bucket) fails m rows = record {
      error = some upload_failed;
      result = m;
      rows = rows;
      bucket = bucket;
    }
    finish_archive (true, bucket) fails m rows =
        let (e, rows') = finish_media fails m rows in
        elim e [
          | some x ↦ record {
            error = some finish_failed;
            result = m;
            rows = rows';
            bucket = bucket;
          }
          | none ↦ record {
            error = none;
            result = record m { ready = true };
            rows = rows';
            bucket = bucket;
          }
        ]

    abbrev pub store_archive :
        Result MediaError (List StoredMedia)
        → Faults
        → StoredMedia
        → String
        → List StoredMedia
        → Bucket
        → Archived Bucket
    store_archive (err e) fails m body rows bucket = record {
      error = some (store_failed e);
      result = m;
      rows = rows;
      bucket = bucket;
    }
    store_archive (ok rows') fails m body rows bucket =
        finish_archive (objects.put bucket m.key body m.mime) fails m rows'

    -- `enabled` is whether the vault has an object store; the clock is read for the expiry, for that of
    -- the reservation and in ReserveMedia.
    unfoldable pub archive :
        (enabled : Bool) (retention : ℕ) (reserve_fails finish_fails : Faults) (now hold at : ℕ)
        → (uuid session chat id mime body : String) → List StoredMedia
        → Bucket
        → Archived Bucket
    archive enabled retention reserve_fails finish_fails now hold at uuid session chat id mime body
          rows bucket =
        if not enabled || not (ltb 0 retention && leb retention (30 * day))
        then record { error = some bad_config; result = empty_media; rows = rows; bucket = bucket }
        else let m = new_media now retention uuid session chat id mime body in
          store_archive
            (reserve out reserve_fails at (record m { expires = unix_milli (hold + hour) }) rows)
            finish_fails m body rows bucket

    abbrev pub verify : StoredMedia → String → Result VaultError (StoredMedia × String)
    verify m body = do
      guard (len body == m.size && str_eq (hex (digest body)) m.hash) bad_object
      ok (m, body)

    abbrev pub fetch : String → Bucket → StoredMedia → Result VaultError (StoredMedia × String)
    fetch session bucket m = do
      guard (owns session m) not_owned
      body ← or_fail (limited (objects.get bucket m.key)) download_failed
      verify m body

    abbrev pub lifted : Result MediaError StoredMedia → Result VaultError StoredMedia
    lifted (err e) = err (store_failed e)
    lifted (ok m) = ok m

    unfoldable pub download :
        Faults
        → ℕ
        → (session chat id : String) → List StoredMedia
        → Bucket
        → Result VaultError (StoredMedia × String)
    download fails now session chat id rows bucket =
        lifted (media fails now chat id rows) >>= fetch session bucket

    abbrev pub forgotten :
        Result MediaError (List StoredMedia)
        → List StoredMedia
        → Option VaultError × List StoredMedia
    forgotten (err e) rows = (some (store_failed e), rows)
    forgotten (ok rows') rows = (none, rows')

    abbrev pub delete_answer :
        Bool × Bucket
        → Faults
        → StoredMedia
        → List StoredMedia
        → Option VaultError × List StoredMedia × Bucket
    delete_answer (false, bucket) fails m rows = (some delete_failed, rows, bucket)
    delete_answer (true, bucket) fails m rows =
        let (e, rows') = forgotten (forget_media fails m.chat m.id m.key rows) rows in
        (e, rows', bucket)

    unfoldable pub delete :
        Faults
        → String
        → StoredMedia
        → List StoredMedia
        → Bucket
        → Option VaultError × List StoredMedia × Bucket
    delete fails session m rows bucket =
        if not (owns session m)
        then (some not_owned, rows, bucket)
        else delete_answer (objects.delete bucket m.key) fails m rows

    -- The loop of `Cleanup` ends at the first error.
    unfoldable pub clean :
        (ℕ → Faults)
        → String
        → List StoredMedia
        → List StoredMedia
        → Bucket
        → Option VaultError × List StoredMedia × Bucket
    clean fails session List.[] rows bucket = (none, rows, bucket)
    clean fails session (List.◌∷◌ m ms) rows bucket =
        let (e, rows', bucket') = delete (fails 1) session m rows bucket in
        let rest = clean (λ k. fails (1 + k)) session ms rows' bucket' in
        elim e [ some x ↦ (some x, rows', bucket') | none ↦ rest ]

    abbrev pub clean_listed :
        Result MediaError (List StoredMedia)
        → (ℕ → Faults)
        → String
        → List StoredMedia
        → Bucket
        → Option VaultError × List StoredMedia × Bucket
    clean_listed (err e) fails session rows bucket = (some (store_failed e), rows, bucket)
    clean_listed (ok ms) fails session rows bucket = clean fails session ms rows bucket

    -- `fails 0` are the calls of ExpiredMedia, `fails k` those of the k-th Delete.
    unfoldable pub cleanup :
        (ℕ → Faults)
        → (now : ℕ) → String
        → List StoredMedia
        → Bucket
        → Option VaultError × List StoredMedia × Bucket
    cleanup fails now session rows bucket =
        clean_listed (expired_media (fails 0) (unix_milli now) rows) fails session rows bucket
