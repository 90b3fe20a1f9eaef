-- ===== src/Vault/Archives.antt =====
-- An archived attachment can be downloaded, and what is downloaded is what was archived.
use Prim.Native.String.{String, [], ◌∷◌, ◌++◌}
use Prim.Native.String.append
use wppconnect_server_go.Prelude.{
  ℕ, ◌+◌, ◌*◌, ◌≤◌, ◌<◌, len, ◌≡◌, refl, ap, subst, ◌∙◌, inl, inr, Bool, true, false, ◌&&◌,
  Option-cases, none, some, List, arith, str_eq, eq_iff, ok, Faults, Result-cases, Bool-cases, In,
  ltb, leb,
}
use wppconnect_server_go.Table.{select}
use wppconnect_server_go.Table.Laws.{In-select}
use wppconnect_server_go.History.{Outside, day, unix_milli}
use wppconnect_server_go.History.Attachments.{
  StoredMedia, max_media, is_media, reserve, finish_media, first_media, media,
}
use wppconnect_server_go.History.Uploads.{reserve_ok, upload_lem}
use wppconnect_server_go.Vault.{
  Objects, limited, after_prefix, hour, key_prefix, owns, new_media, finish_archive, archive,
  download,
}

-- What is relied on of an object store: it returns what it stored, and an operation on one key, failed
-- or not, leaves the other keys alone.
pub record IsFaithful {Bucket : Type 0} (objects : Objects Bucket) : Type 0 where
  pub stores :
      (b : Bucket) (key body mime : String)
      → (objects.put b key body mime).0 ≡ true
      → objects.get (objects.put b key body mime).1 key ≡ some body
  pub puts_only :
      (b : Bucket) (key body mime other : String)
      → str_eq other key ≡ false
      → objects.get (objects.put b key body mime).1 other ≡ objects.get b other
  pub deletes_only :
      (b : Bucket) (key other : String)
      → str_eq other key ≡ false
      → objects.get (objects.delete b key).1 other ≡ objects.get b other

after_prefix_append : (p s : String) → after_prefix (p ++ s) p ≡ some s
after_prefix_append [] s = ap some (append.nil s)
after_prefix_append (c ∷ p) s =
    ap (λ t. after_prefix t (c ∷ p)) (append.cons c p s) ∙ ground (arith, after_prefix_append p s)

finish_same :
    (fails : Faults) (m : StoredMedia) (rows : List StoredMedia)
    → (finish_media fails m rows).0 ≡ none
    → (finish_media fails m rows).1 ≡ (finish_media (λ _. false) m rows).1
unfolding finish_media
finish_same fails m rows h = elim (Bool-cases (fails 0)) [
  | inl e ↦ absurd (ground (arith, e, h))
  | inr e ↦ rw e refl
]

module _ (out : Outside) (is_uuid : String → Bool) {Bucket : Type 0}
    (objects : Objects Bucket) where
  owns-new_media :
      (session : String) (m : StoredMedia) (uuid : String)
      → m.key ≡ key_prefix out is_uuid session m ++ uuid
      → is_uuid uuid ≡ true
      → owns out is_uuid session m ≡ true
  unfolding owns
  owns-new_media session m uuid e u =
      rw
        (
          owns,
          ap (λ k. after_prefix k (key_prefix out is_uuid session m)) e
              ∙ after_prefix_append (key_prefix out is_uuid session m) uuid,
        )
        u

  download_ok :
      (fails : Faults) (now : ℕ) (session chat id : String) (rows : List StoredMedia) (b : Bucket)
      (m : StoredMedia) (body : String)
      → media fails now chat id rows ≡ ok m
      → owns out is_uuid session m ≡ true
      → objects.get b m.key ≡ some body
      → len body ≤ max_media
      → len body ≡ m.size
      → out.hex (out.digest body) ≡ m.hash
      → download out is_uuid objects fails now session chat id rows b ≡ ok (m, body)
  unfolding download limited
  download_ok fails now session chat id rows b m body h o g small sized hashed =
      rw (h, o, g) (ground (arith, small, sized, hashed, eq_iff (out.hex (out.digest body)) m.hash))

  -- An archive that returns without an error can be downloaded until its retention ends, by the session
  -- that archived it: the download returns the same bytes and the entry that the archive returned. The
  -- object store returns what it stores, and the UUID is one that uuid.Parse reads.
  pub download-archive :
      (retention : ℕ) (reserve_fails finish_fails : Faults) (now hold at later : ℕ)
      (uuid session chat id mime body : String) (rows : List StoredMedia) (b : Bucket)
      → IsFaithful objects
      → is_uuid uuid ≡ true
      → (archive out is_uuid objects true retention reserve_fails finish_fails now hold at uuid
          session chat id mime body rows b).error
        ≡ none
      → unix_milli later < unix_milli (now + retention)
      → let a =
          archive out is_uuid objects true retention reserve_fails finish_fails now hold at uuid
            session chat id mime body rows b in
        download out is_uuid objects (λ _. false) later session chat id a.rows a.bucket
        ≡ ok (a.result, body)
  unfolding archive
  download-archive retention reserve_fails finish_fails now hold at later uuid session chat id mime
        body rows b faithful u h young =
      let m = new_media out is_uuid objects now retention uuid session chat id mime body in
      let waiting = record m { expires = unix_milli (hold + hour) } in
      elim (Bool-cases (ltb 0 retention && leb retention (30 * day))) [
        | inr g ↦ absurd (ground (arith, g, h))
        | inl g ↦ elim (Result-cases (reserve out reserve_fails at waiting rows)) [
          | inr (e, r) ↦ absurd (ground (arith, g, r, h))
          | inl (rows', r) ↦ elim (Bool-cases (objects.put b m.key body mime).0) [
            | inr p ↦ absurd (ground (arith, g, r, p, h))
            | inl p ↦ elim (Option-cases (finish_media finish_fails m rows').0) [
              | inr (e, f) ↦ absurd (ground (arith, g, r, p, f, h))
              | inl f ↦
                  rw (g, r, p, finish_archive, f)
                    (let served =
                        (upload_lem out reserve_fails at later m.expires waiting rows rows' r).2 in
                      let found : media (λ _. false) later chat id
                            (finish_media finish_fails m rows').1
                          ≡ ok (record m { ready = true }) =
                        ap (media (λ _. false) later chat id) (finish_same finish_fails m rows' f)
                        ∙ served
                        ∙ ground (arith, young) in
                      download_ok (λ _. false) later session chat id
                        (finish_media finish_fails m rows').1 (objects.put b m.key body mime).1
                        (record m { ready = true }) body found
                        (owns-new_media session (record m { ready = true }) uuid refl u)
                        (faithful.stores b m.key body mime p)
                        (reserve_ok out reserve_fails at waiting rows rows' r).4 refl refl)
            ]
          ]
        ]
      ]

  -- What a download returns is an entry of the table for this chat and message that is finished and not
  -- expired, under a key of this session, and bytes of the size and with the hash that the entry has.
  pub download_safe :
      (fails : Faults) (now : ℕ) (session chat id : String) (rows : List StoredMedia) (b : Bucket)
      (m : StoredMedia) (body : String)
      → download out is_uuid objects fails now session chat id rows b ≡ ok (m, body)
      → In m rows
        × (is_media chat id m ≡ true)
        × (m.ready ≡ true)
        × (unix_milli now < m.expires)
        × (owns out is_uuid session m ≡ true)
        × (objects.get b m.key ≡ some body)
        × (len body ≡ m.size)
        × (len body ≤ max_media)
        × (out.hex (out.digest body) ≡ m.hash)
  unfolding download media limited
  download_safe fails now session chat id rows b m body h =
      elim (Result-cases (media fails now chat id rows)) [
        | inr (e, p) ↦ absurd (ground (arith, p, h))
        | inl (x, p) ↦ elim (Bool-cases (owns out is_uuid session x)) [
          | inr o ↦ absurd (ground (arith, p, o, h))
          | inl o ↦ elim (Option-cases (objects.get b x.key)) [
            | inl g ↦ absurd (ground (arith, p, o, g, h))
            | inr (found, g) ↦
                let shown = λ (y : StoredMedia).
                  is_media chat id y && y.ready && ltb (unix_milli now) y.expires in
                let (there, visible) =
                  In-select shown x rows (first (select shown rows) (ground (arith, p))) in
                let same : x ≡ m = ground (arith, p, o, g, h) in
                let bytes : found ≡ body = ground (arith, p, o, g, h) in
                let facts : (len found ≡ x.size)
                    × (len found ≤ max_media)
                    × (out.hex (out.digest found) ≡ x.hash) =
                  (
                    ground (arith, p, o, g, h),
                    ground (arith, p, o, g, h),
                    (eq_iff (out.hex (out.digest found)) x.hash).0 (ground (arith, p, o, g, h)),
                  ) in
                subst
                  (λ (y : StoredMedia).
                    In y rows
                    × (is_media chat id y ≡ true)
                    × (y.ready ≡ true)
                    × (unix_milli now < y.expires)
                    × (owns out is_uuid session y ≡ true)
                    × (objects.get b y.key ≡ some body)
                    × (len body ≡ y.size)
                    × (len body ≤ max_media)
                    × (out.hex (out.digest body) ≡ y.hash))
                  same
                  (subst
                    (λ t.
                      In x rows
                      × (is_media chat id x ≡ true)
                      × (x.ready ≡ true)
                      × (unix_milli now < x.expires)
                      × (owns out is_uuid session x ≡ true)
                      × (objects.get b x.key ≡ some t)
                      × (len t ≡ x.size)
                      × (len t ≤ max_media)
                      × (out.hex (out.digest t) ≡ x.hash))
                    bytes
                    (
                      there,
                      ground arith,
                      ground arith,
                      ground arith,
                      o,
                      g,
                      facts.0,
                      facts.1,
                      facts.2,
                    ))
          ]
        ]
      ]
    where
      first : {x : StoredMedia} (ms : List StoredMedia) → first_media ms ≡ ok x → In x ms
      first List.[] e = absurd (ground (arith, e))
      first {x} (List.◌∷◌ y ms) e = inl (ground arith)
