-- ===== src/History/Uploads.antt =====
-- The quotas of stored attachments, and the two steps of an upload.
use wppconnect_server_go.Prelude.{
  ℕ, ◌+◌, ◌≤◌, ◌<◌, String, ◌≡◌, refl, sym, subst, inl, inr, Bool, true, false, ◌&&◌, none, List,
  [], ◌∷◌, ◌++◌, arith, str_eq, eq_iff, eq_refl, ok, err, Faults, All, All-append, Bool-cases, ltb,
  length, length-append, sum_by, sum_by-append, if◌then◌else◌,
}
use wppconnect_server_go.Table.{select, delete, update, exists, count}
use wppconnect_server_go.Table.Laws.{
  length-delete, sum_by-delete, All-delete, All-update, length-update,
}
use wppconnect_server_go.History.{Outside, unix_milli}
use wppconnect_server_go.History.Attachments.{
  StoredMedia, media_missing, max_media, max_total, max_objects, media_size, is_media, conflicts,
  has_key, reserve, made_ready, finish_media, media, forget_media,
}

abbrev pub Unique : List StoredMedia → Type 0
Unique [] = Unit
Unique (m ∷ rows) = All (λ x. conflicts m x ≡ false) rows × Unique rows

pub record IsFitted (rows : List StoredMedia) : Type 0 where
  pub few : length rows ≤ max_objects
  pub small : sum_by media_size rows ≤ max_total
  pub sized : All (λ m. (1 ≤ m.size) × (m.size ≤ max_media)) rows
  pub unique : Unique rows

append-Unique :
    (m : StoredMedia) (rows : List StoredMedia)
    → exists (conflicts m) rows ≡ false
    → Unique rows
    → Unique (rows ++ m ∷ [])
append-Unique m [] h u = (tt, tt)
append-Unique m (x ∷ rows) h u = (
  All-append (λ y. conflicts x y ≡ false) rows (m ∷ []) u.0
      (
        ground (
          arith,
          h,
          eq_iff x.chat m.chat,
          eq_iff m.chat x.chat,
          eq_iff x.id m.id,
          eq_iff m.id x.id,
          eq_iff x.key m.key,
          eq_iff m.key x.key,
        ),
        tt,
      ),
  append-Unique m rows (ground arith) u.1,
)

delete-Unique :
    (p : StoredMedia → Bool) (rows : List StoredMedia) → Unique rows → Unique (delete p rows)
delete-Unique p [] h = tt
delete-Unique p (m ∷ rows) h = elim (Bool-cases (p m)) [
  | inl e ↦ rw e (delete-Unique p rows h.1)
  | inr e ↦ rw e (All-delete (λ x. conflicts m x ≡ false) p rows h.0, delete-Unique p rows h.1)
]

update-Unique :
    (p : StoredMedia → Bool) (t : ℕ) (rows : List StoredMedia)
    → Unique rows
    → Unique (update p (made_ready t) rows)
update-Unique p t [] h = tt
update-Unique p t (m ∷ rows) h = elim (Bool-cases (p m)) [
  | inl e ↦ rw e (
    All-update (λ x. conflicts (made_ready t m) x ≡ false) p (made_ready t) (λ a q k. k) rows h.0,
    update-Unique p t rows h.1,
  )
  | inr e ↦ rw e (
    All-update (λ x. conflicts m x ≡ false) p (made_ready t) (λ a q k. k) rows h.0,
    update-Unique p t rows h.1,
  )
]

sum-ready :
    (p : StoredMedia → Bool) (t : ℕ) (rows : List StoredMedia)
    → sum_by media_size (update p (made_ready t) rows) ≡ sum_by media_size rows
sum-ready p t [] = refl
sum-ready p t (m ∷ rows) = ground (arith, sum-ready p t rows)

-- One operation on the table that changes it.
pub data MediaStep (out : Outside) (rows rows' : List StoredMedia) : Type 0 where
  reserves :
      (fails : Faults) (now : ℕ) (m : StoredMedia)
      → reserve out fails now m rows ≡ ok rows'
      → MediaStep out rows rows'
  finishes :
      (fails : Faults) (m : StoredMedia)
      → (finish_media fails m rows).1 ≡ rows'
      → MediaStep out rows rows'
  forgets :
      (fails : Faults) (chat id key : String)
      → forget_media fails chat id key rows ≡ ok rows'
      → MediaStep out rows rows'

pub data MediaReach (out : Outside) (first : List StoredMedia) : List StoredMedia → Type 0 where
  here : MediaReach out first first
  next :
      {rows rows' : List StoredMedia}
      → MediaReach out first rows
      → MediaStep out rows rows'
      → MediaReach out first rows'

pub reserve_ok :
    (out : Outside) (fails : Faults) (now : ℕ) (m : StoredMedia) (rows rows' : List StoredMedia)
    → reserve out fails now m rows ≡ ok rows'
    → (rows' ≡ rows ++ record m { ready = false } ∷ [])
      × (length rows < max_objects)
      × (sum_by media_size rows + m.size ≤ max_total)
      × (1 ≤ m.size)
      × (m.size ≤ max_media)
      × (exists (conflicts m) rows ≡ false)
      × (unix_milli now < m.expires)
unfolding reserve
reserve_ok out fails now m rows rows' h = (
  ground arith,
  ground arith,
  ground arith,
  ground arith,
  ground arith,
  ground arith,
  ground arith,
)

MediaStep-IsFitted :
    (out : Outside) (rows rows' : List StoredMedia)
    → MediaStep out rows rows'
    → IsFitted rows
    → IsFitted rows'
unfolding finish_media forget_media
MediaStep-IsFitted out rows rows' (reserves fails now m h) v =
    let (same, few, small, low, high, free, young) = reserve_ok out fails now m rows rows' h in
    let waiting = record m { ready = false } in
    subst IsFitted (sym same) (record {
      few = omega (arith, length-append rows (waiting ∷ []), few);
      small = omega (arith, sum_by-append media_size rows (waiting ∷ []), small);
      sized =
          All-append (λ m. (1 ≤ m.size) × (m.size ≤ max_media)) rows (waiting ∷ []) v.sized
            ((low, high), tt);
      unique = append-Unique waiting rows free v.unique;
    })
MediaStep-IsFitted out rows rows' (finishes fails m h) v = elim (Bool-cases (fails 0)) [
  | inl e ↦ subst IsFitted (ground (arith, e, h)) v
  | inr e ↦
      let same : update (has_key m) (made_ready m.expires) rows ≡ rows' = ground (arith, e, h) in
      subst IsFitted same (record {
        few = omega (arith, length-update (has_key m) (made_ready m.expires) rows, v.few);
        small = omega (arith, sum-ready (has_key m) m.expires rows, v.small);
        sized =
            All-update (λ m. (1 ≤ m.size) × (m.size ≤ max_media)) (has_key m) (made_ready m.expires)
              (λ a q k. k) rows v.sized;
        unique = update-Unique (has_key m) m.expires rows v.unique;
      })
]
MediaStep-IsFitted out rows rows' (forgets fails chat id key h) v =
    let gone = λ (m : StoredMedia). is_media chat id m && str_eq m.key key in
    let same : delete gone rows ≡ rows' = ground arith in
    subst IsFitted same (record {
      few = omega (arith, length-delete gone rows, v.few);
      small = omega (arith, sum_by-delete gone media_size rows, v.small);
      sized = All-delete (λ m. (1 ≤ m.size) × (m.size ≤ max_media)) gone rows v.sized;
      unique = delete-Unique gone rows v.unique;
    })

-- From a table within its quotas, in particular the empty one, every sequence of reservations,
-- completed uploads and removals, with any failures of the database, leads to a table with at most 1,000
-- attachments and 512 MiB, each of 1 byte to 16 MiB, no two for one message and no two with one object.
pub MediaReach-IsFitted :
    (out : Outside) {first rows : List StoredMedia}
    → IsFitted first
    → MediaReach out first rows
    → IsFitted rows
MediaReach-IsFitted out v here = v
MediaReach-IsFitted out v (next {rows = a} {rows' = b} r s) =
    MediaStep-IsFitted out a b s (MediaReach-IsFitted out v r)

-- The rows that do not conflict with a new one leave the reading and the completing of it alone.
quiet :
    (p : StoredMedia → Bool) (m : StoredMedia) (rows : List StoredMedia)
    → ((x : StoredMedia) → conflicts m x ≡ false → p x ≡ false)
    → exists (conflicts m) rows ≡ false
    → (ys : List StoredMedia)
    → (select p (rows ++ ys) ≡ select p ys) × (count p (rows ++ ys) ≡ count p ys)
quiet p m [] h e ys = (refl, refl)
quiet p m (x ∷ rows) h e ys =
    let k = quiet p m rows h (ground arith) ys in
    let no = h x (ground arith) in (rw no k.0, ground (arith, no, k.1))

quiet_update :
    (p : StoredMedia → Bool) (m : StoredMedia) (t : ℕ) (rows : List StoredMedia)
    → ((x : StoredMedia) → conflicts m x ≡ false → p x ≡ false)
    → exists (conflicts m) rows ≡ false
    → (ys : List StoredMedia)
    → update p (made_ready t) (rows ++ ys) ≡ rows ++ update p (made_ready t) ys
quiet_update p m t [] h e ys = refl
quiet_update p m t (x ∷ rows) h e ys =
    let no = h x (ground arith) in rw (no, quiet_update p m t rows h (ground arith) ys) refl

-- An attachment that is reserved is not served before its upload is finished, whatever the time. When
-- it is finished it is served, ready and with the time it then got, up to that time and no longer.
pub upload_lem :
    (out : Outside) (fails : Faults) (now at expires : ℕ) (m : StoredMedia)
    (rows rows' : List StoredMedia)
    → reserve out fails now m rows ≡ ok rows'
    → (media (λ _. false) at m.chat m.id rows' ≡ err media_missing)
      × ((finish_media (λ _. false) (record m { expires = expires }) rows').0 ≡ none)
      × (media
            (λ _. false)
            at
            m.chat
            m.id
            (finish_media (λ _. false) (record m { expires = expires }) rows').1
          ≡ (if ltb (unix_milli at) expires
              then ok (record m { expires = expires; ready = true })
              else err media_missing))
unfolding finish_media media
upload_lem out fails now at expires m rows rows' h =
    let (same, few, small, low, high, free, young) = reserve_ok out fails now m rows rows' h in
    subst
      (λ (r : List StoredMedia).
        (media (λ _. false) at m.chat m.id r ≡ err media_missing)
        × ((finish_media (λ _. false) (record m { expires = expires }) r).0 ≡ none)
        × (media (λ _. false) at m.chat m.id
              (finish_media (λ _. false) (record m { expires = expires }) r).1
            ≡ (if ltb (unix_milli at) expires
                then ok (record m { expires = expires; ready = true })
                else err media_missing)))
      (sym same) (hidden free, finished free, served free)
  where
    waiting : StoredMedia
    waiting = record m { ready = false }

    shown : StoredMedia → Bool
    shown x = is_media m.chat m.id x && x.ready && ltb (unix_milli at) x.expires

    hidden :
        exists (conflicts m) rows ≡ false
        → media (λ _. false) at m.chat m.id (rows ++ record m { ready = false } ∷ [])
          ≡ err media_missing
    hidden free =
        let k = (quiet shown m rows (λ x e. ground arith) free (waiting ∷ [])).0 in
        rw k (ground (arith, eq_refl m.chat, eq_refl m.id))

    finished :
        exists (conflicts m) rows ≡ false
        → (finish_media
            (λ _. false)
            (record m { expires = expires })
            (rows ++ record m { ready = false } ∷ [])).0
          ≡ none
    finished free =
        let k = (quiet (has_key m) m rows (λ x e. ground arith) free (waiting ∷ [])).1 in
        rw k (ground (arith, eq_refl m.chat, eq_refl m.id, eq_refl m.key))

    served :
        exists (conflicts m) rows ≡ false
        → media
            (λ _. false)
            at
            m.chat
            m.id
            (finish_media
              (λ _. false)
              (record m { expires = expires })
              (rows ++ record m { ready = false } ∷ [])).1
          ≡ (if ltb (unix_milli at) expires
              then ok (record m { expires = expires; ready = true })
              else err media_missing)
    served free =
        let u = quiet_update (has_key m) m expires rows (λ x e. ground arith) free (waiting ∷ []) in
        let k =
          (quiet shown m rows (λ x e. ground arith) free
            (update (has_key m) (made_ready expires) (waiting ∷ []))).0 in
        rw (u, k) (ground (arith, eq_refl m.chat, eq_refl m.id, eq_refl m.key))
