-- ===== src/Media/Safety.antt =====
-- internal/media/store.go: where a cached descriptor leads, and how deep `Unwrap` goes.
use wppconnect_server_go.Prelude.{
  ℕ, zero, suc, ◌≤◌, String, ◌≡◌, refl, sym, ap, subst, eq_iff, ◌⊎◌, inl, inr, true, false, Option,
  none, some, arith, str_eq, all_chars, Bool-cases, Option-cases,
}
use wppconnect_server_go.Media.Texts.{has_prefix, has_suffix}
use wppconnect_server_go.Media.Messages.{
  Kind, Source, Content, Message, Inner, message, absent, present, inner, content_of, max_depth,
  unwrap_from, unwrap, Descriptor, source, Parsed, is_plain, good_path, good_parsed, describe,
  check, attachment,
}

module _ (parse : String → Option Parsed) (lower : String → String) where
  -- Where a descriptor leads.
  abbrev pub IsSafe : Descriptor → Type 0
  IsSafe d =
      ((has_prefix d.source_path "/" ≡ true)
        × (all_chars is_plain d.source_path ≡ true)
        × (d.source_url ≡ ""))
      ⊎ ((d.source_path ≡ "") × (d.source_url ≡ ""))
      ⊎ ((d.source_path ≡ "")
          × ((u : Parsed) × (parse d.source_url ≡ some u)
              × (u.scheme ≡ "https")
              × (u.has_user ≡ false)
              × ((u.port ≡ "") ⊎ (u.port ≡ "443"))
              × (has_suffix (lower u.host) ".whatsapp.net" ≡ true)))

  good_parsed_lem :
      (u : Parsed)
      → good_parsed parse lower (some u) ≡ true
      → (u.scheme ≡ "https")
        × (u.has_user ≡ false)
        × ((u.port ≡ "") ⊎ (u.port ≡ "443"))
        × (has_suffix (lower u.host) ".whatsapp.net" ≡ true)
  good_parsed_lem u h = (
    ground (arith, h, eq_iff u.scheme "https"),
    ground (arith, h),
    elim (Bool-cases (str_eq u.port "")) [
      | inl q ↦ inl ((eq_iff u.port "").0 q)
      | inr q ↦ inr (ground (arith, h, q, eq_iff u.port "443"))
    ],
    ground (arith, h),
  )

  check-IsSafe :
      (kind : Kind) (s : Source) (name : String) (d : Descriptor)
      → check parse lower (kind, s, name) ≡ some d
      → IsSafe d
  check-IsSafe kind s name d h = elim (Bool-cases (str_eq s.direct_path "")) [
    | inr p ↦
        let e : describe parse lower kind s name "" ≡ d = ground (arith, h, p) in
        let g : good_path s.direct_path ≡ true = ground (arith, h, p) in
        subst IsSafe e (inl (ground (arith, g), ground (arith, g), refl))
    | inl p ↦
        let e : describe parse lower kind s name s.url ≡ d = ground (arith, h, p) in
        let empty = (eq_iff s.direct_path "").0 p in
        elim (Bool-cases (str_eq s.url "")) [
          | inl q ↦ subst IsSafe e (inr (inl (empty, (eq_iff s.url "").0 q)))
          | inr q ↦ elim (Option-cases (parse s.url)) [
            | inl r ↦ absurd (ground (arith, h, p, q, r))
            | inr (u, r) ↦
                let (a, b, c, f) = good_parsed_lem u (ground (arith, h, p, q, r)) in
                subst IsSafe e (inr (inr (empty, (u, r, a, b, c, f))))
          ]
        ]
  ]

  -- Every descriptor that is cached can only lead to WhatsApp's servers: it has a direct path that
  -- begins with a slash, has no backslash or line break and stands alone; or an https URL without a
  -- user, on the standard port, of a host below whatsapp.net; or no address at all.
  pub attachment-IsSafe :
      (m : Message) (d : Descriptor) → attachment parse lower m ≡ some d → IsSafe d
  unfolding attachment
  attachment-IsSafe m d h = elim (Option-cases (source (content_of (unwrap m)))) [
    | inl q ↦ absurd (ground (arith, h, q))
    | inr ((kind, s, name), q) ↦ check-IsSafe kind s name d (ground (arith, h, q))
  ]

-- The second message stands in the first of the eight wrappers that the first message has.
pub data Wraps : Message → Message → Type 0 where
  by_ephemeral :
      {i : Message} {b c d e f g h : Inner} {content : Content}
      → Wraps (message (present i) b c d e f g h content) i
  by_caption :
      {i : Message} {c d e f g h : Inner} {content : Content}
      → Wraps (message absent (present i) c d e f g h content) i
  by_sent :
      {i : Message} {d e f g h : Inner} {content : Content}
      → Wraps (message absent absent (present i) d e f g h content) i
  by_once :
      {i : Message} {e f g h : Inner} {content : Content}
      → Wraps (message absent absent absent (present i) e f g h content) i
  by_once_v2 :
      {i : Message} {f g h : Inner} {content : Content}
      → Wraps (message absent absent absent absent (present i) f g h content) i
  by_once_v2_extension :
      {i : Message} {g h : Inner} {content : Content}
      → Wraps (message absent absent absent absent absent (present i) g h content) i
  by_poll :
      {i : Message} {h : Inner} {content : Content}
      → Wraps (message absent absent absent absent absent absent (present i) h content) i
  by_edited :
      {i : Message} {content : Content}
      → Wraps (message absent absent absent absent absent absent absent (present i) content) i

-- The second message stands in the first below `n` wrappers.
pub data Nested : ℕ → Message → Message → Type 0 where
  bare : {m : Message} → Nested 0 m m
  peel : {n : ℕ} {m i r : Message} → Wraps m i → Nested n i r → Nested (suc n) m r

-- None of the eight wrappers is there.
abbrev pub IsBare : Message → Type 0
IsBare m = m ≡ message absent absent absent absent absent absent absent absent (content_of m)

found : {m x i : Message} → ◌≡◌ {A = Option Message} (some x) (some i) → Wraps m x → Wraps m i
found {m = m} {x = x} {i = i} q w =
    let same : x ≡ i = ground (arith, q) in subst (λ y. Wraps m y) same w

inner-Wraps : (m i : Message) → inner m ≡ some i → Wraps m i
inner-Wraps (message (present x) b c d e f g h content) i q = found q by_ephemeral
inner-Wraps (message absent (present x) c d e f g h content) i q = found q by_caption
inner-Wraps (message absent absent (present x) d e f g h content) i q = found q by_sent
inner-Wraps (message absent absent absent (present x) e f g h content) i q = found q by_once
inner-Wraps (message absent absent absent absent (present x) f g h content) i q = found q by_once_v2
inner-Wraps (message absent absent absent absent absent (present x) g h content) i q =
    found q by_once_v2_extension
inner-Wraps (message absent absent absent absent absent absent (present x) h content) i q =
    found q by_poll
inner-Wraps (message absent absent absent absent absent absent absent (present x) content) i q =
    found q by_edited
inner-Wraps (message absent absent absent absent absent absent absent absent content) i q =
    absurd (ground (arith, q))

inner-IsBare : (m : Message) → inner m ≡ none → IsBare m
inner-IsBare (message (present x) b c d e f g h content) q = absurd (ground (arith, q))
inner-IsBare (message absent (present x) c d e f g h content) q = absurd (ground (arith, q))
inner-IsBare (message absent absent (present x) d e f g h content) q = absurd (ground (arith, q))
inner-IsBare (message absent absent absent (present x) e f g h content) q =
    absurd (ground (arith, q))
inner-IsBare (message absent absent absent absent (present x) f g h content) q =
    absurd (ground (arith, q))
inner-IsBare (message absent absent absent absent absent (present x) g h content) q =
    absurd (ground (arith, q))
inner-IsBare (message absent absent absent absent absent absent (present x) h content) q =
    absurd (ground (arith, q))
inner-IsBare (message absent absent absent absent absent absent absent (present x) content) q =
    absurd (ground (arith, q))
inner-IsBare (message absent absent absent absent absent absent absent absent content) q = refl

unwrap_from_lem :
    (left : ℕ) (m : Message)
    → (n : ℕ) × (n ≤ left)
      × Nested n m (unwrap_from left m)
      × ((n ≡ left) ⊎ IsBare (unwrap_from left m))
unwrap_from_lem zero m = (0, omega arith, bare, inl refl)
unwrap_from_lem (suc left) m = elim (Option-cases (inner m)) [
  | inl q ↦
      let e : unwrap_from (suc left) m ≡ m = ground (arith, q) in
      subst (λ x. (n : ℕ) × (n ≤ suc left) × Nested n m x × ((n ≡ suc left) ⊎ IsBare x)) (sym e)
        (0, omega arith, bare, inr (inner-IsBare m q))
  | inr (i, q) ↦
      let (n, l, p, e) = unwrap_from_lem left i in
      let s : unwrap_from (suc left) m ≡ unwrap_from left i = ground (arith, q) in
      subst (λ x. (n : ℕ) × (n ≤ suc left) × Nested n m x × ((n ≡ suc left) ⊎ IsBare x)) (sym s)
        (
          suc n,
          omega (arith, l),
          peel (inner-Wraps m i q) p,
          elim e [ inl x ↦ inl (ap suc x) | inr x ↦ inr x ],
        )
]

-- `Unwrap` takes wrappers off one after the other, each time the first that is there of ephemeral,
-- document with caption, device sent, view once, view once V2, its extension, poll V4 and edited. It
-- takes off at most eight, and fewer only where what is left has none of these eight wrappers.
pub unwrap_lem :
    (m : Message)
    → (n : ℕ) × (n ≤ 8)
      × Nested n m (unwrap m)
      × ((n ≡ 8)
          ⊎ (unwrap m
              ≡ message absent absent absent absent absent absent absent absent
                  (content_of (unwrap m))))
unfolding unwrap
unwrap_lem m = unwrap_from_lem max_depth m
