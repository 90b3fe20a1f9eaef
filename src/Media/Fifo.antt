-- ===== src/Media/Fifo.antt =====
-- internal/media/store.go: Remember and Get are those of a list of at most 1024 entries, oldest first.
use wppconnect_server_go.Prelude.{
  ℕ, suc, ◌+◌, ◌-◌, ◌≤◌, ◌<◌, String, len, ◌≡◌, ◌∙◌, refl, sym, ap, subst, inl, inr, true, false,
  Option, none, some, List, [], ◌∷◌, ◌++◌, arith, ltb, str_eq, eq_iff, eq_refl, if◌then◌else◌,
  length, drop, All, All-append, All-imp, lookup, insert, remove, lookup-insert, lookup-remove,
  remove-absent, remove-IsMap, append-IsMap, IsMap, Bool-cases, Option-cases,
}
use wppconnect_server_go.Media.{
  Entry, Store, cache_entries, cache_ttl, remove_element, remove_old, evict, push, remember, get,
}
use wppconnect_server_go.Media.Invariant.{
  view, element_of, IsRising, IsValid, element_of-view, remove_element-view, value_of-view, absent,
}
use wppconnect_server_go.Media.Lists.{
  remove_element-All, remove_element-IsRising, append-IsRising, element_of-removed,
  element_of-append, view-append, length-view,
}

-- The cache as a list of identifiers with descriptors and ends, the oldest first.
module _ {A : Type 0} where
  abbrev pub newest : List (String × (A × ℕ)) → List (String × (A × ℕ))
  newest xs = drop (length xs - cache_entries) xs

  abbrev pub fifo_remember : ℕ → String → A → List (String × (A × ℕ)) → List (String × (A × ℕ))
  fifo_remember now id a xs = newest (remove id xs ++ (id, (a, now + cache_ttl)) ∷ [])

  abbrev pub fifo_get : ℕ → String → List (String × (A × ℕ)) → Option A × List (String × (A × ℕ))
  fifo_get now id xs = elim (lookup id xs) [
    | none ↦ (none, xs)
    | some (a, expires) ↦ if ltb now expires then (some a, xs) else (none, remove id xs)
  ]

  record Agree (items : List (String × ℕ)) (es : List (Entry A)) : Type 0 where
    agrees : (id : String) → lookup id items ≡ element_of id es
    keyed : IsMap (view es)
    rising : IsRising es

  removed-Agree :
      (id : String) (n : ℕ) (items : List (String × ℕ)) (es : List (Entry A))
      → Agree items es
      → element_of id es ≡ some n
      → Agree (remove id items) (remove_element n es)
  removed-Agree id n items es g e = record {
    agrees = λ j.
        lookup-remove id j items
        ∙ ap (λ x. if str_eq id j then none else x) (g.agrees j)
        ∙ sym (element_of-removed id j n es e g.rising g.keyed);
    keyed =
        subst IsMap (sym (remove_element-view id n es e g.rising g.keyed))
          (remove-IsMap id (view es) g.keyed);
    rising = remove_element-IsRising n es g.rising;
  }

  evict-Agree :
      (items : List (String × ℕ)) (es : List (Entry A))
      → Agree items es
      → Agree (evict items es).0 (evict items es).1
  unfolding evict
  evict-Agree items [] g = g
  evict-Agree items (x ∷ es) g = elim (Bool-cases (ltb cache_entries (length (x ∷ es)))) [
    | inr q ↦ rw q g
    | inl q ↦ rw q (
        evict-Agree (remove x.id items) es (record {
          agrees = λ j. ground (
            arith,
            lookup-remove x.id j items,
            g.agrees j,
            absent x.id es g.keyed.0,
            eq_iff x.id j,
          );
          keyed = g.keyed.1;
          rising = g.rising.1;
        }))
  ]

  evict-view :
      (items : List (String × ℕ)) (es : List (Entry A)) → view (evict items es).1 ≡ newest (view es)
  unfolding evict
  evict-view items [] = refl
  evict-view items (x ∷ es) = elim (Bool-cases (ltb cache_entries (length (x ∷ es)))) [
    | inr q ↦
        let z : suc (length (view es)) - cache_entries ≡ 0 = ground (arith, q, length-view es) in
        rw (q, z) refl
    | inl q ↦
        let z : suc (length (view es)) - cache_entries ≡ suc (length (view es) - cache_entries) =
          ground (arith, q, length-view es) in
        rw (q, z) (evict-view (remove x.id items) es)
  ]

  evict-All :
      (P : Entry A → Type 0) (items : List (String × ℕ)) (es : List (Entry A))
      → All P es
      → All P (evict items es).1
  unfolding evict
  evict-All P items [] h = tt
  evict-All P items (x ∷ es) h = elim (Bool-cases (ltb cache_entries (length (x ∷ es)))) [
    | inr q ↦ rw q h
    | inl q ↦ rw q (evict-All P (remove x.id items) es h.1)
  ]

  evict-bounded :
      (items : List (String × ℕ)) (es : List (Entry A)) → length (evict items es).1 ≤ cache_entries
  unfolding evict
  evict-bounded items [] = omega arith
  evict-bounded items (x ∷ es) = elim (Bool-cases (ltb cache_entries (length (x ∷ es)))) [
    | inr q ↦ rw q (ground (arith, q))
    | inl q ↦ rw q (evict-bounded (remove x.id items) es)
  ]

  -- The list without the entry that the identifier had.
  record Cleared (id : String) (n : ℕ) (es rest : List (Entry A)) : Type 0 where
    left : (j : String) → element_of j rest ≡ (if str_eq id j then none else element_of j es)
    view_is : view rest ≡ remove id (view es)
    rising : IsRising rest
    known : All (λ (x : Entry A). x.element < n) rest

  clear :
      (id : String) (n : ℕ) (old : Option ℕ) (es : List (Entry A))
      → element_of id es ≡ old
      → IsRising es
      → IsMap (view es)
      → All (λ (x : Entry A). x.element < n) es
      → Cleared id n es (remove_old old es)
  clear id n none es e r k h = record {
    left = λ j. elim (Bool-cases (str_eq id j)) [
      | inl q ↦ rw q (subst (λ i. element_of i es ≡ none) ((eq_iff id j).0 q) e)
      | inr q ↦ rw q refl
    ];
    view_is = sym (remove-absent id (view es) (ground (arith, e, element_of-view id es)));
    rising = r;
    known = h;
  }
  clear id n (some m) es e r k h = record {
    left = λ j. element_of-removed id j m es e r k;
    view_is = remove_element-view id m es e r k;
    rising = remove_element-IsRising m es r;
    known = remove_element-All (λ (x : Entry A). x.element < n) m es h;
  }

  push-IsValid :
      (now : ℕ) (id : String) (a : A) (s : Store A)
      → IsValid s
      → IsValid (push now id a s)
        × (view (push now id a s).order ≡ fifo_remember now id a (view s.order))
  push-IsValid now id a s v =
      let e : Entry A = record {
        element = s.next;
        id = id;
        descriptor = a;
        expires = now + cache_ttl;
      } in
      let rest = remove_old (lookup id s.items) s.order in
      let c =
        clear id s.next (lookup id s.items) s.order (sym (v.agrees id)) v.rising v.keyed v.known in
      let shown = view-append e rest in
      let whole : Agree (insert id s.next s.items) (rest ++ e ∷ []) = record {
        agrees = λ j. ground (
          arith,
          lookup-insert id j s.next s.items,
          v.agrees j,
          element_of-append j e rest,
          c.left j,
        );
        keyed = subst IsMap (sym shown) (
            append-IsMap id (a, now + cache_ttl) (view rest)
              (subst IsMap (sym c.view_is) (remove-IsMap id (view s.order) v.keyed))
              (ground (arith, c.view_is, lookup-remove id id (view s.order), eq_refl id)));
        rising = append-IsRising e rest c.rising c.known;
      } in
      let kept = evict-Agree (insert id s.next s.items) (rest ++ e ∷ []) whole in
      (
        record {
          agrees = kept.agrees;
          keyed = kept.keyed;
          rising = kept.rising;
          known =
              evict-All (λ (x : Entry A). x.element < s.next + 1) (insert id s.next s.items)
                (rest ++ e ∷ [])
                (All-append (λ (x : Entry A). x.element < s.next + 1) rest (e ∷ [])
                  (All-imp (λ (x : Entry A). x.element < s.next)
                    (λ (x : Entry A). x.element < s.next + 1) (λ x h. omega (arith, h)) rest
                    c.known)
                  (omega arith, tt));
          bounded = evict-bounded (insert id s.next s.items) (rest ++ e ∷ []);
        },
        evict-view (insert id s.next s.items) (rest ++ e ∷ [])
            ∙ ap newest (shown ∙ ap (λ x. x ++ (id, (a, now + cache_ttl)) ∷ []) c.view_is),
      )

  -- Remembering a descriptor under an identifier of 1 to 256 bytes succeeds and does to a valid cache
  -- what a bounded queue does: the entry that the identifier had goes, the new one is put last, and
  -- only the newest 1024 stay. The cache is valid again: map and list agree.
  pub remember_lem :
      (now : ℕ) (id : String) (a : A) (s : Store A)
      → IsValid s
      → 1 ≤ len id
      → len id ≤ 256
      → ((remember now id (some a) s).0 ≡ true)
        × IsValid (remember now id (some a) s).1
        × (view (remember now id (some a) s).1.order ≡ fifo_remember now id a (view s.order))
  unfolding remember
  remember_lem now id a s v h l =
      let named : str_eq id "" ≡ false = elim (Bool-cases (str_eq id "")) [
        | inr q ↦ q
        | inl q ↦ absurd (omega (arith, h, subst (λ x. len x ≡ 0) (sym ((eq_iff id "").0 q)) refl))
      ] in
      let short : ltb 256 (len id) ≡ false = ground (arith, l) in
      let p = push-IsValid now id a s v in rw (named, short) (refl, p.0, p.1)

  looked-IsValid :
      (id : String) (n : ℕ) (s : Store A)
      → IsValid s
      → element_of id s.order ≡ some n
      → IsValid (record s { items = remove id s.items; order = remove_element n s.order })
  looked-IsValid id n s v e =
      let g =
        removed-Agree id n s.items s.order
          (record { agrees = v.agrees; keyed = v.keyed; rising = v.rising }) e in
      record {
        agrees = g.agrees;
        keyed = g.keyed;
        rising = g.rising;
        known = remove_element-All (λ (x : Entry A). x.element < s.next) n s.order v.known;
        bounded = omega (arith, v.bounded, remove_element-length n s.order);
      }
    where
      remove_element-length :
          (n : ℕ) (es : List (Entry A)) → length (remove_element n es) ≤ length es
      remove_element-length n [] = omega arith
      remove_element-length n (x ∷ es) = ground (arith, remove_element-length n es)

  -- Looking an identifier up in a valid cache answers as the queue does: the descriptor that was
  -- remembered last under it, as long as it has not expired and was not pushed out; an expired one is
  -- taken out. The cache is valid again.
  pub get_lem :
      (now : ℕ) (id : String) (s : Store A)
      → IsValid s
      → ((get now id s).0 ≡ (fifo_get now id (view s.order)).0)
        × (view (get now id s).1.order ≡ (fifo_get now id (view s.order)).1)
        × IsValid (get now id s).1
  unfolding get
  get_lem now id s v = elim (Option-cases (lookup id s.items)) [
    | inl e ↦
        let gone : lookup id (view s.order) ≡ none =
          ground (arith, e, v.agrees id, element_of-view id s.order) in
        rw (get, fifo_get, e, gone) (refl, refl, v)
    | inr (n, e) ↦
        let here = sym (v.agrees id) ∙ e in
        let (x, f, i, j, l) = value_of-view id n s.order here v.rising in
        elim (Bool-cases (ltb now x.expires)) [
          | inl q ↦ rw (get, fifo_get, e, f, l, q) (refl, refl, v)
          | inr q ↦
              rw (get, fifo_get, e, f, l, q, i, j)
                (
                  refl,
                  remove_element-view id n s.order here v.rising v.keyed,
                  looked-IsValid id n s v here,
                )
        ]
  ]
