-- ===== src/Media/Invariant.antt =====
-- internal/media/store.go: the map and the list of the cache agree.
use wppconnect_server_go.Prelude.{
  ℕ, ◌≤◌, ◌<◌, ◌==◌, String, ◌≡◌, refl, sym, ap, subst, inl, inr, true, false, Option, none, some,
  List, [], ◌∷◌, arith, str_eq, eq_iff, if◌then◌else◌, length, All, lookup, remove, remove-absent,
  IsMap, Bool-cases, Option-cases, is_some,
}
use wppconnect_server_go.Media.{Entry, Store, cache_entries, remove_element, value_of}

module _ {A : Type 0} where
  -- The list without the elements: identifiers, descriptors and ends.
  abbrev pub view : List (Entry A) → List (String × (A × ℕ))
  view [] = []
  view (e ∷ es) = (e.id, (e.descriptor, e.expires)) ∷ view es

  abbrev pub element_of : String → List (Entry A) → Option ℕ
  element_of id [] = none
  element_of id (e ∷ es) =
      let rest = element_of id es in if str_eq e.id id then some e.element else rest

  abbrev pub IsRising : List (Entry A) → Type 0
  IsRising [] = Unit
  IsRising (e ∷ es) = All (λ (x : Entry A). e.element < x.element) es × IsRising es

  pub record IsValid (s : Store A) : Type 0 where
    pub agrees : (id : String) → lookup id s.items ≡ element_of id s.order
    pub keyed : IsMap (view s.order)
    pub rising : IsRising s.order
    pub known : All (λ (e : Entry A). e.element < s.next) s.order
    pub bounded : length s.order ≤ cache_entries

  pub element_of-above :
      (k n : ℕ) (id : String) (es : List (Entry A))
      → All (λ (x : Entry A). k < x.element) es
      → element_of id es ≡ some n
      → k < n
  element_of-above k n id [] h e = absurd (ground (arith, e))
  element_of-above k n id (x ∷ es) h e = elim (Bool-cases (str_eq x.id id)) [
    | inl q ↦ ground (arith, e, q, h.0)
    | inr q ↦ element_of-above k n id es h.1 (ground (arith, e, q))
  ]

  -- An identifier has an element exactly when it has an entry.
  pub element_of-view :
      (id : String) (es : List (Entry A))
      → is_some (element_of id es) ≡ is_some (lookup id (view es))
  element_of-view id [] = refl
  element_of-view id (e ∷ es) = ground (arith, element_of-view id es)

  pub absent :
      (id : String) (es : List (Entry A)) → lookup id (view es) ≡ none → element_of id es ≡ none
  absent id es h = elim (Option-cases (element_of id es)) [
    | inl q ↦ q
    | inr (n, q) ↦ absurd (ground (arith, q, h, element_of-view id es))
  ]

  -- Removing the element that the map has for an identifier removes its entry, and the map's answer
  -- gives the entry.
  pub remove_element-view :
      (id : String) (n : ℕ) (es : List (Entry A))
      → element_of id es ≡ some n
      → IsRising es
      → IsMap (view es)
      → view (remove_element n es) ≡ remove id (view es)
  remove_element-view id n [] e r k = absurd (ground (arith, e))
  remove_element-view id n (x ∷ es) e r k = elim (Bool-cases (str_eq x.id id)) [
    | inl q ↦
        let here : (x.element == n) ≡ true = ground (arith, e, q) in
        let gone =
          remove-absent id (view es)
            (subst (λ i. lookup i (view es) ≡ none) ((eq_iff x.id id).0 q) k.0) in
        rw (here, q) (sym gone)
    | inr q ↦
        let e' : element_of id es ≡ some n = ground (arith, e, q) in
        let later = element_of-above x.element n id es r.0 e' in
        let here : (x.element == n) ≡ false = ground (arith, later) in
        rw (here, q)
          (ap (λ v. (x.id, (x.descriptor, x.expires)) ∷ v) (remove_element-view id n es e' r.1 k.1))
  ]

  pub value_of-view :
      (id : String) (n : ℕ) (es : List (Entry A))
      → element_of id es ≡ some n
      → IsRising es
      → (x : Entry A) × (value_of n es ≡ some x)
        × (x.id ≡ id)
        × (x.element ≡ n)
        × (lookup id (view es) ≡ some (x.descriptor, x.expires))
  value_of-view id n [] e r = absurd (ground (arith, e))
  value_of-view id n (x ∷ es) e r = elim (Bool-cases (str_eq x.id id)) [
    | inl q ↦
        (x, ground (arith, e, q), (eq_iff x.id id).0 q, ground (arith, e, q), ground (arith, q))
    | inr q ↦
        let e' : element_of id es ≡ some n = ground (arith, e, q) in
        let later = element_of-above x.element n id es r.0 e' in
        let (y, v, i, j, l) = value_of-view id n es e' r.1 in
        (y, ground (arith, later, v), i, j, ground (arith, q, l))
  ]
