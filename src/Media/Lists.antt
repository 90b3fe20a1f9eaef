-- ===== src/Media/Lists.antt =====
-- internal/media/store.go: what the changes of the cache's list do to its entries.
use wppconnect_server_go.Prelude.{
  ℕ, suc, ◌<◌, ◌==◌, String, ◌≡◌, refl, ap, inl, inr, true, false, none, some, List, [], ◌∷◌, ◌++◌,
  arith, str_eq, eq_iff, if◌then◌else◌, length, All, All-append, IsMap, Bool-cases, is_some,
}
use wppconnect_server_go.Media.{Entry, remove_element}
use wppconnect_server_go.Media.Invariant.{view, element_of, IsRising, absent, element_of-above}

module _ {A : Type 0} where
  pub remove_element-All :
      (P : Entry A → Type 0) (n : ℕ) (es : List (Entry A)) → All P es → All P (remove_element n es)
  remove_element-All P n [] h = tt
  remove_element-All P n (x ∷ es) h = elim (Bool-cases (x.element == n)) [
    | inl q ↦ rw q h.1
    | inr q ↦ rw q (h.0, remove_element-All P n es h.1)
  ]

  pub remove_element-IsRising :
      (n : ℕ) (es : List (Entry A)) → IsRising es → IsRising (remove_element n es)
  remove_element-IsRising n [] h = tt
  remove_element-IsRising n (x ∷ es) h = elim (Bool-cases (x.element == n)) [
    | inl q ↦ rw q h.1
    | inr q ↦ rw q (
      remove_element-All (λ (y : Entry A). x.element < y.element) n es h.0,
      remove_element-IsRising n es h.1,
    )
  ]

  pub append-IsRising :
      (e : Entry A) (es : List (Entry A))
      → IsRising es
      → All (λ (x : Entry A). x.element < e.element) es
      → IsRising (es ++ e ∷ [])
  append-IsRising e [] r h = (tt, tt)
  append-IsRising e (x ∷ es) r h = (
    All-append (λ (y : Entry A). x.element < y.element) es (e ∷ []) r.0 (h.0, tt),
    append-IsRising e es r.1 h.1,
  )

  pub element_of-removed :
      (id j : String) (n : ℕ) (es : List (Entry A))
      → element_of id es ≡ some n
      → IsRising es
      → IsMap (view es)
      → element_of j (remove_element n es) ≡ (if str_eq id j then none else element_of j es)
  element_of-removed id j n [] e r k = absurd (ground (arith, e))
  element_of-removed id j n (x ∷ es) e r k = elim (Bool-cases (str_eq x.id id)) [
    | inl q ↦
        let here : (x.element == n) ≡ true = ground (arith, e, q) in
        let none_left = absent x.id es k.0 in
        rw here (ground (arith, q, none_left, eq_iff x.id id, eq_iff x.id j, eq_iff id j))
    | inr q ↦
        let e' : element_of id es ≡ some n = ground (arith, e, q) in
        let later = element_of-above x.element n id es r.0 e' in
        let here : (x.element == n) ≡ false = ground (arith, later) in
        rw here (
          ground (
            arith,
            q,
            element_of-removed id j n es e' r.1 k.1,
            eq_iff x.id id,
            eq_iff x.id j,
            eq_iff id j,
          ))
  ]

  pub element_of-append :
      (j : String) (e : Entry A) (es : List (Entry A))
      → element_of j (es ++ e ∷ []) ≡ (
          if is_some (element_of j es)
          then element_of j es
          else if str_eq e.id j
          then some e.element
          else none)
  element_of-append j e [] = refl
  element_of-append j e (x ∷ es) = ground (arith, element_of-append j e es)

  pub view-append :
      (e : Entry A) (es : List (Entry A))
      → view (es ++ e ∷ []) ≡ view es ++ (e.id, (e.descriptor, e.expires)) ∷ []
  view-append e [] = refl
  view-append e (x ∷ es) = ap (λ v. (x.id, (x.descriptor, x.expires)) ∷ v) (view-append e es)

  pub length-view : (es : List (Entry A)) → length (view es) ≡ length es
  length-view [] = refl
  length-view (x ∷ es) = ap suc (length-view es)
