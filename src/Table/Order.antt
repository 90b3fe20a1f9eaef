-- ===== src/Table/Order.antt =====
-- What ORDER BY keeps: the rows, and a sorted table as it is.
use wppconnect_server_go.Prelude.{
  suc, ◌≡◌, refl, inl, inr, Bool, true, false, List, [], ◌∷◌, arith, Bool-cases, length, All, In,
}
use wppconnect_server_go.Table.{insert_by, order_by}

module _ {A : Type 0} (before : A → A → Bool) where
  pub In-insert_by : (a x : A) (xs : List A) → In a (insert_by before x xs) → In a (x ∷ xs)
  In-insert_by a x [] m = m
  In-insert_by a x (y ∷ ys) m = ground (arith, In-insert_by a x ys)

  pub insert_by-In : (a x : A) (xs : List A) → In a (x ∷ xs) → In a (insert_by before x xs)
  insert_by-In a x [] m = m
  insert_by-In a x (y ∷ ys) m = ground (arith, insert_by-In a x ys)

  pub In-order_by : (a : A) (xs : List A) → In a (order_by before xs) → In a xs
  In-order_by a [] m = m
  In-order_by a (x ∷ xs) m = ground (arith, In-insert_by a x (order_by before xs), In-order_by a xs)

  pub order_by-In : (a : A) (xs : List A) → In a xs → In a (order_by before xs)
  order_by-In a [] m = m
  order_by-In a (x ∷ xs) m = ground (arith, insert_by-In a x (order_by before xs), order_by-In a xs)

  pub length-insert_by : (x : A) (xs : List A) → length (insert_by before x xs) ≡ suc (length xs)
  length-insert_by x [] = refl
  length-insert_by x (y ∷ ys) = ground (arith, length-insert_by x ys)

  pub length-order_by : (xs : List A) → length (order_by before xs) ≡ length xs
  length-order_by [] = refl
  length-order_by (x ∷ xs) =
      ground (arith, length-insert_by x (order_by before xs), length-order_by xs)

  -- No row stands behind one that must follow it.
  abbrev pub IsOrdered : List A → Type 0
  IsOrdered [] = Unit
  IsOrdered (x ∷ xs) = All (λ y. before x y ≡ true) xs × IsOrdered xs

  module _ (total : (x y : A) → before x y ≡ false → before y x ≡ true)
      (trans : (x y z : A) → before x y ≡ true → before y z ≡ true → before x z ≡ true) where
    All-insert_by :
        (w x : A) (xs : List A)
        → before w x ≡ true
        → All (λ y. before w y ≡ true) xs
        → All (λ y. before w y ≡ true) (insert_by before x xs)
    All-insert_by w x [] h all = (h, tt)
    All-insert_by w x (y ∷ ys) h all = ground (arith, All-insert_by w x ys)

    All-trans :
        (w x : A) (xs : List A)
        → before w x ≡ true
        → All (λ y. before x y ≡ true) xs
        → All (λ y. before w y ≡ true) xs
    All-trans w x [] h all = tt
    All-trans w x (y ∷ ys) h all = (trans w x y h all.0, All-trans w x ys h all.1)

    insert_by-IsOrdered : (x : A) (xs : List A) → IsOrdered xs → IsOrdered (insert_by before x xs)
    insert_by-IsOrdered x [] h = (tt, tt)
    insert_by-IsOrdered x (y ∷ ys) h = elim (Bool-cases (before x y)) [
      | inl e ↦ rw e ((e, All-trans x y ys e h.0), h)
      | inr e ↦ rw e (All-insert_by y x ys (total x y e) h.0, insert_by-IsOrdered x ys h.1)
    ]

    pub order_by-IsOrdered : (xs : List A) → IsOrdered (order_by before xs)
    order_by-IsOrdered [] = tt
    order_by-IsOrdered (x ∷ xs) = insert_by-IsOrdered x (order_by before xs) (order_by-IsOrdered xs)
