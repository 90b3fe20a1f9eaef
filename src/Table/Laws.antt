-- ===== src/Table/Laws.antt =====
-- What the statements keep, drop, change and count.
use wppconnect_server_go.Prelude.{
  ℕ, ◌+◌, ◌≤◌, ◌≡◌, refl, ◌⊎◌, inl, inr, Bool, true, false, List, [], ◌∷◌, ◌++◌, arith,
  if◌then◌else◌, Bool-cases, length, sum_by, All, In,
}
use wppconnect_server_go.Table.{select, delete, update, exists, count}

module _ {ℓ} {A : Type ℓ} (p : A → Bool) where
  pub length-select-le : (xs : List A) → length (select p xs) ≤ length xs
  length-select-le [] = omega arith
  length-select-le (x ∷ xs) = ground (arith, length-select-le xs)

  -- Every row is deleted or kept.
  pub length-delete : (xs : List A) → length (delete p xs) + count p xs ≡ length xs
  length-delete [] = omega arith
  length-delete (x ∷ xs) = ground (arith, length-delete xs)

  pub sum_by-delete :
      (f : A → ℕ) (xs : List A) → sum_by f (delete p xs) + sum_by f (select p xs) ≡ sum_by f xs
  sum_by-delete f [] = omega arith
  sum_by-delete f (x ∷ xs) = ground (arith, sum_by-delete f xs)

  pub count-append : (xs ys : List A) → count p (xs ++ ys) ≡ count p xs + count p ys
  count-append [] ys = omega arith
  count-append (x ∷ xs) ys = ground (arith, count-append xs ys)

  pub length-update : (f : A → A) (xs : List A) → length (update p f xs) ≡ length xs
  length-update f [] = refl
  length-update f (x ∷ xs) = ground (arith, length-update f xs)

module _ {ℓ κ} {A : Type ℓ} (P : A → Type κ) (p : A → Bool) where
  pub All-select : (xs : List A) → All P xs → All P (select p xs)
  All-select [] h = tt
  All-select (x ∷ xs) h = elim (p x) as (λ b. All P (if b then x ∷ select p xs else select p xs)) [
    | true ↦ (h.0, All-select xs h.1)
    | false ↦ All-select xs h.1
  ]

  pub All-delete : (xs : List A) → All P xs → All P (delete p xs)
  All-delete [] h = tt
  All-delete (x ∷ xs) h = elim (p x) as (λ b. All P (if b then delete p xs else x ∷ delete p xs)) [
    | true ↦ All-delete xs h.1
    | false ↦ (h.0, All-delete xs h.1)
  ]

  pub All-update :
      (f : A → A)
      → ((a : A) → p a ≡ true → P a → P (f a))
      → (xs : List A) → All P xs
      → All P (update p f xs)
  All-update f keep [] h = tt
  All-update f keep (x ∷ xs) h = (first, All-update f keep xs h.1)
    where
      first : P (if p x then f x else x)
      first = elim (Bool-cases (p x)) [ inl e ↦ rw e (keep x e h.0) | inr e ↦ rw e h.0 ]

module _ {A : Type 0} (p : A → Bool) where
  -- A selected row is a row of the table that passes the test, and every such row is selected.
  pub In-select : (a : A) (xs : List A) → In a (select p xs) → In a xs × (p a ≡ true)
  In-select a [] m = absurd m
  In-select a (x ∷ xs) m = elim (Bool-cases (p x)) [
    | inl e ↦ ground (arith, In-select a xs)
    | inr e ↦ ground (arith, In-select a xs)
  ]

  pub select-In : (a : A) (xs : List A) → In a xs → p a ≡ true → In a (select p xs)
  select-In a [] m h = absurd m
  select-In a (x ∷ xs) m h = ground (arith, select-In a xs)

  pub In-delete : (a : A) (xs : List A) → In a (delete p xs) → In a xs × (p a ≡ false)
  In-delete a [] m = absurd m
  In-delete a (x ∷ xs) m = ground (arith, In-delete a xs)

  pub delete-In : (a : A) (xs : List A) → In a xs → p a ≡ false → In a (delete p xs)
  delete-In a [] m h = absurd m
  delete-In a (x ∷ xs) m h = ground (arith, delete-In a xs)

  -- A row that the test refuses is not changed.
  pub update-In : (f : A → A) (a : A) (xs : List A) → In a xs → p a ≡ false → In a (update p f xs)
  update-In f a [] m h = absurd m
  update-In f a (x ∷ xs) m h = ground (arith, update-In f a xs)

  pub update-In_hit :
      (f : A → A) (a : A) (xs : List A) → In a xs → p a ≡ true → In (f a) (update p f xs)
  update-In_hit f a [] m h = absurd m
  update-In_hit f a (x ∷ xs) m h = ground (arith, update-In_hit f a xs)

  -- Every row after an update is an old one that the test refused, or the change of one that passed.
  pub In-update :
      (f : A → A) (b : A) (xs : List A)
      → In b (update p f xs)
      → (a : A) × In a xs × (((p a ≡ true) × (b ≡ f a)) ⊎ ((p a ≡ false) × (b ≡ a)))
  In-update f b [] m = absurd m
  In-update f b (x ∷ xs) (inl e) = elim (Bool-cases (p x)) [
    | inl h ↦ (x, inl refl, inl (h, ground arith))
    | inr h ↦ (x, inl refl, inr (h, ground arith))
  ]
  In-update f b (x ∷ xs) (inr m) = let (a, old, how) = In-update f b xs m in (a, inr old, how)

  pub exists-In : (a : A) (xs : List A) → In a xs → p a ≡ true → exists p xs ≡ true
  exists-In a [] m h = absurd m
  exists-In a (x ∷ xs) m h = ground (arith, exists-In a xs)

  pub exists_sound : (xs : List A) → exists p xs ≡ true → (a : A) × In a xs × (p a ≡ true)
  exists_sound [] h = cc
  exists_sound (x ∷ xs) h = elim (Bool-cases (p x)) [
    | inl e ↦ (x, inl refl, e)
    | inr e ↦ let (a, m, q) = exists_sound xs (ground arith) in (a, inr m, q)
  ]
