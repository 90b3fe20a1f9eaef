-- ===== src/Prelude/Errors.antt =====
-- Errors as values, failing calls and dictionaries with text keys.
use Prim.Native.Nat.{ℕ, suc, ◌≤◌}
use Prim.Native.String.{String}
use mathlib.Core.Path.{◌≡◌, refl, ap, subst}
use mathlib.Core.Logic.{◌⊎◌, inl, inr}
use mathlib.Core.Bool.{Bool, true, false}
use mathlib.Core.List.{List, [], ◌∷◌, ◌++◌}
use mathlib.Core.Option.{Option, none, some}
use native.Mathlib.Omega.{arith}
use text.Mathlib.Text.{◌==◌ as str_eq}
use text.Mathlib.TextEquality.{eq_iff}
use text.Mathlib.TextPositions.{eq_refl}
use wppconnect_server_go.Prelude.Tests.{if◌then◌else◌, is_some, Bool-cases}
use wppconnect_server_go.Prelude.Lists.{length}

-- What a Go function with an `error` result returns.
pub data Result {ℓ κ} (E : Type ℓ) (A : Type κ) : Type (ℓ ⊔ κ) where
  ok : A → Result E A
  err : E → Result E A

infixl 5 ◌>>=◌ ◌>>◌
abbrev pub ◌>>=◌ {ℓ κ μ} :
    {E : Type ℓ} {A : Type κ} {B : Type μ} → Result E A → (A → Result E B) → Result E B
ok a >>= f = f a
err e >>= f = err e

abbrev pub ◌>>◌ {ℓ μ} : {E : Type ℓ} {B : Type μ} → Result E (Unit {0}) → Result E B → Result E B
m >> k = m >>= λ _. k

pub Result-cases {ℓ κ} :
    {E : Type ℓ} {A : Type κ} (r : Result E A) → ((a : A) × (r ≡ ok a)) ⊎ ((e : E) × (r ≡ err e))
Result-cases (ok a) = inl (a, refl)
Result-cases (err e) = inr (e, refl)

-- `if !b { return err }`
abbrev pub guard {ℓ} : {E : Type ℓ} → Bool → E → Result E (Unit {0})
guard true e = ok tt
guard false e = err e

abbrev pub or_fail {ℓ κ} : {E : Type ℓ} {A : Type κ} → Option A → E → Result E A
or_fail none e = err e
or_fail (some a) e = ok a

-- Which of an operation's calls of the database or the network fail: `fails k` for the k-th.
abbrev pub Faults : Type 0
Faults = ℕ → Bool

abbrev pub call {ℓ} : {E : Type ℓ} → Faults → ℕ → E → Result E (Unit {0})
call fails k e = if fails k then err e else ok tt

-- A `map[string]V` as an association list.
module _ {ℓ} {V : Type ℓ} where
  abbrev pub lookup : String → List (String × V) → Option V
  lookup k [] = none
  lookup k ((j, v) ∷ m) = let rest = lookup k m in if str_eq j k then some v else rest

  abbrev pub insert : String → V → List (String × V) → List (String × V)
  insert k v [] = (k, v) ∷ []
  insert k v ((j, w) ∷ m) = if str_eq j k then (k, v) ∷ m else (j, w) ∷ insert k v m

  abbrev pub remove : String → List (String × V) → List (String × V)
  remove k [] = []
  remove k ((j, v) ∷ m) = let rest = remove k m in if str_eq j k then rest else (j, v) ∷ rest

  pub lookup-insert :
      (k j : String) (v : V) (m : List (String × V))
      → lookup j (insert k v m) ≡ (if str_eq k j then some v else lookup j m)
  lookup-insert k j v [] = refl
  lookup-insert k j v ((i, w) ∷ m) =
      ground (arith, eq_iff k j, eq_iff i k, eq_iff i j, lookup-insert k j v m)

  pub lookup-remove :
      (k j : String) (m : List (String × V))
      → lookup j (remove k m) ≡ (if str_eq k j then none else lookup j m)
  lookup-remove k j [] = ground arith
  lookup-remove k j ((i, w) ∷ m) =
      ground (arith, eq_iff k j, eq_iff i k, eq_iff i j, lookup-remove k j m)

  pub length-insert :
      (k : String) (v : V) (m : List (String × V))
      → length (insert k v m) ≡ (if is_some (lookup k m) then length m else suc (length m))
  length-insert k v [] = refl
  length-insert k v ((j, w) ∷ m) = ground (arith, length-insert k v m)

  pub length-remove-le : (k : String) (m : List (String × V)) → length (remove k m) ≤ length m
  length-remove-le k [] = omega arith
  length-remove-le k ((j, w) ∷ m) = ground (arith, length-remove-le k m)

  -- Where an entry of a map that was changed comes from, and which entries are in it.
  pub lookup_inserted :
      (k j : String) (v w : V) (m : List (String × V))
      → lookup j (insert k v m) ≡ some w
      → ((k ≡ j) × (v ≡ w)) ⊎ ((str_eq k j ≡ false) × (lookup j m ≡ some w))
  lookup_inserted k j v w m e = elim (Bool-cases (str_eq k j)) [
    | inl q ↦ inl (ground (arith, q, eq_iff k j), ground (arith, e, q, lookup-insert k j v m))
    | inr q ↦ inr (q, ground (arith, e, q, lookup-insert k j v m))
  ]

  pub lookup-insert_same :
      (k : String) (v : V) (m : List (String × V)) → lookup k (insert k v m) ≡ some v
  lookup-insert_same k v m = ground (arith, lookup-insert k k v m, eq_refl k)

  pub lookup-insert_other :
      (k j : String) (v w : V) (m : List (String × V))
      → str_eq k j ≡ false
      → lookup j m ≡ some w
      → lookup j (insert k v m) ≡ some w
  lookup-insert_other k j v w m q e = ground (arith, lookup-insert k j v m, q, e)

  pub lookup_removed :
      (k j : String) (w : V) (m : List (String × V))
      → lookup j (remove k m) ≡ some w
      → (str_eq k j ≡ false) × (lookup j m ≡ some w)
  lookup_removed k j w m e =
      (ground (arith, lookup-remove k j m, e), ground (arith, lookup-remove k j m, e))

  pub lookup-remove_other :
      (k j : String) (w : V) (m : List (String × V))
      → str_eq k j ≡ false
      → lookup j m ≡ some w
      → lookup j (remove k m) ≡ some w
  lookup-remove_other k j w m q e = ground (arith, lookup-remove k j m, q, e)

  -- No key stands twice.
  abbrev pub IsMap : List (String × V) → Type ℓ
  IsMap [] = Unit
  IsMap ((k, v) ∷ m) = (lookup k m ≡ none) × IsMap m

  pub insert-IsMap : (k : String) (v : V) (m : List (String × V)) → IsMap m → IsMap (insert k v m)
  insert-IsMap k v [] h = (refl, tt)
  insert-IsMap k v ((j, w) ∷ m) h = elim (Bool-cases (str_eq j k)) [
    | inl e ↦ rw e (subst (λ x. lookup x m ≡ none) ((eq_iff j k).0 e) h.0, h.1)
    | inr e ↦ rw e (
      ground (arith, lookup-insert k j v m, h.0, e, eq_iff j k, eq_iff k j),
      insert-IsMap k v m h.1,
    )
  ]

  pub remove-IsMap : (k : String) (m : List (String × V)) → IsMap m → IsMap (remove k m)
  remove-IsMap k [] h = tt
  remove-IsMap k ((j, w) ∷ m) h = elim (Bool-cases (str_eq j k)) [
    | inl e ↦ rw e (remove-IsMap k m h.1)
    | inr e ↦ rw e (ground (arith, lookup-remove k j m, h.0), remove-IsMap k m h.1)
  ]

  pub remove-absent : (k : String) (m : List (String × V)) → lookup k m ≡ none → remove k m ≡ m
  remove-absent k [] h = refl
  remove-absent k ((j, w) ∷ m) h = elim (Bool-cases (str_eq j k)) [
    | inl e ↦ ground (arith, e, h)
    | inr e ↦ rw e (ap (λ r. (j, w) ∷ r) (remove-absent k m (ground (arith, e, h))))
  ]

  pub append-IsMap :
      (k : String) (v : V) (m : List (String × V))
      → IsMap m
      → lookup k m ≡ none
      → IsMap (m ++ (k, v) ∷ [])
  append-IsMap k v [] h l = (refl, tt)
  append-IsMap k v ((j, w) ∷ m) h l = (
    ground (arith, lookup_append j k v m, h.0, l, eq_iff j k, eq_iff k j),
    append-IsMap k v m h.1 (ground (arith, l)),
  )
    where
      lookup_append :
          (i k : String) (v : V) (m : List (String × V))
          → lookup i (m ++ (k, v) ∷ [])
            ≡ (if is_some (lookup i m) then lookup i m else if str_eq k i then some v else none)
      lookup_append i k v [] = refl
      lookup_append i k v ((j, w) ∷ m) = ground (arith, lookup_append i k v m)
