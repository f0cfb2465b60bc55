-- ===== src/Base/Counts.antt =====
-- How a write at an index changes counts and projections.
use Prim.Native.Nat.{ℕ, zero, suc, ◌+◌, ◌<◌}
use mathlib.Core.Path.{◌≡◌, refl, ap}
use mathlib.Core.Logic.{inl, inr}
use mathlib.Core.Bool.{Bool, true, false}
use mathlib.Core.List.{List, [], ◌∷◌, map}
use mathlib.Core.Option.{none, some}
use native.Mathlib.Omega.{arith}
use tacklr.Base.Tests.{Option-cases}
use tacklr.Base.Lists.{get_elem?, set, count, find_index?, any}

abbrev pub one_if : Bool → ℕ
one_if true = 1
one_if false = 0

module _ {ℓ} {A : Type ℓ} (p : A → Bool) where
  pub find_index?-none : (xs : List A) → find_index? p xs ≡ none → count p xs ≡ 0
  find_index?-none [] h = refl
  find_index?-none (x ∷ xs) h = ground (arith, find_index?-none xs)

  pub find_index?-some :
      (xs : List A) (i : ℕ)
      → find_index? p xs ≡ some i
      → (a : A) × (get_elem? xs i ≡ some a) × (p a ≡ true)
  find_index?-some [] i h = cc
  find_index?-some (x ∷ xs) zero h = (x, refl, ground arith)
  find_index?-some (x ∷ xs) (suc i) h = find_index?-some xs i (ground arith)

  pub find_index?-at :
      (xs : List A) (i : ℕ) (a : A)
      → find_index? p xs ≡ some i
      → get_elem? xs i ≡ some a
      → p a ≡ true
  find_index?-at [] i a h e = cc
  find_index?-at (x ∷ xs) zero a h e = ground arith
  find_index?-at (x ∷ xs) (suc i) a h e = find_index?-at xs i a (ground arith) e

  pub count-any : (xs : List A) → any p xs ≡ true → 0 < count p xs
  count-any [] h = cc
  count-any (x ∷ xs) h = ground (arith, count-any xs)

  -- The index of an element that passes, when there is one.
  pub find_index?-any : (xs : List A) → any p xs ≡ true → (i : ℕ) × (find_index? p xs ≡ some i)
  find_index?-any [] h = cc
  find_index?-any (x ∷ xs) h = elim (Option-cases (find_index? p (x ∷ xs))) [
    | inl none_found ↦
        absurd (omega (arith, find_index?-none (x ∷ xs) none_found, count-any (x ∷ xs) h))
    | inr found ↦ found
  ]

  pub count-set :
      (xs : List A) (i : ℕ) (a v : A)
      → get_elem? xs i ≡ some a
      → count p (set xs i v) + one_if (p a) ≡ count p xs + one_if (p v)
  count-set [] i a v h = cc
  count-set (x ∷ xs) zero a v h = ground arith
  count-set (x ∷ xs) (suc i) a v h = omega (arith, count-set xs i a v h)

module _ {ℓ κ} {A : Type ℓ} {B : Type κ} (f : A → B) where
  pub map-set :
      (xs : List A) (i : ℕ) (a v : A)
      → get_elem? xs i ≡ some a
      → f v ≡ f a
      → map f (set xs i v) ≡ map f xs
  map-set [] i a v h e = refl
  map-set (x ∷ xs) zero a v h e = ground arith
  map-set (x ∷ xs) (suc i) a v h e = ap (◌∷◌ (f x)) (map-set xs i a v h e)
