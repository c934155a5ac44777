-- ===== src/Common/Lists.antt =====
-- Lists measured and indexed by native numbers, and Rust's `Vec` methods on them.
use Prim.Native.Nat.{ℕ, zero, suc, ◌+◌}
use mathlib.Core.Path.{◌≡◌, refl, ap}
use mathlib.Core.Bool.{Bool, true, false, ◌&&◌, ◌||◌}
use mathlib.Core.List.{List, [], ◌∷◌, ◌++◌}
use mathlib.Core.Option.{Option, none, some}
use native.Mathlib.Omega.{arith}

module _ {ℓ} {A : Type ℓ} where
  abbrev pub length : List A → ℕ
  length [] = 0
  length (x ∷ xs) = suc (length xs)

  abbrev pub get_elem? : List A → ℕ → Option A
  get_elem? [] i = none
  get_elem? (x ∷ xs) zero = some x
  get_elem? (x ∷ xs) (suc i) = get_elem? xs i

  -- A write out of bounds changes nothing.
  abbrev pub set : List A → ℕ → A → List A
  set [] i v = []
  set (x ∷ xs) zero v = v ∷ xs
  set (x ∷ xs) (suc i) v = x ∷ set xs i v

  -- `v.push(x)`.
  abbrev pub push : List A → A → List A
  push xs x = xs ++ x ∷ []

  -- `v.extend(ws)`.
  abbrev pub extend : List A → List A → List A
  extend xs ys = xs ++ ys

  -- `v.last()`.
  abbrev pub last : List A → Option A
  last [] = none
  last (x ∷ []) = some x
  last (x ∷ y ∷ xs) = last (y ∷ xs)

  -- `iter().find(p)`.
  abbrev pub find : (A → Bool) → List A → Option A
  find p [] = none
  find p (x ∷ xs) = elim (p x) [ true ↦ some x | false ↦ find p xs ]

  -- `iter().all(p)`.
  abbrev pub all : (A → Bool) → List A → Bool
  all p [] = true
  all p (x ∷ xs) = p x && all p xs

  -- `v.contains(&x)`, with the equality of the elements.
  abbrev pub member : (A → A → Bool) → List A → A → Bool
  member eq [] a = false
  member eq (x ∷ xs) a = eq x a || member eq xs a

  -- `iter().any(p)`.
  abbrev pub any : (A → Bool) → List A → Bool
  any p [] = false
  any p (x ∷ xs) = p x || any p xs

  -- `v.retain(p)`, and `iter().filter(p)`.
  abbrev pub retain : (A → Bool) → List A → List A
  retain p [] = []
  retain p (x ∷ xs) = let rest = retain p xs in elim (p x) [ true ↦ x ∷ rest | false ↦ rest ]

  -- The elements that satisfy a predicate, by recursion.
  abbrev pub All {κ} : (A → Type κ) → List A → Type κ
  All P [] = Unit
  All P (x ∷ xs) = P x × All P xs

module _ {ℓ} {A : Type ℓ} where
  pub length-append : (xs ys : List A) → length (xs ++ ys) ≡ length xs + length ys
  length-append [] ys = omega arith
  length-append (x ∷ xs) ys = omega (arith, length-append xs ys)

  pub length-push : (xs : List A) (x : A) → length (push xs x) ≡ length xs + 1
  length-push xs x = length-append xs (x ∷ [])

  -- A list that is not empty ends in an element.
  pub unsnoc :
      (n : ℕ) (xs : List A)
      → length xs ≡ suc n
      → (init : List A) × (x : A) × (xs ≡ push init x) × (length init ≡ n)
  unsnoc n [] h = absurd (omega arith)
  unsnoc zero (x ∷ []) h = ([], x, refl, refl)
  unsnoc (suc n) (x ∷ []) h = absurd (omega arith)
  unsnoc zero (x ∷ y ∷ xs) h = absurd (omega arith)
  unsnoc (suc n) (x ∷ y ∷ xs) h =
      let (init, l, split, len) = unsnoc n (y ∷ xs) (omega arith) in
      (x ∷ init, l, ap (◌∷◌ x) split, ap suc len)

  pub last-push : (xs : List A) (x : A) → last (push xs x) ≡ some x
  last-push [] x = refl
  last-push (y ∷ []) x = refl
  last-push (y ∷ z ∷ xs) x = last-push (z ∷ xs) x

  pub All-append {κ} : (P : A → Type κ) (xs ys : List A) → All P xs → All P ys → All P (xs ++ ys)
  All-append P [] ys hx hy = hy
  All-append P (x ∷ xs) ys hx hy = (hx.0, All-append P xs ys hx.1 hy)
