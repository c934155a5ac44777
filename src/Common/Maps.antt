-- ===== src/Common/Maps.antt =====
-- Equality as an interface, and Rust's `HashMap` as an association list with one entry for a key.
-- The order of the entries stands for the order of iteration, which the program leaves open.
use text.Mathlib.Text
use text.Mathlib.TextEquality.{eq_iff}
use ndc.Common.Bools.{if◌then◌else◌, ◌==◌}
use Prim.Native.Nat.{ℕ}
use Prim.Native.String.{String}
use mathlib.Core.Path.{◌≡◌, refl}
use mathlib.Core.Logic.{◌↔◌, ◌≢◌}
use mathlib.Core.Bool.{Bool, true, false}
use mathlib.Core.Option.{Option, none, some}
use mathlib.Core.List.{List, [], ◌∷◌}
use native.Mathlib.Omega.{arith}

pub record Eq {ℓ} (A : Type ℓ) : Type ℓ where
  pub beq : A → A → Bool
  pub beq_iff : (a b : A) → (beq a b ≡ true) ↔ (a ≡ b)

pub nat_eq_iff : (a b : ℕ) → ((a == b) ≡ true) ↔ (a ≡ b)
nat_eq_iff a b = ground arith

instance abbrev pub nat_eq : Eq ℕ
nat_eq = record { beq = ◌==◌; beq_iff = nat_eq_iff }

instance abbrev pub string_eq : Eq String
string_eq = record { beq = Text.◌==◌; beq_iff = eq_iff }

module _ {ℓ κ} {K : Type ℓ} {V : Type κ} ⦃e : Eq K⦄ where
  -- `map.get(&k)`.
  unfoldable pub get : K → List (K × V) → Option V
  get k [] = none
  get k ((j, v) ∷ m) = elim (e.beq j k) [ true ↦ some v | false ↦ get k m ]

  -- `map.insert(k, v)`.
  unfoldable pub insert : K → V → List (K × V) → List (K × V)
  insert k v [] = (k, v) ∷ []
  insert k v ((j, w) ∷ m) = elim (e.beq j k) [ true ↦ (k, v) ∷ m | false ↦ (j, w) ∷ insert k v m ]

  -- `map.remove(&k)`.
  unfoldable pub remove : K → List (K × V) → List (K × V)
  remove k [] = []
  remove k ((j, w) ∷ m) = elim (e.beq j k) [ true ↦ m | false ↦ (j, w) ∷ remove k m ]

  -- No key has two entries.
  abbrev pub IsFunctional : List (K × V) → Type (ℓ ⊔ κ)
  IsFunctional [] = Unit
  IsFunctional ((j, w) ∷ m) = (get j m ≡ none) × IsFunctional m

  pub get-insert :
      (k j : K) (v : V) (m : List (K × V))
      → get j (insert k v m) ≡ (if e.beq k j then some v else get j m)
  unfolding get insert
  get-insert k j v [] = ground arith
  get-insert k j v ((i, w) ∷ m) =
      ground (arith, e.beq_iff k j, e.beq_iff i k, e.beq_iff i j, get-insert k j v m)

  pub get-insert_self : (k : K) (v : V) (m : List (K × V)) → get k (insert k v m) ≡ some v
  get-insert_self k v m = rw (get-insert, (e.beq_iff k k).1 refl)

  pub get-remove :
      (k j : K) (m : List (K × V))
      → IsFunctional m
      → get j (remove k m) ≡ (if e.beq k j then none else get j m)
  unfolding get remove
  get-remove k j [] f = ground arith
  get-remove k j ((i, w) ∷ m) f =
      ground (arith, e.beq_iff k j, e.beq_iff i k, e.beq_iff i j, get-remove k j m f.1)

  pub get-insert_ne : (k j : K) (v : V) (m : List (K × V)) → j ≢ k → get j (insert k v m) ≡ get j m
  get-insert_ne k j v m h = ground (arith, get-insert k j v m, e.beq_iff k j)

  pub get-remove_self : (k : K) (m : List (K × V)) → IsFunctional m → get k (remove k m) ≡ none
  get-remove_self k m f = ground (arith, get-remove k k m f, e.beq_iff k k)

  pub get-remove_ne :
      (k j : K) (m : List (K × V)) → IsFunctional m → j ≢ k → get j (remove k m) ≡ get j m
  get-remove_ne k j m f h = ground (arith, get-remove k j m f, e.beq_iff k j)

  pub insert-IsFunctional :
      (k : K) (v : V) (m : List (K × V)) → IsFunctional m → IsFunctional (insert k v m)
  unfolding get insert
  insert-IsFunctional k v [] f = (refl, tt)
  insert-IsFunctional k v ((i, w) ∷ m) f =
      ground
        (arith, e.beq_iff i k, e.beq_iff k i, get-insert k i v m, insert-IsFunctional k v m f.1)

  pub remove-IsFunctional : (k : K) (m : List (K × V)) → IsFunctional m → IsFunctional (remove k m)
  unfolding get remove
  remove-IsFunctional k [] f = tt
  remove-IsFunctional k ((i, w) ∷ m) f =
      ground
        (arith, e.beq_iff i k, e.beq_iff k i, get-remove k i m f.1, remove-IsFunctional k m f.1)
