-- ===== src/Storage/Queue.antt =====
-- crates/storage/src/memory.rs: the contract of the storage, a queue of entries with unique ids.
use ndc.Common.{
  ℕ, suc, ◌-◌, ◌≤◌, ◌≡◌, refl, ap, none, some, List, [], ◌∷◌, if◌then◌else◌, ltb, push, length,
  length-push, arith, ◌==◌,
}
use ndc.Common.Maps.{get, insert, IsFunctional, nat_eq}

module _ {V : Type 0} where
  -- The last entries, at most so many.
  abbrev pub newest : ℕ → List (ℕ × V) → List (ℕ × V)
  newest n [] = []
  newest n (e ∷ q) = let rest = newest n q in if ltb n (suc (length q)) then rest else e ∷ q

  -- An entry of the queue is changed in its place; a new one comes last, and the oldest make room.
  unfoldable pub put : ℕ → ℕ → V → List (ℕ × V) → List (ℕ × V)
  unfolding get insert
  put capacity k v q =
      let room = push (newest (capacity - 1) q) (k, v) in
      let changed = insert k v q in elim (get k q) [ none ↦ room | some w ↦ changed ]

  pub put-new :
      (capacity k : ℕ) (v : V) (q : List (ℕ × V))
      → get k q ≡ none
      → put capacity k v q ≡ push (newest (capacity - 1) q) (k, v)
  unfolding put
  put-new capacity k v q new = ground arith

  pub put-old :
      (capacity k : ℕ) (v w : V) (q : List (ℕ × V))
      → get k q ≡ some w
      → put capacity k v q ≡ insert k v q
  unfolding put
  put-old capacity k v w q old = ground arith

  abbrev pub keys : List (ℕ × V) → List ℕ
  keys [] = []
  keys ((k, v) ∷ q) = k ∷ keys q

  pub newest-le : (n : ℕ) (q : List (ℕ × V)) → length (newest n q) ≤ n
  newest-le n [] = omega arith
  newest-le n (e ∷ q) = ground (arith, newest-le n q)

  pub newest-none : (n k : ℕ) (q : List (ℕ × V)) → get k q ≡ none → get k (newest n q) ≡ none
  unfolding get
  newest-none n k [] h = refl
  newest-none n k (e ∷ q) h = ground (arith, newest-none n k q)

  pub newest-IsFunctional : (n : ℕ) (q : List (ℕ × V)) → IsFunctional q → IsFunctional (newest n q)
  newest-IsFunctional n [] f = tt
  newest-IsFunctional n (e ∷ q) f = ground (arith, newest-IsFunctional n q f.1)

  pub get-push :
      (k j : ℕ) (v : V) (q : List (ℕ × V))
      → get k q ≡ none
      → get j (push q (k, v)) ≡ (if k == j then some v else get j q)
  unfolding get
  get-push k j v [] h = ground arith
  get-push k j v ((i, w) ∷ q) h = ground (arith, get-push k j v q)

  pub push-IsFunctional :
      (k : ℕ) (v : V) (q : List (ℕ × V))
      → get k q ≡ none
      → IsFunctional q
      → IsFunctional (push q (k, v))
  unfolding get
  push-IsFunctional k v [] h f = (refl, tt)
  push-IsFunctional k v ((i, w) ∷ q) h f = ground (arith, get-push k i v q, push-IsFunctional k v q)

  pub keys-push : (k : ℕ) (v : V) (q : List (ℕ × V)) → keys (push q (k, v)) ≡ push (keys q) k
  keys-push k v [] = refl
  keys-push k v (e ∷ q) = ap (◌∷◌ e.0) (keys-push k v q)

  pub keys-insert :
      (k : ℕ) (v w : V) (q : List (ℕ × V)) → get k q ≡ some w → keys (insert k v q) ≡ keys q
  unfolding get insert
  keys-insert k v w [] h = absurd (ground arith)
  keys-insert k v w ((i, u) ∷ q) h = ground (arith, keys-insert k v w q)

  pub length-insert :
      (k : ℕ) (v : V) (q : List (ℕ × V))
      → length (insert k v q) ≡ elim (get k q) [ none ↦ suc (length q) | some w ↦ length q ]
  unfolding get insert
  length-insert k v [] = refl
  length-insert k v ((i, w) ∷ q) = ground (arith, length-insert k v q)

  pub put-le :
      (capacity k : ℕ) (v : V) (q : List (ℕ × V))
      → length q ≤ suc (capacity - 1)
      → length (put capacity k v q) ≤ suc (capacity - 1)
  unfolding put
  put-le capacity k v q h = ground (
    arith,
    length-insert k v q,
    newest-le (capacity - 1) q,
    length-push (newest (capacity - 1) q) (k, v),
  )
