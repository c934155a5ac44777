-- ===== src/Decision/Engine/Registering.antt =====
-- crates/decision/src/engine.rs: the order of the validators under `register_validator`.
use ndc.Common.{
  ℕ, ◌≡◌, refl, ◌≤◌, ◌<◌, ◌++◌, List, [], ◌∷◌, arith, All, inl, inr, Bool-cases, leb, push,
}
use ndc.Decision.Engine.{
  Validator, DecisionEngine, register_validator, sort_by_priority, insert_by_priority,
}

-- The priorities do not fall along the list.
abbrev pub IsSorted : List Validator → Type 0
IsSorted [] = Unit
IsSorted (v ∷ vs) = All (λ w. v.priority ≤ w.priority) vs × IsSorted vs

abbrev AtLeast : ℕ → List Validator → Type 0
AtLeast p = All (λ w. p ≤ w.priority)

insert_first :
    (v : Validator) (vs : List Validator) → AtLeast v.priority vs → insert_by_priority v vs ≡ v ∷ vs
unfolding insert_by_priority
insert_first v [] h = refl
insert_first v (w ∷ ws) h = ground arith

-- What the sort does with a list that is sorted but for its last element.
record Inserted (v : Validator) (vs result : List Validator) : Type 0 where
  before : List Validator
  after : List Validator
  split : vs ≡ before ++ after
  placed : result ≡ before ++ v ∷ after
  not_above : All (λ w. w.priority ≤ v.priority) before
  above : All (λ w. v.priority < w.priority) after

-- Sorting puts the element before the sorted rest in front, and so keeps the place of `v`.
insert_before :
    (w v : Validator) (before after : List Validator)
    → All (λ u. u.priority ≤ v.priority) before
    → All (λ u. v.priority < u.priority) after
    → AtLeast w.priority (before ++ after)
    → Inserted v (w ∷ (before ++ after)) (insert_by_priority w (before ++ v ∷ after))
unfolding insert_by_priority
insert_before w v [] after below above low = elim (Bool-cases (leb w.priority v.priority)) [
  | inl le ↦ record {
    before = w ∷ [];
    after = after;
    split = refl;
    placed = rw le;
    not_above = (ground arith, tt);
    above = above;
  }
  | inr gt ↦ record {
    before = [];
    after = w ∷ after;
    split = refl;
    placed = rw (gt, insert_first w after low);
    not_above = tt;
    above = (ground arith, above);
  }
]
insert_before w v (b ∷ bs) after below above low = record {
  before = w ∷ b ∷ bs;
  after = after;
  split = refl;
  placed = ground arith;
  not_above = (omega arith, below);
  above = above;
}

sort-push :
    (v : Validator) (vs : List Validator)
    → IsSorted vs
    → Inserted v vs (sort_by_priority (push vs v))
unfolding sort_by_priority insert_by_priority
sort-push v [] h = record {
  before = [];
  after = [];
  split = refl;
  placed = refl;
  not_above = tt;
  above = tt;
}
sort-push v (w ∷ ws) h =
    let r : Inserted v ws (sort_by_priority (push ws v)) = sort-push v ws h.1 in
    rw (r.placed, r.split)
      (insert_before w v r.before r.after r.not_above r.above (rw r.split at h.0))

place-AtLeast :
    (p : ℕ) (before after : List Validator) (v : Validator)
    → AtLeast p (before ++ after)
    → p ≤ v.priority
    → AtLeast p (before ++ v ∷ after)
place-AtLeast p [] after v h le = (le, h)
place-AtLeast p (w ∷ ws) after v h le = (h.0, place-AtLeast p ws after v h.1 le)

lt-AtLeast : (p : ℕ) (vs : List Validator) → All (λ w. p < w.priority) vs → AtLeast p vs
lt-AtLeast p [] h = tt
lt-AtLeast p (w ∷ ws) h = (omega arith, lt-AtLeast p ws h.1)

place-IsSorted :
    (before after : List Validator) (v : Validator)
    → IsSorted (before ++ after)
    → All (λ u. u.priority ≤ v.priority) before
    → All (λ u. v.priority < u.priority) after
    → IsSorted (before ++ v ∷ after)
place-IsSorted [] after v h below above = (lt-AtLeast v.priority after above, h)
place-IsSorted (w ∷ ws) after v h below above =
    (place-AtLeast w.priority ws after v h.0 below.0, place-IsSorted ws after v h.1 below.1 above)

-- Registering a validator with an engine whose validators stand by priority keeps them by priority
-- and loses none: the new one comes after all of the same or a smaller number and before all of a
-- greater number, and the others stay in their order.
pub register_validator_lem :
    (v : Validator) (e : DecisionEngine)
    → IsSorted e.validators
    → (before after : List Validator) × (e.validators ≡ before ++ after)
      × ((register_validator v e).validators ≡ before ++ v ∷ after)
      × All (λ u. u.priority ≤ v.priority) before
      × All (λ u. v.priority < u.priority) after
      × IsSorted (register_validator v e).validators
unfolding register_validator
register_validator_lem v e h =
    let r : Inserted v e.validators (sort_by_priority (push e.validators v)) =
      sort-push v e.validators h in
    (
      r.before,
      r.after,
      r.split,
      r.placed,
      r.not_above,
      r.above,
      rw r.placed (place-IsSorted r.before r.after v (rw r.split at h) r.not_above r.above),
    )
