-- ===== src/Core/GoldMemory/Query.antt =====
-- crates/core/src/memory/invariant.rs: the queries of a gold memory.
use mathlib.Core.List.Memᴰ
use mathlib.Core.List.{Memᴰ}
use mathlib.Core.Path.{subst}
use ndc.Common.{
  ℕ, ◌≤◌, String, Bool, true, false, not, ◌&&◌, ◌≡◌, ◌↔◌, ◌⊎◌, Option, none, some, List, [], ◌∷◌,
  if◌then◌else◌, ltb, member, any, retain, arith, inl, inr, Bool-cases, refl, sym,
}
use ndc.Common.Text.{str_eq}
use ndc.Core.Invariants.{
  InvariantPriority, priority_eq, priority_eq_iff, InvariantSourceKind, by_human, by_test,
  by_system, by_lineage, kind, ScopeType, scope_eq, scope_eq_iff, GoldInvariant,
}
use ndc.Core.GoldMemory.{GoldMemory}

pub record InvariantQuery : Type 0 where
  pub priority : Option InvariantPriority
  pub scope_type : Option ScopeType
  pub source_kind : Option InvariantSourceKind
  pub tags : List String
  pub only_active : Bool
  pub min_validation_count : ℕ  -- u32

-- The derived `==` of source kinds.
abbrev kind_eq : InvariantSourceKind → InvariantSourceKind → Bool
kind_eq by_human by_human = true
kind_eq by_test by_test = true
kind_eq by_system by_system = true
kind_eq by_lineage by_lineage = true
kind_eq _ _ = false

abbrev is_empty : List String → Bool
is_empty [] = true
is_empty (_ ∷ _) = false

-- `let Some(x) = wanted && actual != x`.
abbrev differs {ℓ} : {A : Type ℓ} → (A → A → Bool) → Option A → A → Bool
differs eq none actual = false
differs eq (some wanted) actual = not (eq actual wanted)

-- The closure of `query`.
unfoldable pub passes : InvariantQuery → GoldInvariant → Bool
passes q i =
    if q.only_active && not i.is_active
    then false
    else if differs priority_eq q.priority i.priority
    then false
    else if differs scope_eq q.scope_type i.scope.scope_type
    then false
    else if differs kind_eq q.source_kind (kind i.source)
    then false
    else if not (is_empty q.tags) && not (any (λ t. member str_eq i.tags t) q.tags)
    then false
    else if ltb i.validation_count q.min_validation_count
    then false
    else true

unfoldable pub query : InvariantQuery → GoldMemory → List GoldInvariant
query q g = retain (passes q) g.invariants

kind_eq_iff : (a b : InvariantSourceKind) → (kind_eq a b ≡ true) ↔ (a ≡ b)
kind_eq_iff a b = ground arith

-- What a query asks of an invariant.
abbrev pub Satisfies : InvariantQuery → GoldInvariant → Type 0
Satisfies q i =
    (q.only_active ≡ true → i.is_active ≡ true)
    × ((q.priority ≡ none) ⊎ (q.priority ≡ some i.priority))
    × ((q.scope_type ≡ none) ⊎ (q.scope_type ≡ some i.scope.scope_type))
    × ((q.source_kind ≡ none) ⊎ (q.source_kind ≡ some (kind i.source)))
    × ((q.tags ≡ []) ⊎ (any (λ t. member str_eq i.tags t) q.tags ≡ true))
    × (q.min_validation_count ≤ i.validation_count)

differs_iff :
    {A : Type 0} (eq : A → A → Bool) (wanted : Option A) (actual : A)
    → ((a b : A) → (eq a b ≡ true) ↔ (a ≡ b))
    → (differs eq wanted actual ≡ false) ↔ ((wanted ≡ none) ⊎ (wanted ≡ some actual))
differs_iff eq none actual iff = (λ _. inl refl, λ _. refl)
differs_iff eq (some w) actual iff = ground (arith, iff actual w)

is_empty_iff : (tags : List String) → (is_empty tags ≡ true) ↔ (tags ≡ [])
is_empty_iff [] = (λ _. refl, λ _. refl)
is_empty_iff (t ∷ ts) = ground arith

-- A chain of early returns passes if none is taken.
chain_iff :
    (a b c d e f : Bool)
    → ((if a
          then false
          else if b
          then false
          else if c
          then false
          else if d
          then false
          else if e
          then false
          else if f
          then false
          else true)
        ≡ true)
      ↔ ((a ≡ false) × (b ≡ false) × (c ≡ false) × (d ≡ false) × (e ≡ false) × (f ≡ false))
chain_iff a b c d e f = ground arith

active_iff : (only active : Bool) → ((only && not active) ≡ false) ↔ (only ≡ true → active ≡ true)
active_iff only active = ground arith

tags_iff :
    (tags : List String) (found : Bool)
    → ((not (is_empty tags) && not found) ≡ false) ↔ ((tags ≡ []) ⊎ (found ≡ true))
tags_iff tags found = ground (arith, is_empty_iff tags)

count_iff : (a b : ℕ) → (ltb a b ≡ false) ↔ (b ≤ a)
count_iff a b = ground arith

passes_iff : (q : InvariantQuery) (i : GoldInvariant) → (passes q i ≡ true) ↔ Satisfies q i
unfolding passes
passes_iff q i =
    let active = active_iff q.only_active i.is_active in
    let priority = differs_iff priority_eq q.priority i.priority priority_eq_iff in
    let scope = differs_iff scope_eq q.scope_type i.scope.scope_type scope_eq_iff in
    let source = differs_iff kind_eq q.source_kind (kind i.source) kind_eq_iff in
    let tag = tags_iff q.tags (any (λ t. member str_eq i.tags t) q.tags) in
    let count = count_iff i.validation_count q.min_validation_count in
    let chain = chain_iff _ _ _ _ _ _ in
    (
      λ h.
          let (a, b, c, d, e, f) = chain.0 h in
          (active.0 a, priority.0 b, scope.0 c, source.0 d, tag.0 e, count.0 f),
      λ (a, b, c, d, e, f).
          chain.1 (active.1 a, priority.1 b, scope.1 c, source.1 d, tag.1 e, count.1 f),
    )

kept :
    (p : GoldInvariant → Bool) (j : GoldInvariant) (is : List GoldInvariant)
    → p j ≡ true
    → retain p (j ∷ is) ≡ j ∷ retain p is
kept p j is y = ground arith

dropped :
    (p : GoldInvariant → Bool) (j : GoldInvariant) (is : List GoldInvariant)
    → p j ≡ false
    → retain p (j ∷ is) ≡ retain p is
dropped p j is n = ground arith

retain→Memᴰ :
    (p : GoldInvariant → Bool) (i : GoldInvariant) (is : List GoldInvariant)
    → Memᴰ i (retain p is)
    → Memᴰ i is × (p i ≡ true)
retain→Memᴰ p i [] m = elim m [ ]
retain→Memᴰ p i (j ∷ is) m = elim (Bool-cases (p j)) [
  | inl y ↦ elim (Memᴰ.cases_cons (subst (Memᴰ i) (kept p j is y) m)) [
    | inl e ↦ (Memᴰ.head e, rw e y)
    | inr later ↦ let (a, b) = retain→Memᴰ p i is later in (Memᴰ.tail a, b)
  ]
  | inr n ↦
      let (a, b) = retain→Memᴰ p i is (subst (Memᴰ i) (dropped p j is n) m) in (Memᴰ.tail a, b)
]

Memᴰ→retain :
    (p : GoldInvariant → Bool) (i : GoldInvariant) (is : List GoldInvariant)
    → Memᴰ i is
    → p i ≡ true
    → Memᴰ i (retain p is)
Memᴰ→retain p i [] m h = elim m [ ]
Memᴰ→retain p i (j ∷ is) m h = elim (Memᴰ.cases_cons m) [
  | inl e ↦ subst (Memᴰ i) (sym (kept p j is (rw (← e) h))) (Memᴰ.head e)
  | inr later ↦ elim (Bool-cases (p j)) [
    | inl y ↦ subst (Memᴰ i) (sym (kept p j is y)) (Memᴰ.tail (Memᴰ→retain p i is later h))
    | inr n ↦ subst (Memᴰ i) (sym (dropped p j is n)) (Memᴰ→retain p i is later h)
  ]
]

-- A query finds exactly the invariants that are active where it asks for that, have the priority, the
-- scope type and the kind of source it names, if it does, one of its tags, if it has any, and at least
-- the validations it asks for.
pub query_iff :
    (q : InvariantQuery) (g : GoldMemory) (i : GoldInvariant)
    → Memᴰ i (query q g) ↔ (Memᴰ i g.invariants × Satisfies q i)
unfolding query
query_iff q g i = (
  λ m. let (a, b) = retain→Memᴰ (passes q) i g.invariants m in (a, (passes_iff q i).0 b),
  λ (a, b). Memᴰ→retain (passes q) i g.invariants a ((passes_iff q i).1 b),
)
