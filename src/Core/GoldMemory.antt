-- ===== src/Core/GoldMemory.antt =====
-- crates/core/src/memory/invariant.rs: `GoldMemory` and `GoldMemoryService`. The trimming and the
-- lower-casing of a key are arguments, and so is whether a source is one of those joined by '+'.
pub mod Facts
pub mod Upserts
pub mod Query
use Prim.Native.String.{◌++◌}
use ndc.Common.{
  ℕ, String, Bool, true, false, not, ◌&&◌, ◌||◌, Option, none, some, List, [], ◌∷◌, if◌then◌else◌,
  leb, ltb, length, push, member, any, retain,
}
use ndc.Common.Option
use ndc.Common.Maps.{Eq, get, insert, string_eq}
use ndc.Common.Text.{str_eq}
use ndc.Core.TaskState.{Timestamp}
use ndc.Core.Invariants
use ndc.Core.Invariants.{
  InvariantPriority, rank, priority_eq, priority_eq_iff, InvariantSource, system_inference,
  InvariantSourceKind, kind, ScopeType, task_pattern, scope_eq, scope_eq_iff, InvariantId,
  GoldInvariant, from_human_correction,
}

instance abbrev pub scope_type_eq : Eq ScopeType
scope_type_eq = record { beq = scope_eq; beq_iff = scope_eq_iff }

instance abbrev pub invariant_priority_eq : Eq InvariantPriority
invariant_priority_eq = record { beq = priority_eq; beq_iff = priority_eq_iff }

pub record SystemFactInput : Type 0 where
  pub dedupe_key : String
  pub rule : String
  pub description : String
  pub scope_pattern : String
  pub priority : InvariantPriority
  pub tags : List String
  pub evidence : List String
  pub source : String

pub data SystemFactUpsertStatus : Type 0 where
  created updated : SystemFactUpsertStatus

pub record SystemFactUpsertResult : Type 0 where
  pub id : InvariantId
  pub status : SystemFactUpsertStatus

pub record GoldMemory : Type 0 where
  pub invariants : List GoldInvariant
  pub scope_index : List (ScopeType × List ℕ)
  pub priority_index : List (InvariantPriority × List ℕ)
  pub tag_index : List (String × List ℕ)

unfoldable pub new : GoldMemory
new = record { invariants = []; scope_index = []; priority_index = []; tag_index = [] }

module _ {K : Type 0} ⦃e : Eq K⦄ where
  -- `index.entry(key).or_default().push(idx)`.
  unfoldable pub add_to_index : K → ℕ → List (K × List ℕ) → List (K × List ℕ)
  unfolding get insert
  add_to_index key idx index = insert key (push (Option.get_or (get key index) []) idx) index

add_tags : List String → ℕ → List (String × List ℕ) → List (String × List ℕ)
unfolding add_to_index
add_tags [] idx index = index
add_tags (tag ∷ tags) idx index = add_tags tags idx (add_to_index tag idx index)

-- Its result is the id of the invariant.
unfoldable pub add_invariant : GoldInvariant → GoldMemory → GoldMemory
unfolding add_to_index add_tags
add_invariant i g =
    let idx = length g.invariants in
    record {
      invariants = push g.invariants i;
      scope_index = add_to_index i.scope.scope_type idx g.scope_index;
      priority_index = add_to_index i.priority idx g.priority_index;
      tag_index = add_tags i.tags idx g.tag_index;
    }

-- The change of the first invariant that passes a test, with its id; `none` without one.
unfoldable pub change_first :
    (GoldInvariant → Bool)
    → (GoldInvariant → GoldInvariant)
    → List GoldInvariant
    → Option (List GoldInvariant × InvariantId)
change_first p f [] = none
change_first p f (i ∷ is) =
    let later = change_first p f is in
    if p i
    then some (f i ∷ is, i.id)
    else Option.map (λ (r : List GoldInvariant × InvariantId). (i ∷ r.0, r.1)) later

-- `inv.fact_key.as_deref() == Some(key)`.
abbrev pub has_key : String → GoldInvariant → Bool
has_key key i = elim i.fact_key [ none ↦ false | some k ↦ str_eq k key ]

abbrev pub has_id : InvariantId → GoldInvariant → Bool
has_id id i = str_eq i.id id

abbrev pub max_priority : InvariantPriority → InvariantPriority → InvariantPriority
max_priority a b = if leb (rank a) (rank b) then b else a

-- Both loops of the merge: what is not there yet is added.
unfoldable pub merge_texts : List String → List String → List String
merge_texts old [] = old
merge_texts old (t ∷ ts) = merge_texts (if member str_eq old t then old else push old t) ts

-- Marks the first invariant with an id; whether there is one.
abbrev mark : (GoldInvariant → GoldInvariant) → InvariantId → GoldMemory → GoldMemory × Bool
mark f id g = elim (change_first (has_id id) f g.invariants) [
  | some (is, _) ↦ (record g { invariants = is }, true)
  | none ↦ (g, false)
]

unfoldable pub mark_validated : Timestamp → InvariantId → GoldMemory → GoldMemory × Bool
mark_validated now id g = mark (Invariants.mark_validated now) id g

unfoldable pub mark_violated : InvariantId → GoldMemory → GoldMemory × Bool
mark_violated id g = mark Invariants.mark_violated id g

-- With a fresh id and the two readings of the clock.
unfoldable pub create_from_human_correction :
    InvariantId → Timestamp → Timestamp → String → String → String → GoldMemory → GoldMemory
unfolding from_human_correction
create_from_human_correction id validated created_at corrector_id original_error fix_description g =
    add_invariant
      (from_human_correction id validated created_at corrector_id original_error fix_description
        ("Human correction for: " ++ original_error ++ ". Rule: " ++ fix_description)
        ("Corrected: " ++ original_error))
      g

module _ (trim to_ascii_lowercase : String → String) (is_token : String → String → Bool) where
  merge_source : SystemFactInput → InvariantSource → InvariantSource
  merge_source fact (system_inference analysis_method evidence) =
      system_inference
        (if not (is_token analysis_method fact.source)
          then analysis_method ++ "+" ++ fact.source
          else analysis_method)
        (merge_texts evidence fact.evidence)
  merge_source fact source = source

  unfoldable pub merge : SystemFactInput → GoldInvariant → GoldInvariant
  unfolding merge_source merge_texts
  merge fact i = record i {
    priority = max_priority i.priority fact.priority;
    rule = fact.rule;
    description = fact.description;
    scope = record { scope_type = task_pattern; pattern = fact.scope_pattern };
    tags = merge_texts i.tags fact.tags;
    source = merge_source fact i.source;
  }

  abbrev pub canonical_key : SystemFactInput → String
  canonical_key fact = to_ascii_lowercase (trim fact.dedupe_key)

  abbrev pub of_fact : InvariantId → Timestamp → Timestamp → SystemFactInput → GoldInvariant
  of_fact id validated created_at fact = record {
    id = id;
    rule = fact.rule;
    description = fact.description;
    source = system_inference fact.source fact.evidence;
    fact_key = some (canonical_key fact);
    scope = record { scope_type = task_pattern; pattern = fact.scope_pattern };
    priority = fact.priority;
    version_constraints = [];
    tags = fact.tags;
    validation_count = 0;
    violation_count = 0;
    last_validated = validated;
    created_at = created_at;
    is_active = true;
  }

  unfoldable pub upsert_system_fact :
      InvariantId
      → Timestamp
      → Timestamp
      → SystemFactInput
      → GoldMemory
      → GoldMemory × SystemFactUpsertResult
  upsert_system_fact id validated created_at fact g =
      elim (change_first (has_key (canonical_key fact)) (merge fact) g.invariants) [
        | some (is, found) ↦ (record g { invariants = is }, record { id = found; status = updated })
        | none ↦ (
          add_invariant (of_fact id validated created_at fact) g,
          record { id = id; status = created },
        )
      ]

  unfoldable pub create_from_system_fact :
      InvariantId
      → Timestamp
      → Timestamp
      → String
      → String
      → String
      → InvariantPriority
      → List String
      → List String
      → GoldMemory
      → GoldMemory × InvariantId
  create_from_system_fact id validated created_at rule description scope_pattern priority tags
        evidence g =
      let (g', r) =
        upsert_system_fact id validated created_at
          (record {
            dedupe_key =
                "legacy:"
                ++ trim (to_ascii_lowercase scope_pattern)
                ++ ":"
                ++ trim (to_ascii_lowercase rule);
            rule = rule;
            description = description;
            scope_pattern = scope_pattern;
            priority = priority;
            tags = tags;
            evidence = evidence;
            source = "structured-fact-mapping";
          })
          g in
      (g', r.id)
