-- ===== src/Core/Invariants.antt =====
-- crates/core/src/memory/invariant.rs: invariants learnt from corrections and analysis.
use Prim.Native.Nat.{◌%◌}
use ndc.Common.{
  ◌≡◌, ◌↔◌, arith, ℕ, ◌+◌, String, Bool, true, Option, none, List, [], ◌∷◌, if◌then◌else◌, ltb,
  ◌==◌,
}
use ndc.Core.TaskState.{Timestamp}

pub data InvariantPriority : Type 0 where
  low medium high critical : InvariantPriority

-- The derived order.
abbrev pub rank : InvariantPriority → ℕ
rank low = 0
rank medium = 1
rank high = 2
rank critical = 3

pub data InvariantSource : Type 0 where
  human_correction : String → String → String → InvariantSource
  automated_test : String → String → InvariantSource
  system_inference : String → List String → InvariantSource
  lineage_transfer : String → ℕ → InvariantSource

pub data InvariantSourceKind : Type 0 where
  by_human by_test by_system by_lineage : InvariantSourceKind

abbrev pub kind : InvariantSource → InvariantSourceKind
kind (human_correction _ _ _) = by_human
kind (automated_test _ _) = by_test
kind (system_inference _ _) = by_system
kind (lineage_transfer _ _) = by_lineage

pub data ScopeType : Type 0 where
  global task_pattern file_pattern module_scope api_pattern : ScopeType

abbrev scope_index : ScopeType → ℕ
scope_index global = 0
scope_index task_pattern = 1
scope_index file_pattern = 2
scope_index module_scope = 3
scope_index api_pattern = 4

-- The derived `==` of scope types.
abbrev pub scope_eq : ScopeType → ScopeType → Bool
scope_eq a b = scope_index a == scope_index b

pub scope_eq_iff : (a b : ScopeType) → (scope_eq a b ≡ true) ↔ (a ≡ b)
scope_eq_iff a b = ground arith

-- The derived `==` of priorities.
abbrev pub priority_eq : InvariantPriority → InvariantPriority → Bool
priority_eq a b = rank a == rank b

pub priority_eq_iff : (a b : InvariantPriority) → (priority_eq a b ≡ true) ↔ (a ≡ b)
priority_eq_iff a b = ground arith

pub record InvariantScope : Type 0 where
  pub scope_type : ScopeType
  pub pattern : String

pub data VersionOperator : Type 0 where
  exact at_least at_most range : VersionOperator

pub record VersionConstraint : Type 0 where
  pub dimension : String
  pub operator : VersionOperator
  pub value : String

abbrev pub InvariantId : Type 0
InvariantId = String

pub record GoldInvariant : Type 0 where
  pub id : InvariantId
  pub rule : String
  pub description : String
  pub source : InvariantSource
  pub fact_key : Option String
  pub scope : InvariantScope
  pub priority : InvariantPriority
  pub version_constraints : List VersionConstraint
  pub tags : List String
  pub validation_count : ℕ  -- u32
  pub violation_count : ℕ  -- u32
  pub last_validated : Timestamp
  pub created_at : Timestamp
  pub is_active : Bool

-- `id` is drawn at random; `validated` and `created` are the two readings of the clock.
unfoldable pub from_human_correction :
    InvariantId → Timestamp → Timestamp → String → String → String → String → String → GoldInvariant
from_human_correction id validated created corrector_id original_error fix_description rule
      description =
    record {
      id = id;
      rule = rule;
      description = description;
      source = human_correction corrector_id original_error fix_description;
      fact_key = none;
      scope = record { scope_type = global; pattern = ".*" };
      priority = high;
      version_constraints = [];
      tags = "human-corrected" ∷ [];
      validation_count = 0;
      violation_count = 0;
      last_validated = validated;
      created_at = created;
      is_active = true;
    }

unfoldable pub mark_validated : Timestamp → GoldInvariant → GoldInvariant
mark_validated now i = record i {
  validation_count = (i.validation_count + 1) % 4294967296;
  last_validated = now;
}

unfoldable pub mark_violated : GoldInvariant → GoldInvariant
mark_violated i =
    let violations = (i.violation_count + 1) % 4294967296 in
    record i {
      violation_count = violations;
      priority = if ltb i.validation_count violations then critical else i.priority;
    }
