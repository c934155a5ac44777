-- ===== src/Core/Lineage.antt =====
-- crates/core/src/todo/lineage.rs: `LineageService`, which records the parent, the depth and the
-- inherited context of each task.
pub mod Growth
pub mod Keeping
pub mod Depth
use Prim.Native.Nat.{◌%◌}
use ndc.Common.{
  ℕ, ◌+◌, String, Bool, true, false, not, ◌&&◌, Option, none, some, List, [], ◌∷◌, Result, ok, err,
  if◌then◌else◌, ltb, length, push, find,
}
use ndc.Common.Option
use ndc.Common.Text.{str_eq}
use ndc.Core.Intent.{FilePath}
use ndc.Core.TaskState.{Timestamp}

pub record FailurePattern : Type 0 where
  pub error_type : String
  pub message : String
  pub file : Option FilePath
  pub root_cause : String
  pub timestamp : Timestamp

pub record InheritedInvariant : Type 0 where
  pub source_task_id : String
  pub rule : String
  pub reason : String
  pub validation_count : ℕ  -- u32
  pub last_validated : Timestamp

pub record ArchivedFailure : Type 0 where
  pub error_type : String
  pub message : String
  pub root_cause : String
  pub resolution : String
  pub human_corrected : Bool

pub record ArchivedContext : Type 0 where
  pub source_task_id : String
  pub accomplishment_summary : String
  pub key_files : List FilePath
  pub api_surface : List String
  pub decisions : List String
  pub failures : List ArchivedFailure
  pub archived_at : Timestamp

pub record TaskLineage : Type 0 where
  pub task_id : String
  pub parent : Option String
  pub children : List String
  pub inherited_invariants : List InheritedInvariant
  pub inherited_failures : List FailurePattern
  pub inherited_context : Option ArchivedContext
  pub depth : ℕ  -- u32
  pub created_at : Timestamp

pub record LineageConfig : Type 0 where
  pub enabled : Bool
  pub max_depth : ℕ  -- u32
  pub inherit_invariants : Bool
  pub inherit_failures : Bool
  pub inherit_context : Bool
  pub min_validation_count : ℕ  -- u32

abbrev pub default_config : LineageConfig
default_config = record {
  enabled = true;
  max_depth = 3;
  inherit_invariants = true;
  inherit_failures = true;
  inherit_context = true;
  min_validation_count = 2;
}

pub record LineageService : Type 0 where
  pub config : LineageConfig
  pub lineage_store : List TaskLineage

pub data LineageError : Type 0 where
  disabled : LineageError
  depth_exceeded : ℕ → ℕ → LineageError

pub record LineageSummary : Type 0 where
  pub total_lineages : ℕ
  pub enabled : Bool
  pub max_depth : ℕ

unfoldable pub new : Option LineageConfig → LineageService
new config = record { config = Option.get_or config default_config; lineage_store = [] }

abbrev pub has_id : String → TaskLineage → Bool
has_id task_id l = str_eq l.task_id task_id

unfoldable pub get_lineage : String → LineageService → Option TaskLineage
get_lineage task_id s = find (has_id task_id) s.lineage_store

-- The change of the first lineage of a task, if it has one.
unfoldable pub update_first :
    String → (TaskLineage → TaskLineage) → List TaskLineage → List TaskLineage
update_first task_id f [] = []
update_first task_id f (l ∷ ls) = elim (has_id task_id l) [
  | true ↦ f l ∷ ls
  | false ↦ l ∷ update_first task_id f ls
]

-- `d + 1` of a u32.
abbrev pub next_depth : ℕ → ℕ
next_depth d = (d + 1) % 4294967296

abbrev pub parent_depth : String → LineageService → ℕ
parent_depth parent s =
    Option.get_or (Option.map (λ (l : TaskLineage). l.depth) (find (has_id parent) s.lineage_store))
      0

abbrev pub add_child : String → TaskLineage → TaskLineage
add_child child l = record l { children = push l.children child }

abbrev pub new_lineage : Timestamp → String → Option String → ℕ → TaskLineage
new_lineage now task_id parent depth = record {
  task_id = task_id;
  parent = parent;
  children = [];
  inherited_invariants = [];
  inherited_failures = [];
  inherited_context = none;
  depth = depth;
  created_at = now;
}

-- `create_lineage` once lineage tracking is known to be enabled.
pub place :
    Timestamp
    → String
    → Option String
    → LineageService
    → LineageService × Result LineageError (Unit {0})
unfolding update_first
place now task_id none s =
    (record s { lineage_store = push s.lineage_store (new_lineage now task_id none 0) }, ok tt)
place now task_id (some parent) s =
    let depth = next_depth (parent_depth parent s) in
    if ltb 0 s.config.max_depth && ltb s.config.max_depth depth
    then (s, err (depth_exceeded depth s.config.max_depth))
    else (
      record s {
        lineage_store =
            push (update_first parent (add_child task_id) s.lineage_store)
              (new_lineage now task_id (some parent) depth);
      },
      ok tt,
    )

unfoldable pub create_lineage :
    Timestamp
    → String
    → Option String
    → LineageService
    → LineageService × Result LineageError (Unit {0})
unfolding place
create_lineage now task_id parent s =
    if not s.config.enabled then (s, err disabled) else place now task_id parent s

unfoldable pub add_inherited_invariant :
    String → InheritedInvariant → LineageService → LineageService
add_inherited_invariant task_id invariant s = record s {
  lineage_store =
      update_first task_id
        (λ (l : TaskLineage). record l {
          inherited_invariants = push l.inherited_invariants invariant;
        })
        s.lineage_store;
}

unfoldable pub get_inherited_invariants : String → LineageService → List InheritedInvariant
get_inherited_invariants task_id s =
    Option.get_or
      (Option.map (λ (l : TaskLineage). l.inherited_invariants)
        (find (has_id task_id) s.lineage_store))
      []

unfoldable pub archive_context : String → ArchivedContext → LineageService → LineageService
archive_context task_id context s = record s {
  lineage_store =
      update_first task_id (λ (l : TaskLineage). record l { inherited_context = some context })
        s.lineage_store;
}

unfoldable pub summary : LineageService → LineageSummary
summary s = record {
  total_lineages = length s.lineage_store;
  enabled = s.config.enabled;
  max_depth = s.config.max_depth;
}
