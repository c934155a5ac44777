-- ===== src/Core/Lint.antt =====
-- crates/core/src/llm/decomposition/lint.rs: the rules without a search, and `DecompositionLint`. A path
-- is displayed as its text. The groups of `OrphanedTaskRule` come in the order of their first file.
pub mod Verdict
use Prim.Native.String.{◌++◌}
use ndc.Common.{
  ℕ, String, Bool, true, false, not, Option, none, some, List, [], ◌∷◌, if◌then◌else◌, ltb, push,
  all, any, length, extend, ◌&&◌, ◌||◌, map, retain,
}
use ndc.Common.Option
use ndc.Common.Maps.{get, insert, string_eq}
use ndc.Common.Text.{str_eq, decimal}
use ndc.Core.Intent.{FilePath}
use ndc.Core.CycleSearch
use ndc.Core.Decomposition.{
  LintViolation, LintSeverity, severity_eq, LintResult, SubTask, ActionType, Complexity,
  TaskDependency, TaskDecomposition,
}

-- `v.is_empty()`.
abbrev is_empty {ℓ} : {A : Type ℓ} → List A → Bool
is_empty [] = true
is_empty (x ∷ xs) = false

abbrev unverified : SubTask → LintViolation
unverified t = record {
  rule = "missing-verification";
  message = "Subtask '" ++ t.title ++ "' has no verification criteria";
  severity = LintSeverity.warning;
  affected_subtasks = t.id ∷ [];
  suggestion = "Add verification criteria (e.g., 'cargo test passes', 'code compiles')";
}

abbrev pub missing_verification : TaskDecomposition → List LintViolation
missing_verification d =
    map unverified (retain (λ (t : SubTask). is_empty t.verification) d.subtasks)

abbrev pub is_very_complex : Complexity → Bool
is_very_complex Complexity.very_complex = true
is_very_complex _ = false

abbrev complicated : SubTask → LintViolation
complicated t = record {
  rule = "too-complex";
  message = "Subtask '" ++ t.title ++ "' is marked as VeryComplex";
  severity = LintSeverity.warning;
  affected_subtasks = t.id ∷ [];
  suggestion = "Consider breaking into smaller subtasks";
}

abbrev pub too_complex : TaskDecomposition → List LintViolation
too_complex d = map complicated (retain (λ (t : SubTask). is_very_complex t.complexity) d.subtasks)

-- `OrphanedTaskRule`: the subtasks by the files that they expect.
abbrev pub FileGroups : Type 0
FileGroups = List (FilePath × List String)

abbrev pub add_file : String → FileGroups → FilePath → FileGroups
add_file id groups file = insert file (push (Option.get_or (get file groups) []) id) groups

abbrev pub add_files : String → List FilePath → FileGroups → FileGroups
add_files id [] groups = groups
add_files id (f ∷ fs) groups = add_files id fs (add_file id groups f)

abbrev pub group_by_file : List SubTask → FileGroups → FileGroups
group_by_file [] groups = groups
group_by_file (t ∷ ts) groups = group_by_file ts (add_files t.id t.expected_files groups)

abbrev pub has_dep : List TaskDependency → String → String → Bool
has_dep ds a b =
    any
      (λ (d : TaskDependency).
        (str_eq d.source a && str_eq d.target b) || (str_eq d.source b && str_eq d.target a))
      ds

abbrev conflict : FilePath → String → String → LintViolation
conflict file a b = record {
  rule = "orphaned-task";
  message =
      "Tasks '" ++ a ++ "' and '" ++ b ++ "' modify same file '" ++ file ++ "' without dependency";
  severity = LintSeverity.info;
  affected_subtasks = a ∷ b ∷ [];
  suggestion = "Consider adding dependency between these tasks";
}

-- The pairs of a group, the earlier subtask first.
abbrev pub conflicts : List TaskDependency → FilePath → List String → List LintViolation
conflicts ds file [] = []
conflicts ds file (a ∷ ids) =
    extend (map (conflict file a) (retain (λ (b : String). not (has_dep ds a b)) ids))
      (conflicts ds file ids)

abbrev pub group_conflicts : List TaskDependency → FileGroups → List LintViolation
group_conflicts ds [] = []
group_conflicts ds ((file, ids) ∷ groups) =
    extend (if ltb 1 (length ids) then conflicts ds file ids else []) (group_conflicts ds groups)

abbrev pub orphaned_tasks : TaskDecomposition → List LintViolation
orphaned_tasks d = group_conflicts d.dependencies (group_by_file d.subtasks [])

abbrev pub expects_files : ActionType → Bool
expects_files ActionType.review = false
expects_files ActionType.config = false
expects_files _ = true

abbrev without_files : SubTask → LintViolation
without_files t = record {
  rule = "missing-files";
  message = "Subtask '" ++ t.title ++ "' expects no file modifications";
  severity = LintSeverity.warning;
  affected_subtasks = t.id ∷ [];
  suggestion = "Specify expected files or clarify why none are needed";
}

abbrev pub missing_files : TaskDecomposition → List LintViolation
missing_files d = map without_files (
    retain (λ (t : SubTask). is_empty t.expected_files)
      (retain (λ (t : SubTask). expects_files t.action_type) d.subtasks))

abbrev pub max_subtasks : ℕ
max_subtasks = 20

abbrev pub crowded : List SubTask → LintViolation
crowded ts = record {
  rule = "too-many-subtasks";
  message =
      "Decomposition has "
      ++ decimal (length ts)
      ++ " subtasks (max: "
      ++ decimal max_subtasks
      ++ ")";
  severity = LintSeverity.warning;
  affected_subtasks = map (λ (t : SubTask). t.id) ts;
  suggestion = "Consider if this could be split into multiple tasks";
}

abbrev pub too_many_subtasks : TaskDecomposition → List LintViolation
too_many_subtasks d = if ltb max_subtasks (length d.subtasks) then crowded d.subtasks ∷ [] else []

-- The rules after the first, in the order of `new`.
abbrev pub other_rules : TaskDecomposition → List LintViolation
other_rules d = extend (missing_verification d) (
    extend (too_complex d)
      (extend (orphaned_tasks d) (extend (missing_files d) (too_many_subtasks d))))

abbrev pub has_severity : LintSeverity → List LintViolation → Bool
has_severity level vs = any (λ (v : LintViolation). severity_eq v.severity level) vs

abbrev pub passes : List LintViolation → Bool
passes vs =
    all
      (λ (v : LintViolation).
        not (severity_eq v.severity LintSeverity.error)
        && not (severity_eq v.severity LintSeverity.critical))
      vs

abbrev pub overall : List LintViolation → LintSeverity
overall vs =
    if has_severity LintSeverity.critical vs
    then LintSeverity.critical
    else if has_severity LintSeverity.error vs
    then LintSeverity.error
    else if has_severity LintSeverity.warning vs
    then LintSeverity.warning
    else LintSeverity.info

abbrev pub summarize : List LintViolation → LintResult
summarize vs = record { violations = vs; passed = passes vs; severity = overall vs }

-- `none` would mean that the search of the first rule did not end.
unfoldable pub check : (List String → List String) → TaskDecomposition → Option LintResult
check order d =
    Option.map (λ (cycles : List LintViolation). summarize (extend cycles (other_rules d)))
      (CycleSearch.check order d)
