-- ===== src/Tests/Lints.antt =====
-- Decompositions with and without a cycle of dependencies.
use ndc.Common.{
  ◌≤◌, true, false, ◌≡◌, ◌↔◌, refl, none, some, List, [], ◌∷◌, All, map, String, Bool, push, arith,
}
use ndc.Common.Option
use ndc.Common.Maps.{get, insert}
use ndc.Core.Decomposition.{
  LintViolation, LintSeverity, severity_index, LintResult, ActionType, Complexity, SubTask,
  DependencyType, TaskDependency, TaskDecomposition,
}
use ndc.Core.CycleSearch
use ndc.Core.CycleSearch.{
  add_edge, add_edges, neighbors, add_nodes, dfs_cycle_check, scan, offer, search_from,
}
use ndc.Core.CycleSearch.Sound.{HasCycle}
use ndc.Core.CycleSearch.Reports.{AllCritical}
use ndc.Core.CycleSearch.Graph.{depends, has-push}
use ndc.Core.CycleSearch.Correct.{IsOrder, check_iff}
use ndc.Core.Lint
use ndc.Core.Lint.Verdict.{check_lem}

abbrev before : String → String → TaskDependency
before a b = record {
  source = a;
  target = b;
  dependency_type = DependencyType.must_complete_before;
}

abbrev work : String → SubTask
work id = record {
  id = id;
  title = id;
  description = "";
  action_type = ActionType.modify_file;
  complexity = Complexity.simple;
  depends_on = [];
  expected_files = "main.rs" ∷ [];
  verification = "tests pass" ∷ [];
}

abbrev plan : List TaskDependency → TaskDecomposition
plan ds = record {
  task_id = "t";
  root_todo_id = none;
  subtasks = work "a" ∷ work "b" ∷ work "c" ∷ [];
  dependencies = ds;
}

abbrev diamond : TaskDecomposition
diamond = plan (before "a" "b" ∷ before "a" "c" ∷ before "b" "d" ∷ before "c" "d" ∷ [])

abbrev ring : TaskDecomposition
ring = plan (before "a" "b" ∷ before "b" "c" ∷ before "c" "a" ∷ before "c" "b" ∷ [])

-- The nodes as they first occur, and from the last to the first.
abbrev as_met : List String → List String
as_met xs = xs

abbrev turned : List String → List String
turned [] = []
turned (x ∷ xs) = push (turned xs) x

turned-IsOrder : IsOrder turned
turned-IsOrder [] x = refl
turned-IsOrder (y ∷ xs) x = ground (arith, has-push (turned xs) y x, turned-IsOrder xs x)

diamond_clean : CycleSearch.check as_met diamond ≡ some []
unfolding CycleSearch.check add_edge add_edges neighbors add_nodes dfs_cycle_check scan offer
    search_from get insert
diamond_clean = refl

ring_reported :
    Option.map (map (λ (v : LintViolation). v.affected_subtasks)) (CycleSearch.check as_met ring)
    ≡ some (("c" ∷ "a" ∷ []) ∷ ("c" ∷ "b" ∷ []) ∷ [])
unfolding CycleSearch.check add_edge add_edges neighbors add_nodes dfs_cycle_check scan offer
    search_from get insert
ring_reported = refl

-- Two subtasks that expect one file and do not depend on each other are worth a remark.
diamond_remark :
    Option.map {B = List (List String) × Bool}
      (λ (r : LintResult).
        (map (λ (v : LintViolation). v.affected_subtasks) r.violations, r.passed))
      (Lint.check as_met diamond)
    ≡ some (("b" ∷ "c" ∷ []) ∷ [], true)
unfolding Lint.check CycleSearch.check add_edge add_edges neighbors add_nodes dfs_cycle_check scan
    offer search_from get insert
diamond_remark = refl

check_iff_example :
    (found : List LintViolation) × (CycleSearch.check turned ring ≡ some found)
    × AllCritical found
    × ((found ≡ []) ↔ (¬ HasCycle (depends ring.dependencies)))
check_iff_example = check_iff turned ring turned-IsOrder

check_lem_example :
    (r : LintResult) × (Lint.check turned ring ≡ some r)
    × ((r.passed ≡ true) ↔ (¬ HasCycle (depends ring.dependencies)))
    × ((r.passed ≡ false) ↔ (r.severity ≡ LintSeverity.critical))
    × All
        (λ (v : LintViolation). severity_index v.severity ≤ severity_index r.severity)
        r.violations
check_lem_example = check_lem turned ring turned-IsOrder
