-- ===== src/Core/CycleSearch.antt =====
-- crates/core/src/llm/decomposition/lint.rs: `CyclicDependencyRule`. The sets of the search are lists
-- without repetition; the order in which a set of nodes is iterated over is an argument of `check`.
pub mod Runs
pub mod Sound
pub mod Complete
pub mod Total
pub mod Reports
pub mod Graph
pub mod Correct
use Prim.Native.String.{◌++◌}
use ndc.Common.{
  ℕ, zero, suc, String, Bool, true, false, not, Option, none, some, List, [], ◌∷◌, if◌then◌else◌,
  push, member, retain, length,
}
use ndc.Common.Option
use ndc.Common.Maps.{get, insert, string_eq}
use ndc.Common.Text.{str_eq}
use ndc.Core.Decomposition.{LintViolation, LintSeverity, TaskDependency, TaskDecomposition}

abbrev pub Adjacency : Type 0
Adjacency = List (String × List String)

-- `set.contains(x)`.
abbrev pub has : List String → String → Bool
has = member str_eq

-- The step of the `fold` that builds the adjacency lists.
unfoldable pub add_edge : TaskDependency → Adjacency → Adjacency
unfolding get insert
add_edge d adj = insert d.source (push (Option.get_or (get d.source adj) []) d.target) adj

unfoldable pub add_edges : List TaskDependency → Adjacency → Adjacency
add_edges [] adj = adj
add_edges (d ∷ ds) adj = add_edges ds (add_edge d adj)

unfoldable pub neighbors : Adjacency → String → List String
unfolding get
neighbors adj node = Option.get_or (get node adj) []

abbrev pub insert_node : String → List String → List String
insert_node x xs = if has xs x then xs else push xs x

unfoldable pub add_nodes : List TaskDependency → List String → List String
add_nodes [] nodes = nodes
add_nodes (d ∷ ds) nodes = add_nodes ds (insert_node d.target (insert_node d.source nodes))

pub record Search : Type 0 where
  pub visited : List String
  pub path : List String
  pub violations : List LintViolation

abbrev pub cycle_violation : String → String → LintViolation
cycle_violation node neighbor = record {
  rule = "cyclic-dependency";
  message = "Cyclic dependency detected: " ++ node ++ " -> " ++ neighbor;
  severity = LintSeverity.critical;
  affected_subtasks = node ∷ neighbor ∷ [];
  suggestion = "Remove circular dependency by reordering tasks";
}

abbrev pub enter : String → Search → Search
enter node s = record s { visited = node ∷ s.visited; path = node ∷ s.path }

abbrev pub leave : String → Search → Search
leave node s = record s { path = retain (λ (x : String). not (str_eq x node)) s.path }

abbrev pub report : String → String → Search → Search
report node neighbor s = record s { violations = push s.violations (cycle_violation node neighbor) }

-- The body of the loop over the neighbors.
unfoldable pub offer : (String → Search → Option Search) → String → String → Search → Option Search
offer visit node x s =
    if has s.path x
    then some (report node x s)
    else if not (has s.visited x)
    then visit x s
    else some s

unfoldable pub scan :
    (String → Search → Option Search) → String → List String → Search → Option Search
unfolding offer
scan visit node [] s = some s
scan visit node (x ∷ xs) s = elim (offer visit node x s) [
  | none ↦ none
  | some s' ↦ scan visit node xs s'
]

-- `none` means that the fuel, the depth of the recursion, ran out.
unfoldable pub dfs_cycle_check : ℕ → Adjacency → String → Search → Option Search
unfolding offer scan
dfs_cycle_check zero adj node s = none
dfs_cycle_check (suc fuel) adj node s =
    Option.map (leave node)
      (scan (dfs_cycle_check fuel adj) node (neighbors adj node) (enter node s))

-- The loop over the nodes.
unfoldable pub search_from : ℕ → Adjacency → List String → Search → Option Search
search_from fuel adj [] s = some s
search_from fuel adj (x ∷ xs) s =
    let found = if has s.visited x then some s else dfs_cycle_check fuel adj x s in
    elim found [ none ↦ none | some s' ↦ search_from fuel adj xs s' ]

abbrev pub fresh : Search
fresh = record { visited = []; path = []; violations = [] }

-- The violations, with a depth of recursion that the number of nodes allows. `order` gives the order in
-- which the nodes, a `HashSet`, are visited.
unfoldable pub check : (List String → List String) → TaskDecomposition → Option (List LintViolation)
unfolding search_from add_nodes add_edges
check order d =
    let nodes = add_nodes d.dependencies [] in
    Option.map (λ (s : Search). s.violations)
      (search_from (length nodes) (add_edges d.dependencies []) (order nodes) fresh)
