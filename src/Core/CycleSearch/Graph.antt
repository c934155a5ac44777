-- ===== src/Core/CycleSearch/Graph.antt =====
-- crates/core/src/llm/decomposition/lint.rs: the adjacency lists and the nodes of `CyclicDependencyRule`
-- against the dependencies.
use mathlib.Core.Path.{subst}
use text.Mathlib.TextEquality.{eq_iff}
use ndc.Common.{
  String, Bool, true, ◌≡◌, sym, ap, ◌∙◌, List, [], ◌∷◌, arith, inl, inr, Bool-cases, ◌||◌, ◌&&◌,
  any, push,
}
use ndc.Common.Option
use ndc.Common.Maps.{get, get-insert, string_eq}
use ndc.Common.Text.{str_eq}
use ndc.Core.Decomposition.{TaskDependency}
use ndc.Core.CycleSearch.{Adjacency, has, neighbors, add_edge, add_edges, add_nodes, insert_node}
use ndc.Core.CycleSearch.Sound.{edge_of}
use ndc.Core.CycleSearch.Total.{IsClosed}

-- `b` is to run after `a`.
abbrev pub depends : List TaskDependency → String → String → Bool
depends ds u v = any (λ (d : TaskDependency). str_eq d.source u && str_eq d.target v) ds

pub has-push : (xs : List String) (x y : String) → has (push xs x) y ≡ (has xs y || str_eq x y)
has-push [] x y = ground arith
has-push (z ∷ xs) x y = ground (arith, has-push xs x y)

edge_of-add_edge :
    (d : TaskDependency) (adj : Adjacency) (u v : String)
    → edge_of (add_edge d adj) u v ≡ (edge_of adj u v || (str_eq d.source u && str_eq d.target v))
unfolding add_edge neighbors
edge_of-add_edge d adj u v =
    let old = Option.get_or (get d.source adj) [] in
    let entry = get-insert d.source u (push old d.target) adj in
    elim (Bool-cases (str_eq d.source u)) [
      | inl e ↦
          let same : d.source ≡ u = (eq_iff d.source u).0 e in
          ground (
            arith,
            entry,
            has-push old d.target v,
            ap (λ k. has (Option.get_or (get k adj) []) v) same,
          )
      | inr n ↦ ground (arith, entry)
    ]

edge_of-add_edges :
    (ds : List TaskDependency) (adj : Adjacency) (u v : String)
    → edge_of (add_edges ds adj) u v ≡ (edge_of adj u v || depends ds u v)
unfolding add_edges
edge_of-add_edges [] adj u v = ground arith
edge_of-add_edges (d ∷ ds) adj u v =
    ground (arith, edge_of-add_edges ds (add_edge d adj) u v, edge_of-add_edge d adj u v)

has-same : (xs : List String) (x y : String) → has xs x ≡ true → has xs y ≡ (has xs y || str_eq x y)
has-same xs x y h = elim (Bool-cases (str_eq x y)) [
  | inl e ↦ ground (arith, subst (λ u. has xs u ≡ true) ((eq_iff x y).0 e) h)
  | inr n ↦ ground arith
]

has-insert_node :
    (x : String) (xs : List String) (y : String)
    → has (insert_node x xs) y ≡ (has xs y || str_eq x y)
has-insert_node x xs y = elim (Bool-cases (has xs x)) [
  | inl h ↦ ground (arith, has-same xs x y h)
  | inr n ↦ ground (arith, has-push xs x y)
]

has-add_nodes :
    (ds : List TaskDependency) (xs : List String) (y : String)
    → has (add_nodes ds xs) y
      ≡ (has xs y || any (λ (d : TaskDependency). str_eq d.source y || str_eq d.target y) ds)
unfolding add_nodes
has-add_nodes [] xs y = ground arith
has-add_nodes (d ∷ ds) xs y =
    let inner = insert_node d.source xs in
    ground (
      arith,
      has-add_nodes ds (insert_node d.target inner) y,
      has-insert_node d.target inner y,
      has-insert_node d.source xs y,
    )

any_target :
    (ds : List TaskDependency) (u v : String)
    → depends ds u v ≡ true
    → any (λ (d : TaskDependency). str_eq d.source v || str_eq d.target v) ds ≡ true
any_target [] u v h = absurd (ground arith)
any_target (d ∷ ds) u v h = ground (arith, any_target ds u v)

pub edge_of_dependencies :
    (ds : List TaskDependency) (u v : String) → edge_of (add_edges ds []) u v ≡ depends ds u v
unfolding neighbors get
edge_of_dependencies ds u v = ground (arith, edge_of-add_edges ds [] u v)

-- The nodes of the search: the texts that a dependency names.
pub nodes-IsClosed : (ds : List TaskDependency) → IsClosed (add_edges ds []) (add_nodes ds [])
nodes-IsClosed ds u v h =
    let depended : depends ds u v ≡ true = sym (edge_of_dependencies ds u v) ∙ h in
    has-add_nodes ds [] v ∙ any_target ds u v depended
