-- ===== src/Core/CycleSearch/Correct.antt =====
-- crates/core/src/llm/decomposition/lint.rs: `CyclicDependencyRule` against the relation that the
-- dependencies state.
use mathlib.Core.Path.{subst}
use mathlib.Core.Logic.{◌↔◌}
use text.Mathlib.TextEquality.{eq_iff}
use ndc.Common.{
  String, Bool, true, false, ◌≡◌, refl, sym, ap, ◌∙◌, some, List, [], ◌∷◌, arith, inl, inr,
  Bool-cases, All, length,
}
use ndc.Common.Option
use ndc.Common.Maps.{string_eq}
use ndc.Common.Text.{str_eq}
use ndc.Core.Decomposition.{LintViolation, TaskDecomposition}
use ndc.Core.CycleSearch.{
  Adjacency, has, Search, dfs_cycle_check, search_from, fresh, check, add_edges, add_nodes,
}
use ndc.Core.CycleSearch.Runs.{dfs_cycle_check-Visits}
use ndc.Core.CycleSearch.Sound.{
  Walk, one, more, HasCycle, edge_of, IsJustified, Visits-IsJustified, Visits-path, IsChain,
  Visits-visited,
}
use ndc.Core.CycleSearch.Complete.{IsSettled, Visits-IsSettled, Visits-quiet, IsTopological-acyclic}
use ndc.Core.CycleSearch.Graph.{depends, edge_of_dependencies, nodes-IsClosed}
use ndc.Core.CycleSearch.Reports.{AllCritical, Visits-AllCritical}
use ndc.Core.CycleSearch.Total.{IsWithin, IsClosed, dfs_cycle_check-total}

-- What the searches from some nodes do to the state between two searches.
record Searched (adj : Adjacency) (s s' : Search) : Type 0 where
  cleared : s'.path ≡ []
  kept : IsWithin s.visited s'.visited
  justified : IsJustified adj s → IsJustified adj s'
  critical : AllCritical s.violations → AllCritical s'.violations
  quiet : s'.violations ≡ [] → s.violations ≡ []
  settled :
      (d : List String)
      → s'.violations ≡ []
      → IsSettled adj d s
      → (d' : List String) × IsSettled adj d' s'

same_search : (adj : Adjacency) (s : Search) → s.path ≡ [] → Searched adj s s
same_search adj s p = record {
  cleared = p;
  kept = λ x h. h;
  justified = λ j. j;
  critical = λ a. a;
  quiet = λ q. q;
  settled = λ d q i. (d, i);
}

then_search :
    (adj : Adjacency) (s t s' : Search) → Searched adj s t → Searched adj t s' → Searched adj s s'
then_search adj s t s' a b = record {
  cleared = b.cleared;
  kept = λ x h. b.kept x (a.kept x h);
  justified = λ j. b.justified (a.justified j);
  critical = λ c. b.critical (a.critical c);
  quiet = λ q. a.quiet (b.quiet q);
  settled = λ d q i. let (m, im) = a.settled d (b.quiet q) i in b.settled m q im;
}

one_search :
    (adj : Adjacency) (nodes : List String) (x : String) (s : Search)
    → IsClosed adj nodes
    → has nodes x ≡ true
    → has s.visited x ≡ false
    → s.path ≡ []
    → (s' : Search) × (dfs_cycle_check (length nodes) adj x s ≡ some s')
      × Searched adj s s'
      × (has s'.visited x ≡ true)
one_search adj nodes x s closed known new p =
    let (s', e, w) = dfs_cycle_check-total adj nodes closed x s known new in
    let run = dfs_cycle_check-Visits adj (length nodes) x s s' e in
    let off : has s.path x ≡ false = ap (λ q. has q x) p in
    (
      s',
      e,
      record {
        cleared = Visits-path run off ∙ p;
        kept = w;
        justified = Visits-IsJustified run (subst (λ q. IsChain adj (x ∷ q)) (sym p) tt) off;
        critical = Visits-AllCritical run;
        quiet = Visits-quiet run;
        settled =
            λ d q i. let (d', i', keep, here) = Visits-IsSettled d run q off new i in (d', i');
      },
      Visits-visited run,
    )

search_from-Searched :
    (adj : Adjacency) (nodes xs : List String) (s : Search)
    → IsClosed adj nodes
    → All (λ x. has nodes x ≡ true) xs
    → s.path ≡ []
    → (s' : Search) × (search_from (length nodes) adj xs s ≡ some s')
      × Searched adj s s'
      × All (λ x. has s'.visited x ≡ true) xs
unfolding search_from
search_from-Searched adj nodes [] s closed known p = (s, refl, same_search adj s p, tt)
search_from-Searched adj nodes (x ∷ xs) s closed known p = elim (Bool-cases (has s.visited x)) [
  | inl old ↦
      let (s', e, r, all) = search_from-Searched adj nodes xs s closed known.1 p in
      (s', ground arith, r, (r.kept x old, all))
  | inr new ↦
      let (t, e, r, here) = one_search adj nodes x s closed known.0 new p in
      let (s', e', r', all) = search_from-Searched adj nodes xs t closed known.1 r.cleared in
      (s', ground arith, then_search adj s t s' r r', (r'.kept x here, all))
]

fresh-IsSettled : (adj : Adjacency) → IsSettled adj [] fresh
fresh-IsSettled adj = record { ordered = tt; split = λ x. refl; apart = λ x h. refl }

All-at :
    (P : String → Bool) (xs : List String) (y : String)
    → All (λ x. P x ≡ true) xs
    → has xs y ≡ true
    → P y ≡ true
All-at P [] y a h = absurd (ground arith)
All-at P (x ∷ xs) y a h = elim (Bool-cases (str_eq x y)) [
  | inl e ↦ subst (λ u. P u ≡ true) ((eq_iff x y).0 e) a.0
  | inr n ↦ All-at P xs y a.1 (ground arith)
]

All-has :
    (P : String → Bool) (xs : List String)
    → ((x : String) → has xs x ≡ true → P x ≡ true)
    → All (λ x. P x ≡ true) xs
All-has P [] h = tt
All-has P (x ∷ xs) h =
    (h x (ground (arith, eq_iff x x)), All-has P xs (λ y k. h y (ground (arith, k))))

All-within :
    (xs ys : List String)
    → ((x : String) → has xs x ≡ true → has ys x ≡ true)
    → All (λ x. has ys x ≡ true) xs
All-within xs ys h = All-has (has ys) xs h

walk_target :
    (edge : String → String → Bool) (u v : String)
    → Walk edge u v
    → (m : String) × (edge m v ≡ true)
walk_target edge u v (one e) = (u, e)
walk_target edge u v (more {v = m} w e) = (m, e)

-- A finished search without a report leaves no cycle.
quiet_acyclic :
    (adj : Adjacency) (nodes : List String) (s' : Search)
    → IsClosed adj nodes
    → Searched adj fresh s'
    → All (λ x. has s'.visited x ≡ true) nodes
    → s'.violations ≡ []
    → ¬ HasCycle (edge_of adj)
quiet_acyclic adj nodes s' closed r all q (v, w) =
    let (d, i) = r.settled [] q (fresh-IsSettled adj) in
    let (m, e) = walk_target (edge_of adj) v v w in
    let seen = All-at (has s'.visited) nodes v all (closed m v e) in
    let off = ap (λ p. has p v) r.cleared in
    IsTopological-acyclic adj d v i.ordered (ground (arith, i.split v)) w

-- An order in which a set is iterated over has the elements of the set.
abbrev pub IsOrder : (List String → List String) → Type 0
IsOrder order = (xs : List String) (x : String) → has (order xs) x ≡ has xs x

-- In whatever order the nodes are visited, the rule returns for every decomposition, and what it
-- returns is empty exactly when no chain of dependencies leads from a subtask back to itself; each
-- violation is critical.
pub check_iff :
    (order : List String → List String) (t : TaskDecomposition)
    → IsOrder order
    → (found : List LintViolation) × (check order t ≡ some found)
      × AllCritical found
      × ((found ≡ []) ↔ (¬ HasCycle (depends t.dependencies)))
unfolding check
check_iff order t set =
    let adj = add_edges t.dependencies [] in
    let nodes = add_nodes t.dependencies [] in
    let closed = nodes-IsClosed t.dependencies in
    let known = All-within (order nodes) nodes (λ x h. sym (set nodes x) ∙ h) in
    let (s', e, r, all) = search_from-Searched adj nodes (order nodes) fresh closed known refl in
    let seen =
      All-has (has s'.visited) nodes
        (λ x h. All-at (has s'.visited) (order nodes) x all (set nodes x ∙ h)) in
    let same : edge_of adj ≡ depends t.dependencies =
      λ i u v. edge_of_dependencies t.dependencies u v i in
    (
      s'.violations,
      ap (Option.map (λ (s : Search). s.violations)) e,
      r.critical tt,
      (
        (λ q. subst (λ edge. ¬ HasCycle edge) same (quiet_acyclic adj nodes s' closed r seen q)),
        (λ none_found. elim (r.justified (inl refl)) [
          | inl q ↦ q
          | inr cycle ↦ absurd (none_found (subst HasCycle same cycle))
        ]),
      ),
    )
