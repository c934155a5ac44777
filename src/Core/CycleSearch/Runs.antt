-- ===== src/Core/CycleSearch/Runs.antt =====
-- crates/core/src/llm/decomposition/lint.rs: the runs of the search, without fuel.
use mathlib.Core.Path.{subst}
use ndc.Common.{
  ◌⊎◌, ℕ, zero, suc, String, true, false, ◌≡◌, Option, some, List, [], ◌∷◌, arith, inl, inr,
  Option-cases,
}
use ndc.Core.CycleSearch.{
  Adjacency, has, neighbors, Search, enter, leave, report, offer, scan, dfs_cycle_check,
}

mutual
  -- `dfs_cycle_check` at a node turns the first state into the second.
  pub data Visits (adj : Adjacency) : String → Search → Search → Type 0 where
    visit :
        {node : String} {s s' s'' : Search}
        → Scans adj node (neighbors adj node) (enter node s) s'
        → s'' ≡ leave node s'
        → Visits adj node s s''

  -- The loop over some neighbors of a node does so.
  pub data Scans (adj : Adjacency) : String → List String → Search → Search → Type 0 where
    done : {node : String} {s : Search} → Scans adj node [] s s
    cyclic :
        {node x : String} {xs : List String} {s s' : Search}
        → has s.path x ≡ true
        → Scans adj node xs (report node x s) s'
        → Scans adj node (x ∷ xs) s s'
    descend :
        {node x : String} {xs : List String} {s t s' : Search}
        → has s.path x ≡ false
        → has s.visited x ≡ false
        → Visits adj x s t
        → Scans adj node xs t s'
        → Scans adj node (x ∷ xs) s s'
    pass :
        {node x : String} {xs : List String} {s s' : Search}
        → has s.path x ≡ false
        → has s.visited x ≡ true
        → Scans adj node xs s s'
        → Scans adj node (x ∷ xs) s s'

offer-cases :
    (visit_at : String → Search → Option Search) (node x : String) (s t : Search)
    → offer visit_at node x s ≡ some t
    → ((has s.path x ≡ true) × (report node x s ≡ t))
      ⊎ ((has s.path x ≡ false) × (has s.visited x ≡ false) × (visit_at x s ≡ some t))
      ⊎ ((has s.path x ≡ false) × (has s.visited x ≡ true) × (s ≡ t))
unfolding offer
offer-cases visit_at node x s t h = ground arith

scan-Scans :
    (adj : Adjacency) (visit_at : String → Search → Option Search)
    → ((x : String) (s t : Search) → visit_at x s ≡ some t → Visits adj x s t)
    → (node : String) (xs : List String) (s s' : Search) → scan visit_at node xs s ≡ some s'
    → Scans adj node xs s s'
unfolding scan
scan-Scans adj visit_at sound node [] s s' h = subst (Scans adj node [] s) (ground arith) done
scan-Scans adj visit_at sound node (x ∷ xs) s s' h = elim (Option-cases (offer visit_at node x s)) [
  | inl n ↦ absurd (ground arith)
  | inr (t, e) ↦
      let rest = scan-Scans adj visit_at sound node xs t s' (ground arith) in
      elim (offer-cases visit_at node x s t e) [
        | inl (on, same) ↦ cyclic on (rw same rest)
        | inr (inl (off, new, found)) ↦ descend off new (sound x s t found) rest
        | inr (inr (off, old, same)) ↦ pass off old (rw same rest)
      ]
]

-- What the code computes is a run.
pub dfs_cycle_check-Visits :
    (adj : Adjacency) (fuel : ℕ) (node : String) (s s' : Search)
    → dfs_cycle_check fuel adj node s ≡ some s'
    → Visits adj node s s'
unfolding dfs_cycle_check
dfs_cycle_check-Visits adj zero node s s' h = absurd (ground arith)
dfs_cycle_check-Visits adj (suc fuel) node s s' h =
    elim (Option-cases (scan (dfs_cycle_check fuel adj) node (neighbors adj node) (enter node s))) [
      | inl n ↦ absurd (ground arith)
      | inr (t, e) ↦
          visit
            (scan-Scans adj (dfs_cycle_check fuel adj) (dfs_cycle_check-Visits adj fuel) node
              (neighbors adj node) (enter node s) t e)
            (ground arith)
    ]
