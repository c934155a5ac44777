-- ===== src/Core/CycleSearch/Sound.antt =====
-- crates/core/src/llm/decomposition/lint.rs: the path of the search, and the cycles among the
-- edges.
use mathlib.Core.Path.{subst}
use ndc.Common.Members.{All-member}
use text.Mathlib.TextEquality.{eq_iff}
use ndc.Common.{
  String, Bool, true, false, ◌≡◌, refl, sym, ap, ◌∙◌, not, List, [], ◌∷◌, ◌⊎◌, retain, arith, inl,
  inr, Bool-cases, All,
}
use ndc.Common.Text.{str_eq}
use ndc.Core.CycleSearch.{Adjacency, has, neighbors, Search}
use ndc.Core.CycleSearch.Runs.{Visits, visit, Scans, done, cyclic, descend, pass}

-- One or more steps along a relation.
pub data Walk (edge : String → String → Bool) : String → String → Type 0 where
  one : {u v : String} → edge u v ≡ true → Walk edge u v
  more : {u v w : String} → Walk edge u v → edge v w ≡ true → Walk edge u w

abbrev pub HasCycle : (String → String → Bool) → Type 0
HasCycle edge = (v : String) × Walk edge v v

abbrev pub edge_of : Adjacency → String → String → Bool
edge_of adj u v = has (neighbors adj u) v

without_absent :
    (x : String) (p : List String)
    → has p x ≡ false
    → retain (λ (y : String). not (str_eq y x)) p ≡ p
without_absent x [] h = refl
without_absent x (y ∷ p) h = ground (arith, without_absent x p)

without_head :
    (x : String) (p : List String)
    → has p x ≡ false
    → retain (λ (y : String). not (str_eq y x)) (x ∷ p) ≡ p
without_head x p h = ground (arith, eq_iff x x, without_absent x p)

mutual
  -- A visit leaves the path as it found it.
  pub Visits-path :
      {adj : Adjacency} {node : String} {s s' : Search}
      → Visits adj node s s'
      → has s.path node ≡ false
      → s'.path ≡ s.path
  Visits-path {node = node} {s = s} (visit run e) h =
      ap (λ (t : Search). t.path) e
      ∙ ap (retain (λ (y : String). not (str_eq y node))) (Scans-path run)
      ∙ without_head node s.path h

  pub Scans-path :
      {adj : Adjacency} {node : String} {xs : List String} {s s' : Search}
      → Scans adj node xs s s'
      → s'.path ≡ s.path
  Scans-path done = refl
  Scans-path (cyclic on run) = Scans-path run
  Scans-path (descend off new inner run) = Scans-path run ∙ Visits-path inner off
  Scans-path (pass off old run) = Scans-path run

mutual
  -- A visit visits its node and forgets no other.
  pub Visits-visited :
      {adj : Adjacency} {node : String} {s s' : Search}
      → Visits adj node s s'
      → has s'.visited node ≡ true
  Visits-visited {node = node} (visit {s' = t} run e) =
      ap (λ (u : Search). has u.visited node) e
      ∙ Scans-visited run node (ground (arith, eq_iff node node))

  Scans-visited :
      {adj : Adjacency} {node : String} {xs : List String} {s s' : Search}
      → Scans adj node xs s s'
      → (y : String) → has s.visited y ≡ true
      → has s'.visited y ≡ true
  Scans-visited done y h = h
  Scans-visited (cyclic on run) y h = Scans-visited run y h
  Scans-visited (descend off new (visit inner e) run) y h =
      Scans-visited run y
        (ap (λ (u : Search). has u.visited y) e ∙ Scans-visited inner y (ground arith))
  Scans-visited (pass off old run) y h = Scans-visited run y h

-- Each node of a path has an edge from the next one.
abbrev pub IsChain : Adjacency → List String → Type 0
IsChain adj [] = Unit
IsChain adj (x ∷ []) = Unit
IsChain adj (x ∷ y ∷ p) = (edge_of adj y x ≡ true) × IsChain adj (y ∷ p)

chain_walk :
    (adj : Adjacency) (x v : String) (p : List String)
    → IsChain adj (x ∷ p)
    → has p v ≡ true
    → Walk (edge_of adj) v x
chain_walk adj x v [] c h = absurd (ground arith)
chain_walk adj x v (y ∷ p) c h = elim (Bool-cases (str_eq y v)) [
  | inl e ↦ one (rw (← (eq_iff y v).0 e) c.0)
  | inr n ↦ more (chain_walk adj y v p c.1 (ground arith)) c.0
]

closes :
    (adj : Adjacency) (x v : String) (p : List String)
    → IsChain adj (x ∷ p)
    → has (x ∷ p) v ≡ true
    → edge_of adj x v ≡ true
    → HasCycle (edge_of adj)
closes adj x v p c h e = elim (Bool-cases (str_eq x v)) [
  | inl same ↦ (v, one (subst (λ (u : String). edge_of adj u v ≡ true) ((eq_iff x v).0 same) e))
  | inr n ↦ (v, more (chain_walk adj x v p c (ground arith)) e)
]

-- Nothing was reported, or there is a cycle.
abbrev pub IsJustified : Adjacency → Search → Type 0
IsJustified adj s = (s.violations ≡ []) ⊎ HasCycle (edge_of adj)

mutual
  pub Visits-IsJustified :
      {adj : Adjacency} {node : String} {s s' : Search}
      → Visits adj node s s'
      → IsChain adj (node ∷ s.path)
      → has s.path node ≡ false
      → IsJustified adj s
      → IsJustified adj s'
  Visits-IsJustified {adj = adj} {node = node} {s = s} (visit run e) c h j =
      subst (IsJustified adj) (sym e)
        (Scans-IsJustified run s.path refl c (All-member (neighbors adj node)) j)

  Scans-IsJustified :
      {adj : Adjacency} {node : String} {xs : List String} {s s' : Search}
      → Scans adj node xs s s'
      → (p : List String) → s.path ≡ node ∷ p
      → IsChain adj (node ∷ p)
      → All (λ x. edge_of adj node x ≡ true) xs
      → IsJustified adj s
      → IsJustified adj s'
  Scans-IsJustified done p e c es j = j
  Scans-IsJustified {adj = adj} {node = node} (cyclic {x = x} on run) p e c es j =
      Scans-IsJustified run p e c es.1
        (inr (closes adj node x p c (subst (λ (q : List String). has q x ≡ true) e on) es.0))
  Scans-IsJustified {adj = adj} {node = node} (descend {x = x} off new inner run) p e c es j =
      Scans-IsJustified run p (Visits-path inner off ∙ e) c es.1 (
        Visits-IsJustified inner
          (subst (λ (q : List String). IsChain adj (x ∷ q)) (sym e) (es.0, c)) off j)
  Scans-IsJustified (pass off old run) p e c es j = Scans-IsJustified run p e c es.1 j
