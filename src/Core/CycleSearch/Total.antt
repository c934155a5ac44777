-- ===== src/Core/CycleSearch/Total.antt =====
-- crates/core/src/llm/decomposition/lint.rs: the depth of the nested calls of the search, against
-- the nodes that are not visited.
use mathlib.Core.Path.{subst}
use text.Mathlib.TextEquality.{eq_iff}
use ndc.Common.{
  ℕ, zero, suc, ◌<◌, ◌≤◌, String, true, false, ◌≡◌, refl, sym, ap, Option, some, List, [], ◌∷◌,
  arith, inl, inr, Bool-cases, All, length, if◌then◌else◌,
}
use ndc.Common.Option
use ndc.Common.Members.{All-member}
use ndc.Common.Text.{str_eq}
use ndc.Core.CycleSearch.{
  Adjacency, has, neighbors, Search, enter, leave, report, offer, scan, dfs_cycle_check,
}
use ndc.Core.CycleSearch.Sound.{edge_of}

-- The nodes of a list that are not visited.
abbrev unseen : List String → List String → ℕ
unseen [] seen = 0
unseen (x ∷ nodes) seen = let rest = unseen nodes seen in if has seen x then rest else suc rest

-- The nodes that the first list has are nodes of the second.
abbrev pub IsWithin : List String → List String → Type 0
IsWithin seen seen' = (x : String) → has seen x ≡ true → has seen' x ≡ true

unseen-le :
    (nodes seen seen' : List String) → IsWithin seen seen' → unseen nodes seen' ≤ unseen nodes seen
unseen-le [] seen seen' w = omega arith
unseen-le (x ∷ nodes) seen seen' w = ground (arith, w x, unseen-le nodes seen seen' w)

enter-IsWithin : (seen : List String) (node : String) → IsWithin seen (node ∷ seen)
enter-IsWithin seen node x h = ground arith

unseen-enter :
    (nodes seen : List String) (node : String)
    → has nodes node ≡ true
    → has seen node ≡ false
    → unseen nodes (node ∷ seen) < unseen nodes seen
unseen-enter [] seen node h new = absurd (ground arith)
unseen-enter (x ∷ nodes) seen node h new = elim (Bool-cases (str_eq x node)) [
  | inl e ↦
      let le = unseen-le nodes seen (node ∷ seen) (enter-IsWithin seen node) in
      let same = (eq_iff x node).0 e in
      let off : has seen x ≡ false = subst (λ u. has seen u ≡ false) (sym same) new in
      let here : str_eq node x ≡ true = (eq_iff node x).1 (sym same) in ground arith
  | inr n ↦
      let lt = unseen-enter nodes seen node (ground arith) new in
      let ne : str_eq node x ≡ false = ground (arith, eq_iff node x, eq_iff x node) in ground arith
]

unseen_all : (nodes : List String) → unseen nodes [] ≡ length nodes
unseen_all [] = refl
unseen_all (x ∷ nodes) = ap suc (unseen_all nodes)

-- A step of the search has a result, in which what was visited still is.
abbrev pub Returns : Option Search → List String → Type 0
Returns result seen = (s' : Search) × (result ≡ some s') × IsWithin seen s'.visited

-- A search at a new node returns, as long as few enough nodes are left.
abbrev IsTotal : List String → ℕ → (String → Search → Option Search) → Type 0
IsTotal nodes fuel visit_at =
    (x : String) (s : Search)
    → has nodes x ≡ true
    → has s.visited x ≡ false
    → unseen nodes s.visited ≤ fuel
    → Returns (visit_at x s) s.visited

offer-Returns :
    (nodes : List String) (fuel : ℕ) (visit_at : String → Search → Option Search) (node x : String)
    (s : Search)
    → IsTotal nodes fuel visit_at
    → has nodes x ≡ true
    → unseen nodes s.visited ≤ fuel
    → Returns (offer visit_at node x s) s.visited
unfolding offer
offer-Returns nodes fuel visit_at node x s total known few = elim (Bool-cases (has s.path x)) [
  | inl on ↦ (report node x s, ground arith, λ y h. h)
  | inr off ↦ elim (Bool-cases (has s.visited x)) [
    | inl old ↦ (s, ground arith, λ y h. h)
    | inr new ↦ let (s', e, w) = total x s known new few in (s', ground arith, w)
  ]
]

scan-Returns :
    (nodes : List String) (fuel : ℕ) (visit_at : String → Search → Option Search) (node : String)
    (xs : List String) (s : Search)
    → IsTotal nodes fuel visit_at
    → All (λ x. has nodes x ≡ true) xs
    → unseen nodes s.visited ≤ fuel
    → Returns (scan visit_at node xs s) s.visited
unfolding scan
scan-Returns nodes fuel visit_at node [] s total known few = (s, refl, λ y h. h)
scan-Returns nodes fuel visit_at node (x ∷ xs) s total known few =
    let (t, e, w) = offer-Returns nodes fuel visit_at node x s total known.0 few in
    let le = unseen-le nodes s.visited t.visited w in
    let (s', e', w') = scan-Returns nodes fuel visit_at node xs t total known.1 (omega arith) in
    (s', ground arith, λ y h. w' y (w y h))

-- Each edge leads to a node of the list.
abbrev pub IsClosed : Adjacency → List String → Type 0
IsClosed adj nodes = (u v : String) → edge_of adj u v ≡ true → has nodes v ≡ true

All-known :
    (nodes xs ys : List String)
    → IsWithin ys nodes
    → All (λ x. has ys x ≡ true) xs
    → All (λ x. has nodes x ≡ true) xs
All-known nodes [] ys w a = tt
All-known nodes (x ∷ xs) ys w a = (w x a.0, All-known nodes xs ys w a.1)

pub dfs_cycle_check-Returns :
    (adj : Adjacency) (nodes : List String)
    → IsClosed adj nodes
    → (fuel : ℕ) → IsTotal nodes fuel (dfs_cycle_check fuel adj)
unfolding dfs_cycle_check
dfs_cycle_check-Returns adj nodes closed zero x s known new few =
    absurd (omega (arith, unseen-enter nodes s.visited x known new))
dfs_cycle_check-Returns adj nodes closed (suc fuel) x s known new few =
    let all =
      All-known nodes (neighbors adj x) (neighbors adj x) (closed x)
        (All-member (neighbors adj x)) in
    let fewer = unseen-enter nodes s.visited x known new in
    let (t, e, w) =
      scan-Returns nodes fuel (dfs_cycle_check fuel adj) x (neighbors adj x) (enter x s)
        (dfs_cycle_check-Returns adj nodes closed fuel) all (omega arith) in
    (leave x t, ap (Option.map (leave x)) e, λ y h. w y (enter-IsWithin s.visited x y h))

-- At each point of the search the number of nodes is depth enough.
pub dfs_cycle_check-total :
    (adj : Adjacency) (nodes : List String)
    → IsClosed adj nodes
    → (x : String) (s : Search) → has nodes x ≡ true
    → has s.visited x ≡ false
    → Returns (dfs_cycle_check (length nodes) adj x s) s.visited
dfs_cycle_check-total adj nodes closed x s known new =
    let le = unseen-le nodes [] s.visited (λ y h. absurd (ground arith)) in
    dfs_cycle_check-Returns adj nodes closed (length nodes) x s known new
      (omega (arith, unseen_all nodes))
