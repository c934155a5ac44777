-- ===== src/Core/CycleSearch/Complete.antt =====
-- crates/core/src/llm/decomposition/lint.rs: the order in which a search that reports nothing
-- finishes the nodes.
use mathlib.Core.Path.{subst}
use text.Mathlib.TextEquality.{eq_iff}
use ndc.Common.{
  ℕ, ◌+◌, ◌<◌, ◌≤◌, String, true, false, ◌≡◌, sym, ap, ◌∙◌, List, [], ◌∷◌, push, arith, inl, inr,
  Bool-cases, All, ◌||◌, length, if◌then◌else◌,
}
use ndc.Common.Text.{str_eq}
use ndc.Core.CycleSearch.{Adjacency, has, neighbors, Search, enter}
use ndc.Core.CycleSearch.Runs.{Visits, visit, Scans, done, cyclic, descend, pass}
use ndc.Core.CycleSearch.Sound.{Walk, one, more, edge_of, Visits-path, Scans-path}

push_ne_nil : {A : Type 0} (xs : List A) (x : A) → push xs x ≡ [] → ⊥
push_ne_nil [] x h = ground arith
push_ne_nil (y ∷ xs) x h = ground arith

mutual
  -- A report stays.
  pub Visits-quiet :
      {adj : Adjacency} {node : String} {s s' : Search}
      → Visits adj node s s'
      → s'.violations ≡ []
      → s.violations ≡ []
  Visits-quiet (visit run e) q = Scans-quiet run (sym (ap (λ (t : Search). t.violations) e) ∙ q)

  Scans-quiet :
      {adj : Adjacency} {node : String} {xs : List String} {s s' : Search}
      → Scans adj node xs s s'
      → s'.violations ≡ []
      → s.violations ≡ []
  Scans-quiet done q = q
  Scans-quiet {s = s} (cyclic on run) q = absurd (push_ne_nil s.violations _ (Scans-quiet run q))
  Scans-quiet (descend off new inner run) q = Visits-quiet inner (Scans-quiet run q)
  Scans-quiet (pass off old run) q = Scans-quiet run q

-- Each edge from a node of the list leads to a later place in the list.
abbrev pub IsTopological : Adjacency → List String → Type 0
IsTopological adj [] = Unit
IsTopological adj (x ∷ d) =
    (has d x ≡ false)
    × ((y : String) → edge_of adj x y ≡ true → has d y ≡ true)
    × IsTopological adj d

-- The visited nodes are those that are finished and those on the path.
pub record IsSettled (adj : Adjacency) (d : List String) (s : Search) : Type 0 where
  pub ordered : IsTopological adj d
  pub split : (x : String) → has s.visited x ≡ (has d x || has s.path x)
  pub apart : (x : String) → has d x ≡ true → has s.path x ≡ false

All-has :
    (d xs : List String) (y : String)
    → All (λ x. has d x ≡ true) xs
    → has xs y ≡ true
    → has d y ≡ true
All-has d [] y a h = absurd (ground arith)
All-has d (x ∷ xs) y a h = elim (Bool-cases (str_eq x y)) [
  | inl e ↦ subst (λ (u : String). has d u ≡ true) ((eq_iff x y).0 e) a.0
  | inr n ↦ All-has d xs y a.1 (ground arith)
]

enter-IsSettled :
    (adj : Adjacency) (d : List String) (node : String) (s : Search)
    → has s.visited node ≡ false
    → IsSettled adj d s
    → IsSettled adj d (enter node s)
enter-IsSettled adj d node s new i = record {
  ordered = i.ordered;
  split = λ x. ground (arith, i.split x);
  apart = λ x h. elim (Bool-cases (str_eq node x)) [
    | inl e ↦ absurd (
        ground (
          arith,
          i.split node,
          subst (λ (u : String). has d u ≡ true) (sym ((eq_iff node x).0 e)) h,
        ))
    | inr n ↦ ground (arith, i.apart x)
  ];
}

leave-IsSettled :
    (adj : Adjacency) (d : List String) (node : String) (s t s' : Search)
    → t.path ≡ node ∷ s.path
    → s'.path ≡ s.path
    → s'.visited ≡ t.visited
    → has s.path node ≡ false
    → All (λ x. has d x ≡ true) (neighbors adj node)
    → IsSettled adj d t
    → IsSettled adj (node ∷ d) s'
leave-IsSettled adj d node s t s' p p' v off all i =
    let on : (x : String) → has t.path x ≡ (str_eq node x || has s.path x) =
      λ x. ap (λ q. has q x) p in
    record {
      ordered = (
        elim (Bool-cases (has d node)) [
          | inl h ↦ absurd (ground (arith, i.apart node h, on node, eq_iff node node))
          | inr h ↦ h
        ],
        (λ y h. All-has d (neighbors adj node) y all h),
        i.ordered,
      );
      split = λ x. ap (λ q. has q x) v ∙ ground (arith, i.split x, on x, ap (λ q. has q x) p');
      apart = λ x h. elim (Bool-cases (str_eq node x)) [
        | inl e ↦
            ap (λ q. has q x) p'
            ∙ subst (λ (u : String). has s.path u ≡ false) ((eq_iff node x).0 e) off
        | inr n ↦ ground (arith, i.apart x, on x, ap (λ q. has q x) p')
      ];
    }

mutual
  pub Visits-IsSettled :
      {adj : Adjacency} {node : String} {s s' : Search} (d : List String)
      → Visits adj node s s'
      → s'.violations ≡ []
      → has s.path node ≡ false
      → has s.visited node ≡ false
      → IsSettled adj d s
      → (d' : List String) × IsSettled adj d' s'
        × ((x : String) → has d x ≡ true → has d' x ≡ true)
        × (has d' node ≡ true)
  Visits-IsSettled {adj = adj} {node = node} {s = s} {s' = s'} d (visit {s' = t} run e) q off new
        i =
      let quiet : t.violations ≡ [] = sym (ap (λ (u : Search). u.violations) e) ∙ q in
      let (d', i', keep, all) = Scans-IsSettled d run quiet (enter-IsSettled adj d node s new i) in
      (
        node ∷ d',
        leave-IsSettled adj d' node s t s' (Scans-path run) (Visits-path (visit run e) off)
            (ap (λ (u : Search). u.visited) e) off all i',
        λ x h. ground (arith, keep x h),
        ground (arith, eq_iff node node),
      )

  Scans-IsSettled :
      {adj : Adjacency} {node : String} {xs : List String} {s s' : Search} (d : List String)
      → Scans adj node xs s s'
      → s'.violations ≡ []
      → IsSettled adj d s
      → (d' : List String) × IsSettled adj d' s'
        × ((x : String) → has d x ≡ true → has d' x ≡ true)
        × All (λ x. has d' x ≡ true) xs
  Scans-IsSettled d done q i = (d, i, (λ x h. h), tt)
  Scans-IsSettled {s = s} d (cyclic on run) q i =
      absurd (push_ne_nil s.violations _ (Scans-quiet run q))
  Scans-IsSettled d (descend {x = x} off new inner run) q i =
      let (m, im, km, hm) = Visits-IsSettled d inner (Scans-quiet run q) off new i in
      let (d', i', keep, all) = Scans-IsSettled m run q im in
      (d', i', (λ y h. keep y (km y h)), (keep x hm, all))
  Scans-IsSettled d (pass {x = x} off old run) q i =
      let (d', i', keep, all) = Scans-IsSettled d run q i in
      (d', i', keep, (keep x (ground (arith, i.split x)), all))

-- The place of a node, counted from the end.
abbrev place : List String → String → ℕ
place [] u = 0
place (x ∷ d) u = if str_eq x u then length d + 1 else place d u

place-le : (d : List String) (u : String) → place d u ≤ length d
place-le [] u = omega arith
place-le (x ∷ d) u = ground (arith, place-le d u)

-- A node in the rest of an ordered list is not its head.
head_ne : (d : List String) (x v : String) → has d x ≡ false → has d v ≡ true → str_eq x v ≡ false
head_ne d x v off later = elim (Bool-cases (str_eq x v)) [
  | inl e ↦
      absurd (ground (arith, subst (λ (u : String). has d u ≡ true) (sym ((eq_iff x v).0 e)) later))
  | inr n ↦ n
]

edge_descends :
    (adj : Adjacency) (d : List String) (u v : String)
    → IsTopological adj d
    → has d u ≡ true
    → edge_of adj u v ≡ true
    → (has d v ≡ true) × (place d v < place d u)
edge_descends adj [] u v o h e = absurd (ground arith)
edge_descends adj (x ∷ d) u v o h e = elim (Bool-cases (str_eq x u)) [
  | inl same ↦
      let later : has d v ≡ true =
        o.1 v (subst (λ (w : String). edge_of adj w v ≡ true) (sym ((eq_iff x u).0 same)) e) in
      let ne = head_ne d x v o.0 later in let low = place-le d v in (ground arith, ground arith)
  | inr n ↦
      let (hv, lv) = edge_descends adj d u v o.2 (ground arith) e in
      let ne = head_ne d x v o.0 hv in (ground arith, ground arith)
]

walk_descends :
    (adj : Adjacency) (d : List String) {u v : String}
    → IsTopological adj d
    → Walk (edge_of adj) u v
    → has d u ≡ true
    → (has d v ≡ true) × (place d v < place d u)
walk_descends adj d {u} {v} o (one e) h = edge_descends adj d u v o h e
walk_descends adj d {u} {v} o (more {v = m} w e) h =
    let (hm, lm) = walk_descends adj d o w h in
    let (hv, lv) = edge_descends adj d m v o hm e in (hv, omega arith)

pub IsTopological-acyclic :
    (adj : Adjacency) (d : List String) (v : String)
    → IsTopological adj d
    → has d v ≡ true
    → Walk (edge_of adj) v v
    → ⊥
IsTopological-acyclic adj d v o h w = let (_, l) = walk_descends adj d o w h in absurd (omega arith)
