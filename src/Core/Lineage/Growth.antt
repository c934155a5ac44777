-- ===== src/Core/Lineage/Growth.antt =====
-- crates/core/src/todo/lineage.rs: what a call changes in the lineages of the tasks, and what stays.
use text.Mathlib.TextEquality.{eq_iff}
use ndc.Common.{
  ℕ, String, Bool, true, false, ◌≡◌, ◌≢◌, refl, Option, none, some, List, [], ◌∷◌, arith, is_ok,
  if◌then◌else◌, push, find, ◌⊎◌, ◌↔◌, err, ◌+◌, ap,
}
use Prim.Native.Nat.{◌%◌}
use ndc.Common.Option
use ndc.Common.Text.{str_eq}
use ndc.Core.TaskState.{Timestamp}
use ndc.Core.Lineage.{
  TaskLineage, LineageService, disabled, InheritedInvariant, has_id, get_lineage, update_first,
  add_child, new_lineage, next_depth, parent_depth, place, create_lineage, add_inherited_invariant,
  get_inherited_invariants,
}

pub find-update_first :
    (f : TaskLineage → TaskLineage) (t u : String) (ls : List TaskLineage)
    → ((l : TaskLineage) → (f l).task_id ≡ l.task_id)
    → find (has_id u) (update_first t f ls)
      ≡ (if str_eq t u then Option.map f (find (has_id u) ls) else find (has_id u) ls)
unfolding update_first
find-update_first f t u [] keep = ground arith
find-update_first f t u (l ∷ ls) keep = ground (
  arith,
  keep l,
  eq_iff t u,
  eq_iff l.task_id t,
  eq_iff l.task_id u,
  eq_iff (f l).task_id u,
  find-update_first f t u ls keep,
)

find-push :
    (u : String) (l : TaskLineage) (ls : List TaskLineage)
    → find (has_id u) (push ls l)
      ≡ elim (find (has_id u) ls) [ some x ↦ some x | none ↦ if has_id u l then some l else none ]
find-push u l [] = ground arith
find-push u l (x ∷ ls) = ground (arith, find-push u l ls)

-- Adding an invariant to a task that has a lineage puts it at the end of the invariants read for that
-- task; adding it to any other task adds nothing; what is read for other tasks stays.
get_inherited_invariants-add :
    (t u : String) (v : InheritedInvariant) (s : LineageService)
    → get_inherited_invariants u (add_inherited_invariant t v s) ≡ elim (get_lineage u s) [
      | none ↦ []
      | some l ↦
          if str_eq t u then push (get_inherited_invariants u s) v else get_inherited_invariants u s
    ]
unfolding get_inherited_invariants add_inherited_invariant get_lineage
get_inherited_invariants-add t u v s = ground (
  arith,
  find-update_first
      (λ (l : TaskLineage). record l { inherited_invariants = push l.inherited_invariants v }) t u
      s.lineage_store (λ l. refl),
)

-- Whether a task is the given parent.
abbrev pub is_parent : Option String → String → Bool
is_parent none u = false
is_parent (some p) u = str_eq p u

-- The depth that a child of this parent gets.
abbrev pub depth_below : Option String → LineageService → ℕ
depth_below none s = 0
depth_below (some p) s = next_depth (parent_depth p s)

pub place-get_lineage :
    (now : Timestamp) (t : String) (parent : Option String) (s : LineageService) (u : String)
    → is_ok (place now t parent s).1 ≡ true
    → get_lineage u (place now t parent s).0 ≡ elim (get_lineage u s) [
      | some l ↦ some (if is_parent parent u then add_child t l else l)
      | none ↦ if str_eq t u then some (new_lineage now t parent (depth_below parent s)) else none
    ]
unfolding place get_lineage
place-get_lineage now t none s u h =
    ground (arith, find-push u (new_lineage now t none 0) s.lineage_store)
place-get_lineage now t (some p) s u h = ground (
  arith,
  find-push u (new_lineage now t (some p) (depth_below (some p) s))
      (update_first p (add_child t) s.lineage_store),
  find-update_first (add_child t) p u s.lineage_store (λ l. refl),
)

pub place_refused :
    (now : Timestamp) (t : String) (parent : Option String) (s : LineageService)
    → is_ok (place now t parent s).1 ≡ false
    → (place now t parent s).0 ≡ s
unfolding place
place_refused now t none s h = ground arith
place_refused now t (some p) s h = ground arith

pub create_lineage-cases :
    (now : Timestamp) (t : String) (parent : Option String) (s : LineageService)
    → (create_lineage now t parent s ≡ place now t parent s)
      ⊎ (create_lineage now t parent s ≡ (s, err disabled))
unfolding create_lineage
create_lineage-cases now t parent s = ground arith

-- The depth below a parent: 0 without one, 1 below a parent without a lineage, and one more than a
-- lineage's otherwise, as a u32.
abbrev pub IsDepthBelow : Option String → LineageService → ℕ → Type 0
IsDepthBelow none s d = d ≡ 0
IsDepthBelow (some p) s d =
    (get_lineage p s ≡ none → d ≡ 1)
    × ((l : TaskLineage) → get_lineage p s ≡ some l → d ≡ (l.depth + 1) % 4294967296)

-- The lineage of a task that was just placed under a parent.
abbrev pub IsFresh : Timestamp → String → Option String → LineageService → TaskLineage → Type 0
IsFresh now t parent s l =
    (l.task_id ≡ t)
    × (l.parent ≡ parent)
    × IsDepthBelow parent s l.depth
    × (l.children ≡ [])
    × (l.inherited_invariants ≡ [])
    × (l.inherited_failures ≡ [])
    × (l.inherited_context ≡ none)
    × (l.created_at ≡ now)

depth_below_lem :
    (parent : Option String) (s : LineageService) → IsDepthBelow parent s (depth_below parent s)
unfolding get_lineage
depth_below_lem none s = refl
depth_below_lem (some p) s = (λ h. rw (h, depth_below) refl, λ l h. rw (h, depth_below) refl)

is_parent_iff :
    (parent : Option String) (u : String) → (is_parent parent u ≡ true) ↔ (parent ≡ some u)
is_parent_iff none u = ground arith
is_parent_iff (some p) u = (
  λ h. ap some ((eq_iff p u).0 h),
  λ h. (eq_iff p u).1 (ap (λ (o : Option String). Option.get_or o p) h),
)

-- For a task without a lineage, a call of create_lineage that fails changes nothing, and one that
-- succeeds gives it a lineage with its parent, the depth below it, no children and nothing inherited;
-- the lineage of its parent, if there is one, has the task as one more child at the end and is
-- otherwise as it was, and the lineages of all other tasks stay.
pub create_lineage_lem :
    (now : Timestamp) (t : String) (parent : Option String) (s : LineageService)
    → get_lineage t s ≡ none
    → let (s', r) = create_lineage now t parent s in
      (is_ok r ≡ false → s' ≡ s)
      × (is_ok r ≡ true
          → ((l : TaskLineage) × (get_lineage t s' ≡ some l) × IsFresh now t parent s l)
            × ((u : String)
                → u ≢ t
                → (parent ≢ some u → get_lineage u s' ≡ get_lineage u s)
                  × (parent ≡ some u
                      → get_lineage u s'
                        ≡ Option.map
                            (λ (l : TaskLineage). record l { children = push l.children t })
                            (get_lineage u s))))
unfolding create_lineage
create_lineage_lem now t parent s new = (
  λ h. ground (arith, place_refused now t parent s),
  λ h. (
    (
      new_lineage now t parent (depth_below parent s),
      ground (arith, place-get_lineage now t parent s t, eq_iff t t),
      (refl, refl, depth_below_lem parent s, refl, refl, refl, refl, refl),
    ),
    λ u other. (
      λ no_. ground (arith, place-get_lineage now t parent s u, eq_iff t u, is_parent_iff parent u),
      λ yes_.
          ground (arith, place-get_lineage now t parent s u, eq_iff t u, is_parent_iff parent u),
    ),
  ),
)
