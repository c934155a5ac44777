-- ===== src/Core/Lineage/Keeping.antt =====
-- crates/core/src/todo/lineage.rs: a lineage, once there, keeps its place and only grows.
use mathlib.Core.List.{append_assoc, append-nil}
use ndc.Common.{
  String, true, false, ◌≡◌, refl, sym, ◌∙◌, Option, some, List, [], ◌∷◌, ◌++◌, arith, is_ok,
  if◌then◌else◌, Bool-cases, inl, inr, Bool,
}
use ndc.Common.Text.{str_eq}
use ndc.Core.TaskState.{Timestamp}
use ndc.Core.Lineage.{
  TaskLineage, LineageService, InheritedInvariant, get_lineage, update_first, add_child, place,
  add_inherited_invariant, archive_context,
}
use ndc.Core.Lineage.Growth.{
  find-update_first, place-get_lineage, create_lineage-cases, place_refused, is_parent,
}
use ndc.Core.Lineage.Depth.{Call, create, add, archive, apply, run}

-- The second lineage is the first after some calls.
pub record IsLater (l l' : TaskLineage) : Type 0 where
  pub same_parent : l'.parent ≡ l.parent
  pub same_depth : l'.depth ≡ l.depth
  pub same_time : l'.created_at ≡ l.created_at
  pub more_children : (more : List String) × (l'.children ≡ l.children ++ more)
  pub more_invariants :
      (more : List InheritedInvariant) × (l'.inherited_invariants ≡ l.inherited_invariants ++ more)

IsLater-refl : (l : TaskLineage) → IsLater l l
IsLater-refl l = record {
  same_parent = refl;
  same_depth = refl;
  same_time = refl;
  more_children = ([], sym (append-nil l.children));
  more_invariants = ([], sym (append-nil l.inherited_invariants));
}

IsLater-trans : (a b c : TaskLineage) → IsLater a b → IsLater b c → IsLater a c
IsLater-trans a b c h k =
    let (xs, p) = h.more_children in
    let (ys, q) = k.more_children in
    let (vs, p') = h.more_invariants in
    let (ws, q') = k.more_invariants in
    record {
      same_parent = k.same_parent ∙ h.same_parent;
      same_depth = k.same_depth ∙ h.same_depth;
      same_time = k.same_time ∙ h.same_time;
      more_children = (xs ++ ys, rw (q, p) (append_assoc a.children xs ys));
      more_invariants = (vs ++ ws, rw (q', p') (append_assoc a.inherited_invariants vs ws));
    }

-- A lineage of the task after a call.
abbrev Stays : String → TaskLineage → LineageService → Type 0
Stays u l s = (l' : TaskLineage) × (get_lineage u s ≡ some l') × IsLater l l'

grown-IsLater : (l : TaskLineage) (t : String) → IsLater l (add_child t l)
grown-IsLater l t = record {
  same_parent = refl;
  same_depth = refl;
  same_time = refl;
  more_children = (t ∷ [], refl);
  more_invariants = ([], sym (append-nil l.inherited_invariants));
}

if-IsLater : (l l' : TaskLineage) (b : Bool) → IsLater l l' → IsLater l (if b then l' else l)
if-IsLater l l' true h = h
if-IsLater l l' false h = IsLater-refl l

changed-Stays :
    (f : TaskLineage → TaskLineage) (t u : String) (s : LineageService) (l : TaskLineage)
    → ((x : TaskLineage) → (f x).task_id ≡ x.task_id)
    → IsLater l (f l)
    → get_lineage u s ≡ some l
    → Stays u l (record s { lineage_store = update_first t f s.lineage_store })
unfolding get_lineage
changed-Stays f t u s l keep later h = (
  if str_eq t u then f l else l,
  ground (arith, find-update_first f t u s.lineage_store keep),
  if-IsLater l (f l) (str_eq t u) later,
)

place-Stays :
    (now : Timestamp) (t : String) (parent : Option String) (s : LineageService) (u : String)
    (l : TaskLineage)
    → get_lineage u s ≡ some l
    → Stays u l (place now t parent s).0
place-Stays now t parent s u l h = elim (Bool-cases (is_ok (place now t parent s).1)) [
  | inl y ↦ (
    if is_parent parent u then add_child t l else l,
    ground (arith, place-get_lineage now t parent s u y),
    if-IsLater l (add_child t l) (is_parent parent u) (grown-IsLater l t),
  )
  | inr n ↦ rw (place_refused now t parent s n) (l, h, IsLater-refl l)
]

apply-Stays :
    (c : Call) (s : LineageService) (u : String) (l : TaskLineage)
    → get_lineage u s ≡ some l
    → Stays u l (apply c s)
unfolding apply add_inherited_invariant archive_context
apply-Stays (create now t parent) s u l h = elim (create_lineage-cases now t parent s) [
  | inl y ↦ rw (apply, y) (place-Stays now t parent s u l h)
  | inr n ↦ rw (apply, n) (l, h, IsLater-refl l)
]
apply-Stays (add t v) s u l h =
    changed-Stays _ t u s l (λ x. refl)
      (record {
        same_parent = refl;
        same_depth = refl;
        same_time = refl;
        more_children = ([], sym (append-nil l.children));
        more_invariants = (v ∷ [], refl);
      })
      h
apply-Stays (archive t c) s u l h =
    changed-Stays _ t u s l (λ x. refl)
      (record {
        same_parent = refl;
        same_depth = refl;
        same_time = refl;
        more_children = ([], sym (append-nil l.children));
        more_invariants = ([], sym (append-nil l.inherited_invariants));
      })
      h

-- The lineage of a task stays the one of that task after any calls: its parent, its depth and its
-- time of creation are the same, and its children and inherited invariants only get more at the end.
pub run-IsLater :
    (cs : List Call) (s : LineageService) (u : String) (l : TaskLineage)
    → get_lineage u s ≡ some l
    → (l' : TaskLineage) × (get_lineage u (run cs s) ≡ some l') × IsLater l l'
unfolding run
run-IsLater [] s u l h = (l, h, IsLater-refl l)
run-IsLater (c ∷ cs) s u l h =
    let (m, found, later) = apply-Stays c s u l h in
    let (l', found', later') = run-IsLater cs (apply c s) u m found in
    (l', found', IsLater-trans l m l' later later')
