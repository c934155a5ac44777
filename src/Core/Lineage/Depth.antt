-- ===== src/Core/Lineage/Depth.antt =====
-- crates/core/src/todo/lineage.rs: what holds of the lineages after any calls.
use mathlib.Core.Path.{subst}
use ndc.Common.{
  ℕ, ◌+◌, ◌≤◌, ◌<◌, String, true, false, ◌≡◌, ◌↔◌, refl, sym, Option, none, some, List, [], ◌∷◌,
  arith, find, ltb, ◌&&◌, All, All-append, Option-cases, inl, inr, Bool-cases,
}
use ndc.Core.TaskState.{Timestamp}
use ndc.Core.Lineage
use ndc.Core.Lineage.{
  TaskLineage, LineageConfig, LineageService, InheritedInvariant, ArchivedContext, has_id,
  get_lineage, update_first, add_child, new_lineage, next_depth, parent_depth, place,
  create_lineage, add_inherited_invariant, archive_context,
}
use ndc.Core.Lineage.Growth.{create_lineage-cases}

pub data Call : Type 0 where
  create : Timestamp → String → Option String → Call
  add : String → InheritedInvariant → Call
  archive : String → ArchivedContext → Call

unfoldable pub apply : Call → LineageService → LineageService
apply (create now t parent) s = (create_lineage now t parent s).0
apply (add t v) s = add_inherited_invariant t v s
apply (archive t c) s = archive_context t c s

unfoldable pub run : List Call → LineageService → LineageService
unfolding apply
run [] s = s
run (c ∷ cs) s = run cs (apply c s)

-- A depth within the bound, which is 0 for the lineages without a parent and no others.
abbrev pub IsPlaced : ℕ → TaskLineage → Type 0
IsPlaced max_depth l = (l.depth ≤ max_depth) × ((l.parent ≡ none) ↔ (l.depth ≡ 0))

found :
    (x l : TaskLineage) (u : String) (ls : List TaskLineage)
    → has_id u x ≡ true
    → find (has_id u) (x ∷ ls) ≡ some l
    → x ≡ l
found x l u ls y h = ground arith

find-All :
    (P : TaskLineage → Type 0) (u : String) (ls : List TaskLineage) (l : TaskLineage)
    → All P ls
    → find (has_id u) ls ≡ some l
    → P l
find-All P u [] l a h = absurd (ground arith)
find-All P u (x ∷ ls) l a h = elim (Bool-cases (has_id u x)) [
  | inl y ↦ rw (← found x l u ls y h) a.0
  | inr n ↦ find-All P u ls l a.1 (ground arith)
]

update_first-All :
    (P : TaskLineage → Type 0) (f : TaskLineage → TaskLineage) (t : String) (ls : List TaskLineage)
    → ((l : TaskLineage) → P l → P (f l))
    → All P ls
    → All P (update_first t f ls)
unfolding update_first
update_first-All P f t [] keep a = tt
update_first-All P f t (l ∷ ls) keep a = elim (Bool-cases (has_id t l)) [
  | inl y ↦ rw (y, update_first, All) (keep l a.0, a.1)
  | inr n ↦ rw (n, update_first, All) (a.0, update_first-All P f t ls keep a.1)
]

parent_depth-le :
    (p : String) (s : LineageService)
    → All (IsPlaced s.config.max_depth) s.lineage_store
    → parent_depth p s ≤ s.config.max_depth
parent_depth-le p s a = elim (Option-cases (find (has_id p) s.lineage_store)) [
  | inl n ↦ rw n (omega arith)
  | inr (l, h) ↦ rw h (find-All _ p s.lineage_store l a h).0
]

below-IsPlaced :
    (max_depth d : ℕ) (now : Timestamp) (t p : String)
    → 1 ≤ max_depth
    → max_depth + 1 < 4294967296
    → d ≤ max_depth
    → (ltb 0 max_depth && ltb max_depth (next_depth d)) ≡ false
    → IsPlaced max_depth (new_lineage now t (some p) (next_depth d))
below-IsPlaced max_depth d now t p low high le n = ground arith

place-All :
    (now : Timestamp) (t : String) (parent : Option String) (s : LineageService)
    → 1 ≤ s.config.max_depth
    → s.config.max_depth + 1 < 4294967296
    → All (IsPlaced s.config.max_depth) s.lineage_store
    → All (IsPlaced s.config.max_depth) (place now t parent s).0.lineage_store
unfolding place
place-All now t none s low high a =
    All-append (IsPlaced s.config.max_depth) s.lineage_store _ a
      ((omega arith, (λ _. refl, λ _. refl)), tt)
place-All now t (some p) s low high a =
    let depth = next_depth (parent_depth p s) in
    elim (Bool-cases (ltb 0 s.config.max_depth && ltb s.config.max_depth depth)) [
      | inl y ↦ rw (y, place) a
      | inr n ↦
          rw (n, place)
            (All-append (IsPlaced s.config.max_depth) (update_first p (add_child t) s.lineage_store)
              _
              (update_first-All (IsPlaced s.config.max_depth) (add_child t) p s.lineage_store
                (λ l h. h) a)
              (
                below-IsPlaced s.config.max_depth (parent_depth p s) now t p low high
                    (parent_depth-le p s a) n,
                tt,
              ))
    ]

apply-config : (c : Call) (s : LineageService) → (apply c s).config ≡ s.config
unfolding apply create_lineage place add_inherited_invariant archive_context
apply-config (create now t none) s = ground arith
apply-config (create now t (some p)) s = ground arith
apply-config (add t v) s = refl
apply-config (archive t c) s = refl

apply-All :
    (c : Call) (s : LineageService)
    → 1 ≤ s.config.max_depth
    → s.config.max_depth + 1 < 4294967296
    → All (IsPlaced s.config.max_depth) s.lineage_store
    → All (IsPlaced s.config.max_depth) (apply c s).lineage_store
unfolding apply add_inherited_invariant archive_context
apply-All (create now t parent) s low high a = elim (create_lineage-cases now t parent s) [
  | inl y ↦ rw (apply, y) (place-All now t parent s low high a)
  | inr n ↦ rw (apply, n) a
]
apply-All (add t v) s low high a =
    update_first-All (IsPlaced s.config.max_depth) _ t s.lineage_store (λ l h. h) a
apply-All (archive t c) s low high a =
    update_first-All (IsPlaced s.config.max_depth) _ t s.lineage_store (λ l h. h) a

run-All :
    (cs : List Call) (s : LineageService)
    → 1 ≤ s.config.max_depth
    → s.config.max_depth + 1 < 4294967296
    → All (IsPlaced s.config.max_depth) s.lineage_store
    → All (IsPlaced s.config.max_depth) (run cs s).lineage_store
unfolding run
run-All [] s low high a = a
run-All (c ∷ cs) s low high a =
    let e = apply-config c s in
    subst (λ (k : LineageConfig). All (IsPlaced k.max_depth) (run cs (apply c s)).lineage_store) e
      (run-All cs (apply c s) (subst (λ (k : LineageConfig). 1 ≤ k.max_depth) (sym e) low)
        (subst (λ (k : LineageConfig). k.max_depth + 1 < 4294967296) (sym e) high)
        (subst (λ (k : LineageConfig). All (IsPlaced k.max_depth) (apply c s).lineage_store) (sym e)
          (apply-All c s low high a)))

-- With a limit on the depth that is at least 1 and below the largest u32, every lineage has a depth
-- within the limit after any calls on a new service, and the depth is 0 for the lineages without a
-- parent and for no others.
pub lineages-IsPlaced :
    (config : LineageConfig) (cs : List Call)
    → 1 ≤ config.max_depth
    → config.max_depth + 1 < 4294967296
    → All (IsPlaced config.max_depth) (run cs (Lineage.new (some config))).lineage_store
unfolding Lineage.new
lineages-IsPlaced config cs low high = run-All cs (Lineage.new (some config)) low high tt
