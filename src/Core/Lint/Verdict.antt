-- ===== src/Core/Lint/Verdict.antt =====
-- crates/core/src/llm/decomposition/lint.rs: when a decomposition passes.
use ndc.Common.{
  ℕ, ◌<◌, ◌≤◌, true, false, ◌≡◌, refl, ap, some, List, [], ◌∷◌, ◌↔◌, String, arith, All, All-append,
  ltb, length, map, extend, Bool-cases, inl, inr,
}
use ndc.Common.Option
use ndc.Core.Decomposition.{
  LintViolation, LintSeverity, severity_index, severity_eq, LintResult, TaskDependency,
  TaskDecomposition,
}
use ndc.Core.CycleSearch.Sound.{HasCycle}
use ndc.Core.CycleSearch.Graph.{depends}
use ndc.Core.CycleSearch.Correct.{IsOrder, check_iff}
use ndc.Core.CycleSearch.Reports.{AllCritical}
use ndc.Core.Intent.{FilePath}
use ndc.Core.Lint.{
  check, overall, passes, has_severity, summarize, other_rules, FileGroups, missing_verification,
  too_complex, orphaned_tasks, missing_files, too_many_subtasks, conflicts, group_conflicts,
  conflict, group_by_file,
}

-- A warning or less.
abbrev IsMild : LintViolation → Type 0
IsMild v = severity_index v.severity < 2

map-All :
    {A : Type 0} (f : A → LintViolation) (xs : List A)
    → ((x : A) → IsMild (f x))
    → All IsMild (map f xs)
map-All f [] h = tt
map-All f (x ∷ xs) h = (h x, map-All f xs h)

conflicts-IsMild :
    (ds : List TaskDependency) (file : FilePath) (ids : List String)
    → All IsMild (conflicts ds file ids)
conflicts-IsMild ds file [] = tt
conflicts-IsMild ds file (a ∷ ids) =
    All-append IsMild (map (conflict file a) _) (conflicts ds file ids)
      (map-All (conflict file a) _ (λ b. omega arith)) (conflicts-IsMild ds file ids)

group_conflicts-IsMild :
    (ds : List TaskDependency) (groups : FileGroups) → All IsMild (group_conflicts ds groups)
group_conflicts-IsMild ds [] = tt
group_conflicts-IsMild ds ((file, ids) ∷ groups) = elim (Bool-cases (ltb 1 (length ids))) [
  | inl h ↦ rw h (
      All-append IsMild (conflicts ds file ids) (group_conflicts ds groups)
        (conflicts-IsMild ds file ids) (group_conflicts-IsMild ds groups))
  | inr h ↦ rw h (group_conflicts-IsMild ds groups)
]

too_many_subtasks-IsMild : (d : TaskDecomposition) → All IsMild (too_many_subtasks d)
too_many_subtasks-IsMild d = elim (Bool-cases (ltb 20 (length d.subtasks))) [
  | inl h ↦ rw h (omega arith, tt)
  | inr h ↦ rw h tt
]

other_rules-IsMild : (d : TaskDecomposition) → All IsMild (other_rules d)
other_rules-IsMild d =
    All-append IsMild (missing_verification d) _ (map-All _ _ (λ t. omega arith)) (
      All-append IsMild (too_complex d) _ (map-All _ _ (λ t. omega arith)) (
        All-append IsMild (orphaned_tasks d) _
          (group_conflicts-IsMild d.dependencies (group_by_file d.subtasks []))
          (All-append IsMild (missing_files d) (too_many_subtasks d)
            (map-All _ _ (λ t. omega arith)) (too_many_subtasks-IsMild d))))

mild_passes : (vs : List LintViolation) → All IsMild vs → passes vs ≡ true
mild_passes [] a = refl
mild_passes (v ∷ vs) a = ground (arith, mild_passes vs a.1)

mild_overall :
    (vs : List LintViolation) → All IsMild vs → has_severity LintSeverity.critical vs ≡ false
mild_overall [] a = refl
mild_overall (v ∷ vs) a = ground (arith, mild_overall vs a.1)

bounded :
    (n : ℕ) (vs : List LintViolation)
    → ((l : LintSeverity) → has_severity l vs ≡ true → severity_index l ≤ n)
    → All (λ (v : LintViolation). severity_index v.severity ≤ n) vs
bounded n [] h = tt
bounded n (v ∷ vs) h = (h v.severity (ground arith), bounded n vs (λ l has. h l (ground arith)))

overall-bounds :
    (vs : List LintViolation) (l : LintSeverity)
    → has_severity l vs ≡ true
    → severity_index l ≤ severity_index (overall vs)
overall-bounds vs LintSeverity.info h = omega arith
overall-bounds vs LintSeverity.warning h = ground arith
overall-bounds vs LintSeverity.error h = ground arith
overall-bounds vs LintSeverity.critical h = ground arith

-- What the cycle rule finds decides the verdict.
critical_fails :
    (v : LintViolation) (vs : List LintViolation)
    → v.severity ≡ LintSeverity.critical
    → (passes (v ∷ vs) ≡ false) × (has_severity LintSeverity.critical (v ∷ vs) ≡ true)
critical_fails v vs h =
    let same = ap (λ l. severity_eq l LintSeverity.critical) h in (ground arith, ground arith)

cons_ne_nil : (v : LintViolation) (vs : List LintViolation) → ¬ (v ∷ vs ≡ [])
cons_ne_nil v vs h = ground arith

verdict :
    (N : Type 0) (found rest : List LintViolation)
    → AllCritical found
    → All IsMild rest
    → ((found ≡ []) ↔ N)
    → let r = summarize (extend found rest) in
      ((r.passed ≡ true) ↔ N) × ((r.passed ≡ false) ↔ (r.severity ≡ LintSeverity.critical))
verdict N [] rest critical mild iff =
    let ok = mild_passes rest mild in
    let low = mild_overall rest mild in
    (((λ h. iff.0 refl), (λ h. ok)), ((λ h. ground arith), (λ h. ground arith)))
verdict N (v ∷ found) rest critical mild iff =
    let (bad, high) = critical_fails v (extend found rest) critical.0 in
    (
      ((λ h. absurd (ground arith)), (λ n. absurd (cons_ne_nil v found (iff.1 n)))),
      ((λ h. ground arith), (λ h. bad)),
    )

-- The lint returns for every decomposition, in whatever order its nodes are visited. It passes exactly when no chain of dependencies leads from
-- a subtask back to itself, it fails exactly when its severity is critical, and no violation is more
-- severe than the whole.
pub check_lem :
    (order : List String → List String) (d : TaskDecomposition)
    → IsOrder order
    → (r : LintResult) × (check order d ≡ some r)
      × ((r.passed ≡ true) ↔ (¬ HasCycle (depends d.dependencies)))
      × ((r.passed ≡ false) ↔ (r.severity ≡ LintSeverity.critical))
      × All
          (λ (v : LintViolation). severity_index v.severity ≤ severity_index r.severity)
          r.violations
unfolding check
check_lem order d set =
    let (found, e, critical, iff) = check_iff order d set in
    let vs = extend found (other_rules d) in
    let (passing, failing) =
      verdict (¬ HasCycle (depends d.dependencies)) found (other_rules d) critical
        (other_rules-IsMild d) iff in
    (
      summarize vs,
      ap (Option.map (λ (cycles : List LintViolation). summarize (extend cycles (other_rules d))))
          e,
      passing,
      failing,
      bounded (severity_index (overall vs)) vs (overall-bounds vs),
    )
