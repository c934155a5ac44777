-- ===== src/Core/CycleSearch/Reports.antt =====
-- crates/core/src/llm/decomposition/lint.rs: the severity of what the search reports.
use mathlib.Core.Path.{subst}
use ndc.Common.{String, List, [], ◌∷◌, ◌≡◌, refl, sym, All, All-append}
use ndc.Core.Decomposition.{LintViolation, LintSeverity}
use ndc.Core.CycleSearch.{Adjacency, Search, cycle_violation}
use ndc.Core.CycleSearch.Runs.{Visits, visit, Scans, done, cyclic, descend, pass}

abbrev pub AllCritical : List LintViolation → Type 0
AllCritical vs = All (λ (v : LintViolation). v.severity ≡ LintSeverity.critical) vs

mutual
  pub Visits-AllCritical :
      {adj : Adjacency} {node : String} {s s' : Search}
      → Visits adj node s s'
      → AllCritical s.violations
      → AllCritical s'.violations
  Visits-AllCritical (visit run e) a =
      subst (λ (t : Search). AllCritical t.violations) (sym e) (Scans-AllCritical run a)

  Scans-AllCritical :
      {adj : Adjacency} {node : String} {xs : List String} {s s' : Search}
      → Scans adj node xs s s'
      → AllCritical s.violations
      → AllCritical s'.violations
  Scans-AllCritical done a = a
  Scans-AllCritical {node = node} {s = s} (cyclic {x = x} on run) a = Scans-AllCritical run (
      All-append (λ (v : LintViolation). v.severity ≡ LintSeverity.critical) s.violations
        (cycle_violation node x ∷ []) a (refl, tt))
  Scans-AllCritical (descend off new inner run) a =
      Scans-AllCritical run (Visits-AllCritical inner a)
  Scans-AllCritical (pass off old run) a = Scans-AllCritical run a
