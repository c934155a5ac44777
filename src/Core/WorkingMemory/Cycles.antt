-- ===== src/Core/WorkingMemory/Cycles.antt =====
-- crates/core/src/memory/working_memory.rs: what `detect_cycle` finds.
use text.Mathlib.TextEquality.{eq_iff}
use ndc.Common.{
  ◌<◌, true, ◌≡◌, ◌↔◌, List, [], ◌∷◌, ◌++◌, arith, refl, ap, Bool-cases, inl, inr, ◌&&◌,
}
use ndc.Core.WorkingMemory.{
  FailurePattern, AbstractHistory, same_root_cause, any_window, detect_cycle,
}

-- The same type of error with the same message.
abbrev pub IsSameCause : FailurePattern → FailurePattern → Type 0
IsSameCause a b = (a.error_type ≡ b.error_type) × (a.message ≡ b.message)

same_root_cause_iff : (a b : FailurePattern) → (same_root_cause a b ≡ true) ↔ IsSameCause a b
unfolding same_root_cause
same_root_cause_iff a b =
    ground (arith, eq_iff a.error_type b.error_type, eq_iff a.message b.message)

-- Three failures in a row with the same cause.
abbrev pub Repeated : List FailurePattern → Type 0
Repeated ps =
    (before after : List FailurePattern) × (a b c : FailurePattern) × (ps
      ≡ before ++ a ∷ b ∷ c ∷ after)
    × IsSameCause a b
    × IsSameCause b c

any_window-Repeated : (ps : List FailurePattern) → any_window ps ≡ true → Repeated ps
unfolding any_window
any_window-Repeated [] h = absurd (ground arith)
any_window-Repeated (a ∷ []) h = absurd (ground arith)
any_window-Repeated (a ∷ b ∷ []) h = absurd (ground arith)
any_window-Repeated (a ∷ b ∷ c ∷ ps) h =
    elim (Bool-cases (same_root_cause a b && same_root_cause b c)) [
      | inl y ↦ (
        [],
        ps,
        a,
        b,
        c,
        refl,
        (same_root_cause_iff a b).0 (ground arith),
        (same_root_cause_iff b c).0 (ground arith),
      )
      | inr n ↦
          let (before, after, x, y, z, split, p, q) =
            any_window-Repeated (b ∷ c ∷ ps) (ground arith) in
          (a ∷ before, after, x, y, z, ap (◌∷◌ a) split, p, q)
    ]

any_window-cons :
    (a : FailurePattern) (ps : List FailurePattern)
    → any_window ps ≡ true
    → any_window (a ∷ ps) ≡ true
unfolding any_window
any_window-cons a [] h = h
any_window-cons a (b ∷ []) h = absurd (ground arith)
any_window-cons a (b ∷ c ∷ ps) h = ground arith

Repeated-any_window :
    (before after : List FailurePattern) (a b c : FailurePattern)
    → IsSameCause a b
    → IsSameCause b c
    → any_window (before ++ a ∷ b ∷ c ∷ after) ≡ true
unfolding any_window
Repeated-any_window [] after a b c p q =
    ground (arith, same_root_cause_iff a b, same_root_cause_iff b c)
Repeated-any_window (x ∷ before) after a b c p q =
    any_window-cons x (before ++ a ∷ b ∷ c ∷ after) (Repeated-any_window before after a b c p q)

any_window_iff : (ps : List FailurePattern) → (any_window ps ≡ true) ↔ Repeated ps
any_window_iff ps = (
  any_window-Repeated ps,
  λ (before, after, a, b, c, split, p, q). rw split (Repeated-any_window before after a b c p q),
)

-- A cycle is detected exactly if there are more than three attempts by the counter and three failures
-- directly after one another have the same type of error and the same message. More than two failures
-- with one cause, which the comment in the code asks for, are not enough if others stand between them.
pub detect_cycle_iff :
    (h : AbstractHistory)
    → (detect_cycle h ≡ true) ↔ ((3 < h.attempt_count) × Repeated h.failure_patterns)
unfolding detect_cycle
detect_cycle_iff h = (
  λ y. (ground arith, (any_window_iff h.failure_patterns).0 (ground arith)),
  λ (many, r). ground (arith, (any_window_iff h.failure_patterns).1 r),
)
