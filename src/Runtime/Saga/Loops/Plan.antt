-- ===== src/Runtime/Saga/Loops/Plan.antt =====
-- What the steps of a saga are to do: no operation on a saga changes it.
use ndc.Common.{
  ℕ, zero, suc, ◌≡◌, refl, ap, sym, Bool, true, false, Option, none, some, List, [], ◌∷◌, ◌++◌,
  arith, length, get_elem?, set,
}
use mathlib.Core.List.{append_assoc, append-nil}
use ndc.Runtime.Saga.{SagaAction, SagaStep, Saga, Call, forward, compensate, World, persist}

-- The forward action of a step and its compensating action.
abbrev pub Deed : Type 0
Deed = SagaAction × Option SagaAction

abbrev pub deed : SagaStep → Deed
deed s = (s.forward_action, s.compensating_action)

abbrev pub plan : List SagaStep → List Deed
plan [] = []
plan (s ∷ steps) = deed s ∷ plan steps

-- The calls that run the forward actions in order.
abbrev pub forwards : List Deed → List Call
forwards [] = []
forwards (d ∷ ds) = forward d.0 ∷ forwards ds

abbrev pub undo : Option SagaAction → List Call
undo none = []
undo (some a) = compensate a ∷ []

-- The calls that run the compensating actions, the last deed first.
abbrev pub undos : List Deed → List Call
undos [] = []
undos (d ∷ ds) = undos ds ++ undo d.1

pub undos_snoc : (ds : List Deed) (d : Deed) → undos (ds ++ d ∷ []) ≡ undo d.1 ++ undos ds
undos_snoc [] d = sym (append-nil _)
undos_snoc (x ∷ ds) d = rw (undos_snoc ds d) (append_assoc (undo d.1) (undos ds) (undo x.1))

pub plan-set :
    (steps : List SagaStep) (idx : ℕ) (step step' : SagaStep)
    → get_elem? steps idx ≡ some step
    → deed step' ≡ deed step
    → plan (set steps idx step') ≡ plan steps
plan-set [] idx step step' h e = refl
plan-set (s ∷ steps) zero step step' h e = ground arith
plan-set (s ∷ steps) (suc idx) step step' h e =
    ap (◌∷◌ (deed s)) (plan-set steps idx step step' h e)

pub get_elem?-plan :
    (steps : List SagaStep) (before after : List Deed) (d : Deed)
    → plan steps ≡ before ++ d ∷ after
    → (step : SagaStep) × (get_elem? steps (length before) ≡ some step) × (deed step ≡ d)
get_elem?-plan [] [] after d h = absurd (cc)
get_elem?-plan [] (b ∷ before) after d h = absurd (cc)
get_elem?-plan (s ∷ steps) [] after d h = (s, refl, cc)
get_elem?-plan (s ∷ steps) (b ∷ before) after d h = get_elem?-plan steps before after d (cc)

pub length-plan : (steps : List SagaStep) → length (plan steps) ≡ length steps
length-plan [] = refl
length-plan (s ∷ steps) = ap suc (length-plan steps)

pub persist-calls :
    (storage : Bool) (saga : Saga) (w : World) → (persist storage saga w).calls ≡ w.calls
persist-calls true saga w = refl
persist-calls false saga w = refl
