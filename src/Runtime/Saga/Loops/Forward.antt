-- ===== src/Runtime/Saga/Loops/Forward.antt =====
-- The forward loop runs the actions in order up to the first that fails.
use mathlib.Core.List.{append_assoc, append-nil}
use mathlib.Core.Path.{subst}
use ndc.Common.{
  ℕ, ◌+◌, String, ◌≡◌, refl, ap, sym, ◌∙◌, Bool, some, List, [], ◌∷◌, ◌++◌, arith, length,
  length-push, get_elem?, Result, ok, err, push,
}
use ndc.Core.Intent.{Json}
use ndc.Runtime.Saga.{SagaStep, forward, Environment, called}
use ndc.Runtime.Saga.Loops.{
  Run, Attempt, succeeded, broke, LoopEnd, finished, step_failed, record_answer, attempt,
  execute_steps,
}
use ndc.Runtime.Saga.Loops.Answers.{Does, Fails, AllDone}
use ndc.Runtime.Saga.Loops.Plan.{
  Deed, deed, plan, forwards, plan-set, get_elem?-plan, persist-calls,
}

-- What one attempt at the step `idx` of `r` leaves.
data AttemptEnd (env : Environment) (r : Run) (idx : ℕ) (step : SagaStep) : Attempt → Type 0 where
  good :
      {r' : Run}
      → plan r'.saga.steps ≡ plan r.saga.steps
      → r'.world.calls ≡ push r.world.calls (forward step.forward_action)
      → r'.completed_steps ≡ r.completed_steps + 1
      → Does env r.world.calls step.forward_action
      → AttemptEnd env r idx step (succeeded r')
  bad :
      {r' : Run} {e : String}
      → plan r'.saga.steps ≡ plan r.saga.steps
      → r'.world.calls ≡ push r.world.calls (forward step.forward_action)
      → r'.completed_steps ≡ r.completed_steps
      → r'.saga.current_step ≡ some idx
      → Fails env r.world.calls step.forward_action e
      → AttemptEnd env r idx step (broke r' e)

-- What the loop over the deeds `rest`, from the step `idx` on, leaves.
pub data ForwardEnd (env : Environment) (r : Run) (rest : List Deed) (idx : ℕ)
    : LoopEnd → Type 0 where
  all_done :
      {r' : Run}
      → plan r'.saga.steps ≡ plan r.saga.steps
      → r'.world.calls ≡ r.world.calls ++ forwards rest
      → r'.completed_steps ≡ r.completed_steps + length rest
      → AllDone env r.world.calls rest
      → ForwardEnd env r rest idx (finished r')
  one_failed :
      {r' : Run} {e : String} (mid late : List Deed) (d : Deed)
      → rest ≡ mid ++ d ∷ late
      → plan r'.saga.steps ≡ plan r.saga.steps
      → r'.world.calls ≡ r.world.calls ++ forwards (push mid d)
      → r'.completed_steps ≡ r.completed_steps + length mid
      → r'.saga.current_step ≡ some (idx + length mid)
      → AllDone env r.world.calls mid
      → Fails env (r.world.calls ++ forwards mid) d.0 e
      → ForwardEnd env r rest idx (step_failed r' e)

-- A good attempt, and what the loop over the other deeds leaves.
after_good :
    (env : Environment) (r r' : Run) (rest : List Deed) (idx : ℕ) (d : Deed) (end : LoopEnd)
    → plan r'.saga.steps ≡ plan r.saga.steps
    → r'.world.calls ≡ push r.world.calls (forward d.0)
    → r'.completed_steps ≡ r.completed_steps + 1
    → Does env r.world.calls d.0
    → ForwardEnd env r' rest (idx + 1) end
    → ForwardEnd env r (d ∷ rest) idx end
after_good env r r' rest idx d end p c n does (all_done p2 c2 n2 a2) =
    all_done (p2 ∙ p) (c2 ∙ rw c (append_assoc r.world.calls _ _)) (omega arith)
      (does, subst (λ k. AllDone env k rest) c a2)
after_good env r r' rest idx d end p c n does
      (one_failed {e = e} mid late x split p2 c2 n2 k a2 f) =
    one_failed (d ∷ mid) late x (ap (◌∷◌ d) split) (p2 ∙ p)
      (c2 ∙ rw c (append_assoc r.world.calls _ _)) (omega arith) (k ∙ ap some (omega arith))
      (does, subst (λ k. AllDone env k mid) c a2)
      (subst (λ k. Fails env k x.0 e)
        (ap (◌++ forwards mid) c ∙ append_assoc r.world.calls (forward d.0 ∷ []) (forwards mid)) f)

module _ (env : Environment) (storage : Bool) where
  record_answer-end :
      (idx : ℕ) (step : SagaStep) (r : Run) (answer : Result String Json)
      → get_elem? r.saga.steps idx ≡ some step
      → env.execute_forward r.world step.forward_action ≡ answer
      → AttemptEnd env r idx step (
          record_answer env storage idx step
            (record r { world = called (forward step.forward_action) r.world })
            answer)
  unfolding record_answer
  record_answer-end idx step r (ok output) h said =
      good (plan-set r.saga.steps idx step _ h refl) (persist-calls storage _ _) refl
        (r.world, output, refl, said)
  record_answer-end idx step r (err e) h said =
      bad (plan-set r.saga.steps idx step _ h refl) (persist-calls storage _ _) refl refl
        (r.world, refl, said)

  pub execute_steps-end :
      (before rest : List Deed) (r : Run)
      → plan r.saga.steps ≡ before ++ rest
      → ForwardEnd env r rest
          (length before)
          (execute_steps env storage (length rest) (length before) r)
  unfolding execute_steps attempt
  execute_steps-end before [] r h = all_done refl (sym (append-nil _)) (omega arith) tt
  execute_steps-end before (d ∷ rest) r h =
      let (step, found, same) = get_elem?-plan r.saga.steps before rest d h in
      rw (found, execute_steps)
        (go step same
          (λ r' e. rw (← length-push before d) (
            execute_steps-end (push before d) rest r'
              (e ∙ h ∙ sym (append_assoc before (d ∷ []) rest))))
          (attempt env storage (length before) step r)
          (record_answer-end (length before) step r
            (env.execute_forward r.world step.forward_action) found refl))
    where
      go :
          (step : SagaStep)
          → deed step ≡ d
          → ((r' : Run)
              → plan r'.saga.steps ≡ plan r.saga.steps
              → ForwardEnd env r' rest
                  (length before + 1)
                  (execute_steps env storage (length rest) (length before + 1) r'))
          → (a : Attempt) → AttemptEnd env r (length before) step a
          → ForwardEnd env r (d ∷ rest) (length before) (elim a [
            | succeeded r' ↦ execute_steps env storage (length rest) (length before + 1) r'
            | broke r' e ↦ step_failed r' e
          ])
      go step same ih a (good {r' = r'} p c n does) =
          after_good env r r' rest (length before) d _ p
            (c ∙ ap (λ (x : Deed). push r.world.calls (forward x.0)) same) n
            (subst (λ (x : Deed). Does env r.world.calls x.0) same does) (ih r' p)
      go step same ih a (bad {e = e} p c n k fails) =
          one_failed [] rest d refl p (c ∙ ap (λ (x : Deed). push r.world.calls (forward x.0)) same)
            (omega arith) (k ∙ ap some (omega arith)) tt
            (subst (λ k. Fails env k d.0 e) (sym (append-nil r.world.calls))
              (subst (λ (x : Deed). Fails env r.world.calls x.0 e) same fails))
