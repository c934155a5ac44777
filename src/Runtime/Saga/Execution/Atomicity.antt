-- ===== src/Runtime/Saga/Execution/Atomicity.antt =====
-- A saga either runs to its end, or what it did is undone in reverse, or the undoing itself failed.
use mathlib.Core.List.{append_assoc}
use mathlib.Core.Path.{subst}
use ndc.Common.{
  ℕ, String, ◌≡◌, refl, ap, sym, ◌∙◌, true, false, Option, some, none, List, [], ◌∷◌, ◌++◌, arith,
  length, ok, err, push,
}
use ndc.Common.Option
use ndc.Common.Maps.{get, insert, get-insert_self, string_eq}
use ndc.Runtime.Workflow.{compensation_failed}
use ndc.Runtime.Saga.{
  SagaAction, SagaResult, Saga, SagaState, compensate, World, Environment, SagaOrchestrator,
  Outcome, returned, tick,
}
use ndc.Runtime.Saga.Loops.{Run, LoopEnd, Undoing}
use ndc.Runtime.Saga.Loops.Answers.{Fails, AllDone, UndoFails, AllUndone}
use ndc.Runtime.Saga.Loops.Plan.{Deed, plan, forwards, undos, length-plan, persist-calls}
use ndc.Runtime.Saga.Loops.Forward.{ForwardEnd, all_done, one_failed, execute_steps-end}
use ndc.Runtime.Saga.Loops.Backward.{BackwardEnd, all_undone, one_stopped, compensate_steps-end}
use ndc.Runtime.Saga.Execution.{
  close_undoing, compensate_found, compensate_saga, report_failure, close_run, execute_found,
  execute_saga,
}

-- How the execution of a saga with these deeds ends, from the world `w`: what the executor answered to
-- the calls, the world after it, the saga then registered, and the outcome.
pub data Ended (env : Environment) (w : World) (deeds : List Deed) (w' : World) (now : Option Saga)
    : Outcome SagaResult → Type 0 where
  committed :
      {result : SagaResult} (saga' : Saga)
      → AllDone env w.calls deeds
      → now ≡ some saga'
      → saga'.state ≡ SagaState.completed
      → w'.calls ≡ w.calls ++ forwards deeds
      → result.success ≡ true
      → result.error ≡ none
      → result.completed_steps ≡ length deeds
      → Ended env w deeds w' now (returned (ok result))
  rolled_back :
      {result : SagaResult} (saga' : Saga) (done late : List Deed) (d : Deed) (reason : String)
      → deeds ≡ done ++ d ∷ late
      → AllDone env w.calls done
      → Fails env (w.calls ++ forwards done) d.0 reason
      → AllUndone env (w.calls ++ forwards (push done d)) done
      → now ≡ some saga'
      → saga'.state ≡ SagaState.compensated
      → w'.calls ≡ w.calls ++ (forwards (push done d) ++ undos done)
      → result.success ≡ false
      → result.error ≡ some reason
      → result.completed_steps ≡ length done
      → Ended env w deeds w' now (returned (ok result))
  stuck :
      {i : ℕ} {e : String} (saga' : Saga) (early between late : List Deed) (u d : Deed)
      (a : SagaAction) (reason : String)
      → deeds ≡ (early ++ u ∷ between) ++ d ∷ late
      → AllDone env w.calls (early ++ u ∷ between)
      → Fails env (w.calls ++ forwards (early ++ u ∷ between)) d.0 reason
      → AllUndone env (w.calls ++ forwards (push (early ++ u ∷ between) d)) between
      → UndoFails env ((w.calls ++ forwards (push (early ++ u ∷ between) d)) ++ undos between) a e
      → i ≡ length early
      → u.1 ≡ some a
      → now ≡ some saga'
      → saga'.state ≡ SagaState.failed
      → w'.calls
        ≡ w.calls
          ++ (forwards (push (early ++ u ∷ between) d) ++ push (undos between) (compensate a))
      → Ended env w deeds w' now (returned (err (compensation_failed i e)))

-- The three parts of an answer.
abbrev pub EndedWith :
    Environment
    → String
    → World
    → List Deed
    → SagaOrchestrator × World × Outcome SagaResult
    → Type 0
EndedWith env saga_id w deeds (o, w', out) = Ended env w deeds w' (get saga_id o.sagas) out

module _ (env : Environment) (saga_id : String) where
  undoing-end :
      (o : SagaOrchestrator) (w : World) (deeds done late : List Deed) (d : Deed) (r : Run)
      (total : ℕ) (e : String) (saga : Saga) (w0 w1 : World) (u : Undoing)
      → deeds ≡ done ++ d ∷ late
      → AllDone env w.calls done
      → Fails env (w.calls ++ forwards done) d.0 e
      → w1.calls ≡ w.calls ++ forwards (push done d)
      → r.completed_steps ≡ length done
      → BackwardEnd env saga w1 done u
      → EndedWith env saga_id w deeds
          (report_failure saga_id r total e (close_undoing env saga_id o w0 u))
  unfolding report_failure close_undoing
  undoing-end o w deeds done late d r total e saga w0 w1 u split does fails c n
        (all_undone {saga' = s} {w' = w2} p c2 undone) =
      rolled_back _ done late d e split does fails (subst (λ k. AllUndone env k done) c undone)
        (get-insert_self saga_id _ o.sagas) refl
        (persist-calls o.storage _ (tick w2) ∙ c2 ∙ rw c (append_assoc w.calls _ _)) refl refl n
  undoing-end o w deeds done late d r total e saga w0 w1 u split does fails c n
        (one_stopped {e = e2} early between x a s i y c2 f undone undo_fails) =
      stuck _ early between late x d a e (rw (← s) split) (subst (AllDone env w.calls) s does)
        (subst (λ ds. Fails env (w.calls ++ forwards ds) d.0 e) s fails)
        (subst (λ k. AllUndone env k between) before undone)
        (subst (λ k. UndoFails env (k ++ undos between) a e2) before undo_fails) i y
        (get-insert_self saga_id _ o.sagas) f (c2 ∙ rw (c, s) (append_assoc w.calls _ _))
    where
      before : w1.calls ≡ w.calls ++ forwards (push (early ++ x ∷ between) d)
      before = c ∙ ap (λ ds. w.calls ++ forwards (push ds d)) s

  compensate-end :
      (o : SagaOrchestrator) (w : World) (deeds done late : List Deed) (d : Deed) (r : Run)
      (total : ℕ) (e : String)
      → plan r.saga.steps ≡ deeds
      → deeds ≡ done ++ d ∷ late
      → AllDone env w.calls done
      → Fails env (w.calls ++ forwards done) d.0 e
      → r.world.calls ≡ w.calls ++ forwards (push done d)
      → r.completed_steps ≡ length done
      → r.saga.current_step ≡ some (length done)
      → EndedWith env saga_id w deeds (
          report_failure saga_id r total e (
            compensate_saga env saga_id
              (record o { sagas = insert saga_id r.saga o.sagas })
              r.world))
  unfolding compensate_saga compensate_found
  compensate-end o w deeds done late d r total e p split does fails c n k =
      rw (get-insert_self saga_id r.saga o.sagas, compensate_saga)
        (undoing-end (record o { sagas = insert saga_id r.saga o.sagas }) w deeds done late d r
          total e _ r.world (tick r.world) _ split does fails c n
          (compensate_steps-end env o.storage _ done (d ∷ late) _ (tick r.world)
            (ap (λ (x : Option ℕ). Option.get_or x 0) (sym k)) (p ∙ split)))

  run-end :
      (o : SagaOrchestrator) (w : World) (deeds : List Deed) (start : Run) (total : ℕ)
      (end : LoopEnd)
      → plan start.saga.steps ≡ deeds
      → start.world.calls ≡ w.calls
      → start.completed_steps ≡ 0
      → ForwardEnd env start deeds 0 end
      → EndedWith env saga_id w deeds (close_run env saga_id total o end)
  unfolding close_run
  run-end o w deeds start total end p c n (all_done {r' = r'} p2 c2 n2 does) =
      committed _ (subst (λ k. AllDone env k deeds) c does) (get-insert_self saga_id _ o.sagas) refl
        (persist-calls o.storage _ (tick r'.world) ∙ c2 ∙ rw c refl) refl refl (omega arith)
  run-end o w deeds start total end p c n
        (one_failed {r' = r'} {e = e} mid late d split p2 c2 n2 k does fails) =
      compensate-end o w deeds mid late d r' total e (p2 ∙ p) split
        (subst (λ x. AllDone env x mid) c does)
        (subst (λ x. Fails env (x ++ forwards mid) d.0 e) c fails) (c2 ∙ rw c refl) (omega arith)
        (k ∙ ap some (omega arith))

  -- A call of execute_saga for a registered saga never panics and never reports a missing step. It
  -- ends in one of three ways. Every forward action ran once, in the order of the steps, the executor
  -- answered each with a success, and the saga is Completed. Or those before some step succeeded and
  -- that step's forward action failed, with the error that the result has; the compensating actions of
  -- the steps before it ran in reverse order, each answered with a success, and the saga is Compensated.
  -- Or a forward action failed in this way, and one of those compensating actions failed too, after the
  -- ones run before it had succeeded; nothing ran after it, the error returned names its step and has
  -- the executor's reason, and the saga is Failed. Each answer is the executor's in a world in which just the calls before it were made.
  pub execute_saga-Ended :
      (o : SagaOrchestrator) (w : World) (saga : Saga)
      → get saga_id o.sagas ≡ some saga
      → EndedWith env saga_id w (plan saga.steps) (execute_saga env saga_id o w)
  unfolding execute_saga execute_found
  execute_saga-Ended o w saga h =
      rw (h, execute_saga)
        (rw (← length-plan saga.steps) (
          run-end o w (plan saga.steps) _ _ _ refl (persist-calls o.storage _ (tick w)) refl
            (execute_steps-end env o.storage [] (plan saga.steps) _ refl)))
