-- ===== src/Runtime/Saga/Loops/Backward.antt =====
-- The backward loop runs the compensating actions, the last first, up to the first that fails.
use mathlib.Core.List.{append_assoc, append-nil}
use mathlib.Core.Path.{subst}
use ndc.Common.{
  ℕ, zero, suc, String, ◌≡◌, refl, ap, sym, ◌∙◌, Bool, Option, none, some, List, [], ◌∷◌, ◌++◌,
  arith, length, get_elem?, Result, ok, err, push, unsnoc,
}
use ndc.Runtime.Saga.{SagaAction, SagaStep, Saga, SagaState, compensate, World, Environment, called}
use ndc.Runtime.Saga.Loops.{
  Undoing, undone, stopped, out_of_range, record_undo, undo_step, compensate_steps,
}
use ndc.Runtime.Saga.Loops.Answers.{Undoes, UndoFails, AllUndone, AllUndone-snoc}
use ndc.Runtime.Saga.Loops.Plan.{
  Deed, plan, undo, undos, undos_snoc, plan-set, get_elem?-plan, persist-calls,
}

-- What the compensation of the step `idx` leaves.
data UndoEnd (env : Environment) (saga : Saga) (w : World) (idx : ℕ) (d : Deed)
    : Undoing → Type 0 where
  good :
      {saga' : Saga} {w' : World}
      → plan saga'.steps ≡ plan saga.steps
      → w'.calls ≡ w.calls ++ undo d.1
      → Undoes env w.calls d.1
      → UndoEnd env saga w idx d (undone saga' w')
  bad :
      {saga' : Saga} {w' : World} {e : String} (a : SagaAction)
      → d.1 ≡ some a
      → w'.calls ≡ push w.calls (compensate a)
      → saga'.state ≡ SagaState.failed
      → UndoFails env w.calls a e
      → UndoEnd env saga w idx d (stopped saga' w' idx e)

-- What the loop over the deeds `done`, from the last one down, leaves.
pub data BackwardEnd (env : Environment) (saga : Saga) (w : World) (done : List Deed)
    : Undoing → Type 0 where
  all_undone :
      {saga' : Saga} {w' : World}
      → plan saga'.steps ≡ plan saga.steps
      → w'.calls ≡ w.calls ++ undos done
      → AllUndone env w.calls done
      → BackwardEnd env saga w done (undone saga' w')
  one_stopped :
      {saga' : Saga} {w' : World} {i : ℕ} {e : String} (early late : List Deed) (d : Deed)
      (a : SagaAction)
      → done ≡ early ++ d ∷ late
      → i ≡ length early
      → d.1 ≡ some a
      → w'.calls ≡ w.calls ++ push (undos late) (compensate a)
      → saga'.state ≡ SagaState.failed
      → AllUndone env w.calls late
      → UndoFails env (w.calls ++ undos late) a e
      → BackwardEnd env saga w done (stopped saga' w' i e)

after_good :
    (env : Environment) (saga saga1 : Saga) (w w1 : World) (init : List Deed) (d : Deed)
    (u : Undoing)
    → plan saga1.steps ≡ plan saga.steps
    → w1.calls ≡ w.calls ++ undo d.1
    → Undoes env w.calls d.1
    → BackwardEnd env saga1 w1 init u
    → BackwardEnd env saga w (push init d) u
after_good env saga saga1 w w1 init d u p c does (all_undone p2 c2 a2) =
    all_undone (p2 ∙ p) (c2 ∙ rw (c, undos_snoc init d) (append_assoc w.calls _ _))
      (AllUndone-snoc env w.calls init d does (subst (λ k. AllUndone env k init) c a2))
after_good env saga saga1 w w1 init d u p c does
      (one_stopped {e = e} early late x a split i s c2 f a2 fails) =
    one_stopped early (push late d) x a (rw split (append_assoc early (x ∷ late) (d ∷ []))) i s
      (c2
        ∙ rw (c, undos_snoc late d)
            (append_assoc w.calls _ _ ∙ ap (◌++◌ w.calls) (sym (append_assoc (undo d.1) _ _))))
      f (AllUndone-snoc env w.calls late d does (subst (λ k. AllUndone env k late) c a2))
      (subst (λ k. UndoFails env k a e)
        (ap (◌++ undos late) c
          ∙ append_assoc w.calls (undo d.1) (undos late)
          ∙ ap (w.calls ++◌) (sym (undos_snoc late d)))
        fails)

module _ (env : Environment) (storage : Bool) where
  undo_step-end :
      (idx : ℕ) (step : SagaStep) (saga : Saga) (w : World) (action : Option SagaAction) (d : Deed)
      → get_elem? saga.steps idx ≡ some step
      → d.1 ≡ action
      → UndoEnd env saga w idx d (undo_step env storage idx step saga w action)
  unfolding undo_step
  undo_step-end idx step saga w none d h e =
      good (plan-set saga.steps idx step _ h refl) (rw e (sym (append-nil _))) (rw e tt)
  undo_step-end idx step saga w (some a) d h e = answer (env.execute_compensate w a) refl
    where
      answer :
          (r : Result String (Unit {0}))
          → env.execute_compensate w a ≡ r
          → UndoEnd env saga w idx d
              (record_undo env storage idx step saga (called (compensate a) w) r)
      answer (ok tt) said =
          good (plan-set saga.steps idx step _ h refl) (persist-calls storage _ _ ∙ rw e refl)
            (subst (Undoes env w.calls) (sym e) (w, refl, said))
      answer (err msg) said = bad a e refl refl (w, refl, said)

  pub compensate_steps-end :
      (n : ℕ) (done rest : List Deed) (saga : Saga) (w : World)
      → length done ≡ n
      → plan saga.steps ≡ done ++ rest
      → BackwardEnd env saga w done (compensate_steps env storage n saga w)
  unfolding compensate_steps
  compensate_steps-end zero [] rest saga w l h = all_undone refl (sym (append-nil _)) tt
  compensate_steps-end zero (x ∷ done) rest saga w l h = absurd (omega arith)
  compensate_steps-end (suc idx) done rest saga w l h =
      let (init, d, split, len) = unsnoc idx done l in
      let whole : plan saga.steps ≡ init ++ d ∷ rest =
        h ∙ rw split (append_assoc init (d ∷ []) rest) in
      let (step, found, same) = get_elem?-plan saga.steps init rest d whole in
      let found' : get_elem? saga.steps idx ≡ some step = rw len at found in
      rw (split, found', compensate_steps)
        (go init d (λ saga' w' e. compensate_steps-end idx init (d ∷ rest) saga' w' len (e ∙ whole))
          (undo_step env storage idx step saga w step.compensating_action) len
          (undo_step-end idx step saga w step.compensating_action d found'
            (sym (ap (λ (x : Deed). x.1) same))))
    where
      go :
          (init : List Deed) (d : Deed)
          → ((saga' : Saga) (w' : World)
              → plan saga'.steps ≡ plan saga.steps
              → BackwardEnd env saga' w' init (compensate_steps env storage idx saga' w'))
          → (u : Undoing) → length init ≡ idx
          → UndoEnd env saga w idx d u
          → BackwardEnd env saga w (push init d) (elim u [
            | undone saga' w' ↦ compensate_steps env storage idx saga' w'
            | stopped saga' w' i e ↦ stopped saga' w' i e
            | out_of_range ↦ out_of_range
          ])
      go init d ih u len (good {saga' = saga1} {w' = w1} p c does) =
          after_good env saga saga1 w w1 init d _ p c does (ih saga1 w1 p)
      go init d ih u len (bad {e = e} a s c f fails) =
          one_stopped init [] d a refl (sym len) s c f tt
            (subst (λ k. UndoFails env k a e) (sym (append-nil w.calls)) fails)
