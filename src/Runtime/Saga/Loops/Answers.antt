-- ===== src/Runtime/Saga/Loops/Answers.antt =====
-- What the executor answers to the calls of a saga. An answer is that of a world in which just the
-- named calls were made.
use mathlib.Core.List.{append_assoc, append-nil}
use mathlib.Core.Path.{subst}
use ndc.Common.{String, ◌≡◌, ap, sym, ◌∙◌, Option, none, some, List, [], ◌∷◌, ◌++◌, ok, err, push}
use ndc.Core.Intent.{Json}
use ndc.Runtime.Saga.{SagaAction, Call, forward, World, Environment}
use ndc.Runtime.Saga.Loops.Plan.{Deed, undo, undos, undos_snoc}

module _ (env : Environment) where
  -- After these calls, the forward action succeeds.
  abbrev pub Does : List Call → SagaAction → Type 0
  Does c a = (v : World) × (output : Json) × (v.calls ≡ c) × (env.execute_forward v a ≡ ok output)

  -- After these calls, the forward action fails with this error.
  abbrev pub Fails : List Call → SagaAction → String → Type 0
  Fails c a e = (v : World) × (v.calls ≡ c) × (env.execute_forward v a ≡ err e)

  -- After these calls, the forward actions succeed one after the other.
  abbrev pub AllDone : List Call → List Deed → Type 0
  AllDone c [] = Unit
  AllDone c (d ∷ ds) = Does c d.0 × AllDone (push c (forward d.0)) ds

  -- After these calls, the compensating action succeeds, if there is one.
  abbrev pub Undoes : List Call → Option SagaAction → Type 0
  Undoes c none = Unit
  Undoes c (some a) = (v : World) × (v.calls ≡ c) × (env.execute_compensate v a ≡ ok tt)

  -- After these calls, the compensating action fails with this error.
  abbrev pub UndoFails : List Call → SagaAction → String → Type 0
  UndoFails c a e = (v : World) × (v.calls ≡ c) × (env.execute_compensate v a ≡ err e)

  -- After these calls, the compensating actions succeed one after the other, the last deed first.
  abbrev pub AllUndone : List Call → List Deed → Type 0
  AllUndone c [] = Unit
  AllUndone c (d ∷ ds) = AllUndone c ds × Undoes (c ++ undos ds) d.1

  pub AllUndone-snoc :
      (c : List Call) (ds : List Deed) (d : Deed)
      → Undoes c d.1
      → AllUndone (c ++ undo d.1) ds
      → AllUndone c (push ds d)
  AllUndone-snoc c [] d first rest = (tt, subst (λ k. Undoes k d.1) (sym (append-nil c)) first)
  AllUndone-snoc c (x ∷ ds) d first (rest, last) = (
    AllUndone-snoc c ds d first rest,
    subst (λ k. Undoes k x.1)
        (append_assoc c (undo d.1) (undos ds) ∙ ap (c ++◌) (sym (undos_snoc ds d))) last,
  )
