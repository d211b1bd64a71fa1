-- ===== src/Operator/Plan.antt =====
-- cmd/main.go: how the run of a plan of actions goes.
use model_validation_operato.Base.{
  ◌≡◌, ◌⊎◌, refl, ap, Bool, true, false, List, [], ◌∷◌, ◌++◌, map, inl, inr, Bool-cases, All,
}
use model_validation_operato.Operator.Steps.{Action, Step, must, just, Run, run_plan}

abbrev pub action : Step → Action
action (must a) = a
action (just a) = a

-- Does the step let the run go on?
abbrev pub IsPassed : (Action → Bool) → Step → Type 0
IsPassed fails (must a) = fails a ≡ false
IsPassed fails (just a) = Unit

module _ (fails : Action → Bool) where
  -- Either every action of the plan was performed, or those up to the first one that failed.
  pub data IsRun (steps : List Step) : Run → Type 0 where
    finished :
        All (IsPassed fails) steps → IsRun steps (record { log = map action steps; status = 0 })
    stopped :
        (before after : List Step) (a : Action)
        → steps ≡ before ++ (must a ∷ after)
        → All (IsPassed fails) before
        → fails a ≡ true
        → IsRun steps (record { log = map action before ++ (a ∷ []); status = 1 })

  cons-IsRun :
      (s : Step) (steps : List Step) (run : Run)
      → IsPassed fails s
      → IsRun steps run
      → IsRun (s ∷ steps) (record run { log = action s ∷ run.log })
  cons-IsRun s steps run p (finished ps) = finished (p, ps)
  cons-IsRun s steps run p (stopped before after a e ps f) =
      stopped (s ∷ before) after a (ap (λ xs. s ∷ xs) e) (p, ps) f

  pub run_plan-IsRun : (steps : List Step) → IsRun steps (run_plan fails steps)
  unfolding run_plan
  run_plan-IsRun [] = finished tt
  run_plan-IsRun (just a ∷ steps) =
      cons-IsRun (just a) steps (run_plan fails steps) tt (run_plan-IsRun steps)
  run_plan-IsRun (must a ∷ steps) = elim (Bool-cases (fails a)) [
    | inl e ↦ rw e (stopped [] steps a refl tt e)
    | inr e ↦ rw e (cons-IsRun (must a) steps (run_plan fails steps) e (run_plan-IsRun steps))
  ]

  -- What holds of every action of the plan holds of those performed.
  pub All-run_plan :
      (P : Action → Type 0) (steps : List Step)
      → All (λ s. P (action s)) steps
      → All P (run_plan fails steps).log
  unfolding run_plan
  All-run_plan P [] h = tt
  All-run_plan P (just a ∷ steps) (p, h) = (p, All-run_plan P steps h)
  All-run_plan P (must a ∷ steps) (p, h) = elim (Bool-cases (fails a)) [
    | inl e ↦ rw e (p, tt)
    | inr e ↦ rw e (p, All-run_plan P steps h)
  ]

  -- A run either reaches the second half of a plan, or is that of the first half.
  pub log-append :
      (xs ys : List Step)
      → (((run_plan fails (xs ++ ys)).log ≡ map action xs ++ (run_plan fails ys).log)
          × ((run_plan fails (xs ++ ys)).status ≡ (run_plan fails ys).status))
        ⊎ ((run_plan fails (xs ++ ys)).log ≡ (run_plan fails xs).log)
  unfolding run_plan
  log-append [] ys = inl (refl, refl)
  log-append (just a ∷ xs) ys = elim (log-append xs ys) [
    | inl (e, s) ↦ inl (ap (λ l. a ∷ l) e, s)
    | inr e ↦ inr (ap (λ l. a ∷ l) e)
  ]
  log-append (must a ∷ xs) ys = elim (Bool-cases (fails a)) [
    | inl e ↦ inr (rw e refl)
    | inr e ↦ elim (log-append xs ys) [
      | inl (f, s) ↦ inl (rw e (ap (λ l. a ∷ l) f, s))
      | inr f ↦ inr (rw e (ap (λ l. a ∷ l) f))
    ]
  ]
