-- ===== src/Loop.antt =====
-- The loop over reconcile steps, which `Reconcile` of
-- internal/controller/nonadminbackup_controller.go and of nonadminrestore_controller.go share.
use oadp_non_admin.Base.{Bool, true, false, List, [], ◌∷◌, if◌then◌else◌}
use oadp_non_admin.Kube.Api.{Prog, ret, ◌>>=◌, History}
use oadp_non_admin.Kube.Rules.{Rules, Keeps, Keeps-bind, Keeps-if}

-- The steps in their order, each with the object as the last one left it: a step that asks to
-- requeue ends the loop.
unfoldable pub run_steps : {S : Type 0} → List (S → Prog (S × Bool)) → S → Prog Bool
run_steps [] s = ret false
run_steps (step ∷ steps) s =
    step s >>= λ (s1, requeue). let rest = run_steps steps s1 in if requeue then ret true else rest

module _ (R : Rules) {S : Type 0} where
  -- A step of a list, and the rest of the list behind it.
  pub run_step-Keeps :
      (Q : History → S → Type 0) (h : History) (s : S) (step : S → Prog (S × Bool))
      (steps : List (S → Prog (S × Bool)))
      → Keeps R (λ g t. Q g t.0) h (step s)
      → ((g : History) (t : S) → Q g t → Keeps R (λ _ _. Unit) g (run_steps steps t))
      → Keeps R (λ _ _. Unit) h (run_steps (step ∷ steps) s)
  unfolding run_steps
  run_step-Keeps Q h s step steps p k =
      Keeps-bind R _ _ h (step s) _ p λ g t q. Keeps-if R _ g t.1 _ _ (λ _. tt) (λ _. k g t.0 q)

  pub finish : (g : History) (s : S) → Keeps R (λ _ _. Unit) g (run_steps [] s)
  unfolding run_steps
  finish g s = tt

  -- Whichever list of steps a test picks.
  pub either-Keeps :
      (h : History) (s : S) (b : Bool) (xs ys : List (S → Prog (S × Bool)))
      → Keeps R (λ _ _. Unit) h (run_steps xs s)
      → Keeps R (λ _ _. Unit) h (run_steps ys s)
      → Keeps R (λ _ _. Unit) h (run_steps (if b then xs else ys) s)
  either-Keeps h s true xs ys p q = p
  either-Keeps h s false xs ys p q = q
