-- ===== src/Kube/Rules.antt =====
-- Rules that a program keeps whatever the API server answers.
use oadp_non_admin.Base.{◌≡◌, Bool, true, false, Option, none, some, [], ◌∷◌, if◌then◌else◌, refl}
use oadp_non_admin.Kube.Status.{Error}
use oadp_non_admin.Kube.Api.{
  Call, Payload, Reply, ok, err, Prog, ret, fail, panic, call, ◌>>=◌, perform, deref, try, Result,
  success, failure, Outcome, returned, failed, panicked, event, History, Server, run,
}

-- Which calls may be made after which history, which answers the server's documentation allows,
-- with which errors the program may end, and whether it may panic.
pub record Rules : Type 1 where
  pub allows : History → Call → Type 0
  pub lawful : (c : Call) → Reply (Payload c) → Type 0
  pub errs : History → Error → Type 0
  pub panics : Type 0

-- From history `h` the program makes only allowed calls, and where it returns `Q` holds.
abbrev pub Keeps : {A : Type 0} → Rules → (History → A → Type 0) → History → Prog A → Type 0
Keeps R Q h (ret a) = Q h a
Keeps R Q h (fail e) = R.errs h e
Keeps R Q h panic = R.panics
Keeps R Q h (call c k) =
    R.allows h c × ((r : Reply (Payload c)) → R.lawful c r → Keeps R Q (event c r ∷ h) (k r))

module _ (R : Rules) where
  pub Keeps-bind :
      {A B : Type 0} (Q : History → A → Type 0) (S : History → B → Type 0) (h : History)
      (m : Prog A) (f : A → Prog B)
      → Keeps R Q h m
      → ((g : History) (a : A) → Q g a → Keeps R S g (f a))
      → Keeps R S h (m >>= f)
  Keeps-bind Q S h (ret a) f p q = q h a p
  Keeps-bind Q S h (fail e) f p q = p
  Keeps-bind Q S h panic f p q = p
  Keeps-bind Q S h (call c k) f p q =
      (p.0, λ r l. Keeps-bind Q S (event c r ∷ h) (k r) f (p.1 r l) q)

  pub Keeps-mono :
      {A : Type 0} (Q S : History → A → Type 0) (h : History) (m : Prog A)
      → Keeps R Q h m
      → ((g : History) (a : A) → Q g a → S g a)
      → Keeps R S h m
  Keeps-mono Q S h (ret a) p q = q h a p
  Keeps-mono Q S h (fail e) p q = p
  Keeps-mono Q S h panic p q = p
  Keeps-mono Q S h (call c k) p q = (p.0, λ r l. Keeps-mono Q S (event c r ∷ h) (k r) (p.1 r l) q)

  -- A call whose error is returned to the caller.
  pub Keeps-perform :
      {B : Type 0} (S : History → B → Type 0) (h : History) (c : Call) (f : Payload c → Prog B)
      → R.allows h c
      → ((e : _) → R.lawful c (err e) → R.errs (event c (err e) ∷ h) (Error.api e))
      → ((x : Payload c) → R.lawful c (ok x) → Keeps R S (event c (ok x) ∷ h) (f x))
      → Keeps R S h (perform c >>= f)
  Keeps-perform S h c f a e s = (a, elim [ ok x ↦ s x | err x ↦ e x ])

  pub Keeps-if :
      {A : Type 0} (Q : History → A → Type 0) (h : History) (b : Bool) (m n : Prog A)
      → (b ≡ true → Keeps R Q h m)
      → (b ≡ false → Keeps R Q h n)
      → Keeps R Q h (if b then m else n)
  Keeps-if Q h true m n p q = p refl
  Keeps-if Q h false m n p q = q refl

  pub Keeps-deref :
      {A B : Type 0} (S : History → B → Type 0) (h : History) (o : Option A) (f : A → Prog B)
      → R.panics
      → ((x : A) → o ≡ some x → Keeps R S h (f x))
      → Keeps R S h (deref o >>= f)
  Keeps-deref S h none f p k = p
  Keeps-deref S h (some x) f p k = k x refl

  pub Keeps-option :
      {A B : Type 0} (S : History → B → Type 0) (h : History) (o : Option A) (n : Prog B)
      (s : A → Prog B)
      → (o ≡ none → Keeps R S h n)
      → ((x : A) → o ≡ some x → Keeps R S h (s x))
      → Keeps R S h (elim o [ none ↦ n | some x ↦ s x ])
  Keeps-option S h none n s p q = p refl
  Keeps-option S h (some x) n s p q = q x refl

  -- What the values and the errors of a program satisfy, for code that looks at `err`.
  abbrev pub Settles :
      {A : Type 0}
      → (History → A → Type 0)
      → (History → Error → Type 0)
      → History
      → Result A
      → Type 0
  Settles Q E h (success a) = Q h a
  Settles Q E h (failure e) = E h e

  pub Keeps-try :
      {A : Type 0} (Q : History → A → Type 0) (E : History → Error → Type 0) (h : History)
      (m : Prog A)
      → Keeps (record R { errs = E }) Q h m
      → Keeps R (Settles Q E) h (try m)
  Keeps-try Q E h (ret a) p = p
  Keeps-try Q E h (fail e) p = p
  Keeps-try Q E h panic p = p
  Keeps-try Q E h (call c k) p = (p.0, λ r l. Keeps-try Q E (event c r ∷ h) (k r) (p.1 r l))

  -- Every call of a history was allowed when it was made.
  abbrev pub Obeys : History → Type 0
  Obeys [] = Unit
  Obeys (event c r ∷ h) = R.allows h c × Obeys h

  abbrev pub Ends : {A : Type 0} → (History → A → Type 0) → Outcome A × History → Type 0
  Ends Q (returned a, h) = Q h a × Obeys h
  Ends Q (failed e, h) = R.errs h e × Obeys h
  Ends Q (panicked, h) = R.panics × Obeys h

  -- A program that keeps the rules obeys them in every run against a lawful server.
  pub run-Ends :
      {A : Type 0} (Q : History → A → Type 0) (s : Server) (h : History) (m : Prog A)
      → ((g : History) (c : Call) → R.lawful c (s g c))
      → Obeys h
      → Keeps R Q h m
      → Ends Q (run s h m)
  unfolding run
  run-Ends Q s h (ret a) l o p = (p, o)
  run-Ends Q s h (fail e) l o p = (p, o)
  run-Ends Q s h panic l o p = (p, o)
  run-Ends Q s h (call c k) l o p =
      run-Ends Q s (event c (s h c) ∷ h) (k (s h c)) l (p.0, o) (p.1 (s h c) (l h c))

  pub Ends-Obeys :
      {A : Type 0} (Q : History → A → Type 0) (o : Outcome A × History) → Ends Q o → Obeys o.1
  Ends-Obeys Q (returned a, h) e = e.1
  Ends-Obeys Q (failed x, h) e = e.1
  Ends-Obeys Q (panicked, h) e = e.1
