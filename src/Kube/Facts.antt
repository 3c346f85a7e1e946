-- ===== src/Kube/Facts.antt =====
-- What a history of calls says that stays true when more calls are made, by whomever.
use oadp_non_admin.Base.{◌≡◌, ◌⊎◌, inl, inr, List, [], ◌∷◌, Mem}
use oadp_non_admin.Kube.Status.{ApiError}
use oadp_non_admin.Kube.Api.{
  Call, Payload, ok, err, Prog, ret, fail, panic, call, Event, event, History,
}
use oadp_non_admin.Kube.Rules.{Rules, Keeps}

-- Some call of the history, with its answer, is such.
abbrev pub Saw : (Event → Type 0) → History → Type 0
Saw P [] = ⊥
Saw P (e ∷ h) = P e ⊎ Saw P h

-- The second history shows what the first one does.
abbrev pub Includes : History → History → Type 1
Includes h g = (P : Event → Type 0) → Saw P h → Saw P g

pub Includes-refl : (h : History) → Includes h h
Includes-refl h P s = s

pub Includes-next : (e : Event) (h : History) → Includes h (e ∷ h)
Includes-next e h P s = inr s

pub Includes-trans : (f g h : History) → Includes f g → Includes g h → Includes f h
Includes-trans f g h p q P s = q P (p P s)

pub Includes-both : (e : Event) (h g : History) → Includes h g → Includes (e ∷ h) (e ∷ g)
Includes-both e h g p P (inl x) = inl x
Includes-both e h g p P (inr s) = inr (p P s)

-- The call was made and refused because the object is not there.
abbrev pub Missing : Call → History → Type 0
Missing c h = Saw (λ e. e ≡ event c (err ApiError.not_found)) h

-- The call was made and succeeded.
abbrev pub Succeeded : Call → History → Type 0
Succeeded c h = Saw (λ e. (x : Payload c) × (e ≡ event c (ok x))) h

-- A predicate on histories that stays true.
abbrev pub Stays {ℓ} : (History → Type ℓ) → Type (1 ⊔ ℓ)
Stays P = (h g : History) → Includes h g → P h → P g

-- A list call and the objects that it can answer with.
pub record Listing (A : Type 0) : Type 0 where
  pub list : Call
  pub give : List A → Payload list

-- The list call has answered with these objects.
abbrev pub Answered : {A : Type 0} → Listing A → List A → History → Type 0
Answered l xs h = Saw (λ e. e ≡ event l.list (ok (l.give xs))) h

-- The object was in an answer.
abbrev pub Listed : {A : Type 0} → Listing A → A → History → Type 0
Listed {A} l x h = (xs : List A) × Mem x xs × Answered l xs h

pub Listed-Stays : {A : Type 0} (l : Listing A) (x : A) → Stays (Listed l x)
Listed-Stays l x h g i (xs, m, s) = (xs, m, i _ s)

-- Rules under which what is allowed stays allowed while others make calls.
pub record Patient (R : Rules) : Type 1 where
  pub allowed : (c : Call) → Stays (λ h. R.allows h c)
  pub failed : (e : _) → Stays (λ h. R.errs h e)

module _ (R : Rules) where
  -- What a patient program keeps, it keeps behind any calls of others.
  pub Keeps-later :
      {A : Type 0} (Q : History → A → Type 0)
      → Patient R
      → ((a : A) → Stays (λ h. Q h a))
      → (h g : History) (m : Prog A) → Includes h g
      → Keeps R Q h m
      → Keeps R Q g m
  Keeps-later Q p s h g (ret a) i k = s a h g i k
  Keeps-later Q p s h g (fail e) i k = p.failed e h g i k
  Keeps-later Q p s h g panic i k = k
  Keeps-later Q p s h g (call c f) i k = (
    p.allowed c h g i k.0,
    λ r l.
        Keeps-later Q p s (event c r ∷ h) (event c r ∷ g) (f r) (Includes-both (event c r) h g i)
          (k.1 r l),
  )

  -- What stays true is still true when the program returns.
  pub Keeps-stays :
      {A : Type 0} (Q : History → A → Type 0) (P : History → Type 0)
      → Stays P
      → (h : History) (m : Prog A) → P h
      → Keeps R Q h m
      → Keeps R (λ g a. P g × Q g a) h m
  Keeps-stays Q P s h (ret a) p k = (p, k)
  Keeps-stays Q P s h (fail e) p k = k
  Keeps-stays Q P s h panic p k = k
  Keeps-stays Q P s h (call c f) p k = (
    k.0,
    λ r l.
        Keeps-stays Q P s (event c r ∷ h) (f r)
          (s h (event c r ∷ h) (Includes-next (event c r) h) p) (k.1 r l),
  )
