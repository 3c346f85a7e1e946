-- ===== src/Base/Lists.antt =====
-- Lists over the native numbers, and predicates on their elements.
use Prim.Native.Nat.{ℕ, suc}
use Prim.Native.String.{String}
use mathlib.Core.Path.{◌≡◌, refl, subst}
use mathlib.Core.Logic.{◌⊎◌, inl, inr}
use mathlib.Core.Bool.{Bool, true, false, ◌||◌}
use mathlib.Core.Option.{Option, none, some}
use mathlib.Core.List.{List, [], ◌∷◌, ◌++◌, Mem, mem-cons_self, mem-cons_of_mem}
use text.Mathlib.Text.{◌==◌}
use text.Mathlib.TextEquality.{eq_iff}
use oadp_non_admin.Base.Tests.{if◌then◌else◌, or_true}

module _ {ℓ} {A : Type ℓ} where
  abbrev pub length : List A → ℕ
  length [] = 0
  length (x ∷ xs) = suc (length xs)

  -- The elements that pass a test, in their order.
  abbrev pub keep : (A → Bool) → List A → List A
  keep p [] = []
  keep p (x ∷ xs) = if p x then x ∷ keep p xs else keep p xs

abbrev pub All {ℓ κ} : {A : Type ℓ} → (A → Type κ) → List A → Type κ
All P [] = Unit
All P (x ∷ xs) = P x × All P xs

pub All-map {ℓ κ μ} :
    {A : Type ℓ} (P : A → Type κ) (Q : A → Type μ) (xs : List A)
    → ((x : A) → P x → Q x)
    → All P xs
    → All Q xs
All-map P Q [] f a = tt
All-map P Q (x ∷ xs) f a = (f x a.0, All-map P Q xs f a.1)

-- What every element of a list satisfies that passes a test, its filtered list satisfies.
pub keep-All {ℓ κ} :
    {A : Type ℓ} (P : A → Type κ) (p : A → Bool) (xs : List A)
    → ((x : A) → Mem x xs → p x ≡ true → P x)
    → All P (keep p xs)
keep-All P p [] f = tt
keep-All P p (x ∷ xs) f =
    first (p x) (λ e. f x mem-cons_self e) (keep-All P p xs (λ y m. f y (mem-cons_of_mem x m)))
  where
    first :
        (b : Bool)
        → (b ≡ true → P x)
        → All P (keep p xs)
        → All P (if b then x ∷ keep p xs else keep p xs)
    first true g a = (g refl, a)
    first false g a = a

pub All-append {ℓ κ} :
    {A : Type ℓ} (P : A → Type κ) (xs : List A) (x : A) → All P xs → P x → All P (xs ++ (x ∷ []))
All-append P [] x a p = (p, tt)
All-append P (y ∷ xs) x a p = (a.0, All-append P xs x a.1 p)

-- `slices.Contains` on strings.
abbrev pub contains : List String → String → Bool
contains [] s = false
contains (x ∷ xs) s = x == s || contains xs s

pub contains-All {κ} :
    (P : String → Type κ) (xs : List String) (s : String) → contains xs s ≡ true → All P xs → P s
contains-All P [] s e a = absurd (cc e)
contains-All P (x ∷ xs) s e a = elim (or_true (x == s) (contains xs s) e) [
  | inl q ↦ subst P ((eq_iff x s).0 q) a.0
  | inr q ↦ contains-All P xs s q a.1
]

-- A Go map from strings, as an association list whose first entry for a key counts.
module _ {ℓ} {V : Type ℓ} where
  abbrev pub lookup : String → List (String × V) → Option V
  lookup k [] = none
  lookup k ((j, v) ∷ m) = if j == k then some v else lookup k m

  found_or_behind :
      (b : Bool) (y x : V) (o : Option V)
      → (if b then some y else o) ≡ some x
      → ((b ≡ true) × (y ≡ x)) ⊎ (o ≡ some x)
  found_or_behind true y x o e = inl (refl, cc e)
  found_or_behind false y x o e = inr e

  pub lookup-All {κ} :
      (P : String → V → Type κ) (k : String) (x : V) (m : List (String × V))
      → lookup k m ≡ some x
      → All (λ e. P e.0 e.1) m
      → P k x
  lookup-All P k x [] e a = absurd (cc e)
  lookup-All P k x ((j, y) ∷ m) e a = elim (found_or_behind (j == k) y x (lookup k m) e) [
    | inl (q, d) ↦ subst (λ z. P z x) ((eq_iff j k).0 q) (subst (λ z. P j z) d a.0)
    | inr d ↦ lookup-All P k x m d a.1
  ]
