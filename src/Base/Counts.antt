-- ===== src/Base/Counts.antt =====
-- How many elements of a list pass a test.
use Prim.Native.Nat.{ℕ, suc, ◌≤◌, ◌<◌}
use mathlib.Core.Path.{◌≡◌, refl}
use mathlib.Core.Bool.{Bool, true, false}
use mathlib.Core.List.{List, [], ◌∷◌, ◌++◌}
use native.Mathlib.Omega.{arith}
use oadp_non_admin.Base.Tests.{if◌then◌else◌}
use oadp_non_admin.Base.Lists.{length, keep}

le_lt : (a b : ℕ) → a ≤ b → a < suc b
le_lt a b h = omega arith

module _ {A : Type 0} (p q : A → Bool) (implies : (x : A) → p x ≡ true → q x ≡ true) where
  -- One element in front.
  in_front :
      (x : A) (xs ys : List A) (a b : Bool)
      → (a ≡ true → b ≡ true)
      → length xs ≤ length ys
      → length (if a then x ∷ xs else xs) ≤ length (if b then x ∷ ys else ys)
  in_front x xs ys true true i h = omega arith
  in_front x xs ys true false i h = absurd (cc (i refl))
  in_front x xs ys false true i h = omega arith
  in_front x xs ys false false i h = h

  in_front_strictly :
      (x : A) (xs ys : List A) (a b : Bool)
      → (a ≡ true → b ≡ true)
      → length xs < length ys
      → length (if a then x ∷ xs else xs) < length (if b then x ∷ ys else ys)
  in_front_strictly x xs ys true true i h = omega arith
  in_front_strictly x xs ys true false i h = absurd (cc (i refl))
  in_front_strictly x xs ys false true i h = omega arith
  in_front_strictly x xs ys false false i h = h

  pub keep_mono : (xs : List A) → length (keep p xs) ≤ length (keep q xs)
  keep_mono [] = omega arith
  keep_mono (x ∷ xs) = in_front x _ _ (p x) (q x) (implies x) (keep_mono xs)

  pub keep_mono_strictly :
      (xs ys : List A) (x : A)
      → p x ≡ false
      → q x ≡ true
      → length (keep p (xs ++ (x ∷ ys))) < length (keep q (xs ++ (x ∷ ys)))
  keep_mono_strictly [] ys x e f = rw (e, f) (le_lt _ _ (keep_mono ys))
  keep_mono_strictly (y ∷ xs) ys x e f =
      in_front_strictly y _ _ (p y) (q y) (implies y) (keep_mono_strictly xs ys x e f)
