-- ===== src/Function/Bounds.antt =====
-- How long the generated names are.
use Prim.Native.Char.{Char, len_utf8}
use Prim.Native.Nat.{compare, Ordering}
use Prim.Native.String.{[], ◌∷◌, slice, fits}
use Prim.Native.String.len
use Prim.Native.String.slice
use oadp_non_admin.Base.{
  ℕ, zero, ◌+◌, ◌-◌, ◌≤◌, ◌<◌, String, len, ◌+s◌, ◌≡◌, ◌≢◌, refl, sym, ◌∙◌, ap, subst, some, ltb,
  leb, arith, len-append, inl, inr, ◌⊎◌, true, false, if◌then◌else◌, suc,
}
use oadp_non_admin.Constant.{maximum_nac_object_name_length, name_delimiter}
use oadp_non_admin.Kube.Vendor.{Vendor}
use oadp_non_admin.Function.Names.{prefix, join_name, shorten, nac_object_name}

ltb_cases : (a b : ℕ) → ((ltb a b ≡ true) × (a < b)) ⊎ ((ltb a b ≡ false) × (b ≤ a))
ltb_cases a b = ground arith

ltb-false : (a b : ℕ) → b ≤ a → ltb a b ≡ false
ltb-false a b h = ground arith

lt_le : (a b : ℕ) → a < b → a ≤ b
lt_le a b h = omega arith

leb-true : (a b : ℕ) → a ≤ b → leb a b ≡ true
leb-true a b h = ground arith

fit : (c r k : ℕ) → c ≤ k → r ≤ k - c → c + r ≤ k
fit c r k h g = omega arith

-- A character that fits in `k` bytes, with a text that fits behind it.
len-fits :
    (o : Ordering) (c : Char) (r : String) (k : ℕ)
    → ((o ≢ Ordering.gt) → len_utf8 c ≤ k)
    → len r ≤ k - len_utf8 c
    → len (fits o c r) ≤ k
len-fits Ordering.lt c r k f h =
    subst (λ n. n ≤ k) (sym (len.cons c r)) (fit (len_utf8 c) (len r) k (f (λ e. cc)) h)
len-fits Ordering.eq c r k f h =
    subst (λ n. n ≤ k) (sym (len.cons c r)) (fit (len_utf8 c) (len r) k (f (λ e. cc)) h)
len-fits Ordering.gt c r k f h = subst (λ n. n ≤ k) (sym len.nil) (omega arith)

not_gt : (a b : ℕ) → compare a b ≢ Ordering.gt → a ≤ b
not_gt a b h = ground arith

len-slice : (s : String) (k : ℕ) → len (slice s 0 k) ≤ k
len-slice [] k =
    subst (λ t. len t ≤ k) (sym (slice.nil 0 k)) (subst (λ n. n ≤ k) (sym len.nil) (omega arith))
len-slice (c ∷ s) k =
    subst (λ t. len t ≤ k) (sym (slice.cons-zero c s k))
      (len-fits (compare (len_utf8 c) k) c _ k (not_gt (len_utf8 c) k)
        (len-slice s (k - len_utf8 c)))

-- A cut that is not out of range.
cut : (s : String) (k : ℕ) → k ≤ len s → (t : String) × (prefix s k ≡ some t) × (len t ≤ k)
unfolding prefix
cut s k h = (slice s 0 k, rw (leb-true k (len s) h) refl, len-slice s k)

len-delimited : (s t : String) → len (s +s (name_delimiter +s t)) ≡ len s + 1 + len t
len-delimited s t = rw (len-append s (name_delimiter +s t), len-append name_delimiter t) omega arith

abbrev one_if : ℕ → ℕ
one_if zero = 0
one_if (suc n) = 1

one_if_pos : (n : ℕ) → 0 < n → one_if n ≡ 1
one_if_pos zero h = omega arith
one_if_pos (suc n) h = refl

one_if_le : (n : ℕ) → one_if n ≤ n
one_if_le zero = omega arith
one_if_le (suc n) = omega arith

none_left : (n : ℕ) → n ≤ 0 → n ≡ 0
none_left n h = omega arith

one_if_le_one : (n : ℕ) → one_if n ≤ 1
one_if_le_one zero = omega arith
one_if_le_one (suc n) = omega arith

-- A part that goes in front with its delimiter, unless it is empty.
abbrev in_front : String → String → String
in_front s t = if ltb 0 (len s) then s +s (name_delimiter +s t) else t

len-in_front : (s t : String) → len (in_front s t) ≡ len s + one_if (len s) + len t
len-in_front s t = elim (ltb_cases 0 (len s)) [
  | inl e ↦ rw (e.0, len-delimited s t, one_if_pos (len s) e.1) refl
  | inr e ↦ rw (e.0, none_left (len s) e.1) omega arith
]

len-join_name :
    (namespace name uuid : String)
    → len (join_name namespace name uuid)
      ≡ len namespace + one_if (len namespace) + (len name + one_if (len name) + len uuid)
unfolding join_name
len-join_name namespace name uuid =
    len-in_front namespace (in_front name uuid)
    ∙ ap (λ n. len namespace + one_if (len namespace) + n) (len-in_front name uuid)

-- The room that the cut name needs, where the namespace fits.
long_name : (u n a m : ℕ) → m < n + one_if n + (a + one_if a + u) → m - u - n - 2 ≤ a
long_name u n a m l = let p = one_if_le_one n in let q = one_if_le_one a in omega arith

room_behind : (u t m : ℕ) → u + 2 ≤ m → t ≤ m - u - 2 → t + 1 + u ≤ m
room_behind u t m h k = omega arith

room_between :
    (u n t m : ℕ)
    → u + 2 ≤ m
    → n ≤ m - u - 2
    → t ≤ m - u - n - 2
    → n + one_if n + (t + one_if t + u) ≤ m
room_between u n t m h k l = let p = one_if_le_one n in let q = one_if_le_one t in omega arith

at_most : (a b m : ℕ) → a ≡ b → b ≤ m → a ≤ m
at_most a b m e h = omega arith

module _ ⦃v : Vendor⦄ where
  abbrev max : ℕ
  max = maximum_nac_object_name_length

  shorten_bounded :
      (uuid namespace nac_name : String)
      → len uuid + 2 ≤ max
      → max < len (join_name namespace nac_name uuid)
      → (s : String) × (shorten uuid namespace nac_name (max - len uuid) ≡ some s) × (len s ≤ max)
  unfolding shorten
  shorten_bounded uuid namespace nac_name h l =
      elim (ltb_cases (max - len uuid - 2) (len namespace)) [
        | inl e ↦
            let c = cut namespace (max - len uuid - 2) (lt_le _ _ e.1) in
            (
              c.0 +s (name_delimiter +s uuid),
              rw (ltb-false max (len uuid + 2) h, e.0, c.1) refl,
              at_most _ _ max (len-delimited c.0 uuid) (room_behind (len uuid) _ max h c.2),
            )
        | inr e ↦
            let c = cut nac_name (max - len uuid - len namespace - 2) (
              long_name (len uuid) (len namespace) (len nac_name) max
                (rw (len-join_name namespace nac_name uuid) at l)) in
            (
              join_name namespace c.0 uuid,
              rw (ltb-false max (len uuid + 2) h, e.0, c.1) refl,
              at_most _ _ max (len-join_name namespace c.0 uuid)
                  (room_between (len uuid) (len namespace) (len c.0) max h e.1 c.2),
            )
      ]

  -- Where the UUID and two delimiters fit into the maximum length, `GenerateNacObjectUUID` cuts no
  -- slice out of range, whatever the namespace and the name, and the name that it returns is no
  -- longer than the maximum.
  pub nac_object_name_bounded :
      (uuid namespace nac_name : String)
      → len uuid + 2 ≤ max
      → (s : String) × (nac_object_name uuid namespace nac_name ≡ some s) × (len s ≤ max)
  unfolding nac_object_name
  nac_object_name_bounded uuid namespace nac_name h =
      elim (ltb_cases max (len (join_name namespace nac_name uuid))) [
        | inr e ↦ (join_name namespace nac_name uuid, rw e.0 refl, e.1)
        | inl e ↦ let (s, p, q) = shorten_bounded uuid namespace nac_name h e.1 in (s, rw e.0 p, q)
      ]
