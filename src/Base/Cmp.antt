-- ===== src/Base/Cmp.antt =====
-- The `int` of a C comparison, of which the callers read only the sign, and `strcmp`.
-- `lt`, `eq` and `gt` stand for a negative number, zero and a positive number.
use Prim.Native.Nat.{ℕ, compare, Ordering}
use Prim.Native.Char.{code}
use Prim.Native.String.{String}
use mathlib.Core.Path.{◌≡◌, refl}
use mathlib.Core.Logic.{◌↔◌, ◌⊎◌, inl, inr}
use mathlib.Core.Bool.{Bool, true, false}
use mathlib.Core.List.{List, [], ◌∷◌}
use native.Mathlib.Omega.{arith}

-- A string is the list of its bytes, without the final NUL.
abbrev pub Str : Type 0
Str = List ℕ

abbrev pub codes : String → Str
codes String.[] = []
codes (String.◌∷◌ c s) = code c ∷ codes s

abbrev pub flip : Ordering → Ordering
flip Ordering.lt = Ordering.gt
flip Ordering.eq = Ordering.eq
flip Ordering.gt = Ordering.lt

abbrev pub is_eq : Ordering → Bool
is_eq Ordering.eq = true
is_eq _ = false

abbrev pub is_lt : Ordering → Bool
is_lt Ordering.lt = true
is_lt _ = false

abbrev pub is_gt : Ordering → Bool
is_gt Ordering.gt = true
is_gt _ = false

-- `a`, unless it is zero, and then `b`.
abbrev pub or_then : Ordering → Ordering → Ordering
or_then Ordering.eq b = b
or_then a b = a

unfoldable pub strcmp : Str → Str → Ordering
strcmp [] [] = Ordering.eq
strcmp [] (y ∷ ys) = Ordering.lt
strcmp (x ∷ xs) [] = Ordering.gt
strcmp (x ∷ xs) (y ∷ ys) = or_then (compare x y) (strcmp xs ys)

unfoldable pub str_eq : Str → Str → Bool
unfolding strcmp
str_eq a b = is_eq (strcmp a b)

pub compare-flip : (a b : ℕ) → compare b a ≡ flip (compare a b)
compare-flip a b = ground arith

pub flip-or_then : (a b : Ordering) → flip (or_then a b) ≡ or_then (flip a) (flip b)
flip-or_then Ordering.lt b = refl
flip-or_then Ordering.eq b = refl
flip-or_then Ordering.gt b = refl

pub strcmp-flip : (a b : Str) → strcmp b a ≡ flip (strcmp a b)
unfolding strcmp
strcmp-flip [] [] = refl
strcmp-flip [] (y ∷ ys) = refl
strcmp-flip (x ∷ xs) [] = refl
strcmp-flip (x ∷ xs) (y ∷ ys) = rw (compare-flip x y, strcmp-flip xs ys, flip-or_then)

pub compare_self : (a : ℕ) → compare a a ≡ Ordering.eq
compare_self a = ground arith

pub strcmp_self : (a : Str) → strcmp a a ≡ Ordering.eq
unfolding strcmp
strcmp_self [] = refl
strcmp_self (x ∷ xs) = rw (compare_self x, strcmp_self xs)

pub eq_of_strcmp : (a b : Str) → strcmp a b ≡ Ordering.eq → a ≡ b
unfolding strcmp
eq_of_strcmp [] [] h = refl
eq_of_strcmp [] (y ∷ ys) h = cc
eq_of_strcmp (x ∷ xs) [] h = cc
eq_of_strcmp (x ∷ xs) (y ∷ ys) h = ground (arith, eq_of_strcmp xs ys)

pub strcmp_trans :
    (a b c : Str) → strcmp a b ≡ Ordering.lt → strcmp b c ≡ Ordering.lt → strcmp a c ≡ Ordering.lt
unfolding strcmp
strcmp_trans [] [] c p q = cc
strcmp_trans [] (y ∷ ys) [] p q = cc
strcmp_trans [] (y ∷ ys) (z ∷ zs) p q = refl
strcmp_trans (x ∷ xs) [] c p q = cc
strcmp_trans (x ∷ xs) (y ∷ ys) [] p q = cc
strcmp_trans (x ∷ xs) (y ∷ ys) (z ∷ zs) p q = ground (arith, strcmp_trans xs ys zs)

pub str_eq_iff : (a b : Str) → (str_eq a b ≡ true) ↔ (a ≡ b)
unfolding str_eq
str_eq_iff a b = (λ h. eq_of_strcmp a b (ground arith), λ e. rw (e, strcmp_self b))

pub Ordering-cases : (r : Ordering) → (r ≡ Ordering.lt) ⊎ ((r ≡ Ordering.eq) ⊎ (r ≡ Ordering.gt))
Ordering-cases Ordering.lt = inl refl
Ordering-cases Ordering.eq = inr (inl refl)
Ordering-cases Ordering.gt = inr (inr refl)
