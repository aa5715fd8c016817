-- ===== src/RawStr/Laws.antt =====
-- The exchange of the arguments of `_alpm_raw_cmp`, and `_alpm_raw_ncmp` for a large `max`.
use dulge.Base.{
  compare-flip, ℕ, zero, suc, ◌<◌, ◌≡◌, refl, [], ◌∷◌, Str, length, ◌==◌, flip, arith, Bool-cases,
  inl, inr,
}
use dulge.RawStr.{raw_toupper, biased, head, compare_heads, raw_cmp, raw_ncmp}

==_comm : (m n : ℕ) → (m == n) ≡ (n == m)
==_comm m n = ground arith

compare_heads-flip : (a b : Str) → compare_heads b a ≡ flip (compare_heads a b)
compare_heads-flip a b =
    compare-flip (biased (raw_toupper (head a))) (biased (raw_toupper (head b)))

-- `_alpm_raw_cmp` with its arguments exchanged gives the opposite sign.
pub raw_cmp-flip : (a b : Str) → raw_cmp b a ≡ flip (raw_cmp a b)
unfolding raw_cmp
raw_cmp-flip [] [] = compare_heads-flip [] []
raw_cmp-flip [] (d ∷ b) = compare_heads-flip [] (d ∷ b)
raw_cmp-flip (c ∷ a) [] = compare_heads-flip (c ∷ a) []
raw_cmp-flip (c ∷ a) (d ∷ b) = elim (Bool-cases (raw_toupper c == raw_toupper d)) [
  | inl e ↦ rw (==_comm (raw_toupper d) (raw_toupper c), e) (raw_cmp-flip a b)
  | inr e ↦ rw (==_comm (raw_toupper d) (raw_toupper c), e) (compare_heads-flip (c ∷ a) (d ∷ b))
]

-- `_alpm_raw_ncmp` with a maximum above the length of its first argument is `_alpm_raw_cmp`.
pub raw_ncmp-raw_cmp : (a b : Str) (max : ℕ) → length a < max → raw_ncmp a b max ≡ raw_cmp a b
unfolding raw_ncmp raw_cmp
raw_ncmp-raw_cmp a b zero h = absurd (omega arith)
raw_ncmp-raw_cmp [] b (suc max) h = refl
raw_ncmp-raw_cmp (c ∷ a) [] (suc max) h = refl
raw_ncmp-raw_cmp (c ∷ a) (d ∷ b) (suc max) h = elim (Bool-cases (raw_toupper c == raw_toupper d)) [
  | inl e ↦ rw e (raw_ncmp-raw_cmp a b max (omega arith))
  | inr e ↦ rw e
]
