-- ===== src/Version/Number.antt =====
-- The values of numeric segments.
use dulge.Base.{
  ℕ, ◌+◌, ◌-◌, ◌*◌, ◌^◌, ◌≤◌, ◌<◌, compare, Ordering, ◌≡◌, refl, ◌⊎◌, inl, inr, Bool, true, false,
  [], ◌∷◌, Str, length, ◌==◌, or_then, strcmp, Bool-cases, arith, sym, ◌∙◌,
}
use mathlib.Core.Path.{ap₂}
use native.Mathlib.Nat.{pow-suc, mul-le-mul_right, pow-le-pow_right}
use dulge.Version.{is_digit, drop_while, compare_numeric}
use dulge.Version.Order.{drop_while_head}

abbrev pub Digits : Str → Type 0
Digits [] = Unit
Digits (c ∷ s) = (is_digit c ≡ true) × Digits s

-- The number that a string of decimal digits denotes.
abbrev pub value : Str → ℕ
value [] = 0
value (c ∷ s) = (c - b'0') * 10 ^ length s + value s

ℕ-cases : (a b : ℕ) → (a < b) ⊎ ((b < a) ⊎ (a ≡ b))
ℕ-cases a b = ground arith

compare_self : (a : ℕ) → compare a a ≡ Ordering.eq
compare_self a = ground arith

value_lt : (s : Str) → Digits s → value s < 10 ^ length s
value_lt [] h = omega arith
value_lt (c ∷ s) h =
    let ih = value_lt s h.1 in let d : c - b'0' ≤ 9 = ground arith in rw pow-suc (grind arith)

value_ge :
    (c : ℕ) (s : Str) → is_digit c ≡ true → (c == b'0') ≡ false → 10 ^ length s ≤ value (c ∷ s)
value_ge c s h k = let d : 1 ≤ c - b'0' = ground arith in grind arith

scaled : (m n u v w : ℕ) → u < w → m < n → m * w + u < n * w + v
scaled m n u v w h k = omega (arith, mul-le-mul_right w k)

compare_lt : (a b : ℕ) → a < b → compare a b ≡ Ordering.lt
compare_lt a b h = ground arith

compare_gt : (a b : ℕ) → b < a → compare a b ≡ Ordering.gt
compare_gt a b h = ground arith

compare_add : (k a b : ℕ) → compare (k + a) (k + b) ≡ compare a b
compare_add k a b = ground arith

strcmp-value :
    (a b : Str)
    → Digits a
    → Digits b
    → length a ≡ length b
    → strcmp a b ≡ compare (value a) (value b)
unfolding strcmp
strcmp-value [] [] p q e = refl
strcmp-value [] (d ∷ b) p q e = absurd (omega arith)
strcmp-value (c ∷ a) [] p q e = absurd (omega arith)
strcmp-value (c ∷ a) (d ∷ b) p q e =
    let e' : length a ≡ length b = omega arith in
    let ih = strcmp-value a b p.1 q.1 e' in
    let la = value_lt a p.1 in
    let lb = rw (← e') at (value_lt b q.1) in
    let hc : b'0' ≤ c = ground arith in
    let hd : b'0' ≤ d = ground arith in
    elim (ℕ-cases c d) [
      | inl l ↦
          rw (compare_lt c d l, ← e')
            (sym (
              compare_lt _ _ (scaled (c - b'0') (d - b'0') (value a) (value b) _ la (omega arith))))
      | inr (inl l) ↦
          rw (compare_gt c d l, ← e')
            (sym (
              compare_gt _ _ (scaled (d - b'0') (c - b'0') (value b) (value a) _ lb (omega arith))))
      | inr (inr l) ↦ rw (l, compare_self d, ← e', compare_add) ih
    ]

strip : Str → Str
strip = drop_while (λ c. c == b'0')

strip-Digits : (s : Str) → Digits s → Digits (strip s)
unfolding strip
strip-Digits [] h = h
strip-Digits (c ∷ s) h = elim (Bool-cases (c == b'0')) [
  | inl e ↦ rw e (strip-Digits s h.1)
  | inr e ↦ rw e h
]

strip-value : (s : Str) → value (strip s) ≡ value s
unfolding strip
strip-value [] = refl
strip-value (c ∷ s) = elim (Bool-cases (c == b'0')) [
  | inl e ↦ let z : c ≡ b'0' = ground arith in rw e (strip-value s ∙ rw z (omega arith))
  | inr e ↦ rw e
]

-- Of two numbers with no leading zero the longer is greater.
shorter_lt :
    (a b : Str)
    → Digits a
    → Digits b
    → ((c : ℕ) (r : Str) → b ≡ c ∷ r → (c == b'0') ≡ false)
    → length a < length b
    → value a < value b
shorter_lt a [] p q z h = absurd (omega arith)
shorter_lt a (d ∷ b) p q z h =
    let below = value_lt a p in
    let above = value_ge d b q.0 (z d b refl) in
    let mid : 10 ^ length a ≤ 10 ^ length b = pow-le-pow_right (omega arith) (omega arith) in
    omega arith

compare_stripped :
    (a b : Str)
    → Digits a
    → Digits b
    → ((c : ℕ) (r : Str) → a ≡ c ∷ r → (c == b'0') ≡ false)
    → ((c : ℕ) (r : Str) → b ≡ c ∷ r → (c == b'0') ≡ false)
    → or_then (compare (length a) (length b)) (strcmp a b) ≡ compare (value a) (value b)
compare_stripped a b p q y z = elim (ℕ-cases (length a) (length b)) [
  | inl l ↦ rw (compare_lt _ _ l) (sym (compare_lt _ _ (shorter_lt a b p q z l)))
  | inr (inl l) ↦ rw (compare_gt _ _ l) (sym (compare_gt _ _ (shorter_lt b a q p y l)))
  | inr (inr l) ↦ rw (l, compare_self (length b)) (strcmp-value a b p q l)
]

-- Two segments of digits, however long and with any number of leading zeros, compare as the
-- numbers that they denote.
pub compare_numeric-value :
    (a b : Str) → Digits a → Digits b → compare_numeric a b ≡ compare (value a) (value b)
unfolding compare_numeric strip
compare_numeric-value a b p q =
    let zero? : ℕ → Bool = λ c. c == b'0' in
    compare_stripped (strip a) (strip b) (strip-Digits a p) (strip-Digits b q)
      (drop_while_head zero? a) (drop_while_head zero? b)
    ∙ ap₂ compare (strip-value a) (strip-value b)
