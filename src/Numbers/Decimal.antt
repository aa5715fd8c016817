-- ===== src/Numbers/Decimal.antt =====
-- Numbers that are printed and read back, as in lib/libalpm/util.c and lib/libalpm/be_local.c.
use dulge.Base.{
  ℕ, zero, suc, ◌+◌, ◌-◌, ◌*◌, ◌/◌, ◌%◌, ◌^◌, ◌≤◌, ◌<◌, ◌≡◌, refl, sym, ap, ◌∙◌, Bool, true, false,
  [], ◌∷◌, Str, ltb, leb, ◌==◌, if◌then◌else◌, arith, inl, inr, Bool-cases, length, ◌≢◌, subst,
  if_true, if_false,
}
use dulge.Numbers.{
  ℤ, pos, negsuc, number, to_off, strtoofft, is_space, signed, off_result, date_result, date_of,
  parsedate, digits_onto, decimal, print_int,
}
use dulge.Version.{is_digit, drop_while}
use dulge.Version.Parse.{All, Without, take_while-All, drop_while-All}

number-digits_onto :
    (fuel n : ℕ) (out : Str) → n < fuel → number 0 (digits_onto fuel n out) ≡ number n out
unfolding digits_onto
number-digits_onto zero n out h = absurd (omega arith)
number-digits_onto (suc fuel) n out h = elim (Bool-cases (n / 10 == 0)) [
  | inl e ↦ rw e (ap (λ m. number m out) (ground arith))
  | inr e ↦ rw e (
      number-digits_onto fuel (n / 10) ((b'0' + n % 10) ∷ out) (ground arith)
      ∙ ap (λ m. number m out) (omega arith))
]

digits_onto-All :
    (fuel n : ℕ) (out : Str) → All is_digit out → All is_digit (digits_onto fuel n out)
unfolding digits_onto
digits_onto-All zero n out h = h
digits_onto-All (suc fuel) n out h =
    let here : is_digit (b'0' + n % 10) ≡ true = ground arith in
    elim (Bool-cases (n / 10 == 0)) [
      | inl e ↦ rw e (here, h)
      | inr e ↦ rw e (digits_onto-All fuel (n / 10) ((b'0' + n % 10) ∷ out) (here, h))
    ]

pub number-decimal : (n : ℕ) → number 0 (decimal n) ≡ n
unfolding decimal
number-decimal n = number-digits_onto (suc n) n [] (omega arith)

pub decimal-All : (n : ℕ) → All is_digit (decimal n)
unfolding decimal
decimal-All n = digits_onto-All (suc n) n [] tt

digits_onto-cons :
    (fuel n c : ℕ) (out : Str) → (d : ℕ) × (s : Str) × (digits_onto fuel n (c ∷ out) ≡ d ∷ s)
unfolding digits_onto
digits_onto-cons zero n c out = (c, out, refl)
digits_onto-cons (suc fuel) n c out = elim (Bool-cases (n / 10 == 0)) [
  | inl e ↦ rw e (b'0' + n % 10, c ∷ out, refl)
  | inr e ↦ rw e (digits_onto-cons fuel (n / 10) (b'0' + n % 10) (c ∷ out))
]

-- A number has a first digit.
pub decimal-cons : (n : ℕ) → (d : ℕ) × (s : Str) × (decimal n ≡ d ∷ s)
unfolding decimal digits_onto
decimal-cons n = elim (Bool-cases (n / 10 == 0)) [
  | inl e ↦ rw e (b'0' + n % 10, [], refl)
  | inr e ↦ rw e (digits_onto-cons n (n / 10) (b'0' + n % 10) [])
]

is_digit_space : (c : ℕ) → is_digit c ≡ true → is_space c ≡ false
is_digit_space c h = ground arith

is_digit_sign : (c : ℕ) → is_digit c ≡ true → ((c == b'-') ≡ false) × ((c == b'+') ≡ false)
is_digit_sign c h = (ground arith, ground arith)

-- A string of digits that is not empty.
strtoofft-All :
    (s : Str)
    → s ≢ []
    → All is_digit s
    → strtoofft s ≡ (if leb (2 ^ 64) (number 0 s) then negsuc 0 else to_off (number 0 s))
unfolding strtoofft
strtoofft-All [] n h = absurd (n refl)
strtoofft-All (c ∷ s) n h =
    if_true (is_digit c) _ _ h.0
    ∙ (ap (λ t. off_result (number 0 t) (drop_while is_digit (c ∷ s)))
          (take_while-All is_digit (c ∷ s) h)
        ∙ ap (off_result (number 0 (c ∷ s))) (drop_while-All is_digit (c ∷ s) h))

decimal-nonempty : (n : ℕ) → decimal n ≢ []
decimal-nonempty n e = let (d, s, q) = decimal-cons n in clash (sym q ∙ e)
  where
    clash : {d : ℕ} {s : Str} → d ∷ s ≡ [] → ⊥
    clash r = cc

-- `_alpm_strtoofft` of the decimal digits of a number: the number, if it is below 2 ^ 63; a negative
-- number, less by 2 ^ 64, from there up to 2 ^ 64; and -1 from there on.
pub strtoofft-decimal :
    (n : ℕ)
    → strtoofft (decimal n) ≡ (
        if ltb n (2 ^ 63)
        then pos n
        else if ltb n (2 ^ 64)
        then negsuc (2 ^ 64 - 1 - n)
        else negsuc 0)
strtoofft-decimal n =
    strtoofft-All (decimal n) (decimal-nonempty n) (decimal-All n) ∙ rw (number-decimal n) (cases n)
  where
    cases :
        (n : ℕ)
        → (if leb (2 ^ 64) n then negsuc 0 else to_off n) ≡ (
            if ltb n (2 ^ 63)
            then pos n
            else if ltb n (2 ^ 64)
            then negsuc (2 ^ 64 - 1 - n)
            else negsuc 0)
    cases n = ground arith

abbrev pub InRange : ℤ → Type 0
InRange (pos n) = n < 2 ^ 63
InRange (negsuc n) = n < 2 ^ 63

date_of-decimal :
    (negative : Bool) (n : ℕ)
    → n ≤ (if negative then 2 ^ 63 else 2 ^ 63 - 1)
    → date_of negative (decimal n) ≡ signed negative n
date_of-decimal negative n h =
    let all = decimal-All n in
    ap (λ t. date_result negative (number 0 t) (drop_while is_digit (decimal n)))
      (take_while-All is_digit (decimal n) all)
    ∙ (ap (date_result negative (number 0 (decimal n))) (drop_while-All is_digit (decimal n) all)
        ∙ (ap (λ m. date_result negative m []) (number-decimal n)
            ∙ if_false (ltb (if negative then 2 ^ 63 else 2 ^ 63 - 1) n) _ _
                (fits (if negative then 2 ^ 63 else 2 ^ 63 - 1) n h)))
  where
    fits : (bound n : ℕ) → n ≤ bound → ltb bound n ≡ false
    fits bound n h = ground arith

-- `_alpm_parsedate` reads back what `%jd` prints, for every integer of 64 bits.
pub parsedate-print_int : (z : ℤ) → InRange z → parsedate (print_int z) ≡ z
unfolding parsedate print_int
parsedate-print_int (pos n) h =
    let (d, s, q) = decimal-cons n in
    let digit : is_digit d ≡ true = (subst (All is_digit) q (decimal-All n)).0 in
    ap parsedate q
    ∙ (rw (is_digit_space d digit)
          (rw ((is_digit_sign d digit).0, (is_digit_sign d digit).1) (ap (date_of false) (sym q)))
        ∙ (date_of-decimal false n (omega (arith, h)) ∙ unsigned n))
  where
    unsigned : (n : ℕ) → signed false n ≡ pos n
    unsigned zero = refl
    unsigned (suc n) = refl
parsedate-print_int (negsuc n) h = date_of-decimal true (suc n) (omega (arith, h))

-- Ten to a power.
abbrev tens : ℕ → ℕ
tens zero = 1
tens (suc k) = 10 * tens k

length-digits_onto :
    (k fuel n : ℕ) (out : Str)
    → n < 10 * tens k
    → length (digits_onto fuel n out) ≤ suc k + length out
unfolding digits_onto
length-digits_onto k zero n out h = omega arith
length-digits_onto k (suc fuel) n out h = elim (Bool-cases (n / 10 == 0)) [
  | inl e ↦ rw e (omega arith)
  | inr e ↦ rw e (less k h e (λ j m. length-digits_onto j fuel (n / 10) ((b'0' + n % 10) ∷ out) m))
]
  where
    less :
        (k : ℕ)
        → n < 10 * tens k
        → (n / 10 == 0) ≡ false
        → ((j : ℕ)
            → n / 10 < 10 * tens j
            → length (digits_onto fuel (n / 10) ((b'0' + n % 10) ∷ out)) ≤ suc j + suc (length out))
        → length (digits_onto fuel (n / 10) ((b'0' + n % 10) ∷ out)) ≤ suc k + length out
    less zero h e rec = absurd (ground (arith, h, e))
    less (suc k) h e rec = omega (arith, rec k (omega (arith, h)))

pub length-print_int : (z : ℤ) → InRange z → length (print_int z) ≤ 20
unfolding print_int decimal
length-print_int (pos n) h = omega (arith, h, length-digits_onto 18 (suc n) n [] (omega (arith, h)))
length-print_int (negsuc n) h =
    omega (arith, h, length-digits_onto 18 (suc (suc n)) (suc n) [] (omega (arith, h)))

Without-All : (s : Str) → All is_digit s → Without b'\n' s
Without-All [] h = tt
Without-All (c ∷ s) h = (ground arith, Without-All s h.1)

pub print_int-Without : (z : ℤ) → Without b'\n' (print_int z)
unfolding print_int
print_int-Without (pos n) = Without-All (decimal n) (decimal-All n)
print_int-Without (negsuc n) = (refl, Without-All (decimal (suc n)) (decimal-All (suc n)))
