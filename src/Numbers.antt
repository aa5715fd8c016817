-- ===== src/Numbers.antt =====
-- Numbers in text, `_alpm_strtoofft` and `_alpm_parsedate` of lib/libalpm/util.c. `strtoull`, `strtoll`
-- and `%jd` of the C library are written out as far as they are used, in the C locale: `off_t`,
-- `intmax_t` and `long long` have 64 bits.
pub mod Decimal
mod Tests
use dulge.Base.{
  ℕ, zero, suc, ◌+◌, ◌-◌, ◌*◌, ◌/◌, ◌%◌, ◌^◌, Bool, true, false, not, ◌||◌, ◌&&◌, [], ◌∷◌, Str, ltb,
  leb, ◌==◌, if◌then◌else◌,
}
use dulge.Version.{is_digit, take_while, drop_while}

pub data ℤ : Type 0 where
  pos : ℕ → ℤ
  negsuc : ℕ → ℤ

-- The number that digits spell behind `n`.
abbrev pub number : ℕ → Str → ℕ
number n [] = n
number n (c ∷ s) = number (n * 10 + (c - b'0')) s

-- (off_t)result, for an `unsigned long long`
abbrev pub to_off : ℕ → ℤ
to_off result = if ltb result (2 ^ 63) then pos result else negsuc (2 ^ 64 - 1 - result)

-- `strtoull` saturates, with ERANGE, from 2 ^ 64 on; `end` is what stands behind the digits.
abbrev pub off_result : ℕ → Str → ℤ
off_result result [] = if leb (2 ^ 64) result then negsuc 0 else to_off result
off_result result (d ∷ end) = negsuc 0

-- `_alpm_strtoofft`
unfoldable pub strtoofft : Str → ℤ
strtoofft [] = negsuc 0
strtoofft (c ∷ line) =
    if is_digit c
    then off_result (number 0 (take_while is_digit (c ∷ line))) (drop_while is_digit (c ∷ line))
    else negsuc 0

-- isspace
abbrev pub is_space : ℕ → Bool
is_space c = c == 32 || leb 9 c && leb c 13

-- The integer with that sign and absolute value.
abbrev pub signed : Bool → ℕ → ℤ
signed negative zero = pos 0
signed negative (suc n) = if negative then negsuc n else pos (suc n)

-- A number that does not fit, or is followed by anything, or none, comes to 0.
abbrev pub date_result : Bool → ℕ → Str → ℤ
date_result negative result [] =
    if ltb (if negative then 2 ^ 63 else 2 ^ 63 - 1) result then pos 0 else signed negative result
date_result negative result (d ∷ end) = pos 0

-- What `strtoll` makes of the digits behind the sign.
abbrev pub date_of : Bool → Str → ℤ
date_of negative s = date_result negative (number 0 (take_while is_digit s)) (drop_while is_digit s)

-- The sign.
abbrev pub signed_date : Str → ℤ
signed_date [] = pos 0
signed_date (c ∷ s) =
    if c == b'-'
    then date_of true s
    else if c == b'+'
    then date_of false s
    else date_of false (c ∷ s)

-- `_alpm_parsedate`
unfoldable pub parsedate : Str → ℤ
parsedate line = signed_date (drop_while is_space line)

-- The decimal digits of a number, in front of `out`.
unfoldable pub digits_onto : ℕ → ℕ → Str → Str
digits_onto zero n out = out
digits_onto (suc fuel) n out =
    let out' = (b'0' + n % 10) ∷ out in
    let rest = digits_onto fuel (n / 10) out' in if n / 10 == 0 then out' else rest

unfoldable pub decimal : ℕ → Str
unfolding digits_onto
decimal n = digits_onto (suc n) n []

-- `%jd`
unfoldable pub print_int : ℤ → Str
unfolding decimal
print_int (pos n) = decimal n
print_int (negsuc n) = b'-' ∷ decimal (suc n)
