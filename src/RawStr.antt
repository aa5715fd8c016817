-- ===== src/RawStr.antt =====
-- Comparison of strings without regard to the case of a-z, lib/libalpm/rawstr.c. The C sources
-- compare characters by their difference, of which callers read the sign; `char` is signed there,
-- so that a character from 128 on is less than the end of a string.
pub mod Laws
mod Tests
use dulge.Base.{
  ℕ, zero, suc, ◌+◌, ◌-◌, Ordering, Bool, true, false, ◌&&◌, List, [], ◌∷◌, Str, ltb, leb, ◌==◌,
  if◌then◌else◌, compare,
}

abbrev pub raw_toupper : ℕ → ℕ
raw_toupper c = if leb 97 c && leb c 122 then c - 32 else c

-- A `char` and 128.
abbrev pub biased : ℕ → ℕ
biased c = if ltb c 128 then c + 128 else c - 128

-- The first character, or the null at the end.
abbrev pub head : Str → ℕ
head [] = 0
head (c ∷ s) = c

-- The sign of `raw_toupper(*first) - raw_toupper(*second)`.
abbrev pub compare_heads : Str → Str → Ordering
compare_heads first second =
    compare (biased (raw_toupper (head first))) (biased (raw_toupper (head second)))

unfoldable pub raw_cmp : Str → Str → Ordering
raw_cmp [] second = compare_heads [] second
raw_cmp (c ∷ first) [] = compare_heads (c ∷ first) []
raw_cmp (c ∷ first) (d ∷ second) =
    let rest = raw_cmp first second in
    if raw_toupper c == raw_toupper d then rest else compare_heads (c ∷ first) (d ∷ second)

unfoldable pub raw_ncmp : Str → Str → ℕ → Ordering
raw_ncmp first second zero = Ordering.eq
raw_ncmp [] second (suc max) = compare_heads [] second
raw_ncmp (c ∷ first) [] (suc max) = compare_heads (c ∷ first) []
raw_ncmp (c ∷ first) (d ∷ second) (suc max) =
    let rest = raw_ncmp first second max in
    if raw_toupper c == raw_toupper d then rest else compare_heads (c ∷ first) (d ∷ second)
