-- ===== src/Version.antt =====
-- Version comparison, lib/libalpm/version.c: `parseEVR`, `rpmvercmp`, `alpm_pkg_vercmp`.
-- A pointer into a string is the rest of the string behind it, and a segment that the code cuts
-- off by a temporary NUL is a list of its own. The character classes are those of the C locale.
pub mod Order
pub mod Number
pub mod Parse
mod Tests
use dulge.Base.{
  ℕ, zero, suc, compare, Ordering, Bool, true, false, not, ◌&&◌, ◌||◌, Option, none, some, List, [],
  ◌∷◌, ◌++◌, Str, length, ltb, leb, ◌==◌, if◌then◌else◌, is_eq, or_then, strcmp, str_eq,
}
use mathlib.Core.Option.{get_or}

abbrev pub is_digit : ℕ → Bool
is_digit c = leb b'0' c && leb c b'9'

abbrev pub is_alpha : ℕ → Bool
is_alpha c = leb b'A' c && leb c b'Z' || leb b'a' c && leb c b'z'

abbrev pub is_alnum : ℕ → Bool
is_alnum c = is_digit c || is_alpha c

abbrev pub take_while : (ℕ → Bool) → Str → Str
take_while p [] = []
take_while p (c ∷ s) = if p c then c ∷ take_while p s else []

abbrev pub drop_while : (ℕ → Bool) → Str → Str
drop_while p [] = []
drop_while p (c ∷ s) = if p c then drop_while p s else c ∷ s

-- One more character in front of a string that `split_last` cut, or did not.
unfoldable pub cut_front : ℕ → ℕ → Str → Str × Option Str → Str × Option Str
cut_front c x s (before, some after) = (x ∷ before, some after)
cut_front c x s (before, none) = if x == c then ([], some s) else (x ∷ before, none)

-- The string cut at its last `c`, as `strrchr` finds it, and what stands behind that.
unfoldable pub split_last : ℕ → Str → Str × Option Str
unfolding cut_front
split_last c [] = ([], none)
split_last c (x ∷ s) = cut_front c x s (split_last c s)

pub record Evr : Type 0 where
  pub epoch : Str
  pub version : Str
  pub release : Option Str

-- `digits` is what the first loop skipped, and the second argument is what `s` points to.
parse_rest : Str → Str → Evr
parse_rest digits [] = record { epoch = b'0' ∷ []; version = digits; release = none }
parse_rest digits (c ∷ s) =
    let (cut, release) = split_last b'-' s in
    let (cut', release') = split_last b'-' (c ∷ s) in
    if c == b':'
    then record {
      epoch = elim digits [ [] ↦ b'0' ∷ [] | d ∷ ds ↦ d ∷ ds ];
      version = cut;
      release = release;
    }
    else record { epoch = b'0' ∷ []; version = digits ++ cut'; release = release' }

unfoldable pub parse_evr : Str → Evr
unfolding parse_rest
parse_evr evr = parse_rest (take_while is_digit evr) (drop_while is_digit evr)

-- One round of the loop ends the comparison or goes on behind the two segments.
pub data Round : Type 0 where
  stop : Ordering → Round
  more : Str → Str → Round

abbrev pub head_is_alpha : Str → Bool
head_is_alpha [] = false
head_is_alpha (c ∷ s) = is_alpha c

abbrev pub is_empty : Str → Bool
is_empty [] = true
is_empty (c ∷ s) = false

-- What follows the loop, "the final showdown" included.
unfoldable pub showdown : Str → Str → Ordering
showdown one two =
    if is_empty one && is_empty two
    then Ordering.eq
    else if is_empty one && not (head_is_alpha two) || head_is_alpha one
    then Ordering.lt
    else Ordering.gt

-- Two numeric segments: without leading zeros, the longer is greater, then `strcmp`.
unfoldable pub compare_numeric : Str → Str → Ordering
compare_numeric one two =
    let a = drop_while (λ c. c == b'0') one in
    let b = drop_while (λ c. c == b'0') two in or_then (compare (length a) (length b)) (strcmp a b)

-- `rc`, and where to go on when it is zero.
abbrev pub go_on : Ordering → Str → Str → Round
go_on Ordering.eq rest1 rest2 = more rest1 rest2
go_on rc rest1 rest2 = stop rc

abbrev pub class_of : Bool → ℕ → Bool
class_of true = is_digit
class_of false = is_alpha

-- The comparison of two segments, with what stands behind them.
unfoldable pub judge : Bool → Str → Str → Str → Str → Round
judge isnum [] seg2 rest1 rest2 = stop Ordering.lt
judge isnum (c ∷ seg1) [] rest1 rest2 = stop (if isnum then Ordering.gt else Ordering.lt)
judge isnum (c ∷ seg1) (d ∷ seg2) rest1 rest2 =
    go_on (if isnum then compare_numeric (c ∷ seg1) (d ∷ seg2) else strcmp (c ∷ seg1) (d ∷ seg2))
      rest1 rest2

-- The segments of one class at the start of both strings; `isnum` says which class it is.
unfoldable pub compare_segments : Bool → Str → Str → Round
unfolding judge
compare_segments isnum one two =
    judge isnum (take_while (class_of isnum) one) (take_while (class_of isnum) two)
      (drop_while (class_of isnum) one) (drop_while (class_of isnum) two)

-- Both strings stand behind their separators, whose lengths are `sep1` and `sep2`.
unfoldable pub at_segments : ℕ → ℕ → Str → Str → Round
at_segments sep1 sep2 [] two = stop (showdown [] two)
at_segments sep1 sep2 (c ∷ one) [] = stop (showdown (c ∷ one) [])
at_segments sep1 sep2 (c ∷ one) (d ∷ two) =
    if sep1 == sep2
    then compare_segments (is_digit c) (c ∷ one) (d ∷ two)
    else stop (if ltb sep1 sep2 then Ordering.lt else Ordering.gt)

abbrev pub is_separator : ℕ → Bool
is_separator c = not (is_alnum c)

-- One test of `while(*one && *two)` and one round of its body.
unfoldable pub round : Str → Str → Round
round [] two = stop (showdown [] two)
round (c ∷ one) [] = stop (showdown (c ∷ one) [])
round (c ∷ one) (d ∷ two) =
    at_segments (length (take_while is_separator (c ∷ one)))
      (length (take_while is_separator (d ∷ two))) (drop_while is_separator (c ∷ one))
      (drop_while is_separator (d ∷ two))

-- The loop on fuel; `none` means that the fuel ran out.
unfoldable pub rounds : ℕ → Str → Str → Option Ordering
rounds zero one two = none
rounds (suc fuel) one two = elim (round one two) [
  | stop r ↦ some r
  | more one' two' ↦ rounds fuel one' two'
]

-- `Version.Order` shows that this fuel is enough, so that the default is never read.
unfoldable pub rpmvercmp : Str → Str → Ordering
rpmvercmp a b = if str_eq a b then Ordering.eq else get_or (rounds (suc (length a)) a b) Ordering.eq

-- The releases are compared only where both versions have one.
unfoldable pub compare_releases : Option Str → Option Str → Ordering
compare_releases none r = Ordering.eq
compare_releases (some r) none = Ordering.eq
compare_releases (some r) (some r') = rpmvercmp r r'

unfoldable pub vercmp_evr : Evr → Evr → Ordering
unfolding compare_releases
vercmp_evr x y =
    or_then (rpmvercmp x.epoch y.epoch)
      (or_then (rpmvercmp x.version y.version) (compare_releases x.release y.release))

-- `alpm_pkg_vercmp`; `none` is the null pointer.
unfoldable pub pkg_vercmp : Option Str → Option Str → Ordering
pkg_vercmp none none = Ordering.eq
pkg_vercmp none (some b) = Ordering.lt
pkg_vercmp (some a) none = Ordering.gt
pkg_vercmp (some a) (some b) =
    if str_eq a b then Ordering.eq else vercmp_evr (parse_evr a) (parse_evr b)
