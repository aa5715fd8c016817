-- ===== src/Version/Order.antt =====
-- `rpmvercmp` and `alpm_pkg_vercmp`: termination, and the exchange of their arguments.
use dulge.Base.{
  ℕ, zero, suc, ◌+◌, ◌≤◌, ◌<◌, Ordering, ◌≡◌, refl, sym, ap, ◌∙◌, ◌≢◌, ◌⊎◌, inl, inr, Bool, true,
  false, not, Option, none, some, [], ◌∷◌, Str, length, ◌==◌, flip, is_eq, strcmp, str_eq,
  compare-flip, flip-or_then, strcmp-flip, Bool-cases, arith,
}
use mathlib.Core.Option.{get_or}
use dulge.Version.{
  is_digit, is_alpha, is_alnum, take_while, drop_while, Round, stop, more, showdown,
  compare_numeric, go_on, class_of, judge, compare_segments, at_segments, is_separator, round,
  rounds, rpmvercmp, Evr, compare_releases, vercmp_evr, parse_evr, pkg_vercmp,
}

Round-cases :
    (r : Round) → ((o : Ordering) × (r ≡ stop o)) ⊎ ((one : Str) × (two : Str) × (r ≡ more one two))
Round-cases (stop o) = inl (o, refl)
Round-cases (more one two) = inr (one, two, refl)

stop_not_more : (r : Ordering) (one two : Str) → stop r ≡ more one two → ⊥
stop_not_more r one two h = cc

is_eq-flip : (r : Ordering) → is_eq (flip r) ≡ is_eq r
is_eq-flip Ordering.lt = refl
is_eq-flip Ordering.eq = refl
is_eq-flip Ordering.gt = refl

abbrev flip_round : Round → Round
flip_round (stop r) = stop (flip r)
flip_round (more one two) = more two one

showdown-flip : (two : Str) → showdown two [] ≡ flip (showdown [] two)
unfolding showdown
showdown-flip [] = refl
showdown-flip (d ∷ two) = ground arith

pub compare_numeric-flip : (a b : Str) → compare_numeric b a ≡ flip (compare_numeric a b)
unfolding compare_numeric
compare_numeric-flip a b =
    let a' = drop_while (λ c. c == b'0') a in
    let b' = drop_while (λ c. c == b'0') b in
    rw (compare-flip (length a') (length b'), strcmp-flip a' b', flip-or_then)

go_on-flip : (r : Ordering) (a b : Str) → go_on (flip r) b a ≡ flip_round (go_on r a b)
go_on-flip Ordering.lt a b = refl
go_on-flip Ordering.eq a b = refl
go_on-flip Ordering.gt a b = refl

pub drop_while_head :
    (p : ℕ → Bool) (s : Str) (c : ℕ) (r : Str) → drop_while p s ≡ c ∷ r → p c ≡ false
drop_while_head p [] c r h = cc
drop_while_head p (x ∷ s) c r h = elim (Bool-cases (p x)) [
  | inl e ↦ drop_while_head p s c r (rw e at h)
  | inr e ↦ let h' : x ∷ s ≡ c ∷ r = rw e at h in ground arith
]

length-drop_while : (p : ℕ → Bool) (s : Str) → length (drop_while p s) ≤ length s
length-drop_while p [] = omega arith
length-drop_while p (x ∷ s) = ground (arith, length-drop_while p s)

module _ (p : ℕ → Bool) (c : ℕ) (s : Str) where
  pub take_while_yes : p c ≡ true → take_while p (c ∷ s) ≡ c ∷ take_while p s
  take_while_yes e = rw e

  pub take_while_no : p c ≡ false → take_while p (c ∷ s) ≡ []
  take_while_no e = rw e

  pub drop_while_yes : p c ≡ true → drop_while p (c ∷ s) ≡ drop_while p s
  drop_while_yes e = rw e

-- Two segments that are there are judged alike from both sides.
judge-flip :
    (isnum : Bool) (c d : ℕ) (s t r r' : Str)
    → judge isnum (d ∷ t) (c ∷ s) r' r ≡ flip_round (judge isnum (c ∷ s) (d ∷ t) r r')
unfolding judge
judge-flip true c d s t r r' = rw (compare_numeric-flip (c ∷ s) (d ∷ t)) (go_on-flip _ r r')
judge-flip false c d s t r r' = rw (strcmp-flip (c ∷ s) (d ∷ t)) (go_on-flip _ r r')

same_class :
    (isnum : Bool) (c d : ℕ) (one two : Str)
    → class_of isnum c ≡ true
    → class_of isnum d ≡ true
    → compare_segments isnum (d ∷ two) (c ∷ one)
      ≡ flip_round (compare_segments isnum (c ∷ one) (d ∷ two))
unfolding compare_segments
same_class isnum c d one two hc hd =
    let p = class_of isnum in
    rw (take_while_yes p c one hc, take_while_yes p d two hd)
      (judge-flip isnum c d (take_while p one) (take_while p two) (drop_while p (c ∷ one))
        (drop_while p (d ∷ two)))

-- A digit against a letter, from either side.
other_class :
    (c d : ℕ) (one two : Str)
    → is_digit c ≡ true
    → is_digit d ≡ false
    → is_alpha d ≡ true
    → (compare_segments true (c ∷ one) (d ∷ two) ≡ stop Ordering.gt)
      × (compare_segments false (d ∷ two) (c ∷ one) ≡ stop Ordering.lt)
unfolding compare_segments
other_class c d one two hc hd ha = (
  rw (take_while_yes is_digit c one hc, take_while_no is_digit d two hd),
  rw (take_while_yes is_alpha d two ha, take_while_no is_alpha c one (ground arith)),
)

flip-flip : (r : Ordering) → flip (flip r) ≡ r
flip-flip Ordering.lt = refl
flip-flip Ordering.eq = refl
flip-flip Ordering.gt = refl

not-false : (b : Bool) → not b ≡ false → b ≡ true
not-false true h = refl
not-false false h = sym h

-- Both strings start with a letter or a digit: a digit against a letter ends the comparison.
compare_segments-flip :
    (c d : ℕ) (one two : Str)
    → is_alnum c ≡ true
    → is_alnum d ≡ true
    → compare_segments (is_digit d) (d ∷ two) (c ∷ one)
      ≡ flip_round (compare_segments (is_digit c) (c ∷ one) (d ∷ two))
compare_segments-flip c d one two hc hd = elim (Bool-cases (is_digit c)) [
  | inl dc ↦ elim (Bool-cases (is_digit d)) [
    | inl dd ↦ rw (dc, dd) (same_class true c d one two dc dd)
    | inr dd ↦ let (p, q) = other_class c d one two dc dd (ground arith) in rw (dc, dd, p, q)
  ]
  | inr dc ↦ elim (Bool-cases (is_digit d)) [
    | inl dd ↦ let (p, q) = other_class d c two one dd dc (ground arith) in rw (dc, dd, p, q)
    | inr dd ↦ rw (dc, dd) (same_class false c d one two (ground arith) (ground arith))
  ]
]

at_segments-flip :
    (m n : ℕ) (one two : Str)
    → ((c : ℕ) (r : Str) → one ≡ c ∷ r → is_alnum c ≡ true)
    → ((d : ℕ) (r : Str) → two ≡ d ∷ r → is_alnum d ≡ true)
    → at_segments n m two one ≡ flip_round (at_segments m n one two)
unfolding at_segments
at_segments-flip m n [] [] p q = ap stop (showdown-flip [])
at_segments-flip m n [] (d ∷ two) p q = ap stop (showdown-flip (d ∷ two))
at_segments-flip m n (c ∷ one) [] p q = rw (showdown-flip (c ∷ one), flip-flip)
at_segments-flip m n (c ∷ one) (d ∷ two) p q =
    ground (arith, compare_segments-flip c d one two (p c one refl) (q d two refl))

separators_end : (s : Str) (c : ℕ) (r : Str) → drop_while is_separator s ≡ c ∷ r → is_alnum c ≡ true
separators_end s c r h = not-false (is_alnum c) (drop_while_head is_separator s c r h)

round-flip : (one two : Str) → round two one ≡ flip_round (round one two)
unfolding round
round-flip [] [] = ap stop (showdown-flip [])
round-flip [] (d ∷ two) = ap stop (showdown-flip (d ∷ two))
round-flip (c ∷ one) [] = rw (showdown-flip (c ∷ one), flip-flip)
round-flip (c ∷ one) (d ∷ two) =
    at_segments-flip _ _ _ _ (separators_end (c ∷ one)) (separators_end (d ∷ two))

go_on_more : (r : Ordering) (r1 r2 one two : Str) → go_on r r1 r2 ≡ more one two → one ≡ r1
go_on_more Ordering.lt r1 r2 one two h = cc
go_on_more Ordering.eq r1 r2 one two h = cc
go_on_more Ordering.gt r1 r2 one two h = cc

length-take_drop :
    (p : ℕ → Bool) (s : Str) → length (take_while p s) + length (drop_while p s) ≡ length s
length-take_drop p [] = omega arith
length-take_drop p (c ∷ s) = ground (arith, length-take_drop p s)

length_pos : (s : Str) → s ≢ [] → 0 < length s
length_pos [] h = absurd (h refl)
length_pos (c ∷ s) h = omega arith

-- A round that goes on has cut a segment, which is not empty, off the first string.
judge-shorter :
    (isnum : Bool) (seg1 seg2 r1 r2 one two : Str)
    → judge isnum seg1 seg2 r1 r2 ≡ more one two
    → (seg1 ≢ []) × (one ≡ r1)
unfolding judge
judge-shorter isnum [] seg2 r1 r2 one two h = cc
judge-shorter isnum (c ∷ seg1) [] r1 r2 one two h = cc
judge-shorter isnum (c ∷ seg1) (d ∷ seg2) r1 r2 one two h = (λ e. cc, go_on_more _ r1 r2 one two h)

segments-shorter :
    (isnum : Bool) (s t one two : Str)
    → compare_segments isnum s t ≡ more one two
    → length one < length s
unfolding compare_segments
segments-shorter isnum s t one two h =
    let p = class_of isnum in
    let (full, e) =
      judge-shorter isnum (take_while p s) (take_while p t) (drop_while p s) (drop_while p t) one
        two h in
    omega (arith, length-take_drop p s, length_pos (take_while p s) full, ap length e)

at_segments-shorter :
    (m n : ℕ) (s t one two : Str) → at_segments m n s t ≡ more one two → length one < length s
unfolding at_segments
at_segments-shorter m n [] t one two h = cc
at_segments-shorter m n (c ∷ s) [] one two h = cc
at_segments-shorter m n (c ∷ s) (d ∷ t) one two h = elim (Bool-cases (m == n)) [
  | inl e ↦ segments-shorter (is_digit c) (c ∷ s) (d ∷ t) one two (rw e at h)
  | inr e ↦ absurd (stop_not_more _ one two (rw e at h))
]

round-shorter : (s t one two : Str) → round s t ≡ more one two → length one < length s
unfolding round
round-shorter [] t one two h = cc
round-shorter (c ∷ s) [] one two h = cc
round-shorter (c ∷ s) (d ∷ t) one two h =
    let q = at_segments-shorter _ _ (drop_while is_separator (c ∷ s)) _ one two h in
    omega (arith, length-drop_while is_separator (c ∷ s))

rounds_step : (fuel : ℕ) (s t : Str) → length s < fuel → (r : Ordering) × (rounds fuel s t ≡ some r)
unfolding rounds
rounds_step zero s t h = absurd (omega arith)
rounds_step (suc fuel) s t h = elim (Round-cases (round s t)) [
  | inl (r, e) ↦ (r, rw (e, rounds))
  | inr (one, two, e) ↦
      let lt = round-shorter s t one two e in
      let (r, q) = rounds_step fuel one two (omega arith) in (r, rw (e, rounds) q)
]

-- The loop of `rpmvercmp` ends: from any two strings, more rounds than the first is long are
-- enough.
pub rounds_terminate : (fuel : ℕ) (one two : Str) → length one < fuel → rounds fuel one two ≢ none
rounds_terminate fuel one two h e = let (r, q) = rounds_step fuel one two h in cc

-- With enough fuel for either string, the two orders of the arguments give opposite results.
rounds-flip :
    (fuel fuel' : ℕ) (s t : Str)
    → length s < fuel
    → length t < fuel'
    → get_or (rounds fuel' t s) Ordering.eq ≡ flip (get_or (rounds fuel s t) Ordering.eq)
unfolding rounds
rounds-flip zero fuel' s t h k = absurd (omega arith)
rounds-flip (suc fuel) zero s t h k = absurd (omega arith)
rounds-flip (suc fuel) (suc fuel') s t h k = elim (Round-cases (round s t)) [
  | inl (r, e) ↦
      let e' : round t s ≡ stop (flip r) = round-flip s t ∙ ap flip_round e in rw (e, e', rounds)
  | inr (one, two, e) ↦
      let e' : round t s ≡ more two one = round-flip s t ∙ ap flip_round e in
      let lt = round-shorter s t one two e in
      let lt' = round-shorter t s two one e' in
      rw (e, e', rounds) (rounds-flip fuel fuel' one two (omega arith) (omega arith))
]

str_eq_comm : (a b : Str) → str_eq b a ≡ str_eq a b
unfolding str_eq
str_eq_comm a b = rw (strcmp-flip a b) (is_eq-flip (strcmp a b))

pub rpmvercmp-flip : (a b : Str) → rpmvercmp b a ≡ flip (rpmvercmp a b)
unfolding rpmvercmp
rpmvercmp-flip a b = elim (Bool-cases (str_eq a b)) [
  | inl e ↦ rw (str_eq_comm a b, e)
  | inr e ↦
      rw (str_eq_comm a b, e)
        (rounds-flip (suc (length a)) (suc (length b)) a b (omega arith) (omega arith))
]

compare_releases-flip : (r s : Option Str) → compare_releases s r ≡ flip (compare_releases r s)
unfolding compare_releases
compare_releases-flip none none = refl
compare_releases-flip none (some s) = refl
compare_releases-flip (some r) none = refl
compare_releases-flip (some r) (some s) = rpmvercmp-flip r s

vercmp_evr-flip : (x y : Evr) → vercmp_evr y x ≡ flip (vercmp_evr x y)
unfolding vercmp_evr
vercmp_evr-flip x y = rw (
  rpmvercmp-flip x.epoch y.epoch,
  rpmvercmp-flip x.version y.version,
  compare_releases-flip x.release y.release,
  flip-or_then,
  flip-or_then,
)

-- `alpm_pkg_vercmp` with its arguments exchanged gives the opposite result: on all strings and
-- null pointers, whatever their syntax.
pub pkg_vercmp-flip : (a b : Option Str) → pkg_vercmp b a ≡ flip (pkg_vercmp a b)
unfolding pkg_vercmp
pkg_vercmp-flip none none = refl
pkg_vercmp-flip none (some b) = refl
pkg_vercmp-flip (some a) none = refl
pkg_vercmp-flip (some a) (some b) = elim (Bool-cases (str_eq a b)) [
  | inl e ↦ rw (str_eq_comm a b, e)
  | inr e ↦ rw (str_eq_comm a b, e) (vercmp_evr-flip (parse_evr a) (parse_evr b))
]
