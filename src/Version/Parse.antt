-- ===== src/Version/Parse.antt =====
-- `parseEVR` on the form [epoch:]version[-release], and versions with an epoch.
use dulge.Base.{
  ℕ, suc, ◌<◌, compare, Ordering, ◌≡◌, refl, sym, ap, ◌∙◌, ◌≢◌, inl, inr, Bool, true, false, not,
  Option, none, some, [], ◌∷◌, ◌++◌, Str, length, ◌==◌, str_eq, Bool-cases, arith, ==_iff,
  str_eq_iff,
}
use mathlib.Core.Option.{get_or}
use dulge.Version.{
  is_digit, take_while, drop_while, compare_numeric, compare_segments, judge, at_segments, round,
  rounds, rpmvercmp, is_separator, showdown, split_last, Evr, parse_rest, parse_evr, vercmp_evr,
  pkg_vercmp, go_on,
}
use dulge.Version.Number.{Digits, value, compare_numeric-value}

-- Every character passes the test.
abbrev pub All : (ℕ → Bool) → Str → Type 0
All p [] = Unit
All p (c ∷ s) = (p c ≡ true) × All p s

-- A class of characters that stops at `d` takes all of a string before `d`.
module _ (p : ℕ → Bool) (d : ℕ) (stops : p d ≡ false) where
  pub take_while-append : (s r : Str) → All p s → take_while p (s ++ d ∷ r) ≡ s
  take_while-append [] r h = rw stops
  take_while-append (c ∷ s) r h = rw (h.0, take_while-append s r h.1)

  drop_while-append : (s r : Str) → drop_while p (s ++ d ∷ r) ≡ drop_while p s ++ d ∷ r
  drop_while-append [] r = rw stops
  drop_while-append (c ∷ s) r = elim (Bool-cases (p c)) [
    | inl e ↦ rw e (drop_while-append s r)
    | inr e ↦ rw e
  ]

  take_while_before : (s r : Str) → take_while p (s ++ d ∷ r) ≡ take_while p s
  take_while_before [] r = rw stops
  take_while_before (c ∷ s) r = elim (Bool-cases (p c)) [
    | inl e ↦ rw e (ap (λ t. c ∷ t) (take_while_before s r))
    | inr e ↦ rw e
  ]

pub take_while-All : (p : ℕ → Bool) (s : Str) → All p s → take_while p s ≡ s
take_while-All p [] h = refl
take_while-All p (c ∷ s) h = rw (h.0, take_while-All p s h.1)

pub drop_while-All : (p : ℕ → Bool) (s : Str) → All p s → drop_while p s ≡ []
drop_while-All p [] h = refl
drop_while-All p (c ∷ s) h = rw (h.0, drop_while-All p s h.1)

take_while-append-drop : (p : ℕ → Bool) (s : Str) → take_while p s ++ drop_while p s ≡ s
take_while-append-drop p [] = refl
take_while-append-drop p (c ∷ s) = elim (Bool-cases (p c)) [
  | inl e ↦ rw e (ap (λ t. c ∷ t) (take_while-append-drop p s))
  | inr e ↦ rw e
]

Digits-All : (s : Str) → Digits s → All is_digit s
Digits-All [] h = h
Digits-All (c ∷ s) h = (h.0, Digits-All s h.1)

-- No `d` in the string.
abbrev pub Without : ℕ → Str → Type 0
Without d = All (λ c. not (c == d))

not-true : (b : Bool) → not b ≡ true → b ≡ false
not-true true h = cc
not-true false h = refl

split_last-none : (d : ℕ) (s : Str) → Without d s → split_last d s ≡ (s, none)
unfolding split_last
split_last-none d [] h = refl
split_last-none d (c ∷ s) h = rw (split_last-none d s h.1, not-true (c == d) h.0)

pub split_last_at : (d : ℕ) (s r : Str) → Without d r → split_last d (s ++ d ∷ r) ≡ (s, some r)
unfolding split_last
split_last_at d [] r h = rw (split_last-none d r h, (==_iff d d).1 refl)
split_last_at d (c ∷ s) r h = rw (split_last_at d s r h)

-- The text of a version and an optional release, and of the three parts.
abbrev pub release_string : Str → Option Str → Str
release_string version none = version
release_string version (some release) = version ++ b'-' ∷ release

abbrev pub evr_string : Evr → Str
evr_string x = x.epoch ++ b':' ∷ release_string x.version x.release

-- A release has no dash; where there is none, the version has no dash.
abbrev pub HasRelease : Str → Option Str → Type 0
HasRelease version none = Without b'-' version
HasRelease version (some release) = Without b'-' release

abbrev pub IsNumber : Str → Type 0
IsNumber s = (s ≢ []) × Digits s

split_last_release :
    (v : Str) (r : Option Str) → HasRelease v r → split_last b'-' (release_string v r) ≡ (v, r)
split_last_release v none h = split_last-none b'-' v h
split_last_release v (some r) h = split_last_at b'-' v r h

-- An epoch is what stands before the colon.
parse_epoch :
    (e s : Str)
    → IsNumber e
    → parse_evr (e ++ b':' ∷ s)
      ≡ record { epoch = e; version = (split_last b'-' s).0; release = (split_last b'-' s).1 }
unfolding parse_evr
parse_epoch [] s h = absurd (h.0 refl)
parse_epoch (c ∷ e) s h =
    let all = Digits-All (c ∷ e) h.1 in
    rw (
      take_while-append is_digit b':' refl (c ∷ e) s all,
      drop_while-append is_digit b':' refl (c ∷ e) s,
      drop_while-All is_digit (c ∷ e) all,
    )

-- `parseEVR` recovers the three parts of epoch:version[-release]: for a numeric epoch, a release
-- without a dash, and, where there is no release, a version without a dash.
pub parse_evr-evr_string :
    (x : Evr) → IsNumber x.epoch → HasRelease x.version x.release → parse_evr (evr_string x) ≡ x
parse_evr-evr_string x h k =
    parse_epoch x.epoch (release_string x.version x.release) h
    ∙ rw (split_last_release x.version x.release k)

parse_rest_plain :
    (d s v r : Str)
    → Without b':' s
    → Without b'-' r
    → d ++ s ≡ v
    → parse_rest d (s ++ b'-' ∷ r) ≡ record { epoch = b'0' ∷ []; version = v; release = some r }
unfolding parse_rest
parse_rest_plain d [] v r p q e = rw (split_last_at b'-' [] r q, e)
parse_rest_plain d (c ∷ s) v r p q e =
    rw (not-true (c == b':') p.0, split_last_at b'-' (c ∷ s) r q, e)

All-drop_while : (p : ℕ → Bool) (s : Str) → All p s → All p (drop_while is_digit s)
All-drop_while p [] h = h
All-drop_while p (c ∷ s) h = elim (Bool-cases (is_digit c)) [
  | inl e ↦ rw e (All-drop_while p s h.1)
  | inr e ↦ rw e h
]

-- With no colon in the version the epoch is 0, also where the version starts with digits.
pub parse_evr-no_epoch :
    (v r : Str)
    → Without b':' v
    → Without b'-' r
    → parse_evr (v ++ b'-' ∷ r) ≡ record { epoch = b'0' ∷ []; version = v; release = some r }
unfolding parse_evr
parse_evr-no_epoch v r p q =
    rw (take_while_before is_digit b'-' refl v r, drop_while-append is_digit b'-' refl v r)
      (parse_rest_plain (take_while is_digit v) (drop_while is_digit v) v r (All-drop_while _ v p) q
        (take_while-append-drop is_digit v))

compare_same : (m n : ℕ) → m ≡ n → compare m n ≡ Ordering.eq
compare_same m n h = ground arith

compare_less : (m n : ℕ) → m < n → compare m n ≡ Ordering.lt
compare_less m n h = ground arith

-- A string of digits is one segment.
compare_numbers :
    (a b : Str) → Digits a → Digits b → compare_segments true a b ≡ judge true a b [] []
unfolding compare_segments
compare_numbers a b p q =
    let all1 = Digits-All a p in
    let all2 = Digits-All b q in
    rw (
      take_while-All is_digit a all1,
      take_while-All is_digit b all2,
      drop_while-All is_digit a all1,
      drop_while-All is_digit b all2,
    )

round_numbers :
    (c d : ℕ) (a b : Str)
    → Digits (c ∷ a)
    → Digits (d ∷ b)
    → round (c ∷ a) (d ∷ b) ≡ go_on (compare_numeric (c ∷ a) (d ∷ b)) [] []
unfolding round at_segments judge
round_numbers c d a b p q =
    let none1 : is_separator c ≡ false = ground arith in
    let none2 : is_separator d ≡ false = ground arith in
    rw (none1, none2, p.0) (compare_numbers (c ∷ a) (d ∷ b) p q)

rounds-go_on :
    (r : Ordering) (a b : Str) (n : ℕ)
    → round a b ≡ go_on r [] []
    → get_or (rounds (suc (suc n)) a b) Ordering.eq ≡ r
unfolding rounds round showdown
rounds-go_on Ordering.lt a b n h = rw (h, rounds)
rounds-go_on Ordering.eq a b n h = rw (h, rounds)
rounds-go_on Ordering.gt a b n h = rw (h, rounds)

-- On two numbers `rpmvercmp` is the comparison of their values.
pub rpmvercmp_numbers :
    (a b : Str) → IsNumber a → IsNumber b → rpmvercmp a b ≡ compare (value a) (value b)
unfolding rpmvercmp
rpmvercmp_numbers [] b p q = absurd (p.0 refl)
rpmvercmp_numbers (c ∷ a) [] p q = absurd (q.0 refl)
rpmvercmp_numbers (c ∷ a) (d ∷ b) p q = elim (Bool-cases (str_eq (c ∷ a) (d ∷ b))) [
  | inl e ↦
      let same = (str_eq_iff (c ∷ a) (d ∷ b)).0 e in
      rw e (sym (compare_same _ _ (ap (λ s. value s) same)))
  | inr e ↦
      rw (e, ← compare_numeric-value (c ∷ a) (d ∷ b) p.1 q.1)
        (rounds-go_on _ (c ∷ a) (d ∷ b) (length a) (round_numbers c d a b p.1 q.1))
]

-- Of two versions with numeric epochs, the one with the greater epoch is newer, whatever follows
-- the colons.
pub pkg_vercmp-epoch :
    (e e' v v' : Str)
    → IsNumber e
    → IsNumber e'
    → value e < value e'
    → pkg_vercmp (some (e ++ b':' ∷ v)) (some (e' ++ b':' ∷ v')) ≡ Ordering.lt
unfolding pkg_vercmp vercmp_evr
pkg_vercmp-epoch e e' v v' p q h = elim (Bool-cases (str_eq (e ++ b':' ∷ v) (e' ++ b':' ∷ v'))) [
  | inl same ↦
      let eq = (str_eq_iff (e ++ b':' ∷ v) (e' ++ b':' ∷ v')).0 same in
      let both = sym (parse_epoch e v p) ∙ ap parse_evr eq ∙ parse_epoch e' v' q in
      absurd (omega (arith, ap (λ (x : Evr). value x.epoch) both))
  | inr differ ↦ rw (
    differ,
    parse_epoch e v p,
    parse_epoch e' v' q,
    rpmvercmp_numbers e e' p q,
    compare_less _ _ h,
  )
]
