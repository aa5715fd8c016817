-- ===== src/AlpmList/Unsorted.antt =====
-- `alpm_list_cmp_unsorted` and equality of multisets.
use dulge.Base.{
  suc, ◌+◌, Ordering, ◌≡◌, refl, sym, ap, ◌∙◌, ◌↔◌, Bool, true, false, none, some, List, [], ◌∷◌,
  length, is_eq, strcmp, strcmp_self, eq_of_strcmp, Bool-cases, Option-cases, inl, inr, arith,
}
use dulge.AlpmList.{same_length, skip_same, match_one, match_all, blank, cmp_unsorted}
use dulge.AlpmList.Order.{count, to_nat}

-- What `fn` has to satisfy where only its zero is read: to be an equivalence.
pub record IsEquality {ℓ} {A : Type ℓ} (fn : A → A → Ordering) : Type ℓ where
  pub same : (a : A) → is_eq (fn a a) ≡ true
  pub congr : (a b c : A) → is_eq (fn a b) ≡ true → is_eq (fn c a) ≡ is_eq (fn c b)

pub strcmp-IsEquality : IsEquality strcmp
strcmp-IsEquality = record {
  same = λ a. rw (strcmp_self a);
  congr = λ a b c e. rw (eq_of_strcmp a b (is_eq→eq (strcmp a b) e));
}
  where
    is_eq→eq : (r : Ordering) → is_eq r ≡ true → r ≡ Ordering.eq
    is_eq→eq Ordering.eq h = refl
    is_eq→eq Ordering.lt h = cc
    is_eq→eq Ordering.gt h = cc

module _ {ℓ} {A : Type ℓ} where
  -- The elements of the right list whose flag is not set.
  abbrev remaining : List A → List Bool → List A
  remaining [] matched = []
  remaining (y ∷ r) [] = []
  remaining (y ∷ r) (true ∷ matched) = remaining r matched
  remaining (y ∷ r) (false ∷ matched) = y ∷ remaining r matched

  remaining-blank : (r : List A) → remaining r (blank r) ≡ r
  remaining-blank [] = refl
  remaining-blank (y ∷ r) = ap (λ t. y ∷ t) (remaining-blank r)

  length-blank : (r : List A) → length (blank r) ≡ length r
  length-blank [] = refl
  length-blank (y ∷ r) = ap suc (length-blank r)

  same_length→eq : (l r : List A) → same_length l r ≡ true → length l ≡ length r
  unfolding same_length
  same_length→eq [] [] h = refl
  same_length→eq [] (y ∷ r) h = cc
  same_length→eq (x ∷ l) [] h = cc
  same_length→eq (x ∷ l) (y ∷ r) h = ap suc (same_length→eq l r h)

  eq→same_length : (l r : List A) → length l ≡ length r → same_length l r ≡ true
  unfolding same_length
  eq→same_length [] [] h = refl
  eq→same_length [] (y ∷ r) h = absurd (omega arith)
  eq→same_length (x ∷ l) [] h = absurd (omega arith)
  eq→same_length (x ∷ l) (y ∷ r) h = eq→same_length l r (omega arith)

module _ {ℓ} {A : Type ℓ} (fn : A → A → Ordering) (eq : IsEquality fn) where
  record Matches (x : A) (r : List A) (matched flags : List Bool) : Type ℓ where
    takes :
        (a : A)
        → count fn a (remaining r matched)
          ≡ to_nat (is_eq (fn a x)) + count fn a (remaining r flags)
    shorter : length (remaining r matched) ≡ suc (length (remaining r flags))
    wide : length flags ≡ length matched

  found-Matches :
      (x y : A) (r : List A) (matched : List Bool)
      → is_eq (fn x y) ≡ true
      → Matches x (y ∷ r) (false ∷ matched) (true ∷ matched)
  found-Matches x y r matched e = record {
    takes = λ a. omega (arith, ap to_nat (eq.congr x y a e));
    shorter = refl;
    wide = refl;
  }

  skip-Matches :
      (x y : A) (r : List A) (matched flags : List Bool) (m : Bool)
      → Matches x r matched flags
      → Matches x (y ∷ r) (m ∷ matched) (m ∷ flags)
  skip-Matches x y r matched flags true h = record {
    takes = h.takes;
    shorter = h.shorter;
    wide = omega (arith, h.wide);
  }
  skip-Matches x y r matched flags false h = record {
    takes = λ a. omega (arith, h.takes a);
    shorter = ap suc h.shorter;
    wide = omega (arith, h.wide);
  }

  match_one-Matches :
      (x : A) (r : List A) (matched flags : List Bool)
      → match_one fn x r matched ≡ some flags
      → Matches x r matched flags
  unfolding match_one
  match_one-Matches x [] matched flags h = cc
  match_one-Matches x (y ∷ r) [] flags h = cc
  match_one-Matches x (y ∷ r) (true ∷ matched) flags h =
      elim (Option-cases (match_one fn x r matched)) [
        | inl f ↦ absurd (ground arith)
        | inr (g, f) ↦
            let e : flags ≡ true ∷ g = ground arith in
            rw e (skip-Matches x y r matched g true (match_one-Matches x r matched g f))
      ]
  match_one-Matches x (y ∷ r) (false ∷ matched) flags h = elim (Bool-cases (is_eq (fn x y))) [
    | inl e ↦
        let e' : flags ≡ true ∷ matched = ground arith in rw e' (found-Matches x y r matched e)
    | inr e ↦ elim (Option-cases (match_one fn x r matched)) [
      | inl f ↦ absurd (ground arith)
      | inr (g, f) ↦
          let e' : flags ≡ false ∷ g = ground arith in
          rw e' (skip-Matches x y r matched g false (match_one-Matches x r matched g f))
    ]
  ]

  match_one-none :
      (x : A) (r : List A) (matched : List Bool)
      → length matched ≡ length r
      → match_one fn x r matched ≡ none
      → count fn x (remaining r matched) ≡ 0
  unfolding match_one
  match_one-none x [] matched n h = refl
  match_one-none x (y ∷ r) [] n h = refl
  match_one-none x (y ∷ r) (true ∷ matched) n h = ground (arith, match_one-none x r matched)
  match_one-none x (y ∷ r) (false ∷ matched) n h = ground (arith, match_one-none x r matched)

  -- Equal counts are found by the loop, and force equal lengths.
  match_all-full :
      (l r : List A) (matched : List Bool)
      → length matched ≡ length r
      → ((a : A) → count fn a l ≡ count fn a (remaining r matched))
      → (match_all fn l r matched ≡ true) × (length l ≡ length (remaining r matched))
  unfolding match_all
  match_all-full [] r matched n h = (refl, nothing (remaining r matched) h)
    where
      nothing : (s : List A) → ((a : A) → count fn a [] ≡ count fn a s) → 0 ≡ length s
      nothing [] k = refl
      nothing (y ∷ s) k = absurd (ground (arith, k y, eq.same y))
  match_all-full (x ∷ l) r matched n h = elim (Option-cases (match_one fn x r matched)) [
    | inl e ↦ absurd (ground (arith, h x, eq.same x, match_one-none x r matched n e))
    | inr (flags, e) ↦
        let m = match_one-Matches x r matched flags e in
        let (done, size) =
          match_all-full l r flags (omega arith) (λ a. omega (arith, h a, m.takes a)) in
        (rw (e, match_all) done, omega arith)
  ]

  -- A run that finds a partner for every element, in lists of one length, shows equal counts.
  match_all_sound :
      (l r : List A) (matched : List Bool)
      → length l ≡ length (remaining r matched)
      → match_all fn l r matched ≡ true
      → (a : A) → count fn a l ≡ count fn a (remaining r matched)
  unfolding match_all
  match_all_sound [] r matched n h a = nothing (remaining r matched) (sym n)
    where
      nothing : (s : List A) → length s ≡ 0 → 0 ≡ count fn a s
      nothing [] k = refl
      nothing (y ∷ s) k = absurd (omega arith)
  match_all_sound (x ∷ l) r matched n h a = elim (Option-cases (match_one fn x r matched)) [
    | inl e ↦ let h' : false ≡ true = rw (e, match_all) at h in cc
    | inr (flags, e) ↦
        let m = match_one-Matches x r matched flags e in
        let ih = match_all_sound l r flags (omega arith) (rw (e, match_all) at h) a in
        omega (arith, m.takes a)
  ]

  -- The common start that the second loop drops is the same on both sides.
  record Skips (l r l' r' : List A) : Type ℓ where
    counts : (a : A) → count fn a l + count fn a r' ≡ count fn a r + count fn a l'
    sizes : length l + length r' ≡ length r + length l'

  skip_same-Skips : (l r : List A) → Skips l r (skip_same fn l r).0 (skip_same fn l r).1
  unfolding skip_same
  skip_same-Skips [] r = record { counts = λ a. omega arith; sizes = omega arith }
  skip_same-Skips (x ∷ l) [] = record { counts = λ a. omega arith; sizes = omega arith }
  skip_same-Skips (x ∷ l) (y ∷ r) = elim (Bool-cases (is_eq (fn x y))) [
    | inr e ↦ rw e (record { counts = λ a. omega arith; sizes = omega arith })
    | inl e ↦
        let ih = skip_same-Skips l r in
        rw e (record {
          counts = λ a. omega (arith, ih.counts a, ap to_nat (eq.congr x y a e));
          sizes = omega (arith, ih.sizes);
        })
  ]

  -- `alpm_list_cmp_unsorted` says whether every element occurs as often in the one list as in the
  -- other, for a comparison that is an equivalence.
  pub cmp_unsorted_iff :
      (l r : List A) → (cmp_unsorted fn l r ≡ true) ↔ ((a : A) → count fn a l ≡ count fn a r)
  unfolding cmp_unsorted
  cmp_unsorted_iff l r =
      let s = skip_same-Skips l r in
      let l' = (skip_same fn l r).0 in
      let r' = (skip_same fn l r).1 in
      (
        λ h a.
            let n : same_length l r ≡ true = ground arith in
            let n' = same_length→eq l r n in
            let run : match_all fn l' r' (blank r') ≡ true = rw n at h in
            let sound =
              match_all_sound l' r' (blank r') (rw (remaining-blank r') (omega (arith, s.sizes)))
                run a in
            omega (arith, s.counts a, sound, ap (count fn a) (remaining-blank r')),
        λ h.
            let full =
              match_all-full l' r' (blank r') (length-blank r')
                (λ a. rw (remaining-blank r') (omega (arith, h a, s.counts a))) in
            let n : length l' ≡ length r' = full.1 ∙ ap length (remaining-blank r') in
            rw (eq→same_length l r (omega (arith, s.sizes))) full.0,
      )
