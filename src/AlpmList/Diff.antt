-- ===== src/AlpmList/Diff.antt =====
-- `alpm_list_diff_sorted` and `alpm_list_diff` as differences of multisets.
use dulge.Base.{
  ℕ, zero, suc, ◌+◌, ◌-◌, ◌/◌, Ordering, ◌≡◌, refl, sym, ap, ◌∙◌, false, List, [], ◌∷◌, ◌++◌,
  length, take, drop, ltb, flip, is_eq, is_gt, take-append-drop, Bool-cases, Ordering-cases, ◌⊎◌,
  inl, inr, arith,
}
use mathlib.Core.Path.{ap₂}
use mathlib.Core.List.{append_assoc, append-nil}
use dulge.AlpmList.{
  add, mmerge, msort_fuel, msort, count_from, list_count, copy_onto, copy, diff_sorted, diff,
}
use dulge.AlpmList.Order.{IsOrder, count, LeAll, IsSorted, to_nat}
use dulge.AlpmList.Sort.{msort-IsSorted}

pub copy_onto-eq {ℓ} : {A : Type ℓ} (new l : List A) → copy_onto new l ≡ new ++ l
unfolding copy_onto
copy_onto-eq new [] = sym (append-nil new)
copy_onto-eq new (x ∷ l) = copy_onto-eq (add new x) l ∙ rw append_assoc

pub count_from-eq {ℓ} : {A : Type ℓ} (i : ℕ) (l : List A) → count_from i l ≡ i + length l
unfolding count_from
count_from-eq i [] = omega arith
count_from-eq i (x ∷ l) = omega (arith, count_from-eq (i + 1) l)

module _ {ℓ} {A : Type ℓ} (fn : A → A → Ordering) (a : A) where
  pub count-append : (l r : List A) → count fn a (l ++ r) ≡ count fn a l + count fn a r
  count-append [] r = omega arith
  count-append (x ∷ l) r = omega (arith, count-append l r)

  count-mmerge : (l r : List A) → count fn a (mmerge fn l r) ≡ count fn a l + count fn a r
  unfolding mmerge
  count-mmerge [] r = omega arith
  count-mmerge (x ∷ l) [] = omega arith
  count-mmerge (x ∷ l) (y ∷ r) = elim (Bool-cases (is_gt (fn x y))) [
    | inl e ↦ rw (e, mmerge) (omega (arith, count-mmerge (x ∷ l) r))
    | inr e ↦ rw (e, mmerge) (omega (arith, count-mmerge l (y ∷ r)))
  ]

  pub count-msort : (fuel n : ℕ) (l : List A) → count fn a (msort_fuel fn fuel n l) ≡ count fn a l
  unfolding msort_fuel
  count-msort zero n l = refl
  count-msort (suc fuel) n l = elim (Bool-cases (ltb 1 n)) [
    | inr e ↦ rw e
    | inl e ↦
        let half = n / 2 in
        rw e (
          omega (
            arith,
            count-mmerge (msort_fuel fn fuel half (take half l))
                (msort_fuel fn fuel (n - half) (drop half l)),
            count-msort fuel half (take half l),
            count-msort fuel (n - half) (drop half l),
            count-append (take half l) (drop half l),
            ap (count fn a) (take-append-drop half l),
          ))
  ]

module _ {ℓ} {A : Type ℓ} {fn : A → A → Ordering} (o : IsOrder fn) where
  lt_le_trans : (a b c : A) → fn a b ≡ Ordering.lt → is_gt (fn b c) ≡ false → fn a c ≡ Ordering.lt
  lt_le_trans a b c p q =
      ground
        (arith, o.lt_trans a b c, o.congr b c a, o.swap b a, o.swap c a, o.swap a b, o.swap a c)

  -- Nothing equals `a` in a list all of which is greater.
  count_zero : (a y : A) (l : List A) → fn a y ≡ Ordering.lt → LeAll fn y l → count fn a l ≡ 0
  count_zero a y [] h k = refl
  count_zero a y (z ∷ l) h k = rw (lt_le_trans a y z h k.0) (omega (arith, count_zero a y l h k.1))

  -- An element less than the head of a sorted list does not occur in it.
  absent :
      (a x y : A) (r : List A)
      → fn x y ≡ Ordering.lt
      → LeAll fn y r
      → (to_nat (is_eq (fn a x)) ≡ 0) ⊎ (count fn a (y ∷ r) ≡ 0)
  absent a x y r h k = elim (Ordering-cases (fn a x)) [
    | inl e ↦ inl (rw e)
    | inr (inr e) ↦ inl (rw e)
    | inr (inl e) ↦
        let below : fn a y ≡ Ordering.lt = o.congr a x y e ∙ h in
        inr (rw below (omega (arith, count_zero a y r below k)))
  ]

  abbrev Differ : A → List A → List A → Type 0
  Differ a l r =
      (count fn a (diff_sorted fn l r).0 ≡ count fn a l - count fn a r)
      × (count fn a (diff_sorted fn l r).1 ≡ count fn a r - count fn a l)

  -- Where the heads are equal `a` equals both or none.
  same_count :
      (a x y : A) → fn x y ≡ Ordering.eq → to_nat (is_eq (fn a x)) ≡ to_nat (is_eq (fn a y))
  same_count a x y h = ground (arith, o.congr x y a, o.swap x a, o.swap y a, o.swap a x, o.swap a y)

  pub diff_sorted-count : (a : A) (l r : List A) → IsSorted fn l → IsSorted fn r → Differ a l r
  unfolding diff_sorted
  diff_sorted-count a [] r p q = (omega arith, omega arith)
  diff_sorted-count a (x ∷ l) [] p q = (omega arith, omega arith)
  diff_sorted-count a (x ∷ l) (y ∷ r) p q = elim (Ordering-cases (fn x y)) [
    | inl h ↦
        let ih = diff_sorted-count a l (y ∷ r) p.1 q in
        let none = absent a x y r h q.0 in
        rw (h, diff_sorted) (omega (arith, ih.0), omega (arith, ih.1))
    | inr (inl h) ↦
        let ih = diff_sorted-count a l r p.1 q.1 in
        let same = same_count a x y h in
        rw (h, diff_sorted) (omega (arith, ih.0), omega (arith, ih.1))
    | inr (inr h) ↦
        let ih = diff_sorted-count a (x ∷ l) r p q.1 in
        let none = absent a y x l (o.swap x y ∙ ap flip h) p.0 in
        rw (h, diff_sorted) (omega (arith, ih.0), omega (arith, ih.1))
  ]

  IsSorted-copy : (l : List A) → IsSorted fn (msort fn (copy l) (list_count (copy l)))
  IsSorted-copy l =
      let n : list_count (copy l) ≡ length (copy l) = count_from-eq 0 (copy l) ∙ omega arith in
      msort-IsSorted o (list_count (copy l)) (list_count (copy l)) (copy l) (sym n) (omega arith)

  count-copy :
      (a : A) (l : List A) → count fn a (msort fn (copy l) (list_count (copy l))) ≡ count fn a l
  count-copy a l =
      count-msort fn a (list_count (copy l)) (list_count (copy l)) (copy l)
      ∙ ap (count fn a) (copy_onto-eq [] l)

  -- `alpm_list_diff` is the difference of multisets, for a comparison that is a total order and
  -- whatever the order of the elements of its arguments: an element occurs in the result as often
  -- as in the left list less its occurrences in the right one, none if there are as many there. So
  -- an element that occurs more often on the left than on the right stays, although it is in both
  -- lists. Occurrences are counted by the comparison.
  pub diff-count : (a : A) (l r : List A) → count fn a (diff fn l r) ≡ count fn a l - count fn a r
  unfolding diff
  diff-count a l r =
      (diff_sorted-count a _ _ (IsSorted-copy l) (IsSorted-copy r)).0
      ∙ ap₂ (λ m n. m - n) (count-copy a l) (count-copy a r)
