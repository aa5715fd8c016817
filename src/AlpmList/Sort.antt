-- ===== src/AlpmList/Sort.antt =====
-- `alpm_list_mmerge`, `alpm_list_msort` and `alpm_list_add_sorted`: order and elements.
use mathlib.Core.List.{Perm, perm_middle, append-nil}
use mathlib.Core.List.Perm
use dulge.Base.{
  ℕ, zero, suc, ◌-◌, ◌/◌, ◌<◌, ◌≤◌, Ordering, ◌≡◌, true, false, List, [], ◌∷◌, ◌++◌, length, take,
  drop, ltb, is_gt, length-take, length-drop, take-append-drop, Bool-cases, inl, inr, arith,
}
use dulge.AlpmList.{mmerge, msort_fuel, msort, add_sorted}
use dulge.AlpmList.Order.{IsOrder, LeAll, IsSorted}

-- Merging keeps the elements, for any comparison.
pub mmerge-perm {ℓ} :
    {A : Type ℓ} (fn : A → A → Ordering) (l r : List A) → Perm (mmerge fn l r) (l ++ r)
unfolding mmerge
mmerge-perm fn [] r = Perm.refl r
mmerge-perm fn (x ∷ l) [] = rw append-nil (Perm.refl (x ∷ l))
mmerge-perm fn (x ∷ l) (y ∷ r) = elim (Bool-cases (is_gt (fn x y))) [
  | inl e ↦
      rw (e, mmerge)
        (Perm.trans (Perm.cons y (mmerge-perm fn (x ∷ l) r)) (Perm.symm (perm_middle (x ∷ l) r)))
  | inr e ↦ rw (e, mmerge) (Perm.cons x (mmerge-perm fn l (y ∷ r)))
]

pub msort-perm {ℓ} :
    {A : Type ℓ} (fn : A → A → Ordering) (fuel n : ℕ) (list : List A)
    → Perm (msort_fuel fn fuel n list) list
unfolding msort_fuel
msort-perm fn zero n list = Perm.refl list
msort-perm fn (suc fuel) n list = elim (Bool-cases (ltb 1 n)) [
  | inr e ↦ rw e (Perm.refl list)
  | inl e ↦
      let half = n / 2 in
      rw e (
        Perm.trans (mmerge-perm fn _ _) (
          Perm.trans
            (Perm.append (msort-perm fn fuel half (take half list))
              (msort-perm fn fuel (n - half) (drop half list)))
            (rw (take-append-drop half list) (Perm.refl list))))
]

module _ {ℓ} {A : Type ℓ} {fn : A → A → Ordering} (o : IsOrder fn) where
  -- `≤` is transitive, and total.
  pub le_trans :
      (a b c : A) → is_gt (fn a b) ≡ false → is_gt (fn b c) ≡ false → is_gt (fn a c) ≡ false
  le_trans a b c p q = ground (
    arith,
    o.lt_trans a b c,
    o.congr a b c,
    o.congr b c a,
    o.swap a b,
    o.swap a c,
    o.swap b c,
    o.swap b a,
    o.swap c a,
  )

  pub le_total : (a b : A) → is_gt (fn a b) ≡ true → is_gt (fn b a) ≡ false
  le_total a b h = rw (o.swap a b) (ground arith)

  LeAll-trans : (a b : A) (l : List A) → is_gt (fn a b) ≡ false → LeAll fn b l → LeAll fn a l
  LeAll-trans a b [] h k = tt
  LeAll-trans a b (x ∷ l) h k = (le_trans a b x h k.0, LeAll-trans a b l h k.1)

  LeAll-mmerge : (a : A) (l r : List A) → LeAll fn a l → LeAll fn a r → LeAll fn a (mmerge fn l r)
  unfolding mmerge
  LeAll-mmerge a [] r p q = q
  LeAll-mmerge a (x ∷ l) [] p q = p
  LeAll-mmerge a (x ∷ l) (y ∷ r) p q = elim (Bool-cases (is_gt (fn x y))) [
    | inl e ↦ rw (e, mmerge) (q.0, LeAll-mmerge a (x ∷ l) r p q.1)
    | inr e ↦ rw (e, mmerge) (p.0, LeAll-mmerge a l (y ∷ r) p.1 q)
  ]

  pub mmerge-IsSorted : (l r : List A) → IsSorted fn l → IsSorted fn r → IsSorted fn (mmerge fn l r)
  unfolding mmerge
  mmerge-IsSorted [] r p q = q
  mmerge-IsSorted (x ∷ l) [] p q = p
  mmerge-IsSorted (x ∷ l) (y ∷ r) p q = elim (Bool-cases (is_gt (fn x y))) [
    | inl e ↦
        let le = le_total x y e in
        rw (e, mmerge)
          (
            LeAll-mmerge y (x ∷ l) r (le, LeAll-trans y x l le p.0) q.0,
            mmerge-IsSorted (x ∷ l) r p q.1,
          )
    | inr e ↦
        rw (e, mmerge)
          (
            LeAll-mmerge x l (y ∷ r) p.0 (e, LeAll-trans x y r e q.0),
            mmerge-IsSorted l (y ∷ r) p.1 q,
          )
  ]

  LeAll-add_sorted :
      (a : A) (l : List A) (x : A)
      → is_gt (fn a x) ≡ false
      → LeAll fn a l
      → LeAll fn a (add_sorted fn l x)
  unfolding add_sorted
  LeAll-add_sorted a [] x h k = (h, tt)
  LeAll-add_sorted a (y ∷ l) x h k = elim (Bool-cases (is_gt (fn x y))) [
    | inl e ↦ rw e (k.0, LeAll-add_sorted a l x h k.1)
    | inr e ↦ rw e (h, k)
  ]

  short-IsSorted : (l : List A) → length l ≤ 1 → IsSorted fn l
  short-IsSorted [] h = tt
  short-IsSorted (x ∷ []) h = (tt, tt)
  short-IsSorted (x ∷ y ∷ l) h = absurd (omega arith)

  pub msort-IsSorted :
      (fuel n : ℕ) (list : List A)
      → length list ≡ n
      → n ≤ fuel
      → IsSorted fn (msort_fuel fn fuel n list)
  unfolding msort_fuel
  msort-IsSorted zero n list e h = short-IsSorted list (omega arith)
  msort-IsSorted (suc fuel) n list e h = elim (Bool-cases (ltb 1 n)) [
    | inr small ↦ rw small (short-IsSorted list (ground arith))
    | inl big ↦
        let big' : 1 < n = ground arith in
        let half = n / 2 in
        rw big (
          mmerge-IsSorted _ _
            (msort-IsSorted fuel half (take half list) (omega (arith, length-take half list))
              (omega arith))
            (msort-IsSorted fuel (n - half) (drop half list) (omega (arith, length-drop half list))
              (omega arith)))
  ]

  -- `alpm_list_msort`, given the length of its list and a comparison that is a total order, returns
  -- a sorted permutation of the list.
  pub msort_correct :
      (list : List A) (n : ℕ)
      → length list ≡ n
      → IsSorted fn (msort fn list n) × Perm (msort fn list n) list
  msort_correct list n e = (msort-IsSorted n n list e (omega arith), msort-perm fn n n list)

  -- `alpm_list_add_sorted` keeps a sorted list sorted, for a comparison that is a total order.
  pub add_sorted-IsSorted : (l : List A) (x : A) → IsSorted fn l → IsSorted fn (add_sorted fn l x)
  unfolding add_sorted
  add_sorted-IsSorted [] x h = (tt, tt)
  add_sorted-IsSorted (y ∷ l) x h = elim (Bool-cases (is_gt (fn x y))) [
    | inl e ↦ rw e (LeAll-add_sorted y l x (le_total x y e) h.0, add_sorted-IsSorted l x h.1)
    | inr e ↦ rw e ((e, LeAll-trans x y l e h.0), h)
  ]
