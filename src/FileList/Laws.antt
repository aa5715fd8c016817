-- ===== src/FileList/Laws.antt =====
-- The difference of file lists, and the order of paths.
use dulge.AlpmList.{diff_sorted}
use dulge.AlpmList.Diff.{diff_sorted-count}
use dulge.AlpmList.Order.{IsSorted, count, strcmp-IsOrder}
use dulge.Base.{
  ℕ, ◌-◌, ◌≡◌, refl, ap, Ordering, List, [], ◌∷◌, ◌++◌, Str, ◌==◌, ==_iff, compare-flip, flip,
  strcmp, arith, Bool-cases, Ordering-cases, inl, inr,
}
use dulge.FileList.{difference, at_difference, pathcmp}
use dulge.RawStr.{biased, head}

-- The loop is that of `alpm_list_diff_sorted`.
difference-diff_sorted : (a b : List Str) → difference a b ≡ (diff_sorted strcmp a b).0
unfolding difference diff_sorted
difference-diff_sorted [] b = refl
difference-diff_sorted (x ∷ a) [] = refl
difference-diff_sorted (x ∷ a) (y ∷ b) = elim (Ordering-cases (strcmp x y)) [
  | inl h ↦ rw (h, difference, diff_sorted) (ap (λ t. x ∷ t) (difference-diff_sorted a (y ∷ b)))
  | inr (inl h) ↦ rw (h, difference, diff_sorted) (difference-diff_sorted a b)
  | inr (inr h) ↦ rw (h, difference, diff_sorted) (difference-diff_sorted (x ∷ a) b)
]

-- `_alpm_filelist_difference` of two sorted lists keeps of every name as many occurrences as the
-- first list has more than the second.
pub difference-count :
    (name : Str) (a b : List Str)
    → IsSorted strcmp a
    → IsSorted strcmp b
    → count strcmp name (difference a b) ≡ count strcmp name a - count strcmp name b
difference-count name a b p q =
    rw (difference-diff_sorted a b) ((diff_sorted-count strcmp-IsOrder name a b p q).0)

at_difference-flip : (p q : Str) → at_difference q p ≡ flip (at_difference p q)
at_difference-flip [] [] = refl
at_difference-flip [] (d ∷ q) = elim (Bool-cases (d == b'/')) [
  | inl e ↦ rw e (compare-flip (biased 0) (biased (head q)))
  | inr e ↦ rw e (compare-flip (biased 0) (biased d))
]
at_difference-flip (c ∷ p) [] = elim (Bool-cases (c == b'/')) [
  | inl e ↦ rw e (compare-flip (biased (head p)) (biased 0))
  | inr e ↦ rw e (compare-flip (biased c) (biased 0))
]
at_difference-flip (c ∷ p) (d ∷ q) = compare-flip (biased c) (biased d)

==_comm : (m n : ℕ) → (m == n) ≡ (n == m)
==_comm m n = ground arith

-- `_alpm_filelist_pathcmp` with its arguments exchanged gives the opposite sign.
pub pathcmp-flip : (p q : Str) → pathcmp q p ≡ flip (pathcmp p q)
unfolding pathcmp
pathcmp-flip [] [] = refl
pathcmp-flip [] (d ∷ q) = at_difference-flip [] (d ∷ q)
pathcmp-flip (c ∷ p) [] = at_difference-flip (c ∷ p) []
pathcmp-flip (c ∷ p) (d ∷ q) = elim (Bool-cases (c == d)) [
  | inl e ↦ rw (==_comm d c, e) (pathcmp-flip p q)
  | inr e ↦ rw (==_comm d c, e) (at_difference-flip (c ∷ p) (d ∷ q))
]

-- `_alpm_filelist_pathcmp` takes a path and the same path with a slash behind it for equal.
pub pathcmp-slash : (p : Str) → pathcmp p (p ++ b'/' ∷ []) ≡ Ordering.eq
unfolding pathcmp
pathcmp-slash [] = ground arith
pathcmp-slash (c ∷ p) = rw ((==_iff c c).1 refl) (pathcmp-slash p)
