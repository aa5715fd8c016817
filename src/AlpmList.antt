-- ===== src/AlpmList.antt =====
-- The list type of the library, lib/libalpm/alpm_list.c, as the sequence of its data pointers.
-- A list that the code relinks in place is a new sequence here; malloc does not fail. The elements
-- are the objects that non-null data pointers lead to, except in `find_ptr`, where they are the
-- addresses themselves, 0 for NULL. `fn` is the comparison that a caller passes.
pub mod Order
pub mod Sort
pub mod Diff
pub mod Unsorted
pub mod Dupes
mod Tests
use dulge.Base.{
  ℕ, zero, suc, ◌+◌, ◌-◌, ◌/◌, Ordering, Bool, true, false, not, ◌&&◌, Option, none, some, List, [],
  ◌∷◌, ◌++◌, Str, length, get_elem?, take, drop, ltb, ◌==◌, if◌then◌else◌, is_eq, is_gt, strcmp,
}

module _ {ℓ} {A : Type ℓ} where
  -- `alpm_list_add` and `alpm_list_append`: the new node goes behind the last one.
  abbrev pub add : List A → A → List A
  add list x = list ++ x ∷ []

  -- `alpm_list_join`
  abbrev pub join : List A → List A → List A
  join [] second = second
  join (x ∷ first) [] = x ∷ first
  join (x ∷ first) (y ∷ second) = (x ∷ first) ++ (y ∷ second)

  -- `alpm_list_count`
  unfoldable pub count_from : ℕ → List A → ℕ
  count_from i [] = i
  count_from i (x ∷ lp) = count_from (i + 1) lp

  abbrev pub list_count : List A → ℕ
  list_count = count_from 0

  -- `alpm_list_nth`; `none` is the fault of reading behind the end, or the null list.
  unfoldable pub nth : List A → ℕ → Option A
  nth [] n = none
  nth (x ∷ i) zero = some x
  nth (x ∷ i) (suc n) = nth i n

  -- `alpm_list_copy`: the loop appends to the new list.
  unfoldable pub copy_onto : List A → List A → List A
  copy_onto newlist [] = newlist
  copy_onto newlist (x ∷ lp) = copy_onto (add newlist x) lp

  abbrev pub copy : List A → List A
  copy = copy_onto []

  -- `alpm_list_last` and the `prev` chain, from the last node to the first.
  unfoldable pub backwards : List A → List A
  backwards [] = []
  backwards (x ∷ l) = add (backwards l) x

  -- `alpm_list_reverse`
  unfoldable pub list_reverse : List A → List A
  unfolding backwards copy_onto
  list_reverse list = copy_onto [] (backwards list)

module _ {ℓ} {A : Type ℓ} where
  -- The first loop of `alpm_list_cmp_unsorted`.
  unfoldable pub same_length : List A → List A → Bool
  same_length [] [] = true
  same_length [] (y ∷ r) = false
  same_length (x ∷ l) [] = false
  same_length (x ∷ l) (y ∷ r) = same_length l r

  -- What `calloc` returns: no flag is set.
  abbrev pub blank : List A → List Bool
  blank [] = []
  blank (y ∷ r) = false ∷ blank r

module _ {ℓ} {A : Type ℓ} (fn : A → A → Ordering) where
  -- `alpm_list_add_sorted`: behind all elements that are less.
  unfoldable pub add_sorted : List A → A → List A
  add_sorted [] x = x ∷ []
  add_sorted (y ∷ next) x = if is_gt (fn x y) then y ∷ add_sorted next x else x ∷ y ∷ next

  -- `alpm_list_mmerge`: the left element goes first where the two are equal.
  unfoldable pub mmerge : List A → List A → List A
  mmerge [] right = right
  mmerge (x ∷ left) [] = x ∷ left
  mmerge (x ∷ left) (y ∷ right) = elim (is_gt (fn x y)) [
    | true ↦ y ∷ mmerge (x ∷ left) right
    | false ↦ x ∷ mmerge left (y ∷ right)
  ]

  -- `alpm_list_msort` on fuel, which is `n` at first: `n` halves at least once in each round.
  unfoldable pub msort_fuel : ℕ → ℕ → List A → List A
  msort_fuel zero n list = list
  msort_fuel (suc fuel) n list =
      let half = n / 2 in
      let left = msort_fuel fuel half (take half list) in
      let right = msort_fuel fuel (n - half) (drop half list) in
      if ltb 1 n then mmerge left right else list

  abbrev pub msort : List A → ℕ → List A
  msort list n = msort_fuel n n list

  -- `alpm_list_diff_sorted`, with both results asked for.
  unfoldable pub diff_sorted : List A → List A → List A × List A
  diff_sorted [] r = ([], r)
  diff_sorted (x ∷ l) [] = (x ∷ l, [])
  diff_sorted (x ∷ l) (y ∷ r) = elim (fn x y) [
    | Ordering.lt ↦ let (onlyleft, onlyright) = diff_sorted l (y ∷ r) in (x ∷ onlyleft, onlyright)
    | Ordering.gt ↦ let (onlyleft, onlyright) = diff_sorted (x ∷ l) r in (onlyleft, y ∷ onlyright)
    | Ordering.eq ↦ diff_sorted l r
  ]

  -- `alpm_list_diff`
  unfoldable pub diff : List A → List A → List A
  diff lhs rhs =
      let left = copy lhs in
      let right = copy rhs in
      (diff_sorted (msort left (list_count left)) (msort right (list_count right))).0

  -- The second loop of `alpm_list_cmp_unsorted`: the common start is dropped.
  unfoldable pub skip_same : List A → List A → List A × List A
  skip_same [] right = ([], right)
  skip_same (x ∷ left) [] = (x ∷ left, [])
  skip_same (x ∷ left) (y ∷ right) =
      let rest = skip_same left right in if is_eq (fn x y) then rest else (x ∷ left, y ∷ right)

  -- The inner loop: the first element of the right list that is not matched yet and equals `x`,
  -- and `matched` with its flag set; `none` where there is no such element.
  unfoldable pub match_one : A → List A → List Bool → Option (List Bool)
  match_one x [] matched = none
  match_one x (y ∷ r) [] = none
  match_one x (y ∷ r) (m ∷ matched) =
      if not m && is_eq (fn x y)
      then some (true ∷ matched)
      else elim (match_one x r matched) [ none ↦ none | some flags ↦ some (m ∷ flags) ]

  -- The outer loop.
  unfoldable pub match_all : List A → List A → List Bool → Bool
  match_all [] right matched = true
  match_all (x ∷ l) right matched = elim (match_one x right matched) [
    | none ↦ false
    | some flags ↦ match_all l right flags
  ]

  unfoldable pub cmp_unsorted : List A → List A → Bool
  unfolding same_length skip_same match_one match_all
  cmp_unsorted left right =
      if same_length left right
      then (let (l, r) = skip_same left right in match_all l r (blank r))
      else false

module _ {ℓ κ} {A : Type ℓ} {N : Type κ} (fn : A → N → Ordering) where
  -- `alpm_list_find`
  unfoldable pub find : List A → N → Option A
  find [] needle = none
  find (x ∷ lp) needle = if is_eq (fn x needle) then some x else find lp needle

  -- `alpm_list_remove`: the first element that equals the needle, and the list without it.
  unfoldable pub remove : List A → N → List A × Option A
  remove [] needle = ([], none)
  remove (x ∷ i) needle =
      let (rest, found) = remove i needle in
      if is_eq (fn x needle) then (i, some x) else (x ∷ rest, found)

-- `alpm_list_find_ptr`: a null element is never found, not even by a null needle.
unfoldable pub find_ptr : List ℕ → ℕ → Bool
find_ptr [] needle = false
find_ptr (p ∷ haystack) needle =
    if not (p == 0) && p == needle then true else find_ptr haystack needle

-- `alpm_list_remove_dupes`
unfoldable pub remove_dupes_onto : List ℕ → List ℕ → List ℕ
unfolding find_ptr
remove_dupes_onto newlist [] = newlist
remove_dupes_onto newlist (p ∷ lp) =
    remove_dupes_onto (if find_ptr newlist p then newlist else add newlist p) lp

abbrev pub remove_dupes : List ℕ → List ℕ
remove_dupes = remove_dupes_onto []

-- `alpm_list_find_str` and `alpm_list_remove_str`
abbrev pub find_str : List Str → Str → Option Str
find_str = find strcmp

abbrev pub remove_str : List Str → Str → List Str × Option Str
remove_str = remove strcmp
