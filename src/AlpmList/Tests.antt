-- ===== src/AlpmList/Tests.antt =====
-- Lists of strings and of numbers: runs, and the theorems at concrete lists.
use mathlib.Core.List.{Perm, reverse}
use dulge.Base.{
  ◌⊎◌, none, some, ℕ, ◌-◌, ◌≡◌, ◌↔◌, refl, true, List, [], ◌∷◌, Str, codes, strcmp, arith,
}
use dulge.AlpmList.{
  remove, add_sorted, list_reverse, msort, diff, cmp_unsorted, find_ptr, remove_dupes,
}
use dulge.AlpmList.Diff.{diff-count}
use dulge.AlpmList.Dupes.{
  Avoids, Cut, remove_first, list_reverse-eq, occurrences, remove_dupes_once,
}
use dulge.AlpmList.Order.{IsSorted, count, strcmp-IsOrder, to_nat}
use dulge.AlpmList.Sort.{add_sorted-IsSorted, msort_correct}
use dulge.AlpmList.Unsorted.{cmp_unsorted_iff, strcmp-IsEquality}

abbrev names : List Str
names = codes "foo" ∷ codes "bar" ∷ codes "foo" ∷ []

abbrev other_names : List Str
other_names = codes "foo" ∷ codes "baz" ∷ []

msort_correct_example : IsSorted strcmp (msort strcmp names 3) × Perm (msort strcmp names 3) names
msort_correct_example = msort_correct strcmp-IsOrder names 3 refl

diff-count_example :
    count strcmp (codes "foo") (diff strcmp names other_names)
    ≡ count strcmp (codes "foo") names - count strcmp (codes "foo") other_names
diff-count_example = diff-count strcmp-IsOrder (codes "foo") names other_names

cmp_unsorted_iff_example :
    (cmp_unsorted strcmp names other_names ≡ true)
    ↔ ((a : Str) → count strcmp a names ≡ count strcmp a other_names)
cmp_unsorted_iff_example = cmp_unsorted_iff strcmp strcmp-IsEquality names other_names

abbrev pointers : List ℕ
pointers = 8 ∷ 16 ∷ 8 ∷ []

remove_dupes_once_example :
    (find_ptr (remove_dupes pointers) 8 ≡ find_ptr pointers 8)
    × (occurrences 8 (remove_dupes pointers) ≡ to_nat (find_ptr pointers 8))
remove_dupes_once_example = remove_dupes_once pointers 8 (omega arith)

abbrev sorted_names : List Str
sorted_names = codes "bar" ∷ codes "foo" ∷ []

add_sorted-IsSorted_example : IsSorted strcmp (add_sorted strcmp sorted_names (codes "baz"))
unfolding strcmp
add_sorted-IsSorted_example =
    add_sorted-IsSorted strcmp-IsOrder sorted_names (codes "baz") (((refl, tt)), (tt, tt))

remove_first_example :
    ((remove strcmp names (codes "foo") ≡ (names, none)) × Avoids strcmp names (codes "foo"))
    ⊎ ((rest : List Str) × (x : Str) × (remove strcmp names (codes "foo") ≡ (rest, some x))
        × Cut strcmp names (codes "foo") rest x)
remove_first_example = remove_first strcmp names (codes "foo")

list_reverse-eq_example : list_reverse pointers ≡ reverse pointers
list_reverse-eq_example = list_reverse-eq pointers
