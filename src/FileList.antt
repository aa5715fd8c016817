-- ===== src/FileList.antt =====
-- Sorted lists of files, lib/libalpm/filelist.c, as the lists of their names: the two loops with a
-- counter in each array are recursions on the two rests. The sort stands with the local database; the
-- lookup, which the C library performs, is not modelled.
pub mod Laws
mod Tests
use dulge.Base.{
  ℕ, ◌+◌, ◌-◌, Ordering, Bool, true, false, not, ◌&&◌, List, [], ◌∷◌, Str, ltb, ◌==◌, if◌then◌else◌,
  compare, strcmp,
}
use dulge.RawStr.{biased, head}

-- `_alpm_filelist_difference`
unfoldable pub difference : List Str → List Str → List Str
difference [] files_b = []
difference (a ∷ files_a) [] = a ∷ files_a
difference (a ∷ files_a) (b ∷ files_b) = elim (strcmp a b) [
  | Ordering.lt ↦ a ∷ difference files_a (b ∷ files_b)
  | Ordering.gt ↦ difference (a ∷ files_a) files_b
  | Ordering.eq ↦ difference files_a files_b
]

-- Where one path has ended, a slash of the other is skipped; then the sign of the difference of the
-- two characters, which may be the nulls at the end.
abbrev pub at_difference : Str → Str → Ordering
at_difference [] [] = Ordering.eq
at_difference [] (d ∷ p2) =
    if d == b'/' then compare (biased 0) (biased (head p2)) else compare (biased 0) (biased d)
at_difference (c ∷ p1) [] =
    if c == b'/' then compare (biased (head p1)) (biased 0) else compare (biased c) (biased 0)
at_difference (c ∷ p1) (d ∷ p2) = compare (biased c) (biased d)

-- `_alpm_filelist_pathcmp`
unfoldable pub pathcmp : Str → Str → Ordering
pathcmp [] p2 = at_difference [] p2
pathcmp (c ∷ p1) [] = at_difference (c ∷ p1) []
pathcmp (c ∷ p1) (d ∷ p2) =
    let rest = pathcmp p1 p2 in if c == d then rest else at_difference (c ∷ p1) (d ∷ p2)

-- `strA[strlen(strA) - 1] == '/'`; no file has the empty name, for which this would read outside
-- the string.
abbrev pub is_directory : Str → Bool
is_directory [] = false
is_directory (c ∷ []) = c == b'/'
is_directory (c ∷ d ∷ s) = is_directory (d ∷ s)

-- `_alpm_filelist_intersection`
unfoldable pub intersection : List Str → List Str → List Str
unfolding pathcmp
intersection [] files_b = []
intersection (a ∷ files_a) [] = []
intersection (a ∷ files_a) (b ∷ files_b) = elim (pathcmp a b) [
  | Ordering.lt ↦ intersection files_a (b ∷ files_b)
  | Ordering.gt ↦ intersection (a ∷ files_a) files_b
  | Ordering.eq ↦
      let rest = intersection files_a files_b in
      if not (is_directory a && is_directory b) then a ∷ rest else rest
]
