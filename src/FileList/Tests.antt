-- ===== src/FileList/Tests.antt =====
-- Two sorted file lists: runs, and the theorem on their difference.
use dulge.AlpmList.Order.{count}
use dulge.Base.{◌-◌, ◌≡◌, refl, flip, List, [], ◌∷◌, Str, codes, strcmp, Ordering}
use dulge.FileList.{difference, pathcmp, intersection}
use dulge.FileList.Laws.{difference-count, pathcmp-flip, pathcmp-slash}

abbrev left : List Str
left = codes "etc/" ∷ codes "etc/a" ∷ codes "usr" ∷ []

abbrev right : List Str
right = codes "etc/" ∷ codes "usr/" ∷ []

only_left : difference left right ≡ codes "etc/a" ∷ codes "usr" ∷ []
unfolding difference strcmp
only_left = refl

link_meets_directory : intersection left right ≡ codes "usr" ∷ []
unfolding intersection pathcmp
link_meets_directory = refl

difference-count_example :
    count strcmp (codes "usr") (difference left right)
    ≡ count strcmp (codes "usr") left - count strcmp (codes "usr") right
unfolding strcmp
difference-count_example =
    difference-count (codes "usr") left right ((refl, (refl, tt)), ((refl, tt), (tt, tt)))
      ((refl, tt), (tt, tt))

pathcmp-flip_example :
    pathcmp (codes "usr/") (codes "usr") ≡ flip (pathcmp (codes "usr") (codes "usr/"))
pathcmp-flip_example = pathcmp-flip (codes "usr") (codes "usr/")

pathcmp-slash_example : pathcmp (codes "usr") (codes "usr/") ≡ Ordering.eq
unfolding pathcmp
pathcmp-slash_example = pathcmp-slash (codes "usr")
