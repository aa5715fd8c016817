-- ===== src/EntryName/Tests.antt =====
-- Names of database entries.
use dulge.Base.{◌≡◌, ◌++◌, refl, ◌∷◌, codes, ltb}
use dulge.EntryName.{split, outside, invalid, entry_text, splitname}
use dulge.EntryName.Bounds.{hyphens, is_outside, slash, splitname-hyphens, splitname-parts}
use dulge.Package.{hash_sdbm}
use dulge.Version.{cut_front, split_last}

splitname_desc :
    splitname (codes "gcc-libs-13.2-5/desc")
    ≡ split (codes "gcc-libs") (codes "13.2-5") (hash_sdbm (codes "gcc-libs"))
unfolding splitname split_last cut_front
splitname_desc = refl

splitname_nameless : splitname (codes "-13.2-5") ≡ invalid
unfolding splitname split_last cut_front
splitname_nameless = refl

splitname_one_hyphen : splitname (codes "gcc-5") ≡ outside
unfolding splitname split_last cut_front
splitname_one_hyphen = refl

splitname-hyphens_example :
    is_outside (splitname (codes "lost+found")) ≡ ltb (hyphens (entry_text (codes "lost+found"))) 2
splitname-hyphens_example = splitname-hyphens (codes "lost+found")

splitname-parts_example :
    splitname
      (((codes "gcc-libs" ++ b'-' ∷ codes "13.2") ++ b'-' ∷ codes "5") ++ b'/' ∷ codes "desc")
    ≡ split (codes "gcc-libs") (codes "13.2" ++ b'-' ∷ codes "5") (hash_sdbm (codes "gcc-libs"))
splitname-parts_example =
    splitname-parts (codes "gcc-libs") (codes "13.2") (codes "5") (b'/' ∷ codes "desc") (λ e. cc)
      (refl, (refl, (refl, (refl, tt)))) (refl, tt)
      (refl, (refl, (refl, (refl, (refl, (refl, (refl, (refl, tt))))))))
      (refl, (refl, (refl, (refl, tt)))) (refl, tt) (slash (codes "desc"))
