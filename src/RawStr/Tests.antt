-- ===== src/RawStr/Tests.antt =====
-- Runs of the comparison.
use dulge.Base.{Ordering, ◌≡◌, refl, codes, flip, arith}
use dulge.RawStr.{raw_cmp, raw_ncmp}
use dulge.RawStr.Laws.{raw_cmp-flip, raw_ncmp-raw_cmp}

same_word : raw_cmp (codes "Foo") (codes "fOO") ≡ Ordering.eq
unfolding raw_cmp
same_word = refl

shorter : raw_cmp (codes "fo") (codes "FOO") ≡ Ordering.lt
unfolding raw_cmp
shorter = refl

same_start : raw_ncmp (codes "FOObar") (codes "fooBAZ") 5 ≡ Ordering.eq
unfolding raw_ncmp
same_start = refl

raw_cmp-flip_example : raw_cmp (codes "b") (codes "A") ≡ flip (raw_cmp (codes "A") (codes "b"))
raw_cmp-flip_example = raw_cmp-flip (codes "A") (codes "b")

raw_ncmp-raw_cmp_example :
    raw_ncmp (codes "foo") (codes "FOB") 4 ≡ raw_cmp (codes "foo") (codes "FOB")
raw_ncmp-raw_cmp_example = raw_ncmp-raw_cmp (codes "foo") (codes "FOB") 4 (omega arith)
