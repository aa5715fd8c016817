-- ===== src/Version/Tests.antt =====
-- Version comparison at concrete versions.
use dulge.Base.{Ordering, ◌≡◌, ◌≢◌, refl, some, none, codes, strcmp, str_eq, compare, flip, arith}
use dulge.Version.{
  split_last, parse_evr, showdown, compare_numeric, compare_segments, at_segments, round, rounds,
  rpmvercmp, vercmp_evr, pkg_vercmp, Evr,
}
use dulge.Version.Number.{value, compare_numeric-value}
use dulge.Version.Order.{pkg_vercmp-flip, rounds_terminate}
use dulge.Version.Parse.{parse_evr-evr_string, parse_evr-no_epoch, pkg_vercmp-epoch, evr_string}

run : Unit {0}
unfolding strcmp str_eq split_last parse_evr showdown compare_numeric compare_segments at_segments
    round rounds rpmvercmp vercmp_evr pkg_vercmp
run = tt

older : pkg_vercmp (some (codes "1.5.0-1")) (some (codes "1.10.0-1")) ≡ Ordering.lt
unfolding run
older = refl

epoch_wins : pkg_vercmp (some (codes "1:1.0-1")) (some (codes "2.0-1")) ≡ Ordering.gt
unfolding run
epoch_wins = refl

prerelease : pkg_vercmp (some (codes "1.0rc")) (some (codes "1.0")) ≡ Ordering.lt
unfolding run
prerelease = refl

no_release : pkg_vercmp (some (codes "1.0-1")) (some (codes "1.0")) ≡ Ordering.eq
unfolding run
no_release = refl

compare_numeric-value_example :
    compare_numeric (codes "0010") (codes "9") ≡ compare (value (codes "0010")) (value (codes "9"))
compare_numeric-value_example =
    compare_numeric-value (codes "0010") (codes "9") (refl, (refl, (refl, (refl, tt)))) (refl, tt)

pkg_vercmp-flip_example :
    pkg_vercmp (some (codes "1.0")) (some (codes "1.0.a"))
    ≡ flip (pkg_vercmp (some (codes "1.0.a")) (some (codes "1.0")))
pkg_vercmp-flip_example = pkg_vercmp-flip (some (codes "1.0.a")) (some (codes "1.0"))

rounds_terminate_example : rounds 4 (codes "1.0") (codes "1.1") ≢ none
rounds_terminate_example = rounds_terminate 4 (codes "1.0") (codes "1.1") (omega arith)

abbrev sample : Evr
sample = record { epoch = codes "2"; version = codes "1.0-x"; release = some (codes "3") }

parse_evr-evr_string_example : parse_evr (evr_string sample) ≡ sample
parse_evr-evr_string_example = parse_evr-evr_string sample ((λ e. cc), (refl, tt)) (refl, tt)

parse_evr-no_epoch_example :
    parse_evr (codes "1.0-3")
    ≡ record { epoch = codes "0"; version = codes "1.0"; release = some (codes "3") }
parse_evr-no_epoch_example =
    parse_evr-no_epoch (codes "1.0") (codes "3") (refl, (refl, (refl, tt))) (refl, tt)

pkg_vercmp-epoch_example : pkg_vercmp (some (codes "9:1.0")) (some (codes "10:0.1")) ≡ Ordering.lt
pkg_vercmp-epoch_example =
    pkg_vercmp-epoch (codes "9") (codes "10") (codes "1.0") (codes "0.1") ((λ e. cc), (refl, tt))
      ((λ e. cc), (refl, (refl, tt))) (omega arith)
