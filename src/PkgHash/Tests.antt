-- ===== src/PkgHash/Tests.antt =====
-- The hash table on two packages: runs, and the theorems at concrete tables.
use dulge.Base.{
  ℕ, ◌≤◌, ◌≡◌, ◌⊎◌, refl, true, false, Option, none, some, [], ◌∷◌, Str, codes, replicate, arith,
  inl, inr, strcmp, str_eq, ◌>>=◌,
}
use dulge.AlpmList.{mmerge}
use dulge.Package.{pkg_find, Pkg, explicit_reason, hash_sdbm, sdbm_from, pkg_cmp}
use dulge.PkgHash.{
  Node, Slots, PkgHash, slot, prime_above, create, probe, get_hash_position, grown, rebin, rehash,
  place, pkghash_add_pkg, add, locate, find, remove, remove_at, remove_node, fill_holes,
  move_one_entry, run_end,
}
use dulge.PkgHash.Cache.{IsListed, pkgs_of, find-pkg_find, add-IsListed}
use dulge.PkgHash.Find.{IsValid, find_present, find_absent}
use dulge.PkgHash.Grow.{
  IsFresh, Added, Rehashed, create-IsFresh, rehash-Rehashed, pkghash_add_pkg-Added,
}
use dulge.PkgHash.Insert.{IsNew}
use dulge.PkgHash.Probe.{FirstNull, get_hash_position-FirstNull}
use dulge.PkgHash.Table.{pos, dist}
use dulge.PkgHash.Remove.{Removed, remove-Removed, remove_absent}
use dulge.PkgHash.View.{Updated, find-pkghash_add_pkg, find-remove}

run : Unit {0}
unfolding strcmp str_eq mmerge sdbm_from hash_sdbm pkg_cmp prime_above create probe rebin rehash
    place pkghash_add_pkg locate find remove remove_at remove_node fill_holes move_one_entry run_end
run = tt

abbrev make_pkg : ℕ → Str → Pkg
make_pkg addr name = record {
  addr = addr;
  name = name;
  version = codes "1.0-1";
  name_hash = hash_sdbm name;
  arch = none;
  reason = explicit_reason;
  groups = [];
  depends = [];
  conflicts = [];
  provides = [];
  replaces = [];
}

abbrev foo : Node
foo = record { ptr = 1; pkg = make_pkg 100 (codes "foo") }

abbrev bar : Node
bar = record { ptr = 2; pkg = make_pkg 200 (codes "bar") }

abbrev empty_table : PkgHash
empty_table = record {
  hash_table = replicate 11 none;
  list = [];
  buckets = 11;
  entries = 0;
  limit = 7;
}

created : create 3 ≡ some empty_table
unfolding run
created = refl

create-IsFresh_example : IsFresh 3 empty_table
create-IsFresh_example = create-IsFresh 3 empty_table created

empty-IsValid : IsValid empty_table
empty-IsValid = (create-IsFresh 3 empty_table created).valid

abbrev two : Option PkgHash
two = do h ← add empty_table foo; add h bar

found_again : (two >>= λ h. find h (codes "bar")) ≡ some (some bar.pkg)
unfolding run
found_again = refl

gone : (two >>= λ h. remove h foo.pkg >>= λ r. find r.0 (codes "foo")) ≡ some none
unfolding run
gone = refl

foo-IsNew : IsNew empty_table.hash_table foo
foo-IsNew = record { hashed = refl; other = λ i m e. absurd (nothing i m e) }
  where
    nothing : (i : ℕ) (m : Node) → slot empty_table.hash_table i ≡ some m → ⊥
    nothing i m e = let n = (create-IsFresh 3 empty_table created).none_in i in cc

pkghash_add_pkg-Added_example :
    (pkghash_add_pkg empty_table foo true ≡ none) × (7 ≤ 0) × (create (grown 11) ≡ none)
    ⊎ ((h' : PkgHash) × (pkghash_add_pkg empty_table foo true ≡ some h') × Added empty_table foo h')
pkghash_add_pkg-Added_example = pkghash_add_pkg-Added empty_table foo true empty-IsValid foo-IsNew

with_foo : (h' : PkgHash) × Added empty_table foo h'
with_foo = elim (pkghash_add_pkg-Added empty_table foo false empty-IsValid foo-IsNew) [
  | inl (e, l, c) ↦ absurd (ground arith)
  | inr (h', e, a) ↦ (h', a)
]

find-pkghash_add_pkg_example :
    ((pkghash_add_pkg empty_table foo true ≡ none)
      × (empty_table.limit ≤ empty_table.entries)
      × (create (grown empty_table.buckets) ≡ none))
    ⊎ ((h' : PkgHash) × (pkghash_add_pkg empty_table foo true ≡ some h')
        × IsValid h'
        × Updated empty_table (codes "foo") (some foo.pkg) h')
find-pkghash_add_pkg_example = find-pkghash_add_pkg empty_table foo true empty-IsValid foo-IsNew

foo_at : (i : ℕ) × (slot with_foo.0.hash_table i ≡ some foo)
foo_at = (with_foo.1.nodes foo).1 (inl refl)

find_present_example : find with_foo.0 (codes "foo") ≡ some (some foo.pkg)
find_present_example = find_present with_foo.0 foo_at.0 foo with_foo.1.valid foo_at.1

find_absent_example : find empty_table (codes "baz") ≡ some none
find_absent_example =
    find_absent empty_table (codes "baz") empty-IsValid (λ i m e. absurd (nothing i m e))
  where
    nothing : (i : ℕ) (m : Node) → slot empty_table.hash_table i ≡ some m → ⊥
    nothing i m e = let n = (create-IsFresh 3 empty_table created).none_in i in cc

rehash-Rehashed_example :
    (create (grown 11) ≡ none) × (rehash empty_table ≡ none)
    ⊎ ((h' : PkgHash) × Rehashed empty_table h')
rehash-Rehashed_example = rehash-Rehashed empty_table empty-IsValid

abbrev crowded : Slots
crowded = some foo ∷ some bar ∷ none ∷ []

get_hash_position-FirstNull_example :
    (k : ℕ) × (k ≤ dist 3 0 2)
    × (get_hash_position 9 crowded 3 ≡ some (pos 3 0 k))
    × FirstNull 3 crowded 0 k
get_hash_position-FirstNull_example = get_hash_position-FirstNull 3 crowded 9 2 (omega arith) refl

remove-Removed_example :
    (h' : PkgHash) × (remove with_foo.0 foo.pkg ≡ some (h', some foo.pkg))
    × Removed with_foo.0 foo h'
remove-Removed_example =
    remove-Removed with_foo.0 foo_at.0 foo foo.pkg with_foo.1.valid foo_at.1 refl refl

abbrev without_foo : (h' : PkgHash) × Removed with_foo.0 foo h'
without_foo =
    let (h', run, r) =
      remove-Removed with_foo.0 foo_at.0 foo foo.pkg with_foo.1.valid foo_at.1 refl refl in
    (h', r)

find-remove_example :
    (h' : PkgHash) × (removed : Pkg) × (remove with_foo.0 foo.pkg ≡ some (h', some removed))
    × (find with_foo.0 (codes "foo") ≡ some (some removed))
    × IsValid h'
    × Updated with_foo.0 (codes "foo") none h'
find-remove_example =
    find-remove with_foo.0 foo_at.0 foo foo.pkg with_foo.1.valid foo_at.1 refl refl

remove_absent_example : remove empty_table bar.pkg ≡ some (empty_table, none)
remove_absent_example =
    remove_absent empty_table bar.pkg empty-IsValid (λ i m e. absurd (nothing i m e))
  where
    nothing : (i : ℕ) (m : Node) → slot empty_table.hash_table i ≡ some m → ⊥
    nothing i m e = let n = (create-IsFresh 3 empty_table created).none_in i in cc

empty-IsListed : IsListed empty_table
empty-IsListed m = (λ (i, e). absurd (nothing m i e), λ h. absurd h)
  where
    nothing : (m : Node) (i : ℕ) → slot empty_table.hash_table i ≡ some m → ⊥
    nothing m i e = let n = (create-IsFresh 3 empty_table created).none_in i in cc

table_of_foo :
    (h' : PkgHash) × (pkghash_add_pkg empty_table foo false ≡ some h') × Added empty_table foo h'
table_of_foo = elim (pkghash_add_pkg-Added empty_table foo false empty-IsValid foo-IsNew) [
  | inl (e, l, c) ↦ absurd (ground arith)
  | inr r ↦ r
]

find-pkg_find_example :
    find table_of_foo.0 (codes "foo") ≡ some (pkg_find (pkgs_of table_of_foo.0) (codes "foo"))
find-pkg_find_example =
    find-pkg_find table_of_foo.0 (codes "foo") table_of_foo.2.valid (
      add-IsListed empty_table table_of_foo.0 foo false empty-IsListed table_of_foo.1
        table_of_foo.2)
