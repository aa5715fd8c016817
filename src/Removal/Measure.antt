-- ===== src/Removal/Measure.antt =====
-- What falls in each round of the two loops: the number of targets, and the number of installed
-- packages that are no targets.
use dulge.AlpmList
use dulge.Base.{
  ℕ, suc, ◌≤◌, ◌<◌, ◌≡◌, refl, ap, true, false, none, some, List, [], ◌∷◌, ◌++◌, Str, length, arith,
  Bool-cases, Option-cases, inl, inr, str_eq, str_eq_iff, is_eq,
}
use dulge.Deps.{DepMissing, found}
use dulge.Package.{Pkg, hash_sdbm, same_name, pkg_cmp, pkg_find, pkg_find_hashed}
use dulge.Removal.{Db, pull, pull_all, drop, drop_all}
use dulge.Deps.Names.{IsListed, outside, add-le, add-lt, finds_name, finds_listed}

cmp_self : (p : Pkg) → is_eq (pkg_cmp p p) ≡ true
unfolding pkg_cmp str_eq
cmp_self p = (str_eq_iff p.name p.name).1 refl

remove-le : (rem : List Pkg) (pkg : Pkg) → length (AlpmList.remove pkg_cmp rem pkg).0 ≤ length rem
unfolding AlpmList.remove
remove-le [] pkg = omega arith
remove-le (x ∷ rem) pkg = ground (arith, remove-le rem pkg)

remove-lt :
    (rem : List Pkg) (hash : ℕ) (name : Str) (pkg : Pkg)
    → pkg_find_hashed rem hash name ≡ some pkg
    → length (AlpmList.remove pkg_cmp rem pkg).0 < length rem
unfolding AlpmList.remove pkg_find_hashed
remove-lt [] hash name pkg h = cc
remove-lt (x ∷ rem) hash name pkg h = elim (Bool-cases (same_name x.name_hash x.name hash name)) [
  | inl e ↦ at_head (found_head (rw e at h))
  | inr e ↦ let ih = remove-lt rem hash name pkg (rw e at h) in ground arith
]
  where
    found_head : some x ≡ some pkg → x ≡ pkg
    found_head q = cc

    at_head : x ≡ pkg → length (AlpmList.remove pkg_cmp (x ∷ rem) pkg).0 < suc (length rem)
    at_head q = let s : is_eq (pkg_cmp x pkg) ≡ true = rw (← q) (cmp_self x) in rw s (omega arith)

drop-le : (rem : List Pkg) (miss : DepMissing) → length (drop rem miss) ≤ length rem
unfolding drop
drop-le rem miss = elim (Option-cases miss.causingpkg) [
  | inl e ↦ rw (e, drop) (omega arith)
  | inr (name, e) ↦ elim (Option-cases (pkg_find rem name)) [
    | inl f ↦ rw (e, drop, f) (omega arith)
    | inr (pkg, f) ↦ rw (e, drop, f) (remove-le rem pkg)
  ]
]

drop-lt :
    (rem : List Pkg) (miss : DepMissing) (name : Str)
    → miss.causingpkg ≡ some name
    → found (pkg_find rem name) ≡ true
    → length (drop rem miss) < length rem
unfolding drop pkg_find
drop-lt rem miss name e h = elim (Option-cases (pkg_find rem name)) [
  | inl f ↦ absurd (ground arith)
  | inr (pkg, f) ↦ rw (e, drop, f) (remove-lt rem (hash_sdbm name) name pkg f)
]

pub drop_all-le : (rem : List Pkg) (lp : List DepMissing) → length (drop_all rem lp) ≤ length rem
unfolding drop_all
drop_all-le rem [] = omega arith
drop_all-le rem (miss ∷ lp) = omega (arith, drop_all-le (drop rem miss) lp, drop-le rem miss)

-- A round drops a target if the first entry blames one.
pub drop_all-lt :
    (rem : List Pkg) (miss : DepMissing) (lp : List DepMissing) (name : Str)
    → miss.causingpkg ≡ some name
    → found (pkg_find rem name) ≡ true
    → length (drop_all rem (miss ∷ lp)) < length rem
unfolding drop_all
drop_all-lt rem miss lp name e h =
    omega (arith, drop_all-le (drop rem miss) lp, drop-lt rem miss name e h)

pull-le :
    (db : Db) (pkgs rem : List Pkg) (miss : DepMissing)
    → outside pkgs (pull db rem miss) ≤ outside pkgs rem
unfolding pull
pull-le db pkgs rem miss = elim (Option-cases (db.pkgfromcache miss.target)) [
  | inl e ↦ rw (e, pull) (omega arith)
  | inr (info, e) ↦ elim (Bool-cases (found (pkg_find rem info.name))) [
    | inl f ↦ rw (e, pull, f) (omega arith)
    | inr f ↦ rw (e, pull, f) (add-le pkgs rem info)
  ]
]

pub pull_all-le :
    (db : Db) (pkgs rem : List Pkg) (lp : List DepMissing)
    → outside pkgs (pull_all db rem lp) ≤ outside pkgs rem
unfolding pull_all
pull_all-le db pkgs rem [] = omega arith
pull_all-le db pkgs rem (miss ∷ lp) =
    omega (arith, pull_all-le db pkgs (pull db rem miss) lp, pull-le db pkgs rem miss)

-- What the lookup in the table of the cache has to do with the list of the cache.
pub record IsCache (db : Db) : Type 0 where
  pub finds : (name : Str) → db.pkgfromcache name ≡ pkg_find db.pkgcache name
  pub hashed : (p : Pkg) → IsListed db.pkgcache p → p.name_hash ≡ hash_sdbm p.name

-- A round pulls a package if the target of the first entry is installed and no target yet.
pub pull_all-lt :
    (db : Db) (rem : List Pkg) (miss : DepMissing) (lp : List DepMissing) (p : Pkg)
    → IsCache db
    → IsListed db.pkgcache p
    → miss.target ≡ p.name
    → found (pkg_find rem p.name) ≡ false
    → outside db.pkgcache (pull_all db rem (miss ∷ lp)) < outside db.pkgcache rem
unfolding pull_all pull
pull_all-lt db rem miss lp p c l t n =
    let le = pull_all-le db db.pkgcache (pull db rem miss) lp in
    elim (Option-cases (pkg_find db.pkgcache p.name)) [
      | inl e ↦ absurd (not_found e (finds_listed db.pkgcache p l (c.hashed p l)))
      | inr (info, e) ↦
          let (li, same) = named info e in
          let step : pull db rem miss ≡ rem ++ info ∷ [] =
            rw (t, c.finds p.name, e, pull, same, n) in
          let lt = add-lt db.pkgcache rem info li (c.hashed info li) (rw same n) in
          omega (arith, le, ap (outside db.pkgcache) step)
    ]
  where
    not_found : pkg_find db.pkgcache p.name ≡ none → found (pkg_find db.pkgcache p.name) ≡ true → ⊥
    not_found e f = ground arith

    named :
        (info : Pkg)
        → pkg_find db.pkgcache p.name ≡ some info
        → IsListed db.pkgcache info × (info.name ≡ p.name)
    named info e = finds_name db.pkgcache (hash_sdbm p.name) p.name info (unfold pkg_find in e)
