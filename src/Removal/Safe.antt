-- ===== src/Removal/Safe.antt =====
-- `_alpm_remove_prepare`: its loops end, and what it prepares leaves no dependency unsatisfied.
use dulge.AlpmList
use dulge.Base.{
  ℕ, zero, suc, ◌≤◌, ◌≡◌, refl, false, Option, some, List, [], ◌∷◌, ◌++◌, length, arith, Bool-cases,
  Option-cases, inl, inr, is_eq,
}
use dulge.Deps.{DepHandle, DepMissing, found}
use dulge.Deps.Check.{AllIn, Holds, untouched_pkgs}
use dulge.Package.{Pkg, pkg_find, pkg_cmp}
use dulge.Removal.{
  Db, Flags, pull, pull_all, cascade, drop, drop_all, keep_needed, broken_by, Prepared, prepared,
  unsatisfied_deps,
}
use dulge.Deps.Names.{IsListed, outside, outside-le}
use dulge.Removal.Measure.{IsCache, pull_all-lt, drop_all-lt}
use dulge.Removal.Rounds.{IsBlamed, broken_by-IsBlamed}

-- The second list has every package of the first.
abbrev pub Within : List Pkg → List Pkg → Type 0
Within xs ys = (p : Pkg) → IsListed xs p → IsListed ys p

add-Within : (xs : List Pkg) (x : Pkg) → Within xs (xs ++ x ∷ [])
add-Within [] x p h = absurd h
add-Within (y ∷ xs) x p (inl q) = inl q
add-Within (y ∷ xs) x p (inr h) = inr (add-Within xs x p h)

pull-Within : (db : Db) (rem : List Pkg) (miss : DepMissing) → Within rem (pull db rem miss)
unfolding pull
pull-Within db rem miss = elim (Option-cases (db.pkgfromcache miss.target)) [
  | inl e ↦ rw (e, pull) (λ p h. h)
  | inr (info, e) ↦ elim (Bool-cases (found (pkg_find rem info.name))) [
    | inl f ↦ rw (e, pull, f) (λ p h. h)
    | inr f ↦ rw (e, pull, f) (add-Within rem info)
  ]
]

pull_all-Within :
    (db : Db) (rem : List Pkg) (lp : List DepMissing) → Within rem (pull_all db rem lp)
unfolding pull_all
pull_all-Within db rem [] p h = h
pull_all-Within db rem (miss ∷ lp) p h =
    pull_all-Within db (pull db rem miss) lp p (pull-Within db rem miss p h)

cons-Within : (x : Pkg) (xs ys : List Pkg) → Within xs ys → Within (x ∷ xs) (x ∷ ys)
cons-Within x xs ys w p (inl q) = inl q
cons-Within x xs ys w p (inr h) = inr (w p h)

remove-Within : (rem : List Pkg) (pkg : Pkg) → Within (AlpmList.remove pkg_cmp rem pkg).0 rem
unfolding AlpmList.remove
remove-Within [] pkg = λ p h. h
remove-Within (x ∷ rem) pkg = elim (Bool-cases (is_eq (pkg_cmp x pkg))) [
  | inl e ↦ rw e (λ p h. inr h)
  | inr e ↦ rw e (cons-Within x (AlpmList.remove pkg_cmp rem pkg).0 rem (remove-Within rem pkg))
]

drop-Within : (rem : List Pkg) (miss : DepMissing) → Within (drop rem miss) rem
unfolding drop
drop-Within rem miss = elim (Option-cases miss.causingpkg) [
  | inl e ↦ rw (e, drop) (λ p h. h)
  | inr (name, e) ↦ elim (Option-cases (pkg_find rem name)) [
    | inl f ↦ rw (e, drop, f) (λ p h. h)
    | inr (pkg, f) ↦ rw (e, drop, f) (remove-Within rem pkg)
  ]
]

drop_all-Within : (rem : List Pkg) (lp : List DepMissing) → Within (drop_all rem lp) rem
unfolding drop_all
drop_all-Within rem [] p h = h
drop_all-Within rem (miss ∷ lp) p h =
    drop-Within rem miss p (drop_all-Within (drop rem miss) lp p h)

module _ (handle : DepHandle) (db : Db) where
  -- A round that starts with these entries is one of `alpm_checkdeps`.
  blamed :
      (rem : List Pkg) (miss : DepMissing) (lp : List DepMissing)
      → broken_by handle db rem ≡ miss ∷ lp
      → IsBlamed db.pkgcache rem miss
  blamed rem miss lp e = (rw e at (broken_by-IsBlamed handle db rem)).0

  cascade_loop :
      IsCache db
      → (fuel : ℕ) (rem : List Pkg) (lp : List DepMissing) → broken_by handle db rem ≡ lp
      → outside db.pkgcache rem ≤ fuel
      → (r : List Pkg) × (cascade fuel handle db rem lp ≡ some r)
        × (broken_by handle db r ≡ [])
        × Within rem r
  unfolding cascade
  cascade_loop c fuel rem [] e l = (rem, refl, e, λ p h. h)
  cascade_loop c zero rem (miss ∷ lp) e l =
      let ((p, lp', n, t), q) = blamed rem miss lp e in
      let lt = pull_all-lt db rem miss lp p c lp' t n in absurd (omega (arith, lt, l))
  cascade_loop c (suc fuel) rem (miss ∷ lp) e l =
      let ((p, lp', n, t), q) = blamed rem miss lp e in
      let lt = pull_all-lt db rem miss lp p c lp' t n in
      let rem' = pull_all db rem (miss ∷ lp) in
      let (r, run, done, w) =
        cascade_loop c fuel rem' (broken_by handle db rem') refl (omega arith) in
      (r, run, done, λ x h. w x (pull_all-Within db rem (miss ∷ lp) x h))

  keep_needed_loop :
      (fuel : ℕ) (rem : List Pkg) (lp : List DepMissing)
      → broken_by handle db rem ≡ lp
      → length rem ≤ fuel
      → (r : List Pkg) × (keep_needed fuel handle db rem lp ≡ some r)
        × (broken_by handle db r ≡ [])
        × Within r rem
  unfolding keep_needed
  keep_needed_loop fuel rem [] e l = (rem, refl, e, λ p h. h)
  keep_needed_loop zero rem (miss ∷ lp) e l =
      let (p, (q, lq, n, cause)) = blamed rem miss lp e in
      let lt = drop_all-lt rem miss lp q.name cause n in absurd (omega (arith, lt, l))
  keep_needed_loop (suc fuel) rem (miss ∷ lp) e l =
      let (p, (q, lq, n, cause)) = blamed rem miss lp e in
      let lt = drop_all-lt rem miss lp q.name cause n in
      let rem' = drop_all rem (miss ∷ lp) in
      let (r, run, done, w) =
        keep_needed_loop fuel rem' (broken_by handle db rem') refl (omega arith) in
      (r, run, done, λ x h. drop_all-Within rem (miss ∷ lp) x (w x h))

  -- `remove_prepare_cascade` ends for every list of targets, after at most one round for each
  -- installed package, if the package cache is consistent (`IsCache`): the lookup of a name in its table
  -- finds what a search of its list finds, and each package has the hash of its name. It keeps the
  -- targets, and adds what is needed for `alpm_checkdeps` to report nothing of the removal.
  pub cascade-ends :
      IsCache db
      → (rem : List Pkg) (rounds : ℕ) → length db.pkgcache ≤ rounds
      → (r : List Pkg) × (cascade rounds handle db rem (broken_by handle db rem) ≡ some r)
        × (broken_by handle db r ≡ [])
        × Within rem r
  cascade-ends c rem rounds l =
      cascade_loop c rounds rem (broken_by handle db rem) refl
        (omega (arith, l, outside-le db.pkgcache rem))

  -- `remove_prepare_keep_needed` ends for every list of targets, after at most one round for each
  -- target: it keeps none but targets, and `alpm_checkdeps` reports nothing of their removal.
  pub keep_needed-ends :
      (rem : List Pkg) (rounds : ℕ)
      → length rem ≤ rounds
      → (r : List Pkg) × (keep_needed rounds handle db rem (broken_by handle db rem) ≡ some r)
        × (broken_by handle db r ≡ [])
        × Within r rem
  keep_needed-ends rem rounds l = keep_needed_loop rounds rem (broken_by handle db rem) refl l

-- After these packages are gone, every dependency of every package that stays is satisfied.
abbrev pub Keeps : DepHandle → Db → List Pkg → Type 0
Keeps handle db remove =
    AllIn (λ (p : Pkg). AllIn (Holds handle [] (untouched_pkgs remove [] db.pkgcache)) p.depends)
      (untouched_pkgs remove [] db.pkgcache)

-- What a preparation comes to: a list of targets that may be removed, or, where no flag says what to
-- do about it, the broken dependencies.
pub data Result (flags : Flags) (handle : DepHandle) (db : Db) (outcome : Option Prepared)
    : Type 0 where
  done :
      (r : List Pkg)
      → outcome ≡ some (prepared r)
      → Keeps handle db r
      → Result flags handle db outcome
  refused :
      (miss : DepMissing) (lp : List DepMissing)
      → outcome ≡ some (unsatisfied_deps (miss ∷ lp))
      → flags.cascade ≡ false
      → flags.unneeded ≡ false
      → Result flags handle db outcome
