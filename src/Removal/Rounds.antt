-- ===== src/Removal/Rounds.antt =====
-- Each round of the two loops makes progress.
use dulge.Base.{
  ◌≡◌, ◌⊎◌, refl, true, false, some, List, [], ◌∷◌, arith, Bool-cases, Option-cases, inl, inr,
}
use dulge.Deps.{
  DepHandle, DepMissing, relaxed, found, find_dep_satisfier, is_missing, is_modified,
  split_modified, check_upgrade, check_reverse_deps, check_reverse, checkdeps,
}
use dulge.Deps.Names.{IsListed}
use dulge.Deps.Check.{AllIn, AllIn-append, AllIn-map}
use dulge.Package.{Pkg, Depend, pkg_find, pkg_find_hashed}
use dulge.Removal.{Db, broken_by}

split_modified-IsListed :
    (rem pkgs : List Pkg) (p : Pkg)
    → (IsListed (split_modified rem [] pkgs).0 p
        → IsListed pkgs p × (found (pkg_find rem p.name) ≡ true))
      × (IsListed (split_modified rem [] pkgs).1 p
          → IsListed pkgs p × (found (pkg_find rem p.name) ≡ false))
unfolding split_modified pkg_find pkg_find_hashed
split_modified-IsListed rem [] p = (λ h. absurd h, λ h. absurd h)
split_modified-IsListed rem (x ∷ pkgs) p =
    let ih = split_modified-IsListed rem pkgs p in
    elim (Bool-cases (is_modified rem [] x)) [
      | inl e ↦ rw (e, IsListed) (λ h. touched e h ih.0, λ h. (inr (ih.1 h).0, (ih.1 h).1))
      | inr e ↦ rw (e, IsListed) (λ h. (inr (ih.0 h).0, (ih.0 h).1), λ h. spared e h ih.1)
    ]
  where
    is_touched : is_modified rem [] x ≡ true → x ≡ p → found (pkg_find rem p.name) ≡ true
    is_touched e q = rw (← q) (ground arith)

    touched :
        {P : Type 0}
        → is_modified rem [] x ≡ true
        → (x ≡ p) ⊎ P
        → (P → IsListed pkgs p × (found (pkg_find rem p.name) ≡ true))
        → ((x ≡ p) ⊎ IsListed pkgs p) × (found (pkg_find rem p.name) ≡ true)
    touched e (inl q) ih = (inl q, is_touched e q)
    touched e (inr h) ih = (inr (ih h).0, (ih h).1)

    is_spared : is_modified rem [] x ≡ false → x ≡ p → found (pkg_find rem p.name) ≡ false
    is_spared e q = rw (← q) (ground arith)

    spared :
        {P : Type 0}
        → is_modified rem [] x ≡ false
        → (x ≡ p) ⊎ P
        → (P → IsListed pkgs p × (found (pkg_find rem p.name) ≡ false))
        → ((x ≡ p) ⊎ IsListed pkgs p) × (found (pkg_find rem p.name) ≡ false)
    spared e (inl q) ih = (inl q, is_spared e q)
    spared e (inr h) ih = (inr (ih h).0, (ih h).1)

find_dep_satisfier-IsListed :
    (pkgs : List Pkg) (d : Depend) (q : Pkg) → find_dep_satisfier pkgs d ≡ some q → IsListed pkgs q
unfolding find_dep_satisfier
find_dep_satisfier-IsListed [] d q h = cc
find_dep_satisfier-IsListed (x ∷ pkgs) d q h = ground (arith, find_dep_satisfier-IsListed pkgs d q)

-- A missing dependency that a removal causes: a package that stays has it, and a package that goes
-- satisfied it.
abbrev pub IsCaused : List Pkg → List Pkg → DepMissing → Type 0
IsCaused stays goes miss =
    ((p : Pkg) × IsListed stays p × (miss.target ≡ p.name))
    × ((q : Pkg) × IsListed goes q × (miss.causingpkg ≡ some q.name))

module _ (handle : DepHandle) (modified dblist : List Pkg) where
  check_reverse_deps-IsCaused :
      (lp : Pkg) (ds : List Depend)
      → AllIn (IsCaused (lp ∷ []) modified) (check_reverse_deps handle modified [] dblist lp ds)
  unfolding check_reverse_deps
  check_reverse_deps-IsCaused lp [] = tt
  check_reverse_deps-IsCaused lp (d ∷ ds) =
      let ih = check_reverse_deps-IsCaused lp ds in
      elim (Option-cases (find_dep_satisfier modified (relaxed handle d))) [
        | inl e ↦ rw (e, check_reverse_deps) ih
        | inr (q, e) ↦ elim (Bool-cases (is_missing handle [] dblist (relaxed handle d))) [
          | inl f ↦
              rw (e, f, check_reverse_deps, AllIn)
                (
                  (
                    (lp, inl refl, refl),
                    (q, find_dep_satisfier-IsListed modified (relaxed handle d) q e, refl),
                  ),
                  ih,
                )
          | inr f ↦ rw (e, f, check_reverse_deps) ih
        ]
      ]

  check_reverse-IsCaused :
      (ls : List Pkg) → AllIn (IsCaused ls modified) (check_reverse handle modified [] dblist ls)
  unfolding check_reverse
  check_reverse-IsCaused [] = tt
  check_reverse-IsCaused (l ∷ ls) =
      AllIn-append _ (check_reverse_deps handle modified [] dblist l l.depends)
        (check_reverse handle modified [] dblist ls)
        (AllIn-map _ _ (λ m ((p, h, e), c). ((p, inl (one p h), e), c))
          (check_reverse_deps handle modified [] dblist l l.depends)
          (check_reverse_deps-IsCaused l l.depends))
        (AllIn-map _ _ (λ m ((p, h, e), c). ((p, inr h, e), c))
          (check_reverse handle modified [] dblist ls) (check_reverse-IsCaused ls))
    where
      one : (p : Pkg) → IsListed (l ∷ []) p → l ≡ p
      one p (inl q) = q
      one p (inr h) = absurd h

-- What `alpm_checkdeps` reports of a removal: each entry names an installed package that is no
-- target, and an installed package that is one.
abbrev pub IsBlamed : List Pkg → List Pkg → DepMissing → Type 0
IsBlamed pkgs rem miss =
    ((p : Pkg) × IsListed pkgs p × (found (pkg_find rem p.name) ≡ false) × (miss.target ≡ p.name))
    × ((q : Pkg) × IsListed pkgs q
        × (found (pkg_find rem q.name) ≡ true)
        × (miss.causingpkg ≡ some q.name))

pub broken_by-IsBlamed :
    (handle : DepHandle) (db : Db) (rem : List Pkg)
    → AllIn (IsBlamed db.pkgcache rem) (broken_by handle db rem)
unfolding checkdeps check_upgrade
broken_by-IsBlamed handle db rem =
    let modified = (split_modified rem [] db.pkgcache).0 in
    let dblist = (split_modified rem [] db.pkgcache).1 in
    AllIn-map _ _
      (λ m ((p, h, e), (q, k, c)).
        let (hp, fp) = (split_modified-IsListed rem db.pkgcache p).1 h in
        let (hq, fq) = (split_modified-IsListed rem db.pkgcache q).0 k in
        ((p, hp, fp, e), (q, hq, fq, c)))
      (check_reverse handle modified [] dblist dblist)
      (check_reverse-IsCaused handle modified dblist dblist)
