-- ===== src/Resolve/Ends.antt =====
-- `_alpm_resolvedeps` as a whole.
use dulge.Base.{
  ℕ, zero, suc, ◌≡◌, ◌⊎◌, refl, ◌∙◌, Bool, true, false, some, List, [], ◌∷◌, ◌++◌, inl, inr, arith,
  Bool-cases, length,
}
use dulge.Deps.{
  DepHandle, DepMissing, relaxed, found, is_missing, check_upgrade_deps, check_upgrade, checkdeps,
}
use dulge.Deps.Check.{AllIn, untouched_pkgs}
use dulge.Deps.Names.{IsListed, outside-le, add-lt}
use dulge.Package.{Pkg, Depend, pkg_find, hash_sdbm}
use dulge.Resolve.{Resolver, Resolution, restore, resolvedeps}
use dulge.Resolve.Closed.{Met, AllCared, Grown-refl, append_assoc, IsListed-append-right}
use dulge.Resolve.Steps.{IsUniverse, Post, Loop, Works, resolve_all-Loop}

AllIn-left {ℓ κ} : {A : Type ℓ} (P : A → Type κ) (xs ys : List A) → AllIn P (xs ++ ys) → AllIn P xs
AllIn-left P [] ys h = tt
AllIn-left P (x ∷ xs) ys h = (h.0, AllIn-left P xs ys h.1)

-- A dependency of the upgrade list is reported, or not missing.
upgrade_deps-AllIn :
    (handle : DepHandle) (upgrade dblist : List Pkg) (tp : Pkg) (P : Depend → Type 0)
    (ds : List Depend)
    → AllIn (λ (m : DepMissing). P m.depend) (check_upgrade_deps handle upgrade dblist tp ds)
    → AllIn
        (λ (d : Depend).
          (is_missing handle upgrade dblist (relaxed handle d) ≡ false) ⊎ P (relaxed handle d))
        ds
unfolding check_upgrade_deps
upgrade_deps-AllIn handle upgrade dblist tp P [] h = tt
upgrade_deps-AllIn handle upgrade dblist tp P (d ∷ ds) h =
    elim (Bool-cases (is_missing handle upgrade dblist (relaxed handle d))) [
      | inl e ↦
          let k = rw (e, check_upgrade_deps) at h in
          (inr k.0, upgrade_deps-AllIn handle upgrade dblist tp P ds k.1)
      | inr e ↦ (
        inl e,
        upgrade_deps-AllIn handle upgrade dblist tp P ds (rw (e, check_upgrade_deps) at h),
      )
    ]

module _ (handle : Resolver) (localpkgs preferred rem universe : List Pkg)
    (whole : IsUniverse handle preferred universe)
    (hashed : (q : Pkg) → IsListed universe q → q.name_hash ≡ hash_sdbm q.name) where
  checkdeps-AllCared :
      (pkg : Pkg) (packages : List Pkg)
      → AllIn
          (λ (m : DepMissing). Met handle preferred rem packages m.depend)
          (checkdeps handle.deps localpkgs rem (pkg ∷ []) false)
      → AllCared handle localpkgs preferred rem packages pkg
  unfolding checkdeps check_upgrade
  checkdeps-AllCared pkg packages h =
      let dblist = untouched_pkgs rem (pkg ∷ []) localpkgs in
      let reported = check_upgrade_deps handle.deps (pkg ∷ []) dblist pkg pkg.depends in
      upgrade_deps-AllIn handle.deps (pkg ∷ []) dblist pkg (Met handle preferred rem packages)
        pkg.depends (AllIn-left _ reported [] (AllIn-left _ (reported ++ []) [] h))

  -- The end of a call that has added the package.
  restore-Post :
      (pkg : Pkg) (packages : List Pkg) (data_ : List DepMissing) (r : Resolution)
      → Loop handle localpkgs preferred rem universe whole
          (checkdeps handle.deps localpkgs rem (pkg ∷ []) false)
          (record { packages = packages ++ pkg ∷ []; data_ = data_; ret = true })
          r
      → Post handle localpkgs preferred rem universe whole pkg packages (restore packages r)
  restore-Post pkg packages data_ r loop = elim (Bool-cases r.ret) [
    | inr e ↦ rw e (record {
      grown = Grown-refl _ _ _ _ packages packages refl;
      has = λ t. absurd (clash t refl);
      undone = λ f. refl;
    })
    | inl e ↦
        let all = r.packages in
        let shape : all ≡ packages ++ pkg ∷ loop.grown.added =
          loop.grown.grows ∙ append_assoc packages (pkg ∷ []) loop.grown.added in
        rw e (record {
          grown = record {
            added = pkg ∷ loop.grown.added;
            grows = shape;
            cared = (checkdeps-AllCared pkg all (loop.met e).1, loop.grown.cared);
          };
          has = λ t.
              inr
                (rw shape (IsListed-append-right packages (pkg ∷ loop.grown.added) pkg (inl refl)));
          undone = λ f. absurd (clash refl f);
        })
  ]
    where
      clash : {b : Bool} → b ≡ true → b ≡ false → ⊥
      clash e f = cc

  resolvedeps-Works :
      (fuel : ℕ)
      → Works handle localpkgs preferred rem universe whole
          (resolvedeps fuel handle localpkgs preferred rem)
          fuel
  unfolding resolvedeps
  resolvedeps-Works zero q packages data_ l less = absurd (omega arith)
  resolvedeps-Works (suc fuel) q packages data_ l less =
      elim (Bool-cases (found (pkg_find packages q.name))) [
        | inl e ↦ rw e (
          record { packages = packages; data_ = data_; ret = true },
          refl,
          record {
            grown = Grown-refl _ _ _ _ packages packages refl;
            has = λ t. inl e;
            undone = λ f. refl;
          },
        )
        | inr e ↦
            let start : Resolution = record {
              packages = packages ++ q ∷ [];
              data_ = data_;
              ret = true;
            } in
            let (r, f, loop) =
              resolve_all-Loop handle localpkgs preferred rem universe whole
                (resolvedeps fuel handle localpkgs preferred rem) fuel (resolvedeps-Works fuel)
                (checkdeps handle.deps localpkgs rem (q ∷ []) false) start
                (omega (arith, add-lt universe packages q l (hashed q l) e, less)) in
            rw (e, f) (restore packages r, refl, restore-Post q packages data_ r loop)
      ]

  -- `_alpm_resolvedeps` ends, on one level of recursion more than there are packages that may be
  -- pulled. If it fails, the list of packages is what it was. If it succeeds, the list has only
  -- been extended, has the package or had one of its name before, and each dependency of each added
  -- package is cared for: it holds already for `alpm_checkdeps`, or a package of the list satisfies
  -- it, or an installed package that is not to be removed, or the list has a package of the name of
  -- a preferred one that satisfies it. The lookups in the databases have to agree with their lists,
  -- and the packages that may be pulled have the hashes of their names.
  pub resolvedeps-Post :
      (pkg : Pkg) (packages : List Pkg) (data_ : List DepMissing)
      → IsListed universe pkg
      → (r : Resolution) × (resolvedeps
            (suc (length universe))
            handle
            localpkgs
            preferred
            rem
            pkg
            packages
            data_
          ≡ some r)
        × Post handle localpkgs preferred rem universe whole pkg packages r
  resolvedeps-Post pkg packages data_ l =
      resolvedeps-Works (suc (length universe)) pkg packages data_ l
        (omega (arith, outside-le universe packages))
