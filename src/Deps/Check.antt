-- ===== src/Deps/Check.antt =====
-- The safety of `alpm_checkdeps`, and predicates and counts on lists of packages.
use dulge.AlpmList.Order.{to_nat}
use dulge.Base.{
  ℕ, ◌+◌, ◌≡◌, refl, Bool, true, false, ◌||◌, none, List, [], ◌∷◌, ◌++◌, arith, Bool-cases,
  Option-cases, inl, inr,
}
use dulge.Package.{Pkg, Depend}
use dulge.Deps.{
  depcmp_provides, find_dep_satisfier, DepHandle, relaxed, found, is_modified, split_modified,
  is_missing, check_upgrade_deps, check_upgrade, check_reverse_deps, check_reverse, checkdeps,
  DepMissing,
}

-- Every element satisfies the predicate.
abbrev pub AllIn {ℓ κ} : {A : Type ℓ} → (A → Type κ) → List A → Type κ
AllIn P [] = Unit
AllIn P (x ∷ xs) = P x × AllIn P xs

-- How many packages of a list pass a test.
abbrev pub count_if : (Pkg → Bool) → List Pkg → ℕ
count_if q [] = 0
count_if q (p ∷ ps) = to_nat (q p) + count_if q ps

pub count_if-append :
    (q : Pkg → Bool) (ps qs : List Pkg) → count_if q (ps ++ qs) ≡ count_if q ps + count_if q qs
count_if-append q [] qs = omega arith
count_if-append q (p ∷ ps) qs = omega (arith, count_if-append q ps qs)

pub AllIn-append {ℓ κ} :
    {A : Type ℓ} (P : A → Type κ) (xs ys : List A) → AllIn P xs → AllIn P ys → AllIn P (xs ++ ys)
AllIn-append P [] ys h k = k
AllIn-append P (x ∷ xs) ys h k = (h.0, AllIn-append P xs ys h.1 k)

pub AllIn-map {ℓ κ} :
    {A : Type ℓ} (P Q : A → Type κ)
    → ((x : A) → P x → Q x)
    → (xs : List A) → AllIn P xs
    → AllIn Q xs
AllIn-map P Q f [] h = tt
AllIn-map P Q f (x ∷ xs) h = (f x h.0, AllIn-map P Q f xs h.1)

-- Some package of the list satisfies the dependency.
abbrev pub satisfied : List Pkg → Depend → Bool
satisfied pkgs d = found (find_dep_satisfier pkgs d)

append_nil_left {ℓ} : {A : Type ℓ} (xs ys : List A) → xs ++ ys ≡ [] → xs ≡ []
append_nil_left [] ys h = refl
append_nil_left (x ∷ xs) ys h = cc

append_nil_right {ℓ} : {A : Type ℓ} (xs ys : List A) → xs ++ ys ≡ [] → ys ≡ []
append_nil_right [] ys h = h
append_nil_right (x ∷ xs) ys h = cc

satisfied-split :
    (rem upgrade pkgs : List Pkg) (d : Depend)
    → satisfied pkgs d ≡ (
        satisfied (split_modified rem upgrade pkgs).0 d
        || satisfied (split_modified rem upgrade pkgs).1 d)
unfolding split_modified find_dep_satisfier
satisfied-split rem upgrade [] d = refl
satisfied-split rem upgrade (p ∷ pkgs) d =
    let ih = satisfied-split rem upgrade pkgs d in
    elim (Bool-cases (is_modified rem upgrade p)) [
      | inl e ↦ rw e (step1 ih)
      | inr e ↦ rw e (step2 ih)
    ]
  where
    step1 :
        satisfied pkgs d ≡ (
          satisfied (split_modified rem upgrade pkgs).0 d
          || satisfied (split_modified rem upgrade pkgs).1 d)
        → satisfied (p ∷ pkgs) d ≡ (
            satisfied (p ∷ (split_modified rem upgrade pkgs).0) d
            || satisfied (split_modified rem upgrade pkgs).1 d)
    step1 ih = ground arith

    step2 :
        satisfied pkgs d ≡ (
          satisfied (split_modified rem upgrade pkgs).0 d
          || satisfied (split_modified rem upgrade pkgs).1 d)
        → satisfied (p ∷ pkgs) d ≡ (
            satisfied (split_modified rem upgrade pkgs).0 d
            || satisfied (p ∷ (split_modified rem upgrade pkgs).1) d)
    step2 ih = ground arith

module _ (handle : DepHandle) (upgrade dblist : List Pkg) where
  -- What the check counts as satisfied, with the comparator dropped if the flag says so.
  abbrev pub Holds : Depend → Type 0
  Holds d = is_missing handle upgrade dblist (relaxed handle d) ≡ false

  upgrade_deps_hold :
      (tp : Pkg) (ds : List Depend)
      → check_upgrade_deps handle upgrade dblist tp ds ≡ []
      → AllIn Holds ds
  unfolding check_upgrade_deps
  upgrade_deps_hold tp [] h = tt
  upgrade_deps_hold tp (d ∷ ds) h =
      elim (Bool-cases (is_missing handle upgrade dblist (relaxed handle d))) [
        | inl e ↦ absurd (cons_nil (rw e at h))
        | inr e ↦ (e, upgrade_deps_hold tp ds (rw e at h))
      ]
    where
      cons_nil : {m : DepMissing} {l : List DepMissing} → m ∷ l ≡ [] → ⊥
      cons_nil e = cc

  upgrade_hold :
      (ts : List Pkg)
      → check_upgrade handle upgrade dblist ts ≡ []
      → AllIn (λ (p : Pkg). AllIn Holds p.depends) ts
  unfolding check_upgrade
  upgrade_hold [] h = tt
  upgrade_hold (t ∷ ts) h = (
    upgrade_deps_hold t t.depends (append_nil_left _ _ h),
    upgrade_hold ts (append_nil_right _ _ h),
  )

  -- A package that stays, none of whose dependencies the check reports: a dependency that held
  -- before, by a modified or an unmodified package or an assumed one, still holds.
  module _ (modified : List Pkg) where
    abbrev Held : Depend → Type 0
    Held d =
        (satisfied modified (relaxed handle d)
          || satisfied dblist (relaxed handle d)
          || depcmp_provides (relaxed handle d) handle.assumeinstalled)
        ≡ true

    reverse_deps_hold :
        (lp : Pkg) (ds : List Depend)
        → check_reverse_deps handle modified upgrade dblist lp ds ≡ []
        → AllIn Held ds
        → AllIn Holds ds
    unfolding check_reverse_deps
    reverse_deps_hold lp [] h k = tt
    reverse_deps_hold lp (d ∷ ds) h k =
        elim (Option-cases (find_dep_satisfier modified (relaxed handle d))) [
          | inl e ↦ (untouched e k.0, reverse_deps_hold lp ds (rw (e, check_reverse_deps) at h) k.1)
          | inr (q, e) ↦ elim (Bool-cases (is_missing handle upgrade dblist (relaxed handle d))) [
            | inl f ↦ absurd (cons_nil (rw (e, f, check_reverse_deps) at h))
            | inr f ↦ (f, reverse_deps_hold lp ds (rw (e, f, check_reverse_deps) at h) k.1)
          ]
        ]
      where
        cons_nil : {m : DepMissing} {l : List DepMissing} → m ∷ l ≡ [] → ⊥
        cons_nil e = cc

        untouched : find_dep_satisfier modified (relaxed handle d) ≡ none → Held d → Holds d
        untouched e k = ground arith

    reverse_hold :
        (ls : List Pkg)
        → check_reverse handle modified upgrade dblist ls ≡ []
        → AllIn (λ (p : Pkg). AllIn Held p.depends) ls
        → AllIn (λ (p : Pkg). AllIn Holds p.depends) ls
    unfolding check_reverse
    reverse_hold [] h k = tt
    reverse_hold (l ∷ ls) h k = (
      reverse_deps_hold l l.depends (append_nil_left _ _ h) k.0,
      reverse_hold ls (append_nil_right _ _ h) k.1,
    )

-- Before the transaction: the dependencies of every installed package are satisfied by the
-- installed packages or the assumed ones.
abbrev pub IsClosed : DepHandle → List Pkg → Type 0
IsClosed handle pkgs =
    AllIn
      (λ (p : Pkg).
        AllIn
          (λ (d : Depend).
            (satisfied pkgs (relaxed handle d)
              || depcmp_provides (relaxed handle d) handle.assumeinstalled)
            ≡ true)
          p.depends)
      pkgs

-- The packages that the transaction does not touch.
abbrev pub untouched_pkgs : List Pkg → List Pkg → List Pkg → List Pkg
untouched_pkgs rem upgrade pkglist = (split_modified rem upgrade pkglist).1

module _ (handle : DepHandle) (rem upgrade pkglist : List Pkg) where
  modified : List Pkg
  modified = (split_modified rem upgrade pkglist).0

  Held-split :
      (d : Depend)
      → (satisfied pkglist (relaxed handle d)
          || depcmp_provides (relaxed handle d) handle.assumeinstalled)
        ≡ true
      → Held handle upgrade (untouched_pkgs rem upgrade pkglist) modified d
  unfolding modified
  Held-split d h = ground (arith, satisfied-split rem upgrade pkglist (relaxed handle d))

  AllIn-untouched :
      (P : Pkg → Type 0) (pkgs : List Pkg)
      → AllIn P pkgs
      → AllIn P (untouched_pkgs rem upgrade pkgs)
  unfolding split_modified
  AllIn-untouched P [] h = tt
  AllIn-untouched P (p ∷ pkgs) h = elim (Bool-cases (is_modified rem upgrade p)) [
    | inl e ↦ rw (e, AllIn) (AllIn-untouched P pkgs h.1)
    | inr e ↦ rw (e, AllIn) (h.0, AllIn-untouched P pkgs h.1)
  ]

  -- If `alpm_checkdeps` with its reverse check reports nothing, then a system whose dependencies
  -- were all satisfied stays so: after the transaction every dependency of every new and of every
  -- remaining package is satisfied by a new, a remaining or an assumed package.
  pub checkdeps-closed :
      IsClosed handle pkglist
      → checkdeps handle pkglist rem upgrade true ≡ []
      → AllIn
          (λ (p : Pkg). AllIn (Holds handle upgrade (untouched_pkgs rem upgrade pkglist)) p.depends)
          (upgrade ++ untouched_pkgs rem upgrade pkglist)
  unfolding checkdeps modified
  checkdeps-closed closed h =
      let dblist = untouched_pkgs rem upgrade pkglist in
      AllIn-append _ upgrade dblist
        (upgrade_hold handle upgrade dblist upgrade (append_nil_left _ _ h))
        (reverse_hold handle upgrade dblist modified dblist (append_nil_right _ _ h) (
          AllIn-untouched _ pkglist (
            AllIn-map _ _ (λ p k. AllIn-map _ _ (λ d e. Held-split d e) p.depends k) pkglist
              closed)))
