-- ===== src/Deps/Recurse.antt =====
-- The rounds of `_alpm_recursedeps`: what a package selects, and what is left.
use dulge.Base.{
  ℕ, zero, suc, ◌+◌, ◌≡◌, refl, Bool, false, List, [], ◌∷◌, ◌++◌, length, arith, Bool-cases, inl,
  inr, ◌⊎◌,
}
use dulge.Deps.{is_selected, pkg_depends_on, any_dep, select_loop, select_depends, select_closure}
use dulge.Deps.Check.{AllIn}
use dulge.Package.{Pkg, Depend}

pub AllIn-zip :
    (P : Pkg → Type 0) (Q : Pkg → Type 0) (xs : List Pkg)
    → AllIn P xs
    → AllIn Q xs
    → AllIn (λ (x : Pkg). P x × Q x) xs
AllIn-zip P Q [] h k = tt
AllIn-zip P Q (x ∷ xs) h k = ((h.0, k.0), AllIn-zip P Q xs h.1 k.1)

pub AllIn-const : (P : Pkg → Type 0) → ((x : Pkg) → P x) → (xs : List Pkg) → AllIn P xs
AllIn-const P f [] = tt
AllIn-const P f (x ∷ xs) = (f x, AllIn-const P f xs)

module _ (pkg : Pkg) (include_explicit : Bool) where
  abbrev pub Unmoved : Pkg → Type 0
  Unmoved q = is_selected pkg include_explicit q ≡ false

  loop_left : (from : List Pkg) → AllIn Unmoved (select_loop pkg include_explicit from).1
  unfolding select_loop
  loop_left [] = tt
  loop_left (q ∷ from) = elim (Bool-cases (is_selected pkg include_explicit q)) [
    | inl e ↦ rw (e, AllIn) (loop_left from)
    | inr e ↦ rw (e, AllIn) (e, loop_left from)
  ]

  loop_AllIn :
      (P : Pkg → Type 0) (from : List Pkg)
      → AllIn P from
      → AllIn P (select_loop pkg include_explicit from).1
  unfolding select_loop
  loop_AllIn P [] h = tt
  loop_AllIn P (q ∷ from) h = elim (Bool-cases (is_selected pkg include_explicit q)) [
    | inl e ↦ rw (e, AllIn) (loop_AllIn P from h.1)
    | inr e ↦ rw (e, AllIn) (h.0, loop_AllIn P from h.1)
  ]

  loop_length :
      (from : List Pkg)
      → length (select_loop pkg include_explicit from).0
          + length (select_loop pkg include_explicit from).1
        ≡ length from
  unfolding select_loop
  loop_length [] = refl
  loop_length (q ∷ from) =
      let ih = loop_length from in
      elim (Bool-cases (is_selected pkg include_explicit q)) [
        | inl e ↦ rw e (omega (arith, ih))
        | inr e ↦ rw e (omega (arith, ih))
      ]

  no_depends : (ds : List Depend) → ds ≡ [] → (q : Pkg) → any_dep ds q ≡ false
  unfolding any_dep
  no_depends ds e q = rw e

  abbrev outcome : List Depend → List Pkg → List Pkg × List Pkg
  outcome depends from = elim depends [
    | [] ↦ ([], from)
    | d ∷ ds ↦ select_loop pkg include_explicit from
  ]

  pub select_cases :
      (from : List Pkg)
      → ((select_depends pkg include_explicit from ≡ ([], from)) × (pkg.depends ≡ []))
        ⊎ (select_depends pkg include_explicit from ≡ select_loop pkg include_explicit from)
  unfolding select_depends
  select_cases from = by_depends pkg.depends
    where
      by_depends :
          (ds : List Depend)
          → ((outcome ds from ≡ ([], from)) × (ds ≡ []))
            ⊎ (outcome ds from ≡ select_loop pkg include_explicit from)
      by_depends [] = inl (refl, refl)
      by_depends (d ∷ ds) = inr refl

  Unmoved-all : pkg.depends ≡ [] → (q : Pkg) → Unmoved q
  unfolding pkg_depends_on
  Unmoved-all e q = let none = no_depends pkg.depends e q in ground arith

  pub depends_left : (from : List Pkg) → AllIn Unmoved (select_depends pkg include_explicit from).1
  depends_left from = elim (select_cases from) [
    | inl (e, n) ↦ rw e (AllIn-const Unmoved (Unmoved-all n) from)
    | inr e ↦ rw e (loop_left from)
  ]

  depends_AllIn :
      (P : Pkg → Type 0) (from : List Pkg)
      → AllIn P from
      → AllIn P (select_depends pkg include_explicit from).1
  depends_AllIn P from h = elim (select_cases from) [
    | inl (e, n) ↦ rw e h
    | inr e ↦ rw e (loop_AllIn P from h)
  ]

  pub depends_length :
      (from : List Pkg)
      → length (select_depends pkg include_explicit from).0
          + length (select_depends pkg include_explicit from).1
        ≡ length from
  depends_length from = elim (select_cases from) [
    | inl (e, n) ↦ rw e (omega arith)
    | inr e ↦ rw e (loop_length from)
  ]

pub closure_AllIn :
    (P : Pkg → Type 0) (fuel : ℕ) (include_explicit : Bool) (from pending : List Pkg)
    → AllIn P from
    → AllIn P (select_closure fuel include_explicit from pending).0
unfolding select_closure
closure_AllIn P fuel include_explicit from [] h = h
closure_AllIn P zero include_explicit from (pkg ∷ pending) h = h
closure_AllIn P (suc fuel) include_explicit from (pkg ∷ pending) h =
    closure_AllIn P fuel include_explicit (select_depends pkg include_explicit from).1
      (pending ++ (select_depends pkg include_explicit from).0)
      (depends_AllIn pkg include_explicit P from h)
