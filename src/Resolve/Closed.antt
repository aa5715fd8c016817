-- ===== src/Resolve/Closed.antt =====
-- Dependencies that are met, and how a list of packages grows.
use dulge.Base.{
  ◌≤◌, ◌≡◌, ◌⊎◌, refl, sym, ap, ◌∙◌, subst, true, false, ◌||◌, some, List, [], ◌∷◌, ◌++◌, Str, inl,
  inr, arith, Bool-cases,
}
use dulge.Deps.{depcmp, find_dep_satisfier, relaxed, found, is_missing}
use dulge.Deps.Check.{AllIn, AllIn-append, AllIn-map, satisfied, untouched_pkgs}
use dulge.Deps.Names.{IsListed, outside, add-le, found_add}
use dulge.Package.{Pkg, Depend, pkg_find}
use dulge.Resolve.{Resolver}
use dulge.Resolve.Provider.{InRepos, Fits}

pub satisfied-append :
    (ps qs : List Pkg) (d : Depend) → satisfied (ps ++ qs) d ≡ (satisfied ps d || satisfied qs d)
unfolding find_dep_satisfier
satisfied-append [] qs d = refl
satisfied-append (p ∷ ps) qs d = ground (arith, satisfied-append ps qs d)

pub IsListed-append-right : (ps qs : List Pkg) (q : Pkg) → IsListed qs q → IsListed (ps ++ qs) q
IsListed-append-right [] qs q h = h
IsListed-append-right (p ∷ ps) qs q h = inr (IsListed-append-right ps qs q h)

pub satisfied_by :
    (ps : List Pkg) (d : Depend) (q : Pkg)
    → IsListed ps q
    → depcmp q d ≡ true
    → satisfied ps d ≡ true
unfolding find_dep_satisfier
satisfied_by [] d q h e = absurd h
satisfied_by (p ∷ ps) d q (inl same) e = rw same (rw e refl)
satisfied_by (p ∷ ps) d q (inr h) e = ground (arith, satisfied_by ps d q h e)

pub satisfier-depcmp :
    (ps : List Pkg) (d : Depend) (q : Pkg)
    → find_dep_satisfier ps d ≡ some q
    → IsListed ps q × (depcmp q d ≡ true)
unfolding find_dep_satisfier
satisfier-depcmp [] d q h = cc
satisfier-depcmp (p ∷ ps) d q h = elim (Bool-cases (depcmp p d)) [
  | inl e ↦ let same : p ≡ q = one (rw e at h) in (inl same, rw (← same) e)
  | inr e ↦ let (l, f) = satisfier-depcmp ps d q (rw e at h) in (inr l, f)
]
  where
    one : some p ≡ some q → p ≡ q
    one r = cc

pub append_assoc : (ps qs rs : List Pkg) → (ps ++ qs) ++ rs ≡ ps ++ (qs ++ rs)
append_assoc [] qs rs = refl
append_assoc (p ∷ ps) qs rs = ap (λ x. p ∷ x) (append_assoc ps qs rs)

pub append_nil : (ps : List Pkg) → ps ++ [] ≡ ps
append_nil [] = refl
append_nil (p ∷ ps) = ap (λ x. p ∷ x) (append_nil ps)

pub outside-append : (u ps qs : List Pkg) → outside u (ps ++ qs) ≤ outside u ps
outside-append u ps [] = rw (append_nil ps) (omega arith)
outside-append u ps (q ∷ qs) =
    let ih = outside-append u (ps ++ q ∷ []) qs in
    omega (arith, add-le u ps q, ap (λ x. outside u x) (append_assoc ps (q ∷ []) qs), ih)

-- An installed package that is not to be removed satisfies the dependency.
abbrev pub Stays : Resolver → List Pkg → Depend → Type 0
Stays handle rem d = (q : Pkg) × InRepos (handle.db_local ∷ []) q × Fits d rem q

-- A preferred package satisfies the dependency, and the list has a package of its name.
abbrev pub IsShadowed : List Pkg → List Pkg → Depend → Type 0
IsShadowed preferred packages d =
    (q : Pkg) × IsListed preferred q
    × (depcmp q d ≡ true)
    × (found (pkg_find packages q.name) ≡ true)

-- A dependency that the loop has dealt with.
abbrev pub Met : Resolver → List Pkg → List Pkg → List Pkg → Depend → Type 0
Met handle preferred rem packages d =
    (satisfied packages d ≡ true) ⊎ (IsShadowed preferred packages d ⊎ Stays handle rem d)

-- A dependency of a package that is to be installed: it holds already for `alpm_checkdeps`, by the
-- package itself, a package that stays or an assumed one, or it is met.
abbrev pub Cared : Resolver → List Pkg → List Pkg → List Pkg → List Pkg → Pkg → Depend → Type 0
Cared handle localpkgs preferred rem packages p d =
    (is_missing handle.deps (p ∷ []) (untouched_pkgs rem (p ∷ []) localpkgs) (relaxed handle.deps d)
      ≡ false)
    ⊎ Met handle preferred rem packages (relaxed handle.deps d)

abbrev pub AllCared : Resolver → List Pkg → List Pkg → List Pkg → List Pkg → Pkg → Type 0
AllCared handle localpkgs preferred rem packages p =
    AllIn (λ (d : Depend). Cared handle localpkgs preferred rem packages p d) p.depends

pub found-append :
    (ps qs : List Pkg) (name : Str)
    → found (pkg_find ps name) ≡ true
    → found (pkg_find (ps ++ qs) name) ≡ true
found-append ps [] name h = rw (append_nil ps) h
found-append ps (q ∷ qs) name h =
    rw (← append_assoc ps (q ∷ []) qs) (found-append (ps ++ q ∷ []) qs name (found_add ps q name h))

module _ (handle : Resolver) (localpkgs preferred rem : List Pkg) where
  pub Met-append :
      (ps qs : List Pkg) (d : Depend)
      → Met handle preferred rem ps d
      → Met handle preferred rem (ps ++ qs) d
  Met-append ps qs d (inl h) = inl (rw (satisfied-append ps qs d, h) refl)
  Met-append ps qs d (inr (inl (q, l, e, f))) = inr (inl (q, l, e, found-append ps qs q.name f))
  Met-append ps qs d (inr (inr s)) = inr (inr s)

  pub AllCared-append :
      (ps qs : List Pkg) (p : Pkg)
      → AllCared handle localpkgs preferred rem ps p
      → AllCared handle localpkgs preferred rem (ps ++ qs) p
  AllCared-append ps qs p h = AllIn-map _ _ step p.depends h
    where
      step :
          (d : Depend)
          → Cared handle localpkgs preferred rem ps p d
          → Cared handle localpkgs preferred rem (ps ++ qs) p d
      step d (inl k) = inl k
      step d (inr k) = inr (Met-append ps qs (relaxed handle.deps d) k)

  -- The list that a call leaves: what it was, and packages whose dependencies are cared for.
  pub record Grown (packages after : List Pkg) : Type 0 where
    pub added : List Pkg
    pub grows : after ≡ packages ++ added
    pub cared : AllIn (AllCared handle localpkgs preferred rem after) added

  pub Grown-refl : (ps qs : List Pkg) → qs ≡ ps → Grown ps qs
  Grown-refl ps qs e = record { added = []; grows = e ∙ sym (append_nil ps); cared = tt }

  pub Grown-trans : (ps qs rs : List Pkg) → Grown ps qs → Grown qs rs → Grown ps rs
  Grown-trans ps qs rs g k = record {
    added = g.added ++ k.added;
    grows = k.grows ∙ (ap (λ x. x ++ k.added) g.grows ∙ append_assoc ps g.added k.added);
    cared =
        AllIn-append _ g.added k.added
          (AllIn-map _ _
            (λ p c.
              subst (λ x. AllCared handle localpkgs preferred rem x p) (sym k.grows)
                (AllCared-append qs k.added p c))
            g.added g.cared)
          k.cared;
  }
