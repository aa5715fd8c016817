-- ===== src/Resolve/Steps.antt =====
-- The loop of `_alpm_resolvedeps`, with the recursive call as a parameter.
use dulge.Base.{
  ℕ, ◌<◌, ◌≡◌, ◌⊎◌, refl, sym, ap, ◌∙◌, subst, Bool, true, false, Option, none, some, List, [], ◌∷◌,
  inl, inr, arith, Bool-cases, Option-cases,
}
use dulge.Deps.{depcmp, find_dep_satisfier, DepMissing, found}
use dulge.Deps.Check.{AllIn}
use dulge.Deps.Names.{IsListed, outside}
use dulge.Package.{Pkg, Depend, pkg_find}
use dulge.Resolve.{
  Resolver, Resolved, resolved, pkg_ignored, pkg_not_found, is_resolved, resolvedep, Resolution,
  from_local, or_resolvedep, pulled, resolve_miss, resolve_all,
}
use dulge.Resolve.Provider.{IsRepo, InRepos, Fits, resolvedep-Fits}
use dulge.Resolve.Closed.{
  outside-append, satisfied_by, satisfier-depcmp, Met, Met-append, Grown, Grown-refl, Grown-trans,
  found-append,
}

-- The lookups in the databases agree with their lists, and the packages that may be pulled are in
-- the list `universe`, with their hashes.
pub record IsUniverse (handle : Resolver) (preferred universe : List Pkg) : Type 0 where
  pub local : IsRepo handle.db_local
  pub sync : AllIn IsRepo handle.dbs_sync
  pub holds : (q : Pkg) → IsListed preferred q ⊎ InRepos handle.dbs_sync q → IsListed universe q

module _ (handle : Resolver) (localpkgs preferred rem universe : List Pkg)
    (whole : IsUniverse handle preferred universe) where
  -- What the call for one package leaves.
  pub record Post (pkg : Pkg) (packages : List Pkg) (r : Resolution) : Type 0 where
    pub grown : Grown handle localpkgs preferred rem packages r.packages
    pub has : r.ret ≡ true → (found (pkg_find packages pkg.name) ≡ true) ⊎ IsListed r.packages pkg
    pub undone : r.ret ≡ false → r.packages ≡ packages

  is_resolved-resolved : (x : Resolved) → is_resolved x ≡ true → (q : Pkg) × (x ≡ resolved q)
  is_resolved-resolved (resolved q) e = (q, refl)
  is_resolved-resolved pkg_ignored e = cc
  is_resolved-resolved pkg_not_found e = cc

  from_local-Met :
      (miss : DepMissing) (r : Resolution)
      → ((from_local handle rem miss r).packages ≡ r.packages)
        × ((from_local handle rem miss r).ret ≡ true
            → (r.ret ≡ true) × Met handle preferred rem r.packages miss.depend)
  from_local-Met miss r =
      elim (Bool-cases
        (is_resolved (resolvedep handle miss.depend (handle.db_local ∷ []) rem false))) [
          | inl e ↦
              let (q, f) = is_resolved-resolved _ e in
              let (i, fits) =
                resolvedep-Fits handle false miss.depend rem (handle.db_local ∷ []) q
                  (whole.local, tt) f in
              rw e (refl, λ t. (t, inr (inr (q, i, fits))))
          | inr e ↦ rw e (refl, λ t. absurd (ground arith))
        ]

  -- Where `spkg` comes from.
  abbrev Origin : Resolution → Depend → Pkg → Type 0
  Origin r d q =
      (IsListed preferred q × (depcmp q d ≡ true))
      ⊎ (InRepos handle.dbs_sync q × Fits d r.packages q)

  or_resolvedep-Origin :
      (r : Resolution) (d : Depend) (q : Pkg)
      → or_resolvedep handle d r.packages (find_dep_satisfier preferred d) ≡ some q
      → Origin r d q
  or_resolvedep-Origin r d q h = by (find_dep_satisfier preferred d) refl h
    where
      one : {p : Pkg} → some p ≡ some q → p ≡ q
      one e = cc

      found_in :
          (x : Resolved)
          → resolvedep handle d handle.dbs_sync r.packages false ≡ x
          → (elim x as (λ y. Option Pkg) [ resolved pkg ↦ some pkg | _ ↦ none ]) ≡ some q
          → Origin r d q
      found_in (resolved p) e f = inr (
          resolvedep-Fits handle false d r.packages handle.dbs_sync q whole.sync
            (e ∙ ap (λ y. resolved y) (one f)))
      found_in pkg_ignored e f = cc
      found_in pkg_not_found e f = cc

      by :
          (o : Option Pkg)
          → find_dep_satisfier preferred d ≡ o
          → or_resolvedep handle d r.packages o ≡ some q
          → Origin r d q
      by (some p) e f = inl (satisfier-depcmp preferred d q (e ∙ f))
      by none e f = found_in (resolvedep handle d handle.dbs_sync r.packages false) refl f

  Origin-IsListed : (r : Resolution) (d : Depend) (q : Pkg) → Origin r d q → IsListed universe q
  Origin-IsListed r d q (inl (l, e)) = whole.holds q (inl l)
  Origin-IsListed r d q (inr (i, f)) = whole.holds q (inr i)

  Origin-Met :
      (r r' : Resolution) (d : Depend) (q : Pkg)
      → Origin r d q
      → Post q r.packages r'
      → r'.ret ≡ true
      → Met handle preferred rem r'.packages d
  Origin-Met r r' d q o post e = by o (post.has e)
    where
      clash : {b : Bool} → b ≡ true → b ≡ false → ⊥
      clash e f = cc

      still : found (pkg_find r.packages q.name) ≡ true → found (pkg_find r'.packages q.name) ≡ true
      still f =
          subst (λ x. found (pkg_find x q.name) ≡ true) (sym post.grown.grows)
            (found-append r.packages post.grown.added q.name f)

      by :
          Origin r d q
          → (found (pkg_find r.packages q.name) ≡ true) ⊎ IsListed r'.packages q
          → Met handle preferred rem r'.packages d
      by (inl (l, c)) (inl f) = inr (inl (q, l, c, still f))
      by (inr (i, f)) (inl g) = absurd (clash g f.1)
      by (inl (l, c)) (inr g) = inl (satisfied_by r'.packages d q g c)
      by (inr (i, f)) (inr g) = inl (satisfied_by r'.packages d q g f.0)

  -- What the loop leaves, after rounds for these dependencies.
  pub record Loop (misses : List DepMissing) (r r' : Resolution) : Type 0 where
    pub grown : Grown handle localpkgs preferred rem r.packages r'.packages
    pub met :
        r'.ret ≡ true
        → (r.ret ≡ true)
          × AllIn (λ (m : DepMissing). Met handle preferred rem r'.packages m.depend) misses

  -- The recursive call has a result while there are few enough packages left to pull.
  abbrev pub Works : (Pkg → List Pkg → List DepMissing → Option Resolution) → ℕ → Type 0
  Works go fuel =
      (q : Pkg) (packages : List Pkg) (data_ : List DepMissing)
      → IsListed universe q
      → outside universe packages < fuel
      → (r : Resolution) × (go q packages data_ ≡ some r) × Post q packages r

  module _ (go : Pkg → List Pkg → List DepMissing → Option Resolution) (fuel : ℕ)
      (works : Works go fuel) where
    pulled-Loop :
        (miss : DepMissing) (r r' : Resolution) (q : Pkg)
        → Origin r miss.depend q
        → Post q r.packages r'
        → Loop (miss ∷ []) r (pulled handle rem miss r r')
    pulled-Loop miss r r' q o post = elim (Bool-cases r'.ret) [
      | inl e ↦ rw e (record {
        grown = post.grown;
        met = λ t. (t, (Origin-Met r r' miss.depend q o post e, tt));
      })
      | inr e ↦
          let r'' : Resolution = record r' { ret = r.ret } in
          let (same, met) = from_local-Met miss r'' in
          rw e (record {
            grown =
                subst (λ x. Grown handle localpkgs preferred rem r.packages x) (sym same)
                  post.grown;
            met = λ t.
                let (u, m) = met t in
                (u, (subst (λ x. Met handle preferred rem x miss.depend) (sym same) m, tt));
          })
    ]

    resolve_miss-Loop :
        (miss : DepMissing) (r : Resolution)
        → outside universe r.packages < fuel
        → (r' : Resolution) × (resolve_miss handle preferred rem go miss r ≡ some r')
          × Loop (miss ∷ []) r r'
    resolve_miss-Loop miss r l =
        elim (Bool-cases (found (find_dep_satisfier r.packages miss.depend))) [
          | inl e ↦ rw e (
            r,
            refl,
            record {
              grown = Grown-refl _ _ _ _ r.packages r.packages refl;
              met = λ t. (t, (inl e, tt));
            },
          )
          | inr e ↦
              elim (Option-cases (
                or_resolvedep handle miss.depend r.packages
                  (find_dep_satisfier preferred miss.depend))) [
                    | inl f ↦
                        let (same, met) = from_local-Met miss r in
                        rw (e, f)
                          (
                            from_local handle rem miss r,
                            refl,
                            record {
                              grown = Grown-refl _ _ _ _ r.packages _ same;
                              met = λ t.
                                  let (u, m) = met t in
                                  (
                                    u,
                                    (
                                      subst (λ x. Met handle preferred rem x miss.depend) (sym same)
                                          m,
                                      tt,
                                    ),
                                  );
                            },
                          )
                    | inr (q, f) ↦
                        let o = or_resolvedep-Origin r miss.depend q f in
                        let (r', g, post) =
                          works q r.packages r.data_ (Origin-IsListed r miss.depend q o) l in
                        rw (e, f, g)
                          (pulled handle rem miss r r', refl, pulled-Loop miss r r' q o post)
                  ]
        ]

    pub resolve_all-Loop :
        (misses : List DepMissing) (r : Resolution)
        → outside universe r.packages < fuel
        → (r' : Resolution) × (resolve_all handle preferred rem go misses r ≡ some r')
          × Loop misses r r'
    unfolding resolve_all
    resolve_all-Loop [] r l = (
      r,
      refl,
      record { grown = Grown-refl _ _ _ _ r.packages r.packages refl; met = λ t. (t, tt) },
    )
    resolve_all-Loop (miss ∷ misses) r l =
        let (r', e, one) = resolve_miss-Loop miss r l in
        let less : outside universe r'.packages < fuel = omega (
          arith,
          ap (λ x. outside universe x) one.grown.grows,
          outside-append universe r.packages one.grown.added,
          l,
        ) in
        let (r'', f, rest) = resolve_all-Loop misses r' less in
        (
          r'',
          rw (e, f) refl,
          record {
            grown = Grown-trans _ _ _ _ r.packages r'.packages r''.packages one.grown rest.grown;
            met = λ t.
                let (u, ms) = rest.met t in
                let (v, m) = one.met u in
                (
                  v,
                  (
                    subst (λ x. Met handle preferred rem x miss.depend) (sym rest.grown.grows)
                        (Met-append handle localpkgs preferred rem r'.packages rest.grown.added
                          miss.depend m.0),
                    ms,
                  ),
                );
          },
        )
