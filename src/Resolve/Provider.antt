-- ===== src/Resolve/Provider.antt =====
-- What `resolvedep` returns.
use dulge.Base.{
  ℕ, zero, suc, ◌≡◌, ◌⊎◌, refl, sym, ap, ◌∙◌, subst, Bool, true, false, not, ◌&&◌, ◌||◌, Option,
  none, some, List, [], ◌∷◌, Str, inl, inr, arith, Bool-cases, Option-cases, get_elem?, ◌>>=◌,
  >>=-eq-some,
}
use dulge.Deps.{depcmp, depcmp_literal, found}
use dulge.Deps.Check.{AllIn, AllIn-append, AllIn-map}
use dulge.Deps.Names.{IsListed, finds_name}
use dulge.Package.{Pkg, Depend, pkg_find, hash_sdbm}
use dulge.Resolve.{
  Repo, Resolver, takes, resolved, is_usable, literal_in, literals, is_provider, Search, installed,
  collected, join_search, search_cache, then_search, search_dbs, use_index, or_ignored, choose,
  or_provider, resolvedep,
}

-- The lookup by name in a database agrees with its list of packages.
abbrev pub IsRepo : Repo → Type 0
IsRepo db = (name : Str) → db.pkgfromcache name ≡ pkg_find db.pkgcache name

-- The package is one of a database that may be installed from.
abbrev pub InRepos : List Repo → Pkg → Type 0
InRepos [] q = ⊥
InRepos (db ∷ dbs) q = ((is_usable db ≡ true) × IsListed db.pkgcache q) ⊎ InRepos dbs q

-- The package satisfies the dependency, and its name is not excluded.
abbrev pub Fits : Depend → List Pkg → Pkg → Type 0
Fits dep excluding q = (depcmp q dep ≡ true) × (found (pkg_find excluding q.name) ≡ false)

literal_in-Fits :
    (dep : Depend) (excluding : List Pkg) (db : Repo) (q : Pkg)
    → IsRepo db
    → literal_in dep excluding db ≡ some q
    → (is_usable db ≡ true) × IsListed db.pkgcache q × Fits dep excluding q
unfolding depcmp pkg_find
literal_in-Fits dep excluding db q c h = elim (Bool-cases (is_usable db)) [
  | inl e ↦ elim (Option-cases (db.pkgfromcache dep.name)) [
    | inl f ↦ absurd (none_some (rw (e, f) at h))
    | inr (pkg, f) ↦
        elim (Bool-cases (depcmp_literal pkg dep && not (found (pkg_find excluding pkg.name)))) [
          | inl g ↦
              let same : pkg ≡ q = some_eq (rw (e, f, g) at h) in
              rw (← same) (
                e,
                (finds_name db.pkgcache (hash_sdbm dep.name) dep.name pkg
                    (unfold pkg_find in (sym (c dep.name) ∙ f))).0,
                (ground arith, ground arith),
              )
          | inr g ↦ absurd (none_some (rw (e, f, g) at h))
        ]
  ]
  | inr e ↦ absurd (none_some (rw e at h))
]
  where
    none_some : none ≡ some q → ⊥
    none_some r = cc

    some_eq : {p : Pkg} → some p ≡ some q → p ≡ q
    some_eq r = cc

-- What a search holds.
abbrev SearchAll : (Pkg → Type 0) → Search → Type 0
SearchAll P (installed q) = P q
SearchAll P (collected providers ignored) = AllIn P providers

join_search-SearchAll :
    (P : Pkg → Type 0) (ps : List Pkg) (b : Bool) (s : Search)
    → AllIn P ps
    → SearchAll P s
    → SearchAll P (join_search ps b s)
join_search-SearchAll P ps b (installed q) h k = k
join_search-SearchAll P ps b (collected qs c) h k = AllIn-append P ps qs h k

then_search-SearchAll :
    (P : Pkg → Type 0) (s s' : Search)
    → SearchAll P s
    → SearchAll P s'
    → SearchAll P (then_search s s')
then_search-SearchAll P (installed q) s' h k = h
then_search-SearchAll P (collected qs c) s' h k = join_search-SearchAll P qs c s' h k

SearchAll-map :
    (P Q : Pkg → Type 0) → ((q : Pkg) → P q → Q q) → (s : Search) → SearchAll P s → SearchAll Q s
SearchAll-map P Q f (installed q) h = f q h
SearchAll-map P Q f (collected qs c) h = AllIn-map P Q f qs h

module _ (handle : Resolver) (prompt : Bool) (dep : Depend) (excluding : List Pkg) where
  abbrev Good : List Repo → Pkg → Type 0
  Good dbs q = InRepos dbs q × Fits dep excluding q

  literals-Good :
      (dbs : List Repo) (q : Pkg)
      → AllIn IsRepo dbs
      → (literals handle prompt dep excluding dbs).0 ≡ some q
      → Good dbs q
  unfolding literals
  literals-Good [] q c h = cc
  literals-Good (db ∷ dbs) q c h = elim (Option-cases (literal_in dep excluding db)) [
    | inl e ↦ let (i, f) = literals-Good dbs q c.1 (rw (e, literals) at h) in (inr i, f)
    | inr (pkg, e) ↦ elim (Bool-cases (takes handle prompt pkg)) [
      | inl t ↦
          let same : some pkg ≡ some q = rw (e, literals, t) at h in
          let (u, l, f) = literal_in-Fits dep excluding db q c.0 (e ∙ same) in (inl (u, l), f)
      | inr t ↦ let (i, f) = literals-Good dbs q c.1 (rw (e, literals, t) at h) in (inr i, f)
    ]
  ]

  provider_Fits : (q : Pkg) → is_provider dep excluding q ≡ true → Fits dep excluding q
  unfolding depcmp
  provider_Fits q e = (ground arith, ground arith)

  search_cache-Good :
      (pkgs : List Pkg)
      → SearchAll
          (λ q. IsListed pkgs q × Fits dep excluding q)
          (search_cache handle prompt dep excluding pkgs)
  unfolding search_cache
  search_cache-Good [] = tt
  search_cache-Good (pkg ∷ pkgs) =
      let P : Pkg → Type 0 = λ q. IsListed (pkg ∷ pkgs) q × Fits dep excluding q in
      let rest = search_cache handle prompt dep excluding pkgs in
      let ih : SearchAll P rest =
        SearchAll-map _ P (λ q (l, f). (inr l, f)) rest (search_cache-Good pkgs) in
      elim (Bool-cases (is_provider dep excluding pkg)) [
        | inr e ↦ rw (e, search_cache) ih
        | inl e ↦
            let here : P pkg = (inl refl, provider_Fits pkg e) in
            elim (Bool-cases (takes handle prompt pkg)) [
              | inr t ↦ rw (e, search_cache, t) (join_search-SearchAll P [] true rest tt ih)
              | inl t ↦ elim (Bool-cases (found (handle.db_local.pkgfromcache pkg.name))) [
                | inl f ↦ rw (e, search_cache, t, f) here
                | inr f ↦
                    rw (e, search_cache, t, f)
                      (join_search-SearchAll P (pkg ∷ []) false rest (here, tt) ih)
              ]
            ]
      ]

  search_dbs-Good :
      (dbs : List Repo) → SearchAll (Good dbs) (search_dbs handle prompt dep excluding dbs)
  unfolding search_dbs
  search_dbs-Good [] = tt
  search_dbs-Good (db ∷ dbs) =
      let P = Good (db ∷ dbs) in
      let rest = search_dbs handle prompt dep excluding dbs in
      let ih : SearchAll P rest =
        SearchAll-map _ P (λ q (i, f). (inr i, f)) rest (search_dbs-Good dbs) in
      elim (Bool-cases (is_usable db)) [
        | inr e ↦ rw (e, search_dbs) ih
        | inl e ↦
            rw (e, search_dbs)
              (then_search-SearchAll P (search_cache handle prompt dep excluding db.pkgcache) rest
                (SearchAll-map _ P (λ q (l, f). (inl (e, l), f))
                  (search_cache handle prompt dep excluding db.pkgcache)
                  (search_cache-Good db.pkgcache))
                ih)
      ]

  get_elem-AllIn :
      (P : Pkg → Type 0) (ps : List Pkg) (n : ℕ) (q : Pkg)
      → AllIn P ps
      → get_elem? ps n ≡ some q
      → P q
  get_elem-AllIn P [] n q h e = cc
  get_elem-AllIn P (p ∷ ps) zero q h e = subst P (one e) h.0
    where
      one : some p ≡ some q → p ≡ q
      one r = cc
  get_elem-AllIn P (p ∷ ps) (suc n) q h e = get_elem-AllIn P ps n q h.1 e

  choose-Good :
      (P : Pkg → Type 0) (s : Search) (ignored : Bool) (q : Pkg)
      → SearchAll P s
      → choose handle dep ignored s ≡ resolved q
      → P q
  choose-Good P (installed p) ignored q h e = subst P (one e) h
    where
      one : resolved p ≡ resolved q → p ≡ q
      one r = cc
  choose-Good P (collected ps c) ignored q h e =
      by (use_index handle dep ps >>= (λ n. get_elem? ps n)) refl e
    where
      refused : (b : Bool) → or_ignored b none ≡ resolved q → ⊥
      refused true r = cc
      refused false r = cc

      one : {p : Pkg} → resolved p ≡ resolved q → p ≡ q
      one r = cc

      by :
          (o : Option Pkg)
          → (use_index handle dep ps >>= (λ n. get_elem? ps n)) ≡ o
          → or_ignored (ignored || c) o ≡ resolved q
          → P q
      by none f r = absurd (refused (ignored || c) r)
      by (some p) f r =
          let (n, _, g) = >>=-eq-some (use_index handle dep ps) (λ n. get_elem? ps n) f in
          subst P (one r) (get_elem-AllIn P ps n p h g)

  -- A package that `resolvedep` returns is one of a database that may be used to install or upgrade,
  -- satisfies the dependency, and has no name among the excluded packages, whatever is ignored and
  -- answered to the questions, if the lookup in each database agrees with its list.
  pub resolvedep-Fits :
      (dbs : List Repo) (q : Pkg)
      → AllIn IsRepo dbs
      → resolvedep handle dep dbs excluding prompt ≡ resolved q
      → InRepos dbs q × Fits dep excluding q
  unfolding resolvedep
  resolvedep-Fits dbs q c h = by (literals handle prompt dep excluding dbs) refl h
    where
      by :
          (r : Option Pkg × Bool)
          → literals handle prompt dep excluding dbs ≡ r
          → or_provider handle dep (search_dbs handle prompt dep excluding dbs) r ≡ resolved q
          → Good dbs q
      by (some p, ignored) e f = literals-Good dbs q c (ap (λ x. x.0) e ∙ one f)
        where
          one : resolved p ≡ resolved q → some p ≡ some q
          one r = cc
      by (none, ignored) e f =
          choose-Good (Good dbs) (search_dbs handle prompt dep excluding dbs) ignored q
            (search_dbs-Good dbs) f
