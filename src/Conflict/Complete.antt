-- ===== src/Conflict/Complete.antt =====
-- The completeness of `check_conflict`.
use dulge.Base.{
  ◌≡◌, refl, sym, ◌⊎◌, Str, Bool, true, false, not, ◌||◌, List, [], ◌∷◌, ◌++◌, ==_iff, str_eq_iff,
  arith, Bool-cases, inl, inr,
}
use dulge.Conflict.{
  Conflict, same_pkg, same_pair, conflict_isin, conflict_new, add_conflict, consider, check_one,
  check_pkg, check_conflict,
}
use dulge.Deps.{depcmp}
use dulge.Deps.Check.{AllIn, AllIn-map}
use dulge.Package.{Pkg, Depend}

same_pair_self :
    (p q : Pkg) (c : Depend) → same_pair (conflict_new p q c) (conflict_new p q c) ≡ true
same_pair_self p q c = rw (
  (==_iff p.name_hash p.name_hash).1 refl,
  (==_iff q.name_hash q.name_hash).1 refl,
  (str_eq_iff p.name p.name).1 refl,
  (str_eq_iff q.name q.name).1 refl,
)

conflict_isin-append :
    (x : Conflict) (l r : List Conflict)
    → conflict_isin x (l ++ r) ≡ (conflict_isin x l || conflict_isin x r)
unfolding conflict_isin
conflict_isin-append x [] r = refl
conflict_isin-append x (y ∷ l) r = ground (arith, conflict_isin-append x l r)

module _ (x : Conflict) where
  abbrev Kept : List Conflict → Type 0
  Kept bad = conflict_isin x bad ≡ true

  add_conflict-Kept :
      (bad : List Conflict) (p q : Pkg) (c : Depend) → Kept bad → Kept (add_conflict bad p q c)
  unfolding add_conflict
  add_conflict-Kept bad p q c h =
      ground (arith, conflict_isin-append x bad (conflict_new p q c ∷ []))

  consider-Kept :
      (order : Bool) (p : Pkg) (c : Depend) (bad : List Conflict) (q : Pkg)
      → Kept bad
      → Kept (consider order p c bad q)
  unfolding consider
  consider-Kept order p c bad q h =
      ground (arith, add_conflict-Kept bad p q c h, add_conflict-Kept bad q p c h)

  check_one-Kept :
      (order : Bool) (p : Pkg) (c : Depend) (bad : List Conflict) (k : List Pkg)
      → Kept bad
      → Kept (check_one order p c bad k)
  unfolding check_one
  check_one-Kept order p c bad [] h = h
  check_one-Kept order p c bad (q ∷ k) h =
      check_one-Kept order p c (consider order p c bad q) k (consider-Kept order p c bad q h)

  check_pkg-Kept :
      (order : Bool) (p : Pkg) (list2 : List Pkg) (bad : List Conflict) (j : List Depend)
      → Kept bad
      → Kept (check_pkg order p list2 bad j)
  unfolding check_pkg
  check_pkg-Kept order p list2 bad [] h = h
  check_pkg-Kept order p list2 bad (c ∷ j) h =
      check_pkg-Kept order p list2 (check_one order p c bad list2) j
        (check_one-Kept order p c bad list2 h)

  pub check_conflict-Kept :
      (list1 list2 : List Pkg) (bad : List Conflict) (order : Bool)
      → Kept bad
      → Kept (check_conflict list1 list2 bad order)
  unfolding check_conflict
  check_conflict-Kept [] list2 bad order h = h
  check_conflict-Kept (p ∷ i) list2 bad order h =
      check_conflict-Kept i list2 _ order (check_pkg-Kept order p list2 bad p.conflicts h)

-- The pair in the order that the caller asks for.
abbrev pub ordered : Bool → Pkg → Pkg → Depend → Conflict
ordered true p q c = conflict_new p q c
ordered false p q c = conflict_new q p c

module _ (order : Bool) where
  -- The list names the pair, unless the two have one name or do not conflict by `c`.
  abbrev Reported : List Conflict → Pkg → Depend → Pkg → Type 0
  Reported bad p c q =
      (same_pkg p q || not (depcmp q c) || conflict_isin (ordered order p q c) bad) ≡ true

  Reported-keep :
      (bad bad' : List Conflict) (p : Pkg) (c : Depend) (q : Pkg)
      → (conflict_isin (ordered order p q c) bad ≡ true
          → conflict_isin (ordered order p q c) bad' ≡ true)
      → Reported bad p c q
      → Reported bad' p c q
  Reported-keep bad bad' p c q keep h =
      elim (Bool-cases (conflict_isin (ordered order p q c) bad)) [
        | inl e ↦ let k = keep e in ground arith
        | inr e ↦ ground arith
      ]

add_conflict_isin :
    (bad : List Conflict) (p q : Pkg) (c : Depend)
    → conflict_isin (conflict_new p q c) (add_conflict bad p q c) ≡ true
unfolding add_conflict conflict_isin
add_conflict_isin bad p q c = ground (
  arith,
  conflict_isin-append (conflict_new p q c) bad (conflict_new p q c ∷ []),
  same_pair_self p q c,
)

consider-Reported :
    (order : Bool) (bad : List Conflict) (p : Pkg) (c : Depend) (q : Pkg)
    → Reported order (consider order p c bad q) p c q
unfolding consider
consider-Reported true bad p c q = ground (arith, add_conflict_isin bad p q c)
consider-Reported false bad p c q = ground (arith, add_conflict_isin bad q p c)

check_one-Reported :
    (order : Bool) (p : Pkg) (c : Depend) (bad : List Conflict) (k : List Pkg)
    → AllIn (Reported order (check_one order p c bad k) p c) k
unfolding check_one
check_one-Reported order p c bad [] = tt
check_one-Reported order p c bad (q ∷ k) = (
  Reported-keep order _ _ p c q
      (check_one-Kept (ordered order p q c) order p c (consider order p c bad q) k)
      (consider-Reported order bad p c q),
  check_one-Reported order p c (consider order p c bad q) k,
)

check_pkg-Reported :
    (order : Bool) (p : Pkg) (list2 : List Pkg) (bad : List Conflict) (j : List Depend)
    → AllIn (λ (c : Depend). AllIn (Reported order (check_pkg order p list2 bad j) p c) list2) j
unfolding check_pkg
check_pkg-Reported order p list2 bad [] = tt
check_pkg-Reported order p list2 bad (c ∷ j) = (
  AllIn-map _ _
      (λ q h.
        Reported-keep order _ _ p c q
          (check_pkg-Kept (ordered order p q c) order p list2 (check_one order p c bad list2) j) h)
      list2 (check_one-Reported order p c bad list2),
  check_pkg-Reported order p list2 (check_one order p c bad list2) j,
)

check_conflict-Reported :
    (list1 list2 : List Pkg) (bad : List Conflict) (order : Bool)
    → AllIn
        (λ (p : Pkg).
          AllIn
            (λ (c : Depend).
              AllIn (Reported order (check_conflict list1 list2 bad order) p c) list2)
            p.conflicts)
        list1
unfolding check_conflict
check_conflict-Reported [] list2 bad order = tt
check_conflict-Reported (p ∷ i) list2 bad order = (
  AllIn-map _ _
      (λ c k.
        AllIn-map _ _
          (λ q h.
            Reported-keep order _ _ p c q
              (check_conflict-Kept (ordered order p q c) i list2 _ order) h)
          list2 k)
      p.conflicts (check_pkg-Reported order p list2 bad p.conflicts),
  check_conflict-Reported i list2 _ order,
)

-- Some entry has these two names.
abbrev pub Names : List Conflict → Str → Str → Type 0
Names [] a b = ⊥
Names (x ∷ bad) a b = ((x.package1.name ≡ a) × (x.package2.name ≡ b)) ⊎ Names bad a b

-- The names of a pair, in the order that the caller asks for.
abbrev pub NamesPair : Bool → List Conflict → Pkg → Pkg → Type 0
NamesPair true bad p q = Names bad p.name q.name
NamesPair false bad p q = Names bad q.name p.name

conflict_isin-Names :
    (p q : Pkg) (c : Depend) (bad : List Conflict)
    → conflict_isin (conflict_new p q c) bad ≡ true
    → Names bad p.name q.name
unfolding conflict_isin
conflict_isin-Names p q c [] h = cc
conflict_isin-Names p q c (x ∷ bad) h = elim (Bool-cases (same_pair (conflict_new p q c) x)) [
  | inl e ↦ inl (
    sym ((str_eq_iff p.name x.package1.name).0 (ground (arith, e))),
    sym ((str_eq_iff q.name x.package2.name).0 (ground (arith, e))),
  )
  | inr e ↦ inr (conflict_isin-Names p q c bad (rw e at h))
]

ordered-Names :
    (order : Bool) (p q : Pkg) (c : Depend) (bad : List Conflict)
    → conflict_isin (ordered order p q c) bad ≡ true
    → NamesPair order bad p q
ordered-Names true p q c bad h = conflict_isin-Names p q c bad h
ordered-Names false p q c bad h = conflict_isin-Names q p c bad h

-- A package of the second list, seen from a conflict of one of the first.
abbrev pub Cared : Bool → List Conflict → Pkg → Depend → Pkg → Type 0
Cared order bad p c q = (p.name ≡ q.name) ⊎ ((depcmp q c ≡ false) ⊎ NamesPair order bad p q)

Reported-Cared :
    (order : Bool) (bad : List Conflict) (p : Pkg) (c : Depend) (q : Pkg)
    → Reported order bad p c q
    → Cared order bad p c q
Reported-Cared order bad p c q h = elim (Bool-cases (same_pkg p q)) [
  | inl e ↦ inl ((str_eq_iff p.name q.name).0 (ground (arith, e)))
  | inr e ↦ elim (Bool-cases (depcmp q c)) [
    | inl d ↦ inr (inr (ordered-Names order p q c bad (ground (arith, h, e, d))))
    | inr d ↦ inr (inl d)
  ]
]

-- `check_conflict` misses nothing, in either order: for every package of the first list, every
-- entry of its `conflicts` and every package of the second list, either the two packages have one
-- name, or the second does not satisfy the entry, or some entry of the resulting list has the names
-- of the two, in the order asked for.
pub check_conflict_complete :
    (list1 list2 : List Pkg) (bad : List Conflict) (order : Bool)
    → AllIn
        (λ (p : Pkg).
          AllIn
            (λ (c : Depend). AllIn (Cared order (check_conflict list1 list2 bad order) p c) list2)
            p.conflicts)
        list1
check_conflict_complete list1 list2 bad order =
    AllIn-map _ _
      (λ p h.
        AllIn-map _ _ (λ c k. AllIn-map _ _ (λ q r. Reported-Cared order _ p c q r) list2 k)
          p.conflicts h)
      list1 (check_conflict-Reported list1 list2 bad order)
