-- ===== src/Upgrade/Names.antt =====
-- The names of the targets of an upgrade (lib/libalpm/sync.c).
use dulge.Base.{
  ◌≡◌, refl, sym, ap, ◌∙◌, false, none, some, List, [], ◌∷◌, ◌++◌, Str, ==_iff, str_eq, str_eq_iff,
  arith, Bool-cases, inl, inr, subst,
}
use dulge.Package.{Pkg, explicit_reason, hash_sdbm, same_name}
use dulge.Upgrade.{Target, target_find, target_update, replace_more}

-- The hash of a package is that of its name.
abbrev pub IsHashed : Pkg → Type 0
IsHashed p = p.name_hash ≡ hash_sdbm p.name

-- No target has the name.
abbrev pub IsFresh : Str → List Target → Type 0
IsFresh name [] = Unit
IsFresh name (t ∷ ts) = (str_eq t.pkg.name name ≡ false) × IsFresh name ts

-- Targets of which no two have one name, each with the hash of its name.
abbrev pub AreUnique : List Target → Type 0
AreUnique [] = Unit
AreUnique (t ∷ ts) = IsHashed t.pkg × IsFresh t.pkg.name ts × AreUnique ts

-- The name is new to the packages.
abbrev pub IsNew : Str → List Pkg → Type 0
IsNew name [] = Unit
IsNew name (p ∷ ps) = (str_eq p.name name ≡ false) × IsNew name ps

-- Packages with names of their own, each with the hash of its name.
abbrev pub AreDistinct : List Pkg → Type 0
AreDistinct [] = Unit
AreDistinct (p ∷ ps) = IsHashed p × IsNew p.name ps × AreDistinct ps

pub str_eq_sym : (a b : Str) → str_eq a b ≡ false → str_eq b a ≡ false
str_eq_sym a b h = elim (Bool-cases (str_eq b a)) [
  | inl e ↦ let q = (str_eq_iff a b).1 (sym ((str_eq_iff b a).0 e)) in absurd (ground (arith, h, q))
  | inr e ↦ e
]

pub IsFresh-append :
    (name : Str) (xs ys : List Target) → IsFresh name xs → IsFresh name ys → IsFresh name (xs ++ ys)
IsFresh-append name [] ys h k = k
IsFresh-append name (x ∷ xs) ys h k = (h.0, IsFresh-append name xs ys h.1 k)

pub AreUnique-append :
    (ts : List Target) (t : Target)
    → AreUnique ts
    → IsHashed t.pkg
    → IsFresh t.pkg.name ts
    → AreUnique (ts ++ t ∷ [])
AreUnique-append [] t u h f = (h, tt, tt)
AreUnique-append (x ∷ ts) t (a, b, u) h (e, f) = (
  a,
  IsFresh-append x.pkg.name ts (t ∷ []) b (str_eq_sym x.pkg.name t.pkg.name e, tt),
  AreUnique-append ts t u h f,
)

-- A name that is not found.
pub find-IsFresh :
    (ts : List Target) (name : Str) → AreUnique ts → target_find ts name ≡ none → IsFresh name ts
unfolding target_find
find-IsFresh [] name u h = tt
find-IsFresh (t ∷ ts) name (a, b, u) h =
    elim (Bool-cases (same_name t.pkg.name_hash t.pkg.name (hash_sdbm name) name)) [
      | inl e ↦ absurd (clash (rw e at h))
      | inr e ↦ (differ e, find-IsFresh ts name u (rw e at h))
    ]
  where
    clash : some t ≡ none → ⊥
    clash q = cc

    differ :
        same_name t.pkg.name_hash t.pkg.name (hash_sdbm name) name ≡ false
        → str_eq t.pkg.name name ≡ false
    differ e = elim (Bool-cases (str_eq t.pkg.name name)) [
      | inl s ↦
          let n = (str_eq_iff t.pkg.name name).0 s in
          let q = (==_iff t.pkg.name_hash (hash_sdbm name)).1 (a ∙ ap hash_sdbm n) in
          absurd (ground (arith, e, s, q))
      | inr s ↦ s
    ]

pub IsFresh-left : (name : Str) (xs ys : List Target) → IsFresh name (xs ++ ys) → IsFresh name xs
IsFresh-left name [] ys f = tt
IsFresh-left name (z ∷ xs) ys f = (f.0, IsFresh-left name xs ys f.1)

pub AreUnique-left : (xs ys : List Target) → AreUnique (xs ++ ys) → AreUnique xs
AreUnique-left [] ys u = tt
AreUnique-left (x ∷ xs) ys (a, b, u) = (a, IsFresh-left x.pkg.name xs ys b, AreUnique-left xs ys u)

-- Targets change only in fields that are not their names.
module _ (f : Target → Target)
    (keeps : (t : Target)
      → ((f t).pkg.name ≡ t.pkg.name) × ((f t).pkg.name_hash ≡ t.pkg.name_hash)) where
  pub target_update-IsFresh :
      (name : Str) (xs ys : List Target) (needle : Str)
      → IsFresh name (xs ++ ys)
      → IsFresh name (target_update f xs needle ++ ys)
  unfolding target_update
  target_update-IsFresh name [] ys needle h = h
  target_update-IsFresh name (t ∷ xs) ys needle (e, h) =
      elim (Bool-cases (same_name t.pkg.name_hash t.pkg.name (hash_sdbm needle) needle)) [
        | inl s ↦ rw s (ap (λ n. str_eq n name) (keeps t).0 ∙ e, h)
        | inr s ↦ rw s (e, target_update-IsFresh name xs ys needle h)
      ]

  pub target_update-AreUnique :
      (xs ys : List Target) (needle : Str)
      → AreUnique (xs ++ ys)
      → AreUnique (target_update f xs needle ++ ys)
  unfolding target_update
  target_update-AreUnique [] ys needle u = u
  target_update-AreUnique (t ∷ xs) ys needle (a, b, u) =
      elim (Bool-cases (same_name t.pkg.name_hash t.pkg.name (hash_sdbm needle) needle)) [
        | inl s ↦ rw s (
          (keeps t).1 ∙ (a ∙ ap hash_sdbm (sym (keeps t).0)),
          subst (λ n. IsFresh n (xs ++ ys)) (sym (keeps t).0) b,
          u,
        )
        | inr s ↦ rw s (
          a,
          target_update-IsFresh t.pkg.name xs ys needle b,
          target_update-AreUnique xs ys needle u,
        )
      ]

pub replace_more_keeps :
    (lpkg : Pkg) (t : Target)
    → ((replace_more lpkg t).pkg.name ≡ t.pkg.name)
      × ((replace_more lpkg t).pkg.name_hash ≡ t.pkg.name_hash)
replace_more_keeps lpkg t =
    elim lpkg.reason
      as (λ r.
        ((replace_more (record lpkg { reason = r }) t).pkg.name ≡ t.pkg.name)
        × ((replace_more (record lpkg { reason = r }) t).pkg.name_hash ≡ t.pkg.name_hash)) [
          | explicit_reason ↦ (refl, refl)
          | _ ↦ (refl, refl)
        ]
