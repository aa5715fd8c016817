-- ===== src/Deps/Names.antt =====
-- Which names a list of packages has, and how many packages another list has besides.
use dulge.Base.{
  ℕ, suc, ◌≤◌, ◌<◌, ◌≡◌, ◌⊎◌, refl, sym, ap, ◌∙◌, true, false, ◌||◌, some, List, [], ◌∷◌, ◌++◌, Str,
  length, if◌then◌else◌, arith, Bool-cases, inl, inr, ==_iff, str_eq_iff,
}
use dulge.Deps.{found}
use dulge.Package.{Pkg, hash_sdbm, same_name, pkg_find, pkg_find_hashed}

-- The package is in the list.
abbrev pub IsListed : List Pkg → Pkg → Type 0
IsListed [] p = ⊥
IsListed (x ∷ xs) p = (x ≡ p) ⊎ IsListed xs p

-- The packages of the first list that have a name which the second list has not.
abbrev pub outside : List Pkg → List Pkg → ℕ
outside [] rem = 0
outside (p ∷ pkgs) rem =
    let rest = outside pkgs rem in if found (pkg_find rem p.name) then rest else suc rest

pub outside-le : (pkgs rem : List Pkg) → outside pkgs rem ≤ length pkgs
outside-le [] rem = omega arith
outside-le (p ∷ pkgs) rem = ground (arith, outside-le pkgs rem)

find_add :
    (rem : List Pkg) (x : Pkg) (hash : ℕ) (name : Str)
    → found (pkg_find_hashed (rem ++ x ∷ []) hash name)
      ≡ (found (pkg_find_hashed rem hash name) || same_name x.name_hash x.name hash name)
unfolding pkg_find_hashed
find_add [] x hash name = ground arith
find_add (y ∷ rem) x hash name = ground (arith, find_add rem x hash name)

pub found_add :
    (rem : List Pkg) (x : Pkg) (name : Str)
    → found (pkg_find rem name) ≡ true
    → found (pkg_find (rem ++ x ∷ []) name) ≡ true
unfolding pkg_find
found_add rem x name h = rw (find_add rem x (hash_sdbm name) name, h)

pub found_added :
    (rem : List Pkg) (x : Pkg)
    → x.name_hash ≡ hash_sdbm x.name
    → found (pkg_find (rem ++ x ∷ []) x.name) ≡ true
unfolding pkg_find
found_added rem x h =
    let s = (str_eq_iff x.name x.name).1 refl in
    let e = (==_iff x.name_hash (hash_sdbm x.name)).1 h in
    find_add rem x (hash_sdbm x.name) x.name ∙ ground arith

pub add-le : (pkgs rem : List Pkg) (x : Pkg) → outside pkgs (rem ++ x ∷ []) ≤ outside pkgs rem
add-le [] rem x = omega arith
add-le (p ∷ pkgs) rem x = elim (Bool-cases (found (pkg_find rem p.name))) [
  | inl e ↦ rw (found_add rem x p.name e, e) (add-le pkgs rem x)
  | inr e ↦ let ih = add-le pkgs rem x in ground arith
]

pub add-lt :
    (pkgs rem : List Pkg) (x : Pkg)
    → IsListed pkgs x
    → x.name_hash ≡ hash_sdbm x.name
    → found (pkg_find rem x.name) ≡ false
    → outside pkgs (rem ++ x ∷ []) < outside pkgs rem
add-lt [] rem x l h n = absurd l
add-lt (p ∷ pkgs) rem x (inl q) h n =
    rw (q, found_added rem x h, n) (omega (arith, add-le pkgs rem x))
add-lt (p ∷ pkgs) rem x (inr l) h n = elim (Bool-cases (found (pkg_find rem p.name))) [
  | inl e ↦ rw (found_add rem x p.name e, e) (add-lt pkgs rem x l h n)
  | inr e ↦ let ih = add-lt pkgs rem x l h n in ground arith
]

pub finds_name :
    (pkgs : List Pkg) (hash : ℕ) (name : Str) (info : Pkg)
    → pkg_find_hashed pkgs hash name ≡ some info
    → IsListed pkgs info × (info.name ≡ name)
unfolding pkg_find_hashed
finds_name [] hash name info h = cc
finds_name (x ∷ pkgs) hash name info h =
    elim (Bool-cases (same_name x.name_hash x.name hash name)) [
      | inl e ↦
          let q = some_x (rw e at h) in
          (inl q, ap (λ (p : Pkg). p.name) (sym q) ∙ (str_eq_iff x.name name).0 (ground arith))
      | inr e ↦ let (l, n) = finds_name pkgs hash name info (rw e at h) in (inr l, n)
    ]
  where
    some_x : some x ≡ some info → x ≡ info
    some_x q = cc

pub finds_listed :
    (pkgs : List Pkg) (p : Pkg)
    → IsListed pkgs p
    → p.name_hash ≡ hash_sdbm p.name
    → found (pkg_find pkgs p.name) ≡ true
unfolding pkg_find pkg_find_hashed
finds_listed [] p l h = absurd l
finds_listed (x ∷ pkgs) p (inl q) h =
    let s = (str_eq_iff p.name p.name).1 refl in
    let e = (==_iff p.name_hash (hash_sdbm p.name)).1 h in rw q (ground arith)
finds_listed (x ∷ pkgs) p (inr l) h = ground (arith, finds_listed pkgs p l h)
