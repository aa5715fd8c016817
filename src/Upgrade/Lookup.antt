-- ===== src/Upgrade/Lookup.antt =====
-- What is found among the targets of an upgrade and in the sync databases (lib/libalpm/sync.c).
use dulge.Base.{
  ◌≡◌, refl, sym, ap, ◌∙◌, false, Option, none, some, List, [], ◌∷◌, ◌++◌, Str, str_eq,
  if◌then◌else◌, arith, Bool-cases, inl, inr, subst, if_true, if_false,
}
use dulge.Deps.{found}
use dulge.Package.{Pkg, hash_sdbm, same_name}
use dulge.Upgrade.{SyncDb, Target, first_found, target_find}
use dulge.Upgrade.Unique.{AreSyncDbs}
use dulge.Upgrade.Names.{str_eq_sym, IsNew}

-- The databases that are used for upgrades.
abbrev pub upgrade_dbs : List SyncDb → List SyncDb
upgrade_dbs [] = []
upgrade_dbs (sdb ∷ j) = if sdb.repo.upgrade then sdb ∷ upgrade_dbs j else upgrade_dbs j

-- The targets that are added have the name of the local package.
abbrev pub AreNamed : Str → List Target → Type 0
AreNamed name [] = Unit
AreNamed name (t ∷ ts) = (t.pkg.name ≡ name) × AreNamed name ts

pub first_found-named :
    (dbs : List SyncDb) (name : Str) (sdb : SyncDb) (p : Pkg)
    → AreSyncDbs dbs
    → first_found (upgrade_dbs dbs) name ≡ some (sdb, p)
    → p.name ≡ name
unfolding first_found
first_found-named [] name sdb p d q = absurd (clash q)
  where
    clash : ◌≡◌ {A = Option (SyncDb × Pkg)} none (some (sdb, p)) → ⊥
    clash r = cc
first_found-named (db ∷ j) name sdb p (s, d) q = elim (Bool-cases db.repo.upgrade) [
  | inl e ↦
      here (db.repo.pkgfromcache name) refl
        (ap (λ ds. first_found ds name) (sym (if_true db.repo.upgrade _ _ e)) ∙ q)
        (λ r. first_found-named j name sdb p d r)
  | inr e ↦
      first_found-named j name sdb p d
        (ap (λ ds. first_found ds name) (sym (if_false db.repo.upgrade _ _ e)) ∙ q)
]
  where
    same : {x : Pkg} → ◌≡◌ {A = Option (SyncDb × Pkg)} (some (db, x)) (some (sdb, p)) → x ≡ p
    same r = cc

    here :
        (o : Option Pkg)
        → db.repo.pkgfromcache name ≡ o
        → (elim o [ none ↦ first_found (upgrade_dbs j) name | some spkg ↦ some (db, spkg) ])
          ≡ some (sdb, p)
        → (first_found (upgrade_dbs j) name ≡ some (sdb, p) → p.name ≡ name)
        → p.name ≡ name
    here none e r k = k r
    here (some spkg) e r k = subst (λ x. x.name ≡ name) (same r) (s.named name spkg e).0

-- Behind targets of another name nothing else is found.
found-append :
    (add ts : List Target) (name other : Str)
    → AreNamed other ts
    → str_eq other name ≡ false
    → found (target_find (add ++ ts) name) ≡ found (target_find add name)
unfolding target_find
found-append [] [] name other h n = refl
found-append [] (t ∷ ts) name other (e, h) n =
    let differ : same_name t.pkg.name_hash t.pkg.name (hash_sdbm name) name ≡ false =
      ground (arith, ap (λ m. str_eq m name) e ∙ n) in
    ap found (if_false (same_name t.pkg.name_hash t.pkg.name (hash_sdbm name) name) _ _ differ)
    ∙ found-append [] ts name other h n
found-append (t ∷ add) ts name other h n =
    elim (Bool-cases (same_name t.pkg.name_hash t.pkg.name (hash_sdbm name) name)) [
      | inl e ↦ rw e refl
      | inr e ↦ rw e (found-append add ts name other h n)
    ]

-- The packages that are still looked at are found in the one list as in the other.
abbrev pub Agree : List Pkg → List Target → List Target → Type 0
Agree [] add add' = Unit
Agree (p ∷ ps) add add' =
    (found (target_find add' p.name) ≡ found (target_find add p.name)) × Agree ps add add'

pub Agree-append :
    (ps : List Pkg) (add add' ts : List Target) (name : Str)
    → IsNew name ps
    → AreNamed name ts
    → Agree ps add add'
    → Agree ps add (add' ++ ts)
Agree-append [] add add' ts name n h a = tt
Agree-append (p ∷ ps) add add' ts name (e, n) h (q, a) = (
  found-append add' ts p.name name h (str_eq_sym p.name name e) ∙ q,
  Agree-append ps add add' ts name n h a,
)

pub Agree-self : (ps : List Pkg) (add : List Target) → Agree ps add add
Agree-self [] add = tt
Agree-self (p ∷ ps) add = (refl, Agree-self ps add)
