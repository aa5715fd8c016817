-- ===== src/Upgrade/Unique.antt =====
-- No package is twice among the targets of an upgrade (lib/libalpm/sync.c).
use dulge.Base.{
  ◌≡◌, refl, sym, Bool, false, not, ◌&&◌, ◌||◌, Option, none, some, List, [], ◌∷◌, ◌++◌, Str, ◌==◌,
  arith, Bool-cases, inl, inr, subst,
}
use mathlib.Core.List.{append_assoc, append-nil}
use dulge.Deps.{found}
use dulge.Package.{Pkg, pkg_find}
use dulge.Resolve.{Resolver}
use dulge.Trans.{is_initialized}
use dulge.Trans.State.{Errno}
use dulge.Upgrade.{
  SyncDb, Target, target_find, replace_more, is_replaced, is_ignored, check_literal, new_target,
  add_replacer, check_replacer, check_replacers, check_sdb, upgrade_pkg, upgrade_all, UpgradeTrans,
  upgraded, refused, sync_sysupgrade,
}
use dulge.Upgrade.Names.{
  IsHashed, IsFresh, AreUnique, IsNew, AreDistinct, str_eq_sym, IsFresh-append, AreUnique-append,
  find-IsFresh, IsFresh-left, AreUnique-left, target_update-IsFresh, target_update-AreUnique,
  replace_more_keeps,
}

-- The packages that are still looked at are no replacers yet.
abbrev AreFresh : List Pkg → List Target → Type 0
AreFresh [] ts = Unit
AreFresh (p ∷ ps) ts = IsFresh p.name ts × AreFresh ps ts

-- No two among the targets and the replacers, and none of the targets has the name of the package
-- that is looked at.
record Inv (name : Str) (f : List Target × List Target) : Type 0 where
  unique : AreUnique (f.0 ++ f.1)
  fresh : IsFresh name f.0

AreFresh-append :
    (ps : List Pkg) (ts : List Target) (t : Target)
    → IsNew t.pkg.name ps
    → AreFresh ps ts
    → AreFresh ps (ts ++ t ∷ [])
AreFresh-append [] ts t n h = tt
AreFresh-append (p ∷ ps) ts t (e, n) (f, h) = (
  IsFresh-append p.name ts (t ∷ []) f (str_eq_sym p.name t.pkg.name e, tt),
  AreFresh-append ps ts t n h,
)

module _ (handle : Resolver) (replace_pkg : Pkg → Pkg → Bool) (lpkg : Pkg) (sdb : SyncDb) where
  add_replacer-Inv :
      (spkg : Pkg) (ps : List Pkg) (add rs : List Target) (o : Option Target)
      → IsHashed spkg
      → IsNew spkg.name ps
      → IsFresh spkg.name rs
      → AreFresh ps rs
      → target_find add spkg.name ≡ o
      → Inv lpkg.name (add, rs)
      → let f = add_replacer handle replace_pkg lpkg sdb spkg (add, rs) o in
        Inv lpkg.name f × AreFresh ps f.1
  add_replacer-Inv spkg ps add rs none h n e r q i =
      let t = new_target handle replace_pkg lpkg sdb spkg in
      let fresh =
        IsFresh-append spkg.name add rs
          (find-IsFresh add spkg.name (AreUnique-left add rs i.unique) q) e in
      (
        record {
          unique =
              subst AreUnique (append_assoc add rs (t ∷ []))
                (AreUnique-append (add ++ rs) t i.unique h fresh);
          fresh = i.fresh;
        },
        AreFresh-append ps rs t n r,
      )
  add_replacer-Inv spkg ps add rs (some tpkg) h n e r q i =
      elim (Bool-cases (tpkg.db == sdb.addr)) [
        | inl s ↦ rw s (
          record {
            unique =
                target_update-AreUnique (replace_more lpkg) (replace_more_keeps lpkg) add rs
                  spkg.name i.unique;
            fresh = IsFresh-left lpkg.name _ [] (
                target_update-IsFresh (replace_more lpkg) (replace_more_keeps lpkg) lpkg.name add []
                  spkg.name (IsFresh-append lpkg.name add [] i.fresh tt));
          },
          r,
        )
        | inr s ↦ rw s (i, r)
      ]

  check_replacers-Inv :
      (ps : List Pkg) (f : List Target × List Target)
      → AreDistinct ps
      → AreFresh ps f.1
      → Inv lpkg.name f
      → Inv lpkg.name (check_replacers handle replace_pkg lpkg sdb ps f)
  unfolding check_replacers check_replacer
  check_replacers-Inv [] f d r i = i
  check_replacers-Inv (spkg ∷ ps) (add, rs) (h, n, d) (e, r) i =
      elim (Bool-cases (
        is_replaced lpkg spkg.replaces
        && not (is_ignored handle replace_pkg spkg lpkg)
        && replace_pkg lpkg spkg)) [
          | inl s ↦
              let (i', r') =
                add_replacer-Inv spkg ps add rs (target_find add spkg.name) h n e r refl i in
              rw s (check_replacers-Inv ps _ d r' i')
          | inr s ↦ rw s (check_replacers-Inv ps (add, rs) d r i)
        ]

-- What the sync databases are: in a cache the names are distinct and the hashes are those of the
-- names, and a package that is found under a name has it.
pub record IsSyncDb (sdb : SyncDb) : Type 0 where
  pub distinct : AreDistinct sdb.repo.pkgcache
  pub named :
      (name : Str) (p : Pkg) → sdb.repo.pkgfromcache name ≡ some p → (p.name ≡ name) × IsHashed p

abbrev pub AreSyncDbs : List SyncDb → Type 0
AreSyncDbs [] = Unit
AreSyncDbs (sdb ∷ j) = IsSyncDb sdb × AreSyncDbs j

AreFresh-nil : (ps : List Pkg) → AreFresh ps []
AreFresh-nil [] = tt
AreFresh-nil (p ∷ ps) = (tt, AreFresh-nil ps)

module _ (handle : Resolver) (replace_pkg : Pkg → Pkg → Bool) (enable_downgrade : Bool) where
  check_sdb-AreUnique :
      (lpkg : Pkg) (sdb : SyncDb) (rest : List Target → List Target) (f : List Target × List Target)
      (o : Option Pkg)
      → ((add : List Target) → AreUnique add → IsFresh lpkg.name add → AreUnique (rest add))
      → ((p : Pkg) → o ≡ some p → (p.name ≡ lpkg.name) × IsHashed p)
      → Inv lpkg.name f
      → AreUnique (check_sdb handle replace_pkg enable_downgrade lpkg sdb rest f o)
  check_sdb-AreUnique lpkg sdb rest (add, r ∷ rs) o k n i = i.unique
  check_sdb-AreUnique lpkg sdb rest (add, []) none k n i =
      k add (AreUnique-left add [] i.unique) i.fresh
  check_sdb-AreUnique lpkg sdb rest (add, []) (some spkg) k n i =
      let unique = AreUnique-left add [] i.unique in
      let (name, h) = n spkg refl in
      elim (Bool-cases (check_literal handle replace_pkg lpkg spkg enable_downgrade)) [
        | inl s ↦
            rw s (AreUnique-append add _ unique h (subst (λ m. IsFresh m add) (sym name) i.fresh))
        | inr s ↦ rw s unique
      ]

  upgrade_pkg-AreUnique :
      (lpkg : Pkg) (dbs : List SyncDb) (add : List Target)
      → AreSyncDbs dbs
      → AreUnique add
      → IsFresh lpkg.name add
      → AreUnique (upgrade_pkg handle replace_pkg enable_downgrade lpkg dbs add)
  unfolding upgrade_pkg
  upgrade_pkg-AreUnique lpkg [] add d u f = u
  upgrade_pkg-AreUnique lpkg (sdb ∷ j) add (s, d) u f = elim (Bool-cases sdb.repo.upgrade) [
    | inl e ↦ rw e (
        check_sdb-AreUnique lpkg sdb (λ a. upgrade_pkg handle replace_pkg enable_downgrade lpkg j a)
          _ (sdb.repo.pkgfromcache lpkg.name) (λ a v g. upgrade_pkg-AreUnique lpkg j a d v g)
          (s.named lpkg.name)
          (check_replacers-Inv handle replace_pkg lpkg sdb sdb.repo.pkgcache (add, []) s.distinct
            (AreFresh-nil sdb.repo.pkgcache) (record { unique = AreUnique-nil add u; fresh = f })))
    | inr e ↦ rw e (upgrade_pkg-AreUnique lpkg j add d u f)
  ]
    where
      AreUnique-nil : (xs : List Target) → AreUnique xs → AreUnique (xs ++ [])
      AreUnique-nil xs = subst AreUnique (sym (append-nil xs))

  upgrade_all-AreUnique :
      (dbs : List SyncDb) (remove locals : List Pkg) (add : List Target)
      → AreSyncDbs dbs
      → AreUnique add
      → AreUnique (upgrade_all handle replace_pkg enable_downgrade dbs remove locals add)
  unfolding upgrade_all
  upgrade_all-AreUnique dbs remove [] add d u = u
  upgrade_all-AreUnique dbs remove (lpkg ∷ i) add d u =
      elim (Bool-cases (found (pkg_find remove lpkg.name) || found (target_find add lpkg.name))) [
        | inl e ↦ rw e (upgrade_all-AreUnique dbs remove i add d u)
        | inr e ↦ rw e (
            upgrade_all-AreUnique dbs remove i _ d (
              upgrade_pkg-AreUnique lpkg dbs add d u (
                find-IsFresh add lpkg.name u
                  (not_found (target_find add lpkg.name) (ground (arith, e))))))
      ]
    where
      not_found : (o : Option Target) → found o ≡ false → o ≡ none
      not_found none h = refl
      not_found (some t) h = cc

  -- After a call of `alpm_sync_sysupgrade` that succeeds no two targets have one name and each has the
  -- hash of its name, if that was so before, whatever is upgraded, downgraded and replaced. In each
  -- cache the names are distinct and the hashes are those of the names, and a database finds a package
  -- under its own name only.
  pub sync_sysupgrade-AreUnique :
      (dbs_sync : List SyncDb) (trans trans' : UpgradeTrans)
      → AreSyncDbs dbs_sync
      → AreUnique trans.add
      → sync_sysupgrade handle replace_pkg enable_downgrade dbs_sync (some trans) ≡ upgraded trans'
      → AreUnique trans'.add
  unfolding sync_sysupgrade
  sync_sysupgrade-AreUnique dbs_sync trans trans' d u q =
      elim (Bool-cases (is_initialized trans.state)) [
        | inl e ↦
            subst (λ t. AreUnique t.add) (same (rw e at q))
              (upgrade_all-AreUnique dbs_sync trans.remove handle.db_local.pkgcache trans.add d u)
        | inr e ↦ absurd (differ (rw e at q))
      ]
    where
      same : {t : UpgradeTrans} → upgraded t ≡ upgraded trans' → t ≡ trans'
      same r = cc

      differ : {e : Errno} → refused e ≡ upgraded trans' → ⊥
      differ r = cc
