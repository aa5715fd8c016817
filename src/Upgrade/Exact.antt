-- ===== src/Upgrade/Exact.antt =====
-- `alpm_sync_sysupgrade` where nothing is replaced, against `alpm_sync_get_new_version`
-- (lib/libalpm/sync.c).
use dulge.Upgrade.Lookup.{upgrade_dbs, AreNamed, first_found-named, Agree, Agree-append, Agree-self}
use dulge.Base.{
  Ordering, ◌≡◌, refl, sym, ap, ◌∙◌, Bool, true, false, not, ◌||◌, Option, none, some, List, [],
  ◌∷◌, ◌++◌, if◌then◌else◌, Bool-cases, inl, inr, if_true, if_false,
}
use mathlib.Core.List.{append_assoc, append-nil}
use dulge.Deps.{found}
use dulge.Package.{Pkg, pkg_find}
use dulge.Resolve.{Resolver}
use dulge.Trans.{is_initialized}
use dulge.Upgrade.{
  SyncDb, Target, compare_versions, first_found, newer, literal_wanted, if_newer, get_new_version,
  target_find, is_replaced, is_ignored, check_literal, check_replacer, check_replacers, check_sdb,
  upgrade_pkg, upgrade_all, UpgradeTrans, upgraded, sync_sysupgrade,
}
use dulge.Upgrade.Unique.{AreSyncDbs}
use dulge.Upgrade.Names.{AreDistinct}

-- No package of the list replaces the local one.
abbrev pub NoneReplaces : Pkg → List Pkg → Type 0
NoneReplaces lpkg [] = Unit
NoneReplaces lpkg (p ∷ ps) = (is_replaced lpkg p.replaces ≡ false) × NoneReplaces lpkg ps

abbrev pub NoReplacers : Pkg → List SyncDb → Type 0
NoReplacers lpkg [] = Unit
NoReplacers lpkg (sdb ∷ j) = NoneReplaces lpkg sdb.repo.pkgcache × NoReplacers lpkg j

abbrev pub NothingReplaced : List Pkg → List SyncDb → Type 0
NothingReplaced [] dbs = Unit
NothingReplaced (lpkg ∷ i) dbs = NoReplacers lpkg dbs × NothingReplaced i dbs

module _ (handle : Resolver) (replace_pkg : Pkg → Pkg → Bool) where
  -- The new version of a package as a target, unless it is ignored.
  abbrev pub as_target : Pkg → Option (SyncDb × Pkg) → List Target
  as_target lpkg none = []
  as_target lpkg (some (sdb, spkg)) =
      if is_ignored handle replace_pkg spkg lpkg
      then []
      else record { pkg = spkg; db = sdb.addr; removes = [] } ∷ []

  abbrev pub new_versions : List SyncDb → List Pkg → List Target → List Pkg → List Target
  new_versions dbs remove add [] = []
  new_versions dbs remove add (lpkg ∷ i) =
      (if found (pkg_find remove lpkg.name) || found (target_find add lpkg.name)
        then []
        else as_target lpkg (get_new_version lpkg (upgrade_dbs dbs)))
      ++ new_versions dbs remove add i

  check_replacers-none :
      (lpkg : Pkg) (sdb : SyncDb) (ps : List Pkg) (f : List Target × List Target)
      → NoneReplaces lpkg ps
      → check_replacers handle replace_pkg lpkg sdb ps f ≡ f
  unfolding check_replacers check_replacer
  check_replacers-none lpkg sdb [] f h = refl
  check_replacers-none lpkg sdb (p ∷ ps) (add, rs) (e, h) =
      rw e (check_replacers-none lpkg sdb ps (add, rs) h)

  -- What the literal adds is what `if_newer` lets through.
  literal :
      (lpkg : Pkg) (sdb : SyncDb) (spkg : Pkg) (rest : List Target → List Target)
      (add : List Target)
      → check_sdb handle replace_pkg false lpkg sdb rest (add, []) (some spkg)
        ≡ add ++ as_target lpkg (if_newer lpkg (some (sdb, spkg)))
  unfolding check_literal
  literal lpkg sdb spkg rest add = by_order (compare_versions spkg lpkg)
    where
      by_order :
          (o : Ordering)
          → (if literal_wanted o false (is_ignored handle replace_pkg spkg lpkg)
              then add ++ record { pkg = spkg; db = sdb.addr; removes = [] } ∷ []
              else add)
            ≡ add ++ as_target lpkg (newer (sdb, spkg) o)
      by_order Ordering.lt = sym (append-nil add)
      by_order Ordering.eq = sym (append-nil add)
      by_order Ordering.gt = elim (Bool-cases (is_ignored handle replace_pkg spkg lpkg)) [
        | inl s ↦ rw s (sym (append-nil add))
        | inr s ↦ rw s refl
      ]

  -- A database that is used for upgrades, for what it finds under the name.
  at_sdb :
      (lpkg : Pkg) (sdb : SyncDb) (rest : List Target → List Target) (add : List Target)
      (o : Option Pkg) (later : Option (SyncDb × Pkg))
      → rest add ≡ add ++ as_target lpkg (if_newer lpkg later)
      → check_sdb handle replace_pkg false lpkg sdb rest (add, []) o
        ≡ add
          ++ as_target lpkg (if_newer lpkg (elim o [ none ↦ later | some spkg ↦ some (sdb, spkg) ]))
  at_sdb lpkg sdb rest add none later h = h
  at_sdb lpkg sdb rest add (some spkg) later h = literal lpkg sdb spkg rest add

  upgrade_pkg-get_new_version :
      (lpkg : Pkg) (dbs : List SyncDb) (add : List Target)
      → NoReplacers lpkg dbs
      → upgrade_pkg handle replace_pkg false lpkg dbs add
        ≡ add ++ as_target lpkg (get_new_version lpkg (upgrade_dbs dbs))
  unfolding upgrade_pkg get_new_version first_found
  upgrade_pkg-get_new_version lpkg [] add n = sym (append-nil add)
  upgrade_pkg-get_new_version lpkg (sdb ∷ j) add (h, n) = elim (Bool-cases sdb.repo.upgrade) [
    | inl e ↦
        let rest : List Target → List Target = λ a. upgrade_pkg handle replace_pkg false lpkg j a in
        if_false (not sdb.repo.upgrade) _ _ (ap not e)
        ∙ (ap
              (λ f.
                check_sdb handle replace_pkg false lpkg sdb rest f
                  (sdb.repo.pkgfromcache lpkg.name))
              (check_replacers-none lpkg sdb sdb.repo.pkgcache (add, []) h)
            ∙ (at_sdb lpkg sdb rest add (sdb.repo.pkgfromcache lpkg.name)
                  (first_found (upgrade_dbs j) lpkg.name) (upgrade_pkg-get_new_version lpkg j add n)
                ∙ ap (λ d. add ++ as_target lpkg (if_newer lpkg (first_found d lpkg.name)))
                    (sym (if_true sdb.repo.upgrade _ _ e))))
    | inr e ↦
        if_true (not sdb.repo.upgrade) _ _ (ap not e)
        ∙ (upgrade_pkg-get_new_version lpkg j add n
            ∙ ap (λ d. add ++ as_target lpkg (if_newer lpkg (first_found d lpkg.name)))
                (sym (if_false sdb.repo.upgrade _ _ e)))
  ]

  as_target-AreNamed :
      (lpkg : Pkg) (o : Option (SyncDb × Pkg))
      → ((sdb : SyncDb) (p : Pkg) → o ≡ some (sdb, p) → p.name ≡ lpkg.name)
      → AreNamed lpkg.name (as_target lpkg (if_newer lpkg o))
  as_target-AreNamed lpkg none h = tt
  as_target-AreNamed lpkg (some (sdb, spkg)) h = by_order (compare_versions spkg lpkg)
    where
      by_order : (o : Ordering) → AreNamed lpkg.name (as_target lpkg (newer (sdb, spkg) o))
      by_order Ordering.lt = tt
      by_order Ordering.eq = tt
      by_order Ordering.gt = elim (Bool-cases (is_ignored handle replace_pkg spkg lpkg)) [
        | inl s ↦ rw s tt
        | inr s ↦ rw s (h sdb spkg refl, tt)
      ]

  upgrade_all-new_versions :
      (dbs : List SyncDb) (remove : List Pkg) (add add' : List Target) (locals : List Pkg)
      → AreSyncDbs dbs
      → AreDistinct locals
      → NothingReplaced locals dbs
      → Agree locals add add'
      → upgrade_all handle replace_pkg false dbs remove locals add'
        ≡ add' ++ new_versions dbs remove add locals
  unfolding upgrade_all get_new_version
  upgrade_all-new_versions dbs remove add add' [] d u n a = sym (append-nil add')
  upgrade_all-new_versions dbs remove add add' (lpkg ∷ i) d (h, w, u) (m, n) (q, a) =
      elim (Bool-cases (found (pkg_find remove lpkg.name) || found (target_find add lpkg.name))) [
        | inl e ↦ rw (q, e) (upgrade_all-new_versions dbs remove add add' i d u n a)
        | inr e ↦
            let ts = as_target lpkg (get_new_version lpkg (upgrade_dbs dbs)) in
            let named =
              as_target-AreNamed lpkg (first_found (upgrade_dbs dbs) lpkg.name)
                (λ sdb p k. first_found-named dbs lpkg.name sdb p d k) in
            rw (q, e)
              (ap (λ t. upgrade_all handle replace_pkg false dbs remove i t)
                  (upgrade_pkg-get_new_version lpkg dbs add' m)
                ∙ (upgrade_all-new_versions dbs remove add (add' ++ ts) i d u n
                      (Agree-append i add add' ts lpkg.name w named a)
                    ∙ append_assoc add' ts (new_versions dbs remove add i)))
      ]

  -- In a transaction that is initialized, where no package of a sync database replaces a local one and
  -- downgrades are not asked for, `alpm_sync_sysupgrade` appends to the targets, in the order of the
  -- local packages, exactly the new versions that `alpm_sync_get_new_version` finds in the databases
  -- that are used for upgrades, but those of packages that are ignored, are removed or are targets
  -- already. The names of the local packages are distinct, those of each cache too, each of these
  -- packages has the hash of its name, and a database finds a package under its own name only.
  pub sync_sysupgrade-get_new_version :
      (dbs_sync : List SyncDb) (trans : UpgradeTrans)
      → AreSyncDbs dbs_sync
      → AreDistinct handle.db_local.pkgcache
      → NothingReplaced handle.db_local.pkgcache dbs_sync
      → is_initialized trans.state ≡ true
      → sync_sysupgrade handle replace_pkg false dbs_sync (some trans)
        ≡ upgraded (record trans {
          add = trans.add ++ new_versions dbs_sync trans.remove trans.add handle.db_local.pkgcache;
        })
  unfolding sync_sysupgrade
  sync_sysupgrade-get_new_version dbs_sync trans d u n i =
      if_true (is_initialized trans.state) _ _ i
      ∙ ap (λ add. upgraded (record trans { add = add }))
          (upgrade_all-new_versions dbs_sync trans.remove trans.add trans.add
            handle.db_local.pkgcache d u n (Agree-self handle.db_local.pkgcache trans.add))
