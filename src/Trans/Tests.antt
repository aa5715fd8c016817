-- ===== src/Trans/Tests.antt =====
-- Runs of transactions.
use dulge.Base.{◌≡◌, refl, true, false, none, some, [], ◌∷◌, inl, codes, arith}
use dulge.Package
use dulge.Package.{Pkg}
use dulge.Removal
use dulge.Trans.{
  TransFlags, Trans, initialized, committed, Errno, ok, Handle, Calls, Outcome, trans_init,
  trans_prepare, trans_commit, trans_release, trans_remove_pkg, trans_interrupt, handle_lock_file,
  unlock, UpdateCalls, check_arch, prepare_trans, commit_trans, load_trans, db_update, ret_err,
  trans_not_prepared,
}
use dulge.Trans.Phases.{IsSteady, Goes}
use dulge.Trans.Steps.{Step}
use dulge.Trans.Locked.{Reach, Reach-Goes, Reach-trans_commit}
use dulge.Trans.Lockfile.{Kept, IsAloof}
use dulge.Trans.Guarded.{IsGuarded}
use dulge.Trans.Session.{Session, Session-IsGuarded}
use dulge.Trans.Release.{IsHolder, IsFree, Reach-trans_release, db_update-unlocks}

-- Calls that succeed and change nothing.
abbrev quiet : Trans → Outcome
quiet t = record { after = t; failed = none }

abbrev calls : Calls
calls = record {
  remove_prepare = quiet;
  sync_prepare = quiet;
  sortbydeps = λ pkgs ignore reverse. pkgs;
  sync_load = quiet;
  sync_check = quiet;
  pre_hooks_pass = λ t. true;
  remove_packages = quiet;
  sync_commit = quiet;
}

steady : IsSteady calls
steady = record {
  remove_prepare = λ t. (refl, refl);
  sync_prepare = λ t. (refl, refl);
  sync_load = λ t. (refl, inl refl);
  sync_check = λ t. (refl, refl);
  remove_packages = λ t. (refl, inl refl);
  sync_commit = λ t. (refl, inl refl);
}

-- An update that succeeds and leaves the handle as it is.
abbrev updates : UpdateCalls
updates = record {
  get_sync_dir = λ h. (h, true);
  download_dir_setup = λ h. (h, true);
  update_dbs = λ h. (h, true);
}

same : (h : Handle) → Kept h h
same h = record { trans = refl; file = refl; lock = refl; disk = refl }

aloof : IsAloof updates
aloof = record { get_sync_dir = same; download_dir_setup = same; update_dbs = same }

abbrev flags : TransFlags
flags = record { nodeps = false; nohooks = false; downloadonly = false; nolock = false }

abbrev fresh : Handle
fresh = record {
  trans = none;
  lockfile = true;
  locked = false;
  on_disk = false;
  architectures = [];
  pm_errno = ok;
}

abbrev pkg : Pkg
pkg = record {
  addr = 0;
  name = codes "foo";
  version = codes "1-1";
  name_hash = 0;
  arch = none;
  reason = Package.explicit_reason;
  groups = [];
  depends = [];
  conflicts = [];
  provides = [];
  replaces = [];
}

abbrev begun : Trans
begun = record { flags = flags; state = initialized; add = []; remove = [] }

abbrev finished : Trans
finished = record { flags = flags; state = committed; add = []; remove = pkg ∷ [] }

abbrev with_lock : Trans → Handle
with_lock t = record fresh { trans = some t; locked = true; on_disk = true }

abbrev session : Handle
session =
    (trans_commit calls
      (trans_prepare calls (trans_remove_pkg pkg (trans_init true flags fresh).0).0).0).0

abbrev rest : Handle
rest = (trans_commit calls (trans_prepare calls (trans_remove_pkg pkg (with_lock begun)).0).0).0

rest-Reach : Reach calls (with_lock begun) rest
rest-Reach =
    Reach.next (Reach.next (Reach.next Reach.here (Step.add_target pkg)) Step.prepare) Step.commit

session_run : session ≡ with_lock finished
unfolding trans_init trans_prepare trans_commit trans_remove_pkg handle_lock_file check_arch
    prepare_trans commit_trans load_trans Removal.remove_pkg Package.pkg_find
session_run = refl

session_prepare_early : trans_prepare calls fresh ≡ ret_err fresh Errno.trans_null
unfolding trans_prepare
session_prepare_early = refl

-- A transaction is committed and released, the databases are updated, and the next one is begun.
abbrev reopened : Handle
reopened =
    (trans_init true flags (db_update updates true true true (trans_release true session).0).0).0

reopened-Session : Session calls updates fresh reopened
unfolding trans_init trans_prepare trans_commit trans_release trans_remove_pkg handle_lock_file
    unlock check_arch prepare_trans commit_trans load_trans Removal.remove_pkg Package.pkg_find
reopened-Session =
    Session.call
      (Session.update {h' = (trans_release true session).0} true true true
        (Session.release true (
          Session.call
            (Session.call
              (Session.call (Session.call Session.start (Step.init true flags))
                (Step.add_target pkg))
              Step.prepare)
            Step.commit))
        refl)
      (Step.init true flags)

reopened_run : reopened ≡ with_lock begun
unfolding trans_init trans_prepare trans_commit trans_release trans_remove_pkg handle_lock_file
    unlock check_arch prepare_trans commit_trans load_trans Removal.remove_pkg Package.pkg_find
    db_update
reopened_run = refl

Session-IsGuarded_example : IsGuarded reopened
Session-IsGuarded_example =
    Session-IsGuarded calls updates steady aloof reopened-Session
      (record { holds = tt; backed = refl })

Reach-Goes_example : Goes true true true begun rest
Reach-Goes_example = Reach-Goes calls steady begun refl rest-Reach

Reach-trans_commit_example :
    trans_commit calls (trans_interrupt (with_lock finished)).0
    ≡ ret_err (trans_interrupt (with_lock finished)).0 trans_not_prepared
Reach-trans_commit_example =
    Reach-trans_commit calls steady finished refl (omega arith)
      (Reach.next Reach.here Step.interrupt)

holder : (t : Trans) → IsHolder (with_lock t) t
holder t = record { trans = refl; lockfile = refl; locked = refl; on_disk = refl }

-- The lock file could not be removed, and the next transaction is refused.
Reach-trans_release_example :
    ((trans_release false rest).1 ≡ true)
    × IsFree (trans_release false rest).0
    × ((trans_release false rest).0.on_disk ≡ true)
    × ((trans_init true flags (trans_release false rest).0).1 ≡ false)
Reach-trans_release_example =
    Reach-trans_release calls steady (with_lock begun) rest begun (holder begun) (omega arith) refl
      rest-Reach false true flags

-- Another handle begins a transaction under the first one.
db_update-unlocks_example :
    ((db_update updates true true true (with_lock finished)).0.trans ≡ some finished)
    × ((db_update updates true true true (with_lock finished)).0.locked ≡ false)
    × ((db_update updates true true true (with_lock finished)).0.on_disk ≡ false)
    × ((trans_init true flags (record fresh {
      on_disk = (db_update updates true true true (with_lock finished)).0.on_disk;
    })).1
        ≡ true)
db_update-unlocks_example =
    db_update-unlocks updates true true true (with_lock finished) finished aloof (holder finished)
      true flags fresh (record { no_trans = refl; lockfile = refl; unlocked = refl })
