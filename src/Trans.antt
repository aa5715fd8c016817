-- ===== src/Trans.antt =====
-- Transactions, lib/libalpm/trans.c: the calls that a front end makes on a handle, as functions on
-- the handle that return whether they succeed, and the lock file of lib/libalpm/handle.c. `Calls`
-- stands for the work that these calls hand on, to remove.c, sync.c, add.c, hook.c and deps.c. Handles
-- are not null, malloc does not fail; scriptlets, events and the log are not modelled.
pub mod Guarded
pub mod Lockfile
pub mod Locked
pub mod Phases
pub mod Release
pub mod Session
pub mod Steps
pub mod State
unfoldable pub use State.*
mod Tests
use dulge.Base.{
  ℕ, ◌≡◌, ◌⊎◌, Bool, true, false, not, ◌&&◌, ◌||◌, Option, none, some, List, [], ◌∷◌, ◌++◌, Str,
  codes, str_eq, if◌then◌else◌,
}
use dulge.Package.{Pkg}
use dulge.Removal

-- `alpm_trans_init` behind the lock; the second argument is what the lock came to.
abbrev pub init_with : Handle → Handle × Bool → Trans → Option Trans → Handle × Bool
init_with h locking trans (some t) = ret_err h trans_not_null
init_with h locking trans none =
    if locking.1
    then (record locking.0 { trans = some trans }, true)
    else ret_err locking.0 handle_lock

-- `alpm_trans_init`; `granted` is for the lock.
unfoldable pub trans_init : Bool → TransFlags → Handle → Handle × Bool
unfolding handle_lock_file
trans_init granted flags handle =
    let h = checked handle in
    init_with h (if flags.nolock then (h, true) else handle_lock_file granted h)
      (record { flags = flags; state = initialized; add = []; remove = [] }) h.trans

-- One package in `check_arch`: the text that the code adds to `invalid`.
abbrev pub is_allowed : List Str → Str → Bool
is_allowed [] pkgarch = false
is_allowed (arch ∷ j) pkgarch = str_eq pkgarch arch || is_allowed j pkgarch

abbrev pub bad_arch : List Str → Pkg → Option Str
bad_arch architectures pkg = elim pkg.arch [
  | none ↦ none
  | some pkgarch ↦
      if str_eq pkgarch (codes "any") || is_allowed architectures pkgarch
      then none
      else some (pkg.name ++ b'-' ∷ (pkg.version ++ b'-' ∷ pkgarch))
]

abbrev pub bad_archs : List Str → List Pkg → List Str
bad_archs architectures [] = []
bad_archs architectures (pkg ∷ i) = elim (bad_arch architectures pkg) [
  | none ↦ bad_archs architectures i
  | some string ↦ string ∷ bad_archs architectures i
]

-- `check_arch`; without a list of architectures nothing is checked.
unfoldable pub check_arch : List Str → List Pkg → List Str
check_arch [] pkgs = []
check_arch (a ∷ architectures) pkgs = bad_archs (a ∷ architectures) pkgs

-- What a call leaves of the transaction, and the error that it sets if it fails.
pub record Outcome : Type 0 where
  pub after : Trans
  pub failed : Option Errno

-- `_alpm_remove_prepare`, `_alpm_sync_prepare`, `_alpm_sortbydeps`, `_alpm_sync_load`,
-- `_alpm_sync_check`, `_alpm_hook_run`, `_alpm_remove_packages` and `_alpm_sync_commit`.
pub record Calls : Type 0 where
  pub remove_prepare : Trans → Outcome
  pub sync_prepare : Trans → Outcome
  pub sortbydeps : List Pkg → List Pkg → Bool → List Pkg
  pub sync_load : Trans → Outcome
  pub sync_check : Trans → Outcome
  pub pre_hooks_pass : Trans → Bool
  pub remove_packages : Trans → Outcome
  pub sync_commit : Trans → Outcome

abbrev pub is_empty : List Pkg → Bool
is_empty [] = true
is_empty (p ∷ ps) = false

-- if(trans->add == NULL && trans->remove == NULL)
abbrev pub nothing_to_do : Trans → Bool
nothing_to_do t = is_empty t.add && is_empty t.remove

abbrev pub with_trans : Handle → Trans → Handle
with_trans h t = record h { trans = some t }

-- `ASSERT(trans != NULL, RET_ERR(handle, ALPM_ERR_TRANS_NULL, -1))`
abbrev pub with_current : Handle → (Trans → Handle × Bool) → Option Trans → Handle × Bool
with_current h k none = ret_err h trans_null
with_current h k (some t) = k t

-- A failure of a call is returned, with the error that it set.
abbrev pub proceed_with :
    Handle → Trans → Option Errno → (Handle → Trans → Handle × Bool) → Handle × Bool
proceed_with h t (some err) k = ret_err (with_trans h t) err
proceed_with h t none k = k (with_trans h t) t

abbrev pub proceed : Handle → Outcome → (Handle → Trans → Handle × Bool) → Handle × Bool
proceed h o = proceed_with h o.after o.failed

-- A list is sorted if it is not null.
abbrev pub sorted_lists : Calls → Trans → Trans
sorted_lists calls t =
    if t.flags.nodeps
    then t
    else let add = if is_empty t.add then [] else calls.sortbydeps t.add t.remove false in
      let remove = if is_empty t.remove then [] else calls.sortbydeps t.remove [] true in
      record t { add = add; remove = remove }

abbrev pub is_initialized : TransState → Bool
is_initialized initialized = true
is_initialized _ = false

abbrev pub is_prepared : TransState → Bool
is_prepared prepared = true
is_prepared _ = false

-- `alpm_trans_prepare` behind its first two checks.
unfoldable pub prepare_trans : Calls → Handle → Trans → Handle × Bool
unfolding check_arch
prepare_trans calls h t = elim (check_arch h.architectures t.add) [
  | a ∷ invalid ↦ ret_err h pkg_invalid_arch
  | [] ↦
      proceed h (if is_empty t.add then calls.remove_prepare t else calls.sync_prepare t)
        (λ h' t'. (with_trans h' (record (sorted_lists calls t') { state = prepared }), true))
]

unfoldable pub trans_prepare : Calls → Handle → Handle × Bool
unfolding prepare_trans
trans_prepare calls handle =
    let h = checked handle in
    with_current h
      (λ t.
        if not (is_initialized t.state)
        then ret_err h trans_not_initialized
        else if nothing_to_do t
        then (h, true)
        else prepare_trans calls h t)
      h.trans

-- The part of `alpm_trans_commit` from the first hooks on.
unfoldable pub commit_trans : Calls → Handle → Trans → Handle × Bool
commit_trans calls h t =
    let started = record t { state = committing } in
    let o = if is_empty t.add then calls.remove_packages started else calls.sync_commit started in
    let finished = proceed h o (λ h' t'. (with_trans h' (record t' { state = committed }), true)) in
    if not t.flags.nohooks && not (calls.pre_hooks_pass t)
    then ret_err (with_trans h t) trans_hook_failed
    else finished

-- The part that loads and checks the packages to add.
unfoldable pub load_trans : Calls → Handle → Trans → Handle × Bool
unfolding commit_trans
load_trans calls h t =
    if is_empty t.add
    then commit_trans calls h t
    else proceed h (calls.sync_load t) (λ h' t'.
      if t'.flags.downloadonly
      then (h', true)
      else proceed h' (calls.sync_check t') (λ h'' t''. commit_trans calls h'' t''))

unfoldable pub trans_commit : Calls → Handle → Handle × Bool
unfolding load_trans
trans_commit calls handle =
    let h = checked handle in
    with_current h
      (λ t.
        if not (is_prepared t.state)
        then ret_err h trans_not_prepared
        else if t.flags.nolock
        then ret_err h trans_not_locked
        else if nothing_to_do t
        then (h, true)
        else load_trans calls h t)
      h.trans

abbrev pub may_interrupt : TransState → Bool
may_interrupt committing = true
may_interrupt interrupted = true
may_interrupt _ = false

unfoldable pub trans_interrupt : Handle → Handle × Bool
trans_interrupt handle =
    let h = checked handle in
    with_current h
      (λ t.
        if may_interrupt t.state
        then (with_trans h (record t { state = interrupted }), true)
        else ret_err h trans_type)
      h.trans

abbrev pub is_idle : TransState → Bool
is_idle idle = true
is_idle _ = false

unfoldable pub trans_release : Bool → Handle → Handle × Bool
unfolding unlock
trans_release unlinked handle =
    let h = checked handle in
    with_current h
      (λ t.
        let h' = record h { trans = none } in
        if is_idle t.state
        then ret_err h trans_null
        else (if t.flags.nolock then h' else unlock unlinked h', true))
      h.trans

-- `alpm_remove_pkg` for a package of the local database of this handle.
unfoldable pub trans_remove_pkg : Pkg → Handle → Handle × Bool
trans_remove_pkg pkg handle =
    let h = checked handle in
    with_current h
      (λ t.
        if is_initialized t.state
        then (with_trans h (record t { remove = Removal.remove_pkg t.remove pkg }), true)
        else ret_err h trans_not_initialized)
      h.trans

-- What `alpm_db_update` of lib/libalpm/be_sync.c hands on, with whether it succeeds: `get_sync_dir`,
-- `_alpm_download_dir_setup`, and all that it does between the lock and `cleanup`.
pub record UpdateCalls : Type 0 where
  pub get_sync_dir : Handle → Handle × Bool
  pub download_dir_setup : Handle → Handle × Bool
  pub update_dbs : Handle → Handle × Bool

-- The code of `alpm_db_update` from `cleanup` on.
abbrev pub cleanup_update : Bool → Handle × Bool → Handle × Bool
cleanup_update unlinked (h, ret) =
    let h' = unlock unlinked h in (if ret then record h' { pm_errno = ok } else h', ret)

-- From the lock on; the last argument is what the lock came to.
abbrev pub locked_update : Bool → (Handle → Handle × Bool) → Handle × Bool → Handle × Bool
locked_update unlinked update_dbs (h, locking) =
    cleanup_update unlinked (if locking then update_dbs h else ret_err h handle_lock)

-- `ASSERT(path != NULL, return -1)` on the path that a call returns.
abbrev pub with_path : Handle × Bool → (Handle → Handle × Bool) → Handle × Bool
with_path (h, found) k = if found then k h else (h, false)

-- `alpm_db_update`; `has_dbs` says whether the list of databases is not null.
unfoldable pub db_update : UpdateCalls → Bool → Bool → Bool → Handle → Handle × Bool
unfolding handle_lock_file unlock
db_update calls has_dbs granted unlinked handle =
    let h = checked handle in
    if not has_dbs
    then (h, false)
    else with_path (calls.get_sync_dir h) (λ h'.
      with_path (calls.download_dir_setup h')
        (λ h''. locked_update unlinked calls.update_dbs (handle_lock_file granted h'')))
