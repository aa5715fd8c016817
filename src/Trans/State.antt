-- ===== src/Trans/State.antt =====
-- The handle with its transaction and its lock file, lib/libalpm/trans.h and lib/libalpm/handle.c.
use dulge.Base.{ℕ, Bool, true, false, not, ◌&&◌, ◌||◌, Option, List, Str, if◌then◌else◌}
use dulge.Package.{Pkg}

-- `alpm_transstate_t`
pub data TransState : Type 0 where
  idle initialized prepared downloading committing committed interrupted : TransState

-- The bits of `alpm_transflag_t` that these calls read.
pub record TransFlags : Type 0 where
  pub nodeps : Bool
  pub nohooks : Bool
  pub downloadonly : Bool
  pub nolock : Bool

-- `alpm_trans_t`
pub record Trans : Type 0 where
  pub flags : TransFlags
  pub state : TransState
  pub add : List Pkg
  pub remove : List Pkg

-- The values of `alpm_errno_t` that these calls set themselves; `reported` is one that a call sets
-- which they make.
pub data Errno : Type 0 where
  ok wrong_args system_error handle_lock trans_not_null trans_null trans_not_initialized : Errno
  trans_not_prepared trans_not_locked trans_hook_failed trans_type pkg_invalid_arch : Errno
  reported : ℕ → Errno

-- `alpm_handle_t`: whether `lockfile` is set, and whether `lockfd` is at least 0. `on_disk` is no
-- field of the source: it says whether the lock file exists, whoever made it.
pub record Handle : Type 0 where
  pub trans : Option Trans
  pub lockfile : Bool
  pub locked : Bool
  pub on_disk : Bool
  pub architectures : List Str
  pub pm_errno : Errno

-- `CHECK_HANDLE`
abbrev pub checked : Handle → Handle
checked h = record h { pm_errno = ok }

-- `RET_ERR(handle, err, -1)`
abbrev pub ret_err : Handle → Errno → Handle × Bool
ret_err h err = (record h { pm_errno = err }, false)

-- `_alpm_handle_lock`; `granted` says whether the lock file can be created where there is none
-- (the open is with O_CREAT and O_EXCL, so that it fails where there is one).
unfoldable pub handle_lock_file : Bool → Handle → Handle × Bool
handle_lock_file granted h =
    if not h.lockfile
    then (h, false)
    else if h.locked
    then (h, true)
    else let created = granted && not h.on_disk in
      (record h { locked = created; on_disk = h.on_disk || granted }, created)

-- `alpm_unlock`; `unlinked` says whether the lock file can be removed where there is one.
unfoldable pub unlock : Bool → Handle → Handle
unlock unlinked h = if not h.lockfile then h else if not h.locked then h else record h {
  locked = false;
  on_disk = h.on_disk && not unlinked;
  pm_errno = if h.on_disk && unlinked then h.pm_errno else system_error;
}
