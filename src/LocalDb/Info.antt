-- ===== src/LocalDb/Info.antt =====
-- What the local database keeps of a package, the fields of `alpm_pkg_t` that lib/libalpm/be_local.c
-- reads and writes.
use dulge.Base.{Bool, false, Option, none, List, [], Str}
use dulge.Numbers.{ℤ, pos}
use dulge.Package.{Reason, explicit_reason, Depend}

-- The bits of `alpm_pkgvalidation_t`.
pub record Validation : Type 0 where
  pub none : Bool
  pub md5sum : Bool
  pub sha256sum : Bool
  pub signature : Bool

-- `alpm_pkg_xdata_t`
pub record Xdata : Type 0 where
  pub name : Str
  pub value : Str

-- `alpm_backup_t`
pub record Backup : Type 0 where
  pub name : Str
  pub hash : Option Str

-- The bits of `infolevel` and of `inforeq`, lib/libalpm/db.h.
pub record Level : Type 0 where
  pub base : Bool
  pub desc : Bool
  pub files : Bool
  pub scriptlet : Bool
  pub dsize : Bool
  pub error : Bool

pub record Info : Type 0 where
  pub name : Str
  pub version : Str
  pub base : Option Str
  pub desc : Option Str
  pub url : Option Str
  pub arch : Option Str
  pub packager : Option Str
  pub builddate : ℤ
  pub installdate : ℤ
  pub isize : ℤ
  pub reason : Reason
  pub validation : Validation
  pub groups : List Str
  pub licenses : List Str
  pub replaces : List Depend
  pub depends : List Depend
  pub optdepends : List Depend
  pub makedepends : List Depend
  pub checkdepends : List Depend
  pub conflicts : List Depend
  pub provides : List Depend
  pub xdata : List Xdata
  pub files : List Str
  pub backup : List Backup
  pub scriptlet : Bool
  pub infolevel : Level

-- A package that has only been found in the database: `_alpm_pkg_new` fills it with zeros.
abbrev pub new_pkg : Str → Str → Info
new_pkg name version = record {
  name = name;
  version = version;
  base = none;
  desc = none;
  url = none;
  arch = none;
  packager = none;
  builddate = pos 0;
  installdate = pos 0;
  isize = pos 0;
  reason = explicit_reason;
  validation = record { none = false; md5sum = false; sha256sum = false; signature = false };
  groups = [];
  licenses = [];
  replaces = [];
  depends = [];
  optdepends = [];
  makedepends = [];
  checkdepends = [];
  conflicts = [];
  provides = [];
  xdata = [];
  files = [];
  backup = [];
  scriptlet = false;
  infolevel = record {
    base = false;
    desc = false;
    files = false;
    scriptlet = false;
    dsize = false;
    error = false;
  };
}
