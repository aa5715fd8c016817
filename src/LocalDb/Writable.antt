-- ===== src/LocalDb/Writable.antt =====
-- The packages that `_alpm_local_db_write` of lib/libalpm/be_local.c can write into the file `desc`, and
-- the lines of its keys.
use dulge.Base.{◌<◌, ◌≡◌, refl, false, [], codes, ◌^◌}
use dulge.LocalDb.Desc.{
  k_name, k_version, k_base, k_desc, k_url, k_arch, k_builddate, k_installdate, k_packager, k_size,
  k_groups, k_license, k_replaces, k_depends, k_optdepends, k_conflicts, k_provides, k_xdata,
  key_in,
}
use dulge.LocalDb.Info.{Info}
use dulge.LocalDb.Rounds.{IsHeader}
use dulge.LocalDb.Sections.{IsLine, AreLines}
use dulge.LocalDb.FieldLists.{AreDeps, AreXdata}
use dulge.LocalDb.Fields.{key_in-IsHeader, IsOptional}
use dulge.Numbers.{ℤ, pos, negsuc}
use dulge.Numbers.Decimal.{InRange}

-- A size, which is not negative.
abbrev pub IsSize : ℤ → Type 0
IsSize (pos n) = n < 2 ^ 63
IsSize (negsuc n) = ⊥

-- A package whose fields the file `desc` can hold.
pub record IsWritable (info : Info) : Type 0 where
  pub name : IsLine info.name
  pub version : IsLine info.version
  pub base : IsOptional info.base
  pub desc : IsOptional info.desc
  pub url : IsOptional info.url
  pub arch : IsOptional info.arch
  pub packager : IsOptional info.packager
  pub builddate : InRange info.builddate
  pub installdate : InRange info.installdate
  pub isize : IsSize info.isize
  pub md5sum : info.validation.md5sum ≡ false
  pub groups : AreLines info.groups
  pub licenses : AreLines info.licenses
  pub replaces : AreDeps info.replaces
  pub depends : AreDeps info.depends
  pub optdepends : AreDeps info.optdepends
  pub makedepends : info.makedepends ≡ []
  pub checkdepends : info.checkdepends ≡ []
  pub conflicts : AreDeps info.conflicts
  pub provides : AreDeps info.provides
  pub xdata : AreXdata info.xdata

pub IsHeader-name : IsHeader k_name (codes "%NAME%")
unfolding key_in
IsHeader-name = key_in-IsHeader k_name (codes "%NAME%") refl refl refl refl

pub IsHeader-version : IsHeader k_version (codes "%VERSION%")
unfolding key_in
IsHeader-version = key_in-IsHeader k_version (codes "%VERSION%") refl refl refl refl

pub IsHeader-base : IsHeader k_base (codes "%BASE%")
unfolding key_in
IsHeader-base = key_in-IsHeader k_base (codes "%BASE%") refl refl refl refl

pub IsHeader-desc : IsHeader k_desc (codes "%DESC%")
unfolding key_in
IsHeader-desc = key_in-IsHeader k_desc (codes "%DESC%") refl refl refl refl

pub IsHeader-url : IsHeader k_url (codes "%URL%")
unfolding key_in
IsHeader-url = key_in-IsHeader k_url (codes "%URL%") refl refl refl refl

pub IsHeader-arch : IsHeader k_arch (codes "%ARCH%")
unfolding key_in
IsHeader-arch = key_in-IsHeader k_arch (codes "%ARCH%") refl refl refl refl

pub IsHeader-builddate : IsHeader k_builddate (codes "%BUILDDATE%")
unfolding key_in
IsHeader-builddate = key_in-IsHeader k_builddate (codes "%BUILDDATE%") refl refl refl refl

pub IsHeader-installdate : IsHeader k_installdate (codes "%INSTALLDATE%")
unfolding key_in
IsHeader-installdate = key_in-IsHeader k_installdate (codes "%INSTALLDATE%") refl refl refl refl

pub IsHeader-packager : IsHeader k_packager (codes "%PACKAGER%")
unfolding key_in
IsHeader-packager = key_in-IsHeader k_packager (codes "%PACKAGER%") refl refl refl refl

pub IsHeader-size : IsHeader k_size (codes "%SIZE%")
unfolding key_in
IsHeader-size = key_in-IsHeader k_size (codes "%SIZE%") refl refl refl refl

pub IsHeader-groups : IsHeader k_groups (codes "%GROUPS%")
unfolding key_in
IsHeader-groups = key_in-IsHeader k_groups (codes "%GROUPS%") refl refl refl refl

pub IsHeader-license : IsHeader k_license (codes "%LICENSE%")
unfolding key_in
IsHeader-license = key_in-IsHeader k_license (codes "%LICENSE%") refl refl refl refl

pub IsHeader-replaces : IsHeader k_replaces (codes "%REPLACES%")
unfolding key_in
IsHeader-replaces = key_in-IsHeader k_replaces (codes "%REPLACES%") refl refl refl refl

pub IsHeader-depends : IsHeader k_depends (codes "%DEPENDS%")
unfolding key_in
IsHeader-depends = key_in-IsHeader k_depends (codes "%DEPENDS%") refl refl refl refl

pub IsHeader-optdepends : IsHeader k_optdepends (codes "%OPTDEPENDS%")
unfolding key_in
IsHeader-optdepends = key_in-IsHeader k_optdepends (codes "%OPTDEPENDS%") refl refl refl refl

pub IsHeader-conflicts : IsHeader k_conflicts (codes "%CONFLICTS%")
unfolding key_in
IsHeader-conflicts = key_in-IsHeader k_conflicts (codes "%CONFLICTS%") refl refl refl refl

pub IsHeader-provides : IsHeader k_provides (codes "%PROVIDES%")
unfolding key_in
IsHeader-provides = key_in-IsHeader k_provides (codes "%PROVIDES%") refl refl refl refl

pub IsHeader-xdata : IsHeader k_xdata (codes "%XDATA%")
unfolding key_in
IsHeader-xdata = key_in-IsHeader k_xdata (codes "%XDATA%") refl refl refl refl
