-- ===== src/LocalDb/Tests.antt =====
-- The local database at concrete packages and files (lib/libalpm/be_local.c).
use dulge.Base.{
  ◌≡◌, refl, Bool, true, false, none, some, List, [], ◌∷◌, ◌++◌, Str, codes, str_eq, strcmp,
  replicate, arith,
}
use dulge.Deps.Text.{IsWellFormed, IsPlain}
use dulge.Deps.{dep_compute_string, split_first, dep_from_string, cut_desc, or_equal, parse_mod}
use dulge.LocalDb.Again.{local_db_read_again}
use dulge.LocalDb.Desc.{
  loaded, key_in, read_pkgreason, parse_xdata, read_xdata, store_line, store_lines, desc_round,
  desc_loop, read_desc,
}
use dulge.LocalDb.Files.{
  split_backup, needbackup, is_presorted, filelist_sort, files_line, files_loop, read_files,
}
use dulge.LocalDb.FilesRoundTrip.{AreBackups}
use dulge.LocalDb.Info.{Info, Backup, new_pkg}
use dulge.LocalDb.Lines.{take_line, fgets, strip_newline, read_next, read_lines}
use dulge.LocalDb.Load.{
  Disk, pkgpath, desc_part, files_part, scriptlet_part, local_db_read, local_db_write,
}
use dulge.LocalDb.Writable.{IsWritable}
use dulge.LocalDb.Sections.{AreLines}
use dulge.LocalDb.Fields.{no_newline-IsLine}
use dulge.LocalDb.Stored.{infrq_all, local_db_read-local_db_write, local_db_read_total}
use dulge.LocalDb.Write.{
  write_line, write_text, write_int, write_reason, write_list, write_deps, write_validation,
  write_desc, backup_line, write_files,
}
use dulge.Numbers.{pos, strtoofft, parsedate, digits_onto, decimal, print_int}
use dulge.Package.{mod_ge, Depend, depend_reason, hash_sdbm, sdbm_from}

abbrev no_sort : List Str → List Str
no_sort files = files

abbrev glibc : Depend
glibc = record {
  name = codes "glibc";
  version = some (codes "2.38");
  desc = none;
  name_hash = hash_sdbm (codes "glibc");
  dep_mod = mod_ge;
}

abbrev etc_backup : Backup
etc_backup = record { name = codes "etc/dulge.conf"; hash = some (codes "d41d8c") }

abbrev dulge_1 : Info
dulge_1 = record (new_pkg (codes "dulge") (codes "1.0-1")) {
  desc = some (codes "A package manager");
  builddate = pos 1700000000;
  isize = pos 4096;
  reason = depend_reason;
  validation = record { none = false; md5sum = false; sha256sum = true; signature = true };
  groups = codes "base" ∷ [];
  depends = glibc ∷ [];
  xdata = record { name = codes "pkgtype"; value = codes "pkg" } ∷ [];
  files = codes "etc/" ∷ codes "etc/dulge.conf" ∷ [];
  backup = etc_backup ∷ [];
}

-- A disk without files, on which everything can be written.
abbrev blank_disk : Disk
blank_disk = record { contents = λ p. none; exists = λ p. false; writable = λ p. true }

abbrev broken_disk : Disk
broken_disk = record blank_disk { contents = λ p. some (codes "%XDATA%\npkgtype\n\n") }

run : Unit {0}
unfolding strcmp str_eq split_first take_line fgets strip_newline read_next read_lines key_in
    read_pkgreason parse_xdata read_xdata strtoofft parsedate dep_from_string cut_desc or_equal
    parse_mod store_line store_lines desc_round desc_loop read_desc split_backup needbackup
    is_presorted filelist_sort files_line files_loop read_files digits_onto decimal print_int
    write_line write_text write_int write_reason write_list write_deps write_validation write_desc
    write_files dep_compute_string sdbm_from hash_sdbm pkgpath desc_part files_part scriptlet_part
    local_db_read local_db_write
run = tt

written_desc :
    write_desc
      (record (new_pkg (codes "a") (codes "1")) { reason = depend_reason; groups = codes "g" ∷ [] })
    ≡ codes "%NAME%\na\n\n%VERSION%\n1\n\n%REASON%\n1\n\n%GROUPS%\ng\n\n"
unfolding run
written_desc = refl

-- A file cut off behind a key: the key itself is stored.
cut_off :
    read_desc (codes "%DESC%\n") (new_pkg (codes "a") (codes "1"))
    ≡ loaded (record (new_pkg (codes "a") (codes "1")) { desc = some (codes "%DESC%") })
unfolding run
cut_off = refl

found : needbackup (codes "etc/dulge.conf") dulge_1.backup ≡ some etc_backup
unfolding run
found = refl

name-IsPlain : IsPlain (codes "glibc")
name-IsPlain = record {
  lt = (refl, (refl, (refl, (refl, (refl, tt)))));
  gt = (refl, (refl, (refl, (refl, (refl, tt)))));
  eq = (refl, (refl, (refl, (refl, (refl, tt)))));
  space = (refl, (refl, (refl, (refl, (refl, tt)))));
}

version-IsPlain : IsPlain (codes "2.38")
version-IsPlain = record {
  lt = (refl, (refl, (refl, (refl, tt))));
  gt = (refl, (refl, (refl, (refl, tt))));
  eq = (refl, (refl, (refl, (refl, tt))));
  space = (refl, (refl, (refl, (refl, tt))));
}

glibc-IsWellFormed : IsWellFormed glibc
glibc-IsWellFormed = record { name = name-IsPlain; version = version-IsPlain; hashed = refl }

dulge_1-IsWritable : IsWritable dulge_1
unfolding run
dulge_1-IsWritable = record {
  name = no_newline-IsLine (codes "dulge") refl refl;
  version = no_newline-IsLine (codes "1.0-1") refl refl;
  base = tt;
  desc = no_newline-IsLine (codes "A package manager") refl refl;
  url = tt;
  arch = tt;
  packager = tt;
  builddate = omega arith;
  installdate = omega arith;
  isize = omega arith;
  md5sum = refl;
  groups = (no_newline-IsLine (codes "base") refl refl, refl, tt);
  licenses = tt;
  replaces = tt;
  depends = (glibc-IsWellFormed, no_newline-IsLine (dep_compute_string glibc) refl refl, refl, tt);
  optdepends = tt;
  makedepends = refl;
  checkdepends = refl;
  conflicts = tt;
  provides = tt;
  xdata = (
    (refl, (refl, (refl, (refl, (refl, (refl, (refl, tt))))))),
    no_newline-IsLine (codes "pkgtype=pkg") refl refl,
    tt,
  );
}

files-AreLines : AreLines dulge_1.files
files-AreLines = (
  no_newline-IsLine (codes "etc/") refl refl,
  refl,
  (no_newline-IsLine (codes "etc/dulge.conf") refl refl, refl, tt),
)

backup-AreBackups : AreBackups [] dulge_1.backup
backup-AreBackups = (
  tt,
  (
    refl,
    (
      refl,
      (
        refl,
        (refl, (refl, (refl, (refl, (refl, (refl, (refl, (refl, (refl, (refl, (refl, tt))))))))))),
      ),
    ),
  ),
  no_newline-IsLine (backup_line [] etc_backup) refl refl,
  tt,
)

local_db_read-local_db_write_example :
    let (disk, ok) = local_db_write [] true (codes "/db/") blank_disk dulge_1 infrq_all in
    (ok ≡ true)
    × (local_db_read no_sort (codes "/db/") disk infrq_all (new_pkg (codes "dulge") (codes "1.0-1"))
        ≡ some (
          record dulge_1 {
            infolevel = record {
              base = false;
              desc = true;
              files = true;
              scriptlet = true;
              dsize = false;
              error = false;
            };
          },
          true,
        ))
unfolding run
local_db_read-local_db_write_example =
    local_db_read-local_db_write no_sort [] (codes "/db/") blank_disk dulge_1 dulge_1-IsWritable
      files-AreLines refl backup-AreBackups refl refl

abbrev broken : Info
broken = record (new_pkg (codes "a") (codes "1")) {
  infolevel = record {
    base = false;
    desc = false;
    files = false;
    scriptlet = false;
    dsize = false;
    error = true;
  };
}

local_db_read_again_example :
    local_db_read no_sort (codes "/db/") blank_disk infrq_all broken ≡ some (broken, false)
unfolding run
local_db_read_again_example =
    local_db_read_again no_sort (codes "/db/") broken_disk infrq_all
      (new_pkg (codes "a") (codes "1")) broken false refl no_sort (codes "/db/") blank_disk

local_db_read_total_example :
    (info : Info) × (ok : Bool) × (local_db_read no_sort
        (codes "/db/")
        broken_disk
        infrq_all
        (new_pkg (codes "a") (codes "1"))
      ≡ some (info, ok))
local_db_read_total_example =
    local_db_read_total no_sort (codes "/db/") broken_disk infrq_all
      (new_pkg (codes "a") (codes "1"))

-- A path of 1030 characters comes back as two.
long_path :
    read_files no_sort
      (codes "%FILES%\n" ++ (replicate 1030 b'a' ++ codes "\n"))
      (new_pkg (codes "a") (codes "1"))
    ≡ some (record (new_pkg (codes "a") (codes "1")) {
      files = replicate 1023 b'a' ∷ replicate 7 b'a' ∷ [];
    })
unfolding run
long_path = refl
