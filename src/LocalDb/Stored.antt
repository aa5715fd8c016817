-- ===== src/LocalDb/Stored.antt =====
-- A package written into the local database and read back, `_alpm_local_db_write` and
-- `local_db_read` of lib/libalpm/be_local.c, and the end of the reading.
use dulge.Base.{
  ◌≡◌, refl, ap, ◌∙◌, inl, inr, Bool, true, false, not, ◌&&◌, ◌||◌, Option, none, some, List, [],
  ◌∷◌, ◌++◌, Str, codes, str_eq, strcmp, compare_self, is_eq, if◌then◌else◌, if_true, if_false,
}
use dulge.LocalDb.Files.{is_presorted}
use dulge.LocalDb.FilesRoundTrip.{AreBackups, read_files-write_files}
use dulge.LocalDb.Info.{Level, Info, new_pkg}
use dulge.LocalDb.Load.{
  Disk, pkgpath, covers, Result, and_then, desc_done, files_done, desc_opened, files_opened,
  desc_part, files_part, scriptlet_part, local_db_read, write_file, local_db_write,
}
use dulge.LocalDb.RoundTrip.{without_files, read_desc-write_desc}
use dulge.LocalDb.Writable.{IsWritable}
use dulge.LocalDb.Sections.{AreLines}
use dulge.LocalDb.Total.{read_desc_total, read_files_total}
use dulge.LocalDb.Write.{write_desc, write_files}

-- A part comes to an end.
Ends : Result → Type 0
Ends r = (info : Info) × (ok : Bool) × (r ≡ some (info, ok))

if-Ends : (b : Bool) (r : Result) (i : Info) → Ends r → Ends (if b then r else some (i, true))
unfolding Ends
if-Ends true r i h = h
if-Ends false r i h = (i, true, refl)

and_then-Ends :
    (r : Result) (next : Info → Result)
    → Ends r
    → ((i : Info) → Ends (next i))
    → Ends (and_then r next)
unfolding Ends
and_then-Ends r next (i, true, q) h =
    let (j, ok, p) = h i in (j, ok, ap (λ o. and_then o next) q ∙ p)
and_then-Ends r next (i, false, q) h = (i, false, ap (λ o. and_then o next) q)

desc_opened-Ends : (info : Info) (o : Option Str) → Ends (desc_opened info o)
unfolding Ends
desc_opened-Ends info none = (_, false, refl)
desc_opened-Ends info (some text) = elim (read_desc_total text info) [
  | inl (i, q) ↦ (_, true, ap desc_done q)
  | inr (i, q) ↦ (_, false, ap desc_done q)
]

files_opened-Ends :
    (qsort : List Str → List Str) (info : Info) (o : Option Str) → Ends (files_opened qsort info o)
unfolding Ends
files_opened-Ends qsort info none = (_, false, refl)
files_opened-Ends qsort info (some text) =
    let (i, q) = read_files_total qsort text info in (_, true, ap files_done q)

-- `local_db_read` returns, whatever the files hold.
pub local_db_read_total :
    (qsort : List Str → List Str) (dbpath : Str) (disk : Disk) (inforeq : Level) (info : Info)
    → (info' : Info) × (ok : Bool) × (local_db_read qsort dbpath disk inforeq info
        ≡ some (info', ok))
unfolding local_db_read desc_part files_part scriptlet_part Ends
local_db_read_total qsort dbpath disk inforeq info =
    reading (covers info.infolevel inforeq) info.infolevel.error (
      and_then-Ends (desc_part qsort dbpath disk inforeq info) _
        (if-Ends (inforeq.desc && not info.infolevel.desc) _ info
          (desc_opened-Ends info (disk.contents (pkgpath dbpath info (codes "desc")))))
        (λ i.
          and_then-Ends (files_part qsort dbpath disk inforeq i) _
            (if-Ends (inforeq.files && not i.infolevel.files) _ i
              (files_opened-Ends qsort i (disk.contents (pkgpath dbpath i (codes "files")))))
            (λ j. if-Ends (inforeq.scriptlet && not j.infolevel.scriptlet) _ j (_, true, refl))))
  where
    reading :
        (c e : Bool) {r : Result}
        → Ends r
        → Ends (if c then some (info, true) else if e then some (info, false) else r)
    reading true e h = (info, true, refl)
    reading false true h = (info, false, refl)
    reading false false h = h

strcmp-append : (p a b : Str) → strcmp (p ++ a) (p ++ b) ≡ strcmp a b
unfolding strcmp
strcmp-append [] a b = refl
strcmp-append (c ∷ p) a b = rw (compare_self c) (strcmp-append p a b)

str_eq-append : (p a b : Str) → str_eq (p ++ a) (p ++ b) ≡ str_eq a b
unfolding str_eq
str_eq-append p a b = ap is_eq (strcmp-append p a b)

-- INFRQ_ALL
abbrev pub infrq_all : Level
infrq_all = record {
  base = true;
  desc = true;
  files = true;
  scriptlet = true;
  dsize = true;
  error = false;
}

module _ (qsort : List Str → List Str) (null_text dbpath : Str) (disk : Disk) (info : Info) where
  abbrev path : Str → Str
  path filename = pkgpath dbpath info filename

  -- The disk with the two files.
  abbrev stored : Disk
  stored =
      write_file (write_file disk (path (codes "desc")) (write_desc info)) (path (codes "files"))
        (write_files null_text info)

  same_path : (a b : Str) → str_eq (path a) (path b) ≡ str_eq a b
  unfolding pkgpath
  same_path a b = str_eq-append (dbpath ++ (info.name ++ b'-' ∷ (info.version ++ b'/' ∷ []))) a b

  written :
      disk.writable (path (codes "desc")) ≡ true
      → disk.writable (path (codes "files")) ≡ true
      → local_db_write null_text true dbpath disk info infrq_all ≡ (stored, true)
  unfolding local_db_write
  written d f = rw (d, f) refl

  desc_text : stored.contents (path (codes "desc")) ≡ some (write_desc info)
  unfolding str_eq strcmp
  desc_text =
      if_false (str_eq (path (codes "desc")) (path (codes "files"))) _ _
        (same_path (codes "desc") (codes "files"))
      ∙ if_true (str_eq (path (codes "desc")) (path (codes "desc"))) _ _
          (same_path (codes "desc") (codes "desc"))

  files_text : stored.contents (path (codes "files")) ≡ some (write_files null_text info)
  unfolding str_eq strcmp
  files_text =
      if_true (str_eq (path (codes "files")) (path (codes "files"))) _ _
        (same_path (codes "files") (codes "files"))

  install_file : stored.exists (path (codes "install")) ≡ disk.exists (path (codes "install"))
  unfolding str_eq strcmp
  install_file =
      ap
        (λ b.
          b
          || (str_eq (path (codes "install")) (path (codes "desc"))
              || disk.exists (path (codes "install"))))
        (same_path (codes "install") (codes "files"))
      ∙ ap (λ b. b || disk.exists (path (codes "install")))
          (same_path (codes "install") (codes "desc"))

  -- The package before the part FILES, and the parts behind it.
  abbrev with_desc : Info
  with_desc = record (without_files info) {
    infolevel = record {
      base = false;
      desc = true;
      files = false;
      scriptlet = false;
      dsize = false;
      error = false;
    };
  }

  abbrev last : Info → Result
  last i = scriptlet_part qsort dbpath stored infrq_all i

  abbrev next : Info → Result
  next i = and_then (files_part qsort dbpath stored infrq_all i) last

  -- The package that comes out, for what is known of the scriptlet.
  abbrev loaded_with : Bool → Result
  loaded_with b = some (
    record info {
      scriptlet = b;
      infolevel = record {
        base = false;
        desc = true;
        files = true;
        scriptlet = true;
        dsize = false;
        error = false;
      };
    },
    true,
  )

  or_false : (b : Bool) → (b || false) ≡ b
  or_false true = refl
  or_false false = refl

  read_stored :
      IsWritable info
      → AreLines info.files
      → is_presorted info.files ≡ true
      → AreBackups null_text info.backup
      → local_db_read qsort dbpath stored infrq_all (new_pkg info.name info.version)
        ≡ loaded_with (disk.exists (path (codes "install")))
  unfolding local_db_read desc_part files_part scriptlet_part pkgpath
  read_stored w h p b =
      ap (λ o. and_then (desc_opened (new_pkg info.name info.version) o) next) desc_text
      ∙ (ap (λ r. and_then (desc_done r) next) (read_desc-write_desc info w)
          ∙ (ap (λ o. and_then (files_opened qsort with_desc o) last) files_text
              ∙ (ap (λ o. and_then (files_done o) last)
                    (read_files-write_files qsort null_text info with_desc h p b refl refl)
                  ∙ ap loaded_with
                      (or_false (stored.exists (path (codes "install"))) ∙ install_file))))

  -- A package that `_alpm_local_db_write` stores, read by `local_db_read` into one that has only been
  -- found in the database: all the fields are as they were, and the scriptlet is there if the file
  -- `install` exists. Both files can be opened for writing, and the package is one that they can hold:
  -- its lines have at most 1022 characters and no newline, the entries of its lists are not empty, its
  -- dates have 64 bits and its size is from 0 to 2 ^ 63 - 1, its dependencies are well-formed, no name
  -- in the extended data has an equals sign and none of a backup entry a tab, each backup entry has a
  -- hash, the files are sorted, there is no MD5 sum among the validations, and there are no
  -- dependencies of making and checking it.
  pub local_db_read-local_db_write :
      IsWritable info
      → AreLines info.files
      → is_presorted info.files ≡ true
      → AreBackups null_text info.backup
      → disk.writable (path (codes "desc")) ≡ true
      → disk.writable (path (codes "files")) ≡ true
      → let (disk', ok) = local_db_write null_text true dbpath disk info infrq_all in
        (ok ≡ true)
        × (local_db_read qsort dbpath disk' infrq_all (new_pkg info.name info.version)
            ≡ some (
              record info {
                scriptlet = disk.exists (path (codes "install"));
                infolevel = record {
                  base = false;
                  desc = true;
                  files = true;
                  scriptlet = true;
                  dsize = false;
                  error = false;
                };
              },
              true,
            ))
  local_db_read-local_db_write w h p b d f = rw (written d f) (refl, read_stored w h p b)
