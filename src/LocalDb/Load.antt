-- ===== src/LocalDb/Load.antt =====
-- `local_db_read` and `_alpm_local_db_write` of lib/libalpm/be_local.c. The files are a parameter:
-- what each path holds, and whether it can be opened. malloc does not fail, the messages are left
-- out, and so is the umask, which is the same again at the end.
use dulge.Base.{
  Bool, true, false, not, ◌&&◌, ◌||◌, Option, none, some, List, [], ◌∷◌, ◌++◌, Str, codes, str_eq,
  if◌then◌else◌,
}
use dulge.LocalDb.Desc.{Loaded, loaded, load_failed, load_unfinished, read_desc}
use dulge.LocalDb.Files.{read_files}
use dulge.LocalDb.Info.{Level, Info}
use dulge.LocalDb.Write.{write_desc, write_files}

-- The text of each path that can be opened for reading, and whether it exists and whether it can be
-- opened for writing.
pub record Disk : Type 0 where
  pub contents : Str → Option Str
  pub exists : Str → Bool
  pub writable : Str → Bool

-- `_alpm_local_db_pkgpath`
unfoldable pub pkgpath : Str → Info → Str → Str
pkgpath dbpath info filename =
    (dbpath ++ (info.name ++ b'-' ∷ (info.version ++ b'/' ∷ []))) ++ filename

-- (infolevel & inforeq) == inforeq
abbrev pub covers : Level → Level → Bool
covers infolevel inforeq =
    (infolevel.base || not inforeq.base)
    && (infolevel.desc || not inforeq.desc)
    && (infolevel.files || not inforeq.files)
    && (infolevel.scriptlet || not inforeq.scriptlet)
    && (infolevel.dsize || not inforeq.dsize)
    && (infolevel.error || not inforeq.error)

-- The package as it is left, and whether the result is 0; nothing for a loop without end.
abbrev pub Result : Type 0
Result = Option (Info × Bool)

-- The label `error`.
abbrev pub error : Info → Result
error info = some (record info { infolevel = record info.infolevel { error = true } }, false)

-- A part, and the next one unless it failed.
abbrev pub and_then : Result → (Info → Result) → Result
and_then none next = none
and_then (some (info, true)) next = next info
and_then (some (info, false)) next = some (info, false)

abbrev pub desc_done : Loaded → Result
desc_done (loaded info) =
    some (record info { infolevel = record info.infolevel { desc = true } }, true)
desc_done (load_failed info) = error info
desc_done load_unfinished = none

abbrev pub files_done : Option Info → Result
files_done none = none
files_done (some info) =
    some (record info { infolevel = record info.infolevel { files = true } }, true)

abbrev pub desc_opened : Info → Option Str → Result
desc_opened info none = error info
desc_opened info (some text) = desc_done (read_desc text info)

abbrev pub files_opened : (List Str → List Str) → Info → Option Str → Result
files_opened qsort info none = error info
files_opened qsort info (some text) = files_done (read_files qsort text info)

module _ (qsort : List Str → List Str) (dbpath : Str) (disk : Disk) (inforeq : Level) where
  -- The part DESC.
  unfoldable pub desc_part : Info → Result
  unfolding read_desc pkgpath
  desc_part info =
      if inforeq.desc && not info.infolevel.desc
      then desc_opened info (disk.contents (pkgpath dbpath info (codes "desc")))
      else some (info, true)

  -- The part FILES.
  unfoldable pub files_part : Info → Result
  unfolding read_files pkgpath
  files_part info =
      if inforeq.files && not info.infolevel.files
      then files_opened qsort info (disk.contents (pkgpath dbpath info (codes "files")))
      else some (info, true)

  -- The part INSTALL.
  unfoldable pub scriptlet_part : Info → Result
  unfolding pkgpath
  scriptlet_part info =
      if inforeq.scriptlet && not info.infolevel.scriptlet
      then some (
        record info {
          scriptlet = disk.exists (pkgpath dbpath info (codes "install")) || info.scriptlet;
          infolevel = record info.infolevel { scriptlet = true };
        },
        true,
      )
      else some (info, true)

  unfoldable pub local_db_read : Info → Result
  unfolding desc_part files_part scriptlet_part
  local_db_read info =
      if covers info.infolevel inforeq
      then some (info, true)
      else if info.infolevel.error
      then some (info, false)
      else and_then (desc_part info) (λ i. and_then (files_part i) (λ j. scriptlet_part j))

-- A text written into a file; there it can be read.
abbrev pub write_file : Disk → Str → Str → Disk
write_file disk path text = record disk {
  contents = λ p. if str_eq p path then some text else disk.contents p;
  exists = λ p. str_eq p path || disk.exists p;
}

-- One file of `_alpm_local_db_write`, if it is asked for, and whether it could be opened.
abbrev pub write_part : Bool → Disk → Str → Str → Disk × Bool
write_part wanted disk path text =
    if wanted
    then (if disk.writable path then (write_file disk path text, true) else (disk, false))
    else (disk, true)

-- The files after the first part, unless it failed.
abbrev pub write_next : (Disk → Disk × Bool) → Disk × Bool → Disk × Bool
write_next next (disk, true) = next disk
write_next next (disk, false) = (disk, false)

-- `_alpm_local_db_write`, for a database that is the local one or not.
unfoldable pub local_db_write : Str → Bool → Str → Disk → Info → Level → Disk × Bool
unfolding pkgpath str_eq write_desc write_files
local_db_write null_text is_local dbpath disk info inforeq =
    if is_local
    then write_next
        (λ d.
          write_part inforeq.files d (pkgpath dbpath info (codes "files"))
            (write_files null_text info))
        (write_part inforeq.desc disk (pkgpath dbpath info (codes "desc")) (write_desc info))
    else (disk, false)
