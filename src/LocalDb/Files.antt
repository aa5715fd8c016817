-- ===== src/LocalDb/Files.antt =====
-- The file `files` of a package in the local database, the second part of `local_db_read` of
-- lib/libalpm/be_local.c, `_alpm_filelist_sort` of lib/libalpm/filelist.c and lib/libalpm/backup.c.
-- `qsort` of the C library is a parameter; malloc does not fail.
use dulge.Base.{
  ℕ, zero, suc, Bool, true, false, Option, none, some, List, [], ◌∷◌, ◌++◌, map, Str, codes, strcmp,
  str_eq, is_gt, length, if◌then◌else◌,
}
use dulge.Deps.{split_first}
use dulge.LocalDb.Info.{Backup, Info}
use dulge.LocalDb.Lines.{File, fgets, strip_newline, strip_line, read_lines, read_all, open_file}

-- `_alpm_split_backup`
unfoldable pub split_backup : Str → Backup
unfolding split_first
split_backup string = elim (split_first b'\t' string) [
  | none ↦ record { name = string; hash = none }
  | some (name, hash) ↦ record { name = name; hash = some hash }
]

-- The loop of `_alpm_needbackup`.
unfoldable pub needbackup : Str → List Backup → Option Backup
unfolding str_eq
needbackup file [] = none
needbackup file (backup ∷ lp) = if str_eq file backup.name then some backup else needbackup file lp

-- The loop of `_alpm_filelist_sort` finds no file behind a greater one.
unfoldable pub is_presorted : List Str → Bool
unfolding strcmp
is_presorted [] = true
is_presorted (a ∷ []) = true
is_presorted (a ∷ b ∷ files) =
    let rest = is_presorted (b ∷ files) in if is_gt (strcmp a b) then false else rest

-- `_alpm_filelist_sort`
unfoldable pub filelist_sort : (List Str → List Str) → List Str → List Str
unfolding is_presorted
filelist_sort qsort files = if is_presorted files then files else qsort files

-- What is done with a line at which no list stands open, and where the reading goes on.
unfoldable pub files_line : (List Str → List Str) → File → Info → Option (File × Info)
unfolding str_eq read_lines filelist_sort split_backup
files_line qsort file info =
    if str_eq file.line (codes "%FILES%")
    then elim (read_all file) [
      | none ↦ none
      | some (file', files) ↦ some (file', record info { files = filelist_sort qsort files })
    ]
    else if str_eq file.line (codes "%BACKUP%")
    then elim (read_all file) [
      | none ↦ none
      | some (file', lines) ↦
          some (file', record info { backup = info.backup ++ map split_backup lines })
    ]
    else some (file, info)

-- Where `safe_fgets` is not null, the loop goes on behind the line.
abbrev pub next_line :
    (File → Info → Option Info) → Info → Bool → Option (File × Info) → Option Info
next_line rest info false line = some info
next_line rest info true none = none
next_line rest info true (some (file, info')) = rest file info'

-- `while(safe_fgets(line, sizeof(line), fp))`
unfoldable pub files_loop : (List Str → List Str) → ℕ → File → Info → Option Info
unfolding fgets strip_newline files_line
files_loop qsort zero file info = none
files_loop qsort (suc fuel) file info =
    let (file', more) = fgets file in
    next_line (λ f i. files_loop qsort fuel f i) info more
      (files_line qsort (strip_line file') info)

-- Each round but the last takes a character.
unfoldable pub read_files : (List Str → List Str) → Str → Info → Option Info
unfolding files_loop
read_files qsort text info = files_loop qsort (suc (length text)) (open_file text) info
