-- ===== src/LocalDb/FilesRoundTrip.antt =====
-- The file `files` written and read, `_alpm_local_db_write` and `local_db_read` of
-- lib/libalpm/be_local.c.
use dulge.Base.{
  ℕ, suc, ◌≡◌, refl, sym, ap, ◌∙◌, true, false, Option, none, some, List, [], ◌∷◌, ◌++◌, map, Str,
  codes, length, if_true,
}
use mathlib.Core.List.{append-nil}
use dulge.Deps.Text.{split_first_at}
use dulge.LocalDb.Files.{
  split_backup, is_presorted, filelist_sort, files_line, next_line, files_loop, read_files,
}
use dulge.LocalDb.Info.{Info, Backup}
use dulge.LocalDb.Lines.{is_nil, fgets, strip_line, read_next}
use dulge.LocalDb.Sections.{IsLine, AreLines, behind, read_next-behind, fgets-behind, read_all-text}
use dulge.LocalDb.Fields.{no_newline-IsLine}
use dulge.LocalDb.Write.{text_lines, write_list, backup_line, write_files}
use dulge.Version.Parse.{Without}

abbrev pub HasHash : Backup → Type 0
HasHash backup = elim backup.hash [ none ↦ ⊥ | some hash ↦ Unit ]

-- Backup entries of which each has a hash and fits into a line.
abbrev pub AreBackups : Str → List Backup → Type 0
AreBackups null_text [] = Unit
AreBackups null_text (backup ∷ lp) =
    HasHash backup
    × Without b'\t' backup.name
    × IsLine (backup_line null_text backup)
    × AreBackups null_text lp

module _ (null_text : Str) where
  split_backup-backup_line :
      (backup : Backup)
      → HasHash backup
      → Without b'\t' backup.name
      → split_backup (backup_line null_text backup) ≡ backup
  unfolding split_backup
  split_backup-backup_line backup h w = at_hash backup.name backup.hash h w
    where
      at_hash :
          (name : Str) (hash : Option Str)
          → HasHash (record { name = name; hash = hash })
          → Without b'\t' name
          → split_backup (backup_line null_text (record { name = name; hash = hash }))
            ≡ record { name = name; hash = hash }
      at_hash name none h w = absurd h
      at_hash name (some hash) h w = rw (split_backup, split_first_at b'\t' name hash w) refl

  backups_again :
      (lp : List Backup)
      → AreBackups null_text lp
      → map split_backup (map (backup_line null_text) lp) ≡ lp
  backups_again [] h = refl
  backups_again (backup ∷ lp) (h, w, l, hs) =
      rw (split_backup-backup_line backup h w) (ap (λ bs. backup ∷ bs) (backups_again lp hs))

  backups-AreLines :
      (lp : List Backup) → AreBackups null_text lp → AreLines (map (backup_line null_text) lp)
  backups-AreLines [] h = tt
  backups-AreLines (backup ∷ lp) (h, w, l, hs) = (l, full backup.name _, backups-AreLines lp hs)
    where
      full : (s r : Str) → is_nil (s ++ b'\t' ∷ r) ≡ false
      full [] r = refl
      full (c ∷ s) r = refl

module _ (qsort : List Str → List Str) (fuel : ℕ) (i : Info) where
  -- A round for a line that is read.
  line_round :
      (s t line : Str)
      → IsLine s
      → files_loop qsort (suc fuel) (behind (s ++ b'\n' ∷ t) line) i
        ≡ next_line (λ f j. files_loop qsort fuel f j) i true (files_line qsort (behind t s) i)
  unfolding files_loop read_next
  line_round s t line h =
      let f = behind (s ++ b'\n' ∷ t) line in
      ap
        (λ b.
          next_line (λ f j. files_loop qsort fuel f j) i b
            (files_line qsort (strip_line (fgets f).0) i))
        (ap (λ r. r.1) (fgets-behind s t line h))
      ∙ ap (λ g. next_line (λ f j. files_loop qsort fuel f j) i true (files_line qsort g i))
          (read_next-behind s t line h)

  files_section :
      (files : List Str) (t line : Str)
      → AreLines files
      → files_loop qsort
          (suc fuel)
          (behind (codes "%FILES%" ++ b'\n' ∷ (text_lines files ++ t)) line)
          i
        ≡ files_loop qsort fuel (behind t []) (record i { files = filelist_sort qsort files })
  unfolding files_line
  files_section files t line h =
      line_round (codes "%FILES%") _ line (no_newline-IsLine (codes "%FILES%") refl refl)
      ∙ rw (read_all-text files t (codes "%FILES%") h) refl

  backup_section :
      (lines : List Str) (t line : Str)
      → AreLines lines
      → files_loop qsort
          (suc fuel)
          (behind (codes "%BACKUP%" ++ b'\n' ∷ (text_lines lines ++ t)) line)
          i
        ≡ files_loop qsort fuel
            (behind t [])
            (record i { backup = i.backup ++ map split_backup lines })
  unfolding files_line
  backup_section lines t line h =
      line_round (codes "%BACKUP%") _ line (no_newline-IsLine (codes "%BACKUP%") refl refl)
      ∙ rw (read_all-text lines t (codes "%BACKUP%") h) refl

  files_end : (line : Str) → files_loop qsort (suc fuel) (behind [] line) i ≡ some i
  unfolding files_loop
  files_end line = refl

filelist_sort_presorted :
    (qsort : List Str → List Str) (files : List Str)
    → is_presorted files ≡ true
    → filelist_sort qsort files ≡ files
unfolding filelist_sort
filelist_sort_presorted qsort files h = if_true (is_presorted files) _ _ h

module _ (qsort : List Str → List Str) (i : Info) (no_backup : i.backup ≡ []) where
  -- The second section, which is left out where there is no line.
  backup_part :
      (fuel : ℕ) (lines : List Str) (line : Str)
      → AreLines lines
      → files_loop qsort (suc (suc fuel)) (behind (write_list (codes "%BACKUP%") lines) line) i
        ≡ some (record i { backup = map split_backup lines })
  unfolding write_list
  backup_part fuel [] line h =
      files_end qsort (suc fuel) i line ∙ ap (λ b. some (record i { backup = b })) no_backup
  backup_part fuel (l ∷ lines) line h =
      ap (λ t. files_loop qsort (suc (suc fuel)) (behind (codes "%BACKUP%" ++ b'\n' ∷ t) line) i)
        (sym (append-nil (text_lines (l ∷ lines))))
      ∙ (backup_section qsort (suc fuel) i (l ∷ lines) [] line h
          ∙ (files_end qsort fuel _ []
              ∙ ap (λ b. some (record i { backup = b ++ map split_backup (l ∷ lines) })) no_backup))

parts :
    (qsort : List Str → List Str) (i : Info) (files lines : List Str)
    → i.files ≡ []
    → i.backup ≡ []
    → AreLines files
    → AreLines lines
    → is_presorted files ≡ true
    → read_files qsort (write_list (codes "%FILES%") files ++ write_list (codes "%BACKUP%") lines) i
      ≡ some (record i { files = files; backup = map split_backup lines })
unfolding read_files write_list
parts qsort i [] [] e n h k p =
    files_end qsort 0 i []
    ∙ (ap (λ f. some (record i { files = f })) e
        ∙ ap (λ b. some (record i { files = []; backup = b })) n)
parts qsort i [] (l ∷ lines) e n h k p =
    backup_part qsort i n (length (codes "BACKUP%" ++ b'\n' ∷ text_lines (l ∷ lines))) (l ∷ lines)
      [] k
    ∙ ap (λ f. some (record i { files = f; backup = map split_backup (l ∷ lines) })) e
parts qsort i (f ∷ files) lines e n h k p =
    let rest = b'\n' ∷ (text_lines (f ∷ files) ++ write_list (codes "%BACKUP%") lines) in
    files_section qsort (length (codes "%FILES%" ++ rest)) i (f ∷ files)
      (write_list (codes "%BACKUP%") lines) [] h
    ∙ (backup_part qsort (record i { files = filelist_sort qsort (f ∷ files) }) n
          (length (codes "ILES%" ++ rest)) lines [] k
        ∙ ap (λ fs. some (record i { files = fs; backup = map split_backup lines }))
            (filelist_sort_presorted qsort (f ∷ files) p))

-- The files and the backup entries of a package, written into the file `files` and read of it by one
-- that has none. The files are sorted, none has the empty name, each entry has a hash and no tab in
-- its name, and no line is longer than 1022 characters or has a newline; `qsort` and the text of a
-- null pointer are arbitrary.
pub read_files-write_files :
    (qsort : List Str → List Str) (null_text : Str) (info i : Info)
    → AreLines info.files
    → is_presorted info.files ≡ true
    → AreBackups null_text info.backup
    → i.files ≡ []
    → i.backup ≡ []
    → read_files qsort (write_files null_text info) i
      ≡ some (record i { files = info.files; backup = info.backup })
unfolding write_files
read_files-write_files qsort null_text info i h p b e n =
    parts qsort i info.files (map (backup_line null_text) info.backup) e n h
      (backups-AreLines null_text info.backup b) p
    ∙ ap (λ bs. some (record i { files = info.files; backup = bs }))
        (backups_again null_text info.backup b)
