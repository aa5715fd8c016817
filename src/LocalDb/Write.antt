-- ===== src/LocalDb/Write.antt =====
-- The text that `_alpm_local_db_write` of lib/libalpm/be_local.c writes into the files `desc` and
-- `files` of a package. What `printf` makes of a null pointer is a parameter.
use dulge.Base.{
  zero, suc, ◌||◌, Option, none, some, List, [], ◌∷◌, ◌++◌, map, Str, codes, if◌then◌else◌,
}
use dulge.Deps.{dep_compute_string}
use dulge.LocalDb.Info.{Validation, Xdata, Backup, Info}
use dulge.Numbers.{ℤ, pos, negsuc, print_int}
use dulge.Package.{Reason, explicit_reason, depend_reason, unknown_reason, Depend}

-- A header, a line and an empty line.
unfoldable pub write_line : Str → Str → Str
write_line header line = header ++ b'\n' ∷ (line ++ b'\n' ∷ b'\n' ∷ [])

unfoldable pub write_text : Str → Option Str → Str
unfolding write_line
write_text header none = []
write_text header (some text) = write_line header text

-- A number that is not zero.
unfoldable pub write_int : Str → ℤ → Str
unfolding write_line print_int
write_int header (pos zero) = []
write_int header (pos (suc n)) = write_line header (print_int (pos (suc n)))
write_int header (negsuc n) = write_line header (print_int (negsuc n))

-- `%u` of the reason.
unfoldable pub write_reason : Reason → Str
unfolding write_line
write_reason explicit_reason = []
write_reason depend_reason = write_line (codes "%REASON%") (codes "1")
write_reason unknown_reason = write_line (codes "%REASON%") (codes "2")

-- Each line with its newline, then an empty one.
abbrev pub text_lines : List Str → Str
text_lines [] = b'\n' ∷ []
text_lines (line ∷ lp) = line ++ b'\n' ∷ text_lines lp

unfoldable pub write_list : Str → List Str → Str
write_list header [] = []
write_list header (line ∷ lp) = header ++ b'\n' ∷ text_lines (line ∷ lp)

-- `write_deps`
unfoldable pub write_deps : Str → List Depend → Str
unfolding write_list dep_compute_string
write_deps header deplist = write_list header (map dep_compute_string deplist)

abbrev pub validation_lines : Validation → List Str
validation_lines v =
    (if v.none then codes "none" ∷ [] else [])
    ++ ((if v.sha256sum then codes "sha256" ∷ [] else [])
        ++ (if v.signature then codes "pgp" ∷ [] else []))

unfoldable pub write_validation : Validation → Str
write_validation v =
    if v.none || v.md5sum || v.sha256sum || v.signature
    then codes "%VALIDATION%" ++ b'\n' ∷ text_lines (validation_lines v)
    else []

abbrev pub xdata_line : Xdata → Str
xdata_line pd = pd.name ++ b'=' ∷ pd.value

-- What is written into `desc`.
unfoldable pub write_desc : Info → Str
unfolding write_line write_text write_int write_reason write_list write_deps write_validation
write_desc info =
    write_line (codes "%NAME%") info.name
    ++ (write_line (codes "%VERSION%") info.version
        ++ (write_text (codes "%BASE%") info.base
            ++ (write_text (codes "%DESC%") info.desc
                ++ (write_text (codes "%URL%") info.url
                    ++ (write_text (codes "%ARCH%") info.arch
                        ++ (write_int (codes "%BUILDDATE%") info.builddate
                            ++ (write_int (codes "%INSTALLDATE%") info.installdate
                                ++ (write_text (codes "%PACKAGER%") info.packager
                                    ++ (write_int (codes "%SIZE%") info.isize
                                        ++ (write_reason info.reason
                                            ++ (write_list (codes "%GROUPS%") info.groups
                                                ++ (write_list (codes "%LICENSE%") info.licenses
                                                    ++ (write_validation info.validation
                                                        ++ (write_deps (codes "%REPLACES%")
                                                            info.replaces
                                                            ++ (write_deps (codes "%DEPENDS%")
                                                            info.depends
                                                            ++ (write_deps (codes "%OPTDEPENDS%")
                                                            info.optdepends
                                                            ++ (write_deps (codes "%CONFLICTS%")
                                                            info.conflicts
                                                            ++ (write_deps (codes "%PROVIDES%")
                                                            info.provides
                                                            ++ write_list (codes "%XDATA%") (
                                                            map xdata_line
                                                            info.xdata)))))))))))))))))))

-- `%s` of a string that may be null.
abbrev pub backup_line : Str → Backup → Str
backup_line null_text backup =
    backup.name ++ b'\t' ∷ (elim backup.hash [ none ↦ null_text | some hash ↦ hash ])

-- What is written into `files`.
unfoldable pub write_files : Str → Info → Str
unfolding write_list
write_files null_text info =
    write_list (codes "%FILES%") info.files
    ++ write_list (codes "%BACKUP%") (map (backup_line null_text) info.backup)
