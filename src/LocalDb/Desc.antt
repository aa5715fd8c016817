-- ===== src/LocalDb/Desc.antt =====
-- The file `desc` of a package in the local database, the first part of `local_db_read` of
-- lib/libalpm/be_local.c. The file can be opened; the messages on mismatches and unknown keys are
-- left out.
use dulge.Base.{
  ℕ, zero, suc, Bool, true, false, Option, none, some, List, [], ◌∷◌, ◌++◌, map, Str, codes, str_eq,
  length, if◌then◌else◌,
}
use dulge.Deps.{dep_from_string, split_first}
use dulge.LocalDb.Info.{Validation, Xdata, Info}
use dulge.LocalDb.Lines.{
  File, is_nil, fgets, strip_newline, strip_line, read_next, read_lines, read_all, open_file,
}
use dulge.Numbers.{strtoofft, parsedate}
use dulge.Package.{Reason, explicit_reason, depend_reason, unknown_reason}

-- The keys of a desc file.
pub data Key : Type 0 where
  k_name k_version k_base k_desc k_groups k_url k_license k_arch k_builddate k_installdate : Key
  k_packager k_reason k_validation k_size k_replaces k_depends k_optdepends k_makedepends : Key
  k_checkdepends k_conflicts k_provides k_xdata k_unknown : Key

abbrev pub keys : List (Str × Key)
keys =
    (codes "%NAME%", k_name)
    ∷ (codes "%VERSION%", k_version)
    ∷ (codes "%BASE%", k_base)
    ∷ (codes "%DESC%", k_desc)
    ∷ (codes "%GROUPS%", k_groups)
    ∷ (codes "%URL%", k_url)
    ∷ (codes "%LICENSE%", k_license)
    ∷ (codes "%ARCH%", k_arch)
    ∷ (codes "%BUILDDATE%", k_builddate)
    ∷ (codes "%INSTALLDATE%", k_installdate)
    ∷ (codes "%PACKAGER%", k_packager)
    ∷ (codes "%REASON%", k_reason)
    ∷ (codes "%VALIDATION%", k_validation)
    ∷ (codes "%SIZE%", k_size)
    ∷ (codes "%REPLACES%", k_replaces)
    ∷ (codes "%DEPENDS%", k_depends)
    ∷ (codes "%OPTDEPENDS%", k_optdepends)
    ∷ (codes "%MAKEDEPENDS%", k_makedepends)
    ∷ (codes "%CHECKDEPENDS%", k_checkdepends)
    ∷ (codes "%CONFLICTS%", k_conflicts)
    ∷ (codes "%PROVIDES%", k_provides)
    ∷ (codes "%XDATA%", k_xdata)
    ∷ []

-- The chain of `strcmp`.
unfoldable pub key_in : List (Str × Key) → Str → Key
unfolding str_eq
key_in [] line = k_unknown
key_in ((text, key) ∷ rest) line = if str_eq line text then key else key_in rest line

-- `_read_pkgreason`
unfoldable pub read_pkgreason : Str → Reason
unfolding str_eq
read_pkgreason line =
    if str_eq line (codes "0")
    then explicit_reason
    else if str_eq line (codes "1")
    then depend_reason
    else unknown_reason

-- One round of the loop over the validation types.
abbrev pub add_validation : Validation → Str → Validation
add_validation v data_ =
    if str_eq data_ (codes "none")
    then record v { none = true }
    else if str_eq data_ (codes "sha256")
    then record v { sha256sum = true }
    else if str_eq data_ (codes "pgp")
    then record v { signature = true }
    else v

abbrev pub add_validations : Validation → List Str → Validation
add_validations v [] = v
add_validations v (data_ ∷ i) = add_validations (add_validation v data_) i

abbrev pub xdata_of : Option (Str × Str) → Option Xdata
xdata_of none = none
xdata_of (some (name, value)) = some (record { name = name; value = value })

-- `_alpm_pkg_parse_xdata` of lib/libalpm/package.c
unfoldable pub parse_xdata : Str → Option Xdata
unfolding split_first
parse_xdata string = xdata_of (split_first b'=' string)

-- One round of the loop over the lines of `%XDATA%`: a line that cannot be parsed ends it.
abbrev pub read_more : Option Xdata → List Xdata × Bool → List Xdata × Bool
read_more none rest = ([], false)
read_more (some pd) (rest, done) = (pd ∷ rest, done)

-- What that loop appends, and whether each of the lines could be parsed.
unfoldable pub read_xdata : List Str → List Xdata × Bool
unfolding parse_xdata
read_xdata [] = ([], true)
read_xdata (line ∷ i) = read_more (parse_xdata line) (read_xdata i)

-- The keys of which one line is read.
abbrev pub is_single : Key → Bool
is_single k_name = true
is_single k_version = true
is_single k_base = true
is_single k_desc = true
is_single k_url = true
is_single k_arch = true
is_single k_builddate = true
is_single k_installdate = true
is_single k_packager = true
is_single k_reason = true
is_single k_size = true
is_single _ = false

-- What is done with that line; the name and the version are only compared.
unfoldable pub store_line : Key → Str → Info → Info
unfolding read_pkgreason strtoofft parsedate
store_line k_base line info = record info { base = some line }
store_line k_desc line info = record info { desc = some line }
store_line k_url line info = record info { url = some line }
store_line k_arch line info = record info { arch = some line }
store_line k_builddate line info = record info { builddate = parsedate line }
store_line k_installdate line info = record info { installdate = parsedate line }
store_line k_packager line info = record info { packager = some line }
store_line k_reason line info = record info { reason = read_pkgreason line }
store_line k_size line info = record info { isize = strtoofft line }
store_line _ line info = info

-- What is done with the lines of another key, and whether there is no error.
unfoldable pub store_lines : Key → List Str → Info → Info × Bool
unfolding dep_from_string read_xdata str_eq
store_lines k_groups lines info = (record info { groups = info.groups ++ lines }, true)
store_lines k_license lines info = (record info { licenses = info.licenses ++ lines }, true)
store_lines k_validation lines info =
    (record info { validation = add_validations info.validation lines }, true)
store_lines k_replaces lines info =
    (record info { replaces = info.replaces ++ map dep_from_string lines }, true)
store_lines k_depends lines info =
    (record info { depends = info.depends ++ map dep_from_string lines }, true)
store_lines k_optdepends lines info =
    (record info { optdepends = info.optdepends ++ map dep_from_string lines }, true)
store_lines k_makedepends lines info =
    (record info { makedepends = info.makedepends ++ map dep_from_string lines }, true)
store_lines k_checkdepends lines info =
    (record info { checkdepends = info.checkdepends ++ map dep_from_string lines }, true)
store_lines k_conflicts lines info =
    (record info { conflicts = info.conflicts ++ map dep_from_string lines }, true)
store_lines k_provides lines info =
    (record info { provides = info.provides ++ map dep_from_string lines }, true)
store_lines k_xdata lines info =
    let (xdata, done) = read_xdata lines in (record info { xdata = info.xdata ++ xdata }, done)
store_lines _ lines info = (info, true)

-- After a round the loop goes on, or an error ends it; `unfinished` is a loop that does not end.
pub data Round : Type 0 where
  go_on : File → Info → Round
  failed : Info → Round
  unfinished : Round

abbrev pub with_lines : Key → Info → Option (File × List Str) → Round
with_lines key info none = unfinished
with_lines key info (some (file, lines)) =
    let (info', done) = store_lines key lines info in
    if done then go_on file info' else failed info'

-- The part of a round behind the blank lines.
abbrev pub read_key : Key → File → Info → Round
read_key key file info =
    if is_single key
    then (let file' = read_next file in go_on file' (store_line key file'.line info))
    else with_lines key info (read_all file)

abbrev pub round_at : File → Info → Round
round_at file info =
    if is_nil file.line then go_on file info else read_key (key_in keys file.line) file info

-- One round of `while(!feof(fp))`. Where the end is met, the buffer still holds the line before.
unfoldable pub desc_round : File → Info → Round
unfolding fgets strip_newline read_next read_lines key_in store_line store_lines
desc_round file info = round_at (strip_line (fgets file).0) info

pub data Loaded : Type 0 where
  loaded : Info → Loaded
  load_failed : Info → Loaded
  load_unfinished : Loaded

abbrev pub after_round : (File → Info → Loaded) → Round → Loaded
after_round rest (go_on file info) = rest file info
after_round rest (failed info) = load_failed info
after_round rest unfinished = load_unfinished

unfoldable pub desc_loop : ℕ → File → Info → Loaded
unfolding desc_round
desc_loop zero file info = load_unfinished
desc_loop (suc fuel) file info =
    let rest = after_round (λ f i. desc_loop fuel f i) (desc_round file info) in
    if file.eof then loaded info else rest

-- Each round but the last takes a character.
unfoldable pub read_desc : Str → Info → Loaded
unfolding desc_loop
read_desc text info = desc_loop (suc (suc (length text))) (open_file text) info
