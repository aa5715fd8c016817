-- ===== src/LocalDb/Lines.antt =====
-- Reading a file by lines: `safe_fgets` of common/util-common.c on a buffer of 1024 characters, and
-- `_alpm_strip_newline` of lib/libalpm/util.c. The file has no null characters, and reading fails
-- only at its end.
use dulge.Base.{
  ℕ, zero, suc, Bool, true, false, ◌&&◌, Option, none, some, List, [], ◌∷◌, Str, length, ◌==◌,
  if◌then◌else◌, ◌>>=◌,
}

-- What is left of the file, whether its end has been met, and the buffer `line`.
pub record File : Type 0 where
  pub rest : Str
  pub eof : Bool
  pub line : Str

abbrev pub is_nil : Str → Bool
is_nil [] = true
is_nil (c ∷ s) = false

-- At most `n` characters up to a newline: those, what is left, and whether the end was met.
unfoldable pub take_line : ℕ → Str → Str × Str × Bool
take_line zero s = ([], s, false)
take_line (suc n) [] = ([], [], true)
take_line (suc n) (c ∷ s) =
    let (taken, rest, eof) = take_line n s in
    if c == b'\n' then (c ∷ [], s, false) else (c ∷ taken, rest, eof)

-- With nothing to read the buffer stays as it is.
abbrev pub fgets_of : File → Str × Str × Bool → File × Bool
fgets_of file ([], rest, eof) = (record file { eof = true }, false)
fgets_of file (c ∷ taken, rest, eof) = (record { rest = rest; eof = eof; line = c ∷ taken }, true)

-- `safe_fgets(line, sizeof(line), fp)`, and whether it is not null.
unfoldable pub fgets : File → File × Bool
unfolding take_line
fgets file = fgets_of file (take_line 1023 file.rest)

-- `_alpm_strip_newline`
unfoldable pub strip_newline : Str → Str
strip_newline [] = []
strip_newline (c ∷ str) =
    let rest = strip_newline str in if c == b'\n' && is_nil rest then [] else c ∷ rest

abbrev pub strip_line : File → File
strip_line file = record file { line = strip_newline file.line }

-- `READ_NEXT`
unfoldable pub read_next : File → File
unfolding fgets strip_newline
read_next file = strip_line (fgets file).0

-- One round of the loop below, for what `safe_fgets` gave.
abbrev pub more_lines : (File → Option (File × List Str)) → File × Bool → Option (File × List Str)
more_lines rest (file, false) = some (file, [])
more_lines rest (file, true) =
    let line = strip_newline file.line in
    if is_nil line
    then some (strip_line file, [])
    else rest (strip_line file) >>= (λ (f, lines). some (f, line ∷ lines))

-- The loop of `READ_AND_STORE_ALL`: the lines up to an empty one or the end.
unfoldable pub read_lines : ℕ → File → Option (File × List Str)
unfolding fgets strip_newline
read_lines zero file = none
read_lines (suc fuel) file = more_lines (λ f. read_lines fuel f) (fgets file)

-- Each round takes a character.
abbrev pub read_all : File → Option (File × List Str)
read_all file = read_lines (suc (length file.rest)) file

-- The file before anything is read.
abbrev pub open_file : Str → File
open_file text = record { rest = text; eof = false; line = [] }
