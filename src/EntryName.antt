-- ===== src/EntryName.antt =====
-- The name of a database entry, `_alpm_splitname` of lib/libalpm/util.c. Its two loops go back from
-- the end and stop at a hyphen; `outside` is a loop that leaves the string at its beginning, where
-- it reads what stands in memory before it. The string and the pointers are not null.
pub mod Bounds
mod Tests
use dulge.Base.{ℕ, ◌≡◌, Bool, true, false, not, Option, none, some, List, [], ◌∷◌, ◌++◌, Str, ◌==◌}
use dulge.Package.{hash_sdbm}
use dulge.Version.{take_while, split_last}

-- The name with its hash and the version, the return value -1, or a read outside of the string.
pub data Split : Type 0 where
  split : Str → Str → ℕ → Split
  invalid outside : Split

-- What stands before the first slash.
abbrev pub entry_text : Str → Str
entry_text target = take_while (λ c. not (c == b'/')) target

-- Behind the second loop.
abbrev pub at_version : Str → Str × Option Str → Split
at_version release (name, none) = outside
at_version release ([], some version) = invalid
at_version release (c ∷ name, some version) =
    split (c ∷ name) (version ++ b'-' ∷ release) (hash_sdbm (c ∷ name))

-- Behind the first loop.
abbrev pub at_release : Str × Option Str → Split
at_release (before, none) = outside
at_release (before, some release) = at_version release (split_last b'-' before)

-- `_alpm_splitname`
unfoldable pub splitname : Str → Split
unfolding split_last
splitname target = at_release (split_last b'-' (entry_text target))
