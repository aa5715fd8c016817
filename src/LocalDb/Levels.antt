-- ===== src/LocalDb/Levels.antt =====
-- What the parts of `local_db_read` in lib/libalpm/be_local.c leave of the level.
use dulge.Base.{
  ◌≡◌, refl, sym, ap, ◌∙◌, inl, inr, Bool, true, false, not, ◌&&◌, ◌||◌, Option, none, some, List,
  Str, codes, if◌then◌else◌, Bool-cases, arith, if_true, if_false,
}
use dulge.LocalDb.Desc.{Loaded, loaded, load_failed, load_unfinished, read_desc}
use dulge.LocalDb.Files.{read_files}
use dulge.LocalDb.Info.{Level, Info}
use dulge.LocalDb.Keep.{Keeps, KeepsOption, read_desc-Keeps, read_files-Keeps}
use dulge.LocalDb.Load.{
  Disk, pkgpath, covers, Result, and_then, desc_done, files_done, desc_opened, files_opened,
  desc_part, files_part, scriptlet_part, local_db_read,
}

abbrev pub with_error : Level → Level
with_error level = record level { error = true }

abbrev pub with_desc : Bool → Level → Level
with_desc b level = record level { desc = b }

abbrev pub with_files : Bool → Level → Level
with_files b level = record level { files = b }

abbrev pub with_scriptlet : Bool → Level → Level
with_scriptlet b level = record level { scriptlet = b }

-- What a part that does `wanted` leaves of the level: the one it aims at, or the error.
abbrev pub Left : Level → Level → Bool → Result → Type 0
Left level aim wanted none = Unit
Left level aim wanted (some (i, true)) = i.infolevel ≡ aim
Left level aim wanted (some (i, false)) = (i.infolevel ≡ with_error level) × (wanted ≡ true)

module _ (level : Level) where
  desc_opened-Left :
      (info : Info) (o : Option Str)
      → info.infolevel ≡ level
      → Left level (with_desc true level) true (desc_opened info o)
  desc_opened-Left info none h = (ap with_error h, refl)
  desc_opened-Left info (some text) h =
      done (read_desc text info) (read_desc-Keeps level text info h)
    where
      done : (r : Loaded) → Keeps level r → Left level (with_desc true level) true (desc_done r)
      done (loaded i) k = ap (with_desc true) k
      done (load_failed i) k = (ap with_error k, refl)
      done load_unfinished k = tt

  files_opened-Left :
      (qsort : List Str → List Str) (info : Info) (o : Option Str)
      → info.infolevel ≡ level
      → Left level (with_files true level) true (files_opened qsort info o)
  files_opened-Left qsort info none h = (ap with_error h, refl)
  files_opened-Left qsort info (some text) h =
      done (read_files qsort text info) (read_files-Keeps level qsort text info h)
    where
      done :
          (r : Option Info)
          → KeepsOption level r
          → Left level (with_files true level) true (files_done r)
      done none k = tt
      done (some i) k = ap (with_files true) k

-- A part that is skipped where the bit `have` is set, or not asked for.
part-Left :
    (put : Bool → Level → Level) (asked have : Bool) (info : Info) (r : Result)
    → put have info.infolevel ≡ info.infolevel
    → Left info.infolevel (put true info.infolevel) true r
    → Left info.infolevel
        (put (have || asked) info.infolevel)
        (asked && not have)
        (if asked && not have then r else some (info, true))
part-Left put true true info r same l = sym same
part-Left put true false info r same l = l
part-Left put false true info r same l = sym same
part-Left put false false info r same l = sym same

pub settled : (have asked : Bool) → (asked && not (have || asked)) ≡ false
settled have asked = ground arith

pub covers_desc : (l r : Level) → (r.desc && not l.desc) ≡ true → covers (with_error l) r ≡ false
covers_desc l r h = ground arith

pub covers_files : (l r : Level) → (r.files && not l.files) ≡ true → covers (with_error l) r ≡ false
covers_files l r h = ground arith

pub covers_scriptlet :
    (l r : Level) → (r.scriptlet && not l.scriptlet) ≡ true → covers (with_error l) r ≡ false
covers_scriptlet l r h = ground arith

module _ (qsort : List Str → List Str) (dbpath : Str) (disk : Disk) (inforeq : Level) where
  pub desc_part-Left :
      (info : Info)
      → Left info.infolevel
          (with_desc (info.infolevel.desc || inforeq.desc) info.infolevel)
          (inforeq.desc && not info.infolevel.desc)
          (desc_part qsort dbpath disk inforeq info)
  unfolding desc_part
  desc_part-Left info = part-Left with_desc inforeq.desc info.infolevel.desc info _ refl (
      desc_opened-Left info.infolevel info (disk.contents (pkgpath dbpath info (codes "desc")))
        refl)

  pub files_part-Left :
      (info : Info)
      → Left info.infolevel
          (with_files (info.infolevel.files || inforeq.files) info.infolevel)
          (inforeq.files && not info.infolevel.files)
          (files_part qsort dbpath disk inforeq info)
  unfolding files_part
  files_part-Left info = part-Left with_files inforeq.files info.infolevel.files info _ refl (
      files_opened-Left info.infolevel qsort info
        (disk.contents (pkgpath dbpath info (codes "files"))) refl)

  pub scriptlet_part-Left :
      (info : Info)
      → Left info.infolevel
          (with_scriptlet (info.infolevel.scriptlet || inforeq.scriptlet) info.infolevel)
          (inforeq.scriptlet && not info.infolevel.scriptlet)
          (scriptlet_part qsort dbpath disk inforeq info)
  unfolding scriptlet_part
  scriptlet_part-Left info =
      part-Left with_scriptlet inforeq.scriptlet info.infolevel.scriptlet info _ refl refl

  -- The parts after the first one, and after the second.
  abbrev pub last : Info → Result
  last info = scriptlet_part qsort dbpath disk inforeq info

  abbrev pub next : Info → Result
  next info = and_then (files_part qsort dbpath disk inforeq info) last

  desc_part_skip :
      (info : Info)
      → (inforeq.desc && not info.infolevel.desc) ≡ false
      → desc_part qsort dbpath disk inforeq info ≡ some (info, true)
  unfolding desc_part
  desc_part_skip info h = if_false (inforeq.desc && not info.infolevel.desc) _ _ h

  files_part_skip :
      (info : Info)
      → (inforeq.files && not info.infolevel.files) ≡ false
      → files_part qsort dbpath disk inforeq info ≡ some (info, true)
  unfolding files_part
  files_part_skip info h = if_false (inforeq.files && not info.infolevel.files) _ _ h

  scriptlet_part_skip :
      (info : Info)
      → (inforeq.scriptlet && not info.infolevel.scriptlet) ≡ false
      → scriptlet_part qsort dbpath disk inforeq info ≡ some (info, true)
  unfolding scriptlet_part
  scriptlet_part_skip info h = if_false (inforeq.scriptlet && not info.infolevel.scriptlet) _ _ h

  -- All that is asked for has been read.
  pub read_nothing :
      (info : Info)
      → info.infolevel.error ≡ false
      → (inforeq.desc && not info.infolevel.desc) ≡ false
      → (inforeq.files && not info.infolevel.files) ≡ false
      → (inforeq.scriptlet && not info.infolevel.scriptlet) ≡ false
      → local_db_read qsort dbpath disk inforeq info ≡ some (info, true)
  unfolding local_db_read
  read_nothing info e d f s = elim (Bool-cases (covers info.infolevel inforeq)) [
    | inl c ↦ if_true (covers info.infolevel inforeq) _ _ c
    | inr c ↦
        if_false (covers info.infolevel inforeq) _ _ c
        ∙ (if_false info.infolevel.error _ _ e
            ∙ (ap (λ r. and_then r next) (desc_part_skip info d)
                ∙ (ap (λ r. and_then r last) (files_part_skip info f)
                    ∙ scriptlet_part_skip info s)))
  ]

  -- An error has been met.
  pub read_error :
      (info : Info)
      → covers info.infolevel inforeq ≡ false
      → info.infolevel.error ≡ true
      → local_db_read qsort dbpath disk inforeq info ≡ some (info, false)
  unfolding local_db_read
  read_error info c e =
      if_false (covers info.infolevel inforeq) _ _ c ∙ if_true info.infolevel.error _ _ e
