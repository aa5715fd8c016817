-- ===== src/LocalDb/FieldLists.antt =====
-- The lists, the validation and the extended data, as `local_db_read` of lib/libalpm/be_local.c reads
-- what `_alpm_local_db_write` writes.
use dulge.Base.{
  ◌≡◌, refl, sym, ap, ◌∙◌, Bool, true, false, some, List, [], ◌∷◌, ◌++◌, map, Str, codes, subst,
}
use mathlib.Core.List.{append-nil}
use dulge.Deps.{dep_from_string, dep_compute_string}
use dulge.Deps.Text.{IsWellFormed, dep_from_string-compute_string, split_first_at}
use dulge.LocalDb.Desc.{
  Key, k_validation, k_xdata, key_in, is_single, store_lines, parse_xdata, add_validations,
  read_xdata, xdata_of, read_more,
}
use dulge.LocalDb.Info.{Info, Validation, Xdata}
use dulge.LocalDb.Lines.{is_nil}
use dulge.LocalDb.Rounds.{Reads, Reads-nil, Reads-list, Reads-write_list, IsHeader}
use dulge.LocalDb.Sections.{IsLine, AreLines}
use dulge.LocalDb.Write.{write_validation, write_deps, xdata_line, write_list, text_lines}
use dulge.Package.{Depend}
use dulge.Version.Parse.{Without}
use dulge.LocalDb.Fields.{no_newline-IsLine, key_in-IsHeader}

-- Dependencies whose text is one line.
abbrev pub AreDeps : List Depend → Type 0
AreDeps [] = Unit
AreDeps (d ∷ ds) =
    IsWellFormed d
    × IsLine (dep_compute_string d)
    × (is_nil (dep_compute_string d) ≡ false)
    × AreDeps ds

deps-AreLines : (ds : List Depend) → AreDeps ds → AreLines (map dep_compute_string ds)
deps-AreLines [] h = tt
deps-AreLines (d ∷ ds) (w, l, n, hs) = (l, n, deps-AreLines ds hs)

deps_again : (ds : List Depend) → AreDeps ds → map dep_from_string (map dep_compute_string ds) ≡ ds
deps_again [] h = refl
deps_again (d ∷ ds) (w, l, n, hs) =
    rw (dep_from_string-compute_string d w) (ap (λ e. d ∷ e) (deps_again ds hs))

pub Reads-deps :
    {key : Key} {s : Str} {i : Info} (set_field : Info → List Depend → Info) (ds : List Depend)
    → IsHeader key s
    → is_single key ≡ false
    → AreDeps ds
    → i ≡ set_field i []
    → ((lines : List Str)
        → store_lines key lines i ≡ (set_field i (map dep_from_string lines), true))
    → Reads (write_deps s ds) i (set_field i ds)
unfolding write_deps
Reads-deps {i = i} set_field ds h e a p q =
    Reads-write_list (map dep_compute_string ds) h e (deps-AreLines ds a)
      (q [] ∙ ap (λ j. (j, true)) (sym p)) (q _ ∙ ap (λ d. (set_field i d, true)) (deps_again ds a))

abbrev pub AreXdata : List Xdata → Type 0
AreXdata [] = Unit
AreXdata (pd ∷ xdata) = Without b'=' pd.name × IsLine (xdata_line pd) × AreXdata xdata

xdata-AreLines : (xdata : List Xdata) → AreXdata xdata → AreLines (map xdata_line xdata)
xdata-AreLines [] h = tt
xdata-AreLines (pd ∷ xdata) (w, l, hs) = (l, full pd.name, xdata-AreLines xdata hs)
  where
    full : (s : Str) → is_nil (s ++ b'=' ∷ pd.value) ≡ false
    full [] = refl
    full (c ∷ s) = refl

xdata_again :
    (xdata : List Xdata) → AreXdata xdata → read_xdata (map xdata_line xdata) ≡ (xdata, true)
unfolding read_xdata parse_xdata
xdata_again [] h = refl
xdata_again (pd ∷ xdata) (w, l, hs) =
    ap (λ o. read_more (xdata_of o) (read_xdata (map xdata_line xdata)))
      (split_first_at b'=' pd.name pd.value w)
    ∙ ap (read_more (some pd)) (xdata_again xdata hs)

pub Reads-xdata :
    {s : Str} {i : Info} (xdata : List Xdata)
    → IsHeader k_xdata s
    → AreXdata xdata
    → i.xdata ≡ []
    → Reads (write_list s (map xdata_line xdata)) i (record i { xdata = xdata })
unfolding store_lines
Reads-xdata {i = i} xdata h a e =
    Reads-write_list (map xdata_line xdata) h refl (xdata-AreLines xdata a)
      (ap (λ x. (record i { xdata = x }, true)) (append-nil _))
      (ap (λ r. (record i { xdata = i.xdata ++ r.0 }, r.1)) (xdata_again xdata a)
        ∙ ap (λ x. (record i { xdata = x ++ xdata }, true)) e)

IsHeader-validation : IsHeader k_validation (codes "%VALIDATION%")
unfolding key_in
IsHeader-validation = key_in-IsHeader k_validation (codes "%VALIDATION%") refl refl refl refl

abbrev validation_of : Bool → Bool → Bool → Validation
validation_of a b c = record { none = a; md5sum = false; sha256sum = b; signature = c }

none-IsLine : IsLine (codes "none")
none-IsLine = no_newline-IsLine (codes "none") refl refl

sha256-IsLine : IsLine (codes "sha256")
sha256-IsLine = no_newline-IsLine (codes "sha256") refl refl

pgp-IsLine : IsLine (codes "pgp")
pgp-IsLine = no_newline-IsLine (codes "pgp") refl refl

module _ {i i' : Info} where
  written :
      (lines : List Str)
      → AreLines lines
      → store_lines k_validation lines i ≡ (i', true)
      → Reads (codes "%VALIDATION%" ++ b'\n' ∷ text_lines lines) i i'
  written lines l q = Reads-list lines IsHeader-validation refl l q

Reads-validation_of :
    (a b c : Bool) (i : Info)
    → i.validation ≡ validation_of false false false
    → Reads
        (write_validation (validation_of a b c))
        i
        (record i { validation = validation_of a b c })
unfolding write_validation store_lines
Reads-validation_of false false false i h =
    subst (λ v. Reads [] i (record i { validation = v })) h (Reads-nil i)
Reads-validation_of false false true i h =
    written (codes "pgp" ∷ []) (pgp-IsLine, refl, tt)
      (ap (λ v. (record i { validation = add_validations v (codes "pgp" ∷ []) }, true)) h)
Reads-validation_of false true false i h =
    written (codes "sha256" ∷ []) (sha256-IsLine, refl, tt)
      (ap (λ v. (record i { validation = add_validations v (codes "sha256" ∷ []) }, true)) h)
Reads-validation_of false true true i h =
    written (codes "sha256" ∷ codes "pgp" ∷ []) (sha256-IsLine, refl, (pgp-IsLine, refl, tt))
      (ap
        (λ v.
          (record i { validation = add_validations v (codes "sha256" ∷ codes "pgp" ∷ []) }, true))
        h)
Reads-validation_of true false false i h =
    written (codes "none" ∷ []) (none-IsLine, refl, tt)
      (ap (λ v. (record i { validation = add_validations v (codes "none" ∷ []) }, true)) h)
Reads-validation_of true false true i h =
    written (codes "none" ∷ codes "pgp" ∷ []) (none-IsLine, refl, (pgp-IsLine, refl, tt))
      (ap
        (λ v. (record i { validation = add_validations v (codes "none" ∷ codes "pgp" ∷ []) }, true))
        h)
Reads-validation_of true true false i h =
    written (codes "none" ∷ codes "sha256" ∷ []) (none-IsLine, refl, (sha256-IsLine, refl, tt))
      (ap
        (λ v.
          (record i { validation = add_validations v (codes "none" ∷ codes "sha256" ∷ []) }, true))
        h)
Reads-validation_of true true true i h =
    written (codes "none" ∷ codes "sha256" ∷ codes "pgp" ∷ [])
      (none-IsLine, refl, (sha256-IsLine, refl, (pgp-IsLine, refl, tt)))
      (ap
        (λ v. (
          record i {
            validation = add_validations v (codes "none" ∷ codes "sha256" ∷ codes "pgp" ∷ []);
          },
          true,
        ))
        h)

pub Reads-validation :
    (v : Validation) (i : Info)
    → v.md5sum ≡ false
    → i.validation ≡ validation_of false false false
    → Reads (write_validation v) i (record i { validation = v })
Reads-validation v i m h =
    subst (λ w. Reads (write_validation w) i (record i { validation = w }))
      (ap (λ b. record v { md5sum = b }) (sym m))
      (Reads-validation_of v.none v.sha256sum v.signature i h)
