-- ===== src/LocalDb/RoundTrip.antt =====
-- The file `desc` written and read, `_alpm_local_db_write` and `local_db_read` of
-- lib/libalpm/be_local.c.
use dulge.Base.{suc, length, ◌≡◌, refl, sym, ap, ◌∙◌, true, false, [], subst, arith}
use mathlib.Core.List.{append-nil}
use dulge.LocalDb.Desc.{store_line, store_lines, desc_round, loaded, read_desc}
use dulge.LocalDb.Info.{Info, new_pkg}
use dulge.LocalDb.Rounds.{
  Steps, stop, step, Steps-trans, Steps-loop, Reads, Reads-append, Reads-line, Reads-write_list,
}
use dulge.LocalDb.Sections.{behind}
use dulge.LocalDb.FieldLists.{Reads-deps, Reads-xdata, Reads-validation}
use dulge.LocalDb.Fields.{Reads-text, Reads-int, Reads-reason}
use dulge.LocalDb.Total.{read_desc_ends}
use dulge.LocalDb.Write.{write_desc}
use dulge.Numbers.{ℤ, pos, negsuc, strtoofft, parsedate, print_int}
use dulge.Numbers.Decimal.{InRange, strtoofft-decimal, parsedate-print_int}
use dulge.LocalDb.Writable.{
  IsSize, IsWritable, IsHeader-name, IsHeader-version, IsHeader-base, IsHeader-desc, IsHeader-url,
  IsHeader-arch, IsHeader-builddate, IsHeader-installdate, IsHeader-packager, IsHeader-size,
  IsHeader-groups, IsHeader-license, IsHeader-replaces, IsHeader-depends, IsHeader-optdepends,
  IsHeader-conflicts, IsHeader-provides, IsHeader-xdata,
}

size_InRange : (z : ℤ) → IsSize z → InRange z
size_InRange (pos n) h = h
size_InRange (negsuc n) h = absurd h

size_again : (z : ℤ) → IsSize z → strtoofft (print_int z) ≡ z
unfolding print_int
size_again (pos n) h = strtoofft-decimal n ∙ ground (arith, h)
size_again (negsuc n) h = absurd h

-- The package that the sections leave.
abbrev pub described : Info → Info → Info
described info i = record i {
  base = info.base;
  desc = info.desc;
  url = info.url;
  arch = info.arch;
  packager = info.packager;
  builddate = info.builddate;
  installdate = info.installdate;
  isize = info.isize;
  reason = info.reason;
  validation = info.validation;
  groups = info.groups;
  licenses = info.licenses;
  replaces = info.replaces;
  depends = info.depends;
  optdepends = info.optdepends;
  conflicts = info.conflicts;
  provides = info.provides;
  xdata = info.xdata;
}

sections :
    (info : Info)
    → IsWritable info
    → Reads
        (write_desc info)
        (new_pkg info.name info.version)
        (described info (new_pkg info.name info.version))
unfolding write_desc store_line store_lines
sections info w =
    Reads-append (Reads-line info.name (new_pkg info.name info.version) IsHeader-name refl w.name) (
      Reads-append
        (Reads-line info.version (new_pkg info.name info.version) IsHeader-version refl w.version)
        (Reads-append
          (Reads-text (λ i v. record i { base = v }) info.base IsHeader-base refl refl
            (λ line. refl) w.base)
          (Reads-append
            (Reads-text (λ i v. record i { desc = v }) info.desc IsHeader-desc refl refl
              (λ line. refl) w.desc)
            (Reads-append
              (Reads-text (λ i v. record i { url = v }) info.url IsHeader-url refl refl
                (λ line. refl) w.url)
              (Reads-append
                (Reads-text (λ i v. record i { arch = v }) info.arch IsHeader-arch refl refl
                  (λ line. refl) w.arch)
                (Reads-append
                  (Reads-int (λ i z. record i { builddate = z }) parsedate info.builddate
                    IsHeader-builddate refl w.builddate refl (λ line. refl)
                    ((parsedate-print_int info.builddate w.builddate)))
                  (Reads-append
                    (Reads-int (λ i z. record i { installdate = z }) parsedate info.installdate
                      IsHeader-installdate refl w.installdate refl (λ line. refl)
                      ((parsedate-print_int info.installdate w.installdate)))
                    (Reads-append
                      (Reads-text (λ i v. record i { packager = v }) info.packager IsHeader-packager
                        refl refl (λ line. refl) w.packager)
                      (Reads-append
                        (Reads-int (λ i z. record i { isize = z }) strtoofft info.isize
                          IsHeader-size refl (size_InRange info.isize w.isize) refl (λ line. refl)
                          ((size_again info.isize w.isize)))
                        (Reads-append (Reads-reason info.reason _ refl) (
                          Reads-append
                            (Reads-write_list info.groups IsHeader-groups refl w.groups refl refl)
                            (Reads-append
                              (Reads-write_list info.licenses IsHeader-license refl w.licenses refl
                                refl)
                              (Reads-append (Reads-validation info.validation _ w.md5sum refl) (
                                Reads-append
                                  (Reads-deps (λ i ds. record i { replaces = ds }) info.replaces
                                    IsHeader-replaces refl w.replaces refl (λ lines. refl))
                                  (Reads-append
                                    (Reads-deps (λ i ds. record i { depends = ds }) info.depends
                                      IsHeader-depends refl w.depends refl (λ lines. refl))
                                    (Reads-append
                                      (Reads-deps (λ i ds. record i { optdepends = ds })
                                        info.optdepends IsHeader-optdepends refl w.optdepends refl
                                        (λ lines. refl))
                                      (Reads-append
                                        (Reads-deps (λ i ds. record i { conflicts = ds })
                                          info.conflicts IsHeader-conflicts refl w.conflicts refl
                                          (λ lines. refl))
                                        (Reads-append
                                          (Reads-deps (λ i ds. record i { provides = ds })
                                            info.provides IsHeader-provides refl w.provides refl
                                            (λ lines. refl))
                                          (Reads-xdata info.xdata IsHeader-xdata w.xdata
                                            refl)))))))))))))))))))

-- The last round meets the end.
last_round : (i : Info) → Steps (behind [] []) i (record { rest = []; eof = true; line = [] }) i
unfolding desc_round
last_round i = step refl refl stop

-- The package without what the file `desc` does not hold.
abbrev pub without_files : Info → Info
without_files info = record info {
  files = [];
  backup = [];
  scriptlet = false;
  infolevel = (new_pkg info.name info.version).infolevel;
}

described_all :
    (info : Info)
    → IsWritable info
    → described info (new_pkg info.name info.version) ≡ without_files info
described_all info w =
    ap (λ m. record (without_files info) { makedepends = m; checkdepends = [] }) (sym w.makedepends)
    ∙ ap (λ c. record (without_files info) { checkdepends = c }) (sym w.checkdepends)

-- A package written into the file `desc`, and read of it by one that has only been found in the
-- database under its name and version: every field but the
-- files, the backup entries and the scriptlet is as it was. None of the lines has
-- a newline or more than 1022 characters, and the entries of the lists are not empty; the dates
-- have 64 bits, the size is from 0 to 2 ^ 63 - 1; the dependencies are well-formed, no name in the
-- extended data has an equals sign; there is no MD5 sum among
-- the validations, and there are no dependencies of making and checking it.
pub read_desc-write_desc :
    (info : Info)
    → IsWritable info
    → read_desc (write_desc info) (new_pkg info.name info.version) ≡ loaded (without_files info)
unfolding read_desc
read_desc-write_desc info w =
    let i = new_pkg info.name info.version in
    let j = described info i in
    let rounds = Steps-trans ((sections info w).steps []) (last_round j) in
    (Steps-loop (suc (suc (length (write_desc info))))
      (subst (λ u. Steps (behind u []) i (record { rest = []; eof = true; line = [] }) j)
        (append-nil (write_desc info)) rounds)
      refl (read_desc_ends (write_desc info) i))
    ∙ ap loaded (described_all info w)
