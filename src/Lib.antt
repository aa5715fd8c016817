-- ===== src/Lib.antt =====
-- Verification of dulge, a package manager: the logic of its library, lib/libalpm.
--
-- The library keeps packages in lists and hash tables, compares their versions, decides whether the
-- dependencies of a set of packages are satisfied and whether packages conflict, finds what has to be
-- upgraded, pulled or removed with a target and in which order, keeps the installed packages in text
-- files, and takes a transaction through its phases under a lock. Everything else (archives, downloads,
-- signatures, the file system, the programs) stands around these decisions.
--
--   Version    lib/libalpm/version.c: parseEVR is parse_evr, rpmvercmp and alpm_pkg_vercmp keep
--              their names. A loop over two strings runs on fuel, one round more than the first
--              string has characters.
--   AlpmList   lib/libalpm/alpm_list.c: a list is the sequence of its data pointers, an operation
--              keeps its name without the prefix alpm_list. The comparison that a caller passes is
--              an argument, and its laws are hypotheses of the theorems.
--   Package    lib/libalpm/package.h and lib/libalpm/alpm.h: the types; the hash of a name
--              (_alpm_hash_sdbm in lib/libalpm/util.c, 64 bits), _alpm_pkg_cmp, alpm_pkg_find.
--   PkgHash    lib/libalpm/pkghash.c: the hash table of packages with linear probing, and the list
--              of the same nodes that it keeps. A probe runs on fuel, one round for each bucket:
--              `none` is a loop that would not end. A node is its address and its package.
--   Deps       lib/libalpm/deps.c: depcmp and its parts, the text form of a dependency,
--              alpm_checkdeps and _alpm_recursedeps. It calls Version, AlpmList and Package.
--   Resolve    lib/libalpm/deps.c: resolvedep and _alpm_resolvedeps, which pull the dependencies of
--              a target from the databases, and alpm_pkg_should_ignore (lib/libalpm/package.c). The
--              depth of the recursion is bounded by fuel, one level more than there are packages to
--              pull. The match of a pattern and the answers to questions are parameters.
--   Graph      lib/libalpm/graph.c and, of lib/libalpm/deps.c, dep_graph_init and _alpm_sortbydeps:
--              the order of a transaction, by a walk through the graph of dependencies that keeps its
--              way back in the vertices. The fuel of the walk is the weight of the graph, two for each
--              vertex and one for each edge; that of the edges is the number of packages.
--   Conflict   lib/libalpm/conflict.c: conflicts between packages. It calls Deps and AlpmList.
--   Removal    lib/libalpm/remove.c: the target list of a removal, its preparation with the loops of
--              the cascade and of --unneeded. Both loops run on fuel, one round more than the packages
--              that are installed or are targets. It calls Deps and AlpmList.
--   Trans      lib/libalpm/trans.c: the calls that begin, prepare, commit, interrupt and release a
--              transaction, as functions on the handle with its lock (lib/libalpm/handle.c), and
--              alpm_db_update (lib/libalpm/be_sync.c) as far as it takes that lock. The handle says
--              whether it holds the lock (lockfd) and, apart from it, whether the lock file exists: it
--              stays on disk where it cannot be removed, and keeps other handles out. What these calls
--              hand on is in two records of parameters, of which only what it does to the flags, the
--              state and the lock is assumed; how a failing call sets the error is a value that it
--              returns.
--   EntryName  lib/libalpm/util.c: _alpm_splitname, the name of a database entry, with the reads in
--              front of the string as a result of their own.
--   Upgrade    lib/libalpm/sync.c: alpm_sync_sysupgrade, which chooses the targets of an upgrade of the
--              system, with check_literal and check_replacers, and alpm_sync_get_new_version. A package
--              of trans->add is a record of the package, its database and what it removes; the question
--              whether a package is replaced is a parameter. It calls Version, Deps and Resolve.
--   Numbers    lib/libalpm/util.c: _alpm_strtoofft and _alpm_parsedate, on integers of 64 bits, and the
--              digits that printf prints.
--   LocalDb    lib/libalpm/be_local.c: local_db_read and _alpm_local_db_write, the files desc and files
--              of an installed package, on a disk that is a function from paths to texts; safe_fgets
--              (src/common/util-common.c), lib/libalpm/backup.c and _alpm_filelist_sort
--              (lib/libalpm/filelist.c) with qsort as a parameter. A file is the text that is left of
--              it with the mark of its end and the buffer; each round of a loop takes a character, so
--              that the fuel is the length of the text, and the loop of desc has two rounds more. It
--              calls Numbers and Deps.
--   RawStr     lib/libalpm/rawstr.c: comparison without regard to case.
--   FileList   lib/libalpm/filelist.c: sorted file lists, without the sort, which stands in LocalDb,
--              and without the lookup. It uses RawStr for characters.
--   Base       strings as lists of the codes of their characters without the terminating null,
--              strcmp as their lexicographic order (of unsigned characters), and lists over the
--              native numbers.
--
-- A theorem about a component stands in a child module that is named for what it shows, and runs at
-- concrete inputs stand in a module Tests. Allocation never fails, a copy of an object is the object,
-- and messages to the log are left out. Not modelled are the links of the list nodes, the release of
-- memory, the conflicts of files, the preparation and the commit of an upgrade (lib/libalpm/sync.c),
-- the hooks, and everything that reads or writes archives, directories or the network.
pub mod Base
pub mod Version
pub mod AlpmList
pub mod Package
pub mod PkgHash
pub mod Deps
pub mod Conflict
pub mod EntryName
pub mod FileList
pub mod Graph
pub mod LocalDb
pub mod Numbers
pub mod RawStr
pub mod Removal
pub mod Resolve
pub mod Trans
pub mod Upgrade
