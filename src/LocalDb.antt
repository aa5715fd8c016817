-- ===== src/LocalDb.antt =====
-- The local database, lib/libalpm/be_local.c: the files of an installed package, as they are read and
-- written.
pub mod Lines
pub mod Info
pub mod Desc
pub mod Files
pub mod Write
pub mod Load
pub mod Ends
pub mod Total
pub mod Sections
pub mod Rounds
pub mod Fields
pub mod FieldLists
pub mod Writable
pub mod RoundTrip
pub mod FilesRoundTrip
pub mod Keep
pub mod Levels
pub mod Again
pub mod Stored
mod Tests
