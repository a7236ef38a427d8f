-- ===== src/Zip.antt =====
-- The zip container of a TDF: lib/tdf3/src/utils/zip-writer.ts (Writer) and zip-reader.ts (Reader).
pub mod Dos
pub mod Writer
pub mod CodePage
pub mod Reader
pub mod ExtraFields
pub mod Directory
pub mod Headers
pub mod Records
pub mod RoundTrip
mod Tests
