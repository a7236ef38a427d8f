-- ===== src/Encodings.antt =====
-- The text encodings (lib/src/encodings). A JavaScript string is the list of its UTF-16 code units.
pub mod Hex
pub mod Base64
mod Tests
