-- ===== src/Writer.antt =====
-- writeStream of lib/tdf3/src/tdf.ts: the model is in State and Stream, the proofs are in the others.
pub mod State
pub mod Stream
pub mod Cut
pub mod Emit
pub mod Refinement
pub mod Counted
pub mod Steps
pub mod Track
pub mod Bounds
pub mod ReadBack
pub mod Stored
pub mod Layout
pub mod RoundTrip
pub mod Root
pub mod Chains
pub mod Container
mod Tests
