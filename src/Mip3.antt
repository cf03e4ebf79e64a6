-- ===== src/Mip3.antt =====
-- The deploy builders of the MIP-3 module (src/mip3): oracle sources, the signed actions, the perp
-- and the spot builder, and the presets.
pub mod Oracle
pub mod Action
pub mod Perp
pub mod Spot
pub mod Templates
pub mod Counting
pub mod Canonical
pub mod Validity
pub mod Sequence
mod Tests
