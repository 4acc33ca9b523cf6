-- ===== src/Adoption.antt =====
-- hub/coherence/adoption.py: the baseline ratchet and the scoped exceptions of the adoption ladder.
pub mod Sets
pub mod Shelter
pub mod Mirror
pub mod Evaluate
pub mod Blocking
pub mod Stages
pub mod Early
