-- ===== src/MixerPool.antt =====
-- The mixer pool contract: contracts/mixer_pool/src, a module for each of its files.
pub mod Errors
pub mod Storage
pub mod Poseidon
pub mod Merkle
pub mod Verifier
pub mod Contract
pub mod Spec
pub mod Runs
pub mod Tests
