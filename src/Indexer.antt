-- ===== src/Indexer.antt =====
-- indexer/src: the service that rebuilds the tree of the contract from its events.
pub mod Poseidon
pub mod Merkle
pub mod State
pub mod Agree
pub mod Paths
pub mod Roots
pub mod Api
pub mod Listener
pub mod Restore
pub mod Database
pub mod Persist
pub mod Config
pub mod Tests
