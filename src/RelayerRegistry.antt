-- ===== src/RelayerRegistry.antt =====
-- contracts/relayer_registry/src: the registry of relayers.
pub mod Storage
pub mod Contract
pub mod Spec
pub mod Runs
pub mod Tests
