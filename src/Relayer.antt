-- ===== src/Relayer.antt =====
-- relayer/src: the service that submits withdrawals for a fee. The crates hex, stellar-strkey and
-- ed25519-dalek are the parameters `Decoders` and `Keys`. A string is the list of its bytes.
pub mod Validate
pub mod Rpc
pub mod Relay
pub mod Config
pub mod Tests
use caligo.Prelude.{Bool, Option}
use caligo.Prelude.Bytes.{Bytes}

pub record Decoders : Type 0 where
  -- `hex::decode`.
  pub decode : Bytes → Option Bytes
  -- `PublicKey::from_string(…).is_ok()`.
  pub is_public_key : Bytes → Bool

pub record Keys : Type 0 where
  -- `PrivateKey::from_string(…).ok()`, the public key of a signing key, and `to_string` of one.
  pub private_key : Bytes → Option Bytes
  pub verifying_key : Bytes → Bytes
  pub public_key_to_string : Bytes → Bytes
