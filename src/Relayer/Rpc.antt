-- ===== src/Relayer/Rpc.antt =====
-- relayer/src/rpc.rs: the submission of a withdrawal, which so far only asks the RPC node for its
-- health. A result `none` is a panic, of a slice of a string.
use caligo.Prelude.{ℕ, Bool, true, false, ◌&&◌, not, Option, none, some}
use caligo.Prelude.Tests.{ltb, leb, if◌then◌else◌}
use caligo.Prelude.Lists.{length, get_elem?, take}
use caligo.Prelude.Bytes.{Bytes}
use caligo.Prelude.Options.{◌>>=◌}

-- What the RPC node answers to `getHealth`: no connection, no JSON, an error, or health.
pub data RpcAnswer : Type 0 where
  unreachable garbled unhealthy healthy : RpcAnswer

pub data RpcError : Type 0 where
  connection_failed health_check_failed node_unhealthy not_wired : RpcError

pub record SubmitResult : Type 0 where
  pub success : Bool
  pub tx_hash : Option Bytes
  pub error : Option RpcError

abbrev pub failed : RpcError → SubmitResult
failed e = record { success = false; tx_hash = none; error = some e }

-- Whether a character ends before the byte: it is none of those that continue one.
abbrev pub is_boundary : Option ℕ → Bool
is_boundary none = true
is_boundary (some b) = not (leb 128 b && ltb b 192)

-- `&s[..n]`.
unfoldable pub slice_to : ℕ → Bytes → Option Bytes
slice_to n s = if leb n (length s) && is_boundary (get_elem? s n) then some (take n s) else none

-- The first 16 bytes of the root and of the nullifier hash are logged.
unfoldable pub submit_withdrawal : RpcAnswer → Bytes → Bytes → Option SubmitResult
submit_withdrawal unreachable root_hex nullifier_hash_hex = some (failed connection_failed)
submit_withdrawal garbled root_hex nullifier_hash_hex = some (failed health_check_failed)
submit_withdrawal unhealthy root_hex nullifier_hash_hex = some (failed node_unhealthy)
submit_withdrawal healthy root_hex nullifier_hash_hex = do
  shown_root ← slice_to 16 root_hex
  shown_nullifier_hash ← slice_to 16 nullifier_hash_hex
  some (failed not_wired)
