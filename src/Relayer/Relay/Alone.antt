-- ===== src/Relayer/Relay/Alone.antt =====
-- A request to relayer/src/relay.rs that no other interferes with, with its submission by
-- relayer/src/rpc.rs. What the slices of its strings rely on in the crate hex is `HexLaws`.
use caligo.Prelude.{
  ℕ, zero, suc, ◌*◌, ◌≤◌, ◌<◌, ◌≡◌, refl, true, false, ◌&&◌, none, some, List, [], ◌∷◌, arith, inl,
  inr, ◌⊎◌,
}
use caligo.Prelude.Tests.{◌==◌, Bool-cases, Option-cases}
use caligo.Prelude.Lists.{length, get_elem?, take, replicate}
use caligo.Prelude.Bytes.{Bytes, contains}
use caligo.Relayer.{Decoders}
use caligo.Relayer.Rpc.{
  RpcAnswer, unreachable, garbled, unhealthy, healthy, RpcError, connection_failed,
  health_check_failed, node_unhealthy, not_wired, failed, is_boundary, slice_to, submit_withdrawal,
}
use caligo.Relayer.Validate.{HexError, Checked, pass, refuse, trim_0x, validate_hex}
use caligo.Relayer.Relay.{
  RelayRequest, RelayerState, arrived, answered, internal_server_error, not_submitted, Server,
  insert, remove, validate_fields, advance, step, run,
}

-- Every byte is an ASCII character.
abbrev pub Ascii : Bytes → Type 0
Ascii [] = Unit
Ascii (c ∷ s) = (c < 128) × Ascii s

-- `hex::decode` reads two ASCII characters for each byte.
pub record HexLaws ⦃crates : Decoders⦄ : Type 0 where
  pub decode_length : (s bytes : Bytes) → crates.decode s ≡ some bytes → length s ≡ 2 * length bytes
  pub decode_ascii : (s bytes : Bytes) → crates.decode s ≡ some bytes → Ascii s

trim_0x-length : (s : Bytes) → length (trim_0x s) ≤ length s
unfolding trim_0x
trim_0x-length [] = omega arith
trim_0x-length (c ∷ []) = omega arith
trim_0x-length (c ∷ d ∷ rest) = ground (arith, trim_0x-length rest)

trim_0x-Ascii : (s : Bytes) → Ascii (trim_0x s) → Ascii s
unfolding trim_0x
trim_0x-Ascii [] h = tt
trim_0x-Ascii (c ∷ []) h = h
trim_0x-Ascii (c ∷ d ∷ rest) h = elim (Bool-cases ((c == 48) && (d == 120))) [
  | inl prefix ↦ (ground arith, (ground arith, trim_0x-Ascii rest (ground (arith, prefix, h))))
  | inr other ↦ ground (arith, other, h)
]

is_boundary-Ascii : (s : Bytes) (i : ℕ) → Ascii s → is_boundary (get_elem? s i) ≡ true
is_boundary-Ascii [] i h = refl
is_boundary-Ascii (c ∷ s) zero h = ground (arith, h.0)
is_boundary-Ascii (c ∷ s) (suc i) h = is_boundary-Ascii s i h.1

module _ ⦃crates : Decoders⦄ (laws : HexLaws) where
  slice_to-validated :
      (s bytes : Bytes) → validate_hex s 32 ≡ pass bytes → slice_to 16 s ≡ some (take 16 s)
  unfolding validate_hex slice_to
  slice_to-validated s bytes valid = elim (Option-cases (crates.decode (trim_0x s))) [
    | inl bad ↦ ground arith
    | inr (read, good) ↦ ground (
      arith,
      laws.decode_length (trim_0x s) read good,
      trim_0x-length s,
      is_boundary-Ascii s 16 (trim_0x-Ascii s (laws.decode_ascii (trim_0x s) read good)),
    )
  ]

module _ ⦃crates : Decoders⦄ where
  validate_hex-cases :
      (s : Bytes) (n : ℕ)
      → ((e : HexError) × (validate_hex s n ≡ refuse e))
        ⊎ ((bytes : Bytes) × (validate_hex s n ≡ pass bytes))
  validate_hex-cases s n = cases (validate_hex s n) refl
    where
      cases :
          (o : Checked HexError Bytes)
          → validate_hex s n ≡ o
          → ((e : HexError) × (validate_hex s n ≡ refuse e))
            ⊎ ((bytes : Bytes) × (validate_hex s n ≡ pass bytes))
      cases (refuse e) h = inl (e, h)
      cases (pass bytes) h = inr (bytes, h)

  -- The strings of a request whose fields are valid.
  validated :
      (q : RelayRequest)
      → validate_fields q ≡ none
      → (a : Bytes) × (b : Bytes) × (validate_hex q.root_hex 32 ≡ pass a)
        × (validate_hex q.nullifier_hash_hex 32 ≡ pass b)
  unfolding validate_fields
  validated q fine = elim (validate_hex-cases q.proof_hex 256) [
    | inl (e, bad) ↦ ground arith
    | inr (p, good) ↦ elim (validate_hex-cases q.root_hex 32) [
      | inl (e, bad) ↦ ground arith
      | inr (a, good') ↦ elim (validate_hex-cases q.nullifier_hash_hex 32) [
        | inl (e, bad) ↦ ground arith
        | inr (b, good'') ↦ (a, b, good', good'')
      ]
    ]
  ]

module _ ⦃crates : Decoders⦄ (laws : HexLaws) where
  -- The submission of a request whose fields are valid does not panic.
  submit_withdrawal-validated :
      (answer : RpcAnswer) (q : RelayRequest)
      → validate_fields q ≡ none
      → (e : RpcError) × (submit_withdrawal answer q.root_hex q.nullifier_hash_hex
          ≡ some (failed e))
  unfolding submit_withdrawal
  submit_withdrawal-validated unreachable q fine = (connection_failed, refl)
  submit_withdrawal-validated garbled q fine = (health_check_failed, refl)
  submit_withdrawal-validated unhealthy q fine = (node_unhealthy, refl)
  submit_withdrawal-validated healthy q fine =
      let (a, b, root, nullifier_hash) = validated q fine in
      (
        not_wired,
        rw (
          slice_to-validated laws q.root_hex a root,
          slice_to-validated laws q.nullifier_hash_hex b nullifier_hash,
        ),
      )

remove-absent : (x : Bytes) (xs : List Bytes) → contains xs x ≡ false → remove x xs ≡ xs
unfolding remove contains
remove-absent x [] h = refl
remove-absent x (y ∷ ys) h = ground (arith, remove-absent x ys)

remove-insert : (x : Bytes) (xs : List Bytes) → contains xs x ≡ false → remove x (insert x xs) ≡ xs
unfolding insert remove
remove-insert x xs h = ground (arith, remove-absent x xs h)

module _ ⦃crates : Decoders⦄ where
  -- A request that arrives alone.
  abbrev pub alone : RelayRequest → RelayerState → Server
  alone q s = record { state = s; tasks = record { request = q; phase = arrived } ∷ [] }

  run-failed :
      (q : RelayRequest) (s : RelayerState) (e : RpcError)
      → validate_fields q ≡ none
      → contains s.pending_nullifiers q.nullifier_hash_hex ≡ false
      → length s.pending_nullifiers < s.config.max_pending
      → run (replicate 5 (0, failed e)) (alone q s) ≡ record {
        state = s;
        tasks =
            record {
              request = q;
              phase = answered (record {
                status = internal_server_error;
                success = false;
                tx_hash = none;
                error = some (not_submitted (some e));
              });
            }
            ∷ [];
      }
  unfolding run step advance
  run-failed q s e fine new room =
      ground (arith, remove-insert q.nullifier_hash_hex s.pending_nullifiers new)

module _ ⦃crates : Decoders⦄ (laws : HexLaws) where
  -- If the hex decoder obeys `HexLaws`, then for every answer of the RPC node and every request
  -- whose fields are valid, whose nullifier hash is not pending and for which there is room, the
  -- submission does not panic and gives an error, and the task alone answers with status 500 and
  -- that error and leaves the pending set and the totals as they were.
  pub run-alone :
      (answer : RpcAnswer) (q : RelayRequest) (s : RelayerState)
      → validate_fields q ≡ none
      → contains s.pending_nullifiers q.nullifier_hash_hex ≡ false
      → length s.pending_nullifiers < s.config.max_pending
      → (e : RpcError) × (submit_withdrawal answer q.root_hex q.nullifier_hash_hex
          ≡ some (failed e))
        × (run (replicate 5 (0, failed e)) (alone q s) ≡ record {
          state = s;
          tasks =
              record {
                request = q;
                phase = answered (record {
                  status = internal_server_error;
                  success = false;
                  tx_hash = none;
                  error = some (not_submitted (some e));
                });
              }
              ∷ [];
        })
  run-alone answer q s fine new room =
      let (e, submitted) = submit_withdrawal-validated laws answer q fine in
      (e, submitted, run-failed q s e fine new room)
