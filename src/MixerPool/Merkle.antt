-- ===== src/MixerPool/Merkle.antt =====
-- contracts/mixer_pool/src/merkle.rs: the incremental Merkle tree in the contract's storage.
pub mod Refine
use caligo.Prelude.{ℕ, zero, suc, ◌+◌, ◌-◌, ◌/◌, ◌%◌}
use caligo.Prelude.Tests.{◌==◌, if◌then◌else◌}
use caligo.Prelude.Lists.{unwrap_or}
use caligo.Prelude.Bytes.{Bytes, zero_bytes}
use caligo.Prelude.Contract.{pure, add_u32, ◌>>=◌, ◌>>◌}
use caligo.Bn254.{Bn254}
use caligo.Soroban.{Soroban}
use caligo.MixerPool.Storage.{
  Act, get_tree_depth, get_next_leaf_index, set_next_leaf_index, get_merkle_node, set_merkle_node,
}
use caligo.MixerPool.Poseidon.{hash_pair_bytes, hash_single_bytes}

module _ ⦃bn : Bn254⦄ where
  unfoldable pub zero_hash : ℕ → Bytes
  zero_hash zero = hash_single_bytes zero_bytes
  zero_hash (suc level) = let child = zero_hash level in hash_pair_bytes child child

module _ ⦃bn : Bn254⦄ ⦃host : Soroban⦄ where
  -- The pair `(left, right)` of a round of the loop in `insert_leaf`.
  unfoldable pub children : ℕ → Bytes → ℕ → Act (Bytes × Bytes)
  children level current_hash current_index e =
      if current_index % 2 == 0
      then (do
        sibling ← add_u32 current_index 1
        right ← get_merkle_node level sibling
        pure (current_hash, unwrap_or right (zero_hash level)))
          e
      else (do
        left ← get_merkle_node level (current_index - 1)
        pure (unwrap_or left (zero_hash level), current_hash))
          e

  -- The loop `for level in 0..depth` of `insert_leaf`: the first argument counts the rounds left.
  unfoldable pub insert_path : ℕ → ℕ → Bytes → ℕ → Act Bytes
  unfolding children
  insert_path zero level current_hash current_index = pure current_hash
  insert_path (suc rounds) level current_hash current_index = do
    pair ← children level current_hash current_index
    let parent = hash_pair_bytes pair.0 pair.1
    set_merkle_node (level + 1) (current_index / 2) parent
    insert_path rounds (level + 1) parent (current_index / 2)

  unfoldable pub insert_leaf : Bytes → Act Bytes
  unfolding insert_path
  insert_leaf commitment = do
    depth ← get_tree_depth
    leaf_index ← get_next_leaf_index
    set_merkle_node 0 leaf_index commitment
    root ← insert_path depth 0 commitment leaf_index
    next ← add_u32 leaf_index 1
    set_next_leaf_index next
    pure root

  unfoldable pub get_current_root : Act Bytes
  unfolding zero_hash
  get_current_root = do
    depth ← get_tree_depth
    node ← get_merkle_node depth 0
    pure (unwrap_or node (zero_hash depth))
