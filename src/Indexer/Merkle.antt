-- ===== src/Indexer/Merkle.antt =====
-- indexer/src/merkle.rs: the tree in memory. A result `none` is a panic, an index out of bounds.
pub mod Mirror
pub mod Proofs
use caligo.Prelude.{
  ℕ, zero, suc, ◌+◌, ◌-◌, ◌*◌, ◌/◌, ◌%◌, ◌^◌, Option, some, none, List, [], ◌∷◌, ◌++◌, ite,
}
use caligo.Prelude.Tests.{ltb, leb, ◌==◌, if◌then◌else◌}
use caligo.Prelude.Lists.{length, get_elem?, set, replicate, unwrap_or}
use caligo.Prelude.Bytes.{Bytes, bytes_discrete, zero_bytes}
use caligo.Prelude.Options.{◌>>=◌}
use caligo.Bn254.{Bn254}
use caligo.Indexer.Poseidon.{hash_pair, hash_single}

pub record MerkleProof : Type 0 where
  pub root : Bytes
  pub path_elements : List Bytes
  pub path_indices : List ℕ
  pub leaf_index : ℕ

pub record MerkleTree : Type 0 where
  pub depth : ℕ
  pub leaves : List Bytes
  pub layers : List (List Bytes)
  pub zero_values : List Bytes

-- `xs[i] = x`.
abbrev pub set_at : {A : Type 0} → List A → ℕ → A → Option (List A)
set_at xs i x = if ltb i (length xs) then some (set xs i x) else none

-- `iter().position(|l| l == commitment)`.
abbrev pub position : List Bytes → Bytes → Option ℕ
position [] commitment = none
position (l ∷ ls) commitment =
    let rest = position ls commitment in
    ite (bytes_discrete l commitment) (some 0) (rest >>= λ i. some (suc i))

module _ ⦃bn : Bn254⦄ where
  -- The loop `for i in 1..=depth` of `new`, with so many rounds left.
  unfoldable pub fill_zeros : ℕ → ℕ → List Bytes → Option (List Bytes)
  fill_zeros zero i zero_values = some zero_values
  fill_zeros (suc rounds) i zero_values = do
    below ← get_elem? zero_values (i - 1)
    filled ← set_at zero_values i (hash_pair below below)
    fill_zeros rounds (i + 1) filled

  -- `depth + 1` is on u32.
  unfoldable pub new : ℕ → Option MerkleTree
  new depth = do
    zeros ← set_at (replicate ((depth + 1) % 2 ^ 32) zero_bytes) 0 (hash_single zero_bytes)
    zero_values ← fill_zeros depth 1 zeros
    some (record {
      depth = depth;
      leaves = [];
      layers = replicate (suc depth) [];
      zero_values = zero_values;
    })

  -- The loop over i of `rebuild`, with so many rounds left; `above` is the layer it fills.
  unfoldable pub pair_up : ℕ → ℕ → List Bytes → Option Bytes → List Bytes → Option (List Bytes)
  pair_up zero i layer zero_value above = some above
  pair_up (suc rounds) i layer zero_value above = do
    absent ← zero_value
    let left = unwrap_or (get_elem? layer (i * 2)) absent
    let right = unwrap_or (get_elem? layer (i * 2 + 1)) absent
    pair_up rounds (i + 1) layer zero_value (above ++ (hash_pair left right ∷ []))

  -- The loop over the levels of `rebuild`, with so many rounds left.
  unfoldable pub rebuild_from : ℕ → ℕ → List Bytes → List (List Bytes) → Option (List (List Bytes))
  rebuild_from zero level zero_values layers = some layers
  rebuild_from (suc rounds) level zero_values layers = do
    layer ← get_elem? layers level
    let layer_size = (length layer + 1) / 2
    above ← pair_up layer_size 0 layer (get_elem? zero_values level) []
    rebuilt ← set_at layers (level + 1) above
    rebuild_from rounds (level + 1) zero_values rebuilt

  unfoldable pub rebuild : MerkleTree → Option MerkleTree
  rebuild t = do
    layers ← rebuild_from t.depth 0 t.zero_values t.layers
    some (record t { layers = layers })

  -- The new tree and the index of the leaf.
  unfoldable pub insert : Bytes → MerkleTree → Option (MerkleTree × ℕ)
  insert commitment t = do
    let index = length t.leaves % 2 ^ 32
    let leaves = t.leaves ++ (commitment ∷ [])
    layers ← set_at t.layers 0 leaves
    rebuilt ← rebuild (record t { leaves = leaves; layers = layers })
    some (rebuilt, index)

unfoldable pub root : MerkleTree → Option Bytes
root t = do
  layer ← get_elem? t.layers t.depth
  elim layer [ [] ↦ get_elem? t.zero_values t.depth | node ∷ _ ↦ some node ]

-- The loop of `proof`, with so many rounds left.
unfoldable pub path_from :
    ℕ → ℕ → ℕ → MerkleTree → List Bytes → List ℕ → Option (List Bytes × List ℕ)
path_from zero level current_index t path_elements path_indices = some (path_elements, path_indices)
path_from (suc rounds) level current_index t path_elements path_indices = do
  let sibling_index =
      if current_index % 2 == 0 then (current_index + 1) % 2 ^ 32 else current_index - 1
  layer ← get_elem? t.layers level
  absent ← get_elem? t.zero_values level
  let sibling = unwrap_or (get_elem? layer sibling_index) absent
  path_from rounds (level + 1) (current_index / 2) t (path_elements ++ (sibling ∷ []))
      (path_indices ++ (current_index % 2 ∷ []))

unfoldable pub leaf_count : MerkleTree → ℕ
leaf_count t = length t.leaves % 2 ^ 32

-- The inner result is the method's own.
unfoldable pub proof : ℕ → MerkleTree → Option (Option MerkleProof)
proof index t = if leb (length t.leaves % 2 ^ 32) index then some none else (do
  path ← path_from t.depth 0 index t [] []
  root ← root t
  some (
      some (record {
        root = root;
        path_elements = path.0;
        path_indices = path.1;
        leaf_index = index;
      })))

abbrev pub leaf : ℕ → MerkleTree → Option Bytes
leaf index t = get_elem? t.leaves index

unfoldable pub find_commitment : Bytes → MerkleTree → Option ℕ
find_commitment commitment t = do i ← position t.leaves commitment; some (i % 2 ^ 32)
