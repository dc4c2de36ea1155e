-- ===== src/Tree.antt =====
-- The binary Merkle tree that both implementations stand for: every node as a function of the
-- leaves, with absent leaves hashed as the empty leaf. It describes the trees of
-- contracts/mixer_pool/src/merkle.rs and indexer/src/merkle.rs, and is no code of either.
pub mod Shape
pub mod Append
pub mod Inclusion
pub mod Rows
use caligo.Prelude.{ℕ, zero, suc, ◌+◌, ◌*◌, ◌/◌, Option, some, none, List}
use caligo.Prelude.Tests.{ltb, if◌then◌else◌}
use caligo.Prelude.Lists.{length, get_elem?, unwrap_or}

-- How many nodes of a level have a leaf below them, if there are n leaves.
abbrev pub size : ℕ → ℕ → ℕ
size zero n = n
size (suc l) n = (size l n + 1) / 2

-- The index, at a level, of the node above leaf n.
abbrev pub ancestor : ℕ → ℕ → ℕ
ancestor zero n = n
ancestor (suc l) n = ancestor l n / 2

module _ {ℓ} {H : Type ℓ} (hash : H → H → H) (empty : H) where
  -- The root of a subtree with no leaves.
  unfoldable pub zero_at : ℕ → H
  zero_at zero = empty
  zero_at (suc l) = hash (zero_at l) (zero_at l)

  -- The node of a level at an index.
  unfoldable pub node : List H → ℕ → ℕ → H
  node ls zero i = unwrap_or (get_elem? ls i) empty
  node ls (suc l) i = hash (node ls l (2 * i)) (node ls l (2 * i + 1))

  -- What a table of the nodes that have a leaf below them holds.
  unfoldable pub entry : List H → ℕ → ℕ → Option H
  entry ls l i = if ltb i (size l (length ls)) then some (node ls l i) else none
