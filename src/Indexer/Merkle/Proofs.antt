-- ===== src/Indexer/Merkle/Proofs.antt =====
-- indexer/src/merkle.rs: what `root`, `proof` and `find_commitment` give on a tree that mirrors a
-- list of leaves.
use mathlib.Core.List.{append_assoc, append-nil}
use caligo.Prelude.{
  ℕ, zero, suc, ◌+◌, ◌-◌, ◌/◌, ◌%◌, ◌^◌, ◌≤◌, ◌<◌, ◌≡◌, refl, ap, ap₂, sym, ◌∙◌, true, false, some,
  none, List, [], ◌∷◌, ◌++◌, arith,
}
use caligo.Prelude.Tests.{◌==◌, if◌then◌else◌}
use caligo.Prelude.Lists.{length, get_elem?, unwrap_or, get_elem?-within}
use caligo.Prelude.Bytes.{Bytes, contains, bytes_discrete}
use caligo.Prelude.Options.{◌>>=◌}
use caligo.Bn254.{Bn254}
use caligo.Tree.{zero_at, node}
use caligo.Tree.Shape.{ancestor-root}
use caligo.Tree.Rows.{row-unwrap_or}
use caligo.Tree.Inclusion.{
  sibling, climb, siblings_of, directions_of, climb-siblings_of, length-siblings_of,
  length-directions_of,
}
use caligo.Indexer.Poseidon.{hash_pair}
use caligo.Indexer.Merkle.{
  MerkleTree, MerkleProof, root, path_from, proof, position, find_commitment,
}
use caligo.Indexer.Merkle.Mirror.{empty_leaf, tree_row, Mirrors}

module _ ⦃bn : Bn254⦄ where
  abbrev pub tree_node : List Bytes → ℕ → ℕ → Bytes
  tree_node = node hash_pair empty_leaf

  first_of_row :
      (layer : List Bytes) (absent : Bytes)
      → elim layer [ [] ↦ some absent | first ∷ _ ↦ some first ]
        ≡ some (unwrap_or (get_elem? layer 0) absent)
  first_of_row [] absent = refl
  first_of_row (x ∷ layer) absent = refl

module _ ⦃bn : Bn254⦄ {ls : List Bytes} {depth : ℕ} {t : MerkleTree} (m : Mirrors ls depth t) where
  -- The root is that of the tree of the leaves.
  pub root_lem : root t ≡ some (tree_node ls depth 0)
  unfolding root
  root_lem = ground (
    arith,
    m.depth,
    m.layers depth (omega arith),
    m.zero_values depth (omega arith),
    first_of_row (tree_row ls depth) (zero_at hash_pair empty_leaf depth),
    row-unwrap_or hash_pair empty_leaf ls depth 0,
  )

  path_from_lem :
      (rounds level i : ℕ) (elements : List Bytes) (indices : List ℕ)
      → level + rounds ≡ depth
      → i < 2 ^ 32
      → path_from rounds level i t elements indices
        ≡ some (
          elements ++ siblings_of hash_pair empty_leaf ls rounds level i,
          indices ++ directions_of rounds i,
        )
  unfolding path_from
  path_from_lem zero level i elements indices all small =
      ap₂ (λ a b. some (a, b)) (sym (append-nil elements)) (sym (append-nil indices))
  path_from_lem (suc rounds) level i elements indices all small =
      let beside : (if i % 2 == 0 then (i + 1) % 2 ^ 32 else i - 1) ≡ sibling i = ground arith in
      let s = tree_node ls level (sibling i) in
      rw
        (
          m.layers level (omega arith),
          ◌>>=◌,
          m.zero_values level (omega arith),
          beside,
          row-unwrap_or hash_pair empty_leaf ls level (sibling i),
        )
        (path_from_lem rounds (level + 1) (i / 2) (elements ++ (s ∷ [])) (indices ++ ((i % 2) ∷ []))
            (omega arith) (omega arith)
          ∙ ap₂ (λ a b. some (a, b))
              (append_assoc elements (s ∷ [])
                (siblings_of hash_pair empty_leaf ls rounds (level + 1) (i / 2)))
              (append_assoc indices ((i % 2) ∷ []) (directions_of rounds (i / 2))))

  -- On an indexer tree that mirrors a list of leaves within its capacity and u32, the proof of
  -- the index of a leaf exists, it carries the tree's root and the index, it has as many
  -- siblings and directions as the tree is deep, and these lead from the leaf to that root.
  pub proof-climb :
      (index : ℕ) (leaf : Bytes)
      → get_elem? ls index ≡ some leaf
      → length ls ≤ 2 ^ depth
      → length ls < 2 ^ 32
      → (p : MerkleProof) × (proof index t ≡ some (some p))
        × (root t ≡ some p.root)
        × (climb hash_pair leaf p.path_elements p.path_indices ≡ p.root)
        × (length p.path_elements ≡ depth)
        × (length p.path_indices ≡ depth)
        × (p.leaf_index ≡ index)
  unfolding proof node
  proof-climb index leaf at room small =
      let below = get_elem?-within ls index leaf at in
      let here : leaf ≡ tree_node ls 0 index = ground (arith, at) in
      (
        record {
          root = tree_node ls depth 0;
          path_elements = siblings_of hash_pair empty_leaf ls depth 0 index;
          path_indices = directions_of depth index;
          leaf_index = index;
        },
        ground (
          arith,
          m.leaves,
          m.depth,
          root_lem,
          path_from_lem depth 0 index [] [] (omega arith) (omega arith),
        ),
        root_lem,
        ap
              (λ h.
                climb hash_pair h (siblings_of hash_pair empty_leaf ls depth 0 index)
                  (directions_of depth index))
              here
            ∙ climb-siblings_of hash_pair empty_leaf ls depth 0 index
            ∙ ap₂ (tree_node ls) (omega arith) (ancestor-root depth index (omega arith)),
        length-siblings_of hash_pair empty_leaf ls depth 0 index,
        length-directions_of depth index,
        refl,
      )

  -- There is no proof for an index past the leaves.
  pub proof-beyond :
      (index : ℕ) → length ls ≤ index → length ls < 2 ^ 32 → proof index t ≡ some none
  unfolding proof
  proof-beyond index past small = ground (arith, m.leaves)

position_lem :
    (ls : List Bytes) (c : Bytes)
    → contains ls c ≡ true
    → (i : ℕ) × (position ls c ≡ some i) × (get_elem? ls i ≡ some c)
unfolding contains
position_lem [] c h = cc
position_lem (l ∷ ls) c h = elim (bytes_discrete l c) [
  | yes e ↦ (0, ground arith, ap some e)
  | no ne ↦
      let (i, found, at) = position_lem ls c (ground arith) in (suc i, ground (arith, found), at)
]

position_absent : (ls : List Bytes) (c : Bytes) → contains ls c ≡ false → position ls c ≡ none
unfolding contains
position_absent [] c h = refl
position_absent (l ∷ ls) c h = ground (arith, position_absent ls c)

module _ ⦃bn : Bn254⦄ {ls : List Bytes} {depth : ℕ} {t : MerkleTree} (m : Mirrors ls depth t) where
  -- On an indexer tree that mirrors a list of leaves within its capacity and u32, an absent
  -- commitment is not found; one that is there is found, the proof of the index found exists, it
  -- carries the tree's root, and its siblings and directions lead from the commitment to that
  -- root.
  pub find_commitment-proof :
      (commitment : Bytes)
      → length ls ≤ 2 ^ depth
      → length ls < 2 ^ 32
      → (contains ls commitment ≡ false → find_commitment commitment t ≡ none)
        × (contains ls commitment ≡ true
            → (index : ℕ) × (p : MerkleProof) × (find_commitment commitment t ≡ some index)
              × (proof index t ≡ some (some p))
              × (root t ≡ some p.root)
              × (climb hash_pair commitment p.path_elements p.path_indices ≡ p.root))
  unfolding find_commitment
  find_commitment-proof commitment room small = (
    λ absent. ground (arith, m.leaves, position_absent ls commitment absent),
    λ present.
        let (index, found, at) = position_lem ls commitment present in
        let (p, run, top, leads, _, _, _) = proof-climb m index commitment at room small in
        let below = get_elem?-within ls index commitment at in
        (index, p, ground (arith, m.leaves, found), run, top, leads),
  )
