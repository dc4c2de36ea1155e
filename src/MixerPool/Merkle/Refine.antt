-- ===== src/MixerPool/Merkle/Refine.antt =====
-- contracts/mixer_pool/src/merkle.rs against the tree of its leaves.
use caligo.Prelude.{
  ℕ, zero, suc, ◌+◌, ◌-◌, ◌*◌, ◌/◌, ◌^◌, ◌≤◌, ◌<◌, ◌≡◌, refl, ap, List, [], ite, ℕ_discrete, ◌∷◌,
  ◌++◌, arith, Option, some,
}
use caligo.Prelude.Tests.{leb, if◌then◌else◌}
use caligo.Prelude.Lists.{length, unwrap_or}
use caligo.Prelude.Bytes.{Bytes, zero_bytes, update}
use caligo.Prelude.Contract.{ok, ◌>>=◌}
use caligo.Bn254.{Bn254}
use caligo.Soroban.{Soroban}
use caligo.Tree.{ancestor, zero_at, node, entry}
use caligo.Tree.Shape.{entry-unwrap_or, ancestor-root, ancestor-above, node-above}
use caligo.Tree.Append.{node-snoc_self, entry-snoc_ne, entry-snoc_self}
use caligo.MixerPool.Storage.{Env}
use caligo.MixerPool.Poseidon.{hash_pair_bytes, hash_single_bytes}
use caligo.MixerPool.Merkle.{zero_hash, children, insert_path, insert_leaf}

module _ ⦃bn : Bn254⦄ where
  -- The tree of the contract's hash.
  unfoldable pub empty_leaf : Bytes
  empty_leaf = hash_single_bytes zero_bytes

  abbrev pub tree_node : List Bytes → ℕ → ℕ → Bytes
  tree_node = node hash_pair_bytes empty_leaf

  abbrev pub tree_entry : List Bytes → ℕ → ℕ → Option Bytes
  tree_entry = entry hash_pair_bytes empty_leaf

  pub zero_hash-zero_at : (l : ℕ) → zero_hash l ≡ zero_at hash_pair_bytes empty_leaf l
  unfolding zero_hash zero_at empty_leaf
  zero_hash-zero_at zero = refl
  zero_hash-zero_at (suc l) = ap (λ h. hash_pair_bytes h h) (zero_hash-zero_at l)

  pub read_node :
      (ls : List Bytes) (l i : ℕ) → unwrap_or (tree_entry ls l i) (zero_hash l) ≡ tree_node ls l i
  read_node ls l i = rw (zero_hash-zero_at l) (entry-unwrap_or hash_pair_bytes empty_leaf ls l i)

abbrev pub Table : Type 0
Table = ℕ → ℕ → Option Bytes

module _ ⦃bn : Bn254⦄ ⦃host : Soroban⦄ where
  abbrev pub with_nodes : Env → Table → Env
  with_nodes e t = record e { storage = record (e.storage) { merkle_node = t } }

  children_lem :
      (ls : List Bytes) (level i : ℕ) (e : Env)
      → i < 2 ^ 32
      → ((j : ℕ) → e.merkle_node level j ≡ tree_entry ls level j)
      → children level (tree_node ls level i) i e
        ≡ ok (tree_node ls level (2 * (i / 2)), tree_node ls level (2 * (i / 2) + 1)) e
  unfolding children
  children_lem ls level i e small read =
      ground
        (arith, read (i + 1), read (i - 1), read_node ls level (i + 1), read_node ls level (i - 1))

  -- After the loop has done the levels up to `level`: these hold the nodes of the new leaves, and
  -- those above still hold the nodes of the old ones.
  abbrev pub Progress : List Bytes → Bytes → ℕ → ℕ → Table → Type 0
  Progress ls c depth level t =
      (l j : ℕ)
      → l ≤ depth
      → t l j ≡ (if leb l level then tree_entry (ls ++ (c ∷ [])) l j else tree_entry ls l j)

  -- One round of the loop writes the node above.
  write_node : Table → ℕ → ℕ → Bytes → Table
  write_node t level index hash l i =
      ite (ℕ_discrete level l) (update ℕ_discrete (t l) index hash i) (t l i)

  write_node-Progress :
      (ls : List Bytes) (c : Bytes) (depth level i : ℕ) (t : Table)
      → i ≡ ancestor (level + 1) (length ls)
      → Progress ls c depth level t
      → Progress ls c depth
          (level + 1)
          (write_node t (level + 1) i (tree_node (ls ++ (c ∷ [])) (level + 1) i))
  unfolding write_node
  write_node-Progress ls c depth level i t at inv l j h = ground (
    arith,
    inv l j h,
    entry-snoc_self hash_pair_bytes empty_leaf ls c (level + 1),
    entry-snoc_ne hash_pair_bytes empty_leaf ls c (level + 1) j,
  )

  insert_path-Progress :
      (ls : List Bytes) (c : Bytes) (depth rounds level i : ℕ) (e : Env)
      → level + rounds ≡ depth
      → i ≡ ancestor level (length ls)
      → i < 2 ^ 32
      → Progress ls c depth level e.merkle_node
      → (t : Table) × (insert_path rounds level (tree_node (ls ++ (c ∷ [])) level i) i e
          ≡ ok (tree_node (ls ++ (c ∷ [])) depth (ancestor depth (length ls))) (with_nodes e t))
        × Progress ls c depth depth t
  unfolding insert_path write_node
  insert_path-Progress ls c depth zero level i e all at small inv =
      let done : level ≡ depth = omega arith in
      (e.merkle_node, rw (at, done), λ l j h. ground (arith, inv l j h))
  insert_path-Progress ls c depth (suc rounds) level i e all at small inv =
      let above : Env = with_nodes e (
        write_node e.merkle_node (level + 1) (i / 2)
          (tree_node (ls ++ (c ∷ [])) (level + 1) (i / 2))) in
      let (t, run, done) =
        insert_path-Progress ls c depth rounds (level + 1) (i / 2) above (omega arith)
          (omega (arith, ancestor-above level (length ls))) (omega arith)
          (write_node-Progress ls c depth level (i / 2) e.merkle_node
            (omega (arith, ancestor-above level (length ls))) inv) in
      (
        t,
        rw
            (
              children_lem (ls ++ (c ∷ [])) level i e small
                  (λ j. ground (arith, inv level j (omega arith))),
              ◌>>=◌,
              ← node-above hash_pair_bytes empty_leaf (ls ++ (c ∷ [])) level (i / 2),
            )
            run,
        done,
      )

  -- The nodes in storage are those of the tree of `ls`.
  abbrev pub Nodes : List Bytes → ℕ → Table → Type 0
  Nodes ls depth t = (l j : ℕ) → l ≤ depth → t l j ≡ tree_entry ls l j

  leaf-Progress :
      (ls : List Bytes) (c : Bytes) (depth : ℕ) (t : Table)
      → Nodes ls depth t
      → Progress ls c depth 0 (write_node t 0 (length ls) c)
  unfolding write_node
  leaf-Progress ls c depth t inv l j h = ground (
    arith,
    inv l j h,
    node-snoc_self hash_pair_bytes empty_leaf ls c,
    entry-snoc_self hash_pair_bytes empty_leaf ls c 0,
    entry-snoc_ne hash_pair_bytes empty_leaf ls c 0 j,
  )

  -- If the nodes in storage are those of the tree of a list of leaves below the capacity of its
  -- depth and of u32 and the next index is its length, then `insert_leaf` succeeds, returns the
  -- root of the tree with the leaf appended, advances the index and leaves the nodes of that
  -- tree at every level.
  pub insert_leaf-Nodes :
      (ls : List Bytes) (c : Bytes) (depth : ℕ) (e : Env)
      → e.tree_depth ≡ some depth
      → e.next_leaf_index ≡ some (length ls)
      → length ls < 2 ^ depth
      → suc (length ls) < 2 ^ 32
      → Nodes ls depth e.merkle_node
      → (t : Table) × (insert_leaf c e
          ≡ ok (tree_node (ls ++ (c ∷ [])) depth 0) (record e {
            storage = record (e.storage) {
              merkle_node = t;
              next_leaf_index = some (suc (length ls));
            };
          }))
        × Nodes (ls ++ (c ∷ [])) depth t
  unfolding insert_leaf write_node
  insert_leaf-Nodes ls c depth e hd hn room small inv =
      let written : Env = with_nodes e (write_node e.merkle_node 0 (length ls) c) in
      let (t, run, done) =
        insert_path-Progress ls c depth depth 0 (length ls) written (omega arith) refl (omega arith)
          (leaf-Progress ls c depth e.merkle_node inv) in
      (
        t,
        ground (
          arith,
          run,
          node-snoc_self hash_pair_bytes empty_leaf ls c,
          ancestor-root depth (length ls) room,
        ),
        λ l j h. ground (arith, done l j h),
      )
