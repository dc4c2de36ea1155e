-- ===== src/Indexer/Merkle/Mirror.antt =====
-- indexer/src/merkle.rs against the tree of its leaves: `new` and `insert`.
use mathlib.Core.List.{append_assoc, append-nil}
use caligo.Prelude.{
  ℕ, zero, suc, ◌+◌, ◌-◌, ◌*◌, ◌/◌, ◌%◌, ◌^◌, ◌≤◌, ◌<◌, ◌≡◌, refl, ap, sym, ◌∙◌, some, List, [],
  ◌∷◌, ◌++◌, arith,
}
use caligo.Prelude.Lists.{
  length, get_elem?, set, replicate, unwrap_or, length-set, get_elem?-set_self, get_elem?-set_ne,
}
use caligo.Prelude.Bytes.{Bytes, zero_bytes}
use caligo.Bn254.{Bn254}
use caligo.Tree.{zero_at, node}
use caligo.Tree.Shape.{node-above, zero_at-pred}
use caligo.Tree.Rows.{tabulate, row, row-unwrap_or, row-leaves, row-nil, row-above}
use caligo.Indexer.Poseidon.{hash_pair, hash_single}
use caligo.Indexer.Merkle.{MerkleTree, fill_zeros, new, pair_up, rebuild_from, rebuild, insert}

get_elem?-replicate : {A : Type 0} (n i : ℕ) (a : A) → i < n → get_elem? (replicate n a) i ≡ some a
get_elem?-replicate zero i a h = absurd (omega arith)
get_elem?-replicate (suc n) zero a h = refl
get_elem?-replicate (suc n) (suc i) a h = get_elem?-replicate n i a (omega arith)

length-replicate : {A : Type 0} (n : ℕ) (a : A) → length (replicate n a) ≡ n
length-replicate zero a = refl
length-replicate (suc n) a = ap suc (length-replicate n a)

module _ ⦃bn : Bn254⦄ where
  unfoldable pub empty_leaf : Bytes
  empty_leaf = hash_single zero_bytes

  abbrev pub tree_row : List Bytes → ℕ → List Bytes
  tree_row = row hash_pair empty_leaf

  -- The tree in memory has these leaves, and the rows of nodes above them.
  pub record Mirrors (ls : List Bytes) (d : ℕ) (t : MerkleTree) : Type 0 where
    pub depth : t.depth ≡ d
    pub leaves : t.leaves ≡ ls
    pub layers_length : length t.layers ≡ suc d
    pub layers : (l : ℕ) → l ≤ d → get_elem? t.layers l ≡ some (tree_row ls l)
    pub zero_values :
        (l : ℕ) → l ≤ d → get_elem? t.zero_values l ≡ some (zero_at hash_pair empty_leaf l)

  parent_node :
      (ls : List Bytes) (l i : ℕ)
      → hash_pair
          (unwrap_or (get_elem? (tree_row ls l) (i * 2)) (zero_at hash_pair empty_leaf l))
          (unwrap_or (get_elem? (tree_row ls l) (i * 2 + 1)) (zero_at hash_pair empty_leaf l))
        ≡ node hash_pair empty_leaf ls (l + 1) i
  parent_node ls l i =
      let twice : i * 2 ≡ 2 * i = omega arith in
      rw
        (
          row-unwrap_or hash_pair empty_leaf ls l (i * 2),
          row-unwrap_or hash_pair empty_leaf ls l (i * 2 + 1),
          twice,
        )
        (sym (node-above hash_pair empty_leaf ls l i))

  pair_up-tabulate :
      (ls : List Bytes) (l rounds i : ℕ) (above : List Bytes)
      → pair_up rounds i (tree_row ls l) (some (zero_at hash_pair empty_leaf l)) above
        ≡ some (above ++ tabulate (node hash_pair empty_leaf ls (l + 1)) i rounds)
  unfolding pair_up tabulate
  pair_up-tabulate ls l zero i above = ap some (sym (append-nil above))
  pair_up-tabulate ls l (suc rounds) i above =
      ap
        (λ h.
          pair_up rounds (i + 1) (tree_row ls l) (some (zero_at hash_pair empty_leaf l))
            (above ++ (h ∷ [])))
        (parent_node ls l i)
      ∙ pair_up-tabulate ls l rounds (i + 1)
          (above ++ (node hash_pair empty_leaf ls (l + 1) i ∷ []))
      ∙ ap some (
          append_assoc above (node hash_pair empty_leaf ls (l + 1) i ∷ [])
            (tabulate (node hash_pair empty_leaf ls (l + 1)) (i + 1) rounds))

  -- The rows up to the level are those of `ls`.
  abbrev Built : List Bytes → ℕ → List (List Bytes) → Type 0
  Built ls level layers = (l : ℕ) → l ≤ level → get_elem? layers l ≡ some (tree_row ls l)

  rebuild_from-Built :
      (ls zeros : List Bytes) (depth rounds level : ℕ) (layers : List (List Bytes))
      → level + rounds ≡ depth
      → length layers ≡ suc depth
      → ((l : ℕ) → l ≤ depth → get_elem? zeros l ≡ some (zero_at hash_pair empty_leaf l))
      → Built ls level layers
      → (layers' : List (List Bytes)) × (rebuild_from rounds level zeros layers ≡ some layers')
        × (length layers' ≡ suc depth)
        × Built ls depth layers'
  unfolding rebuild_from
  rebuild_from-Built ls zeros depth zero level layers all long absent built =
      (layers, refl, long, λ l h. built l (omega arith))
  rebuild_from-Built ls zeros depth (suc rounds) level layers all long absent built =
      let next = set layers (level + 1) (tree_row ls (level + 1)) in
      let (layers', run, long', done) =
        rebuild_from-Built ls zeros depth rounds (level + 1) next (omega arith)
          (length-set layers (level + 1) (tree_row ls (level + 1)) ∙ long) absent
          (λ l h. ground (
            arith,
            built l,
            get_elem?-set_self layers (level + 1) (tree_row ls (level + 1)),
            get_elem?-set_ne layers (level + 1) l (tree_row ls (level + 1)),
          )) in
      (
        layers',
        ground (
          arith,
          built level (omega arith),
          absent level (omega arith),
          pair_up-tabulate ls level ((length (tree_row ls level) + 1) / 2) 0 [],
          row-above hash_pair empty_leaf ls level,
          run,
        ),
        long',
        done,
      )

module _ ⦃bn : Bn254⦄ where
  fill_zeros-zero_at :
      (depth rounds i : ℕ) (zeros : List Bytes)
      → i + rounds ≡ suc depth
      → 1 ≤ i
      → length zeros ≡ suc depth
      → ((l : ℕ) → l < i → get_elem? zeros l ≡ some (zero_at hash_pair empty_leaf l))
      → (filled : List Bytes) × (fill_zeros rounds i zeros ≡ some filled)
        × ((l : ℕ) → l ≤ depth → get_elem? filled l ≡ some (zero_at hash_pair empty_leaf l))
  unfolding fill_zeros
  fill_zeros-zero_at depth zero i zeros all low long done =
      (zeros, refl, λ l h. done l (omega arith))
  fill_zeros-zero_at depth (suc rounds) i zeros all low long done =
      let next = set zeros i (zero_at hash_pair empty_leaf i) in
      let (filled, run, done') =
        fill_zeros-zero_at depth rounds (i + 1) next (omega arith) (omega arith)
          (length-set zeros i (zero_at hash_pair empty_leaf i) ∙ long)
          (λ l h. ground (
            arith,
            done l,
            get_elem?-set_self zeros i (zero_at hash_pair empty_leaf i),
            get_elem?-set_ne zeros i l (zero_at hash_pair empty_leaf i),
          )) in
      (
        filled,
        ground (arith, done (i - 1) (omega arith), zero_at-pred hash_pair empty_leaf i low, run),
        done',
      )

  -- For a depth whose successor is a u32, `new` does not panic and gives a tree that mirrors the
  -- list with no leaves, with the empty subtree's hash at every level.
  pub new-Mirrors :
      (depth : ℕ)
      → suc depth < 2 ^ 32
      → (t : MerkleTree) × (new depth ≡ some t) × Mirrors [] depth t
  unfolding new empty_leaf zero_at
  new-Mirrors depth small =
      let zeros = set (replicate (suc depth) zero_bytes) 0 empty_leaf in
      let (filled, run, done) =
        fill_zeros-zero_at depth depth 1 zeros (omega arith) (omega arith)
          (length-set (replicate (suc depth) zero_bytes) 0 empty_leaf
            ∙ length-replicate (suc depth) zero_bytes)
          (λ l h. ground arith) in
      (
        record {
          depth = depth;
          leaves = [];
          layers = replicate (suc depth) [];
          zero_values = filled;
        },
        ground (arith, run, length-replicate (suc depth) zero_bytes),
        record {
          depth = refl;
          leaves = refl;
          layers_length = length-replicate (suc depth) [];
          layers = λ l h.
              rw (row-nil hash_pair empty_leaf l)
                (get_elem?-replicate (suc depth) l [] (omega arith));
          zero_values = done;
        },
      )

  -- On an indexer tree that mirrors a list of leaves, `insert` does not panic, returns the
  -- number of leaves as a u32, and leaves a tree that mirrors the list with the commitment
  -- appended, at every level.
  pub insert-Mirrors :
      {ls : List Bytes} {depth : ℕ} {t : MerkleTree} (commitment : Bytes)
      → Mirrors ls depth t
      → (t' : MerkleTree) × (insert commitment t ≡ some (t', length ls % 2 ^ 32))
        × Mirrors (ls ++ (commitment ∷ [])) depth t'
  unfolding insert rebuild
  insert-Mirrors {ls} {depth} {t} commitment m =
      let leaves = ls ++ (commitment ∷ []) in
      let (layers, run, long, done) =
        rebuild_from-Built leaves t.zero_values depth depth 0 (set t.layers 0 leaves) (omega arith)
          (length-set t.layers 0 leaves ∙ m.layers_length) m.zero_values
          (λ l h.
            let bottom : l ≡ 0 = omega arith in
            rw (bottom, row-leaves hash_pair empty_leaf leaves)
              (get_elem?-set_self t.layers 0 leaves (omega (arith, m.layers_length)))) in
      (
        record { depth = depth; leaves = leaves; layers = layers; zero_values = t.zero_values },
        ground (arith, m.leaves, m.depth, m.layers_length, run),
        record {
          depth = refl;
          leaves = refl;
          layers_length = long;
          layers = done;
          zero_values = m.zero_values;
        },
      )
