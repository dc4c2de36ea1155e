-- ===== src/Indexer/State.antt =====
-- indexer/src/state.rs: the state that the listener and the API handlers share, in the build
-- without the feature `postgres`. A result `none` is a panic.
use mathlib.Core.List.{append_assoc, append-nil}
use caligo.Prelude.{
  ℕ, suc, ◌+◌, ◌%◌, ◌^◌, ◌<◌, ◌≡◌, refl, ap, sym, Option, some, List, [], ◌∷◌, ◌++◌, arith, inl,
  inr,
}
use caligo.Prelude.Tests.{Option-cases}
use caligo.Prelude.Lists.{length, length-snoc}
use caligo.Prelude.Int.{ℤ}
use caligo.Prelude.Bytes.{Bytes}
use caligo.Prelude.Options.{◌>>=◌}
use caligo.Bn254.{Bn254}
use caligo.Indexer.Merkle.{MerkleTree, new, insert, root, leaf_count}
use caligo.Indexer.Merkle.Mirror.{Mirrors, new-Mirrors, insert-Mirrors}
use caligo.Indexer.Merkle.Proofs.{tree_node, root_lem}

-- The crate hex: `hex::encode` and `hex::decode`, on the bytes of a string.
pub record Hex : Type 0 where
  pub encode : Bytes → Bytes
  pub decode : Bytes → Option Bytes

pub record RootEntry : Type 0 where
  pub root : Bytes
  pub deposit_index : ℕ

pub record PoolInfo : Type 0 where
  pub contract_id : Bytes
  pub denomination : ℤ
  pub deposit_count : ℕ
  pub latest_root : Bytes

pub record AppState : Type 0 where
  pub tree : MerkleTree
  pub roots : List RootEntry
  pub contract_id : Bytes
  pub denomination : ℤ
  pub last_ledger : ℕ

module _ ⦃bn : Bn254⦄ ⦃hex : Hex⦄ where
  open hex use {encode}

  unfoldable pub new_state : Bytes → ℤ → ℕ → Option AppState
  new_state contract_id denomination tree_depth = do
    tree ← new tree_depth
    initial_root ← root tree
    some (record {
      tree = tree;
      roots = record { root = encode initial_root; deposit_index = 0 } ∷ [];
      contract_id = contract_id;
      denomination = denomination;
      last_ledger = 0;
    })

  -- The new state and the index of the leaf; `index + 1` is on u32.
  unfoldable pub insert_commitment : Bytes → AppState → Option (AppState × ℕ)
  insert_commitment commitment s = do
    inserted ← insert commitment s.tree
    root_bytes ← root inserted.0
    let deposit_index = (inserted.1 + 1) % 2 ^ 32
    some (
      record s {
        tree = inserted.0;
        roots =
            s.roots ++ (record { root = encode root_bytes; deposit_index = deposit_index } ∷ []);
      },
      inserted.1,
    )

  abbrev pub update_last_ledger : ℕ → AppState → AppState
  update_last_ledger ledger s = record s { last_ledger = ledger }

  unfoldable pub pool_info : AppState → Option PoolInfo
  pool_info s = do
    root_bytes ← root s.tree
    some (record {
      contract_id = s.contract_id;
      denomination = s.denomination;
      deposit_count = leaf_count s.tree;
      latest_root = encode root_bytes;
    })

  -- The commitments of a sequence of deposit events, inserted in order.
  unfoldable pub insert_all : List Bytes → AppState → Option AppState
  insert_all [] s = some s
  insert_all (commitment ∷ rest) s = do
    inserted ← insert_commitment commitment s
    insert_all rest inserted.0

  -- One entry for each state the tree has had: the leaves so far, then those to come.
  unfoldable pub entries_from : ℕ → List Bytes → List Bytes → List RootEntry
  entries_from depth done [] = []
  entries_from depth done (commitment ∷ rest) =
      let now = done ++ (commitment ∷ []) in
      record { root = encode (tree_node now depth 0); deposit_index = length now }
      ∷ entries_from depth now rest

  -- The root of the empty tree.
  unfoldable pub first_entry : ℕ → RootEntry
  first_entry depth = record { root = encode (tree_node [] depth 0); deposit_index = 0 }

  -- The state has the tree of these leaves and every root that the tree has had.
  pub record Follows (ls : List Bytes) (depth : ℕ) (s : AppState) : Type 0 where
    pub tree : Mirrors ls depth s.tree
    pub roots : s.roots ≡ first_entry depth ∷ entries_from depth [] ls

  entries_from-snoc :
      (depth : ℕ) (done ls : List Bytes) (x : Bytes)
      → entries_from depth done (ls ++ (x ∷ []))
        ≡ entries_from depth done ls
          ++ (record {
            root = encode (tree_node (done ++ (ls ++ (x ∷ []))) depth 0);
            deposit_index = length (done ++ (ls ++ (x ∷ [])));
          }
              ∷ [])
  unfolding entries_from
  entries_from-snoc depth done [] x = refl
  entries_from-snoc depth done (l ∷ ls) x =
      rw (entries_from-snoc depth (done ++ (l ∷ [])) ls x, append_assoc) refl

  -- A new state has the empty tree and its root alone.
  pub new_state-Follows :
      (contract_id : Bytes) (denomination : ℤ) (depth : ℕ)
      → suc depth < 2 ^ 32
      → (s : AppState) × (new_state contract_id denomination depth ≡ some s) × Follows [] depth s
  unfolding new_state entries_from first_entry
  new_state-Follows contract_id denomination depth small =
      let (t, run, m) = new-Mirrors depth small in
      (
        record {
          tree = t;
          roots = first_entry depth ∷ [];
          contract_id = contract_id;
          denomination = denomination;
          last_ledger = 0;
        },
        rw (run, ◌>>=◌, root_lem m) refl,
        record { tree = m; roots = refl },
      )

  pub new_state-last_ledger :
      (contract_id : Bytes) (denomination : ℤ) (depth : ℕ) {s : AppState}
      → new_state contract_id denomination depth ≡ some s
      → s.last_ledger ≡ 0
  unfolding new_state
  new_state-last_ledger contract_id denomination depth made = elim (Option-cases (new depth)) [
    | inl bad ↦ ground arith
    | inr (t, e) ↦ elim (Option-cases (root t)) [
      | inl bad ↦ ground arith
      | inr (r, e') ↦ ground arith
    ]
  ]

  pub insert_commitment-Follows :
      {ls : List Bytes} {depth : ℕ} {s : AppState} (commitment : Bytes)
      → suc (length ls) < 2 ^ 32
      → Follows ls depth s
      → (s' : AppState) × (insert_commitment commitment s ≡ some (s', length ls))
        × Follows (ls ++ (commitment ∷ [])) depth s'
  unfolding insert_commitment
  insert_commitment-Follows {ls} {depth} {s} commitment small f =
      let now = ls ++ (commitment ∷ []) in
      let (t, run, m) = insert-Mirrors commitment f.tree in
      let entry : RootEntry = record {
        root = encode (tree_node now depth 0);
        deposit_index = length now;
      } in
      (
        record s { tree = t; roots = s.roots ++ (entry ∷ []) },
        ground (arith, run, root_lem m, length-snoc ls commitment),
        record {
          tree = m;
          roots =
              rw f.roots
                (ap (◌∷◌ (first_entry depth)) (sym (entries_from-snoc depth [] ls commitment)));
        },
      )

  -- If an indexer state has the tree of a list of leaves and every root that the tree has had,
  -- then inserting further commitments one after the other, within the range of u32, does not
  -- panic and leaves the tree of all leaves and every root that it has had with the number of
  -- leaves it had then.
  pub insert_all-Follows :
      {depth : ℕ} (rest : List Bytes) {ls : List Bytes} {s : AppState}
      → length ls + length rest < 2 ^ 32
      → Follows ls depth s
      → (s' : AppState) × (insert_all rest s ≡ some s') × Follows (ls ++ rest) depth s'
  unfolding insert_all
  insert_all-Follows {depth} [] {ls} {s} small f = (s, refl, rw (append-nil ls) f)
  insert_all-Follows {depth} (x ∷ rest) {ls} {s} small f =
      let (s₁, run, f₁) = insert_commitment-Follows x (omega arith) f in
      let (s₂, run₂, f₂) = insert_all-Follows rest (omega (arith, length-snoc ls x)) f₁ in
      (s₂, rw (run, ◌>>=◌) run₂, rw (← append_assoc ls (x ∷ []) rest) f₂)
