-- ===== src/Indexer/Agree.antt =====
-- The indexer (indexer/src) beside the contract (contracts/mixer_pool/src), fed with the
-- commitments that the contract's deposits announce.
use caligo.Prelude.{ℕ, suc, ◌≡◌, refl, ap, ap₂, ◌∙◌, Option, some, List, [], ◌∷◌, arith}
use caligo.Prelude.Lists.{unwrap_or}
use caligo.Prelude.Bytes.{Bytes}
use caligo.Prelude.Contract.{ok}
use caligo.Prelude.Options.{◌>>=◌}
use caligo.Bn254.{Bn254}
use caligo.Soroban.{Soroban}
use caligo.Tree.{node}
use caligo.MixerPool.Storage.{Env}
use caligo.MixerPool.Merkle.{get_current_root}
use caligo.MixerPool.Merkle.Refine as Pool
use caligo.MixerPool.Contract.{get_root}
use caligo.MixerPool.Spec.{Config, IsConfig, capacity}
use caligo.MixerPool.Spec as Spec
use caligo.MixerPool.Spec.Represents.{Represents}
use caligo.MixerPool.Verifier.{Build}
use caligo.MixerPool.Runs.{Invocation, run, spec_run, run-Represents}
use caligo.MixerPool.Runs.Safety.{IsSound, deposits, number_from, spec_run-IsSound}
use caligo.Indexer.Poseidon.{hash_pair_agrees, hash_single_agrees}
use caligo.Indexer.Merkle.{root, leaf_count}
use caligo.Indexer.Merkle.Mirror as Mirror
use caligo.Indexer.Merkle.Proofs.{tree_node, root_lem}
use caligo.Indexer.State.{
  Hex, AppState, new_state, insert_all, Follows, new_state-Follows, insert_all-Follows,
}

module _ ⦃bn : Bn254⦄ where
  empty_leaf_agrees : Mirror.empty_leaf ≡ Pool.empty_leaf
  unfolding Mirror.empty_leaf Pool.empty_leaf
  empty_leaf_agrees = hash_single_agrees _

  pub tree_node_agrees : (ls : List Bytes) (l i : ℕ) → tree_node ls l i ≡ Pool.tree_node ls l i
  tree_node_agrees ls l i =
      ap₂ (λ h e. node h e ls l i) (λ k a b. hash_pair_agrees a b k) empty_leaf_agrees

module _ ⦃bn : Bn254⦄ ⦃host : Soroban⦄ where
  -- The contract reports the root of the tree of its leaves, and changes nothing.
  pub get_root-tree_node :
      {c : Config} {p : Spec.Pool} {e : Env}
      → Represents c p e
      → get_root e ≡ ok (Pool.tree_node p.leaves c.tree_depth 0) e
  unfolding get_root get_current_root
  get_root-tree_node {c} {p} {e} r = ground (
    arith,
    r.tree_depth,
    r.nodes c.tree_depth 0 (omega arith),
    Pool.read_node p.leaves c.tree_depth 0,
  )

unfoldable pub keys : List (Bytes × ℕ) → List Bytes
keys [] = []
keys ((x, _) ∷ rest) = x ∷ keys rest

pub keys-number_from : (k : ℕ) (xs : List Bytes) → keys (number_from k xs) ≡ xs
unfolding keys
keys-number_from k [] = refl
keys-number_from k (x ∷ xs) = ap (◌∷◌ x) (keys-number_from (suc k) xs)

module _ ⦃bn : Bn254⦄ ⦃host : Soroban⦄ ⦃hex : Hex⦄ where
  -- The indexer, started with the contract's parameters and fed with the commitments of the
  -- contract's deposit events in their order.
  abbrev pub followed : Config → Env → Bytes → Option AppState
  followed c e contract_id =
      new_state contract_id c.denomination c.tree_depth >>= insert_all (keys (deposits e.events))

module _ ⦃bn : Bn254⦄ ⦃host : Soroban⦄ ⦃build : Build⦄ ⦃hex : Hex⦄ {c : Config} (valid : IsConfig c)
    (is : List Invocation) {p : Spec.Pool} {e : Env} (r : Represents c p e) (s : IsSound p)
    (contract_id : Bytes) where
  pub followed-Follows :
      (a : AppState) × (followed c (run e is) contract_id ≡ some a)
      × Follows (spec_run c p is).leaves c.tree_depth a
  followed-Follows =
      let r' = run-Represents valid is r in
      let s' = spec_run-IsSound c is p s in
      let announced : keys (deposits (run e is).events) ≡ (spec_run c p is).leaves =
        rw r'.events (ap keys s'.deposits_numbered ∙ keys-number_from 0 (spec_run c p is).leaves) in
      let (a₁, run₁, f₁) =
        new_state-Follows contract_id c.denomination c.tree_depth (omega (arith, valid.depth_le)) in
      let (a₂, run₂, f₂) =
        insert_all-Follows (spec_run c p is).leaves {ls = []} (omega (arith, r'.room)) f₁ in
      (a₂, rw (run₁, announced) run₂, f₂)

  -- From a state of the contract that represents a sound pool with valid parameters, after any
  -- sequence of invocations, an indexer with the contract's depth that inserts the commitments
  -- of all deposit events in their order does not panic, and ends with the root that the
  -- contract's `get_root` reports and with as many leaves as the contract counts.
  pub run-followed :
      (a : AppState) × (b : Bytes) × (followed c (run e is) contract_id ≡ some a)
      × (get_root (run e is) ≡ ok b (run e is))
      × (root a.tree ≡ some b)
      × (unwrap_or (run e is).next_leaf_index 0 ≡ leaf_count a.tree)
  unfolding leaf_count
  run-followed =
      let r' = run-Represents valid is r in
      let (a, done, f) = followed-Follows in
      let ls = (spec_run c p is).leaves in
      let m = f.tree in
      (
        a,
        Pool.tree_node ls c.tree_depth 0,
        done,
        get_root-tree_node r',
        root_lem m ∙ ap some (tree_node_agrees ls c.tree_depth 0),
        ground (arith, m.leaves, r'.next_leaf_index, r'.room),
      )
