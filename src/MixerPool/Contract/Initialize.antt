-- ===== src/MixerPool/Contract/Initialize.antt =====
-- `initialize` of contracts/mixer_pool/src/lib.rs: what it refuses, and the pool it sets up.
use caligo.Prelude.{ℕ, ◌≡◌, refl, sym, ◌∙◌, true, false, ◌||◌, some, none, [], arith, ℕ_discrete}
use caligo.Prelude.Tests.{ltb, ◌==◌, if◌then◌else◌}
use caligo.Prelude.Int.{ℤ, pos, leb_ℤ}
use caligo.Prelude.Bytes.{Bytes, contains, update}
use caligo.Prelude.Contract.{ok, err}
use caligo.Bn254.{Bn254}
use caligo.Soroban.{Soroban}
use caligo.Tree.{entry}
use caligo.Tree.Shape.{node-zero_at, size-nil}
use caligo.MixerPool.Errors.{
  already_initialized, invalid_denomination, invalid_tree_depth, invalid_root_history_size,
}
use caligo.MixerPool.Storage.{Env}
use caligo.MixerPool.Poseidon.{hash_pair_bytes}
use caligo.MixerPool.Merkle.{zero_hash, get_current_root}
use caligo.MixerPool.Merkle.Refine.{tree_node, tree_entry, empty_leaf, zero_hash-zero_at}
use caligo.MixerPool.Contract.{initialize}
use caligo.MixerPool.Contract.History.{push-Window, push_root_history_lem}
use caligo.MixerPool.Spec.{Config, IsConfig, roots_from_prefix}
use caligo.MixerPool.Spec.Represents.{Represents}

module _ ⦃bn : Bn254⦄ where
  tree_node-nil : (depth : ℕ) → tree_node [] depth 0 ≡ zero_hash depth
  tree_node-nil depth =
      rw (zero_hash-zero_at depth)
        (node-zero_at hash_pair_bytes empty_leaf [] depth 0 (omega (arith, size-nil depth)))

  tree_entry-nil : (l j : ℕ) → tree_entry [] l j ≡ none
  unfolding entry
  tree_entry-nil l j = ground (arith, size-nil l)

module _ ⦃bn : Bn254⦄ ⦃host : Soroban⦄ where
  open host use {Address}

  -- The state of a deployed contract before its first call: nothing is stored.
  pub record IsFresh (e : Env) : Type 0 where
    pub initialized : e.initialized ≡ none
    pub nodes : (l j : ℕ) → e.merkle_node l j ≡ none
    pub ring : (i : ℕ) → e.root_history_entry i ≡ none
    pub commitments : (x : Bytes) → e.commitment_inserted x ≡ none
    pub nullifiers : (x : Bytes) → e.nullifier_spent x ≡ none

  module _ (admin token : Address) (denomination max_fee : ℤ) (tree_depth root_history_size : ℕ)
      (e : Env) where
    -- A second call changes nothing, whatever its arguments.
    pub initialize_twice :
        e.initialized ≡ some true
        → initialize admin token denomination max_fee tree_depth root_history_size e
          ≡ err already_initialized
    unfolding initialize
    initialize_twice h = ground arith

    abbrev pub config : Config
    config = record {
      denomination = denomination;
      token = token;
      max_fee = max_fee;
      tree_depth = tree_depth;
      root_history_size = root_history_size;
      contract_address = e.contract_address;
    }

    -- The checks in their order; past the last one the pool is set up.
    initialize_refuses :
        e.initialized ≡ none
        → (leb_ℤ denomination (pos 0) ≡ true
            → initialize admin token denomination max_fee tree_depth root_history_size e
              ≡ err invalid_denomination)
          × (leb_ℤ denomination (pos 0) ≡ false
              → (tree_depth == 0 || ltb 32 tree_depth) ≡ true
              → initialize admin token denomination max_fee tree_depth root_history_size e
                ≡ err invalid_tree_depth)
          × (leb_ℤ denomination (pos 0) ≡ false
              → (tree_depth == 0 || ltb 32 tree_depth) ≡ false
              → root_history_size ≡ 0
              → initialize admin token denomination max_fee tree_depth root_history_size e
                ≡ err invalid_root_history_size)
    unfolding initialize
    initialize_refuses h = (λ a. ground arith, λ a b. ground arith, λ a b c. ground arith)

    initialized_env : Env
    initialized_env = record e {
      storage = record (e.storage) {
        admin = some admin;
        token = some token;
        denomination = some denomination;
        max_fee = some max_fee;
        tree_depth = some tree_depth;
        root_history_size = some root_history_size;
        next_leaf_index = some 0;
        root_history_entry = update ℕ_discrete e.root_history_entry 0 (tree_node [] tree_depth 0);
        root_history_index = some (if ltb 1 root_history_size then 1 else 0);
        initialized = some true;
      };
    }

    initialize_runs :
        IsFresh e
        → IsConfig config
        → e.authorized admin ≡ true
        → initialize admin token denomination max_fee tree_depth root_history_size e
          ≡ ok tt initialized_env
    unfolding initialize initialized_env get_current_root
    initialize_runs fresh valid auth =
        let stored : Env = record e {
          storage = record (e.storage) {
            admin = some admin;
            token = some token;
            denomination = some denomination;
            max_fee = some max_fee;
            tree_depth = some tree_depth;
            root_history_size = some root_history_size;
            next_leaf_index = some 0;
            root_history_index = some 0;
          };
        } in
        ground (
          arith,
          fresh.nodes tree_depth 0,
          tree_node-nil tree_depth,
          push_root_history_lem (zero_hash tree_depth) root_history_size 0 stored refl refl
              (omega arith) valid.history_fits,
        )

    initialized-Represents :
        IsFresh e
        → IsConfig config
        → Represents config
            (record { leaves = []; spent = []; ledger = e.ledger; events = e.events })
            initialized_env
    unfolding initialized_env contains roots_from_prefix
    initialized-Represents fresh valid = record {
      initialized = refl;
      denomination = refl;
      token = refl;
      max_fee = refl;
      tree_depth = refl;
      root_history_size = refl;
      contract_address = refl;
      next_leaf_index = refl;
      room = omega arith;
      nodes = λ l j h. fresh.nodes l j ∙ sym (tree_entry-nil l j);
      commitments = λ x. ground (arith, fresh.commitments x);
      nullifiers = λ x. ground (arith, fresh.nullifiers x);
      ring_bound = ground arith;
      ring =
          push-Window [] (tree_node [] tree_depth 0) root_history_size 0 _ e.root_history_entry
            valid.history_pos refl (λ i k. fresh.ring i);
      ledger = refl;
      events = refl;
    }

    -- On a fresh contract, with parameters within the limits and signed by the admin,
    -- `initialize` succeeds and leaves a state that represents the empty pool with these
    -- parameters.
    pub initialize-Represents :
        IsFresh e
        → IsConfig config
        → e.authorized admin ≡ true
        → (e' : Env) × (initialize admin token denomination max_fee tree_depth root_history_size e
            ≡ ok tt e')
          × Represents config
              (record { leaves = []; spent = []; ledger = e.ledger; events = e.events })
              e'
    initialize-Represents fresh valid auth =
        (initialized_env, initialize_runs fresh valid auth, initialized-Represents fresh valid)
