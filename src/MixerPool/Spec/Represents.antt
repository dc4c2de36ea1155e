-- ===== src/MixerPool/Spec/Represents.antt =====
-- When the storage of the contract (contracts/mixer_pool/src/storage.rs) holds a pool of the
-- specification, and when a call of the contract does what the specification says.
use mathlib.Core.List.{append_assoc}
use caligo.Prelude.{ℕ, ◌≤◌, ◌<◌, ◌≡◌, refl, true, false, some, List, [], ◌∷◌, ◌++◌}
use caligo.Prelude.Lists.{length, unwrap_or}
use caligo.Prelude.Bytes.{Bytes, contains}
use caligo.Prelude.Contract.{Outcome, ok, err, trap}
use caligo.Bn254.{Bn254}
use caligo.Soroban.{Soroban}
use caligo.MixerPool.Errors.{MixerError}
use caligo.MixerPool.Storage.{Env}
use caligo.MixerPool.Merkle.Refine.{tree_node, Nodes}
use caligo.MixerPool.Contract.History.{Window}
use caligo.MixerPool.Spec.{Config, Pool, Promise, capacity, roots_from_prefix, past_roots}

module _ ⦃bn : Bn254⦄ where
  roots_from_prefix-snoc :
      (depth : ℕ) (done xs older : List Bytes) (c : Bytes)
      → roots_from_prefix depth done (xs ++ (c ∷ [])) older
        ≡ tree_node (done ++ (xs ++ (c ∷ []))) depth 0 ∷ roots_from_prefix depth done xs older
  unfolding roots_from_prefix
  roots_from_prefix-snoc depth done [] older c = refl
  roots_from_prefix-snoc depth done (x ∷ xs) older c = rw (
    roots_from_prefix-snoc depth (done ++ (x ∷ [])) xs (tree_node done depth 0 ∷ older) c,
    append_assoc,
  )

  -- A deposit puts its root before the others.
  pub past_roots-snoc :
      (depth : ℕ) (xs : List Bytes) (c : Bytes)
      → past_roots depth (xs ++ (c ∷ [])) ≡ tree_node (xs ++ (c ∷ [])) depth 0 ∷ past_roots depth xs
  past_roots-snoc depth xs c = roots_from_prefix-snoc depth [] xs [] c

module _ ⦃host : Soroban⦄ where
  abbrev pub Result : Type 0
  Result = Outcome Env MixerError (Unit {0})

module _ ⦃bn : Bn254⦄ ⦃host : Soroban⦄ where
  abbrev pub ring_index : Env → ℕ
  ring_index e = unwrap_or e.root_history_index 0

  pub record Represents (c : Config) (p : Pool) (e : Env) : Type 0 where
    pub initialized : e.initialized ≡ some true
    pub denomination : e.denomination ≡ some c.denomination
    pub token : e.token ≡ some c.token
    pub max_fee : e.max_fee ≡ some c.max_fee
    pub tree_depth : e.tree_depth ≡ some c.tree_depth
    pub root_history_size : e.root_history_size ≡ some c.root_history_size
    pub contract_address : e.contract_address ≡ c.contract_address
    pub next_leaf_index : e.next_leaf_index ≡ some (length p.leaves)
    pub room : length p.leaves ≤ capacity c.tree_depth
    pub nodes : Nodes p.leaves c.tree_depth e.merkle_node
    pub commitments : (x : Bytes) → unwrap_or (e.commitment_inserted x) false ≡ contains p.leaves x
    pub nullifiers : (x : Bytes) → unwrap_or (e.nullifier_spent x) false ≡ contains p.spent x
    pub ring_bound : ring_index e < c.root_history_size
    pub ring :
        Window
          (past_roots c.tree_depth p.leaves)
          c.root_history_size
          (ring_index e)
          e.root_history_entry
    pub ledger : e.ledger ≡ p.ledger
    pub events : e.events ≡ p.events

  -- The call ends as promised, and where it succeeds it leaves the promised pool.
  pub data Refines (c : Config) (a : Result) (b : Promise) : Type 0 where
    succeeds : {e : Env} {p : Pool} → a ≡ ok tt e → b ≡ ok tt p → Represents c p e → Refines c a b
    fails : (x : MixerError) → a ≡ err x → b ≡ err x → Refines c a b
    traps : a ≡ trap → b ≡ trap → Refines c a b

  pub Refines-eq :
      {c : Config} {a a' : Result} {b b' : Promise}
      → a ≡ a'
      → b ≡ b'
      → Refines c a' b'
      → Refines c a b
  Refines-eq h k r = rw (h, k) r
