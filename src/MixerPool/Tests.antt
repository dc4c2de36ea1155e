-- ===== src/MixerPool/Tests.antt =====
-- Tests of contracts/mixer_pool: a small pool of depth 2 that keeps three roots, with a deposit
-- and a withdrawal.
pub mod Sequences
pub mod Overpriced
pub mod Pairing
use caligo.Prelude.{ℕ, ◌-◌, ◌≡◌, refl, true, false, ◌&&◌, none, List, [], ◌∷◌, arith}
use caligo.Prelude.Tests.{◌==◌, if◌then◌else◌}
use caligo.Prelude.Lists.{length}
use caligo.Prelude.Int.{pos}
use caligo.Prelude.Bytes.{Bytes, contains}
use caligo.Prelude.Contract.{ok}
use caligo.MixerPool.Storage.{Env}
use caligo.MixerPool.Merkle.Refine.{tree_node, empty_leaf}
use caligo.MixerPool.Contract.{
  get_root_history, initialize, deposit, withdraw, is_known_root, fee_to_bytes, as_u128,
  to_be_bytes,
}
use caligo.MixerPool.Poseidon.RoundTrip.{bytes_to_fr-fr_to_bytes}
use caligo.MixerPool.Contract.Fee.{be_number, be_number-fee_to_bytes}
use caligo.MixerPool.Contract.Listing.{get_root_history-is_known_root}
use caligo.MixerPool.Contract.Initialize.{IsFresh, config, initialize-Represents}
use caligo.MixerPool.Contract.Deposit.{deposit-Refines}
use caligo.MixerPool.Contract.Withdraw.{withdraw-Refines}
use caligo.MixerPool.Verifier.{
  verify_proof, decode_proof, decode_g1, decode_g2, bytes_to_fq, load_verification_key,
  decode_points, check_pairing, add_inputs, input_to_fr,
}
use caligo.MixerPool.Poseidon.{
  hash_pair_bytes, bytes_to_fr, fr_to_bytes, write_reversed, hash_pair, hash_single_bytes,
  hash_single,
}
use caligo.Tree.{node}
use caligo.MixerPool.Spec.{public_inputs, Config, IsConfig, Pool, spec_deposit, spec_withdraw}
use caligo.MixerPool.Spec.Represents.{Represents, Refines}
use caligo.MixerPool.Runs.{
  Request, Invocation, signed, signed-Represents, run, spec_run, spec_exec, run-Represents,
}
use caligo.Examples.{
  Balances, small_transfer, small_field, small_host, small_build, bytes_of, proof_of,
}

-- Holder 1 has 1000 of token 7.
abbrev pub balances : Balances
balances t x = if (t == 7) && (x == 1) then 1000 else 0

abbrev pub fresh_env : Env
fresh_env = record {
  storage = record {
    denomination = none;
    admin = none;
    token = none;
    tree_depth = none;
    next_leaf_index = none;
    root_history_size = none;
    root_history_index = none;
    max_fee = none;
    initialized = none;
    merkle_node = λ l i. none;
    root_history_entry = λ i. none;
    nullifier_spent = λ x. none;
    commitment_inserted = λ x. none;
  };
  authorized = λ a. true;
  contract_address = 50;
  ledger = balances;
  events = [];
}

fresh_env-IsFresh : IsFresh fresh_env
fresh_env-IsFresh = record {
  initialized = refl;
  nodes = λ l j. refl;
  ring = λ i. refl;
  commitments = λ x. refl;
  nullifiers = λ x. refl;
}

abbrev pub limits : Config
limits = config 9 7 (pos 100) (pos 10) 2 3 fresh_env

pub limits-IsConfig : IsConfig limits
limits-IsConfig = record {
  denomination_pos = omega arith;
  denomination_fits = refl;
  max_fee_fits = refl;
  depth_pos = omega arith;
  depth_le = omega arith;
  history_pos = omega arith;
  history_fits = omega arith;
}

abbrev pub empty_pool : Pool
empty_pool = record { leaves = []; spent = []; ledger = balances; events = [] }

-- The contract after `initialize`.
pub opened :
    (e : Env) × (initialize 9 7 (pos 100) (pos 10) 2 3 fresh_env ≡ ok tt e)
    × Represents limits empty_pool e
opened =
    initialize-Represents 9 7 (pos 100) (pos 10) 2 3 fresh_env fresh_env-IsFresh limits-IsConfig
      refl

initialize-Represents_example :
    (e : Env) × (initialize 9 7 (pos 100) (pos 10) 2 3 fresh_env ≡ ok tt e)
    × Represents limits empty_pool e
initialize-Represents_example =
    initialize-Represents 9 7 (pos 100) (pos 10) 2 3 fresh_env fresh_env-IsFresh limits-IsConfig
      refl

abbrev pub open_env : Env
open_env = signed opened.0 (λ a. true)

pub open_env-Represents : Represents limits empty_pool open_env
open_env-Represents = signed-Represents (λ a. true) opened.2

deposit-Refines_example :
    Refines limits
      (deposit 1 (bytes_of 11) open_env)
      (spec_deposit limits (λ a. true) 1 (bytes_of 11) empty_pool)
deposit-Refines_example = deposit-Refines 1 (bytes_of 11) limits-IsConfig open_env-Represents

abbrev pub deposit_of : ℕ → Invocation
deposit_of n = record { authorized = λ a. true; request = Request.deposit 1 (bytes_of n) }

abbrev pub used_env : Env
used_env = run open_env (deposit_of 11 ∷ [])

abbrev pub used_pool : Pool
used_pool = spec_run limits empty_pool (deposit_of 11 ∷ [])

pub used_env-Represents : Represents limits used_pool used_env
used_env-Represents = run-Represents limits-IsConfig (deposit_of 11 ∷ []) open_env-Represents

abbrev pub coin_root : Bytes
coin_root = tree_node (bytes_of 11 ∷ []) 2 0

withdraw-Refines_example :
    Refines limits
      (withdraw (proof_of 12) coin_root (bytes_of 5) 3 4 (pos 10) used_env)
      (spec_withdraw limits (proof_of 12) coin_root (bytes_of 5) 3 4 (pos 10) used_pool)
withdraw-Refines_example =
    withdraw-Refines (proof_of 12) coin_root (bytes_of 5) 3 4 (pos 10) limits-IsConfig
      used_env-Represents

-- The proof holds for nullifier hash 5 and for no fee that is not its input.
pub proof_accepted :
    verify_proof (proof_of 12) (public_inputs coin_root (bytes_of 5) 3 4 (pos 10)) ≡ true
unfolding verify_proof decode_proof decode_g1 decode_g2 bytes_to_fq load_verification_key
    decode_points check_pairing add_inputs input_to_fr fee_to_bytes as_u128 to_be_bytes
    hash_pair_bytes bytes_to_fr fr_to_bytes write_reversed hash_pair node empty_leaf
    hash_single_bytes hash_single
proof_accepted = refl

proof_refused :
    verify_proof (proof_of 12) (public_inputs coin_root (bytes_of 6) 3 4 (pos 10)) ≡ false
unfolding verify_proof decode_proof decode_g1 decode_g2 bytes_to_fq load_verification_key
    decode_points check_pairing add_inputs input_to_fr fee_to_bytes as_u128 to_be_bytes node
    hash_pair_bytes empty_leaf hash_single_bytes
proof_refused = refl

pub used_pool_leaves : used_pool.leaves ≡ bytes_of 11 ∷ []
unfolding spec_run spec_exec spec_deposit contains
used_pool_leaves = refl

be_number-fee_to_bytes_example :
    (be_number 0 (fee_to_bytes (pos 70000)) ≡ 70000) × (length (fee_to_bytes (pos 70000)) ≡ 32)
be_number-fee_to_bytes_example = be_number-fee_to_bytes 70000 (omega arith)

get_root_history-is_known_root_example :
    (roots : List Bytes) × (get_root_history open_env ≡ ok roots open_env)
    × ((root : Bytes) → is_known_root root open_env ≡ ok (contains roots root) open_env)
get_root_history-is_known_root_example =
    get_root_history-is_known_root 3 open_env open_env-Represents.root_history_size

bytes_to_fr-fr_to_bytes_example : bytes_to_fr (fr_to_bytes 65000) ≡ 65000
bytes_to_fr-fr_to_bytes_example = bytes_to_fr-fr_to_bytes 65000 refl refl
