-- ===== src/MixerPool/Tests/Overpriced.antt =====
-- Tests of contracts/mixer_pool: a pool of denomination 100 that was opened with a maximum fee of
-- 200, and a withdrawal with a fee of 150.
use caligo.Prelude.{◌≡◌, refl, true, [], arith}
use caligo.Prelude.Lists.{take}
use caligo.Prelude.Int.{pos}
use caligo.Prelude.Bytes.{Bytes, bytes_discrete, contains, cons_dec}
use caligo.Prelude.Contract.{ok, trap}
use caligo.MixerPool.Storage.{Env}
use caligo.MixerPool.Merkle.Refine.{tree_node, empty_leaf}
use caligo.MixerPool.Contract.{initialize, withdraw, fee_to_bytes, as_u128, to_be_bytes}
use caligo.MixerPool.Contract.Initialize.{config, initialize-Represents}
use caligo.MixerPool.Contract.Overpriced.{withdraw-overpriced}
use caligo.MixerPool.Verifier.{
  verify_proof, decode_proof, decode_g1, decode_g2, bytes_to_fq, load_verification_key,
  decode_points, check_pairing, add_inputs, input_to_fr,
}
use caligo.MixerPool.Poseidon.{
  hash_pair_bytes, bytes_to_fr, fr_to_bytes, write_reversed, hash_pair, hash_single_bytes,
  hash_single,
}
use caligo.Tree.{node}
use caligo.MixerPool.Spec.{public_inputs, Config, IsConfig, past_roots, roots_from_prefix}
use caligo.MixerPool.Spec.Represents.{Represents}
use caligo.MixerPool.Tests.{fresh_env, fresh_env-IsFresh, empty_pool}
use caligo.MixerPool.Tests.Sequences.{balances-TokenLaws}
use caligo.Prelude.{ℕ_discrete}
use caligo.Examples.{small_field, small_host, small_build, bytes_of, proof_of}

abbrev dear : Config
dear = config 9 7 (pos 100) (pos 200) 2 3 fresh_env

dear-IsConfig : IsConfig dear
dear-IsConfig = record {
  denomination_pos = omega arith;
  denomination_fits = refl;
  max_fee_fits = refl;
  depth_pos = omega arith;
  depth_le = omega arith;
  history_pos = omega arith;
  history_fits = omega arith;
}

opened_dear :
    (e : Env) × (initialize 9 7 (pos 100) (pos 200) 2 3 fresh_env ≡ ok tt e)
    × Represents dear empty_pool e
opened_dear =
    initialize-Represents 9 7 (pos 100) (pos 200) 2 3 fresh_env fresh_env-IsFresh dear-IsConfig refl

abbrev empty_root : Bytes
empty_root = tree_node [] 2 0

empty_root-known : contains (take 3 (past_roots 2 [])) empty_root ≡ true
unfolding contains roots_from_prefix bytes_discrete node empty_leaf hash_pair_bytes hash_pair
    hash_single_bytes hash_single bytes_to_fr fr_to_bytes write_reversed cons_dec ℕ_discrete
empty_root-known = refl

dear_accepted :
    verify_proof (proof_of 12) (public_inputs empty_root (bytes_of 5) 3 4 (pos 150)) ≡ true
unfolding verify_proof decode_proof decode_g1 decode_g2 bytes_to_fq load_verification_key
    decode_points check_pairing add_inputs input_to_fr fee_to_bytes as_u128 to_be_bytes
    hash_pair_bytes bytes_to_fr fr_to_bytes write_reversed hash_pair node empty_leaf
    hash_single_bytes hash_single
dear_accepted = refl

withdraw-overpriced_example :
    withdraw (proof_of 12) empty_root (bytes_of 5) 3 4 (pos 150) opened_dear.0 ≡ trap
withdraw-overpriced_example =
    withdraw-overpriced balances-TokenLaws (proof_of 12) empty_root (bytes_of 5) 3 4 (pos 150)
      dear-IsConfig opened_dear.2 empty_root-known (unfold contains in refl) refl refl refl refl
      dear_accepted
