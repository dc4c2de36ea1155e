-- ===== src/Indexer/Poseidon.antt =====
-- indexer/src/poseidon.rs: the indexer's own Poseidon, which is to agree with that of
-- contracts/mixer_pool/src/poseidon.rs.
use caligo.Prelude.{ℕ, zero, suc, ◌+◌, ◌-◌, ◌≡◌, refl, List, [], ◌∷◌, reverse}
use caligo.Prelude.Lists.{take, set}
use caligo.Prelude.Bytes.{Bytes, zero_bytes}
use caligo.Bn254.{Bn254}
use caligo.MixerPool.Poseidon as Pool

-- `iter().enumerate()`, from an index on.
abbrev pub enumerate : ℕ → Bytes → List (ℕ × ℕ)
enumerate i [] = []
enumerate i (b ∷ bytes) = (i, b) ∷ enumerate (i + 1) bytes

-- `for (i, &b) in ... { result[31 - i] = b; }`.
unfoldable pub write_each : List (ℕ × ℕ) → Bytes → Bytes
write_each [] result = result
write_each ((i, b) ∷ rest) result = write_each rest (set result (31 - i) b)

write_each-enumerate :
    (n i : ℕ) (le_bytes result : Bytes)
    → write_each (take n (enumerate i le_bytes)) result
      ≡ Pool.write_reversed (take n le_bytes) i result
unfolding write_each Pool.write_reversed
write_each-enumerate zero i le_bytes result = refl
write_each-enumerate (suc n) i [] result = refl
write_each-enumerate (suc n) i (b ∷ le_bytes) result =
    write_each-enumerate n (i + 1) le_bytes (set result (31 - i) b)

module _ ⦃bn : Bn254⦄ where
  open bn use {Fr, fr_from_le_bytes_mod_order, fr_to_bytes_le, poseidon}

  unfoldable pub bytes_to_fr : Bytes → Fr
  bytes_to_fr bytes = fr_from_le_bytes_mod_order (reverse bytes)

  unfoldable pub fr_to_bytes : Fr → Bytes
  fr_to_bytes fr = write_each (take 32 (enumerate 0 (fr_to_bytes_le fr))) zero_bytes

  unfoldable pub hash_pair : Bytes → Bytes → Bytes
  unfolding bytes_to_fr
  hash_pair left right = fr_to_bytes (poseidon (bytes_to_fr left ∷ bytes_to_fr right ∷ []))

  unfoldable pub hash_single : Bytes → Bytes
  unfolding bytes_to_fr
  hash_single input = fr_to_bytes (poseidon (bytes_to_fr input ∷ []))

  pub fr_to_bytes_agrees : (fr : Fr) → fr_to_bytes fr ≡ Pool.fr_to_bytes fr
  unfolding fr_to_bytes Pool.fr_to_bytes
  fr_to_bytes_agrees fr = write_each-enumerate 32 0 (fr_to_bytes_le fr) zero_bytes

  -- The indexer's `hash_pair` and the contract's `hash_pair_bytes` give the same bytes for the
  -- same two byte strings.
  pub hash_pair_agrees :
      (left right : Bytes) → hash_pair left right ≡ Pool.hash_pair_bytes left right
  unfolding hash_pair Pool.hash_pair_bytes Pool.hash_pair Pool.bytes_to_fr
  hash_pair_agrees left right =
      fr_to_bytes_agrees (poseidon (bytes_to_fr left ∷ bytes_to_fr right ∷ []))

  -- The indexer and the contract hash one string to the same bytes.
  pub hash_single_agrees : (input : Bytes) → hash_single input ≡ Pool.hash_single_bytes input
  unfolding hash_single Pool.hash_single_bytes Pool.hash_single Pool.bytes_to_fr
  hash_single_agrees input = fr_to_bytes_agrees (poseidon (bytes_to_fr input ∷ []))
