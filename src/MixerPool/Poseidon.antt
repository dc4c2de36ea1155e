-- ===== src/MixerPool/Poseidon.antt =====
-- contracts/mixer_pool/src/poseidon.rs: Poseidon on 32-byte big-endian strings.
pub mod RoundTrip
use caligo.Prelude.{ℕ, ◌+◌, ◌-◌, [], ◌∷◌, reverse}
use caligo.Prelude.Lists.{take, set}
use caligo.Prelude.Bytes.{Bytes, zero_bytes}
use caligo.Bn254.{Bn254}

-- `for i in 0..len { be_bytes[31 - i] = le_bytes[i] }`, from round i on, over `le_bytes[i..len]`.
unfoldable pub write_reversed : Bytes → ℕ → Bytes → Bytes
write_reversed [] i be_bytes = be_bytes
write_reversed (b ∷ le_bytes) i be_bytes = write_reversed le_bytes (i + 1) (set be_bytes (31 - i) b)

module _ ⦃bn : Bn254⦄ where
  open bn use {Fr, fr_from_le_bytes_mod_order, fr_to_bytes_le, poseidon}

  unfoldable pub bytes_to_fr : Bytes → Fr
  bytes_to_fr bytes = fr_from_le_bytes_mod_order (reverse bytes)

  unfoldable pub fr_to_bytes : Fr → Bytes
  unfolding write_reversed
  fr_to_bytes fr = write_reversed (take 32 (fr_to_bytes_le fr)) 0 zero_bytes

  unfoldable pub hash_pair : Fr → Fr → Fr
  hash_pair left right = poseidon (left ∷ right ∷ [])

  unfoldable pub hash_single : Fr → Fr
  hash_single input = poseidon (input ∷ [])

  unfoldable pub hash_pair_bytes : Bytes → Bytes → Bytes
  unfolding bytes_to_fr fr_to_bytes hash_pair
  hash_pair_bytes left right = fr_to_bytes (hash_pair (bytes_to_fr left) (bytes_to_fr right))

  unfoldable pub hash_single_bytes : Bytes → Bytes
  unfolding bytes_to_fr fr_to_bytes hash_single
  hash_single_bytes input = fr_to_bytes (hash_single (bytes_to_fr input))
