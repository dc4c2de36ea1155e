-- ===== src/MixerPool/Verifier.antt =====
-- contracts/mixer_pool/src/verifier.rs: decoding of points and proofs, and the Groth16 check.
pub mod Points
pub mod Pairing
pub mod Groth
use caligo.Prelude.{ℕ, ◌-◌, Bool, false, ◌&&◌, Option, none, some, List, [], ◌∷◌, map, reverse}
use caligo.Prelude.Tests.{◌==◌, if◌then◌else◌}
use caligo.Prelude.Lists.{length, take, drop}
use caligo.Prelude.Bytes.{Bytes}
use caligo.Prelude.Options.{◌>>=◌}
use caligo.Bn254.{Bn254}

pub record G1Point : Type 0 where
  pub x : Bytes
  pub y : Bytes

pub record G2Point : Type 0 where
  pub x_c0 : Bytes
  pub x_c1 : Bytes
  pub y_c0 : Bytes
  pub y_c1 : Bytes

-- The array `ic` is its first entry and the NUM_PUBLIC_INPUTS others.
pub record VerifyingKey : Type 0 where
  pub alpha_g1 : G1Point
  pub beta_g2 : G2Point
  pub gamma_g2 : G2Point
  pub delta_g2 : G2Point
  pub ic_first : G1Point
  pub ic_rest : List G1Point

-- The generated constants of vk_constants.rs, if the feature `vk` is on.
pub record Build : Type 0 where
  pub verification_key : Option VerifyingKey

-- `bytes[from..to].try_into().ok()`, an array of 32 bytes.
abbrev pub slice32 : ℕ → ℕ → Bytes → Option Bytes
slice32 from to bytes =
    let part = take (to - from) (drop from bytes) in if length part == 32 then some part else none

module _ ⦃bn : Bn254⦄ where
  open bn use {
    Fr, Fq, G1, G2, Projective, fr_from_le_bytes_mod_order, fq_from_le_bytes_mod_order, fq2_new,
    g1_new_unchecked, g1_is_on_curve, g1_is_in_subgroup, g2_new_unchecked, g2_is_on_curve,
    g2_is_in_subgroup, g1_neg, g1_mul, into_projective, projective_add, into_affine, multi_pairing,
    output_is_zero,
  }

  unfoldable pub bytes_to_fq : Bytes → Fq
  bytes_to_fq bytes = fq_from_le_bytes_mod_order (reverse bytes)

  unfoldable pub decode_g1 : G1Point → Option G1
  unfolding bytes_to_fq
  decode_g1 point =
      let affine = g1_new_unchecked (bytes_to_fq point.x) (bytes_to_fq point.y) in
      if g1_is_on_curve affine && g1_is_in_subgroup affine then some affine else none

  unfoldable pub decode_g2 : G2Point → Option G2
  unfolding bytes_to_fq
  decode_g2 point =
      let affine =
        g2_new_unchecked (fq2_new (bytes_to_fq point.x_c0) (bytes_to_fq point.x_c1))
          (fq2_new (bytes_to_fq point.y_c0) (bytes_to_fq point.y_c1)) in
      if g2_is_on_curve affine && g2_is_in_subgroup affine then some affine else none

  unfoldable pub decode_proof : Bytes → Option (G1 × G2 × G1)
  unfolding decode_g1 decode_g2
  decode_proof bytes = do
    ax ← slice32 0 32 bytes
    ay ← slice32 32 64 bytes
    a ← decode_g1 (record { x = ax; y = ay })
    bx0 ← slice32 64 96 bytes
    bx1 ← slice32 96 128 bytes
    by0 ← slice32 128 160 bytes
    by1 ← slice32 160 192 bytes
    b ← decode_g2 (record { x_c0 = bx0; x_c1 = bx1; y_c0 = by0; y_c1 = by1 })
    cx ← slice32 192 224 bytes
    cy ← slice32 224 256 bytes
    c ← decode_g1 (record { x = cx; y = cy })
    some (a, b, c)

  pub record DecodedVk : Type 0 where
    pub alpha_g1 : G1
    pub beta_g2 : G2
    pub gamma_g2 : G2
    pub delta_g2 : G2
    pub ic_first : G1
    pub ic_rest : List G1

  -- `for (i, point) in raw.ic.iter().enumerate() { ic[i] = decode_g1(point)?; }`.
  unfoldable pub decode_points : List G1Point → Option (List G1)
  unfolding decode_g1
  decode_points [] = some []
  decode_points (point ∷ points) = do p ← decode_g1 point; ps ← decode_points points; some (p ∷ ps)

  -- The sum of `ic[i + 1] * fr_inputs[i]`, added to the accumulator from i = 0 on.
  unfoldable pub add_inputs : Projective → List G1 → List Fr → Projective
  add_inputs vk_x [] inputs = vk_x
  add_inputs vk_x (p ∷ ic) [] = vk_x
  add_inputs vk_x (p ∷ ic) (x ∷ inputs) = add_inputs (projective_add vk_x (g1_mul p x)) ic inputs

  unfoldable pub input_to_fr : Bytes → Fr
  input_to_fr bytes = fr_from_le_bytes_mod_order (reverse bytes)

  -- Steps 3 to 5 of `verify_proof`.
  unfoldable pub check_pairing : G1 × G2 × G1 → DecodedVk → List Bytes → Bool
  check_pairing (a, b, c) vk public_inputs =
      let vk_x =
        add_inputs (into_projective vk.ic_first) vk.ic_rest (map input_to_fr public_inputs) in
      output_is_zero (
        multi_pairing (a ∷ g1_neg vk.alpha_g1 ∷ g1_neg (into_affine vk_x) ∷ g1_neg c ∷ [])
          (b ∷ vk.beta_g2 ∷ vk.gamma_g2 ∷ vk.delta_g2 ∷ []))

module _ ⦃bn : Bn254⦄ ⦃build : Build⦄ where
  unfoldable pub load_verification_key : Option DecodedVk
  unfolding decode_g1 decode_g2 decode_points
  load_verification_key = do
    raw ← build.verification_key
    alpha_g1 ← decode_g1 raw.alpha_g1
    beta_g2 ← decode_g2 raw.beta_g2
    gamma_g2 ← decode_g2 raw.gamma_g2
    delta_g2 ← decode_g2 raw.delta_g2
    ic_first ← decode_g1 raw.ic_first
    ic_rest ← decode_points raw.ic_rest
    some (record {
      alpha_g1 = alpha_g1;
      beta_g2 = beta_g2;
      gamma_g2 = gamma_g2;
      delta_g2 = delta_g2;
      ic_first = ic_first;
      ic_rest = ic_rest;
    })

  unfoldable pub verify_proof : Bytes → List Bytes → Bool
  verify_proof proof_bytes public_inputs = elim (decode_proof proof_bytes) [
    | none ↦ false
    | some proof ↦ elim load_verification_key [
      | none ↦ false
      | some vk ↦ check_pairing proof vk public_inputs
    ]
  ]
