-- ===== src/Bn254.antt =====
-- The code of ark-bn254, ark-ec, ark-ff and light-poseidon that the programs call: a parameter.
use caligo.Prelude.{Bool, List}
use caligo.Prelude.Bytes.{Bytes}

pub record Bn254 : Type 1 where
  -- ark_bn254::{Fr, Fq, Fq2}.
  pub Fr : Type 0
  pub Fq : Type 0
  pub Fq2 : Type 0
  -- `from_le_bytes_mod_order` of the two prime fields, `into_bigint().to_bytes_le()`, `Fq2::new`.
  pub fr_from_le_bytes_mod_order : Bytes → Fr
  pub fr_to_bytes_le : Fr → Bytes
  pub fq_from_le_bytes_mod_order : Bytes → Fq
  pub fq2_new : Fq → Fq → Fq2
  -- `Poseidon::<Fr>::new_circom(n)` and `hash` on the n inputs of the list.
  pub poseidon : List Fr → Fr
  -- ark_bn254::{G1Affine, G2Affine, G1Projective}.
  pub G1 : Type 0
  pub G2 : Type 0
  pub Projective : Type 0
  pub g1_new_unchecked : Fq → Fq → G1
  pub g1_is_on_curve : G1 → Bool
  pub g1_is_in_subgroup : G1 → Bool
  pub g2_new_unchecked : Fq2 → Fq2 → G2
  pub g2_is_on_curve : G2 → Bool
  pub g2_is_in_subgroup : G2 → Bool
  pub g1_neg : G1 → G1
  pub g1_mul : G1 → Fr → Projective
  pub into_projective : G1 → Projective
  pub projective_add : Projective → Projective → Projective
  pub into_affine : Projective → G1
  -- `Bn254::multi_pairing` and `is_zero` of its output.
  pub PairingOutput : Type 0
  pub multi_pairing : List G1 → List G2 → PairingOutput
  pub output_is_zero : PairingOutput → Bool
