-- ===== src/MixerPool/Verifier/Groth.antt =====
-- The check of contracts/mixer_pool/src/verifier.rs beside the equation of Groth16.
use mathlib.Core.Path.{subst}
use caligo.Prelude.{◌≡◌, ap, ap₂, sym, ◌∙◌, true, some, List, [], ◌∷◌, map, arith, inl, inr}
use caligo.Prelude.Tests.{Option-cases}
use caligo.Prelude.Bytes.{Bytes}
use caligo.Bn254.{Bn254}
use caligo.MixerPool.Verifier.Points.{
  IsG1, IsProof, decode_proof-IsProof, IsKey, load_verification_key-IsKey,
}
use caligo.MixerPool.Verifier.Pairing.{
  PairingLaws, inputs_pairing, Groth16, balanced, balanced_of, add_inputs-pairing,
}
use caligo.MixerPool.Verifier.{
  Build, DecodedVk, decode_proof, add_inputs, input_to_fr, check_pairing, load_verification_key,
  verify_proof,
}

module _ ⦃bn : Bn254⦄ ⦃build : Build⦄ (laws : PairingLaws) where
  open bn use {
    G1, G2, g1_neg, into_affine, into_projective, PairingOutput, multi_pairing, output_is_zero,
  }
  open laws use {
    zero, add, neg, pairing, multi_pairing-nil, multi_pairing-cons, pairing-neg, zero_found,
    zero_is_zero, into_affine-into_projective,
  }

  four_pairings :
      (a p q r : G1) (b g h k : G2)
      → multi_pairing (a ∷ p ∷ q ∷ r ∷ []) (b ∷ g ∷ h ∷ k ∷ [])
        ≡ add (pairing a b) (add (pairing p g) (add (pairing q h) (add (pairing r k) zero)))
  four_pairings a p q r b g h k =
      multi_pairing-cons a b (p ∷ q ∷ r ∷ []) (g ∷ h ∷ k ∷ [])
      ∙ ap (add (pairing a b)) (
          multi_pairing-cons p g (q ∷ r ∷ []) (h ∷ k ∷ [])
          ∙ ap (add (pairing p g)) (
              multi_pairing-cons q h (r ∷ []) (k ∷ [])
              ∙ ap (add (pairing q h))
                  (multi_pairing-cons r k [] [] ∙ ap (add (pairing r k)) multi_pairing-nil)))

  module _ (a : G1) (b : G2) (c : G1) (vk : DecodedVk) (public_inputs : List Bytes)
      (proof_on : IsProof (a, b, c)) (key_on : IsKey vk) where
    abbrev inputs_point : G1
    inputs_point =
        into_affine
          (add_inputs (into_projective vk.ic_first) vk.ic_rest (map input_to_fr public_inputs))

    abbrev inputs_sum : PairingOutput
    inputs_sum =
        add (pairing vk.ic_first vk.gamma_g2)
          (inputs_pairing laws vk.ic_rest (map input_to_fr public_inputs) vk.gamma_g2)

    inputs_point-pairing : IsG1 inputs_point × (pairing inputs_point vk.gamma_g2 ≡ inputs_sum)
    inputs_point-pairing =
        let back = into_affine-into_projective vk.ic_first in
        let (on, sum) =
          add_inputs-pairing laws (into_projective vk.ic_first) vk.ic_rest
            (map input_to_fr public_inputs) vk.gamma_g2 (subst IsG1 (sym back) key_on.first)
            key_on.rest key_on.gamma in
        (
          on,
          sum
              ∙ ap
                  (λ p.
                    add (pairing p vk.gamma_g2)
                      (inputs_pairing laws vk.ic_rest (map input_to_fr public_inputs) vk.gamma_g2))
                  back,
        )

    output_lem :
        multi_pairing
          (a ∷ g1_neg vk.alpha_g1 ∷ g1_neg inputs_point ∷ g1_neg c ∷ [])
          (b ∷ vk.beta_g2 ∷ vk.gamma_g2 ∷ vk.delta_g2 ∷ [])
        ≡ add (pairing a b) (
            add
              (neg (pairing vk.alpha_g1 vk.beta_g2))
              (add (neg inputs_sum) (add (neg (pairing c vk.delta_g2)) zero)))
    output_lem =
        let (on, sum) = inputs_point-pairing in
        four_pairings a (g1_neg vk.alpha_g1) (g1_neg inputs_point) (g1_neg c) b vk.beta_g2
          vk.gamma_g2 vk.delta_g2
        ∙ ap (add (pairing a b)) (
            ap₂ add (pairing-neg vk.alpha_g1 vk.beta_g2 key_on.alpha key_on.beta) (
              ap₂ add (pairing-neg inputs_point vk.gamma_g2 on key_on.gamma ∙ ap neg sum)
                (ap (λ s. add s zero) (pairing-neg c vk.delta_g2 proof_on.2 key_on.delta))))

    check_pairing-Groth16 :
        (check_pairing (a, b, c) vk public_inputs ≡ true → Groth16 laws (a, b, c) vk public_inputs)
        × (Groth16 laws (a, b, c) vk public_inputs
            → check_pairing (a, b, c) vk public_inputs ≡ true)
    unfolding check_pairing
    check_pairing-Groth16 = (
      λ accepted. balanced laws _ _ _ _ (sym output_lem ∙ zero_found _ accepted),
      λ equation. ap output_is_zero (output_lem ∙ balanced_of laws _ _ _ _ equation) ∙ zero_is_zero,
    )

  -- If the pairing of the library obeys `PairingLaws`, then `verify_proof` accepts a proof
  -- exactly if the proof and the build's verification key decode and the decoded points satisfy
  -- the equation of Groth16 for the public inputs as field elements; the points of an accepted
  -- proof are on their curves and in the subgroups.
  pub verify_proof-Groth16 :
      (proof_bytes : Bytes) (public_inputs : List Bytes)
      → (verify_proof proof_bytes public_inputs ≡ true
          → (t : G1 × G2 × G1) × (vk : DecodedVk) × (decode_proof proof_bytes ≡ some t)
            × (load_verification_key ≡ some vk)
            × IsProof t
            × Groth16 laws t vk public_inputs)
        × ((t : G1 × G2 × G1) (vk : DecodedVk)
            → decode_proof proof_bytes ≡ some t
            → load_verification_key ≡ some vk
            → Groth16 laws t vk public_inputs
            → verify_proof proof_bytes public_inputs ≡ true)
  unfolding verify_proof
  verify_proof-Groth16 proof_bytes public_inputs = (
    λ accepted. elim (Option-cases (decode_proof proof_bytes)) [
      | inl bad ↦ absurd (ground arith)
      | inr (t, at) ↦ elim (Option-cases load_verification_key) [
        | inl missing ↦ absurd (ground arith)
        | inr (vk, key) ↦
            let checked : check_pairing t vk public_inputs ≡ true = ground arith in
            let on = decode_proof-IsProof proof_bytes at in
            let (equation, _) =
              check_pairing-Groth16 t.0 t.1 t.2 vk public_inputs on
                (load_verification_key-IsKey key) in
            (t, vk, at, key, on, equation checked)
      ]
    ],
    λ t vk at key equation.
        let (_, accepts) =
          check_pairing-Groth16 t.0 t.1 t.2 vk public_inputs (decode_proof-IsProof proof_bytes at)
            (load_verification_key-IsKey key) in
        ground (arith, at, key, accepts equation),
  )
