-- ===== src/MixerPool/Verifier/Pairing.antt =====
-- The pairing of ark-bn254 as contracts/mixer_pool/src/verifier.rs relies on it, and the equation
-- of Groth16 in its terms.
use caligo.Prelude.{◌≡◌, ap, sym, ◌∙◌, true, List, [], ◌∷◌, map}
use caligo.Prelude.Bytes.{Bytes}
use caligo.Bn254.{Bn254}
use caligo.MixerPool.Verifier.Points.{IsG1, IsG2, AllG1}
use caligo.MixerPool.Verifier.{DecodedVk, add_inputs, input_to_fr}

module _ ⦃bn : Bn254⦄ where
  open bn use {
    Fr, G1, G2, Projective, g1_is_on_curve, g1_is_in_subgroup, g2_is_on_curve, g2_is_in_subgroup,
    g1_neg, g1_mul, into_projective, projective_add, into_affine, PairingOutput, multi_pairing,
    output_is_zero,
  }

  -- The output is a commutative group, a multi-pairing is the sum of the pairings, and these are
  -- linear in the first argument, on points of the curve and its subgroup.
  pub record PairingLaws : Type 0 where
    pub zero : PairingOutput
    pub add : PairingOutput → PairingOutput → PairingOutput
    pub neg : PairingOutput → PairingOutput
    pub scale : Fr → PairingOutput → PairingOutput
    pub add_assoc : (x y z : PairingOutput) → add (add x y) z ≡ add x (add y z)
    pub add_comm : (x y : PairingOutput) → add x y ≡ add y x
    pub add_zero : (x : PairingOutput) → add x zero ≡ x
    pub add_neg : (x : PairingOutput) → add x (neg x) ≡ zero
    pub zero_found : (x : PairingOutput) → output_is_zero x ≡ true → x ≡ zero
    pub zero_is_zero : output_is_zero zero ≡ true
    pub pairing : G1 → G2 → PairingOutput
    pub multi_pairing-nil : multi_pairing [] [] ≡ zero
    pub multi_pairing-cons :
        (p : G1) (q : G2) (ps : List G1) (qs : List G2)
        → multi_pairing (p ∷ ps) (q ∷ qs) ≡ add (pairing p q) (multi_pairing ps qs)
    pub pairing-neg : (p : G1) (q : G2) → IsG1 p → IsG2 q → pairing (g1_neg p) q ≡ neg (pairing p q)
    pub into_affine-into_projective : (p : G1) → into_affine (into_projective p) ≡ p
    pub add-IsG1 :
        (p q : Projective)
        → IsG1 (into_affine p)
        → IsG1 (into_affine q)
        → IsG1 (into_affine (projective_add p q))
    pub mul-IsG1 : (p : G1) (x : Fr) → IsG1 p → IsG1 (into_affine (g1_mul p x))
    pub pairing-add :
        (p q : Projective) (g : G2)
        → IsG1 (into_affine p)
        → IsG1 (into_affine q)
        → IsG2 g
        → pairing (into_affine (projective_add p q)) g
          ≡ add (pairing (into_affine p) g) (pairing (into_affine q) g)
    pub pairing-mul :
        (p : G1) (x : Fr) (g : G2)
        → IsG1 p
        → IsG2 g
        → pairing (into_affine (g1_mul p x)) g ≡ scale x (pairing p g)

module _ ⦃bn : Bn254⦄ (laws : PairingLaws) where
  open bn use {
    Fr, G1, G2, Projective, g1_mul, projective_add, into_affine, into_projective, PairingOutput,
  }
  open laws use {zero, add, neg, scale, add_assoc, add_comm, add_zero, add_neg, pairing}

  zero_add : (x : PairingOutput) → add zero x ≡ x
  zero_add x = add_comm zero x ∙ add_zero x

  cancel : (p y z : PairingOutput) → add (add (neg p) y) (add p z) ≡ add y z
  cancel p y z =
      sym (add_assoc (add (neg p) y) p z)
      ∙ ap (λ s. add s z)
          (ap (λ s. add s p) (add_comm (neg p) y)
            ∙ add_assoc y (neg p) p
            ∙ ap (add y) (add_comm (neg p) p ∙ add_neg p)
            ∙ add_zero y)

  -- The sum of three negated terms is the negation of their sum.
  negated :
      (p q r : PairingOutput)
      → add (add (neg p) (add (neg q) (add (neg r) zero))) (add p (add q r)) ≡ zero
  negated p q r =
      cancel p (add (neg q) (add (neg r) zero)) (add q r)
      ∙ cancel q (add (neg r) zero) r
      ∙ ap (λ s. add s r) (add_zero (neg r))
      ∙ add_comm (neg r) r
      ∙ add_neg r

  pub balanced :
      (x p q r : PairingOutput)
      → add x (add (neg p) (add (neg q) (add (neg r) zero))) ≡ zero
      → x ≡ add p (add q r)
  balanced x p q r h =
      sym (add_zero x)
      ∙ ap (add x) (sym (negated p q r))
      ∙ sym (add_assoc x (add (neg p) (add (neg q) (add (neg r) zero))) (add p (add q r)))
      ∙ ap (λ s. add s (add p (add q r))) h
      ∙ zero_add (add p (add q r))

  pub balanced_of :
      (x p q r : PairingOutput)
      → x ≡ add p (add q r)
      → add x (add (neg p) (add (neg q) (add (neg r) zero))) ≡ zero
  balanced_of x p q r h =
      ap (λ s. add s (add (neg p) (add (neg q) (add (neg r) zero)))) h
      ∙ add_comm (add p (add q r)) (add (neg p) (add (neg q) (add (neg r) zero)))
      ∙ negated p q r

  -- The sum of `x_i * e(IC[i + 1], g)`.
  abbrev pub inputs_pairing : List G1 → List Fr → G2 → PairingOutput
  inputs_pairing [] xs g = zero
  inputs_pairing (p ∷ ic) [] g = zero
  inputs_pairing (p ∷ ic) (x ∷ xs) g = add (scale x (pairing p g)) (inputs_pairing ic xs g)

  -- e(A, B) = e(alpha, beta) + (e(IC[0], gamma) + the sum over the inputs) + e(C, delta).
  abbrev pub Groth16 : G1 × G2 × G1 → DecodedVk → List Bytes → Type 0
  Groth16 t vk public_inputs =
      pairing t.0 t.1
      ≡ add (pairing vk.alpha_g1 vk.beta_g2) (
          add
            (add (pairing vk.ic_first vk.gamma_g2)
              (inputs_pairing vk.ic_rest (map input_to_fr public_inputs) vk.gamma_g2))
            (pairing t.2 vk.delta_g2))

  pub add_inputs-pairing :
      (acc : Projective) (ic : List G1) (xs : List Fr) (g : G2)
      → IsG1 (into_affine acc)
      → AllG1 ic
      → IsG2 g
      → IsG1 (into_affine (add_inputs acc ic xs))
        × (pairing (into_affine (add_inputs acc ic xs)) g
            ≡ add (pairing (into_affine acc) g) (inputs_pairing ic xs g))
  unfolding add_inputs
  add_inputs-pairing acc [] xs g on all on_g = (on, sym (add_zero _))
  add_inputs-pairing acc (p ∷ ic) [] g on all on_g = (on, sym (add_zero _))
  add_inputs-pairing acc (p ∷ ic) (x ∷ xs) g on all on_g =
      let on_p = laws.mul-IsG1 p x all.0 in
      let (on', rest) =
        add_inputs-pairing (projective_add acc (g1_mul p x)) ic xs g
          (laws.add-IsG1 acc (g1_mul p x) on on_p) all.1 on_g in
      (
        on',
        rest
            ∙ ap (λ s. add s (inputs_pairing ic xs g))
                (laws.pairing-add acc (g1_mul p x) g on on_p on_g
                  ∙ ap (add (pairing (into_affine acc) g)) (laws.pairing-mul p x g all.0 on_g))
            ∙ add_assoc _ _ _,
      )
