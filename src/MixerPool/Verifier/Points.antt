-- ===== src/MixerPool/Verifier/Points.antt =====
-- What contracts/mixer_pool/src/verifier.rs decodes: points of the curve and its subgroup only.
use mathlib.Core.Path.{subst}
use caligo.Prelude.{◌≡◌, refl, Bool, true, false, ◌&&◌, Option, none, some, List, [], ◌∷◌}
use caligo.Prelude.Tests.{if◌then◌else◌}
use caligo.Prelude.Bytes.{Bytes}
use caligo.Prelude.Options.{◌>>=◌}
use caligo.Bn254.{Bn254}
use caligo.MixerPool.Verifier.{
  G1Point, G2Point, Build, DecodedVk, slice32, decode_g1, decode_g2, decode_proof, decode_points,
  load_verification_key,
}

-- What holds of a result, if there is one, and how a chain comes to it.
abbrev Ensures : {B : Type 0} → (B → Type 0) → Option B → Type 0
Ensures Q none = Unit
Ensures Q (some b) = Q b

Ensures-step :
    {A B : Type 0} (Q : B → Type 0) (o : Option A) (f : A → Option B)
    → ((a : A) → o ≡ some a → Ensures Q (f a))
    → Ensures Q (o >>= f)
Ensures-step Q none f h = tt
Ensures-step Q (some a) f h = h a refl

ensured : {B : Type 0} (Q : B → Type 0) {o : Option B} {b : B} → Ensures Q o → o ≡ some b → Q b
ensured Q h at = subst (Ensures Q) at h

module _ ⦃bn : Bn254⦄ where
  open bn use {G1, G2, g1_is_on_curve, g1_is_in_subgroup, g2_is_on_curve, g2_is_in_subgroup}

  abbrev pub IsG1 : G1 → Type 0
  IsG1 p = (g1_is_on_curve p ≡ true) × (g1_is_in_subgroup p ≡ true)

  abbrev pub IsG2 : G2 → Type 0
  IsG2 q = (g2_is_on_curve q ≡ true) × (g2_is_in_subgroup q ≡ true)

  abbrev pub AllG1 : List G1 → Type 0
  AllG1 [] = Unit
  AllG1 (p ∷ ps) = IsG1 p × AllG1 ps

  valid_if :
      {A : Type 0} (Q : A → Type 0) (a : A) (on_curve in_subgroup : Bool)
      → (on_curve ≡ true → in_subgroup ≡ true → Q a)
      → Ensures Q (if on_curve && in_subgroup then some a else none)
  valid_if Q a true true h = h refl refl
  valid_if Q a true false h = tt
  valid_if Q a false in_subgroup h = tt

  decode_g1-IsG1 : (point : G1Point) {p : G1} → decode_g1 point ≡ some p → IsG1 p
  unfolding decode_g1
  decode_g1-IsG1 point = ensured IsG1 (valid_if IsG1 _ _ _ (λ on inside. (on, inside)))

  decode_g2-IsG2 : (point : G2Point) {q : G2} → decode_g2 point ≡ some q → IsG2 q
  unfolding decode_g2
  decode_g2-IsG2 point = ensured IsG2 (valid_if IsG2 _ _ _ (λ on inside. (on, inside)))

  decode_points-AllG1 :
      (points : List G1Point) {ps : List G1} → decode_points points ≡ some ps → AllG1 ps
  unfolding decode_points
  decode_points-AllG1 [] = ensured AllG1 tt
  decode_points-AllG1 (point ∷ points) = ensured AllG1 (
      Ensures-step AllG1 (decode_g1 point) _ (λ p at.
        Ensures-step AllG1 (decode_points points) _
          (λ ps rest. (decode_g1-IsG1 point at, decode_points-AllG1 points rest))))

  abbrev pub IsProof : G1 × G2 × G1 → Type 0
  IsProof t = IsG1 t.0 × IsG2 t.1 × IsG1 t.2

  pub decode_proof-IsProof :
      (bytes : Bytes) {t : G1 × G2 × G1} → decode_proof bytes ≡ some t → IsProof t
  unfolding decode_proof
  decode_proof-IsProof bytes =
      let Q = IsProof in
      ensured Q (
        Ensures-step Q (slice32 0 32 bytes) _ (λ ax _.
          Ensures-step Q (slice32 32 64 bytes) _ (λ ay _.
            Ensures-step Q (decode_g1 (record { x = ax; y = ay })) _ (λ a at_a.
              Ensures-step Q (slice32 64 96 bytes) _ (λ bx0 _.
                Ensures-step Q (slice32 96 128 bytes) _ (λ bx1 _.
                  Ensures-step Q (slice32 128 160 bytes) _ (λ by0 _.
                    Ensures-step Q (slice32 160 192 bytes) _ (λ by1 _.
                      Ensures-step Q
                        (decode_g2 (record { x_c0 = bx0; x_c1 = bx1; y_c0 = by0; y_c1 = by1 })) _
                        (λ b at_b. Ensures-step Q (slice32 192 224 bytes) _ (λ cx _.
                          Ensures-step Q (slice32 224 256 bytes) _ (λ cy _.
                            Ensures-step Q (decode_g1 (record { x = cx; y = cy })) _ (λ c at_c. (
                              decode_g1-IsG1 (record { x = ax; y = ay }) at_a,
                              decode_g2-IsG2
                                  (record { x_c0 = bx0; x_c1 = bx1; y_c0 = by0; y_c1 = by1 }) at_b,
                              decode_g1-IsG1 (record { x = cx; y = cy }) at_c,
                            )))))))))))))

module _ ⦃bn : Bn254⦄ ⦃build : Build⦄ where
  -- What the decoded verification key consists of.
  pub record IsKey (vk : DecodedVk) : Type 0 where
    pub alpha : IsG1 vk.alpha_g1
    pub beta : IsG2 vk.beta_g2
    pub gamma : IsG2 vk.gamma_g2
    pub delta : IsG2 vk.delta_g2
    pub first : IsG1 vk.ic_first
    pub rest : AllG1 vk.ic_rest

  pub load_verification_key-IsKey : {vk : DecodedVk} → load_verification_key ≡ some vk → IsKey vk
  unfolding load_verification_key
  load_verification_key-IsKey = ensured IsKey (
      Ensures-step IsKey build.verification_key _ (λ raw _.
        Ensures-step IsKey (decode_g1 raw.alpha_g1) _ (λ alpha at_alpha.
          Ensures-step IsKey (decode_g2 raw.beta_g2) _ (λ beta at_beta.
            Ensures-step IsKey (decode_g2 raw.gamma_g2) _ (λ gamma at_gamma.
              Ensures-step IsKey (decode_g2 raw.delta_g2) _ (λ delta at_delta.
                Ensures-step IsKey (decode_g1 raw.ic_first) _ (λ first at_first.
                  Ensures-step IsKey (decode_points raw.ic_rest) _ (λ rest at_rest. record {
                    alpha = decode_g1-IsG1 raw.alpha_g1 at_alpha;
                    beta = decode_g2-IsG2 raw.beta_g2 at_beta;
                    gamma = decode_g2-IsG2 raw.gamma_g2 at_gamma;
                    delta = decode_g2-IsG2 raw.delta_g2 at_delta;
                    first = decode_g1-IsG1 raw.ic_first at_first;
                    rest = decode_points-AllG1 raw.ic_rest at_rest;
                  }))))))))
