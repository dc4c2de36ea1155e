-- ===== src/MixerPool/Tests/Pairing.antt =====
-- Tests of contracts/mixer_pool/src/verifier.rs on the smallest pairing: all groups are the one of
-- two elements, and the pairing is the conjunction.
use caligo.Prelude.{ℕ, ◌%◌, ◌≡◌, refl, Bool, true, false, ◌&&◌, some, List, [], ◌∷◌, ◌++◌}
use caligo.Prelude.Tests.{◌==◌}
use caligo.Prelude.Lists.{replicate}
use caligo.Prelude.Bytes.{Bytes}
use caligo.Bn254.{Bn254}
use caligo.MixerPool.Verifier.{
  G1Point, G2Point, Build, DecodedVk, decode_g1, decode_g2, bytes_to_fq, decode_proof,
  decode_points, load_verification_key, add_inputs, input_to_fr, check_pairing, verify_proof,
}
use caligo.MixerPool.Verifier.Points.{IsProof}
use caligo.MixerPool.Verifier.Pairing.{PairingLaws, Groth16}
use caligo.MixerPool.Verifier.Groth.{verify_proof-Groth16}

abbrev differ : Bool → Bool → Bool
differ true true = false
differ true false = true
differ false b = b

abbrev opposite : Bool → Bool
opposite true = false
opposite false = true

abbrev odd : Bytes → Bool
odd [] = false
odd (b ∷ bytes) = b % 2 == 1

abbrev sum_bits : List Bool → List Bool → Bool
sum_bits [] bs = false
sum_bits (a ∷ as') [] = false
sum_bits (a ∷ as') (b ∷ bs) = differ (a && b) (sum_bits as' bs)

instance abbrev bit_field : Bn254
bit_field = record {
  Fr = Bool;
  Fq = Bool;
  Fq2 = Bool;
  fr_from_le_bytes_mod_order = odd;
  fr_to_bytes_le = λ x. [];
  fq_from_le_bytes_mod_order = odd;
  fq2_new = λ c0 c1. c0;
  poseidon = λ xs. true;
  G1 = Bool;
  G2 = Bool;
  Projective = Bool;
  g1_new_unchecked = λ x y. x;
  g1_is_on_curve = λ p. true;
  g1_is_in_subgroup = λ p. true;
  g2_new_unchecked = λ x y. x;
  g2_is_on_curve = λ p. true;
  g2_is_in_subgroup = λ p. true;
  g1_neg = λ p. p;
  g1_mul = ◌&&◌;
  into_projective = λ p. p;
  projective_add = differ;
  into_affine = λ p. p;
  PairingOutput = Bool;
  multi_pairing = sum_bits;
  output_is_zero = opposite;
}

differ_assoc : (x y z : Bool) → differ (differ x y) z ≡ differ x (differ y z)
differ_assoc true true true = refl
differ_assoc true true false = refl
differ_assoc true false z = refl
differ_assoc false y z = refl

differ_comm : (x y : Bool) → differ x y ≡ differ y x
differ_comm true true = refl
differ_comm true false = refl
differ_comm false true = refl
differ_comm false false = refl

differ_zero : (x : Bool) → differ x false ≡ x
differ_zero true = refl
differ_zero false = refl

differ_self : (x : Bool) → differ x x ≡ false
differ_self true = refl
differ_self false = refl

opposite_found : (x : Bool) → opposite x ≡ true → x ≡ false
opposite_found true h = cc
opposite_found false h = refl

and_differ : (p q g : Bool) → (differ p q) && g ≡ differ (p && g) (q && g)
and_differ true true true = refl
and_differ true true false = refl
and_differ true false true = refl
and_differ true false false = refl
and_differ false q g = refl

and_and : (p x g : Bool) → (p && x) && g ≡ x && (p && g)
and_and true true g = refl
and_and true false g = refl
and_and false true g = refl
and_and false false g = refl

bit_laws : PairingLaws
bit_laws = record {
  zero = false;
  add = differ;
  neg = λ x. x;
  scale = ◌&&◌;
  add_assoc = differ_assoc;
  add_comm = differ_comm;
  add_zero = differ_zero;
  add_neg = differ_self;
  zero_found = opposite_found;
  zero_is_zero = refl;
  pairing = ◌&&◌;
  multi_pairing-nil = refl;
  multi_pairing-cons = λ p q ps qs. refl;
  pairing-neg = λ p q on on'. refl;
  into_affine-into_projective = λ p. refl;
  add-IsG1 = λ p q on on'. (refl, refl);
  mul-IsG1 = λ p x on. (refl, refl);
  pairing-add = λ p q g on on' on''. and_differ p q g;
  pairing-mul = λ p x g on on'. and_and p x g;
}

abbrev word : ℕ → Bytes
word n = replicate 31 0 ++ (n ∷ [])

abbrev g1 : ℕ → G1Point
g1 n = record { x = word n; y = word 0 }

abbrev g2 : ℕ → G2Point
g2 n = record { x_c0 = word n; x_c1 = word 0; y_c0 = word 0; y_c1 = word 0 }

instance abbrev bit_build : Build
bit_build = record {
  verification_key = some (record {
    alpha_g1 = g1 1;
    beta_g2 = g2 1;
    gamma_g2 = g2 1;
    delta_g2 = g2 1;
    ic_first = g1 1;
    ic_rest = g1 1 ∷ g1 0 ∷ g1 0 ∷ g1 0 ∷ g1 0 ∷ [];
  });
}

-- The proof (1, 1, c).
abbrev proof_with : ℕ → Bytes
proof_with c = word 1 ++ word 0 ++ word 1 ++ word 0 ++ word 0 ++ word 0 ++ word c ++ word 0

abbrev inputs : List Bytes
inputs = word 1 ∷ word 0 ∷ word 0 ∷ word 0 ∷ word 0 ∷ []

accepts_it : verify_proof (proof_with 0) inputs ≡ true
unfolding verify_proof decode_proof decode_g1 decode_g2 bytes_to_fq load_verification_key
    decode_points check_pairing add_inputs input_to_fr
accepts_it = refl

refuses_other : verify_proof (proof_with 1) inputs ≡ false
unfolding verify_proof decode_proof decode_g1 decode_g2 bytes_to_fq load_verification_key
    decode_points check_pairing add_inputs input_to_fr
refuses_other = refl

verify_proof-Groth16_example :
    (verify_proof (proof_with 0) inputs ≡ true
      → (t : Bool × Bool × Bool) × (vk : DecodedVk) × (decode_proof (proof_with 0) ≡ some t)
        × (load_verification_key ≡ some vk)
        × IsProof t
        × Groth16 bit_laws t vk inputs)
    × ((t : Bool × Bool × Bool) (vk : DecodedVk)
        → decode_proof (proof_with 0) ≡ some t
        → load_verification_key ≡ some vk
        → Groth16 bit_laws t vk inputs
        → verify_proof (proof_with 0) inputs ≡ true)
verify_proof-Groth16_example = verify_proof-Groth16 bit_laws (proof_with 0) inputs
