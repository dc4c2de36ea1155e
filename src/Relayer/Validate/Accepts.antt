-- ===== src/Relayer/Validate/Accepts.antt =====
-- What relayer/src/validate.rs accepts.
use native.Mathlib.Nat.{mul-le-mul_left, mod-eq_of_lt}
use caligo.Prelude.{
  ℕ, ◌*◌, ◌/◌, ◌%◌, ◌^◌, ◌<◌, ◌≤◌, ◌≡◌, refl, ap, sym, ◌∙◌, Bool, true, false, Option, none, some,
  ◌∷◌, arith, ◌↔◌, inl, inr,
}
use caligo.Prelude.Tests.{◌==◌, Bool-cases, Option-cases}
use caligo.Prelude.Lists.{length}
use caligo.Prelude.Bytes.{Bytes}
use caligo.Relayer.{Decoders}
use caligo.Relayer.Validate.{
  ValidationError, Checked, pass, refuse, trim_0x, parse_u64, validate_hex, expected_fee,
  validate_relay_request, check_hex, check_payment,
}

module _ ⦃crates : Decoders⦄ where
  open crates use {decode}

  -- One more "0x" in front makes no difference.
  pub validate_hex_prefixed : (s : Bytes) (n : ℕ) → validate_hex (48 ∷ 120 ∷ s) n ≡ validate_hex s n
  unfolding validate_hex trim_0x
  validate_hex_prefixed s n = refl

  -- How many bytes a string decodes to, with no "0x" in front.
  abbrev pub decoded_length : Bytes → Option ℕ
  decoded_length s = elim (decode (trim_0x s)) [ none ↦ none | some bytes ↦ some (length bytes) ]

  abbrev pub is_pass : {E A : Type 0} → Checked E A → Bool
  is_pass (pass _) = true
  is_pass (refuse _) = false

-- For a u64 denomination and at most 10000 basis points, the expected fee as a u64 is the
-- denomination times the basis points divided by 10000, with no wrap, and at most the
-- denomination.
pub expected_fee_lem :
    (denomination fee_bps : ℕ)
    → denomination < 2 ^ 64
    → fee_bps ≤ 10000
    → (expected_fee denomination fee_bps % 2 ^ 64 ≡ denomination * fee_bps / 10000)
      × (denomination * fee_bps / 10000 ≤ denomination)
expected_fee_lem denomination fee_bps small fair =
    let whole = mul-le-mul_left denomination fair in
    let below : denomination * fee_bps < 2 ^ 128 = omega arith in
    let kept : denomination * fee_bps % 2 ^ 128 ≡ denomination * fee_bps = mod-eq_of_lt below in
    (rw kept (omega arith), omega arith)

module _ ⦃crates : Decoders⦄ where
  open crates use {decode}

  check_hex-decoded_length :
      (s : Bytes) (n : ℕ) (rest : Checked ValidationError Unit)
      → (is_pass (check_hex s n rest) ≡ true)
        ↔ ((decoded_length s ≡ some n) × (is_pass rest ≡ true))
  unfolding validate_hex
  check_hex-decoded_length s n rest = elim (Option-cases (decode (trim_0x s))) [
    | inl bad ↦ (λ h. ground arith, λ h. ground (arith, h.0))
    | inr (bytes, good) ↦ elim (Bool-cases (length bytes == n)) [
      | inl long ↦ (λ h. (ground arith, ground arith), λ h. ground (arith, h.1))
      | inr other ↦ (λ h. ground arith, λ h. ground (arith, h.0))
    ]
  ]

  check_payment_lem :
      (recipient fee pool_contract_id : Bytes) (fee_bps denomination : ℕ)
      → denomination < 2 ^ 64
      → fee_bps ≤ 10000
      → (is_pass (check_payment recipient fee pool_contract_id fee_bps denomination) ≡ true) ↔ (
          (crates.is_public_key recipient ≡ true)
          × (parse_u64 fee ≡ some (denomination * fee_bps / 10000))
          × (0 < length pool_contract_id))
  unfolding check_payment
  check_payment_lem recipient fee pool_contract_id fee_bps denomination small fair =
      let exact = (expected_fee_lem denomination fee_bps small fair).0 in
      elim (Option-cases (parse_u64 fee)) [
        | inl bad ↦ (λ h. ground arith, λ h. ground (arith, h.1))
        | inr (n, good) ↦ (
          λ h. (
            ground (arith, good),
            good ∙ ap some (ground (arith, good, exact)),
            ground (arith, good),
          ),
          λ h.
              let same : n ≡ denomination * fee_bps / 10000 = some-eq (sym good ∙ h.1) in
              ground (arith, good, exact, h.0, h.2),
        )
      ]
    where
      some-eq : {a b : ℕ} → some a ≡ some b → a ≡ b
      some-eq e = cc

  -- For a u64 denomination and a fee of at most 10000 basis points, `validate_relay_request`
  -- accepts a request exactly if the proof decodes to 256 bytes and the root and the nullifier
  -- hash to 32 each, the recipient is a public key, the fee is a u64 equal to the denomination
  -- times the basis points divided by 10000, and the pool is not the empty string.
  pub validate_relay_request-accepts :
      (proof_hex root_hex nullifier_hash_hex recipient fee pool_contract_id : Bytes)
      (fee_bps denomination : ℕ)
      → denomination < 2 ^ 64
      → fee_bps ≤ 10000
      → (is_pass (
            validate_relay_request proof_hex root_hex nullifier_hash_hex recipient fee
              pool_contract_id fee_bps denomination)
          ≡ true)
        ↔ ((decoded_length proof_hex ≡ some 256)
            × (decoded_length root_hex ≡ some 32)
            × (decoded_length nullifier_hash_hex ≡ some 32)
            × (crates.is_public_key recipient ≡ true)
            × (parse_u64 fee ≡ some (denomination * fee_bps / 10000))
            × (0 < length pool_contract_id))
  unfolding validate_relay_request
  validate_relay_request-accepts proof_hex root_hex nullifier_hash_hex recipient fee
        pool_contract_id fee_bps denomination small fair =
      let last = check_payment_lem recipient fee pool_contract_id fee_bps denomination small fair in
      let payment = check_payment recipient fee pool_contract_id fee_bps denomination in
      let c = check_hex-decoded_length nullifier_hash_hex 32 payment in
      let b = check_hex-decoded_length root_hex 32 (check_hex nullifier_hash_hex 32 payment) in
      let a =
        check_hex-decoded_length proof_hex 256
          (check_hex root_hex 32 (check_hex nullifier_hash_hex 32 payment)) in
      (
        λ h.
            let (x, h₁) = a.0 h in
            let (y, h₂) = b.0 h₁ in
            let (z, h₃) = c.0 h₂ in (x, y, z, (last.0 h₃).0, (last.0 h₃).1, (last.0 h₃).2),
        λ h. a.1 (h.0, b.1 (h.1, c.1 (h.2, last.1 (h.3, h.4, h.5)))),
      )
