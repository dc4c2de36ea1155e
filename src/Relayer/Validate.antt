-- ===== src/Relayer/Validate.antt =====
-- relayer/src/validate.rs. A string is the list of its bytes.
pub mod Accepts
use caligo.Prelude.{ℕ, ◌+◌, ◌-◌, ◌*◌, ◌/◌, ◌%◌, ◌^◌, Bool, ◌&&◌, not, Option, none, some, [], ◌∷◌}
use caligo.Prelude.Tests.{ltb, leb, ◌==◌, if◌then◌else◌}
use caligo.Prelude.Lists.{length}
use caligo.Prelude.Bytes.{Bytes}
use caligo.Prelude.Decimal.{parse_uint}
use caligo.Relayer.{Decoders}

pub data HexError : Type 0 where
  invalid_hex : HexError
  wrong_length : ℕ → ℕ → HexError

pub data ValidationError : Type 0 where
  bad_hex : HexError → ValidationError
  invalid_address invalid_fee missing_contract : ValidationError
  fee_mismatch : ℕ → ℕ → ValidationError

pub data Checked (E A : Type 0) : Type 0 where
  pass : A → Checked E A
  refuse : E → Checked E A

-- `trim_start_matches("0x")`: 48 is '0' and 120 is 'x'. It takes off every such prefix.
unfoldable pub trim_0x : Bytes → Bytes
trim_0x [] = []
trim_0x (c ∷ []) = c ∷ []
trim_0x (c ∷ d ∷ rest) =
    let trimmed = trim_0x rest in if (c == 48) && (d == 120) then trimmed else c ∷ d ∷ rest

-- `parse::<u64>`.
abbrev pub parse_u64 : Bytes → Option ℕ
parse_u64 = parse_uint (2 ^ 64)

-- `(pool_denomination as u128 * relayer_fee_bps as u128) / 10000`.
abbrev pub expected_fee : ℕ → ℕ → ℕ
expected_fee pool_denomination relayer_fee_bps =
    pool_denomination * relayer_fee_bps % 2 ^ 128 / 10000

module _ ⦃crates : Decoders⦄ where
  open crates use {decode, is_public_key}

  unfoldable pub validate_hex : Bytes → ℕ → Checked HexError Bytes
  validate_hex hex_str expected_bytes = elim (decode (trim_0x hex_str)) [
    | none ↦ refuse invalid_hex
    | some bytes ↦
        if length bytes == expected_bytes
        then pass bytes
        else refuse (wrong_length expected_bytes (length bytes))
  ]

  abbrev pub validate_stellar_address : Bytes → Bool
  validate_stellar_address = is_public_key

  abbrev pub check_hex : Bytes → ℕ → Checked ValidationError Unit → Checked ValidationError Unit
  check_hex hex_str expected_bytes rest = elim (validate_hex hex_str expected_bytes) [
    | refuse e ↦ refuse (bad_hex e)
    | pass _ ↦ rest
  ]

  -- The checks of `validate_relay_request` past the hex strings.
  unfoldable pub check_payment : Bytes → Bytes → Bytes → ℕ → ℕ → Checked ValidationError Unit
  check_payment recipient fee pool_contract_id relayer_fee_bps pool_denomination =
      if not (validate_stellar_address recipient)
      then refuse invalid_address
      else elim (parse_u64 fee) [
        | none ↦ refuse invalid_fee
        | some fee_stroops ↦
            if fee_stroops == expected_fee pool_denomination relayer_fee_bps % 2 ^ 64
            then if length pool_contract_id == 0 then refuse missing_contract else pass tt
            else refuse (fee_mismatch (expected_fee pool_denomination relayer_fee_bps) fee_stroops)
      ]

  unfoldable pub validate_relay_request :
      Bytes → Bytes → Bytes → Bytes → Bytes → Bytes → ℕ → ℕ → Checked ValidationError Unit
  validate_relay_request proof_hex root_hex nullifier_hash_hex recipient fee pool_contract_id
        relayer_fee_bps pool_denomination =
      check_hex proof_hex 256 (
        check_hex root_hex 32 (
          check_hex nullifier_hash_hex 32
            (check_payment recipient fee pool_contract_id relayer_fee_bps pool_denomination)))
