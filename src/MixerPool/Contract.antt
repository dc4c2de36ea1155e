-- ===== src/MixerPool/Contract.antt =====
-- contracts/mixer_pool/src/lib.rs: the entry points of the contract and their helpers.
pub mod History
pub mod Deposit
pub mod Withdraw
pub mod Initialize
pub mod Fee
pub mod Listing
pub mod Overpriced
use caligo.Prelude.{
  ℕ, zero, suc, ◌+◌, ◌-◌, ◌/◌, ◌%◌, ◌^◌, Bool, true, false, ◌||◌, not, Option, none, some, List, [],
  ◌∷◌, ◌++◌, ite,
}
use caligo.Prelude.Tests.{ltb, leb, ◌==◌, if◌then◌else◌}
use caligo.Prelude.Lists.{length, take, replicate}
use caligo.Prelude.Int.{ℤ, pos, negsuc, ◌-ℤ◌, ltb_ℤ, leb_ℤ, in_i128}
use caligo.Prelude.Bytes.{Bytes, bytes_discrete}
use caligo.Prelude.Contract.{
  pure, gets, modify, err_if, trap_unless, add_u32, ok, trap, ◌>>=◌, ◌>>◌,
}
use caligo.Bn254.{Bn254}
use caligo.Soroban.{Soroban}
use caligo.MixerPool.Errors.{
  MixerError, already_initialized, duplicate_commitment, tree_full, invalid_root, nullifier_spent,
  invalid_proof, fee_too_high, invalid_denomination, invalid_tree_depth, invalid_root_history_size,
}
use caligo.MixerPool.Storage.{
  Act, Event, set_denomination, get_denomination, set_admin, set_tree_depth, get_tree_depth,
  set_next_leaf_index, get_next_leaf_index, set_root_history_size, get_root_history_size,
  set_root_history_index, get_root_history_index, set_max_fee, get_max_fee, set_initialized,
  is_initialized, set_root_history_entry, get_root_history_entry, set_nullifier_spent,
  is_nullifier_spent, set_commitment_inserted, is_commitment_inserted, set_token, get_token,
}
use caligo.MixerPool.Merkle.{insert_leaf, get_current_root}
use caligo.MixerPool.Verifier.{Build, verify_proof}

-- `1u32.checked_shl(depth).unwrap_or(u32::MAX)`.
unfoldable pub max_leaves : ℕ → ℕ
max_leaves depth = if ltb depth 32 then 2 ^ depth else 2 ^ 32 - 1

-- `fee as u128`: two's complement.
unfoldable pub as_u128 : ℤ → ℕ
as_u128 (pos n) = n
as_u128 (negsuc n) = 2 ^ 128 - 1 - n

-- `to_be_bytes` of an unsigned integer of so many bytes.
unfoldable pub to_be_bytes : ℕ → ℕ → Bytes
to_be_bytes zero n = []
to_be_bytes (suc width) n = to_be_bytes width (n / 256) ++ ((n % 256) ∷ [])

-- `fee_bytes`: the 16 bytes of the fee in `fee_bytes[16..32]`.
unfoldable pub fee_to_bytes : ℤ → Bytes
unfolding as_u128 to_be_bytes
fee_to_bytes fee = replicate 16 0 ++ to_be_bytes 16 (as_u128 fee)

-- `if let Some(stored_root) = entry { if stored_root == *root`.
abbrev pub holds : Option Bytes → Bytes → Bool
holds none root = false
holds (some stored_root) root = ite (bytes_discrete stored_root root) true false

module _ ⦃host : Soroban⦄ where
  open host use {Address, to_strkey, sha256, transfer}

  abbrev pub require_auth : Address → Act (Unit {0})
  require_auth address e = trap_unless (e.authorized address) e

  -- `token_client.transfer(from, to, amount)`.
  unfoldable pub token_transfer : Address → Address → Address → ℤ → Act (Unit {0})
  token_transfer token from to amount e = elim (transfer token from to amount e.ledger) [
    | none ↦ trap
    | some ledger ↦ ok tt (record e { ledger = ledger })
  ]

  abbrev pub publish : Event → Act (Unit {0})
  publish event = modify (λ e. record e { events = e.events ++ (event ∷ []) })

  -- i128 subtraction with the overflow check of the release profile.
  abbrev pub sub_i128 : ℤ → ℤ → Act ℤ
  sub_i128 a b e = if in_i128 (a -ℤ b) then ok (a -ℤ b) e else trap

  -- `(a + 1) % size` on u32; the remainder by zero traps.
  abbrev pub next_mod : ℕ → ℕ → Act ℕ
  next_mod a size = do sum ← add_u32 a 1; trap_unless (not (size == 0)); pure (sum % size)

  unfoldable pub push_root_history : Bytes → Act (Unit {0})
  push_root_history root = do
    history_size ← get_root_history_size
    current_index ← get_root_history_index
    set_root_history_entry current_index root
    next_index ← next_mod current_index history_size
    set_root_history_index next_index

  -- The loop of `is_known_root` from i on, with so many rounds left.
  unfoldable pub known_from : ℕ → ℕ → Bytes → Act Bool
  known_from zero i root = pure false
  known_from (suc rounds) i root = do
    entry ← get_root_history_entry i
    elim (holds entry root) [ true ↦ pure true | false ↦ known_from rounds (i + 1) root ]

  unfoldable pub is_known_root : Bytes → Act Bool
  unfolding known_from
  is_known_root root = do history_size ← get_root_history_size; known_from history_size 0 root

  -- The loop of `get_root_history` from i on, with so many rounds left.
  unfoldable pub roots_from : ℕ → ℕ → List Bytes → Act (List Bytes)
  roots_from zero i roots = pure roots
  roots_from (suc rounds) i roots = do
    entry ← get_root_history_entry i
    roots_from rounds (i + 1) (elim entry [ none ↦ roots | some root ↦ roots ++ (root ∷ []) ])

  unfoldable pub get_root_history : Act (List Bytes)
  unfolding roots_from
  get_root_history = do history_size ← get_root_history_size; roots_from history_size 0 []

  -- `copy_into_slice` traps where the lengths differ, so a text of more than 56 bytes is refused.
  unfoldable pub address_to_field_bytes : Address → Act Bytes
  address_to_field_bytes address = do
    let addr_str = to_strkey address
    let copy_len = if ltb 56 (length addr_str) then 56 else length addr_str
    trap_unless (copy_len == length addr_str)
    pure (sha256 (take copy_len addr_str))

  unfoldable pub build_public_inputs : Bytes → Bytes → Address → Address → ℤ → Act (List Bytes)
  build_public_inputs root nullifier_hash recipient relayer fee = do
    recipient_bytes ← address_to_field_bytes recipient
    relayer_bytes ← address_to_field_bytes relayer
    pure (root ∷ nullifier_hash ∷ recipient_bytes ∷ relayer_bytes ∷ fee_to_bytes fee ∷ [])

  -- `if fee > 0 { token_client.transfer(…) }`.
  unfoldable pub pay_fee : Address → Address → ℤ → Act (Unit {0})
  unfolding token_transfer
  pay_fee token relayer fee e =
      if ltb_ℤ (pos 0) fee then token_transfer token e.contract_address relayer fee e else ok tt e

  unfoldable pub execute_withdrawal : Bytes → Address → Address → ℤ → Act (Unit {0})
  execute_withdrawal nullifier_hash recipient relayer fee = do
    set_nullifier_spent nullifier_hash
    denomination ← get_denomination
    token ← get_token
    withdrawal_amount ← sub_i128 denomination fee
    contract ← gets (λ e. e.contract_address)
    token_transfer token contract recipient withdrawal_amount
    pay_fee token relayer fee
    publish (Event.withdrawal nullifier_hash)

module _ ⦃bn : Bn254⦄ ⦃host : Soroban⦄ where
  open host use {Address}

  unfoldable pub initialize : Address → Address → ℤ → ℤ → ℕ → ℕ → Act (Unit {0})
  initialize admin token denomination max_fee tree_depth root_history_size = do
    initialized ← is_initialized
    err_if initialized already_initialized
    err_if (leb_ℤ denomination (pos 0)) invalid_denomination
    err_if (tree_depth == 0 || ltb 32 tree_depth) invalid_tree_depth
    err_if (root_history_size == 0) invalid_root_history_size
    require_auth admin
    set_admin admin
    set_token token
    set_denomination denomination
    set_max_fee max_fee
    set_tree_depth tree_depth
    set_root_history_size root_history_size
    set_next_leaf_index 0
    set_root_history_index 0
    initial_root ← get_current_root
    push_root_history initial_root
    set_initialized

  unfoldable pub deposit : Address → Bytes → Act (Unit {0})
  deposit depositor commitment = do
    require_auth depositor
    inserted ← is_commitment_inserted commitment
    err_if inserted duplicate_commitment
    next_index ← get_next_leaf_index
    depth ← get_tree_depth
    err_if (leb (max_leaves depth) next_index) tree_full
    denomination ← get_denomination
    token ← get_token
    contract ← gets (λ e. e.contract_address)
    token_transfer token depositor contract denomination
    set_commitment_inserted commitment
    new_root ← insert_leaf commitment
    push_root_history new_root
    publish (Event.deposit commitment next_index)

  unfoldable pub get_root : Act Bytes
  get_root = get_current_root

module _ ⦃bn : Bn254⦄ ⦃host : Soroban⦄ ⦃build : Build⦄ where
  open host use {Address}

  unfoldable pub withdraw : Bytes → Bytes → Bytes → Address → Address → ℤ → Act (Unit {0})
  withdraw proof root nullifier_hash recipient relayer fee = do
    known ← is_known_root root
    err_if (not known) invalid_root
    spent ← is_nullifier_spent nullifier_hash
    err_if spent MixerError.nullifier_spent
    -- `fee < 0 || fee > get_max_fee(&env)`: the second operand is read only if the first fails.
    err_if (ltb_ℤ fee (pos 0)) fee_too_high
    max_fee ← get_max_fee
    err_if (ltb_ℤ max_fee fee) fee_too_high
    public_inputs ← build_public_inputs root nullifier_hash recipient relayer fee
    err_if (not (verify_proof proof public_inputs)) invalid_proof
    execute_withdrawal nullifier_hash recipient relayer fee
