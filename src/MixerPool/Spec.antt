-- ===== src/MixerPool/Spec.antt =====
-- What the mixer pool promises, with no storage: the commitments in order, the spent nullifiers,
-- and the last roots of the tree of the commitments. It describes the contract, and is no code.
pub mod Represents
pub mod Ages
use Prim.Native.Nat.{min}
use caligo.Prelude.{
  ℕ, ◌+◌, ◌-◌, ◌^◌, ◌≤◌, ◌<◌, ◌≡◌, Bool, true, ◌&&◌, ◌||◌, Option, none, some, List, [], ◌∷◌, ◌++◌,
}
use caligo.Prelude.Tests.{leb, if◌then◌else◌}
use caligo.Prelude.Lists.{length, take}
use caligo.Prelude.Int.{ℤ, pos, ◌-ℤ◌, ◌≤ℤ◌, ltb_ℤ, in_i128}
use caligo.Prelude.Bytes.{Bytes, contains}
use caligo.Prelude.Contract.{Outcome, ok, err, trap}
use caligo.Bn254.{Bn254}
use caligo.Soroban.{Soroban}
use caligo.MixerPool.Errors.{
  MixerError, duplicate_commitment, tree_full, invalid_root, nullifier_spent, invalid_proof,
  fee_too_high,
}
use caligo.MixerPool.Storage.{Event}
use caligo.MixerPool.Merkle.Refine.{tree_node}
use caligo.MixerPool.Verifier.{Build, verify_proof}
use caligo.MixerPool.Contract.{fee_to_bytes}

-- At most as many leaves as the tree holds, and as a `u32` counts.
abbrev pub capacity : ℕ → ℕ
capacity depth = min (2 ^ depth) (2 ^ 32 - 1)

module _ ⦃bn : Bn254⦄ (depth : ℕ) where
  -- The roots of the tree as it grew by `rest` from `done`, newest first.
  unfoldable pub roots_from_prefix : List Bytes → List Bytes → List Bytes → List Bytes
  roots_from_prefix done [] older = tree_node done depth 0 ∷ older
  roots_from_prefix done (x ∷ rest) older =
      roots_from_prefix (done ++ (x ∷ [])) rest (tree_node done depth 0 ∷ older)

  -- The root of the empty tree and the root after each deposit, newest first.
  abbrev pub past_roots : List Bytes → List Bytes
  past_roots leaves = roots_from_prefix [] leaves []

module _ ⦃host : Soroban⦄ where
  open host use {Address, Ledger, to_strkey, sha256}

  pub record Config : Type 0 where
    pub denomination : ℤ
    pub token : Address
    pub max_fee : ℤ
    pub tree_depth : ℕ
    pub root_history_size : ℕ
    pub contract_address : Address

  pub record Pool : Type 0 where
    pub leaves : List Bytes
    -- Newest first.
    pub spent : List Bytes
    pub ledger : Ledger
    pub events : List Event

  -- What `initialize` accepts, with the ranges of the machine's integers.
  pub record IsConfig (c : Config) : Type 0 where
    pub denomination_pos : pos 1 ≤ℤ c.denomination
    pub denomination_fits : in_i128 c.denomination ≡ true
    pub max_fee_fits : in_i128 c.max_fee ≡ true
    pub depth_pos : 1 ≤ c.tree_depth
    pub depth_le : c.tree_depth ≤ 32
    pub history_pos : 1 ≤ c.root_history_size
    pub history_fits : c.root_history_size < 2 ^ 32

  abbrev pub Promise : Type 0
  Promise = Outcome Pool MixerError (Unit {0})

  -- The circuit's view of an address, and the texts that the contract can take.
  abbrev pub is_strkey : Address → Bool
  is_strkey address = leb (length (to_strkey address)) 56

  abbrev pub public_inputs : Bytes → Bytes → Address → Address → ℤ → List Bytes
  public_inputs root nullifier_hash recipient relayer fee =
      root
      ∷ nullifier_hash
      ∷ sha256 (to_strkey recipient)
      ∷ sha256 (to_strkey relayer)
      ∷ fee_to_bytes fee
      ∷ []

module _ ⦃host : Soroban⦄ (c : Config) where
  open host use {Address, Ledger, transfer}

  -- The recipient gets the denomination less the fee, the relayer the fee, if there is one.
  unfoldable pub pay_out : Address → Address → ℤ → Ledger → Option Ledger
  pay_out recipient relayer fee ledger =
      elim (transfer c.token c.contract_address recipient (c.denomination -ℤ fee) ledger) [
        | none ↦ none
        | some ledger' ↦
            if ltb_ℤ (pos 0) fee
            then transfer c.token c.contract_address relayer fee ledger'
            else some ledger'
      ]

  -- A withdrawal whose checks have passed.
  unfoldable pub settle : Bytes → Address → Address → ℤ → Pool → Promise
  unfolding pay_out
  settle nullifier_hash recipient relayer fee p = elim (pay_out recipient relayer fee p.ledger) [
    | none ↦ trap
    | some ledger ↦ ok tt (record p {
      spent = nullifier_hash ∷ p.spent;
      ledger = ledger;
      events = p.events ++ (Event.withdrawal nullifier_hash ∷ []);
    })
  ]

module _ ⦃host : Soroban⦄ (c : Config) (authorized : host.Address → Bool) where
  open host use {Address, Ledger, transfer}

  unfoldable pub spec_deposit : Address → Bytes → Pool → Promise
  spec_deposit depositor commitment p =
      if authorized depositor
      then if contains p.leaves commitment
        then err duplicate_commitment
        else if leb (capacity c.tree_depth) (length p.leaves)
        then err tree_full
        else elim (transfer c.token depositor c.contract_address c.denomination p.ledger) [
          | none ↦ trap
          | some ledger ↦ ok tt (record p {
            leaves = p.leaves ++ (commitment ∷ []);
            ledger = ledger;
            events = p.events ++ (Event.deposit commitment (length p.leaves) ∷ []);
          })
        ]
      else trap

module _ ⦃bn : Bn254⦄ ⦃host : Soroban⦄ ⦃build : Build⦄ (c : Config) where
  open host use {Address}

  unfoldable pub spec_withdraw : Bytes → Bytes → Bytes → Address → Address → ℤ → Pool → Promise
  spec_withdraw proof root nullifier_hash recipient relayer fee p =
      if contains (take c.root_history_size (past_roots c.tree_depth p.leaves)) root
      then if contains p.spent nullifier_hash
        then err nullifier_spent
        else if ltb_ℤ fee (pos 0) || ltb_ℤ c.max_fee fee
        then err fee_too_high
        else if is_strkey recipient && is_strkey relayer
        then if verify_proof proof (public_inputs root nullifier_hash recipient relayer fee)
          then settle c nullifier_hash recipient relayer fee p
          else err invalid_proof
        else trap
      else err invalid_root
