-- ===== src/MixerPool/Contract/Withdraw.antt =====
-- `withdraw` of contracts/mixer_pool/src/lib.rs beside the specification.
use caligo.Prelude.{
  ◌≡◌, refl, ap, Bool, true, false, ◌&&◌, ◌||◌, some, none, [], ◌∷◌, ◌++◌, arith, inl, inr,
}
use caligo.Prelude.Tests.{if◌then◌else◌, Bool-cases, Option-cases}
use caligo.Prelude.Lists.{length, take}
use caligo.Prelude.Int.{ℤ, pos, ◌-ℤ◌, ◌≤ℤ◌, ltb_ℤ, in_i128}
use caligo.Prelude.Bytes.{Bytes, contains, bytes_discrete, update}
use caligo.Prelude.Contract.{ok, err, trap}
use caligo.Bn254.{Bn254}
use caligo.Soroban.{Soroban}
use caligo.MixerPool.Errors.{invalid_root, nullifier_spent, invalid_proof, fee_too_high}
use caligo.MixerPool.Storage.{Env, Event}
use caligo.MixerPool.Verifier.{Build, verify_proof}
use caligo.MixerPool.Contract.{
  withdraw, is_known_root, address_to_field_bytes, build_public_inputs, execute_withdrawal, pay_fee,
  token_transfer,
}
use caligo.MixerPool.Contract.History.{is_known_root_lem}
use caligo.MixerPool.Spec.{
  Config, IsConfig, Pool, past_roots, is_strkey, public_inputs, pay_out, settle, spec_withdraw,
}
use caligo.MixerPool.Spec.Represents.{
  Represents, Refines, succeeds, fails, traps, Refines-eq, ring_index,
}

-- The amount that a recipient gets is an `i128`: the checked subtraction does not trap.
pub payout_fits :
    (denomination fee max_fee : ℤ)
    → pos 1 ≤ℤ denomination
    → in_i128 denomination ≡ true
    → in_i128 max_fee ≡ true
    → ltb_ℤ fee (pos 0) ≡ false
    → ltb_ℤ max_fee fee ≡ false
    → in_i128 (denomination -ℤ fee) ≡ true
unfolding ◌-ℤ◌
payout_fits denomination fee max_fee p f g l u = ground arith

take-length : (xs : Bytes) → take (length xs) xs ≡ xs
take-length [] = refl
take-length (x ∷ xs) = ap (◌∷◌ x) (take-length xs)

module _ ⦃host : Soroban⦄ where
  open host use {Address, to_strkey, sha256}

  address_to_field_bytes_lem :
      (a : Address) (e : Env)
      → address_to_field_bytes a e ≡ (if is_strkey a then ok (sha256 (to_strkey a)) e else trap)
  unfolding address_to_field_bytes
  address_to_field_bytes_lem a e = ground (arith, take-length (to_strkey a))

  build_public_inputs_lem :
      (root nullifier_hash : Bytes) (recipient relayer : Address) (fee : ℤ) (e : Env)
      → build_public_inputs root nullifier_hash recipient relayer fee e ≡ (
          if is_strkey recipient && is_strkey relayer
          then ok (public_inputs root nullifier_hash recipient relayer fee) e
          else trap)
  unfolding build_public_inputs
  build_public_inputs_lem root nullifier_hash recipient relayer fee e =
      ground (arith, address_to_field_bytes_lem recipient e, address_to_field_bytes_lem relayer e)

module _ ⦃bn : Bn254⦄ ⦃host : Soroban⦄ {c : Config} (nullifier_hash : Bytes)
    (recipient relayer : host.Address) (fee : ℤ) {p : Pool} {e : Env} (valid : IsConfig c)
    (r : Represents c p e) where
  withdrawn : host.Ledger → Env
  withdrawn ledger = record e {
    ledger = ledger;
    events = e.events ++ (Event.withdrawal nullifier_hash ∷ []);
    storage = record (e.storage) {
      nullifier_spent = update bytes_discrete e.nullifier_spent nullifier_hash true;
    };
  }

  withdrawn-Represents :
      (ledger : host.Ledger)
      → Represents c
          (record p {
            spent = nullifier_hash ∷ p.spent;
            ledger = ledger;
            events = p.events ++ (Event.withdrawal nullifier_hash ∷ []);
          })
          (withdrawn ledger)
  unfolding withdrawn contains
  withdrawn-Represents ledger = record {
    initialized = r.initialized;
    denomination = r.denomination;
    token = r.token;
    max_fee = r.max_fee;
    tree_depth = r.tree_depth;
    root_history_size = r.root_history_size;
    contract_address = r.contract_address;
    next_leaf_index = r.next_leaf_index;
    room = r.room;
    nodes = r.nodes;
    commitments = r.commitments;
    nullifiers = λ y. ground (arith, r.nullifiers y);
    ring_bound = r.ring_bound;
    ring = r.ring;
    ledger = refl;
    events = ap (λ es. es ++ (Event.withdrawal nullifier_hash ∷ [])) r.events;
  }

  module _ (low : ltb_ℤ fee (pos 0) ≡ false) (high : ltb_ℤ c.max_fee fee ≡ false) where
    pub execute_withdrawal_unpaid :
        pay_out c recipient relayer fee p.ledger ≡ none
        → execute_withdrawal nullifier_hash recipient relayer fee e ≡ trap
    unfolding pay_out execute_withdrawal pay_fee token_transfer
    execute_withdrawal_unpaid h = ground (
      arith,
      payout_fits c.denomination fee c.max_fee valid.denomination_pos valid.denomination_fits
          valid.max_fee_fits low high,
    )

    execute_withdrawal_paid :
        (ledger : host.Ledger)
        → pay_out c recipient relayer fee p.ledger ≡ some ledger
        → execute_withdrawal nullifier_hash recipient relayer fee e ≡ ok tt (withdrawn ledger)
    unfolding pay_out execute_withdrawal pay_fee token_transfer withdrawn
    execute_withdrawal_paid ledger h = ground (
      arith,
      payout_fits c.denomination fee c.max_fee valid.denomination_pos valid.denomination_fits
          valid.max_fee_fits low high,
    )

    -- Once the checks have passed, the nullifier is marked and the payments are made, or the call
    -- traps with neither.
    pub execute_withdrawal-Refines :
        Refines c
          (execute_withdrawal nullifier_hash recipient relayer fee e)
          (settle c nullifier_hash recipient relayer fee p)
    unfolding settle
    execute_withdrawal-Refines = elim (Option-cases (pay_out c recipient relayer fee p.ledger)) [
      | inl unpaid ↦ traps (execute_withdrawal_unpaid unpaid) (ground arith)
      | inr (ledger, paid) ↦
          succeeds (execute_withdrawal_paid ledger paid) (ground arith)
            (withdrawn-Represents ledger)
    ]

module _ ⦃bn : Bn254⦄ ⦃host : Soroban⦄ ⦃build : Build⦄ {c : Config}
    (proof root nullifier_hash : Bytes) (recipient relayer : host.Address) (fee : ℤ) {p : Pool}
    {e : Env} (valid : IsConfig c) (r : Represents c p e) where
  known :
      is_known_root root e
      ≡ ok (contains (take c.root_history_size (past_roots c.tree_depth p.leaves)) root) e
  known =
      is_known_root_lem (past_roots c.tree_depth p.leaves) root c.root_history_size (ring_index e) e
        r.root_history_size r.ring_bound r.ring

  abbrev pub accepts : Bool
  accepts = verify_proof proof (public_inputs root nullifier_hash recipient relayer fee)

  -- The checks of `withdraw` in their order; past the last one the withdrawal is executed.
  pub withdraw_checks : withdraw proof root nullifier_hash recipient relayer fee e ≡ (
      if contains (take c.root_history_size (past_roots c.tree_depth p.leaves)) root
      then if contains p.spent nullifier_hash
        then err nullifier_spent
        else if ltb_ℤ fee (pos 0) || ltb_ℤ c.max_fee fee
        then err fee_too_high
        else if is_strkey recipient && is_strkey relayer
        then if accepts
          then execute_withdrawal nullifier_hash recipient relayer fee e
          else err invalid_proof
        else trap
      else err invalid_root)
  unfolding withdraw
  withdraw_checks = ground (
    arith,
    known,
    r.nullifiers nullifier_hash,
    build_public_inputs_lem root nullifier_hash recipient relayer fee e,
  )

  -- For every state of the contract that represents a pool with valid parameters, `withdraw`
  -- ends as `spec_withdraw` says: with the error of the first check that fails (root not among
  -- the last roots, nullifier hash spent, fee negative or above the maximum, proof refused for
  -- the inputs of the call), with a trap where an address text is too long or a payment fails,
  -- and else with a state that represents the pool with the nullifier hash spent, the recipient
  -- and the relayer paid and the event recorded.
  pub withdraw-Refines :
      Refines c
        (withdraw proof root nullifier_hash recipient relayer fee e)
        (spec_withdraw c proof root nullifier_hash recipient relayer fee p)
  unfolding spec_withdraw
  withdraw-Refines =
      elim (Bool-cases
        (contains (take c.root_history_size (past_roots c.tree_depth p.leaves)) root)) [
          | inr unknown ↦ fails invalid_root (ground (arith, withdraw_checks)) (ground arith)
          | inl in_window ↦ elim (Bool-cases (contains p.spent nullifier_hash)) [
            | inl spent ↦ fails nullifier_spent (ground (arith, withdraw_checks)) (ground arith)
            | inr fresh ↦ elim (Bool-cases (ltb_ℤ fee (pos 0) || ltb_ℤ c.max_fee fee)) [
              | inl unfair ↦ fails fee_too_high (ground (arith, withdraw_checks)) (ground arith)
              | inr fair ↦ elim (Bool-cases (is_strkey recipient && is_strkey relayer)) [
                | inr odd ↦ traps (ground (arith, withdraw_checks)) (ground arith)
                | inl texts ↦ elim (Bool-cases accepts) [
                  | inr refuted ↦
                      fails invalid_proof (ground (arith, withdraw_checks)) (ground arith)
                  | inl proved ↦ Refines-eq (ground (arith, withdraw_checks)) (ground arith) (
                      execute_withdrawal-Refines nullifier_hash recipient relayer fee valid r
                        (ground arith) (ground arith))
                ]
              ]
            ]
          ]
        ]
