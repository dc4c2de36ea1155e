-- ===== src/MixerPool/Contract/Overpriced.antt =====
-- `withdraw` of contracts/mixer_pool/src/lib.rs with a fee above the denomination, which
-- `initialize` does not rule out.
use caligo.Prelude.{ℕ, ◌+◌, ◌-◌, ◌≡◌, ap, ◌∙◌, true, false, ◌&&◌, none, arith}
use caligo.Prelude.Lists.{take}
use caligo.Prelude.Int.{ℤ, pos, negsuc, pos_part, neg_part, ◌-ℤ◌, ltb_ℤ}
use caligo.Prelude.Bytes.{Bytes, contains}
use caligo.Prelude.Contract.{trap}
use caligo.Bn254.{Bn254}
use caligo.Soroban.{Soroban}
use caligo.MixerPool.Storage.{Env}
use caligo.MixerPool.Verifier.{Build, verify_proof}
use caligo.MixerPool.Contract.{withdraw}
use caligo.MixerPool.Contract.Withdraw.{withdraw_checks, execute_withdrawal_unpaid}
use caligo.MixerPool.Spec.{Config, IsConfig, Pool, past_roots, is_strkey, public_inputs, pay_out}
use caligo.MixerPool.Spec.Represents.{Represents}
use caligo.MixerPool.Runs.Solvency.{TokenLaws}

below_zero : (a b : ℤ) → ltb_ℤ a b ≡ true → (n : ℕ) × (a -ℤ b ≡ negsuc n)
unfolding ◌-ℤ◌
below_zero a b less = ((neg_part a + pos_part b) - (pos_part a + neg_part b) - 1, ground arith)

module _ ⦃bn : Bn254⦄ ⦃host : Soroban⦄ ⦃build : Build⦄ (laws : TokenLaws) where
  unpaid :
      (c : Config) (recipient relayer : host.Address) (fee : ℤ) (ledger : host.Ledger)
      → ltb_ℤ c.denomination fee ≡ true
      → pay_out c recipient relayer fee ledger ≡ none
  unfolding pay_out
  unpaid c recipient relayer fee ledger high =
      let (n, negative) = below_zero c.denomination fee high in
      let refused : host.transfer c.token c.contract_address recipient (c.denomination -ℤ fee)
            ledger
          ≡ none =
        ap (λ amount. host.transfer c.token c.contract_address recipient amount ledger) negative
        ∙ laws.nonneg c.token c.contract_address recipient n ledger in
      ground (arith, refused)

  -- If the token obeys `TokenLaws`, then on a state that represents a pool with valid
  -- parameters, a withdrawal with a fee not negative, within the maximum and above the
  -- denomination, for which all other checks pass, ends with a trap.
  pub withdraw-overpriced :
      (proof root nullifier_hash : Bytes) (recipient relayer : host.Address) (fee : ℤ) {c : Config}
      {p : Pool} {e : Env}
      → IsConfig c
      → Represents c p e
      → contains (take c.root_history_size (past_roots c.tree_depth p.leaves)) root ≡ true
      → contains p.spent nullifier_hash ≡ false
      → ltb_ℤ fee (pos 0) ≡ false
      → ltb_ℤ c.max_fee fee ≡ false
      → ltb_ℤ c.denomination fee ≡ true
      → is_strkey recipient && is_strkey relayer ≡ true
      → verify_proof proof (public_inputs root nullifier_hash recipient relayer fee) ≡ true
      → withdraw proof root nullifier_hash recipient relayer fee e ≡ trap
  withdraw-overpriced proof root nullifier_hash recipient relayer fee {c} {p} {e} valid r known
        fresh low fair high texts proved =
      ground (
        arith,
        withdraw_checks proof root nullifier_hash recipient relayer fee valid r,
        execute_withdrawal_unpaid nullifier_hash recipient relayer fee valid r low fair
            (unpaid c recipient relayer fee p.ledger high),
      )
