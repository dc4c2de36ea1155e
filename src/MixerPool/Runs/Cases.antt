-- ===== src/MixerPool/Runs/Cases.antt =====
-- A call of the specified pool changes nothing, or is an accepted deposit or withdrawal.
use caligo.Prelude.{◌≡◌, Bool, false, ◌||◌, ◌&&◌, ◌⊎◌, inl, inr, some, [], ◌∷◌, ◌++◌, arith}
use caligo.Prelude.Tests.{leb, Bool-cases, Option-cases}
use caligo.Prelude.Lists.{length, take}
use caligo.Prelude.Int.{ℤ, pos, ltb_ℤ}
use caligo.Prelude.Bytes.{Bytes, contains}
use caligo.Bn254.{Bn254}
use caligo.Soroban.{Soroban}
use caligo.MixerPool.Storage.{Event}
use caligo.MixerPool.Verifier.{Build, verify_proof}
use caligo.MixerPool.Spec.{
  Config, Pool, capacity, past_roots, is_strkey, public_inputs, pay_out, settle, spec_deposit,
  spec_withdraw,
}
use caligo.MixerPool.Runs.{pool_after}

module _ ⦃host : Soroban⦄ (c : Config) where
  abbrev pub grown : Pool → Bytes → host.Ledger → Pool
  grown p x ledger = record p {
    leaves = p.leaves ++ (x ∷ []);
    ledger = ledger;
    events = p.events ++ (Event.deposit x (length p.leaves) ∷ []);
  }

  abbrev pub settled : Pool → Bytes → host.Ledger → Pool
  settled p n ledger = record p {
    spent = n ∷ p.spent;
    ledger = ledger;
    events = p.events ++ (Event.withdrawal n ∷ []);
  }

  pub spec_deposit_cases :
      (authorized : host.Address → Bool) (depositor : host.Address) (x : Bytes) (p : Pool)
      → let q = pool_after p (spec_deposit c authorized depositor x p) in
        (q ≡ p)
        ⊎ ((ledger : host.Ledger) × (contains p.leaves x ≡ false)
            × (host.transfer c.token depositor c.contract_address c.denomination p.ledger
                ≡ some ledger)
            × (q ≡ grown p x ledger))
  unfolding spec_deposit
  spec_deposit_cases authorized depositor x p = elim (Bool-cases (authorized depositor)) [
    | inr no_auth ↦ inl (ground arith)
    | inl auth ↦ elim (Bool-cases (contains p.leaves x)) [
      | inl old ↦ inl (ground arith)
      | inr new ↦ elim (Bool-cases (leb (capacity c.tree_depth) (length p.leaves))) [
        | inl full ↦ inl (ground arith)
        | inr free ↦
            elim (Option-cases
              (host.transfer c.token depositor c.contract_address c.denomination p.ledger)) [
                | inl unpaid ↦ inl (ground arith)
                | inr (ledger, paid) ↦ inr (ledger, new, paid, ground arith)
              ]
      ]
    ]
  ]

module _ ⦃bn : Bn254⦄ ⦃host : Soroban⦄ ⦃build : Build⦄ (c : Config) where
  pub spec_withdraw_cases :
      (proof root n : Bytes) (recipient relayer : host.Address) (fee : ℤ) (p : Pool)
      → let q = pool_after p (spec_withdraw c proof root n recipient relayer fee p) in
        (q ≡ p)
        ⊎ ((ledger : host.Ledger) × (contains p.spent n ≡ false)
            × (pay_out c recipient relayer fee p.ledger ≡ some ledger)
            × (ltb_ℤ fee (pos 0) ≡ false)
            × (q ≡ settled c p n ledger))
  unfolding spec_withdraw settle
  spec_withdraw_cases proof root n recipient relayer fee p =
      elim (Bool-cases
        (contains (take c.root_history_size (past_roots c.tree_depth p.leaves)) root)) [
          | inr unknown ↦ inl (ground arith)
          | inl known ↦ elim (Bool-cases (contains p.spent n)) [
            | inl old ↦ inl (ground arith)
            | inr new ↦ elim (Bool-cases (ltb_ℤ fee (pos 0) || ltb_ℤ c.max_fee fee)) [
              | inl unfair ↦ inl (ground arith)
              | inr fair ↦ elim (Bool-cases (is_strkey recipient && is_strkey relayer)) [
                | inr odd ↦ inl (ground arith)
                | inl texts ↦
                    elim (Bool-cases
                      (verify_proof proof (public_inputs root n recipient relayer fee))) [
                        | inr refuted ↦ inl (ground arith)
                        | inl proved ↦
                            elim (Option-cases (pay_out c recipient relayer fee p.ledger)) [
                              | inl unpaid ↦ inl (ground arith)
                              | inr (ledger, paid) ↦
                                  inr (ledger, new, paid, ground arith, ground arith)
                            ]
                      ]
              ]
            ]
          ]
        ]
