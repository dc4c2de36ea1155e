-- ===== src/MixerPool/Runs/Aliasing.antt =====
-- `withdraw` keeps spent nullifier hashes as bytes, and the verifier of
-- contracts/mixer_pool/src/verifier.rs reads them modulo the order of the scalar field.
use mathlib.Core.Path.{subst}
use caligo.Prelude.{◌≡◌, ◌≢◌, ap, ◌∙◌, true, false, ◌||◌, ◌&&◌, List, [], ◌∷◌, map, arith, inl, inr}
use caligo.Prelude.Tests.{Option-cases}
use caligo.Prelude.Lists.{take}
use caligo.Prelude.Int.{ℤ, pos, ltb_ℤ}
use caligo.Prelude.Bytes.{Bytes, contains}
use caligo.Prelude.Contract.{ok}
use caligo.Bn254.{Bn254}
use caligo.Soroban.{Soroban}
use caligo.MixerPool.Storage.{Env}
use caligo.MixerPool.Verifier.{Build, verify_proof, input_to_fr, check_pairing}
use caligo.MixerPool.Contract.{withdraw, execute_withdrawal, fee_to_bytes}
use caligo.MixerPool.Contract.Withdraw.{withdraw_checks, execute_withdrawal-Refines}
use caligo.MixerPool.Spec.{
  Config, IsConfig, Pool, Promise, past_roots, is_strkey, public_inputs, pay_out, settle,
}
use caligo.MixerPool.Spec.Represents.{Result, Represents, Refines, succeeds, fails, traps}

module _ ⦃bn : Bn254⦄ ⦃build : Build⦄ where
  -- The verifier sees its inputs only as elements of the scalar field.
  pub verify_proof-input_to_fr :
      (proof : Bytes) (xs ys : List Bytes)
      → map input_to_fr xs ≡ map input_to_fr ys
      → verify_proof proof xs ≡ verify_proof proof ys
  unfolding verify_proof check_pairing
  verify_proof-input_to_fr proof xs ys h = ground arith

module _ ⦃host : Soroban⦄ where
  -- What a settled withdrawal has kept and added.
  settle-eq_ok :
      (c : Config) (n : Bytes) (recipient relayer : host.Address) (fee : ℤ) (p p' : Pool)
      → settle c n recipient relayer fee p ≡ ok tt p'
      → (p'.leaves ≡ p.leaves) × (p'.spent ≡ n ∷ p.spent)
  unfolding settle
  settle-eq_ok c n recipient relayer fee p p' h =
      elim (Option-cases (pay_out c recipient relayer fee p.ledger)) [
        | inl unpaid ↦ ground arith
        | inr (ledger, paid) ↦ ground arith
      ]

cons_fresh :
    (n m : Bytes) (spent : List Bytes)
    → m ≢ n
    → contains spent m ≡ false
    → contains (n ∷ spent) m ≡ false
unfolding contains
cons_fresh n m spent ne fresh = ground arith

module _ ⦃bn : Bn254⦄ ⦃host : Soroban⦄ where
  -- The pool that a call which succeeded has left.
  executed_pool :
      {c : Config} {a : Result} {b : Promise} {e' : Env} {P : Pool → Type 0}
      → Refines c a b
      → a ≡ ok tt e'
      → ((p' : Pool) → b ≡ ok tt p' → P p')
      → (p' : Pool) × Represents c p' e' × P p'
  executed_pool {c} (succeeds {e = e₁} {p = p'} h k rep) g f =
      (p', subst (Represents c p') (let same : e₁ ≡ _ = cc in same) rep, f p' k)
  executed_pool (fails x h k) g f = cc
  executed_pool (traps h k) g f = cc

module _ ⦃bn : Bn254⦄ ⦃host : Soroban⦄ ⦃build : Build⦄ {c : Config} (proof root n m : Bytes)
    (recipient relayer : host.Address) (fee : ℤ) {p : Pool} {e : Env} (valid : IsConfig c)
    (r : Represents c p e) where
  open host use {to_strkey, sha256}

  -- If a withdrawal has succeeded on a state that represents a pool with valid parameters, then
  -- in the state it left the same proof passes all checks again under another byte string for
  -- the same field element, as long as that string has not been spent itself: the call is then
  -- the payment.
  pub withdraw_aliased :
      (e' : Env)
      → withdraw proof root n recipient relayer fee e ≡ ok tt e'
      → input_to_fr m ≡ input_to_fr n
      → m ≢ n
      → contains p.spent m ≡ false
      → withdraw proof root m recipient relayer fee e'
        ≡ execute_withdrawal m recipient relayer fee e'
  withdraw_aliased e' done same ne fresh =
      let (known, fair, texts, accepted, executed) = passed in
      let (p', r', (leaves, spent)) =
        executed_pool
          (execute_withdrawal-Refines n recipient relayer fee valid r (ground arith) (ground arith))
          executed (settle-eq_ok c n recipient relayer fee p) in
      let window : contains (take c.root_history_size (past_roots c.tree_depth p'.leaves)) root
          ≡ true =
        rw leaves known in
      let unspent : contains p'.spent m ≡ false = rw spent (cons_fresh n m p.spent ne fresh) in
      let again : verify_proof proof (public_inputs root m recipient relayer fee) ≡ true =
        verify_proof-input_to_fr proof _ _ (
          ap
            (λ x.
              input_to_fr root
              ∷ x
              ∷ map input_to_fr (
                  sha256 (to_strkey recipient)
                  ∷ sha256 (to_strkey relayer)
                  ∷ fee_to_bytes fee
                  ∷ []))
            same)
        ∙ accepted in
      ground (arith, withdraw_checks proof root m recipient relayer fee valid r')
    where
      passed :
          (contains (take c.root_history_size (past_roots c.tree_depth p.leaves)) root ≡ true)
          × ((ltb_ℤ fee (pos 0) || ltb_ℤ c.max_fee fee) ≡ false)
          × ((is_strkey recipient && is_strkey relayer) ≡ true)
          × (verify_proof proof (public_inputs root n recipient relayer fee) ≡ true)
          × (execute_withdrawal n recipient relayer fee e ≡ ok tt e')
      passed = ground (arith, withdraw_checks proof root n recipient relayer fee valid r)
