-- ===== src/MixerPool/Runs/Solvency.antt =====
-- The pool's tokens (contracts/mixer_pool/src/lib.rs) against its open deposits. The token contract
-- is not in the repository: what the pool relies on is the record `TokenLaws`.
use caligo.Prelude.{
  ℕ, ◌+◌, ◌*◌, ◌≤◌, ◌≡◌, ◌≢◌, refl, ap, Bool, false, some, none, List, [], ◌∷◌, inl, inr, arith,
}
use caligo.Prelude.Tests.{Bool-cases, Option-cases}
use caligo.Prelude.Lists.{length, length-snoc, unwrap_or}
use caligo.Prelude.Int.{ℤ, pos, negsuc, pos_part, neg_part, ◌-ℤ◌, -ℤ_parts, ◌≤ℤ◌, ltb_ℤ}
use caligo.Bn254.{Bn254}
use caligo.Soroban.{Soroban}
use caligo.MixerPool.Storage.{Env}
use caligo.MixerPool.Verifier.{Build}
use caligo.MixerPool.Spec.{Config, IsConfig, Pool, pay_out}
use caligo.MixerPool.Spec.Represents.{Represents}
use caligo.MixerPool.Runs.{
  Request, Invocation, exec, run, spec_exec, spec_run, exec-Represents, run-Represents,
}
use caligo.MixerPool.Runs.Safety.{IsSound, withdrawals, spec_run-IsSound}
use caligo.MixerPool.Runs.Cases.{spec_deposit_cases, spec_withdraw_cases}

module _ ⦃host : Soroban⦄ where
  open host use {Address, Ledger, transfer}

  -- The documented behaviour of a token's `transfer`: a negative amount is refused, the sender is
  -- debited, the receiver credited, and nobody else's balance changes.
  pub record TokenLaws : Type 0 where
    pub balance : Ledger → Address → Address → ℕ
    pub nonneg : (t a b : Address) (n : ℕ) (l : Ledger) → transfer t a b (negsuc n) l ≡ none
    pub debit :
        (t a b : Address) (n : ℕ) (l l' : Ledger)
        → transfer t a b (pos n) l ≡ some l'
        → balance l t a ≤ balance l' t a + n
    pub credit :
        (t a b : Address) (n : ℕ) (l l' : Ledger)
        → a ≢ b
        → transfer t a b (pos n) l ≡ some l'
        → balance l' t b ≡ balance l t b + n

module _ ⦃host : Soroban⦄ (laws : TokenLaws) (c : Config) where
  open laws use {balance}

  abbrev pub funds : host.Ledger → ℕ
  funds ledger = balance ledger c.token c.contract_address

  -- The tokens of the contract and of all withdrawals cover all deposits.
  abbrev pub IsSolvent : Pool → Type 0
  IsSolvent p =
      pos_part c.denomination * length p.leaves
      ≤ funds p.ledger + pos_part c.denomination * length p.spent

  -- No deposit comes from the contract itself, and other transactions take nothing from it.
  abbrev pub IsOutside : host.Ledger → Request → Type 0
  IsOutside before (Request.initialize _ _ _ _ _ _) = Unit
  IsOutside before (Request.deposit depositor _) = depositor ≢ c.contract_address
  IsOutside before (Request.withdraw _ _ _ _ _ _) = Unit
  IsOutside before (Request.elsewhere ledger) = funds before ≤ funds ledger

  transfer_in :
      (from : host.Address) (amount : ℤ) (l l' : host.Ledger)
      → from ≢ c.contract_address
      → host.transfer c.token from c.contract_address amount l ≡ some l'
      → funds l' ≡ funds l + pos_part amount
  transfer_in from (pos n) l l' ne h = laws.credit c.token from c.contract_address n l l' ne h
  transfer_in from (negsuc n) l l' ne h =
      ground (arith, laws.nonneg c.token from c.contract_address n l)

  transfer_out :
      (to : host.Address) (amount : ℤ) (l l' : host.Ledger)
      → host.transfer c.token c.contract_address to amount l ≡ some l'
      → (neg_part amount ≡ 0) × (funds l ≤ funds l' + pos_part amount)
  transfer_out to (pos n) l l' h = (refl, laws.debit c.token c.contract_address to n l l' h)
  transfer_out to (negsuc n) l l' h = ground (arith, laws.nonneg c.token c.contract_address to n l)

  -- A withdrawal takes at most the denomination out of the contract, fee included.
  funds-pay_out :
      (recipient relayer : host.Address) (fee : ℤ) (l l' : host.Ledger)
      → pos 1 ≤ℤ c.denomination
      → ltb_ℤ fee (pos 0) ≡ false
      → pay_out c recipient relayer fee l ≡ some l'
      → funds l ≤ funds l' + pos_part c.denomination
  unfolding pay_out
  funds-pay_out recipient relayer fee l l' p low h =
      elim (Option-cases
        (host.transfer c.token c.contract_address recipient (c.denomination -ℤ fee) l)) [
          | inl none_paid ↦ ground arith
          | inr (m, paid) ↦ elim (Bool-cases (ltb_ℤ (pos 0) fee)) [
            | inl some_fee ↦
                let rest : host.transfer c.token c.contract_address relayer fee m ≡ some l' =
                  ground arith in
                ground (
                  arith,
                  -ℤ_parts c.denomination fee,
                  transfer_out recipient (c.denomination -ℤ fee) l m paid,
                  transfer_out relayer fee m l' rest,
                )
            | inr no_fee ↦
                let same : m ≡ l' = ground arith in
                ground (
                  arith,
                  ap funds same,
                  -ℤ_parts c.denomination fee,
                  transfer_out recipient (c.denomination -ℤ fee) l m paid,
                )
          ]
        ]

module _ ⦃bn : Bn254⦄ ⦃host : Soroban⦄ ⦃build : Build⦄ (laws : TokenLaws) {c : Config}
    (valid : IsConfig c) where
  spec_exec-IsSolvent :
      (authorized : host.Address → Bool) (q : Request) (p : Pool)
      → IsOutside laws c p.ledger q
      → IsSolvent laws c p
      → IsSolvent laws c (spec_exec c p (record { authorized = authorized; request = q }))
  unfolding spec_exec
  spec_exec-IsSolvent authorized (Request.initialize _ _ _ _ _ _) p o s = s
  spec_exec-IsSolvent authorized (Request.deposit depositor x) p o s =
      elim (spec_deposit_cases c authorized depositor x p) [
        | inl same ↦ rw same s
        | inr (ledger, new, paid, e) ↦
            rw (e, length-snoc p.leaves x)
              (omega (arith, transfer_in laws c depositor c.denomination p.ledger ledger o paid))
      ]
  spec_exec-IsSolvent authorized (Request.withdraw proof root n recipient relayer fee) p o s =
      elim (spec_withdraw_cases c proof root n recipient relayer fee p) [
        | inl same ↦ rw same s
        | inr (ledger, new, paid, low, e) ↦ rw e (
            omega (
              arith,
              funds-pay_out laws c recipient relayer fee p.ledger ledger valid.denomination_pos low
                  paid,
            ))
      ]
  spec_exec-IsSolvent authorized (Request.elsewhere ledger) p o s = omega arith

  -- Every request of the sequence keeps to `IsOutside` where it is made.
  abbrev pub AreOutside : Env → List Invocation → Type 0
  AreOutside e [] = Unit
  AreOutside e (i ∷ is) = IsOutside laws c e.ledger i.request × AreOutside (exec e i) is

  spec_run-IsSolvent :
      (is : List Invocation) {p : Pool} {e : Env}
      → Represents c p e
      → IsSolvent laws c p
      → AreOutside e is
      → IsSolvent laws c (spec_run c p is)
  unfolding spec_run
  spec_run-IsSolvent [] r s o = s
  spec_run-IsSolvent (i ∷ is) {p} r s o =
      spec_run-IsSolvent is (exec-Represents valid i.authorized i.request r)
        (spec_exec-IsSolvent i.authorized i.request p (rw (← r.ledger) o.0) s) o.1

  -- If the token obeys `TokenLaws`, no deposit is made by the contract itself and other
  -- transactions take nothing from the contract, then, from a state that represents a sound and
  -- solvent pool with valid parameters, after any sequence of invocations the contract's tokens
  -- and the denominations withdrawn together cover the denomination times the number of leaves.
  pub run-IsSolvent :
      (is : List Invocation) {p : Pool} {e : Env}
      → Represents c p e
      → IsSound p
      → IsSolvent laws c p
      → AreOutside e is
      → pos_part c.denomination * unwrap_or (run e is).next_leaf_index 0
        ≤ funds laws c (run e is).ledger + pos_part c.denomination * withdrawals (run e is).events
  run-IsSolvent is {p} r sound s o =
      let r' = run-Represents valid is r in
      rw (r'.next_leaf_index, r'.ledger, r'.events, (spec_run-IsSound c is p sound).spent_counted)
        (spec_run-IsSolvent is r s o)
