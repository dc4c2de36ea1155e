-- ===== src/MixerPool/Runs.antt =====
-- Sequences of invocations of the pool (the entry points of contracts/mixer_pool/src/lib.rs), as
-- the network runs them: one after the other, each with its own authorizations, and a failing one
-- leaves no trace.
pub mod Cases
pub mod Safety
pub mod Solvency
pub mod Aliasing
use caligo.Prelude.{ℕ, refl, Bool, List, [], ◌∷◌}
use caligo.Prelude.Int.{ℤ}
use caligo.Prelude.Bytes.{Bytes}
use caligo.Prelude.Contract.{ok, err, trap, modify}
use caligo.Bn254.{Bn254}
use caligo.Soroban.{Soroban}
use caligo.MixerPool.Storage.{Env, Act}
use caligo.MixerPool.Verifier.{Build}
use caligo.MixerPool.Contract
use caligo.MixerPool.Contract.Deposit.{deposit-Refines}
use caligo.MixerPool.Contract.Withdraw.{withdraw-Refines}
use caligo.MixerPool.Contract.Initialize.{initialize_twice}
use caligo.MixerPool.Spec.{Config, IsConfig, Pool, Promise, spec_deposit, spec_withdraw}
use caligo.MixerPool.Spec.Represents.{Represents, Result, Refines, succeeds, fails, traps}

module _ ⦃host : Soroban⦄ where
  open host use {Address, Ledger}

  pub data Request : Type 0 where
    initialize : Address → Address → ℤ → ℤ → ℕ → ℕ → Request
    deposit : Address → Bytes → Request
    withdraw : Bytes → Bytes → Bytes → Address → Address → ℤ → Request
    -- Other transactions move tokens.
    elsewhere : Ledger → Request

  pub record Invocation : Type 0 where
    pub authorized : Address → Bool
    pub request : Request

  abbrev pub after : Env → Result → Env
  after e (ok _ e') = e'
  after e (err _) = e
  after e trap = e

  abbrev pub pool_after : Pool → Promise → Pool
  pool_after p (ok _ p') = p'
  pool_after p (err _) = p
  pool_after p trap = p

  abbrev pub signed : Env → (Address → Bool) → Env
  signed e authorized = record e { authorized = authorized }

module _ ⦃bn : Bn254⦄ ⦃host : Soroban⦄ ⦃build : Build⦄ where
  unfoldable pub call : Request → Act (Unit {0})
  call (Request.initialize admin token denomination max_fee tree_depth root_history_size) =
      Contract.initialize admin token denomination max_fee tree_depth root_history_size
  call (Request.deposit depositor commitment) = Contract.deposit depositor commitment
  call (Request.withdraw proof root nullifier_hash recipient relayer fee) =
      Contract.withdraw proof root nullifier_hash recipient relayer fee
  call (Request.elsewhere ledger) = modify (λ e. record e { ledger = ledger })

  unfoldable pub exec : Env → Invocation → Env
  exec e i = after e (call i.request (signed e i.authorized))

  unfoldable pub run : Env → List Invocation → Env
  run e [] = e
  run e (i ∷ is) = run (exec e i) is

  -- What the specification says of an initialized pool: a second `initialize` does nothing.
  unfoldable pub spec_exec : Config → Pool → Invocation → Pool
  spec_exec c p i = elim i.request [
    | initialize _ _ _ _ _ _ ↦ p
    | deposit depositor commitment ↦
        pool_after p (spec_deposit c i.authorized depositor commitment p)
    | withdraw proof root nullifier_hash recipient relayer fee ↦
        pool_after p (spec_withdraw c proof root nullifier_hash recipient relayer fee p)
    | elsewhere ledger ↦ record p { ledger = ledger }
  ]

  unfoldable pub spec_run : Config → Pool → List Invocation → Pool
  spec_run c p [] = p
  spec_run c p (i ∷ is) = spec_run c (spec_exec c p i) is

module _ ⦃bn : Bn254⦄ ⦃host : Soroban⦄ where
  pub signed-Represents :
      {c : Config} {p : Pool} {e : Env} (authorized : host.Address → Bool)
      → Represents c p e
      → Represents c p (signed e authorized)
  signed-Represents authorized r = record {
    initialized = r.initialized;
    denomination = r.denomination;
    token = r.token;
    max_fee = r.max_fee;
    tree_depth = r.tree_depth;
    root_history_size = r.root_history_size;
    contract_address = r.contract_address;
    next_leaf_index = r.next_leaf_index;
    room = r.room;
    nodes = r.nodes;
    commitments = r.commitments;
    nullifiers = r.nullifiers;
    ring_bound = r.ring_bound;
    ring = r.ring;
    ledger = r.ledger;
    events = r.events;
  }

  elsewhere-Represents :
      {c : Config} {p : Pool} {e : Env} (ledger : host.Ledger)
      → Represents c p e
      → Represents c (record p { ledger = ledger }) (record e { ledger = ledger })
  elsewhere-Represents ledger r = record {
    initialized = r.initialized;
    denomination = r.denomination;
    token = r.token;
    max_fee = r.max_fee;
    tree_depth = r.tree_depth;
    root_history_size = r.root_history_size;
    contract_address = r.contract_address;
    next_leaf_index = r.next_leaf_index;
    room = r.room;
    nodes = r.nodes;
    commitments = r.commitments;
    nullifiers = r.nullifiers;
    ring_bound = r.ring_bound;
    ring = r.ring;
    ledger = refl;
    events = r.events;
  }

  -- A failed call changes neither side, so both stay related.
  after-Represents :
      {c : Config} {p : Pool} {e : Env} {a : Result} {b : Promise}
      → Represents c p e
      → Refines c a b
      → Represents c (pool_after p b) (after e a)
  after-Represents r (succeeds h k r') = rw (h, k) r'
  after-Represents r (fails x h k) = rw (h, k) r
  after-Represents r (traps h k) = rw (h, k) r

module _ ⦃bn : Bn254⦄ ⦃host : Soroban⦄ ⦃build : Build⦄ {c : Config} (valid : IsConfig c) where
  pub exec-Represents :
      (authorized : host.Address → Bool) (q : Request) {p : Pool} {e : Env}
      → Represents c p e
      → let i : Invocation = record { authorized = authorized; request = q } in
        Represents c (spec_exec c p i) (exec e i)
  unfolding exec spec_exec call
  exec-Represents authorized (Request.initialize a t d m h s) {p} {e} r =
      rw (initialize_twice a t d m h s (signed e authorized) r.initialized) r
  exec-Represents authorized (Request.deposit depositor commitment) r =
      after-Represents r
        (deposit-Refines depositor commitment valid (signed-Represents authorized r))
  exec-Represents authorized (Request.withdraw proof root nullifier_hash recipient relayer fee) r =
      after-Represents r (
        withdraw-Refines proof root nullifier_hash recipient relayer fee valid
          (signed-Represents authorized r))
  exec-Represents authorized (Request.elsewhere ledger) r =
      elsewhere-Represents ledger (signed-Represents authorized r)

  -- From a state that represents a pool with valid parameters, after any sequence of invocations
  -- of `initialize`, `deposit` and `withdraw` with any arguments and signatures, and of token
  -- movements elsewhere, the contract represents the pool that the specification reaches by the
  -- same sequence.
  pub run-Represents :
      (is : List Invocation) {p : Pool} {e : Env}
      → Represents c p e
      → Represents c (spec_run c p is) (run e is)
  unfolding run spec_run
  run-Represents [] r = r
  run-Represents (i ∷ is) r = run-Represents is (exec-Represents i.authorized i.request r)
