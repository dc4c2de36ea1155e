-- ===== src/RelayerRegistry/Runs.antt =====
-- Sequences of invocations of the registry (contracts/relayer_registry/src/lib.rs), each with its
-- own authorizations; a failing one leaves no trace.
pub mod Control
pub mod Fees
pub mod Lowered
use caligo.Prelude.{ℕ, ◌≡◌, Bool, List, [], ◌∷◌}
use caligo.Prelude.Bytes.{Bytes}
use caligo.Prelude.Contract.{ok, err, trap}
use caligo.Soroban.{Soroban}
use caligo.RelayerRegistry.Storage.{Env, Act}
use caligo.RelayerRegistry.Contract
use caligo.RelayerRegistry.Contract.{get_active_relayers}
use caligo.RelayerRegistry.Spec.{
  Registry, Promise, filter_active, spec_register, spec_deactivate, spec_reactivate,
  spec_set_max_fee,
}
use caligo.RelayerRegistry.Spec.Entries.{Distinct}
use caligo.RelayerRegistry.Spec.Refine.{
  Result, Represents, Refines, succeeds, fails, traps, register-Refines,
}
use caligo.RelayerRegistry.Spec.Switch.{deactivate-Refines, reactivate-Refines, set_max_fee-Refines}
use caligo.RelayerRegistry.Spec.Active.{get_active_relayers_lem, initialize-again}

module _ ⦃host : Soroban⦄ where
  open host use {Address}

  pub data Request : Type 0 where
    initialize : Address → ℕ → Request
    register : Address → Bytes → ℕ → Request
    deactivate : Address → Address → Request
    reactivate : Address → Request
    set_max_fee : Address → ℕ → Request

  pub record Invocation : Type 0 where
    pub authorized : Address → Bool
    pub request : Request

  abbrev pub after : Env → Result → Env
  after e (ok _ e') = e'
  after e (err _) = e
  after e trap = e

  abbrev pub registry_after : Registry → Promise → Registry
  registry_after g (ok _ g') = g'
  registry_after g (err _) = g
  registry_after g trap = g

  abbrev pub signed : Env → (Address → Bool) → Env
  signed e authorized = record e { authorized = authorized }

  unfoldable pub call : Request → Act (Unit {0})
  call (Request.initialize admin max_fee_bps) = Contract.initialize admin max_fee_bps
  call (Request.register relayer endpoint fee_bps) = Contract.register relayer endpoint fee_bps
  call (Request.deactivate caller relayer) = Contract.deactivate caller relayer
  call (Request.reactivate relayer) = Contract.reactivate relayer
  call (Request.set_max_fee admin max_fee_bps) = Contract.set_max_fee admin max_fee_bps

  unfoldable pub exec : Env → Invocation → Env
  exec e i = after e (call i.request (signed e i.authorized))

  unfoldable pub run : Env → List Invocation → Env
  run e [] = e
  run e (i ∷ is) = run (exec e i) is

  -- What the specification says of an initialized registry.
  unfoldable pub promised : (Address → Bool) → Request → Registry → Promise
  promised authorized (Request.initialize _ _) g = ok tt g
  promised authorized (Request.register relayer endpoint fee_bps) g =
      spec_register authorized relayer endpoint fee_bps g
  promised authorized (Request.deactivate caller relayer) g =
      spec_deactivate authorized caller relayer g
  promised authorized (Request.reactivate relayer) g = spec_reactivate authorized relayer g
  promised authorized (Request.set_max_fee admin max_fee_bps) g =
      spec_set_max_fee authorized admin max_fee_bps g

  unfoldable pub spec_run : Registry → List Invocation → Registry
  spec_run g [] = g
  spec_run g (i ∷ is) = spec_run (registry_after g (promised i.authorized i.request g)) is

  pub signed-Represents :
      {g : Registry} {e : Env} (authorized : Address → Bool)
      → Represents g e
      → Represents g (signed e authorized)
  signed-Represents authorized r = record {
    initialized = r.initialized;
    admin = r.admin;
    max_fee_bps = r.max_fee_bps;
    relayer_count = r.relayer_count;
    room = r.room;
    relayer = r.relayer;
    relayer_index = r.relayer_index;
    distinct = r.distinct;
    events = r.events;
  }

  after-Represents :
      {g : Registry} {e : Env} {a : Result} {b : Promise}
      → Represents g e
      → Refines a b
      → Represents (registry_after g b) (after e a)
  after-Represents r (succeeds h k r') = rw (h, k) r'
  after-Represents r (fails x h k) = rw (h, k) r
  after-Represents r (traps h k) = rw (h, k) r

  exec-Represents :
      (authorized : Address → Bool) (q : Request) {g : Registry} {e : Env}
      → Represents g e
      → let i : Invocation = record { authorized = authorized; request = q } in
        Represents (registry_after g (promised authorized q g)) (exec e i)
  unfolding exec call promised
  exec-Represents authorized (Request.initialize a m) {g} {e} r =
      rw (initialize-again (signed e authorized) a m r.initialized) r
  exec-Represents authorized (Request.register a m f) r =
      after-Represents r (register-Refines a m f (signed-Represents authorized r))
  exec-Represents authorized (Request.deactivate c a) r =
      after-Represents r (deactivate-Refines c a (signed-Represents authorized r))
  exec-Represents authorized (Request.reactivate a) r =
      after-Represents r (reactivate-Refines a (signed-Represents authorized r))
  exec-Represents authorized (Request.set_max_fee a m) r =
      after-Represents r (set_max_fee-Refines a m (signed-Represents authorized r))

  -- Whatever the sequence of invocations, the contract goes on holding the registry that the
  -- specification reaches by the same sequence.
  pub run-Represents :
      (is : List Invocation) {g : Registry} {e : Env}
      → Represents g e
      → Represents (spec_run g is) (run e is)
  unfolding run spec_run
  run-Represents [] r = r
  run-Represents (i ∷ is) r = run-Represents is (exec-Represents i.authorized i.request r)

  -- From a state that represents a registry, after any sequence of invocations with any
  -- arguments and signatures, `get_active_relayers` lists the active entries of the registry
  -- that the specification reaches by the same sequence, in the order of registration, and no
  -- address has two entries there.
  pub run-get_active_relayers :
      (is : List Invocation) {g : Registry} {e : Env}
      → Represents g e
      → (get_active_relayers (run e is) ≡ ok (filter_active (spec_run g is).relayers) (run e is))
        × Distinct (spec_run g is).relayers
  run-get_active_relayers is r =
      let r' = run-Represents is r in (get_active_relayers_lem r', r'.distinct)
