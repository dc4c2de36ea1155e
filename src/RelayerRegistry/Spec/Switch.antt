-- ===== src/RelayerRegistry/Spec/Switch.antt =====
-- `deactivate`, `reactivate` and `set_max_fee` of contracts/relayer_registry/src/lib.rs beside the
-- specification.
use caligo.Prelude.{ℕ, ◌≡◌, refl, ap, Bool, true, false, ◌||◌, some, [], ◌∷◌, ◌++◌, arith, inl, inr}
use caligo.Prelude.Tests.{Bool-cases, Option-cases}
use caligo.Prelude.Lists.{length}
use caligo.Prelude.Bytes.{update}
use caligo.Soroban.{Soroban}
use caligo.RelayerRegistry.Storage.{relayer_not_found, unauthorized, RelayerInfo, Event, Env}
use caligo.RelayerRegistry.Contract.{same_address, deactivate, reactivate, set_max_fee}
use caligo.RelayerRegistry.Spec.{
  Registry, find, upsert, store, spec_deactivate, spec_reactivate, spec_set_max_fee,
}
use caligo.RelayerRegistry.Spec.Entries.{length-upsert, find-address}
use caligo.RelayerRegistry.Spec.Refine.{
  Represents, Refines, succeeds, fails, traps, stored, stored-Represents,
}

module _ ⦃host : Soroban⦄ where
  -- Storing the entry of an address that is there writes nothing else.
  switched-stored :
      {g : Registry} {e : Env} (relayer : host.Address) (info : RelayerInfo) (active : Bool)
      (event : Event)
      → find relayer g.relayers ≡ some info
      → Represents g e
      → (record e {
        events = e.events ++ (event ∷ []);
        storage = record (e.storage) {
          relayer =
              update host.address_discrete e.relayer relayer (record info { active = active });
        };
      })
        ≡ stored (record info { active = active }) event g e
  unfolding stored
  switched-stored {g} {e} relayer info active event at r =
      let same = find-address relayer g.relayers info at in
      let kept : length (upsert (record info { active = active }) g.relayers) ≡ length g.relayers =
        ground (
          arith,
          length-upsert (record info { active = active }) g.relayers,
          ap (λ a. find a g.relayers) same,
          at,
        ) in
      rw (kept, same, at, r.relayer_count) refl

  -- The entry of an address that is there is stored again with another `active`.
  switched-Represents :
      {g : Registry} {e : Env} (relayer : host.Address) (info : RelayerInfo) (active : Bool)
      (event : Event)
      → find relayer g.relayers ≡ some info
      → Represents g e
      → Represents
          (store (record info { active = active }) event g)
          (stored (record info { active = active }) event g e)
  switched-Represents {g} relayer info active event at r =
      stored-Represents (record info { active = active }) event r
        (ground (arith, at, ap (λ a. find a g.relayers) (find-address relayer g.relayers info at)))

  -- For every state that represents a registry, `deactivate` ends as `spec_deactivate` says:
  -- with a trap where the caller has not signed, with an error where the caller is neither the
  -- relayer nor the admin or the relayer is not there, and else with a state that represents the
  -- registry with that entry inactive.
  pub deactivate-Refines :
      {g : Registry} {e : Env} (caller relayer : host.Address)
      → Represents g e
      → Refines (deactivate caller relayer e) (spec_deactivate e.authorized caller relayer g)
  unfolding spec_deactivate deactivate
  deactivate-Refines {g} {e} caller relayer r = elim (Bool-cases (e.authorized caller)) [
    | inr unsigned ↦ traps (ground (arith, r.admin)) (ground arith)
    | inl signed ↦ elim (Bool-cases (same_address caller relayer || same_address caller g.admin)) [
      | inr other ↦ fails unauthorized (ground (arith, r.admin)) (ground arith)
      | inl allowed ↦ elim (Option-cases (find relayer g.relayers)) [
        | inl absent ↦
            fails relayer_not_found (ground (arith, r.admin, r.relayer relayer)) (ground arith)
        | inr (info, at) ↦
            succeeds
              (ground (
                arith,
                r.admin,
                r.relayer relayer,
                at,
                switched-stored relayer info false (Event.deactivate relayer) at r,
              ))
              (ground arith)
              (switched-Represents relayer info false (Event.deactivate relayer) at r)
      ]
    ]
  ]

  pub reactivate-Refines :
      {g : Registry} {e : Env} (relayer : host.Address)
      → Represents g e
      → Refines (reactivate relayer e) (spec_reactivate e.authorized relayer g)
  unfolding spec_reactivate reactivate
  reactivate-Refines {g} {e} relayer r = elim (Bool-cases (e.authorized relayer)) [
    | inr unsigned ↦ traps (ground arith) (ground arith)
    | inl signed ↦ elim (Option-cases (find relayer g.relayers)) [
      | inl absent ↦ fails relayer_not_found (ground (arith, r.relayer relayer)) (ground arith)
      | inr (info, at) ↦
          succeeds
            (ground (
              arith,
              r.relayer relayer,
              switched-stored relayer info true (Event.reactivate relayer) at r,
            ))
            (ground arith) (switched-Represents relayer info true (Event.reactivate relayer) at r)
    ]
  ]

  -- For every state that represents a registry, `set_max_fee` ends as `spec_set_max_fee` says:
  -- with a trap where the caller has not signed, with an error where it is not the admin, and
  -- else with a state that represents the registry with the new cap and all entries as they
  -- were.
  pub set_max_fee-Refines :
      {g : Registry} {e : Env} (admin : host.Address) (max_fee_bps : ℕ)
      → Represents g e
      → Refines
          (set_max_fee admin max_fee_bps e)
          (spec_set_max_fee e.authorized admin max_fee_bps g)
  unfolding spec_set_max_fee set_max_fee
  set_max_fee-Refines {g} {e} admin max_fee_bps r = elim (Bool-cases (e.authorized admin)) [
    | inr unsigned ↦ traps (ground arith) (ground arith)
    | inl signed ↦ elim (Bool-cases (same_address admin g.admin)) [
      | inr other ↦ fails unauthorized (ground (arith, r.admin)) (ground arith)
      | inl same ↦
          succeeds
            {e = record e { storage = record (e.storage) { max_fee_bps = some max_fee_bps } }}
            (ground (arith, r.admin)) (ground arith)
            (record {
              initialized = r.initialized;
              admin = r.admin;
              max_fee_bps = refl;
              relayer_count = r.relayer_count;
              room = r.room;
              relayer = r.relayer;
              relayer_index = r.relayer_index;
              distinct = r.distinct;
              events = r.events;
            })
    ]
  ]
