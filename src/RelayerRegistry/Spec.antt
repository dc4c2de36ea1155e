-- ===== src/RelayerRegistry/Spec.antt =====
-- What the registry promises, with no storage: the relayers in the order of their registration,
-- one entry for each address. It describes contracts/relayer_registry/src, and is no code.
pub mod Entries
pub mod Refine
pub mod Switch
pub mod Active
use caligo.Prelude.{
  ℕ, ◌+◌, ◌^◌, Bool, true, false, ◌||◌, Option, none, some, List, [], ◌∷◌, ◌++◌, ite,
}
use caligo.Prelude.Tests.{ltb, ◌==◌, if◌then◌else◌}
use caligo.Prelude.Lists.{length}
use caligo.Prelude.Bytes.{Bytes}
use caligo.Prelude.Contract.{Outcome, ok, err, trap}
use caligo.Soroban.{Soroban}
use caligo.RelayerRegistry.Storage.{
  RegistryError, fee_too_high, invalid_endpoint, relayer_not_found, unauthorized, RelayerInfo,
  Event, has,
}
use caligo.RelayerRegistry.Contract.{same_address}

module _ ⦃host : Soroban⦄ where
  open host use {Address, address_discrete}

  pub record Registry : Type 0 where
    pub admin : Address
    pub max_fee_bps : ℕ
    pub relayers : List RelayerInfo
    pub events : List Event

  -- The entry of an address.
  unfoldable pub find : Address → List RelayerInfo → Option RelayerInfo
  find a [] = none
  find a (r ∷ rs) = let rest = find a rs in ite (address_discrete r.address a) (some r) rest

  -- The entry of its address is replaced, or comes last.
  unfoldable pub upsert : RelayerInfo → List RelayerInfo → List RelayerInfo
  upsert info [] = info ∷ []
  upsert info (r ∷ rs) =
      let rest = upsert info rs in
      ite (address_discrete r.address info.address) (info ∷ rs) (r ∷ rest)

  unfoldable pub filter_active : List RelayerInfo → List RelayerInfo
  filter_active [] = []
  filter_active (r ∷ rs) = if r.active then r ∷ filter_active rs else filter_active rs

  abbrev pub Promise : Type 0
  Promise = Outcome Registry RegistryError (Unit {0})

  -- An entry is stored and the event published.
  abbrev pub store : RelayerInfo → Event → Registry → Registry
  store info event g = record g {
    relayers = upsert info g.relayers;
    events = g.events ++ (event ∷ []);
  }

  module _ (authorized : Address → Bool) where
    -- A new relayer is refused by a trap once 2^32 - 1 are registered.
    unfoldable pub spec_register : Address → Bytes → ℕ → Registry → Promise
    spec_register relayer endpoint fee_bps g =
        if authorized relayer
        then if ltb g.max_fee_bps fee_bps
          then err fee_too_high
          else if length endpoint == 0
          then err invalid_endpoint
          else if has (find relayer g.relayers) || ltb (length g.relayers + 1) (2 ^ 32)
          then ok tt (
              store
                (record {
                  address = relayer;
                  endpoint = endpoint;
                  fee_bps = fee_bps;
                  active = true;
                })
                (Event.register relayer) g)
          else trap
        else trap

    abbrev pub switch : Bool → Event → Option RelayerInfo → Registry → Promise
    switch active event none g = err relayer_not_found
    switch active event (some info) g = ok tt (store (record info { active = active }) event g)

    unfoldable pub spec_deactivate : Address → Address → Registry → Promise
    spec_deactivate caller relayer g =
        if authorized caller
        then if same_address caller relayer || same_address caller g.admin
          then switch false (Event.deactivate relayer) (find relayer g.relayers) g
          else err unauthorized
        else trap

    unfoldable pub spec_reactivate : Address → Registry → Promise
    spec_reactivate relayer g =
        if authorized relayer
        then switch true (Event.reactivate relayer) (find relayer g.relayers) g
        else trap

    unfoldable pub spec_set_max_fee : Address → ℕ → Registry → Promise
    spec_set_max_fee admin max_fee_bps g =
        if authorized admin
        then if same_address admin g.admin
          then ok tt (record g { max_fee_bps = max_fee_bps })
          else err unauthorized
        else trap
