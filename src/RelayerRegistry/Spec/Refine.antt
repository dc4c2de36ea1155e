-- ===== src/RelayerRegistry/Spec/Refine.antt =====
-- The storage of the registry beside the specification, and `register` of
-- contracts/relayer_registry/src/lib.rs.
use caligo.Prelude.{
  ℕ, ◌+◌, ◌<◌, ◌^◌, ◌≡◌, refl, ap, sym, ◌∙◌, true, ◌||◌, some, [], ◌∷◌, ◌++◌, arith, inl, inr,
  ℕ_discrete,
}
use caligo.Prelude.Tests.{ltb, ◌==◌, if◌then◌else◌, Bool-cases}
use caligo.Prelude.Lists.{length, get_elem?, get_elem?-snoc_self, get_elem?-snoc_ne}
use caligo.Prelude.Bytes.{Bytes, update}
use caligo.Prelude.Contract.{Outcome, ok, err, trap}
use caligo.Soroban.{Soroban}
use caligo.RelayerRegistry.Storage.{
  RegistryError, fee_too_high, invalid_endpoint, RelayerInfo, Event, Env, has,
}
use caligo.RelayerRegistry.Contract.{register}
use caligo.RelayerRegistry.Spec.{Registry, find, upsert, Promise, store, spec_register}
use caligo.RelayerRegistry.Spec.Entries.{
  find-upsert, addresses, addresses-upsert, length-addresses, length-upsert, Distinct,
  upsert-Distinct,
}

module _ ⦃host : Soroban⦄ where
  abbrev pub Result : Type 0
  Result = Outcome Env RegistryError (Unit {0})

  -- The storage holds this registry.
  pub record Represents (g : Registry) (e : Env) : Type 0 where
    pub initialized : e.initialized ≡ some true
    pub admin : e.admin ≡ some g.admin
    pub max_fee_bps : e.max_fee_bps ≡ some g.max_fee_bps
    pub relayer_count : e.relayer_count ≡ some (length g.relayers)
    pub room : length g.relayers < 2 ^ 32
    pub relayer : (a : host.Address) → e.relayer a ≡ find a g.relayers
    pub relayer_index : (i : ℕ) → e.relayer_index i ≡ get_elem? (addresses g.relayers) i
    pub distinct : Distinct g.relayers
    pub events : e.events ≡ g.events

  -- The call ends as promised, and where it succeeds it leaves the promised registry.
  pub data Refines (a : Result) (b : Promise) : Type 0 where
    succeeds : {e : Env} {g : Registry} → a ≡ ok tt e → b ≡ ok tt g → Represents g e → Refines a b
    fails : (x : RegistryError) → a ≡ err x → b ≡ err x → Refines a b
    traps : a ≡ trap → b ≡ trap → Refines a b

  -- The storage after an entry is stored.
  unfoldable pub stored : RelayerInfo → Event → Registry → Env → Env
  stored info event g e = record e {
    events = e.events ++ (event ∷ []);
    storage = record (e.storage) {
      relayer = update host.address_discrete e.relayer info.address info;
      relayer_index =
          if has (find info.address g.relayers)
          then e.relayer_index
          else update ℕ_discrete e.relayer_index (length g.relayers) info.address;
      relayer_count = some (length (upsert info g.relayers));
    };
  }

  index-stored :
      {g : Registry} {e : Env} (info : RelayerInfo) (event : Event)
      → Represents g e
      → (i : ℕ)
      → (stored info event g e).relayer_index i ≡ get_elem? (addresses (upsert info g.relayers)) i
  unfolding stored
  index-stored {g} {e} info event r i = elim (Bool-cases (has (find info.address g.relayers))) [
    | inl old ↦ ground (arith, r.relayer_index i, addresses-upsert info g.relayers)
    | inr new ↦ elim (ℕ_discrete (length g.relayers) i) [
      | yes last ↦ ground (
        arith,
        length-addresses g.relayers,
        addresses-upsert info g.relayers,
        ap (get_elem? (addresses g.relayers ++ (info.address ∷ [])))
            (length-addresses g.relayers ∙ last),
        get_elem?-snoc_self (addresses g.relayers) info.address,
      )
      | no other ↦ ground (
        arith,
        r.relayer_index i,
        addresses-upsert info g.relayers,
        get_elem?-snoc_ne (addresses g.relayers) info.address i
            (λ e. other (sym (e ∙ length-addresses g.relayers))),
      )
    ]
  ]

  pub stored-Represents :
      {g : Registry} {e : Env} (info : RelayerInfo) (event : Event)
      → Represents g e
      → (has (find info.address g.relayers) || ltb (length g.relayers + 1) (2 ^ 32)) ≡ true
      → Represents (store info event g) (stored info event g e)
  unfolding stored
  stored-Represents {g} {e} info event r room = record {
    initialized = r.initialized;
    admin = r.admin;
    max_fee_bps = r.max_fee_bps;
    relayer_count = refl;
    room = ground (arith, r.room, length-upsert info g.relayers);
    relayer = λ a. ground (arith, r.relayer a, find-upsert info a g.relayers);
    relayer_index = λ i. index-stored info event r i;
    distinct = upsert-Distinct info g.relayers r.distinct;
    events = ap (λ es. es ++ (event ∷ [])) r.events;
  }

  register_stores :
      {g : Registry} {e : Env} (relayer : host.Address) (endpoint : Bytes) (fee_bps : ℕ)
      → Represents g e
      → let info : RelayerInfo = record {
        address = relayer;
        endpoint = endpoint;
        fee_bps = fee_bps;
        active = true;
      } in
        register relayer endpoint fee_bps e ≡ (
          if e.authorized relayer
          then if ltb g.max_fee_bps fee_bps
            then err fee_too_high
            else if length endpoint == 0
            then err invalid_endpoint
            else if has (find relayer g.relayers) || ltb (length g.relayers + 1) (2 ^ 32)
            then ok tt (stored info (Event.register relayer) g e)
            else trap
          else trap)
  unfolding register stored
  register_stores {g} {e} relayer endpoint fee_bps r = ground (
    arith,
    r.max_fee_bps,
    r.relayer relayer,
    r.relayer_count,
    length-upsert
        (record { address = relayer; endpoint = endpoint; fee_bps = fee_bps; active = true })
        g.relayers,
  )

  -- For every state that represents a registry, `register` ends as `spec_register` says: with a
  -- trap where the relayer has not signed or a new one would make the count overflow, with the
  -- error for a fee above the cap or an empty endpoint, and else with a state that represents
  -- the registry with the entry replaced in its place or appended.
  pub register-Refines :
      {g : Registry} {e : Env} (relayer : host.Address) (endpoint : Bytes) (fee_bps : ℕ)
      → Represents g e
      → Refines
          (register relayer endpoint fee_bps e)
          (spec_register e.authorized relayer endpoint fee_bps g)
  unfolding spec_register
  register-Refines {g} {e} relayer endpoint fee_bps r =
      let run = register_stores relayer endpoint fee_bps r in
      elim (Bool-cases (e.authorized relayer)) [
        | inr unsigned ↦ traps (ground (arith, run)) (ground arith)
        | inl signed ↦ elim (Bool-cases (ltb g.max_fee_bps fee_bps)) [
          | inl high ↦ fails fee_too_high (ground (arith, run)) (ground arith)
          | inr low ↦ elim (Bool-cases (length endpoint == 0)) [
            | inl empty ↦ fails invalid_endpoint (ground (arith, run)) (ground arith)
            | inr there ↦
                elim (Bool-cases
                  (has (find relayer g.relayers) || ltb (length g.relayers + 1) (2 ^ 32))) [
                    | inr full ↦ traps (ground (arith, run)) (ground arith)
                    | inl room ↦ succeeds (ground (arith, run)) (ground arith) (
                        stored-Represents
                          (record {
                            address = relayer;
                            endpoint = endpoint;
                            fee_bps = fee_bps;
                            active = true;
                          })
                          (Event.register relayer) r room)
                  ]
          ]
        ]
      ]
