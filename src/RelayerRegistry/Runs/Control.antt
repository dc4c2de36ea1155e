-- ===== src/RelayerRegistry/Runs/Control.antt =====
-- Who controls an entry of the registry (contracts/relayer_registry/src/lib.rs).
use caligo.Prelude.{
  ◌≡◌, refl, ap, sym, ◌∙◌, Bool, true, false, ◌||◌, ◌&&◌, some, List, [], ◌∷◌, arith, inl, inr,
}
use caligo.Prelude.Tests.{Bool-cases, Option-cases}
use caligo.Soroban.{Soroban}
use caligo.RelayerRegistry.Storage.{RelayerInfo, Env}
use caligo.RelayerRegistry.Contract.{same_address}
use caligo.RelayerRegistry.Spec.{
  Registry, find, upsert, spec_register, spec_deactivate, spec_reactivate, spec_set_max_fee,
}
use caligo.RelayerRegistry.Spec.Entries.{find-upsert, find-address}
use caligo.RelayerRegistry.Spec.Refine.{Represents}
use caligo.RelayerRegistry.Runs.{
  Request, Invocation, registry_after, run, promised, spec_run, run-Represents,
}

module _ ⦃host : Soroban⦄ where
  open host use {Address}

  -- No one but the admin and the relayer itself.
  abbrev pub Unsigned : Address → Address → List Invocation → Type 0
  Unsigned admin a [] = Unit
  Unsigned admin a (i ∷ is) =
      (i.authorized a ≡ false) × (i.authorized admin ≡ false) × Unsigned admin a is

  promised-find :
      (authorized : Address → Bool) (q : Request) (g : Registry) (a : Address)
      → authorized a ≡ false
      → authorized g.admin ≡ false
      → let g' = registry_after g (promised authorized q g) in
        (find a g'.relayers ≡ find a g.relayers) × (g'.admin ≡ g.admin)
  unfolding promised spec_register spec_deactivate spec_reactivate spec_set_max_fee
  promised-find authorized (Request.initialize _ _) g a u v = (refl, refl)
  promised-find authorized (Request.register b m f) g a u v =
      let info : RelayerInfo = record { address = b; endpoint = m; fee_bps = f; active = true } in
      (ground (arith, find-upsert info a g.relayers, ap authorized {x = b} {y = a}), ground arith)
  promised-find authorized (Request.deactivate c b) g a u v =
      elim (Option-cases (find b g.relayers)) [
        | inl absent ↦ (ground arith, ground arith)
        | inr (info, at) ↦
            let here = find-address b g.relayers info at in
            (
              ground (
                arith,
                find-upsert (record info { active = false }) a g.relayers,
                here,
                ap authorized {x = c} {y = a},
                ap authorized {x = c} {y = g.admin},
              ),
              ground arith,
            )
      ]
  promised-find authorized (Request.reactivate b) g a u v =
      elim (Option-cases (find b g.relayers)) [
        | inl absent ↦ (ground arith, ground arith)
        | inr (info, at) ↦
            let here = find-address b g.relayers info at in
            (
              ground (
                arith,
                find-upsert (record info { active = true }) a g.relayers,
                here,
                ap authorized {x = b} {y = a},
              ),
              ground arith,
            )
      ]
  promised-find authorized (Request.set_max_fee b m) g a u v = (ground arith, ground arith)

  find-spec_run :
      (is : List Invocation) (g : Registry) (a : Address)
      → Unsigned g.admin a is
      → find a (spec_run g is).relayers ≡ find a g.relayers
  unfolding spec_run
  find-spec_run [] g a u = refl
  find-spec_run (i ∷ is) g a u =
      let (same, admin) = promised-find i.authorized i.request g a u.0 u.1 in
      find-spec_run is (registry_after g (promised i.authorized i.request g)) a (rw admin u.2)
      ∙ same

  -- From a state that represents a registry, a sequence of invocations in which neither a
  -- relayer nor the admin signs leaves the relayer's entry as it is.
  pub run-Unsigned :
      (is : List Invocation) {g : Registry} {e : Env} (a : Address)
      → Represents g e
      → Unsigned g.admin a is
      → (run e is).relayer a ≡ e.relayer a
  run-Unsigned is {g} a r u =
      (run-Represents is r).relayer a ∙ find-spec_run is g a u ∙ sym (r.relayer a)

  find-store :
      (g : Registry) (relayer : Address) (info : RelayerInfo) (active : Bool)
      → find relayer g.relayers ≡ some info
      → find relayer (upsert (record info { active = active }) g.relayers)
        ≡ some (record info { active = active })
  find-store g relayer info active at = ground (
    arith,
    find-upsert (record info { active = active }) relayer g.relayers,
    find-address relayer g.relayers info at,
  )

  -- A deactivation changes nothing of the entry but `active`.
  find-deactivated :
      (authorized : Address → Bool) (caller relayer : Address) (g : Registry) (info : RelayerInfo)
      → find relayer g.relayers ≡ some info
      → (active : Bool) × (find relayer
            (registry_after g (spec_deactivate authorized caller relayer g)).relayers
          ≡ some (record info { active = active }))
  unfolding spec_deactivate
  find-deactivated authorized caller relayer g info at =
      elim (Bool-cases
        (authorized caller && (same_address caller relayer || same_address caller g.admin))) [
          | inl done ↦ (false, ground (arith, at, find-store g relayer info false at))
          | inr refused ↦ (info.active, ground (arith, at))
        ]

  pub find-reactivated :
      (authorized : Address → Bool) (relayer : Address) (g : Registry) (info : RelayerInfo)
      → authorized relayer ≡ true
      → find relayer g.relayers ≡ some info
      → find relayer (registry_after g (spec_reactivate authorized relayer g)).relayers
        ≡ some (record info { active = true })
  unfolding spec_reactivate
  find-reactivated authorized relayer g info auth at =
      ground (arith, at, find-store g relayer info true at)

  -- From a state that represents a registry with an entry for a relayer, after a deactivation by
  -- any caller, succeeding or not, a reactivation that the relayer has signed leaves that entry
  -- active and otherwise as it was.
  pub reactivate-deactivate :
      {g : Registry} {e : Env} (caller relayer : Address) (info : RelayerInfo)
      (by_caller by_relayer : Address → Bool)
      → Represents g e
      → find relayer g.relayers ≡ some info
      → by_relayer relayer ≡ true
      → (run e (
            record { authorized = by_caller; request = Request.deactivate caller relayer }
            ∷ record { authorized = by_relayer; request = Request.reactivate relayer }
            ∷ [])).relayer
          relayer
        ≡ some (record info { active = true })
  unfolding spec_run promised spec_deactivate spec_reactivate
  reactivate-deactivate {g} {e} caller relayer info by_caller by_relayer r at auth =
      let is : List Invocation =
        record { authorized = by_caller; request = Request.deactivate caller relayer }
        ∷ record { authorized = by_relayer; request = Request.reactivate relayer }
        ∷ [] in
      let (b, gone) = find-deactivated by_caller caller relayer g info at in
      (run-Represents is r).relayer relayer
      ∙ find-reactivated by_relayer relayer
          (registry_after g (spec_deactivate by_caller caller relayer g))
          (record info { active = b }) auth gone
