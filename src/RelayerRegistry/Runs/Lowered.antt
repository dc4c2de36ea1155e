-- ===== src/RelayerRegistry/Runs/Lowered.antt =====
-- A relayer whose fee is above a new cap (contracts/relayer_registry/src/lib.rs: `set_max_fee`
-- leaves the entries, `reactivate` does not look at the fee).
use caligo.Prelude.{ℕ, ◌≡◌, refl, ap, ◌∙◌, Bool, true, some, List, [], ◌∷◌, arith, inl, inr}
use caligo.Prelude.Tests.{Option-cases}
use caligo.Prelude.Contract.{ok}
use caligo.Soroban.{Soroban}
use caligo.RelayerRegistry.Storage.{RelayerInfo, Env}
use caligo.RelayerRegistry.Contract.{get_active_relayers}
use caligo.RelayerRegistry.Spec.{Registry, find, filter_active, spec_reactivate, spec_set_max_fee}
use caligo.RelayerRegistry.Spec.Refine.{Represents}
use caligo.RelayerRegistry.Runs.Control.{find-reactivated}
use caligo.RelayerRegistry.Runs.{
  Request, Invocation, registry_after, run, promised, spec_run, run-Represents,
  run-get_active_relayers,
}

module _ ⦃host : Soroban⦄ where
  open host use {Address, address_discrete}

  -- An active entry is found among the active ones.
  find-filter_active :
      (a : Address) (rs : List RelayerInfo) (r : RelayerInfo)
      → find a rs ≡ some r
      → r.active ≡ true
      → find a (filter_active rs) ≡ some r
  unfolding find filter_active
  find-filter_active a [] r at on = cc
  find-filter_active a (q ∷ rs) r at on = elim (address_discrete q.address a) [
    | yes here ↦ let same : q ≡ r = ground arith in ground (arith, ap RelayerInfo.active same)
    | no other ↦ ground (arith, find-filter_active a rs r)
  ]

  capped :
      (authorized : Address → Bool) (g : Registry) (max_fee_bps : ℕ)
      → authorized g.admin ≡ true
      → registry_after g (spec_set_max_fee authorized g.admin max_fee_bps g)
        ≡ record g { max_fee_bps = max_fee_bps }
  unfolding spec_set_max_fee
  capped authorized g max_fee_bps signs = ground arith

  max_fee-reactivated :
      (authorized : Address → Bool) (relayer : Address) (g : Registry)
      → (registry_after g (spec_reactivate authorized relayer g)).max_fee_bps ≡ g.max_fee_bps
  unfolding spec_reactivate
  max_fee-reactivated authorized relayer g = elim (Option-cases (find relayer g.relayers)) [
    | inl absent ↦ ground arith
    | inr (info, at) ↦ ground arith
  ]

  -- From a state that represents a registry with an entry for a relayer, after the admin has
  -- signed any new cap and the relayer a reactivation, the contract has the new cap, and
  -- `get_active_relayers` lists the relayer with its old fee, also where that is above the cap.
  pub run-above_cap :
      {g : Registry} {e : Env} (relayer : Address) (info : RelayerInfo) (max_fee_bps : ℕ)
      (by_admin by_relayer : Address → Bool)
      → Represents g e
      → find relayer g.relayers ≡ some info
      → by_admin g.admin ≡ true
      → by_relayer relayer ≡ true
      → let e' : Env = run e (
          record { authorized = by_admin; request = Request.set_max_fee g.admin max_fee_bps }
          ∷ record { authorized = by_relayer; request = Request.reactivate relayer }
          ∷ []) in
        (infos : List RelayerInfo) × (get_active_relayers e' ≡ ok infos e')
        × (find relayer infos ≡ some (record info { active = true }))
        × (e'.max_fee_bps ≡ some max_fee_bps)
  unfolding spec_run promised
  run-above_cap {g} {e} relayer info max_fee_bps by_admin by_relayer r at admin signs =
      let is : List Invocation =
        record { authorized = by_admin; request = Request.set_max_fee g.admin max_fee_bps }
        ∷ record { authorized = by_relayer; request = Request.reactivate relayer }
        ∷ [] in
      let g₁ = record g { max_fee_bps = max_fee_bps } in
      let g₂ = registry_after g₁ (spec_reactivate by_relayer relayer g₁) in
      let reached : spec_run g is ≡ g₂ =
        ap (λ h. registry_after h (spec_reactivate by_relayer relayer h))
          (capped by_admin g max_fee_bps admin) in
      let there = find-reactivated by_relayer relayer g₁ info signs at in
      let r' = run-Represents is r in
      (
        filter_active (spec_run g is).relayers,
        (run-get_active_relayers is r).0,
        ap (λ h. find relayer (filter_active (Registry.relayers h))) reached
            ∙ find-filter_active relayer g₂.relayers (record info { active = true }) there refl,
        r'.max_fee_bps
            ∙ ap (λ h. some (Registry.max_fee_bps h)) reached
            ∙ ap some (max_fee-reactivated by_relayer relayer g₁),
      )
