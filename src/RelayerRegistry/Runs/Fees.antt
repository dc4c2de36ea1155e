-- ===== src/RelayerRegistry/Runs/Fees.antt =====
-- The fees and endpoints of the listed entries of the registry
-- (contracts/relayer_registry/src/lib.rs), whatever the cap has been meanwhile.
use caligo.Prelude.{
  ℕ, ◌≤◌, ◌≡◌, refl, Bool, true, false, some, List, [], ◌∷◌, arith, inl, inr, if_pos, if_neg,
}
use caligo.Prelude.Tests.{Bool-cases, Option-cases, ltb, ◌==◌}
use caligo.Prelude.Lists.{length}
use caligo.Prelude.Contract.{ok}
use caligo.Soroban.{Soroban}
use caligo.RelayerRegistry.Storage.{RelayerInfo, Env}
use caligo.RelayerRegistry.Contract.{get_active_relayers}
use caligo.RelayerRegistry.Spec.{
  Registry, find, upsert, filter_active, spec_register, spec_deactivate, spec_reactivate,
  spec_set_max_fee,
}
use caligo.RelayerRegistry.Spec.Refine.{Represents}
use caligo.RelayerRegistry.Runs.{
  Request, Invocation, registry_after, run, promised, spec_run, run-get_active_relayers,
}

module _ ⦃host : Soroban⦄ (cap : ℕ) where
  open host use {Address, address_discrete}

  -- A fee of at most the cap, and an endpoint.
  abbrev pub Fair : RelayerInfo → Type 0
  Fair info = (info.fee_bps ≤ cap) × (1 ≤ length info.endpoint)

  abbrev pub AllFair : List RelayerInfo → Type 0
  AllFair [] = Unit
  AllFair (r ∷ rs) = Fair r × AllFair rs

  -- The entries are active and fair.
  abbrev pub AllOffered : List RelayerInfo → Type 0
  AllOffered [] = Unit
  AllOffered (r ∷ rs) = (r.active ≡ true) × Fair r × AllOffered rs

  -- No request raises the cap of the registry above this one.
  abbrev pub Within : Request → Type 0
  Within (Request.set_max_fee admin max_fee_bps) = max_fee_bps ≤ cap
  Within (Request.initialize _ _) = Unit
  Within (Request.register _ _ _) = Unit
  Within (Request.deactivate _ _) = Unit
  Within (Request.reactivate _) = Unit

  abbrev pub AllWithin : List Invocation → Type 0
  AllWithin [] = Unit
  AllWithin (i ∷ is) = Within i.request × AllWithin is

  find-Fair :
      (a : Address) (rs : List RelayerInfo) (r : RelayerInfo)
      → AllFair rs
      → find a rs ≡ some r
      → Fair r
  unfolding find
  find-Fair a [] r all h = cc
  find-Fair a (q ∷ rs) r all h = elim (address_discrete q.address a) [
    | yes here ↦ let same : q ≡ r = ground arith in rw⁻¹ same all.0
    | no other ↦ find-Fair a rs r all.1 (ground arith)
  ]

  upsert-AllFair :
      (info : RelayerInfo) (rs : List RelayerInfo)
      → Fair info
      → AllFair rs
      → AllFair (upsert info rs)
  unfolding upsert
  upsert-AllFair info [] f all = (f, tt)
  upsert-AllFair info (r ∷ rs) f all = elim (address_discrete r.address info.address) [
    | yes here ↦ rw (if_pos (address_discrete r.address info.address) here) (f, all.1)
    | no other ↦
        rw (if_neg (address_discrete r.address info.address) other)
          (all.0, upsert-AllFair info rs f all.1)
  ]

  filter_active-AllOffered : (rs : List RelayerInfo) → AllFair rs → AllOffered (filter_active rs)
  unfolding filter_active
  filter_active-AllOffered [] all = tt
  filter_active-AllOffered (r ∷ rs) all = elim (Bool-cases r.active) [
    | inl on ↦ rw on (refl, all.0, filter_active-AllOffered rs all.1)
    | inr off ↦ rw off (filter_active-AllOffered rs all.1)
  ]

  -- What one invocation leaves: a registry whose cap and entries stay within.
  promised-AllFair :
      (authorized : Address → Bool) (q : Request) (g : Registry)
      → Within q
      → g.max_fee_bps ≤ cap
      → AllFair g.relayers
      → let g' = registry_after g (promised authorized q g) in
        (g'.max_fee_bps ≤ cap) × AllFair g'.relayers
  unfolding promised spec_register spec_deactivate spec_reactivate spec_set_max_fee
  promised-AllFair authorized (Request.initialize _ _) g w low all = (low, all)
  promised-AllFair authorized (Request.register b m f) g w low all =
      elim (Bool-cases (ltb g.max_fee_bps f)) [
        | inl dear ↦ (ground arith, ground (arith, all))
        | inr cheap ↦ elim (Bool-cases (length m == 0)) [
          | inl missing ↦ (ground arith, ground (arith, all))
          | inr there ↦
              let info : RelayerInfo = record {
                address = b;
                endpoint = m;
                fee_bps = f;
                active = true;
              } in
              let kept = upsert-AllFair info g.relayers (ground arith, ground arith) all in
              (ground arith, ground (arith, all, kept))
        ]
      ]
  promised-AllFair authorized (Request.deactivate c b) g w low all =
      elim (Option-cases (find b g.relayers)) [
        | inl absent ↦ (ground arith, ground (arith, all))
        | inr (info, at) ↦
            let kept =
              upsert-AllFair (record info { active = false }) g.relayers
                (find-Fair b g.relayers info all at) all in
            (ground arith, ground (arith, all, kept))
      ]
  promised-AllFair authorized (Request.reactivate b) g w low all =
      elim (Option-cases (find b g.relayers)) [
        | inl absent ↦ (ground arith, ground (arith, all))
        | inr (info, at) ↦
            let kept =
              upsert-AllFair (record info { active = true }) g.relayers
                (find-Fair b g.relayers info all at) all in
            (ground arith, ground (arith, all, kept))
      ]
  promised-AllFair authorized (Request.set_max_fee b m) g w low all =
      (ground arith, ground (arith, all))

  spec_run-AllFair :
      (is : List Invocation) (g : Registry)
      → AllWithin is
      → g.max_fee_bps ≤ cap
      → AllFair g.relayers
      → AllFair (spec_run g is).relayers
  unfolding spec_run
  spec_run-AllFair [] g w low all = all
  spec_run-AllFair (i ∷ is) g w low all =
      let (low', all') = promised-AllFair i.authorized i.request g w.0 low all in
      spec_run-AllFair is (registry_after g (promised i.authorized i.request g)) w.1 low' all'

  -- If a state represents a registry whose cap is at most a bound and whose entries have fees of
  -- at most the bound and endpoints that are not empty, then, after any sequence of invocations
  -- with any signatures of which none asks for a cap above the bound, `get_active_relayers`
  -- succeeds, changes nothing, and lists only active entries with fees of at most the bound and
  -- endpoints that are not empty.
  pub run-AllOffered :
      (is : List Invocation) {g : Registry} {e : Env}
      → Represents g e
      → AllWithin is
      → g.max_fee_bps ≤ cap
      → AllFair g.relayers
      → (infos : List RelayerInfo) × (get_active_relayers (run e is) ≡ ok infos (run e is))
        × AllOffered infos
  run-AllOffered is {g} r w low all = (
    filter_active (spec_run g is).relayers,
    (run-get_active_relayers is r).0,
    filter_active-AllOffered (spec_run g is).relayers (spec_run-AllFair is g w low all),
  )
