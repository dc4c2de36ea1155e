-- ===== src/RelayerRegistry/Tests.antt =====
-- Tests of contracts/relayer_registry: a small registry with admin 9 and two relayers.
use caligo.Prelude.{ℕ, arith, ◌≡◌, refl, true, false, none, some, List, [], ◌∷◌, ℕ_discrete}
use caligo.Prelude.Tests.{◌==◌}
use caligo.Prelude.Contract.{ok}
use caligo.RelayerRegistry.Storage.{Env, RelayerInfo}
use caligo.RelayerRegistry.Contract.{
  initialize, register, deactivate, reactivate, set_max_fee, get_active_relayers,
}
use caligo.RelayerRegistry.Spec.{
  Registry, find, upsert, filter_active, spec_register, spec_deactivate, spec_reactivate,
  spec_set_max_fee,
}
use caligo.RelayerRegistry.Spec.Entries.{Distinct}
use caligo.RelayerRegistry.Spec.Refine.{Represents, Refines, register-Refines}
use caligo.RelayerRegistry.Spec.Switch.{deactivate-Refines, reactivate-Refines, set_max_fee-Refines}
use caligo.RelayerRegistry.Spec.Active.{initialize-Represents}
use caligo.RelayerRegistry.Runs.{
  Request, Invocation, signed, signed-Represents, run, spec_run, promised, run-Represents,
  run-get_active_relayers,
}
use caligo.RelayerRegistry.Runs.Control.{run-Unsigned, reactivate-deactivate}
use caligo.RelayerRegistry.Runs.Fees.{AllOffered, run-AllOffered}
use caligo.RelayerRegistry.Runs.Lowered.{run-above_cap}
use caligo.Examples.{small_host}

abbrev fresh_env : Env
fresh_env = record {
  storage = record {
    initialized = none;
    admin = none;
    max_fee_bps = none;
    relayer_count = none;
    relayer = λ a. none;
    relayer_index = λ i. none;
  };
  authorized = λ a. a == 9;
  events = [];
}

abbrev empty : Registry
empty = record { admin = 9; max_fee_bps = 500; relayers = []; events = [] }

opened : (e : Env) × (initialize 9 500 fresh_env ≡ ok tt e) × Represents empty e
opened =
    initialize-Represents 9 500
      (record { initialized = refl; relayer = λ a. refl; relayer_index = λ i. refl }) refl

abbrev by : ℕ → Request → Invocation
by a q = record { authorized = λ b. b == a; request = q }

-- Relayer 1 registers twice, relayer 2 too dear and then well; the admin takes 1 out.
abbrev busy : List Invocation
busy =
    by 1 (Request.register 1 (7 ∷ []) 100)
    ∷ by 2 (Request.register 2 (8 ∷ []) 501)
    ∷ by 2 (Request.register 2 (8 ∷ []) 50)
    ∷ by 1 (Request.register 1 (7 ∷ 7 ∷ []) 200)
    ∷ by 9 (Request.deactivate 9 1)
    ∷ []

busy_active :
    filter_active (spec_run empty busy).relayers
    ≡ record { address = 2; endpoint = 8 ∷ []; fee_bps = 50; active = true } ∷ []
unfolding spec_run promised spec_register spec_deactivate find upsert filter_active ℕ_discrete
busy_active = refl

run-get_active_relayers_example :
    (get_active_relayers (run opened.0 busy)
      ≡ ok (filter_active (spec_run empty busy).relayers) (run opened.0 busy))
    × Distinct (spec_run empty busy).relayers
run-get_active_relayers_example = run-get_active_relayers busy opened.2

run-Unsigned_example :
    (run opened.0 (by 2 (Request.deactivate 2 1) ∷ by 2 (Request.register 1 [] 0) ∷ [])).relayer 1
    ≡ opened.0.relayer 1
run-Unsigned_example =
    run-Unsigned (by 2 (Request.deactivate 2 1) ∷ by 2 (Request.register 1 [] 0) ∷ []) 1 opened.2
      (refl, refl, (refl, refl, tt))

abbrev used : Registry
used = spec_run empty busy

abbrev used_env : Env
used_env = run opened.0 busy

used_env-Represents : Represents used used_env
used_env-Represents = run-Represents busy opened.2

entry_1 :
    find 1 used.relayers
    ≡ some (record { address = 1; endpoint = 7 ∷ 7 ∷ []; fee_bps = 200; active = false })
unfolding spec_run promised spec_register spec_deactivate find upsert ℕ_discrete
entry_1 = refl

reactivate-deactivate_example :
    (run used_env (by 9 (Request.deactivate 9 1) ∷ by 1 (Request.reactivate 1) ∷ [])).relayer 1
    ≡ some (record { address = 1; endpoint = 7 ∷ 7 ∷ []; fee_bps = 200; active = true })
reactivate-deactivate_example =
    reactivate-deactivate 9 1
      (record { address = 1; endpoint = 7 ∷ 7 ∷ []; fee_bps = 200; active = false }) (λ b. b == 9)
      (λ b. b == 1) used_env-Represents entry_1 refl

-- The admin lowers the cap below the fee of relayer 1 and back up to the bound.
abbrev capped_busy : List Invocation
capped_busy = by 9 (Request.set_max_fee 9 150) ∷ by 9 (Request.set_max_fee 9 500) ∷ busy

run-AllOffered_example :
    (infos : List RelayerInfo) × (get_active_relayers (run opened.0 capped_busy)
      ≡ ok infos (run opened.0 capped_busy))
    × AllOffered 500 infos
run-AllOffered_example =
    run-AllOffered 500 capped_busy opened.2
      (omega arith, (omega arith, (tt, (tt, (tt, (tt, (tt, tt))))))) (omega arith) tt

used_admin : (used.admin == 9) ≡ true
unfolding spec_run promised spec_register spec_deactivate find upsert ℕ_discrete
used_admin = refl

run-above_cap_example :
    let e' : Env =
      run used_env (by 9 (Request.set_max_fee used.admin 150) ∷ by 1 (Request.reactivate 1) ∷ []) in
    (infos : List RelayerInfo) × (get_active_relayers e' ≡ ok infos e')
    × (find 1 infos
        ≡ some (record { address = 1; endpoint = 7 ∷ 7 ∷ []; fee_bps = 200; active = true }))
    × (e'.max_fee_bps ≡ some 150)
run-above_cap_example =
    run-above_cap 1 (record { address = 1; endpoint = 7 ∷ 7 ∷ []; fee_bps = 200; active = false })
      150 (λ b. b == 9) (λ b. b == 1) used_env-Represents entry_1 used_admin refl

abbrev by_1 : Env
by_1 = signed used_env (λ b. b == 1)

by_1-Represents : Represents used by_1
by_1-Represents = signed-Represents (λ b. b == 1) used_env-Represents

register-Refines_example :
    Refines (register 1 (6 ∷ []) 300 by_1) (spec_register (λ b. b == 1) 1 (6 ∷ []) 300 used)
register-Refines_example = register-Refines 1 (6 ∷ []) 300 by_1-Represents

deactivate-Refines_example : Refines (deactivate 1 2 by_1) (spec_deactivate (λ b. b == 1) 1 2 used)
deactivate-Refines_example = deactivate-Refines 1 2 by_1-Represents

reactivate-Refines_example : Refines (reactivate 1 by_1) (spec_reactivate (λ b. b == 1) 1 used)
reactivate-Refines_example = reactivate-Refines 1 by_1-Represents

set_max_fee-Refines_example :
    Refines (set_max_fee 1 9000 by_1) (spec_set_max_fee (λ b. b == 1) 1 9000 used)
set_max_fee-Refines_example = set_max_fee-Refines 1 9000 by_1-Represents
