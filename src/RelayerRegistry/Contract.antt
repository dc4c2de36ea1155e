-- ===== src/RelayerRegistry/Contract.antt =====
-- contracts/relayer_registry/src/lib.rs: the entry points of the registry.
use caligo.Prelude.{
  ℕ, zero, suc, ◌+◌, Bool, true, false, ◌&&◌, not, Option, none, some, List, [], ◌∷◌, ◌++◌, ite,
}
use caligo.Prelude.Tests.{ltb, ◌==◌, if◌then◌else◌}
use caligo.Prelude.Lists.{length}
use caligo.Prelude.Bytes.{Bytes}
use caligo.Prelude.Contract.{modify, err_if, trap_unless, ok_or, add_u32, ok, ◌>>=◌, ◌>>◌}
use caligo.Soroban.{Soroban}
use caligo.RelayerRegistry.Storage.{
  already_initialized, fee_too_high, invalid_endpoint, relayer_not_found, unauthorized, RelayerInfo,
  Event, Env, Act, is_initialized, set_initialized, set_admin, get_admin, set_max_fee_bps,
  get_max_fee_bps, set_relayer_count, get_relayer_count, has_relayer, set_relayer, get_relayer,
  set_relayer_index,
}

module _ ⦃host : Soroban⦄ where
  open host use {Address, address_discrete}

  abbrev pub require_auth : Address → Act (Unit {0})
  require_auth address e = trap_unless (e.authorized address) e

  abbrev pub publish : Event → Act (Unit {0})
  publish event = modify (λ e. record e { events = e.events ++ (event ∷ []) })

  abbrev pub same_address : Address → Address → Bool
  same_address a b = ite (address_discrete a b) true false

  unfoldable pub initialize : Address → ℕ → Act (Unit {0})
  initialize admin max_fee_bps = do
    initialized ← is_initialized
    err_if initialized already_initialized
    require_auth admin
    set_admin admin
    set_max_fee_bps max_fee_bps
    set_relayer_count 0
    set_initialized

  -- `if is_new { ... }`.
  abbrev pub enumerate_if : Bool → Address → Act (Unit {0})
  enumerate_if is_new relayer e =
      if is_new
      then (do
        count ← get_relayer_count
        set_relayer_index count relayer
        next ← add_u32 count 1
        set_relayer_count next)
          e
      else ok tt e

  unfoldable pub register : Address → Bytes → ℕ → Act (Unit {0})
  register relayer endpoint fee_bps = do
    require_auth relayer
    max_fee ← get_max_fee_bps
    err_if (ltb max_fee fee_bps) fee_too_high
    err_if (length endpoint == 0) invalid_endpoint
    known ← has_relayer relayer
    set_relayer relayer
        (record { address = relayer; endpoint = endpoint; fee_bps = fee_bps; active = true })
    enumerate_if (not known) relayer
    publish (Event.register relayer)

  unfoldable pub deactivate : Address → Address → Act (Unit {0})
  deactivate caller relayer = do
    require_auth caller
    admin ← get_admin
    err_if (not (same_address caller relayer) && not (same_address caller admin)) unauthorized
    stored ← get_relayer relayer
    info ← ok_or stored relayer_not_found
    set_relayer relayer (record info { active = false })
    publish (Event.deactivate relayer)

  unfoldable pub reactivate : Address → Act (Unit {0})
  reactivate relayer = do
    require_auth relayer
    stored ← get_relayer relayer
    info ← ok_or stored relayer_not_found
    set_relayer relayer (record info { active = true })
    publish (Event.reactivate relayer)

  unfoldable pub set_max_fee : Address → ℕ → Act (Unit {0})
  set_max_fee admin max_fee_bps = do
    require_auth admin
    stored ← get_admin
    err_if (not (same_address admin stored)) unauthorized
    set_max_fee_bps max_fee_bps

  -- The body of the loop of `get_active_relayers`.
  abbrev pub push_if_active : List RelayerInfo → Option RelayerInfo → List RelayerInfo
  push_if_active result none = result
  push_if_active result (some info) = if info.active then result ++ (info ∷ []) else result

  abbrev pub stored_at : Env → Option Address → Option RelayerInfo
  stored_at e none = none
  stored_at e (some addr) = e.relayer addr

  -- The loop `for i in 0..count`, with so many rounds left.
  unfoldable pub active_from : ℕ → ℕ → List RelayerInfo → Act (List RelayerInfo)
  active_from zero i result e = ok result e
  active_from (suc rounds) i result e =
      active_from rounds (i + 1) (push_if_active result (stored_at e (e.relayer_index i))) e

  unfoldable pub get_active_relayers : Act (List RelayerInfo)
  get_active_relayers = do count ← get_relayer_count; active_from count 0 []
