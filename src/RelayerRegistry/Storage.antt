-- ===== src/RelayerRegistry/Storage.antt =====
-- contracts/relayer_registry/src/storage.rs and errors.rs: the storage that the keys of `DataKey`
-- address, one field for each key, and the helpers that read and write it.
use caligo.Prelude.{ℕ, Bool, true, false, Option, none, some, List, ℕ_discrete}
use caligo.Prelude.Lists.{unwrap_or}
use caligo.Prelude.Bytes.{Bytes, update}
use caligo.Prelude.Contract.{Call, gets, modify, unwrap}
use caligo.Soroban.{Soroban}

pub data RegistryError : Type 0 where
  already_initialized fee_too_high invalid_endpoint relayer_not_found unauthorized : RegistryError

module _ ⦃host : Soroban⦄ where
  open host use {Address, address_discrete}

  pub record RelayerInfo : Type 0 where
    pub address : Address
    pub endpoint : Bytes
    pub fee_bps : ℕ
    pub active : Bool

  -- What `env.events().publish` has recorded.
  pub data Event : Type 0 where
    register deactivate reactivate : Address → Event

  pub record Storage : Type 0 where
    pub initialized : Option Bool
    pub admin : Option Address
    pub max_fee_bps : Option ℕ
    pub relayer_count : Option ℕ
    pub relayer : Address → Option RelayerInfo
    pub relayer_index : ℕ → Option Address

  pub record Env : Type 0 where
    pub storage : Storage
    pub open storage use *
    -- The addresses that have authorized the invocation (`require_auth`).
    pub authorized : Address → Bool
    -- Oldest first.
    pub events : List Event

  abbrev pub Act : Type 0 → Type 0
  Act A = Call Env RegistryError A

  abbrev pub put : (Storage → Storage) → Act (Unit {0})
  put f = modify (λ e. record e { storage = f e.storage })

  -- `has` of a key.
  abbrev pub has : {A : Type 0} → Option A → Bool
  has none = false
  has (some _) = true

  abbrev pub is_initialized : Act Bool
  is_initialized = gets (λ e. has e.initialized)

  abbrev pub set_initialized : Act (Unit {0})
  set_initialized = put (λ s. record s { initialized = some true })

  abbrev pub set_admin : Address → Act (Unit {0})
  set_admin admin = put (λ s. record s { admin = some admin })

  abbrev pub get_admin : Act Address
  get_admin e = unwrap e.admin e

  abbrev pub set_max_fee_bps : ℕ → Act (Unit {0})
  set_max_fee_bps max_fee_bps = put (λ s. record s { max_fee_bps = some max_fee_bps })

  abbrev pub get_max_fee_bps : Act ℕ
  get_max_fee_bps e = unwrap e.max_fee_bps e

  abbrev pub set_relayer_count : ℕ → Act (Unit {0})
  set_relayer_count count = put (λ s. record s { relayer_count = some count })

  abbrev pub get_relayer_count : Act ℕ
  get_relayer_count = gets (λ e. unwrap_or e.relayer_count 0)

  abbrev pub has_relayer : Address → Act Bool
  has_relayer relayer = gets (λ e. has (e.relayer relayer))

  abbrev pub set_relayer : Address → RelayerInfo → Act (Unit {0})
  set_relayer relayer info =
      put (λ s. record s { relayer = update address_discrete s.relayer relayer info })

  abbrev pub get_relayer : Address → Act (Option RelayerInfo)
  get_relayer relayer = gets (λ e. e.relayer relayer)

  abbrev pub set_relayer_index : ℕ → Address → Act (Unit {0})
  set_relayer_index index relayer =
      put (λ s. record s { relayer_index = update ℕ_discrete s.relayer_index index relayer })

  abbrev pub get_relayer_index : ℕ → Act (Option Address)
  get_relayer_index index = gets (λ e. e.relayer_index index)
