-- ===== src/MixerPool/Storage.antt =====
-- contracts/mixer_pool/src/storage.rs: the storage that the keys of `DataKey` address, one field
-- for each key, with the helpers that read and write it; and what else an invocation sees.
use caligo.Prelude.{ℕ, Bool, true, false, Option, some, List, ite, ℕ_discrete}
use caligo.Prelude.Lists.{unwrap_or}
use caligo.Prelude.Int.{ℤ}
use caligo.Prelude.Bytes.{Bytes, bytes_discrete, update}
use caligo.Prelude.Contract.{Call, gets, modify, unwrap}
use caligo.Soroban.{Soroban}
use caligo.MixerPool.Errors.{MixerError}

-- What `env.events().publish` has recorded.
pub data Event : Type 0 where
  deposit : Bytes → ℕ → Event
  withdrawal : Bytes → Event

module _ ⦃host : Soroban⦄ where
  open host use {Address, Ledger}

  pub record Storage : Type 0 where
    pub denomination : Option ℤ
    pub admin : Option Address
    pub token : Option Address
    pub tree_depth : Option ℕ
    pub next_leaf_index : Option ℕ
    pub root_history_size : Option ℕ
    pub root_history_index : Option ℕ
    pub max_fee : Option ℤ
    pub initialized : Option Bool
    pub merkle_node : ℕ → ℕ → Option Bytes
    pub root_history_entry : ℕ → Option Bytes
    pub nullifier_spent : Bytes → Option Bool
    pub commitment_inserted : Bytes → Option Bool

  pub record Env : Type 0 where
    pub storage : Storage
    pub open storage use *
    -- The addresses that have authorized the invocation (`require_auth`).
    pub authorized : Address → Bool
    pub contract_address : Address
    pub ledger : Ledger
    -- Oldest first.
    pub events : List Event

  abbrev pub Act : Type 0 → Type 0
  Act A = Call Env MixerError A

  abbrev pub put : (Storage → Storage) → Act (Unit {0})
  put f = modify (λ e. record e { storage = f e.storage })

  abbrev pub set_denomination : ℤ → Act (Unit {0})
  set_denomination amount = put (λ s. record s { denomination = some amount })

  abbrev pub get_denomination : Act ℤ
  get_denomination e = unwrap e.denomination e

  abbrev pub set_admin : Address → Act (Unit {0})
  set_admin admin = put (λ s. record s { admin = some admin })

  abbrev pub set_tree_depth : ℕ → Act (Unit {0})
  set_tree_depth depth = put (λ s. record s { tree_depth = some depth })

  abbrev pub get_tree_depth : Act ℕ
  get_tree_depth e = unwrap e.tree_depth e

  abbrev pub set_next_leaf_index : ℕ → Act (Unit {0})
  set_next_leaf_index index = put (λ s. record s { next_leaf_index = some index })

  abbrev pub get_next_leaf_index : Act ℕ
  get_next_leaf_index = gets (λ e. unwrap_or e.next_leaf_index 0)

  abbrev pub set_root_history_size : ℕ → Act (Unit {0})
  set_root_history_size size = put (λ s. record s { root_history_size = some size })

  abbrev pub get_root_history_size : Act ℕ
  get_root_history_size e = unwrap e.root_history_size e

  abbrev pub set_root_history_index : ℕ → Act (Unit {0})
  set_root_history_index index = put (λ s. record s { root_history_index = some index })

  abbrev pub get_root_history_index : Act ℕ
  get_root_history_index = gets (λ e. unwrap_or e.root_history_index 0)

  abbrev pub set_max_fee : ℤ → Act (Unit {0})
  set_max_fee fee = put (λ s. record s { max_fee = some fee })

  abbrev pub get_max_fee : Act ℤ
  get_max_fee e = unwrap e.max_fee e

  abbrev pub set_initialized : Act (Unit {0})
  set_initialized = put (λ s. record s { initialized = some true })

  abbrev pub is_initialized : Act Bool
  is_initialized = gets (λ e. unwrap_or e.initialized false)

  abbrev pub set_merkle_node : ℕ → ℕ → Bytes → Act (Unit {0})
  set_merkle_node level index hash = put (λ s. record s {
    merkle_node = λ l i.
        ite (ℕ_discrete level l) (update ℕ_discrete (s.merkle_node l) index hash i)
          (s.merkle_node l i);
  })

  abbrev pub get_merkle_node : ℕ → ℕ → Act (Option Bytes)
  get_merkle_node level index = gets (λ e. e.merkle_node level index)

  abbrev pub set_root_history_entry : ℕ → Bytes → Act (Unit {0})
  set_root_history_entry position root =
      put (λ s. record s {
        root_history_entry = update ℕ_discrete s.root_history_entry position root;
      })

  abbrev pub get_root_history_entry : ℕ → Act (Option Bytes)
  get_root_history_entry position = gets (λ e. e.root_history_entry position)

  abbrev pub set_nullifier_spent : Bytes → Act (Unit {0})
  set_nullifier_spent nullifier_hash = put (λ s. record s {
    nullifier_spent = update bytes_discrete s.nullifier_spent nullifier_hash true;
  })

  abbrev pub is_nullifier_spent : Bytes → Act Bool
  is_nullifier_spent nullifier_hash = gets (λ e. unwrap_or (e.nullifier_spent nullifier_hash) false)

  abbrev pub set_commitment_inserted : Bytes → Act (Unit {0})
  set_commitment_inserted commitment = put (λ s. record s {
    commitment_inserted = update bytes_discrete s.commitment_inserted commitment true;
  })

  abbrev pub is_commitment_inserted : Bytes → Act Bool
  is_commitment_inserted commitment = gets (λ e. unwrap_or (e.commitment_inserted commitment) false)

  abbrev pub set_token : Address → Act (Unit {0})
  set_token token = put (λ s. record s { token = some token })

  abbrev pub get_token : Act Address
  get_token e = unwrap e.token e
