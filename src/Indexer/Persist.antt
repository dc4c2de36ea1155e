-- ===== src/Indexer/Persist.antt =====
-- indexer/src/state.rs and main.rs in the build with the feature `postgres`: the state in memory,
-- the tables, and the writes that `tokio::spawn` sends off, which go on query by query beside the
-- rest and in any order. A result `none` is a panic.
pub mod Durable
pub mod Complete
pub mod Restart
pub mod Loss
pub mod Tests
use caligo.Prelude.{
  ℕ, ◌+◌, ◌%◌, ◌^◌, Bool, true, false, Option, none, some, List, [], ◌∷◌, ◌++◌, map,
}
use caligo.Prelude.Tests.{if◌then◌else◌}
use caligo.Prelude.Lists.{get_elem?, set}
use caligo.Prelude.Int.{ℤ}
use caligo.Prelude.Bytes.{Bytes}
use caligo.Prelude.Options.{◌>>=◌}
use caligo.Bn254.{Bn254}
use caligo.Indexer.Merkle.{root}
use caligo.Indexer.State
use caligo.Indexer.State.{Hex, AppState, new_state}
use caligo.Indexer.Restore.{restore}
use caligo.Indexer.Database
use caligo.Indexer.Database.{
  Tables, insert_root, set_last_ledger, get_all_commitments, get_last_ledger,
}

-- A task that writes: the index, the commitment, the root and the deposit index; then the root and
-- the deposit index alone; or a ledger.
pub data Spawned : Type 0 where
  commitment_write : ℕ → Bytes → Bytes → ℕ → Spawned
  root_write : Bytes → ℕ → Spawned
  ledger_write : ℕ → Spawned
  finished : Spawned

-- `connected` is `database.is_some()`.
pub record Service : Type 0 where
  pub state : AppState
  pub connected : Bool
  pub tables : Tables
  pub spawned : List Spawned

abbrev pub spawn : Spawned → Service → Service
spawn task v = if v.connected then record v { spawned = v.spawned ++ (task ∷ []) } else v

-- The next query of a task, and whether it takes effect. An error is logged, and the task goes on.
unfoldable pub next_query : Spawned → Bool → Tables → Tables × Spawned
next_query (commitment_write index commitment root_bytes deposit_index) effective t = (
  if effective then Database.insert_commitment index commitment t else t,
  root_write root_bytes deposit_index,
)
next_query (root_write root_bytes deposit_index) effective t =
    (if effective then insert_root root_bytes deposit_index t else t, finished)
next_query (ledger_write ledger) effective t =
    (if effective then set_last_ledger ledger t else t, finished)
next_query finished effective t = (t, finished)

abbrev pub step_write : ℕ → Bool → Option Spawned → Service → Service
step_write i effective none v = v
step_write i effective (some task) v =
    let next = next_query task effective v.tables in
    record v { tables = next.0; spawned = set v.spawned i next.1 }

-- What happens to the service: the two changes of the state, and a query of the task i.
pub data Event : Type 0 where
  deposited : Bytes → Event
  polled_to : ℕ → Event
  queried : ℕ → Bool → Event

module _ ⦃bn : Bn254⦄ ⦃hex : Hex⦄ where
  unfoldable pub insert_commitment : Bytes → Service → Option Service
  insert_commitment commitment v = do
    inserted ← State.insert_commitment commitment v.state
    root_bytes ← root inserted.0.tree
    let deposit_index = (inserted.1 + 1) % 2 ^ 32
    some (
        spawn (commitment_write inserted.1 commitment root_bytes deposit_index)
          (record v { state = inserted.0 }))

  unfoldable pub update_last_ledger : ℕ → Service → Service
  update_last_ledger ledger v =
      spawn (ledger_write ledger) (record v { state = State.update_last_ledger ledger v.state })

  abbrev pub step : Event → Service → Option Service
  step (deposited commitment) v = insert_commitment commitment v
  step (polled_to ledger) v = some (update_last_ledger ledger v)
  step (queried i effective) v = some (step_write i effective (get_elem? v.spawned i) v)

  unfoldable pub run : List Event → Service → Option Service
  run [] v = some v
  run (event ∷ events) v = do stepped ← step event v; run events stepped

  -- `main` up to the listener, with a database that it reaches or not, and with two queries that
  -- succeed or not.
  unfoldable pub start : Bytes → ℤ → ℕ → Bool → Bool → Bool → Tables → Option Service
  start contract_id denomination tree_depth reached listed dated tables = do
    fresh ← new_state contract_id denomination tree_depth
    let in_memory : Service = record {
      state = fresh;
      connected = false;
      tables = tables;
      spawned = [];
    }
    if reached
        then (do
          restored ←
              restore (if listed then some (map (λ r. r.1) (get_all_commitments tables)) else none)
                (if dated then some (get_last_ledger tables) else none) fresh
          some (record in_memory { state = restored; connected = true }))
        else some in_memory
