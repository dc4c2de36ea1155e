-- ===== src/Indexer/Persist/Loss.antt =====
-- indexer/src with the feature `postgres`: restarts that do not find what was in memory.
use caligo.Prelude.{ℕ, suc, ◌^◌, ◌<◌, ◌≡◌, refl, ap, ◌∙◌, true, false, Option, some, [], ◌∷◌, arith}
use caligo.Prelude.Lists.{length}
use caligo.Prelude.Int.{ℤ}
use caligo.Prelude.Bytes.{Bytes}
use caligo.Prelude.Options.{◌>>=◌}
use caligo.Bn254.{Bn254}
use caligo.Indexer.Merkle.Mirror.{Mirrors}
use caligo.Indexer.State.{Hex, AppState}
use caligo.Indexer.Database
use caligo.Indexer.Database.{
  Tables, conflicts, place, read_rows, set_last_ledger, get_all_commitments, get_last_ledger,
}
use caligo.Indexer.Database.Ledger.{get_last_ledger-set_last_ledger}
use caligo.Indexer.Listener.{Json, start_ledger}
use caligo.Indexer.Persist.{
  Spawned, ledger_write, finished, Service, next_query, deposited, polled_to, queried,
  update_last_ledger, run, start,
}
use caligo.Indexer.Persist.Durable.{
  Durable, insert_commitment-Durable, update_last_ledger-Durable, write_of,
}
use caligo.Indexer.Persist.Restart.{start-Mirrors}

-- One row in an empty table.
get_all_commitments-single :
    (k : ℕ) (x : Bytes) (t : Tables)
    → k < 2 ^ 31
    → length x ≡ 32
    → t.commitments ≡ []
    → get_all_commitments (Database.insert_commitment k x t) ≡ (k, x) ∷ []
unfolding get_all_commitments Database.insert_commitment read_rows conflicts place
get_all_commitments-single k x t small long empty = rw empty (ground arith)

-- A set ledger leaves the rows as they are.
get_all_commitments-set_last_ledger :
    (ledger : ℕ) (t : Tables)
    → t.commitments ≡ []
    → get_all_commitments (set_last_ledger ledger t) ≡ []
unfolding get_all_commitments set_last_ledger read_rows
get_all_commitments-set_last_ledger ledger t empty = rw empty

module _ ⦃bn : Bn254⦄ ⦃hex : Hex⦄ where
  -- The first of two tasks fails in its query, the second does not.
  run_second :
      (v : Service) (first second : Spawned)
      → v.spawned ≡ first ∷ second ∷ []
      → (v' : Service) × (run (queried 0 false ∷ queried 1 true ∷ []) v ≡ some v')
        × (v'.state ≡ v.state)
        × (v'.tables ≡ (next_query second true (next_query first false v.tables).0).0)
  unfolding run
  run_second v first second both = (
    record v {
      tables = (next_query second true (next_query first false v.tables).0).0;
      spawned =
          (next_query first false v.tables).1
          ∷ (next_query second true (next_query first false v.tables).0).1
          ∷ [];
    },
    ground (arith, both),
    refl,
    refl,
  )

  -- The ledger's task comes first, and has its query made.
  run_first :
      (v : Service) (ledger : ℕ) (task : Spawned)
      → v.spawned ≡ ledger_write ledger ∷ task ∷ []
      → (v' : Service) × (run (queried 0 true ∷ []) v ≡ some v')
        × (v'.state ≡ v.state)
        × (v'.tables ≡ set_last_ledger ledger v.tables)
  unfolding run next_query
  run_first v ledger task both = (
    record v { tables = set_last_ledger ledger v.tables; spawned = finished ∷ task ∷ [] },
    ground (arith, both),
    refl,
    refl,
  )

  -- If a connected service has no leaves, no rows and no tasks, and two commitments are
  -- deposited, the second of 32 bytes, of which the first one's query fails and the second one's
  -- takes effect, then a restart on the tables has the tree of the second commitment alone, at
  -- index 0, where the tree in memory has it at index 1.
  pub restart-misplaced :
      {depth : ℕ} {v : Service} (x y contract_id : Bytes) (denomination : ℤ)
      → suc depth < 2 ^ 32
      → length y ≡ 32
      → Durable [] depth v
      → v.tables.commitments ≡ []
      → v.spawned ≡ []
      → (v' : Service) × (w : Service) × (run
            (deposited x ∷ deposited y ∷ queried 0 false ∷ queried 1 true ∷ [])
            v
          ≡ some v')
        × (start contract_id denomination depth true true true v'.tables ≡ some w)
        × Mirrors (x ∷ y ∷ []) depth v'.state.tree
        × Mirrors (y ∷ []) depth w.state.tree
  unfolding run next_query
  restart-misplaced {depth} {v} x y contract_id denomination deep long h empty idle =
      let (v₁, run₁, h₁, kept₁, sent₁) = insert_commitment-Durable x (omega arith) h in
      let (v₂, run₂, h₂, kept₂, sent₂) = insert_commitment-Durable y (omega arith) h₁ in
      let first = write_of [] x depth in
      let second = write_of (x ∷ []) y depth in
      let both : v₂.spawned ≡ first ∷ second ∷ [] = sent₂ ∙ rw (sent₁, idle) refl in
      let (v₃, run₃, same, written) = run_second v₂ first second both in
      let clear : v₂.tables.commitments ≡ [] = ap Tables.commitments (kept₂ ∙ kept₁) ∙ empty in
      let read : get_all_commitments v₃.tables ≡ (1, y) ∷ [] =
        ap get_all_commitments written
        ∙ get_all_commitments-single 1 y v₂.tables (omega arith) long clear in
      let (w, started, m, _, _, _, _) = start-Mirrors contract_id denomination v₃.tables deep in
      (v₃, w, rw (run₁, ◌>>=◌, run₂) run₃, started, rw same h₂.tree, rw read at m)

module _ ⦃bn : Bn254⦄ ⦃hex : Hex⦄ ⦃json : Json⦄ where
  start_ledger-resumed :
      (latest : Option ℕ) (s : AppState) (ledger : ℕ)
      → s.last_ledger ≡ ledger
      → 0 < ledger
      → suc ledger < 2 ^ 32
      → start_ledger latest s ≡ suc ledger
  unfolding start_ledger
  start_ledger-resumed latest s ledger e later small = ground arith

  -- If a connected service has no leaves, no rows and no tasks, and a poll up to a ledger above
  -- 0 takes over that ledger and deposits a commitment, and only the query for the ledger takes
  -- effect before a restart, then the restart has the empty tree and asks for events from the
  -- next ledger on.
  pub restart-lost :
      {depth : ℕ} {v : Service} (ledger : ℕ) (x contract_id : Bytes) (denomination : ℤ)
      → suc depth < 2 ^ 32
      → 0 < ledger
      → suc ledger < 2 ^ 32
      → Durable [] depth v
      → v.tables.commitments ≡ []
      → v.spawned ≡ []
      → (v' : Service) × (w : Service) × (run
            (polled_to ledger ∷ deposited x ∷ queried 0 true ∷ [])
            v
          ≡ some v')
        × (start contract_id denomination depth true true true v'.tables ≡ some w)
        × Mirrors (x ∷ []) depth v'.state.tree
        × Mirrors [] depth w.state.tree
        × ((latest : Option ℕ) → start_ledger latest w.state ≡ suc ledger)
  unfolding run next_query
  restart-lost {depth} {v} ledger x contract_id denomination deep later small h empty idle =
      let v₁ = update_last_ledger ledger v in
      let (h₁, kept₁, sent₁) = update_last_ledger-Durable ledger h in
      let (v₂, run₂, h₂, kept₂, sent₂) = insert_commitment-Durable x (omega arith) h₁ in
      let both : v₂.spawned ≡ ledger_write ledger ∷ write_of [] x depth ∷ [] =
        sent₂ ∙ rw (sent₁, idle) refl in
      let (v₃, run₃, same, written) = run_first v₂ ledger (write_of [] x depth) both in
      let read : get_all_commitments v₃.tables ≡ [] =
        ap get_all_commitments written
        ∙ get_all_commitments-set_last_ledger ledger v₂.tables
            (ap Tables.commitments (kept₂ ∙ kept₁) ∙ empty) in
      let (w, started, m, resumed, _, _, _) =
        start-Mirrors contract_id denomination v₃.tables deep in
      let from : w.state.last_ledger ≡ ledger =
        resumed
        ∙ ap get_last_ledger written
        ∙ get_last_ledger-set_last_ledger ledger v₂.tables (omega arith) in
      (
        v₃,
        w,
        rw (run₂, ◌>>=◌) run₃,
        started,
        rw same h₂.tree,
        rw read at m,
        λ latest. start_ledger-resumed latest w.state ledger from later small,
      )
