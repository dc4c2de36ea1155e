-- ===== src/Indexer/Persist/Restart.antt =====
-- indexer/src with the feature `postgres`: that a restart finds the tree that was in memory, if no
-- write has failed or is on its way.
use caligo.Prelude.{
  ℕ, suc, ◌+◌, ◌^◌, ◌≤◌, ◌<◌, ◌≡◌, refl, ap, sym, ◌∙◌, true, some, List, [], ◌∷◌, ◌++◌, map, arith,
  inl, inr,
}
use caligo.Prelude.Lists.{length, get_elem?}
use caligo.Prelude.Int.{ℤ}
use caligo.Prelude.Bytes.{Bytes}
use caligo.Prelude.Options.{◌>>=◌}
use caligo.Bn254.{Bn254}
use caligo.Indexer.Merkle.{root}
use caligo.Indexer.Merkle.Proofs.{root_lem}
use caligo.Indexer.Merkle.Mirror.{Mirrors}
use caligo.Indexer.State.{Hex, AppState, new_state-Follows, new_state-last_ledger}
use caligo.Indexer.Restore.{restore_ledger, restore_ledger-tree, restore, restore_tree-Mirrors}
use caligo.Indexer.Database.{Tables, get_all_commitments, get_last_ledger}
use caligo.Indexer.Database.Rows.{Has, row, Distinct, Sized, numbered, read_rows-numbered}
use caligo.Indexer.Persist.{Service, Event, run, start}
use caligo.Indexer.Persist.Complete.{unwritten, not-Waiting, Complete, Effective, run-Complete}
use caligo.Indexer.Persist.Durable.{Durable, commitments_of}

map-numbered : (k : ℕ) (ls : List Bytes) → map (λ r. r.1) (numbered k ls) ≡ ls
unfolding numbered
map-numbered k [] = refl
map-numbered k (x ∷ xs) = ap (◌∷◌ x) (map-numbered (suc k) xs)

module _ ⦃bn : Bn254⦄ where
  Has-settled :
      {ls : List Bytes} {depth : ℕ} {v : Service}
      → Durable ls depth v
      → Complete ls v
      → unwritten v.spawned ≡ 0
      → (k : ℕ) (x : Bytes) → get_elem? ls k ≡ some x
      → Has (row k x) v.tables.commitments
  Has-settled {ls} {depth} {v} h all settled k x at = elim (all k x at) [
    | inl found ↦ found
    | inr waits ↦ absurd (not-Waiting k x v.spawned settled waits)
  ]

  -- The query for all commitments gives the leaves with their numbers.
  get_all_commitments-settled :
      {ls : List Bytes} {depth : ℕ} {v : Service}
      → Sized ls
      → Durable ls depth v
      → Complete ls v
      → unwritten v.spawned ≡ 0
      → get_all_commitments v.tables ≡ numbered 0 ls
  unfolding get_all_commitments
  get_all_commitments-settled {ls} {depth} {v} sized h all settled =
      read_rows-numbered ls ls 0 v.tables.commitments sized (λ i. ap (get_elem? ls) (omega arith))
        h.rows (λ k x _ at. Has-settled h all settled k x at)

restore_ledger-last_ledger :
    ⦃bn : Bn254⦄ ⦃hex : Hex⦄ (ledger : ℕ) (s : AppState)
    → s.last_ledger ≡ 0
    → (restore_ledger (some ledger) s).last_ledger ≡ ledger
restore_ledger-last_ledger ledger s unset = ground arith

module _ ⦃bn : Bn254⦄ ⦃hex : Hex⦄ (contract_id : Bytes) (denomination : ℤ) where
  -- From any tables a start has the tree of the commitments that they list, in their order, and
  -- goes on from the ledger that they hold.
  pub start-Mirrors :
      {depth : ℕ} (tables : Tables)
      → suc depth < 2 ^ 32
      → (w : Service) × (start contract_id denomination depth true true true tables ≡ some w)
        × Mirrors (map (λ r. r.1) (get_all_commitments tables)) depth w.state.tree
        × (w.state.last_ledger ≡ get_last_ledger tables)
        × (w.connected ≡ true)
        × (w.tables ≡ tables)
        × (w.spawned ≡ [])
  unfolding start restore
  start-Mirrors {depth} tables deep =
      let ls = map (λ r. r.1) (get_all_commitments tables) in
      let (s, fresh, f) = new_state-Follows contract_id denomination depth deep in
      let unset = new_state-last_ledger contract_id denomination depth fresh in
      let (t, built, m) = restore_tree-Mirrors ls f.tree in
      let ledger = get_last_ledger tables in
      let with_tree : AppState = record s { tree = t } in
      (
        record {
          state = restore_ledger (some ledger) with_tree;
          connected = true;
          tables = tables;
          spawned = [];
        },
        rw (fresh, ◌>>=◌, built) refl,
        rw (restore_ledger-tree (some ledger) with_tree) m,
        restore_ledger-last_ledger ledger with_tree unset,
        refl,
        refl,
        refl,
      )

  start-restored :
      {ls : List Bytes} {depth : ℕ} {v : Service}
      → suc depth < 2 ^ 32
      → Sized ls
      → Durable ls depth v
      → Complete ls v
      → unwritten v.spawned ≡ 0
      → (w : Service) × (start contract_id denomination depth true true true v.tables ≡ some w)
        × (root w.state.tree ≡ root v.state.tree)
        × Durable ls depth w
        × Complete ls w
  start-restored {ls} {depth} {v} deep sized h all settled =
      let (w, started, m, _, on, kept, idle) = start-Mirrors v.tables deep in
      let read = get_all_commitments-settled sized h all settled in
      let m' = rw (read, map-numbered 0 ls) at m in
      (
        w,
        started,
        root_lem m' ∙ sym (root_lem h.tree),
        record { connected = on; tree = m'; rows = rw kept h.rows; writes = rw idle tt },
        λ k x at. inl (rw kept (Has-settled h all settled k x at)),
      )

  -- If the tree of a connected service is that of a list of leaves, each of them has its row or
  -- a task that has still to write it, and nothing else is in the table or on its way, then
  -- after any interleaving of deposits, polled ledgers and queries that all take effect, with at
  -- most 2^31 leaves, all of 32 bytes and no two alike, and no commitment left to write, a
  -- restart on the tables does not panic, has the root that was in memory, and has again a
  -- service that is connected with all this true of all leaves.
  pub run-restored :
      (events : List Event) {ls : List Bytes} {depth : ℕ} {v : Service} (v' : Service)
      → suc depth < 2 ^ 32
      → length ls + length (commitments_of events) ≤ 2 ^ 31
      → Distinct (ls ++ commitments_of events)
      → Sized (ls ++ commitments_of events)
      → Effective events
      → Durable ls depth v
      → Complete ls v
      → run events v ≡ some v'
      → unwritten v'.spawned ≡ 0
      → (w : Service) × (start contract_id denomination depth true true true v'.tables ≡ some w)
        × (root w.state.tree ≡ root v'.state.tree)
        × Durable (ls ++ commitments_of events) depth w
        × Complete (ls ++ commitments_of events) w
  run-restored events v' deep small apart sized effective h all ran settled =
      let (u, ran', h', all') = run-Complete events small apart effective h all in
      let same : u ≡ v' = some-eq (sym ran' ∙ ran) in
      start-restored {v = v'} deep sized (rw (← same) h') (rw (← same) all') settled
    where
      some-eq : {a b : Service} → some a ≡ some b → a ≡ b
      some-eq q = cc
