-- ===== src/Indexer/Persist/Tests.antt =====
-- Tests of indexer/src with the feature `postgres`: a tree of depth 1.
use mathlib.Core.Path.{subst}
use caligo.Prelude.{
  ℕ, zero, suc, ◌+◌, ◌++◌, ◌^◌, ◌≤◌, ◌≡◌, ◌≢◌, sym, ap, ◌∙◌, refl, true, false, Option, some, List,
  [], ◌∷◌, arith,
}
use caligo.Prelude.Lists.{length, unwrap_or, get_elem?}
use caligo.Prelude.Int.{pos}
use caligo.Prelude.Bytes.{Bytes, zero_bytes}
use caligo.Indexer.Poseidon.{hash_pair, hash_single}
use caligo.Indexer.Merkle.{new, fill_zeros, insert, root, rebuild, rebuild_from, pair_up}
use caligo.Indexer.Merkle.Mirror.{Mirrors}
use caligo.Indexer.State
use caligo.Indexer.State.{AppState, new_state}
use caligo.Indexer.Restore.{restore, restore_tree}
use caligo.Indexer.Database.{
  initialize_schema, get_all_commitments, get_last_ledger, read_rows, set_last_ledger,
}
use caligo.Indexer.Database.Ledger.{get_last_ledger-set_last_ledger}
use caligo.Indexer.Listener.{start_ledger}
use caligo.Prelude.Decimal.{parse_digits, parse_uint, print_digits, u32_to_string}
use caligo.Indexer.Persist.{
  Service, Event, deposited, polled_to, queried, insert_commitment, update_last_ledger, next_query,
  run, start,
}
use caligo.Indexer.Database.Rows.{Distinct, Sized}
use caligo.Indexer.Persist.Durable.{Durable, commitments_of, run-Durable}
use caligo.Indexer.Persist.Complete.{unwritten, Complete}
use caligo.Indexer.Persist.Restart.{start-Mirrors, run-restored}
use caligo.Indexer.Persist.Loss.{restart-misplaced, restart-lost}
use caligo.Examples.{small_field, small_hex, small_json, bytes_of}

abbrev booted : Service
booted = record {
  state = record {
    tree = record {
      depth = 1;
      leaves = [];
      layers = [] ∷ [] ∷ [];
      zero_values =
          hash_single zero_bytes ∷ hash_pair (hash_single zero_bytes) (hash_single zero_bytes) ∷ [];
    };
    roots =
        record {
          root = hash_pair (hash_single zero_bytes) (hash_single zero_bytes);
          deposit_index = 0;
        }
        ∷ [];
    contract_id = [];
    denomination = pos 100;
    last_ledger = 0;
  };
  connected = true;
  tables = initialize_schema;
  spawned = [];
}

boots : start [] (pos 100) 1 true true true initialize_schema ≡ some booted
unfolding start new_state new root restore restore_tree get_all_commitments get_last_ledger
    read_rows fill_zeros
boots = refl

booted_tree : Mirrors [] 1 booted.state.tree
unfolding get_all_commitments read_rows
booted_tree =
    let (w, started, m, _, _, _, _) =
      start-Mirrors [] (pos 100) {depth = 1} initialize_schema (omega arith) in
    let same : w ≡ booted = some-eq (sym started ∙ boots) in
    subst (λ (u : Service). Mirrors [] 1 u.state.tree) same m
  where
    some-eq : {a b : Service} → some a ≡ some b → a ≡ b
    some-eq q = cc

booted-Durable : Durable [] 1 booted
booted-Durable = record { connected = refl; tree = booted_tree; rows = tt; writes = tt }

booted-Complete : Complete [] booted
booted-Complete k x at = cc

-- Two deposits and a ledger, whose tasks go on in the opposite order.
abbrev traffic : List Event
traffic =
    polled_to 7
    ∷ deposited (bytes_of 11)
    ∷ deposited (bytes_of 12)
    ∷ queried 2 true
    ∷ queried 1 true
    ∷ queried 0 true
    ∷ queried 2 true
    ∷ []

abbrev leaves : List Bytes
leaves = bytes_of 11 ∷ bytes_of 12 ∷ []

some-eq : {a b : Bytes} → some a ≡ some b → a ≡ b
some-eq e = cc

leaves-differ : bytes_of 11 ≢ bytes_of 12
leaves-differ e = omega (arith, ap (λ (l : Bytes). unwrap_or (get_elem? l 31) 0) e)

leaves-Distinct : Distinct leaves
leaves-Distinct zero zero x at at' = refl
leaves-Distinct zero (suc zero) x at at' = absurd (leaves-differ (some-eq (at ∙ sym at')))
leaves-Distinct zero (suc (suc k)) x at at' = cc
leaves-Distinct (suc zero) zero x at at' = absurd (leaves-differ (some-eq (at' ∙ sym at)))
leaves-Distinct (suc zero) (suc zero) x at at' = refl
leaves-Distinct (suc zero) (suc (suc k)) x at at' = cc
leaves-Distinct (suc (suc j)) k x at at' = cc

leaves-Sized : Sized leaves
leaves-Sized zero x at = ap length (sym (some-eq at))
leaves-Sized (suc zero) x at = ap length (sym (some-eq at))
leaves-Sized (suc (suc k)) x at = cc

abbrev after_traffic : Service
after_traffic = unwrap_or (run traffic booted) booted

traffic_fits : length {A = Bytes} [] + length (commitments_of traffic) ≤ 2 ^ 31
unfolding commitments_of
traffic_fits = omega arith

run-Durable_example :
    (v : Service) × (run traffic booted ≡ some v) × Durable ([] ++ commitments_of traffic) 1 v
run-Durable_example = run-Durable traffic {ls = []} traffic_fits booted-Durable

traffic_commitments : commitments_of traffic ≡ leaves
unfolding commitments_of
traffic_commitments = refl

after_traffic_runs : run traffic booted ≡ some after_traffic
after_traffic_runs = let (v, ran, _) = run-Durable_example in rw ran refl

after_traffic_settled : unwritten after_traffic.spawned ≡ 0
unfolding unwritten run insert_commitment State.insert_commitment insert rebuild rebuild_from
    pair_up root update_last_ledger next_query
after_traffic_settled = refl

run-restored_example :
    (w : Service) × (start [] (pos 100) 1 true true true after_traffic.tables ≡ some w)
    × (root w.state.tree ≡ root after_traffic.state.tree)
    × Durable ([] ++ commitments_of traffic) 1 w
    × Complete ([] ++ commitments_of traffic) w
run-restored_example =
    run-restored [] (pos 100) traffic {ls = []} after_traffic (omega arith) traffic_fits
      (unfold commitments_of in leaves-Distinct) (unfold commitments_of in leaves-Sized)
      (refl, (refl, (refl, (refl, tt)))) booted-Durable booted-Complete after_traffic_runs
      after_traffic_settled

restart-misplaced_example :
    (v' : Service) × (w : Service) × (run
        (deposited (bytes_of 11) ∷ deposited (bytes_of 12) ∷ queried 0 false ∷ queried 1 true ∷ [])
        booted
      ≡ some v')
    × (start [] (pos 100) 1 true true true v'.tables ≡ some w)
    × Mirrors leaves 1 v'.state.tree
    × Mirrors (bytes_of 12 ∷ []) 1 w.state.tree
restart-misplaced_example =
    restart-misplaced (bytes_of 11) (bytes_of 12) [] (pos 100) (omega arith) refl booted-Durable
      refl refl

restart-lost_example :
    (v' : Service) × (w : Service) × (run
        (polled_to 7 ∷ deposited (bytes_of 11) ∷ queried 0 true ∷ [])
        booted
      ≡ some v')
    × (start [] (pos 100) 1 true true true v'.tables ≡ some w)
    × Mirrors (bytes_of 11 ∷ []) 1 v'.state.tree
    × Mirrors [] 1 w.state.tree
    × ((latest : Option ℕ) → start_ledger latest w.state ≡ 8)
restart-lost_example =
    restart-lost 7 (bytes_of 11) [] (pos 100) (omega arith) (omega arith) (omega arith)
      booted-Durable refl refl

get_last_ledger-set_last_ledger_example :
    get_last_ledger (set_last_ledger 4294967295 initialize_schema) ≡ 4294967295
get_last_ledger-set_last_ledger_example =
    get_last_ledger-set_last_ledger 4294967295 initialize_schema (omega arith)

-- The text of a ledger, and texts that are no ledger.
ledger_text :
    set_last_ledger 905 initialize_schema
    ≡ record initialize_schema { last_ledger = some (57 ∷ 48 ∷ 53 ∷ []) }
unfolding set_last_ledger u32_to_string print_digits
ledger_text = refl

no_ledger : get_last_ledger (record initialize_schema { last_ledger = some (45 ∷ 53 ∷ []) }) ≡ 0
unfolding get_last_ledger parse_uint parse_digits
no_ledger = refl
