-- ===== src/Indexer/Persist/Durable.antt =====
-- indexer/src with the feature `postgres`: the tables and the writes on their way against the tree,
-- along every interleaving.
use mathlib.Core.List.{append_assoc, append-nil}
use caligo.Prelude.{
  ℕ, zero, suc, ◌+◌, ◌^◌, ◌≤◌, ◌<◌, ◌≡◌, refl, ◌∙◌, Bool, true, false, Option, none, some, List, [],
  ◌∷◌, ◌++◌, arith,
}
use caligo.Prelude.Lists.{
  length, get_elem?, set, length-snoc, get_elem?-snoc_self, get_elem?-snoc_ne, get_elem?-within,
}
use caligo.Prelude.Bytes.{Bytes}
use caligo.Prelude.Options.{◌>>=◌}
use caligo.Bn254.{Bn254}
use caligo.Indexer.Merkle.Mirror.{Mirrors, insert-Mirrors}
use caligo.Indexer.Merkle.Proofs.{tree_node, root_lem}
use caligo.Indexer.State
use caligo.Indexer.State.{Hex}
use caligo.Indexer.Database.{Tables, CommitmentRow}
use caligo.Indexer.Database
use caligo.Indexer.Database.Rows.{Backed, insert_commitment-Backed}
use caligo.Indexer.Persist.{
  Spawned, commitment_write, root_write, ledger_write, finished, Service, next_query, step_write,
  Event, deposited, polled_to, queried, insert_commitment, update_last_ledger, run,
}

-- Every leaf of the one list is the same leaf of the other.
abbrev pub Extends : List Bytes → List Bytes → Type 0
Extends ls ls' = (k : ℕ) (x : Bytes) → get_elem? ls k ≡ some x → get_elem? ls' k ≡ some x

pub Extends-snoc : (ls : List Bytes) (c : Bytes) → Extends ls (ls ++ (c ∷ []))
Extends-snoc ls c k x at =
    let within = get_elem?-within ls k x at in
    get_elem?-snoc_ne ls c k (λ e. absurd (omega (arith, e))) ∙ at

Backed-Extends :
    (ls ls' : List Bytes) (low : ℕ) (rows : List CommitmentRow)
    → Extends ls ls'
    → Backed ls low rows
    → Backed ls' low rows
Backed-Extends ls ls' low [] more b = tt
Backed-Extends ls ls' low (r ∷ rows) more (j, y, e, above, there, rest) =
    (j, y, e, above, more j y there, Backed-Extends ls ls' (suc j) rows more rest)

-- A write on its way holds a leaf of the tree.
abbrev pub IsFor : List Bytes → Spawned → Type 0
IsFor ls (commitment_write k x root_bytes n) = get_elem? ls k ≡ some x
IsFor ls (root_write _ _) = Unit
IsFor ls (ledger_write _) = Unit
IsFor ls finished = Unit

abbrev pub AllFor : List Bytes → List Spawned → Type 0
AllFor ls [] = Unit
AllFor ls (task ∷ tasks) = IsFor ls task × AllFor ls tasks

IsFor-Extends :
    (ls ls' : List Bytes) (task : Spawned) → Extends ls ls' → IsFor ls task → IsFor ls' task
IsFor-Extends ls ls' (commitment_write k x _ _) more h = more k x h
IsFor-Extends ls ls' (root_write _ _) more h = tt
IsFor-Extends ls ls' (ledger_write _) more h = tt
IsFor-Extends ls ls' finished more h = tt

AllFor-Extends :
    (ls ls' : List Bytes) (tasks : List Spawned)
    → Extends ls ls'
    → AllFor ls tasks
    → AllFor ls' tasks
AllFor-Extends ls ls' [] more h = tt
AllFor-Extends ls ls' (task ∷ tasks) more (h, rest) =
    (IsFor-Extends ls ls' task more h, AllFor-Extends ls ls' tasks more rest)

AllFor-snoc :
    (ls : List Bytes) (tasks : List Spawned) (task : Spawned)
    → AllFor ls tasks
    → IsFor ls task
    → AllFor ls (tasks ++ (task ∷ []))
AllFor-snoc ls [] task h new = (new, tt)
AllFor-snoc ls (t ∷ tasks) task (h, rest) new = (h, AllFor-snoc ls tasks task rest new)

AllFor-set :
    (ls : List Bytes) (tasks : List Spawned) (i : ℕ) (task : Spawned)
    → AllFor ls tasks
    → IsFor ls task
    → AllFor ls (set tasks i task)
AllFor-set ls [] i task h new = tt
AllFor-set ls (t ∷ tasks) zero task (h, rest) new = (new, rest)
AllFor-set ls (t ∷ tasks) (suc i) task (h, rest) new = (h, AllFor-set ls tasks i task rest new)

pub AllFor-at :
    (ls : List Bytes) (tasks : List Spawned) (i : ℕ) (task : Spawned)
    → AllFor ls tasks
    → get_elem? tasks i ≡ some task
    → IsFor ls task
AllFor-at ls [] i task h at = cc
AllFor-at ls (t ∷ tasks) zero task (h, rest) at = let same : t ≡ task = cc in rw (← same) h
AllFor-at ls (t ∷ tasks) (suc i) task (h, rest) at = AllFor-at ls tasks i task rest at

module _ ⦃bn : Bn254⦄ where
  -- The write that a commitment sends off as the next leaf.
  abbrev pub write_of : List Bytes → Bytes → ℕ → Spawned
  write_of ls c depth =
      commitment_write (length ls) c (tree_node (ls ++ (c ∷ [])) depth 0) (suc (length ls))

  -- The service is connected, its tree has these leaves, and each row and each write on its way
  -- holds the leaf of its index.
  pub record Durable (ls : List Bytes) (depth : ℕ) (v : Service) : Type 0 where
    pub connected : v.connected ≡ true
    pub tree : Mirrors ls depth v.state.tree
    pub rows : Backed ls 0 v.tables.commitments
    pub writes : AllFor ls v.spawned

-- The rows after a query of a task, and what the task has still to write.
next_query-Backed :
    (ls : List Bytes) (task : Spawned) (effective : Bool) (t : Tables)
    → length ls ≤ 2 ^ 31
    → IsFor ls task
    → Backed ls 0 t.commitments
    → Backed ls 0 (next_query task effective t).0.commitments
      × IsFor ls (next_query task effective t).1
unfolding next_query Database.insert_root Database.set_last_ledger
next_query-Backed ls (commitment_write k x root_bytes n) true t small at b =
    (insert_commitment-Backed ls k x (omega (arith, get_elem?-within ls k x at)) t b at, tt)
next_query-Backed ls (commitment_write k x root_bytes n) false t small at b = (b, tt)
next_query-Backed ls (root_write root_bytes n) true t small at b = (b, tt)
next_query-Backed ls (root_write root_bytes n) false t small at b = (b, tt)
next_query-Backed ls (ledger_write ledger) true t small at b = (b, tt)
next_query-Backed ls (ledger_write ledger) false t small at b = (b, tt)
next_query-Backed ls finished effective t small at b = (b, tt)

module _ ⦃bn : Bn254⦄ ⦃hex : Hex⦄ where
  pub insert_commitment-Durable :
      {ls : List Bytes} {depth : ℕ} {v : Service} (c : Bytes)
      → suc (length ls) < 2 ^ 32
      → Durable ls depth v
      → (v' : Service) × (insert_commitment c v ≡ some v')
        × Durable (ls ++ (c ∷ [])) depth v'
        × (v'.tables ≡ v.tables)
        × (v'.spawned ≡ v.spawned ++ (write_of ls c depth ∷ []))
  unfolding insert_commitment State.insert_commitment
  insert_commitment-Durable {ls} {depth} {v} c small h =
      let now = ls ++ (c ∷ []) in
      let (t, run, m) = insert-Mirrors c h.tree in
      let entry : State.RootEntry = record {
        root = hex.encode (tree_node now depth 0);
        deposit_index = suc (length ls);
      } in
      (
        record v {
          state = record v.state { tree = t; roots = v.state.roots ++ (entry ∷ []) };
          spawned = v.spawned ++ (write_of ls c depth ∷ []);
        },
        ground (arith, run, root_lem m, h.connected),
        record {
          connected = h.connected;
          tree = m;
          rows = Backed-Extends ls now 0 v.tables.commitments (Extends-snoc ls c) h.rows;
          writes =
              AllFor-snoc now v.spawned (write_of ls c depth)
                (AllFor-Extends ls now v.spawned (Extends-snoc ls c) h.writes)
                (get_elem?-snoc_self ls c);
        },
        refl,
        refl,
      )

  pub update_last_ledger-Durable :
      {ls : List Bytes} {depth : ℕ} {v : Service} (ledger : ℕ)
      → Durable ls depth v
      → let v' = update_last_ledger ledger v in
        Durable ls depth v'
        × (v'.tables ≡ v.tables)
        × (v'.spawned ≡ v.spawned ++ (ledger_write ledger ∷ []))
  unfolding update_last_ledger
  update_last_ledger-Durable {ls} {depth} {v} ledger h = rw h.connected (
    record {
      connected = refl;
      tree = h.tree;
      rows = h.rows;
      writes = AllFor-snoc ls v.spawned (ledger_write ledger) h.writes tt;
    },
    refl,
    refl,
  )

  pub step_write-Durable :
      {ls : List Bytes} {depth : ℕ} {v : Service} (i : ℕ) (effective : Bool) (o : Option Spawned)
      → length ls ≤ 2 ^ 31
      → get_elem? v.spawned i ≡ o
      → Durable ls depth v
      → Durable ls depth (step_write i effective o v)
  step_write-Durable i effective none small at h = h
  step_write-Durable {ls} {depth} {v} i effective (some task) small at h =
      let mine = AllFor-at ls v.spawned i task h.writes at in
      let (b, next) = next_query-Backed ls task effective v.tables small mine h.rows in
      record {
        connected = h.connected;
        tree = h.tree;
        rows = b;
        writes = AllFor-set ls v.spawned i (next_query task effective v.tables).1 h.writes next;
      }

-- The commitments of a sequence of events.
unfoldable pub commitments_of : List Event → List Bytes
commitments_of [] = []
commitments_of (deposited c ∷ events) = c ∷ commitments_of events
commitments_of (polled_to _ ∷ events) = commitments_of events
commitments_of (queried _ _ ∷ events) = commitments_of events

module _ ⦃bn : Bn254⦄ ⦃hex : Hex⦄ where
  -- If the tree of a connected service is that of a list of leaves, the rows are in ascending
  -- order, and each row and each write on its way holds the leaf of its index, then after any
  -- interleaving of deposits, polled ledgers and queries, which take effect or fail, with at
  -- most 2^31 leaves, the service has not panicked and all this holds of the leaves and the
  -- deposits.
  pub run-Durable :
      (events : List Event) {ls : List Bytes} {depth : ℕ} {v : Service}
      → length ls + length (commitments_of events) ≤ 2 ^ 31
      → Durable ls depth v
      → (v' : Service) × (run events v ≡ some v') × Durable (ls ++ commitments_of events) depth v'
  unfolding run commitments_of
  run-Durable [] {ls} {depth} {v} small h = (v, refl, rw (append-nil ls) h)
  run-Durable (deposited c ∷ events) {ls} {depth} {v} small h =
      let (v₁, run₁, h₁, _, _) = insert_commitment-Durable c (omega arith) h in
      let (v₂, run₂, h₂) = run-Durable events (omega (arith, length-snoc ls c)) h₁ in
      (v₂, rw (run₁, ◌>>=◌) run₂, rw (← append_assoc ls (c ∷ []) (commitments_of events)) h₂)
  run-Durable (polled_to ledger ∷ events) {ls} {depth} {v} small h =
      run-Durable events small (update_last_ledger-Durable ledger h).0
  run-Durable (queried i effective ∷ events) {ls} {depth} {v} small h =
      run-Durable events small
        (step_write-Durable i effective (get_elem? v.spawned i) (omega arith) refl h)
