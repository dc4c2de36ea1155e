-- ===== src/Indexer/Persist/Complete.antt =====
-- indexer/src with the feature `postgres`: every leaf is in the tables or on its way there, as long
-- as no query fails.
use mathlib.Core.List.{append_assoc, append-nil}
use caligo.Prelude.{
  ℕ, zero, suc, ◌+◌, ◌^◌, ◌≤◌, ◌≡◌, refl, ap, sym, ◌∙◌, true, Option, none, some, List, [], ◌∷◌,
  ◌++◌, arith, inl, inr, ◌⊎◌, ℕ_discrete,
}
use caligo.Prelude.Lists.{
  length, get_elem?, set, length-snoc, get_elem?-snoc_ne, get_elem?-snoc_self, get_elem?-within,
}
use caligo.Prelude.Bytes.{Bytes}
use caligo.Prelude.Options.{◌>>=◌}
use caligo.Bn254.{Bn254}
use caligo.Indexer.State.{Hex}
use caligo.Indexer.Database
use caligo.Indexer.Database.{Tables, CommitmentRow, get_all_commitments, get_last_ledger}
use caligo.Indexer.Database.Rows.{
  Backed, Has, row, Distinct, insert_commitment-Has, insert_commitment-Has_self,
}
use caligo.Indexer.Persist.{
  Spawned, commitment_write, root_write, ledger_write, finished, Service, next_query, step_write,
  Event, deposited, polled_to, queried, update_last_ledger, run,
}
use caligo.Indexer.Persist.Durable.{
  Durable, Extends, Extends-snoc, IsFor, AllFor-at, commitments_of, insert_commitment-Durable,
  update_last_ledger-Durable, step_write-Durable, write_of,
}

-- The task has still to write this leaf.
abbrev pub Writes : ℕ → Bytes → Spawned → Type 0
Writes k x (commitment_write j y _ _) = (j ≡ k) × (y ≡ x)
Writes k x (root_write _ _) = ⊥
Writes k x (ledger_write _) = ⊥
Writes k x finished = ⊥

abbrev pub Waiting : ℕ → Bytes → List Spawned → Type 0
Waiting k x [] = ⊥
Waiting k x (task ∷ tasks) = Writes k x task ⊎ Waiting k x tasks

Waiting-snoc :
    (k : ℕ) (x : Bytes) (tasks : List Spawned) (task : Spawned)
    → Waiting k x tasks ⊎ Writes k x task
    → Waiting k x (tasks ++ (task ∷ []))
Waiting-snoc k x [] task (inl w) = absurd w
Waiting-snoc k x [] task (inr w) = inl w
Waiting-snoc k x (t ∷ tasks) task (inl (inl w)) = inl w
Waiting-snoc k x (t ∷ tasks) task (inl (inr w)) = inr (Waiting-snoc k x tasks task (inl w))
Waiting-snoc k x (t ∷ tasks) task (inr w) = inr (Waiting-snoc k x tasks task (inr w))

-- What waits still waits after another task's step, unless it was for that task.
Waiting-set :
    (k : ℕ) (x : Bytes) (tasks : List Spawned) (i : ℕ) (old new : Spawned)
    → get_elem? tasks i ≡ some old
    → Waiting k x tasks
    → Writes k x old ⊎ Waiting k x (set tasks i new)
Waiting-set k x [] i old new at w = absurd w
Waiting-set k x (t ∷ tasks) zero old new at (inl w) = let same : t ≡ old = cc in inl (rw (← same) w)
Waiting-set k x (t ∷ tasks) zero old new at (inr w) = inr (inr w)
Waiting-set k x (t ∷ tasks) (suc i) old new at (inl w) = inr (inl w)
Waiting-set k x (t ∷ tasks) (suc i) old new at (inr w) =
    elim (Waiting-set k x tasks i old new at w) [ inl mine ↦ inl mine | inr rest ↦ inr (inr rest) ]

-- How many tasks have still to write a commitment.
unfoldable pub unwritten : List Spawned → ℕ
unwritten [] = 0
unwritten (commitment_write _ _ _ _ ∷ tasks) = suc (unwritten tasks)
unwritten (root_write _ _ ∷ tasks) = unwritten tasks
unwritten (ledger_write _ ∷ tasks) = unwritten tasks
unwritten (finished ∷ tasks) = unwritten tasks

pub not-Waiting :
    (k : ℕ) (x : Bytes) (tasks : List Spawned) → unwritten tasks ≡ 0 → ¬ Waiting k x tasks
unfolding unwritten
not-Waiting k x [] none_left w = w
not-Waiting k x (commitment_write _ _ _ _ ∷ tasks) none_left w = omega arith
not-Waiting k x (root_write _ _ ∷ tasks) none_left (inl w) = w
not-Waiting k x (root_write _ _ ∷ tasks) none_left (inr w) = not-Waiting k x tasks none_left w
not-Waiting k x (ledger_write _ ∷ tasks) none_left (inl w) = w
not-Waiting k x (ledger_write _ ∷ tasks) none_left (inr w) = not-Waiting k x tasks none_left w
not-Waiting k x (finished ∷ tasks) none_left (inl w) = w
not-Waiting k x (finished ∷ tasks) none_left (inr w) = not-Waiting k x tasks none_left w

-- Every leaf has its row or a task that has still to write it.
abbrev pub Complete : List Bytes → Service → Type 0
Complete ls v =
    (k : ℕ) (x : Bytes)
    → get_elem? ls k ≡ some x
    → Has (row k x) v.tables.commitments ⊎ Waiting k x v.spawned

-- Every query of the sequence takes effect.
abbrev pub Effective : List Event → Type 0
Effective [] = Unit
Effective (deposited _ ∷ events) = Effective events
Effective (polled_to _ ∷ events) = Effective events
Effective (queried _ effective ∷ events) = (effective ≡ true) × Effective events

-- A query loses no row.
next_query-Has :
    (ls : List Bytes) (task : Spawned) (t : Tables) (old : CommitmentRow)
    → length ls ≤ 2 ^ 31
    → IsFor ls task
    → Has old t.commitments
    → Has old (next_query task true t).0.commitments
unfolding next_query Database.insert_root Database.set_last_ledger
next_query-Has ls (commitment_write j y r n) t old small at h =
    insert_commitment-Has ls j y (omega (arith, get_elem?-within ls j y at)) t old h
next_query-Has ls (root_write r n) t old small at h = h
next_query-Has ls (ledger_write ledger) t old small at h = h
next_query-Has ls finished t old small at h = h

-- The task's own leaf has its row after the query.
next_query-Writes :
    (ls : List Bytes) (task : Spawned) (t : Tables) (k : ℕ) (x : Bytes)
    → length ls ≤ 2 ^ 31
    → Distinct ls
    → Backed ls 0 t.commitments
    → get_elem? ls k ≡ some x
    → Writes k x task
    → Has (row k x) (next_query task true t).0.commitments
unfolding next_query
next_query-Writes ls (commitment_write j y r n) t k x small apart b at (same, twin) =
    rw (same, twin)
      (insert_commitment-Has_self ls k x (omega (arith, get_elem?-within ls k x at)) t apart b at)
next_query-Writes ls (root_write r n) t k x small apart b at w = absurd w
next_query-Writes ls (ledger_write ledger) t k x small apart b at w = absurd w
next_query-Writes ls finished t k x small apart b at w = absurd w

Distinct-Extends : (ls ls' : List Bytes) → Extends ls ls' → Distinct ls' → Distinct ls
Distinct-Extends ls ls' more apart j k x at at' = apart j k x (more j x at) (more k x at')

Extends-append : (ls rest : List Bytes) → Extends ls (ls ++ rest)
Extends-append ls [] k x at = rw (append-nil ls) at
Extends-append ls (c ∷ rest) k x at =
    rw (← append_assoc ls (c ∷ []) rest)
      (Extends-append (ls ++ (c ∷ [])) rest k x (Extends-snoc ls c k x at))

module _ ⦃bn : Bn254⦄ where
  step_write-Complete :
      {ls : List Bytes} {depth : ℕ} {v : Service} (i : ℕ) (o : Option Spawned)
      → length ls ≤ 2 ^ 31
      → Distinct ls
      → get_elem? v.spawned i ≡ o
      → Durable ls depth v
      → Complete ls v
      → Complete ls (step_write i true o v)
  step_write-Complete i none small apart at h all k x there = all k x there
  step_write-Complete {ls} {depth} {v} i (some task) small apart at h all k x there =
      elim (all k x there) [
        | inl found ↦ inl (
            next_query-Has ls task v.tables (row k x) small
              (AllFor-at ls v.spawned i task h.writes at) found)
        | inr waits ↦
            elim (Waiting-set k x v.spawned i task (next_query task true v.tables).1 at waits) [
              | inl mine ↦
                  inl (next_query-Writes ls task v.tables k x small apart h.rows there mine)
              | inr later ↦ inr later
            ]
      ]

  insert_commitment-Complete :
      (ls : List Bytes) (depth : ℕ) (v v' : Service) (c : Bytes)
      → v'.tables ≡ v.tables
      → v'.spawned ≡ v.spawned ++ (write_of ls c depth ∷ [])
      → Complete ls v
      → Complete (ls ++ (c ∷ [])) v'
  insert_commitment-Complete ls depth v v' c kept sent all k x at =
      elim (ℕ_discrete k (length ls)) [
        | yes last ↦
            let one : c ≡ x =
              some-eq (
                sym (get_elem?-snoc_self ls c) ∙ ap (get_elem? (ls ++ (c ∷ []))) (sym last) ∙ at) in
            inr (rw sent (Waiting-snoc k x v.spawned (write_of ls c depth) (inr (sym last, one))))
        | no other ↦ elim (all k x (sym (get_elem?-snoc_ne ls c k other) ∙ at)) [
          | inl found ↦ inl (rw kept found)
          | inr waits ↦ inr (rw sent (Waiting-snoc k x v.spawned (write_of ls c depth) (inl waits)))
        ]
      ]
    where
      some-eq : {a b : Bytes} → some a ≡ some b → a ≡ b
      some-eq q = cc

  append-Complete :
      (ls : List Bytes) (v v' : Service) (task : Spawned)
      → v'.tables ≡ v.tables
      → v'.spawned ≡ v.spawned ++ (task ∷ [])
      → Complete ls v
      → Complete ls v'
  append-Complete ls v v' task kept sent all k x at = elim (all k x at) [
    | inl found ↦ inl (rw kept found)
    | inr waits ↦ inr (rw sent (Waiting-snoc k x v.spawned task (inl waits)))
  ]

module _ ⦃bn : Bn254⦄ ⦃hex : Hex⦄ where
  pub run-Complete :
      (events : List Event) {ls : List Bytes} {depth : ℕ} {v : Service}
      → length ls + length (commitments_of events) ≤ 2 ^ 31
      → Distinct (ls ++ commitments_of events)
      → Effective events
      → Durable ls depth v
      → Complete ls v
      → (v' : Service) × (run events v ≡ some v')
        × Durable (ls ++ commitments_of events) depth v'
        × Complete (ls ++ commitments_of events) v'
  unfolding run commitments_of
  run-Complete [] {ls} {depth} {v} small apart effective h all =
      (v, refl, rw (append-nil ls) h, rw (append-nil ls) all)
  run-Complete (deposited c ∷ events) {ls} {depth} {v} small apart effective h all =
      let (v₁, run₁, h₁, kept, sent) = insert_commitment-Durable c (omega arith) h in
      let assoc = append_assoc ls (c ∷ []) (commitments_of events) in
      let (v₂, run₂, h₂, all₂) =
        run-Complete events (omega (arith, length-snoc ls c)) (rw assoc apart) effective h₁
          (insert_commitment-Complete ls depth v v₁ c kept sent all) in
      (v₂, rw (run₁, ◌>>=◌) run₂, rw (← assoc) h₂, rw (← assoc) all₂)
  run-Complete (polled_to ledger ∷ events) {ls} {depth} {v} small apart effective h all =
      let (h₁, kept, sent) = update_last_ledger-Durable ledger h in
      run-Complete events small apart effective h₁
        (append-Complete ls v (update_last_ledger ledger v) (ledger_write ledger) kept sent all)
  run-Complete (queried i effective ∷ events) {ls} {depth} {v} small apart (yes_it_is, rest) h all =
      let whole : length ls ≤ 2 ^ 31 = omega arith in
      let before = Distinct-Extends ls _ (Extends-append ls (commitments_of events)) apart in
      let o = get_elem? v.spawned i in
      rw yes_it_is (
        run-Complete events small apart rest (step_write-Durable i true o whole refl h)
          (step_write-Complete i o whole before refl h all))
