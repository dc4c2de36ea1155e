-- ===== src/Relayer/Relay/Pending.antt =====
-- The pending set of relayer/src/relay.rs along every interleaving of the tasks.
use caligo.Prelude.{
  ℕ, ◌<◌, ◌≡◌, ◌≢◌, refl, ap, sym, ◌∙◌, Bool, true, false, Option, none, some, List, [], ◌∷◌, arith,
  inl, inr, ◌⊎◌, ℕ_discrete,
}
use caligo.Prelude.Tests.{Option-cases}
use caligo.Prelude.Lists.{
  length, get_elem?, set, get_elem?-set_self, get_elem?-set_ne, get_elem?-within,
}
use caligo.Prelude.Bytes.{Bytes, bytes_discrete, contains}
use caligo.Relayer.{Decoders}
use caligo.Relayer.Validate.Accepts.{validate_hex_prefixed}
use caligo.Relayer.Rpc.{SubmitResult}
use caligo.Relayer.Relay.{
  RelayRequest, RelayerState, Phase, arrived, admitted, submitting, submitted, removed, counted,
  answered, Task, Server, insert, remove, validate_fields, advance, step_task, step, run,
}

-- The phases in which a request's nullifier hash has been added and not yet removed.
abbrev pub in_flight : Phase → Bool
in_flight arrived = false
in_flight admitted = false
in_flight submitting = true
in_flight (submitted _) = true
in_flight (removed _) = false
in_flight (counted _) = false
in_flight (answered _) = false

contains-insert :
    (x y : Bytes) (xs : List Bytes) → contains (insert x xs) y ≡ true → x ≢ y → contains xs y ≡ true
unfolding insert contains
contains-insert x y xs h ne = ground (arith, h)

contains-remove :
    (x y : Bytes) (xs : List Bytes)
    → contains (remove x xs) y ≡ true
    → (contains xs y ≡ true) × (x ≢ y)
unfolding remove contains
contains-remove x y [] h = cc
contains-remove x y (z ∷ zs) h = elim (bytes_discrete z x) [
  | yes here ↦
      let (there, ne) = contains-remove x y zs (ground (arith, h)) in (ground (arith, there), ne)
  | no other ↦ elim (bytes_discrete z y) [
    | yes same ↦ (ground arith, λ e. other (same ∙ sym e))
    | no differs ↦
        let (there, ne) = contains-remove x y zs (ground (arith, h)) in (ground (arith, there), ne)
  ]
]

-- A task in flight with this nullifier hash.
abbrev pub Holder : List Task → Bytes → Type 0
Holder tasks x =
    (i : ℕ) × (t : Task) × (get_elem? tasks i ≡ some t)
    × (in_flight t.phase ≡ true)
    × (t.request.nullifier_hash_hex ≡ x)

-- Every pending nullifier hash belongs to a task in flight.
abbrev pub Owned : Server → Type 0
Owned v = (x : Bytes) → contains v.state.pending_nullifiers x ≡ true → Holder v.tasks x

module _ ⦃crates : Decoders⦄ where
  -- What is pending after a step of a task, and is not the task's own, was pending before.
  advance-pending :
      (q : RelayRequest) (result : SubmitResult) (s : RelayerState) (phase : Phase) (x : Bytes)
      → let next = advance q result s phase in
        contains next.0.pending_nullifiers x ≡ true
        → q.nullifier_hash_hex ≢ x
        → contains s.pending_nullifiers x ≡ true
  unfolding advance
  advance-pending q result s arrived x h ne = ground arith
  advance-pending q result s admitted x h ne = elim (Option-cases (validate_fields q)) [
    | inl fine ↦ contains-insert q.nullifier_hash_hex x s.pending_nullifiers (ground arith) ne
    | inr (e, bad) ↦ ground arith
  ]
  advance-pending q result s submitting x h ne = h
  advance-pending q result s (submitted r) x h ne =
      (contains-remove q.nullifier_hash_hex x s.pending_nullifiers h).0
  advance-pending q result s (removed r) x h ne = ground arith
  advance-pending q result s (counted r) x h ne = h
  advance-pending q result s (answered response) x h ne = h

  -- The task's own is pending after the step only if the task is in flight then, or if it was not
  -- in flight before and another had it pending.
  advance-own :
      (q : RelayRequest) (result : SubmitResult) (s : RelayerState) (phase : Phase)
      → let next = advance q result s phase in
        contains next.0.pending_nullifiers q.nullifier_hash_hex ≡ true
        → (in_flight next.1 ≡ true)
          ⊎ ((in_flight phase ≡ false)
              × (contains s.pending_nullifiers q.nullifier_hash_hex ≡ true))
  unfolding advance
  advance-own q result s arrived h = inr (refl, ground arith)
  advance-own q result s admitted h = elim (Option-cases (validate_fields q)) [
    | inl fine ↦ inl (ground arith)
    | inr (e, bad) ↦ inr (refl, ground arith)
  ]
  advance-own q result s submitting h = inl refl
  advance-own q result s (submitted r) h =
      absurd
        ((contains-remove q.nullifier_hash_hex q.nullifier_hash_hex s.pending_nullifiers h).1 refl)
  advance-own q result s (removed r) h = inr (refl, ground arith)
  advance-own q result s (counted r) h = inr (refl, h)
  advance-own q result s (answered response) h = inr (refl, h)

  -- The holder of another nullifier hash, or one that was not the stepping task, is there still.
  Holder-set :
      (tasks : List Task) (i : ℕ) (t t' : Task) (x : Bytes)
      → get_elem? tasks i ≡ some t
      → (in_flight t.phase ≡ false) ⊎ (t.request.nullifier_hash_hex ≢ x)
      → Holder tasks x
      → Holder (set tasks i t') x
  Holder-set tasks i t t' x at other (j, u, there, flies, mine) = elim (ℕ_discrete i j) [
    | yes same ↦
        let one : t ≡ u = some-eq (sym at ∙ ap (get_elem? tasks) same ∙ there) in
        elim other [
          | inl landed ↦
              absurd (true-ne-false (sym flies ∙ sym (ap (λ y. in_flight y.phase) one) ∙ landed))
          | inr apart ↦ absurd (apart (ap (λ y. y.request.nullifier_hash_hex) one ∙ mine))
        ]
    | no differs ↦ (j, u, get_elem?-set_ne tasks i j t' differs ∙ there, flies, mine)
  ]
    where
      some-eq : {a b : Task} → some a ≡ some b → a ≡ b
      some-eq e = cc

      true-ne-false : ¬ (true ≡ false)
      true-ne-false e = cc

  step_task-Owned :
      (i : ℕ) (result : SubmitResult) (v : Server) (o : Option Task)
      → get_elem? v.tasks i ≡ o
      → Owned v
      → Owned (step_task i result v o)
  step_task-Owned i result v none at own x h = own x h
  step_task-Owned i result v (some t) at own x h =
      let next = advance t.request result v.state t.phase in
      let t' : Task = record { request = t.request; phase = next.1 } in
      elim (bytes_discrete t.request.nullifier_hash_hex x) [
        | no apart ↦
            Holder-set v.tasks i t t' x at (inr apart)
              (own x (advance-pending t.request result v.state t.phase x h apart))
        | yes mine ↦
            elim (advance-own t.request result v.state t.phase
              (ap (contains next.0.pending_nullifiers) mine ∙ h)) [
                | inl flies ↦ (
                  i,
                  t',
                  get_elem?-set_self v.tasks i t' (get_elem?-within v.tasks i t at),
                  flies,
                  mine,
                )
                | inr (landed, there) ↦
                    Holder-set v.tasks i t t' x at (inl landed)
                      (own x (ap (contains v.state.pending_nullifiers) (sym mine) ∙ there))
              ]
      ]

  -- If every pending nullifier hash is that of a task between its addition and its removal, then
  -- this holds after any interleaving of the tasks with any results of their submissions.
  pub run-Owned :
      (schedule : List (ℕ × SubmitResult)) (v : Server) → Owned v → Owned (run schedule v)
  unfolding run step
  run-Owned [] v own = own
  run-Owned ((i, result) ∷ schedule) v own =
      run-Owned schedule (step i result v)
        (step_task-Owned i result v (get_elem? v.tasks i) refl own)

  none_pending : (xs : List Bytes) → ((x : Bytes) → contains xs x ≡ true → ⊥) → xs ≡ []
  unfolding contains
  none_pending [] h = refl
  none_pending (x ∷ xs) h = absurd (h x (ground arith))

  -- If every pending nullifier hash is that of a task in flight, then after any interleaving of
  -- the tasks that leaves none between its addition and its removal the pending set is empty, so
  -- that no capacity is lost.
  pub run-drained :
      (schedule : List (ℕ × SubmitResult)) (v : Server)
      → Owned v
      → ((i : ℕ) (t : Task)
          → get_elem? (run schedule v).tasks i ≡ some t
          → in_flight t.phase ≡ false)
      → (run schedule v).state.pending_nullifiers ≡ []
  run-drained schedule v own landed = none_pending (run schedule v).state.pending_nullifiers (λ x h.
      let (i, t, at, flies, mine) = run-Owned schedule v own x h in
      let still = landed i t at in ground arith)

module _ ⦃crates : Decoders⦄ where
  abbrev pub arriving : RelayRequest → RelayRequest → RelayerState → Server
  arriving q q' s = record {
    state = s;
    tasks = record { request = q; phase = arrived } ∷ record { request = q'; phase = arrived } ∷ [];
  }

  -- Two requests whose fields are valid and whose nullifier hashes are not pending, with room
  -- for at least one, are both submitted if both are checked before either is added, whether or
  -- not they have the same nullifier hash.
  pub run-both_submitting :
      (q q' : RelayRequest) (result : SubmitResult) (s : RelayerState)
      → validate_fields q ≡ none
      → validate_fields q' ≡ none
      → contains s.pending_nullifiers q.nullifier_hash_hex ≡ false
      → contains s.pending_nullifiers q'.nullifier_hash_hex ≡ false
      → length s.pending_nullifiers < s.config.max_pending
      → (run ((0, result) ∷ (1, result) ∷ (0, result) ∷ (1, result) ∷ []) (arriving q q' s)).tasks
        ≡ record { request = q; phase = submitting }
          ∷ record { request = q'; phase = submitting }
          ∷ []
  unfolding run step advance
  run-both_submitting q q' result s fine fine' new new' room = ground arith

  -- If a valid request's nullifier hash is pending, there is room, and its spelling with 0x
  -- before it is not pending, then the same request with the nullifier hash spelled so passes
  -- all checks and is submitted.
  pub run-prefixed :
      (q : RelayRequest) (result : SubmitResult) (s : RelayerState)
      → validate_fields q ≡ none
      → contains s.pending_nullifiers q.nullifier_hash_hex ≡ true
      → contains s.pending_nullifiers (48 ∷ 120 ∷ q.nullifier_hash_hex) ≡ false
      → length s.pending_nullifiers < s.config.max_pending
      → let q' : RelayRequest = record q { nullifier_hash_hex = 48 ∷ 120 ∷ q.nullifier_hash_hex } in
        (run
          ((0, result) ∷ (0, result) ∷ [])
          (record { state = s; tasks = record { request = q'; phase = arrived } ∷ [] })).tasks
        ≡ record { request = q'; phase = submitting } ∷ []
  unfolding run step advance validate_fields
  run-prefixed q result s fine pending new room =
      ground (arith, validate_hex_prefixed q.nullifier_hash_hex 32)
