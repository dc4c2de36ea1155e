-- ===== src/Relayer/Relay/Answers.antt =====
-- How relayer/src/relay.rs answers a request, however the tasks interleave.
use caligo.Prelude.{
  ℕ, suc, ◌≤◌, ◌≡◌, ◌≢◌, refl, ap, sym, ◌∙◌, true, false, none, some, List, [], ◌∷◌, arith, inl,
  inr, ℕ_discrete,
}
use caligo.Prelude.Tests.{◌==◌, leb, if◌then◌else◌, Bool-cases, Option-cases}
use caligo.Prelude.Lists.{length, get_elem?, get_elem?-set_self, get_elem?-set_ne, get_elem?-within}
use caligo.Prelude.Bytes.{contains}
use caligo.Relayer.{Decoders}
use caligo.Relayer.Rpc.{SubmitResult}
use caligo.Relayer.Relay.{
  RelayRequest, RelayerState, Phase, Response, refusal, ok, too_many_requests, conflict,
  bad_request, internal_server_error, at_capacity, already_processing, not_submitted, arrived,
  answered, Task, Server, validate_fields, advance, step, run,
}

-- How often the task i goes on, and what its submission would give at each of these turns.
unfoldable pub turns : ℕ → List (ℕ × SubmitResult) → ℕ
turns i [] = 0
turns i ((j, result) ∷ schedule) = let rest = turns i schedule in if j == i then suc rest else rest

unfoldable pub results : ℕ → List (ℕ × SubmitResult) → List SubmitResult
results i [] = []
results i ((j, result) ∷ schedule) =
    let rest = results i schedule in if j == i then result ∷ rest else rest

-- The answer to a request that was submitted.
abbrev pub concluded : SubmitResult → Response
concluded result =
    if result.success
    then record { status = ok; success = true; tx_hash = result.tx_hash; error = none }
    else record {
      status = internal_server_error;
      success = false;
      tx_hash = none;
      error = some (not_submitted result.error);
    }

module _ ⦃crates : Decoders⦄ where
  -- The state that the task i finds when it first goes on.
  unfoldable pub first_seen : ℕ → List (ℕ × SubmitResult) → Server → RelayerState
  first_seen i [] v = v.state
  first_seen i ((j, result) ∷ schedule) v =
      let rest = first_seen i schedule (step j result v) in if j == i then v.state else rest

  -- The answer that is due to a request by the state it finds and the result of its submission.
  unfoldable pub reply : RelayRequest → RelayerState → SubmitResult → Response
  reply q s result =
      if leb s.config.max_pending (length s.pending_nullifiers)
      then refusal too_many_requests at_capacity
      else if contains s.pending_nullifiers q.nullifier_hash_hex
      then refusal conflict already_processing
      else elim (validate_fields q) [ some e ↦ refusal bad_request e | none ↦ concluded result ]

  abbrev next : RelayRequest → SubmitResult → RelayerState → Phase → Phase
  next q result s phase = (advance q result s phase).1

  six_turns :
      (q : RelayRequest) (s₁ s₂ s₃ s₄ s₅ s₆ : RelayerState) (r₁ r₂ r₃ r₄ r₅ r₆ : SubmitResult)
      → next q r₆ s₆
          (next q r₅ s₅ (next q r₄ s₄ (next q r₃ s₃ (next q r₂ s₂ (next q r₁ s₁ arrived)))))
        ≡ answered (reply q s₁ r₃)
  unfolding advance reply
  six_turns q s₁ s₂ s₃ s₄ s₅ s₆ r₁ r₂ r₃ r₄ r₅ r₆ =
      elim (Bool-cases (leb s₁.config.max_pending (length s₁.pending_nullifiers))) [
        | inl full ↦ ground (arith, full)
        | inr room ↦ elim (Bool-cases (contains s₁.pending_nullifiers q.nullifier_hash_hex)) [
          | inl there ↦ ground (arith, room, there)
          | inr new ↦ elim (Option-cases (validate_fields q)) [
            | inr (e, bad) ↦ ground (arith, room, new, bad)
            | inl fine ↦ elim (Bool-cases r₃.success) [
              | inl done ↦ ground (arith, room, new, fine, done)
              | inr failed ↦ ground (arith, room, new, fine, failed)
            ]
          ]
        ]
      ]

  step-own :
      (i : ℕ) (result : SubmitResult) (v : Server) (t : Task)
      → get_elem? v.tasks i ≡ some t
      → get_elem? (step i result v).tasks i
        ≡ some (record { request = t.request; phase = next t.request result v.state t.phase })
  unfolding step
  step-own i result v t at =
      rw at (get_elem?-set_self v.tasks i _ (get_elem?-within v.tasks i t at))

  step-other :
      (i j : ℕ) (result : SubmitResult) (v : Server)
      → j ≢ i
      → get_elem? (step j result v).tasks i ≡ get_elem? v.tasks i
  unfolding step
  step-other i j result v other = elim (Option-cases (get_elem? v.tasks j)) [
    | inl beyond ↦ rw beyond refl
    | inr (u, there) ↦ rw there (get_elem?-set_ne v.tasks j i _ other)
  ]

  -- A schedule up to the next turn of the task i.
  next_turn :
      (schedule : List (ℕ × SubmitResult)) (v : Server) (i n : ℕ) (t : Task)
      → get_elem? v.tasks i ≡ some t
      → suc n ≤ turns i schedule
      → (s : RelayerState) × (result : SubmitResult) × (after : List (ℕ × SubmitResult))
        × (v' : Server) × (run schedule v ≡ run after v')
        × (get_elem? v'.tasks i
            ≡ some (record { request = t.request; phase = next t.request result s t.phase }))
        × (n ≤ turns i after)
        × (first_seen i schedule v ≡ s)
        × (results i schedule ≡ result ∷ results i after)
  unfolding run turns results first_seen
  next_turn [] v i n t at some_left = absurd (omega arith)
  next_turn ((j, result) ∷ schedule) v i n t at some_left = elim (ℕ_discrete j i) [
    | yes mine ↦ (
      v.state,
      result,
      schedule,
      step j result v,
      refl,
      rw mine (step-own i result v t at),
      ground (arith, mine, some_left),
      ground (arith, mine),
      ground (arith, mine),
    )
    | no other ↦
        let (s, r, after, v', same, at', left, seen, all) =
          next_turn schedule (step j result v) i n t (step-other i j result v other ∙ at)
            (ground arith) in
        (s, r, after, v', same, at', left, ground arith, ground arith)
  ]

  -- An answer stays as it is.
  answered-stays :
      (schedule : List (ℕ × SubmitResult)) (v : Server) (i : ℕ) (q : RelayRequest) (a : Response)
      → get_elem? v.tasks i ≡ some (record { request = q; phase = answered a })
      → get_elem? (run schedule v).tasks i ≡ some (record { request = q; phase = answered a })
  unfolding run advance
  answered-stays [] v i q a at = at
  answered-stays ((j, result) ∷ schedule) v i q a at =
      answered-stays schedule (step j result v) i q a (elim (ℕ_discrete j i) [
        | yes mine ↦ rw mine (step-own i result v (record { request = q; phase = answered a }) at)
        | no other ↦ step-other i j result v other ∙ at
      ])

  -- After any interleaving of the tasks with any results of their submissions in which a task
  -- that has just arrived gets at least six turns, it has given the answer that is due: status
  -- 429 if at its first turn the pending set was full, else 409 if its nullifier hash was
  -- pending then, else 400 with the first field that is not valid, and else 200 with the
  -- transaction or 500 with the error by the result of its submission, whatever the other tasks
  -- do.
  pub run-answered :
      (schedule : List (ℕ × SubmitResult)) (v : Server) (i : ℕ) (q : RelayRequest)
      → get_elem? v.tasks i ≡ some (record { request = q; phase = arrived })
      → 6 ≤ turns i schedule
      → (result : SubmitResult) × (get_elem? (results i schedule) 2 ≡ some result)
        × (get_elem? (run schedule v).tasks i
            ≡ some (record {
              request = q;
              phase = answered (reply q (first_seen i schedule v) result);
            }))
  run-answered schedule v i q at enough =
      let (s₁, r₁, after₁, v₁, run₁, at₁, left₁, seen, all₁) =
        next_turn schedule v i 5 (record { request = q; phase = arrived }) at enough in
      let (s₂, r₂, after₂, v₂, run₂, at₂, left₂, _, all₂) = next_turn after₁ v₁ i 4 _ at₁ left₁ in
      let (s₃, r₃, after₃, v₃, run₃, at₃, left₃, _, all₃) = next_turn after₂ v₂ i 3 _ at₂ left₂ in
      let (s₄, r₄, after₄, v₄, run₄, at₄, left₄, _, _) = next_turn after₃ v₃ i 2 _ at₃ left₃ in
      let (s₅, r₅, after₅, v₅, run₅, at₅, left₅, _, _) = next_turn after₄ v₄ i 1 _ at₄ left₄ in
      let (s₆, r₆, after₆, v₆, run₆, at₆, left₆, _, _) = next_turn after₅ v₅ i 0 _ at₅ left₅ in
      let same = six_turns q s₁ s₂ s₃ s₄ s₅ s₆ r₁ r₂ r₃ r₄ r₅ r₆ in
      let all : results i schedule ≡ r₁ ∷ r₂ ∷ r₃ ∷ results i after₃ =
        all₁ ∙ ap (λ rs. r₁ ∷ rs) (all₂ ∙ ap (λ rs. r₂ ∷ rs) all₃) in
      let due : get_elem? v₆.tasks i
          ≡ some (record { request = q; phase = answered (reply q s₁ r₃) }) =
        at₆ ∙ ap (λ phase. some (record { request = q; phase = phase })) same in
      (
        r₃,
        ap (λ (rs : List SubmitResult). get_elem? rs 2) all,
        ap (λ w. get_elem? (Server.tasks w) i) (run₁ ∙ run₂ ∙ run₃ ∙ run₄ ∙ run₅ ∙ run₆)
            ∙ answered-stays after₆ v₆ i q (reply q s₁ r₃) due
            ∙ ap (λ s. some (record { request = q; phase = answered (reply q s r₃) })) (sym seen),
      )
