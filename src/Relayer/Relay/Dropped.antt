-- ===== src/Relayer/Relay/Dropped.antt =====
-- A task of relayer/src/relay.rs that the server drops while it awaits the submission: it takes no
-- further step, and its removal from the pending set is never reached.
use caligo.Prelude.{
  ℕ, ◌≡◌, ◌≢◌, refl, ap, sym, ◌∙◌, Bool, true, false, Option, none, some, List, [], ◌∷◌, arith, inl,
  inr, ◌⊎◌, ℕ_discrete,
}
use caligo.Prelude.Tests.{Option-cases}
use caligo.Prelude.Lists.{get_elem?, set, get_elem?-set_self, get_elem?-set_ne, get_elem?-within}
use caligo.Prelude.Bytes.{Bytes, bytes_discrete, contains}
use caligo.Relayer.{Decoders}
use caligo.Relayer.Rpc.{SubmitResult}
use caligo.Relayer.Relay.{
  RelayRequest, RelayerState, Phase, arrived, admitted, submitting, submitted, removed, counted,
  answered, Task, Server, insert, remove, validate_fields, advance, step_task, step, run,
}
use caligo.Relayer.Relay.Answers.{turns}

-- A task that neither has the nullifier hash pending nor has passed the check for it.
abbrev pub is_outside : Phase → Bool
is_outside arrived = true
is_outside admitted = false
is_outside submitting = false
is_outside (submitted _) = false
is_outside (removed _) = true
is_outside (counted _) = true
is_outside (answered _) = true

contains-insert_of :
    (x y : Bytes) (xs : List Bytes) → contains xs y ≡ true → contains (insert x xs) y ≡ true
unfolding insert contains
contains-insert_of x y xs h = ground (arith, h)

contains-remove_of :
    (x y : Bytes) (xs : List Bytes) → x ≢ y → contains xs y ≡ true → contains (remove x xs) y ≡ true
unfolding remove contains
contains-remove_of x y [] ne h = cc
contains-remove_of x y (z ∷ zs) ne h = ground (arith, contains-remove_of x y zs ne)

module _ ⦃crates : Decoders⦄ where
  advance-keeps :
      (q : RelayRequest) (result : SubmitResult) (s : RelayerState) (phase : Phase) (x : Bytes)
      → contains s.pending_nullifiers x ≡ true
      → (q.nullifier_hash_hex ≢ x) ⊎ (is_outside phase ≡ true)
      → contains (advance q result s phase).0.pending_nullifiers x ≡ true
  unfolding advance
  advance-keeps q result s arrived x h apart = ground arith
  advance-keeps q result s admitted x h apart = elim (Option-cases (validate_fields q)) [
    | inl fine ↦ ground (arith, contains-insert_of q.nullifier_hash_hex x s.pending_nullifiers h)
    | inr (e, bad) ↦ ground arith
  ]
  advance-keeps q result s submitting x h apart = h
  advance-keeps q result s (submitted r) x h (inl ne) =
      contains-remove_of q.nullifier_hash_hex x s.pending_nullifiers ne h
  advance-keeps q result s (submitted r) x h (inr out) = cc
  advance-keeps q result s (removed r) x h apart = ground arith
  advance-keeps q result s (counted r) x h apart = h
  advance-keeps q result s (answered r) x h apart = h

  -- While the nullifier hash is pending, a task that has it does not get past the check.
  advance-is_outside :
      (q : RelayRequest) (result : SubmitResult) (s : RelayerState) (phase : Phase)
      → contains s.pending_nullifiers q.nullifier_hash_hex ≡ true
      → is_outside phase ≡ true
      → is_outside (advance q result s phase).1 ≡ true
  unfolding advance
  advance-is_outside q result s arrived h out = ground arith
  advance-is_outside q result s admitted h out = cc
  advance-is_outside q result s submitting h out = cc
  advance-is_outside q result s (submitted r) h out = cc
  advance-is_outside q result s (removed r) h out = ground arith
  advance-is_outside q result s (counted r) h out = refl
  advance-is_outside q result s (answered r) h out = refl

  -- The nullifier hash is pending, and of all tasks that have it only the task i has it so.
  pub record Stuck (x : Bytes) (i : ℕ) (v : Server) : Type 0 where
    pub pending : contains v.state.pending_nullifiers x ≡ true
    pub others :
        (j : ℕ) (t : Task)
        → j ≢ i
        → get_elem? v.tasks j ≡ some t
        → (t.request.nullifier_hash_hex ≢ x) ⊎ (is_outside t.phase ≡ true)

  step_task-Stuck :
      (x : Bytes) (i j : ℕ) (result : SubmitResult) (v : Server) (o : Option Task)
      → j ≢ i
      → get_elem? v.tasks j ≡ o
      → Stuck x i v
      → Stuck x i (step_task j result v o)
  step_task-Stuck x i j result v none ne at h = h
  step_task-Stuck x i j result v (some u) ne at h = record {
    pending = advance-keeps u.request result v.state u.phase x h.pending (h.others j u ne at);
    others = λ k t other here. elim (ℕ_discrete j k) [
      | no differs ↦ h.others k t other (sym (get_elem?-set_ne v.tasks j k _ differs) ∙ here)
      | yes same ↦
          let next : Task = record {
            request = u.request;
            phase = (advance u.request result v.state u.phase).1;
          } in
          let one : next ≡ t = some-eq (
            sym (get_elem?-set_self v.tasks j next (get_elem?-within v.tasks j u at))
            ∙ ap (get_elem? (set v.tasks j next)) same
            ∙ here) in
          elim (bytes_discrete u.request.nullifier_hash_hex x) [
            | no apart ↦ inl (λ e. apart (ap (λ (y : Task). y.request.nullifier_hash_hex) one ∙ e))
            | yes mine ↦ inr (
                sym (ap (λ (y : Task). is_outside y.phase) one)
                ∙ advance-is_outside u.request result v.state u.phase
                    (ap (contains v.state.pending_nullifiers) mine ∙ h.pending)
                    (outside (h.others j u ne at) mine))
          ]
    ];
  }
    where
      some-eq : {a b : Task} → some a ≡ some b → a ≡ b
      some-eq e = cc

      outside :
          (u.request.nullifier_hash_hex ≢ x) ⊎ (is_outside u.phase ≡ true)
          → u.request.nullifier_hash_hex ≡ x
          → is_outside u.phase ≡ true
      outside (inl apart) mine = absurd (apart mine)
      outside (inr out) mine = out

  -- If a nullifier hash is pending and of the tasks that have it all but one are before the
  -- first check or past the removal, and that one takes no further turn, then after any
  -- interleaving of the others the nullifier hash is still pending and each of the others with
  -- that hash is still before the check or past its removal.
  pub run-Stuck :
      (schedule : List (ℕ × SubmitResult)) (x : Bytes) (i : ℕ) (v : Server)
      → turns i schedule ≡ 0
      → Stuck x i v
      → Stuck x i (run schedule v)
  unfolding run step turns
  run-Stuck [] x i v idle h = h
  run-Stuck ((j, result) ∷ schedule) x i v idle h = elim (ℕ_discrete j i) [
    | yes mine ↦ absurd (ground (arith, mine))
    | no other ↦
        run-Stuck schedule x i (step j result v) (ground (arith, idle))
          (step_task-Stuck x i j result v (get_elem? v.tasks j) other refl h)
  ]
