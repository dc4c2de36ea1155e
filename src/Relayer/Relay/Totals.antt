-- ===== src/Relayer/Relay/Totals.antt =====
-- The two totals of relayer/src/relay.rs along every interleaving of the tasks.
use caligo.Prelude.{
  ℕ, zero, suc, ◌+◌, ◌%◌, ◌^◌, ◌≡◌, refl, ap, sym, ◌∙◌, Option, none, some, List, [], ◌∷◌, arith,
  inl, inr,
}
use caligo.Prelude.Tests.{if◌then◌else◌, Bool-cases, Option-cases}
use caligo.Prelude.Lists.{get_elem?, set, unwrap_or}
use caligo.Relayer.{Decoders}
use caligo.Relayer.Validate.{parse_u64}
use caligo.Relayer.Rpc.{SubmitResult}
use caligo.Relayer.Relay.{
  RelayRequest, RelayerState, Phase, arrived, admitted, submitting, submitted, removed, counted,
  answered, Task, Server, validate_fields, advance, step_task, step, run,
}

-- The sum of a measure of the tasks.
abbrev pub total : (Task → ℕ) → List Task → ℕ
total f [] = 0
total f (t ∷ ts) = f t + total f ts

-- The sum over the tasks but one.
total_split :
    (f : Task → ℕ) (tasks : List Task) (i : ℕ) (t : Task)
    → get_elem? tasks i ≡ some t
    → (rest : ℕ) × (total f tasks ≡ rest + f t)
      × ((t' : Task) → total f (set tasks i t') ≡ rest + f t')
total_split f [] i t at = cc
total_split f (u ∷ us) zero t at =
    let same : u ≡ t = cc in (total f us, omega (arith, ap f same), λ t'. omega arith)
total_split f (u ∷ us) (suc i) t at =
    let (rest, now, then') = total_split f us i t at in
    (f u + rest, omega (arith, now), λ t'. omega (arith, then' t'))

-- Whether a task has been counted as relayed, and the fee that it has been counted with.
abbrev pub relayed : Task → ℕ
relayed t = elim t.phase [ counted _ ↦ 1 | answered r ↦ if r.success then 1 else 0 | _ ↦ 0 ]

abbrev pub earned : Task → ℕ
earned t = elim t.phase [
  | answered r ↦ if r.success then unwrap_or (parse_u64 t.request.fee) 0 else 0
  | _ ↦ 0
]

module _ ⦃crates : Decoders⦄ where
  advance-totals :
      (q : RelayRequest) (result : SubmitResult) (s : RelayerState) (phase : Phase) (a b : ℕ)
      → let next = advance q result s phase in
        let t : Task = record { request = q; phase = phase } in
        let t' : Task = record { request = q; phase = next.1 } in
        s.total_relayed ≡ (a + relayed t) % 2 ^ 64
        → s.total_earned ≡ (b + earned t) % 2 ^ 64
        → (next.0.total_relayed ≡ (a + relayed t') % 2 ^ 64)
          × (next.0.total_earned ≡ (b + earned t') % 2 ^ 64)
  unfolding advance
  advance-totals q result s arrived a b h k = (ground arith, ground arith)
  advance-totals q result s admitted a b h k = elim (Option-cases (validate_fields q)) [
    | inl fine ↦ (ground arith, ground arith)
    | inr (e, bad) ↦ (ground arith, ground arith)
  ]
  advance-totals q result s submitting a b h k = (h, k)
  advance-totals q result s (submitted r) a b h k = (h, k)
  advance-totals q result s (removed r) a b h k = elim (Bool-cases r.success) [
    | inl sent ↦ (ground arith, ground arith)
    | inr failed ↦ (ground arith, ground arith)
  ]
  advance-totals q result s (counted r) a b h k = (ground arith, ground arith)
  advance-totals q result s (answered r) a b h k = (h, k)

  -- The totals are the number of tasks counted as relayed and the sum of their fees, as u64.
  abbrev pub Tallied : Server → Type 0
  Tallied v =
      (v.state.total_relayed ≡ total relayed v.tasks % 2 ^ 64)
      × (v.state.total_earned ≡ total earned v.tasks % 2 ^ 64)

  step_task-Tallied :
      (i : ℕ) (result : SubmitResult) (v : Server) (o : Option Task)
      → get_elem? v.tasks i ≡ o
      → Tallied v
      → Tallied (step_task i result v o)
  step_task-Tallied i result v none at h = h
  step_task-Tallied i result v (some t) at (h, k) =
      let t' : Task = record {
        request = t.request;
        phase = (advance t.request result v.state t.phase).1;
      } in
      let (a, now, after) = total_split relayed v.tasks i t at in
      let (b, now', after') = total_split earned v.tasks i t at in
      let (h', k') =
        advance-totals t.request result v.state t.phase a b (h ∙ ap (λ n. n % 2 ^ 64) now)
          (k ∙ ap (λ n. n % 2 ^ 64) now') in
      (h' ∙ ap (λ n. n % 2 ^ 64) (sym (after t')), k' ∙ ap (λ n. n % 2 ^ 64) (sym (after' t')))

  -- If the two totals are the number of tasks counted as relayed and the sum of the fees of
  -- those answered with success, as u64, then this holds after any interleaving of the tasks
  -- with any results of their submissions.
  pub run-Tallied :
      (schedule : List (ℕ × SubmitResult)) (v : Server) → Tallied v → Tallied (run schedule v)
  unfolding run step
  run-Tallied [] v h = h
  run-Tallied ((i, result) ∷ schedule) v h =
      run-Tallied schedule (step i result v)
        (step_task-Tallied i result v (get_elem? v.tasks i) refl h)
