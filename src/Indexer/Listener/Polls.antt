-- ===== src/Indexer/Listener/Polls.antt =====
-- What the polls of indexer/src/listener.rs do to the indexer's state.
use mathlib.Core.List.{append_assoc, append-nil}
use caligo.Prelude.{
  ℕ, ◌+◌, ◌<◌, ◌^◌, ◌≡◌, refl, ap, ◌∙◌, Option, none, some, List, [], ◌∷◌, ◌++◌, arith, inl, inr,
}
use caligo.Prelude.Tests.{Option-cases}
use caligo.Prelude.Lists.{length, length-snoc}
use caligo.Prelude.Bytes.{Bytes}
use caligo.Bn254.{Bn254}
use caligo.Indexer.Merkle.{insert, root}
use caligo.Indexer.State.{
  Hex, AppState, Follows, insert_commitment, insert_commitment-Follows, update_last_ledger,
}
use caligo.Indexer.Listener.{
  Json, EventEntry, RpcResponse, commitment_of, index_events, poll_events,
}

module _ ⦃json : Json⦄ ⦃hex : Hex⦄ where
  -- The commitments of the deposit events, in their order.
  unfoldable pub commitments : List EventEntry → List Bytes
  commitments [] = []
  commitments (event ∷ rest) = elim (commitment_of event) [
    | none ↦ commitments rest
    | some x ↦ x ∷ commitments rest
  ]

  -- What a poll takes from an answer, and the ledger that it goes on from.
  unfoldable pub taken : Option RpcResponse → List Bytes
  taken none = []
  taken (some response) = elim response.error [
    | some _ ↦ []
    | none ↦ elim response.result [ none ↦ [] | some result ↦ commitments result.events ]
  ]

  unfoldable pub ledger_after : Option RpcResponse → ℕ → ℕ
  ledger_after none ledger = ledger
  ledger_after (some response) ledger = elim response.error [
    | some _ ↦ ledger
    | none ↦ elim response.result [ none ↦ ledger | some result ↦ result.latest_ledger ]
  ]

module _ ⦃bn : Bn254⦄ ⦃json : Json⦄ ⦃hex : Hex⦄ where
  update_last_ledger-Follows :
      {ls : List Bytes} {depth : ℕ} {s : AppState} (ledger : ℕ)
      → Follows ls depth s
      → Follows ls depth (update_last_ledger ledger s)
  update_last_ledger-Follows ledger f = record { tree = f.tree; roots = f.roots }

  insert_keeps_ledger :
      (x : Bytes) (s s' : AppState) (i : ℕ)
      → insert_commitment x s ≡ some (s', i)
      → s'.last_ledger ≡ s.last_ledger
  unfolding insert_commitment
  insert_keeps_ledger x s s' i h = elim (Option-cases (insert x s.tree)) [
    | inl panic ↦ absurd (ground (arith, panic, h))
    | inr (t, done) ↦ elim (Option-cases (root t.0)) [
      | inl panic ↦ absurd (ground (arith, done, panic, h))
      | inr (top, at) ↦ ground (arith, done, at, h)
    ]
  ]

  nothing_taken : commitments [] ≡ []
  unfolding commitments
  nothing_taken = refl

  none_taken :
      (event : EventEntry) (rest : List EventEntry)
      → commitment_of event ≡ none
      → commitments (event ∷ rest) ≡ commitments rest
  unfolding commitments
  none_taken event rest h = ground arith

  one_taken :
      (event : EventEntry) (rest : List EventEntry) (x : Bytes)
      → commitment_of event ≡ some x
      → commitments (event ∷ rest) ≡ x ∷ commitments rest
  unfolding commitments
  one_taken event rest x h = ground arith

  Indexed : List Bytes → List Bytes → ℕ → AppState → ℕ → Option (AppState × ℕ) → Type 0
  Indexed ls new depth s count outcome =
      (s' : AppState) × (outcome ≡ some (s', count + length new))
      × Follows (ls ++ new) depth s'
      × (s'.last_ledger ≡ s.last_ledger)

  index_events-Follows :
      (events : List EventEntry) {ls : List Bytes} {depth : ℕ} {s : AppState} (count : ℕ)
      → length ls + length (commitments events) < 2 ^ 32
      → Follows ls depth s
      → Indexed ls (commitments events) depth s count (index_events events (s, count))
  unfolding index_events Indexed
  index_events-Follows [] {ls} {depth} {s} count small f =
      rw nothing_taken (s, ap (λ n. some (s, n)) (omega arith), rw (append-nil ls) f, refl)
  index_events-Follows (event ∷ rest) {ls} {depth} {s} count small f =
      elim (Option-cases (commitment_of event)) [
        | inl other ↦
            rw (none_taken event rest other, other)
              (index_events-Follows rest count
                (ground (arith, ap length (none_taken event rest other))) f)
        | inr (x, deposit) ↦
            let (s₁, run, f₁) =
              insert_commitment-Follows x
                (ground (arith, ap length (one_taken event rest x deposit))) f in
            let (s₂, run₂, f₂, same) =
              index_events-Follows rest (count + 1)
                (ground (arith, length-snoc ls x, ap length (one_taken event rest x deposit))) f₁ in
            rw (one_taken event rest x deposit, deposit)
              (
                s₂,
                rw run (run₂ ∙ ap (λ n. some (s₂, n)) (omega arith)),
                rw (← append_assoc ls (x ∷ []) (commitments rest)) f₂,
                same ∙ insert_keeps_ledger x s s₁ (length ls) run,
              )
      ]

  -- On an indexer state that follows a list of leaves, for every answer of the RPC node whose
  -- commitments still fit a u32, a poll does not panic, counts and inserts the commitments of
  -- the answer's deposit events in order, and goes on from the answer's latest ledger; a failed,
  -- refused or empty answer changes nothing.
  pub poll_events-Follows :
      (response : Option RpcResponse) {ls : List Bytes} {depth : ℕ} {s : AppState}
      → length ls + length (taken response) < 2 ^ 32
      → Follows ls depth s
      → (s' : AppState) × (poll_events response s ≡ some (s', length (taken response)))
        × Follows (ls ++ taken response) depth s'
        × (s'.last_ledger ≡ ledger_after response s.last_ledger)
  unfolding poll_events taken ledger_after Indexed
  poll_events-Follows none {ls} {depth} {s} small f = (s, refl, rw (append-nil ls) f, refl)
  poll_events-Follows (some response) {ls} {depth} {s} small f =
      elim (Option-cases response.error) [
        | inr (e, failed) ↦ rw failed (s, refl, rw (append-nil ls) f, refl)
        | inl fine ↦ elim (Option-cases response.result) [
          | inl empty ↦ rw (fine, empty) (s, refl, rw (append-nil ls) f, refl)
          | inr (result, there) ↦
              let (s', run, f', same) =
                index_events-Follows result.events 0 (ground (arith, fine, there))
                  (update_last_ledger-Follows result.latest_ledger f) in
              rw (fine, there) (s', run ∙ ap (λ n. some (s', n)) (omega arith), f', same)
        ]
      ]
