-- ===== src/Indexer/Listener/Truncated.antt =====
-- The page limit in the request of indexer/src/listener.rs: an answer that holds only the first
-- events asked for, and the polls after it.
use caligo.Prelude.{ℕ, ◌+◌, ◌<◌, ◌≤◌, ◌^◌, ◌≡◌, Option, none, some, List, ◌++◌, arith}
use caligo.Prelude.Lists.{length, take, length-append}
use caligo.Prelude.Bytes.{Bytes}
use caligo.Bn254.{Bn254}
use caligo.Indexer.State.{Hex, AppState, Follows}
use caligo.Indexer.Listener.{Json, RpcResponse, poll_events, start_event_listener}
use caligo.Indexer.Listener.Polls.{commitments, taken, ledger_after, poll_events-Follows}
use caligo.Indexer.Listener.Chain.{
  Chain, Sorted, within, Onward, last_of, rounds, start_event_listener-Follows,
}

module _ ⦃json : Json⦄ where
  -- An answer with so many events at most: the request has `"limit": 1000`.
  abbrev pub page_answer : ℕ → Chain → ℕ → ℕ → Option RpcResponse
  page_answer limit chain start latest = some (record {
    result =
        some (record { events = take limit (within start latest chain); latest_ledger = latest });
    error = none;
  })

module _ ⦃bn : Bn254⦄ ⦃json : Json⦄ ⦃hex : Hex⦄ where
  -- The commitments on the page, and those of the complete answers after it.
  abbrev pub on_page : ℕ → Chain → ℕ → ℕ → List Bytes
  on_page limit chain start latest = commitments (take limit (within start latest chain))

  abbrev pub after_page : Chain → ℕ → List (Option ℕ) → List Bytes
  after_page chain latest rest = commitments (within (latest + 1) (last_of latest rest) chain)

module _ ⦃bn : Bn254⦄ ⦃json : Json⦄ ⦃hex : Hex⦄ where
  -- If the events of the chain are sorted by ledger, an answer of the RPC node holds only the
  -- first events up to a limit from the ledger asked for up to its latest ledger, each later
  -- poll of the listener's loop fails or gets all events asked for, up to latest ledgers that do
  -- not go back, and everything fits a u32, then the polls do not panic, and the indexer ends
  -- with the commitments on that page and those after its latest ledger, and with none of the
  -- events left out of the page.
  pub poll_page-Follows :
      (limit : ℕ) (chain : Chain) (start latest : ℕ) (rest : List (Option ℕ)) {ls : List Bytes}
      {depth : ℕ} {s : AppState}
      → Sorted chain
      → 1 ≤ latest
      → Onward latest rest
      → last_of latest rest + 1 < 2 ^ 32
      → length ls
          + length (on_page limit chain start latest)
          + length (after_page chain latest rest)
        < 2 ^ 32
      → Follows ls depth s
      → (s₁ : AppState) × (s₂ : AppState) × (poll_events (page_answer limit chain start latest) s
          ≡ some (s₁, length (on_page limit chain start latest)))
        × (start_event_listener (rounds chain rest) s₁ ≡ some s₂)
        × Follows
            ((ls ++ on_page limit chain start latest) ++ after_page chain latest rest)
            depth
            s₂
  unfolding taken ledger_after
  poll_page-Follows limit chain start latest rest {ls} {depth} {s} sorted p on fits room f =
      let now = on_page limit chain start latest in
      let (s₁, run₁, f₁, at) =
        poll_events-Follows (page_answer limit chain start latest) {ls = ls} {depth = depth} {s = s}
          (omega arith) f in
      let (s₂, run₂, f₂, _) =
        start_event_listener-Follows chain rest latest {ls = ls ++ now} {depth = depth} {s = s₁}
          sorted at p on fits (omega (arith, length-append ls now)) f₁ in
      (s₁, s₂, run₁, run₂, f₂)
