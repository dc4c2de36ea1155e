-- ===== src/Indexer/Listener/Chain.antt =====
-- The polls of indexer/src/listener.rs one after the other, beside the events of the chain.
use caligo.Prelude.{
  ℕ, ◌+◌, ◌<◌, ◌≤◌, ◌^◌, ◌≡◌, refl, ap, sym, ◌∙◌, ◌&&◌, Option, none, some, List, [], ◌∷◌, ◌++◌,
  arith, dec_lt,
}
use mathlib.Core.Path.{subst}
use mathlib.Core.List.{append_assoc, append-nil}
use caligo.Prelude.Tests.{leb, if◌then◌else◌}
use caligo.Prelude.Lists.{length, length-append}
use caligo.Prelude.Bytes.{Bytes}
use caligo.Bn254.{Bn254}
use caligo.Indexer.State.{Hex, AppState, Follows}
use caligo.Indexer.Listener.{
  Json, EventEntry, RpcResponse, Round, start_ledger, poll_events, start_event_listener,
}
use caligo.Indexer.Listener.Polls.{commitments, taken, ledger_after, poll_events-Follows}

module _ ⦃json : Json⦄ where
  -- The events of the contract, each with its ledger.
  abbrev pub Chain : Type 0
  Chain = List (ℕ × EventEntry)

  abbrev pub AtLeast : ℕ → Chain → Type 0
  AtLeast n [] = Unit
  AtLeast n (e ∷ chain) = (n ≤ e.0) × AtLeast n chain

  abbrev pub Sorted : Chain → Type 0
  Sorted [] = Unit
  Sorted (e ∷ chain) = AtLeast e.0 chain × Sorted chain

  -- The events of the ledgers from the first to the last.
  unfoldable pub within : ℕ → ℕ → Chain → List EventEntry
  within first last [] = []
  within first last (e ∷ chain) =
      if leb first e.0 && leb e.0 last
      then e.1 ∷ within first last chain
      else within first last chain

  -- An answer to getEvents that holds every event asked for up to its latest ledger.
  unfoldable pub complete_answer : Chain → ℕ → ℕ → Option RpcResponse
  complete_answer chain start latest = some (record {
    result = some (record { events = within start latest chain; latest_ledger = latest });
    error = none;
  })

  within-beyond :
      (first last n : ℕ) (chain : Chain) → last < n → AtLeast n chain → within first last chain ≡ []
  unfolding within
  within-beyond first last n [] h far = refl
  within-beyond first last n (e ∷ chain) h far =
      ground (arith, far.0, within-beyond first last n chain h far.1)

  -- Two stretches of ledgers, the second right after the first, are one.
  within-append :
      (first middle last : ℕ) (chain : Chain)
      → first ≤ middle + 1
      → middle ≤ last
      → Sorted chain
      → within first middle chain ++ within (middle + 1) last chain ≡ within first last chain
  unfolding within
  within-append first middle last [] p q sorted = refl
  within-append first middle last (e ∷ chain) p q sorted =
      let rest = within-append first middle last chain p q sorted.1 in
      elim (dec_lt middle e.0) [
        | no early ↦ ground (arith, rest)
        | yes late ↦ ground (arith, rest, within-beyond first middle e.0 chain late sorted.0)
      ]

  within-none : (first last : ℕ) (chain : Chain) → last < first → within first last chain ≡ []
  unfolding within
  within-none first last [] h = refl
  within-none first last (e ∷ chain) h = ground (arith, within-none first last chain h)

module _ ⦃json : Json⦄ ⦃hex : Hex⦄ where
  nothing_taken : commitments [] ≡ []
  unfolding commitments
  nothing_taken = refl

  start_ledger_lem :
      (answer : Option ℕ) (s : AppState) (ledger : ℕ)
      → s.last_ledger ≡ ledger
      → 1 ≤ ledger
      → ledger + 1 < 2 ^ 32
      → start_ledger answer s ≡ ledger + 1
  unfolding start_ledger
  start_ledger_lem answer s ledger at p q = ground (arith, at)

module _ ⦃bn : Bn254⦄ ⦃json : Json⦄ ⦃hex : Hex⦄ where
  -- A poll fails, or gets a complete answer up to a latest ledger.
  abbrev pub rounds : Chain → List (Option ℕ) → List Round
  rounds chain [] = []
  rounds chain (none ∷ rest) = (none, λ start. none) ∷ rounds chain rest
  rounds chain (some latest ∷ rest) =
      (none, λ start. complete_answer chain start latest) ∷ rounds chain rest

  poll_complete :
      (chain : Chain) (start latest : ℕ) {ls : List Bytes} {depth : ℕ} {s : AppState}
      → start_ledger none s ≡ start
      → length ls + length (commitments (within start latest chain)) < 2 ^ 32
      → Follows ls depth s
      → (s' : AppState) × (n : ℕ) × (poll_events
            (complete_answer chain (start_ledger none s) latest)
            s
          ≡ some (s', n))
        × Follows (ls ++ commitments (within start latest chain)) depth s'
        × (s'.last_ledger ≡ latest)
  unfolding taken complete_answer ledger_after
  poll_complete chain start latest {ls} {depth} {s} at room f =
      let (s', run, f', same) =
        poll_events-Follows (complete_answer chain start latest) {ls = ls} {depth = depth} {s = s}
          room f in
      (
        s',
        length (commitments (within start latest chain)),
        ap (λ k. poll_events (complete_answer chain k latest) s) at ∙ run,
        f',
        same,
      )

  commitments-append :
      (xs ys : List EventEntry) → commitments (xs ++ ys) ≡ commitments xs ++ commitments ys
  unfolding commitments
  commitments-append [] ys = refl
  commitments-append (x ∷ xs) ys = ground (arith, commitments-append xs ys)

  -- The ledger of the last poll that did not fail, and that the latest ledgers do not go back.
  abbrev pub last_of : ℕ → List (Option ℕ) → ℕ
  last_of ledger [] = ledger
  last_of ledger (none ∷ rest) = last_of ledger rest
  last_of ledger (some latest ∷ rest) = last_of latest rest

  abbrev pub Onward : ℕ → List (Option ℕ) → Type 0
  Onward ledger [] = Unit
  Onward ledger (none ∷ rest) = Onward ledger rest
  Onward ledger (some latest ∷ rest) = (ledger ≤ latest) × Onward latest rest

  last_of-le :
      (ledger : ℕ) (rest : List (Option ℕ)) → Onward ledger rest → ledger ≤ last_of ledger rest
  last_of-le ledger [] on = omega arith
  last_of-le ledger (none ∷ rest) on = last_of-le ledger rest on
  last_of-le ledger (some latest ∷ rest) on = omega (arith, on.0, last_of-le latest rest on.1)

  -- If the events of the chain are sorted by ledger and each poll of the listener's loop fails
  -- or gets all events from the ledger asked for up to its latest ledger, the latest ledgers do
  -- not go back and everything fits a u32, then an indexer that has processed a ledger from 1 on
  -- and polls any number of times does not panic, and has inserted exactly the commitments of
  -- the deposit events after that ledger up to the last latest ledger, each once and in order.
  pub start_event_listener-Follows :
      (chain : Chain) (rest : List (Option ℕ)) (ledger : ℕ) {ls : List Bytes} {depth : ℕ}
      {s : AppState}
      → Sorted chain
      → s.last_ledger ≡ ledger
      → 1 ≤ ledger
      → Onward ledger rest
      → last_of ledger rest + 1 < 2 ^ 32
      → length ls + length (commitments (within (ledger + 1) (last_of ledger rest) chain)) < 2 ^ 32
      → Follows ls depth s
      → (s' : AppState) × (start_event_listener (rounds chain rest) s ≡ some s')
        × Follows (ls ++ commitments (within (ledger + 1) (last_of ledger rest) chain)) depth s'
        × (s'.last_ledger ≡ last_of ledger rest)
  unfolding start_event_listener poll_events
  start_event_listener-Follows chain [] ledger {ls} {depth} {s} sorted at p on q room f =
      rw (within-none (ledger + 1) ledger chain (omega arith), nothing_taken)
        (s, refl, rw (append-nil ls) f, at)
  start_event_listener-Follows chain (none ∷ rest) ledger sorted at p on q room f =
      start_event_listener-Follows chain rest ledger sorted at p on q room f
  start_event_listener-Follows chain (some latest ∷ rest) ledger {ls} {depth} {s} sorted at p on q
        room f =
      let now = commitments (within (ledger + 1) latest chain) in
      let later = commitments (within (latest + 1) (last_of latest rest) chain) in
      let joined : now ++ later ≡ commitments (within (ledger + 1) (last_of latest rest) chain) =
        sym (
          commitments-append (within (ledger + 1) latest chain)
            (within (latest + 1) (last_of latest rest) chain))
        ∙ ap commitments (
            within-append (ledger + 1) latest (last_of latest rest) chain (omega (arith, on.0))
              (last_of-le latest rest on.1) sorted) in
      let start : start_ledger none s ≡ ledger + 1 =
        start_ledger_lem none s ledger at p (omega (arith, on.0, last_of-le latest rest on.1)) in
      let lengths : length now + length later
          ≡ length (commitments (within (ledger + 1) (last_of latest rest) chain)) =
        sym (length-append now later) ∙ ap length joined in
      let (s₁, n, run, f₁, same) =
        poll_complete chain (ledger + 1) latest {ls = ls} {depth = depth} {s = s} start
          (omega arith) f in
      let (s₂, run₂, f₂, same₂) =
        start_event_listener-Follows chain rest latest {ls = ls ++ now} {depth = depth} {s = s₁}
          sorted same (omega (arith, on.0)) on.1 q (omega (arith, length-append ls now)) f₁ in
      (
        s₂,
        rw run run₂,
        subst (λ l. Follows l depth s₂) (append_assoc ls now later ∙ ap (λ x. ls ++ x) joined) f₂,
        same₂,
      )
