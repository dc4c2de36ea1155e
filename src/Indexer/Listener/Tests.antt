-- ===== src/Indexer/Listener/Tests.antt =====
-- Tests of indexer/src/listener.rs: a chain of two deposits and another event between them.
use caligo.Prelude.{ℕ, ◌≡◌, refl, Option, none, some, [], ◌∷◌, ◌++◌, arith}
use caligo.Prelude.Lists.{length, replicate}
use caligo.Prelude.Int.{pos}
use caligo.Indexer.State.{AppState, Follows, new_state, new_state-Follows, update_last_ledger}
use caligo.Indexer.Listener.{
  start_event_listener, EventEntry, RpcResponse, deposit_str, contains_str, is_deposit_event,
  extract_commitment, commitment_of, poll_events,
}
use caligo.Relayer.Validate.{trim_0x}
use caligo.Indexer.Listener.Polls.{commitments, taken, ledger_after, poll_events-Follows}
use caligo.Indexer.Listener.Chain.{Chain, within, rounds, start_event_listener-Follows}
use caligo.Indexer.Listener.Truncated.{page_answer, on_page, after_page, poll_page-Follows}
use caligo.Examples.{small_field, small_hex, small_json}

-- 64 hexadecimal digits, after "0x".
abbrev deposit_of : ℕ → EventEntry
deposit_of digit = record { topic = deposit_str ∷ []; value = 48 ∷ 120 ∷ replicate 64 digit }

abbrev chain : Chain
chain =
    (7, deposit_of 49)
    ∷ (8, record { topic = (119 ∷ []) ∷ []; value = replicate 64 50 })
    ∷ (9, deposit_of 51)
    ∷ []

abbrev answer : Option RpcResponse
answer = some (record {
  result = some (record { events = deposit_of 49 ∷ []; latest_ledger = 7 });
  error = none;
})

taken-answer : taken answer ≡ replicate 32 17 ∷ []
unfolding taken commitments commitment_of is_deposit_event contains_str extract_commitment trim_0x
taken-answer = refl

begun : (s : AppState) × (new_state [] (pos 100) 2 ≡ some s) × Follows [] 2 s
begun = new_state-Follows [] (pos 100) 2 (omega arith)

poll_events-Follows_example :
    (s : AppState) × (poll_events answer begun.0 ≡ some (s, length (taken answer)))
    × Follows (taken answer) 2 s
    × (s.last_ledger ≡ ledger_after answer begun.0.last_ledger)
poll_events-Follows_example = poll_events-Follows answer (ground (arith, taken-answer)) begun.2

abbrev at_5 : AppState
at_5 = update_last_ledger 5 begun.0

at_5-Follows : Follows [] 2 at_5
at_5-Follows = record { tree = begun.2.tree; roots = begun.2.roots }

all_taken : commitments (within 6 10 chain) ≡ replicate 32 17 ∷ replicate 32 51 ∷ []
unfolding commitments within commitment_of is_deposit_event contains_str extract_commitment trim_0x
all_taken = refl

start_event_listener-Follows_example :
    (s : AppState) × (start_event_listener
        (rounds chain (some 7 ∷ none ∷ some 7 ∷ some 10 ∷ []))
        at_5
      ≡ some s)
    × Follows (commitments (within 6 10 chain)) 2 s
    × (s.last_ledger ≡ 10)
start_event_listener-Follows_example =
    start_event_listener-Follows chain (some 7 ∷ none ∷ some 7 ∷ some 10 ∷ []) 5
      ((omega arith, (omega arith, tt)), ((omega arith, tt), (tt, tt))) refl (omega arith)
      (omega arith, (omega arith, (omega arith, tt))) (omega arith) (ground (arith, all_taken))
      at_5-Follows

page_taken : on_page 1 chain 6 9 ≡ replicate 32 17 ∷ []
unfolding commitments within commitment_of is_deposit_event contains_str extract_commitment trim_0x
page_taken = refl

nothing_left : after_page chain 9 (some 10 ∷ []) ≡ []
unfolding commitments within
nothing_left = refl

-- With a limit of one event the second deposit is never inserted.
poll_page-Follows_example :
    (s₁ : AppState) × (s₂ : AppState) × (poll_events (page_answer 1 chain 6 9) at_5
      ≡ some (s₁, length (on_page 1 chain 6 9)))
    × (start_event_listener (rounds chain (some 10 ∷ [])) s₁ ≡ some s₂)
    × Follows (([] ++ on_page 1 chain 6 9) ++ after_page chain 9 (some 10 ∷ [])) 2 s₂
poll_page-Follows_example =
    poll_page-Follows 1 chain 6 9 (some 10 ∷ []) {ls = []}
      ((omega arith, (omega arith, tt)), ((omega arith, tt), (tt, tt))) (omega arith)
      (omega arith, tt) (omega arith) (ground (arith, page_taken, nothing_left)) at_5-Follows
