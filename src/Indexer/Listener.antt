-- ===== src/Indexer/Listener.antt =====
-- indexer/src/listener.rs: one poll of the RPC node. serde_json, reqwest and base64 are parameters:
-- what a poll gets is an argument. A result `none` is a panic.
pub mod Polls
pub mod Chain
pub mod Truncated
pub mod Tests
use caligo.Prelude.{
  ℕ, ◌+◌, ◌-◌, ◌%◌, ◌^◌, Bool, true, false, ◌&&◌, ◌||◌, Option, none, some, List, [], ◌∷◌,
}
use caligo.Prelude.Tests.{leb, ◌==◌, if◌then◌else◌}
use caligo.Prelude.Lists.{length, take, drop, unwrap_or}
use caligo.Prelude.Bytes.{Bytes}
use caligo.Prelude.Options.{◌>>=◌}
use caligo.Bn254.{Bn254}
use caligo.Relayer.Validate.{trim_0x}
use caligo.Indexer.State.{Hex, AppState, insert_commitment, update_last_ledger}

pub record Json : Type 1 where
  -- `serde_json::Value`, `as_str` and `get`, and the standard decoding of base64.
  pub Value : Type 0
  pub as_str : Value → Option Bytes
  pub get : Bytes → Value → Option Value
  pub base64_decode : Bytes → Option Bytes

abbrev pub is_prefix : Bytes → Bytes → Bool
is_prefix [] s = true
is_prefix (c ∷ p) [] = false
is_prefix (c ∷ p) (d ∷ s) = (c == d) && is_prefix p s

-- `s.contains(p)`.
unfoldable pub contains_str : Bytes → Bytes → Bool
contains_str p [] = is_prefix p []
contains_str p (c ∷ s) = is_prefix p (c ∷ s) || contains_str p s

-- "deposit", "bytes" and "xdr".
abbrev pub deposit_str : Bytes
deposit_str = 100 ∷ 101 ∷ 112 ∷ 111 ∷ 115 ∷ 105 ∷ 116 ∷ []

abbrev pub bytes_str : Bytes
bytes_str = 98 ∷ 121 ∷ 116 ∷ 101 ∷ 115 ∷ []

abbrev pub xdr_str : Bytes
xdr_str = 120 ∷ 100 ∷ 114 ∷ []

-- `if bytes.len() == 32 { … return Some(arr) }`.
abbrev pub exactly_32 : Option Bytes → Option Bytes
exactly_32 none = none
exactly_32 (some bytes) = if length bytes == 32 then some bytes else none

abbrev pub or_else : Option Bytes → Option Bytes → Option Bytes
or_else none rest = rest
or_else (some bytes) rest = some bytes

module _ ⦃json : Json⦄ where
  open json use {Value, as_str, get, base64_decode}

  -- The fields that the code reads.
  pub record EventEntry : Type 0 where
    pub topic : List Value
    pub value : Value

  pub record GetEventsResult : Type 0 where
    pub events : List EventEntry
    pub latest_ledger : ℕ

  pub record RpcResponse : Type 0 where
    pub result : Option GetEventsResult
    pub error : Option Value

  abbrev pub says_deposit : Option Bytes → Bool
  says_deposit none = false
  says_deposit (some s) = contains_str deposit_str s

  abbrev pub any_deposit : List Value → Bool
  any_deposit [] = false
  any_deposit (topic ∷ rest) = says_deposit (as_str topic) || any_deposit rest

  unfoldable pub is_deposit_event : EventEntry → Bool
  is_deposit_event event = any_deposit event.topic

  unfoldable pub decode_commitment_from_xdr : Bytes → Option Bytes
  decode_commitment_from_xdr xdr_base64 = do
    xdr_bytes ← base64_decode xdr_base64
    if leb 40 (length xdr_bytes) then some (take 32 (drop 8 xdr_bytes)) else none

  module _ ⦃hex : Hex⦄ where
    open hex use {decode}

    -- The string itself, the field "bytes", the field "xdr", in this order.
    unfoldable pub extract_commitment : EventEntry → Option Bytes
    extract_commitment event =
        or_else (exactly_32 (as_str event.value >>= λ s. decode (trim_0x s))) (
          or_else (exactly_32 (get bytes_str event.value >>= λ v. as_str v >>= decode))
            (get xdr_str event.value >>= λ v. as_str v >>= decode_commitment_from_xdr))

    -- The commitment that the loop takes from an event.
    unfoldable pub commitment_of : EventEntry → Option Bytes
    commitment_of event = if is_deposit_event event then extract_commitment event else none

    -- The first ledger that is asked for: `latest` is the answer to getLatestLedger.
    unfoldable pub start_ledger : Option ℕ → AppState → ℕ
    start_ledger latest s =
        if s.last_ledger == 0
        then unwrap_or latest 1 % 2 ^ 32 - 1000
        else (s.last_ledger + 1) % 2 ^ 32

    module _ ⦃bn : Bn254⦄ where
      abbrev pub index_event : Option Bytes → AppState × ℕ → Option (AppState × ℕ)
      index_event none (s, count) = some (s, count)
      index_event (some commitment) (s, count) = do
        inserted ← insert_commitment commitment s
        some (inserted.0, count + 1)

      -- The loop over the events, with the count so far.
      unfoldable pub index_events : List EventEntry → AppState × ℕ → Option (AppState × ℕ)
      index_events [] at = some at
      index_events (event ∷ rest) at = do
        next ← index_event (commitment_of event) at
        index_events rest next

      -- `poll_events` from the answer to getEvents on; `none` is a failed request. The filter for the
      -- contract and the limit of the request are for the node to heed: they are in the answer.
      unfoldable pub poll_events : Option RpcResponse → AppState → Option (AppState × ℕ)
      poll_events none s = some (s, 0)
      poll_events (some response) s = elim response.error [
        | some _ ↦ some (s, 0)
        | none ↦ elim response.result [
          | none ↦ some (s, 0)
          | some result ↦ index_events result.events (update_last_ledger result.latest_ledger s, 0)
        ]
      ]

      -- A round of the loop gets the answer to getLatestLedger, and to getEvents from a ledger on.
      abbrev pub Round : Type 0
      Round = Option ℕ × (ℕ → Option RpcResponse)

      -- The loop of polls. A failed one leaves the state as it is, and the loop goes on.
      unfoldable pub start_event_listener : List Round → AppState → Option AppState
      start_event_listener [] s = some s
      start_event_listener (round ∷ rest) s = do
        polled ← poll_events (round.1 (start_ledger round.0 s)) s
        start_event_listener rest polled.0
