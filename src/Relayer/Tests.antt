-- ===== src/Relayer/Tests.antt =====
-- Tests of relayer/src: requests of short addresses, two of them with one nullifier hash.
use caligo.Prelude.{
  ℕ, ◌%◌, ◌^◌, ◌<◌, ◌≤◌, ◌≡◌, ◌↔◌, refl, Bool, true, false, none, some, List, [], ◌∷◌, arith,
  ℕ_discrete, zero, suc, ap, sym, ◌∙◌, not, ◌&&◌,
}
use caligo.Prelude.Lists.{length, get_elem?, replicate}
use caligo.Prelude.Bytes.{contains, bytes_discrete, cons_dec}
use caligo.Relayer.Validate.{trim_0x, parse_u64, validate_hex, validate_relay_request, expected_fee}
use caligo.Relayer.Validate.Accepts.{
  is_pass, decoded_length, expected_fee_lem, validate_relay_request-accepts,
}
use caligo.Relayer.Rpc.{SubmitResult, failed, not_wired}
use caligo.Relayer.Relay.{
  RelayRequest, RelayerConfig, RelayerState, Task, validate_fields, insert, remove, run, advance,
  step, arrived, submitting,
}
use caligo.Relayer.Relay.Pending.{
  Owned, in_flight, arriving, run-Owned, run-drained, run-both_submitting, run-prefixed,
}
use caligo.Relayer.Relay.Totals.{Tallied, run-Tallied}
use caligo.Examples.{small_decoders}

-- A fee of 7 stroops, which is 1% of 700.
abbrev pub request : RelayRequest
request = record {
  proof_hex = replicate 512 49;
  root_hex = replicate 64 50;
  nullifier_hash_hex = replicate 64 97;
  recipient = 71 ∷ 65 ∷ 66 ∷ [];
  fee = 55 ∷ [];
  pool_contract_id = 67 ∷ [];
}

validate_relay_request-accepts_example :
    (is_pass (
        validate_relay_request request.proof_hex request.root_hex request.nullifier_hash_hex
          request.recipient request.fee request.pool_contract_id 100 700)
      ≡ true)
    ↔ ((decoded_length request.proof_hex ≡ some 256)
        × (decoded_length request.root_hex ≡ some 32)
        × (decoded_length request.nullifier_hash_hex ≡ some 32)
        × (small_decoders.is_public_key request.recipient ≡ true)
        × (parse_u64 request.fee ≡ some 7)
        × (0 < length request.pool_contract_id))
validate_relay_request-accepts_example =
    validate_relay_request-accepts request.proof_hex request.root_hex request.nullifier_hash_hex
      request.recipient request.fee request.pool_contract_id 100 700 (omega arith) (omega arith)

expected_fee_lem_example : (expected_fee 700 100 % 2 ^ 64 ≡ 7) × (7 ≤ 700)
expected_fee_lem_example = expected_fee_lem 700 100 (omega arith) (omega arith)

pub request_fine : validate_fields request ≡ none
unfolding validate_fields validate_hex trim_0x
request_fine = refl

abbrev config_of : ℕ → RelayerConfig
config_of max_pending = record {
  secret_key = 83 ∷ [];
  rpc_url = [];
  network_passphrase = [];
  fee_bps = 100;
  max_pending = max_pending;
}

abbrev pub idle : RelayerState
idle = record {
  config = config_of 1;
  relayer_address = 71 ∷ 82 ∷ 82 ∷ [];
  pending_nullifiers = [];
  total_relayed = 0;
  total_earned = 0;
}

abbrev pub sent : SubmitResult
sent = record { success = true; tx_hash = some (1 ∷ []); error = none }

pub idle_new : contains idle.pending_nullifiers request.nullifier_hash_hex ≡ false
unfolding contains
idle_new = refl

run-both_submitting_example :
    (run ((0, sent) ∷ (1, sent) ∷ (0, sent) ∷ (1, sent) ∷ []) (arriving request request idle)).tasks
    ≡ record { request = request; phase = submitting }
      ∷ record { request = request; phase = submitting }
      ∷ []
run-both_submitting_example =
    run-both_submitting request request sent idle request_fine request_fine idle_new idle_new
      (omega arith)

abbrev pub busy : RelayerState
busy = record {
  config = config_of 5;
  relayer_address = 71 ∷ 82 ∷ 82 ∷ [];
  pending_nullifiers = request.nullifier_hash_hex ∷ [];
  total_relayed = 0;
  total_earned = 0;
}

busy_pending : contains busy.pending_nullifiers request.nullifier_hash_hex ≡ true
unfolding contains bytes_discrete cons_dec
busy_pending = refl

busy_new : contains busy.pending_nullifiers (48 ∷ 120 ∷ request.nullifier_hash_hex) ≡ false
unfolding contains bytes_discrete cons_dec
busy_new = refl

run-prefixed_example :
    (run ((0, sent) ∷ (0, sent) ∷ []) (record {
      state = busy;
      tasks =
          record {
            request = record request { nullifier_hash_hex = 48 ∷ 120 ∷ request.nullifier_hash_hex };
            phase = arrived;
          }
          ∷ [];
    })).tasks
    ≡ record {
      request = record request { nullifier_hash_hex = 48 ∷ 120 ∷ request.nullifier_hash_hex };
      phase = submitting;
    }
      ∷ []
run-prefixed_example =
    run-prefixed request sent busy request_fine busy_pending busy_new (omega arith)

-- Two tasks with one nullifier hash, interleaved to the end.
abbrev pub schedule : List (ℕ × SubmitResult)
schedule =
    (0, sent)
    ∷ (1, sent)
    ∷ (0, sent)
    ∷ (1, sent)
    ∷ (0, sent)
    ∷ (1, failed not_wired)
    ∷ (0, sent)
    ∷ (1, sent)
    ∷ (0, sent)
    ∷ (0, sent)
    ∷ (1, sent)
    ∷ []

start_Owned : Owned (arriving request request idle)
unfolding contains
start_Owned x h = cc

run-Owned_example : Owned (run schedule (arriving request request idle))
run-Owned_example = run-Owned schedule (arriving request request idle) start_Owned

abbrev all_landed : List Task → Bool
all_landed [] = true
all_landed (t ∷ ts) = not (in_flight t.phase) && all_landed ts

all_landed-get_elem? :
    (tasks : List Task) (i : ℕ) (t : Task)
    → all_landed tasks ≡ true
    → get_elem? tasks i ≡ some t
    → in_flight t.phase ≡ false
all_landed-get_elem? [] i t h at = cc
all_landed-get_elem? (u ∷ us) zero t h at =
    let same : u ≡ t = cc in ap (λ x. in_flight x.phase) (sym same) ∙ ground (arith, h)
all_landed-get_elem? (u ∷ us) (suc i) t h at = all_landed-get_elem? us i t (ground (arith, h)) at

schedule_lands : all_landed (run schedule (arriving request request idle)).tasks ≡ true
unfolding run step advance validate_fields validate_hex trim_0x contains insert remove
    bytes_discrete cons_dec ℕ_discrete
schedule_lands = refl

run-drained_example : (run schedule (arriving request request idle)).state.pending_nullifiers ≡ []
run-drained_example = run-drained schedule (arriving request request idle) start_Owned (λ i t at.
    all_landed-get_elem? (run schedule (arriving request request idle)).tasks i t schedule_lands at)

run-Tallied_example : Tallied (run schedule (arriving request request idle))
run-Tallied_example = run-Tallied schedule (arriving request request idle) (refl, refl)
