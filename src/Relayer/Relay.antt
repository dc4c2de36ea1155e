-- ===== src/Relayer/Relay.antt =====
-- relayer/src/relay.rs: a request as a task that goes from one lock or call to the next,
-- and the tasks of the server, which interleave between these.
pub mod Pending
pub mod Totals
pub mod Answers
pub mod Alone
pub mod Dropped
pub mod Tests
use caligo.Prelude.{
  ℕ, ◌+◌, ◌%◌, ◌^◌, Bool, true, false, not, Option, none, some, List, [], ◌∷◌, ite,
}
use caligo.Prelude.Tests.{leb, if◌then◌else◌}
use caligo.Prelude.Lists.{length, get_elem?, set, unwrap_or}
use caligo.Prelude.Bytes.{Bytes, bytes_discrete, contains}
use caligo.Relayer.{Decoders, Keys}
use caligo.Relayer.Rpc.{RpcError, SubmitResult}
use caligo.Relayer.Validate.{
  HexError, pass, refuse, parse_u64, validate_hex, validate_stellar_address,
}

pub record RelayRequest : Type 0 where
  pub proof_hex : Bytes
  pub root_hex : Bytes
  pub nullifier_hash_hex : Bytes
  pub recipient : Bytes
  pub fee : Bytes
  pub pool_contract_id : Bytes

pub data RelayError : Type 0 where
  at_capacity already_processing invalid_recipient : RelayError
  invalid_proof invalid_root invalid_nullifier_hash : HexError → RelayError
  not_submitted : Option RpcError → RelayError

pub data StatusCode : Type 0 where
  ok too_many_requests conflict bad_request internal_server_error : StatusCode

pub record Response : Type 0 where
  pub status : StatusCode
  pub success : Bool
  pub tx_hash : Option Bytes
  pub error : Option RelayError

abbrev pub refusal : StatusCode → RelayError → Response
refusal status e = record { status = status; success = false; tx_hash = none; error = some e }

pub record RelayerConfig : Type 0 where
  pub secret_key : Bytes
  pub rpc_url : Bytes
  pub network_passphrase : Bytes
  pub fee_bps : ℕ
  pub max_pending : ℕ

-- The last three are behind locks.
pub record RelayerState : Type 0 where
  pub config : RelayerConfig
  pub relayer_address : Bytes
  pub pending_nullifiers : List Bytes
  pub total_relayed : ℕ
  pub total_earned : ℕ

module _ ⦃keys : Keys⦄ where
  open keys use {private_key, verifying_key, public_key_to_string}

  -- A key that does not parse is returned as it is.
  unfoldable pub derive_public_address : Bytes → Bytes
  derive_public_address secret_key = elim (private_key secret_key) [
    | some sk ↦ public_key_to_string (verifying_key sk)
    | none ↦ secret_key
  ]

  unfoldable pub new_state : RelayerConfig → RelayerState
  new_state config = record {
    config = config;
    relayer_address = derive_public_address config.secret_key;
    pending_nullifiers = [];
    total_relayed = 0;
    total_earned = 0;
  }

pub record RelayerStatus : Type 0 where
  pub address : Bytes
  pub fee_bps : ℕ
  pub pending_count : ℕ
  pub max_pending : ℕ
  pub total_relayed : ℕ
  pub total_earned_stroops : ℕ

-- The three locks are taken one after the other: the states that they find. The first is held.
unfoldable pub handle_status : RelayerState → RelayerState → RelayerState → RelayerStatus
handle_status s s' s'' = record {
  address = s.relayer_address;
  fee_bps = s.config.fee_bps;
  pending_count = length s.pending_nullifiers;
  max_pending = s.config.max_pending;
  total_relayed = s'.total_relayed;
  total_earned_stroops = s''.total_earned;
}

-- The pending set as a list: `HashSet::insert` and `remove`.
unfoldable pub insert : Bytes → List Bytes → List Bytes
insert x xs = if contains xs x then xs else x ∷ xs

unfoldable pub remove : Bytes → List Bytes → List Bytes
remove x [] = []
remove x (y ∷ ys) = let rest = remove x ys in ite (bytes_discrete y x) rest (y ∷ rest)

-- How far `handle_relay` is, at the points where another task may run. A panic of
-- `submit_withdrawal` is a result in Rpc and no phase here.
pub data Phase : Type 0 where
  arrived admitted submitting : Phase
  submitted removed counted : SubmitResult → Phase
  answered : Response → Phase

module _ ⦃crates : Decoders⦄ where
  -- The four checks between the two locks.
  unfoldable pub validate_fields : RelayRequest → Option RelayError
  validate_fields q = elim (validate_hex q.proof_hex 256) [
    | refuse e ↦ some (invalid_proof e)
    | pass _ ↦ elim (validate_hex q.root_hex 32) [
      | refuse e ↦ some (invalid_root e)
      | pass _ ↦ elim (validate_hex q.nullifier_hash_hex 32) [
        | refuse e ↦ some (invalid_nullifier_hash e)
        | pass _ ↦
            if not (validate_stellar_address q.recipient) then some invalid_recipient else none
      ]
    ]
  ]

  -- The next step of `handle_relay`, with what `submit_withdrawal` gives if that is called.
  unfoldable pub advance : RelayRequest → SubmitResult → RelayerState → Phase → RelayerState × Phase
  advance q result s arrived =
      if leb s.config.max_pending (length s.pending_nullifiers)
      then (s, answered (refusal too_many_requests at_capacity))
      else if contains s.pending_nullifiers q.nullifier_hash_hex
      then (s, answered (refusal conflict already_processing))
      else (s, admitted)
  advance q result s admitted = elim (validate_fields q) [
    | some e ↦ (s, answered (refusal bad_request e))
    | none ↦ (
      record s { pending_nullifiers = insert q.nullifier_hash_hex s.pending_nullifiers },
      submitting,
    )
  ]
  advance q result s submitting = (s, submitted result)
  advance q result s (submitted r) = (
    record s { pending_nullifiers = remove q.nullifier_hash_hex s.pending_nullifiers },
    removed r,
  )
  advance q result s (removed r) =
      if r.success
      then (record s { total_relayed = (s.total_relayed + 1) % 2 ^ 64 }, counted r)
      else (
        s,
        answered (record {
          status = internal_server_error;
          success = false;
          tx_hash = none;
          error = some (not_submitted r.error);
        }),
      )
  advance q result s (counted r) = (
    record s { total_earned = (s.total_earned + unwrap_or (parse_u64 q.fee) 0) % 2 ^ 64 },
    answered (record { status = ok; success = true; tx_hash = r.tx_hash; error = none }),
  )
  advance q result s (answered response) = (s, answered response)

pub record Task : Type 0 where
  pub request : RelayRequest
  pub phase : Phase

pub record Server : Type 0 where
  pub state : RelayerState
  pub tasks : List Task

module _ ⦃crates : Decoders⦄ where
  abbrev pub step_task : ℕ → SubmitResult → Server → Option Task → Server
  step_task i result v none = v
  step_task i result v (some t) =
      let next = advance t.request result v.state t.phase in
      record {
        state = next.0;
        tasks = set v.tasks i (record { request = t.request; phase = next.1 });
      }

  -- Task i takes its next step.
  unfoldable pub step : ℕ → SubmitResult → Server → Server
  step i result v = step_task i result v (get_elem? v.tasks i)

  -- Any interleaving: which task goes on, and what its submission gives if it comes to that.
  unfoldable pub run : List (ℕ × SubmitResult) → Server → Server
  run [] v = v
  run ((i, result) ∷ schedule) v = run schedule (step i result v)
