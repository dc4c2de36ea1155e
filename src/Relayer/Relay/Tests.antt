-- ===== src/Relayer/Relay/Tests.antt =====
-- Tests of relayer/src/relay.rs: requests that are answered, alone or beside others, and one that
-- is dropped.
use caligo.Prelude.{
  ℕ, zero, suc, ◌*◌, ◌<◌, ◌≡◌, ◌≢◌, refl, ap, sym, Bool, true, false, Option, none, some, [], ◌∷◌,
  arith, inr, ◌⊎◌, ℕ_discrete,
}
use caligo.Prelude.Lists.{length, get_elem?, replicate, unwrap_or}
use caligo.Prelude.Tests.{◌==◌, if◌then◌else◌}
use caligo.Prelude.Bytes.{Bytes, bytes_discrete, cons_dec, contains}
use caligo.Relayer.{Keys}
use caligo.Relayer.Rpc.{RpcError, SubmitResult, healthy, failed, slice_to, submit_withdrawal}
use caligo.Relayer.Relay.{
  Task, Server, arrived, submitting, answered, internal_server_error, not_submitted,
  derive_public_address, new_state, handle_status, run,
}
use caligo.Relayer.Relay.Pending.{arriving}
use caligo.Relayer.Relay.Answers.{turns, results, first_seen, reply, run-answered}
use caligo.Relayer.Relay.Alone.{Ascii, HexLaws, alone, run-alone}
use caligo.Relayer.Relay.Dropped.{is_outside, Stuck, run-Stuck}
use caligo.Relayer.Tests.{request, idle, busy, sent, schedule, request_fine, idle_new}
use caligo.Examples.{small_decoders, nibble, join, hex_decode}

nibble-ascii : (c n : ℕ) → nibble c ≡ some n → c < 128
nibble-ascii c n h = ground arith

abbrev read_length : Option Bytes → ℕ
read_length o = length (unwrap_or o [])

join-eq_some :
    (a b : Option ℕ) (rest : Option Bytes) (bytes : Bytes)
    → join a b rest ≡ some bytes
    → (x : ℕ) × (y : ℕ) × (read : Bytes) × (a ≡ some x)
      × (b ≡ some y)
      × (rest ≡ some read)
      × (length bytes ≡ suc (length read))
join-eq_some (some a) (some b) (some read) bytes h =
    (a, b, read, refl, refl, refl, ap read_length (sym h))
join-eq_some (some a) (some b) none bytes h = cc
join-eq_some (some a) none rest bytes h = cc
join-eq_some none b rest bytes h = cc

hex_decode-length : (s bytes : Bytes) → hex_decode s ≡ some bytes → length s ≡ 2 * length bytes
hex_decode-length [] bytes h = omega (arith, ap read_length h)
hex_decode-length (c ∷ []) bytes h = cc
hex_decode-length (c ∷ d ∷ rest) bytes h =
    let (x, y, read, _, _, more, long) =
      join-eq_some (nibble c) (nibble d) (hex_decode rest) bytes h in
    omega (arith, hex_decode-length rest read more)

hex_decode-Ascii : (s bytes : Bytes) → hex_decode s ≡ some bytes → Ascii s
hex_decode-Ascii [] bytes h = tt
hex_decode-Ascii (c ∷ []) bytes h = cc
hex_decode-Ascii (c ∷ d ∷ rest) bytes h =
    let (x, y, read, first, second, more, _) =
      join-eq_some (nibble c) (nibble d) (hex_decode rest) bytes h in
    (nibble-ascii c x first, (nibble-ascii d y second, hex_decode-Ascii rest read more))

small_decoders-HexLaws : HexLaws
small_decoders-HexLaws = record {
  decode_length = hex_decode-length;
  decode_ascii = hex_decode-Ascii;
}

run-alone_example :
    (e : RpcError) × (submit_withdrawal healthy request.root_hex request.nullifier_hash_hex
      ≡ some (failed e))
    × (run (replicate 5 (0, failed e)) (alone request idle) ≡ record {
      state = idle;
      tasks =
          record {
            request = request;
            phase = answered (record {
              status = internal_server_error;
              success = false;
              tx_hash = none;
              error = some (not_submitted (some e));
            });
          }
          ∷ [];
    })
run-alone_example =
    run-alone small_decoders-HexLaws healthy request idle request_fine idle_new (omega arith)

-- A root that is no hexadecimal text may make the log panic.
slice_short : slice_to 16 (replicate 15 50) ≡ none
unfolding slice_to
slice_short = refl

slice_inside : slice_to 1 (195 ∷ 169 ∷ []) ≡ none
unfolding slice_to
slice_inside = refl

run-answered_example :
    (result : SubmitResult) × (get_elem? (results 0 schedule) 2 ≡ some result)
    × (get_elem? (run schedule (arriving request request idle)).tasks 0
        ≡ some (record {
          request = request;
          phase =
              answered
                (reply request (first_seen 0 schedule (arriving request request idle)) result);
        }))
run-answered_example =
    run-answered schedule (arriving request request idle) 0 request refl
      (unfold turns in omega arith)

-- The first task was dropped as it awaited the submission.
abbrev dropped : Server
dropped = record {
  state = busy;
  tasks =
      record { request = request; phase = submitting }
      ∷ record { request = request; phase = arrived }
      ∷ [];
}

busy_pending : contains busy.pending_nullifiers request.nullifier_hash_hex ≡ true
unfolding contains bytes_discrete cons_dec ℕ_discrete
busy_pending = refl

abbrev outside_or_none : Option Task → Bool
outside_or_none none = true
outside_or_none (some t) = is_outside t.phase

dropped-Stuck : Stuck request.nullifier_hash_hex 0 dropped
dropped-Stuck = record { pending = busy_pending; others = others }
  where
    others :
        (j : ℕ) (t : Task)
        → j ≢ 0
        → get_elem? dropped.tasks j ≡ some t
        → (t.request.nullifier_hash_hex ≢ request.nullifier_hash_hex) ⊎ (is_outside t.phase ≡ true)
    others zero t ne at = absurd (ne refl)
    others (suc zero) t ne at = inr (ap outside_or_none (sym at))
    others (suc (suc j)) t ne at = cc

run-Stuck_example : Stuck request.nullifier_hash_hex 0 (run ((1, sent) ∷ (1, sent) ∷ []) dropped)
run-Stuck_example =
    run-Stuck ((1, sent) ∷ (1, sent) ∷ []) request.nullifier_hash_hex 0 dropped
      (unfold turns in refl) dropped-Stuck

-- Secret keys start with 'S', and the public key is the rest after a 'G'.
abbrev small_key : Bytes → Option Bytes
small_key [] = none
small_key (c ∷ rest) = if c == 83 then some rest else none

instance abbrev small_keys : Keys
small_keys = record {
  private_key = small_key;
  verifying_key = λ sk. sk;
  public_key_to_string = λ key. 71 ∷ key;
}

-- The address of a key that does not parse is the text of the key itself.
address_of_key : derive_public_address (83 ∷ 65 ∷ []) ≡ 71 ∷ 65 ∷ []
unfolding derive_public_address
address_of_key = refl

address_of_garbage : derive_public_address (84 ∷ 65 ∷ []) ≡ 84 ∷ 65 ∷ []
unfolding derive_public_address
address_of_garbage = refl

status_of_new : handle_status (new_state idle.config) busy idle ≡ record {
  address = 71 ∷ [];
  fee_bps = 100;
  pending_count = 0;
  max_pending = 1;
  total_relayed = 0;
  total_earned_stroops = 0;
}
unfolding handle_status new_state derive_public_address
status_of_new = refl
