-- ===== src/MixerPool/Tests/Sequences.antt =====
-- Tests of sequences of invocations of contracts/mixer_pool, from the pool of the parent.
use caligo.Prelude.{
  ℕ, ◌+◌, ◌≤◌, ◌*◌, ◌≡◌, ◌≢◌, refl, ap, sym, Bool, true, false, none, some, List, [], ◌∷◌, arith,
  inl, inr, ℕ_discrete,
}
use caligo.Prelude.Tests.{if◌then◌else◌, leb, Bool-cases}
use caligo.Prelude.Lists.{length, take, unwrap_or, get_elem?}
use caligo.Prelude.Int.{pos, negsuc, ◌-ℤ◌}
use caligo.Prelude.Bytes.{Bytes, contains, bytes_discrete, cons_dec}
use caligo.Prelude.Contract.{ok, err, trap}
use caligo.Tree.{node}
use caligo.MixerPool.Storage.{Env}
use caligo.MixerPool.Verifier.{
  verify_proof, decode_proof, decode_g1, decode_g2, bytes_to_fq, load_verification_key,
  decode_points, check_pairing, add_inputs, input_to_fr,
}
use caligo.MixerPool.Poseidon.{
  hash_pair_bytes, bytes_to_fr, fr_to_bytes, write_reversed, hash_pair, hash_single_bytes,
  hash_single,
}
use caligo.MixerPool.Merkle.{insert_leaf}
use caligo.MixerPool.Merkle.Refine.{tree_node, empty_leaf, Table, Nodes, insert_leaf-Nodes}
use caligo.MixerPool.Contract.{
  withdraw, execute_withdrawal, is_known_root, max_leaves, fee_to_bytes, as_u128, to_be_bytes,
}
use caligo.MixerPool.Contract.History.{is_known_root_lem}
use caligo.MixerPool.Contract.Deposit.{max_leaves_lem}
use caligo.MixerPool.Contract.Withdraw.{withdraw-Refines}
use caligo.MixerPool.Spec.{
  Config, Promise, capacity, past_roots, roots_from_prefix, spec_withdraw, spec_deposit, settle,
  pay_out,
}
use caligo.MixerPool.Spec.Represents.{
  Represents, Result, Refines, succeeds, fails, traps, ring_index,
}
use caligo.MixerPool.Runs.{Request, Invocation, run, spec_run, spec_exec, run-Represents}
use caligo.MixerPool.Runs.Safety.{
  IsSound, paid, deposits, withdrawals, number_from, Distinct, run-paid_once, run-deposits_numbered,
}
use caligo.MixerPool.Runs.Solvency.{TokenLaws, funds, run-IsSolvent}
use caligo.MixerPool.Runs.Aliasing.{withdraw_aliased}
use caligo.MixerPool.Tests.{
  empty_pool, limits, limits-IsConfig, open_env, open_env-Represents, coin_root, deposit_of,
  used_env, used_pool, used_env-Represents,
}
use caligo.Examples.{
  Balances, moved, small_transfer, small_field, small_host, small_build, bytes_of, proof_of,
}

-- Two deposits of one commitment, then two withdrawals with one proof.
abbrev busy : List Invocation
busy =
    deposit_of 11
    ∷ deposit_of 11
    ∷ record {
      authorized = λ a. false;
      request = Request.withdraw (proof_of 12) coin_root (bytes_of 5) 3 4 (pos 10);
    }
    ∷ record {
      authorized = λ a. false;
      request = Request.withdraw (proof_of 12) coin_root (bytes_of 5) 3 4 (pos 10);
    }
    ∷ []

run-Represents_example : Represents limits (spec_run limits empty_pool busy) (run open_env busy)
run-Represents_example = run-Represents limits-IsConfig busy open_env-Represents

pub empty_pool-IsSound : IsSound empty_pool
unfolding contains
empty_pool-IsSound = record {
  leaves_distinct = tt;
  deposits_numbered = refl;
  spent_counted = refl;
  paid_once = λ n. refl;
}

run-paid_once_example :
    paid (bytes_of 5) (run open_env busy).events
    ≡ (if unwrap_or ((run open_env busy).nullifier_spent (bytes_of 5)) false then 1 else 0)
run-paid_once_example =
    run-paid_once limits-IsConfig busy open_env-Represents empty_pool-IsSound (bytes_of 5)

run-deposits_numbered_example :
    (leaves : List Bytes) × (deposits (run open_env busy).events ≡ number_from 0 leaves)
    × (unwrap_or (run open_env busy).next_leaf_index 0 ≡ length leaves)
    × Distinct leaves
run-deposits_numbered_example =
    run-deposits_numbered limits-IsConfig busy open_env-Represents empty_pool-IsSound

balances_nonneg : (t a b : ℕ) (n : ℕ) (l : Balances) → small_transfer t a b (negsuc n) l ≡ none
balances_nonneg t a b n l = refl

transfer_moves :
    (t a b n : ℕ) (l l' : Balances)
    → small_transfer t a b (pos n) l ≡ some l'
    → (n ≤ l t a) × ((x : ℕ) → l' t x ≡ moved t a b n l t x)
transfer_moves t a b n l l' h = elim (Bool-cases (leb n (l t a))) [
  | inl enough ↦
      let same : moved t a b n l ≡ l' = ground arith in
      (ground arith, λ x. ap (λ f. f t x) (sym same))
  | inr short ↦ absurd (none-ne-some (let same : none ≡ some l' = ground arith in same))
]
  where
    none-ne-some : {A : Type 0} {x : A} → ¬ (none ≡ some x)
    none-ne-some e = cc

balances_debit :
    (t a b n : ℕ) (l l' : Balances) → small_transfer t a b (pos n) l ≡ some l' → l t a ≤ l' t a + n
balances_debit t a b n l l' h =
    let (enough, to) = transfer_moves t a b n l l' h in ground (arith, enough, to a)

balances_credit :
    (t a b n : ℕ) (l l' : Balances)
    → a ≢ b
    → small_transfer t a b (pos n) l ≡ some l'
    → l' t b ≡ l t b + n
balances_credit t a b n l l' ne h =
    let (enough, to) = transfer_moves t a b n l l' h in ground (arith, to b, λ (e : a ≡ b). ne e)

pub balances-TokenLaws : TokenLaws
balances-TokenLaws = record {
  balance = λ l t a. l t a;
  nonneg = balances_nonneg;
  debit = balances_debit;
  credit = balances_credit;
}

run-IsSolvent_example :
    100 * unwrap_or (run open_env busy).next_leaf_index 0
    ≤ funds balances-TokenLaws limits (run open_env busy).ledger
      + 100 * withdrawals (run open_env busy).events
run-IsSolvent_example =
    run-IsSolvent balances-TokenLaws limits-IsConfig busy open_env-Represents empty_pool-IsSound
      (omega arith) (λ e. absurd (omega arith), (λ e. absurd (omega arith), (tt, (tt, tt))))

insert_leaf-Nodes_example :
    (t : Table) × (insert_leaf (bytes_of 11) open_env
      ≡ ok (tree_node (bytes_of 11 ∷ []) 2 0) (record open_env {
        storage = record (open_env.storage) { merkle_node = t; next_leaf_index = some 1 };
      }))
    × Nodes (bytes_of 11 ∷ []) 2 t
insert_leaf-Nodes_example =
    insert_leaf-Nodes [] (bytes_of 11) 2 open_env open_env-Represents.tree_depth
      open_env-Represents.next_leaf_index (omega arith) (omega arith) open_env-Represents.nodes

is_known_root_lem_example :
    is_known_root coin_root open_env ≡ ok (contains (take 3 (past_roots 2 [])) coin_root) open_env
is_known_root_lem_example =
    is_known_root_lem (past_roots 2 []) coin_root 3 (ring_index open_env) open_env
      open_env-Represents.root_history_size open_env-Represents.ring_bound open_env-Represents.ring

max_leaves_lem_example : max_leaves 32 ≡ capacity 32
max_leaves_lem_example = max_leaves_lem 32 (omega arith)

abbrev is_ok : Promise → Bool
is_ok (ok _ _) = true
is_ok (err _) = false
is_ok trap = false

-- What a call that is to succeed leaves.
succeeded :
    {c : Config} {a : Result} {b : Promise}
    → Refines c a b
    → is_ok b ≡ true
    → (e : Env) × (a ≡ ok tt e)
succeeded (succeeds {e = e} h k r) g = (e, h)
succeeded (fails x h k) g = absurd (ground (arith, k, g))
succeeded (traps h k) g = absurd (ground (arith, k, g))

withdrawal_promised :
    is_ok (spec_withdraw limits (proof_of 12) coin_root (bytes_of 5) 3 4 (pos 10) used_pool) ≡ true
unfolding verify_proof decode_proof decode_g1 decode_g2 bytes_to_fq load_verification_key
    decode_points check_pairing add_inputs input_to_fr fee_to_bytes as_u128 to_be_bytes
    hash_pair_bytes bytes_to_fr fr_to_bytes write_reversed hash_pair node empty_leaf
    hash_single_bytes hash_single spec_withdraw spec_run spec_exec spec_deposit contains
    roots_from_prefix settle pay_out bytes_discrete ◌-ℤ◌ cons_dec ℕ_discrete
withdrawal_promised = refl

withdrawn_once :
    (e : Env) × (withdraw (proof_of 12) coin_root (bytes_of 5) 3 4 (pos 10) used_env ≡ ok tt e)
withdrawn_once =
    succeeded
      (withdraw-Refines (proof_of 12) coin_root (bytes_of 5) 3 4 (pos 10) limits-IsConfig
        used_env-Represents)
      withdrawal_promised

same_element : input_to_fr (bytes_of 65526) ≡ input_to_fr (bytes_of 5)
unfolding input_to_fr
same_element = refl

other_bytes : bytes_of 65526 ≢ bytes_of 5
other_bytes e = absurd (ground (arith, ap (λ bs. unwrap_or (get_elem? bs 30) 0) e))

other_unspent : contains used_pool.spent (bytes_of 65526) ≡ false
unfolding contains spec_run spec_exec spec_deposit
other_unspent = refl

-- 5 and 65526 are one element of the field of 65521.
withdraw_aliased_example :
    withdraw (proof_of 12) coin_root (bytes_of 65526) 3 4 (pos 10) withdrawn_once.0
    ≡ execute_withdrawal (bytes_of 65526) 3 4 (pos 10) withdrawn_once.0
withdraw_aliased_example =
    withdraw_aliased (proof_of 12) coin_root (bytes_of 5) (bytes_of 65526) 3 4 (pos 10)
      limits-IsConfig used_env-Represents withdrawn_once.0 withdrawn_once.1 same_element other_bytes
      other_unspent
