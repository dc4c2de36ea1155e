-- ===== src/Indexer/Tests.antt =====
-- Tests of indexer/src: a small tree of depth 2, and an indexer beside a small pool.
use caligo.Prelude.{
  ℕ, ◌+◌, ◌<◌, ◌≡◌, ap, ◌∙◌, ℕ_discrete, refl, true, false, none, some, List, [], ◌∷◌, arith,
}
use caligo.Prelude.Lists.{length, get_elem?, unwrap_or, replicate}
use caligo.Prelude.Int.{pos}
use caligo.Prelude.Bytes.{Bytes, contains, bytes_discrete, cons_dec}
use caligo.Prelude.Contract.{ok}
use caligo.MixerPool.Contract.{get_root, is_known_root}
use caligo.MixerPool.Poseidon.{hash_pair_bytes}
use caligo.MixerPool.Runs.{Invocation, run, spec_run, spec_exec, run-Represents}
use caligo.MixerPool.Runs.Safety.{IsSound, deposits, spec_run-IsSound}
use caligo.MixerPool.Spec.{spec_deposit}
use caligo.MixerPool.Spec.Represents.{Represents}
use caligo.MixerPool.Tests.{
  limits, limits-IsConfig, open_env, open_env-Represents, deposit_of, empty_pool,
}
use caligo.MixerPool.Tests.Sequences.{empty_pool-IsSound}
use caligo.Tree.Inclusion.{climb}
use caligo.Indexer.Poseidon.{hash_pair, hash_pair_agrees}
use caligo.Indexer.Merkle.{
  MerkleTree, MerkleProof, new, insert, root, proof, leaf_count, find_commitment,
}
use caligo.Indexer.Merkle.Mirror.{Mirrors, new-Mirrors, insert-Mirrors}
use caligo.Indexer.Merkle.Proofs.{proof-climb, find_commitment-proof, proof-beyond}
use caligo.Indexer.State.{
  AppState, Follows, first_entry, new_state, insert_all, new_state-Follows, insert_all-Follows,
}
use caligo.Indexer.Restore.{restore, restore-Mirrors}
use caligo.Indexer.Api.{not_found, path_of, merkle_path, merkle_path-answers}
use caligo.Relayer.Validate.{trim_0x}
use caligo.Indexer.Agree.{keys, followed, run-followed}
use caligo.MixerPool.Merkle.Refine as Pool
use caligo.Indexer.Roots.{run-roots_listed}
use caligo.Indexer.Paths.{root_known, deposits_announced, deposits_counted, run-path_lasts}
use caligo.Examples.{small_field, small_host, small_build, small_hex, bytes_of}

new-Mirrors_example : (t : MerkleTree) × (new 2 ≡ some t) × Mirrors [] 2 t
new-Mirrors_example = new-Mirrors 2 (omega arith)

empty : (t : MerkleTree) × (new 2 ≡ some t) × Mirrors [] 2 t
empty = new-Mirrors 2 (omega arith)

insert-Mirrors_example :
    (t : MerkleTree) × (insert (bytes_of 11) empty.0 ≡ some (t, 0)) × Mirrors (bytes_of 11 ∷ []) 2 t
insert-Mirrors_example = insert-Mirrors (bytes_of 11) empty.2

one :
    (t : MerkleTree) × (insert (bytes_of 11) empty.0 ≡ some (t, 0)) × Mirrors (bytes_of 11 ∷ []) 2 t
one = insert-Mirrors (bytes_of 11) empty.2

two :
    (t : MerkleTree) × (insert (bytes_of 12) one.0 ≡ some (t, 1))
    × Mirrors (bytes_of 11 ∷ bytes_of 12 ∷ []) 2 t
two = insert-Mirrors (bytes_of 12) one.2

proof-climb_example :
    (p : MerkleProof) × (proof 1 two.0 ≡ some (some p))
    × (root two.0 ≡ some p.root)
    × (climb hash_pair (bytes_of 12) p.path_elements p.path_indices ≡ p.root)
    × (length p.path_elements ≡ 2)
    × (length p.path_indices ≡ 2)
    × (p.leaf_index ≡ 1)
proof-climb_example = proof-climb two.2 1 (bytes_of 12) refl (omega arith) (omega arith)

find_commitment-proof_example :
    (contains (bytes_of 11 ∷ bytes_of 12 ∷ []) (bytes_of 12) ≡ false
      → find_commitment (bytes_of 12) two.0 ≡ none)
    × (contains (bytes_of 11 ∷ bytes_of 12 ∷ []) (bytes_of 12) ≡ true
        → (index : ℕ) × (p : MerkleProof) × (find_commitment (bytes_of 12) two.0 ≡ some index)
          × (proof index two.0 ≡ some (some p))
          × (root two.0 ≡ some p.root)
          × (climb hash_pair (bytes_of 12) p.path_elements p.path_indices ≡ p.root))
find_commitment-proof_example =
    find_commitment-proof two.2 (bytes_of 12) (omega arith) (omega arith)

proof-beyond_example : proof 2 two.0 ≡ some none
proof-beyond_example = proof-beyond two.2 2 (omega arith) (omega arith)

hash_pair_agrees_example :
    hash_pair (bytes_of 300) (bytes_of 70000) ≡ hash_pair_bytes (bytes_of 300) (bytes_of 70000)
hash_pair_agrees_example = hash_pair_agrees (bytes_of 300) (bytes_of 70000)

started : (s : AppState) × (new_state [] (pos 100) 2 ≡ some s) × Follows [] 2 s
started = new_state-Follows [] (pos 100) 2 (omega arith)

insert_all-Follows_example :
    (s : AppState) × (insert_all (bytes_of 11 ∷ bytes_of 12 ∷ []) started.0 ≡ some s)
    × Follows (bytes_of 11 ∷ bytes_of 12 ∷ []) 2 s
insert_all-Follows_example =
    insert_all-Follows (bytes_of 11 ∷ bytes_of 12 ∷ []) (omega arith) started.2

abbrev deposits_made : List Invocation
deposits_made = deposit_of 11 ∷ deposit_of 12 ∷ deposit_of 11 ∷ []

run-followed_example :
    (a : AppState) × (b : Bytes) × (followed limits (run open_env deposits_made) [] ≡ some a)
    × (get_root (run open_env deposits_made) ≡ ok b (run open_env deposits_made))
    × (root a.tree ≡ some b)
    × (unwrap_or (run open_env deposits_made).next_leaf_index 0 ≡ leaf_count a.tree)
run-followed_example =
    run-followed limits-IsConfig deposits_made open_env-Represents empty_pool-IsSound []

-- Two leaves, then a third: the history of three places still has the root of the two.
abbrev deposit_after : List Invocation
deposit_after = deposit_of 13 ∷ []

deposits_made-leaves :
    (spec_run limits empty_pool deposits_made).leaves ≡ bytes_of 11 ∷ bytes_of 12 ∷ []
unfolding spec_run spec_exec spec_deposit contains bytes_discrete cons_dec ℕ_discrete
deposits_made-leaves = refl

deposit_after-leaves :
    (spec_run limits (spec_run limits empty_pool deposits_made) deposit_after).leaves
    ≡ bytes_of 11 ∷ bytes_of 12 ∷ bytes_of 13 ∷ []
unfolding spec_run spec_exec spec_deposit contains bytes_discrete cons_dec ℕ_discrete
deposit_after-leaves = refl

deposits_made-Represents :
    Represents limits (spec_run limits empty_pool deposits_made) (run open_env deposits_made)
deposits_made-Represents = run-Represents limits-IsConfig deposits_made open_env-Represents

deposits_made-IsSound : IsSound (spec_run limits empty_pool deposits_made)
deposits_made-IsSound = spec_run-IsSound limits deposits_made empty_pool empty_pool-IsSound

announced_twelve :
    contains (keys (deposits (run open_env deposits_made).events)) (bytes_of 12) ≡ true
unfolding contains bytes_discrete cons_dec ℕ_discrete
announced_twelve =
    ap (λ ls. contains ls (bytes_of 12))
      (deposits_announced deposits_made-Represents deposits_made-IsSound ∙ deposits_made-leaves)

few_after :
    length (deposits (run (run open_env deposits_made) deposit_after).events)
    < length (deposits (run open_env deposits_made).events) + 3
few_after =
    let before =
      deposits_counted deposits_made-Represents deposits_made-IsSound
      ∙ ap length deposits_made-leaves in
    let after =
      deposits_counted (run-Represents limits-IsConfig deposit_after deposits_made-Represents)
        (spec_run-IsSound limits deposit_after _ deposits_made-IsSound)
      ∙ ap length deposit_after-leaves in
    omega arith

run-path_lasts_example :
    (a : AppState) × (index : ℕ) × (path : MerkleProof) × (followed limits
        (run open_env deposits_made)
        []
      ≡ some a)
    × (find_commitment (bytes_of 12) a.tree ≡ some index)
    × (proof index a.tree ≡ some (some path))
    × (climb hash_pair_bytes (bytes_of 12) path.path_elements path.path_indices ≡ path.root)
    × (is_known_root path.root (run (run open_env deposits_made) deposit_after)
        ≡ ok true (run (run open_env deposits_made) deposit_after))
run-path_lasts_example =
    run-path_lasts limits-IsConfig deposits_made deposit_after open_env-Represents
      empty_pool-IsSound [] (bytes_of 12) announced_twelve few_after

-- The root of the first leaf, after the second one.
abbrev first_root : Bytes
first_root = Pool.tree_node (bytes_of 11 ∷ []) 2 0

first_root-known :
    is_known_root first_root (run open_env deposits_made) ≡ ok true (run open_env deposits_made)
first_root-known =
    root_known deposits_made-Represents (bytes_of 11 ∷ []) (bytes_of 12 ∷ []) deposits_made-leaves
      (omega arith)

run-roots_listed_example :
    (a : AppState) × (k : ℕ) × (followed limits (run open_env deposits_made) [] ≡ some a)
    × (get_elem? a.roots k
        ≡ some (record { root = small_hex.encode first_root; deposit_index = k }))
run-roots_listed_example =
    run-roots_listed limits-IsConfig deposits_made open_env-Represents empty_pool-IsSound []
      first_root first_root-known

-- The second of two leaves, asked for by its hexadecimal digits.
abbrev digits : Bytes
digits = 48 ∷ 120 ∷ replicate 64 97

filled :
    (s : AppState) × (insert_all (bytes_of 11 ∷ replicate 32 170 ∷ []) started.0 ≡ some s)
    × Follows (bytes_of 11 ∷ replicate 32 170 ∷ []) 2 s
filled = insert_all-Follows (bytes_of 11 ∷ replicate 32 170 ∷ []) (omega arith) started.2

digits_decoded : small_hex.decode (trim_0x digits) ≡ some (replicate 32 170)
unfolding trim_0x
digits_decoded = refl

merkle_path-answers_example :
    (contains (bytes_of 11 ∷ replicate 32 170 ∷ []) (replicate 32 170) ≡ false
      → merkle_path digits filled.0 ≡ some not_found)
    × (contains (bytes_of 11 ∷ replicate 32 170 ∷ []) (replicate 32 170) ≡ true
        → (p : MerkleProof) × (merkle_path digits filled.0 ≡ some (path_of p))
          × (root filled.0.tree ≡ some p.root)
          × (climb hash_pair (replicate 32 170) p.path_elements p.path_indices ≡ p.root))
merkle_path-answers_example =
    merkle_path-answers filled.2 digits (replicate 32 170) digits_decoded refl (omega arith)
      (omega arith)

restore-Mirrors_example :
    (s : AppState) × (restore (some (bytes_of 11 ∷ bytes_of 12 ∷ [])) (some 900) started.0 ≡ some s)
    × Mirrors (bytes_of 11 ∷ bytes_of 12 ∷ []) 2 s.tree
    × (s.roots ≡ first_entry 2 ∷ [])
    × (s.last_ledger ≡ 900)
restore-Mirrors_example = restore-Mirrors (bytes_of 11 ∷ bytes_of 12 ∷ []) 899 started.2
