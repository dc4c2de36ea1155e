-- ===== src/Indexer/Paths.antt =====
-- The paths of the indexer (indexer/src) beside the root history of the contract
-- (contracts/mixer_pool/src): what a client gets from the one, the other accepts for a while.
use mathlib.Core.List.{append_assoc, append-nil}
use caligo.Prelude.{
  ℕ, suc, ◌+◌, ◌<◌, ◌≡◌, refl, ap, sym, ◌∙◌, Bool, true, some, List, [], ◌∷◌, ◌++◌, arith, inl, inr,
}
use caligo.Prelude.Lists.{length, get_elem?, length-append}
use caligo.Prelude.Bytes.{Bytes, contains, contains-take_of}
use caligo.Prelude.Contract.{ok}
use caligo.Bn254.{Bn254}
use caligo.Soroban.{Soroban}
use caligo.Tree.Inclusion.{climb}
use caligo.MixerPool.Storage.{Env}
use caligo.MixerPool.Verifier.{Build}
use caligo.MixerPool.Poseidon.{hash_pair_bytes}
use caligo.MixerPool.Merkle.Refine as Pool
use caligo.MixerPool.Contract.{is_known_root}
use caligo.MixerPool.Contract.History.{is_known_root_lem}
use caligo.MixerPool.Spec.{Config, IsConfig, past_roots}
use caligo.MixerPool.Spec as Spec
use caligo.MixerPool.Spec.Ages.{past_roots-append, some-injective}
use caligo.MixerPool.Spec.Represents.{Represents, ring_index}
use caligo.MixerPool.Runs.{Request, Invocation, run, spec_exec, spec_run, run-Represents}
use caligo.MixerPool.Runs.Cases.{spec_deposit_cases, spec_withdraw_cases}
use caligo.MixerPool.Runs.Safety.{IsSound, deposits, number_from, spec_run-IsSound}
use caligo.Indexer.Poseidon.{hash_pair_agrees}
use caligo.Indexer.Merkle.{MerkleProof, find_commitment, proof}
use caligo.Indexer.Merkle.Proofs.{find_commitment-proof, root_lem}
use caligo.Indexer.State.{Hex, AppState}
use caligo.Indexer.Agree.{keys, followed, followed-Follows, tree_node_agrees, keys-number_from}

module _ ⦃bn : Bn254⦄ ⦃host : Soroban⦄ ⦃build : Build⦄ (c : Config) where
  -- An invocation keeps the leaves and may append one.
  spec_exec-grows :
      (p : Spec.Pool) (i : Invocation)
      → (added : List Bytes) × ((spec_exec c p i).leaves ≡ p.leaves ++ added)
  unfolding spec_exec
  spec_exec-grows p i = by_request i.authorized i.request
    where
      by_request :
          (authorized : host.Address → Bool) (q : Request)
          → (added : List Bytes) × ((spec_exec c p
                (record { authorized = authorized; request = q })).leaves
              ≡ p.leaves ++ added)
      by_request authorized (Request.initialize _ _ _ _ _ _) = ([], sym (append-nil p.leaves))
      by_request authorized (Request.deposit depositor x) =
          elim (spec_deposit_cases c authorized depositor x p) [
            | inl same ↦ ([], ap Spec.Pool.leaves same ∙ sym (append-nil p.leaves))
            | inr (ledger, _, _, grew) ↦ (x ∷ [], ap Spec.Pool.leaves grew)
          ]
      by_request authorized (Request.withdraw proof root n recipient relayer fee) =
          elim (spec_withdraw_cases c proof root n recipient relayer fee p) [
            | inl same ↦ ([], ap Spec.Pool.leaves same ∙ sym (append-nil p.leaves))
            | inr (ledger, _, _, _, settled) ↦
                ([], ap Spec.Pool.leaves settled ∙ sym (append-nil p.leaves))
          ]
      by_request authorized (Request.elsewhere ledger) = ([], sym (append-nil p.leaves))

  spec_run-grows :
      (is : List Invocation) (p : Spec.Pool)
      → (added : List Bytes) × ((spec_run c p is).leaves ≡ p.leaves ++ added)
  unfolding spec_run
  spec_run-grows [] p = ([], sym (append-nil p.leaves))
  spec_run-grows (i ∷ is) p =
      let (first, grew) = spec_exec-grows p i in
      let (later, grew') = spec_run-grows is (spec_exec c p i) in
      (first ++ later, grew' ∙ ap (λ ls. ls ++ later) grew ∙ append_assoc p.leaves first later)

length-number_from : (k : ℕ) (xs : List Bytes) → length (number_from k xs) ≡ length xs
length-number_from k [] = refl
length-number_from k (x ∷ xs) = ap suc (length-number_from (suc k) xs)

module _ ⦃bn : Bn254⦄ ⦃host : Soroban⦄ {c : Config} where
  pub deposits_announced :
      {p : Spec.Pool} {e : Env} → Represents c p e → IsSound p → keys (deposits e.events) ≡ p.leaves
  deposits_announced {p} r s =
      rw r.events (ap keys s.deposits_numbered ∙ keys-number_from 0 p.leaves)

  pub deposits_counted :
      {p : Spec.Pool} {e : Env}
      → Represents c p e
      → IsSound p
      → length (deposits e.events) ≡ length p.leaves
  deposits_counted {p} r s =
      rw r.events (ap length s.deposits_numbered ∙ length-number_from 0 p.leaves)

  -- A root is known while fewer leaves have been added to its own than the history holds.
  pub root_known :
      {p : Spec.Pool} {e : Env}
      → Represents c p e
      → (leaves added : List Bytes) → p.leaves ≡ leaves ++ added
      → length added < c.root_history_size
      → is_known_root (Pool.tree_node leaves c.tree_depth 0) e ≡ ok true e
  root_known {p} {e} r leaves added grew few =
      let at : get_elem? (past_roots c.tree_depth p.leaves) (length added)
          ≡ some (Pool.tree_node leaves c.tree_depth 0) =
        ap (λ ls. get_elem? (past_roots c.tree_depth ls) (length added)) grew
        ∙ past_roots-append c.tree_depth leaves added in
      is_known_root_lem (past_roots c.tree_depth p.leaves) (Pool.tree_node leaves c.tree_depth 0)
        c.root_history_size (ring_index e) e r.root_history_size r.ring_bound r.ring
      ∙ ap (λ b. ok b e)
          (contains-take_of c.root_history_size (past_roots c.tree_depth p.leaves) _ (length added)
            few at)

module _ ⦃bn : Bn254⦄ ⦃host : Soroban⦄ ⦃build : Build⦄ ⦃hex : Hex⦄ {c : Config} (valid : IsConfig c)
    (is more : List Invocation) {p : Spec.Pool} {e : Env} (r : Represents c p e)
    (s : IsSound p) where
  root_lasts :
      length (deposits (run (run e is) more).events)
        < length (deposits (run e is).events) + c.root_history_size
      → is_known_root (Pool.tree_node (spec_run c p is).leaves c.tree_depth 0) (run (run e is) more)
        ≡ ok true (run (run e is) more)
  root_lasts few =
      let q = spec_run c p is in
      let r' = run-Represents valid is r in
      let r'' = run-Represents valid more r' in
      let s' = spec_run-IsSound c is p s in
      let (added, grew) = spec_run-grows c more q in
      let before = deposits_counted r' s' in
      let after =
        deposits_counted r'' (spec_run-IsSound c more q s')
        ∙ ap length grew
        ∙ length-append q.leaves added in
      root_known r'' q.leaves added grew (omega arith)

  -- After any invocations of a pool that stands for a sound specified one, with valid
  -- parameters, an indexer fed with all deposit events finds each commitment that one of them
  -- announces, and shows a path whose siblings and directions lead, by the contract's own hash,
  -- from the commitment to the root it carries; and the contract's `is_known_root` accepts that
  -- root after any further invocations, as long as these make fewer deposits than the root
  -- history has places.
  pub run-path_lasts :
      (contract_id x : Bytes)
      → contains (keys (deposits (run e is).events)) x ≡ true
      → length (deposits (run (run e is) more).events)
        < length (deposits (run e is).events) + c.root_history_size
      → (a : AppState) × (index : ℕ) × (path : MerkleProof) × (followed c (run e is) contract_id
          ≡ some a)
        × (find_commitment x a.tree ≡ some index)
        × (proof index a.tree ≡ some (some path))
        × (climb hash_pair_bytes x path.path_elements path.path_indices ≡ path.root)
        × (is_known_root path.root (run (run e is) more) ≡ ok true (run (run e is) more))
  run-path_lasts contract_id x there few =
      let q = spec_run c p is in
      let r' = run-Represents valid is r in
      let s' = spec_run-IsSound c is p s in
      let (a, done, f) = followed-Follows valid is r s contract_id in
      let (_, found) =
        find_commitment-proof f.tree x (omega (arith, r'.room)) (omega (arith, r'.room)) in
      let (index, path, at, shown, top, leads) =
        found (ap (λ ls. contains ls x) (sym (deposits_announced r' s')) ∙ there) in
      let same : Pool.tree_node q.leaves c.tree_depth 0 ≡ path.root =
        sym (tree_node_agrees q.leaves c.tree_depth 0)
        ∙ some-injective (sym (root_lem f.tree) ∙ top) in
      (
        a,
        index,
        path,
        done,
        at,
        shown,
        ap (λ (h : Bytes → Bytes → Bytes). climb h x path.path_elements path.path_indices)
              (λ k a b. sym (hash_pair_agrees a b) k)
            ∙ leads,
        ap (λ b. is_known_root b (run (run e is) more)) (sym same) ∙ root_lasts few,
      )
