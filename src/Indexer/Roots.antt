-- ===== src/Indexer/Roots.antt =====
-- The root list of the indexer (`roots` of indexer/src/state.rs, which GET /roots answers) beside
-- the root history of the contract (contracts/mixer_pool/src/lib.rs).
use mathlib.Core.List.{append_assoc}
use caligo.Prelude.{
  ℕ, zero, suc, ◌+◌, ◌≤◌, ◌<◌, ◌≡◌, refl, ap, ap₂, sym, ◌∙◌, true, some, List, [], ◌∷◌, ◌++◌, arith,
}
use caligo.Prelude.Lists.{length, get_elem?, take, length-append}
use caligo.Prelude.Bytes.{Bytes, contains, contains-take}
use caligo.Prelude.Contract.{ok}
use caligo.Bn254.{Bn254}
use caligo.Soroban.{Soroban}
use caligo.MixerPool.Storage.{Env}
use caligo.MixerPool.Verifier.{Build}
use caligo.MixerPool.Merkle.Refine as Pool
use caligo.MixerPool.Contract.{is_known_root}
use caligo.MixerPool.Contract.History.{is_known_root_lem}
use caligo.MixerPool.Spec.{Config, IsConfig, past_roots}
use caligo.MixerPool.Spec as Spec
use caligo.MixerPool.Spec.Ages.{past_roots-at}
use caligo.MixerPool.Spec.Represents.{Represents, ring_index}
use caligo.MixerPool.Runs.{Invocation, run, spec_run, run-Represents}
use caligo.MixerPool.Runs.Safety.{IsSound}
use caligo.Indexer.Merkle.Proofs.{tree_node}
use caligo.Indexer.State.{Hex, RootEntry, AppState, first_entry, entries_from}
use caligo.Indexer.Agree.{followed, followed-Follows, tree_node_agrees}

module _ ⦃bn : Bn254⦄ ⦃hex : Hex⦄ (depth : ℕ) where
  open hex use {encode}

  abbrev pub entry : List Bytes → ℕ → RootEntry
  entry ls n = record { root = encode (tree_node ls depth 0); deposit_index = n }

  entries_from-at :
      (done ls : List Bytes) (k : ℕ)
      → k < length ls
      → get_elem? (entries_from depth done ls) k
        ≡ some (entry (done ++ take (suc k) ls) (length done + suc k))
  unfolding entries_from
  entries_from-at done [] k lt = absurd (omega arith)
  entries_from-at done (x ∷ ls) zero lt =
      ap (λ n. some (entry (done ++ (x ∷ [])) n)) (length-append done (x ∷ []))
  entries_from-at done (x ∷ ls) (suc k) lt =
      entries_from-at (done ++ (x ∷ [])) ls k (omega arith)
      ∙ ap₂ (λ xs n. some (entry xs n)) (append_assoc done (x ∷ []) (take (suc k) ls))
          (omega (arith, length-append done (x ∷ [])))

  -- The entry of each state that the tree has had stands at the number of leaves it had.
  entry_of :
      (ls : List Bytes) (k : ℕ)
      → k ≤ length ls
      → get_elem? (first_entry depth ∷ entries_from depth [] ls) k ≡ some (entry (take k ls) k)
  unfolding first_entry
  entry_of ls zero low = refl
  entry_of ls (suc k) low =
      entries_from-at [] ls k (omega arith)
      ∙ ap (λ n. some (entry (take (suc k) ls) n)) (omega arith)

module _ ⦃bn : Bn254⦄ ⦃host : Soroban⦄ {c : Config} {p : Spec.Pool} {e : Env}
    (r : Represents c p e) where
  -- A known root is that of the first so many leaves.
  known_prefix :
      (root : Bytes)
      → is_known_root root e ≡ ok true e
      → (k : ℕ) × (k ≤ length p.leaves) × (root ≡ Pool.tree_node (take k p.leaves) c.tree_depth 0)
  known_prefix root known =
      let roots = past_roots c.tree_depth p.leaves in
      let shown =
        is_known_root_lem roots root c.root_history_size (ring_index e) e r.root_history_size
          r.ring_bound r.ring in
      let there : contains (take c.root_history_size roots) root ≡ true =
        let same = sym shown ∙ known in cc in
      let (j, _, at) = contains-take c.root_history_size roots root there in
      past_roots-at c.tree_depth p.leaves j root at

module _ ⦃bn : Bn254⦄ ⦃host : Soroban⦄ ⦃build : Build⦄ ⦃hex : Hex⦄ {c : Config} (valid : IsConfig c)
    (is : List Invocation) {p : Spec.Pool} {e : Env} (r : Represents c p e) (s : IsSound p)
    (contract_id : Bytes) where
  open hex use {encode}

  -- After any invocations of a pool that stands for a sound specified one, with valid
  -- parameters, an indexer fed with all deposit events lists each root that the contract's
  -- `is_known_root` accepts, in hexadecimal, at the place of its number of deposits.
  pub run-roots_listed :
      (root : Bytes)
      → is_known_root root (run e is) ≡ ok true (run e is)
      → (a : AppState) × (k : ℕ) × (followed c (run e is) contract_id ≡ some a)
        × (get_elem? a.roots k ≡ some (record { root = encode root; deposit_index = k }))
  run-roots_listed root known =
      let ls = (spec_run c p is).leaves in
      let (k, low, here) = known_prefix (run-Represents valid is r) root known in
      let (a, done, f) = followed-Follows valid is r s contract_id in
      (
        a,
        k,
        done,
        ap (λ entries. get_elem? entries k) f.roots
            ∙ entry_of c.tree_depth ls k low
            ∙ ap (λ b. some (record { root = encode b; deposit_index = k }))
                (tree_node_agrees (take k ls) c.tree_depth 0 ∙ sym here),
      )
