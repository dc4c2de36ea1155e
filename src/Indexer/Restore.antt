-- ===== src/Indexer/Restore.antt =====
-- indexer/src/main.rs, in the build with the feature `postgres`: the restore of the state from what
-- the database has given. A result `none` is a panic.
use mathlib.Core.List.{append_assoc, append-nil}
use caligo.Prelude.{ℕ, suc, ◌≡◌, refl, Option, none, some, List, [], ◌∷◌, ◌++◌, arith}
use caligo.Prelude.Tests.{ltb, if◌then◌else◌}
use caligo.Prelude.Bytes.{Bytes}
use caligo.Prelude.Options.{◌>>=◌}
use caligo.Bn254.{Bn254}
use caligo.Indexer.Merkle.{MerkleTree, insert}
use caligo.Indexer.Merkle.Mirror.{Mirrors, insert-Mirrors}
use caligo.Indexer.State.{Hex, AppState, Follows, first_entry, entries_from}

module _ ⦃bn : Bn254⦄ where
  -- `for (_, commitment) in &commitments { state.tree.insert(*commitment); }`.
  unfoldable pub restore_tree : List Bytes → MerkleTree → Option MerkleTree
  restore_tree [] t = some t
  restore_tree (commitment ∷ rest) t = do
    inserted ← insert commitment t
    restore_tree rest inserted.0

  pub restore_tree-Mirrors :
      (rest : List Bytes) {ls : List Bytes} {depth : ℕ} {t : MerkleTree}
      → Mirrors ls depth t
      → (t' : MerkleTree) × (restore_tree rest t ≡ some t') × Mirrors (ls ++ rest) depth t'
  unfolding restore_tree
  restore_tree-Mirrors [] {ls} {depth} {t} m = (t, refl, rw (append-nil ls) m)
  restore_tree-Mirrors (x ∷ rest) {ls} {depth} {t} m =
      let (t₁, run, m₁) = insert-Mirrors x m in
      let (t₂, run₂, m₂) = restore_tree-Mirrors rest m₁ in
      (t₂, rw (run, ◌>>=◌) run₂, rw (← append_assoc ls (x ∷ []) rest) m₂)

module _ ⦃bn : Bn254⦄ ⦃hex : Hex⦄ where
  -- `none` is an error of the query; a ledger of 0 is not taken over.
  abbrev pub restore_ledger : Option ℕ → AppState → AppState
  restore_ledger none s = s
  restore_ledger (some ledger) s = if ltb 0 ledger then record s { last_ledger = ledger } else s

  pub restore_ledger-tree :
      (ledger : Option ℕ) (s : AppState) → (restore_ledger ledger s).tree ≡ s.tree
  restore_ledger-tree none s = refl
  restore_ledger-tree (some ledger) s = ground arith

  abbrev pub restore_commitments : Option (List Bytes) → AppState → Option AppState
  restore_commitments none s = some s
  restore_commitments (some commitments) s = do
    tree ← restore_tree commitments s.tree
    some (record s { tree = tree })

  unfoldable pub restore : Option (List Bytes) → Option ℕ → AppState → Option AppState
  restore commitments ledger s = do
    restored ← restore_commitments commitments s
    some (restore_ledger ledger restored)

  -- From an indexer state with no leaves, the restore of a list of commitments and a ledger
  -- above 0 does not panic and leaves the tree of these commitments and that ledger, but as root
  -- history the root of the empty tree alone.
  pub restore-Mirrors :
      (commitments : List Bytes) (ledger : ℕ) {depth : ℕ} {s : AppState}
      → Follows [] depth s
      → (s' : AppState) × (restore (some commitments) (some (suc ledger)) s ≡ some s')
        × Mirrors commitments depth s'.tree
        × (s'.roots ≡ first_entry depth ∷ [])
        × (s'.last_ledger ≡ suc ledger)
  unfolding restore entries_from
  restore-Mirrors commitments ledger {depth} {s} f =
      let (t, run, m) = restore_tree-Mirrors commitments f.tree in
      (record s { tree = t; last_ledger = suc ledger }, ground (arith, run), m, f.roots, refl)
