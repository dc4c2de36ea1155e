-- ===== src/MixerPool/Contract/Deposit.antt =====
-- `deposit` of contracts/mixer_pool/src/lib.rs beside the specification.
use native.Mathlib.Nat.{pow-le-pow_right}
use caligo.Prelude.{
  ℕ, suc, ◌+◌, ◌≤◌, ◌≡◌, refl, ap, sym, true, false, some, none, [], ◌∷◌, ◌++◌, arith, inl, inr,
  ℕ_discrete,
}
use caligo.Prelude.Tests.{ltb, leb, if◌then◌else◌, Bool-cases, Option-cases}
use caligo.Prelude.Lists.{length, length-snoc}
use caligo.Prelude.Bytes.{Bytes, contains, bytes_discrete, update, contains-snoc}
use caligo.Prelude.Contract.{ok, err, trap}
use caligo.Bn254.{Bn254}
use caligo.Soroban.{Soroban}
use caligo.MixerPool.Errors.{duplicate_commitment, tree_full}
use caligo.MixerPool.Storage.{Env, Event}
use caligo.MixerPool.Merkle.Refine.{tree_node, Nodes, Table, insert_leaf-Nodes}
use caligo.MixerPool.Contract.{deposit, max_leaves, token_transfer}
use caligo.MixerPool.Contract.History.{push-Window, push_root_history_lem}
use caligo.MixerPool.Spec.{Config, IsConfig, Pool, capacity, past_roots, spec_deposit}
use caligo.MixerPool.Spec.Represents.{
  Represents, Refines, succeeds, fails, traps, past_roots-snoc, ring_index,
}

-- For a depth up to 32, the contract's limit of leaves is the smaller of 2 to the depth and the
-- largest u32.
pub max_leaves_lem : (depth : ℕ) → depth ≤ 32 → max_leaves depth ≡ capacity depth
unfolding max_leaves
max_leaves_lem depth h = elim (Bool-cases (ltb depth 32)) [
  | inl low ↦
      ground (arith, pow-le-pow_right {n = 2} (omega arith) {i = depth} {j = 31} (ground arith))
  | inr top ↦ let full : depth ≡ 32 = ground arith in rw full
]

module _ ⦃bn : Bn254⦄ ⦃host : Soroban⦄ {c : Config} (depositor : host.Address) (x : Bytes)
    {p : Pool} {e : Env} (valid : IsConfig c) (r : Represents c p e) where
  deposit_unauthorized : e.authorized depositor ≡ false → deposit depositor x e ≡ trap
  unfolding deposit
  deposit_unauthorized h = ground arith

  deposit_duplicate :
      e.authorized depositor ≡ true
      → contains p.leaves x ≡ true
      → deposit depositor x e ≡ err duplicate_commitment
  unfolding deposit
  deposit_duplicate a h = ground (arith, r.commitments x)

  deposit_full :
      e.authorized depositor ≡ true
      → contains p.leaves x ≡ false
      → leb (capacity c.tree_depth) (length p.leaves) ≡ true
      → deposit depositor x e ≡ err tree_full
  unfolding deposit
  deposit_full a h f = ground (arith, r.commitments x, max_leaves_lem c.tree_depth valid.depth_le)

  deposit_unpaid :
      e.authorized depositor ≡ true
      → contains p.leaves x ≡ false
      → leb (capacity c.tree_depth) (length p.leaves) ≡ false
      → host.transfer c.token depositor c.contract_address c.denomination p.ledger ≡ none
      → deposit depositor x e ≡ trap
  unfolding deposit token_transfer
  deposit_unpaid a h f t =
      ground (arith, r.commitments x, max_leaves_lem c.tree_depth valid.depth_le)

  -- The state that an accepted deposit leaves, with the table of nodes that the insertion wrote.
  deposited : host.Ledger → Table → Env
  deposited ledger t = record e {
    ledger = ledger;
    events = e.events ++ (Event.deposit x (length p.leaves) ∷ []);
    storage = record (e.storage) {
      commitment_inserted = update bytes_discrete e.commitment_inserted x true;
      merkle_node = t;
      next_leaf_index = some (suc (length p.leaves));
      root_history_entry =
          update ℕ_discrete e.root_history_entry (ring_index e)
            (tree_node (p.leaves ++ (x ∷ [])) c.tree_depth 0);
      root_history_index =
          some (if ltb (ring_index e + 1) c.root_history_size then ring_index e + 1 else 0);
    };
  }

  deposit_accepted :
      (ledger : host.Ledger)
      → e.authorized depositor ≡ true
      → contains p.leaves x ≡ false
      → leb (capacity c.tree_depth) (length p.leaves) ≡ false
      → host.transfer c.token depositor c.contract_address c.denomination p.ledger ≡ some ledger
      → (t : Table) × (deposit depositor x e ≡ ok tt (deposited ledger t))
        × Nodes (p.leaves ++ (x ∷ [])) c.tree_depth t
  unfolding deposit token_transfer deposited
  deposit_accepted ledger a h f t =
      let paid : Env = record e {
        ledger = ledger;
        storage = record (e.storage) {
          commitment_inserted = update bytes_discrete e.commitment_inserted x true;
        };
      } in
      let (nodes, run, done) =
        insert_leaf-Nodes p.leaves x c.tree_depth paid r.tree_depth r.next_leaf_index (ground arith)
          (ground arith) r.nodes in
      let grown : Env = record paid {
        storage = record (paid.storage) {
          merkle_node = nodes;
          next_leaf_index = some (suc (length p.leaves));
        };
      } in
      let push =
        push_root_history_lem (tree_node (p.leaves ++ (x ∷ [])) c.tree_depth 0) c.root_history_size
          (ring_index e) grown r.root_history_size refl r.ring_bound valid.history_fits in
      (
        nodes,
        ground (arith, run, push, r.commitments x, max_leaves_lem c.tree_depth valid.depth_le),
        done,
      )

  deposited-Represents :
      (ledger : host.Ledger) (t : Table)
      → leb (capacity c.tree_depth) (length p.leaves) ≡ false
      → Nodes (p.leaves ++ (x ∷ [])) c.tree_depth t
      → Represents c
          (record {
            leaves = p.leaves ++ (x ∷ []);
            spent = p.spent;
            ledger = ledger;
            events = p.events ++ (Event.deposit x (length p.leaves) ∷ []);
          })
          (deposited ledger t)
  unfolding deposited
  deposited-Represents ledger t f done = record {
    initialized = r.initialized;
    denomination = r.denomination;
    token = r.token;
    max_fee = r.max_fee;
    tree_depth = r.tree_depth;
    root_history_size = r.root_history_size;
    contract_address = r.contract_address;
    next_leaf_index = ap some (sym (length-snoc p.leaves x));
    room = ground (arith, length-snoc p.leaves x);
    nodes = done;
    commitments = λ y. ground (arith, r.commitments y, contains-snoc p.leaves x y);
    nullifiers = r.nullifiers;
    ring_bound = ground arith;
    ring = rw past_roots-snoc (
        push-Window (past_roots c.tree_depth p.leaves)
          (tree_node (p.leaves ++ (x ∷ [])) c.tree_depth 0) c.root_history_size (ring_index e) _
          e.root_history_entry r.ring_bound refl r.ring);
    ledger = refl;
    events = ap (λ es. es ++ (Event.deposit x (length p.leaves) ∷ [])) r.events;
  }

  -- For every state of the contract that represents a pool with valid parameters, `deposit` ends
  -- as `spec_deposit` says: with a trap where the depositor has not signed or the transfer
  -- fails, with the error for a commitment that is there or a tree that is full, and else with a
  -- state that represents the pool with the commitment appended, its root the newest of the
  -- history, the denomination taken and the event recorded with the leaf's index.
  pub deposit-Refines :
      Refines c (deposit depositor x e) (spec_deposit c e.authorized depositor x p)
  unfolding spec_deposit
  deposit-Refines = elim (Bool-cases (e.authorized depositor)) [
    | inr no_auth ↦ traps (deposit_unauthorized no_auth) (ground arith)
    | inl auth ↦ elim (Bool-cases (contains p.leaves x)) [
      | inl old ↦ fails duplicate_commitment (deposit_duplicate auth old) (ground arith)
      | inr new ↦ elim (Bool-cases (leb (capacity c.tree_depth) (length p.leaves))) [
        | inl full ↦ fails tree_full (deposit_full auth new full) (ground arith)
        | inr free ↦
            elim (Option-cases
              (host.transfer c.token depositor c.contract_address c.denomination p.ledger)) [
                | inl unpaid ↦ traps (deposit_unpaid auth new free unpaid) (ground arith)
                | inr (ledger, paid) ↦
                    let (t, run, done) = deposit_accepted ledger auth new free paid in
                    succeeds run (ground arith) (deposited-Represents ledger t free done)
              ]
      ]
    ]
  ]
