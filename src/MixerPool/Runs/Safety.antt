-- ===== src/MixerPool/Runs/Safety.antt =====
-- What the events of the pool (contracts/mixer_pool/src/lib.rs) say after any sequence of
-- invocations.
use caligo.Prelude.{
  ℕ, suc, ◌+◌, ◌≡◌, refl, ap, sym, ◌∙◌, Bool, false, List, [], ◌∷◌, ◌++◌, ite, arith, inl, inr,
}
use caligo.Prelude.Tests.{if◌then◌else◌}
use caligo.Prelude.Lists.{length, unwrap_or}
use caligo.Prelude.Bytes.{Bytes, bytes_discrete, contains, contains-snoc}
use caligo.Bn254.{Bn254}
use caligo.Soroban.{Soroban}
use caligo.MixerPool.Storage.{Env, Event}
use caligo.MixerPool.Verifier.{Build}
use caligo.MixerPool.Spec.{Config, IsConfig, Pool}
use caligo.MixerPool.Spec.Represents.{Represents}
use caligo.MixerPool.Runs.Cases.{spec_deposit_cases, spec_withdraw_cases}
use caligo.MixerPool.Runs.{Request, Invocation, run, spec_exec, spec_run, run-Represents}

-- How often a nullifier hash is announced as withdrawn.
abbrev pub paid : Bytes → List Event → ℕ
paid n [] = 0
paid n (Event.deposit _ _ ∷ events) = paid n events
paid n (Event.withdrawal m ∷ events) = ite (bytes_discrete m n) 1 0 + paid n events

-- The commitments that are announced as deposited, with their leaf indices.
abbrev pub deposits : List Event → List (Bytes × ℕ)
deposits [] = []
deposits (Event.deposit x i ∷ events) = (x, i) ∷ deposits events
deposits (Event.withdrawal _ ∷ events) = deposits events

-- How many withdrawals are announced.
abbrev pub withdrawals : List Event → ℕ
withdrawals [] = 0
withdrawals (Event.deposit _ _ ∷ events) = withdrawals events
withdrawals (Event.withdrawal _ ∷ events) = suc (withdrawals events)

abbrev pub number_from : ℕ → List Bytes → List (Bytes × ℕ)
number_from k [] = []
number_from k (x ∷ xs) = (x, k) ∷ number_from (suc k) xs

abbrev pub Distinct : List Bytes → Type 0
Distinct [] = Unit
Distinct (x ∷ xs) = (contains xs x ≡ false) × Distinct xs

paid-deposit :
    (n x : Bytes) (i : ℕ) (es : List Event) → paid n (es ++ (Event.deposit x i ∷ [])) ≡ paid n es
paid-deposit n x i [] = refl
paid-deposit n x i (Event.deposit _ _ ∷ es) = paid-deposit n x i es
paid-deposit n x i (Event.withdrawal m ∷ es) =
    ap (λ k. ite (bytes_discrete m n) 1 0 + k) (paid-deposit n x i es)

paid-withdrawal :
    (n m : Bytes) (es : List Event)
    → paid n (es ++ (Event.withdrawal m ∷ [])) ≡ paid n es + ite (bytes_discrete m n) 1 0
paid-withdrawal n m [] = omega arith
paid-withdrawal n m (Event.deposit _ _ ∷ es) = paid-withdrawal n m es
paid-withdrawal n m (Event.withdrawal k ∷ es) = omega (arith, paid-withdrawal n m es)

deposits-deposit :
    (x : Bytes) (i : ℕ) (es : List Event)
    → deposits (es ++ (Event.deposit x i ∷ [])) ≡ deposits es ++ ((x, i) ∷ [])
deposits-deposit x i [] = refl
deposits-deposit x i (Event.deposit y j ∷ es) = ap (◌∷◌ (y, j)) (deposits-deposit x i es)
deposits-deposit x i (Event.withdrawal _ ∷ es) = deposits-deposit x i es

deposits-withdrawal :
    (m : Bytes) (es : List Event) → deposits (es ++ (Event.withdrawal m ∷ [])) ≡ deposits es
deposits-withdrawal m [] = refl
deposits-withdrawal m (Event.deposit y j ∷ es) = ap (◌∷◌ (y, j)) (deposits-withdrawal m es)
deposits-withdrawal m (Event.withdrawal _ ∷ es) = deposits-withdrawal m es

withdrawals-deposit :
    (x : Bytes) (i : ℕ) (es : List Event)
    → withdrawals (es ++ (Event.deposit x i ∷ [])) ≡ withdrawals es
withdrawals-deposit x i [] = refl
withdrawals-deposit x i (Event.deposit _ _ ∷ es) = withdrawals-deposit x i es
withdrawals-deposit x i (Event.withdrawal _ ∷ es) = ap suc (withdrawals-deposit x i es)

withdrawals-withdrawal :
    (n : Bytes) (es : List Event)
    → withdrawals (es ++ (Event.withdrawal n ∷ [])) ≡ suc (withdrawals es)
withdrawals-withdrawal n [] = refl
withdrawals-withdrawal n (Event.deposit _ _ ∷ es) = withdrawals-withdrawal n es
withdrawals-withdrawal n (Event.withdrawal _ ∷ es) = ap suc (withdrawals-withdrawal n es)

number_from-snoc :
    (k : ℕ) (xs : List Bytes) (x : Bytes)
    → number_from k (xs ++ (x ∷ [])) ≡ number_from k xs ++ ((x, k + length xs) ∷ [])
number_from-snoc k [] x = ap (λ j. (x, j) ∷ []) (omega arith)
number_from-snoc k (y ∷ ys) x = ap (◌∷◌ (y, k)) (
    number_from-snoc (suc k) ys x ∙ ap (λ j. number_from (suc k) ys ++ ((x, j) ∷ [])) (omega arith))

Distinct-snoc :
    (xs : List Bytes) (x : Bytes) → Distinct xs → contains xs x ≡ false → Distinct (xs ++ (x ∷ []))
unfolding contains
Distinct-snoc [] x d h = (refl, tt)
Distinct-snoc (y ∷ ys) x d h =
    (ground (arith, contains-snoc ys x y), Distinct-snoc ys x d.1 (ground arith))

module _ ⦃host : Soroban⦄ where
  pub record IsSound (p : Pool) : Type 0 where
    pub leaves_distinct : Distinct p.leaves
    pub deposits_numbered : deposits p.events ≡ number_from 0 p.leaves
    pub spent_counted : withdrawals p.events ≡ length p.spent
    pub paid_once : (n : Bytes) → paid n p.events ≡ (if contains p.spent n then 1 else 0)

  deposited-IsSound :
      {p : Pool} (x : Bytes) (ledger : host.Ledger)
      → contains p.leaves x ≡ false
      → IsSound p
      → IsSound (record p {
        leaves = p.leaves ++ (x ∷ []);
        ledger = ledger;
        events = p.events ++ (Event.deposit x (length p.leaves) ∷ []);
      })
  deposited-IsSound {p} x ledger new s = record {
    leaves_distinct = Distinct-snoc p.leaves x s.leaves_distinct new;
    deposits_numbered =
        deposits-deposit x (length p.leaves) p.events
        ∙ ap (λ ds. ds ++ ((x, length p.leaves) ∷ [])) s.deposits_numbered
        ∙ sym (
            number_from-snoc 0 p.leaves x
            ∙ ap (λ j. number_from 0 p.leaves ++ ((x, j) ∷ [])) (omega arith));
    spent_counted = withdrawals-deposit x (length p.leaves) p.events ∙ s.spent_counted;
    paid_once = λ n. paid-deposit n x (length p.leaves) p.events ∙ s.paid_once n;
  }

  settled-IsSound :
      {p : Pool} (m : Bytes) (ledger : host.Ledger)
      → contains p.spent m ≡ false
      → IsSound p
      → IsSound (record p {
        spent = m ∷ p.spent;
        ledger = ledger;
        events = p.events ++ (Event.withdrawal m ∷ []);
      })
  unfolding contains
  settled-IsSound {p} m ledger new s = record {
    leaves_distinct = s.leaves_distinct;
    deposits_numbered = deposits-withdrawal m p.events ∙ s.deposits_numbered;
    spent_counted = withdrawals-withdrawal m p.events ∙ ap suc s.spent_counted;
    paid_once = λ n.
        ground (
          arith,
          paid-withdrawal n m p.events,
          s.paid_once n,
          ap (contains p.spent) {x = m} {y = n},
        );
  }

module _ ⦃bn : Bn254⦄ ⦃host : Soroban⦄ ⦃build : Build⦄ (c : Config) where
  spec_exec-IsSound :
      (authorized : host.Address → Bool) (q : Request) (p : Pool)
      → IsSound p
      → IsSound (spec_exec c p (record { authorized = authorized; request = q }))
  unfolding spec_exec
  spec_exec-IsSound authorized (Request.initialize _ _ _ _ _ _) p s = s
  spec_exec-IsSound authorized (Request.deposit depositor x) p s =
      elim (spec_deposit_cases c authorized depositor x p) [
        | inl same ↦ rw same s
        | inr (ledger, new, paid, e) ↦ rw e (deposited-IsSound x ledger new s)
      ]
  spec_exec-IsSound authorized (Request.withdraw proof root n recipient relayer fee) p s =
      elim (spec_withdraw_cases c proof root n recipient relayer fee p) [
        | inl same ↦ rw same s
        | inr (ledger, new, paid, low, e) ↦ rw e (settled-IsSound n ledger new s)
      ]
  spec_exec-IsSound authorized (Request.elsewhere ledger) p s = record {
    leaves_distinct = s.leaves_distinct;
    deposits_numbered = s.deposits_numbered;
    spent_counted = s.spent_counted;
    paid_once = s.paid_once;
  }

  pub spec_run-IsSound : (is : List Invocation) (p : Pool) → IsSound p → IsSound (spec_run c p is)
  unfolding spec_run
  spec_run-IsSound [] p s = s
  spec_run-IsSound (i ∷ is) p s =
      spec_run-IsSound is (spec_exec c p i) (spec_exec-IsSound i.authorized i.request p s)

module _ ⦃bn : Bn254⦄ ⦃host : Soroban⦄ ⦃build : Build⦄ {c : Config} (valid : IsConfig c)
    (is : List Invocation) {p : Pool} {e : Env} (r : Represents c p e) (s : IsSound p) where
  -- From a state that represents a sound pool with valid parameters, after any sequence of
  -- invocations, a nullifier hash has been announced as withdrawn once if the contract's storage
  -- marks it as spent, and never otherwise.
  pub run-paid_once :
      (n : Bytes)
      → paid n (run e is).events ≡ (if unwrap_or ((run e is).nullifier_spent n) false then 1 else 0)
  run-paid_once n =
      let r' = run-Represents valid is r in
      rw (r'.events, r'.nullifiers n) ((spec_run-IsSound c is p s).paid_once n)

  -- From a state that represents a sound pool with valid parameters, after any sequence of
  -- invocations, the deposit events announce the leaves of some list in order with the indices
  -- 0, 1, 2 and so on, the next leaf index is the length of the list, and no commitment is in it
  -- twice.
  pub run-deposits_numbered :
      (leaves : List Bytes) × (deposits (run e is).events ≡ number_from 0 leaves)
      × (unwrap_or (run e is).next_leaf_index 0 ≡ length leaves)
      × Distinct leaves
  run-deposits_numbered =
      let r' = run-Represents valid is r in
      let s' = spec_run-IsSound c is p s in
      (
        (spec_run c p is).leaves,
        rw r'.events s'.deposits_numbered,
        rw r'.next_leaf_index refl,
        s'.leaves_distinct,
      )
