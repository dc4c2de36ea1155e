-- ===== src/RelayerRegistry/Spec/Active.antt =====
-- `get_active_relayers` of contracts/relayer_registry/src/lib.rs, and `initialize`.
use mathlib.Core.List.{append_assoc, append-nil}
use caligo.Prelude.{
  ℕ, zero, suc, ◌+◌, ◌<◌, ◌≡◌, refl, ap, sym, ◌∙◌, true, none, some, List, [], ◌∷◌, ◌++◌, arith,
  inl, inr,
}
use caligo.Prelude.Tests.{Bool-cases}
use caligo.Prelude.Lists.{length, get_elem?}
use caligo.Prelude.Contract.{ok, err}
use caligo.Soroban.{Soroban}
use caligo.RelayerRegistry.Storage.{RelayerInfo, Env, already_initialized}
use caligo.RelayerRegistry.Contract.{stored_at, active_from, get_active_relayers, initialize}
use caligo.RelayerRegistry.Spec.{Registry, find, filter_active}
use caligo.RelayerRegistry.Spec.Entries.{addresses, find-Distinct}
use caligo.RelayerRegistry.Spec.Refine.{Represents}

module _ ⦃host : Soroban⦄ where
  -- The storage enumerates these entries from index i on.
  abbrev Lists : Env → ℕ → List RelayerInfo → Type 0
  Lists e i rs = (k : ℕ) → k < length rs → stored_at e (e.relayer_index (i + k)) ≡ get_elem? rs k

  active_from-filter_active :
      (rs : List RelayerInfo) (i : ℕ) (result : List RelayerInfo) (e : Env)
      → Lists e i rs
      → active_from (length rs) i result e ≡ ok (result ++ filter_active rs) e
  unfolding active_from filter_active
  active_from-filter_active [] i result e at = ap (λ l. ok l e) (sym (append-nil result))
  active_from-filter_active (r ∷ rs) i result e at =
      let first : stored_at e (e.relayer_index i) ≡ some r =
        ap (λ j. stored_at e (e.relayer_index j)) (let same : i ≡ i + 0 = omega arith in same)
        ∙ at 0 (omega arith) in
      let rest : Lists e (i + 1) rs = λ k h.
        ap (λ j. stored_at e (e.relayer_index j))
          (let same : i + 1 + k ≡ i + suc k = omega arith in same)
        ∙ at (suc k) (omega arith) in
      elim (Bool-cases r.active) [
        | inl on ↦ ground (
          arith,
          first,
          active_from-filter_active rs (i + 1) (result ++ (r ∷ [])) e rest,
          append_assoc result (r ∷ []) (filter_active rs),
        )
        | inr off ↦ ground (arith, first, active_from-filter_active rs (i + 1) result e rest)
      ]

  get_elem?-addresses :
      (rs : List RelayerInfo) (k : ℕ) (r : RelayerInfo)
      → get_elem? rs k ≡ some r
      → get_elem? (addresses rs) k ≡ some r.address
  get_elem?-addresses [] k r h = cc
  get_elem?-addresses (q ∷ rs) zero r h =
      ap (λ o. get_elem? (addresses (elim o [ none ↦ [] | some x ↦ x ∷ [] ])) 0) h
  get_elem?-addresses (q ∷ rs) (suc k) r h = get_elem?-addresses rs k r h

  get_elem?-at :
      {A : Type 0} (xs : List A) (k : ℕ) → k < length xs → (x : A) × (get_elem? xs k ≡ some x)
  get_elem?-at [] k h = elim h [ ]
  get_elem?-at (x ∷ xs) zero h = (x, refl)
  get_elem?-at (x ∷ xs) (suc k) h = get_elem?-at xs k (omega arith)

  -- The active entries, each once, in the order of registration.
  pub get_active_relayers_lem :
      {g : Registry} {e : Env}
      → Represents g e
      → get_active_relayers e ≡ ok (filter_active g.relayers) e
  unfolding get_active_relayers
  get_active_relayers_lem {g} {e} r =
      let listed : Lists e 0 g.relayers = λ k h.
        let (info, at) = get_elem?-at g.relayers k h in
        let here : 0 + k ≡ k = omega arith in
        let index : e.relayer_index (0 + k) ≡ some info.address =
          ap e.relayer_index here ∙ r.relayer_index k ∙ get_elem?-addresses g.relayers k info at in
        ap (stored_at e) index
        ∙ r.relayer info.address
        ∙ find-Distinct g.relayers k info r.distinct at
        ∙ sym at in
      ground (arith, r.relayer_count, active_from-filter_active g.relayers 0 [] e listed)

  -- The state of a deployed contract before its first call: nothing is stored.
  pub record IsFresh (e : Env) : Type 0 where
    pub initialized : e.initialized ≡ none
    pub relayer : (a : host.Address) → e.relayer a ≡ none
    pub relayer_index : (i : ℕ) → e.relayer_index i ≡ none

  -- On a fresh contract, authorized by the admin, `initialize` leaves the registry with no relayers.
  pub initialize-Represents :
      {e : Env} (admin : host.Address) (max_fee_bps : ℕ)
      → IsFresh e
      → e.authorized admin ≡ true
      → (e' : Env) × (initialize admin max_fee_bps e ≡ ok tt e')
        × Represents
            (record { admin = admin; max_fee_bps = max_fee_bps; relayers = []; events = e.events })
            e'
  unfolding initialize find
  initialize-Represents {e} admin max_fee_bps fresh auth = (
    record e {
      storage = record (e.storage) {
        admin = some admin;
        max_fee_bps = some max_fee_bps;
        relayer_count = some 0;
        initialized = some true;
      };
    },
    ground (arith, fresh.initialized),
    record {
      initialized = refl;
      admin = refl;
      max_fee_bps = refl;
      relayer_count = refl;
      room = omega arith;
      relayer = fresh.relayer;
      relayer_index = fresh.relayer_index;
      distinct = tt;
      events = refl;
    },
  )

  -- A second call changes nothing, whatever its arguments.
  pub initialize-again :
      (e : Env) (admin : host.Address) (max_fee_bps : ℕ)
      → e.initialized ≡ some true
      → initialize admin max_fee_bps e ≡ err already_initialized
  unfolding initialize
  initialize-again e admin max_fee_bps done = ground (arith, done)
