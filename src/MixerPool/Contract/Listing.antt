-- ===== src/MixerPool/Contract/Listing.antt =====
-- `get_root_history` of contracts/mixer_pool/src/lib.rs beside `is_known_root`.
use mathlib.Core.List.{append_assoc, append-nil}
use caligo.Prelude.{
  ℕ, zero, suc, ◌+◌, ◌≡◌, refl, ap, sym, Option, none, some, List, [], ◌∷◌, ◌++◌, arith, inl, inr,
}
use caligo.Prelude.Tests.{Option-cases}
use caligo.Prelude.Bytes.{Bytes, contains}
use caligo.Prelude.Contract.{ok}
use caligo.Soroban.{Soroban}
use caligo.MixerPool.Storage.{Env}
use caligo.MixerPool.Contract.{known_from, is_known_root, roots_from, get_root_history}

-- The entries of so many slots of the ring, from slot i on.
entries : (ℕ → Option Bytes) → ℕ → ℕ → List Bytes
entries ring zero i = []
entries ring (suc rounds) i =
    let rest = entries ring rounds (i + 1) in
    elim (ring i) [ none ↦ rest | some root ↦ root ∷ rest ]

module _ ⦃host : Soroban⦄ where
  roots_from-entries :
      (rounds i : ℕ) (roots : List Bytes) (e : Env)
      → roots_from rounds i roots e ≡ ok (roots ++ entries e.root_history_entry rounds i) e
  unfolding roots_from entries
  roots_from-entries zero i roots e = ap (λ rs. ok rs e) (sym (append-nil roots))
  roots_from-entries (suc rounds) i roots e = elim (Option-cases (e.root_history_entry i)) [
    | inl empty ↦ ground (arith, empty, roots_from-entries rounds (i + 1) roots e)
    | inr (root, there) ↦ ground (
      arith,
      there,
      roots_from-entries rounds (i + 1) (roots ++ (root ∷ [])) e,
      append_assoc roots (root ∷ []) (entries e.root_history_entry rounds (i + 1)),
    )
  ]

  known_from-entries :
      (rounds i : ℕ) (root : Bytes) (e : Env)
      → known_from rounds i root e ≡ ok (contains (entries e.root_history_entry rounds i) root) e
  unfolding known_from entries contains
  known_from-entries zero i root e = refl
  known_from-entries (suc rounds) i root e = elim (Option-cases (e.root_history_entry i)) [
    | inl empty ↦ ground (arith, empty, known_from-entries rounds (i + 1) root e)
    | inr (stored, there) ↦ ground (arith, there, known_from-entries rounds (i + 1) root e)
  ]

  -- With the history's size in storage, `get_root_history` and `is_known_root` succeed and
  -- change nothing, and `is_known_root` accepts exactly the roots that `get_root_history` lists.
  pub get_root_history-is_known_root :
      (size : ℕ) (e : Env)
      → e.root_history_size ≡ some size
      → (roots : List Bytes) × (get_root_history e ≡ ok roots e)
        × ((root : Bytes) → is_known_root root e ≡ ok (contains roots root) e)
  unfolding get_root_history is_known_root
  get_root_history-is_known_root size e sized = (
    entries e.root_history_entry size 0,
    ground (arith, sized, roots_from-entries size 0 [] e),
    λ root. ground (arith, sized, known_from-entries size 0 root e),
  )
