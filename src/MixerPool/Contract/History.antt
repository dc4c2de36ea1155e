-- ===== src/MixerPool/Contract/History.antt =====
-- The root history of contracts/mixer_pool/src/lib.rs: the ring by the age of its entries.
use caligo.Prelude.{
  dec_lt, ℕ, zero, suc, ◌+◌, ◌-◌, ◌%◌, ◌≤◌, ◌<◌, ◌^◌, ◌≡◌, refl, Bool, true, false, Option, none,
  some, List, ◌∷◌, if_pos, if_neg, ap, sym, ◌∙◌, arith, ℕ_discrete, inl, inr,
}
use native.Mathlib.Nat.{mod-eq_of_lt, mod_self}
use caligo.Prelude.Tests.{ltb, if◌then◌else◌, Bool-cases}
use caligo.Prelude.Lists.{get_elem?, take, unwrap_or}
use caligo.Prelude.Bytes.{Bytes, update, contains, contains-take, contains-take_of, Bool-eq}
use caligo.Prelude.Contract.{ok}
use caligo.Soroban.{Soroban}
use caligo.MixerPool.Storage.{Env}
use caligo.MixerPool.Contract.{holds, known_from, is_known_root, push_root_history}

-- How many roots are newer than the one at a position of the ring, if the next goes to `index`.
abbrev pub age : ℕ → ℕ → ℕ → ℕ
age index size i = if ltb i index then index - 1 - i else index + size - 1 - i

-- The ring of `size` entries holds the first roots of the list, the newest just before `index`.
abbrev pub Window : List Bytes → ℕ → ℕ → (ℕ → Option Bytes) → Type 0
Window roots size index ring = (i : ℕ) → i < size → ring i ≡ get_elem? roots (age index size i)

-- Where the root of an age stands.
abbrev position : ℕ → ℕ → ℕ → ℕ
position index size j = if ltb j index then index - 1 - j else index + size - 1 - j

position_lem :
    (index size j : ℕ)
    → index < size
    → j < size
    → (position index size j < size) × (age index size (position index size j) ≡ j)
position_lem index size j h k = (ground arith, ground arith)

age-lt : (index size i : ℕ) → index < size → i < size → age index size i < size
age-lt index size i h k = ground arith

-- A new root goes to `index` and every other root ages by one.
pub push-Window :
    (roots : List Bytes) (root : Bytes) (size index next : ℕ) (ring : ℕ → Option Bytes)
    → index < size
    → next ≡ (if ltb (index + 1) size then index + 1 else 0)
    → Window roots size index ring
    → Window (root ∷ roots) size next (update ℕ_discrete ring index root)
push-Window roots root size index next ring h e w i k = elim (ℕ_discrete index i) [
  | yes here ↦
      rw (if_pos (ℕ_discrete index i) here)
        (ap (get_elem? (root ∷ roots)) (let fresh : 0 ≡ age next size i = ground arith in fresh))
  | no other ↦ rw (if_neg (ℕ_discrete index i) other) (
      w i k
      ∙ ap (get_elem? (root ∷ roots))
          (let older : suc (age index size i) ≡ age next size i = ground arith in older))
]

-- The search of `known_from`, on the ring alone.
scan : (ℕ → Option Bytes) → ℕ → ℕ → Bytes → Bool
scan ring zero i root = false
scan ring (suc rounds) i root = if holds (ring i) root then true else scan ring rounds (i + 1) root

holds-eq_some : (entry : Option Bytes) (root : Bytes) → holds entry root ≡ true → entry ≡ some root
holds-eq_some none root h = cc
holds-eq_some (some stored) root h = ground arith

holds_self : (root : Bytes) → holds (some root) root ≡ true
holds_self root = ground arith

scan_sound :
    (ring : ℕ → Option Bytes) (rounds i : ℕ) (root : Bytes)
    → scan ring rounds i root ≡ true
    → (j : ℕ) × (j < i + rounds) × (ring j ≡ some root)
unfolding scan
scan_sound ring zero i root h = cc
scan_sound ring (suc rounds) i root h = elim (Bool-cases (holds (ring i) root)) [
  | inl here ↦ (i, omega arith, holds-eq_some (ring i) root here)
  | inr other ↦
      let rest : scan ring rounds (i + 1) root ≡ true = ground arith in
      let (j, lt, e) = scan_sound ring rounds (i + 1) root rest in (j, omega arith, e)
]

scan_complete :
    (ring : ℕ → Option Bytes) (rounds i j : ℕ) (root : Bytes)
    → i ≤ j
    → j < i + rounds
    → ring j ≡ some root
    → scan ring rounds i root ≡ true
unfolding scan
scan_complete ring zero i j root a b h = absurd (omega arith)
scan_complete ring (suc rounds) i j root a b h = elim (ℕ_discrete i j) [
  | yes here ↦ ground (arith, ap ring here, holds_self root)
  | no later ↦ ground (arith, scan_complete ring rounds (i + 1) j root)
]

mod_next :
    (size index : ℕ)
    → index < size
    → (index + 1) % size ≡ (if ltb (index + 1) size then index + 1 else 0)
mod_next size index h = elim (dec_lt (index + 1) size) [
  | yes p ↦ ground (arith, mod-eq_of_lt p)
  | no p ↦
      let last : index + 1 ≡ size = omega arith in
      ground (arith, mod_self size, ap (λ k. k % size) last)
]

module _ ⦃host : Soroban⦄ where
  known_from-scan :
      (rounds i : ℕ) (root : Bytes) (e : Env)
      → known_from rounds i root e ≡ ok (scan e.root_history_entry rounds i root) e
  unfolding known_from scan
  known_from-scan zero i root e = refl
  known_from-scan (suc rounds) i root e = ground (arith, known_from-scan rounds (i + 1) root e)

  pub push_root_history_lem :
      (root : Bytes) (size index : ℕ) (e : Env)
      → e.root_history_size ≡ some size
      → unwrap_or e.root_history_index 0 ≡ index
      → index < size
      → size < 2 ^ 32
      → push_root_history root e
        ≡ ok tt (record e {
          storage = record (e.storage) {
            root_history_entry = update ℕ_discrete e.root_history_entry index root;
            root_history_index = some (if ltb (index + 1) size then index + 1 else 0);
          };
        })
  unfolding push_root_history
  push_root_history_lem root size index e hs hi h small = ground (arith, mod_next size index h)

  -- If the ring of the history holds the newest roots of a list, the newest just before the
  -- index, then `is_known_root` finds a root exactly if it is among the first `size` roots of
  -- the list.
  pub is_known_root_lem :
      (roots : List Bytes) (root : Bytes) (size index : ℕ) (e : Env)
      → e.root_history_size ≡ some size
      → index < size
      → Window roots size index e.root_history_entry
      → is_known_root root e ≡ ok (contains (take size roots) root) e
  unfolding is_known_root
  is_known_root_lem roots root size index e hs h w =
      ground (arith, known_from-scan size 0 root e, same)
    where
      found : scan e.root_history_entry size 0 root ≡ true → contains (take size roots) root ≡ true
      found s =
          let (i, lt, at) = scan_sound e.root_history_entry size 0 root s in
          let k : i < size = omega arith in
          contains-take_of size roots root (age index size i) (age-lt index size i h k)
            (sym (w i k) ∙ at)

      kept : contains (take size roots) root ≡ true → scan e.root_history_entry size 0 root ≡ true
      kept c =
          let (j, lt, at) = contains-take size roots root c in
          let (k, back) = position_lem index size j h lt in
          scan_complete e.root_history_entry size 0 (position index size j) root (omega arith)
            (omega arith) (w (position index size j) k ∙ ap (get_elem? roots) back ∙ at)

      same : scan e.root_history_entry size 0 root ≡ contains (take size roots) root
      same = Bool-eq _ _ found kept
