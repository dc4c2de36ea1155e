-- ===== src/Tree/Shape.antt =====
-- The shape of the tree: sizes of the levels, ancestors, and nodes with nothing below them.
use native.Mathlib.Nat.{pow-suc}
use native.Mathlib.Numerals.{add-one}
use caligo.Prelude.{
  ℕ, zero, suc, ◌+◌, ◌-◌, ◌*◌, ◌/◌, ◌^◌, ◌≤◌, ◌<◌, ◌≡◌, refl, ap, ap₂, List, arith,
}
use caligo.Prelude.Lists.{length, unwrap_or, get_elem?-beyond}
use caligo.Tree.{size, ancestor, zero_at, node, entry}

-- One more leaf: the level reaches just to the ancestor of the new leaf.
pub size-suc : (l n : ℕ) → size l (suc n) ≡ suc (ancestor l n)
size-suc zero n = refl
size-suc (suc l) n = omega (arith, size-suc l n)

pub size-le : (l n : ℕ) → size l n ≤ suc (ancestor l n)
size-le zero n = omega arith
size-le (suc l) n = omega (arith, size-le l n)

pub size-ge : (l n : ℕ) → ancestor l n ≤ size l n
size-ge zero n = omega arith
size-ge (suc l) n = omega (arith, size-ge l n)

pub size-nil : (l : ℕ) → size l 0 ≡ 0
size-nil zero = refl
size-nil (suc l) = omega (arith, size-nil l)

pub ancestor-le : (l n : ℕ) → ancestor l n ≤ n
ancestor-le zero n = omega arith
ancestor-le (suc l) n = omega (arith, ancestor-le l n)

-- Halving before or after the climb is the same.
pub ancestor-half : (l n : ℕ) → ancestor l (n / 2) ≡ ancestor l n / 2
ancestor-half zero n = refl
ancestor-half (suc l) n = omega (arith, ancestor-half l n)

-- Below the capacity of the tree every leaf is under the root.
pub ancestor-root : (l n : ℕ) → n < 2 ^ l → ancestor l n ≡ 0
ancestor-root zero n h = omega arith
ancestor-root (suc l) n h =
    omega (arith, ancestor-half l n, ancestor-root l (n / 2) (omega (arith, pow-suc 2 l)))

pub ancestor-above : (l n : ℕ) → ancestor (l + 1) n ≡ ancestor l n / 2
ancestor-above l n = rw add-one

module _ {ℓ} {H : Type ℓ} (hash : H → H → H) (empty : H) where
  pub node-zero_at :
      (ls : List H) (l i : ℕ)
      → size l (length ls) ≤ i
      → node hash empty ls l i ≡ zero_at hash empty l
  unfolding node zero_at
  node-zero_at ls zero i h = rw (get_elem?-beyond ls i h)
  node-zero_at ls (suc l) i h =
      ap₂ hash (node-zero_at ls l (2 * i) (omega arith))
        (node-zero_at ls l (2 * i + 1) (omega arith))

  -- Reading the table, with the empty subtree for what is absent, gives the node.
  pub entry-unwrap_or :
      (ls : List H) (l i : ℕ)
      → unwrap_or (entry hash empty ls l i) (zero_at hash empty l) ≡ node hash empty ls l i
  unfolding entry
  entry-unwrap_or ls l i = ground (arith, node-zero_at ls l i)

  pub node-above :
      (ls : List H) (l i : ℕ)
      → node hash empty ls (l + 1) i
        ≡ hash (node hash empty ls l (2 * i)) (node hash empty ls l (2 * i + 1))
  unfolding node
  node-above ls l i = rw (add-one l)

  pub zero_at-pred :
      (i : ℕ)
      → 1 ≤ i
      → hash (zero_at hash empty (i - 1)) (zero_at hash empty (i - 1)) ≡ zero_at hash empty i
  unfolding zero_at
  zero_at-pred (suc i) h =
      let same : suc i - 1 ≡ i = omega arith in
      ap (λ l. hash (zero_at hash empty l) (zero_at hash empty l)) same
  zero_at-pred zero h = absurd (omega arith)
