-- ===== src/Tree/Rows.antt =====
-- The levels of the tree as lists: the nodes with a leaf below them, from the left.
use native.Mathlib.Numerals.{add-one}
use caligo.Prelude.{
  ℕ, zero, suc, ◌+◌, ◌/◌, ◌≡◌, refl, ap, ap₂, ◌∙◌, some, none, List, [], ◌∷◌, arith,
}
use caligo.Prelude.Tests.{ltb, if◌then◌else◌}
use caligo.Prelude.Lists.{length, get_elem?, unwrap_or}
use caligo.Tree.{size, zero_at, node, entry}
use caligo.Tree.Shape.{entry-unwrap_or, size-nil}

module _ {ℓ} {H : Type ℓ} where
  -- The values of f at so many indices, from i on.
  unfoldable pub tabulate : (ℕ → H) → ℕ → ℕ → List H
  tabulate f i zero = []
  tabulate f i (suc n) = f i ∷ tabulate f (i + 1) n

  pub length-tabulate : (f : ℕ → H) (i n : ℕ) → length (tabulate f i n) ≡ n
  unfolding tabulate
  length-tabulate f i zero = refl
  length-tabulate f i (suc n) = ap suc (length-tabulate f (i + 1) n)

  pub get_elem?-tabulate :
      (f : ℕ → H) (i n k : ℕ)
      → get_elem? (tabulate f i n) k ≡ (if ltb k n then some (f (i + k)) else none)
  unfolding tabulate
  get_elem?-tabulate f i zero k = ground arith
  get_elem?-tabulate f i (suc n) zero =
      let same : i ≡ i + 0 = omega arith in ground (arith, ap f same)
  get_elem?-tabulate f i (suc n) (suc k) =
      let same : i + 1 + k ≡ i + suc k = omega arith in
      ground (arith, get_elem?-tabulate f (i + 1) n k, ap f same)

  -- A list is the table of its entries.
  pub tabulate_all :
      (f : ℕ → H) (i : ℕ) (ls : List H)
      → ((k : ℕ) (x : H) → get_elem? ls k ≡ some x → f (i + k) ≡ x)
      → tabulate f i (length ls) ≡ ls
  unfolding tabulate
  tabulate_all f i [] h = refl
  tabulate_all f i (x ∷ ls) h =
      ap₂ (◌∷◌) (ap f (let same : i ≡ i + 0 = omega arith in same) ∙ h 0 x refl) (
        tabulate_all f (i + 1) ls (λ k y at.
          ap f (let same : i + 1 + k ≡ i + suc k = omega arith in same) ∙ h (suc k) y at))

module _ {ℓ} {H : Type ℓ} (hash : H → H → H) (empty : H) where
  unfoldable pub row : List H → ℕ → List H
  row ls l = tabulate (node hash empty ls l) 0 (size l (length ls))

  pub length-row : (ls : List H) (l : ℕ) → length (row ls l) ≡ size l (length ls)
  unfolding row
  length-row ls l = length-tabulate (node hash empty ls l) 0 (size l (length ls))

  pub get_elem?-row : (ls : List H) (l i : ℕ) → get_elem? (row ls l) i ≡ entry hash empty ls l i
  unfolding row entry
  get_elem?-row ls l i = ground (
    arith,
    get_elem?-tabulate (node hash empty ls l) 0 (size l (length ls)) i,
    ap (node hash empty ls l) (let same : 0 + i ≡ i = omega arith in same),
  )

  -- Reading a row, with the empty subtree for what is absent, gives the node.
  pub row-unwrap_or :
      (ls : List H) (l i : ℕ)
      → unwrap_or (get_elem? (row ls l) i) (zero_at hash empty l) ≡ node hash empty ls l i
  row-unwrap_or ls l i = rw (get_elem?-row ls l i) (entry-unwrap_or hash empty ls l i)

  pub row-above :
      (ls : List H) (l : ℕ)
      → tabulate (node hash empty ls (l + 1)) 0 ((length (row ls l) + 1) / 2) ≡ row ls (l + 1)
  unfolding row
  row-above ls l =
      ap (tabulate (node hash empty ls (l + 1)) 0) (rw (length-row ls l, add-one l) refl)

  pub row-leaves : (ls : List H) → row ls 0 ≡ ls
  unfolding row node
  row-leaves ls =
      tabulate_all (node hash empty ls 0) 0 ls (λ k x at.
        ground (arith, at, ap (get_elem? ls) (let same : 0 + k ≡ k = omega arith in same)))

  pub row-nil : (l : ℕ) → row [] l ≡ []
  unfolding row tabulate
  row-nil l = rw (size-nil l) refl
