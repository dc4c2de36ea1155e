-- ===== src/Tree/Append.antt =====
-- Appending a leaf changes the nodes above it and no others.
use caligo.Prelude.{ℕ, zero, suc, ◌+◌, ◌*◌, ◌≡◌, ◌≢◌, some, ap₂, List, [], ◌∷◌, ◌++◌, arith}
use caligo.Prelude.Lists.{length, length-snoc, get_elem?-snoc_self, get_elem?-snoc_ne}
use caligo.Tree.{ancestor, node, entry}
use caligo.Tree.Shape.{size-suc, size-le, size-ge}

module _ {ℓ} {H : Type ℓ} (hash : H → H → H) (empty : H) (ls : List H) (c : H) where
  pub node-snoc_ne :
      (l j : ℕ)
      → j ≢ ancestor l (length ls)
      → node hash empty (ls ++ (c ∷ [])) l j ≡ node hash empty ls l j
  unfolding node
  node-snoc_ne zero j h = rw (get_elem?-snoc_ne ls c j h)
  node-snoc_ne (suc l) j h =
      ap₂ hash (node-snoc_ne l (2 * j) (omega arith)) (node-snoc_ne l (2 * j + 1) (omega arith))

  pub node-snoc_self : node hash empty (ls ++ (c ∷ [])) 0 (length ls) ≡ c
  unfolding node
  node-snoc_self = rw (get_elem?-snoc_self ls c)

  pub entry-snoc_ne :
      (l j : ℕ)
      → j ≢ ancestor l (length ls)
      → entry hash empty (ls ++ (c ∷ [])) l j ≡ entry hash empty ls l j
  unfolding entry
  entry-snoc_ne l j h = rw (length-snoc ls c) (
      ground (
        arith,
        node-snoc_ne l j h,
        size-suc l (length ls),
        size-le l (length ls),
        size-ge l (length ls),
      ))

  pub entry-snoc_self :
      (l : ℕ)
      → entry hash empty (ls ++ (c ∷ [])) l (ancestor l (length ls))
        ≡ some (node hash empty (ls ++ (c ∷ [])) l (ancestor l (length ls)))
  unfolding entry
  entry-snoc_self l = rw (length-snoc ls c) (ground (arith, size-suc l (length ls)))
