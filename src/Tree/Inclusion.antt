-- ===== src/Tree/Inclusion.antt =====
-- Inclusion proofs: hashing a node with its siblings, level by level, leads to the root.
use caligo.Prelude.{
  ℕ, zero, suc, ◌+◌, ◌-◌, ◌*◌, ◌/◌, ◌%◌, ◌≡◌, refl, ap, ap₂, ◌∙◌, List, [], ◌∷◌, arith, inl, inr,
}
use caligo.Prelude.Tests.{◌==◌, if◌then◌else◌, Bool-cases}
use caligo.Prelude.Lists.{length}
use caligo.Tree.{ancestor, node}
use caligo.Tree.Shape.{node-above, ancestor-half}

abbrev pub sibling : ℕ → ℕ
sibling i = if i % 2 == 0 then i + 1 else i - 1

abbrev pub directions_of : ℕ → ℕ → List ℕ
directions_of zero i = []
directions_of (suc rounds) i = (i % 2) ∷ directions_of rounds (i / 2)

pub length-directions_of : (rounds i : ℕ) → length (directions_of rounds i) ≡ rounds
length-directions_of zero i = refl
length-directions_of (suc rounds) i = ap suc (length-directions_of rounds (i / 2))

module _ {ℓ} {H : Type ℓ} (hash : H → H → H) where
  -- The root that a leaf leads to by the siblings and the direction bits: 0 for a left child.
  unfoldable pub climb : H → List H → List ℕ → H
  climb h [] indices = h
  climb h (s ∷ siblings) [] = h
  climb h (s ∷ siblings) (d ∷ indices) =
      climb (if d == 0 then hash h s else hash s h) siblings indices

  module _ (empty : H) where
    -- The siblings above a node, from its level on.
    abbrev pub siblings_of : List H → ℕ → ℕ → ℕ → List H
    siblings_of ls zero level i = []
    siblings_of ls (suc rounds) level i =
        node hash empty ls level (sibling i) ∷ siblings_of ls rounds (level + 1) (i / 2)

  pub parent_of :
      (empty : H) (ls : List H) (level i : ℕ)
      → (if i % 2 == 0
          then hash (node hash empty ls level i) (node hash empty ls level (sibling i))
          else hash (node hash empty ls level (sibling i)) (node hash empty ls level i))
        ≡ node hash empty ls (level + 1) (i / 2)
  parent_of empty ls level i = elim (Bool-cases (i % 2 == 0)) [
    | inl even ↦
        let here : i ≡ 2 * (i / 2) = ground arith in
        let beside : i + 1 ≡ 2 * (i / 2) + 1 = ground arith in
        rw (even, node-above hash empty ls level (i / 2))
          (ap₂ (λ a b. hash (node hash empty ls level a) (node hash empty ls level b)) here beside)
    | inr odd ↦
        let here : i ≡ 2 * (i / 2) + 1 = ground arith in
        let beside : i - 1 ≡ 2 * (i / 2) = ground arith in
        rw (odd, node-above hash empty ls level (i / 2))
          (ap₂ (λ a b. hash (node hash empty ls level a) (node hash empty ls level b)) beside here)
  ]

  -- From any node, its siblings lead to the node so many levels above.
  pub climb-siblings_of :
      (empty : H) (ls : List H) (rounds level i : ℕ)
      → climb
          (node hash empty ls level i)
          (siblings_of empty ls rounds level i)
          (directions_of rounds i)
        ≡ node hash empty ls (level + rounds) (ancestor rounds i)
  unfolding climb
  climb-siblings_of empty ls zero level i =
      ap (λ l. node hash empty ls l i) (let same : level ≡ level + 0 = omega arith in same)
  climb-siblings_of empty ls (suc rounds) level i =
      ap
        (λ h.
          climb h (siblings_of empty ls rounds (level + 1) (i / 2)) (directions_of rounds (i / 2)))
        (parent_of empty ls level i)
      ∙ climb-siblings_of empty ls rounds (level + 1) (i / 2)
      ∙ ap₂ (node hash empty ls) (omega arith) (ancestor-half rounds i)

  pub length-siblings_of :
      (empty : H) (ls : List H) (rounds level i : ℕ)
      → length (siblings_of empty ls rounds level i) ≡ rounds
  length-siblings_of empty ls zero level i = refl
  length-siblings_of empty ls (suc rounds) level i =
      ap suc (length-siblings_of empty ls rounds (level + 1) (i / 2))
