-- ===== src/MixerPool/Spec/Ages.antt =====
-- The roots of the specified pool by their age: a root goes back by one place with each deposit.
use mathlib.Core.List.{append_assoc, append-nil}
use caligo.Prelude.{
  ℕ, zero, suc, ◌+◌, ◌≤◌, ◌≡◌, refl, ap, sym, ◌∙◌, none, some, ◌⊎◌, inl, inr, List, [], ◌∷◌, ◌++◌,
  arith,
}
use caligo.Prelude.Lists.{length, get_elem?, take, unwrap_or}
use caligo.Prelude.Bytes.{Bytes}
use caligo.Bn254.{Bn254}
use caligo.MixerPool.Merkle.Refine.{tree_node}
use caligo.MixerPool.Spec.{roots_from_prefix, past_roots}

pub some-injective : {a b : Bytes} → some a ≡ some b → a ≡ b
some-injective {a} h = ap (λ o. unwrap_or o a) h

none-ne-some : {a : Bytes} → ¬ (none ≡ some a)
none-ne-some h = cc

module _ ⦃bn : Bn254⦄ (depth : ℕ) where
  -- Past the roots of the growth by `rest` stand the older ones.
  get_elem?-roots_from_prefix :
      (done rest older : List Bytes) (k : ℕ)
      → get_elem? (roots_from_prefix depth done rest older) (suc (length rest) + k)
        ≡ get_elem? older k
  unfolding roots_from_prefix
  get_elem?-roots_from_prefix done [] older k =
      let past : suc 0 + k ≡ suc k = omega arith in
      ap (get_elem? (tree_node done depth 0 ∷ older)) past
  get_elem?-roots_from_prefix done (x ∷ rest) older k =
      let shift : suc (suc (length rest)) + k ≡ suc (length rest) + suc k = omega arith in
      ap
        (get_elem?
          (roots_from_prefix depth (done ++ (x ∷ [])) rest (tree_node done depth 0 ∷ older)))
        shift
      ∙ get_elem?-roots_from_prefix (done ++ (x ∷ [])) rest (tree_node done depth 0 ∷ older) (suc k)

  -- The root before the growth stands as far back as there are new leaves.
  root_before :
      (done rest older : List Bytes)
      → get_elem? (roots_from_prefix depth done rest older) (length rest)
        ≡ some (tree_node done depth 0)
  unfolding roots_from_prefix
  root_before done [] older = refl
  root_before done (x ∷ rest) older =
      ap
        (get_elem?
          (roots_from_prefix depth (done ++ (x ∷ [])) rest (tree_node done depth 0 ∷ older)))
        (omega arith)
      ∙ get_elem?-roots_from_prefix (done ++ (x ∷ [])) rest (tree_node done depth 0 ∷ older) 0

  roots_from_prefix-append :
      (done xs ys older : List Bytes)
      → (older' : List Bytes) × (roots_from_prefix depth done (xs ++ ys) older
          ≡ roots_from_prefix depth (done ++ xs) ys older')
  unfolding roots_from_prefix
  roots_from_prefix-append done [] ys older = (older, rw append-nil refl)
  roots_from_prefix-append done (x ∷ xs) ys older =
      let (older', same) =
        roots_from_prefix-append (done ++ (x ∷ [])) xs ys (tree_node done depth 0 ∷ older) in
      (older', same ∙ rw append_assoc refl)

  -- After further deposits the root of the leaves before them is as old as these are many.
  pub past_roots-append :
      (xs ys : List Bytes)
      → get_elem? (past_roots depth (xs ++ ys)) (length ys) ≡ some (tree_node xs depth 0)
  past_roots-append xs ys =
      let (older, same) = roots_from_prefix-append [] xs ys [] in
      ap (λ (roots : List Bytes). get_elem? roots (length ys)) same ∙ root_before xs ys older

  -- What stands among the roots is older, or the root of a prefix of the leaves.
  roots_from_prefix-at :
      (done rest older : List Bytes) (j : ℕ) (x : Bytes)
      → get_elem? (roots_from_prefix depth done rest older) j ≡ some x
      → ((k : ℕ) × (get_elem? older k ≡ some x))
        ⊎ ((k : ℕ) × (k ≤ length rest) × (x ≡ tree_node (done ++ take k rest) depth 0))
  unfolding roots_from_prefix
  roots_from_prefix-at done [] older zero x at = inr (
    0,
    omega arith,
    some-injective (sym at) ∙ ap (λ ls. tree_node ls depth 0) (sym (append-nil done)),
  )
  roots_from_prefix-at done [] older (suc j) x at = inl (j, at)
  roots_from_prefix-at done (y ∷ rest) older j x at =
      elim (roots_from_prefix-at (done ++ (y ∷ [])) rest (tree_node done depth 0 ∷ older) j x at) [
        | inl (zero, here) ↦ inr (
          0,
          omega arith,
          some-injective (sym here) ∙ ap (λ ls. tree_node ls depth 0) (sym (append-nil done)),
        )
        | inl (suc k, there) ↦ inl (k, there)
        | inr (k, low, root) ↦ inr (
          suc k,
          omega arith,
          root ∙ ap (λ ls. tree_node ls depth 0) (append_assoc done (y ∷ []) (take k rest)),
        )
      ]

  pub past_roots-at :
      (leaves : List Bytes) (j : ℕ) (x : Bytes)
      → get_elem? (past_roots depth leaves) j ≡ some x
      → (k : ℕ) × (k ≤ length leaves) × (x ≡ tree_node (take k leaves) depth 0)
  past_roots-at leaves j x at = elim (roots_from_prefix-at [] leaves [] j x at) [
    | inl (zero, never) ↦ absurd (none-ne-some never)
    | inl (suc k, never) ↦ absurd (none-ne-some never)
    | inr found ↦ found
  ]
