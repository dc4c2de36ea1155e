-- ===== src/Indexer/Database/Rows.antt =====
-- The rows of `commitments` against the leaves of the tree.
use caligo.Prelude.{
  ℕ, suc, ◌+◌, ◌-◌, ◌^◌, ◌≤◌, ◌<◌, ◌≡◌, refl, ap, ap₂, sym, ◌∙◌, true, false, none, some, List, [],
  ◌∷◌, arith, inl, inr, ◌⊎◌,
}
use caligo.Prelude.Tests.{◌==◌, if◌then◌else◌, Bool-cases, lt→ltb}
use caligo.Prelude.Lists.{length, get_elem?}
use caligo.Prelude.Int.{pos, ltb_ℤ}
use caligo.Prelude.Bytes.{Bytes, bytes_discrete}
use caligo.Indexer.Database.{CommitmentRow, Tables, conflicts, place, read_rows, insert_commitment}

abbrev pub row : ℕ → Bytes → CommitmentRow
row k x = record { leaf_index = pos k; commitment = x }

-- Every row, from a key on and in ascending order, holds the leaf of its key.
abbrev pub Backed : List Bytes → ℕ → List CommitmentRow → Type 0
Backed ls low [] = Unit
Backed ls low (r ∷ rows) =
    (k : ℕ) × (x : Bytes) × (r ≡ row k x)
    × (low ≤ k)
    × (get_elem? ls k ≡ some x)
    × Backed ls (suc k) rows

abbrev pub Has : CommitmentRow → List CommitmentRow → Type 0
Has new [] = ⊥
Has new (r ∷ rows) = (r ≡ new) ⊎ Has new rows

-- No leaf is there twice.
abbrev pub Distinct : List Bytes → Type 0
Distinct ls = (j k : ℕ) (x : Bytes) → get_elem? ls j ≡ some x → get_elem? ls k ≡ some x → j ≡ k

pub Has-place_self : (new : CommitmentRow) (rows : List CommitmentRow) → Has new (place new rows)
unfolding place
Has-place_self new [] = inl refl
Has-place_self new (r ∷ rows) = elim (Bool-cases (ltb_ℤ new.leaf_index r.leaf_index)) [
  | inl before ↦ rw before (inl refl)
  | inr after ↦ rw after (inr (Has-place_self new rows))
]

pub Has-place :
    (new old : CommitmentRow) (rows : List CommitmentRow) → Has old rows → Has old (place new rows)
unfolding place
Has-place new old [] h = absurd h
Has-place new old (r ∷ rows) h = elim (Bool-cases (ltb_ℤ new.leaf_index r.leaf_index)) [
  | inl before ↦ rw before (inr h)
  | inr after ↦
      rw after (elim h [ inl here ↦ inl here | inr there ↦ inr (Has-place new old rows there) ])
]

-- If a row that holds a leaf conflicts with rows that hold distinct leaves, it is there already.
pub Has-conflicts :
    (ls : List Bytes) (low k : ℕ) (x : Bytes) (rows : List CommitmentRow)
    → Distinct ls
    → Backed ls low rows
    → get_elem? ls k ≡ some x
    → conflicts (row k x) rows ≡ true
    → Has (row k x) rows
unfolding conflicts
Has-conflicts ls low k x [] apart b at h = cc
Has-conflicts ls low k x (r ∷ rows) apart (j, y, e, above, there, rest) at h =
    elim (Bool-cases (j == k)) [
      | inl same ↦
          let one : j ≡ k = ground arith in
          inl (e ∙ ap₂ row one (some-eq (sym there ∙ ap (get_elem? ls) one ∙ at)))
      | inr differs ↦ elim (bytes_discrete y x) [
        | yes twin ↦ inl (e ∙ ap₂ row (apart j k x (there ∙ ap some twin) at) twin)
        | no other ↦ inr (Has-conflicts ls (suc j) k x rows apart rest at (ground (arith, h)))
      ]
    ]
  where
    some-eq : {a b : Bytes} → some a ≡ some b → a ≡ b
    some-eq q = cc

-- A row that holds a leaf and does not conflict keeps its place among the others.
pub Backed-place :
    (ls : List Bytes) (low k : ℕ) (x : Bytes) (rows : List CommitmentRow)
    → Backed ls low rows
    → low ≤ k
    → get_elem? ls k ≡ some x
    → conflicts (row k x) rows ≡ false
    → Backed ls low (place (row k x) rows)
unfolding place conflicts
Backed-place ls low k x [] b above at h = (k, x, refl, above, at, tt)
Backed-place ls low k x (r ∷ rows) (j, y, e, above', there, rest) above at h =
    elim (Bool-cases (ltb_ℤ (pos k) r.leaf_index)) [
      | inl before ↦ rw before (k, x, refl, above, at, (j, y, e, ground arith, there, rest))
      | inr after ↦ rw after (
        j,
        y,
        e,
        above',
        there,
        Backed-place ls (suc j) k x rows rest (ground arith) at (ground (arith, h)),
      )
    ]

Has-above :
    (ls : List Bytes) (low k : ℕ) (x : Bytes) (rows : List CommitmentRow)
    → Backed ls low rows
    → Has (row k x) rows
    → low ≤ k
Has-above ls low k x [] b h = absurd h
Has-above ls low k x (r ∷ rows) (j, y, e, above, there, rest) h = elim h [
  | inl here ↦
      let same : row j y ≡ row k x = sym e ∙ here in
      let one : j ≡ k = ground (arith, ap CommitmentRow.leaf_index same) in omega arith
  | inr later ↦ omega (arith, Has-above ls (suc j) k x rows rest later)
]

-- The leaves from a number on, each with its number.
unfoldable pub numbered : ℕ → List Bytes → List (ℕ × Bytes)
numbered k [] = []
numbered k (x ∷ xs) = (k, x) ∷ numbered (suc k) xs

-- `[u8; 32]`.
abbrev pub Sized : List Bytes → Type 0
Sized ls = (k : ℕ) (x : Bytes) → get_elem? ls k ≡ some x → length x ≡ 32

-- The leaves from a number on.
abbrev pub Suffix : List Bytes → ℕ → List Bytes → Type 0
Suffix ls n rest = (i : ℕ) → get_elem? rest i ≡ get_elem? ls (n + i)

Suffix-head :
    (ls : List Bytes) (n : ℕ) (x : Bytes) (xs : List Bytes)
    → Suffix ls n (x ∷ xs)
    → get_elem? ls n ≡ some x
Suffix-head ls n x xs suffix = sym (suffix 0 ∙ ap (get_elem? ls) (omega arith))

-- There is a row for each leaf from a number on.
abbrev pub Full : List Bytes → ℕ → List CommitmentRow → Type 0
Full ls n rows = (k : ℕ) (x : Bytes) → n ≤ k → get_elem? ls k ≡ some x → Has (row k x) rows

-- The first row is then that of the first of these leaves.
Full-head :
    (ls : List Bytes) (n : ℕ) (x : Bytes) (r : CommitmentRow) (rows : List CommitmentRow)
    → get_elem? ls n ≡ some x
    → Backed ls n (r ∷ rows)
    → Full ls n (r ∷ rows)
    → (r ≡ row n x) × Backed ls (suc n) rows × Full ls (suc n) rows
Full-head ls n x r rows at (j, y, e, above, there, rest) all =
    let here : r ≡ row n x = elim (all n x (omega arith) at) [
      | inl found ↦ found
      | inr later ↦ absurd (omega (arith, Has-above ls (suc j) n x rows rest later))
    ] in
    (
      here,
      rw (← row-key j n y x (sym e ∙ here)) rest,
      λ k z later at'. elim (all k z (omega arith) at') [
        | inl found ↦ absurd (omega (arith, row-key k n z x (sym found ∙ here)))
        | inr next ↦ next
      ],
    )
  where
    row-key : (a b : ℕ) (u v : Bytes) → row a u ≡ row b v → a ≡ b
    row-key a b u v q = ground (arith, ap CommitmentRow.leaf_index q)

-- Rows that hold leaves from a number on, one for each of these, are read as these leaves with
-- their numbers.
pub read_rows-numbered :
    (ls rest : List Bytes) (n : ℕ) (rows : List CommitmentRow)
    → Sized ls
    → Suffix ls n rest
    → Backed ls n rows
    → Full ls n rows
    → read_rows rows ≡ numbered n rest
unfolding read_rows numbered
read_rows-numbered ls [] n [] sized suffix b all = refl
read_rows-numbered ls [] n (r ∷ rows) sized suffix (j, y, e, above, there, rest) all =
    let past : n + (j - n) ≡ j = omega arith in
    absurd (none-ne-some (suffix (j - n) ∙ ap (get_elem? ls) past ∙ there))
  where
    none-ne-some : {a : Bytes} → ¬ (none ≡ some a)
    none-ne-some q = cc
read_rows-numbered ls (x ∷ xs) n [] sized suffix b all =
    absurd (all n x (omega arith) (Suffix-head ls n x xs suffix))
read_rows-numbered ls (x ∷ xs) n (r ∷ rows) sized suffix b all =
    let at = Suffix-head ls n x xs suffix in
    let (here, b', all') = Full-head ls n x r rows at b all in
    let next : Suffix ls (suc n) xs = λ i. suffix (suc i) ∙ ap (get_elem? ls) (omega arith) in
    let tail = read_rows-numbered ls xs (suc n) rows sized next b' all' in
    let long = sized n x at in rw here (ground (arith, tail))

module _ (ls : List Bytes) (k : ℕ) (x : Bytes) (small : k < 2 ^ 31) (t : Tables) where
  insert_commitment-row :
      (insert_commitment k x t).commitments
      ≡ (if conflicts (row k x) t.commitments then t.commitments else place (row k x) t.commitments)
  unfolding insert_commitment
  insert_commitment-row = rw (lt→ltb k (2 ^ 31) small) (ground arith)

  -- The insertion of a leaf leaves rows that hold leaves.
  pub insert_commitment-Backed :
      Backed ls 0 t.commitments
      → get_elem? ls k ≡ some x
      → Backed ls 0 (insert_commitment k x t).commitments
  insert_commitment-Backed b at = elim (Bool-cases (conflicts (row k x) t.commitments)) [
    | inl old ↦ rw (insert_commitment-row, old) (b)
    | inr new ↦
        rw (insert_commitment-row, new) (Backed-place ls 0 k x t.commitments b (omega arith) at new)
  ]

  -- It loses no row.
  pub insert_commitment-Has :
      (old : CommitmentRow) → Has old t.commitments → Has old (insert_commitment k x t).commitments
  insert_commitment-Has old h = elim (Bool-cases (conflicts (row k x) t.commitments)) [
    | inl there ↦ rw (insert_commitment-row, there) (h)
    | inr new ↦ rw (insert_commitment-row, new) (Has-place (row k x) old t.commitments h)
  ]

  -- If no leaf is there twice, the leaf has a row afterwards.
  pub insert_commitment-Has_self :
      Distinct ls
      → Backed ls 0 t.commitments
      → get_elem? ls k ≡ some x
      → Has (row k x) (insert_commitment k x t).commitments
  insert_commitment-Has_self apart b at = elim (Bool-cases (conflicts (row k x) t.commitments)) [
    | inl old ↦
        rw (insert_commitment-row, old) (Has-conflicts ls 0 k x t.commitments apart b at old)
    | inr new ↦ rw (insert_commitment-row, new) (Has-place_self (row k x) t.commitments)
  ]
