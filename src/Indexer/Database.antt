-- ===== src/Indexer/Database.antt =====
-- indexer/src/db.rs: the tables, and each query as what its SQL does to them. Whether a query
-- fails is for the callers, who get `sqlx::Error`. The commitments are kept in the order of their
-- primary key, in which the code reads them.
pub mod Rows
pub mod Ledger
use caligo.Prelude.{
  ℕ, ◌+◌, ◌-◌, ◌%◌, ◌^◌, Bool, true, false, ◌||◌, Option, none, some, List, [], ◌∷◌, ◌++◌, map,
  reverse, ite,
}
use caligo.Prelude.Tests.{ltb, ◌==◌, if◌then◌else◌}
use caligo.Prelude.Lists.{length, take, unwrap_or}
use caligo.Prelude.Int.{ℤ, pos, negsuc, ltb_ℤ}
use caligo.Prelude.Bytes.{Bytes, bytes_discrete}
use caligo.Prelude.Decimal.{parse_uint, u32_to_string}
use caligo.Prelude.Options.{◌>>=◌}

-- The columns but `created_at` and the serial `id`, which counts the rows of `merkle_roots`.
pub record CommitmentRow : Type 0 where
  pub leaf_index : ℤ
  pub commitment : Bytes

pub record RootRow : Type 0 where
  pub root : Bytes
  pub deposit_index : ℤ

-- `indexer_state` has one key, 'last_ledger'.
pub record Tables : Type 0 where
  pub commitments : List CommitmentRow
  pub merkle_roots : List RootRow
  pub last_ledger : Option Bytes

abbrev pub initialize_schema : Tables
initialize_schema = record { commitments = []; merkle_roots = []; last_ledger = none }

-- `as i32` of a u32, and `as u32` of an i32.
abbrev pub as_i32 : ℕ → ℤ
as_i32 n = if ltb n (2 ^ 31) then pos n else negsuc (2 ^ 32 - 1 - n)

abbrev pub as_u32 : ℤ → ℕ
as_u32 (pos n) = n
as_u32 (negsuc n) = 2 ^ 32 - 1 - n

abbrev pub same_key : ℤ → ℤ → Bool
same_key (pos m) (pos n) = m == n
same_key (negsuc m) (negsuc n) = m == n
same_key (pos m) (negsuc n) = false
same_key (negsuc m) (pos n) = false

-- A row with the same primary key or the same commitment, which is UNIQUE.
unfoldable pub conflicts : CommitmentRow → List CommitmentRow → Bool
conflicts new [] = false
conflicts new (row ∷ rows) =
    same_key row.leaf_index new.leaf_index
    || ite (bytes_discrete row.commitment new.commitment) true (conflicts new rows)

-- The row in its place in the order of the primary key.
unfoldable pub place : CommitmentRow → List CommitmentRow → List CommitmentRow
place new [] = new ∷ []
place new (row ∷ rows) =
    let later = place new rows in
    if ltb_ℤ new.leaf_index row.leaf_index then new ∷ row ∷ rows else row ∷ later

-- `INSERT INTO commitments … ON CONFLICT DO NOTHING`.
unfoldable pub insert_commitment : ℕ → Bytes → Tables → Tables
insert_commitment leaf_index commitment t =
    let new : CommitmentRow = record { leaf_index = as_i32 leaf_index; commitment = commitment } in
    if conflicts new t.commitments then t else record t { commitments = place new t.commitments }

unfoldable pub insert_root : Bytes → ℕ → Tables → Tables
insert_root root deposit_index t = record t {
  merkle_roots =
      t.merkle_roots ++ (record { root = root; deposit_index = as_i32 deposit_index } ∷ []);
}

-- `filter_map` over the rows: a value that has not 32 bytes is left out.
unfoldable pub read_rows : List CommitmentRow → List (ℕ × Bytes)
read_rows [] = []
read_rows (row ∷ rows) =
    let rest = read_rows rows in
    if length row.commitment == 32 then (as_u32 row.leaf_index, row.commitment) ∷ rest else rest

-- `SELECT leaf_index, commitment FROM commitments ORDER BY leaf_index ASC`.
unfoldable pub get_all_commitments : Tables → List (ℕ × Bytes)
get_all_commitments t = read_rows t.commitments

unfoldable pub get_last_ledger : Tables → ℕ
get_last_ledger t = unwrap_or (t.last_ledger >>= parse_uint (2 ^ 32)) 0

unfoldable pub set_last_ledger : ℕ → Tables → Tables
set_last_ledger ledger t = record t { last_ledger = some (u32_to_string ledger) }

-- `SELECT COUNT(*) FROM commitments`, with `count as u32`.
unfoldable pub commitment_count : Tables → ℕ
commitment_count t = length t.commitments % 2 ^ 32

unfoldable pub row_of : Bytes → List CommitmentRow → Option ℕ
row_of commitment [] = none
row_of commitment (row ∷ rows) =
    let rest = row_of commitment rows in
    ite (bytes_discrete row.commitment commitment) (some (as_u32 row.leaf_index)) rest

-- `SELECT leaf_index FROM commitments WHERE commitment = $1`.
unfoldable pub find_commitment : Bytes → Tables → Option ℕ
find_commitment commitment t = row_of commitment t.commitments

-- `SELECT root, deposit_index FROM merkle_roots ORDER BY id DESC LIMIT $1`; a limit that is
-- negative as an i32 is an error of the query.
unfoldable pub get_roots : ℕ → Tables → Option (List (Bytes × ℕ))
get_roots limit t = elim (as_i32 limit) [
  | negsuc _ ↦ none
  | pos n ↦ some (map (λ r. (r.root, as_u32 r.deposit_index)) (take n (reverse t.merkle_roots)))
]
