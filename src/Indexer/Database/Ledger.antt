-- ===== src/Indexer/Database/Ledger.antt =====
-- The ledger in `indexer_state` of indexer/src/db.rs, which is stored as a text.
use caligo.Prelude.{ℕ, ◌^◌, ◌<◌, ◌≡◌}
use caligo.Prelude.Decimal.{parse_uint-u32_to_string}
use caligo.Indexer.Database.{Tables, set_last_ledger, get_last_ledger}

-- For every u32, `get_last_ledger` reads back the ledger that `set_last_ledger` has stored as a
-- text.
pub get_last_ledger-set_last_ledger :
    (ledger : ℕ) (t : Tables)
    → ledger < 2 ^ 32
    → get_last_ledger (set_last_ledger ledger t) ≡ ledger
unfolding get_last_ledger set_last_ledger
get_last_ledger-set_last_ledger ledger t small = rw (parse_uint-u32_to_string ledger small)
