-- ===== src/Indexer/Config/Tests.antt =====
-- Tests of indexer/src/main.rs: environments with one variable.
use caligo.Prelude.{◌≡◌, refl, none, some, ite, ℕ_discrete}
use caligo.Prelude.Int.{pos, negsuc}
use caligo.Prelude.Bytes.{Bytes, bytes_discrete, cons_dec}
use caligo.Prelude.Text.{ascii, Environment}
use caligo.Prelude.Decimal.{parse_uint, parse_digits, parse_i128}
use caligo.Indexer.Config.{Config, InRange, read_config, read_config-InRange}

abbrev only : Bytes → Bytes → Environment
only name value asked = ite (bytes_discrete asked name) (some value) none

abbrev by_default : Config
by_default = record {
  rpc_url = ascii "https://soroban-testnet.stellar.org";
  contract_id = ascii "C";
  denomination = pos 10000000000;
  tree_depth = 20;
  api_port = 3001;
  poll_interval = 5;
}

defaults : read_config (only (ascii "CONTRACT_ID") (ascii "C")) ≡ some by_default
unfolding read_config parse_uint parse_digits parse_i128 bytes_discrete cons_dec ℕ_discrete
defaults = refl

no_contract : read_config (only (ascii "API_PORT") (ascii "80")) ≡ none
unfolding read_config bytes_discrete cons_dec ℕ_discrete
no_contract = refl

read_config-InRange_example : InRange by_default
read_config-InRange_example = read_config-InRange (only (ascii "CONTRACT_ID") (ascii "C")) defaults

-- The smallest i128, and the number below it.
smallest :
    parse_i128 (ascii "-170141183460469231731687303715884105728")
    ≡ some (negsuc 170141183460469231731687303715884105727)
unfolding parse_i128 parse_digits
smallest = refl

too_small : parse_i128 (ascii "-170141183460469231731687303715884105729") ≡ none
unfolding parse_i128 parse_digits
too_small = refl

port_too_large : parse_uint 65536 (ascii "65536") ≡ none
unfolding parse_uint parse_digits
port_too_large = refl
