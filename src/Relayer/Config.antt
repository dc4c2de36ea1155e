-- ===== src/Relayer/Config.antt =====
-- relayer/src/main.rs: what the relayer reads from its environment. A result `none` is a panic, of
-- an `expect`.
use caligo.Prelude.{ℕ, ◌^◌, ◌≡◌, refl, Option, none, some, ite}
use caligo.Prelude.Lists.{unwrap_or}
use caligo.Prelude.Bytes.{Bytes, bytes_discrete, cons_dec}
use caligo.Prelude.Text.{ascii, Environment}
use caligo.Prelude.Decimal.{parse_uint, parse_digits}
use caligo.Prelude.Options.{◌>>=◌}
use caligo.Relayer.Relay.{RelayerConfig}
use caligo.Prelude.{ℕ_discrete}

-- `match network.as_str()`.
unfoldable pub passphrase_of : Bytes → Bytes
passphrase_of network =
    ite (bytes_discrete network (ascii "mainnet"))
      (ascii "Public Global Stellar Network ; September 2015")
      (ascii "Test SDF Network ; September 2015")

-- The port of the server and the configuration.
unfoldable pub read_config : Environment → Option (ℕ × RelayerConfig)
read_config var = do
  secret_key ← var (ascii "RELAYER_SECRET_KEY")
  let rpc_url =
      unwrap_or (var (ascii "SOROBAN_RPC_URL")) (ascii "https://soroban-testnet.stellar.org")
  let network = unwrap_or (var (ascii "STELLAR_NETWORK")) (ascii "testnet")
  port ← parse_uint (2 ^ 16) (unwrap_or (var (ascii "RELAYER_PORT")) (ascii "3002"))
  fee_bps ← parse_uint (2 ^ 32) (unwrap_or (var (ascii "FEE_BPS")) (ascii "50"))
  max_pending ← parse_uint (2 ^ 64) (unwrap_or (var (ascii "MAX_PENDING")) (ascii "10"))
  some (
    port,
    record {
      secret_key = secret_key;
      rpc_url = rpc_url;
      network_passphrase = passphrase_of network;
      fee_bps = fee_bps;
      max_pending = max_pending;
    },
  )

-- An environment with one variable.
abbrev only : Bytes → Bytes → Environment
only name value asked = ite (bytes_discrete asked name) (some value) none

-- Without a secret key it panics; the rest has defaults.
no_key : read_config (only (ascii "FEE_BPS") (ascii "70")) ≡ none
unfolding read_config bytes_discrete cons_dec ℕ_discrete
no_key = refl

defaults :
    read_config (only (ascii "RELAYER_SECRET_KEY") (ascii "S"))
    ≡ some (
      3002,
      record {
        secret_key = ascii "S";
        rpc_url = ascii "https://soroban-testnet.stellar.org";
        network_passphrase = ascii "Test SDF Network ; September 2015";
        fee_bps = 50;
        max_pending = 10;
      },
    )
unfolding read_config passphrase_of parse_uint parse_digits bytes_discrete cons_dec ℕ_discrete
defaults = refl
