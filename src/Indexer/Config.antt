-- ===== src/Indexer/Config.antt =====
-- indexer/src/main.rs: what the indexer reads from its environment. A result `none` is a panic, of
-- an `expect`.
pub mod Tests
use caligo.Prelude.{ℕ, ◌^◌, ◌<◌, ◌≡◌, refl, true, Option, none, some, arith, inl, inr}
use caligo.Prelude.Tests.{Option-cases}
use caligo.Prelude.Lists.{unwrap_or}
use caligo.Prelude.Int.{ℤ, in_i128}
use caligo.Prelude.Bytes.{Bytes}
use caligo.Prelude.Text.{ascii, Environment}
use caligo.Prelude.Decimal.{parse_uint, parse_i128, parse_uint-lt, parse_i128-in_i128}
use caligo.Prelude.Options.{◌>>=◌}

pub record Config : Type 0 where
  pub rpc_url : Bytes
  pub contract_id : Bytes
  pub denomination : ℤ
  pub tree_depth : ℕ
  pub api_port : ℕ
  pub poll_interval : ℕ

unfoldable pub read_config : Environment → Option Config
read_config var = do
  let rpc_url =
      unwrap_or (var (ascii "SOROBAN_RPC_URL")) (ascii "https://soroban-testnet.stellar.org")
  contract_id ← var (ascii "CONTRACT_ID")
  denomination ← parse_i128 (unwrap_or (var (ascii "DENOMINATION")) (ascii "10000000000"))
  tree_depth ← parse_uint (2 ^ 32) (unwrap_or (var (ascii "TREE_DEPTH")) (ascii "20"))
  api_port ← parse_uint (2 ^ 16) (unwrap_or (var (ascii "API_PORT")) (ascii "3001"))
  poll_interval ← parse_uint (2 ^ 64) (unwrap_or (var (ascii "POLL_INTERVAL_SECS")) (ascii "5"))
  some (record {
    rpc_url = rpc_url;
    contract_id = contract_id;
    denomination = denomination;
    tree_depth = tree_depth;
    api_port = api_port;
    poll_interval = poll_interval;
  })

-- The numbers are those of an i128, a u32, a u16 and a u64.
pub record InRange (c : Config) : Type 0 where
  pub denomination : in_i128 c.denomination ≡ true
  pub tree_depth : c.tree_depth < 2 ^ 32
  pub api_port : c.api_port < 2 ^ 16
  pub poll_interval : c.poll_interval < 2 ^ 64

-- Whatever the environment, a configuration that the indexer's `main` reads from it has a
-- denomination that is an i128, a tree depth that is a u32, a port that is a u16 and an interval
-- that is a u64.
pub read_config-InRange : (var : Environment) {c : Config} → read_config var ≡ some c → InRange c
unfolding read_config
read_config-InRange var {c} h = elim (Option-cases (var (ascii "CONTRACT_ID"))) [
  | inl unset ↦ ground (arith, h)
  | inr (contract_id, set) ↦ elim (Option-cases (parse_i128 denomination_text)) [
    | inl bad ↦ ground (arith, h)
    | inr (denomination, e) ↦ elim (Option-cases (parse_uint (2 ^ 32) depth_text)) [
      | inl bad ↦ ground (arith, h)
      | inr (tree_depth, e₁) ↦ elim (Option-cases (parse_uint (2 ^ 16) port_text)) [
        | inl bad ↦ ground (arith, h)
        | inr (api_port, e₂) ↦ elim (Option-cases (parse_uint (2 ^ 64) interval_text)) [
          | inl bad ↦ ground (arith, h)
          | inr (poll_interval, e₃) ↦ ground (
            arith,
            parse_i128-in_i128 denomination_text e,
            parse_uint-lt (2 ^ 32) depth_text (omega arith) e₁,
            parse_uint-lt (2 ^ 16) port_text (omega arith) e₂,
            parse_uint-lt (2 ^ 64) interval_text (omega arith) e₃,
          )
        ]
      ]
    ]
  ]
]
  where
    denomination_text : Bytes
    denomination_text = unwrap_or (var (ascii "DENOMINATION")) (ascii "10000000000")

    depth_text : Bytes
    depth_text = unwrap_or (var (ascii "TREE_DEPTH")) (ascii "20")

    port_text : Bytes
    port_text = unwrap_or (var (ascii "API_PORT")) (ascii "3001")

    interval_text : Bytes
    interval_text = unwrap_or (var (ascii "POLL_INTERVAL_SECS")) (ascii "5")
