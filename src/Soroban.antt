-- ===== src/Soroban.antt =====
-- The code of soroban-sdk and of the token contract that the contracts call: a parameter.
use caligo.Prelude.{Option}
use caligo.Prelude.Bytes.{Bytes}
use caligo.Prelude.Int.{ℤ}

pub record Soroban : Type 1 where
  -- `Address`, its equality, and the characters of `to_string`.
  pub Address : Type 0
  pub address_discrete : Discrete Address
  pub to_strkey : Address → Bytes
  -- `env.crypto().sha256`.
  pub sha256 : Bytes → Bytes
  -- The balances of all tokens, and `token::Client::new(env, token).transfer(from, to, amount)`,
  -- which traps where this is `none`.
  pub Ledger : Type 0
  pub transfer : Address → Address → Address → ℤ → Ledger → Option Ledger
