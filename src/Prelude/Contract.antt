-- ===== src/Prelude/Contract.antt =====
-- One invocation of a contract: state passing with the contract's own errors and with traps
-- (a failed `unwrap`, a checked overflow, a missing authorization, a failed call of the token).
use Prim.Native.Nat.{ℕ, ◌+◌, ◌^◌}
use mathlib.Core.Bool.{Bool}
use mathlib.Core.Option.{Option, none, some}
use caligo.Prelude.Tests.{ltb, if◌then◌else◌}

-- An error or a trap leaves no state behind: the host rolls the invocation back.
pub data Outcome (S E A : Type 0) : Type 0 where
  ok : A → S → Outcome S E A
  err : E → Outcome S E A
  trap : Outcome S E A

abbrev pub Call : Type 0 → Type 0 → Type 0 → Type 0
Call S E A = S → Outcome S E A

abbrev pub chain : {S E A B : Type 0} → (A → Call S E B) → Outcome S E A → Outcome S E B
chain f (ok a s) = f a s
chain f (err e) = err e
chain f trap = trap

infixl 5 ◌>>=◌ ◌>>◌
abbrev pub ◌>>=◌ : {S E A B : Type 0} → Call S E A → (A → Call S E B) → Call S E B
◌>>=◌ m f s = chain f (m s)

abbrev pub ◌>>◌ : {S E A B : Type 0} → Call S E A → Call S E B → Call S E B
m >> k = m >>= λ _. k

module _ {S E : Type 0} where
  abbrev pub pure : {A : Type 0} → A → Call S E A
  pure a s = ok a s

  abbrev pub gets : {A : Type 0} → (S → A) → Call S E A
  gets f s = ok (f s) s

  abbrev pub modify : (S → S) → Call S E (Unit {0})
  modify f s = ok tt (f s)

  -- `if test { return Err(e) }`.
  abbrev pub err_if : Bool → E → Call S E (Unit {0})
  err_if b e s = if b then err e else ok tt s

  -- A trap unless the test holds.
  abbrev pub trap_unless : Bool → Call S E (Unit {0})
  trap_unless b s = if b then ok tt s else trap

  -- `Option::unwrap`.
  abbrev pub unwrap : {A : Type 0} → Option A → Call S E A
  unwrap none s = trap
  unwrap (some a) s = ok a s

  -- `Option::ok_or(e)?`.
  abbrev pub ok_or : {A : Type 0} → Option A → E → Call S E A
  ok_or none e s = err e
  ok_or (some a) e s = ok a s

  -- `a + b` on u32, with the overflow checks of the release profile.
  abbrev pub add_u32 : ℕ → ℕ → Call S E ℕ
  add_u32 a b s = if ltb (a + b) (2 ^ 32) then ok (a + b) s else trap
