-- ===== src/Prelude/Text.antt =====
-- Text literals as byte strings, and the environment of a process.
use Prim.Native.String.{String, [], ◌∷◌}
use Prim.Native.Char.{code}
use mathlib.Core.List as List
use mathlib.Core.Option.{Option}
use caligo.Prelude.Bytes.{Bytes}

-- The characters of an ASCII text.
abbrev pub ascii : String → Bytes
ascii [] = List.[]
ascii (c ∷ s) = List.◌∷◌ (code c) (ascii s)

-- `std::env::var(…).ok()`.
abbrev pub Environment : Type 0
Environment = Bytes → Option Bytes
