-- ===== src/Prelude/Decimal.antt =====
-- Decimal numerals as Rust reads and prints them: `parse` and `to_string` of the unsigned types.
use Prim.Native.Nat.{ℕ, zero, suc, ◌+◌, ◌-◌, ◌*◌, ◌/◌, ◌%◌, ◌^◌, ◌<◌, ◌≤◌}
use mathlib.Core.Path.{◌≡◌, refl, ◌∙◌}
use mathlib.Core.Logic.{inl, inr}
use mathlib.Core.Bool.{◌&&◌, ◌||◌, true}
use mathlib.Core.List.{[], ◌∷◌}
use mathlib.Core.Option.{Option, none, some}
use native.Mathlib.Omega.{arith}
use caligo.Prelude.Tests.{ltb, leb, ◌==◌, if◌then◌else◌, Bool-cases, ltb→lt, lt→ltb}
use caligo.Prelude.Bytes.{Bytes}
use caligo.Prelude.Int.{ℤ, pos, negsuc, in_i128}
use caligo.Prelude.Options.{◌>>=◌}

-- The digits of `parse`, most significant first, onto what is read so far; `none` is an error: a
-- character that is no digit, or a value at the limit. 48 is '0'.
unfoldable pub parse_digits : ℕ → ℕ → Bytes → Option ℕ
parse_digits limit n [] = some n
parse_digits limit n (c ∷ rest) =
    let next = parse_digits limit (n * 10 + (c - 48)) rest in
    if leb 48 c && leb c 57 && ltb (n * 10 + (c - 48)) limit then next else none

-- `parse` of an unsigned type with values below the limit: digits, at least one, after an
-- optional '+', which is 43.
unfoldable pub parse_uint : ℕ → Bytes → Option ℕ
parse_uint limit [] = none
parse_uint limit (c ∷ []) = if c == 43 then none else parse_digits limit 0 (c ∷ [])
parse_uint limit (c ∷ d ∷ rest) =
    if c == 43 then parse_digits limit 0 (d ∷ rest) else parse_digits limit 0 (c ∷ d ∷ rest)

abbrev pub negate : ℕ → ℤ
negate zero = pos 0
negate (suc n) = negsuc n

-- `parse::<i128>`: the same with a '-', which is 45, for the negative numbers.
unfoldable pub parse_i128 : Bytes → Option ℤ
parse_i128 [] = none
parse_i128 (c ∷ []) =
    if (c == 43) || (c == 45)
    then none
    else (parse_digits (2 ^ 127) 0 (c ∷ []) >>= λ n. some (pos n))
parse_i128 (c ∷ d ∷ rest) =
    if c == 45
    then (parse_digits (2 ^ 127 + 1) 0 (d ∷ rest) >>= λ n. some (negate n))
    else (parse_digits (2 ^ 127) 0 (if c == 43 then d ∷ rest else c ∷ d ∷ rest) >>= λ n.
        some (pos n))

-- `to_string` onto the text that follows, with so many digits at most.
unfoldable pub print_digits : ℕ → ℕ → Bytes → Bytes
print_digits zero n rest = rest
print_digits (suc width) n rest =
    let more = print_digits width (n / 10) ((48 + n % 10) ∷ rest) in
    if ltb n 10 then (48 + n) ∷ rest else more

-- `to_string` of a u32, which has ten digits at most.
unfoldable pub u32_to_string : ℕ → Bytes
u32_to_string n = print_digits 10 n []

module _ (limit n : ℕ) (rest : Bytes) (small : n < limit) where
  parse_digits-single : n < 10 → parse_digits limit 0 ((48 + n) ∷ rest) ≡ parse_digits limit n rest
  unfolding parse_digits
  parse_digits-single single =
      let digit : 0 * 10 + (48 + n - 48) ≡ n = omega arith in ground (arith, digit)

  parse_digits-last : parse_digits limit (n / 10) ((48 + n % 10) ∷ rest) ≡ parse_digits limit n rest
  unfolding parse_digits
  parse_digits-last =
      let digit : n / 10 * 10 + (48 + n % 10 - 48) ≡ n = omega arith in ground (arith, digit)

-- Reading what was printed, from nothing read so far, comes to reading on from the number.
parse_digits-print_digits :
    (limit width n : ℕ) (rest : Bytes)
    → n < limit
    → n < 10 ^ suc width
    → parse_digits limit 0 (print_digits (suc width) n rest) ≡ parse_digits limit n rest
unfolding print_digits
parse_digits-print_digits limit zero n rest small short =
    rw (lt→ltb n 10 (omega arith)) (parse_digits-single limit n rest small (omega arith))
parse_digits-print_digits limit (suc width) n rest small short = elim (Bool-cases (ltb n 10)) [
  | inl single ↦ rw single (parse_digits-single limit n rest small (ltb→lt n 10 single))
  | inr more ↦ rw more (
      parse_digits-print_digits limit width (n / 10) ((48 + n % 10) ∷ rest) (omega arith)
        (omega arith)
      ∙ parse_digits-last limit n rest small)
]

-- A printed number starts with a digit.
print_digits-cons :
    (width n : ℕ) (rest : Bytes)
    → (c : ℕ) × (text : Bytes) × (print_digits (suc width) n rest ≡ c ∷ text) × (48 ≤ c)
unfolding print_digits
print_digits-cons zero n rest = elim (Bool-cases (ltb n 10)) [
  | inl single ↦ (48 + n, rest, rw single, omega arith)
  | inr more ↦ (48 + n % 10, rest, rw more, omega arith)
]
print_digits-cons (suc width) n rest = elim (Bool-cases (ltb n 10)) [
  | inl single ↦ (48 + n, rest, rw single, omega arith)
  | inr more ↦
      let (c, text, shown, digit) = print_digits-cons width (n / 10) ((48 + n % 10) ∷ rest) in
      (c, text, rw more shown, digit)
]

parse_uint-digit :
    (limit c : ℕ) (text : Bytes)
    → 48 ≤ c
    → parse_uint limit (c ∷ text) ≡ parse_digits limit 0 (c ∷ text)
unfolding parse_uint
parse_uint-digit limit c [] digit = ground arith
parse_uint-digit limit c (d ∷ rest) digit = ground arith

parse_uint-print_digits :
    (limit width n : ℕ)
    → parse_uint limit (print_digits (suc width) n [])
      ≡ parse_digits limit 0 (print_digits (suc width) n [])
parse_uint-print_digits limit width n =
    let (c, text, shown, digit) = print_digits-cons width n [] in
    rw shown (parse_uint-digit limit c text digit)

-- A u32 is read back from its text.
pub parse_uint-u32_to_string : (n : ℕ) → n < 2 ^ 32 → parse_uint (2 ^ 32) (u32_to_string n) ≡ some n
unfolding u32_to_string parse_digits
parse_uint-u32_to_string n small =
    parse_uint-print_digits (2 ^ 32) 9 n
    ∙ parse_digits-print_digits (2 ^ 32) 9 n [] small (omega arith)

-- What is read lies below the limit.
parse_digits-lt :
    (limit n : ℕ) (text : Bytes) {m : ℕ}
    → n < limit
    → parse_digits limit n text ≡ some m
    → m < limit
unfolding parse_digits
parse_digits-lt limit n [] small h = ground arith
parse_digits-lt limit n (c ∷ rest) small h =
    elim (Bool-cases (leb 48 c && leb c 57 && ltb (n * 10 + (c - 48)) limit)) [
      | inl digit ↦
          parse_digits-lt limit (n * 10 + (c - 48)) rest (ground (arith, digit))
            (ground (arith, digit, h))
      | inr other ↦ ground arith
    ]

pub parse_uint-lt :
    (limit : ℕ) (text : Bytes) {n : ℕ} → 0 < limit → parse_uint limit text ≡ some n → n < limit
unfolding parse_uint
parse_uint-lt limit [] p h = cc
parse_uint-lt limit (c ∷ []) p h = elim (Bool-cases (c == 43)) [
  | inl sign ↦ ground arith
  | inr digit ↦ parse_digits-lt limit 0 (c ∷ []) p (ground (arith, h))
]
parse_uint-lt limit (c ∷ d ∷ rest) p h = elim (Bool-cases (c == 43)) [
  | inl sign ↦ parse_digits-lt limit 0 (d ∷ rest) p (ground (arith, h))
  | inr digit ↦ parse_digits-lt limit 0 (c ∷ d ∷ rest) p (ground (arith, h))
]

in_i128-pos :
    (o : Option ℕ) (z : ℤ)
    → ((n : ℕ) → o ≡ some n → n < 2 ^ 127)
    → (o >>= λ n. some (pos n)) ≡ some z
    → in_i128 z ≡ true
in_i128-pos none z small h = cc
in_i128-pos (some n) z small h = ground (arith, small n refl)

in_i128-negate :
    (o : Option ℕ) (z : ℤ)
    → ((n : ℕ) → o ≡ some n → n < 2 ^ 127 + 1)
    → (o >>= λ n. some (negate n)) ≡ some z
    → in_i128 z ≡ true
in_i128-negate none z small h = cc
in_i128-negate (some zero) z small h = ground arith
in_i128-negate (some (suc n)) z small h = ground (arith, small (suc n) refl)

pub parse_i128-in_i128 : (text : Bytes) {z : ℤ} → parse_i128 text ≡ some z → in_i128 z ≡ true
unfolding parse_i128
parse_i128-in_i128 [] {z} h = cc
parse_i128-in_i128 (c ∷ []) {z} h = elim (Bool-cases ((c == 43) || (c == 45))) [
  | inl sign ↦ ground arith
  | inr digit ↦
      in_i128-pos (parse_digits (2 ^ 127) 0 (c ∷ [])) z
        (λ n e. parse_digits-lt (2 ^ 127) 0 (c ∷ []) (omega arith) e) (ground (arith, h))
]
parse_i128-in_i128 (c ∷ d ∷ rest) {z} h = elim (Bool-cases (c == 45)) [
  | inl minus ↦
      in_i128-negate (parse_digits (2 ^ 127 + 1) 0 (d ∷ rest)) z
        (λ n e. parse_digits-lt (2 ^ 127 + 1) 0 (d ∷ rest) (omega arith) e) (ground (arith, h))
  | inr other ↦
      let text : Bytes = if c == 43 then d ∷ rest else c ∷ d ∷ rest in
      in_i128-pos (parse_digits (2 ^ 127) 0 text) z
        (λ n e. parse_digits-lt (2 ^ 127) 0 text (omega arith) e) (ground (arith, other, h))
]
