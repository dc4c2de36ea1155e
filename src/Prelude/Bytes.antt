-- ===== src/Prelude/Bytes.antt =====
-- Byte strings, and finite maps as functions: the storage of a contract is keyed by these.
use Prim.Native.Nat.{ℕ, zero, suc, ◌<◌}
use mathlib.Core.Path.{◌≡◌, refl, sym, ap}
use mathlib.Core.Logic.{ite}
use mathlib.Core.Bool.{Bool, true, false}
use mathlib.Core.List.{List, [], ◌∷◌, ◌++◌}
use mathlib.Core.Option.{Option, some}
use native.Mathlib.Omega.{arith}
use native.Mathlib.Decide.{ℕ_discrete}
use caligo.Prelude.Lists.{replicate, take, get_elem?}

-- `BytesN<32>`, `[u8; 32]`, `[u8; 256]`, `Vec<u8>`: the bytes in order.
abbrev pub Bytes : Type 0
Bytes = List ℕ

pub cons_left : {x y : ℕ} {xs ys : Bytes} → x ∷ xs ≡ y ∷ ys → x ≡ y
cons_left e = cc

pub cons_right : {x y : ℕ} {xs ys : Bytes} → x ∷ xs ≡ y ∷ ys → xs ≡ ys
cons_right e = cc

pub nil-ne-cons : {y : ℕ} {ys : Bytes} → ¬ ([] ≡ y ∷ ys)
nil-ne-cons e = cc

pub cons-ne-nil : {y : ℕ} {ys : Bytes} → ¬ (y ∷ ys ≡ [])
cons-ne-nil e = cc

unfoldable pub cons_dec :
    (x y : ℕ) (xs ys : Bytes) → Dec (x ≡ y) → Dec (xs ≡ ys) → Dec (x ∷ xs ≡ y ∷ ys)
cons_dec x y xs ys (yes p) (yes q) = yes (λ i. p i ∷ q i)
cons_dec x y xs ys (yes p) (no q) = no (λ e. q (cons_right e))
cons_dec x y xs ys (no p) _ = no (λ e. p (cons_left e))

unfoldable pub bytes_discrete : Discrete Bytes
unfolding ℕ_discrete cons_dec
bytes_discrete [] [] = yes refl
bytes_discrete [] (y ∷ ys) = no nil-ne-cons
bytes_discrete (x ∷ xs) [] = no cons-ne-nil
bytes_discrete (x ∷ xs) (y ∷ ys) = cons_dec x y xs ys (ℕ_discrete x y) (bytes_discrete xs ys)

-- `[0u8; 32]`.
abbrev pub zero_bytes : Bytes
zero_bytes = replicate 32 0

-- A storage map with one entry written.
abbrev pub update : {K V : Type 0} → Discrete K → (K → Option V) → K → V → K → Option V
update eq f k v j = ite (eq k j) (some v) (f j)

unfoldable pub contains : List Bytes → Bytes → Bool
contains [] x = false
contains (y ∷ ys) x = ite (bytes_discrete y x) true (contains ys x)

pub contains-take :
    (n : ℕ) (xs : List Bytes) (x : Bytes)
    → contains (take n xs) x ≡ true
    → (j : ℕ) × (j < n) × (get_elem? xs j ≡ some x)
unfolding contains
contains-take zero xs x h = cc
contains-take (suc n) [] x h = cc
contains-take (suc n) (y ∷ ys) x h = elim (bytes_discrete y x) [
  | yes e ↦ (0, omega arith, ap some e)
  | no ne ↦ let (j, lt, at) = contains-take n ys x (ground arith) in (suc j, omega arith, at)
]

pub contains-take_of :
    (n : ℕ) (xs : List Bytes) (x : Bytes) (j : ℕ)
    → j < n
    → get_elem? xs j ≡ some x
    → contains (take n xs) x ≡ true
unfolding contains
contains-take_of zero xs x j lt at = absurd (omega arith)
contains-take_of (suc n) [] x j lt at = cc
contains-take_of (suc n) (y ∷ ys) x zero lt at = ground arith
contains-take_of (suc n) (y ∷ ys) x (suc j) lt at =
    ground (arith, contains-take_of n ys x j (omega arith) at)

pub contains-snoc :
    (xs : List Bytes) (x y : Bytes)
    → contains (xs ++ (x ∷ [])) y ≡ ite (bytes_discrete x y) true (contains xs y)
unfolding contains
contains-snoc [] x y = refl
contains-snoc (z ∷ xs) x y = ground (arith, contains-snoc xs x y)

pub Bool-eq : (a b : Bool) → (a ≡ true → b ≡ true) → (b ≡ true → a ≡ true) → a ≡ b
Bool-eq true b f g = sym (f refl)
Bool-eq false true f g = g refl
Bool-eq false false f g = refl
