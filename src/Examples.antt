-- ===== src/Examples.antt =====
-- Small concrete instances of the code outside the repository, for the tests: a scalar field of
-- 65521 elements, groups that are that field, and a token with a table of balances.
use caligo.Prelude.{
  Bool, false, ℕ, zero, suc, ◌+◌, ◌-◌, ◌*◌, ◌/◌, ◌%◌, true, ◌&&◌, Option, none, some, List, [], ◌∷◌,
  ◌++◌, ℕ_discrete,
}
use caligo.Prelude.Tests.{leb, ◌==◌, if◌then◌else◌}
use caligo.Prelude.Lists.{replicate, take}
use caligo.Prelude.Int.{ℤ, pos, negsuc}
use caligo.Prelude.Bytes.{Bytes}
use caligo.Bn254.{Bn254}
use caligo.Soroban.{Soroban}
use caligo.MixerPool.Verifier.{G1Point, G2Point, Build}
use caligo.Indexer.State.{Hex}
use caligo.Relayer.{Decoders}
use caligo.Indexer.Listener.{Json}

abbrev number : Bytes → ℕ
number [] = 0
number (b ∷ bytes) = b + 256 * number bytes

abbrev le_bytes : ℕ → ℕ → Bytes
le_bytes zero n = []
le_bytes (suc width) n = (n % 256) ∷ le_bytes width (n / 256)

abbrev mix : List ℕ → ℕ
mix [] = 7
mix (x ∷ xs) = (x + 31 * mix xs) % 65521

abbrev sum_pairings : List ℕ → List ℕ → ℕ
sum_pairings [] bs = 0
sum_pairings (a ∷ as') [] = 0
sum_pairings (a ∷ as') (b ∷ bs) = (a * b + sum_pairings as' bs) % 65521

instance abbrev pub small_field : Bn254
small_field = record {
  Fr = ℕ;
  Fq = ℕ;
  Fq2 = ℕ;
  fr_from_le_bytes_mod_order = λ bytes. number bytes % 65521;
  fr_to_bytes_le = le_bytes 32;
  fq_from_le_bytes_mod_order = λ bytes. number bytes % 65521;
  fq2_new = λ c0 c1. c0;
  poseidon = mix;
  G1 = ℕ;
  G2 = ℕ;
  Projective = ℕ;
  g1_new_unchecked = λ x y. x;
  g1_is_on_curve = λ p. true;
  g1_is_in_subgroup = λ p. true;
  g2_new_unchecked = λ x y. x;
  g2_is_on_curve = λ p. true;
  g2_is_in_subgroup = λ p. true;
  g1_neg = λ p. (65521 - p) % 65521;
  g1_mul = λ p x. (p * x) % 65521;
  into_projective = λ p. p;
  projective_add = λ p q. (p + q) % 65521;
  into_affine = λ p. p;
  PairingOutput = ℕ;
  multi_pairing = sum_pairings;
  output_is_zero = λ x. x == 0;
}

-- The balance of each holder, for each token.
abbrev pub Balances : Type 0
Balances = ℕ → ℕ → ℕ

abbrev pub moved : ℕ → ℕ → ℕ → ℕ → Balances → Balances
moved token from to n l t x =
    let left = if (t == token) && (x == from) then l t x - n else l t x in
    if (t == token) && (x == to) then left + n else left

abbrev pub small_transfer : ℕ → ℕ → ℕ → ℤ → Balances → Option Balances
small_transfer token from to (negsuc n) l = none
small_transfer token from to (pos n) l =
    if leb n (l token from) then some (moved token from to n l) else none

instance abbrev pub small_host : Soroban
small_host = record {
  Address = ℕ;
  address_discrete = ℕ_discrete;
  to_strkey = λ a. replicate 56 a;
  sha256 = take 32;
  Ledger = Balances;
  transfer = small_transfer;
}

abbrev pub bytes_of : ℕ → Bytes
bytes_of n = replicate 29 0 ++ ((n / 65536) ∷ (n / 256 % 256) ∷ (n % 256) ∷ [])

abbrev g1 : ℕ → G1Point
g1 n = record { x = bytes_of n; y = bytes_of 0 }

abbrev g2 : ℕ → G2Point
g2 n = record { x_c0 = bytes_of n; x_c1 = bytes_of 0; y_c0 = bytes_of 0; y_c1 = bytes_of 0 }

-- It accepts (a, b, c) if a * b = 2 * 3 + (1 + nullifier hash) + c.
instance abbrev pub small_build : Build
small_build = record {
  verification_key = some (record {
    alpha_g1 = g1 2;
    beta_g2 = g2 3;
    gamma_g2 = g2 1;
    delta_g2 = g2 1;
    ic_first = g1 1;
    ic_rest = g1 0 ∷ g1 1 ∷ g1 0 ∷ g1 0 ∷ g1 0 ∷ [];
  });
}

-- The proof (a, 1, 0).
abbrev pub proof_of : ℕ → Bytes
proof_of a =
    bytes_of a
    ++ bytes_of 0
    ++ bytes_of 1
    ++ bytes_of 0
    ++ bytes_of 0
    ++ bytes_of 0
    ++ bytes_of 0
    ++ bytes_of 0

abbrev pub nibble : ℕ → Option ℕ
nibble c =
    if leb 48 c && leb c 57
    then some (c - 48)
    else if leb 97 c && leb c 102
    then some (c - 87)
    else none

abbrev pub join : Option ℕ → Option ℕ → Option Bytes → Option Bytes
join (some a) (some b) (some bytes) = some ((16 * a + b) ∷ bytes)
join (some a) (some b) none = none
join (some a) none bytes = none
join none b bytes = none

abbrev pub hex_decode : Bytes → Option Bytes
hex_decode [] = some []
hex_decode (c ∷ []) = none
hex_decode (c ∷ d ∷ rest) = join (nibble c) (nibble d) (hex_decode rest)

-- A public key is a string of three characters, the first a 'G'.
abbrev is_small_key : Bytes → Bool
is_small_key (c ∷ d ∷ e ∷ []) = c == 71
is_small_key [] = false
is_small_key (c ∷ []) = false
is_small_key (c ∷ d ∷ []) = false
is_small_key (c ∷ d ∷ e ∷ f ∷ rest) = false

instance abbrev pub small_decoders : Decoders
small_decoders = record { decode = hex_decode; is_public_key = is_small_key }

instance abbrev pub small_hex : Hex
small_hex = record { encode = λ bytes. bytes; decode = hex_decode }

-- Values that are all strings.
instance abbrev pub small_json : Json
small_json = record {
  Value = Bytes;
  as_str = λ v. some v;
  get = λ key v. none;
  base64_decode = λ s. some s;
}
