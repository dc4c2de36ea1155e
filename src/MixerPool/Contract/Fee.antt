-- ===== src/MixerPool/Contract/Fee.antt =====
-- The bytes of the fee that `build_public_inputs` of contracts/mixer_pool/src/lib.rs hands to the
-- verifier.
use native.Mathlib.Nat.{pow-suc}
use caligo.Prelude.{
  ℕ, zero, suc, ◌+◌, ◌*◌, ◌/◌, ◌%◌, ◌^◌, ◌<◌, ◌≡◌, refl, ap, ◌∙◌, [], ◌∷◌, ◌++◌, arith,
}
use caligo.Prelude.Lists.{length, length-snoc}
use caligo.Prelude.Int.{pos}
use caligo.Prelude.Bytes.{Bytes}
use caligo.MixerPool.Contract.{as_u128, to_be_bytes, fee_to_bytes}

-- The number that big-endian bytes stand for, after what has been read.
unfoldable pub be_number : ℕ → Bytes → ℕ
be_number n [] = n
be_number n (b ∷ bytes) = be_number (n * 256 + b) bytes

be_number-append : (n : ℕ) (xs ys : Bytes) → be_number n (xs ++ ys) ≡ be_number (be_number n xs) ys
unfolding be_number
be_number-append n [] ys = refl
be_number-append n (x ∷ xs) ys = be_number-append (n * 256 + x) xs ys

be_number-to_be_bytes : (width n : ℕ) → n < 256 ^ width → be_number 0 (to_be_bytes width n) ≡ n
unfolding be_number to_be_bytes
be_number-to_be_bytes zero n h = omega arith
be_number-to_be_bytes (suc width) n h =
    be_number-append 0 (to_be_bytes width (n / 256)) ((n % 256) ∷ [])
    ∙ ap (λ m. m * 256 + n % 256)
        (be_number-to_be_bytes width (n / 256) (omega (arith, pow-suc 256 width)))
    ∙ omega arith

length-to_be_bytes : (width n : ℕ) → length (to_be_bytes width n) ≡ width
unfolding to_be_bytes
length-to_be_bytes zero n = refl
length-to_be_bytes (suc width) n =
    length-snoc (to_be_bytes width (n / 256)) (n % 256)
    ∙ ap suc (length-to_be_bytes width (n / 256))

-- The fee bytes among the public inputs, for a fee that is an i128 and not negative, are 32
-- bytes that read as a big-endian number give the fee.
pub be_number-fee_to_bytes :
    (n : ℕ)
    → n < 2 ^ 127
    → (be_number 0 (fee_to_bytes (pos n)) ≡ n) × (length (fee_to_bytes (pos n)) ≡ 32)
unfolding fee_to_bytes as_u128 be_number
be_number-fee_to_bytes n h =
    (be_number-to_be_bytes 16 n (omega arith), ap (λ k. 16 + k) (length-to_be_bytes 16 n))
