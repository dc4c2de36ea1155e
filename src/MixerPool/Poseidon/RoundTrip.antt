-- ===== src/MixerPool/Poseidon/RoundTrip.antt =====
-- contracts/mixer_pool/src/poseidon.rs: the bytes of a field element read back.
use mathlib.Core.List.{reverse_aux, reverse-reverse, append-nil}
use caligo.Prelude.{ℕ, zero, suc, ◌+◌, ◌-◌, ◌≡◌, refl, ap, sym, ◌∙◌, [], ◌∷◌, ◌++◌, reverse, arith}
use caligo.Prelude.Lists.{length, take, set, replicate}
use caligo.Prelude.Bytes.{Bytes, zero_bytes}
use caligo.Bn254.{Bn254}
use caligo.MixerPool.Poseidon.{write_reversed, bytes_to_fr, fr_to_bytes}

set-replicate :
    (k : ℕ) (b : ℕ) (done : Bytes)
    → set (replicate (suc k) 0 ++ done) k b ≡ replicate k 0 ++ (b ∷ done)
set-replicate zero b done = refl
set-replicate (suc k) b done = ap (◌∷◌ 0) (set-replicate k b done)

-- Round i writes just before what the rounds before it have written.
write_reversed-reverse_aux :
    (le_bytes : Bytes) (i k : ℕ) (done : Bytes)
    → i + (k + length le_bytes) ≡ 32
    → write_reversed le_bytes i (replicate (k + length le_bytes) 0 ++ done)
      ≡ replicate k 0 ++ reverse_aux le_bytes done
unfolding write_reversed
write_reversed-reverse_aux [] i k done h =
    ap (λ n. replicate n 0 ++ done) (let same : k + 0 ≡ k = omega arith in same)
write_reversed-reverse_aux (b ∷ le_bytes) i k done h =
    let n = k + length le_bytes in
    let count : k + suc (length le_bytes) ≡ suc n = omega arith in
    let slot : 31 - i ≡ n = omega arith in
    ap (write_reversed le_bytes (i + 1)) (
      ap (λ m. set (replicate m 0 ++ done) (31 - i) b) count
      ∙ ap (λ j. set (replicate (suc n) 0 ++ done) j b) slot
      ∙ set-replicate n b done)
    ∙ write_reversed-reverse_aux le_bytes (i + 1) k (b ∷ done) (omega arith)

take-all : (n : ℕ) (xs : Bytes) → length xs ≡ n → take n xs ≡ xs
take-all zero [] h = refl
take-all zero (x ∷ xs) h = absurd (omega arith)
take-all (suc n) [] h = refl
take-all (suc n) (x ∷ xs) h = ap (◌∷◌ x) (take-all n xs (omega arith))

module _ ⦃bn : Bn254⦄ where
  open bn use {Fr, fr_from_le_bytes_mod_order, fr_to_bytes_le}

  fr_to_bytes-reverse :
      (fr : Fr) → length (fr_to_bytes_le fr) ≡ 32 → fr_to_bytes fr ≡ reverse (fr_to_bytes_le fr)
  unfolding fr_to_bytes
  fr_to_bytes-reverse fr long =
      ap (λ bs. write_reversed bs 0 zero_bytes) (take-all 32 (fr_to_bytes_le fr) long)
      ∙ ap (write_reversed (fr_to_bytes_le fr) 0) (
          sym (append-nil zero_bytes)
          ∙ ap (λ n. replicate n 0 ++ [])
              (let same : 32 ≡ 0 + length (fr_to_bytes_le fr) = omega (arith, long) in same))
      ∙ write_reversed-reverse_aux (fr_to_bytes_le fr) 0 0 [] (omega arith)

  -- If the library writes a field element as 32 little-endian bytes from which it reads the
  -- element back, then `bytes_to_fr` reads it back from the big-endian bytes of `fr_to_bytes`.
  pub bytes_to_fr-fr_to_bytes :
      (fr : Fr)
      → length (fr_to_bytes_le fr) ≡ 32
      → fr_from_le_bytes_mod_order (fr_to_bytes_le fr) ≡ fr
      → bytes_to_fr (fr_to_bytes fr) ≡ fr
  unfolding bytes_to_fr
  bytes_to_fr-fr_to_bytes fr long back =
      ap (λ bs. fr_from_le_bytes_mod_order (reverse bs)) (fr_to_bytes-reverse fr long)
      ∙ ap fr_from_le_bytes_mod_order (reverse-reverse (fr_to_bytes_le fr))
      ∙ back
