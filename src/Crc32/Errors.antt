-- ===== src/Crc32/Errors.antt =====
-- Shared/Message/Message.cpp: which changes of the bytes the CRC shows.
use helianthus.Prelude.{
  ℕ, ◌^◌, ◌<◌, ◌≡◌, refl, sym, ◌∙◌, ◌≢◌, List, [], ◌∷◌, ◌++◌, arith, bit_xor, All, bit_xor_comm,
  bit_xor_cancel, bit_xor_bound,
}
use helianthus.Crc32.{all_ones, crc_step, crc_loop, calculate_crc32}
use helianthus.Crc32.Linear.{crc_bits_bound, crc_bits_injective}
use helianthus.Crc32.Reference.{crc_step-bits}

pub crc_step_bound : (crc byte : ℕ) → crc < 2 ^ 32 → byte < 256 → crc_step crc byte < 2 ^ 32
crc_step_bound crc byte h b =
    let x = bit_xor_bound 32 crc byte h (omega arith) in
    omega (arith, crc_step-bits crc byte, crc_bits_bound 8 (bit_xor crc byte) x)

pub crc_loop_bound :
    (crc : ℕ) (bytes : List ℕ)
    → crc < 2 ^ 32
    → All (λ b. b < 256) bytes
    → crc_loop crc bytes < 2 ^ 32
unfolding crc_loop
crc_loop_bound crc [] h b = h
crc_loop_bound crc (byte ∷ bytes) h b =
    crc_loop_bound (crc_step crc byte) bytes (crc_step_bound crc byte h b.0) b.1

pub calculate_crc32_bound :
    (bytes : List ℕ) → All (λ b. b < 256) bytes → calculate_crc32 bytes < 2 ^ 32
unfolding calculate_crc32
calculate_crc32_bound bytes b =
    bit_xor_bound 32 (crc_loop all_ones bytes) all_ones
      (crc_loop_bound all_ones bytes (omega arith) b) (omega arith)

-- Two registers that take the same bytes in stay apart.
crc_loop_injective :
    (c d : ℕ) (bytes : List ℕ)
    → c < 2 ^ 32
    → d < 2 ^ 32
    → All (λ b. b < 256) bytes
    → crc_loop c bytes ≡ crc_loop d bytes
    → c ≡ d
unfolding crc_loop
crc_loop_injective c d [] h k b e = e
crc_loop_injective c d (byte ∷ bytes) h k b e =
    let s =
      crc_loop_injective (crc_step c byte) (crc_step d byte) bytes (crc_step_bound c byte h b.0)
        (crc_step_bound d byte k b.0) b.1 e in
    let t =
      crc_bits_injective 8 (bit_xor c byte) (bit_xor d byte)
        (bit_xor_bound 32 c byte h (omega arith)) (bit_xor_bound 32 d byte k (omega arith))
        (sym (crc_step-bits c byte) ∙ s ∙ crc_step-bits d byte) in
    bit_xor_cancel byte c d (bit_xor_comm byte c ∙ t ∙ bit_xor_comm d byte)

-- Two bytes taken into one register leave different registers.
crc_step_injective :
    (crc a b : ℕ) → crc < 2 ^ 32 → a < 256 → b < 256 → crc_step crc a ≡ crc_step crc b → a ≡ b
crc_step_injective crc a b h k l e = bit_xor_cancel crc a b (
    crc_bits_injective 8 (bit_xor crc a) (bit_xor crc b) (bit_xor_bound 32 crc a h (omega arith))
      (bit_xor_bound 32 crc b h (omega arith))
      (sym (crc_step-bits crc a) ∙ e ∙ crc_step-bits crc b))

crc_loop-append : (c : ℕ) (xs ys : List ℕ) → crc_loop c (xs ++ ys) ≡ crc_loop (crc_loop c xs) ys
unfolding crc_loop
crc_loop-append c [] ys = refl
crc_loop-append c (x ∷ xs) ys = crc_loop-append (crc_step c x) xs ys

-- Byte strings that differ in one byte have different CRCs.
pub calculate_crc32_one_byte :
    (xs ys : List ℕ) (a b : ℕ)
    → All (λ b. b < 256) xs
    → All (λ b. b < 256) ys
    → a < 256
    → b < 256
    → a ≢ b
    → calculate_crc32 (xs ++ (a ∷ ys)) ≢ calculate_crc32 (xs ++ (b ∷ ys))
unfolding calculate_crc32 crc_loop
calculate_crc32_one_byte xs ys a b p q h k ne e =
    let c = crc_loop all_ones xs in
    let bound = crc_loop_bound all_ones xs (omega arith) p in
    let l = crc_loop-append all_ones xs (a ∷ ys) in
    let r = crc_loop-append all_ones xs (b ∷ ys) in
    let same =
      bit_xor_cancel all_ones (crc_loop all_ones (xs ++ (a ∷ ys)))
        (crc_loop all_ones (xs ++ (b ∷ ys)))
        (bit_xor_comm all_ones (crc_loop all_ones (xs ++ (a ∷ ys)))
          ∙ e
          ∙ bit_xor_comm (crc_loop all_ones (xs ++ (b ∷ ys))) all_ones) in
    ne (
      crc_step_injective c a b bound h k (
        crc_loop_injective (crc_step c a) (crc_step c b) ys (crc_step_bound c a bound h)
          (crc_step_bound c b bound k) q (sym l ∙ same ∙ r)))
