-- ===== src/Crc32/Reference.antt =====
-- Shared/Message/Message.cpp: the table agrees with the CRC taken bit by bit.
use helianthus.Prelude.{
  ℕ, zero, suc, ◌+◌, ◌*◌, ◌/◌, ◌%◌, ◌^◌, ◌<◌, ◌≡◌, refl, sym, ap, ◌∙◌, List, [], ◌∷◌, arith,
  bit_xor, zero-bit_xor, bit_xor_step, bit_xor_comm, bit_xor_assoc,
}
use helianthus.Crc32.{crc_bit, crc_bits, crc_table, crc_step, crc_loop}
use helianthus.Crc32.Linear.{crc_bit-even, crc_bits-bit_xor}
use native.Mathlib.Nat.{pow-suc}

-- The register that takes each byte in at its low end and makes eight rounds.
pub bitwise_crc : ℕ → List ℕ → ℕ
bitwise_crc crc [] = crc
bitwise_crc crc (byte ∷ bytes) = bitwise_crc (crc_bits 8 (bit_xor crc byte)) bytes

-- The low digits of a number are joined on by exclusive or.
joined : (k h l : ℕ) → l < 2 ^ k → bit_xor (2 ^ k * h) l ≡ 2 ^ k * h + l
joined zero h l b =
    let z : l ≡ 0 = omega arith in
    let o : 2 ^ 0 * h ≡ h = omega arith in
    rw (z, o) (bit_xor_comm h 0 ∙ zero-bit_xor h ∙ omega arith)
joined (suc k) h l b =
    let s = pow-suc 2 k in
    let m : 2 ^ suc k * h ≡ 2 * (2 ^ k * h) = ground (arith, ap (λ (x : ℕ). x * h) s) in
    let half : 2 ^ suc k * h / 2 ≡ 2 ^ k * h = omega arith in
    let ih = joined k h (l / 2) (omega arith) in
    let step = bit_xor_step (2 ^ suc k * h) l in
    let r = ap (λ (x : ℕ). bit_xor x (l / 2)) half in omega arith

-- The rounds over low zeros only shift.
crc_bits-shift : (k h : ℕ) → crc_bits k (2 ^ k * h) ≡ h
unfolding crc_bits
crc_bits-shift zero h = omega arith
crc_bits-shift (suc k) h =
    let s = pow-suc 2 k in
    let m : 2 ^ suc k * h ≡ 2 * (2 ^ k * h) = ground (arith, ap (λ (x : ℕ). x * h) s) in
    let e : crc_bit (2 ^ suc k * h) ≡ 2 ^ k * h =
      crc_bit-even (2 ^ suc k * h) (omega arith) ∙ omega arith in
    ap (crc_bits k) e ∙ crc_bits-shift k h

pub crc_step-bits : (crc byte : ℕ) → crc_step crc byte ≡ crc_bits 8 (bit_xor crc byte)
unfolding crc_step crc_table
crc_step-bits crc byte =
    let h : ℕ = crc / 256 in
    let l : ℕ = crc % 256 in
    let j : bit_xor (256 * h) l ≡ crc = joined 8 h l (omega arith) ∙ omega arith in
    let rest : ℕ = bit_xor l byte in
    sym (
      ap (λ (c : ℕ). crc_bits 8 (bit_xor c byte)) (sym j)
      ∙ ap (crc_bits 8) (bit_xor_assoc (256 * h) l byte)
      ∙ crc_bits-bit_xor 8 (256 * h) rest
      ∙ ap (λ (x : ℕ). bit_xor x (crc_bits 8 rest)) (crc_bits-shift 8 h))

-- From any register, the loop over the table gives what eight rounds for each byte give.
pub crc_loop-bitwise_crc : (crc : ℕ) (bytes : List ℕ) → crc_loop crc bytes ≡ bitwise_crc crc bytes
unfolding crc_loop bitwise_crc
crc_loop-bitwise_crc crc [] = refl
crc_loop-bitwise_crc crc (byte ∷ bytes) =
    crc_loop-bitwise_crc (crc_step crc byte) bytes
    ∙ ap (λ (c : ℕ). bitwise_crc c bytes) (crc_step-bits crc byte)
