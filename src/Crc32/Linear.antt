-- ===== src/Crc32/Linear.antt =====
-- Shared/Message/Message.cpp: a round of the CRC as a map on 32 bits.
use helianthus.Prelude.{
  bit_xor_right_comm, ℕ, zero, suc, ◌/◌, ◌%◌, ◌^◌, ◌<◌, ◌≡◌, refl, sym, ap, ◌∙◌, ◌⊎◌, inl, inr,
  arith, bit_xor, ◌==◌, Bool-cases, bit_xor_comm, bit_xor-half, bit_xor-parity, bit_xor_assoc,
  bit_xor_self, bit_xor_twice, bit_xor_cancel, bit_xor_bound,
}
use helianthus.Crc32.{polynomial, crc_bit, crc_bits}

pub crc_bit-even : (c : ℕ) → c % 2 ≡ 0 → crc_bit c ≡ c / 2
unfolding crc_bit
crc_bit-even c h = ground arith

pub crc_bit-odd : (c : ℕ) → c % 2 ≡ 1 → crc_bit c ≡ bit_xor (c / 2) polynomial
unfolding crc_bit
crc_bit-odd c h = ground arith

parity : (c : ℕ) → (c % 2 ≡ 0) ⊎ (c % 2 ≡ 1)
parity c = elim (Bool-cases (c % 2 == 1)) [
  | inl t ↦ inr (ground arith)
  | inr t ↦ inl (ground arith)
]

both : (a b p : ℕ) → bit_xor (bit_xor a p) (bit_xor b p) ≡ bit_xor a b
both a b p =
    bit_xor_assoc a p (bit_xor b p)
    ∙ ap (λ (x : ℕ). bit_xor a (bit_xor p x)) (bit_xor_comm b p)
    ∙ ap (bit_xor a) (bit_xor_twice p b)

-- A round is linear: the rounds of two registers give the round of their exclusive or.
pub crc_bit-bit_xor : (a b : ℕ) → crc_bit (bit_xor a b) ≡ bit_xor (crc_bit a) (crc_bit b)
crc_bit-bit_xor a b =
    let h = bit_xor-half a b in
    let p = bit_xor-parity a b in
    elim (parity a) [
      | inl x ↦ elim (parity b) [
        | inl y ↦
            crc_bit-even (bit_xor a b) (omega arith)
            ∙ h
            ∙ sym (
                ap (λ (z : ℕ). bit_xor z (crc_bit b)) (crc_bit-even a x)
                ∙ ap (bit_xor (a / 2)) (crc_bit-even b y))
        | inr y ↦
            crc_bit-odd (bit_xor a b) (omega arith)
            ∙ ap (λ (z : ℕ). bit_xor z polynomial) h
            ∙ bit_xor_assoc (a / 2) (b / 2) polynomial
            ∙ sym (
                ap (λ (z : ℕ). bit_xor z (crc_bit b)) (crc_bit-even a x)
                ∙ ap (bit_xor (a / 2)) (crc_bit-odd b y))
      ]
      | inr x ↦ elim (parity b) [
        | inl y ↦
            crc_bit-odd (bit_xor a b) (omega arith)
            ∙ ap (λ (z : ℕ). bit_xor z polynomial) h
            ∙ bit_xor_right_comm (a / 2) (b / 2) polynomial
            ∙ sym (
                ap (λ (z : ℕ). bit_xor z (crc_bit b)) (crc_bit-odd a x)
                ∙ ap (bit_xor (bit_xor (a / 2) polynomial)) (crc_bit-even b y))
        | inr y ↦
            crc_bit-even (bit_xor a b) (omega arith)
            ∙ h
            ∙ sym (
                ap (λ (z : ℕ). bit_xor z (crc_bit b)) (crc_bit-odd a x)
                ∙ ap (bit_xor (bit_xor (a / 2) polynomial)) (crc_bit-odd b y)
                ∙ both (a / 2) (b / 2) polynomial)
      ]
    ]

pub crc_bits-bit_xor :
    (j a b : ℕ) → crc_bits j (bit_xor a b) ≡ bit_xor (crc_bits j a) (crc_bits j b)
unfolding crc_bits
crc_bits-bit_xor zero a b = refl
crc_bits-bit_xor (suc j) a b =
    ap (crc_bits j) (crc_bit-bit_xor a b) ∙ crc_bits-bit_xor j (crc_bit a) (crc_bit b)

pub crc_bit_bound : (c : ℕ) → c < 2 ^ 32 → crc_bit c < 2 ^ 32
crc_bit_bound c h = elim (parity c) [
  | inl e ↦ omega (arith, crc_bit-even c e)
  | inr o ↦
      omega
        (arith, crc_bit-odd c o, bit_xor_bound 32 (c / 2) polynomial (omega arith) (omega arith))
]

pub crc_bits_bound : (j c : ℕ) → c < 2 ^ 32 → crc_bits j c < 2 ^ 32
unfolding crc_bits
crc_bits_bound zero c h = h
crc_bits_bound (suc j) c h = crc_bits_bound j (crc_bit c) (crc_bit_bound c h)

-- The polynomial's highest bit is set, so no odd register has the round 0.
crc_bit-zero : (c : ℕ) → c < 2 ^ 32 → crc_bit c ≡ 0 → c ≡ 0
crc_bit-zero c h z = elim (parity c) [
  | inl e ↦ omega (arith, crc_bit-even c e)
  | inr o ↦
      let s = bit_xor_cancel polynomial (c / 2) polynomial (
        bit_xor_comm polynomial (c / 2)
        ∙ sym (crc_bit-odd c o)
        ∙ z
        ∙ sym (bit_xor_self polynomial)) in
      absurd (omega arith)
]

pub crc_bit_injective : (a b : ℕ) → a < 2 ^ 32 → b < 2 ^ 32 → crc_bit a ≡ crc_bit b → a ≡ b
crc_bit_injective a b h k e =
    let z : crc_bit (bit_xor a b) ≡ 0 =
      crc_bit-bit_xor a b ∙ ap (bit_xor (crc_bit a)) (sym e) ∙ bit_xor_self (crc_bit a) in
    let same = crc_bit-zero (bit_xor a b) (bit_xor_bound 32 a b h k) z in
    sym (bit_xor_cancel a b a (same ∙ sym (bit_xor_self a)))

pub crc_bits_injective : (j a b : ℕ) → a < 2 ^ 32 → b < 2 ^ 32 → crc_bits j a ≡ crc_bits j b → a ≡ b
unfolding crc_bits
crc_bits_injective zero a b h k e = e
crc_bits_injective (suc j) a b h k e =
    crc_bit_injective a b h k
      (crc_bits_injective j (crc_bit a) (crc_bit b) (crc_bit_bound a h) (crc_bit_bound b k) e)
