-- ===== src/Prelude/Xor.antt =====
-- Laws of the exclusive or of numbers, by their lowest binary digit.
use Prim.Native.Nat.{
  ℕ, zero, suc, ◌+◌, ◌*◌, ◌/◌, ◌%◌, ◌^◌, ◌≤◌, ◌<◌, bit_xor, digits, differ, bit_xor-bitwise,
}
use mathlib.Core.Path.{◌≡◌, refl, sym, ap, ◌∙◌}
use native.Mathlib.Omega.{arith}
use native.Mathlib.Nat.{pow-suc}

abbrev differing : ℕ → ℕ → ℕ → ℕ
differing n a b = digits (λ (c : ℕ). c) differ n a b

-- Any count of digits that covers the first number gives the same.
enough_digits : (a b n k : ℕ) → a ≤ n → a ≤ k → differing n a b ≡ differing k a b
enough_digits zero b zero zero h g = refl
enough_digits zero b zero (suc k) h g = refl
enough_digits zero b (suc n) zero h g = refl
enough_digits zero b (suc n) (suc k) h g = refl
enough_digits (suc a) b zero k h g = absurd (omega arith)
enough_digits (suc a) b (suc n) zero h g = absurd (omega arith)
enough_digits (suc a) b (suc n) (suc k) h g =
    ap (λ (d : ℕ). d * 2 + differ (suc a % 2) (b % 2))
      (enough_digits (suc a / 2) (b / 2) n k (omega arith) (omega arith))

differ-mod : (x y : ℕ) → x < 2 → y < 2 → differ x y ≡ (x + y) % 2
differ-mod zero y h k = omega arith
differ-mod (suc zero) zero h k = refl
differ-mod (suc zero) (suc zero) h k = refl
differ-mod (suc zero) (suc (suc y)) h k = absurd (omega arith)
differ-mod (suc (suc x)) y h k = absurd (omega arith)

pub zero-bit_xor : (b : ℕ) → bit_xor 0 b ≡ b
zero-bit_xor b = bit_xor-bitwise 0 b

pub bit_xor_step : (a b : ℕ) → bit_xor a b ≡ 2 * bit_xor (a / 2) (b / 2) + (a + b) % 2
bit_xor_step zero b = omega (arith, zero-bit_xor b, zero-bit_xor (b / 2))
bit_xor_step (suc a) b = omega (
  arith,
  bit_xor-bitwise (suc a) b,
  bit_xor-bitwise (suc a / 2) (b / 2),
  enough_digits (suc a / 2) (b / 2) a (suc a / 2) (omega arith) (omega arith),
  differ-mod (suc a % 2) (b % 2) (omega arith) (omega arith),
)

-- The laws below halve the numbers until a bound on them is 0.
commuted : (n a b : ℕ) → a ≤ n → b ≤ n → bit_xor a b ≡ bit_xor b a
commuted zero a b h k = let p : a ≡ 0 = omega arith in let q : b ≡ 0 = omega arith in rw (p, q) refl
commuted (suc n) a b h k = omega (
  arith,
  bit_xor_step a b,
  bit_xor_step b a,
  commuted n (a / 2) (b / 2) (omega arith) (omega arith),
)

pub bit_xor_comm : (a b : ℕ) → bit_xor a b ≡ bit_xor b a
bit_xor_comm a b = commuted (a + b) a b (omega arith) (omega arith)

pub bit_xor-half : (a b : ℕ) → bit_xor a b / 2 ≡ bit_xor (a / 2) (b / 2)
bit_xor-half a b = omega (arith, bit_xor_step a b)

pub bit_xor-parity : (a b : ℕ) → bit_xor a b % 2 ≡ (a + b) % 2
bit_xor-parity a b = omega (arith, bit_xor_step a b)

associated :
    (n a b c : ℕ) → a ≤ n → b ≤ n → c ≤ n → bit_xor (bit_xor a b) c ≡ bit_xor a (bit_xor b c)
associated zero a b c h k l =
    let p : a ≡ 0 = omega arith in
    let q : b ≡ 0 = omega arith in let r : c ≡ 0 = omega arith in rw (p, q, r) refl
associated (suc n) a b c h k l =
    let p = ap (λ (x : ℕ). bit_xor x (c / 2)) (bit_xor-half a b) in
    let q = ap (bit_xor (a / 2)) (bit_xor-half b c) in
    omega (
      arith,
      bit_xor_step (bit_xor a b) c,
      bit_xor_step a (bit_xor b c),
      bit_xor-parity a b,
      bit_xor-parity b c,
      p,
      q,
      associated n (a / 2) (b / 2) (c / 2) (omega arith) (omega arith) (omega arith),
    )

pub bit_xor_assoc : (a b c : ℕ) → bit_xor (bit_xor a b) c ≡ bit_xor a (bit_xor b c)
bit_xor_assoc a b c = associated (a + b + c) a b c (omega arith) (omega arith) (omega arith)

cancelled : (n a : ℕ) → a ≤ n → bit_xor a a ≡ 0
cancelled zero a h = let p : a ≡ 0 = omega arith in rw p refl
cancelled (suc n) a h = omega (arith, bit_xor_step a a, cancelled n (a / 2) (omega arith))

pub bit_xor_self : (a : ℕ) → bit_xor a a ≡ 0
bit_xor_self a = cancelled a a (omega arith)

pub bit_xor_twice : (a b : ℕ) → bit_xor a (bit_xor a b) ≡ b
bit_xor_twice a b =
    sym (bit_xor_assoc a a b) ∙ ap (λ (x : ℕ). bit_xor x b) (bit_xor_self a) ∙ zero-bit_xor b

pub bit_xor_cancel : (a b c : ℕ) → bit_xor a b ≡ bit_xor a c → b ≡ c
bit_xor_cancel a b c h = sym (bit_xor_twice a b) ∙ ap (bit_xor a) h ∙ bit_xor_twice a c

pub bit_xor_bound : (k a b : ℕ) → a < 2 ^ k → b < 2 ^ k → bit_xor a b < 2 ^ k
bit_xor_bound zero a b h l =
    let p : a ≡ 0 = omega arith in let q : b ≡ 0 = omega arith in rw (p, q) (omega arith)
bit_xor_bound (suc k) a b h l =
    let s = pow-suc 2 k in
    omega (arith, bit_xor_step a b, bit_xor_bound k (a / 2) (b / 2) (omega arith) (omega arith))

pub bit_xor_right_comm : (a b c : ℕ) → bit_xor (bit_xor a b) c ≡ bit_xor (bit_xor a c) b
bit_xor_right_comm a b c =
    bit_xor_assoc a b c ∙ ap (bit_xor a) (bit_xor_comm b c) ∙ sym (bit_xor_assoc a c b)
