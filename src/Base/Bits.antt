-- ===== src/Base/Bits.antt =====
-- The binary digits of a number under the bitwise operations.
use Prim.Native.Nat.{
  bit_and, bit_or, bit_xor, digits, bitwise, bit_and-bitwise, bit_or-bitwise, bit_xor-bitwise, min,
  max, differ,
}
use native.Mathlib.Nat.{pow-suc, one-le-pow, le_refl}
use cs_courses.Base.{
  ◌≢◌, Bool-cases, inl, inr, sym, ap, ◌∙◌, ℕ, zero, suc, ◌+◌, ◌-◌, ◌*◌, ◌/◌, ◌%◌, ◌^◌, ◌≤◌, ◌<◌,
  ◌≡◌, refl, ◌==◌, if◌then◌else◌, arith,
}

-- The digit of weight 2 ^ k.
abbrev pub bit : ℕ → ℕ → ℕ
bit w zero = w % 2
bit w (suc k) = bit (w / 2) k

-- A bitwise operation by its definition: the count of digits is the first number, and more of it
-- changes nothing.
module _ (z : ℕ → ℕ) (f : ℕ → ℕ → ℕ) where
  digits-add : (n more a b : ℕ) → a ≤ n → digits z f (n + more) a b ≡ digits z f n a b
  digits-add n more zero b h = digits-zero (n + more) b ∙ sym (digits-zero n b)
    where
      digits-zero : (m b : ℕ) → digits z f m 0 b ≡ z b
      digits-zero zero b = refl
      digits-zero (suc m) b = refl
  digits-add zero more (suc a) b h = absurd (omega arith)
  digits-add (suc n) more (suc a) b h =
      let out : suc n + more ≡ suc (n + more) = omega arith in
      ap (λ m. digits z f m (suc a) b) out
      ∙ ap (λ t. t * 2 + f (suc a % 2) (b % 2))
          (digits-add n more (suc a / 2) (b / 2) (omega arith))

  lowest_digit :
      (a b : ℕ)
      → bitwise z f (suc a) b ≡ bitwise z f (suc a / 2) (b / 2) * 2 + f (suc a % 2) (b % 2)
  lowest_digit a b =
      let half = suc a / 2 in
      let whole : half + (a - half) ≡ a = omega arith in
      ap (λ t. t * 2 + f (suc a % 2) (b % 2))
        (ap (λ n. digits z f n half (b / 2)) (sym whole)
          ∙ digits-add half (a - half) half (b / 2) (le_refl _))

or_digit : (a b : ℕ) → bit_or a b ≡ bit_or (a / 2) (b / 2) * 2 + max (a % 2) (b % 2)
or_digit zero b = simp bit_or-bitwise (omega arith)
or_digit (suc a) b = simp bit_or-bitwise (lowest_digit (λ y. y) max a b)

and_digit : (a b : ℕ) → bit_and a b ≡ bit_and (a / 2) (b / 2) * 2 + min (a % 2) (b % 2)
and_digit zero b = simp bit_and-bitwise (omega arith)
and_digit (suc a) b = simp bit_and-bitwise (lowest_digit (λ y. 0) min a b)

xor_digit : (a b : ℕ) → bit_xor a b ≡ bit_xor (a / 2) (b / 2) * 2 + differ (a % 2) (b % 2)
xor_digit zero b = simp bit_xor-bitwise (omega arith)
xor_digit (suc a) b = simp bit_xor-bitwise (lowest_digit (λ y. y) differ a b)

-- The digits of the results.
pub bit_or-bit : (k a b : ℕ) → bit (bit_or a b) k ≡ max (bit a k) (bit b k)
bit_or-bit zero a b = omega (arith, or_digit a b)
bit_or-bit (suc k) a b =
    let half : bit_or a b / 2 ≡ bit_or (a / 2) (b / 2) = omega (arith, or_digit a b) in
    rw half (bit_or-bit k (a / 2) (b / 2))

pub bit_and-bit : (k a b : ℕ) → bit (bit_and a b) k ≡ min (bit a k) (bit b k)
bit_and-bit zero a b = omega (arith, and_digit a b)
bit_and-bit (suc k) a b =
    let half : bit_and a b / 2 ≡ bit_and (a / 2) (b / 2) = omega (arith, and_digit a b) in
    rw half (bit_and-bit k (a / 2) (b / 2))

differ-digits : (a b : ℕ) → a < 2 → b < 2 → differ a b ≡ (a + b) % 2
differ-digits zero b p q = omega arith
differ-digits (suc zero) zero p q = refl
differ-digits (suc zero) (suc zero) p q = refl
differ-digits (suc zero) (suc (suc b)) p q = absurd (omega arith)
differ-digits (suc (suc a)) b p q = absurd (omega arith)

pub bit_xor-bit : (k a b : ℕ) → bit (bit_xor a b) k ≡ (bit a k + bit b k) % 2
bit_xor-bit zero a b =
    omega (arith, xor_digit a b, differ-digits (a % 2) (b % 2) (omega arith) (omega arith))
bit_xor-bit (suc k) a b =
    let half : bit_xor a b / 2 ≡ bit_xor (a / 2) (b / 2) =
      omega (arith, xor_digit a b, differ-digits (a % 2) (b % 2) (omega arith) (omega arith)) in
    rw half (bit_xor-bit k (a / 2) (b / 2))

zero-bit : (k : ℕ) → bit 0 k ≡ 0
zero-bit zero = refl
zero-bit (suc k) = zero-bit k

-- Of a mask only one digit is 1.
pub mask-bit : (j k : ℕ) → bit (2 ^ j) k ≡ (if j == k then 1 else 0)
mask-bit zero zero = refl
mask-bit zero (suc k) = zero-bit k ∙ ground arith
mask-bit (suc j) zero = ground (arith, pow-suc 2 j)
mask-bit (suc j) (suc k) =
    let half : 2 ^ suc j / 2 ≡ 2 ^ j = omega (arith, pow-suc 2 j) in
    rw half (mask-bit j k ∙ ground arith)

pub complement-bit : (n m k : ℕ) → m < 2 ^ n → k < n → bit (2 ^ n - 1 - m) k ≡ 1 - bit m k
complement-bit zero m k p q = absurd (omega arith)
complement-bit (suc n) m zero p q = omega (arith, pow-suc 2 n, one-le-pow n 2)
complement-bit (suc n) m (suc k) p q =
    let half : (2 ^ suc n - 1 - m) / 2 ≡ 2 ^ n - 1 - m / 2 = omega (arith, pow-suc 2 n) in
    rw half (complement-bit n (m / 2) k (omega (arith, pow-suc 2 n)) (omega arith))

pub bit-lt : (k w : ℕ) → bit w k < 2
bit-lt zero w = omega arith
bit-lt (suc k) w = bit-lt k (w / 2)

digits-zero_right : (n a : ℕ) → digits (λ b. 0) min n a 0 ≡ 0
digits-zero_right zero a = refl
digits-zero_right (suc n) zero = refl
digits-zero_right (suc n) (suc a) = omega (arith, digits-zero_right n (suc a / 2))

bit_and-zero : (a : ℕ) → bit_and a 0 ≡ 0
bit_and-zero a = bit_and-bitwise a 0 ∙ digits-zero_right a a

-- The test with a mask reads the digit.
pub bit_and-mask : (k w : ℕ) → bit_and w (2 ^ k) ≡ bit w k * 2 ^ k
bit_and-mask zero w = omega (arith, and_digit w 1, bit_and-zero (w / 2))
bit_and-mask (suc k) w =
    let half : 2 ^ suc k / 2 ≡ 2 ^ k = omega (arith, pow-suc 2 k) in
    let double : bit (w / 2) k * 2 ^ suc k ≡ bit (w / 2) k * 2 ^ k * 2 =
      grind (arith, pow-suc 2 k) in
    let rest : bit_and (w / 2) (2 ^ suc k / 2) ≡ bit (w / 2) k * 2 ^ k =
      ap (bit_and (w / 2)) half ∙ bit_and-mask k (w / 2) in
    omega (arith, and_digit w (2 ^ suc k), pow-suc 2 k, rest, double)

pub two_pow-lt : (n m : ℕ) → n < m → 2 ^ n < 2 ^ m
two_pow-lt n zero h = absurd (omega arith)
two_pow-lt zero (suc m) h = omega (arith, pow-suc 2 m, one-le-pow m 2)
two_pow-lt (suc n) (suc m) h = omega (arith, pow-suc 2 n, pow-suc 2 m, two_pow-lt n m (omega arith))

bit_and-le_fuel : (n a b : ℕ) → a ≤ n → bit_and a b ≤ b
bit_and-le_fuel n zero b h = omega (arith, bit_and-bitwise 0 b)
bit_and-le_fuel zero (suc a) b h = absurd (omega arith)
bit_and-le_fuel (suc n) (suc a) b h =
    omega (arith, and_digit (suc a) b, bit_and-le_fuel n (suc a / 2) (b / 2) (omega arith))

pub bit_and-le : (a b : ℕ) → bit_and a b ≤ b
bit_and-le a b = bit_and-le_fuel a a b (omega arith)

pub bit_and_self : (n a : ℕ) → a ≤ n → bit_and a a ≡ a
bit_and_self n zero h = bit_and-bitwise 0 0
bit_and_self zero (suc a) h = absurd (omega arith)
bit_and_self (suc n) (suc a) h =
    omega (arith, and_digit (suc a) (suc a), bit_and_self n (suc a / 2) (omega arith))

abbrev pub IsPower : ℕ → Type 0
IsPower x = (k : ℕ) × (x ≡ 2 ^ k)

pub power-bit_and_pred : (k : ℕ) → bit_and (2 ^ k) (2 ^ k - 1) ≡ 0
power-bit_and_pred zero = bit_and-zero 1
power-bit_and_pred (suc k) =
    let half : 2 ^ suc k / 2 ≡ 2 ^ k = omega (arith, pow-suc 2 k) in
    let mask : (2 ^ suc k - 1) / 2 ≡ 2 ^ k - 1 = omega (arith, pow-suc 2 k, one-le-pow k 2) in
    let rest : bit_and (2 ^ suc k / 2) ((2 ^ suc k - 1) / 2) ≡ 0 =
      rw (half, mask) (power-bit_and_pred k) in
    omega (arith, and_digit (2 ^ suc k) (2 ^ suc k - 1), pow-suc 2 k, rest)

-- Turning off the lowest 1 of a number that has others leaves the highest.
pub top-bit_and_pred : (k x : ℕ) → 2 ^ k ≤ x → x < 2 * 2 ^ k → x ≢ 2 ^ k → 2 ^ k ≤ bit_and x (x - 1)
top-bit_and_pred zero x low high ne = absurd (ne (omega arith))
top-bit_and_pred (suc k) x low high ne = elim (Bool-cases (x % 2 == 0)) [
  | inl even ↦
      let half : (x - 1) / 2 ≡ x / 2 - 1 = ground (arith, pow-suc 2 k, one-le-pow k 2) in
      let rest : 2 ^ k ≤ bit_and (x / 2) (x / 2 - 1) =
        top-bit_and_pred k (x / 2) (omega (arith, pow-suc 2 k)) (omega (arith, pow-suc 2 k))
          (λ e. ne (ground (arith, pow-suc 2 k))) in
      let here : bit_and (x / 2) ((x - 1) / 2) ≡ bit_and (x / 2) (x / 2 - 1) =
        ap (bit_and (x / 2)) half in
      omega (arith, and_digit x (x - 1), pow-suc 2 k, here)
  | inr odd ↦
      let half : (x - 1) / 2 ≡ x / 2 = ground arith in
      let same : bit_and (x / 2) ((x - 1) / 2) ≡ x / 2 =
        ap (bit_and (x / 2)) half ∙ bit_and_self (x / 2) (x / 2) (omega arith) in
      omega (arith, and_digit x (x - 1), pow-suc 2 k, same)
]

-- The highest power of 2 in a number.
pub top_power : (n x : ℕ) → x ≤ n → 0 < x → (k : ℕ) × (2 ^ k ≤ x) × (x < 2 * 2 ^ k)
top_power zero x h pos = absurd (omega arith)
top_power (suc n) x h pos = elim (Bool-cases (x == 1)) [
  | inl one ↦ (0, ground arith, ground arith)
  | inr more ↦
      let (k, low, high) = top_power n (x / 2) (omega arith) (ground arith) in
      (suc k, omega (arith, pow-suc 2 k), omega (arith, pow-suc 2 k))
]
