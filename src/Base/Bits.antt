-- ===== src/Base/Bits.antt =====
-- `bit_or` at variables: the law of the lowest digit, and the join of a shifted number with a
-- number below the shift.
use Prim.Native.Nat.{digits, bit_or-bitwise}
use native.Mathlib.Nat.{pow-suc}
use buaa_mips_os.Base.{
  ℕ, zero, suc, ◌+◌, ◌*◌, ◌/◌, ◌%◌, ◌^◌, ◌≤◌, ◌<◌, ◌≡◌, refl, ap, max, bit_or, arith,
}

abbrev or_digits : ℕ → ℕ → ℕ → ℕ
or_digits n a b = digits (λ b. b) max n a b

or_digits_fuel : (n m a b : ℕ) → a ≤ n → a ≤ m → or_digits n a b ≡ or_digits m a b
or_digits_fuel zero zero a b p q = refl
or_digits_fuel zero (suc m) zero b p q = refl
or_digits_fuel zero (suc m) (suc a) b p q = absurd (omega arith)
or_digits_fuel (suc n) zero zero b p q = refl
or_digits_fuel (suc n) zero (suc a) b p q = absurd (omega arith)
or_digits_fuel (suc n) (suc m) zero b p q = refl
or_digits_fuel (suc n) (suc m) (suc a) b p q =
    omega (arith, or_digits_fuel n m (suc a / 2) (b / 2) (omega arith) (omega arith))

zero-bit_or : (b : ℕ) → bit_or 0 b ≡ b
zero-bit_or b = bit_or-bitwise 0 b

-- The lowest binary digit, and the rest.
pub bit_or_step : (a b : ℕ) → bit_or a b ≡ bit_or (a / 2) (b / 2) * 2 + max (a % 2) (b % 2)
bit_or_step zero b = omega (arith, zero-bit_or b, zero-bit_or (b / 2))
bit_or_step (suc a) b = omega (
  arith,
  bit_or-bitwise (suc a) b,
  bit_or-bitwise (suc a / 2) (b / 2),
  or_digits_fuel a (suc a / 2) (suc a / 2) (b / 2) (omega arith) (omega arith),
)

bit_or-zero_fuel : (n a : ℕ) → a ≤ n → bit_or a 0 ≡ a
bit_or-zero_fuel n zero h = refl
bit_or-zero_fuel zero (suc a) h = absurd (omega arith)
bit_or-zero_fuel (suc n) (suc a) h =
    omega (arith, bit_or_step (suc a) 0, bit_or-zero_fuel n (suc a / 2) (omega arith))

pub bit_or-zero : (a : ℕ) → bit_or a 0 ≡ a
bit_or-zero a = bit_or-zero_fuel a a (omega arith)

-- `(a << k) | b` is a sum where `b` fits below the shift.
bit_or-shift : (k a b : ℕ) → b < 2 ^ k → bit_or (a * 2 ^ k) b ≡ a * 2 ^ k + b
bit_or-shift zero a b h = let e : b ≡ 0 = omega arith in rw e (omega (arith, bit_or-zero (a * 1)))
bit_or-shift (suc k) a b h =
    let p : 2 ^ suc k ≡ 2 ^ k * 2 = pow-suc 2 k in
    let m : a * 2 ^ suc k ≡ a * 2 ^ k * 2 = rw p (omega arith) in
    let half : (a * 2 ^ suc k) / 2 ≡ a * 2 ^ k = omega arith in
    omega (
      arith,
      bit_or_step (a * 2 ^ suc k) b,
      ap (λ x. bit_or x (b / 2)) half,
      bit_or-shift k a (b / 2) (omega arith),
    )

pub bit_or-page : (a b : ℕ) → b < 4096 → bit_or (a * 4096) b ≡ a * 4096 + b
bit_or-page a b h = bit_or-shift 12 a b h

pub bit_or_env : (a b : ℕ) → b < 2048 → bit_or (a * 2048) b ≡ a * 2048 + b
bit_or_env a b h = bit_or-shift 11 a b h

-- No digit is added above the two numbers' own.
bit_or-lt : (k a b : ℕ) → a < 2 ^ k → b < 2 ^ k → bit_or a b < 2 ^ k
bit_or-lt zero a b p q =
    let e : a ≡ 0 = omega arith in
    let f : b ≡ 0 = omega arith in rw (e, f) (omega (arith, bit_or-zero 0))
bit_or-lt (suc k) a b p q =
    let e : 2 ^ suc k ≡ 2 ^ k * 2 = pow-suc 2 k in
    omega (arith, bit_or_step a b, bit_or-lt k (a / 2) (b / 2) (omega arith) (omega arith))

pub bit_or-lt_page : (a b : ℕ) → a < 4096 → b < 4096 → bit_or a b < 4096
bit_or-lt_page a b p q = bit_or-lt 12 a b p q

bit_or_half : (a b : ℕ) → bit_or a b / 2 ≡ bit_or (a / 2) (b / 2)
bit_or_half a b = omega (arith, bit_or_step a b)

bit_or_eighth : (a b : ℕ) → bit_or a b / 8 ≡ bit_or (a / 8) (b / 8)
bit_or_eighth a b =
    let e : bit_or a b / 8 ≡ bit_or a b / 2 / 2 / 2 = omega arith in
    let f : a / 8 ≡ a / 2 / 2 / 2 = omega arith in
    let g : b / 8 ≡ b / 2 / 2 / 2 = omega arith in
    rw (e, f, g, bit_or_half a b, bit_or_half (a / 2) (b / 2), bit_or_half (a / 2 / 2) (b / 2 / 2))

bit_or_ninth : (a b : ℕ) → bit_or a b / 0x200 ≡ bit_or (a / 0x200) (b / 0x200)
bit_or_ninth a b =
    let e : bit_or a b / 0x200 ≡ bit_or a b / 8 / 8 / 8 = omega arith in
    let f : a / 0x200 ≡ a / 8 / 8 / 8 = omega arith in
    let g : b / 0x200 ≡ b / 8 / 8 / 8 = omega arith in
    rw (
      e,
      f,
      g,
      bit_or_eighth a b,
      bit_or_eighth (a / 8) (b / 8),
      bit_or_eighth (a / 8 / 8) (b / 8 / 8),
    )

-- The digit 0x200 of `a | 0x200` is set.
pub bit_or-set_v : (a : ℕ) → bit_or a 0x200 / 0x200 % 2 ≡ 1
bit_or-set_v a = rw (bit_or_ninth a 0x200) (omega (arith, bit_or_step (a / 0x200) 1))

-- A flag below a page's size leaves the page number alone.
pub bit_or-ppn : (a b : ℕ) → b < 4096 → bit_or a b / 4096 ≡ a / 4096
bit_or-ppn a b h =
    let e : bit_or a b / 4096 ≡ bit_or a b / 0x200 / 8 = omega arith in
    let f : b / 0x200 / 8 ≡ 0 = omega arith in
    rw (e, bit_or_ninth a b, bit_or_eighth (a / 0x200) (b / 0x200), f, bit_or-zero) (omega arith)

-- Bit 9 of an `or`.
pub bit_or_v : (a b : ℕ) → bit_or a b / 0x200 % 2 ≡ max (a / 0x200 % 2) (b / 0x200 % 2)
bit_or_v a b = rw (bit_or_ninth a b) (omega (arith, bit_or_step (a / 0x200) (b / 0x200)))
