-- ===== src/Print/Digits.antt =====
-- The digits of a number in a base, and the loop of `PrintNum` that writes them.
use native.Mathlib.Nat.{div-le_self, div-lt_self, mod-add-div, mod-lt}
use buaa_mips_os.Base.{
  ◌≤◌, ℕ, zero, suc, ◌+◌, ◌-◌, ◌*◌, ◌/◌, ◌%◌, ◌<◌, ◌≡◌, ◌≢◌, ◌⊎◌, refl, Bool, true, false, ◌&&◌,
  ◌==◌, ltb, leb, if◌then◌else◌, arith, update, Bool-cases, inl, inr, ap,
}
use buaa_mips_os.Print.{Buf, digit_char, put_digits}

-- Digit `i` of `u`, from the least on, and the number of digits.
abbrev pub digit_at : ℕ → ℕ → ℕ → ℕ
digit_at base u zero = u % base
digit_at base u (suc i) = digit_at base (u / base) i

abbrev pub digits_of : ℕ → ℕ → ℕ → ℕ
digits_of zero base u = 0
digits_of (suc n) base u =
    let rest : ℕ = digits_of n base (u / base) in if u / base == 0 then 1 else suc rest

-- The number that `n` digits stand for, the least first.
abbrev pub value : ℕ → (ℕ → ℕ) → ℕ → ℕ
value base f zero = 0
value base f (suc n) = f 0 + base * value base (λ i. f (suc i)) n

-- The digit that a character stands for.
abbrev pub digit_value : ℕ → ℕ
digit_value c = if leb c 57 then c - 48 else if leb c 90 then c - 55 else c - 87

-- A decimal digit, or a letter of the case that was asked for.
abbrev pub IsDigit : Bool → ℕ → Type 0
IsDigit up c =
    ((b'0' ≤ c) × (c ≤ b'9')) ⊎ (if up then (b'A' ≤ c) × (c ≤ b'Z') else (b'a' ≤ c) × (c ≤ b'z'))

pub digit_char-IsDigit : (up : Bool) (d : ℕ) → d < 36 → IsDigit up (digit_char up d)
digit_char-IsDigit up d lt = elim (Bool-cases (leb d 9)) [
  | inl small ↦ rw small (inl (omega arith, ground (arith, small)))
  | inr large ↦ inr (letter up large)
]
  where
    letter :
        (up : Bool)
        → leb d 9 ≡ false
        → if up
          then (b'A' ≤ digit_char up d) × (digit_char up d ≤ b'Z')
          else (b'a' ≤ digit_char up d) × (digit_char up d ≤ b'z')
    letter true large = (ground (arith, large), ground (arith, large))
    letter false large = (ground (arith, large), ground (arith, large))

pub digit_value-char : (up : Bool) (d : ℕ) → d < 36 → digit_value (digit_char up d) ≡ d
digit_value-char true d lt = ground arith
digit_value-char false d lt = ground arith

-- One digit more in front.
digit_cases :
    (base u p n c : ℕ) (up : Bool) (buf : Buf) (j : ℕ)
    → c ≡ (
        if leb (p + 1) j && ltb j (p + 1 + n)
        then digit_char up (digit_at base (u / base) (j - (p + 1)))
        else update buf p (digit_char up (u % base)) j)
    → c ≡ (if leb p j && ltb j (p + suc n) then digit_char up (digit_at base u (j - p)) else buf j)
digit_cases base u p n c up buf j h = elim (Bool-cases (leb (p + 1) j)) [
  | inl behind ↦ let e : j - p ≡ suc (j - (p + 1)) = ground arith in rw e (grind (arith, h))
  | inr before ↦ elim (Bool-cases (j == p)) [
    | inl here ↦ let e : j - p ≡ 0 = ground arith in rw e (grind (arith, h))
    | inr below ↦ grind (arith, h)
  ]
]

pub put_digits_at :
    (n u base : ℕ) (up : Bool) (p : ℕ) (buf : Buf)
    → ((put_digits n u base up p buf).0 ≡ p + digits_of n base u)
      × ((j : ℕ)
          → (put_digits n u base up p buf).1 j ≡ (
              if leb p j && ltb j (p + digits_of n base u)
              then digit_char up (digit_at base u (j - p))
              else buf j))
unfolding put_digits
put_digits_at zero u base up p buf = (omega arith, λ j. ground arith)
put_digits_at (suc n) u base up p buf =
    let buf' : Buf = update buf p (digit_char up (u % base)) in
    let h = put_digits_at n (u / base) base up (p + 1) buf' in
    elim (Bool-cases (u / base == 0)) [
      | inl last ↦ rw last (refl, λ j. digit_cases base u p 0 (buf' j) up buf j (ground arith))
      | inr more ↦ rw more (
        omega (arith, h.0),
        λ j.
            digit_cases base u p (digits_of n base (u / base))
              ((put_digits n (u / base) base up (p + 1) buf').1 j) up buf j (h.1 j),
      )
    ]

-- With enough fuel the digits stand for the number.
pub value-digits :
    (n base u : ℕ) → 1 < base → u < n → value base (digit_at base u) (digits_of n base u) ≡ u
value-digits zero base u b lt = absurd (omega arith)
value-digits (suc n) base u b lt = elim (Bool-cases (u / base == 0)) [
  | inl last ↦
      let z : u / base ≡ 0 = ground arith in
      rw last (omega (arith, ap (λ t. base * t) z, mod-add-div u base))
  | inr more ↦
      let pos : 0 < u = ground (arith, div-le_self u base) in
      let rest =
        value-digits n base (u / base) b (omega (arith, div-lt_self {n = u} {k = base} pos b)) in
      rw (more, rest) (mod-add-div u base)
]

pub digits_pos : (n base u : ℕ) → u < n → 0 < digits_of n base u
digits_pos zero base u lt = absurd (omega arith)
digits_pos (suc n) base u lt = ground arith

-- The first digit is not 0, but for the number 0.
top_digit : (n base u : ℕ) → 1 < base → u < n → u ≢ 0 → digit_at base u (digits_of n base u - 1) ≢ 0
top_digit zero base u b lt ne = absurd (omega arith)
top_digit (suc n) base u b lt ne = elim (Bool-cases (u / base == 0)) [
  | inl last ↦
      let z : u / base ≡ 0 = ground arith in
      rw last (omega (arith, ne, ap (λ t. base * t) z, mod-add-div u base))
  | inr more ↦
      let pos : 0 < u = omega (arith, ne) in
      let below : u / base < n = omega (arith, div-lt_self {n = u} {k = base} pos b) in
      let rest = top_digit n base (u / base) b below (ground arith) in
      let some_digit : 0 < digits_of n base (u / base) = digits_pos n base (u / base) below in
      let e : suc (digits_of n base (u / base)) - 1 ≡ suc (digits_of n base (u / base) - 1) =
        omega arith in
      rw (more, e) rest
]

pub value-ap :
    (base : ℕ) (f g : ℕ → ℕ) (n : ℕ)
    → ((i : ℕ) → i < n → f i ≡ g i)
    → value base f n ≡ value base g n
value-ap base f g zero h = refl
value-ap base f g (suc n) h =
    rw
      (
        h 0 (omega arith),
        value-ap base (λ i. f (suc i)) (λ i. g (suc i)) n (λ i l. h (suc i) (omega arith)),
      )
      refl

pub digit_small : (base u i : ℕ) → 1 < base → digit_at base u i < base
digit_small base u zero b = mod-lt u (omega arith)
digit_small base u (suc i) b = digit_small base (u / base) i b

-- The digits of 0 are one.
pub top_cases :
    (base u : ℕ)
    → 1 < base
    → (digits_of (suc u) base u ≡ 1) ⊎ (digit_at base u (digits_of (suc u) base u - 1) ≢ 0)
top_cases base u b = elim (Bool-cases (u == 0)) [
  | inl zero' ↦ inl (ground (arith, div-le_self u base))
  | inr more ↦ inr (top_digit (suc u) base u b (omega arith) (ground arith))
]
