-- ===== src/Print/Number.antt =====
-- `PrintNum`: its digits read back as the number, and what stands around them.
use buaa_mips_os.Base.{
  ℕ, suc, ◌+◌, ◌-◌, ◌≤◌, ◌<◌, ◌≡◌, ◌≢◌, ◌⊎◌, refl, Bool, true, false, not, ◌&&◌, ◌||◌, ◌==◌, ltb,
  leb, if◌then◌else◌, arith, update, max, Bool-cases, inl, inr, ap, ◌∙◌,
}
use buaa_mips_os.Print.{place, Buf, digit_char, put_digits, put_sign, pad, print_num}
use buaa_mips_os.Print.Buffer.{fill_at, reverse_from_zero}
use buaa_mips_os.Print.Digits.{
  IsDigit, digit_char-IsDigit, digit_at, digits_of, value, digit_value, digit_value-char,
  digits_pos, put_digits_at, value-digits, value-ap, digit_small, top_cases,
}

-- The character at index `j` of the padded number before it is reversed, with `d` digits.
abbrev reversed_char : ℕ → ℕ → Bool → Bool → Bool → ℕ → ℕ → ℕ → Buf → ℕ → ℕ
reversed_char u base neg ladjust up padc d len buf j =
    if ltb j d
    then digit_char up (digit_at base u j)
    else if leb len j
    then buf j
    else if neg && (j == (if not ladjust && (padc == 48) then len - 1 else d))
    then 45
    else padc

pad_at :
    (buf buf0 : Buf) (u base : ℕ) (neg ladjust up : Bool) (padc d len : ℕ)
    → 0 < d
    → ((j : ℕ) → buf0 j ≡ (if ltb j d then digit_char up (digit_at base u j) else buf j))
    → (put_sign neg (d, buf0)).0 ≤ len
    → (j : ℕ)
    → pad neg ladjust padc (put_sign neg (d, buf0)).0 len (put_sign neg (d, buf0)).1 j
      ≡ reversed_char u base neg ladjust up padc d len buf j
pad_at buf buf0 u base false ladjust up padc d len pos h le j =
    grind (arith, h j, fill_at (len - d) d padc buf0 j)
pad_at buf buf0 u base true true up padc d len pos h le j =
    grind (arith, h j, fill_at (len - (d + 1)) (d + 1) padc (update buf0 d 45) j)
pad_at buf buf0 u base true false up padc d len pos h le j = elim (Bool-cases (padc == 48)) [
  | inl zeros ↦
      rw zeros
        (grind (arith, h j, fill_at (len - 1 - (d + 1 - 1)) (d + 1 - 1) padc (update buf0 d 45) j))
  | inr other ↦
      rw other (grind (arith, h j, fill_at (len - (d + 1)) (d + 1) padc (update buf0 d 45) j))
]

-- What `PrintNum` promises: the bytes from `end` down are `d` digits, which stand for `u`.
abbrev pub NumPrinted : Buf → (u base : ℕ) → Bool → ℕ → Bool → ℕ → Bool → ℕ × Buf → Type 0
NumPrinted buf u base neg width ladjust padc up (len, b) =
    (d : ℕ) × (0 < d)
    × (let actual : ℕ = if neg then d + 1 else d in
        let end : ℕ = if ladjust then actual - 1 else len - 1 in
        let sign : ℕ = if ladjust || (padc == 48) then 0 else end - d in
        (len ≡ max actual width)
        × ((i : ℕ) → i < d → IsDigit up (b (end - i)))
        × (value base (λ i. digit_value (b (end - i))) d ≡ u)
        × ((d ≡ 1) ⊎ (digit_value (b (end - (d - 1))) ≢ 0))
        × ((j : ℕ)
            → j < len
            → (j + d ≤ end) ⊎ (end < j)
            → b j ≡ (if neg && (j == sign) then 45 else if ladjust then 32 else padc))
        × ((j : ℕ) → len ≤ j → b j ≡ buf j))

module _ (buf buf0 : Buf) (u base : ℕ) (neg : Bool) (width : ℕ) (ladjust : Bool) (padc : ℕ)
    (up : Bool) (d : ℕ) (pos : 0 < d)
    (h : (j : ℕ) → buf0 j ≡ (if ltb j d then digit_char up (digit_at base u j) else buf j)) where
  abbrev actual : ℕ
  actual = (put_sign neg (d, buf0)).0

  abbrev total : ℕ
  total = if ltb width actual then actual else width

  abbrev last : ℕ
  last = if ladjust then actual - 1 else total - 1

  abbrev char : ℕ → ℕ
  char j = reversed_char u base neg ladjust up (if ladjust then 32 else padc) d total buf j

  last_le : last ≤ total
  last_le = ground arith

  -- Each index of the result.
  placed_at :
      ((place neg width ladjust padc d buf0).0 ≡ total)
      × ((j : ℕ)
          → (place neg width ladjust padc d buf0).1 j
            ≡ (if leb j last then char (last - j) else char j))
  unfolding place
  placed_at =
      let padded : Buf =
        pad neg ladjust (if ladjust then 32 else padc) actual total (put_sign neg (d, buf0)).1 in
      let at =
        pad_at buf buf0 u base neg ladjust up (if ladjust then 32 else padc) d total pos h
          (ground arith) in
      (
        refl,
        λ j. reverse_from_zero total last padded j last_le ∙ elim (Bool-cases (leb j last)) [
          | inl front ↦ rw front (at (last - j))
          | inr behind ↦ rw behind (at j)
        ],
      )

  digits_fit : d ≤ last + 1
  digits_fit = ground (arith, pos)

  -- Digit `i` stands `i` places before the last one.
  digit_back :
      (i : ℕ)
      → i < d
      → (place neg width ladjust padc d buf0).1 (last - i) ≡ digit_char up (digit_at base u i)
  digit_back i lt =
      let le : leb (last - i) last ≡ true = ground arith in
      let e : last - (last - i) ≡ i = omega (arith, digits_fit) in
      placed_at.1 (last - i) ∙ rw (le, e) (ground arith)

  abbrev sign_place : ℕ
  sign_place = if ladjust || (padc == 48) then 0 else last - d

  around :
      (j : ℕ)
      → j < total
      → (j + d ≤ last) ⊎ (last < j)
      → (place neg width ladjust padc d buf0).1 j
        ≡ (if neg && (j == sign_place) then 45 else if ladjust then 32 else padc)
  around j lt out = placed_at.1 j ∙ elim (Bool-cases neg) [
    | inr plain ↦ elim (Bool-cases (leb j last)) [
      | inl front ↦ rw (front, plain) (ground (arith, pos))
      | inr tail ↦ rw (tail, plain) (ground (arith, pos))
    ]
    | inl signed ↦ elim (Bool-cases ladjust) [
      | inl left ↦ elim (Bool-cases (leb j last)) [
        | inl front ↦ ground (arith, pos)
        | inr tail ↦ ground (arith, pos)
      ]
      | inr right ↦ elim (Bool-cases (padc == 48)) [
        | inl zeros ↦ ground (arith, pos)
        | inr other ↦ ground (arith, pos)
      ]
    ]
  ]

  behind : (j : ℕ) → total ≤ j → (place neg width ladjust padc d buf0).1 j ≡ buf j
  behind j le = placed_at.1 j ∙ ground (arith, pos)

  read_back :
      1 < base
      → base ≤ 36
      → value base (λ i. digit_value ((place neg width ladjust padc d buf0).1 (last - i))) d
        ≡ value base (digit_at base u) d
  read_back b c =
      value-ap base (λ i. digit_value ((place neg width ladjust padc d buf0).1 (last - i)))
        (digit_at base u) d
        (λ i l.
          ap digit_value (digit_back i l)
          ∙ digit_value-char up (digit_at base u i) (omega (arith, digit_small base u i b, c)))

  are_digits :
      1 < base
      → base ≤ 36
      → (i : ℕ) → i < d
      → IsDigit up ((place neg width ladjust padc d buf0).1 (last - i))
  are_digits b c i l =
      rw (digit_back i l)
        (digit_char-IsDigit up (digit_at base u i) (omega (arith, digit_small base u i b, c)))

  top_back :
      1 < base
      → base ≤ 36
      → (d ≡ 1) ⊎ (digit_at base u (d - 1) ≢ 0)
      → (d ≡ 1) ⊎ (digit_value ((place neg width ladjust padc d buf0).1 (last - (d - 1))) ≢ 0)
  top_back b c (inl one') = inl one'
  top_back b c (inr top) = inr (
      rw
        (ap digit_value (digit_back (d - 1) (omega (arith, pos)))
          ∙ digit_value-char up (digit_at base u (d - 1))
              (omega (arith, digit_small base u (d - 1) b, c)))
        top)

place_lem :
    (buf buf0 : Buf) (u base : ℕ) (neg : Bool) (width : ℕ) (ladjust : Bool) (padc : ℕ) (up : Bool)
    (d : ℕ)
    → 1 < base
    → base ≤ 36
    → 0 < d
    → ((j : ℕ) → buf0 j ≡ (if ltb j d then digit_char up (digit_at base u j) else buf j))
    → value base (digit_at base u) d ≡ u
    → (d ≡ 1) ⊎ (digit_at base u (d - 1) ≢ 0)
    → NumPrinted buf u base neg width ladjust padc up (place neg width ladjust padc d buf0)
unfolding place
place_lem buf buf0 u base true width ladjust padc up d b c pos h v top = (
  d,
  pos,
  (
    ground arith,
    are_digits buf buf0 u base true width ladjust padc up d pos h b c,
    read_back buf buf0 u base true width ladjust padc up d pos h b c ∙ v,
    top_back buf buf0 u base true width ladjust padc up d pos h b c top,
    around buf buf0 u base true width ladjust padc up d pos h,
    behind buf buf0 u base true width ladjust padc up d pos h,
  ),
)
place_lem buf buf0 u base false width ladjust padc up d b c pos h v top = (
  d,
  pos,
  (
    ground arith,
    are_digits buf buf0 u base false width ladjust padc up d pos h b c,
    read_back buf buf0 u base false width ladjust padc up d pos h b c ∙ v,
    top_back buf buf0 u base false width ladjust padc up d pos h b c top,
    around buf buf0 u base false width ladjust padc up d pos h,
    behind buf buf0 u base false width ladjust padc up d pos h,
  ),
)

-- `PrintNum` in a base from 2 to 36 returns the width, at least the number's own length, and leaves
-- that many bytes in the buffer. The digits are decimal digits and letters of the case that is asked
-- for, and read back as the number, with no leading zero; a sign stands in front of them, before the
-- padding where that is zeros; all other bytes are padding, which is spaces behind a left-adjusted
-- number. Nothing is written behind them.
pub print_num_lem :
    (buf : Buf) (u base : ℕ) (neg : Bool) (width : ℕ) (ladjust : Bool) (padc : ℕ) (up : Bool)
    → 1 < base
    → base ≤ 36
    → NumPrinted buf u base neg width ladjust padc up
        (print_num buf u base neg width ladjust padc up)
unfolding print_num
print_num_lem buf u base neg width ladjust padc up b c =
    let h = put_digits_at (suc u) u base up 0 buf in
    let d : ℕ = (put_digits (suc u) u base up 0 buf).0 in
    let e : d ≡ digits_of (suc u) base u = omega (arith, h.0) in
    place_lem buf (put_digits (suc u) u base up 0 buf).1 u base neg width ladjust padc up d b c
      (rw e (digits_pos (suc u) base u (omega arith)))
      (λ j. h.1 j ∙ (let z : j - 0 ≡ j = omega arith in rw z (ground (arith, h.0))))
      (rw e (value-digits (suc u) base u b (omega arith))) (rw e (top_cases base u b))
