-- ===== src/Print/Buffer.antt =====
-- What the loops of lib/print.c leave in the buffer, index by index.
use buaa_mips_os.Base.{
  ◌∙◌, inr, inl, Bool-cases, ℕ, zero, suc, ◌+◌, ◌-◌, ◌≤◌, ◌<◌, ◌≡◌, refl, Bool, true, false, ◌&&◌,
  List, ◌==◌, ltb, leb, if◌then◌else◌, arith, update, length, max,
}
use buaa_mips_os.Print.{Buf, char_at, fill, copy, reverse, print_char, print_string}

pub fill_at :
    (n i c : ℕ) (buf : Buf) (j : ℕ)
    → fill n i c buf j ≡ (if leb i j && ltb j (i + n) then c else buf j)
unfolding fill
fill_at zero i c buf j = ground arith
fill_at (suc n) i c buf j = ground (arith, fill_at n (i + 1) c (update buf i c) j)

copy_at :
    (n i : ℕ) (s : List ℕ) (t : ℕ) (buf : Buf) (j : ℕ)
    → copy n i s t buf j ≡ (if leb i j && ltb j (i + n) then char_at s (j - i + t) else buf j)
unfolding copy
copy_at zero i s t buf j = ground arith
copy_at (suc n) i s t buf j =
    let h = copy_at n (i + 1) s (t + 1) (update buf i (char_at s t)) j in grind (arith, h)

reverse_at :
    (n b e : ℕ) (buf : Buf) (j : ℕ)
    → e ≤ b + n
    → reverse n b e buf j ≡ (if leb b j && leb j e then buf (b + e - j) else buf j)
unfolding reverse
reverse_at zero b e buf j h = elim (Bool-cases (leb b j && leb j e)) [
  | inl inside ↦ let at : b + e - j ≡ j = ground arith in rw (inside, at) refl
  | inr outside ↦ rw outside refl
]
reverse_at (suc n) b e buf j h =
    let h' =
      reverse_at n (b + 1) (e - 1) (update (update buf b (buf e)) e (buf b)) j (omega arith) in
    grind (arith, h')

-- The reversal of the first bytes.
pub reverse_from_zero :
    (n e : ℕ) (buf : Buf) (j : ℕ)
    → e ≤ n
    → reverse n 0 e buf j ≡ (if leb j e then buf (e - j) else buf j)
reverse_from_zero n e buf j h =
    let same : (leb 0 j && leb j e) ≡ leb j e = ground arith in
    let at : 0 + e - j ≡ e - j = omega arith in
    reverse_at n 0 e buf j (omega (arith, h)) ∙ rw (same, at) refl

-- What `PrintChar` promises of the length that it returns, and of the buffer.
abbrev pub CharPrinted : Buf → ℕ → ℕ → Bool → ℕ × Buf → Type 0
CharPrinted buf c width ladjust (len, b) =
    (len ≡ max 1 width)
    × ((j : ℕ) → j < len → b j ≡ (if j == (if ladjust then 0 else len - 1) then c else 32))
    × ((j : ℕ) → len ≤ j → b j ≡ buf j)

abbrev char_len : ℕ → ℕ
char_len width = if ltb width 1 then 1 else width

-- `PrintChar` returns the width, at least 1, and leaves that many bytes in the buffer: the
-- character, first or last, and spaces. It writes nothing behind them.
print_char_lem :
    (buf : Buf) (c width : ℕ) (ladjust : Bool)
    → CharPrinted buf c width ladjust (print_char buf c width ladjust)
unfolding print_char
print_char_lem buf c width true =
    let at = fill_at (char_len width - 1) 1 32 (update buf 0 c) in
    (ground arith, λ j l. grind (arith, at j), λ j l. grind (arith, at j))
print_char_lem buf c width false =
    let at = fill_at (char_len width - 1) 0 32 buf in
    (ground arith, λ j l. grind (arith, at j), λ j l. grind (arith, at j))

-- What `PrintString` promises.
abbrev pub StringPrinted : Buf → List ℕ → ℕ → Bool → ℕ × Buf → Type 0
StringPrinted buf s width ladjust (len, b) =
    let start : ℕ = if ladjust then 0 else len - length s in
    (len ≡ max (length s) width)
    × ((j : ℕ)
        → j < len
        → b j ≡ (if leb start j && ltb j (start + length s) then char_at s (j - start) else 32))
    × ((j : ℕ) → len ≤ j → b j ≡ buf j)

abbrev string_len : List ℕ → ℕ → ℕ
string_len s width = if ltb width (length s) then length s else width

-- `PrintString` returns the width, at least the string's length, and leaves that many bytes in the
-- buffer: the string, first or last, and spaces. It writes nothing behind them.
print_string_lem :
    (buf : Buf) (s : List ℕ) (width : ℕ) (ladjust : Bool)
    → StringPrinted buf s width ladjust (print_string buf s width ladjust)
unfolding print_string
print_string_lem buf s width true =
    let total : ℕ = string_len s width in
    let b : Buf = copy (length s) 0 s 0 buf in
    let at = fill_at (total - length s) (length s) 32 b in
    let at' = copy_at (length s) 0 s 0 buf in
    (ground arith, λ j l. grind (arith, at j, at' j), λ j l. grind (arith, at j, at' j))
print_string_lem buf s width false =
    let total : ℕ = string_len s width in
    let b : Buf = fill (total - length s) 0 32 buf in
    let at = fill_at (total - length s) 0 32 buf in
    let at' = copy_at (length s) (total - length s) s 0 b in
    (ground arith, λ j l. grind (arith, at j, at' j), λ j l. grind (arith, at j, at' j))
