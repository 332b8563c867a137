-- ===== src/Print.antt =====
-- lib/print.c: the formatted output of the kernel. A buffer is a function from indices to bytes;
-- a C string is the list of its characters before the NUL.
pub mod Buffer
pub mod Digits
pub mod Number
pub mod Format
mod Tests
use buaa_mips_os.Base.{
  ℕ, zero, suc, ◌+◌, ◌-◌, ◌*◌, ◌/◌, ◌%◌, Bool, true, false, not, ◌&&◌, Option, none, some, List, [],
  ◌∷◌, ◌==◌, ltb, leb, if◌then◌else◌, update, length, get_elem?,
}

abbrev pub Buf : Type 0
Buf = ℕ → ℕ

-- `n` rounds of `buf[i] = c`, from `i` up.
pub fill : ℕ → ℕ → ℕ → Buf → Buf
fill zero i c buf = buf
fill (suc n) i c buf = fill n (i + 1) c (update buf i c)

-- `s[j]`
abbrev pub char_at : List ℕ → ℕ → ℕ
char_at s j = elim (get_elem? s j) [ none ↦ 0 | some c ↦ c ]

-- `n` rounds of `buf[i] = s[j]`, from `i` and `j` up.
pub copy : ℕ → ℕ → List ℕ → ℕ → Buf → Buf
copy zero i s j buf = buf
copy (suc n) i s j buf = copy n (i + 1) s (j + 1) (update buf i (char_at s j))

-- The length that is returned, and the buffer.
pub print_char : Buf → ℕ → ℕ → Bool → ℕ × Buf
print_char buf c width ladjust =
    let len : ℕ = if ltb width 1 then 1 else width in
    if ladjust
    then (len, fill (len - 1) 1 32 (update buf 0 c))
    else (len, update (fill (len - 1) 0 32 buf) (len - 1) c)

pub print_string : Buf → List ℕ → ℕ → Bool → ℕ × Buf
print_string buf s width ladjust =
    let len : ℕ = length s in
    let total : ℕ = if ltb width len then len else width in
    if ladjust
    then (total, fill (total - len) len 32 (copy len 0 s 0 buf))
    else (total, copy len (total - len) s 0 (fill (total - len) 0 32 buf))

-- `'0' + tmp`, `'A' + tmp - 10` or `'a' + tmp - 10`.
abbrev pub digit_char : Bool → ℕ → ℕ
digit_char upcase tmp =
    if leb tmp 9 then 48 + tmp else if upcase then 65 + tmp - 10 else 97 + tmp - 10

-- The loop that writes the digits of `u`, least first, from index `p` on; the index behind them.
-- The fuel is the number of rounds that are left.
pub put_digits : ℕ → ℕ → ℕ → Bool → ℕ → Buf → ℕ × Buf
put_digits zero u base upcase p buf = (p, buf)
put_digits (suc n) u base upcase p buf =
    let buf' : Buf = update buf p (digit_char upcase (u % base)) in
    let rest : ℕ × Buf = put_digits n (u / base) base upcase (p + 1) buf' in
    if u / base == 0 then (p + 1, buf') else rest

-- The loop that reverses `buf[begin]` to `buf[end]`, with the rounds that are left.
pub reverse : ℕ → ℕ → ℕ → Buf → Buf
reverse zero begin end buf = buf
reverse (suc n) begin end buf =
    let buf' : Buf = update (update buf begin (buf end)) end (buf begin) in
    let rest : Buf = reverse n (begin + 1) (end - 1) buf' in if leb end begin then buf else rest

-- The sign that stands behind the digits, and its length.
abbrev pub put_sign : Bool → ℕ × Buf → ℕ × Buf
put_sign neg (p, buf) = if neg then (p + 1, update buf p 45) else (p, buf)

-- The padding of the reversed number; with zeros, the sign goes behind them.
abbrev pub pad : Bool → Bool → ℕ → ℕ → ℕ → Buf → Buf
pad neg ladjust padc actual len buf =
    if (neg && not ladjust) && (padc == 48)
    then update (fill (len - 1 - (actual - 1)) (actual - 1) padc buf) (len - 1) 45
    else fill (len - actual) actual padc buf

-- Behind the digits: the sign, the padding, and the reversal. The length, and the buffer.
pub place : Bool → ℕ → Bool → ℕ → ℕ → Buf → ℕ × Buf
place neg width ladjust padc d buf0 =
    let (actual, buf1) = put_sign neg (d, buf0) in
    let len : ℕ = if ltb width actual then actual else width in
    let padc' : ℕ = if ladjust then 32 else padc in
    let buf2 : Buf = pad neg ladjust padc' actual len buf1 in
    let end : ℕ = if ladjust then actual - 1 else len - 1 in (len, reverse len 0 end buf2)

-- `u + 1` rounds are enough for the digits of `u` in a base above 1.
pub print_num : Buf → ℕ → ℕ → Bool → ℕ → Bool → ℕ → Bool → ℕ × Buf
print_num buf u base neg width ladjust padc upcase =
    let (d, buf0) = put_digits (suc u) u base upcase 0 buf in place neg width ladjust padc d buf0
