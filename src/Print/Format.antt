-- ===== src/Print/Format.antt =====
-- `lp_Print` of lib/print.c: the format string, its directives, and the pieces of output. The two
-- values of `longFlag` read the same 32 bits, and `prec` is never used; both are only skipped.
pub mod Rounds
use buaa_mips_os.Base.{
  ◌++◌, ℕ, zero, suc, ◌+◌, ◌-◌, ◌*◌, ◌/◌, ◌%◌, ◌≤◌, ◌<◌, ◌≡◌, refl, Bool, true, false, not, ◌&&◌,
  ◌||◌, Option, none, some, List, [], ◌∷◌, ◌==◌, ltb, leb, if◌then◌else◌, arith, length, contains,
  Bool-cases, inl, inr, ap, ◌∙◌,
}
use buaa_mips_os.Print.{Buf, print_char, print_string, print_num}

-- What `va_arg` gives: 32 bits, or a string.
pub data Arg : Type 0 where
  word : ℕ → Arg
  str : List ℕ → Arg

pub record Spec : Type 0 where
  pub ladjust : Bool
  pub padc : ℕ
  pub width : ℕ

-- LP_MAX_BUF
abbrev lp_max_buf : ℕ
lp_max_buf = 1000

-- The text up to the next '%' or the end, and the rest from there.
pub scan : List ℕ → List ℕ × List ℕ
scan [] = ([], [])
scan (c ∷ fmt) = let (text, rest) = scan fmt in if c == 37 then ([], c ∷ fmt) else (c ∷ text, rest)

-- `if (*fmt == c) fmt++`, and whether it is.
abbrev accept : ℕ → List ℕ → Bool × List ℕ
accept c [] = (false, [])
accept c (x ∷ fmt) = if x == c then (true, fmt) else (false, x ∷ fmt)

abbrev is_digit : ℕ → Bool
is_digit c = leb 48 c && leb c 57

-- `while (IsDigit(*fmt)) n = 10 * n + Ctod(*fmt++)`
abbrev number : ℕ → List ℕ → ℕ × List ℕ
number n [] = (n, [])
number n (c ∷ fmt) =
    let rest : ℕ × List ℕ = number (10 * n + (c - 48)) fmt in
    if is_digit c then rest else (n, c ∷ fmt)

-- `if (*fmt == '.')`, and the digits behind it.
abbrev precision : List ℕ → List ℕ
precision fmt = let (dot, rest) = accept 46 fmt in if dot then (number 0 rest).1 else rest

-- What stands between '%' and the letter of the conversion, and the rest from that letter on.
pub directive : List ℕ → Spec × List ℕ
directive fmt =
    let (long_flag, fmt1) = accept 108 fmt in
    let (ladjust, fmt2) = accept 45 fmt1 in
    let (zeros, fmt3) = accept 48 fmt2 in
    let (width, fmt4) = number 0 fmt3 in
    (record { ladjust = ladjust; padc = if zeros then 48 else 32; width = width }, precision fmt4)

-- The first `n` bytes of a buffer.
pub bytes : ℕ → Buf → List ℕ
bytes zero buf = []
bytes (suc n) buf = buf 0 ∷ bytes n (λ i. buf (i + 1))

-- OUTPUT: one piece, or the endless loop behind "fatal error", which is `none`.
pub output : ℕ × Buf → Option (List ℕ × Buf)
output (len, buf) = if ltb lp_max_buf len then none else some (bytes len buf, buf)

-- `num < 0` and `-num` on 32 bits.
abbrev negative : ℕ → Bool
negative n = leb 0x8000_0000 n

abbrev magnitude : ℕ → ℕ
magnitude n = if negative n then (0x1_0000_0000 - n) % 0x1_0000_0000 else n

-- One number, by the letter of its conversion.
pub put_word : Buf → Spec → ℕ → ℕ → ℕ × Buf
put_word buf s c n =
    if c == 98
    then print_num buf n 2 false s.width s.ladjust s.padc false
    else if (c == 100) || (c == 68)
    then print_num buf (magnitude n) 10 (negative n) s.width s.ladjust s.padc false
    else if (c == 111) || (c == 79)
    then print_num buf n 8 false s.width s.ladjust s.padc false
    else if (c == 117) || (c == 85)
    then print_num buf n 10 false s.width s.ladjust s.padc false
    else print_num buf n 16 false s.width s.ladjust s.padc (c == 88)

-- The letters of numbers: b d D o O u U x X.
abbrev number_letters : List ℕ
number_letters = 98 ∷ 100 ∷ 68 ∷ 111 ∷ 79 ∷ 117 ∷ 85 ∷ 120 ∷ 88 ∷ []

-- The switch for a letter that takes an argument: the buffer with what is printed in it. An argument
-- of another kind is `none`.
pub convert : Buf → Spec → ℕ → Arg → Option (ℕ × Buf)
convert buf s c (word n) =
    if contains number_letters c
    then some (put_word buf s c n)
    else if c == 99
    then some (print_char buf (n % 256) s.width s.ladjust)
    else none
convert buf s c (str t) = if c == 115 then some (print_string buf t s.width s.ladjust) else none

abbrev takes_argument : ℕ → Bool
takes_argument c = contains number_letters c || ((c == 99) || (c == 115))

-- One directive behind its '%': the piece, the buffer, and the arguments that are left.
pub step : Buf → Spec → ℕ → List Arg → Option (List ℕ × Buf × List Arg)
step buf s c args = if not (takes_argument c) then some (c ∷ [], buf, args) else elim args [
  | [] ↦ none
  | a ∷ rest ↦ elim (convert buf s c a) [
    | none ↦ none
    | some printed ↦ elim (output printed) [ none ↦ none | some (piece, b) ↦ some (piece, b, rest) ]
  ]
]

-- The text before a directive.
abbrev text_piece : List ℕ → Option (List ℕ)
text_piece text = if ltb lp_max_buf (length text) then none else some text

abbrev prepend : List (List ℕ) → Option (List (List ℕ)) → Option (List (List ℕ))
prepend pieces rest = elim rest [ none ↦ none | some more ↦ some (pieces ++ more) ]

-- What the rest of the loop prints.
abbrev pub Rest : Type 0
Rest = Buf → List ℕ → List Arg → Option (List (List ℕ))

-- The rest of a round behind the switch, behind the prefixes, and behind the text.
pub after_switch :
    Rest → List ℕ → List ℕ → Option (List ℕ × Buf × List Arg) → Option (List (List ℕ))
after_switch k piece fmt none = none
after_switch k piece fmt (some (converted, buf, args)) =
    prepend (piece ∷ converted ∷ []) (k buf fmt args)

pub after_prefixes : Rest → List ℕ → Buf → Spec → List ℕ → List Arg → Option (List (List ℕ))
after_prefixes k piece buf s [] args = prepend (piece ∷ []) (k buf [] args)
after_prefixes k piece buf s (c ∷ fmt) args = after_switch k piece fmt (step buf s c args)

pub after_text : Rest → List ℕ → Buf → List ℕ → List Arg → Option (List (List ℕ))
after_text k piece buf [] args = some (piece ∷ (0 ∷ []) ∷ [])
after_text k piece buf (percent ∷ fmt) args =
    let (s, rest) = directive fmt in after_prefixes k piece buf s rest args

-- The loop, with the rounds left: all pieces of output, the last one the special termination call.
pub print_loop : ℕ → Rest
print_loop zero buf fmt args = none
print_loop (suc n) buf fmt args =
    let (text, rest) = scan fmt in
    elim (text_piece text) [
      | none ↦ none
      | some piece ↦ after_text (print_loop n) piece buf rest args
    ]

-- Every round but the last takes a '%' out of the format.
pub lp_print : Buf → List ℕ → List Arg → Option (List (List ℕ))
lp_print buf fmt args = print_loop (suc (length fmt)) buf fmt args
