-- ===== src/Print/Format/Rounds.antt =====
-- `lp_Print`: plain text comes out as it is, and the rounds that the model allows are enough.
use buaa_mips_os.Base.{
  Option-cases, ℕ, zero, suc, ◌+◌, ◌-◌, ◌*◌, ◌≤◌, ◌<◌, ◌≡◌, refl, false, Option, none, some, List,
  [], ◌∷◌, ◌==◌, ltb, arith, length, contains, Bool-cases, inl, inr,
}
use buaa_mips_os.Print.{Buf}
use buaa_mips_os.Print.Format.{
  text_piece, step, Spec, is_digit, Rest, accept, precision, number, after_prefixes, after_switch,
  after_text, Arg, scan, print_loop, lp_print, directive,
}

scan-plain : (fmt : List ℕ) → contains fmt 37 ≡ false → scan fmt ≡ (fmt, [])
unfolding scan
scan-plain [] h = refl
scan-plain (c ∷ fmt) h =
    let other : (c == 37) ≡ false = ground arith in rw (other, scan-plain fmt (ground arith)) refl

scan-length : (fmt : List ℕ) → length (scan fmt).1 ≤ length fmt
unfolding scan
scan-length [] = omega arith
scan-length (c ∷ fmt) = elim (Bool-cases (c == 37)) [
  | inl here ↦ rw here (omega arith)
  | inr other ↦ rw other (omega (arith, scan-length fmt))
]

accept-length : (c : ℕ) (fmt : List ℕ) → length (accept c fmt).1 ≤ length fmt
accept-length c [] = omega arith
accept-length c (x ∷ fmt) = elim (Bool-cases (x == c)) [
  | inl here ↦ rw here (omega arith)
  | inr other ↦ rw other (omega arith)
]

number-length : (n : ℕ) (fmt : List ℕ) → length (number n fmt).1 ≤ length fmt
number-length n [] = omega arith
number-length n (c ∷ fmt) = elim (Bool-cases (is_digit c)) [
  | inl digit ↦ rw digit (omega (arith, number-length (10 * n + (c - 48)) fmt))
  | inr other ↦ rw other (omega arith)
]

precision-length : (fmt : List ℕ) → length (precision fmt) ≤ length fmt
precision-length fmt =
    let (dot, rest) = accept 46 fmt in
    elim (Bool-cases dot) [
      | inl yes' ↦ rw yes' (omega (arith, number-length 0 rest, accept-length 46 fmt))
      | inr no' ↦ rw no' (accept-length 46 fmt)
    ]

directive-length : (fmt : List ℕ) → length (directive fmt).1 ≤ length fmt
unfolding directive
directive-length fmt =
    let (a, fmt1) = accept 108 fmt in
    let (b, fmt2) = accept 45 fmt1 in
    let (c, fmt3) = accept 48 fmt2 in
    let (d, fmt4) = number 0 fmt3 in
    omega (
      arith,
      accept-length 108 fmt,
      accept-length 45 fmt1,
      accept-length 48 fmt2,
      number-length 0 fmt3,
      precision-length fmt4,
    )

-- A format without '%' is printed as it is, in one piece, and then the termination call is made.
lp_print-plain :
    (buf : Buf) (fmt : List ℕ) (args : List Arg)
    → contains fmt 37 ≡ false
    → length fmt ≤ 1000
    → lp_print buf fmt args ≡ some (fmt ∷ (0 ∷ []) ∷ [])
unfolding lp_print print_loop after_text
lp_print-plain buf fmt args h small =
    let fits : ltb 1000 (length fmt) ≡ false = ground arith in
    rw (lp_print, print_loop, scan-plain fmt h, fits) (rw (scan-plain fmt h) refl)

after_switch-agree :
    (k k' : Rest) (n : ℕ) (piece fmt : List ℕ) (r : Option (List ℕ × Buf × List Arg))
    → ((buf : Buf) (fmt : List ℕ) (args : List Arg)
        → length fmt < n
        → k buf fmt args ≡ k' buf fmt args)
    → length fmt < n
    → after_switch k piece fmt r ≡ after_switch k' piece fmt r
unfolding after_switch
after_switch-agree k k' n piece fmt none h lt = refl
after_switch-agree k k' n piece fmt (some (c, b, args)) h lt = rw (h b fmt args lt) refl

after_prefixes-agree :
    (k k' : Rest) (n : ℕ) (piece : List ℕ) (buf : Buf) (s : Spec) (fmt : List ℕ) (args : List Arg)
    → ((buf : Buf) (fmt : List ℕ) (args : List Arg)
        → length fmt < n
        → k buf fmt args ≡ k' buf fmt args)
    → length fmt ≤ n
    → 0 < n
    → after_prefixes k piece buf s fmt args ≡ after_prefixes k' piece buf s fmt args
unfolding after_prefixes
after_prefixes-agree k k' n piece buf s [] args h le pos = rw (h buf [] args pos) refl
after_prefixes-agree k k' n piece buf s (c ∷ fmt) args h le pos =
    after_switch-agree k k' n piece fmt (step buf s c args) h (omega arith)

after_text-agree :
    (k k' : Rest) (n : ℕ) (piece : List ℕ) (buf : Buf) (fmt : List ℕ) (args : List Arg)
    → ((buf : Buf) (fmt : List ℕ) (args : List Arg)
        → length fmt < n
        → k buf fmt args ≡ k' buf fmt args)
    → length fmt ≤ n
    → after_text k piece buf fmt args ≡ after_text k' piece buf fmt args
unfolding after_text
after_text-agree k k' n piece buf [] args h le = refl
after_text-agree k k' n piece buf (p ∷ fmt) args h le =
    after_prefixes-agree k k' n piece buf (directive fmt).0 (directive fmt).1 args h
      (omega (arith, directive-length fmt)) (omega arith)

-- Each round shortens the format, so that the loop ends: from one round more than the format is
-- long, more rounds print the same.
print_loop-enough :
    (n m : ℕ) (buf : Buf) (fmt : List ℕ) (args : List Arg)
    → length fmt < n
    → length fmt < m
    → print_loop n buf fmt args ≡ print_loop m buf fmt args
unfolding print_loop
print_loop-enough zero m buf fmt args p q = absurd (omega arith)
print_loop-enough (suc n) zero buf fmt args p q = absurd (omega arith)
print_loop-enough (suc n) (suc m) buf fmt args p q = elim (Option-cases (text_piece (scan fmt).0)) [
  | inl e ↦ rw (print_loop, e) refl
  | inr (piece, e) ↦
      rw (print_loop, e)
        (after_text-agree (print_loop n) (print_loop m) (length fmt) piece buf (scan fmt).1 args
          (λ b f a l. print_loop-enough n m b f a (omega arith) (omega arith)) (scan-length fmt))
]
