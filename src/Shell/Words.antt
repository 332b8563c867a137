-- ===== src/Shell/Words.antt =====
-- user/sh.c: a line of words is read as these words.
use buaa_mips_os.Base.{
  ℕ, zero, suc, ◌+◌, ◌≤◌, ◌<◌, ◌≡◌, ◌≢◌, refl, sym, ap, ◌∙◌, Bool, true, false, ◌||◌, List, [], ◌∷◌,
  ◌++◌, ◌==◌, contains, length, length-append, arith, Bool-cases, inl, inr,
}
use mathlib.Core.List.{append-nil, append_assoc}
use buaa_mips_os.Shell.{
  whitespace, symbols, Token, word, skip_whitespace, is_separator, scan_word, token_at, gettoken,
  add_token, tokens_within, tokens, Redirect, run, run_it, nothing, overrun, too_many, maxargs,
  parse, runcmd,
}

-- Characters of words.
abbrev pub Plain : List ℕ → Type 0
Plain [] = Unit {0}
Plain (c ∷ w) = (is_separator c ≡ false) × Plain w

abbrev pub IsWord : List ℕ → Type 0
IsWord w = (w ≢ []) × Plain w

abbrev pub AreWords : List (List ℕ) → Type 0
AreWords [] = Unit {0}
AreWords (w ∷ ws) = IsWord w × AreWords ws

-- Whitespace alone.
abbrev pub IsBlank : List ℕ → Type 0
IsBlank [] = Unit {0}
IsBlank (c ∷ s) = (contains whitespace c ≡ true) × IsBlank s

-- The line: the words with a space between each two, and `tail` behind the last.
abbrev pub line : List (List ℕ) → List ℕ → List ℕ
line [] tail = tail
line (w ∷ []) tail = w ++ tail
line (w ∷ v ∷ ws) tail = w ++ 32 ∷ line (v ∷ ws) tail

abbrev word_tokens : List (List ℕ) → List Token
word_tokens [] = []
word_tokens (w ∷ ws) = word w ∷ word_tokens ws

-- What stands behind a word: the end, or whitespace.
abbrev Ends : List ℕ → Type 0
Ends [] = Unit {0}
Ends (c ∷ s) = contains whitespace c ≡ true

scan_word-Plain : (w s : List ℕ) → Plain w → Ends s → scan_word (w ++ s) ≡ (w, s)
unfolding scan_word
scan_word-Plain [] [] h k = refl
scan_word-Plain [] (c ∷ s) h k = rw k refl
scan_word-Plain (c ∷ w) s h k = rw (h.0, scan_word-Plain w s h.1 k) refl

or_false : (a b : Bool) → (a || b) ≡ false → (a ≡ false) × (b ≡ false)
or_false true b h = absurd (cc)
or_false false b h = (refl, h)

-- A separator is whitespace or a symbol, and a plain character is neither.
plain_head :
    (c : ℕ)
    → is_separator c ≡ false
    → (contains whitespace c ≡ false) × (contains symbols c ≡ false)
plain_head c h = or_false (contains whitespace c) (contains symbols c) h

skip-plain : (c : ℕ) (s : List ℕ) → contains whitespace c ≡ false → skip_whitespace (c ∷ s) ≡ c ∷ s
unfolding skip_whitespace
skip-plain c s h = rw h refl

gettoken-word : (w s : List ℕ) → IsWord w → Ends s → gettoken (w ++ s) ≡ (word w, s)
unfolding gettoken token_at
gettoken-word [] s h k = absurd (h.0 refl)
gettoken-word (c ∷ w) s h k =
    let (blank, sign) = plain_head c h.1.0 in
    rw (skip-plain c (w ++ s) blank, sign, scan_word-Plain (c ∷ w) s h.1 k) refl

gettoken-space : (s : List ℕ) → gettoken (32 ∷ s) ≡ gettoken s
unfolding gettoken skip_whitespace
gettoken-space s = refl

skip-IsBlank : (s : List ℕ) → IsBlank s → skip_whitespace s ≡ []
unfolding skip_whitespace
skip-IsBlank [] h = refl
skip-IsBlank (c ∷ s) h = rw (h.0, skip-IsBlank s h.1) refl

tokens_within-IsBlank : (n : ℕ) (s : List ℕ) → IsBlank s → tokens_within n s ≡ []
unfolding tokens_within gettoken token_at
tokens_within-IsBlank zero s h = refl
tokens_within-IsBlank (suc n) s h = rw (skip-IsBlank s h) refl

tokens_within-space : (n : ℕ) (s : List ℕ) → tokens_within n (32 ∷ s) ≡ tokens_within n s
unfolding tokens_within
tokens_within-space zero s = refl
tokens_within-space (suc n) s = ap (λ t. add_token t.0 (tokens_within n t.1)) (gettoken-space s)

IsBlank-Ends : (s : List ℕ) → IsBlank s → Ends s
IsBlank-Ends [] h = tt
IsBlank-Ends (c ∷ s) h = h.0

-- A word, and what the calls behind it give.
tokens_within-word :
    (n : ℕ) (w s : List ℕ)
    → IsWord w
    → Ends s
    → tokens_within (suc n) (w ++ s) ≡ word w ∷ tokens_within n s
unfolding tokens_within
tokens_within-word n w s h k = ap (λ t. add_token t.0 (tokens_within n t.1)) (gettoken-word w s h k)

tokens_within-line :
    (n : ℕ) (ws : List (List ℕ)) (tail : List ℕ)
    → length ws ≤ n
    → AreWords ws
    → IsBlank tail
    → tokens_within n (line ws tail) ≡ word_tokens ws
tokens_within-line n [] tail k h b = tokens_within-IsBlank n tail b
tokens_within-line zero (w ∷ ws) tail k h b = absurd (omega arith)
tokens_within-line (suc n) (w ∷ []) tail k h b =
    tokens_within-word n w tail h.0 (IsBlank-Ends tail b)
    ∙ ap (λ ts. word w ∷ ts) (tokens_within-IsBlank n tail b)
tokens_within-line (suc n) (w ∷ v ∷ ws) tail k h b =
    tokens_within-word n w (32 ∷ line (v ∷ ws) tail) h.0 refl
    ∙ ap (λ ts. word w ∷ ts)
        (tokens_within-space n (line (v ∷ ws) tail)
          ∙ tokens_within-line n (v ∷ ws) tail (omega arith) h.1 b)

some_char : (w : List ℕ) → w ≢ [] → 0 < length w
some_char [] ne = absurd (ne refl)
some_char (c ∷ w) ne = omega arith

length-line : (ws : List (List ℕ)) (tail : List ℕ) → AreWords ws → length ws ≤ length (line ws tail)
length-line [] tail h = omega arith
length-line (w ∷ []) tail h = omega (arith, some_char w h.0.0, length-append w tail)
length-line (w ∷ v ∷ ws) tail h =
    omega (arith, length-line (v ∷ ws) tail h.1, length-append w (32 ∷ line (v ∷ ws) tail))

tokens-line :
    (ws : List (List ℕ)) (tail : List ℕ)
    → AreWords ws
    → IsBlank tail
    → tokens (line ws tail) ≡ word_tokens ws
unfolding tokens
tokens-line ws tail h b =
    tokens_within-line (length (line ws tail)) ws tail (length-line ws tail h) h b

parse-words :
    (argv ws : List (List ℕ)) (redirects : List Redirect)
    → length argv + length ws ≤ maxargs
    → parse argv redirects (word_tokens ws) ≡ run_it (argv ++ ws) redirects
unfolding parse
parse-words argv [] redirects k = ap (λ a. run_it a redirects) (sym (append-nil argv))
parse-words argv (w ∷ ws) redirects k =
    let space : (length argv == maxargs) ≡ false = ground (arith, k) in
    rw space (
      parse-words (argv ++ w ∷ []) ws redirects (omega (arith, length-append argv (w ∷ [])))
      ∙ ap (λ a. run_it a redirects) (append_assoc argv (w ∷ []) ws))

parse_too_many :
    (argv ws : List (List ℕ)) (redirects : List Redirect)
    → length argv ≤ maxargs
    → maxargs < length argv + length ws
    → parse argv redirects (word_tokens ws) ≡ too_many
unfolding parse
parse_too_many argv [] redirects l k = absurd (omega arith)
parse_too_many argv (w ∷ ws) redirects l k = elim (Bool-cases (length argv == maxargs)) [
  | inl e ↦ rw e refl
  | inr e ↦ rw e (
      parse_too_many (argv ++ w ∷ []) ws redirects
        (let n : length argv ≢ maxargs = ground (arith, e) in
          omega (arith, n, length-append argv (w ∷ [])))
        (omega (arith, length-append argv (w ∷ []))))
]

-- A command line of words with no whitespace and no symbol in them, with a space between each two and
-- any whitespace or none behind the last: from 1 to 15 words are run as the arguments, and with no
-- word nothing is run. More than 16 are refused; 16 are not, and the 0 behind them is stored outside
-- the array.
pub runcmd-line :
    (ws : List (List ℕ)) (tail : List ℕ)
    → AreWords ws
    → IsBlank tail
    → (0 < length ws → length ws < maxargs → runcmd (line ws tail) ≡ run ws [])
      × (length ws ≡ 0 → runcmd (line ws tail) ≡ nothing [])
      × (length ws ≡ maxargs → runcmd (line ws tail) ≡ overrun ws [])
      × (maxargs < length ws → runcmd (line ws tail) ≡ too_many)
unfolding runcmd run_it
runcmd-line ws tail h b =
    let parsed = ap (parse [] []) (tokens-line ws tail h b) in
    (
      λ pos few.
          let a : (length ws == 0) ≡ false = ground (arith, pos) in
          let c : (length ws == maxargs) ≡ false = ground (arith, few) in
          parsed ∙ parse-words [] ws [] (omega arith) ∙ rw (a, c) refl,
      λ none_there.
          let a : (length ws == 0) ≡ true = ground (arith, none_there) in
          parsed ∙ parse-words [] ws [] (omega arith) ∙ rw a refl,
      λ full.
          let a : (length ws == 0) ≡ false = ground (arith, full) in
          let c : (length ws == maxargs) ≡ true = ground (arith, full) in
          parsed ∙ parse-words [] ws [] (omega arith) ∙ rw (a, c) refl,
      λ many. parsed ∙ parse_too_many [] ws [] (omega arith) (omega arith),
    )
