-- ===== src/Shell.antt =====
-- user/sh.c: the tokens of a command line, and how `runcmd` reads a command from them. A string is the
-- list of its characters; the NULs that the lexer writes behind the words stand outside the tokens.
pub mod Words
mod Tests
use buaa_mips_os.Base.{
  ℕ, zero, suc, ◌+◌, Bool, true, false, not, ◌&&◌, ◌||◌, Option, none, some, List, [], ◌∷◌, ◌++◌,
  ◌==◌, leb, contains, if◌then◌else◌, length,
}

-- WHITESPACE and SYMBOLS
abbrev pub whitespace : List ℕ
whitespace = 32 ∷ 9 ∷ 13 ∷ 10 ∷ []

abbrev pub symbols : List ℕ
symbols = b'<' ∷ b'|' ∷ b'>' ∷ b'&' ∷ b';' ∷ b'(' ∷ b')' ∷ []

pub data Token : Type 0 where
  end : Token
  symbol : ℕ → Token
  word : List ℕ → Token

-- `while (strchr(WHITESPACE, *s)) s++`
pub skip_whitespace : List ℕ → List ℕ
skip_whitespace [] = []
skip_whitespace (c ∷ s) =
    let rest = skip_whitespace s in if contains whitespace c then rest else c ∷ s

abbrev pub is_separator : ℕ → Bool
is_separator c = contains whitespace c || contains symbols c

-- The loop over the characters of a word, and the string behind it.
pub scan_word : List ℕ → List ℕ × List ℕ
scan_word [] = ([], [])
scan_word (c ∷ s) =
    let rest : List ℕ × List ℕ = (c ∷ (scan_word s).0, (scan_word s).1) in
    if is_separator c then ([], c ∷ s) else rest

-- _gettoken behind the whitespace: the token, and the string behind it.
pub token_at : List ℕ → Token × List ℕ
token_at [] = (end, [])
token_at (c ∷ s) =
    if contains symbols c
    then (symbol c, s)
    else (word (scan_word (c ∷ s)).0, (scan_word (c ∷ s)).1)

pub gettoken : List ℕ → Token × List ℕ
gettoken s = token_at (skip_whitespace s)

-- The tokens that successive calls of `gettoken` give before the end; a call for each character is
-- enough.
abbrev pub add_token : Token → List Token → List Token
add_token end ts = []
add_token t ts = t ∷ ts

pub tokens_within : ℕ → List ℕ → List Token
tokens_within zero s = []
tokens_within (suc n) s = let rest = tokens_within n (gettoken s).1 in add_token (gettoken s).0 rest

pub tokens : List ℕ → List Token
tokens s = tokens_within (length s) s

-- `<` and `>` with a file: open it, duplicate it onto descriptor 0 or 1, and close it.
pub data Redirect : Type 0 where
  input : List ℕ → Redirect
  output : List ℕ → Redirect

-- What `runcmd` comes to behind the redirections: the command to run; nothing, where there is no word; a store
-- of the 0 behind the last argument to one place behind `argv`, where it is full; the left side of a pipe, which
-- is one of these, with the tokens of the right side; or `exit` after an error.
pub data Command : Type 0 where
  run : List (List ℕ) → List Redirect → Command
  nothing : List Redirect → Command
  overrun : List (List ℕ) → List Redirect → Command
  pipe : Command → List Token → Command
  too_many : Command
  no_file : Command

abbrev pub maxargs : ℕ
maxargs = 16

-- The code from `runit` on, up to the call of `spawn`.
pub run_it : List (List ℕ) → List Redirect → Command
run_it argv redirects =
    if length argv == 0
    then nothing redirects
    else if length argv == maxargs
    then overrun argv redirects
    else run argv redirects

-- The loop of `runcmd` from `again` on; `argv` are the arguments so far.
pub parse : List (List ℕ) → List Redirect → List Token → Command
parse argv redirects [] = run_it argv redirects
parse argv redirects (end ∷ ts) = run_it argv redirects
parse argv redirects (word w ∷ ts) =
    let rest = parse (argv ++ w ∷ []) redirects ts in
    if length argv == maxargs then too_many else rest
parse argv redirects (symbol c ∷ word w ∷ ts) =
    let ignored = parse argv redirects (word w ∷ ts) in
    let from = parse argv (redirects ++ input w ∷ []) ts in
    let to = parse argv (redirects ++ output w ∷ []) ts in
    if c == b'<'
    then from
    else if c == b'>'
    then to
    else if c == b'|'
    then pipe (run_it argv redirects) (word w ∷ ts)
    else ignored
parse argv redirects (symbol c ∷ ts) =
    let ignored = parse argv redirects ts in
    if (c == b'<') || (c == b'>')
    then no_file
    else if c == b'|'
    then pipe (run_it argv redirects) ts
    else ignored

pub runcmd : List ℕ → Command
runcmd s = parse [] [] (tokens s)
