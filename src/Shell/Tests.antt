-- ===== src/Shell/Tests.antt =====
-- Runs of the shell's parser, and the instance of what is proved of it.
use buaa_mips_os.Base.{ℕ, ◌≡◌, ◌<◌, refl, List, [], ◌∷◌, length}
use buaa_mips_os.Shell.{
  word, skip_whitespace, scan_word, token_at, gettoken, tokens_within, tokens, input, run, run_it,
  nothing, overrun, pipe, too_many, maxargs, parse, runcmd,
}
use buaa_mips_os.Shell.Words.{line, runcmd-line}

-- "a <b | c"
piped :
    runcmd (b'a' ∷ 32 ∷ b'<' ∷ b'b' ∷ 32 ∷ b'|' ∷ 32 ∷ b'c' ∷ [])
    ≡ pipe (run ((b'a' ∷ []) ∷ []) (input (b'b' ∷ []) ∷ [])) (word (b'c' ∷ []) ∷ [])
unfolding skip_whitespace scan_word token_at gettoken tokens_within tokens run_it parse runcmd
piped = refl

-- "ls" and "x"
abbrev two_words : List (List ℕ)
two_words = (b'l' ∷ b's' ∷ []) ∷ (b'x' ∷ []) ∷ []

runcmd-line_example :
    (0 < length two_words
      → length two_words < maxargs
      → runcmd (line two_words []) ≡ run two_words [])
    × (length two_words ≡ 0 → runcmd (line two_words []) ≡ nothing [])
    × (length two_words ≡ maxargs → runcmd (line two_words []) ≡ overrun two_words [])
    × (maxargs < length two_words → runcmd (line two_words []) ≡ too_many)
runcmd-line_example =
    runcmd-line two_words [] (((λ e. cc, (refl, (refl, tt))), ((λ e. cc, (refl, tt)), tt))) tt
