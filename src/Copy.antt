-- ===== src/Copy.antt =====
-- init/init.c `bcopy` and `bzero`, user/fork.c `user_bcopy` and `user_bzero`: copies by words, then by
-- bytes. Memory is a function from addresses to bytes; the areas do not wrap around the address space.
pub mod Bytes
mod Tests
use buaa_mips_os.Base.{
  ℕ, zero, suc, ◌+◌, ◌%◌, Bool, ◌&&◌, Option, none, some, ◌==◌, if◌then◌else◌, update,
}

-- `*(int *)dst = *(int *)src`: the word is read before it is written. A word at an address that is not a
-- multiple of 4 is an address error, `none`.
pub copy_word : ℕ → ℕ → (ℕ → ℕ) → ℕ → ℕ
copy_word dst src mem =
    update
      (update (update (update mem dst (mem src)) (dst + 1) (mem (src + 1))) (dst + 2)
        (mem (src + 2)))
      (dst + 3) (mem (src + 3))

abbrev pub is_aligned : ℕ → Bool
is_aligned a = a % 4 == 0

-- The loop over bytes, `n` of them left.
pub copy_bytes : ℕ → ℕ → ℕ → (ℕ → ℕ) → ℕ → ℕ
copy_bytes zero dst src mem = mem
copy_bytes (suc n) dst src mem = copy_bytes n (dst + 1) (src + 1) (update mem dst (mem src))

-- The loop over words, `n` bytes left, and the loop over bytes behind it.
pub copy_words : ℕ → ℕ → ℕ → (ℕ → ℕ) → Option (ℕ → ℕ)
copy_words (suc (suc (suc (suc n)))) dst src mem =
    let rest = copy_words n (dst + 4) (src + 4) (copy_word dst src mem) in
    if is_aligned src && is_aligned dst then rest else none
copy_words n dst src mem = some (copy_bytes n dst src mem)

pub bcopy : ℕ → ℕ → ℕ → (ℕ → ℕ) → Option (ℕ → ℕ)
bcopy src dst len mem = copy_words len dst src mem

pub user_bcopy : ℕ → ℕ → ℕ → (ℕ → ℕ) → Option (ℕ → ℕ)
user_bcopy src dst len mem =
    if is_aligned src && is_aligned dst
    then copy_words len dst src mem
    else some (copy_bytes len dst src mem)

-- The loops of `bzero`.
pub zero_bytes : ℕ → ℕ → (ℕ → ℕ) → ℕ → ℕ
zero_bytes zero b mem = mem
zero_bytes (suc n) b mem = zero_bytes n (b + 1) (update mem b 0)

pub zero_words : ℕ → ℕ → (ℕ → ℕ) → Option (ℕ → ℕ)
zero_words (suc (suc (suc (suc n)))) b mem =
    let rest =
      zero_words n (b + 4)
        (update (update (update (update mem b 0) (b + 1) 0) (b + 2) 0) (b + 3) 0) in
    if is_aligned b then rest else none
zero_words n b mem = some (zero_bytes n b mem)

pub bzero : ℕ → ℕ → (ℕ → ℕ) → Option (ℕ → ℕ)
bzero b len mem = zero_words len b mem

pub user_bzero : ℕ → ℕ → (ℕ → ℕ) → ℕ → ℕ
user_bzero v n mem = zero_bytes n v mem
