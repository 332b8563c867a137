-- ===== src/Copy/Bytes.antt =====
-- init/init.c, user/fork.c: what the copies do to each byte.
use buaa_mips_os.Base.{
  ℕ, zero, suc, ◌+◌, ◌-◌, ◌≤◌, ◌≡◌, ◌⊎◌, refl, ap, ◌∙◌, inl, inr, true, false, ◌&&◌, Option, some,
  ltb, leb, if◌then◌else◌, update, arith, Bool-cases,
}
use buaa_mips_os.Copy.{
  copy_word, is_aligned, copy_bytes, copy_words, bcopy, user_bcopy, zero_bytes, zero_words, bzero,
  user_bzero,
}

-- The memory with `len` bytes from `src` on at `dst`, and all else as it was.
abbrev pub moved : ℕ → ℕ → ℕ → (ℕ → ℕ) → ℕ → ℕ
moved src dst len mem a = if leb dst a && ltb a (dst + len) then mem (a - dst + src) else mem a

abbrev pub Apart : ℕ → ℕ → ℕ → Type 0
Apart src dst len = (dst + len ≤ src) ⊎ (src + len ≤ dst)

copy_bytes_lem :
    (n dst src : ℕ) (mem : ℕ → ℕ)
    → Apart src dst n
    → (a : ℕ) → copy_bytes n dst src mem a ≡ moved src dst n mem a
unfolding copy_bytes
copy_bytes_lem zero dst src mem apart a = ground arith
copy_bytes_lem (suc n) dst src mem apart a =
    grind (arith, copy_bytes_lem n (dst + 1) (src + 1) (update mem dst (mem src)) (ground arith) a)

copy_word-moved :
    (dst src : ℕ) (mem : ℕ → ℕ)
    → Apart src dst 4
    → (a : ℕ) → copy_word dst src mem a ≡ moved src dst 4 mem a
unfolding copy_word
copy_word-moved dst src mem apart a = grind arith

-- A copy and then a copy behind it.
moved-moved :
    (src dst n : ℕ) (mem mem' : ℕ → ℕ)
    → Apart src dst (suc (suc (suc (suc n))))
    → ((a : ℕ) → mem' a ≡ moved src dst 4 mem a)
    → (a : ℕ) → moved (src + 4) (dst + 4) n mem' a ≡ moved src dst (suc (suc (suc (suc n)))) mem a
moved-moved src dst n mem mem' apart h a =
    elim (Bool-cases (leb (dst + 4) a && ltb a (dst + 4 + n))) [
      | inl e ↦
          let x : ℕ = a - (dst + 4) + (src + 4) in
          let whole : (leb dst a && ltb a (dst + suc (suc (suc (suc n))))) ≡ true =
            ground (arith, e) in
          let out : (leb dst x && ltb x (dst + 4)) ≡ false = ground (arith, e, apart) in
          let at : a - (dst + 4) + (src + 4) ≡ a - dst + src = ground (arith, e) in
          rw (e, whole) (h x ∙ rw out (ap mem at))
      | inr e ↦ rw e (
          h a ∙ elim (Bool-cases (leb dst a && ltb a (dst + 4))) [
            | inl f ↦
                let whole : (leb dst a && ltb a (dst + suc (suc (suc (suc n))))) ≡ true =
                  ground (arith, f) in
                rw (f, whole) refl
            | inr f ↦
                let beyond : (leb dst a && ltb a (dst + suc (suc (suc (suc n))))) ≡ false =
                  ground (arith, e, f) in
                rw (f, beyond) refl
          ])
    ]

abbrev pub IsMoved : ℕ → ℕ → ℕ → (ℕ → ℕ) → Option (ℕ → ℕ) → Type 0
IsMoved src dst len mem r =
    (mem' : ℕ → ℕ) × (r ≡ some mem') × ((a : ℕ) → mem' a ≡ moved src dst len mem a)

copy_words_lem :
    (n dst src : ℕ) (mem : ℕ → ℕ)
    → (is_aligned src && is_aligned dst) ≡ true
    → Apart src dst n
    → IsMoved src dst n mem (copy_words n dst src mem)
unfolding copy_words
copy_words_lem zero dst src mem k apart =
    (copy_bytes 0 dst src mem, refl, copy_bytes_lem 0 dst src mem apart)
copy_words_lem (suc zero) dst src mem k apart =
    (copy_bytes 1 dst src mem, refl, copy_bytes_lem 1 dst src mem apart)
copy_words_lem (suc (suc zero)) dst src mem k apart =
    (copy_bytes 2 dst src mem, refl, copy_bytes_lem 2 dst src mem apart)
copy_words_lem (suc (suc (suc zero))) dst src mem k apart =
    (copy_bytes 3 dst src mem, refl, copy_bytes_lem 3 dst src mem apart)
copy_words_lem (suc (suc (suc (suc n)))) dst src mem k apart =
    let (mem', ran, all) =
      copy_words_lem n (dst + 4) (src + 4) (copy_word dst src mem) (ground (arith, k))
        (ground (arith, apart)) in
    (
      mem',
      rw k ran,
      λ a.
          all a
          ∙ moved-moved src dst n mem (copy_word dst src mem) apart
              (copy_word-moved dst src mem (ground (arith, apart))) a,
    )

-- For areas that do not overlap, `user_bcopy` always returns, and so does `bcopy` where both addresses
-- are multiples of 4: the bytes at `dst` are then those that stood at `src`, and no other byte has
-- changed.
pub bcopy_lem :
    (src dst len : ℕ) (mem : ℕ → ℕ)
    → Apart src dst len
    → IsMoved src dst len mem (user_bcopy src dst len mem)
      × ((is_aligned src && is_aligned dst) ≡ true
          → IsMoved src dst len mem (bcopy src dst len mem))
unfolding user_bcopy bcopy
bcopy_lem src dst len mem apart = (
  elim (Bool-cases (is_aligned src && is_aligned dst)) [
    | inl k ↦ rw k (copy_words_lem len dst src mem k apart)
    | inr k ↦ rw k (copy_bytes len dst src mem, refl, copy_bytes_lem len dst src mem apart)
  ],
  λ k. copy_words_lem len dst src mem k apart,
)

copy_words-returns :
    (n dst src : ℕ) (mem : ℕ → ℕ)
    → (is_aligned src && is_aligned dst) ≡ true
    → (mem' : ℕ → ℕ) × (copy_words n dst src mem ≡ some mem')
unfolding copy_words
copy_words-returns zero dst src mem k = (copy_bytes 0 dst src mem, refl)
copy_words-returns (suc zero) dst src mem k = (copy_bytes 1 dst src mem, refl)
copy_words-returns (suc (suc zero)) dst src mem k = (copy_bytes 2 dst src mem, refl)
copy_words-returns (suc (suc (suc zero))) dst src mem k = (copy_bytes 3 dst src mem, refl)
copy_words-returns (suc (suc (suc (suc n)))) dst src mem k =
    let next : (is_aligned (src + 4) && is_aligned (dst + 4)) ≡ true = ground (arith, k) in
    rw k (copy_words-returns n (dst + 4) (src + 4) (copy_word dst src mem) next)

-- Areas that overlap included.
pub user_bcopy-returns :
    (src dst len : ℕ) (mem : ℕ → ℕ) → (mem' : ℕ → ℕ) × (user_bcopy src dst len mem ≡ some mem')
unfolding user_bcopy
user_bcopy-returns src dst len mem = elim (Bool-cases (is_aligned src && is_aligned dst)) [
  | inl k ↦ rw k (copy_words-returns len dst src mem k)
  | inr k ↦ rw k (copy_bytes len dst src mem, refl)
]

-- The memory with zeros from `b` on.
abbrev pub zeroed : ℕ → ℕ → (ℕ → ℕ) → ℕ → ℕ
zeroed b n mem a = if leb b a && ltb a (b + n) then 0 else mem a

zero_bytes_lem : (n b : ℕ) (mem : ℕ → ℕ) (a : ℕ) → zero_bytes n b mem a ≡ zeroed b n mem a
unfolding zero_bytes
zero_bytes_lem zero b mem a = ground arith
zero_bytes_lem (suc n) b mem a = grind (arith, zero_bytes_lem n (b + 1) (update mem b 0) a)

abbrev zero_word : ℕ → (ℕ → ℕ) → ℕ → ℕ
zero_word b mem = update (update (update (update mem b 0) (b + 1) 0) (b + 2) 0) (b + 3) 0

zero_word-zeroed : (b : ℕ) (mem : ℕ → ℕ) (a : ℕ) → zero_word b mem a ≡ zeroed b 4 mem a
zero_word-zeroed b mem a = ground arith

zeroed-zeroed :
    (b n : ℕ) (mem mem' : ℕ → ℕ) (a : ℕ)
    → mem' a ≡ zeroed b 4 mem a
    → zeroed (b + 4) n mem' a ≡ zeroed b (suc (suc (suc (suc n)))) mem a
zeroed-zeroed b n mem mem' a h = ground arith

-- What `bzero` of `n` bytes gives.
abbrev pub IsZeroed : ℕ → ℕ → (ℕ → ℕ) → Option (ℕ → ℕ) → Type 0
IsZeroed b n mem r = (mem' : ℕ → ℕ) × (r ≡ some mem') × ((a : ℕ) → mem' a ≡ zeroed b n mem a)

zero_words_lem :
    (n b : ℕ) (mem : ℕ → ℕ) → is_aligned b ≡ true → IsZeroed b n mem (zero_words n b mem)
unfolding zero_words
zero_words_lem zero b mem k = (zero_bytes 0 b mem, refl, zero_bytes_lem 0 b mem)
zero_words_lem (suc zero) b mem k = (zero_bytes 1 b mem, refl, zero_bytes_lem 1 b mem)
zero_words_lem (suc (suc zero)) b mem k = (zero_bytes 2 b mem, refl, zero_bytes_lem 2 b mem)
zero_words_lem (suc (suc (suc zero))) b mem k = (zero_bytes 3 b mem, refl, zero_bytes_lem 3 b mem)
zero_words_lem (suc (suc (suc (suc n)))) b mem k =
    let (mem', ran, all) = zero_words_lem n (b + 4) (zero_word b mem) (ground (arith, k)) in
    (
      mem',
      rw k ran,
      λ a. all a ∙ zeroed-zeroed b n mem (zero_word b mem) a (zero_word-zeroed b mem a),
    )

-- `bzero` at a multiple of 4 returns, and does the same as `user_bzero`: zeros in the area, and no other
-- byte changed.
bzero_lem :
    (b n : ℕ) (mem : ℕ → ℕ)
    → is_aligned b ≡ true
    → IsZeroed b n mem (bzero b n mem) × IsZeroed b n mem (some (user_bzero b n mem))
unfolding bzero user_bzero
bzero_lem b n mem k = (zero_words_lem n b mem k, (zero_bytes n b mem, refl, zero_bytes_lem n b mem))
