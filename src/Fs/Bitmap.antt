-- ===== src/Fs/Bitmap.antt =====
-- The bitmap of free blocks: `free_block` and `alloc_block_num`.
use buaa_mips_os.Base.{
  ℕ, zero, suc, ◌+◌, ◌-◌, ◌*◌, ◌/◌, ◌%◌, ◌≤◌, ◌<◌, ◌≡◌, ◌≢◌, ◌⊎◌, refl, Bool, true, false, ◌&&◌,
  Option, none, some, ◌==◌, leb, if◌then◌else◌, arith, update, Bool-cases, inl, inr, ap, ◌∙◌, sym,
}
use mathlib.Core.Path.{subst}
use buaa_mips_os.Fs.{
  block_is_dirty, Server, Code, ok, fail, F, ◌>>=◌, ◌>>◌, e_no_disk, beyond, diskaddr,
  block_is_mapped, bit, set_bit, clear_bit, bitmap_at, set_bitmap, is_free_bit, free_block,
  write_block, search, alloc_block_num,
}

bit-set_bit : (w k j : ℕ) → bit (set_bit w k) j ≡ (if j == k then 1 else bit w j)
bit-set_bit w zero zero = omega arith
bit-set_bit w zero (suc j) =
    let e : (w - w % 2 + 1) / 2 ≡ w / 2 = omega arith in rw e (ground arith)
bit-set_bit w (suc k) zero = ground arith
bit-set_bit w (suc k) (suc j) =
    let e : (set_bit (w / 2) k * 2 + w % 2) / 2 ≡ set_bit (w / 2) k = omega arith in
    rw e (bit-set_bit (w / 2) k j ∙ ground arith)

bit-clear_bit : (w k j : ℕ) → bit (clear_bit w k) j ≡ (if j == k then 0 else bit w j)
bit-clear_bit w zero zero = omega arith
bit-clear_bit w zero (suc j) = let e : (w - w % 2) / 2 ≡ w / 2 = omega arith in rw e (ground arith)
bit-clear_bit w (suc k) zero = ground arith
bit-clear_bit w (suc k) (suc j) =
    let e : (clear_bit (w / 2) k * 2 + w % 2) / 2 ≡ clear_bit (w / 2) k = omega arith in
    rw e (bit-clear_bit (w / 2) k j ∙ ground arith)

bitmap_at-set_bitmap :
    (i w : ℕ) (s : Server) (j : ℕ)
    → bitmap_at (set_bitmap i w s) j ≡ (if j == i then w else bitmap_at s j)
bitmap_at-set_bitmap i w s j = elim (Bool-cases (j == i)) [
  | inl here ↦ ground arith
  | inr other ↦ ground arith
]

-- One bit is changed, and no other.
changed_bit :
    (s : Server) (b w c v : ℕ)
    → ((j : ℕ) → bit w j ≡ (if j == b % 32 then v else bit (bitmap_at s (b / 32)) j))
    → bit (bitmap_at (set_bitmap (b / 32) w s) (c / 32)) (c % 32)
      ≡ (if c == b then v else bit (bitmap_at s (c / 32)) (c % 32))
changed_bit s b w c v h =
    ap (λ t. bit t (c % 32)) (bitmap_at-set_bitmap (b / 32) w s (c / 32))
    ∙ elim (Bool-cases (c / 32 == b / 32)) [
      | inl same ↦
          let e : c / 32 ≡ b / 32 = ground arith in
          rw same (
            h (c % 32) ∙ elim (Bool-cases (c == b)) [
              | inl here ↦ let f : (c % 32 == b % 32) ≡ true = ground arith in rw (here, f) refl
              | inr other ↦
                  let f : (c % 32 == b % 32) ≡ false = ground arith in rw (other, f) (rw e refl)
            ])
      | inr apart ↦ let f : (c == b) ≡ false = ground arith in rw (apart, f) refl
    ]

freed_bit :
    (s : Server) (b c : ℕ)
    → is_free_bit (set_bitmap (b / 32) (set_bit (bitmap_at s (b / 32)) (b % 32)) s) c
      ≡ (if c == b then true else is_free_bit s c)
freed_bit s b c =
    let w : ℕ = set_bit (bitmap_at s (b / 32)) (b % 32) in
    ap (λ t. t == 1) (changed_bit s b w c 1 (bit-set_bit (bitmap_at s (b / 32)) (b % 32)))
    ∙ elim (Bool-cases (c == b)) [ inl here ↦ rw here refl | inr other ↦ rw other refl ]

taken_bit :
    (s : Server) (b c : ℕ)
    → is_free_bit (set_bitmap (b / 32) (clear_bit (bitmap_at s (b / 32)) (b % 32)) s) c
      ≡ (if c == b then false else is_free_bit s c)
taken_bit s b c =
    let w : ℕ = clear_bit (bitmap_at s (b / 32)) (b % 32) in
    ap (λ t. t == 1) (changed_bit s b w c 0 (bit-clear_bit (bitmap_at s (b / 32)) (b % 32)))
    ∙ elim (Bool-cases (c == b)) [ inl here ↦ rw here refl | inr other ↦ rw other refl ]

abbrev pub Gives : {A : Type 0} → (A → Server → Type 0) → Option (A × Server) → Type 0
Gives P none = ⊥
Gives P (some (a, s)) = P a s

pub Gives-weaken :
    {A : Type 0} {P : A → Server → Type 0} (Q : A → Server → Type 0) (r : Option (A × Server))
    → Gives P r
    → ((a : A) (s : Server) → P a s → Q a s)
    → Gives Q r
Gives-weaken Q none h weaken = h
Gives-weaken Q (some (a, s)) h weaken = weaken a s h

-- Code in sequence.
pub Gives-bind :
    {A B : Type 0} {P : A → Server → Type 0} (Q : B → Server → Type 0) (r : Option (A × Server))
    (f : A → F B)
    → Gives P r
    → ((a : A) (s : Server) → P a s → Gives Q (f a s))
    → Gives Q (elim r [ none ↦ none | some (a, s) ↦ f a s ])
Gives-bind Q none f h next = h
Gives-bind Q (some (a, s)) f h next = next a s h

-- `free_block` of a block but 0 marks it free; every other block is as free as before, and the disk
-- and the cache are left alone.
pub free_block_lem :
    (s : Server) (b : ℕ)
    → b ≢ 0
    → Gives
        (λ _ s'.
          ((c : ℕ) → is_free_bit s' c ≡ (if c == b then true else is_free_bit s c))
          × (s'.mapped ≡ s.mapped)
          × (s'.disk ≡ s.disk))
        (free_block b s)
unfolding free_block
free_block_lem s b ne = let f : (b == 0) ≡ false = ground arith in rw f (freed_bit s b, refl, refl)

-- The state in which block `c` is taken and block 0 is written.
abbrev taken : Server → ℕ → Server
taken s c =
    let s1 : Server = set_bitmap (c / 32) (clear_bit (bitmap_at s (c / 32)) (c % 32)) s in
    record s1 { disk = update s1.disk (c / 0x8000) (s1.mem (c / 0x8000)) }

pub beyond-some : (s : Server) (n b : ℕ) → s.super ≡ some n → beyond s b ≡ leb n b
beyond-some s n b sup = ap (λ o. elim o [ none ↦ false | some n ↦ leb n b ]) sup

pub diskaddr-ok : (s : Server) (b : ℕ) → beyond s b ≡ false → diskaddr b s ≡ some (b, s)
unfolding diskaddr
diskaddr-ok s b in' = rw in' refl

write_block-ok :
    (s : Server) (b : ℕ)
    → beyond s b ≡ false
    → s.mapped b ≡ true
    → write_block b s ≡ some (tt, record s { disk = update s.disk b (s.mem b) })
unfolding write_block block_is_mapped
write_block-ok s b in' m = rw (diskaddr-ok s b in', ◌>>=◌, m) (rw (diskaddr-ok s b in', ◌>>=◌) refl)

-- What the search from `b` over `n` blocks gives: the first free one, which is taken, or none.
abbrev Found : Server → ℕ → ℕ → Code → Server → Type 0
Found s n b r s' =
    ((r ≡ fail e_no_disk) × (s' ≡ s) × ((c : ℕ) → b ≤ c → c < b + n → is_free_bit s c ≡ false))
    ⊎ ((c : ℕ) × (r ≡ ok c)
        × (b ≤ c)
        × (c < b + n)
        × (is_free_bit s c ≡ true)
        × ((d : ℕ) → b ≤ d → d < c → is_free_bit s d ≡ false)
        × (s' ≡ taken s c))

-- A block in front that is not free.
Found-behind :
    (s : Server) (n b : ℕ)
    → is_free_bit s b ≡ false
    → (r : Code) (s' : Server) → Found s n (b + 1) r s'
    → Found s (suc n) b r s'
Found-behind s n b used r s' (inl (e, same, none')) = inl (
  e,
  same,
  λ c le lt. elim (Bool-cases (c == b)) [
    | inl here ↦ let at : c ≡ b = ground arith in rw at used
    | inr other ↦ none' c (ground arith) (omega arith)
  ],
)
Found-behind s n b used r s' (inr (c, e, le, lt, free, before, same)) = inr (
  c,
  e,
  omega arith,
  omega arith,
  free,
  (λ d l l'. elim (Bool-cases (d == b)) [
    | inl here ↦ let at : d ≡ b = ground arith in rw at used
    | inr other ↦ before d (ground arith) l'
  ]),
  same,
)

search_lem :
    (n b : ℕ) (s : Server)
    → ((c : ℕ) → c < b + n → beyond s (c / 0x8000) ≡ false)
    → ((c : ℕ) → c < b + n → s.mapped (c / 0x8000) ≡ true)
    → Gives (Found s n b) (search n b s)
unfolding search
search_lem zero b s in' m = inl (refl, refl, λ c le lt. absurd (omega arith))
search_lem (suc n) b s in' m = elim (Bool-cases (is_free_bit s b)) [
  | inl free ↦
      let s1 : Server = set_bitmap (b / 32) (clear_bit (bitmap_at s (b / 32)) (b % 32)) s in
      rw free (
        rw (write_block-ok s1 (b / 0x8000) (in' b (omega arith)) (m b (omega arith)), ◌>>=◌, ◌>>◌)
          (inr (b, refl, omega arith, omega arith, free, (λ d le lt. absurd (omega arith)), refl)))
  | inr used ↦ rw used (
      Gives-weaken (Found s (suc n) b) (search n (b + 1) s)
        (search_lem n (b + 1) s (λ c lt. in' c (omega arith)) (λ c lt. m c (omega arith)))
        (Found-behind s n b used))
]

-- What `alloc_block_num` promises on a disk of `n` blocks.
abbrev pub Takes : Server → ℕ → Code → Server → Type 0
Takes s n r s' =
    ((r ≡ fail e_no_disk) × (s' ≡ s) × ((c : ℕ) → 3 ≤ c → c < n → is_free_bit s c ≡ false))
    ⊎ ((c : ℕ) × (r ≡ ok c)
        × (3 ≤ c)
        × (c < n)
        × (is_free_bit s c ≡ true)
        × ((d : ℕ) → 3 ≤ d → d < c → is_free_bit s d ≡ false)
        × ((d : ℕ) → is_free_bit s' d ≡ (if d == c then false else is_free_bit s d))
        × (s'.mapped ≡ s.mapped)
        × ((q : ℕ) → q ≢ 0 → s'.disk q ≡ s.disk q))

Takes-Found :
    (s : Server) (n : ℕ)
    → n ≤ 0x8000
    → (r : Code) (s' : Server) → Found s (n - 3) 3 r s'
    → Takes s n r s'
Takes-Found s n small r s' (inl (e, same, none')) =
    inl (e, same, λ c le lt. none' c le (omega arith))
Takes-Found s n small r s' (inr (c, e, le, lt, free, before, same)) = inr (
  c,
  e,
  le,
  omega arith,
  free,
  before,
  rw same (taken_bit s c),
  rw same refl,
  (λ q ne.
      let z : c / 0x8000 ≡ 0 = omega arith in
      let other : (q == c / 0x8000) ≡ false = ground arith in rw (same, other) refl),
)

-- On a disk of one bitmap block, with block 0 in the cache, `alloc_block_num` does not panic. It
-- returns the first free block from 3 on, which it marks as used, and no other; it fails with
-- E_NO_DISK, changing nothing, exactly where none of these is free. Of the disk, block 0 alone can
-- change: the bitmap's own block, 2, stays as it was there.
pub alloc_block_num_lem :
    (s : Server) (n : ℕ)
    → s.super ≡ some n
    → 0 < n
    → n ≤ 0x8000
    → s.mapped 0 ≡ true
    → Gives (Takes s n) (alloc_block_num s)
unfolding alloc_block_num
alloc_block_num_lem s n sup pos small m =
    let zero' : (c : ℕ) → c < 3 + (n - 3) → c / 0x8000 ≡ 0 = λ c lt. omega arith in
    let in' : beyond s 0 ≡ false = beyond-some s n 0 sup ∙ ground arith in
    let eq : alloc_block_num s ≡ search (n - 3) 3 s =
      ap (λ o. elim o [ none ↦ none | some n ↦ search (n - 3) 3 s ]) sup in
    subst (λ r. Gives (Takes s n) r) (sym eq)
      (Gives-weaken (Takes s n) (search (n - 3) 3 s)
        (search_lem (n - 3) 3 s (λ c lt. rw (zero' c lt) in') (λ c lt. rw (zero' c lt) m))
        (Takes-Found s n small))

and_false : (b : Bool) → (b && false) ≡ false
and_false true = refl
and_false false = refl

-- `va_is_dirty` is always 0, and so is this.
pub block_is_dirty-never :
    (s : Server) (b : ℕ) → beyond s b ≡ false → block_is_dirty b s ≡ some (false, s)
unfolding block_is_dirty
block_is_dirty-never s b in' =
    rw (diskaddr-ok s b in', ◌>>=◌) (ap (λ d. some (d, s)) (and_false (s.mapped b)))
