-- ===== src/Pmap/Vm/Place.antt =====
-- mm/pmap.c: the memory that the boot-time allocator gives out.
use buaa_mips_os.Base.{
  ℕ, ◌+◌, ◌-◌, ◌*◌, ◌%◌, ◌≤◌, ◌<◌, ◌≡◌, refl, Bool, true, false, ◌&&◌, Option, none, some, ◌==◌,
  ltb, leb, if◌then◌else◌, arith,
}
use buaa_mips_os.Base.Words.{u32}
use buaa_mips_os.Kernel.{Kern}
use buaa_mips_os.Pmap.{ulim}
use buaa_mips_os.Pmap.Vm.{maxpa, round_to, clear_words, alloc}

-- Where the next allocation begins to look: at `end` before the first one.
abbrev pub free_from : ℕ → Kern → ℕ
free_from end k = if k.freemem == 0 then end else k.freemem

-- A multiple of the page size, less than a page behind what was given out before.
abbrev pub IsNext : ℕ → ℕ → Type 0
IsNext free chunk = (chunk % 4096 ≡ 0) × (free ≤ chunk) × (chunk < free + 4096)

abbrev pub is_inside : ℕ → ℕ → ℕ → ℕ → Bool
is_inside chunk n p i =
    leb (chunk - ulim) (p * 4096 + i * 4) && ltb (p * 4096 + i * 4) (chunk - ulim + n)

-- What the allocation of `n` bytes does to the state, and where they stand.
abbrev pub AllocSays : ℕ → ℕ → Kern → Option (ℕ × Kern) → Type 0
AllocSays free n k o =
    (chunk : ℕ) × IsNext free chunk
    × (ulim + maxpa ≤ chunk + n → o ≡ none)
    × (chunk + n < ulim + maxpa
        → (k' : Kern) × (o ≡ some (chunk, k'))
          × (k'.freemem ≡ chunk + n)
          × (k'.npage ≡ k.npage)
          × ((p i : ℕ) → k'.mem p i ≡ (if is_inside chunk n p i then 0 else k.mem p i)))

round_to-IsNext : (free : ℕ) → free + 4096 < 0x1_0000_0000 → IsNext free (round_to free 4096)
round_to-IsNext free h = omega arith

-- The boot-time allocator gives the first bytes, from a multiple of the page size on, behind what it gave
-- before, clears them and changes no other memory; it panics exactly where they would reach the end of the
-- memory. The addresses do not wrap around.
pub alloc_lem :
    (end n : ℕ) (k : Kern)
    → ulim ≤ free_from end k
    → free_from end k + n + 4096 < 0x1_0000_0000
    → AllocSays (free_from end k) n k (alloc end n 4096 true k)
unfolding alloc
alloc_lem end n k above fits =
    let free : ℕ = free_from end k in
    let chunk : ℕ = round_to free 4096 in
    let next : IsNext free chunk = round_to-IsNext free (omega (arith, fits)) in
    let k' : Kern = clear_words (chunk - ulim) n (record k { freemem = u32 (chunk + n) }) in
    let sum : u32 (chunk + n) ≡ chunk + n = omega (arith, fits, next) in
    let high : ltb (u32 (chunk + n)) ulim ≡ false = ground (arith, sum, above, next) in
    (
      chunk,
      next,
      λ full.
          let out : leb maxpa (u32 (chunk + n) - ulim) ≡ true = ground (arith, sum, full) in
          rw (high, out) refl,
      λ left.
          let room : leb maxpa (u32 (chunk + n) - ulim) ≡ false =
            ground (arith, sum, left, above, next) in
          (k', rw (high, room) refl, sum, refl, λ p i. refl),
    )

-- The same for one page, where the memory given out ends at page `top`.
abbrev pub new_page : ℕ → Kern → Kern
new_page top k = clear_words (top * 4096) 4096 (record k { freemem = ulim + (top + 1) * 4096 })

pub alloc-page :
    (end top : ℕ) (k : Kern)
    → k.freemem ≡ ulim + top * 4096
    → top + 1 < 0x4000
    → alloc end 4096 4096 true k ≡ some (ulim + top * 4096, new_page top k)
unfolding alloc
alloc-page end top k e room =
    let used : (k.freemem == 0) ≡ false = ground (arith, e) in
    let chunk : round_to k.freemem 4096 ≡ ulim + top * 4096 = omega (arith, e, room) in
    let sum : u32 (ulim + top * 4096 + 4096) ≡ ulim + (top + 1) * 4096 = omega (arith, room) in
    let high : ltb (ulim + (top + 1) * 4096) ulim ≡ false = ground arith in
    let fits : leb maxpa (ulim + (top + 1) * 4096 - ulim) ≡ false = ground (arith, room) in
    let at : ulim + top * 4096 - ulim ≡ top * 4096 = omega arith in
    rw (used, chunk, sum, high, fits, at) refl
