-- ===== src/Env/Load.antt =====
-- lib/env.c `load_icode_mapper`, `load_icode` and `env_create`: a program's image, which stands in the
-- kernel's own memory, becomes the address space of an environment. Sizes are at most 2^32 - 4096, so
-- that the counters of the loops do not wrap around.
pub mod Space
pub mod Step
pub mod Table
pub mod Grow
pub mod Insert
pub mod Round
pub mod Words
pub mod Pages
pub mod Loop
pub mod Behind
pub mod Mapper
pub mod Segments
pub mod Program
mod Tests
use buaa_mips_os.Base.{
  ℕ, zero, suc, ◌+◌, ◌-◌, ◌*◌, ◌/◌, ◌%◌, ◌^◌, not, Option, none, some, ◌==◌, ltb, if◌then◌else◌,
  bit_or, update,
}
use buaa_mips_os.Base.Words.{u32, rounddown}
use buaa_mips_os.Kernel.{Kern, M, pure, panic, ◌>>=◌, ◌>>◌, get, modify, e_no_mem, set_env}
use buaa_mips_os.Pmap.{pte_v, pte_r, incref, page_alloc, page_insert}
use buaa_mips_os.Copy.{bcopy}
use buaa_mips_os.Elf.{Image, Segment, Result, loaded, failed, load_elf}
use buaa_mips_os.Env.{ustacktop, env_alloc}

-- The byte at a physical address. The processor is big-endian.
abbrev pub phys_byte : Kern → ℕ → ℕ
phys_byte k a = k.mem (a / 4096) (a % 4096 / 4) / 2 ^ (8 * (3 - a % 4)) % 256

-- The words of page `pp`, of the bytes `m`.
abbrev pub page_of : (ℕ → ℕ) → ℕ → ℕ → ℕ
page_of m pp i =
    let a : ℕ = pp * 4096 + i * 4 in
    m a * 0x100_0000 + m (a + 1) * 0x1_0000 + m (a + 2) * 0x100 + m (a + 3)

-- `bcopy` from a physical address to the offset `at` of page `pp`, and no further than its end.
pub copy_to_page : ℕ → ℕ → ℕ → ℕ → M (Unit {0})
copy_to_page src pp at len k = elim (bcopy src (pp * 4096 + at) len (phys_byte k)) [
  | none ↦ none
  | some m ↦ some (tt, record k { mem = update k.mem pp (page_of m pp) })
]

pub dir_of : ℕ → M ℕ
dir_of e k = elim (k.envs e).env_pgdir [ none ↦ none | some pgdir ↦ some (pgdir, k) ]

abbrev pub read_write : ℕ
read_write = bit_or pte_v pte_r

-- Both loops end a round with this.
pub insert_page : ℕ → ℕ → ℕ → M ℕ
insert_page e p va = do
  pgdir ← dir_of e
  r ← page_insert pgdir p va read_write
  pure (if r == 0 then 0 else e_no_mem)

abbrev pub minimum : ℕ → ℕ → ℕ
minimum a b = if ltb a b then a else b

-- The copy of the round `i` of step 1, to page `p`.
pub copy_round : (offset bin bin_size i p : ℕ) → M (Unit {0})
copy_round offset bin bin_size i p =
    if i == 0
    then copy_to_page bin p offset (minimum (4096 - offset) (bin_size - i))
    else copy_to_page (bin + i - offset) p 0 (minimum 4096 (bin_size - i))

pub load_round : (e va bin bin_size i : ℕ) → M ℕ
load_round e va bin bin_size i = do
  p ← page_alloc
  elim p [
    | none ↦ pure e_no_mem
    | some p ↦ do
      modify (incref p)
      copy_round (va - rounddown va) bin bin_size i p
      insert_page e p (u32 (va + i))
  ]

-- Step 1, with the rounds that are left.
pub load_pages : (n e va bin bin_size i : ℕ) → M ℕ
load_pages zero e va bin bin_size i = pure 0
load_pages (suc n) e va bin bin_size i = do
  r ← load_round e va bin bin_size i
  if not (r == 0) then pure r else load_pages n e va bin bin_size (i + 4096)

pub blank_round : (e va i : ℕ) → M ℕ
blank_round e va i = do
  p ← page_alloc
  elim p [ none ↦ pure e_no_mem | some p ↦ do modify (incref p); insert_page e p (u32 (va + i)) ]

-- Step 2.
pub blank_pages : (n e va i : ℕ) → M ℕ
blank_pages zero e va i = pure 0
blank_pages (suc n) e va i = do
  r ← blank_round e va i
  if not (r == 0) then pure r else blank_pages n e va (i + 4096)

-- The rounds until a counter has reached a size.
abbrev pub rounds_to : ℕ → ℕ
rounds_to size = (size + 4095) / 4096

-- `binary` is the physical address of the image.
pub load_icode_mapper : ℕ → ℕ → Segment → M ℕ
load_icode_mapper e binary x = do
  r ← load_pages (rounds_to x.bin_size) e x.va (binary + x.bin) x.bin_size 0
  if not (r == 0)
      then pure r
      else do let i = rounds_to x.bin_size * 4096; blank_pages (rounds_to (x.sgsize - i)) e x.va i

-- The callback for the loader, on a state that is `none` behind a panic; its code then ends the loop.
abbrev pub callback : ℕ → ℕ → Segment → Option Kern → ℕ × Option Kern
callback e binary x none = (1, none)
callback e binary x (some k) = elim (load_icode_mapper e binary x k) [
  | none ↦ (1, none)
  | some (r, k') ↦ (r, some k')
]

-- The entry point that the loader gives, and what the variable for it held before where the load fails.
pub entry_point_of : ℕ → Result (Option Kern) → Option (ℕ × Kern)
entry_point_of unset (loaded entry_point none) = none
entry_point_of unset (loaded entry_point (some k)) = some (entry_point, k)
entry_point_of unset (failed r none) = none
entry_point_of unset (failed r (some k)) = some (unset, k)

-- `load_elf(binary, size, &entry_point, e, load_icode_mapper)`
pub run_elf : (unset e binary : ℕ) → Image → M ℕ
run_elf unset e binary image k = entry_point_of unset (load_elf (callback e binary) image (some k))

-- The test of the result of `load_elf` is on an unsigned variable and never true. `unset` is what the
-- variable `entry_point` holds before it is set.
load_icode : (unset e binary : ℕ) → Image → M (Unit {0})
load_icode unset e binary image = do
  p ← page_alloc
  elim p [
    | none ↦ pure tt
    | some p ↦ do
      pgdir ← dir_of e
      _ ← page_insert pgdir p (ustacktop - 4096) read_write
      entry_point ← run_elf unset e binary image
      modify λ k.
          set_env e (record (k.envs e) { env_tf = record (k.envs e).env_tf { pc = entry_point } }) k
  ]

env_create : (unset binary : ℕ) → Image → M (Unit {0})
env_create unset binary image = do
  (r, e) ← env_alloc 0
  elim e [ none ↦ pure tt | some e ↦ load_icode unset e binary image ]
