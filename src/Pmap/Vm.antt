-- ===== src/Pmap/Vm.antt =====
-- mm/pmap.c before there is a free list: `mips_detect_memory`, the boot-time allocator, and the mapping of the
-- kernel's tables. `end` is the linker's symbol; the first allocation begins there.
pub mod Place
pub mod Entry
pub mod Segment
pub mod Loop
pub mod Kept
pub mod Init
mod Tests
use buaa_mips_os.Base.{
  ℕ, zero, suc, ◌+◌, ◌-◌, ◌*◌, ◌/◌, ◌%◌, Bool, true, not, ◌&&◌, Option, none, some, ◌==◌, ltb, leb,
  if◌then◌else◌, bit_or, update,
}
use buaa_mips_os.Base.Words.{u32, round}
use buaa_mips_os.Kernel.{Kern, M, pure, panic, ◌>>=◌, ◌>>◌, get, modify, nenv, store_word}
use buaa_mips_os.Pmap.{PtePtr, pdx, ptx, pte_addr, pte_v, pte_r, is_set, ulim, kaddr}

-- maxpa, as mips_detect_memory sets it; nothing else writes to it.
abbrev pub maxpa : ℕ
maxpa = 0x0400_0000

pub mips_detect_memory : M (Unit {0})
mips_detect_memory = modify λ k. record k { npage = 64 * 1024 * 1024 / (1024 * 4) }

pub paddr : ℕ → M ℕ
paddr kva k = if ltb kva ulim then none else some (kva - ulim, k)

-- ROUND(a, align), for a power of two.
abbrev pub round_to : ℕ → ℕ → ℕ
round_to a align = let b : ℕ = u32 (a + align - 1) in b - b % align

-- The words from an address on are cleared; a size is a multiple of 4 in every call.
abbrev pub clear_words : ℕ → ℕ → Kern → Kern
clear_words pa n k = record k {
  mem = λ p i. let a : ℕ = p * 4096 + i * 4 in if leb pa a && ltb a (pa + n) then 0 else k.mem p i;
}

-- The address of the memory. `alloc` clears before it tests that there is memory.
pub alloc : ℕ → ℕ → ℕ → Bool → M ℕ
alloc end n align clear k =
    let free : ℕ = if k.freemem == 0 then end else k.freemem in
    let chunk : ℕ = round_to free align in
    let k1 : Kern = record k { freemem = u32 (chunk + n) } in
    let k2 : Kern = if clear then clear_words (chunk - ulim) n k1 else k1 in
    if ltb k2.freemem ulim
    then none
    else if leb maxpa (k2.freemem - ulim)
    then none
    else some (chunk, k2)

pub boot_pgdir_walk : ℕ → ℕ → ℕ → Bool → M (Option PtePtr)
boot_pgdir_walk end pgdir va create = do
  k ← get
  let pde = k.mem pgdir (pdx va)
  pgtable ← kaddr (pte_addr pde)
  if is_set pde pte_v then pure (some (pgtable, ptx va)) else if not create then pure none else do
    new ← alloc end 4096 4096 true
    pa ← paddr new
    modify (store_word pgdir (pdx va) (bit_or (bit_or pa pte_v) pte_r))
    pure (some (pa / 4096, ptx va))

abbrev pub boot_perm : ℕ → ℕ → ℕ
boot_perm x perm = bit_or (bit_or (bit_or x perm) pte_v) pte_r

-- A round of the loop of `boot_map_segment`; a null pointer is a fault.
pub map_one : ℕ → ℕ → ℕ → ℕ → ℕ → M (Unit {0})
map_one end pgdir va pa perm = do
  ppte ← boot_pgdir_walk end pgdir va true
  elim ppte [ none ↦ panic | some (p, i) ↦ modify (store_word p i (boot_perm (u32 pa) perm)) ]

-- `n` rounds.
pub map_loop : ℕ → ℕ → ℕ → ℕ → ℕ → ℕ → M (Unit {0})
map_loop zero end pgdir va pa perm = pure tt
map_loop (suc n) end pgdir va pa perm = do
  map_one end pgdir va pa perm
  map_loop n end pgdir (va + 4096) (pa + 4096) perm

-- A size that is not a multiple of a page is only reported.
pub boot_map_segment : ℕ → ℕ → ℕ → ℕ → ℕ → ℕ → M (Unit {0})
boot_map_segment end pgdir va size pa perm = if not (size % 4096 == 0) then pure tt else do
  map_loop (size / 4096) end pgdir va pa perm
  modify λ k. store_word pgdir (pdx va) (boot_perm (k.mem pgdir (pdx va)) perm) k

abbrev pub upages : ℕ
upages = 0x7f80_0000

abbrev pub uenvs : ℕ
uenvs = 0x7f40_0000

-- sizeof(struct Page) and sizeof(struct Env).
abbrev pub page_bytes : ℕ
page_bytes = 12

abbrev pub env_bytes : ℕ
env_bytes = 216

-- The addresses that the globals `pages` and `envs` receive; mCONTEXT is `boot_pgdir`.
pub mips_vm_init : ℕ → M (ℕ × ℕ)
mips_vm_init end = do
  dir ← alloc end 4096 4096 true
  pgdir ← paddr dir
  modify λ k. record k { boot_pgdir = pgdir / 4096 }
  k ← get
  pages ← alloc end (u32 (k.npage * page_bytes)) 4096 true
  pages_pa ← paddr pages
  boot_map_segment end (pgdir / 4096) upages (round (u32 (k.npage * page_bytes))) pages_pa pte_r
  envs ← alloc end (nenv * env_bytes) 4096 true
  envs_pa ← paddr envs
  boot_map_segment end (pgdir / 4096) uenvs (round (nenv * env_bytes)) envs_pa pte_r
  pure (pages, envs)
