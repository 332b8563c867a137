-- ===== src/Pmap.antt =====
-- mm/pmap.c and the address arithmetic of include/mmu.h and include/pmap.h: the free list of
-- physical pages with its reference counts, and the two-level page tables.
pub mod Boot
pub mod Vm
pub mod Returns
pub mod Free
pub mod Walk
pub mod Remove
pub mod Entry
pub mod Insert
mod Tests
use buaa_mips_os.Base.{
  ℕ, zero, suc, ◌+◌, ◌-◌, ◌*◌, ◌/◌, ◌%◌, Bool, true, false, not, ◌&&◌, Option, none, some, List, [],
  ◌∷◌, ◌==◌, ltb, leb, if◌then◌else◌, bit_or, update,
}
use buaa_mips_os.Base.Words.{u16, u32, round, rounddown}
use buaa_mips_os.Kernel.{
  Kern, Env, M, pure, panic, ◌>>=◌, ◌>>◌, get, modify, e_no_mem, get_env_asid, store_word, set_ref,
}

-- PDX, PTX, PPN and PTE_ADDR.
abbrev pub pdx : ℕ → ℕ
pdx va = va / 0x400000 % 1024

abbrev pub ptx : ℕ → ℕ
ptx va = va / 4096 % 1024

abbrev pub ppn : ℕ → ℕ
ppn a = a / 4096

abbrev pub pte_addr : ℕ → ℕ
pte_addr pte = pte - pte % 4096

-- PTE_V, PTE_R, PTE_COW and PTE_LIBRARY, and the test of one such bit.
abbrev pub pte_v : ℕ
pte_v = 0x200

abbrev pub pte_r : ℕ
pte_r = 0x400

abbrev pub pte_cow : ℕ
pte_cow = 1

abbrev pub pte_library : ℕ
pte_library = 4

abbrev pub is_set : ℕ → ℕ → Bool
is_set x flag = x / flag % 2 == 1

abbrev pub ulim : ℕ
ulim = 0x8000_0000

-- KADDR of a page's address, as the number of the page.
pub kaddr : ℕ → M ℕ
kaddr pa k = if leb k.npage (ppn pa) then none else some (ppn pa, k)

pub page2pa : ℕ → ℕ
page2pa pp = u32 (pp * 4096)

pub pa2page : ℕ → M ℕ
pa2page pa k = if leb k.npage (ppn pa) then none else some (ppn pa, k)

pub va2pa : ℕ → ℕ → M ℕ
va2pa pgdir va = do
  k ← get
  let pde = k.mem pgdir (pdx va)
  if not (is_set pde pte_v) then pure 0xffff_ffff else do
    p ← kaddr (pte_addr pde)
    let pte = k.mem p (ptx va)
    pure (if not (is_set pte pte_v) then 0xffff_ffff else pte_addr pte)

-- `bzero(page2kva(pp), BY2PG)`
pub bzero_page : ℕ → M (Unit {0})
bzero_page pp = do p ← kaddr (page2pa pp); modify λ k. record k { mem = update k.mem p (λ _. 0) }

pub page_alloc : M (Option ℕ)
page_alloc k = elim k.page_free_list [
  | [] ↦ some (none, k)
  | pp ∷ rest ↦ (do bzero_page pp; pure (some pp)) (record k { page_free_list = rest })
]

pub page_free : ℕ → M (Unit {0})
page_free pp k =
    if ltb 0 (k.pp_ref pp)
    then some (tt, k)
    else some (tt, record k { page_free_list = pp ∷ k.page_free_list })

-- `pp->pp_ref++` and `pp->pp_ref--` on a `u_short`.
abbrev pub incref : ℕ → Kern → Kern
incref pp k = set_ref pp (u16 (k.pp_ref pp + 1)) k

abbrev pub decref : ℕ → Kern → Kern
decref pp k = set_ref pp (u16 (k.pp_ref pp + 0xffff)) k

pub page_decref : ℕ → M (Unit {0})
page_decref pp = do modify (decref pp); k ← get; if k.pp_ref pp == 0 then page_free pp else pure tt

-- A `Pte *` is a page and an index in it.
abbrev pub PtePtr : Type 0
PtePtr = ℕ × ℕ

-- The return code, and what `*ppte` receives.
pub pgdir_walk : ℕ → ℕ → Bool → M (ℕ × Option PtePtr)
pgdir_walk pgdir va create = do
  k ← get
  let pde = k.mem pgdir (pdx va)
  pgtable ← kaddr (pte_addr pde)
  if is_set pde pte_v
      then pure (0, some (pgtable, ptx va))
      else if not create
      then pure (0, none)
      else do
        ppage ← page_alloc
        elim ppage [
          | none ↦ pure (e_no_mem, none)
          | some pp ↦ do
            new ← kaddr (page2pa pp)
            modify (store_word pgdir (pdx va) (bit_or (page2pa pp) pte_v))
            modify (incref pp)
            pure (0, some (new, ptx va))
        ]

pub tlb_invalidate : ℕ → ℕ → M (Unit {0})
tlb_invalidate pgdir va = modify λ k. record k {
  tlb_flushed =
      elim k.curenv [
        | none ↦ pte_addr va
        | some e ↦ bit_or (pte_addr va) (get_env_asid (k.envs e).env_id)
      ]
      ∷ k.tlb_flushed;
}

-- The page, and the `Pte *` for `*ppte`.
pub page_lookup : ℕ → ℕ → M (Option (ℕ × PtePtr))
page_lookup pgdir va = do
  (r, ppte) ← pgdir_walk pgdir va false
  elim ppte [
    | none ↦ pure none
    | some (p, i) ↦ do
      k ← get
      let pte = k.mem p i
      if not (is_set pte pte_v)
          then pure none
          else do ppage ← pa2page pte; pure (some (ppage, (p, i)))
  ]

-- Its lines on `pp_ref` are those of `page_decref`.
pub page_remove : ℕ → ℕ → M (Unit {0})
page_remove pgdir va = do
  found ← page_lookup pgdir va
  elim found [
    | none ↦ pure tt
    | some (ppage, (p, i)) ↦ do
      page_decref ppage
      modify (store_word p i 0)
      tlb_invalidate pgdir va
  ]

-- The second half of `page_insert`: TLB, walk with `create`, write of the entry.
pub insert_entry : ℕ → ℕ → ℕ → ℕ → M ℕ
insert_entry pgdir pp va perm = do
  tlb_invalidate pgdir va
  (r, ppte) ← pgdir_walk pgdir va true
  if not (r == 0) then pure e_no_mem else elim ppte [
    | none ↦ panic
    | some (p, i) ↦ do
      modify (store_word p i (bit_or (page2pa pp) perm))
      modify (incref pp)
      pure 0
  ]

-- The first half, where `va` is mapped: remove another page, or change the permissions.
pub page_insert : ℕ → ℕ → ℕ → ℕ → M ℕ
page_insert pgdir pp va perm = do
  let perm_v = bit_or perm pte_v
  (r, ppte) ← pgdir_walk pgdir va false
  k ← get
  elim ppte [
    | none ↦ insert_entry pgdir pp va perm_v
    | some (p, i) ↦ if not (is_set (k.mem p i) pte_v) then insert_entry pgdir pp va perm_v else do
      old ← pa2page (k.mem p i)
      if not (old == pp) then (do page_remove pgdir va; insert_entry pgdir pp va perm_v) else do
        tlb_invalidate pgdir va
        modify (store_word p i (bit_or (page2pa pp) perm_v))
        pure 0
  ]
