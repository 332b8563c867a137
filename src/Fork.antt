-- ===== src/Fork.antt =====
-- user/fork.c: `duppage`, the loop of `fork`, and `pgfault`, over the page tables of a process and its
-- child and the contents of the pages. A table maps a virtual page to a page and its permission bits.
pub mod Share
pub mod Fault
mod Tests
use buaa_mips_os.Base.{
  ℕ, zero, suc, ◌+◌, ◌-◌, ◌*◌, ◌/◌, ◌%◌, Bool, true, false, not, ◌&&◌, ◌||◌, Option, none, some,
  ◌==◌, ltb, if◌then◌else◌, update,
}

-- PTE_V, PTE_R, PTE_LIBRARY and PTE_COW of an entry; `rest` is its other bits below 12.
pub record Perm : Type 0 where
  pub pte_v : Bool
  pub pte_r : Bool
  pub pte_library : Bool
  pub pte_cow : Bool

pub record Mapping : Type 0 where
  pub page : ℕ
  pub perm : Perm

abbrev pub Table : Type 0
Table = ℕ → Option Mapping

-- `content` is what stands in a page, by word; `fresh` is the next page that is not in use, and `room` the
-- number of pages that `syscall_mem_alloc` can still give.
pub record Memory : Type 0 where
  pub content : ℕ → ℕ → ℕ
  pub fresh : ℕ
  pub room : ℕ

pub record Pair : Type 0 where
  pub parent : Table
  pub child : Table

-- PTE_V | PTE_R | PTE_LIBRARY and PTE_V | PTE_R | PTE_COW.
abbrev pub shared_perm : Perm
shared_perm = record { pte_v = true; pte_r = true; pte_library = true; pte_cow = false }

abbrev pub cow_perm : Perm
cow_perm = record { pte_v = true; pte_r = true; pte_library = false; pte_cow = true }

-- The permissions that `duppage` maps a page with in the child.
pub dup_perm : Perm → Perm
dup_perm perm =
    if (perm.pte_r || perm.pte_cow) && perm.pte_v
    then if perm.pte_library then shared_perm else cow_perm
    else perm

-- `duppage`. A failure of `syscall_mem_map` is a `user_panic`, and is left out.
pub duppage : ℕ → Mapping → Pair → Pair
duppage pn m t =
    let copy : Mapping = record { page = m.page; perm = dup_perm m.perm } in
    let with_child : Pair = record t { child = update t.child pn (some copy) } in
    if (m.perm.pte_r || m.perm.pte_cow) && m.perm.pte_v
    then record with_child { parent = update t.parent pn (some copy) }
    else with_child

-- `n` rounds of the loop of `fork`, from page `pn` on.
pub dup_pages : ℕ → ℕ → Pair → Pair
dup_pages zero pn t = t
dup_pages (suc n) pn t =
    dup_pages n (pn + 1) (elim (t.parent pn) [ none ↦ t | some m ↦ duppage pn m t ])

-- The pages below UTOP - BY2PG.
abbrev pub fork_pages : ℕ
fork_pages = 0x7f3ff

pub fork : Table → Table → Pair
fork parent child = dup_pages fork_pages 0 (record { parent = parent; child = child })

-- The virtual page at 0x50000000, where `pgfault` makes the copy.
abbrev pub temp : ℕ
temp = 0x5_0000

-- The new page at `temp`, and the contents with it.
abbrev pub with_temp : Perm → Table → Memory → Table
with_temp perm t mem = update t temp (some (record { page = mem.fresh; perm = perm }))

abbrev pub with_fresh : Memory → Memory
with_fresh mem = record mem {
  content = update mem.content mem.fresh (λ _. 0);
  fresh = mem.fresh + 1;
  room = mem.room - 1;
}

-- syscall_mem_alloc(0, temp, perm): a new page of zeros in place of what was mapped there; none is an error,
-- of permissions that are refused or of memory that is full.
pub alloc_temp : Perm → Table → Memory → Option (Table × Memory)
alloc_temp perm t mem =
    if perm.pte_cow || not perm.pte_v
    then none
    else if mem.room == 0
    then none
    else some (with_temp perm t mem, with_fresh mem)

-- user_bcopy from virtual page `pn` to `temp`, and the two mappings behind it: the page at `temp` goes to `pn`,
-- and `temp` is unmapped. A page that is not mapped is a fault.
pub copy_page : Option Mapping → Option Mapping → Memory → Option Memory
copy_page (some from) (some to) mem =
    some (record mem { content = update mem.content to.page (mem.content from.page) })
copy_page none to mem = none
copy_page (some from) none mem = none

pub replace_page : ℕ → Perm → Table → Option Mapping → Table
replace_page pn perm t none = t
replace_page pn perm t (some m) =
    update (update t pn (some (record { page = m.page; perm = perm }))) temp none

-- Behind syscall_mem_alloc.
pub copy_back : ℕ → Perm → Table → Memory → Option (Table × Memory)
copy_back pn perm t mem = elim (copy_page (t pn) (t temp) mem) [
  | none ↦ none
  | some mem' ↦ some (replace_page pn perm t (t temp), mem')
]

-- The permissions without PTE_COW.
abbrev pub without_cow : Perm → Perm
without_cow perm = record perm { pte_cow = false }

-- `pgfault` on the page `pn` that `m` maps; none is a `user_panic`.
pub copy_on_write : ℕ → Mapping → Table → Memory → Option (Table × Memory)
copy_on_write pn m t mem =
    if not m.perm.pte_cow then none else elim (alloc_temp (without_cow m.perm) t mem) [
      | none ↦ none
      | some (t', mem') ↦ copy_back pn (without_cow m.perm) t' mem'
    ]

pub pgfault : ℕ → Table → Memory → Option (Table × Memory)
pgfault pn t mem = elim (t pn) [ none ↦ none | some m ↦ copy_on_write pn m t mem ]
