-- ===== src/Pmap/Walk.antt =====
-- `pgdir_walk`, `page_lookup` and `va2pa` of a two-level page table, branch by branch.
use buaa_mips_os.Base.{
  ℕ, ◌<◌, ◌≡◌, Bool, true, false, none, some, List, [], ◌∷◌, if◌then◌else◌, arith, bit_or,
}
use buaa_mips_os.Kernel.{Kern, ◌>>=◌, e_no_mem, store_word}
use buaa_mips_os.Pmap.{
  pdx, ptx, ppn, pte_addr, pte_v, is_set, kaddr, pa2page, page2pa, va2pa, incref, pgdir_walk,
  page_lookup,
}
use buaa_mips_os.Pmap.Free.{
  FreeOk, kaddr-ok, ppn-page2pa, page_alloc-nil, page_alloc-cons, allocated,
}

-- The directory entry for `va`, the page of its page table, and the entry there.
abbrev pub pde : Kern → ℕ → ℕ → ℕ
pde k pgdir va = k.mem pgdir (pdx va)

abbrev pub table : Kern → ℕ → ℕ → ℕ
table k pgdir va = ppn (pde k pgdir va)

abbrev pub pte : Kern → ℕ → ℕ → ℕ
pte k pgdir va = k.mem (table k pgdir va) (ptx va)

-- The table of `va` exists.
abbrev pub has_table : Kern → ℕ → ℕ → Bool
has_table k pgdir va = is_set (pde k pgdir va) pte_v

pub pa2page-ok : (k : Kern) (pa : ℕ) → ppn pa < k.npage → pa2page pa k ≡ some (ppn pa, k)
unfolding pa2page
pa2page-ok k pa h = ground arith

-- The state behind a walk that makes a table of page `pp`.
abbrev pub walked : Kern → ℕ → ℕ → ℕ → List ℕ → Kern
walked k pgdir va pp rest =
    incref pp (store_word pgdir (pdx va) (bit_or (page2pa pp) pte_v) (allocated k pp rest))

module _ (k : Kern) (pgdir va : ℕ) (below : table k pgdir va < k.npage) where
  kaddr-table : kaddr (pte_addr (pde k pgdir va)) k ≡ some (table k pgdir va, k)
  kaddr-table =
      let e : ppn (pte_addr (pde k pgdir va)) ≡ table k pgdir va = omega arith in
      rw (← e) (kaddr-ok k (pte_addr (pde k pgdir va)) (rw e below))

  pub walk_found :
      (create : Bool)
      → has_table k pgdir va ≡ true
      → pgdir_walk pgdir va create k ≡ some ((0, some (table k pgdir va, ptx va)), k)
  unfolding pgdir_walk
  walk_found create h = rw (◌>>=◌, kaddr-table, h)

  pub walk_absent : has_table k pgdir va ≡ false → pgdir_walk pgdir va false k ≡ some ((0, none), k)
  unfolding pgdir_walk
  walk_absent h = rw (◌>>=◌, kaddr-table, h)

  pub walk_full :
      has_table k pgdir va ≡ false
      → k.page_free_list ≡ []
      → pgdir_walk pgdir va true k ≡ some ((e_no_mem, none), k)
  unfolding pgdir_walk
  walk_full h e = rw (◌>>=◌, kaddr-table, h, page_alloc-nil k e)

  pub walk_create :
      (pp : ℕ) (rest : List ℕ)
      → FreeOk k
      → has_table k pgdir va ≡ false
      → k.page_free_list ≡ pp ∷ rest
      → pgdir_walk pgdir va true k ≡ some ((0, some (pp, ptx va)), walked k pgdir va pp rest)
  unfolding pgdir_walk
  walk_create pp rest f h e =
      let lt : pp < k.npage = f.below pp (rw e (ground arith)) in
      let back = ppn-page2pa pp k.npage lt f.small in
      rw (◌>>=◌, kaddr-table, h, page_alloc-cons k pp rest f e)
        (rw (kaddr-ok (allocated k pp rest) (page2pa pp) (rw back lt), ◌>>=◌) (rw back))

  pub lookup_absent : has_table k pgdir va ≡ false → page_lookup pgdir va k ≡ some (none, k)
  unfolding page_lookup
  lookup_absent h = rw (◌>>=◌, walk_absent h)

  pub lookup_invalid :
      has_table k pgdir va ≡ true
      → is_set (pte k pgdir va) pte_v ≡ false
      → page_lookup pgdir va k ≡ some (none, k)
  unfolding page_lookup
  lookup_invalid h v = rw (◌>>=◌, walk_found false h, v)

  pub lookup_found :
      has_table k pgdir va ≡ true
      → is_set (pte k pgdir va) pte_v ≡ true
      → ppn (pte k pgdir va) < k.npage
      → page_lookup pgdir va k ≡ some (some (ppn (pte k pgdir va), (table k pgdir va, ptx va)), k)
  unfolding page_lookup
  lookup_found h v lt =
      rw (◌>>=◌, walk_found false h, v) (rw (pa2page-ok k (pte k pgdir va) lt, ◌>>=◌))

  pub va2pa-absent : has_table k pgdir va ≡ false → va2pa pgdir va k ≡ some (0xffff_ffff, k)
  unfolding va2pa
  va2pa-absent h = rw h

  pub va2pa-table :
      has_table k pgdir va ≡ true
      → va2pa pgdir va k
        ≡ some (if is_set (pte k pgdir va) pte_v then pte_addr (pte k pgdir va) else 0xffff_ffff, k)
  unfolding va2pa
  va2pa-table h = rw (◌>>=◌, h, kaddr-table) (ground arith)

-- `va2pa` depends on memory alone.
pub va2pa-frame :
    (k k' : Kern) (pgdir va x : ℕ)
    → k'.mem ≡ k.mem
    → k'.npage ≡ k.npage
    → va2pa pgdir va k ≡ some (x, k)
    → va2pa pgdir va k' ≡ some (x, k')
unfolding va2pa kaddr
va2pa-frame k k' pgdir va x m n h = ground arith
