-- ===== src/Pmap/Remove.antt =====
-- `page_remove`: the address spaces on which it works, the state that it leaves, and what that
-- means for the page table, the references and the free list.
use buaa_mips_os.Base.{
  ℕ, ◌-◌, ◌<◌, ◌≡◌, ◌≢◌, ◌⊎◌, refl, Bool, true, false, ◌&&◌, none, some, ◌∷◌, ◌==◌, if◌then◌else◌,
  arith, contains, bit_or, Bool-cases, inl, inr,
}
use buaa_mips_os.Kernel.{Kern, ◌>>=◌, ◌>>◌, get_env_asid, store_word}
use buaa_mips_os.Pmap.{
  page_lookup, ptx, ppn, pte_addr, pte_v, is_set, va2pa, tlb_invalidate, page_remove,
}
use buaa_mips_os.Pmap.Returns.{Returns}
use buaa_mips_os.Pmap.Free.{FreeOk, dropped, dropped-FreeOk, page_decref_lem}
use buaa_mips_os.Pmap.Walk.{
  pde, table, pte, has_table, lookup_absent, lookup_invalid, lookup_found, va2pa-absent,
  va2pa-table,
}

-- Both levels are valid: `va` is mapped.
abbrev pub mapped : Kern → ℕ → ℕ → Bool
mapped k pgdir va = has_table k pgdir va && is_set (pte k pgdir va) pte_v

-- The page table is well-formed at `va`: the entries point into memory, directory, table and page
-- are three pages, the page is referenced, and neither directory nor table is free.
pub record SpaceOk (k : Kern) (pgdir va : ℕ) : Type 0 where
  pub table_below : table k pgdir va < k.npage
  pub table_apart : has_table k pgdir va ≡ true → table k pgdir va ≢ pgdir
  pub page_below : mapped k pgdir va ≡ true → ppn (pte k pgdir va) < k.npage
  pub page_held : mapped k pgdir va ≡ true → 0 < k.pp_ref (ppn (pte k pgdir va))
  pub page_ne_dir : mapped k pgdir va ≡ true → ppn (pte k pgdir va) ≢ pgdir
  pub page_ne_table : mapped k pgdir va ≡ true → ppn (pte k pgdir va) ≢ table k pgdir va
  pub dir_used : contains k.page_free_list pgdir ≡ false
  pub table_used :
      has_table k pgdir va ≡ true → contains k.page_free_list (table k pgdir va) ≡ false

abbrev pub flushed : Kern → ℕ → Kern
flushed k va = record k {
  tlb_flushed =
      elim k.curenv [
        | none ↦ pte_addr va
        | some e ↦ bit_or (pte_addr va) (get_env_asid (k.envs e).env_id)
      ]
      ∷ k.tlb_flushed;
}

pub flushed-FreeOk : (k : Kern) (va : ℕ) → FreeOk k → FreeOk (flushed k va)
flushed-FreeOk k va f = record {
  distinct = f.distinct;
  below = f.below;
  unref = f.unref;
  small = f.small;
  short = f.short;
}

pub tlb_invalidate_lem :
    (k : Kern) (pgdir va : ℕ) → tlb_invalidate pgdir va k ≡ some (tt, flushed k va)
unfolding tlb_invalidate
tlb_invalidate_lem k pgdir va = refl

-- The state behind `page_remove` of a mapped address.
abbrev pub removed : Kern → ℕ → ℕ → Kern
removed k pgdir va =
    flushed (store_word (table k pgdir va) (ptx va) 0 (dropped k (ppn (pte k pgdir va)))) va

pub remove_unmapped :
    (k : Kern) (pgdir va : ℕ)
    → SpaceOk k pgdir va
    → mapped k pgdir va ≡ false
    → page_remove pgdir va k ≡ some (tt, k)
unfolding page_remove
remove_unmapped k pgdir va s m = elim (Bool-cases (has_table k pgdir va)) [
  | inl t ↦ rw (lookup_invalid k pgdir va s.table_below t (ground arith), ◌>>=◌)
  | inr t ↦ rw (lookup_absent k pgdir va s.table_below t, ◌>>=◌)
]

pub remove_mapped :
    (k : Kern) (pgdir va : ℕ)
    → FreeOk k
    → SpaceOk k pgdir va
    → mapped k pgdir va ≡ true
    → page_remove pgdir va k ≡ some (tt, removed k pgdir va)
unfolding page_remove
remove_mapped k pgdir va f s m =
    let page = ppn (pte k pgdir va) in
    rw (lookup_found k pgdir va s.table_below (ground arith) (ground arith) (s.page_below m), ◌>>=◌)
      (rw (page_decref_lem k page (s.page_held m) (f.short page), ◌>>◌, ◌>>=◌)
        (tlb_invalidate_lem (store_word (table k pgdir va) (ptx va) 0 (dropped k page)) pgdir va))

pub removed-FreeOk :
    (k : Kern) (pgdir va : ℕ)
    → FreeOk k
    → SpaceOk k pgdir va
    → mapped k pgdir va ≡ true
    → FreeOk (removed k pgdir va)
removed-FreeOk k pgdir va f s m =
    let d = dropped-FreeOk k (ppn (pte k pgdir va)) f (s.page_below m) (s.page_held m) in
    record {
      distinct = d.distinct;
      below = d.below;
      unref = d.unref;
      small = d.small;
      short = d.short;
    }

unmapped-va2pa :
    (k : Kern) (pgdir va : ℕ)
    → SpaceOk k pgdir va
    → mapped k pgdir va ≡ false
    → va2pa pgdir va k ≡ some (0xffff_ffff, k)
unmapped-va2pa k pgdir va s m = elim (Bool-cases (has_table k pgdir va)) [
  | inl t ↦
      let v : is_set (pte k pgdir va) pte_v ≡ false = ground arith in
      rw (va2pa-table k pgdir va s.table_below t, v)
  | inr t ↦ va2pa-absent k pgdir va s.table_below t
]

removed-va2pa :
    (k : Kern) (pgdir va : ℕ)
    → FreeOk k
    → SpaceOk k pgdir va
    → mapped k pgdir va ≡ true
    → va2pa pgdir va (removed k pgdir va) ≡ some (0xffff_ffff, removed k pgdir va)
removed-va2pa k pgdir va f s m =
    let k' : Kern = removed k pgdir va in
    let t : has_table k pgdir va ≡ true = ground arith in
    let same : pde k' pgdir va ≡ pde k pgdir va = ground (arith, s.table_apart t) in
    let zero' : pte k' pgdir va ≡ 0 = rw same (ground arith) in
    rw (va2pa-table k' pgdir va (rw same s.table_below) (rw same t), zero')

-- What `page_remove` promises of the state behind it.
abbrev pub Removes : Kern → ℕ → ℕ → Kern → Type 0
Removes k pgdir va k' =
    FreeOk k'
    × (va2pa pgdir va k' ≡ some (0xffff_ffff, k'))
    × ((q i : ℕ) → (q ≢ table k pgdir va) ⊎ (i ≢ ptx va) → k'.mem q i ≡ k.mem q i)
    × ((q : ℕ)
        → k'.pp_ref q ≡ (
            if mapped k pgdir va && (q == ppn (pte k pgdir va))
            then k.pp_ref q - 1
            else k.pp_ref q))
    × (k'.page_free_list ≡ (
        if mapped k pgdir va && (k.pp_ref (ppn (pte k pgdir va)) == 1)
        then ppn (pte k pgdir va) ∷ k.page_free_list
        else k.page_free_list))
    × (mapped k pgdir va ≡ false → k' ≡ k)

-- After `page_remove` nothing is mapped at `va`: `va2pa` is ~0. The page that was mapped there has
-- lost one reference and is free if that was its last; no other page's references change, no
-- other word of memory changes but the entry of `va`, and the free list is as it should be.
-- Where nothing was mapped, nothing changes.
pub page_remove_lem :
    (k : Kern) (pgdir va : ℕ)
    → FreeOk k
    → SpaceOk k pgdir va
    → Returns (λ _ k'. Removes k pgdir va k') (page_remove pgdir va k)
page_remove_lem k pgdir va f s = elim (Bool-cases (mapped k pgdir va)) [
  | inl m ↦ rw (remove_mapped k pgdir va f s m) (
    removed-FreeOk k pgdir va f s m,
    removed-va2pa k pgdir va f s m,
    λ q i ne. ground arith,
    λ q. ground arith,
    rw m,
    λ n. ground arith,
  )
  | inr m ↦
      rw (remove_unmapped k pgdir va s m)
        (f, unmapped-va2pa k pgdir va s m, λ q i ne. refl, λ q. rw m, rw m, λ n. refl)
]

-- `page_lookup` finds what is mapped.
pub page_lookup-mapped :
    (k : Kern) (pgdir va : ℕ)
    → SpaceOk k pgdir va
    → mapped k pgdir va ≡ true
    → page_lookup pgdir va k ≡ some (some (ppn (pte k pgdir va), (table k pgdir va, ptx va)), k)
page_lookup-mapped k pgdir va s m =
    lookup_found k pgdir va s.table_below (ground arith) (ground arith) (s.page_below m)

pub page_lookup-unmapped :
    (k : Kern) (pgdir va : ℕ)
    → SpaceOk k pgdir va
    → mapped k pgdir va ≡ false
    → page_lookup pgdir va k ≡ some (none, k)
page_lookup-unmapped k pgdir va s m = elim (Bool-cases (has_table k pgdir va)) [
  | inl t ↦ lookup_invalid k pgdir va s.table_below t (ground arith)
  | inr t ↦ lookup_absent k pgdir va s.table_below t
]
