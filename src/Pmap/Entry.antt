-- ===== src/Pmap/Entry.antt =====
-- The entry that `page_insert` writes, and its second half: what is mapped after the walk with
-- `create`, and what it fails with.
use buaa_mips_os.Base.{
  ℕ, ◌+◌, ◌*◌, ◌/◌, ◌%◌, ◌<◌, ◌≡◌, ◌⊎◌, refl, true, false, ◌&&◌, some, List, [], ◌∷◌, ◌==◌,
  if◌then◌else◌, arith, contains, bit_or, Bool-cases, List-cases, inl, inr, ◌∙◌,
}
use buaa_mips_os.Base.Bits.{bit_or-page, bit_or-lt_page, bit_or-set_v}
use buaa_mips_os.Kernel.{Kern, ◌>>=◌, ◌>>◌, e_no_mem, store_word}
use buaa_mips_os.Pmap.{ptx, ppn, pte_addr, pte_v, is_set, page2pa, va2pa, incref, insert_entry}
use buaa_mips_os.Pmap.Returns.{Returns}
use buaa_mips_os.Pmap.Free.{FreeOk, SameEnvs, FreeOk-frame, allocated, allocated-FreeOk}
use buaa_mips_os.Pmap.Walk.{
  pde, table, pte, has_table, walked, walk_found, walk_full, walk_create, va2pa-table,
}
use buaa_mips_os.Pmap.Remove.{mapped, SpaceOk, flushed, flushed-FreeOk, tlb_invalidate_lem}

-- The entry that maps page `pp` with permissions `perm | PTE_V`.
abbrev pub entry : ℕ → ℕ → ℕ
entry pp perm = bit_or (page2pa pp) (bit_or perm pte_v)

pub entry_sum :
    (pp perm : ℕ) → pp < 0x10_0000 → perm < 4096 → entry pp perm ≡ pp * 4096 + bit_or perm pte_v
unfolding page2pa
entry_sum pp perm lt small =
    let e : pp * 4096 % 0x1_0000_0000 ≡ pp * 4096 = omega arith in
    rw e (bit_or-page pp (bit_or perm pte_v) (bit_or-lt_page perm pte_v small (omega arith)))

pub entry_fields :
    (pp perm : ℕ)
    → pp < 0x10_0000
    → perm < 4096
    → (is_set (entry pp perm) pte_v ≡ true)
      × (pte_addr (entry pp perm) ≡ page2pa pp)
      × (ppn (entry pp perm) ≡ pp)
unfolding page2pa
entry_fields pp perm lt small =
    let e = entry_sum pp perm lt small in
    let b = bit_or-lt_page perm pte_v small (omega arith) in
    let v : entry pp perm / 0x200 % 2 ≡ 1 = rw e (omega (arith, bit_or-set_v perm)) in
    (rw v refl, omega arith, omega arith)

-- A valid entry for `pp` under a table is what `va2pa` finds.
pub va2pa-entry :
    (k : Kern) (pgdir va pp perm : ℕ)
    → pp < 0x10_0000
    → perm < 4096
    → table k pgdir va < k.npage
    → has_table k pgdir va ≡ true
    → pte k pgdir va ≡ entry pp perm
    → va2pa pgdir va k ≡ some (page2pa pp, k)
va2pa-entry k pgdir va pp perm lt small below t e =
    let fields = entry_fields pp perm lt small in
    rw (va2pa-table k pgdir va below t, e, fields.0, fields.1)

module _ (k : Kern) (pgdir pp va perm : ℕ) (s : SpaceOk k pgdir va) where
  -- The state behind the write of the entry in a table that exists.
  abbrev pub entered : Kern
  entered = incref pp (store_word (table k pgdir va) (ptx va) (entry pp perm) (flushed k va))

  pub entry_table :
      has_table k pgdir va ≡ true
      → insert_entry pgdir pp va (bit_or perm pte_v) k ≡ some (0, entered)
  unfolding insert_entry
  entry_table t =
      rw (tlb_invalidate_lem k pgdir va, ◌>>◌, ◌>>=◌)
        (rw (walk_found (flushed k va) pgdir va s.table_below true t, ◌>>=◌))

  pub entry_full :
      has_table k pgdir va ≡ false
      → k.page_free_list ≡ []
      → insert_entry pgdir pp va (bit_or perm pte_v) k ≡ some (e_no_mem, flushed k va)
  unfolding insert_entry
  entry_full t e =
      rw (tlb_invalidate_lem k pgdir va, ◌>>◌, ◌>>=◌)
        (rw (walk_full (flushed k va) pgdir va s.table_below t e, ◌>>=◌))

  -- The state behind the write of the entry in the new table `new`.
  abbrev pub grown : ℕ → List ℕ → Kern
  grown new rest =
      incref pp (store_word new (ptx va) (entry pp perm) (walked (flushed k va) pgdir va new rest))

  pub entry_new :
      (new : ℕ) (rest : List ℕ)
      → FreeOk k
      → has_table k pgdir va ≡ false
      → k.page_free_list ≡ new ∷ rest
      → insert_entry pgdir pp va (bit_or perm pte_v) k ≡ some (0, grown new rest)
  unfolding insert_entry
  entry_new new rest f t e =
      rw (tlb_invalidate_lem k pgdir va, ◌>>◌, ◌>>=◌)
        (rw (
          walk_create (flushed k va) pgdir va s.table_below new rest (flushed-FreeOk k va f) t e,
          ◌>>=◌,
        ))

-- One more reference to a page that is not free.
pub incref-FreeOk :
    (k : Kern) (pp : ℕ) → FreeOk k → contains k.page_free_list pp ≡ false → FreeOk (incref pp k)
incref-FreeOk k pp f out = record {
  distinct = f.distinct;
  below = f.below;
  unref = λ p m. ground (arith, f.unref p);
  small = f.small;
  short = λ p. ground (arith, f.short p);
}

pub same_envs :
    (k k' : Kern)
    → k'.envs ≡ k.envs
    → k'.curenv ≡ k.curenv
    → k'.env_free_list ≡ k.env_free_list
    → k'.next_env_id ≡ k.next_env_id
    → k'.pos ≡ k.pos
    → k'.kernel_sp ≡ k.kernel_sp
    → k'.npage ≡ k.npage
    → SameEnvs k k'
same_envs k k' a b c d e g h = record {
  envs = a;
  curenv = b;
  env_free_list = c;
  next_env_id = d;
  pos = e;
  frame = g;
  npage = h;
}

-- What `page_insert` promises of its result and of the state behind it.
abbrev pub Inserted : Kern → ℕ → ℕ → ℕ → ℕ → ℕ → Kern → Type 0
Inserted k pgdir pp va perm r k' =
    FreeOk k'
    × SameEnvs k k'
    × (((r ≡ 0)
          × (va2pa pgdir va k' ≡ some (page2pa pp, k'))
          × (pte k' pgdir va ≡ pp * 4096 + bit_or perm pte_v)
          × (k'.pp_ref pp ≡ (
              if mapped k pgdir va && (ppn (pte k pgdir va) == pp)
              then k.pp_ref pp
              else k.pp_ref pp + 1)))
        ⊎ ((r ≡ e_no_mem)
            × (has_table k pgdir va ≡ false)
            × (k.page_free_list ≡ [])
            × (k' ≡ flushed k va)))

-- The page to map exists, is in no free list, and can take one more reference.
pub record PageOk (k : Kern) (pp perm : ℕ) : Type 0 where
  pub exists : pp < k.npage
  pub used : contains k.page_free_list pp ≡ false
  pub room : k.pp_ref pp < 0xffff
  pub flags : perm < 4096

module _ (k : Kern) (pgdir pp va perm : ℕ) (f : FreeOk k) (s : SpaceOk k pgdir va)
    (g : PageOk k pp perm) where
  pub entered-Inserted :
      mapped k pgdir va ≡ false
      → has_table k pgdir va ≡ true
      → Inserted k pgdir pp va perm 0 (entered k pgdir pp va perm s)
  entered-Inserted m t =
      let k' : Kern = entered k pgdir pp va perm s in
      let lt : pp < 0x10_0000 = omega (arith, g.exists, f.small) in
      let same : pde k' pgdir va ≡ pde k pgdir va = ground (arith, s.table_apart t) in
      let e : pte k' pgdir va ≡ entry pp perm = rw same (ground arith) in
      (
        FreeOk-frame (incref pp k) k' refl refl refl (incref-FreeOk k pp f g.used),
        same_envs k k' refl refl refl refl refl refl refl,
        inl (
          refl,
          va2pa-entry k' pgdir va pp perm lt g.flags (rw same s.table_below) (rw same t) e,
          e ∙ entry_sum pp perm lt g.flags,
          ground (arith, g.room),
        ),
      )

  pub grown-Inserted :
      (new : ℕ) (rest : List ℕ)
      → has_table k pgdir va ≡ false
      → k.page_free_list ≡ new ∷ rest
      → Inserted k pgdir pp va perm 0 (grown k pgdir pp va perm s new rest)
  grown-Inserted new rest t e =
      let k' : Kern = grown k pgdir pp va perm s new rest in
      let a : Kern = allocated k new rest in
      let lt : pp < 0x10_0000 = omega (arith, g.exists, f.small) in
      let new_lt : new < k.npage = f.below new (rw e (ground arith)) in
      let fields = entry_fields new 0 (omega (arith, f.small)) (omega arith) in
      let apart : (pgdir == new) ≡ false = ground (arith, s.dir_used) in
      let unused : contains rest new ≡ false = ground (arith, f.distinct) in
      let other : (pp == new) ≡ false = ground (arith, g.used) in
      let fa : FreeOk (incref new a) =
        incref-FreeOk a new (allocated-FreeOk k new rest f e) unused in
      let dir : pde k' pgdir va ≡ entry new 0 = ground arith in
      let at : table k' pgdir va ≡ new = rw dir fields.2 in
      let e' : pte k' pgdir va ≡ entry pp perm = rw at (ground arith) in
      (
        FreeOk-frame (incref pp (incref new a)) k' refl refl refl
            (incref-FreeOk (incref new a) pp fa (ground (arith, g.used))),
        same_envs k k' refl refl refl refl refl refl refl,
        inl (
          refl,
          va2pa-entry k' pgdir va pp perm lt g.flags (rw at new_lt) (rw dir fields.0) e',
          e' ∙ entry_sum pp perm lt g.flags,
          ground (arith, g.room),
        ),
      )

  pub insert_entry_lem :
      mapped k pgdir va ≡ false
      → Returns (Inserted k pgdir pp va perm) (insert_entry pgdir pp va (bit_or perm pte_v) k)
  insert_entry_lem m = elim (Bool-cases (has_table k pgdir va)) [
    | inl t ↦ rw (entry_table k pgdir pp va perm s t) (entered-Inserted m t)
    | inr t ↦ elim (List-cases k.page_free_list) [
      | inl e ↦ rw (entry_full k pgdir pp va perm s t e) (
        flushed-FreeOk k va f,
        same_envs k (flushed k va) refl refl refl refl refl refl refl,
        inr (refl, t, e, refl),
      )
      | inr (new, rest, e) ↦
          rw (entry_new k pgdir pp va perm s new rest f t e) (grown-Inserted new rest t e)
    ]
  ]
