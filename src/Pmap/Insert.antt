-- ===== src/Pmap/Insert.antt =====
-- `page_insert`: on every branch, what it returns, what is mapped afterwards, and how the
-- references and the free list change.
use buaa_mips_os.Base.{
  ℕ, ◌<◌, ◌≡◌, refl, true, false, not, ◌==◌, if◌then◌else◌, arith, bit_or, Bool-cases, inl, inr,
  ◌∙◌,
}
use buaa_mips_os.Kernel.{Kern, ◌>>=◌, ◌>>◌, pure, modify, store_word}
use buaa_mips_os.Pmap.{
  ptx, ppn, pte_v, is_set, tlb_invalidate, page_remove, insert_entry, page_insert,
}
use buaa_mips_os.Pmap.Returns.{Returns, mono}
use buaa_mips_os.Pmap.Free.{SameEnvs-trans, FreeOk, FreeOk-frame}
use buaa_mips_os.Pmap.Walk.{pde, table, pte, has_table, walk_found, walk_absent, pa2page-ok}
use buaa_mips_os.Pmap.Remove.{
  mapped, SpaceOk, flushed, tlb_invalidate_lem, removed, removed-FreeOk, remove_mapped,
}
use buaa_mips_os.Pmap.Entry.{
  entry, entry_sum, va2pa-entry, same_envs, Inserted, PageOk, insert_entry_lem,
}

-- Where nothing is mapped, the second half is all that there is.
pub page_insert-unmapped :
    (k : Kern) (pgdir pp va perm : ℕ)
    → table k pgdir va < k.npage
    → mapped k pgdir va ≡ false
    → page_insert pgdir pp va perm k ≡ insert_entry pgdir pp va (bit_or perm pte_v) k
unfolding page_insert
page_insert-unmapped k pgdir pp va perm below m = elim (Bool-cases (has_table k pgdir va)) [
  | inr t ↦ rw (walk_absent k pgdir va below t, ◌>>=◌) refl
  | inl t ↦
      let v : is_set (pte k pgdir va) pte_v ≡ false = ground arith in
      rw (walk_found k pgdir va below false t, ◌>>=◌, v) refl
]

module _ (k : Kern) (pgdir pp va perm : ℕ) (f : FreeOk k) (s : SpaceOk k pgdir va)
    (g : PageOk k pp perm) where
  removed-pde : mapped k pgdir va ≡ true → pde (removed k pgdir va) pgdir va ≡ pde k pgdir va
  removed-pde m = ground (arith, s.table_apart)

  removed-pte : mapped k pgdir va ≡ true → pte (removed k pgdir va) pgdir va ≡ 0
  removed-pte m = rw (removed-pde m) (ground arith)

  -- After the removal of another page nothing is mapped at `va`, and the rest is as before.
  removed-SpaceOk : mapped k pgdir va ≡ true → SpaceOk (removed k pgdir va) pgdir va
  removed-SpaceOk m =
      let k' : Kern = removed k pgdir va in
      let t : has_table k pgdir va ≡ true = ground arith in
      let same = removed-pde m in
      let zero' = removed-pte m in
      record {
        table_below = rw same s.table_below;
        table_apart = rw same s.table_apart;
        page_below = λ h. absurd (ground (arith, zero'));
        page_held = λ h. absurd (ground (arith, zero'));
        page_ne_dir = λ h. absurd (ground (arith, zero'));
        page_ne_table = λ h. absurd (ground (arith, zero'));
        dir_used = ground (arith, s.dir_used, s.page_ne_dir m);
        table_used = λ h. rw same (ground (arith, s.table_used t, s.page_ne_table m));
      }

  removed-PageOk :
      mapped k pgdir va ≡ true
      → (ppn (pte k pgdir va) == pp) ≡ false
      → PageOk (removed k pgdir va) pp perm
  removed-PageOk m other = record {
    exists = g.exists;
    used = ground (arith, g.used);
    room = ground (arith, g.room);
    flags = g.flags;
  }

  -- A change of permissions alone: the same page is mapped again.
  abbrev replaced : Kern
  replaced = store_word (table k pgdir va) (ptx va) (entry pp perm) (flushed k va)

  replaced-Inserted :
      mapped k pgdir va ≡ true
      → (ppn (pte k pgdir va) == pp) ≡ true
      → Inserted k pgdir pp va perm 0 replaced
  replaced-Inserted m same_page =
      let k' : Kern = replaced in
      let t : has_table k pgdir va ≡ true = ground arith in
      let lt : pp < 0x10_0000 = omega (arith, g.exists, f.small) in
      let same : pde k' pgdir va ≡ pde k pgdir va = ground (arith, s.table_apart t) in
      let e : pte k' pgdir va ≡ entry pp perm = rw same (ground arith) in
      (
        FreeOk-frame k k' refl refl refl f,
        same_envs k k' refl refl refl refl refl refl refl,
        inl (
          refl,
          va2pa-entry k' pgdir va pp perm lt g.flags (rw same s.table_below) (rw same t) e,
          e ∙ entry_sum pp perm lt g.flags,
          rw (m, same_page) refl,
        ),
      )

  -- What is inserted behind a removal is inserted as seen from the start.
  Inserted-removed :
      mapped k pgdir va ≡ true
      → (ppn (pte k pgdir va) == pp) ≡ false
      → (r : ℕ) (k' : Kern) → Inserted (removed k pgdir va) pgdir pp va perm r k'
      → Inserted k pgdir pp va perm r k'
  Inserted-removed m other r k' (f', n, inl (z, at, e, refs)) = (
    f',
    SameEnvs-trans k (removed k pgdir va) k'
        (same_envs k (removed k pgdir va) refl refl refl refl refl refl refl) n,
    inl (z, at, e, ground (arith, removed-pte m)),
  )
  Inserted-removed m other r k' (f', n, inr (z, t, e, same)) =
      absurd (ground (arith, removed-pde m))

  -- `page_insert` where a page is mapped at `va`.
  present :
      mapped k pgdir va ≡ true
      → Returns (Inserted k pgdir pp va perm) (
          (if not (ppn (pte k pgdir va) == pp)
              then (do page_remove pgdir va; insert_entry pgdir pp va (bit_or perm pte_v))
              else do
                tlb_invalidate pgdir va
                modify (store_word (table k pgdir va) (ptx va) (entry pp perm))
                pure 0)
            k)
  present m = elim (Bool-cases (ppn (pte k pgdir va) == pp)) [
    | inl same_page ↦
        rw same_page
          (rw (tlb_invalidate_lem k pgdir va, ◌>>◌, ◌>>=◌) (replaced-Inserted m same_page))
    | inr other ↦ rw other (
        rw (remove_mapped k pgdir va f s m, ◌>>◌, ◌>>=◌)
          (mono (insert_entry pgdir pp va (bit_or perm pte_v) (removed k pgdir va))
            (insert_entry_lem (removed k pgdir va) pgdir pp va perm
              (removed-FreeOk k pgdir va f s m) (removed-SpaceOk m) (removed-PageOk m other)
              (ground (arith, removed-pte m)))
            (Inserted-removed m other)))
  ]

  -- `page_insert` does not panic. On success (0) `va` maps to `pp` with the given permissions and
  -- PTE_V, and `pp` has one more reference unless it was mapped at `va` before. It fails with
  -- E_NO_MEM only where the table of `va` is missing and no page is free; the TLB is all that
  -- it then touches. The free list is as it should be in either case.
  pub page_insert_lem : Returns (Inserted k pgdir pp va perm) (page_insert pgdir pp va perm k)
  unfolding page_insert
  page_insert_lem = elim (Bool-cases (has_table k pgdir va)) [
    | inr t ↦
        rw (walk_absent k pgdir va s.table_below t, ◌>>=◌)
          (insert_entry_lem k pgdir pp va perm f s g (ground arith))
    | inl t ↦ elim (Bool-cases (is_set (pte k pgdir va) pte_v)) [
      | inr v ↦
          rw (walk_found k pgdir va s.table_below false t, ◌>>=◌, v)
            (insert_entry_lem k pgdir pp va perm f s g (ground arith))
      | inl v ↦
          rw (walk_found k pgdir va s.table_below false t, ◌>>=◌, v)
            (rw (pa2page-ok k (pte k pgdir va) (s.page_below (ground arith)), ◌>>=◌)
              (present (ground arith)))
    ]
  ]
