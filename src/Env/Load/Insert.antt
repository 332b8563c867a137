-- ===== src/Env/Load/Insert.antt =====
-- `page_insert` at an address of the user's part where no page is mapped: one more entry, and nothing else.
use buaa_mips_os.Base.{ℕ, ◌<◌, ◌≡◌, ◌⊎◌, refl, none, [], Bool-cases, List-cases, inl, inr}
use buaa_mips_os.Kernel.{Kern, e_no_mem}
use buaa_mips_os.Pmap.{pdx, ptx, page_insert}
use buaa_mips_os.Pmap.Walk.{has_table}
use buaa_mips_os.Pmap.Returns.{Returns}
use buaa_mips_os.Pmap.Insert.{page_insert-unmapped}
use buaa_mips_os.Pmap.Entry.{entry, PageOk, entry_table, entry_new, entry_full}
use buaa_mips_os.Pmap.Vm.Entry.{entry_at}
use buaa_mips_os.Env.{pdx_utop}
use buaa_mips_os.Env.Load.Space.{Outside, UserOk}
use buaa_mips_os.Env.Load.Table.{Maps, free_here, space, entered-Maps}
use buaa_mips_os.Env.Load.Grow.{grown-Maps}

module _ (k : Kern) (pgdir pp va perm : ℕ) (u : UserOk k pgdir) (out : Outside k pgdir pp)
    (g : PageOk k pp perm) (lt : pdx va < pdx_utop)
    (none_there : entry_at k pgdir (pdx va) (ptx va) ≡ none) where
  -- What `page_insert` gives: one more entry, or E_NO_MEM, where no page is free for the table.
  abbrev pub MapsOrFull : ℕ → Kern → Type 0
  MapsOrFull r k' =
      ((r ≡ 0) × Maps k pgdir (pdx va) (ptx va) (entry pp perm) k')
      ⊎ ((r ≡ e_no_mem) × (k'.page_free_list ≡ []))

  pub page_insert-Maps : Returns MapsOrFull (page_insert pgdir pp va perm k)
  page_insert-Maps =
      rw
        (page_insert-unmapped k pgdir pp va perm
          (space k pgdir pp va perm u out g lt none_there).table_below
          (free_here k pgdir pp va perm u out g lt none_there))
        (elim (Bool-cases (has_table k pgdir va)) [
          | inl t ↦
              rw (entry_table k pgdir pp va perm (space k pgdir pp va perm u out g lt none_there) t)
                (inl (refl, entered-Maps k pgdir pp va perm u out g lt none_there t))
          | inr t ↦ elim (List-cases k.page_free_list) [
            | inl e ↦
                rw
                  (entry_full k pgdir pp va perm (space k pgdir pp va perm u out g lt none_there) t
                    e)
                  (inr (refl, e))
            | inr (new, rest, e) ↦
                rw
                  (entry_new k pgdir pp va perm (space k pgdir pp va perm u out g lt none_there) new
                    rest u.tables.free t e)
                  (inl (refl, grown-Maps k pgdir pp va perm u out g lt none_there t new rest e))
          ]
        ])
