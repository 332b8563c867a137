-- ===== src/Syscall/Alloc.antt =====
-- `sys_mem_alloc`: a fresh page at an address.
use buaa_mips_os.Base.{
  ◌∙◌, ℕ, ◌≤◌, ◌<◌, ◌≡◌, ◌≢◌, ◌⊎◌, refl, true, false, not, ◌&&◌, ◌||◌, some, List, [], ◌∷◌, ◌==◌,
  leb, if◌then◌else◌, arith, Bool-cases, List-cases, inl, inr,
}
use buaa_mips_os.Kernel.{Kern, ◌>>=◌, ◌>>◌, pure, e_unspecified, e_bad_env, e_inval, e_no_mem, envx}
use buaa_mips_os.Pmap.{pte_v, pte_cow, is_set, ppn, page2pa, va2pa, page_insert, incref}
use buaa_mips_os.Pmap.Returns.{Returns, bind, mono}
use buaa_mips_os.Pmap.Free.{
  SameEnvs-refl, SameEnvs-trans, FreeOk, SameEnvs, allocated, allocated-FreeOk, page_alloc-nil,
  page_alloc-cons,
}
use buaa_mips_os.Pmap.Walk.{pte, pde, has_table}
use buaa_mips_os.Pmap.Remove.{SpaceOk, mapped}
use buaa_mips_os.Pmap.Entry.{same_envs, PageOk, Inserted, incref-FreeOk}
use buaa_mips_os.Pmap.Insert.{page_insert_lem}
use buaa_mips_os.Env.Ids.{Known, envid2env-cases}
use buaa_mips_os.Syscall.{utop, deref, alloc_at, sys_mem_alloc}
use buaa_mips_os.Syscall.Memory.{pgdir_of-some}

-- The state behind `page_alloc` and `pp_ref++`.
abbrev held : Kern → ℕ → List ℕ → Kern
held k pp rest = incref pp (allocated k pp rest)

module _ (k : Kern) (pgdir va pp : ℕ) (rest : List ℕ) (f : FreeOk k) (s : SpaceOk k pgdir va)
    (l : k.page_free_list ≡ pp ∷ rest) where
  -- A page that is free is no part of the address space.
  held-pde : pde (held k pp rest) pgdir va ≡ pde k pgdir va
  held-pde = ground (arith, s.dir_used)

  held-pte : has_table k pgdir va ≡ true → pte (held k pp rest) pgdir va ≡ pte k pgdir va
  held-pte t = rw held-pde (ground (arith, s.table_used t))

  held-mapped : mapped (held k pp rest) pgdir va ≡ mapped k pgdir va
  held-mapped = elim (Bool-cases (has_table k pgdir va)) [
    | inl t ↦ rw (held-pte t) (rw held-pde refl)
    | inr t ↦ rw held-pde (rw t refl)
  ]

  held-SpaceOk : SpaceOk (held k pp rest) pgdir va
  held-SpaceOk =
      let t : mapped k pgdir va ≡ true → has_table k pgdir va ≡ true = λ m. ground arith in
      record {
        table_below = rw held-pde s.table_below;
        table_apart = rw held-pde s.table_apart;
        page_below = rw held-mapped (λ m. rw (held-pte (t m)) (s.page_below m));
        page_held =
            rw held-mapped (λ m. rw (held-pte (t m)) (ground (arith, s.page_held m, f.unref pp)));
        page_ne_dir = rw held-mapped (λ m. rw (held-pte (t m)) (s.page_ne_dir m));
        page_ne_table = rw held-mapped (λ m. rw (held-pte (t m), held-pde) (s.page_ne_table m));
        dir_used = ground (arith, s.dir_used);
        table_used = rw held-pde (λ h. ground (arith, s.table_used h));
      }

  held-FreeOk : FreeOk (held k pp rest)
  held-FreeOk =
      incref-FreeOk (allocated k pp rest) pp (allocated-FreeOk k pp rest f l)
        (ground (arith, f.distinct))

  held-PageOk : (perm : ℕ) → perm < 4096 → PageOk (held k pp rest) pp perm
  held-PageOk perm small = record {
    exists = f.below pp (rw l (ground arith));
    used = ground (arith, f.distinct);
    room = ground (arith, f.unref pp);
    flags = small;
  }

  -- The first free page was mapped nowhere.
  held-fresh :
      (mapped (held k pp rest) pgdir va && (ppn (pte (held k pp rest) pgdir va) == pp)) ≡ false
  held-fresh = elim (Bool-cases (mapped k pgdir va)) [
    | inl m ↦ rw (held-mapped, held-pte (ground arith)) (ground (arith, s.page_held, f.unref pp))
    | inr m ↦ rw (held-mapped, m) refl
  ]

-- What the environment whose page is allocated must be like.
pub record AllocOk (k : Kern) (e pgdir va perm : ℕ) : Type 0 where
  pub free : FreeOk k
  pub dir : (k.envs e).env_pgdir ≡ some pgdir
  pub space : SpaceOk k pgdir va
  pub flags : perm < 4096

-- A page `pp` that was free is mapped at `va`, with two references; or no page is free; or the
-- last free page is taken, with one reference, and there is none for the page table.
abbrev pub Fresh : Kern → (pgdir va perm r : ℕ) → Kern → Type 0
Fresh k pgdir va perm r k' =
    FreeOk k'
    × SameEnvs k k'
    × (((r ≡ e_no_mem) × (k.page_free_list ≡ []) × (k' ≡ k))
        ⊎ ((pp : ℕ) × (rest : List ℕ) × (k.page_free_list ≡ pp ∷ rest)
            × (((r ≡ 0) × (va2pa pgdir va k' ≡ some (page2pa pp, k')) × (k'.pp_ref pp ≡ 2))
                ⊎ ((r ≡ e_no_mem)
                    × (has_table k pgdir va ≡ false)
                    × (k'.page_free_list ≡ [])
                    × (k'.pp_ref pp ≡ 1)))))

-- What `sys_mem_alloc` promises.
abbrev pub Allocs : Kern → (envid pgdir va perm r : ℕ) → Kern → Type 0
Allocs k envid pgdir va perm r k' =
    ((utop ≤ va) × (r ≡ e_unspecified) × (k' ≡ k))
    ⊎ ((va < utop)
        × ((((is_set perm pte_cow ≡ true) ⊎ (is_set perm pte_v ≡ false)) × (r ≡ e_inval) × (k' ≡ k))
            ⊎ ((is_set perm pte_cow ≡ false)
                × (is_set perm pte_v ≡ true)
                × (((Known k envid → ⊥) × (r ≡ e_bad_env) × (k' ≡ k))
                    ⊎ (Known k envid × Fresh k pgdir va perm r k')))))

bad_flags :
    (perm : ℕ)
    → (is_set perm pte_cow || not (is_set perm pte_v)) ≡ true
    → (is_set perm pte_cow ≡ true) ⊎ (is_set perm pte_v ≡ false)
bad_flags perm h = elim (Bool-cases (is_set perm pte_cow)) [
  | inl c ↦ inl c
  | inr c ↦ inr (ground (arith, h, c))
]

module _ (k : Kern) (e pgdir va perm : ℕ) (a : AllocOk k e pgdir va perm) where
  finish :
      (pp : ℕ) (rest : List ℕ)
      → k.page_free_list ≡ pp ∷ rest
      → (r : ℕ) (k' : Kern) → Inserted (held k pp rest) pgdir pp va perm r k'
      → Returns (Fresh k pgdir va perm) ((if not (r == 0) then pure e_no_mem else pure 0) k')
  finish pp rest l r k' (f, n, inl (z, at, _, refs)) = rw z (
    f,
    SameEnvs-trans k (held k pp rest) k'
        (same_envs k (held k pp rest) refl refl refl refl refl refl refl) n,
    inr (
      pp,
      rest,
      l,
      inl (
        refl,
        at,
        refs
            ∙ rw (held-fresh k pgdir va pp rest a.free a.space l) (ground (arith, a.free.unref pp)),
      ),
    ),
  )
  finish pp rest l r k' (f, n, inr (z, t, empty, same)) = rw z (
    f,
    SameEnvs-trans k (held k pp rest) k'
        (same_envs k (held k pp rest) refl refl refl refl refl refl refl) n,
    inr (pp, rest, l, inr (refl, ground arith, ground arith, ground (arith, a.free.unref pp))),
  )

  alloc : Returns (Fresh k pgdir va perm) (alloc_at e va perm k)
  unfolding alloc_at
  alloc = elim (List-cases k.page_free_list) [
    | inl l ↦ rw (page_alloc-nil k l, ◌>>=◌) (a.free, SameEnvs-refl k, inl (refl, l, refl))
    | inr (pp, rest, l) ↦
        rw (page_alloc-cons k pp rest a.free l, ◌>>=◌, ◌>>◌)
          (rw (pgdir_of-some (held k pp rest) e pgdir a.dir, ◌>>=◌)
            (bind (Fresh k pgdir va perm) (page_insert pgdir pp va perm (held k pp rest))
              (λ r. if not (r == 0) then pure e_no_mem else pure 0)
              (page_insert_lem (held k pp rest) pgdir pp va perm
                (held-FreeOk k pgdir va pp rest a.free a.space l)
                (held-SpaceOk k pgdir va pp rest a.free a.space l)
                (held-PageOk k pgdir va pp rest a.free a.space l perm a.flags))
              (finish pp rest l)))
  ]

  -- `sys_mem_alloc` on a nonzero identifier does not panic. An address above UTOP, permissions with
  -- PTE_COW or without PTE_V, and an unknown identifier are errors that change nothing, and each comes
  -- only where those before it do not. Behind all of them a page that was free is mapped at `va`, and
  -- has two references; or the call fails with E_NO_MEM, where no page is free, or where the last free
  -- page is taken and none is left for the missing page table: that page then keeps one reference and
  -- is in no free list.
  pub sys_mem_alloc_lem :
      (envid : ℕ)
      → envid ≢ 0
      → envx envid ≡ e
      → Returns (Allocs k envid pgdir va perm) (sys_mem_alloc envid va perm k)
  unfolding sys_mem_alloc deref
  sys_mem_alloc_lem envid ne at = elim (Bool-cases (leb utop va)) [
    | inl high ↦ rw high (inl (ground arith, refl, refl))
    | inr low ↦ elim (Bool-cases (is_set perm pte_cow || not (is_set perm pte_v))) [
      | inl bad ↦ rw (low, bad) (inr (ground (arith, low), inl (bad_flags perm bad, refl, refl)))
      | inr good ↦ elim (envid2env-cases k envid ne) [
        | inr (no', eq) ↦
            rw (low, good, eq, ◌>>=◌)
              (inr (
                ground (arith, low),
                inr (ground (arith, good), ground (arith, good), inl (no', refl, refl)),
              ))
        | inl (known, eq) ↦
            rw (low, good, eq, ◌>>=◌, at)
              (mono (alloc_at e va perm k) alloc (λ r k' h. inr (
                ground (arith, low),
                inr (ground (arith, good), ground (arith, good), inr (known, h)),
              )))
      ]
    ]
  ]
