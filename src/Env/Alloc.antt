-- ===== src/Env/Alloc.antt =====
-- `env_alloc`: an environment from the free list, with a directory of its own.
use buaa_mips_os.Base.{
  Option, ℕ, ◌+◌, ◌*◌, ◌≤◌, ◌<◌, ◌≡◌, ◌≢◌, refl, false, none, some, List, [], ◌∷◌, arith, bit_or,
  update, contains, List-cases, inl, inr, ap, ◌∙◌,
}
use buaa_mips_os.Base.Bits.{bit_or-ppn}
use buaa_mips_os.Kernel.{Kern, Env, ◌>>=◌, ◌>>◌, e_no_free_env, env_runnable, nenv, envx, set_env}
use buaa_mips_os.Pmap.{pte_v, pte_r, page2pa, ppn, incref}
use buaa_mips_os.Pmap.Returns.{Returns}
use buaa_mips_os.Pmap.Free.{
  FreeOk, FreeOk-frame, allocated, allocated-FreeOk, page_alloc-cons, kaddr-ok, ppn-page2pa,
}
use buaa_mips_os.Pmap.Entry.{incref-FreeOk}
use buaa_mips_os.Env.{
  first_frame, pdx_utop, pdx_uvpt, pdx_vpt, ustacktop, setup_entry, envid2env, env_setup_vm,
  alloc_from, env_alloc,
}
use buaa_mips_os.Env.Ids.{mkenvid_sum, envid2env-found}
use buaa_mips_os.Env.Init.{EnvOk}

-- The state behind `env_setup_vm` that takes page `p`.
abbrev set_up : Kern → ℕ → ℕ → List ℕ → Kern
set_up k e p rest =
    let a : Kern = incref p (allocated k p rest) in
    let b : Kern = record a { mem = update a.mem p (setup_entry a p (page2pa p)) } in
    set_env e (record (k.envs e) { env_pgdir = some p; env_cr3 = page2pa p }) b

env_setup_vm_lem :
    (k : Kern) (e p : ℕ) (rest : List ℕ)
    → FreeOk k
    → k.page_free_list ≡ p ∷ rest
    → env_setup_vm e k ≡ some (0, set_up k e p rest)
unfolding env_setup_vm
env_setup_vm_lem k e p rest f l =
    let lt : p < k.npage = f.below p (rw l (ground arith)) in
    let back = ppn-page2pa p k.npage lt f.small in
    rw (page_alloc-cons k p rest f l, ◌>>=◌)
      (rw (kaddr-ok (incref p (allocated k p rest)) (page2pa p) (rw back lt), ◌>>=◌, ◌>>◌)
        (rw back))

-- The state behind `env_alloc` of environment `e` with directory `p`.
abbrev created : Kern → ℕ → ℕ → List ℕ → List ℕ → ℕ → Kern
created k e p pages rest parent =
    let s : Kern = set_up k e p pages in
    let v : Env = record (s.envs e) {
      env_parent_id = parent;
      env_status = env_runnable;
      env_runs = 0;
      env_id = (k.next_env_id + 1) * 2048 + e;
      env_tf = first_frame (s.envs e).env_tf;
    } in
    record (set_env e v s) { next_env_id = k.next_env_id + 1; env_free_list = rest }

alloc_from-cons :
    (k : Kern) (e p parent : ℕ) (pages rest : List ℕ)
    → FreeOk k
    → e < nenv
    → k.next_env_id + 1 < 0x20_0000
    → k.page_free_list ≡ p ∷ pages
    → alloc_from (e ∷ rest) parent k ≡ some ((0, some e), created k e p pages rest parent)
unfolding alloc_from
alloc_from-cons k e p parent pages rest f lt room l =
    rw (env_setup_vm_lem k e p pages f l, ◌>>=◌)
      (rw (mkenvid_sum (set_up k e p pages) e lt room, ◌>>=◌))

env_alloc-cons :
    (k : Kern) (e p parent : ℕ) (pages rest : List ℕ)
    → FreeOk k
    → EnvOk k
    → k.next_env_id + 1 < 0x20_0000
    → k.page_free_list ≡ p ∷ pages
    → k.env_free_list ≡ e ∷ rest
    → env_alloc parent k ≡ some ((0, some e), created k e p pages rest parent)
unfolding env_alloc
env_alloc-cons k e p parent pages rest f v room l m =
    ap (λ l. alloc_from l parent k) m
    ∙ alloc_from-cons k e p parent pages rest f (v.below e (rw m (ground arith))) room l

env_alloc-nil :
    (k : Kern) (parent : ℕ)
    → k.env_free_list ≡ []
    → env_alloc parent k ≡ some ((e_no_free_env, none), k)
unfolding env_alloc alloc_from
env_alloc-nil k parent m = ap (λ l. alloc_from l parent k) m

-- What `env_alloc` promises of the environment `e` that it returns.
pub record Created (k : Kern) (parent : ℕ) (e : ℕ) (k' : Kern) : Type 0 where
  pub taken : k.env_free_list ≡ e ∷ k'.env_free_list
  pub exists : e < nenv
  pub named : envx (k'.envs e).env_id ≡ e
  pub found : envid2env (k'.envs e).env_id false k' ≡ some ((0, some e), k')
  pub runnable : (k'.envs e).env_status ≡ env_runnable
  pub child_of : (k'.envs e).env_parent_id ≡ parent
  pub stack : (k'.envs e).env_tf.regs 29 ≡ ustacktop
  pub others : (j : ℕ) → j ≢ e → k'.envs j ≡ k.envs j
  pub dir : ℕ
  pub dir_taken : k.page_free_list ≡ dir ∷ k'.page_free_list
  pub dir_set : (k'.envs e).env_pgdir ≡ some dir
  pub dir_held : k'.pp_ref dir ≡ 1
  pub user_part : (i : ℕ) → i < pdx_utop → k'.mem dir i ≡ 0
  pub kernel_part :
      (i : ℕ)
      → pdx_utop ≤ i
      → i < 1024
      → i ≢ pdx_uvpt
      → i ≢ pdx_vpt
      → k'.mem dir i ≡ k.mem k.boot_pgdir i
  pub self_map : ppn (k'.mem dir pdx_uvpt) ≡ dir

-- The pages and environments that `env_alloc` needs are well-formed, and fewer than 2^21
-- environments have been made.
pub record AllocOk (k : Kern) : Type 0 where
  pub pages : FreeOk k
  pub environments : EnvOk k
  pub room : k.next_env_id + 1 < 0x20_0000
  pub boot_used : contains k.page_free_list k.boot_pgdir ≡ false

module _ (k : Kern) (e p parent : ℕ) (pages rest : List ℕ) (a : AllocOk k)
    (l : k.page_free_list ≡ p ∷ pages) (m : k.env_free_list ≡ e ∷ rest) where
  created-Created : Created k parent e (created k e p pages rest parent)
  unfolding setup_entry
  created-Created =
      let k' : Kern = created k e p pages rest parent in
      let lt : e < nenv = a.environments.below e (rw m (ground arith)) in
      let id : (k'.envs e).env_id ≡ (k.next_env_id + 1) * 2048 + e = ground arith in
      let at : envx (k'.envs e).env_id ≡ e = rw id (omega arith) in
      record {
        taken = m;
        exists = lt;
        named = at;
        found =
            rw
              (
                envid2env-found k' (k'.envs e).env_id (rw id (omega arith)) (rw at refl)
                    (rw at (ground arith)),
                at,
              )
              refl;
        runnable = ground arith;
        child_of = ground arith;
        stack = ground arith;
        others = λ j ne. ground arith;
        dir = p;
        dir_taken = l;
        dir_set = ground arith;
        dir_held = ground (arith, a.pages.unref p, l);
        user_part = λ i lt. ground arith;
        kernel_part = λ i le lt ne ne'. ground (arith, a.boot_used);
        self_map =
            let w : k'.mem p pdx_uvpt ≡ bit_or (bit_or (page2pa p) pte_v) pte_r = ground arith in
            ap ppn w
            ∙ bit_or-ppn (bit_or (page2pa p) pte_v) pte_r (omega arith)
            ∙ bit_or-ppn (page2pa p) pte_v (omega arith)
            ∙ ppn-page2pa p k.npage (a.pages.below p (rw l (ground arith))) a.pages.small;
      }

  created-ok : FreeOk (created k e p pages rest parent) × EnvOk (created k e p pages rest parent)
  created-ok =
      let k' : Kern = created k e p pages rest parent in
      (
        FreeOk-frame (incref p (allocated k p pages)) k' refl refl refl (
            incref-FreeOk (allocated k p pages) p (allocated-FreeOk k p pages a.pages l)
              (ground (arith, a.pages.distinct, l))),
        record {
          distinct = ground (arith, a.environments.distinct, m);
          below = λ j mem. a.environments.below j (rw m (ground arith));
          marked = λ j mem. ground (arith, a.environments.marked j, a.environments.distinct, m);
        },
      )

-- What `env_alloc` promises of its result and of the state behind it.
abbrev pub AllocatesEnv : Kern → ℕ → ℕ × Option ℕ → Kern → Type 0
AllocatesEnv k parent (r, o) k' = FreeOk k' × EnvOk k' × elim o [
  | none ↦ (r ≡ e_no_free_env) × (k.env_free_list ≡ []) × (k' ≡ k)
  | some e ↦ (r ≡ 0) × Created k parent e k'
]

-- `env_alloc` fails with E_NO_FREE_ENV exactly where no environment is free, and changes nothing
-- then. Otherwise, if a page is free, it returns the first free environment: runnable, found by
-- its identifier, with a directory of its own that maps nothing below UTOP and what the kernel
-- maps above, but for the two entries that map the directory itself. All other environments are
-- as before, and both free lists are as they should be.
pub env_alloc_lem :
    (k : Kern) (parent : ℕ)
    → AllocOk k
    → k.page_free_list ≢ []
    → Returns (AllocatesEnv k parent) (env_alloc parent k)
env_alloc_lem k parent a ne = elim (List-cases k.env_free_list) [
  | inl m ↦ rw (env_alloc-nil k parent m) (a.pages, a.environments, (refl, m, refl))
  | inr (e, rest, m) ↦ elim (List-cases k.page_free_list) [
    | inl l ↦ absurd (ne l)
    | inr (p, pages, l) ↦
        rw (env_alloc-cons k e p parent pages rest a.pages a.environments a.room l m) (
          (created-ok k e p parent pages rest a l m).0,
          (created-ok k e p parent pages rest a l m).1,
          (refl, created-Created k e p parent pages rest a l m),
        )
  ]
]
