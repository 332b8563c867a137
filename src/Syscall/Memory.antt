-- ===== src/Syscall/Memory.antt =====
-- The system calls on address spaces: `sys_mem_alloc`, `sys_mem_map` and `sys_mem_unmap`.
use buaa_mips_os.Base.{ℕ, ◌≤◌, ◌<◌, ◌≡◌, ◌⊎◌, true, false, some, []}
use buaa_mips_os.Base.Words.{rounddown}
use buaa_mips_os.Kernel.{Kern, e_unspecified, e_bad_env, e_inval, e_no_mem}
use buaa_mips_os.Pmap.{pte_v, is_set, ppn, page2pa, va2pa}
use buaa_mips_os.Pmap.Returns.{Returns}
use buaa_mips_os.Pmap.Free.{FreeOk, SameEnvs}
use buaa_mips_os.Pmap.Walk.{pte}
use buaa_mips_os.Pmap.Remove.{SpaceOk, mapped}
use buaa_mips_os.Pmap.Entry.{PageOk}
use buaa_mips_os.Env.Ids.{Known}
use buaa_mips_os.Syscall.{utop, deref, pgdir_of}

pub pgdir_of-some :
    (k : Kern) (e d : ℕ) → (k.envs e).env_pgdir ≡ some d → pgdir_of e k ≡ some (d, k)
unfolding pgdir_of deref
pgdir_of-some k e d h = rw h

-- What source and destination of a `sys_mem_map` must be like.
pub record MapOk (k : Kern) (src dst srcdir dstdir srcva dstva perm : ℕ) : Type 0 where
  pub free : FreeOk k
  pub src_dir : (k.envs src).env_pgdir ≡ some srcdir
  pub dst_dir : (k.envs dst).env_pgdir ≡ some dstdir
  pub src_space : SpaceOk k srcdir (rounddown srcva)
  pub dst_space : SpaceOk k dstdir (rounddown dstva)
  pub page :
      mapped k srcdir (rounddown srcva) ≡ true
      → PageOk k (ppn (pte k srcdir (rounddown srcva))) perm

-- Both spaces share the page, or memory is full.
abbrev pub Shared : Kern → (srcdir dstdir srcva dstva perm r : ℕ) → Kern → Type 0
Shared k srcdir dstdir srcva dstva perm r k' =
    let page : ℕ = ppn (pte k srcdir (rounddown srcva)) in
    FreeOk k'
    × SameEnvs k k'
    × (((r ≡ 0) × (va2pa dstdir (rounddown dstva) k' ≡ some (page2pa page, k')))
        ⊎ ((r ≡ e_no_mem) × (k.page_free_list ≡ [])))

-- Behind the guards: there is nothing to map, or it is shared.
abbrev pub Found : Kern → (srcdir srcva dstdir dstva perm r : ℕ) → Kern → Type 0
Found k srcdir srcva dstdir dstva perm r k' =
    ((mapped k srcdir (rounddown srcva) ≡ false) × (r ≡ e_unspecified) × (k' ≡ k))
    ⊎ ((mapped k srcdir (rounddown srcva) ≡ true) × Shared k srcdir dstdir srcva dstva perm r k')

-- What `sys_mem_map` promises.
abbrev pub Maps : Kern → (srcid srcdir srcva dstid dstdir dstva perm r : ℕ) → Kern → Type 0
Maps k srcid srcdir srcva dstid dstdir dstva perm r k' =
    (((utop ≤ srcva) ⊎ (utop ≤ dstva)) × (r ≡ e_unspecified) × (k' ≡ k))
    ⊎ ((srcva < utop)
        × (dstva < utop)
        × (((is_set perm pte_v ≡ false) × (r ≡ e_inval) × (k' ≡ k))
            ⊎ ((is_set perm pte_v ≡ true)
                × ((((Known k srcid → ⊥) ⊎ (Known k dstid → ⊥)) × (r ≡ e_bad_env) × (k' ≡ k))
                    ⊎ (Known k srcid
                        × Known k dstid
                        × Found k srcdir srcva dstdir dstva perm r k')))))
