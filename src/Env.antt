-- ===== src/Env.antt =====
-- lib/env.c: identifiers, allocation, release and switching of environments; and the round robin of
-- lib/sched.c, which `env_destroy` and the scheduler share. Printing is left out, and so are the
-- assembly routines `lcontext` and `env_pop_tf` that `env_run` ends in: a run of `env_run` or of
-- `sched_yield` gives the state in which the environment is entered.
pub mod Ids
pub mod Init
pub mod Alloc
pub mod Sched
pub mod Load
mod Tests
use buaa_mips_os.Base.{
  ℕ, zero, suc, ◌+◌, ◌-◌, ◌*◌, ◌/◌, ◌%◌, Bool, true, false, not, ◌&&◌, ◌||◌, Option, none, some,
  List, [], ◌∷◌, ◌==◌, ltb, leb, if◌then◌else◌, bit_or, update,
}
use buaa_mips_os.Base.Words.{u32}
use buaa_mips_os.Kernel.{
  Kern, Env, Trapframe, M, pure, panic, ◌>>=◌, ◌>>◌, get, modify, e_bad_env, e_no_free_env,
  env_free_status, env_runnable, nenv, envx, store_word, set_env,
}
use buaa_mips_os.Pmap.{
  pte_addr, pte_v, pte_r, is_set, ulim, kaddr, pa2page, page2pa, incref, page_alloc, page_decref,
  page_remove,
}

-- PDX(UTOP), PDX(UVPT), PDX(VPT), USTACKTOP and the initial status register.
abbrev pub pdx_utop : ℕ
pdx_utop = 509

abbrev pub pdx_uvpt : ℕ
pdx_uvpt = 511

abbrev pub pdx_vpt : ℕ
pdx_vpt = 513

abbrev pub ustacktop : ℕ
ustacktop = 0x7f3f_e000

-- A field of `curenv`, where `curenv` is not NULL.
pub current : M ℕ
current k = elim k.curenv [ none ↦ none | some e ↦ some (e, k) ]

pub mkenvid : ℕ → M ℕ
mkenvid e k =
    let next : ℕ = u32 (k.next_env_id + 1) in
    some (bit_or (u32 (next * 2048)) e, record k { next_env_id = next })

-- The return code, and what `*penv` receives.
pub envid2env : ℕ → Bool → M (ℕ × Option ℕ)
envid2env envid checkperm k =
    if envid == 0
    then some ((0, k.curenv), k)
    else let e : ℕ = envx envid in
      if (k.envs e).env_status == env_free_status || not ((k.envs e).env_id == envid)
      then some ((e_bad_env, none), k)
      else if not checkperm
      then some ((0, some e), k)
      else elim k.curenv [
        | none ↦ none
        | some c ↦
            if not (e == c) && not ((k.envs e).env_parent_id == (k.envs c).env_id)
            then some ((e_bad_env, none), k)
            else some ((0, some e), k)
      ]

-- The loop of `env_init`, with the rounds left: `envs[n - 1]` down to `envs[0]`.
abbrev pub init_step : ℕ → Kern → Kern
init_step i k = record k {
  envs = update k.envs i (record (k.envs i) { env_status = env_free_status });
  env_free_list = i ∷ k.env_free_list;
}

pub init_loop : ℕ → Kern → Kern
init_loop zero k = k
init_loop (suc i) k = init_loop i (init_step i k)

pub env_init : M (Unit {0})
env_init k = some (tt, init_loop nenv (record k { env_free_list = [] }))

-- The entries that steps 2 to 4 of `env_setup_vm` leave in the directory on page `p`, index by
-- index: zeros below UTOP, then the kernel's entries, then the two entries for itself.
pub setup_entry : Kern → ℕ → ℕ → ℕ → ℕ
setup_entry k p cr3 i =
    if i == pdx_uvpt
    then bit_or (bit_or cr3 pte_v) pte_r
    else if i == pdx_vpt
    then cr3
    else if ltb i pdx_utop
    then 0
    else if ltb i 1024
    then k.mem k.boot_pgdir i
    else k.mem p i

pub env_setup_vm : ℕ → M ℕ
env_setup_vm e = do
  p ← page_alloc
  elim p [
    | none ↦ panic
    | some p ↦ do
      modify (incref p)
      pgdir ← kaddr (page2pa p)
      k ← get
      let cr3 = page2pa p
      modify λ k. record k { mem = update k.mem pgdir (setup_entry k pgdir cr3) }
      modify λ k. set_env e (record (k.envs e) { env_pgdir = some pgdir; env_cr3 = cr3 }) k
      pure 0
  ]

abbrev pub first_frame : Trapframe → Trapframe
first_frame tf = record tf { cp0_status = 0x1000_1004; regs = update tf.regs 29 ustacktop }

-- `env_alloc` on the environments that are free.
pub alloc_from : List ℕ → ℕ → M (ℕ × Option ℕ)
alloc_from [] parent_id = pure (e_no_free_env, none)
alloc_from (e ∷ rest) parent_id = do
  _ ← env_setup_vm e
  id ← mkenvid e
  modify λ k.
      set_env e
        (record (k.envs e) {
          env_parent_id = parent_id;
          env_status = env_runnable;
          env_runs = 0;
          env_id = id;
          env_tf = first_frame (k.envs e).env_tf;
        })
        k
  modify λ k. record k { env_free_list = rest }
  pure (0, some e)

-- The return code, and what `*new` receives.
pub env_alloc : ℕ → M (ℕ × Option ℕ)
env_alloc parent_id k = alloc_from k.env_free_list parent_id k

-- The inner loop of `env_free`: `n` rounds left, from `pteno` on, over the table on page `pt`.
pub free_table : ℕ → ℕ → ℕ → ℕ → ℕ → M (Unit {0})
free_table zero pteno pgdir pdeno pt = pure tt
free_table (suc n) pteno pgdir pdeno pt = do
  k ← get
  if is_set (k.mem pt pteno) pte_v
      then page_remove pgdir (bit_or (u32 (pdeno * 0x40_0000)) (pteno * 4096))
      else pure tt
  free_table n (pteno + 1) pgdir pdeno pt

-- The outer loop: `n` rounds left, from `pdeno` on.
pub free_dir : ℕ → ℕ → ℕ → M (Unit {0})
free_dir zero pdeno pgdir = pure tt
free_dir (suc n) pdeno pgdir = do
  k ← get
  let pde = k.mem pgdir pdeno
  if not (is_set pde pte_v) then pure tt else do
    pt ← kaddr (pte_addr pde)
    free_table 1024 0 pgdir pdeno pt
    modify (store_word pgdir pdeno 0)
    page ← pa2page (pte_addr pde)
    page_decref page
  free_dir n (pdeno + 1) pgdir

pub env_free : ℕ → M (Unit {0})
env_free e = do
  k ← get
  elim (k.envs e).env_pgdir [
    | none ↦ panic
    | some pgdir ↦ do
      free_dir pdx_utop 0 pgdir
      k ← get
      let pa = (k.envs e).env_cr3
      modify λ k. set_env e (record (k.envs e) { env_pgdir = none; env_cr3 = 0 }) k
      page ← pa2page pa
      page_decref page
      modify λ k. set_env e (record (k.envs e) { env_status = env_free_status }) k
      modify λ k. record k { env_free_list = e ∷ k.env_free_list }
  ]

-- Step 1 of `env_run`: the registers of the environment that ran before, if there is one.
pub save_frame : Option ℕ → Kern → Kern
save_frame none k = k
save_frame (some c) k =
    set_env c (record (k.envs c) { env_tf = record k.timestack { pc = k.timestack.cp0_epc } }) k

-- Up to the entry into user mode.
pub env_run : ℕ → M (Unit {0})
env_run e = do
  modify λ k. save_frame k.curenv k
  modify λ k. record k { curenv = some e }
  modify λ k. set_env e (record (k.envs e) { env_runs = u32 ((k.envs e).env_runs + 1) }) k
  k ← get
  _ ← kaddr (k.envs e).env_cr3
  pure tt

-- The loop of `sched_yield`, with the rounds left. `pos` starts at -1, and every use of it is
-- `(pos + 1) % NENV`: the model starts it at 1023. A turn over all of `envs` that finds none to
-- run comes back to the state that it started from, so the loop does not end: `none`.
pub sched_loop : ℕ → M (Unit {0})
sched_loop zero k = none
sched_loop (suc n) k =
    let next : ℕ = (k.pos + 1) % nenv in
    let k' : Kern = record k { pos = next } in
    let rest = sched_loop n k' in
    if (k.envs next).env_status == env_runnable then env_run next k' else rest

pub sched_yield : M (Unit {0})
sched_yield = sched_loop nenv

pub env_destroy : ℕ → M (Unit {0})
env_destroy e = do
  env_free e
  k ← get
  if not (elim k.curenv [ none ↦ false | some c ↦ c == e ])
      then pure tt
      else do modify λ k. record k { curenv = none; timestack = k.kernel_sp }; sched_yield
