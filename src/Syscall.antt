-- ===== src/Syscall.antt =====
-- lib/syscall_all.c: the system calls, with the guards and error codes of the source. An error
-- `-E` is returned as `E`, and 0 is success; printing is left out.
pub mod Alloc
pub mod Ipc
pub mod Guard
pub mod Memory
pub mod Recv
mod Tests
use buaa_mips_os.Base.{
  ℕ, ◌+◌, ◌-◌, ◌*◌, ◌/◌, ◌%◌, Bool, true, false, not, ◌&&◌, ◌||◌, Option, none, some, ◌==◌, leb,
  if◌then◌else◌, bit_or, update,
}
use buaa_mips_os.Base.Words.{rounddown}
use buaa_mips_os.Kernel.{
  Kern, Env, Trapframe, M, pure, panic, ◌>>=◌, ◌>>◌, get, modify, e_unspecified, e_bad_env, e_inval,
  e_no_mem, e_no_free_env, e_ipc_not_recv, env_free_status, env_runnable, env_not_runnable, set_env,
}
use buaa_mips_os.Pmap.{
  pte_v, pte_r, pte_cow, is_set, incref, page_alloc, page_lookup, page_insert, page_remove,
}
use buaa_mips_os.Env.{current, envid2env, env_alloc, env_destroy, sched_yield}

abbrev pub utop : ℕ
utop = 0x7f40_0000

-- A value, or the code of an error.
pub data Answer : Type 0 where
  ok : ℕ → Answer
  fail : ℕ → Answer

-- The use of a pointer that must not be NULL.
pub deref : Option ℕ → M ℕ
deref none = panic
deref (some p) = pure p

-- `env->env_pgdir`, for a page table function.
pub pgdir_of : ℕ → M ℕ
pgdir_of e = do k ← get; deref (k.envs e).env_pgdir

-- An assignment to fields of `envs[e]`.
pub change : ℕ → (Env → Env) → M (Unit {0})
change e f = modify λ k. set_env e (f (k.envs e)) k

pub sys_getenvid : M ℕ
sys_getenvid = do c ← current; k ← get; pure (k.envs c).env_id

pub sys_yield : M (Unit {0})
sys_yield = do modify λ k. record k { timestack = k.kernel_sp }; sched_yield

pub sys_env_destroy : ℕ → M ℕ
sys_env_destroy envid = do
  (r, penv) ← envid2env envid true
  if not (r == 0) then pure r else do e ← deref penv; env_destroy e; pure 0

pub sys_set_pgfault_handler : ℕ → ℕ → ℕ → M ℕ
sys_set_pgfault_handler envid func xstacktop = do
  (r, penv) ← envid2env envid true
  if not (r == 0) then pure e_inval else do
    e ← deref penv
    change e λ v. record v { env_pgfault_handler = func; env_xstacktop = xstacktop }
    pure 0

-- Behind the guards of `sys_mem_alloc`.
pub alloc_at : ℕ → ℕ → ℕ → M ℕ
alloc_at e va perm = do
  ppage ← page_alloc
  elim ppage [
    | none ↦ pure e_no_mem
    | some pp ↦ do
      modify (incref pp)
      pgdir ← pgdir_of e
      s ← page_insert pgdir pp va perm
      if not (s == 0) then pure e_no_mem else pure 0
  ]

pub sys_mem_alloc : ℕ → ℕ → ℕ → M ℕ
sys_mem_alloc envid va perm =
    if leb utop va
    then pure e_unspecified
    else if is_set perm pte_cow || not (is_set perm pte_v)
    then pure e_inval
    else do
      (r, penv) ← envid2env envid false
      if not (r == 0) then pure e_bad_env else do e ← deref penv; alloc_at e va perm

-- Behind the guards of `sys_mem_map`, whose `srcenv` and `dstenv` these are.
pub map_page : ℕ → ℕ → ℕ → ℕ → ℕ → M ℕ
map_page src srcva dst dstva perm = do
  srcdir ← pgdir_of src
  found ← page_lookup srcdir (rounddown srcva)
  elim found [
    | none ↦ pure e_unspecified
    | some (ppage, pte) ↦ do
      dstdir ← pgdir_of dst
      t ← page_insert dstdir ppage (rounddown dstva) perm
      if not (t == 0) then pure e_no_mem else pure 0
  ]

pub sys_mem_map : ℕ → ℕ → ℕ → ℕ → ℕ → M ℕ
sys_mem_map srcid srcva dstid dstva perm =
    if leb utop srcva || leb utop dstva
    then pure e_unspecified
    else if not (is_set perm pte_v)
    then pure e_inval
    else do
      (r, srcenv) ← envid2env srcid false
      if not (r == 0) then pure e_bad_env else do
        (s, dstenv) ← envid2env dstid false
        if not (s == 0)
            then pure e_bad_env
            else do src ← deref srcenv; dst ← deref dstenv; map_page src srcva dst dstva perm

pub sys_mem_unmap : ℕ → ℕ → M ℕ
sys_mem_unmap envid va = if leb utop va then pure e_inval else do
  (r, penv) ← envid2env envid true
  if not (r == 0)
      then pure e_inval
      else do e ← deref penv; pgdir ← pgdir_of e; page_remove pgdir va; pure 0

-- The register set of the parent, with the exception's program counter and 0 in `$v0`.
abbrev pub child_frame : Trapframe → Trapframe
child_frame tf = record tf { pc = tf.cp0_epc; regs = update tf.regs 2 0 }

pub sys_env_alloc : M Answer
sys_env_alloc = do
  id ← sys_getenvid
  (r, new) ← env_alloc id
  if not (r == 0) then pure (fail e_no_free_env) else do
    e ← deref new
    change e λ v. record v { env_status = env_not_runnable }
    k ← get
    change e λ v. record v { env_tf = child_frame k.kernel_sp }
    k' ← get
    pure (ok (k'.envs e).env_id)

pub sys_set_env_status : ℕ → ℕ → M ℕ
sys_set_env_status envid status =
    if not (status == env_runnable)
      && not (status == env_not_runnable)
      && not (status == env_free_status)
    then pure e_inval
    else do
      (r, penv) ← envid2env envid true
      if not (r == 0)
          then pure e_inval
          else do e ← deref penv; change e λ v. record v { env_status = status }; pure 0

pub sys_set_trapframe : ℕ → Trapframe → M ℕ
sys_set_trapframe envid tf = do
  (r, penv) ← envid2env envid true
  if not (r == 0) then pure r else do e ← deref penv; change e λ v. record v { env_tf = tf }; pure 0

pub sys_ipc_recv : ℕ → M (Unit {0})
sys_ipc_recv dstva = if leb utop dstva then pure tt else do
  c ← current
  change c
      λ v. record v { env_ipc_recving = 1; env_ipc_dstva = dstva; env_status = env_not_runnable }
  sys_yield

-- The message itself, once a page that goes with it is mapped.
pub deliver : ℕ → ℕ → ℕ → ℕ → M ℕ
deliver e c value perm = do
  change e λ v. record v {
    env_ipc_perm = bit_or (bit_or perm pte_v) pte_r;
    env_ipc_recving = 0;
    env_status = env_runnable;
    env_ipc_value = value;
  }
  k ← get
  change e λ v. record v { env_ipc_from = (k.envs c).env_id }
  pure 0

-- Behind the guards of `sys_ipc_can_send`: the page at `srcva`, if there is one, and the message.
pub transfer : ℕ → ℕ → ℕ → ℕ → ℕ → M ℕ
transfer e c value srcva perm = do
  srcdir ← pgdir_of c
  found ← page_lookup srcdir srcva
  k ← get
  elim found [
    | none ↦ deliver e c value perm
    | some (p, pte) ↦ do
      dstdir ← pgdir_of e
      s ← page_insert dstdir p (k.envs e).env_ipc_dstva perm
      if not (s == 0) then pure e_inval else deliver e c value perm
  ]

pub sys_ipc_can_send : ℕ → ℕ → ℕ → ℕ → M ℕ
sys_ipc_can_send envid value srcva perm = if leb utop srcva then pure e_inval else do
  (r, penv) ← envid2env envid false
  if not (r == 0) then pure e_inval else do
    e ← deref penv
    k ← get
    if (k.envs e).env_ipc_recving == 0
        then pure e_ipc_not_recv
        else do c ← current; transfer e c value srcva perm
