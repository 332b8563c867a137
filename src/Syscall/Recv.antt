-- ===== src/Syscall/Recv.antt =====
-- `sys_yield` and `sys_ipc_recv`: how the current environment gives up the processor.
use buaa_mips_os.Base.{
  true, false, ℕ, ◌≤◌, ◌<◌, ◌≡◌, ◌≢◌, ◌⊎◌, refl, some, leb, arith, Bool-cases, inl, inr,
}
use buaa_mips_os.Kernel.{Kern, Env, ◌>>=◌, env_not_runnable, nenv, set_env}
use buaa_mips_os.Pmap.{ppn}
use buaa_mips_os.Pmap.Returns.{Returns}
use buaa_mips_os.Env.{sched_yield}
use buaa_mips_os.Env.Ids.{current-some}
use buaa_mips_os.Env.Sched.{Runnable, at, switched-left, sched_yield-enters}
use buaa_mips_os.Syscall.{utop, change, sys_yield, sys_ipc_recv}

-- Environment `c` is current, another one, `e`, can run, and all directories are in memory.
pub record YieldOk (k : Kern) (c e : ℕ) : Type 0 where
  pub is_current : k.curenv ≡ some c
  pub other : c ≢ e
  pub exists : e < nenv
  pub ready : Runnable k e
  pub position : k.pos < nenv
  pub dirs : (j : ℕ) → ppn (k.envs j).env_cr3 < k.npage

-- The environment that waits for a message.
abbrev receiving : Env → ℕ → Env
receiving v dstva = record v {
  env_ipc_recving = 1;
  env_ipc_dstva = dstva;
  env_status = env_not_runnable;
}

-- What `sys_ipc_recv` promises where the address is below UTOP: environment `c` is blocked, and
-- resumes behind the system call.
pub record Blocked (k : Kern) (c dstva : ℕ) (k' : Kern) : Type 0 where
  pub entered : ℕ
  pub entered_current : k'.curenv ≡ some entered
  pub entered_ne : c ≢ entered
  pub entered_ready : Runnable k entered
  pub status : (k'.envs c).env_status ≡ env_not_runnable
  pub recving : (k'.envs c).env_ipc_recving ≡ 1
  pub dstva_set : (k'.envs c).env_ipc_dstva ≡ dstva
  pub resumes : (k'.envs c).env_tf.pc ≡ k.kernel_sp.cp0_epc
  pub result : (k'.envs c).env_tf.regs ≡ k.kernel_sp.regs

-- The state in which the scheduler starts.
abbrev waiting : Kern → ℕ → ℕ → Kern
waiting k c dstva = record (set_env c (receiving (k.envs c) dstva) k) { timestack = k.kernel_sp }

recv-eq :
    (k : Kern) (c dstva : ℕ)
    → k.curenv ≡ some c
    → leb utop dstva ≡ false
    → sys_ipc_recv dstva k ≡ sched_yield (waiting k c dstva)
unfolding sys_ipc_recv change sys_yield
recv-eq k c dstva h low = rw (low, current-some k c h, ◌>>=◌)

recv-high : (k : Kern) (dstva : ℕ) → leb utop dstva ≡ true → sys_ipc_recv dstva k ≡ some (tt, k)
unfolding sys_ipc_recv
recv-high k dstva high = rw high

-- `sys_ipc_recv` below UTOP blocks the environment until a message arrives, with its registers
-- saved behind the system call, and enters another environment, which can run. Above UTOP it
-- changes nothing.
pub sys_ipc_recv_lem :
    (k : Kern) (c e dstva : ℕ)
    → YieldOk k c e
    → Returns
        (λ _ k'. ((utop ≤ dstva) × (k' ≡ k)) ⊎ ((dstva < utop) × Blocked k c dstva k'))
        (sys_ipc_recv dstva k)
sys_ipc_recv_lem k c e dstva y = elim (Bool-cases (leb utop dstva)) [
  | inl high ↦ rw (recv-high k dstva high) (inl (ground arith, refl))
  | inr low ↦
      let w : Kern = waiting k c dstva in
      let (t, run, lt, close, eq) =
        sched_yield-enters w e y.exists y.position (ground (arith, y.ready, y.other))
          (λ j. ground (arith, y.dirs j)) in
      let ne : c ≢ t = ground (arith, run) in
      let left = switched-left (at w t) t c ne y.is_current in
      rw (recv-eq k c dstva y.is_current low, eq)
        (inr (
          ground arith,
          record {
            entered = t;
            entered_current = refl;
            entered_ne = ne;
            entered_ready = ground (arith, run);
            status = rw left (ground arith);
            recving = rw left (ground arith);
            dstva_set = rw left (ground arith);
            resumes = rw left refl;
            result = rw left refl;
          },
        ))
]
