-- ===== src/Kernel/Samples.antt =====
-- A small machine to run the code of the other modules on.
use buaa_mips_os.Base.{ℕ, ◌+◌, ◌*◌, ◌==◌, ◌&&◌, ◌||◌, if◌then◌else◌, Option, none, some, [], ◌∷◌}
use buaa_mips_os.Kernel.{Kern, Env, Trapframe, env_runnable, env_free_status}

abbrev pub frame : ℕ → Trapframe
frame pc = record {
  regs = λ i. i;
  cp0_status = 0;
  hi = 0;
  lo = 0;
  cp0_badvaddr = 0;
  cp0_cause = 0;
  cp0_epc = pc;
  pc = 0;
}

abbrev pub env_at : ℕ → ℕ → ℕ → Option ℕ → ℕ → Env
env_at id parent status pgdir cr3 = record {
  env_tf = frame 0;
  env_id = id;
  env_parent_id = parent;
  env_status = status;
  env_pgdir = pgdir;
  env_cr3 = cr3;
  env_ipc_value = 0;
  env_ipc_from = 0;
  env_ipc_recving = 0;
  env_ipc_dstva = 0;
  env_ipc_perm = 0;
  env_pgfault_handler = 0;
  env_xstacktop = 0;
  env_runs = 0;
}

-- Two environments in use: the current one, with directory 1, and its child, with directory 4,
-- which waits for a message.
abbrev pub two_envs : ℕ → Env
two_envs e =
    if e == 0
    then env_at 2048 0 env_runnable (some 1) 4096
    else if e == 1
    then record (env_at 4097 2048 2 (some 4) 0x4000) {
      env_ipc_recving = 1;
      env_ipc_dstva = 0x40_2000;
    }
    else env_at 0 0 env_free_status none 0

-- Table 2 holds the entry of page 3 at 0x400000. No other address is mapped.
abbrev pub sample_words : ℕ → ℕ → ℕ
sample_words p i =
    if (p == 1) && (i == 1)
    then 2 * 4096 + 0x200
    else if (p == 2) && (i == 0)
    then 3 * 4096 + 0x600
    else 0

abbrev pub sample : Kern
sample = record {
  npage = 8;
  freemem = 0;
  boot_pgdir = 0;
  pp_ref = λ p. if (p == 5) || (p == 6) then 0 else 1;
  page_free_list = 5 ∷ 6 ∷ [];
  mem = sample_words;
  tlb_flushed = [];
  envs = two_envs;
  curenv = some 0;
  env_free_list = 2 ∷ 3 ∷ [];
  next_env_id = 2;
  pos = 1023;
  kernel_sp = frame 0x40_0100;
  timestack = frame 0x40_0200;
}
