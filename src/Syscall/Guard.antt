-- ===== src/Syscall/Guard.antt =====
-- lib/syscall_all.c: the system calls that act on another environment refuse one that is not the caller
-- or its child.
use buaa_mips_os.Base.{ℕ, ◌≡◌, some}
use buaa_mips_os.Kernel.{Kern, Trapframe, e_bad_env, e_inval}
use buaa_mips_os.Syscall.{
  sys_env_destroy, sys_set_pgfault_handler, sys_mem_unmap, sys_set_env_status, sys_set_trapframe,
}

-- On an environment that is neither the caller nor a child of the caller, all five calls return an error
-- and change nothing.
abbrev pub Refused : Kern → ℕ → ℕ → ℕ → Trapframe → Type 0
Refused k envid x y tf =
    (sys_env_destroy envid k ≡ some (e_bad_env, k))
    × (sys_set_pgfault_handler envid x y k ≡ some (e_inval, k))
    × (sys_mem_unmap envid x k ≡ some (e_inval, k))
    × (sys_set_env_status envid x k ≡ some (e_inval, k))
    × (sys_set_trapframe envid tf k ≡ some (e_bad_env, k))
