-- ===== src/Syscall/Tests.antt =====
-- Instances of what is proved of the system calls, on a small machine.
use buaa_mips_os.Base.{some, ◌≤◌, ◌<◌, ◌≡◌, ◌⊎◌, refl, arith, update}
use buaa_mips_os.Kernel.{Kern, env_runnable}
use buaa_mips_os.Kernel.Samples.{sample, two_envs}
use buaa_mips_os.Pmap.Returns.{Returns}
use buaa_mips_os.Pmap.Free.{FreeOk}
use buaa_mips_os.Pmap.Remove.{SpaceOk}
use buaa_mips_os.Pmap.Entry.{PageOk}
use buaa_mips_os.Syscall.{utop, sys_mem_alloc, sys_ipc_can_send, sys_ipc_recv}
use buaa_mips_os.Syscall.Alloc.{Allocs, sys_mem_alloc_lem}
use buaa_mips_os.Syscall.Ipc.{Sends, sys_ipc_can_send_lem}
use buaa_mips_os.Syscall.Recv.{Blocked, sys_ipc_recv_lem}

free : FreeOk sample
free = record {
  distinct = refl;
  below = λ p m. ground arith;
  unref = λ p m. ground arith;
  small = omega arith;
  short = λ p. ground arith;
}

-- Page 3 is mapped at 0x400000 in the space of environment 0.
sender_space : SpaceOk sample 1 0x40_0000
sender_space = record {
  table_below = omega arith;
  table_apart = λ h. omega arith;
  page_below = λ h. omega arith;
  page_held = λ h. omega arith;
  page_ne_dir = λ h. omega arith;
  page_ne_table = λ h. omega arith;
  dir_used = refl;
  table_used = λ h. refl;
}

-- The space of environment 1 is empty.
receiver_space : SpaceOk sample 4 0x40_2000
receiver_space = record {
  table_below = omega arith;
  table_apart = λ h. absurd (cc);
  page_below = λ h. absurd (cc);
  page_held = λ h. absurd (cc);
  page_ne_dir = λ h. absurd (cc);
  page_ne_table = λ h. absurd (cc);
  dir_used = refl;
  table_used = λ h. absurd (cc);
}

shared_page : PageOk sample 3 0x600
shared_page = record { exists = omega arith; used = refl; room = omega arith; flags = omega arith }

sys_mem_alloc_lem_example :
    Returns (Allocs sample 2048 1 0x40_0000 0x600) (sys_mem_alloc 2048 0x40_0000 0x600 sample)
sys_mem_alloc_lem_example =
    sys_mem_alloc_lem sample 0 1 0x40_0000 0x600
      (record { free = free; dir = refl; space = sender_space; flags = omega arith }) 2048
      (omega arith) (omega arith)

-- Environment 0 sends 42 and its page at 0x400000 to environment 1, which waits for it.
sys_ipc_can_send_lem_example :
    Returns
      (Sends sample 0 1 4 4097 42 0x40_0000 0x600)
      (sys_ipc_can_send 4097 42 0x40_0000 0x600 sample)
sys_ipc_can_send_lem_example =
    sys_ipc_can_send_lem sample 0 1 4 4097 42 0x40_0000 0x600 (omega arith) (record {
      free = free;
      sender = refl;
      dir_of = refl;
      space = sender_space;
      rdir_of = refl;
      rspace = receiver_space;
      page = λ m. shared_page;
    })

-- Both environments can run.
abbrev both : Kern
both = record sample {
  envs = update two_envs 1 (record (two_envs 1) { env_status = env_runnable });
}

sys_ipc_recv_lem_example :
    Returns
      (λ _ k'.
        ((utop ≤ 0x40_3000) × (k' ≡ both)) ⊎ ((0x40_3000 < utop) × Blocked both 0 0x40_3000 k'))
      (sys_ipc_recv 0x40_3000 both)
sys_ipc_recv_lem_example = sys_ipc_recv_lem both 0 1 0x40_3000 (record {
  is_current = refl;
  other = omega arith;
  exists = omega arith;
  ready = refl;
  position = omega arith;
  dirs = λ j. ground arith;
})

-- The child of environment 0 is current, and names its parent.
abbrev child_runs : Kern
child_runs = record sample { curenv = some 1 }
