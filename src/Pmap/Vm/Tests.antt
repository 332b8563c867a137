-- ===== src/Pmap/Vm/Tests.antt =====
-- Instances of what is proved of the boot-time memory.
use buaa_mips_os.Base.{true, ◌≡◌, refl, some, arith}
use buaa_mips_os.Kernel.{Kern}
use buaa_mips_os.Kernel.Samples.{sample}
use buaa_mips_os.Pmap.Vm.Place.{AllocSays, alloc_lem}
use buaa_mips_os.Pmap.Vm.{alloc, mips_vm_init, mips_detect_memory}
use buaa_mips_os.Pmap.Vm.Init.{VmSays, mips_vm_init_lem}

-- 64 MB of memory, and nothing allocated.
abbrev at_boot : Kern
at_boot = record sample { npage = 0x4000; freemem = 0 }

detects : mips_detect_memory (record sample { freemem = 0 }) ≡ some (tt, at_boot)
unfolding mips_detect_memory
detects = refl

-- The kernel ends in the middle of a page.
mips_vm_init_lem_example : VmSays 19 (mips_vm_init 0x8001_2345 at_boot)
mips_vm_init_lem_example =
    mips_vm_init_lem 0x8001_2345 19 at_boot refl (omega arith) (omega arith) (omega arith)

alloc_lem_example : AllocSays 0x8001_2345 100 at_boot (alloc 0x8001_2345 100 4096 true at_boot)
alloc_lem_example = alloc_lem 0x8001_2345 100 at_boot (omega arith) (omega arith)
