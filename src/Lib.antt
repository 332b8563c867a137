-- ===== src/Lib.antt =====
-- BUAA_MIPS_OS is a small kernel for MIPS with a file system server and user-level libraries. This
-- library models its core in the order in which the parts rest on each other.
--
-- Queue      include/queue.h: the linked lists of free pages and environments, as links in arrays; the
--            kernel's other modules use the sequences that these lists refine.
-- Kernel     the globals of mm/pmap.c, lib/env.c and lib/sched.c in one record `Kern`, the structures
--            of include/env.h and include/trap.h, and the monad of code on it. `none` is a panic, or a
--            loop that does not end. Kernel/Samples holds a small machine to run the code on.
-- Pmap       mm/pmap.c with include/pmap.h and include/mmu.h: page_alloc, page_free, pgdir_walk,
--            page_lookup, page_insert, page_remove; Pmap/Boot has page_init and pageout,
--            Pmap/Vm the boot-time memory: alloc, boot_map_segment, mips_vm_init. A page, and
--            the virtual address of what it holds, are its number.
-- Env        lib/env.c and lib/sched.c: mkenvid, envid2env, env_init, env_alloc, env_free, env_destroy,
--            env_run and sched_yield. An environment is its index in `envs`. A run of env_run or
--            sched_yield gives the state in which user mode is entered. Env/Load has load_icode_mapper,
--            load_icode and env_create, over Elf and Copy: words of pages are bytes, the most significant
--            one first.
-- Syscall    lib/syscall_all.c: the system calls, on Pmap and Env.
-- Print      lib/print.c: PrintChar, PrintString, PrintNum and lp_Print.
-- Fs         fs/fs.c: the block cache, the bitmap, and the blocks of a file (Fs/File), on a state of
--            their own; what is called of the kernel there is `mem_alloc`.
--            Fs/Dir has the directories and paths, on pointers into the cache; Fs/Serv has fs/serv.c,
--            the table of open files and the requests, on Fs and Fs/Dir.
-- Fd         user/fd.c: the descriptor table of a process, over its devices as a parameter. Fd/Devfile
--            has user/file.c, the file device, over the requests of user/fsipc.c in Fd/Fsipc, which run the
--            server of Fs/Serv.
-- Pipe       user/pipe.c and user/pageref.c: reader and writer as interleaved steps; Pipe/Closed has the
--            reference counts, with the two halves of `dup` of user/fd.c.
-- Fork       user/fork.c: `duppage`, the loop of `fork`, and `pgfault`, on page tables as functions.
-- Copy       init/init.c and user/fork.c: `bcopy`, `bzero`, `user_bcopy` and `user_bzero`, on bytes.
-- Shell      user/sh.c: the lexer and the parser of command lines.
-- Strings    user/string.c.
-- Elf        lib/kernel_elfloader.c, with the callback as a parameter.
-- Base       the names that all modules share, and lemmas on tests, lists, words and bits.
--
-- Numbers are natural numbers; a wrap-around of a machine word is written out (Base/Words). An error
-- -E of the C code is E. Messages to the console are left out.
--
-- Loops count down the rounds that they have left. sched_yield has NENV rounds: a turn that finds no
-- environment to run comes back to its first state, so that the loop of the source would not end.
-- PrintNum has one round more than the number, and lp_Print one more than the format is long, and
-- fewer are needed. The other loops have the rounds of the source.
--
-- walk_path has a round for each character of the path, readn one for each byte that is asked, and the
-- lexer a call for each character of the line; fewer are needed. _pipeisclosed ends only if the process is
-- not switched for a while, so that its rounds are an argument.
--
-- Not modelled: the assembly routines (the switch to user mode, the exception vectors, the TLB
-- instructions), the devices, spawn, `fs_init`, the
-- console device, fstat and file_stat, the wrappers of the system calls, and the programs but for
-- the shell's parser. user/print.c is lib/print.c again. A descriptor number is not negative. A read of a page table that has no directory entry is a fault.
pub mod Base
pub mod Queue
pub mod Kernel
pub mod Pmap
pub mod Env
pub mod Syscall
pub mod Print
pub mod Fs
pub mod Fd
pub mod Pipe
pub mod Fork
pub mod Copy
pub mod Shell
pub mod Strings
pub mod Elf
