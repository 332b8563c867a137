-- ===== src/Kernel.antt =====
-- The kernel's state: the globals of mm/pmap.c, lib/env.c and lib/sched.c in one record, the
-- structures of include/env.h and include/trap.h, and the monad of code that updates them.
pub mod Samples
use buaa_mips_os.Base.{
  ℕ, ◌+◌, ◌*◌, ◌/◌, ◌%◌, Bool, Option, none, some, List, ◌==◌, ltb, if◌then◌else◌, update,
}

-- struct Trapframe
pub record Trapframe : Type 0 where
  pub regs : ℕ → ℕ
  pub cp0_status : ℕ
  pub hi : ℕ
  pub lo : ℕ
  pub cp0_badvaddr : ℕ
  pub cp0_cause : ℕ
  pub cp0_epc : ℕ
  pub pc : ℕ

-- struct Env. `env_link` is the free list of the state below. A page directory is named by the
-- number of the page that holds it; `none` is NULL.
pub record Env : Type 0 where
  pub env_tf : Trapframe
  pub env_id : ℕ
  pub env_parent_id : ℕ
  pub env_status : ℕ
  pub env_pgdir : Option ℕ
  pub env_cr3 : ℕ
  pub env_ipc_value : ℕ
  pub env_ipc_from : ℕ
  pub env_ipc_recving : ℕ
  pub env_ipc_dstva : ℕ
  pub env_ipc_perm : ℕ
  pub env_pgfault_handler : ℕ
  pub env_xstacktop : ℕ
  pub env_runs : ℕ

-- ENV_FREE, ENV_RUNNABLE, ENV_NOT_RUNNABLE, NENV and ENVX.
abbrev pub env_free_status : ℕ
env_free_status = 0

abbrev pub env_runnable : ℕ
env_runnable = 1

abbrev pub env_not_runnable : ℕ
env_not_runnable = 2

abbrev pub nenv : ℕ
nenv = 1024

abbrev pub envx : ℕ → ℕ
envx envid = envid % 1024

-- GET_ENV_ASID
abbrev pub get_env_asid : ℕ → ℕ
get_env_asid envid = envid / 2048 * 64 % 0x1_0000_0000

-- `mem p i` is the word at index `i` of physical page `p`; a `struct Page *` and a
-- `struct Env *` are indices of `pages` and `envs`.
pub record Kern : Type 0 where
  pub npage : ℕ
  pub freemem : ℕ
  pub boot_pgdir : ℕ
  pub pp_ref : ℕ → ℕ
  pub page_free_list : List ℕ
  pub mem : ℕ → ℕ → ℕ
  pub tlb_flushed : List ℕ
  pub envs : ℕ → Env
  pub curenv : Option ℕ
  pub env_free_list : List ℕ
  pub next_env_id : ℕ
  pub pos : ℕ
  pub kernel_sp : Trapframe
  pub timestack : Trapframe

-- `none` is a panic of the kernel.
abbrev pub M : Type 0 → Type 0
M A = Kern → Option (A × Kern)

abbrev pub pure : {A : Type 0} → A → M A
pure a k = some (a, k)

abbrev pub panic : {A : Type 0} → M A
panic k = none

infixl 5 ◌>>=◌ ◌>>◌
abbrev pub ◌>>=◌ : {A B : Type 0} → M A → (A → M B) → M B
◌>>=◌ m f k = elim (m k) [ none ↦ none | some (a, k') ↦ f a k' ]

abbrev pub ◌>>◌ : {B : Type 0} → M (Unit {0}) → M B → M B
m >> n = m >>= λ _. n

abbrev pub get : M Kern
get k = some (k, k)

abbrev pub modify : (Kern → Kern) → M (Unit {0})
modify f k = some (tt, f k)

-- error.h; a function that returns `-E` in C returns `E` here, and 0 is success.
abbrev pub e_unspecified : ℕ
e_unspecified = 1

abbrev pub e_bad_env : ℕ
e_bad_env = 2

abbrev pub e_inval : ℕ
e_inval = 3

abbrev pub e_no_mem : ℕ
e_no_mem = 4

abbrev pub e_no_free_env : ℕ
e_no_free_env = 5

abbrev pub e_ipc_not_recv : ℕ
e_ipc_not_recv = 6

-- `p[i]` for a page `p` of words, `p[i] = w`, and an assignment to fields of `envs[e]`.
abbrev pub store_word : ℕ → ℕ → ℕ → Kern → Kern
store_word p i w k = record k { mem = update k.mem p (update (k.mem p) i w) }

abbrev pub set_ref : ℕ → ℕ → Kern → Kern
set_ref p n k = record k { pp_ref = update k.pp_ref p n }

abbrev pub set_env : ℕ → Env → Kern → Kern
set_env e v k = record k { envs = update k.envs e v }
