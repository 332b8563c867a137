-- ===== src/Fs/Serv.antt =====
-- fs/serv.c: the table of open files, and the requests of other environments. `pageref` counts the
-- mappings of the Filefd page of an entry: 0 before it is allocated, 1 while only the server has it.
-- `replies` are the messages that `ipc_send` has sent, the last one first.
pub mod Keeps
pub mod Ids
pub mod Requests
use buaa_mips_os.Base.{
  ℕ, zero, suc, ◌+◌, ◌-◌, ◌/◌, ◌%◌, Bool, true, false, not, ◌||◌, Option, none, some, List, [], ◌∷◌,
  ◌==◌, leb, if◌then◌else◌, update,
}
use buaa_mips_os.Base.Words.{u32}
use buaa_mips_os.Fs.{Server, Code, ok, fail, F, e_inval, e_no_mem}
use buaa_mips_os.Fs.File.{File, file_get_block, file_set_size, fs_sync}
use buaa_mips_os.Fs.Dir.{FilePtr, root, load_file, on_file, updates_file, found, missing}
use buaa_mips_os.Fs.Dir.Path.{file_open, file_close, file_remove, flush_dir}

-- struct Filefd
pub record Filefd : Type 0 where
  pub fd_dev_id : ℕ
  pub fd_omode : ℕ
  pub f_fileid : ℕ
  pub f_file : File

-- The page that a reply carries: a Filefd page, or a block.
pub data Shared : Type 0 where
  nothing : Shared
  filefd : ℕ → Shared
  block : ℕ → Shared

pub record Reply : Type 0 where
  pub whom : ℕ
  pub value : Code
  pub page : Shared

pub record Serve : Type 0 where
  pub fs : Server
  pub o_file : ℕ → Option FilePtr
  pub o_fileid : ℕ → ℕ
  pub o_mode : ℕ → ℕ
  pub o_ff : ℕ → Filefd
  pub pageref : ℕ → ℕ
  pub replies : List Reply

abbrev pub S : Type 0 → Type 0
S A = Serve → Option (A × Serve)

abbrev pub done : {A : Type 0} → A → S A
done a s = some (a, s)

abbrev pub user_panic : {A : Type 0} → S A
user_panic s = none

infixl 5 ◌>>=◌ ◌>>◌
abbrev pub ◌>>=◌ : {A B : Type 0} → S A → (A → S B) → S B
◌>>=◌ m f s = elim (m s) [ none ↦ none | some (a, s') ↦ f a s' ]

abbrev pub ◌>>◌ : {B : Type 0} → S (Unit {0}) → S B → S B
m >> n = m >>= λ _. n

abbrev pub state : S Serve
state s = some (s, s)

abbrev pub set : (Serve → Serve) → S (Unit {0})
set f s = some (tt, f s)

-- The code of fs/fs.c.
pub on_fs : {A : Type 0} → F A → S A
on_fs m s = elim (m s.fs) [ none ↦ none | some (a, fs) ↦ some (a, record s { fs = fs }) ]

pub ipc_send : ℕ → Code → Shared → S (Unit {0})
ipc_send whom r page =
    set λ s. record s { replies = record { whom = whom; value = r; page = page } ∷ s.replies }

abbrev pub maxopen : ℕ
maxopen = 1024

abbrev pub e_max_open : ℕ
e_max_open = 8

abbrev pub no_file : File
no_file = record { f_size = 0; f_direct = λ i. 0; f_indirect = 0 }

-- A Filefd page of zeros.
abbrev pub zero_ff : Filefd
zero_ff = record { fd_dev_id = 0; fd_omode = 0; f_fileid = 0; f_file = no_file }

-- `n` rounds of the loop of `serve_init`, from `i` on.
pub init_from : ℕ → ℕ → Serve → Serve
init_from zero i s = s
init_from (suc n) i s = init_from n (i + 1) (record s { o_fileid = update s.o_fileid i i })

pub serve_init : Serve → Serve
serve_init s = init_from maxopen 0 s

abbrev pub taken : ℕ → Serve → Serve
taken i s = record s {
  o_fileid = update s.o_fileid i (u32 (s.o_fileid i + maxopen));
  o_ff = update s.o_ff i zero_ff;
}

-- `case 1` of `open_alloc`: a new id, and a Filefd page of zeros.
pub take_entry : ℕ → S Code
take_entry i = do set (taken i); s ← state; done (ok (s.o_fileid i))

abbrev pub granted : ℕ → Serve → Serve
granted i s = record s {
  fs = record (s.fs) { room = s.fs.room - 1 };
  pageref = update s.pageref i 1;
}

-- `case 0`: `syscall_mem_alloc` of the page, and on to `case 1`.
pub new_entry : ℕ → S Code
new_entry i = do
  s ← state
  if s.fs.room == 0 then done (fail e_no_mem) else do set (granted i); take_entry i

-- `n` rounds of the loop of `open_alloc`, from `i` on.
pub alloc_from : ℕ → ℕ → S Code
alloc_from zero i s = some (fail e_max_open, s)
alloc_from (suc n) i s =
    let rest = alloc_from n (i + 1) s in
    if s.pageref i == 0 then new_entry i s else if s.pageref i == 1 then take_entry i s else rest

pub open_alloc : S Code
open_alloc = alloc_from maxopen 0

-- The entry of a file id.
pub open_lookup : ℕ → Serve → Code
open_lookup fileid s =
    let i = fileid % maxopen in
    if (s.pageref i == 1) || not (s.o_fileid i == fileid) then fail e_inval else ok i
