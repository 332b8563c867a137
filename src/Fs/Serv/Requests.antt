-- ===== src/Fs/Serv/Requests.antt =====
-- fs/serv.c: the requests of other environments.
pub mod Replies
pub mod Filefd
pub mod Samples
mod Tests
use buaa_mips_os.Base.{
  ℕ, zero, suc, ◌/◌, ◌%◌, Bool, not, Option, none, some, List, [], ◌∷◌, leb, if◌then◌else◌, update,
}
use buaa_mips_os.Fs.{Code, ok, fail}
use buaa_mips_os.Fs.File.{file_get_block, file_set_size, fs_sync}
use buaa_mips_os.Fs.Dir.{FilePtr, load_file, on_file, updates_file, found, missing}
use buaa_mips_os.Fs.Dir.Path.{file_open, file_close, file_remove, flush_dir}
use buaa_mips_os.Fs.Serv.{
  nothing, filefd, block, Serve, S, done, user_panic, ◌>>=◌, ◌>>◌, state, set, on_fs, ipc_send,
  maxopen, open_alloc, open_lookup,
}

abbrev pub devfile_id : ℕ
devfile_id = b'f'

-- MAXPATHLEN - 1 characters.
abbrev pub take : ℕ → List ℕ → List ℕ
take zero p = []
take (suc n) [] = []
take (suc n) (c ∷ p) = c ∷ take n p

-- The entry and its Filefd page.
abbrev pub filled : ℕ → FilePtr → ℕ → Serve → Serve
filled i f omode s = record s {
  o_file = update s.o_file i (some f);
  o_mode = update s.o_mode i omode;
  o_ff = update s.o_ff i (record {
    fd_dev_id = devfile_id;
    fd_omode = omode;
    f_fileid = s.o_fileid i;
    f_file = load_file s.fs f;
  });
}

-- A result below 0 is an error, and so is a file id of 2^31 or more. Every error is a `user_panic`.
pub serve_open : ℕ → List ℕ → ℕ → S (Unit {0})
serve_open envid path omode = do
  r ← open_alloc
  elim r [
    | fail e ↦ user_panic
    | ok id ↦ if leb 0x8000_0000 id then user_panic else do
      o ← on_fs (file_open (take 1023 path))
      elim o [
        | missing e ↦ user_panic
        | found f ↦ do
          set (filled (id % maxopen) f omode)
          ipc_send envid (ok 0) (filefd (id % maxopen))
      ]
  ]

-- The file of an entry; a NULL pointer is a fault, `none`.
pub with_file : Option FilePtr → (FilePtr → S (Unit {0})) → S (Unit {0})
with_file none run = user_panic
with_file (some f) run = run f

-- What most requests begin with.
pub with_open : ℕ → ℕ → (FilePtr → S (Unit {0})) → S (Unit {0})
with_open envid fileid run = do
  s ← state
  elim (open_lookup fileid s) [
    | fail e ↦ ipc_send envid (fail e) nothing
    | ok i ↦ with_file (s.o_file i) run
  ]

pub serve_map : ℕ → ℕ → ℕ → S (Unit {0})
serve_map envid fileid offset = with_open envid fileid λ f. do
  r ← on_fs (on_file f λ x. file_get_block x (offset / 4096))
  elim r [ fail e ↦ ipc_send envid (fail e) nothing | ok b ↦ ipc_send envid (ok 0) (block b) ]

-- `file_set_size` of a file that may have a directory.
pub set_size : FilePtr → ℕ → S (Unit {0})
set_size f size = do on_fs (updates_file f λ x. file_set_size x size); on_fs (flush_dir f)

pub serve_set_size : ℕ → ℕ → ℕ → S (Unit {0})
serve_set_size envid fileid size =
    with_open envid fileid λ f. do set_size f size; ipc_send envid (ok 0) nothing

pub serve_close : ℕ → ℕ → S (Unit {0})
serve_close envid fileid =
    with_open envid fileid λ f. do on_fs (file_close f); ipc_send envid (ok 0) nothing

pub serve_remove : ℕ → List ℕ → S (Unit {0})
serve_remove envid path = do r ← on_fs (file_remove (take 1023 path)); ipc_send envid r nothing

-- `file_dirty` reads a byte of the block and writes it back.
pub serve_dirty : ℕ → ℕ → ℕ → S (Unit {0})
serve_dirty envid fileid offset = with_open envid fileid λ f. do
  r ← on_fs (on_file f λ x. file_get_block x (offset / 4096))
  elim r [ fail e ↦ ipc_send envid (fail e) nothing | ok b ↦ ipc_send envid (ok 0) nothing ]

pub serve_sync : ℕ → S (Unit {0})
serve_sync envid = do on_fs fs_sync; ipc_send envid (ok 0) nothing

-- The request that stands in the argument page.
pub data Request : Type 0 where
  open_file : List ℕ → ℕ → Request
  map : ℕ → ℕ → Request
  resize : ℕ → ℕ → Request
  close : ℕ → Request
  dirty : ℕ → ℕ → Request
  remove : List ℕ → Request
  sync : Request
  unknown : ℕ → Request

pub dispatch : ℕ → Request → S (Unit {0})
dispatch whom (open_file path omode) = serve_open whom path omode
dispatch whom (map fileid offset) = serve_map whom fileid offset
dispatch whom (resize fileid size) = serve_set_size whom fileid size
dispatch whom (close fileid) = serve_close whom fileid
dispatch whom (dirty fileid offset) = serve_dirty whom fileid offset
dispatch whom (remove path) = serve_remove whom path
dispatch whom sync = serve_sync whom
dispatch whom (unknown code) = done tt

-- One round of `serve`: a request without an argument page (`has_page`) is left alone.
pub serve_one : ℕ → Bool → Request → S (Unit {0})
serve_one whom has_page req = if not has_page then done tt else dispatch whom req
