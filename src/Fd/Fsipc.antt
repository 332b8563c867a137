-- ===== src/Fd/Fsipc.antt =====
-- user/fsipc.c: the requests of a process to the file server, over the server's code in Fs/Serv. The Fd
-- page of a file is the Filefd page of the server's entry, and has the entry's number; other devices have
-- Fd pages with other numbers. A request is one round of the server; if that panics or sends no message,
-- the process waits forever, `none`. The bytes of a block are those that it has when it is mapped: stores to
-- a page that process and server share are kept in the memory of the process alone. Mapping a page does not
-- fail for lack of memory. The server's count of the users of a page, `pageref`, is lowered by a close request
-- and not where user/fd.c unmaps an Fd page itself.
pub mod Descriptors
pub mod Window
pub mod Samples
use buaa_mips_os.Base.{
  ℕ, ◌+◌, ◌-◌, ◌/◌, ◌%◌, Bool, true, Option, none, some, List, [], ◌∷◌, ◌==◌, leb, if◌then◌else◌,
  update, length,
}
use buaa_mips_os.Fs.{Code, ok, fail}
use buaa_mips_os.Fs.Dir.{byte}
use buaa_mips_os.Fs.Dir.Path.{e_bad_path}
use buaa_mips_os.Fs.Serv.{Serve, Shared, nothing, filefd, block, Reply}
use buaa_mips_os.Fs.Serv.Requests.{
  Request, open_file, map, resize, close, dirty, remove, sync, serve_one,
}
use buaa_mips_os.Fd.{Process, P, done, fault, set, ◌>>=◌, ◌>>◌}

-- `window` is the block that a virtual page of the process maps; the process is `env_id`.
pub record Files : Type 0 where
  pub env_id : ℕ
  pub server : Serve
  pub window : ℕ → Option ℕ

-- f_file.f_size and f_fileid of the Filefd page.
abbrev pub f_size : Files → ℕ → ℕ
f_size w p = (w.server.o_ff p).f_file.f_size

abbrev pub f_fileid : Files → ℕ → ℕ
f_fileid w p = (w.server.o_ff p).f_fileid

-- The message that the server has sent, and the state behind it.
pub received : List Reply → Serve → P Files (Code × Shared)
received [] sv s = none
received (r ∷ rest) sv s = some (
  (r.value, r.page),
  record s { world = record (s.world) { server = record sv { replies = [] } } },
)

pub answer : Option (Unit {0} × Serve) → P Files (Code × Shared)
answer none s = none
answer (some (u, sv)) s = received sv.replies sv s

pub fsipc : Request → P Files (Code × Shared)
fsipc req s =
    answer (serve_one s.world.env_id true req (record (s.world.server) { replies = [] })) s

abbrev pub map_page : ℕ → ℕ → Process Files → Process Files
map_page va b s = record s {
  mem = λ a.
      if a / 4096 == va / 4096
      then byte s.world.server.fs (record { block = b; word = 0 }) (a % 4096)
      else s.mem a;
  world = record (s.world) { window = update s.world.window (va / 4096) (some b) };
}

-- syscall_mem_unmap(0, va)
abbrev pub unmap_page : ℕ → Process Files → Process Files
unmap_page va s = record s {
  world = record (s.world) { window = update s.world.window (va / 4096) none };
}

-- The reply to a request to map; a success without a block has unexpected permissions, a `user_panic`.
pub accept_block : ℕ → Code → Shared → P Files Code
accept_block va (fail e) page = done (fail e)
accept_block va (ok n) (block b) = do set (map_page va b); done (ok 0)
accept_block va (ok n) nothing = fault
accept_block va (ok n) (filefd k) = fault

pub fsipc_map : ℕ → ℕ → ℕ → P Files Code
fsipc_map fileid offset dstva = do (r, page) ← fsipc (map fileid offset); accept_block dstva r page

-- The Filefd page of entry `k` at the place of a descriptor.
abbrev pub map_fd : ℕ → ℕ → Process Files → Process Files
map_fd fdnum k s =
    let sv : Serve = s.world.server in
    record s {
      page = update s.page fdnum (some k);
      fds = update s.fds k (record {
        fd_dev_id = (sv.o_ff k).fd_dev_id;
        fd_offset = 0;
        fd_omode = (sv.o_ff k).fd_omode;
      });
      world = record (s.world) {
        server = record sv { pageref = update sv.pageref k (sv.pageref k + 1) };
      };
    }

pub accept_fd : ℕ → Code → Shared → P Files Code
accept_fd fdnum r (filefd k) = do set (map_fd fdnum k); done r
accept_fd fdnum r nothing = done r
accept_fd fdnum r (block b) = done r

abbrev pub maxpathlen : ℕ
maxpathlen = 1024

pub fsipc_open : List ℕ → ℕ → ℕ → P Files Code
fsipc_open path omode fdnum =
    if leb maxpathlen (length path)
    then done (fail e_bad_path)
    else do (r, page) ← fsipc (open_file path omode); accept_fd fdnum r page

-- The result of a request whose reply has no page.
pub fsipc_code : Request → P Files Code
fsipc_code req = do (r, page) ← fsipc req; done r

pub fsipc_set_size : ℕ → ℕ → P Files Code
fsipc_set_size fileid size = fsipc_code (resize fileid size)

pub fsipc_close : ℕ → P Files Code
fsipc_close fileid = fsipc_code (close fileid)

pub fsipc_dirty : ℕ → ℕ → P Files Code
fsipc_dirty fileid offset = fsipc_code (dirty fileid offset)

pub fsipc_remove : List ℕ → P Files Code
fsipc_remove path =
    if leb maxpathlen (length path) then done (fail e_bad_path) else fsipc_code (remove path)

pub fsipc_sync : P Files Code
fsipc_sync = fsipc_code sync
