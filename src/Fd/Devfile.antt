-- ===== src/Fd/Devfile.antt =====
-- user/file.c: the file device, over the requests of user/fsipc.c. A file's bytes are mapped from
-- `fd2data(fd)` on in the memory of the process. `file_stat`, which fills a structure, is not modelled.
pub mod Read
pub mod Descriptors
pub mod Stale
pub mod Mapped
pub mod Resize
pub mod Write
mod Tests
use buaa_mips_os.Base.{
  update, ℕ, zero, suc, ◌+◌, ◌-◌, ◌*◌, ◌/◌, not, Option, none, some, List, ◌==◌, ltb, leb,
  if◌then◌else◌,
}
use buaa_mips_os.Base.Words.{u32, round}
use buaa_mips_os.Fs.{Code, ok, fail, e_inval, e_no_disk}
use buaa_mips_os.Fs.Serv.{Serve}
use buaa_mips_os.Fs.Serv.Requests.{devfile_id}
use buaa_mips_os.Fd.{
  Process, Dev, P, done, fault, state, set, ◌>>=◌, ◌>>◌, fd_alloc, fd_close, fd_lookup,
}
use buaa_mips_os.Fd.Fsipc.{
  Files, f_size, f_fileid, unmap_page, fsipc_map, fsipc_open, fsipc_set_size, fsipc_close,
  fsipc_dirty, fsipc_remove, fsipc_sync,
}
use buaa_mips_os.Copy.{user_bcopy}

abbrev pub filebase : ℕ
filebase = 0x6000_0000

abbrev pub pdmap : ℕ
pdmap = 0x40_0000

abbrev pub fd2data : ℕ → ℕ
fd2data fdnum = filebase + fdnum * pdmap

-- An unsigned number as an `int` result.
abbrev pub as_code : ℕ → Code
as_code n = if ltb n 0x8000_0000 then ok n else fail (0x1_0000_0000 - n)

-- The memory that the copy leaves, and the number of bytes as the result.
pub copied : ℕ → Option (ℕ → ℕ) → P Files Code
copied n none s = none
copied n (some mem) s = some (as_code n, record s { mem = mem })

pub copy_out : ℕ → ℕ → ℕ → P Files Code
copy_out src dst n s = copied n (user_bcopy src dst n s.mem) s

-- The number of bytes left to read; `offset + n` is a u_int.
pub clip : ℕ → ℕ → ℕ → ℕ
clip size offset n = if ltb size (u32 (offset + n)) then size - offset else n

pub read_file : ℕ → ℕ → ℕ → ℕ → ℕ → P Files Code
read_file size fdnum buf n offset =
    if ltb size offset
    then done (ok 0)
    else copy_out (fd2data fdnum + offset) buf (clip size offset n)

-- A descriptor without an Fd page is a fault.
pub with_page : Option ℕ → (ℕ → P Files Code) → P Files Code
with_page none run = fault
with_page (some p) run = run p

pub file_read : ℕ → ℕ → ℕ → ℕ → P Files Code
file_read fdnum buf n offset s =
    with_page (s.page fdnum) (λ p. read_file (f_size s.world p) fdnum buf n offset) s

-- MAXFILESIZE
abbrev pub maxfilesize : ℕ
maxfilesize = 0x40_0000

-- `n` rounds of the loop of `ftruncate` that maps pages, from offset `i` on.
pub map_pages : ℕ → ℕ → ℕ → ℕ → ℕ → P Files Code
map_pages zero i va fileid oldsize = done (ok 0)
map_pages (suc n) i va fileid oldsize = do
  r ← fsipc_map fileid i (va + i)
  elim r [
    | fail e ↦ do r' ← fsipc_set_size fileid oldsize; done (fail e)
    | ok m ↦ map_pages n (i + 4096) va fileid oldsize
  ]

-- `n` rounds of the loops that unmap pages.
pub unmap_pages : ℕ → ℕ → ℕ → Process Files → Process Files
unmap_pages zero i va s = s
unmap_pages (suc n) i va s = unmap_pages n (i + 4096) va (unmap_page (va + i) s)

-- The rounds of a loop from `ROUND(a)` up to `ROUND(b)` by BY2PG.
abbrev pub rounds : ℕ → ℕ → ℕ
rounds a b = (round b - round a) / 4096

-- `ftruncate` behind its tests.
pub resize_file : ℕ → ℕ → ℕ → ℕ → P Files Code
resize_file va size fileid oldsize = do
  r ← fsipc_set_size fileid size
  elim r [
    | fail e ↦ done (fail e)
    | ok n ↦ do
      q ← map_pages (rounds oldsize size) (round oldsize) va fileid oldsize
      elim q [
        | fail e ↦ done (fail e)
        | ok m ↦ do set (unmap_pages (rounds size oldsize) (round size) va); done (ok 0)
      ]
  ]

pub ftruncate : ℕ → ℕ → P Files Code
ftruncate fdnum size = if ltb maxfilesize size then done (fail e_no_disk) else do
  r ← fd_lookup fdnum
  elim r [
    | fail e ↦ done (fail e)
    | ok p ↦ do
      s ← state
      if not ((s.fds p).fd_dev_id == devfile_id)
          then done (fail e_inval)
          else resize_file (fd2data fdnum) size (f_fileid s.world p) (f_size s.world p)
  ]

-- `file_write` behind the test of the size; `tot` is `offset + n` as a u_int.
pub write_file : ℕ → ℕ → ℕ → ℕ → ℕ → ℕ → P Files Code
write_file size fdnum buf n offset tot =
    if not (ltb size tot) then copy_out buf (fd2data fdnum + offset) n else do
      r ← ftruncate fdnum tot
      elim r [ fail e ↦ done (fail e) | ok m ↦ copy_out buf (fd2data fdnum + offset) n ]

pub file_write : ℕ → ℕ → ℕ → ℕ → P Files Code
file_write fdnum buf n offset s =
    with_page (s.page fdnum)
      (λ p.
        if ltb maxfilesize (u32 (offset + n))
        then done (fail e_no_disk)
        else write_file (f_size s.world p) fdnum buf n offset (u32 (offset + n)))
      s

-- The address for `*blk`.
pub read_map : ℕ → ℕ → P Files Code
read_map fdnum offset = do
  r ← fd_lookup fdnum
  elim r [
    | fail e ↦ done (fail e)
    | ok p ↦ do
      s ← state
      let va = fd2data fdnum + offset
      if not ((s.fds p).fd_dev_id == devfile_id)
          then done (fail e_inval)
          else if leb maxfilesize offset
          then done (fail e_no_disk)
          else elim (s.world.window (va / 4096)) [
            | none ↦ done (fail e_no_disk)
            | some b ↦ done (ok va)
          ]
  ]

-- The rounds of a loop over the pages of a file.
abbrev pub pages_of : ℕ → ℕ
pages_of size = (size + 4095) / 4096

-- `n` rounds of the loop of `open`, from offset `i` on.
pub map_file : ℕ → ℕ → ℕ → ℕ → ℕ → P Files Code
map_file zero i va fileid fdnum = done (ok fdnum)
map_file (suc n) i va fileid fdnum = do
  r ← fsipc_map fileid i (va + i)
  elim r [ fail e ↦ done (fail e) | ok m ↦ map_file n (i + 4096) va fileid fdnum ]

pub open_fd : List ℕ → ℕ → ℕ → P Files Code
open_fd path mode fdnum = do
  r ← fsipc_open path mode fdnum
  elim r [
    | fail e ↦ done (fail e)
    | ok n ↦ λ s.
        with_page (s.page fdnum)
          (λ p. map_file (pages_of (f_size s.world p)) 0 (fd2data fdnum) (f_fileid s.world p) fdnum)
          s
  ]

pub open_path : List ℕ → ℕ → P Files Code
open_path path mode s = elim (fd_alloc s) [
  | fail e ↦ some (fail e, s)
  | ok fdnum ↦ open_fd path mode fdnum s
]

-- `n` rounds of the loop of `file_close` over the pages; what it returns is not looked at.
pub dirty_pages : ℕ → ℕ → ℕ → P Files (Unit {0})
dirty_pages zero i fileid = done tt
dirty_pages (suc n) i fileid = do r ← fsipc_dirty fileid i; dirty_pages n (i + 4096) fileid

-- The Filefd page has a mapping less.
abbrev pub drop_ref : ℕ → Process Files → Process Files
drop_ref p s =
    let sv : Serve = s.world.server in
    record s {
      world = record (s.world) {
        server = record sv { pageref = update sv.pageref p (sv.pageref p - 1) };
      };
    }

-- Behind the requests of `file_close`. Of an empty file the descriptor stays.
pub unmap_file : ℕ → ℕ → ℕ → P Files Code
unmap_file p size fdnum = if size == 0 then done (ok 0) else do
  set (unmap_pages (pages_of size) 0 (fd2data fdnum))
  set (drop_ref p)
  fd_close fdnum
  done (ok 0)

pub close_file : ℕ → ℕ → ℕ → ℕ → P Files Code
close_file p size fileid fdnum = do
  dirty_pages (pages_of size) 0 fileid
  r ← fsipc_close fileid
  elim r [ fail e ↦ done (fail e) | ok n ↦ unmap_file p size fdnum ]

pub file_close : ℕ → P Files Code
file_close fdnum s =
    with_page (s.page fdnum) (λ p. close_file p (f_size s.world p) (f_fileid s.world p) fdnum) s

pub remove : List ℕ → P Files Code
remove path = fsipc_remove path

pub sync : P Files Code
sync = fsipc_sync

pub devfile : Dev Files
devfile = record {
  dev_id = devfile_id;
  dev_read = file_read;
  dev_write = file_write;
  dev_close = file_close;
}
