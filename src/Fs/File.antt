-- ===== src/Fs/File.antt =====
-- The blocks of a file: `file_block_walk` and its callers in fs/fs.c.
pub mod Blocks
pub mod Cached
use buaa_mips_os.Base.{
  ℕ, zero, suc, ◌+◌, ◌-◌, ◌*◌, ◌/◌, ◌%◌, ◌≤◌, ◌<◌, ◌≡◌, refl, Bool, true, false, not, ◌&&◌, Option,
  none, some, ◌==◌, ltb, leb, if◌then◌else◌, arith, update, Bool-cases, inl, inr,
}
use buaa_mips_os.Fs.{
  Server, Code, ok, fail, F, done, user_panic, state, set, ◌>>=◌, ◌>>◌, e_not_found, e_inval,
  block_is_dirty, read_block, write_block, free_block, alloc_block,
}

-- struct File, but for the name, the type and the directory.
pub record File : Type 0 where
  pub f_size : ℕ
  pub f_direct : ℕ → ℕ
  pub f_indirect : ℕ

-- Where the number of a disk block stands: in the file, or in the cached indirect block.
pub data Place : Type 0 where
  direct : ℕ → Place
  indirect : ℕ → ℕ → Place

pub data Walk : Type 0 where
  at : Place → Walk
  failed : ℕ → Walk

-- `*ptr` and `*ptr = v`.
unfoldable pub load : File → Place → F ℕ
load f (direct i) s = some (f.f_direct i, s)
load f (indirect b i) s = some (s.mem b i, s)

pub assign : File → Place → ℕ → F File
assign f (direct i) v s = some (record f { f_direct = update f.f_direct i v }, s)
assign f (indirect b i) v s = some (f, record s { mem = update s.mem b (update (s.mem b) i v) })

-- The return code or the pointer, and the file.
pub indirect_place : File → ℕ → F (Walk × File)
indirect_place f i = do (b, isnew) ← read_block f.f_indirect; done (at (indirect b i), f)

unfoldable pub file_block_walk : File → ℕ → Bool → F (Walk × File)
file_block_walk f i alloc =
    if ltb i 10
    then done (at (direct i), f)
    else if not (ltb i 1024)
    then done (failed e_inval, f)
    else if not (f.f_indirect == 0)
    then indirect_place f i
    else if not alloc
    then done (failed e_not_found, f)
    else do
      r ← alloc_block
      elim r [ fail e ↦ done (failed e, f) | ok b ↦ indirect_place (record f { f_indirect = b }) i ]

-- Behind the walk of `file_map_block`.
unfoldable pub map_at : File → Place → Bool → F (Code × File)
map_at f p alloc = do
  b ← load f p
  if not (b == 0) then done (ok b, f) else if not alloc then done (fail e_not_found, f) else do
    r ← alloc_block
    elim r [ fail e ↦ done (fail e, f) | ok new ↦ do f' ← assign f p new; done (ok new, f') ]

unfoldable pub file_map_block : File → ℕ → Bool → F (Code × File)
file_map_block f i alloc = do
  (w, f') ← file_block_walk f i alloc
  elim w [ failed e ↦ done (fail e, f') | at p ↦ map_at f' p alloc ]

-- Behind the walk of `file_clear_block`.
pub clear_at : File → Place → F File
clear_at f p = do b ← load f p; if b == 0 then done f else do free_block b; assign f p 0

pub file_clear_block : File → ℕ → F File
file_clear_block f i = do
  (w, f') ← file_block_walk f i false
  elim w [ failed e ↦ done f' | at p ↦ clear_at f' p ]

unfoldable pub file_get_block : File → ℕ → F (Code × File)
file_get_block f i = do
  (r, f') ← file_map_block f i true
  elim r [ fail e ↦ done (fail e, f') | ok b ↦ do (va, isnew) ← read_block b; done (ok va, f') ]

-- `n` rounds of the loop of `file_truncate`, from block `i` on.
pub clear_blocks : ℕ → ℕ → File → F File
clear_blocks zero i f = done f
clear_blocks (suc n) i f = do f' ← file_clear_block f i; clear_blocks n (i + 1) f'

abbrev pub blocks_of : ℕ → ℕ
blocks_of size = size / 4096 + 1

pub file_truncate : File → ℕ → F File
file_truncate f newsize = do
  let old = blocks_of f.f_size
  let new = if newsize == 0 then 0 else blocks_of newsize
  f' ← clear_blocks (old - new) new (if leb new 10 then record f { f_indirect = 0 } else f)
  done (record f' { f_size = newsize })

-- `n` rounds of the loop of `file_flush`, from block `i` on; an error ends it.
pub flush_blocks : ℕ → ℕ → File → F File
flush_blocks zero i f = done f
flush_blocks (suc n) i f = do
  (r, f') ← file_map_block f i false
  elim r [
    | fail e ↦ done f'
    | ok b ↦ do
      d ← block_is_dirty b
      if d then write_block b else done tt
      flush_blocks n (i + 1) f'
  ]

pub file_flush : File → F File
file_flush f = flush_blocks (blocks_of f.f_size) 0 f

-- For a file without `f_dir`.
unfoldable pub file_set_size : File → ℕ → F File
file_set_size f newsize = do
  f' ← if ltb newsize f.f_size then file_truncate f newsize else done f
  done (record f' { f_size = newsize })

-- `n` rounds of the loop of `fs_sync`, from block `i` on.
pub sync_blocks : ℕ → ℕ → F (Unit {0})
sync_blocks zero i = done tt
sync_blocks (suc n) i = do
  d ← block_is_dirty i
  if d then write_block i else done tt
  sync_blocks n (i + 1)

pub fs_sync : F (Unit {0})
fs_sync s = elim s.super [ none ↦ none | some n ↦ sync_blocks n 0 s ]
