-- ===== src/Fs.antt =====
-- fs/fs.c: the block cache, the bitmap of free blocks, and the blocks of a file. The page of the disk
-- map that holds a block is named by the block; the pages of the bitmap are among them. Directories
-- and paths are in Fs/Dir, the requests of fs/serv.c in Fs/Serv. Of the superblock only `s_nblocks` is
-- modelled.
pub mod Bitmap
pub mod File
pub mod Dir
pub mod Serv
mod Tests
use buaa_mips_os.Base.{
  ℕ, zero, suc, ◌+◌, ◌-◌, ◌*◌, ◌/◌, ◌%◌, Bool, true, false, not, ◌&&◌, ◌||◌, Option, none, some,
  ◌==◌, ltb, leb, if◌then◌else◌, update,
}

-- `super` is none while it is NULL. `room` is the number of pages that `syscall_mem_alloc` can still
-- give.
pub record Server : Type 0 where
  pub super : Option ℕ
  pub bitmap : Bool
  pub mapped : ℕ → Bool
  pub mem : ℕ → ℕ → ℕ
  pub disk : ℕ → ℕ → ℕ
  pub room : ℕ

-- `none` is a `user_panic`, or a fault.
abbrev pub F : Type 0 → Type 0
F A = Server → Option (A × Server)

abbrev pub done : {A : Type 0} → A → F A
done a s = some (a, s)

abbrev pub user_panic : {A : Type 0} → F A
user_panic s = none

infixl 5 ◌>>=◌ ◌>>◌
abbrev pub ◌>>=◌ : {A B : Type 0} → F A → (A → F B) → F B
◌>>=◌ m f s = elim (m s) [ none ↦ none | some (a, s') ↦ f a s' ]

abbrev pub ◌>>◌ : {B : Type 0} → F (Unit {0}) → F B → F B
m >> n = m >>= λ _. n

abbrev pub state : F Server
state s = some (s, s)

abbrev pub set : (Server → Server) → F (Unit {0})
set f s = some (tt, f s)

-- A value, or the code of an error.
pub data Code : Type 0 where
  ok : ℕ → Code
  fail : ℕ → Code

abbrev pub e_inval : ℕ
e_inval = 3

abbrev pub e_no_mem : ℕ
e_no_mem = 4

abbrev pub e_no_disk : ℕ
e_no_disk = 7

abbrev pub e_not_found : ℕ
e_not_found = 9

-- Whether `super && blockno >= super->s_nblocks`.
abbrev pub beyond : Server → ℕ → Bool
beyond s b = elim s.super [ none ↦ false | some n ↦ leb n b ]

pub diskaddr : ℕ → F ℕ
diskaddr b s = if beyond s b then none else some (b, s)

pub block_is_mapped : ℕ → F Bool
block_is_mapped b = do va ← diskaddr b; s ← state; done (s.mapped va)

-- The bits of a word: `w & (1 << k)`, `w |= 1 << k` and `w &= ~(1 << k)`.
abbrev pub bit : ℕ → ℕ → ℕ
bit w zero = w % 2
bit w (suc k) = bit (w / 2) k

abbrev pub set_bit : ℕ → ℕ → ℕ
set_bit w zero = w - w % 2 + 1
set_bit w (suc k) = set_bit (w / 2) k * 2 + w % 2

abbrev pub clear_bit : ℕ → ℕ → ℕ
clear_bit w zero = w - w % 2
clear_bit w (suc k) = clear_bit (w / 2) k * 2 + w % 2

-- `bitmap[i]` and `bitmap[i] = w`, in the blocks from 2 on.
abbrev pub bitmap_at : Server → ℕ → ℕ
bitmap_at s i = s.mem (2 + i / 1024) (i % 1024)

abbrev pub set_bitmap : ℕ → ℕ → Server → Server
set_bitmap i w s = record s {
  mem = update s.mem (2 + i / 1024) (update (s.mem (2 + i / 1024)) (i % 1024) w);
}

-- Whether the bit of a block is set.
abbrev pub is_free_bit : Server → ℕ → Bool
is_free_bit s b = bit (bitmap_at s (b / 32)) (b % 32) == 1

abbrev pub block_is_free : Server → ℕ → Bool
block_is_free s b = elim s.super [
  | none ↦ false
  | some n ↦ if leb n b then false else is_free_bit s b
]

pub free_block : ℕ → F (Unit {0})
free_block b =
    if b == 0
    then user_panic
    else set λ s. set_bitmap (b / 32) (set_bit (bitmap_at s (b / 32)) (b % 32)) s

-- `syscall_mem_alloc` of a page of the disk map.
pub mem_alloc : ℕ → F Code
mem_alloc b s =
    if s.room == 0
    then some (fail e_no_mem, s)
    else some (
      ok 0,
      record s {
        mapped = update s.mapped b true;
        mem = update s.mem b (λ _. 0);
        room = s.room - 1;
      },
    )

pub map_block : ℕ → F Code
map_block b = do m ← block_is_mapped b; if m then done (ok 0) else do va ← diskaddr b; mem_alloc va

-- The result of `syscall_mem_alloc` is not looked at; without the page the read is a fault.
pub read_block : ℕ → F (ℕ × Bool)
read_block b = do
  s ← state
  if beyond s b then user_panic else if s.bitmap && block_is_free s b then user_panic else do
    va ← diskaddr b
    m ← block_is_mapped b
    if m then done (va, false) else do
      r ← mem_alloc va
      elim r [
        | fail _ ↦ user_panic
        | ok _ ↦ do set λ s. record s { mem = update s.mem va (s.disk b) }; done (va, true)
      ]

-- `syscall_mem_map` of the page on itself changes nothing that is modelled.
pub write_block : ℕ → F (Unit {0})
write_block b = do
  m ← block_is_mapped b
  if not m
      then user_panic
      else do va ← diskaddr b; set λ s. record s { disk = update s.disk b (s.mem va) }

-- `va_is_dirty` is always 0.
pub block_is_dirty : ℕ → F Bool
block_is_dirty b = do va ← diskaddr b; s ← state; done (s.mapped va && false)

pub unmap_block : ℕ → F (Unit {0})
unmap_block b = do
  m ← block_is_mapped b
  if not m then done tt else do
    s ← state
    d ← block_is_dirty b
    if not (block_is_free s b || not d) then user_panic else do
      va ← diskaddr b
      set λ s. record s { mapped = update s.mapped va false; room = s.room + 1 }

-- The loop of `alloc_block_num`: `n` rounds left, from `b` up. It writes back the block
-- `b / BIT2BLK`, as the source does.
pub search : ℕ → ℕ → F Code
search zero b s = some (fail e_no_disk, s)
search (suc n) b s =
    let rest : Option (Code × Server) = search n (b + 1) s in
    if is_free_bit s b
    then (do
      set λ s. set_bitmap (b / 32) (clear_bit (bitmap_at s (b / 32)) (b % 32)) s
      write_block (b / 0x8000)
      done (ok b))
        s
    else rest

pub alloc_block_num : F Code
alloc_block_num s = elim s.super [ none ↦ none | some n ↦ search (n - 3) 3 s ]

pub alloc_block : F Code
alloc_block = do
  r ← alloc_block_num
  elim r [
    | fail e ↦ done (fail e)
    | ok b ↦ do
      m ← map_block b
      elim m [ ok _ ↦ done (ok b) | fail e ↦ do free_block b; done (fail e) ]
  ]
