-- ===== src/Fs/Dir.antt =====
-- fs/fs.c: directories and paths. A `struct File *` points into a cached block: a directory's block
-- holds 16 files of 64 words, and the root stands in the superblock. The words of a file: 0 to 31 the
-- name (most significant byte first), 32 `f_size`, 33 `f_type`, 34 to 43 `f_direct`, 44 `f_indirect`,
-- 45 `f_dir`.
pub mod Path
pub mod Lookup
pub mod Alloc
mod Tests
pub mod Samples
use buaa_mips_os.Base.{
  ℕ, zero, suc, ◌+◌, ◌-◌, ◌*◌, ◌/◌, ◌%◌, ◌^◌, Bool, true, false, not, ◌&&◌, Option, none, some,
  List, [], ◌∷◌, ◌++◌, ◌==◌, ltb, leb, if◌then◌else◌, update, length,
}
use buaa_mips_os.Base.Words.{u32}
use buaa_mips_os.Fs.{
  Server, Code, ok, fail, F, done, user_panic, state, set, ◌>>=◌, ◌>>◌, e_not_found,
}
use buaa_mips_os.Fs.File.{File, file_get_block, file_truncate, file_flush}

-- The block and the index of the first word.
pub record FilePtr : Type 0 where
  pub block : ℕ
  pub word : ℕ

-- &super->s_root
abbrev pub root : FilePtr
root = record { block = 1; word = 2 }

abbrev pub diskmap : ℕ
diskmap = 0x1000_0000

-- The pointer as a number, and back; `none` is NULL.
abbrev pub address : FilePtr → ℕ
address p = diskmap + p.block * 4096 + p.word * 4

abbrev pub pointer : ℕ → Option FilePtr
pointer va =
    if va == 0
    then none
    else some (record { block = (va - diskmap) / 4096; word = (va - diskmap) % 4096 / 4 })

abbrev pub set_word : ℕ → ℕ → ℕ → Server → Server
set_word b i v s = record s { mem = update s.mem b (update (s.mem b) i v) }

-- Byte `k` of a file, and the store to it.
abbrev pub byte : Server → FilePtr → ℕ → ℕ
byte s p k = s.mem p.block (p.word + k / 4) / 2 ^ (8 * (3 - k % 4)) % 256

abbrev pub with_byte : ℕ → ℕ → ℕ → ℕ
with_byte w k c = let unit : ℕ = 2 ^ (8 * (3 - k % 4)) in w - w / unit % 256 * unit + c * unit

abbrev pub set_byte : FilePtr → ℕ → ℕ → Server → Server
set_byte p k c s =
    set_word p.block (p.word + k / 4) (with_byte (s.mem p.block (p.word + k / 4)) k c) s

abbrev pub f_type : Server → FilePtr → ℕ
f_type s p = s.mem p.block (p.word + 33)

abbrev pub f_dir : Server → FilePtr → Option FilePtr
f_dir s p = pointer (s.mem p.block (p.word + 45))

-- The fields that the code for blocks uses.
abbrev pub load_file : Server → FilePtr → File
load_file s p = record {
  f_size = s.mem p.block (p.word + 32);
  f_direct = λ i. s.mem p.block (p.word + 34 + i);
  f_indirect = s.mem p.block (p.word + 44);
}

abbrev pub file_word : (ℕ → ℕ) → ℕ → File → ℕ → ℕ
file_word old w f i =
    if i == w + 32
    then f.f_size
    else if leb (w + 34) i && ltb i (w + 44)
    then f.f_direct (i - (w + 34))
    else if i == w + 44
    then f.f_indirect
    else old i

abbrev pub store_file : FilePtr → File → Server → Server
store_file p f s = record s { mem = update s.mem p.block (file_word (s.mem p.block) p.word f) }

-- Run the code for the file that a pointer names.
pub on_file : {A : Type 0} → FilePtr → (File → F (A × File)) → F A
on_file p run = do s ← state; (r, f) ← run (load_file s p); set (store_file p f); done r

unfoldable pub updates_file : FilePtr → (File → F File) → F (Unit {0})
updates_file p run = do s ← state; f ← run (load_file s p); set (store_file p f)

-- strcmp(f->f_name, name) == 0, from byte `k` of the name on.
pub has_name : Server → FilePtr → ℕ → List ℕ → Bool
has_name s p k [] = byte s p k == 0
has_name s p k (c ∷ name) = (byte s p k == c) && has_name s p (k + 1) name

-- A file, or the code of an error.
pub data Found : Type 0 where
  found : FilePtr → Found
  missing : ℕ → Found

abbrev pub entry : ℕ → ℕ → FilePtr
entry b j = record { block = b; word = j * 64 }

-- `n` rounds of the inner loop of `dir_lookup`, from entry `j` of block `b` on.
pub scan : ℕ → ℕ → ℕ → List ℕ → Server → Option FilePtr
scan zero b j name s = none
scan (suc n) b j name s =
    let rest : Option FilePtr = scan n b (j + 1) name s in
    if has_name s (entry b j) 0 name then some (entry b j) else rest

-- `n` rounds of its outer loop, from block `i` on.
pub lookup_blocks : ℕ → ℕ → FilePtr → List ℕ → F Found
lookup_blocks zero i dir name = done (missing e_not_found)
lookup_blocks (suc n) i dir name = do
  r ← on_file dir λ f. file_get_block f i
  elim r [
    | fail e ↦ done (missing e)
    | ok b ↦ do
      s ← state
      elim (scan 16 b 0 name s) [
        | some p ↦ do set (set_word p.block (p.word + 45) (address dir)); done (found p)
        | none ↦ lookup_blocks n (i + 1) dir name
      ]
  ]

pub dir_lookup : FilePtr → List ℕ → F Found
dir_lookup dir name = do s ← state; lookup_blocks ((load_file s dir).f_size / 4096) 0 dir name

-- The loops of `dir_alloc_file`, which look for a file with no name.
pub scan_free : ℕ → ℕ → ℕ → Server → Option FilePtr
scan_free zero b j s = none
scan_free (suc n) b j s =
    let rest : Option FilePtr = scan_free n b (j + 1) s in
    if byte s (entry b j) 0 == 0 then some (entry b j) else rest

-- Behind the loops: the directory grows by a block.
pub grow_dir : ℕ → FilePtr → F Found
grow_dir i dir = do
  s ← state
  set (set_word dir.block (dir.word + 32) (u32 ((load_file s dir).f_size + 4096)))
  r ← on_file dir λ f. file_get_block f i
  elim r [ fail e ↦ done (missing e) | ok b ↦ done (found (entry b 0)) ]

pub alloc_blocks : ℕ → ℕ → FilePtr → F Found
alloc_blocks zero i dir = grow_dir i dir
alloc_blocks (suc n) i dir = do
  r ← on_file dir λ f. file_get_block f i
  elim r [
    | fail e ↦ done (missing e)
    | ok b ↦ do
      s ← state
      elim (scan_free 16 b 0 s) [ some p ↦ done (found p) | none ↦ alloc_blocks n (i + 1) dir ]
  ]

pub dir_alloc_file : FilePtr → F Found
dir_alloc_file dir = do s ← state; alloc_blocks ((load_file s dir).f_size / 4096) 0 dir
