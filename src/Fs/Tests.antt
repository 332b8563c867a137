-- ===== src/Fs/Tests.antt =====
-- Runs of the file system server, and instances of what is proved of it.
use buaa_mips_os.Base.{◌≡◌, refl, true, false, some, ◌==◌, ltb, ◌&&◌, if◌then◌else◌, arith}
use buaa_mips_os.Fs.{Server, is_free_bit, alloc_block_num}
use buaa_mips_os.Fs.Bitmap.{Gives, Takes, alloc_block_num_lem}
use buaa_mips_os.Fs.File.{File}

-- A disk of 64 blocks, of which 4 and 6 are free; the blocks below 3 are in the cache.
abbrev small_disk : Server
small_disk = record {
  super = some 64;
  bitmap = true;
  mapped = λ b. ltb b 3;
  mem = λ b i. if (b == 2) && (i == 0) then 80 else 0;
  disk = λ b i. 0;
  room = 4;
}

-- A file of two blocks.
abbrev two_blocks : File
two_blocks = record {
  f_size = 5000;
  f_direct = λ i. if i == 0 then 10 else if i == 1 then 11 else 0;
  f_indirect = 0;
}

first_free : (is_free_bit small_disk 3 ≡ false) × (is_free_bit small_disk 4 ≡ true)
first_free = (refl, refl)

alloc_block_num_lem_example : Gives (Takes small_disk 64) (alloc_block_num small_disk)
alloc_block_num_lem_example =
    alloc_block_num_lem small_disk 64 refl (omega arith) (omega arith) refl
