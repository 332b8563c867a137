-- ===== src/Fs/File/Cached.antt =====
-- fs/fs.c: `file_get_block` of a block that is in the cache.
use buaa_mips_os.Base.{ℕ, ◌<◌, ◌≡◌, ◌≢◌, refl, true, false, ◌&&◌, some, ◌==◌, arith, lt→ltb}
use buaa_mips_os.Fs.{Server, ok, ◌>>=◌, beyond, block_is_free, read_block, block_is_mapped}
use buaa_mips_os.Fs.Bitmap.{diskaddr-ok}
use buaa_mips_os.Fs.File.{
  File, direct, file_block_walk, file_map_block, map_at, load, file_get_block,
}

-- A block of the disk map that can be read without loading it.
abbrev pub IsReadable : Server → ℕ → Type 0
IsReadable s b =
    (b ≢ 0) × (s.mapped b ≡ true) × (beyond s b ≡ false) × ((s.bitmap && block_is_free s b) ≡ false)

block_is_mapped-cached :
    (s : Server) (b : ℕ) → IsReadable s b → block_is_mapped b s ≡ some (true, s)
unfolding block_is_mapped
block_is_mapped-cached s b h = rw (diskaddr-ok s b h.2, ◌>>=◌, h.1) refl

read_block-cached : (s : Server) (b : ℕ) → IsReadable s b → read_block b s ≡ some ((b, false), s)
unfolding read_block
read_block-cached s b h =
    rw (h.2, h.3, diskaddr-ok s b h.2, ◌>>=◌, block_is_mapped-cached s b h, ◌>>=◌) refl

map_at-cached :
    (s : Server) (f : File) (i : ℕ)
    → (f.f_direct i == 0) ≡ false
    → map_at f (direct i) true s ≡ some ((ok (f.f_direct i), f), s)
unfolding map_at load
map_at-cached s f i h = rw (h) refl

map_block-cached :
    (s : Server) (f : File) (i : ℕ)
    → i < 10
    → (f.f_direct i == 0) ≡ false
    → file_map_block f i true s ≡ some ((ok (f.f_direct i), f), s)
unfolding file_map_block file_block_walk
map_block-cached s f i k h = rw (lt→ltb i 10 k) (map_at-cached s f i h)

pub get_block-cached :
    (s : Server) (f : File) (i : ℕ)
    → i < 10
    → IsReadable s (f.f_direct i)
    → file_get_block f i s ≡ some ((ok (f.f_direct i), f), s)
unfolding file_get_block
get_block-cached s f i k h =
    rw (map_block-cached s f i k (ground arith), ◌>>=◌, read_block-cached s (f.f_direct i) h) refl
