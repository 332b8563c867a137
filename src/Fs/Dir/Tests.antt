-- ===== src/Fs/Dir/Tests.antt =====
-- Runs of the directory operations, and instances of what is proved of them.
use buaa_mips_os.Base.{none, ℕ, ◌≡◌, refl, [], ◌∷◌, List, arith}
use buaa_mips_os.Fs.Bitmap.{Gives}
use buaa_mips_os.Fs.Dir.{root, dir_lookup}
use buaa_mips_os.Fs.Dir.Samples.{small_disk}
use buaa_mips_os.Fs.Dir.Lookup.{IsCached, LookupSays, dir_blocks, dir_lookup_lem}
use buaa_mips_os.Fs.Dir.Path.{walk_path, slash}
use buaa_mips_os.Fs.Dir.Path.Resolve.{resolve, components, walk_path-resolve}

abbrev hi : List ℕ
hi = b'h' ∷ b'i' ∷ []

small_disk-IsCached : IsCached small_disk root
small_disk-IsCached =
    (omega arith, λ i h. let e : i ≡ 0 = omega arith in rw e (omega arith, refl, refl, refl))

dir_lookup_lem_example :
    Gives
      (LookupSays small_disk root hi 0 (dir_blocks small_disk root))
      (dir_lookup root hi small_disk)
dir_lookup_lem_example = dir_lookup_lem small_disk root hi small_disk-IsCached

walk_path-resolve_example :
    walk_path (slash ∷ b'h' ∷ b'i' ∷ []) small_disk
    ≡ resolve none root (components (slash ∷ b'h' ∷ b'i' ∷ [])) small_disk
walk_path-resolve_example = walk_path-resolve (slash ∷ b'h' ∷ b'i' ∷ []) small_disk refl
