-- ===== src/Fs/Dir/Path/Create.antt =====
-- fs/fs.c: what `file_create` does on each of its ways out.
use buaa_mips_os.Base.{◌/◌, List, ℕ, ◌≡◌, true, none, some}
use buaa_mips_os.Fs.{done, Server, e_not_found, ◌>>◌, done}
use buaa_mips_os.Fs.Dir.{Found, found, missing, has_name}
use buaa_mips_os.Fs.Dir.{load_file}
use buaa_mips_os.Fs.Dir.Alloc.{AllocSays}
use buaa_mips_os.Fs.Dir.Path.{Walked, reached, stuck, walk_path, e_file_exists, strcpy_name}
use buaa_mips_os.Fs.Dir.Path.Name.{AreChars}

-- The way from the end of the walk to the result.
abbrev pub CreateSays : Walked → Server → Found → Server → Type 0
CreateSays (reached dir f) s r s' = (r ≡ missing e_file_exists) × (s' ≡ s)
CreateSays (stuck e none name) s r s' = (r ≡ missing e) × (s' ≡ s)
CreateSays (stuck e (some dir) name) s (missing e') s' =
    (e' ≡ e)
    × (e ≡ e_not_found
        → (e2 : ℕ) × AllocSays dir 0 ((load_file s dir).f_size / 4096) (missing e2) s')
CreateSays (stuck e (some dir) name) s (found f) s' =
    (s2 : Server) × (e ≡ e_not_found)
    × AllocSays dir 0 ((load_file s dir).f_size / 4096) (found f) s2
    × (s' ≡ strcpy_name f 0 name s2)
    × (AreChars name → has_name s' f 0 name ≡ true)

abbrev pub Creates : List ℕ → Server → Found → Server → Type 0
Creates path s r s' =
    (w : Walked) × (s1 : Server) × (walk_path path s ≡ some (w, s1)) × CreateSays w s1 r s'
