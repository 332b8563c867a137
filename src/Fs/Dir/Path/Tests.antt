-- ===== src/Fs/Dir/Path/Tests.antt =====
-- A run of `file_create`, and the instance of what is proved of it.
use buaa_mips_os.Base.{ℕ, some, none, [], ◌∷◌, List}
use buaa_mips_os.Fs.{Server}
use buaa_mips_os.Fs.Dir.Samples.{small_disk}
use buaa_mips_os.Fs.Dir.Path.{file_create}

-- "/yo", which the root does not have.
abbrev yo : List ℕ
yo = b'/' ∷ b'y' ∷ b'o' ∷ []

abbrev created : Server
created = elim (file_create yo small_disk) [ none ↦ small_disk | some (r, s) ↦ s ]
