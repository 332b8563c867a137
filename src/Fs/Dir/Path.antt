-- ===== src/Fs/Dir/Path.antt =====
-- fs/fs.c: `walk_path`, and the operations that take a path. A path is the list of its characters.
pub mod Resolve
pub mod Create
mod Tests
pub mod Name
use buaa_mips_os.Base.{
  ℕ, zero, suc, ◌+◌, ◌≤◌, ◌<◌, ◌≡◌, refl, sym, ap, ◌∙◌, Bool, true, false, not, ◌&&◌, Option, none,
  some, List, [], ◌∷◌, ◌++◌, ◌==◌, leb, if◌then◌else◌, arith, length, Bool-cases, inl, inr,
}
use buaa_mips_os.Fs.{
  Server, Code, ok, fail, F, done, user_panic, state, set, ◌>>=◌, ◌>>◌, e_not_found,
}
use buaa_mips_os.Fs.File.{File, file_truncate, file_flush}
use buaa_mips_os.Fs.Dir.{
  FilePtr, root, f_type, f_dir, set_byte, updates_file, Found, found, missing, dir_lookup,
  dir_alloc_file,
}

abbrev pub slash : ℕ
slash = b'/'

abbrev pub e_bad_path : ℕ
e_bad_path = 10

abbrev pub e_file_exists : ℕ
e_file_exists = 11

pub skip_slash : List ℕ → List ℕ
skip_slash [] = []
skip_slash (c ∷ p) = let rest : List ℕ = skip_slash p in if c == slash then rest else c ∷ p

-- The next path element, and the path behind it.
pub element : List ℕ → List ℕ × List ℕ
element [] = ([], [])
element (c ∷ p) =
    let rest : List ℕ × List ℕ = (c ∷ (element p).0, (element p).1) in
    if c == slash then ([], c ∷ p) else rest

-- What `walk_path` gives: `*pdir` and `*pfile`; or the code, with `*pdir` and `lastelem`.
pub data Walked : Type 0 where
  reached : Option FilePtr → FilePtr → Walked
  stuck : ℕ → Option FilePtr → List ℕ → Walked

-- The last element that is not there is reported with its directory.
abbrev pub lost : ℕ → Bool → FilePtr → List ℕ → Walked
lost e last dir name =
    if (e == e_not_found) && last then stuck e (some dir) name else stuck e none []

abbrev pub is_nil : List ℕ → Bool
is_nil [] = true
is_nil (c ∷ p) = false

-- The loop of `walk_path`; `none` if `fuel` rounds do not end it.
pub walk : ℕ → Option FilePtr → FilePtr → List ℕ → F Walked
walk fuel dir file [] = done (reached dir file)
walk zero dir file (c ∷ p) = user_panic
walk (suc fuel) dir file (c ∷ p) =
    let name = (element (c ∷ p)).0 in
    let rest = skip_slash (element (c ∷ p)).1 in
    let next = λ (f : FilePtr). walk fuel (some file) f rest in
    if leb 128 (length name) then done (stuck e_bad_path none []) else do
      s ← state
      if not (f_type s file == 1) then done (stuck e_not_found none []) else do
        r ← dir_lookup file name
        elim r [ missing e ↦ done (lost e (is_nil rest) file name) | found f ↦ next f ]

pub walk_path : List ℕ → F Walked
walk_path path =
    let p = skip_slash path in
    do s ← state; elim s.super [ none ↦ user_panic | some n ↦ walk (length p) none root p ]

pub file_open : List ℕ → F Found
file_open path = do
  w ← walk_path path
  elim w [ stuck e dir name ↦ done (missing e) | reached dir f ↦ done (found f) ]

-- strcpy(f->f_name, name), from byte `k` on.
pub strcpy_name : FilePtr → ℕ → List ℕ → Server → Server
strcpy_name p k [] s = set_byte p k 0 s
strcpy_name p k (c ∷ name) s = strcpy_name p (k + 1) name (set_byte p k c s)

-- `file_create` behind `walk_path`.
pub create_at : Walked → F Found
create_at (reached dir f) = done (missing e_file_exists)
create_at (stuck e none name) = done (missing e)
create_at (stuck e (some dir) name) = if not (e == e_not_found) then done (missing e) else do
  r ← dir_alloc_file dir
  elim r [ missing e' ↦ done (missing e) | found f ↦ do set (strcpy_name f 0 name); done (found f) ]

pub file_create : List ℕ → F Found
file_create path = do w ← walk_path path; create_at w

-- `if (f->f_dir) file_flush(f->f_dir)`.
unfoldable pub flush_dir : FilePtr → F (Unit {0})
flush_dir p = do s ← state; elim (f_dir s p) [ none ↦ done tt | some d ↦ updates_file d file_flush ]

pub file_close : FilePtr → F (Unit {0})
file_close p = do updates_file p file_flush; flush_dir p

pub file_remove : List ℕ → F Code
file_remove path = do
  w ← walk_path path
  elim w [
    | stuck e dir name ↦ done (fail e)
    | reached dir p ↦ do
      updates_file p λ f. file_truncate f 0
      set (set_byte p 0 0)
      updates_file p file_flush
      flush_dir p
      done (ok 0)
  ]
