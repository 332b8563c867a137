-- ===== src/Fs/Dir/Lookup.antt =====
-- fs/fs.c: `dir_lookup` in a directory whose blocks are in the cache.
use buaa_mips_os.Base.{
  ℕ, zero, suc, ◌+◌, ◌/◌, ◌≤◌, ◌<◌, ◌≡◌, refl, ap, ◌∙◌, fun_ext, true, false, ◌&&◌, Option, none,
  some, List, ◌==◌, ltb, leb, arith, update, Bool-cases, inl, inr,
}
use mathlib.Core.Path.{subst}
use buaa_mips_os.Fs.{Server, ok, F, done, set, ◌>>=◌, ◌>>◌, e_not_found}
use buaa_mips_os.Fs.Bitmap.{Gives, Gives-weaken}
use buaa_mips_os.Fs.File.{file_get_block}
use buaa_mips_os.Fs.File.Cached.{IsReadable, get_block-cached}
use buaa_mips_os.Fs.Dir.{
  FilePtr, Found, found, missing, on_file, load_file, store_file, file_word, set_word, has_name,
  entry, scan, lookup_blocks, dir_lookup, address,
}

abbrev pub dir_block : Server → FilePtr → ℕ → ℕ
dir_block s dir i = (load_file s dir).f_direct i

abbrev pub dir_blocks : Server → FilePtr → ℕ
dir_blocks s dir = (load_file s dir).f_size / 4096

-- The blocks of a directory are direct ones, and in the cache.
abbrev pub IsCached : Server → FilePtr → Type 0
IsCached s dir =
    (dir_blocks s dir ≤ 10) × ((i : ℕ) → i < dir_blocks s dir → IsReadable s (dir_block s dir i))

file_word-same :
    (m : ℕ → ℕ) (w i : ℕ)
    → file_word m w
        (record { f_size = m (w + 32); f_direct = λ k. m (w + 34 + k); f_indirect = m (w + 44) })
        i
      ≡ m i
file_word-same m w i = elim (Bool-cases (i == w + 32)) [
  | inl e ↦ rw e (ap m (ground (arith, e)))
  | inr ne ↦ elim (Bool-cases (leb (w + 34) i && ltb i (w + 44))) [
    | inl e ↦ rw (ne, e) (ap m (ground (arith, e)))
    | inr ne' ↦ elim (Bool-cases (i == w + 44)) [
      | inl e ↦ rw (ne, ne', e) (ap m (ground (arith, e)))
      | inr e ↦ rw (ne, ne', e) refl
    ]
  ]
]

update-same : (m : ℕ → ℕ → ℕ) (b : ℕ) (v : ℕ → ℕ) (a : ℕ) → v ≡ m b → update m b v a ≡ m a
update-same m b v a e = elim (Bool-cases (a == b)) [
  | inl h ↦ rw h (e ∙ ap m (ground (arith, h)))
  | inr h ↦ rw h refl
]

store-load : (s : Server) (p : FilePtr) → store_file p (load_file s p) s ≡ s
store-load s p =
    ap (λ m. record s { mem = m })
      (fun_ext (λ a.
        update-same s.mem p.block (file_word (s.mem p.block) p.word (load_file s p)) a
          (fun_ext (file_word-same (s.mem p.block) p.word))))

on_get_block-cached :
    (s : Server) (dir : FilePtr) (i : ℕ)
    → i < 10
    → IsReadable s (dir_block s dir i)
    → on_file dir (λ f. file_get_block f i) s ≡ some (ok (dir_block s dir i), s)
unfolding on_file
on_get_block-cached s dir i k h =
    rw (get_block-cached s (load_file s dir) i k h, ◌>>=◌)
      (ap (λ t. some (ok (dir_block s dir i), t)) (store-load s dir))

-- No file of a block has the name, from entry `lo` to `hi`.
abbrev pub NoName : Server → List ℕ → ℕ → ℕ → ℕ → Type 0
NoName s name b lo hi = (j : ℕ) → lo ≤ j → j < hi → has_name s (entry b j) 0 name ≡ false

abbrev ScanSays : Server → List ℕ → ℕ → ℕ → ℕ → Option FilePtr → Type 0
ScanSays s name b lo hi none = NoName s name b lo hi
ScanSays s name b lo hi (some p) =
    (j : ℕ) × (lo ≤ j)
    × (j < hi)
    × (p ≡ entry b j)
    × (has_name s (entry b j) 0 name ≡ true)
    × NoName s name b lo j

NoName-cons :
    (s : Server) (name : List ℕ) (b lo hi : ℕ)
    → has_name s (entry b lo) 0 name ≡ false
    → NoName s name b (lo + 1) hi
    → NoName s name b lo hi
NoName-cons s name b lo hi h more j k l = elim (Bool-cases (j == lo)) [
  | inl e ↦ ap (λ t. has_name s (entry b t) 0 name) (ground (arith, e)) ∙ h
  | inr e ↦ more j (ground (arith, e)) l
]

ScanSays-suc :
    (s : Server) (name : List ℕ) (b lo hi : ℕ) (r : Option FilePtr)
    → has_name s (entry b lo) 0 name ≡ false
    → ScanSays s name b (lo + 1) hi r
    → ScanSays s name b lo hi r
ScanSays-suc s name b lo hi none h more = NoName-cons s name b lo hi h more
ScanSays-suc s name b lo hi (some p) h (j, k, l, e, has, before) =
    (j, omega arith, l, e, has, NoName-cons s name b lo j h before)

scan_lem :
    (n : ℕ) (s : Server) (name : List ℕ) (b lo : ℕ)
    → ScanSays s name b lo (lo + n) (scan n b lo name s)
unfolding scan
scan_lem zero s name b lo = λ j k l. absurd (omega arith)
scan_lem (suc n) s name b lo = elim (Bool-cases (has_name s (entry b lo) 0 name)) [
  | inl has ↦ rw has (lo, omega arith, omega arith, refl, has, λ j k l. absurd (omega arith))
  | inr other ↦ rw other (
      ScanSays-suc s name b lo (lo + suc n) (scan n b (lo + 1) name s) other (
        subst (λ hi. ScanSays s name b (lo + 1) hi (scan n b (lo + 1) name s)) (omega arith)
          (scan_lem n s name b (lo + 1))))
]

-- What a search from block `lo` to block `hi` gives: the first file that has the name, with `f_dir` set;
-- or the error, where no file has it, and then nothing has changed.
abbrev pub LookupSays : Server → FilePtr → List ℕ → ℕ → ℕ → Found → Server → Type 0
LookupSays s dir name lo hi (missing e) s' =
    (e ≡ e_not_found)
    × (s' ≡ s)
    × ((i : ℕ) → lo ≤ i → i < hi → NoName s name (dir_block s dir i) 0 16)
LookupSays s dir name lo hi (found p) s' =
    (i : ℕ) × (j : ℕ) × (lo ≤ i)
    × (i < hi)
    × (j < 16)
    × (p ≡ entry (dir_block s dir i) j)
    × (has_name s p 0 name ≡ true)
    × NoName s name (dir_block s dir i) 0 j
    × ((k : ℕ) → lo ≤ k → k < i → NoName s name (dir_block s dir k) 0 16)
    × (s' ≡ set_word p.block (p.word + 45) (address dir) s)

blocks_cons :
    (s : Server) (dir : FilePtr) (name : List ℕ) (lo hi : ℕ)
    → NoName s name (dir_block s dir lo) 0 16
    → ((k : ℕ) → lo + 1 ≤ k → k < hi → NoName s name (dir_block s dir k) 0 16)
    → (k : ℕ) → lo ≤ k
    → k < hi
    → NoName s name (dir_block s dir k) 0 16
blocks_cons s dir name lo hi h more k l m = elim (Bool-cases (k == lo)) [
  | inl e ↦ subst (λ t. NoName s name (dir_block s dir t) 0 16) (ground (arith, e)) h
  | inr e ↦ more k (ground (arith, e)) m
]

LookupSays-suc :
    (s : Server) (dir : FilePtr) (name : List ℕ) (lo hi : ℕ) (r : Found) (s' : Server)
    → NoName s name (dir_block s dir lo) 0 16
    → LookupSays s dir name (lo + 1) hi r s'
    → LookupSays s dir name lo hi r s'
LookupSays-suc s dir name lo hi (missing e) s' h (code, same, none_has) =
    (code, same, blocks_cons s dir name lo hi h none_has)
LookupSays-suc s dir name lo hi (found p) s' h (i, j, k, l, m, at, has, before, blocks, state') =
    (i, j, omega arith, l, m, at, has, before, blocks_cons s dir name lo i h blocks, state')

-- Behind the inner loop.
after_scan :
    (o : Option FilePtr) (rest : F Found) (s : Server) (dir : FilePtr) (name : List ℕ) (i hi : ℕ)
    → i < hi
    → ScanSays s name (dir_block s dir i) 0 16 o
    → Gives (LookupSays s dir name (i + 1) hi) (rest s)
    → Gives (LookupSays s dir name i hi) (
        let m : F Found = elim o [
          | none ↦ rest
          | some p ↦ set (set_word p.block (p.word + 45) (address dir)) >> done (found p)
        ] in
        m s)
after_scan none rest s dir name i hi l none_has more =
    Gives-weaken (LookupSays s dir name i hi) (rest s) more
      (λ r s' says. LookupSays-suc s dir name i hi r s' none_has says)
after_scan (some p) rest s dir name i hi l (j, k, m, at, has, before) more = (
  i,
  j,
  omega arith,
  l,
  m,
  at,
  ap (λ q. has_name s q 0 name) at ∙ has,
  before,
  λ k' l' m'. absurd (omega arith),
  refl,
)

lookup_blocks_lem :
    (n : ℕ) (s : Server) (dir : FilePtr) (name : List ℕ) (i : ℕ)
    → i + n ≤ 10
    → ((k : ℕ) → i ≤ k → k < i + n → IsReadable s (dir_block s dir k))
    → Gives (LookupSays s dir name i (i + n)) (lookup_blocks n i dir name s)
unfolding lookup_blocks
lookup_blocks_lem zero s dir name i few cached = (refl, refl, λ k l m. absurd (omega arith))
lookup_blocks_lem (suc n) s dir name i few cached =
    rw (on_get_block-cached s dir i (omega arith) (cached i (omega arith) (omega arith)), ◌>>=◌)
      (after_scan (scan 16 (dir_block s dir i) 0 name s) (lookup_blocks n (i + 1) dir name) s dir
        name i (i + suc n) (omega arith) (scan_lem 16 s name (dir_block s dir i) 0)
        (subst (λ hi. Gives (LookupSays s dir name (i + 1) hi) (lookup_blocks n (i + 1) dir name s))
          (omega arith)
          (lookup_blocks_lem n s dir name (i + 1) (omega arith)
            (λ k l m. cached k (omega arith) (omega arith)))))

-- In a directory whose blocks are in the cache, `dir_lookup` finds the first file that has the name, and
-- changes nothing but the `f_dir` of that file; it returns E_NOT_FOUND, with nothing changed, exactly
-- when no file of the directory has the name.
pub dir_lookup_lem :
    (s : Server) (dir : FilePtr) (name : List ℕ)
    → IsCached s dir
    → Gives (LookupSays s dir name 0 (dir_blocks s dir)) (dir_lookup dir name s)
unfolding dir_lookup
dir_lookup_lem s dir name h =
    let all : 0 + dir_blocks s dir ≡ dir_blocks s dir = omega arith in
    subst (λ hi. Gives (LookupSays s dir name 0 hi) (lookup_blocks (dir_blocks s dir) 0 dir name s))
      all
      (lookup_blocks_lem (dir_blocks s dir) s dir name 0 (omega (arith, h.0))
        (λ k l m. h.1 k (omega (arith, m))))
