-- ===== src/Fs/Dir/Alloc.antt =====
-- fs/fs.c: where `dir_alloc_file` takes the entry for a new file from.
use mathlib.Core.Path.{subst}
use buaa_mips_os.Base.{
  ◌≢◌, ◌<◌, refl, ◌+◌, ◌/◌, ◌≤◌, ◌⊎◌, inl, inr, sym, ◌∙◌, ap, ℕ, zero, suc, ◌≡◌, Option, none, some,
  ◌==◌, arith, Bool-cases,
}
use buaa_mips_os.Base.Words.{u32}
use buaa_mips_os.Base.Keeps.{split_bind, in_turn}
use buaa_mips_os.Fs.{Server, Code, ok, fail, F, done}
use buaa_mips_os.Fs.File.{file_get_block}
use buaa_mips_os.Fs.Dir.{
  FilePtr, Found, found, missing, byte, entry, load_file, set_word, on_file, scan_free, grow_dir,
  alloc_blocks, dir_alloc_file,
}

-- The directory's block `i` is asked for in state `s`.
abbrev pub AsksBlock : FilePtr → ℕ → Server → Code → Server → Type 0
AsksBlock dir i s r s' = on_file dir (λ f. file_get_block f i) s ≡ some (r, s')

-- The length of the directory is one block more.
abbrev pub grown : FilePtr → Server → Server
grown dir t = set_word dir.block (dir.word + 32) (u32 ((load_file t dir).f_size + 4096)) t

-- A file without a name, of the 16 in block `b`.
abbrev pub IsFree : ℕ → FilePtr → Server → Type 0
IsFree b f s = (j : ℕ) × (j < 16) × (f ≡ entry b j) × (byte s f 0 ≡ 0)

-- When the directory's block `k` was asked for, all of its files had a name.
abbrev pub IsFull : FilePtr → ℕ → Type 0
IsFull dir k =
    (t : Server) × (b : ℕ) × (t' : Server) × AsksBlock dir k t (ok b) t'
    × ((j : ℕ) → j < 16 → byte t' (entry b j) 0 ≢ 0)

-- The `n` blocks from block `i` on are looked through. An error is that of one of them or of the next one. The
-- entry of a success is one without a name, in one of these blocks; or, where they are full, the first entry
-- of the next block, by which the directory has grown.
abbrev pub AllocSays : FilePtr → ℕ → ℕ → Found → Server → Type 0
AllocSays dir i n (missing e) s' =
    (k : ℕ) × (t : Server) × (i ≤ k) × (k ≤ i + n) × AsksBlock dir k t (fail e) s'
AllocSays dir i n (found f) s' =
    ((k : ℕ) × (t : Server) × (b : ℕ) × (i ≤ k)
      × (k < i + n)
      × AsksBlock dir k t (ok b) s'
      × IsFree b f s')
    ⊎ ((t : Server) × (b : ℕ) × (f ≡ entry b 0)
        × AsksBlock dir (i + n) (grown dir t) (ok b) s'
        × ((k : ℕ) → i ≤ k → k < i + n → IsFull dir k))

scan_free-IsFree :
    (n b j : ℕ) (s : Server) (f : FilePtr) → j + n ≤ 16 → scan_free n b j s ≡ some f → IsFree b f s
unfolding scan_free
scan_free-IsFree zero b j s f l h = absurd (cc)
scan_free-IsFree (suc n) b j s f l h = elim (Bool-cases (byte s (entry b j) 0 == 0)) [
  | inl k ↦
      let here : entry b j ≡ f = (let g = (rw k at h) in cc) in
      (j, omega (arith, l), sym here, ap (λ p. byte s p 0) (sym here) ∙ ground (arith, k))
  | inr k ↦ scan_free-IsFree n b (j + 1) s f (omega (arith, l)) (rw k at h)
]

scan_free-none :
    (n b j : ℕ) (s : Server)
    → scan_free n b j s ≡ none
    → (i : ℕ) → j ≤ i
    → i < j + n
    → byte s (entry b i) 0 ≢ 0
unfolding scan_free
scan_free-none zero b j s h i l m = absurd (omega (arith, l, m))
scan_free-none (suc n) b j s h i l m = elim (Bool-cases (byte s (entry b j) 0 == 0)) [
  | inl k ↦ absurd (let g = (rw k at h) in cc)
  | inr k ↦ elim (Bool-cases (j == i)) [
    | inl e ↦ λ z.
        let same : byte s (entry b j) 0 ≡ 0 =
          ap (λ t. byte s (entry b t) 0) (ground (arith, e)) ∙ z in
        absurd (ground (arith, k, same))
    | inr e ↦ scan_free-none n b (j + 1) s (rw k at h) i (ground (arith, e, l)) (omega (arith, m))
  ]
]

-- A full block, and then those behind it.
AllocSays-next :
    (dir : FilePtr) (i n : ℕ) (r : Found) (s' : Server)
    → IsFull dir i
    → AllocSays dir (i + 1) n r s'
    → AllocSays dir i (suc n) r s'
AllocSays-next dir i n (missing e) s' full (k, t, l, m, asked) =
    (k, t, omega (arith, l), omega (arith, m), asked)
AllocSays-next dir i n (found f) s' full (inl (k, t, b, l, m, asked, free)) =
    inl (k, t, b, omega (arith, l), omega (arith, m), asked, free)
AllocSays-next dir i n (found f) s' full (inr (t, b, first, asked, before)) = inr (
  t,
  b,
  first,
  subst (λ k. AsksBlock dir k (grown dir t) (ok b) s') (omega arith) asked,
  λ k l m. elim (Bool-cases (i == k)) [
    | inl e ↦ subst (IsFull dir) (ground (arith, e)) full
    | inr e ↦ before k (ground (arith, e, l)) (omega (arith, m))
  ],
)

grow_dir-says :
    (i : ℕ) (dir : FilePtr) (s : Server) (r : Found) (s' : Server)
    → grow_dir i dir s ≡ some (r, s')
    → AllocSays dir i 0 r s'
unfolding grow_dir
grow_dir-says i dir s r s' run =
    let (q, s1, asked, end) =
      split_bind (on_file dir (λ f. file_get_block f i) (grown dir s)) _ r s' run in
    answer q s1 r asked end
  where
    answer :
        (q : Code) (s1 : Server) (r : Found)
        → AsksBlock dir i (grown dir s) q s1
        → (let m : F Found = elim q [
          | fail e ↦ done (missing e)
          | ok b ↦ done (found (entry b 0))
        ] in
            m s1)
          ≡ some (r, s')
        → AllocSays dir i 0 r s'
    answer (fail e) s1 (missing e') asked end =
        (i, grown dir s, omega arith, omega arith, asked ∙ cc)
    answer (fail e) s1 (found f) asked end = absurd (cc)
    answer (ok b) s1 (missing e) asked end = absurd (cc)
    answer (ok b) s1 (found f) asked end = inr (
      s,
      b,
      cc,
      subst (λ k. AsksBlock dir k (grown dir s) (ok b) s') (omega arith) (asked ∙ cc),
      λ k l m. absurd (omega (arith, l, m)),
    )

alloc_blocks-says :
    (n i : ℕ) (dir : FilePtr) (s : Server) (r : Found) (s' : Server)
    → alloc_blocks n i dir s ≡ some (r, s')
    → AllocSays dir i n r s'
unfolding alloc_blocks
alloc_blocks-says zero i dir s r s' run = grow_dir-says i dir s r s' run
alloc_blocks-says (suc n) i dir s r s' run =
    let (q, s1, asked, behind) = split_bind (on_file dir (λ f. file_get_block f i) s) _ r s' run in
    answer q s1 r asked behind (alloc_blocks-says n (i + 1) dir s1 r s')
  where
    pick :
        (o : Option FilePtr) (b : ℕ) (s1 : Server) (r : Found)
        → AsksBlock dir i s (ok b) s1
        → scan_free 16 b 0 s1 ≡ o
        → (let m : F Found = elim o [
          | some p ↦ done (found p)
          | none ↦ alloc_blocks n (i + 1) dir
        ] in
            m s1)
          ≡ some (r, s')
        → (alloc_blocks n (i + 1) dir s1 ≡ some (r, s') → AllocSays dir (i + 1) n r s')
        → AllocSays dir i (suc n) r s'
    pick none b s1 r asked hit end again =
        AllocSays-next dir i n r s'
          (s, b, s1, asked, λ j l. scan_free-none 16 b 0 s1 hit j (omega arith) (omega (arith, l)))
          (again end)
    pick (some p) b s1 (missing e) asked hit end again = absurd (cc)
    pick (some p) b s1 (found f) asked hit end again =
        let file : p ≡ f = cc in
        let state : s1 ≡ s' = cc in
        let (j, l, here, free) = scan_free-IsFree 16 b 0 s1 p (omega arith) hit in
        inl (
          i,
          s,
          b,
          omega arith,
          omega arith,
          asked ∙ ap (λ t. some (ok b, t)) state,
          (
            j,
            l,
            sym file ∙ here,
            ap (λ x. byte s' x 0) (sym file) ∙ ap (λ t. byte t p 0) (sym state) ∙ free,
          ),
        )

    answer :
        (q : Code) (s1 : Server) (r : Found)
        → AsksBlock dir i s q s1
        → (let m : F Found = elim q [
          | fail e ↦ done (missing e)
          | ok b ↦
              in_turn
                (λ t. some (t, t))
                (λ t. elim (scan_free 16 b 0 t) [
                  | some p ↦ done (found p)
                  | none ↦ alloc_blocks n (i + 1) dir
                ])
        ] in
            m s1)
          ≡ some (r, s')
        → (alloc_blocks n (i + 1) dir s1 ≡ some (r, s') → AllocSays dir (i + 1) n r s')
        → AllocSays dir i (suc n) r s'
    answer (fail e) s1 (missing e') asked end again = (i, s, omega arith, omega arith, asked ∙ cc)
    answer (fail e) s1 (found f) asked end again = absurd (cc)
    answer (ok b) s1 r asked end again = pick (scan_free 16 b 0 s1) b s1 r asked refl end again

pub dir_alloc_file-says :
    (dir : FilePtr) (s : Server) (r : Found) (s' : Server)
    → dir_alloc_file dir s ≡ some (r, s')
    → AllocSays dir 0 ((load_file s dir).f_size / 4096) r s'
unfolding dir_alloc_file
dir_alloc_file-says dir s r s' run =
    alloc_blocks-says ((load_file s dir).f_size / 4096) 0 dir s r s' run
