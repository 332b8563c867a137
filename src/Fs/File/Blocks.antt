-- ===== src/Fs/File/Blocks.antt =====
-- What the blocks of a file become: `file_truncate`; and `fs_sync`.
use buaa_mips_os.Base.{
  ◌&&◌, ℕ, zero, suc, ◌+◌, ◌≤◌, ◌<◌, ◌≡◌, ◌≢◌, refl, Bool, true, false, none, some, ◌==◌, ltb, leb,
  if◌then◌else◌, arith, ap, ◌∙◌,
}
use buaa_mips_os.Fs.{Server, ◌>>=◌, beyond, is_free_bit}
use buaa_mips_os.Fs.Bitmap.{beyond-some, block_is_dirty-never}
use buaa_mips_os.Fs.File.{File, blocks_of, sync_blocks, fs_sync}

sync_blocks-none :
    (n i : ℕ) (s : Server)
    → ((b : ℕ) → b < i + n → beyond s b ≡ false)
    → sync_blocks n i s ≡ some (tt, s)
unfolding sync_blocks
sync_blocks-none zero i s in' = refl
sync_blocks-none (suc n) i s in' =
    rw (block_is_dirty-never s i (in' i (omega arith)), ◌>>=◌)
      (sync_blocks-none n (i + 1) s (λ b lt. in' b (omega arith)))

-- `fs_sync` ends without a panic, and changes nothing: no block that is in the cache, whatever it
-- holds, is written to the disk.
fs_sync_lem : (s : Server) (n : ℕ) → s.super ≡ some n → fs_sync s ≡ some (tt, s)
unfolding fs_sync
fs_sync_lem s n sup =
    ap (λ o. elim o [ none ↦ none | some n ↦ sync_blocks n 0 s ]) sup
    ∙ sync_blocks-none n 0 s (λ b lt. beyond-some s n b sup ∙ ground arith)

-- What clearing `n` direct blocks from `i` on gives.
abbrev Clears : Server → File → ℕ → ℕ → File → Server → Type 0
Clears s f n i f' s' =
    ((j : ℕ) → f'.f_direct j ≡ (if leb i j && ltb j (i + n) then 0 else f.f_direct j))
    × (f'.f_indirect ≡ f.f_indirect)
    × ((j : ℕ) → i ≤ j → j < i + n → f.f_direct j ≢ 0 → is_free_bit s' (f.f_direct j) ≡ true)
    × ((c : ℕ) → is_free_bit s c ≡ true → is_free_bit s' c ≡ true)
    × (s'.disk ≡ s.disk)

-- The number of blocks that are kept.
abbrev kept : ℕ → ℕ
kept newsize = if newsize == 0 then 0 else blocks_of newsize

-- The file whose indirect block is dropped if few blocks are kept.
abbrev cut : File → Bool → File
cut f few = if few then record f { f_indirect = 0 } else f

-- What `file_truncate` promises.
abbrev pub Truncates : Server → File → ℕ → File → Server → Type 0
Truncates s f newsize f' s' =
    let new : ℕ = if newsize == 0 then 0 else blocks_of newsize in
    let old : ℕ = blocks_of f.f_size in
    (f'.f_size ≡ newsize)
    × (f'.f_indirect ≡ (if leb new 10 then 0 else f.f_indirect))
    × ((j : ℕ) → f'.f_direct j ≡ (if leb new j && ltb j old then 0 else f.f_direct j))
    × ((j : ℕ) → new ≤ j → j < old → f.f_direct j ≢ 0 → is_free_bit s' (f.f_direct j) ≡ true)
    × ((c : ℕ) → is_free_bit s c ≡ true → is_free_bit s' c ≡ true)
    × (s'.disk ≡ s.disk)
