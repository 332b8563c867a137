-- ===== src/Fd/Devfile/Write.antt =====
-- user/file.c: what `file_write` stores within a file, and that `file_read` gives it back.
use buaa_mips_os.Base.{
  ℕ, ◌+◌, ◌-◌, ◌≤◌, ◌<◌, ◌≡◌, refl, ap, ◌∙◌, true, false, Option, some, ltb, leb, ◌&&◌, arith, inl,
  inr,
}
use buaa_mips_os.Base.Words.{u32}
use buaa_mips_os.Fs.{Code, ok}
use buaa_mips_os.Fd.{Process}
use buaa_mips_os.Fd.Fsipc.{Files, f_size}
use buaa_mips_os.Fd.Devfile.{
  fd2data, copied, copy_out, with_page, file_read, maxfilesize, write_file, file_write,
}
use buaa_mips_os.Fd.Devfile.Read.{file_read_lem}
use buaa_mips_os.Copy.Bytes.{Apart, moved, bcopy_lem}

-- The bytes of the buffer stand in the file, and nothing else has changed.
abbrev pub FileWriteSays : ℕ → ℕ → ℕ → ℕ → Process Files → Option (Code × Process Files) → Type 0
FileWriteSays fdnum buf n offset s o =
    (mem : ℕ → ℕ) × (o ≡ some (ok n, record s { mem = mem }))
    × ((a : ℕ) → mem a ≡ moved buf (fd2data fdnum + offset) n s.mem a)

copy_in :
    (fdnum buf n offset : ℕ) (s : Process Files)
    → n < 0x8000_0000
    → Apart buf (fd2data fdnum + offset) n
    → FileWriteSays fdnum buf n offset s (copy_out buf (fd2data fdnum + offset) n s)
unfolding copy_out copied
copy_in fdnum buf n offset s small apart =
    let (mem, ran, moves) = (bcopy_lem buf (fd2data fdnum + offset) n s.mem apart).0 in
    let is_ok : ltb n 0x8000_0000 ≡ true = ground (arith, small) in
    rw (ran, is_ok) (mem, refl, moves)

file_write_lem :
    (fdnum p buf n offset : ℕ) (s : Process Files)
    → s.page fdnum ≡ some p
    → offset + n ≤ f_size s.world p
    → f_size s.world p ≤ maxfilesize
    → Apart buf (fd2data fdnum + offset) n
    → FileWriteSays fdnum buf n offset s (file_write fdnum buf n offset s)
unfolding file_write with_page write_file
file_write_lem fdnum p buf n offset s h within small apart =
    let fits : ltb maxfilesize (u32 (offset + n)) ≡ false = ground (arith, within, small) in
    let same : ltb (f_size s.world p) (u32 (offset + n)) ≡ false = ground (arith, within, small) in
    rw (h, fits, same) (copy_in fdnum buf n offset s (omega (arith, within, small)) apart)

-- Bytes that are written within an open file, at most 4 MB long, are what a read of as many bytes at the same
-- offset gives: both calls return n, where buffer and file, and file and second buffer, do not overlap.
pub file_read-file_write :
    (fdnum p buf n offset dst : ℕ) (s : Process Files)
    → s.page fdnum ≡ some p
    → offset + n ≤ f_size s.world p
    → f_size s.world p ≤ maxfilesize
    → Apart buf (fd2data fdnum + offset) n
    → Apart (fd2data fdnum + offset) dst n
    → (s1 s2 : Process Files) × (file_write fdnum buf n offset s ≡ some (ok n, s1))
      × (file_read fdnum dst n offset s1 ≡ some (ok n, s2))
      × ((i : ℕ) → i < n → s2.mem (dst + i) ≡ s.mem (buf + i))
file_read-file_write fdnum p buf n offset dst s h within small apart apart' =
    let (mem, wrote, writes) = file_write_lem fdnum p buf n offset s h within small apart in
    let s1 : Process Files = record s { mem = mem } in
    let (m, mem2, ran, most, fits, all, reads) =
      file_read_lem fdnum p dst n offset s1 h (omega (arith, small)) (omega (arith, within, small))
        apart' in
    let whole : m ≡ n = elim all [ inl e ↦ e | inr e ↦ omega (arith, e, most, within) ] in
    (
      s1,
      record s1 { mem = mem2 },
      wrote,
      rw whole at ran,
      λ i lt.
          let src : ℕ = fd2data fdnum + offset in
          let here : (leb dst (dst + i) && ltb (dst + i) (dst + m)) ≡ true =
            ground (arith, whole) in
          let there : (leb src (src + i) && ltb (src + i) (src + n)) ≡ true = ground arith in
          let from : dst + i - dst + src ≡ src + i = omega arith in
          let from' : src + i - src + buf ≡ buf + i = omega arith in
          reads (dst + i) ∙ rw here (ap mem from ∙ writes (src + i) ∙ rw there (ap s.mem from')),
    )
