-- ===== src/Fd/Devfile/Read.antt =====
-- user/file.c: which bytes `file_read` gives, and that `readn` may be used on it.
use buaa_mips_os.Base.{
  ℕ, ◌+◌, ◌-◌, ◌≤◌, ◌<◌, ◌≡◌, ◌⊎◌, refl, inl, inr, true, false, Option, some, ltb, arith,
  Bool-cases,
}
use buaa_mips_os.Base.Words.{u32}
use buaa_mips_os.Fs.{Code, ok}
use buaa_mips_os.Fd.{Process, Dev}
use buaa_mips_os.Fd.Readn.{AtMost, KeepsTable, IsReader}
use buaa_mips_os.Copy.Bytes.{Apart, moved, bcopy_lem, user_bcopy-returns}
use buaa_mips_os.Fd.Fsipc.{Files, f_size}
use buaa_mips_os.Fd.Devfile.{
  fd2data, as_code, copied, copy_out, clip, read_file, with_page, file_read,
}

clip_most : (size offset n : ℕ) → ltb size offset ≡ false → clip size offset n ≤ n
unfolding clip
clip_most size offset n h = ground (arith, h)

as_code-AtMost : (m n : ℕ) → m ≤ n → AtMost n (as_code m)
as_code-AtMost m n h = elim (Bool-cases (ltb m 0x8000_0000)) [ inl e ↦ rw e h | inr e ↦ rw e tt ]

-- What a run that returns keeps.
abbrev Reads : ℕ → Process Files → Option (Code × Process Files) → Type 0
Reads n s o = (r : Code) × (s' : Process Files) × (o ≡ some (r, s')) × KeepsTable s s' × AtMost n r

copy_out-Reads : (src dst m n : ℕ) (s : Process Files) → m ≤ n → Reads n s (copy_out src dst m s)
unfolding copy_out copied
copy_out-Reads src dst m n s h =
    let (mem, ran) = user_bcopy-returns src dst m s.mem in
    rw ran (as_code m, record s { mem = mem }, refl, (refl, refl, refl), as_code-AtMost m n h)

read_file-Reads :
    (size fdnum buf n offset : ℕ) (s : Process Files)
    → Reads n s (read_file size fdnum buf n offset s)
unfolding read_file
read_file-Reads size fdnum buf n offset s = elim (Bool-cases (ltb size offset)) [
  | inl e ↦ rw e (ok 0, s, refl, (refl, refl, refl), omega arith)
  | inr e ↦ rw e (
      copy_out-Reads (fd2data fdnum + offset) buf (clip size offset n) n s
        (clip_most size offset n e))
]

-- A device that reads by file_read returns from every read of a descriptor with an Fd page, whatever the
-- buffer, the offset and the size of the file are, gives at most the bytes asked, and keeps the
-- descriptors: it is one that readn may be used on.
pub file_read-IsReader : (d : Dev Files) → d.dev_read ≡ file_read → IsReader d
unfolding file_read with_page
file_read-IsReader d e fdnum p buf n offset s h =
    rw (e, h) (read_file-Reads (f_size s.world p) fdnum buf n offset s)

-- What file_read gives of a file of a size: as many bytes as there are behind the offset, at most `n`,
-- and they are copied to the buffer.
abbrev pub FileReadSays : ℕ → ℕ → ℕ → ℕ → ℕ → Process Files → Option (Code × Process Files) → Type 0
FileReadSays size fdnum buf n offset s o =
    (m : ℕ) × (mem : ℕ → ℕ) × (o ≡ some (ok m, record s { mem = mem }))
    × (m ≤ n)
    × ((m ≡ 0) ⊎ (offset + m ≤ size))
    × ((m ≡ n) ⊎ (size ≤ offset + m))
    × ((a : ℕ) → mem a ≡ moved (fd2data fdnum + offset) buf m s.mem a)

-- A copy of a number of bytes that is right.
copy_out-says :
    (size fdnum buf n m offset : ℕ) (s : Process Files)
    → m < 0x8000_0000
    → m ≤ n
    → offset + m ≤ size
    → (m ≡ n) ⊎ (size ≤ offset + m)
    → Apart (fd2data fdnum + offset) buf n
    → FileReadSays size fdnum buf n offset s (copy_out (fd2data fdnum + offset) buf m s)
unfolding copy_out copied
copy_out-says size fdnum buf n m offset s small most fits all apart =
    let src : ℕ = fd2data fdnum + offset in
    let (mem, ran, moves) = (bcopy_lem src buf m s.mem (ground (arith, apart))).0 in
    let is_ok : ltb m 0x8000_0000 ≡ true = ground (arith, small) in
    rw (ran, is_ok) (m, mem, refl, most, inr fits, all, moves)

read_file-says :
    (size fdnum buf n offset : ℕ) (s : Process Files)
    → size < 0x8000_0000
    → offset + n < 0x1_0000_0000
    → Apart (fd2data fdnum + offset) buf n
    → FileReadSays size fdnum buf n offset s (read_file size fdnum buf n offset s)
unfolding read_file clip
read_file-says size fdnum buf n offset s small wide apart = elim (Bool-cases (ltb size offset)) [
  | inl e ↦ rw e (0, s.mem, refl, omega arith, inl refl, inr (ground (arith, e)), λ a. ground arith)
  | inr e ↦ elim (Bool-cases (ltb size (u32 (offset + n)))) [
    | inl f ↦
        rw (e, f)
          (copy_out-says size fdnum buf n (size - offset) offset s (omega arith)
            (ground (arith, e, f)) (ground (arith, e)) (inr (omega arith)) apart)
    | inr f ↦
        rw (e, f)
          (copy_out-says size fdnum buf n n offset s (ground (arith, e, f)) (omega arith)
            (ground (arith, e, f)) (inl refl) apart)
  ]
]

-- Where the descriptor has an Fd page, the file is smaller than 2 GB, offset + n does not wrap and the
-- buffer does not overlap the file's bytes, file_read returns the number of bytes from the offset to the
-- end of the file, n at most and 0 behind the end, and copies exactly these bytes to the buffer; nothing
-- else changes.
pub file_read_lem :
    (fdnum p buf n offset : ℕ) (s : Process Files)
    → s.page fdnum ≡ some p
    → f_size s.world p < 0x8000_0000
    → offset + n < 0x1_0000_0000
    → Apart (fd2data fdnum + offset) buf n
    → FileReadSays (f_size s.world p) fdnum buf n offset s (file_read fdnum buf n offset s)
unfolding file_read with_page
file_read_lem fdnum p buf n offset s h small wide apart =
    rw h (read_file-says (f_size s.world p) fdnum buf n offset s small wide apart)
