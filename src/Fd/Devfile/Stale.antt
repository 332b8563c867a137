-- ===== src/Fd/Devfile/Stale.antt =====
-- user/file.c with fs/serv.c: the size that a process reads of an open file is that of the time when it was
-- opened.
use buaa_mips_os.Base.{
  ℕ, ◌+◌, ◌≤◌, ◌<◌, ◌≡◌, refl, ap, ◌∙◌, fun_ext, false, some, ltb, arith, Bool-cases, inl, inr,
}
use buaa_mips_os.Fs.{Code, ok}
use buaa_mips_os.Fd.{Process}
use buaa_mips_os.Fd.Fsipc.{Files, f_size}
use buaa_mips_os.Fd.Fsipc.Descriptors.{descriptors}
use buaa_mips_os.Fd.Devfile.{
  fd2data, copied, copy_out, clip, read_file, with_page, file_read, file_write,
}
use buaa_mips_os.Fd.Devfile.Descriptors.{write-descriptors}
use buaa_mips_os.Copy.{user_bcopy}
use buaa_mips_os.Copy.Bytes.{Apart, bcopy_lem}

copy_nothing : (src dst : ℕ) (mem : ℕ → ℕ) → user_bcopy src dst 0 mem ≡ some mem
copy_nothing src dst mem =
    let apart : Apart src dst 0 = ground arith in
    let (mem', ran, moves) = (bcopy_lem src dst 0 mem apart).0 in
    let same : mem' ≡ mem = fun_ext (λ a. moves a ∙ ground arith) in ran ∙ ap some same

copy_out-nothing : (src dst : ℕ) (s : Process Files) → copy_out src dst 0 s ≡ some (ok 0, s)
unfolding copy_out copied
copy_out-nothing src dst s = rw (copy_nothing src dst s.mem) refl

clip-end :
    (size offset m : ℕ)
    → ltb size offset ≡ false
    → size ≤ offset
    → offset + m < 0x1_0000_0000
    → clip size offset m ≡ 0
unfolding clip
clip-end size offset m e end wide = ground arith

-- A read at or behind the end of the file.
read_file-end :
    (size fdnum buf m offset : ℕ) (s : Process Files)
    → size ≤ offset
    → offset + m < 0x1_0000_0000
    → read_file size fdnum buf m offset s ≡ some (ok 0, s)
unfolding read_file
read_file-end size fdnum buf m offset s end wide = elim (Bool-cases (ltb size offset)) [
  | inl e ↦ rw e refl
  | inr e ↦
      let none_left : clip size offset m ≡ 0 = clip-end size offset m e end wide in
      rw (e, none_left) (copy_out-nothing (fd2data fdnum + offset) buf s)
]

file_read-end :
    (fdnum p buf m offset : ℕ) (s : Process Files)
    → s.page fdnum ≡ some p
    → f_size s.world p ≤ offset
    → offset + m < 0x1_0000_0000
    → file_read fdnum buf m offset s ≡ some (ok 0, s)
unfolding file_read with_page
file_read-end fdnum p buf m offset s h end wide =
    rw h (read_file-end (f_size s.world p) fdnum buf m offset s end wide)

-- What a process writes at or behind the end of an open file it cannot read back: whatever file_write
-- returned, and the file server with it, a read from the end that the file had when it was opened on
-- gives 0 bytes and changes nothing, where offset plus length stays below 2^32.
pub file_write-stale :
    (fdnum p buf n offset dst m from : ℕ) (s s' : Process Files) (r : Code)
    → s.page fdnum ≡ some p
    → f_size s.world p ≤ from
    → from + m < 0x1_0000_0000
    → file_write fdnum buf n offset s ≡ some (r, s')
    → file_read fdnum dst m from s' ≡ some (ok 0, s')
file_write-stale fdnum p buf n offset dst m from s s' r h end wide run =
    let same : descriptors s' ≡ descriptors s =
      (write-descriptors fdnum buf n offset).keeps s r s' run in
    let page : s'.page fdnum ≡ some p = ap (λ d. d.1 fdnum) same ∙ h in
    let size : f_size s'.world p ≡ f_size s.world p = ap (λ d. (d.3 p).f_file.f_size) same in
    file_read-end fdnum p dst m from s' page (rw size end) wide
