-- ===== src/Fd/Devfile/Tests.antt =====
-- Runs of the file device, and instances of what is proved of it.
use buaa_mips_os.Copy.Bytes.{user_bcopy-returns}
use buaa_mips_os.Base.{ℕ, ◌+◌, ◌<◌, ◌≡◌, refl, inl, inr, some, [], ◌∷◌, arith}
use buaa_mips_os.Fs.{Code, ok}
use buaa_mips_os.Fd.{Process, readn, dev_lookup, ◌>>=◌}
use buaa_mips_os.Fd.Access.{lookup-some}
use buaa_mips_os.Fd.Readn.{IsOpen, ReadnSays, readn_lem}
use buaa_mips_os.Fd.Fsipc.{Files}
use buaa_mips_os.Fd.Fsipc.Samples.{one_file, behind, grows_file}
use buaa_mips_os.Fd.Devfile.{
  f_fileid, copied, file_read, file_write, ftruncate, devfile, write_file, with_page, resize_file,
  map_pages, unmap_pages, copy_out, fd2data,
}
use buaa_mips_os.Fd.Devfile.Read.{FileReadSays, file_read_lem, file_read-IsReader}
use buaa_mips_os.Fd.Devfile.Write.{file_read-file_write}
use buaa_mips_os.Fd.Devfile.Resize.{TruncateSays, HasFile, ftruncate_lem}
use buaa_mips_os.Fd.Devfile.Stale.{file_write-stale}

-- 500 of 1000 bytes are left behind offset 2500.
file_read_lem_example :
    FileReadSays 3000 0 0x1000 1000 2500 one_file (file_read 0 0x1000 1000 2500 one_file)
file_read_lem_example =
    file_read_lem 0 0 0x1000 1000 2500 one_file refl (omega arith) (omega arith) (inl (omega arith))

file_read-file_write_example :
    (s1 s2 : Process Files) × (file_write 0 0x1000 100 50 one_file ≡ some (ok 100, s1))
    × (file_read 0 0x2000 100 50 s1 ≡ some (ok 100, s2))
    × ((i : ℕ) → i < 100 → s2.mem (0x2000 + i) ≡ one_file.mem (0x1000 + i))
file_read-file_write_example =
    file_read-file_write 0 0 0x1000 100 50 0x2000 one_file refl (omega arith) (omega arith)
      (inr (omega arith)) (inl (omega arith))

one_file-HasFile : HasFile one_file 0 0
one_file-HasFile = record { range = refl; dir = refl; page = refl; device = refl }

-- The new end lies in the same page.
truncates : (s' : Process Files) × (ftruncate 0 3900 one_file ≡ some (ok 0, s'))
unfolding ftruncate resize_file map_pages unmap_pages
truncates =
    let (fs, run) = grows_file in
    (behind fs, rw (◌>>=◌, lookup-some one_file 0 refl refl refl, run) refl)

ftruncate_lem_example :
    TruncateSays (f_fileid one_file.world 0) (fd2data 0) 3000 3900 one_file (ok 0) (truncates.0)
ftruncate_lem_example =
    ftruncate_lem 0 0 3900 one_file (truncates.0) (ok 0) one_file-HasFile (omega arith)
      (truncates.1)

-- 1000 bytes from offset 2900 on.
writes : (s' : Process Files) × (r : Code) × (file_write 0 0x1000 1000 2900 one_file ≡ some (r, s'))
unfolding file_write with_page write_file copy_out copied
writes =
    let (s1, ran) = truncates in
    let (mem, copies) = user_bcopy-returns 0x1000 (fd2data 0 + 2900) 1000 s1.mem in
    (record s1 { mem = mem }, ok 1000, rw (◌>>=◌, ran, copies) refl)

-- Of the bytes behind the old end none can be read.
file_write-stale_example : file_read 0 0x2000 500 3000 (writes.0) ≡ some (ok 0, writes.0)
file_write-stale_example =
    file_write-stale 0 0 0x1000 1000 2900 0x2000 500 3000 one_file (writes.0) (writes.1) refl
      (omega arith) (omega arith) (writes.2)

devfile-IsOpen : IsOpen (devfile ∷ []) 0 0 devfile one_file 10
unfolding dev_lookup
devfile-IsOpen = record {
  range = refl;
  dir = refl;
  page = refl;
  device = unfold devfile in refl;
  readable = refl;
  at = refl;
}

devfile-reads : devfile.dev_read ≡ file_read
unfolding devfile
devfile-reads = refl

-- `readn` of 5000 bytes of a file.
readn-devfile :
    (r : Code) × (s' : Process Files) × (readn (devfile ∷ []) 0 0x400 5000 one_file ≡ some (r, s'))
    × ReadnSays (devfile ∷ []) 0 0 devfile 10 5000 r s'
readn-devfile =
    readn_lem (devfile ∷ []) 0 0 devfile one_file 10 0x400 5000 (omega arith)
      (file_read-IsReader devfile devfile-reads) devfile-IsOpen
