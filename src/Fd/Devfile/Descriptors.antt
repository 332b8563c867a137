-- ===== src/Fd/Devfile/Descriptors.antt =====
-- user/file.c: what writes and truncations leave of the descriptors.
use buaa_mips_os.Base.{
  leb, ℕ, zero, suc, ◌+◌, ◌≡◌, refl, sym, ap, not, Option, none, some, ◌==◌, ltb, if◌then◌else◌,
  arith, Bool-cases, inl, inr,
}
use buaa_mips_os.Base.Keeps.{in_turn, Keeps-bind, Keeps-set, Keeps-state, Keeps-done}
use buaa_mips_os.Fs.{Code, ok, fail}
use buaa_mips_os.Fd.{maxfd, u32, e_inval, Process, P, state, done, fd_lookup}
use buaa_mips_os.Fd.Fsipc.{Files, unmap_page, fsipc_map, fsipc_set_size}
use buaa_mips_os.Fd.Fsipc.Descriptors.{
  descriptors, KeepsDescriptors, map-descriptors, size-descriptors,
}
use buaa_mips_os.Fd.Devfile.{
  e_no_disk, f_size, round, f_fileid, user_bcopy, maxfilesize, fd2data, rounds, devfile_id, copied,
  copy_out, with_page, map_pages, unmap_pages, resize_file, ftruncate, write_file, file_write,
}

map_pages-descriptors :
    (n i va fileid oldsize : ℕ) → KeepsDescriptors (map_pages n i va fileid oldsize)
unfolding map_pages
map_pages-descriptors zero i va fileid oldsize = Keeps-done (ok 0)
map_pages-descriptors (suc n) i va fileid oldsize =
    Keeps-bind (fsipc_map fileid i (va + i)) _ (map-descriptors fileid i (va + i))
      (on_code (map_pages-descriptors n (i + 4096) va fileid oldsize))
  where
    on_code :
        KeepsDescriptors (map_pages n (i + 4096) va fileid oldsize)
        → (r : Code)
        → KeepsDescriptors (elim r [
          | fail e ↦ in_turn (fsipc_set_size fileid oldsize) (λ r'. done (fail e))
          | ok m ↦ map_pages n (i + 4096) va fileid oldsize
        ])
    on_code rest (fail e) =
        Keeps-bind (fsipc_set_size fileid oldsize) _ (size-descriptors fileid oldsize)
          (λ r'. Keeps-done (fail e))
    on_code rest (ok m) = rest

unmap_pages-descriptors :
    (n i va : ℕ) (s : Process Files) → descriptors (unmap_pages n i va s) ≡ descriptors s
unfolding unmap_pages
unmap_pages-descriptors zero i va s = refl
unmap_pages-descriptors (suc n) i va s =
    unmap_pages-descriptors n (i + 4096) va (unmap_page (va + i) s)

resize-descriptors :
    (va size fileid oldsize : ℕ) → KeepsDescriptors (resize_file va size fileid oldsize)
unfolding resize_file
resize-descriptors va size fileid oldsize =
    Keeps-bind (fsipc_set_size fileid size) _ (size-descriptors fileid size) on_size
  where
    on_pages :
        (r : Code)
        → KeepsDescriptors (elim r [
          | fail e ↦ done (fail e)
          | ok m ↦
              in_turn
                (λ s. some (tt, unmap_pages (rounds size oldsize) (round size) va s))
                (λ (u : Unit {0}). done (ok 0))
        ])
    on_pages (fail e) = Keeps-done (fail e)
    on_pages (ok m) =
        Keeps-bind _ _
          (Keeps-set (unmap_pages (rounds size oldsize) (round size) va)
            (unmap_pages-descriptors (rounds size oldsize) (round size) va))
          (λ u. Keeps-done (ok 0))

    on_size :
        (r : Code)
        → KeepsDescriptors (elim r [
          | fail e ↦ done (fail e)
          | ok n ↦ in_turn (map_pages (rounds oldsize size) (round oldsize) va fileid oldsize) (λ q.
              elim q [
                | fail e ↦ done (fail e)
                | ok m ↦
                    in_turn
                      (λ s. some (tt, unmap_pages (rounds size oldsize) (round size) va s))
                      (λ (u : Unit {0}). done (ok 0))
              ])
        ])
    on_size (fail e) = Keeps-done (fail e)
    on_size (ok n) =
        Keeps-bind (map_pages (rounds oldsize size) (round oldsize) va fileid oldsize) _
          (map_pages-descriptors (rounds oldsize size) (round oldsize) va fileid oldsize) on_pages

found_page :
    (o : Option ℕ) (s : Process Files) (r : Code) (s' : Process Files)
    → elim o as (λ _. Option (Code × Process Files)) [
      | none ↦ some (fail e_inval, s)
      | some p ↦ some (ok p, s)
    ]
      ≡ some (r, s')
    → s ≡ s'
found_page none s r s' run = cc
found_page (some p) s r s' run = cc

lookup-descriptors : (fdnum : ℕ) → KeepsDescriptors (fd_lookup fdnum)
unfolding fd_lookup
lookup-descriptors fdnum = record {
  keeps = λ s r s' run. elim (Bool-cases (leb maxfd fdnum)) [
    | inl e ↦ let same : s ≡ s' = ground (arith, e, run) in ap descriptors (sym same)
    | inr e ↦ elim (Bool-cases s.vpd) [
      | inl v ↦ ap descriptors (sym (found_page (s.page fdnum) s r s' (rw (e, v) at run)))
      | inr v ↦ absurd (ground (arith, e, v, run))
    ]
  ];
}

ftruncate-descriptors : (fdnum size : ℕ) → KeepsDescriptors (ftruncate fdnum size)
unfolding ftruncate
ftruncate-descriptors fdnum size = elim (Bool-cases (ltb maxfilesize size)) [
  | inl e ↦ rw e (Keeps-done (fail e_no_disk))
  | inr e ↦ rw e (Keeps-bind (fd_lookup fdnum) _ (lookup-descriptors fdnum) on_code)
]
  where
    on_state :
        (p : ℕ) (s : Process Files)
        → KeepsDescriptors (
            if not ((s.fds p).fd_dev_id == devfile_id)
            then done (fail e_inval)
            else resize_file (fd2data fdnum) size (f_fileid s.world p) (f_size s.world p))
    on_state p s = elim (Bool-cases ((s.fds p).fd_dev_id == devfile_id)) [
      | inl f ↦
          rw f (resize-descriptors (fd2data fdnum) size (f_fileid s.world p) (f_size s.world p))
      | inr f ↦ rw f (Keeps-done (fail e_inval))
    ]

    on_code :
        (r : Code)
        → KeepsDescriptors (elim r [
          | fail e ↦ done (fail e)
          | ok p ↦ in_turn state (λ s.
              if not ((s.fds p).fd_dev_id == devfile_id)
              then done (fail e_inval)
              else resize_file (fd2data fdnum) size (f_fileid s.world p) (f_size s.world p))
        ])
    on_code (fail e) = Keeps-done (fail e)
    on_code (ok p) = Keeps-bind state _ Keeps-state (on_state p)

copied-descriptors :
    (n : ℕ) (o : Option (ℕ → ℕ)) (s : Process Files) (r : Code) (s' : Process Files)
    → copied n o s ≡ some (r, s')
    → descriptors s' ≡ descriptors s
unfolding copied
copied-descriptors n none s r s' run = absurd (cc)
copied-descriptors n (some mem) s r s' run =
    let same : record s { mem = mem } ≡ s' = cc in ap descriptors (sym same)

copy_out-descriptors : (src dst n : ℕ) → KeepsDescriptors (copy_out src dst n)
unfolding copy_out
copy_out-descriptors src dst n = record {
  keeps = λ s. copied-descriptors n (user_bcopy src dst n s.mem) s;
}

write_file-descriptors :
    (size fdnum buf n offset tot : ℕ) → KeepsDescriptors (write_file size fdnum buf n offset tot)
unfolding write_file
write_file-descriptors size fdnum buf n offset tot = elim (Bool-cases (ltb size tot)) [
  | inl e ↦ rw e (Keeps-bind (ftruncate fdnum tot) _ (ftruncate-descriptors fdnum tot) on_code)
  | inr e ↦ rw e (copy_out-descriptors buf (fd2data fdnum + offset) n)
]
  where
    on_code :
        (r : Code)
        → KeepsDescriptors
            (elim r [ fail e ↦ done (fail e) | ok m ↦ copy_out buf (fd2data fdnum + offset) n ])
    on_code (fail e) = Keeps-done (fail e)
    on_code (ok m) = copy_out-descriptors buf (fd2data fdnum + offset) n

with_page-run :
    (o : Option ℕ) (run : ℕ → P Files Code) (s : Process Files) (r : Code) (s' : Process Files)
    → ((p : ℕ) → KeepsDescriptors (run p))
    → with_page o run s ≡ some (r, s')
    → descriptors s' ≡ descriptors s
unfolding with_page
with_page-run none run s r s' h ran = absurd (cc)
with_page-run (some p) run s r s' h ran = (h p).keeps s r s' ran

pub write-descriptors : (fdnum buf n offset : ℕ) → KeepsDescriptors (file_write fdnum buf n offset)
unfolding file_write
write-descriptors fdnum buf n offset = record {
  keeps = λ s r s' run. with_page-run (s.page fdnum) _ s r s' (on_page s) run;
}
  where
    on_page :
        (s : Process Files) (p : ℕ)
        → KeepsDescriptors (
            if ltb maxfilesize (u32 (offset + n))
            then done (fail e_no_disk)
            else write_file (f_size s.world p) fdnum buf n offset (u32 (offset + n)))
    on_page s p = elim (Bool-cases (ltb maxfilesize (u32 (offset + n)))) [
      | inl e ↦ rw e (Keeps-done (fail e_no_disk))
      | inr e ↦
          rw e (write_file-descriptors (f_size s.world p) fdnum buf n offset (u32 (offset + n)))
    ]
