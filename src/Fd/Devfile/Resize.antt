-- ===== src/Fd/Devfile/Resize.antt =====
-- user/file.c: which pages of a file `ftruncate` leaves mapped.
use mathlib.Core.Path.{subst}
use buaa_mips_os.Base.{
  ◌||◌, Bool, ℕ, ◌+◌, ◌%◌, ◌/◌, ◌≤◌, ◌≡◌, sym, ap, ◌∙◌, true, false, none, some, ◌==◌, ltb, leb,
  arith,
}
use buaa_mips_os.Base.Words.{round}
use buaa_mips_os.Base.Keeps.{in_turn, split_bind}
use buaa_mips_os.Fs.{Code, ok, fail}
use buaa_mips_os.Fs.Serv.Requests.{devfile_id}
use buaa_mips_os.Fd.{Process, P, maxfd, done, ◌>>=◌}
use buaa_mips_os.Fd.Access.{lookup-some}
use buaa_mips_os.Fd.Fsipc.{Files, f_size, f_fileid, fsipc_set_size}
use buaa_mips_os.Fd.Fsipc.Window.{window_of, size-window}
use buaa_mips_os.Fd.Devfile.{
  fd2data, map_pages, unmap_pages, rounds, maxfilesize, resize_file, ftruncate,
}
use buaa_mips_os.Fd.Devfile.Mapped.{
  among, IsMapped, Maps, Touches, MapPagesSays, map_pages-says, unmap_pages-window,
}

-- Page `v` behind a success, from `s` to `s'`: the pages behind the old end up to the new one are mapped to blocks
-- of the file, those behind the new end up to the old one are not, and every other page is as it was.
-- Behind an error only pages behind the old end have changed.
abbrev pub TruncateSays : ℕ → ℕ → ℕ → ℕ → Process Files → Code → Process Files → Type 0
TruncateSays fileid va oldsize size s (ok m) s' =
    (n : ℕ) × (s1 : Process Files) × (fsipc_set_size fileid size s ≡ some (ok n, s1))
    × ((v : ℕ)
        → (among ((va + round oldsize) / 4096) (rounds oldsize size) v ≡ true
            → IsMapped fileid oldsize va (round oldsize) s1 v s')
          × (among ((va + round size) / 4096) (rounds size oldsize) v ≡ true
              → s'.world.window v ≡ none)
          × ((among ((va + round oldsize) / 4096) (rounds oldsize size) v
                  || among ((va + round size) / 4096) (rounds size oldsize) v)
                ≡ false
              → s'.world.window v ≡ s.world.window v))
TruncateSays fileid va oldsize size s (fail e) s' =
    Touches ((va + round oldsize) / 4096) (rounds oldsize size) s s'

-- Pages that are mapped, and then pages that are unmapped.
cut_back :
    (fileid va oldsize size : ℕ) (s s1 s2 : Process Files) (m n : ℕ)
    → fsipc_set_size fileid size s ≡ some (ok n, s1)
    → s1.world.window ≡ s.world.window
    → Maps fileid oldsize va (round oldsize) (rounds oldsize size) s1 s2
    → TruncateSays fileid va oldsize size s
        (ok m)
        (unmap_pages (rounds size oldsize) (round size) va s2)
cut_back fileid va oldsize size s s1 s2 m n sized e h = (
  n,
  s1,
  sized,
  λ v.
      let new : Bool = among ((va + round oldsize) / 4096) (rounds oldsize size) v in
      let cut : Bool = among ((va + round size) / 4096) (rounds size oldsize) v in
      let now = unmap_pages-window (rounds size oldsize) (round size) va s2 v in
      (
        λ k.
            let kept : cut ≡ false = ground (arith, k) in
            let (b, t, before, asked, shown) = (h v).0 k in
            (b, t, before, asked, (rw kept at now) ∙ shown),
        λ k. rw k at now,
        λ k.
            let kept : cut ≡ false = ground (arith, k) in
            let old : new ≡ false = ground (arith, k) in
            (rw kept at now) ∙ (h v).1 old ∙ ap (λ w. w v) e,
      ),
)

resize_file-says :
    (va size fileid oldsize : ℕ) (s s' : Process Files) (r : Code)
    → va % 4096 ≡ 0
    → resize_file va size fileid oldsize s ≡ some (r, s')
    → TruncateSays fileid va oldsize size s r s'
unfolding resize_file
resize_file-says va size fileid oldsize s s' r whole run =
    let (q, s1, sized, behind) = split_bind (fsipc_set_size fileid size s) _ r s' run in
    on_size q s1 sized ((size-window fileid size).keeps s q s1 sized) behind
  where
    on_pages :
        (q : Code) (n : ℕ) (s1 s2 : Process Files)
        → fsipc_set_size fileid size s ≡ some (ok n, s1)
        → s1.world.window ≡ s.world.window
        → MapPagesSays fileid oldsize va (round oldsize) (rounds oldsize size) s1 q s2
        → (let m : P Files Code = elim q [
          | fail e ↦ done (fail e)
          | ok m ↦
              in_turn
                (λ t. some (tt, unmap_pages (rounds size oldsize) (round size) va t))
                (λ (u : Unit {0}). done (ok 0))
        ] in
            m s2)
          ≡ some (r, s')
        → TruncateSays fileid va oldsize size s r s'
    on_pages (fail e) n s1 s2 sized w h run =
        let code : fail e ≡ r = cc in
        let same : s2 ≡ s' = cc in
        subst (λ c. TruncateSays fileid va oldsize size s c s') code
          (λ v k. ap (λ t. t.world.window v) (sym same) ∙ h v k ∙ ap (λ t. t v) w)
    on_pages (ok m) n s1 s2 sized w h run =
        let code : ok 0 ≡ r = cc in
        let same : unmap_pages (rounds size oldsize) (round size) va s2 ≡ s' = cc in
        subst (λ c. TruncateSays fileid va oldsize size s c s') code
          (subst (λ t. TruncateSays fileid va oldsize size s (ok 0) t) same
            (cut_back fileid va oldsize size s s1 s2 0 n sized w h))

    on_size :
        (q : Code) (s1 : Process Files)
        → fsipc_set_size fileid size s ≡ some (q, s1)
        → window_of s1 ≡ window_of s
        → (let m : P Files Code = elim q [
          | fail e ↦ done (fail e)
          | ok n ↦ in_turn (map_pages (rounds oldsize size) (round oldsize) va fileid oldsize) (λ q.
              elim q [
                | fail e ↦ done (fail e)
                | ok m ↦
                    in_turn
                      (λ t. some (tt, unmap_pages (rounds size oldsize) (round size) va t))
                      (λ (u : Unit {0}). done (ok 0))
              ])
        ] in
            m s1)
          ≡ some (r, s')
        → TruncateSays fileid va oldsize size s r s'
    on_size (fail e) s1 sized w run =
        let code : fail e ≡ r = cc in
        let same : s1 ≡ s' = cc in
        subst (λ c. TruncateSays fileid va oldsize size s c s') code
          (λ v k. ap (λ t. t.world.window v) (sym same) ∙ ap (λ t. t v) w)
    on_size (ok n) s1 sized w run =
        let (q, s2, mapped, behind) =
          split_bind (map_pages (rounds oldsize size) (round oldsize) va fileid oldsize s1) _ r s'
            run in
        on_pages q n s1 s2 sized w
          (map_pages-says (rounds oldsize size) (round oldsize) va fileid oldsize s1 s2 q
            (omega (arith, whole)) mapped)
          behind

-- A descriptor that has a file open.
pub record HasFile (s : Process Files) (fdnum p : ℕ) : Type 0 where
  pub range : leb maxfd fdnum ≡ false
  pub dir : s.vpd ≡ true
  pub page : s.page fdnum ≡ some p
  pub device : ((s.fds p).fd_dev_id == devfile_id) ≡ true

-- Where ftruncate of an open file to a size of at most 4 MB returns 0, every page from the end that
-- the file had when it was opened to the new size is mapped to a block that the server gave for the
-- page's own offset in the file, no page from the new size to that end is, and all other pages are as
-- before; where it returns an error, only pages behind the old end have changed.
pub ftruncate_lem :
    (fdnum p size : ℕ) (s s' : Process Files) (r : Code)
    → HasFile s fdnum p
    → size ≤ maxfilesize
    → ftruncate fdnum size s ≡ some (r, s')
    → TruncateSays (f_fileid s.world p) (fd2data fdnum) (f_size s.world p) size s r s'
unfolding ftruncate
ftruncate_lem fdnum p size s s' r h small run =
    let fits : ltb maxfilesize size ≡ false = ground (arith, small) in
    resize_file-says (fd2data fdnum) size (f_fileid s.world p) (f_size s.world p) s s' r
      (omega arith) (rw (fits, ◌>>=◌, lookup-some s fdnum h.range h.dir h.page, h.device) at run)
