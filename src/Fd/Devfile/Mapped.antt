-- ===== src/Fd/Devfile/Mapped.antt =====
-- user/file.c: the loops of `ftruncate` that map and unmap pages of a file.
use mathlib.Core.Path.{subst}
use buaa_mips_os.Base.{
  refl, Bool, ℕ, zero, suc, ◌+◌, ◌-◌, ◌*◌, ◌%◌, ◌/◌, ◌≡◌, sym, ap, ◌∙◌, true, false, none, some,
  ◌==◌, ltb, leb, ◌&&◌, if◌then◌else◌, arith, inl, inr, Bool-cases,
}
use buaa_mips_os.Base.Keeps.{in_turn, split_bind}
use buaa_mips_os.Fs.{Code, ok, fail}
use buaa_mips_os.Fd.{Process, P, done, ◌>>=◌}
use buaa_mips_os.Fd.Fsipc.{Files, unmap_page, fsipc_map, fsipc_set_size}
use buaa_mips_os.Fd.Fsipc.Window.{Answers, window_of, size-window, fsipc_map-window, MapsPage}
use buaa_mips_os.Fd.Devfile.{map_pages, unmap_pages}

-- Whether a page number lies among `n` from `first` on.
abbrev pub among : ℕ → ℕ → ℕ → Bool
among first n v = leb first v && ltb v (first + n)

-- Page `v` is mapped to the block that the server answered with when it was asked for the block at the page's own
-- offset of the file, whose pages begin at `va`; the pages from offset `i` on had been mapped before, from
-- the state `s` on.
abbrev pub IsMapped : ℕ → ℕ → ℕ → ℕ → Process Files → ℕ → Process Files → Type 0
IsMapped fileid oldsize va i s v s' =
    (b : ℕ) × (t : Process Files) × (map_pages (v - (va + i) / 4096) i va fileid oldsize s
      ≡ some (ok 0, t))
    × Answers fileid (v * 4096 - va) t b
    × (s'.world.window v ≡ some b)

-- Pages that are mapped behind a run, and no other has changed.
abbrev pub Maps : ℕ → ℕ → ℕ → ℕ → ℕ → Process Files → Process Files → Type 0
Maps fileid oldsize va i n s s' =
    (v : ℕ)
    → (among ((va + i) / 4096) n v ≡ true → IsMapped fileid oldsize va i s v s')
      × (among ((va + i) / 4096) n v ≡ false → s'.world.window v ≡ s.world.window v)

-- No other page has changed.
abbrev pub Touches : ℕ → ℕ → Process Files → Process Files → Type 0
Touches first n s s' = (v : ℕ) → among first n v ≡ false → s'.world.window v ≡ s.world.window v

abbrev pub MapPagesSays : ℕ → ℕ → ℕ → ℕ → ℕ → Process Files → Code → Process Files → Type 0
MapPagesSays fileid oldsize va i n s (ok m) s' = Maps fileid oldsize va i n s s'
MapPagesSays fileid oldsize va i n s (fail e) s' = Touches ((va + i) / 4096) n s s'

-- A round of the loop that maps a page.
map_pages-round :
    (n i va fileid oldsize m : ℕ) (s s1 : Process Files)
    → fsipc_map fileid i (va + i) s ≡ some (ok m, s1)
    → map_pages (suc n) i va fileid oldsize s ≡ map_pages n (i + 4096) va fileid oldsize s1
unfolding map_pages
map_pages-round n i va fileid oldsize m s s1 run = rw (◌>>=◌, run) refl

-- A page, and then those behind it.
Maps-suc :
    (fileid oldsize va i n m : ℕ) (s s1 s2 : Process Files)
    → (va + i) % 4096 ≡ 0
    → fsipc_map fileid i (va + i) s ≡ some (ok m, s1)
    → MapsPage fileid i (va + i) s (ok 0) s1
    → Maps fileid oldsize va (i + 4096) n s1 s2
    → Maps fileid oldsize va i (suc n) s s2
unfolding map_pages
Maps-suc fileid oldsize va i n m s s1 s2 whole run (b, asked, e) h v =
    let next : (va + (i + 4096)) / 4096 ≡ (va + i) / 4096 + 1 = omega arith in
    (
      λ k. elim (Bool-cases (among ((va + (i + 4096)) / 4096) n v)) [
        | inl f ↦
            let (b', t, before, asked', shown) = (h v).0 f in
            let back : v - (va + i) / 4096 ≡ suc (v - (va + (i + 4096)) / 4096) =
              ground (arith, f, next) in
            let ran =
              map_pages-round (v - (va + (i + 4096)) / 4096) i va fileid oldsize m s s1 run in
            (b', t, rw back (ran ∙ before), asked', shown)
        | inr f ↦
            let here : ((va + i) / 4096 == v) ≡ true = ground (arith, k, f, next) in
            let offset : i ≡ v * 4096 - va = ground (arith, here, whole) in
            let first : v - (va + i) / 4096 ≡ 0 = ground (arith, here) in
            (
              b,
              s,
              rw first refl,
              subst (λ o. Answers fileid o s b) offset asked,
              (h v).1 f ∙ rw e (ground (arith, here)),
            )
      ],
      λ k.
          let f : among ((va + (i + 4096)) / 4096) n v ≡ false = ground (arith, k, next) in
          let other : ((va + i) / 4096 == v) ≡ false = ground (arith, k) in
          (h v).1 f ∙ rw e (ground (arith, other)),
    )

Touches-suc :
    (fileid va i n : ℕ) (s s1 s2 : Process Files)
    → MapsPage fileid i (va + i) s (ok 0) s1
    → Touches ((va + i) / 4096 + 1) n s1 s2
    → Touches ((va + i) / 4096) (suc n) s s2
Touches-suc fileid va i n s s1 s2 (b, asked, e) h v k =
    let f : among ((va + i) / 4096 + 1) n v ≡ false = ground (arith, k) in
    let other : ((va + i) / 4096 == v) ≡ false = ground (arith, k) in
    h v f ∙ rw e (ground (arith, other))

pub map_pages-says :
    (n i va fileid oldsize : ℕ) (s s' : Process Files) (r : Code)
    → (va + i) % 4096 ≡ 0
    → map_pages n i va fileid oldsize s ≡ some (r, s')
    → MapPagesSays fileid oldsize va i n s r s'
unfolding map_pages
map_pages-says zero i va fileid oldsize s s' r whole run =
    let code : ok 0 ≡ r = cc in
    let same : s ≡ s' = cc in
    subst (λ c. MapPagesSays fileid oldsize va i zero s c s') code
      (λ v. (λ k. absurd (ground (arith, k)), λ k. ap (λ t. t.world.window v) (sym same)))
map_pages-says (suc n) i va fileid oldsize s s' r whole run =
    let (q, s1, mapped, behind) = split_bind (fsipc_map fileid i (va + i) s) _ r s' run in
    on_code q s1 mapped (fsipc_map-window fileid i (va + i) s q s1 mapped) behind
      (map_pages-says n (i + 4096) va fileid oldsize s1 s' r (omega (arith, whole)))
  where
    next : (va + (i + 4096)) / 4096 ≡ (va + i) / 4096 + 1
    next = omega arith

    onward :
        (s1 : Process Files) (m : ℕ) (c : Code)
        → fsipc_map fileid i (va + i) s ≡ some (ok m, s1)
        → MapsPage fileid i (va + i) s (ok 0) s1
        → MapPagesSays fileid oldsize va (i + 4096) n s1 c s'
        → MapPagesSays fileid oldsize va i (suc n) s c s'
    onward s1 m (ok _) mapped h k = Maps-suc fileid oldsize va i n m s s1 s' whole mapped h k
    onward s1 m (fail e) mapped h k =
        Touches-suc fileid va i n s s1 s' h (subst (λ p. Touches p n s1 s') next k)

    on_code :
        (q : Code) (s1 : Process Files)
        → fsipc_map fileid i (va + i) s ≡ some (q, s1)
        → MapsPage fileid i (va + i) s q s1
        → (let m : P Files Code = elim q [
          | fail e ↦ in_turn (fsipc_set_size fileid oldsize) (λ r'. done (fail e))
          | ok m ↦ map_pages n (i + 4096) va fileid oldsize
        ] in
            m s1)
          ≡ some (r, s')
        → (map_pages n (i + 4096) va fileid oldsize s1 ≡ some (r, s')
            → MapPagesSays fileid oldsize va (i + 4096) n s1 r s')
        → MapPagesSays fileid oldsize va i (suc n) s r s'
    on_code (ok m) s1 mapped h run rest = onward s1 m r mapped h (rest run)
    on_code (fail e) s1 mapped h run rest =
        let (q, s2, set_back, end) =
          split_bind (fsipc_set_size fileid oldsize s1) (λ r'. done (fail e)) r s' run in
        let code : fail e ≡ r = cc in
        let same : s2 ≡ s' = cc in
        let kept : window_of s' ≡ window_of s =
          ap window_of (sym same) ∙ (size-window fileid oldsize).keeps s1 q s2 set_back ∙ h in
        subst (λ c. MapPagesSays fileid oldsize va i (suc n) s c s') code
          (λ v k. ap (λ w. w v) kept)

pub unmap_pages-window :
    (n i va : ℕ) (s : Process Files) (v : ℕ)
    → (unmap_pages n i va s).world.window v
      ≡ (if among ((va + i) / 4096) n v then none else s.world.window v)
unfolding unmap_pages
unmap_pages-window zero i va s v = ground arith
unmap_pages-window (suc n) i va s v =
    ground (arith, unmap_pages-window n (i + 4096) va (unmap_page (va + i) s) v)
