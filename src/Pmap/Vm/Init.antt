-- ===== src/Pmap/Vm/Init.antt =====
-- mm/pmap.c: the address space that `mips_vm_init` makes.
use buaa_mips_os.Base.{
  ℕ, ◌+◌, ◌-◌, ◌*◌, ◌/◌, ◌≤◌, ◌<◌, ◌≡◌, refl, ap, ◌∙◌, true, false, Option, none, some, ltb,
  if◌then◌else◌, arith, Bool-cases, inl, inr,
}
use buaa_mips_os.Base.Words.{u32}
use buaa_mips_os.Kernel.{Kern, ◌>>=◌}
use buaa_mips_os.Pmap.{ppn, pte_v, pte_r, is_set, ulim}
use buaa_mips_os.Pmap.Vm.{
  boot_perm, paddr, alloc, boot_map_segment, upages, uenvs, page_bytes, mips_vm_init,
}
use buaa_mips_os.Pmap.Vm.Place.{IsNext, free_from, alloc_lem, is_inside}
use buaa_mips_os.Pmap.Vm.Entry.{entry_at, BootOk}
use buaa_mips_os.Pmap.Vm.Kept.{alloc-kept, segment-kept}
use buaa_mips_os.Pmap.Vm.Loop.{covers, SegmentSays, boot_map_segment_lem}

-- `m` pages more, from page `top` on.
abbrev Grown : Kern → ℕ → ℕ → Option (ℕ × Kern) → Type 0
Grown k top m o =
    (k' : Kern) × (o ≡ some (ulim + top * 4096, k'))
    × (k'.freemem ≡ ulim + (top + m) * 4096)
    × (k'.npage ≡ k.npage)
    × ((p i : ℕ) → i < 1024 → p < top → k'.mem p i ≡ k.mem p i)
    × ((p i : ℕ) → i < 1024 → top ≤ p → p < top + m → k'.mem p i ≡ 0)

alloc-Grown :
    (end top m : ℕ) (k : Kern)
    → ulim ≤ free_from end k
    → IsNext (free_from end k) (ulim + top * 4096)
    → top + m < 0x4000
    → Grown k top m (alloc end (m * 4096) 4096 true k)
alloc-Grown end top m k above at room =
    let (chunk, next, full, says) = alloc_lem end (m * 4096) k above (omega (arith, at, room)) in
    let here : chunk ≡ ulim + top * 4096 = omega (arith, at, next) in
    let (k', ran, freemem, npage, mem) = says (omega (arith, here, room)) in
    (
      k',
      ran ∙ ap (λ c. some (c, k')) here,
      omega (arith, freemem, here),
      npage,
      λ p i lt less.
          let out : is_inside chunk (m * 4096) p i ≡ false = ground (arith, here, lt, less) in
          mem p i ∙ rw out refl,
      λ p i lt from to.
          let inside : is_inside chunk (m * 4096) p i ≡ true = ground (arith, here, lt, from, to) in
          mem p i ∙ rw inside refl,
    )

-- The directory is left alone by allocations behind it.
module _ (k k' : Kern) (pgdir top m : ℕ) (o : BootOk k pgdir top) (room : top + m < 0x4000)
    (freemem : k'.freemem ≡ ulim + (top + m) * 4096) (npage : k'.npage ≡ k.npage)
    (kept : (p i : ℕ) → i < 1024 → p < top → k'.mem p i ≡ k.mem p i) where
  dir_row : (d : ℕ) → d < 1024 → k'.mem pgdir d ≡ k.mem pgdir d
  dir_row d lt = kept pgdir d lt o.dir

  grown-BootOk : BootOk k' pgdir (top + m)
  grown-BootOk = record {
    npage = npage ∙ o.npage;
    freemem = freemem;
    dir = omega (arith, o.dir);
    named = λ d lt. rw (dir_row d lt) (o.named d lt);
    below = λ d lt h. rw (dir_row d lt) (omega (arith, o.below d lt (rw (dir_row d lt) at h)));
    other = λ d lt h. rw (dir_row d lt) (o.other d lt (rw (dir_row d lt) at h));
    apart = λ d d' lt lt' h h' q.
        o.apart d d' lt lt' (rw (dir_row d lt) at h) (rw (dir_row d' lt') at h')
          (rw (dir_row d lt, dir_row d' lt') at q);
  }

  grown-entry_at : (d t : ℕ) → d < 1024 → t < 1024 → entry_at k' pgdir d t ≡ entry_at k pgdir d t
  grown-entry_at d t lt lt' = elim (Bool-cases (is_set (k.mem pgdir d) pte_v)) [
    | inl v ↦ rw (dir_row d lt, v, kept (ppn (k.mem pgdir d)) t lt' (o.below d lt v)) refl
    | inr v ↦ rw (dir_row d lt, v) refl
  ]

-- A directory of zeros.
empty-BootOk :
    (k : Kern) (top : ℕ)
    → k.npage ≡ 0x4000
    → k.freemem ≡ ulim + (top + 1) * 4096
    → ((i : ℕ) → i < 1024 → k.mem top i ≡ 0)
    → BootOk k top (top + 1)
empty-BootOk k top npage freemem zeros = record {
  npage = npage;
  freemem = freemem;
  dir = omega arith;
  named = λ d lt. rw (zeros d lt) (omega arith);
  below = λ d lt h. absurd (ground (arith, zeros d lt, h));
  other = λ d lt h. absurd (ground (arith, zeros d lt, h));
  apart = λ d d' lt lt' h h' q. absurd (ground (arith, zeros d lt, h));
}

-- The entries of `envs` and `pages`, and no others.
abbrev pub TwoSegments : Kern → ℕ → ℕ → ℕ → Type 0
TwoSegments k pgdir envs pages =
    (d t : ℕ)
    → d < 1024
    → t < 1024
    → entry_at k pgdir d t ≡ (
        if covers uenvs 54 (d * 1024 + t)
        then some (boot_perm (u32 (envs * 4096 + (d * 1024 + t - uenvs / 4096) * 4096)) pte_r)
        else if covers upages 48 (d * 1024 + t)
        then some (boot_perm (u32 (pages * 4096 + (d * 1024 + t - upages / 4096) * 4096)) pte_r)
        else none)

abbrev SameEntries : Kern → Kern → ℕ → Type 0
SameEntries k k' pgdir =
    (d t : ℕ) → d < 1024 → t < 1024 → entry_at k' pgdir d t ≡ entry_at k pgdir d t

two_segments :
    (k1 k2 k3 k4 k5 : Kern) (pgdir pages envs : ℕ)
    → SegmentSays k4 pgdir uenvs 54 (envs * 4096) pte_r k5
    → SameEntries k3 k4 pgdir
    → SegmentSays k2 pgdir upages 48 (pages * 4096) pte_r k3
    → SameEntries k1 k2 pgdir
    → ((d : ℕ) → d < 1024 → k1.mem pgdir d ≡ 0)
    → TwoSegments k5 pgdir envs pages
two_segments k1 k2 k3 k4 k5 pgdir pages envs fifth fourth third second zeros d t lt lt' =
    let x : ℕ = d * 1024 + t in
    let empty : entry_at k1 pgdir d t ≡ none = rw (zeros d lt) refl in
    elim (Bool-cases (covers uenvs 54 x)) [
      | inl e ↦ fifth d t lt lt' ∙ rw e refl
      | inr e ↦
          fifth d t lt lt'
          ∙ rw e (fourth d t lt lt' ∙ third d t lt lt' ∙ rw (second d t lt lt', empty) refl)
    ]

-- The directory is at page `top`, and its address in `boot_pgdir`; the arrays that `pages` and `envs` point to
-- stand behind it, one behind the other, from the pages of these names on.
abbrev pub VmSays : ℕ → Option ((ℕ × ℕ) × Kern) → Type 0
VmSays top o =
    (k' : Kern) × (pages envs used : ℕ) × (o ≡ some ((ulim + pages * 4096, ulim + envs * 4096), k'))
    × (k'.boot_pgdir ≡ top)
    × BootOk k' top used
    × (top < pages)
    × (pages + 48 ≤ envs)
    × (envs + 54 ≤ used)
    × (used ≤ top + 205)
    × TwoSegments k' top envs pages

paddr-page : (p : ℕ) (k : Kern) → paddr (ulim + p * 4096) k ≡ some (p * 4096, k)
unfolding paddr
paddr-page p k =
    let high : ltb (ulim + p * 4096) ulim ≡ false = ground arith in
    let at : ulim + p * 4096 - ulim ≡ p * 4096 = omega arith in rw (high, at) refl

-- An allocation behind the first one.
next_alloc :
    (end top m : ℕ) (k : Kern)
    → k.freemem ≡ ulim + top * 4096
    → top + m < 0x4000
    → Grown k top m (alloc end (m * 4096) 4096 true k)
next_alloc end top m k e room =
    let at : free_from end k ≡ ulim + top * 4096 = ground (arith, e) in
    alloc-Grown end top m k (omega (arith, at)) (omega (arith, at)) room

-- The calls of `mips_vm_init` in turn.
vm_runs :
    (end top top3 : ℕ) (k k1 k2 k3 k4 k5 : Kern)
    → alloc end 4096 4096 true k ≡ some (ulim + top * 4096, k1)
    → k1.npage ≡ 0x4000
    → alloc end (48 * 4096) 4096 true (record k1 { boot_pgdir = top })
      ≡ some (ulim + (top + 1) * 4096, k2)
    → boot_map_segment end top upages (48 * 4096) ((top + 1) * 4096) pte_r k2 ≡ some (tt, k3)
    → alloc end (54 * 4096) 4096 true k3 ≡ some (ulim + top3 * 4096, k4)
    → boot_map_segment end top uenvs (54 * 4096) (top3 * 4096) pte_r k4 ≡ some (tt, k5)
    → mips_vm_init end k ≡ some ((ulim + (top + 1) * 4096, ulim + top3 * 4096), k5)
unfolding mips_vm_init
vm_runs end top top3 k k1 k2 k3 k4 k5 ran1 npage ran2 ran3 ran4 ran5 =
    let page : top * 4096 / 4096 ≡ top = omega arith in
    let bytes : u32 (k1.npage * page_bytes) ≡ 48 * 4096 = omega (arith, npage) in
    rw
      (
        ◌>>=◌,
        ran1,
        paddr-page top k1,
        page,
        bytes,
        ran2,
        paddr-page (top + 1) k2,
        page,
        bytes,
        ran3,
        ran4,
        paddr-page top3 k4,
        page,
        ran5,
      )
      refl

same_directory :
    (end top top3 : ℕ) (k1 k2 k3 k4 k5 : Kern)
    → alloc end (48 * 4096) 4096 true k1 ≡ some (ulim + (top + 1) * 4096, k2)
    → boot_map_segment end top upages (48 * 4096) ((top + 1) * 4096) pte_r k2 ≡ some (tt, k3)
    → alloc end (54 * 4096) 4096 true k3 ≡ some (ulim + top3 * 4096, k4)
    → boot_map_segment end top uenvs (54 * 4096) (top3 * 4096) pte_r k4 ≡ some (tt, k5)
    → k5.boot_pgdir ≡ k1.boot_pgdir
same_directory end top top3 k1 k2 k3 k4 k5 ran2 ran3 ran4 ran5 =
    (segment-kept end top uenvs (54 * 4096) (top3 * 4096) pte_r).keeps k4 tt k5 ran5
    ∙ (alloc-kept end (54 * 4096) 4096).keeps k3 (ulim + top3 * 4096) k4 ran4
    ∙ (segment-kept end top upages (48 * 4096) ((top + 1) * 4096) pte_r).keeps k2 tt k3 ran3
    ∙ (alloc-kept end (48 * 4096) 4096).keeps k1 (ulim + (top + 1) * 4096) k2 ran2

-- With 64 MB of memory, and room behind the kernel's image for 205 pages, mips_vm_init does not panic. It sets
-- boot_pgdir to a well-formed directory on the first page behind the image, and the pointers `pages` and
-- `envs` to arrays behind it. The directory maps the 48 pages of the array at `pages` from UPAGES on and the 54
-- pages of the array at `envs` from UENVS on, readable and writable, and no other page; the directory and the
-- two arrays do not overlap.
pub mips_vm_init_lem :
    (end top : ℕ) (k : Kern)
    → k.npage ≡ 0x4000
    → ulim ≤ free_from end k
    → IsNext (free_from end k) (ulim + top * 4096)
    → top + 205 < 0x4000
    → VmSays top (mips_vm_init end k)
mips_vm_init_lem end top k npage above next room =
    let (k1, ran1, free1, np1, kept1, zero1) =
      alloc-Grown end top 1 k above next (omega (arith, room)) in
    let k1' : Kern = record k1 { boot_pgdir = top } in
    let o1 : BootOk k1' top (top + 1) =
      empty-BootOk k1' top (np1 ∙ npage) free1
        (λ i lt. zero1 top i lt (omega arith) (omega arith)) in
    let (k2, ran2, free2, np2, kept2, zero2) =
      next_alloc end (top + 1) 48 k1' free1 (omega (arith, room)) in
    let room2 : top + 1 + 48 < 0x4000 = omega (arith, room) in
    let o2 : BootOk k2 top (top + 1 + 48) =
      grown-BootOk k1' k2 top (top + 1) 48 o1 room2 free2 np2 kept2 in
    let (k3, top3, ran3, o3, more3, less3, says3) =
      boot_map_segment_lem end k2 top (top + 1 + 48) upages (48 * 4096) ((top + 1) * 4096) pte_r o2
        (omega arith) (omega arith) (omega arith) (omega (arith, room)) (omega arith) in
    let room3 : top3 + 54 < 0x4000 = omega (arith, room, less3) in
    let (k4, ran4, free4, np4, kept4, zero4) = next_alloc end top3 54 k3 o3.freemem room3 in
    let o4 : BootOk k4 top (top3 + 54) = grown-BootOk k3 k4 top top3 54 o3 room3 free4 np4 kept4 in
    let (k5, top5, ran5, o5, more5, less5, says5) =
      boot_map_segment_lem end k4 top (top3 + 54) uenvs (54 * 4096) (top3 * 4096) pte_r o4
        (omega arith) (omega arith) (omega arith) (omega (arith, room, less3)) (omega arith) in
    (
      k5,
      top + 1,
      top3,
      top5,
      vm_runs end top top3 k k1 k2 k3 k4 k5 ran1 (np1 ∙ npage) ran2 ran3 ran4 ran5,
      same_directory end top top3 k1' k2 k3 k4 k5 ran2 ran3 ran4 ran5,
      o5,
      omega arith,
      omega (arith, more3),
      omega (arith, more5),
      omega (arith, less3, less5),
      two_segments k1' k2 k3 k4 k5 top (top + 1) top3 says5
          (grown-entry_at k3 k4 top top3 54 o3 room3 free4 np4 kept4) says3
          (grown-entry_at k1' k2 top (top + 1) 48 o1 room2 free2 np2 kept2)
          (λ d lt. zero1 top d lt (omega arith) (omega arith)),
    )
