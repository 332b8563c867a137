-- ===== src/Pmap/Vm/Loop.antt =====
-- mm/pmap.c: all pages that `boot_map_segment` maps.
use buaa_mips_os.Base.{
  ℕ, zero, suc, ◌+◌, ◌-◌, ◌*◌, ◌/◌, ◌%◌, ◌≤◌, ◌<◌, ◌≡◌, refl, sym, ap, ◌∙◌, Bool, true, false, ◌&&◌,
  Option, some, ◌==◌, ltb, leb, if◌then◌else◌, arith, Bool-cases, inl, inr,
}
use buaa_mips_os.Base.Words.{u32}
use buaa_mips_os.Kernel.{Kern, ◌>>=◌, store_word}
use buaa_mips_os.Pmap.{pdx, ptx, ppn, pte_v, is_set}
use buaa_mips_os.Pmap.Vm.{boot_perm, map_loop, boot_map_segment}
use buaa_mips_os.Pmap.Vm.Entry.{boot_perm-v, boot_perm-ppn, entry_at, BootOk, Enters}
use buaa_mips_os.Pmap.Vm.Segment.{map_one_lem}

-- Page `x` of the address space is one of `n` from `va` on.
abbrev pub covers : ℕ → ℕ → ℕ → Bool
covers va n x = leb (va / 4096) x && ltb x (va / 4096 + n)

-- The entries of `n` pages from `va` on name the pages from `pa` on, and all other entries are as before.
abbrev pub SegmentSays : Kern → ℕ → ℕ → ℕ → ℕ → ℕ → Kern → Type 0
SegmentSays k pgdir va n pa perm k' =
    (d t : ℕ)
    → d < 1024
    → t < 1024
    → entry_at k' pgdir d t ≡ (
        if covers va n (d * 1024 + t)
        then some (boot_perm (u32 (pa + (d * 1024 + t - va / 4096) * 4096)) perm)
        else entry_at k pgdir d t)

abbrev pub MapsAll : Kern → ℕ → ℕ → ℕ → ℕ → ℕ → ℕ → Option (Unit {0} × Kern) → Type 0
MapsAll k pgdir top va n pa perm o =
    (k' : Kern) × (top' : ℕ) × (o ≡ some (tt, k'))
    × BootOk k' pgdir top'
    × (top ≤ top')
    × (top' ≤ top + n)
    × SegmentSays k pgdir va n pa perm k'

-- One entry, and then those behind it.
entry-then :
    (k k1 k2 : Kern) (pgdir va n pa perm : ℕ)
    → va + suc n * 4096 ≤ 0x1_0000_0000
    → Enters k pgdir (pdx va) (ptx va) (boot_perm (u32 pa) perm) k1
    → SegmentSays k1 pgdir (va + 4096) n (pa + 4096) perm k2
    → SegmentSays k pgdir va (suc n) pa perm k2
entry-then k k1 k2 pgdir va n pa perm fits first rest d t lt lt' =
    let x : ℕ = d * 1024 + t in
    let next : (va + 4096) / 4096 ≡ va / 4096 + 1 = omega arith in
    elim (Bool-cases (covers (va + 4096) n x)) [
      | inl e ↦
          let whole : covers va (suc n) x ≡ true = ground (arith, e, next) in
          let same : pa + 4096 + (x - (va + 4096) / 4096) * 4096 ≡ pa + (x - va / 4096) * 4096 =
            ground (arith, e, next) in
          rest d t lt lt' ∙ rw (e, whole) (ap (λ y. some (boot_perm (u32 y) perm)) same)
      | inr e ↦ elim (Bool-cases (x == va / 4096)) [
        | inl f ↦
            let whole : covers va (suc n) x ≡ true = ground (arith, f) in
            let here : ((d == pdx va) && (t == ptx va)) ≡ true = ground (arith, f, fits) in
            let same : pa ≡ pa + (x - va / 4096) * 4096 = ground (arith, f) in
            rest d t lt lt'
            ∙ rw e
                (first d t lt lt' ∙ rw (here, whole) (ap (λ y. some (boot_perm (u32 y) perm)) same))
        | inr f ↦
            let whole : covers va (suc n) x ≡ false = ground (arith, e, f, next) in
            let far : ((d == pdx va) && (t == ptx va)) ≡ false = ground (arith, f, fits) in
            rest d t lt lt' ∙ rw e (first d t lt lt' ∙ rw (far, whole) refl)
      ]
    ]

map_loop_lem :
    (n end : ℕ) (k : Kern) (pgdir top va pa perm : ℕ)
    → BootOk k pgdir top
    → top + n < 0x4000
    → va + n * 4096 ≤ 0x1_0000_0000
    → MapsAll k pgdir top va n pa perm (map_loop n end pgdir va pa perm k)
unfolding map_loop
map_loop_lem zero end k pgdir top va pa perm o room fits =
    (k, top, refl, o, omega arith, omega arith, λ d t lt lt'. ground arith)
map_loop_lem (suc n) end k pgdir top va pa perm o room fits =
    let (k1, top1, ran, o1, more, less, first) =
      map_one_lem end k pgdir top va pa perm o (omega (arith, room)) in
    let (k2, top2, ran2, o2, more2, less2, rest) =
      map_loop_lem n end k1 pgdir top1 (va + 4096) (pa + 4096) perm o1 (omega (arith, room, less))
        (omega (arith, fits)) in
    (
      k2,
      top2,
      rw (◌>>=◌, ran) ran2,
      o2,
      omega (arith, more, more2),
      omega (arith, less, less2),
      entry-then k k1 k2 pgdir va n pa perm fits first rest,
    )

-- The flags that a directory entry that is valid gets at the end.
module _ (k : Kern) (pgdir top d perm : ℕ) (o : BootOk k pgdir top) (dlt : d < 1024)
    (small : perm < 4096) (set : is_set (k.mem pgdir d) pte_v ≡ true) where
  abbrev pub flagged : Kern
  flagged = store_word pgdir d (boot_perm (k.mem pgdir d) perm) k

  flagged-cases :
      (i : ℕ)
      → (ppn (flagged.mem pgdir i) ≡ ppn (k.mem pgdir i))
        × (is_set (flagged.mem pgdir i) pte_v ≡ is_set (k.mem pgdir i) pte_v)
  flagged-cases i =
      let here : (pgdir == pgdir) ≡ true = ground arith in
      elim (Bool-cases (i == d)) [
        | inl e ↦
            let same : i ≡ d = ground (arith, e) in
            rw (here, e, same)
              (boot_perm-ppn (k.mem pgdir d) perm small, boot_perm-v (k.mem pgdir d) perm ∙ sym set)
        | inr e ↦ rw (here, e) (refl, refl)
      ]

  flagged-BootOk : BootOk flagged pgdir top
  flagged-BootOk = record {
    npage = o.npage;
    freemem = o.freemem;
    dir = o.dir;
    named = λ i lt. rw (flagged-cases i).0 (o.named i lt);
    below = λ i lt h. rw (flagged-cases i).0 (o.below i lt (rw (flagged-cases i).1 at h));
    other = λ i lt h. rw (flagged-cases i).0 (o.other i lt (rw (flagged-cases i).1 at h));
    apart = λ i j lt lt' h h' q.
        o.apart i j lt lt' (rw (flagged-cases i).1 at h) (rw (flagged-cases j).1 at h')
          (rw ((flagged-cases i).0, (flagged-cases j).0) at q);
  }

  flagged-entry_at :
      (i t : ℕ) → i < 1024 → t < 1024 → entry_at flagged pgdir i t ≡ entry_at k pgdir i t
  flagged-entry_at i t lt lt' = elim (Bool-cases (is_set (k.mem pgdir i) pte_v)) [
    | inl v ↦
        let far : (ppn (k.mem pgdir i) == pgdir) ≡ false = o.other i lt v in
        rw ((flagged-cases i).1, (flagged-cases i).0, v, far) refl
    | inr v ↦ rw ((flagged-cases i).1, v) refl
  ]

  flagged-MapsAll :
      (k0 : Kern) (top0 va n pa : ℕ)
      → top0 ≤ top
      → top ≤ top0 + n
      → SegmentSays k0 pgdir va n pa perm k
      → MapsAll k0 pgdir top0 va n pa perm (some (tt, flagged))
  flagged-MapsAll k0 top0 va n pa more less says = (
    flagged,
    top,
    refl,
    flagged-BootOk,
    more,
    less,
    λ i t lt lt'. flagged-entry_at i t lt lt' ∙ says i t lt lt',
  )

-- An entry of the segment is valid, and so is the directory entry that leads to it.
set_behind :
    (k : Kern) (pgdir d t w : ℕ)
    → entry_at k pgdir d t ≡ some w
    → is_set (k.mem pgdir d) pte_v ≡ true
set_behind k pgdir d t w e = elim (Bool-cases (is_set (k.mem pgdir d) pte_v)) [
  | inl h ↦ h
  | inr h ↦ absurd (ground (arith, h, e))
]

-- In a well-formed directory, with memory for a table to each page, boot_map_segment does not panic, and
-- maps the pages from va to va + size, below 4 GB, to those from pa on with the permissions, PTE_V and PTE_R;
-- no other entry changes, the directory stays well-formed, and at most one page is taken for each page mapped.
pub boot_map_segment_lem :
    (end : ℕ) (k : Kern) (pgdir top va size pa perm : ℕ)
    → BootOk k pgdir top
    → size % 4096 ≡ 0
    → 0 < size
    → perm < 4096
    → top + size / 4096 < 0x4000
    → va + size ≤ 0x1_0000_0000
    → MapsAll k pgdir top va (size / 4096) pa perm (boot_map_segment end pgdir va size pa perm k)
unfolding boot_map_segment
boot_map_segment_lem end k pgdir top va size pa perm o whole some_page small room fits =
    let n : ℕ = size / 4096 in
    let is_whole : (size % 4096 == 0) ≡ true = ground (arith, whole) in
    let (k1, top1, ran, o1, more, less, says) =
      map_loop_lem n end k pgdir top va pa perm o room (omega (arith, fits, whole)) in
    let dlt : pdx va < 1024 = omega arith in
    let tlt : ptx va < 1024 = omega arith in
    let first : covers va n (pdx va * 1024 + ptx va) ≡ true =
      ground (arith, some_page, whole, fits) in
    let entry = rw first at (says (pdx va) (ptx va) dlt tlt) in
    let set : is_set (k1.mem pgdir (pdx va)) pte_v ≡ true =
      set_behind k1 pgdir (pdx va) (ptx va) _ entry in
    rw (is_whole, ◌>>=◌, ran)
      (flagged-MapsAll k1 pgdir top1 (pdx va) perm o1 dlt small set k top va n pa more less says)
