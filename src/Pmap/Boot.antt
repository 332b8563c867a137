-- ===== src/Pmap/Boot.antt =====
-- `page_init` of mm/pmap.c makes the free list, and `pageout` answers a TLB miss.
use buaa_mips_os.Base.{
  ◌∙◌, ◌*◌, ℕ, zero, suc, ◌+◌, ◌-◌, ◌/◌, ◌%◌, ◌≤◌, ◌<◌, ◌≡◌, refl, true, false, ◌&&◌, ◌||◌, none,
  some, [], ◌∷◌, ltb, leb, if◌then◌else◌, arith, contains, nodup,
}
use buaa_mips_os.Base.Words.{round}
use buaa_mips_os.Kernel.{Kern, M, pure, panic, ◌>>=◌, ◌>>◌, modify, set_ref}
use buaa_mips_os.Pmap.{ulim, pte_r, incref, page_alloc, page_insert}
use buaa_mips_os.Pmap.Returns.{Returns}
use buaa_mips_os.Pmap.Free.{FreeOk}

-- `n` rounds of the loop over the pages of the kernel, from `i` up.
pub use_pages : ℕ → ℕ → Kern → Kern
use_pages zero i k = k
use_pages (suc n) i k = use_pages n (i + 1) (set_ref i 1 k)

-- `n` rounds of the loop over the other pages.
pub free_pages : ℕ → ℕ → Kern → Kern
free_pages zero i k = k
free_pages (suc n) i k =
    free_pages n (i + 1) (record (set_ref i 0 k) { page_free_list = i ∷ k.page_free_list })

-- `end / 4096` is the first page behind the kernel; PADDR panics below ULIM.
pub page_init : M (Unit {0})
page_init k =
    let end : ℕ = round k.freemem in
    if ltb end ulim
    then none
    else let first : ℕ = (end - ulim) / 4096 in
      let k1 : Kern = record k { page_free_list = []; freemem = end } in
      some (tt, free_pages (k.npage - first) first (use_pages first 0 k1))

-- Without its messages. `va` is signed there, so that an address above 2 GB is too low. `r` is
-- unsigned, so that a failed `page_alloc` is not seen, and the null page is used: `none`.
pub pageout : ℕ → ℕ → M (Unit {0})
pageout va context =
    if ltb context 0x8000_0000
    then panic
    else if ltb 0x7f40_0000 va && ltb va 0x7f80_0000
    then panic
    else if ltb va 0x1_0000 || leb 0x8000_0000 va
    then panic
    else do
      p ← page_alloc
      elim p [
        | none ↦ panic
        | some pp ↦ do
          modify (incref pp)
          _ ← page_insert ((context - ulim) / 4096) pp (va - va % 4096) pte_r
          pure tt
      ]

use_pages-ref :
    (n i : ℕ) (k : Kern) (p : ℕ)
    → (use_pages n i k).pp_ref p ≡ (if leb i p && ltb p (i + n) then 1 else k.pp_ref p)
unfolding use_pages
use_pages-ref zero i k p = ground arith
use_pages-ref (suc n) i k p = ground (arith, use_pages-ref n (i + 1) (set_ref i 1 k) p)

use_pages-rest :
    (n i : ℕ) (k : Kern)
    → ((use_pages n i k).page_free_list ≡ k.page_free_list) × ((use_pages n i k).npage ≡ k.npage)
unfolding use_pages
use_pages-rest zero i k = (refl, refl)
use_pages-rest (suc n) i k = use_pages-rest n (i + 1) (set_ref i 1 k)

abbrev one_free : ℕ → Kern → Kern
one_free i k = record (set_ref i 0 k) { page_free_list = i ∷ k.page_free_list }

free_pages-ref :
    (n i : ℕ) (k : Kern) (p : ℕ)
    → (free_pages n i k).pp_ref p ≡ (if leb i p && ltb p (i + n) then 0 else k.pp_ref p)
unfolding free_pages
free_pages-ref zero i k p = ground arith
free_pages-ref (suc n) i k p = ground (arith, free_pages-ref n (i + 1) (one_free i k) p)

free_pages-contains :
    (n i : ℕ) (k : Kern) (p : ℕ)
    → contains (free_pages n i k).page_free_list p
      ≡ ((leb i p && ltb p (i + n)) || contains k.page_free_list p)
unfolding free_pages
free_pages-contains zero i k p = ground arith
free_pages-contains (suc n) i k p = ground (arith, free_pages-contains n (i + 1) (one_free i k) p)

free_pages-npage : (n i : ℕ) (k : Kern) → (free_pages n i k).npage ≡ k.npage
unfolding free_pages
free_pages-npage zero i k = refl
free_pages-npage (suc n) i k = free_pages-npage n (i + 1) (one_free i k)

free_pages-nodup :
    (n i : ℕ) (k : Kern)
    → nodup k.page_free_list ≡ true
    → ((p : ℕ) → i ≤ p → contains k.page_free_list p ≡ false)
    → nodup (free_pages n i k).page_free_list ≡ true
unfolding free_pages
free_pages-nodup zero i k d h = d
free_pages-nodup (suc n) i k d h =
    free_pages-nodup n (i + 1) (one_free i k) (ground (arith, h i)) (λ p le. ground (arith, h p))

-- What `page_init` promises, with `first` the first page behind the kernel.
abbrev pub PagesInit : Kern → ℕ → Kern → Type 0
PagesInit k first k' =
    FreeOk k'
    × (k'.npage ≡ k.npage)
    × ((p : ℕ) → contains k'.page_free_list p ≡ (leb first p && ltb p k.npage))
    × ((p : ℕ) → p < first → k'.pp_ref p ≡ 1)

module _ (k : Kern) (first : ℕ) (le : first ≤ k.npage) (small : k.npage ≤ 0x10_0000)
    (short : (p : ℕ) → k.pp_ref p < 0x1_0000) where
  abbrev cleared : Kern
  cleared = record k { page_free_list = []; freemem = round k.freemem }

  abbrev used : Kern
  used = use_pages first 0 cleared

  abbrev ready : Kern
  ready = free_pages (k.npage - first) first used

  ready-npage : ready.npage ≡ k.npage
  ready-npage = free_pages-npage (k.npage - first) first used ∙ (use_pages-rest first 0 cleared).1

  ready-contains : (p : ℕ) → contains ready.page_free_list p ≡ (leb first p && ltb p k.npage)
  ready-contains p =
      let e : contains used.page_free_list p ≡ false = rw (use_pages-rest first 0 cleared).0 refl in
      ground (arith, free_pages-contains (k.npage - first) first used p)

  ready-ref :
      (p : ℕ)
      → ready.pp_ref p
        ≡ (if leb first p && ltb p k.npage then 0 else if ltb p first then 1 else k.pp_ref p)
  ready-ref p =
      ground (arith, free_pages-ref (k.npage - first) first used p, use_pages-ref first 0 cleared p)

  ready-PagesInit : PagesInit k first ready
  ready-PagesInit = (
    record {
      distinct =
          free_pages-nodup (k.npage - first) first used (rw (use_pages-rest first 0 cleared).0 refl)
            (λ p l. rw (use_pages-rest first 0 cleared).0 refl);
      below = λ p m. rw ready-npage (ground (arith, ready-contains p));
      unref = λ p m. ground (arith, ready-contains p, ready-ref p);
      small = rw ready-npage small;
      short = λ p. ground (arith, ready-ref p, short p);
    },
    ready-npage,
    ready-contains,
    λ p lt. ground (arith, ready-ref p),
  )

-- `page_init` makes a well-formed free list of exactly the pages behind the kernel's memory, which
-- are unreferenced; the pages of the kernel have one reference each.
pub page_init_lem :
    (k : Kern)
    → ulim ≤ round k.freemem
    → round k.freemem - ulim ≤ 4096 * k.npage
    → k.npage ≤ 0x10_0000
    → ((p : ℕ) → k.pp_ref p < 0x1_0000)
    → Returns (λ _ k'. PagesInit k ((round k.freemem - ulim) / 4096) k') (page_init k)
unfolding page_init
page_init_lem k above fits small short =
    let ok : ltb (round k.freemem) ulim ≡ false = ground arith in
    rw ok (ready-PagesInit k ((round k.freemem - ulim) / 4096) (omega arith) small short)
