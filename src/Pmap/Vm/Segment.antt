-- ===== src/Pmap/Vm/Segment.antt =====
-- mm/pmap.c: what `boot_map_segment` maps.
use buaa_mips_os.Base.{
  ℕ, ◌+◌, ◌-◌, ◌*◌, ◌/◌, ◌≤◌, ◌<◌, ◌≡◌, refl, ap, ◌∙◌, true, false, ◌&&◌, Option, some, ◌==◌, ltb,
  if◌then◌else◌, arith, Bool-cases, inl, inr,
}
use buaa_mips_os.Base.Words.{u32}
use buaa_mips_os.Kernel.{Kern, ◌>>=◌, store_word}
use buaa_mips_os.Pmap.{pdx, ptx, ppn, pte_addr, pte_v, is_set, ulim, kaddr}
use buaa_mips_os.Pmap.Free.{kaddr-ok}
use buaa_mips_os.Pmap.Vm.{boot_perm, paddr, boot_pgdir_walk, map_one}
use buaa_mips_os.Pmap.Vm.Place.{alloc-page}
use buaa_mips_os.Pmap.Vm.Entry.{
  boot_perm-v, BootOk, Enters, stored-BootOk, stored-Enters, with_table, tabled-BootOk,
  tabled-entry_at, row, new_entry, new_entry-ppn, table_entry-v,
}

module _ (end : ℕ) (k : Kern) (pgdir top va : ℕ) (o : BootOk k pgdir top) where
  kaddr-table : kaddr (pte_addr (k.mem pgdir (pdx va))) k ≡ some (ppn (k.mem pgdir (pdx va)), k)
  kaddr-table =
      let e : ppn (pte_addr (k.mem pgdir (pdx va))) ≡ ppn (k.mem pgdir (pdx va)) = omega arith in
      let lt : ppn (k.mem pgdir (pdx va)) < k.npage = rw o.npage (o.named (pdx va) (omega arith)) in
      rw (← e) (kaddr-ok k (pte_addr (k.mem pgdir (pdx va))) (rw e lt))

  walk_old :
      is_set (k.mem pgdir (pdx va)) pte_v ≡ true
      → boot_pgdir_walk end pgdir va true k ≡ some (some (ppn (k.mem pgdir (pdx va)), ptx va), k)
  unfolding boot_pgdir_walk
  walk_old h = rw (◌>>=◌, kaddr-table, h)

  walk_new :
      is_set (k.mem pgdir (pdx va)) pte_v ≡ false
      → top + 1 < 0x4000
      → boot_pgdir_walk end pgdir va true k
        ≡ some (some (top, ptx va), with_table top pgdir (pdx va) k)
  unfolding boot_pgdir_walk paddr
  walk_new absent room =
      let high : ltb (ulim + top * 4096) ulim ≡ false = ground arith in
      let at : ulim + top * 4096 - ulim ≡ top * 4096 = omega arith in
      let page : top * 4096 / 4096 ≡ top = omega arith in
      rw (◌>>=◌, kaddr-table, absent, alloc-page end top k o.freemem room, high, at, page) refl

-- A round gives one more entry, with at most one more table.
abbrev pub MapsOne : Kern → ℕ → ℕ → ℕ → ℕ → Option (Unit {0} × Kern) → Type 0
MapsOne k pgdir top va w o =
    (k' : Kern) × (top' : ℕ) × (o ≡ some (tt, k'))
    × BootOk k' pgdir top'
    × (top ≤ top')
    × (top' ≤ top + 1)
    × Enters k pgdir (pdx va) (ptx va) w k'

pub map_one_lem :
    (end : ℕ) (k : Kern) (pgdir top va pa perm : ℕ)
    → BootOk k pgdir top
    → top + 1 < 0x4000
    → MapsOne k pgdir top va (boot_perm (u32 pa) perm) (map_one end pgdir va pa perm k)
unfolding map_one
map_one_lem end k pgdir top va pa perm o room =
    let w : ℕ = boot_perm (u32 pa) perm in
    let v : is_set w pte_v ≡ true = boot_perm-v (u32 pa) perm in
    let d : ℕ = pdx va in
    let t : ℕ = ptx va in
    let dlt : d < 1024 = omega arith in
    let tlt : t < 1024 = omega arith in
    elim (Bool-cases (is_set (k.mem pgdir d) pte_v)) [
      | inl here ↦ (
        store_word (ppn (k.mem pgdir d)) t w k,
        top,
        rw (◌>>=◌, walk_old end k pgdir top va o here) refl,
        stored-BootOk k pgdir top o d t dlt tlt w v here,
        omega arith,
        omega arith,
        stored-Enters k pgdir top o d t dlt tlt w v here,
      )
      | inr absent ↦
          let k1 : Kern = with_table top pgdir d k in
          let o1 : BootOk k1 pgdir (top + 1) =
            tabled-BootOk k pgdir top o d t dlt tlt absent room in
          let self : (d == d) ≡ true = ground arith in
          let made : k1.mem pgdir d ≡ new_entry k pgdir top o d t dlt tlt absent room =
            row k pgdir top o d t dlt tlt absent room d dlt ∙ rw self refl in
          let page : ppn (k1.mem pgdir d) ≡ top =
            ap ppn made ∙ new_entry-ppn k pgdir top o d t dlt tlt absent room in
          let here : is_set (k1.mem pgdir d) pte_v ≡ true = rw made (table_entry-v (top * 4096)) in
          (
            store_word (ppn (k1.mem pgdir d)) t w k1,
            top + 1,
            rw (◌>>=◌, walk_new end k pgdir top va o absent room, page) refl,
            stored-BootOk k1 pgdir (top + 1) o1 d t dlt tlt w v here,
            omega arith,
            omega arith,
            λ d' t' lt lt'.
                stored-Enters k1 pgdir (top + 1) o1 d t dlt tlt w v here d' t' lt lt'
                ∙ ap (λ e. if (d' == d) && (t' == t) then some w else e)
                    (tabled-entry_at k pgdir top o d t dlt tlt absent room d' t' lt lt'),
          )
    ]
