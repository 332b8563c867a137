-- ===== src/Pmap/Vm/Kept.antt =====
-- mm/pmap.c: the mapping of segments leaves `boot_pgdir` alone.
use buaa_mips_os.Base.{
  ℕ, zero, suc, ◌+◌, ◌/◌, refl, true, false, not, Bool, Option, none, some, ◌==◌, if◌then◌else◌,
  bit_or, arith, ◌%◌,
}
use buaa_mips_os.Base.Keeps.{Keeps, Keeps-bind, Keeps-done, Keeps-fault, Keeps-set, Keeps-state}
use buaa_mips_os.Base.Words.{u32}
use buaa_mips_os.Kernel.{Kern, M, panic, store_word}
use buaa_mips_os.Pmap.{kaddr, PtePtr, pdx, ptx, pte_addr, pte_v, pte_r, is_set}
use buaa_mips_os.Pmap.Vm.{
  paddr, alloc, boot_pgdir_walk, boot_perm, map_one, map_loop, boot_map_segment,
}

abbrev pub directory : Kern → ℕ
directory k = k.boot_pgdir

if-kept :
    {A : Type 0} (b : Bool) (m n : M A)
    → Keeps directory m
    → Keeps directory n
    → Keeps directory (if b then m else n)
if-kept true m n h k = h
if-kept false m n h k = k

pub alloc-kept : (end n align : ℕ) → Keeps directory (alloc end n align true)
unfolding alloc
alloc-kept end n align = record { keeps = λ s a s' run. ground (arith, run) }

paddr-kept : (kva : ℕ) → Keeps directory (paddr kva)
unfolding paddr
paddr-kept kva = record { keeps = λ s a s' run. ground (arith, run) }

kaddr-kept : (pa : ℕ) → Keeps directory (kaddr pa)
unfolding kaddr
kaddr-kept pa = record { keeps = λ s a s' run. ground (arith, run) }

walk-kept : (end pgdir va : ℕ) → Keeps directory (boot_pgdir_walk end pgdir va true)
unfolding boot_pgdir_walk
walk-kept end pgdir va =
    Keeps-bind (λ k. some (k, k)) _ Keeps-state
      (λ k.
        let pde : ℕ = k.mem pgdir (pdx va) in
        Keeps-bind (kaddr (pte_addr pde)) _ (kaddr-kept (pte_addr pde)) (λ table.
          if-kept (is_set pde pte_v) _ _ (Keeps-done (some (table, ptx va))) (
            Keeps-bind (alloc end 4096 4096 true) _ (alloc-kept end 4096 4096) (λ new.
              Keeps-bind (paddr new) _ (paddr-kept new) (λ pa.
                Keeps-bind
                  (λ k. some (tt, store_word pgdir (pdx va) (bit_or (bit_or pa pte_v) pte_r) k)) _
                  (Keeps-set (store_word pgdir (pdx va) (bit_or (bit_or pa pte_v) pte_r))
                    (λ k. refl))
                  (λ u. Keeps-done (some (pa / 4096, ptx va))))))))

map_one-kept : (end pgdir va pa perm : ℕ) → Keeps directory (map_one end pgdir va pa perm)
unfolding map_one
map_one-kept end pgdir va pa perm =
    Keeps-bind (boot_pgdir_walk end pgdir va true) _ (walk-kept end pgdir va) on_entry
  where
    on_entry :
        (o : Option PtePtr)
        → Keeps directory (elim o as (λ _. M (Unit {0})) [
          | none ↦ panic
          | some (p, i) ↦ λ k. some (tt, store_word p i (boot_perm (u32 pa) perm) k)
        ])
    on_entry none = Keeps-fault
    on_entry (some (p, i)) = Keeps-set (store_word p i (boot_perm (u32 pa) perm)) (λ k. refl)

map_loop-kept : (n end pgdir va pa perm : ℕ) → Keeps directory (map_loop n end pgdir va pa perm)
unfolding map_loop
map_loop-kept zero end pgdir va pa perm = Keeps-done tt
map_loop-kept (suc n) end pgdir va pa perm =
    Keeps-bind (map_one end pgdir va pa perm) _ (map_one-kept end pgdir va pa perm)
      (λ u. map_loop-kept n end pgdir (va + 4096) (pa + 4096) perm)

pub segment-kept :
    (end pgdir va size pa perm : ℕ) → Keeps directory (boot_map_segment end pgdir va size pa perm)
unfolding boot_map_segment
segment-kept end pgdir va size pa perm = if-kept (not (size % 4096 == 0)) _ _ (Keeps-done tt) (
    Keeps-bind (map_loop (size / 4096) end pgdir va pa perm) _
      (map_loop-kept (size / 4096) end pgdir va pa perm)
      (λ u.
        Keeps-set (λ k. store_word pgdir (pdx va) (boot_perm (k.mem pgdir (pdx va)) perm) k)
          (λ k. refl)))
