-- ===== src/Env/Load/Step.antt =====
-- Two changes of an address space: a page is taken from the free list and filled, and a page is mapped at
-- an address where none was.
use buaa_mips_os.Base.{
  ℕ, ◌<◌, ◌≡◌, refl, false, List, ◌∷◌, ◌==◌, contains, update, Bool-cases, inl, inr, arith, ◌∙◌,
  sym,
}
use buaa_mips_os.Kernel.{Kern}
use buaa_mips_os.Pmap.{ppn, pte_v, is_set, incref}
use buaa_mips_os.Pmap.Free.{FreeOk-frame, allocated, allocated-FreeOk}
use buaa_mips_os.Pmap.Entry.{incref-FreeOk}
use buaa_mips_os.Pmap.Vm.Entry.{entry_at}
use buaa_mips_os.Env.{pdx_utop}
use buaa_mips_os.Env.Load.Space.{TablesOk, Outside, UserOk, Spares}

-- The first free page, with one reference and the words `w`.
abbrev pub with_page : Kern → ℕ → List ℕ → (ℕ → ℕ) → Kern
with_page k pp rest w =
    let h : Kern = incref pp (allocated k pp rest) in record h { mem = update k.mem pp w }

module _ (k : Kern) (pgdir pp : ℕ) (rest : List ℕ) (w : ℕ → ℕ) (u : UserOk k pgdir)
    (l : k.page_free_list ≡ pp ∷ rest) where
  -- What is used is not the page that is taken, and stays used.
  used_apart :
      (p : ℕ)
      → contains k.page_free_list p ≡ false
      → ((p == pp) ≡ false) × (contains rest p ≡ false)
  used_apart p h = (ground (arith, l), ground (arith, l))

  with_page-dir : (i : ℕ) → (with_page k pp rest w).mem pgdir i ≡ k.mem pgdir i
  with_page-dir i = rw ((used_apart pgdir u.tables.dir_used).0) refl

  with_page-TablesOk : TablesOk (with_page k pp rest w) pgdir
  with_page-TablesOk =
      let o = u.tables in
      record {
        free =
            FreeOk-frame (incref pp (allocated k pp rest)) (with_page k pp rest w) refl refl refl (
              incref-FreeOk (allocated k pp rest) pp (allocated-FreeOk k pp rest o.free l)
                (ground (arith, o.free.distinct, l)));
        dir_used = (used_apart pgdir o.dir_used).1;
        named = λ d lt. rw (with_page-dir d) (o.named d lt);
        other = λ d lt. rw (with_page-dir d) (o.other d lt);
        used = λ d lt. rw (with_page-dir d) (λ h. (used_apart _ (o.used d lt h)).1);
        apart = λ d d' lt lt'. rw (with_page-dir d, with_page-dir d') (o.apart d d' lt lt');
      }

  pub with_page-Spares : Spares k pgdir (with_page k pp rest w)
  with_page-Spares p out =
      let (far, unused) = used_apart p out.not_free in
      (
        record {
          not_dir = out.not_dir;
          not_free = unused;
          not_table = λ d lt. rw (with_page-dir d) (out.not_table d lt);
        },
        λ i lt. rw far refl,
      )

  -- The page that is taken is beside the address space.
  pub with_page-Outside : Outside (with_page k pp rest w) pgdir pp
  with_page-Outside = record {
    not_dir = ground (arith, u.tables.dir_used, l);
    not_free = ground (arith, u.tables.free.distinct, l);
    not_table = λ d lt. rw (with_page-dir d) (λ h. ground (arith, u.tables.used d lt h, l));
  }

  pub with_page-entry_at :
      (d t : ℕ) → d < pdx_utop → entry_at (with_page k pp rest w) pgdir d t ≡ entry_at k pgdir d t
  with_page-entry_at d t lt = elim (Bool-cases (is_set (k.mem pgdir d) pte_v)) [
    | inr v ↦ rw (with_page-dir d, v) refl
    | inl v ↦ rw (with_page-dir d, v, (used_apart _ (u.tables.used d lt v)).0) refl
  ]

  pub with_page-UserOk : UserOk (with_page k pp rest w) pgdir
  with_page-UserOk = record {
    tables = with_page-TablesOk;
    pages = λ d t x lt lt' h.
        (with_page-Spares (ppn x) (u.pages d t x lt lt' (sym (with_page-entry_at d t lt) ∙ h))).0;
  }
