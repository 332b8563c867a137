-- ===== src/Env/Load/Grow.antt =====
-- A page is mapped at an address whose table is made of the first free page.
use buaa_mips_os.Base.{
  ℕ, ◌<◌, ◌≡◌, ◌⊎◌, refl, true, false, ◌&&◌, none, some, List, ◌∷◌, ◌==◌, if◌then◌else◌, contains,
  Bool-cases, inl, inr, arith, ◌∙◌, sym,
}
use buaa_mips_os.Kernel.{Kern}
use buaa_mips_os.Pmap.{pdx, ptx, ppn, pte_v, is_set}
use buaa_mips_os.Pmap.Walk.{has_table}
use buaa_mips_os.Pmap.Entry.{entry, entry_fields, PageOk, grown, grown-Inserted}
use buaa_mips_os.Pmap.Vm.Entry.{entry_at}
use buaa_mips_os.Env.{pdx_utop}
use buaa_mips_os.Env.Load.Space.{TablesOk, Outside, UserOk}
use buaa_mips_os.Env.Load.Table.{Maps, space, e_v}

module _ (k : Kern) (pgdir pp va perm : ℕ) (u : UserOk k pgdir) (out : Outside k pgdir pp)
    (g : PageOk k pp perm) (lt : pdx va < pdx_utop)
    (none_there : entry_at k pgdir (pdx va) (ptx va) ≡ none) where
  -- The table is the first free page.
  module _ (absent : has_table k pgdir va ≡ false) (new : ℕ) (rest : List ℕ)
      (l : k.page_free_list ≡ new ∷ rest) where
    abbrev k2 : Kern
    k2 = grown k pgdir pp va perm (space k pgdir pp va perm u out g lt none_there) new rest

    new_lt : new < 0x10_0000
    new_lt = omega (arith, u.tables.free.below new (rw l (ground arith)), u.tables.free.small)

    new_ppn : ppn (entry new 0) ≡ new
    new_ppn = (entry_fields new 0 new_lt (omega arith)).2

    new_v : is_set (entry new 0) pte_v ≡ true
    new_v = (entry_fields new 0 new_lt (omega arith)).0

    used_apart :
        (p : ℕ)
        → contains k.page_free_list p ≡ false
        → ((p == new) ≡ false) × (contains rest p ≡ false)
    used_apart p h = (ground (arith, l), ground (arith, l))

    grown-dir : (i : ℕ) → k2.mem pgdir i ≡ (if i == pdx va then entry new 0 else k.mem pgdir i)
    grown-dir i =
        let far = (used_apart pgdir u.tables.dir_used).0 in
        let far' : (new == pgdir) ≡ false = ground (arith, far) in ground (arith, far, far')

    -- An entry of the directory: the new one, or an old one.
    grown-cases :
        (d : ℕ)
        → ((d ≡ pdx va) × (k2.mem pgdir d ≡ entry new 0))
          ⊎ (((d == pdx va) ≡ false) × (k2.mem pgdir d ≡ k.mem pgdir d))
    grown-cases d = elim (Bool-cases (d == pdx va)) [
      | inl e ↦ inl (ground (arith, e), grown-dir d ∙ rw e refl)
      | inr e ↦ inr (e, grown-dir d ∙ rw e refl)
    ]

    -- The words of the pages that are neither the directory nor the new table.
    grown-kept : (p i : ℕ) → (p == new) ≡ false → (p == pgdir) ≡ false → k2.mem p i ≡ k.mem p i
    grown-kept p i a b = ground (arith, a, b)

    grown-table : (i : ℕ) → k2.mem new i ≡ (if i == ptx va then entry pp perm else 0)
    grown-table i =
        let far = (used_apart pgdir u.tables.dir_used).0 in
        let far' : (new == pgdir) ≡ false = ground (arith, far) in ground (arith, far')

    grown-entries :
        (d t : ℕ)
        → d < pdx_utop
        → t < 1024
        → entry_at k2 pgdir d t
          ≡ (if (d == pdx va) && (t == ptx va) then some (entry pp perm) else entry_at k pgdir d t)
    grown-entries d t dlt tlt = elim (grown-cases d) [
      | inl (e, f) ↦
          let here : (d == pdx va) ≡ true = ground (arith, e) in
          let old : is_set (k.mem pgdir d) pte_v ≡ false = rw e absent in
          rw (f, new_v, new_ppn, grown-table t, here, old)
            (elim (Bool-cases (t == ptx va)) [
              | inl q ↦ rw (q, e_v k pgdir pp va perm u out g lt none_there) refl
              | inr q ↦ rw q refl
            ])
      | inr (e, f) ↦ elim (Bool-cases (is_set (k.mem pgdir d) pte_v)) [
        | inr unset ↦ rw (f, unset, e) refl
        | inl set ↦
            let p : ℕ = ppn (k.mem pgdir d) in
            let same =
              grown-kept p t (used_apart p (u.tables.used d dlt set)).0
                (u.tables.other d dlt set) in
            rw (f, set, same, e) refl
      ]
    ]

    grown-TablesOk : TablesOk k2 pgdir
    grown-TablesOk =
        let o = u.tables in
        let nd = o.free.distinct in
        record {
          free =
              (grown-Inserted k pgdir pp va perm o.free
                (space k pgdir pp va perm u out g lt none_there) g new rest absent l).0;
          dir_used = (used_apart pgdir o.dir_used).1;
          named = λ d dlt. elim (grown-cases d) [
            | inl (e, f) ↦ rw (f, new_ppn) (o.free.below new (rw l (ground arith)))
            | inr (e, f) ↦ rw f (o.named d dlt)
          ];
          other = λ d dlt h. elim (grown-cases d) [
            | inl (e, f) ↦
                let far = (used_apart pgdir o.dir_used).0 in rw (f, new_ppn) (ground (arith, far))
            | inr (e, f) ↦ rw f (o.other d dlt (rw f at h))
          ];
          used = λ d dlt h. elim (grown-cases d) [
            | inl (e, f) ↦ rw (f, new_ppn) (ground (arith, nd, l))
            | inr (e, f) ↦ rw f ((used_apart _ (o.used d dlt (rw f at h))).1)
          ];
          apart = λ d d' dlt dlt' h h' q. elim (grown-cases d) [
            | inl (e, f) ↦ elim (grown-cases d') [
              | inl (e', f') ↦ e ∙ sym e'
              | inr (e', f') ↦
                  let far = (used_apart _ (o.used d' dlt' (rw f' at h'))).0 in
                  let both : new ≡ ppn (k.mem pgdir d') = rw (f, f', new_ppn) at q in
                  absurd (ground (arith, far, both))
            ]
            | inr (e, f) ↦ elim (grown-cases d') [
              | inl (e', f') ↦
                  let far = (used_apart _ (o.used d dlt (rw f at h))).0 in
                  let both : ppn (k.mem pgdir d) ≡ new = rw (f, f', new_ppn) at q in
                  absurd (ground (arith, far, both))
              | inr (e', f') ↦ o.apart d d' dlt dlt' (rw f at h) (rw f' at h') (rw (f, f') at q)
            ]
          ];
        }

    pub grown-Maps : Maps k pgdir (pdx va) (ptx va) (entry pp perm) k2
    grown-Maps = record {
      tables = grown-TablesOk;
      spares = λ p q.
          let (far, unused) = used_apart p q.not_free in
          (
            record {
              not_dir = q.not_dir;
              not_free = unused;
              not_table = λ d dlt h. elim (grown-cases d) [
                | inl (e, f) ↦ rw (f, new_ppn) (ground (arith, far))
                | inr (e, f) ↦ rw f (q.not_table d dlt (rw f at h))
              ];
            },
            λ i ilt. grown-kept p i far q.not_dir,
          );
      entries = grown-entries;
      envs = refl;
      size = refl;
    }
