-- ===== src/Env/Load/Round.antt =====
-- A round of either loop of `load_icode_mapper`: a page with given words is added to the address space.
use buaa_mips_os.Base.{
  ℕ, ◌<◌, ◌≡◌, ◌⊎◌, refl, true, false, ◌&&◌, Option, none, some, List, [], ◌∷◌, ◌==◌, if◌then◌else◌,
  Bool-cases, inl, inr, arith, ap, ◌∙◌, sym,
}
use buaa_mips_os.Kernel.{Kern, ◌>>=◌, e_no_mem}
use buaa_mips_os.Pmap.{pdx, ptx, ppn, page_insert}
use buaa_mips_os.Pmap.Returns.{Returns, bind}
use buaa_mips_os.Pmap.Entry.{entry_fields, PageOk}
use buaa_mips_os.Pmap.Vm.Entry.{entry_at}
use buaa_mips_os.Env.{pdx_utop}
use buaa_mips_os.Env.Load.{read_write, dir_of, insert_page}
use buaa_mips_os.Env.Load.Space.{word_of, word_at, PagesOk, UserOk, Spares}
use buaa_mips_os.Env.Load.Step.{
  with_page, with_page-UserOk, with_page-Spares, with_page-Outside, with_page-entry_at,
}
use buaa_mips_os.Env.Load.Table.{Maps}
use buaa_mips_os.Env.Load.Insert.{page_insert-Maps}

-- The words `w` are mapped at entry `t` of table `d`, and all others are as before.
pub record Extends (k : Kern) (pgdir d t : ℕ) (w : ℕ → ℕ) (k' : Kern) : Type 0 where
  pub user : UserOk k' pgdir
  pub spares : Spares k pgdir k'
  pub words :
      (d' t' i : ℕ)
      → d' < pdx_utop
      → t' < 1024
      → i < 1024
      → word_at k' pgdir d' t' i
        ≡ (if (d' == d) && (t' == t) then some (w i) else word_at k pgdir d' t' i)
  pub envs : k'.envs ≡ k.envs

-- A round succeeds, or fails with no page free.
abbrev pub RoundSays : Kern → ℕ → ℕ → ℕ → (ℕ → ℕ) → ℕ → Kern → Type 0
RoundSays k pgdir d t w r k' =
    ((r ≡ 0) × Extends k pgdir d t w k') ⊎ ((r ≡ e_no_mem) × (k'.page_free_list ≡ []))

word_of-kept :
    (k k' : Kern) (o : Option ℕ) (i : ℕ)
    → ((x : ℕ) → o ≡ some x → k'.mem (ppn x) i ≡ k.mem (ppn x) i)
    → word_of k' o i ≡ word_of k o i
word_of-kept k k' none i h = refl
word_of-kept k k' (some x) i h = ap some (h x refl)

dir_of-some :
    (k : Kern) (e pgdir : ℕ) → (k.envs e).env_pgdir ≡ some pgdir → dir_of e k ≡ some (pgdir, k)
unfolding dir_of
dir_of-some k e pgdir h =
    ap (λ o. elim o as (λ _. Option (ℕ × Kern)) [ none ↦ none | some p ↦ some (p, k) ]) h

module _ (k : Kern) (pgdir pp : ℕ) (rest : List ℕ) (w : ℕ → ℕ) (u : UserOk k pgdir)
    (l : k.page_free_list ≡ pp ∷ rest) where
  abbrev h : Kern
  h = with_page k pp rest w

  module _ (d t x : ℕ) (k' : Kern) (at : ppn x ≡ pp) (m : Maps h pgdir d t x k') where
    -- An entry of the new state: the new one, or an old one.
    entry-cases :
        (d' t' : ℕ)
        → d' < pdx_utop
        → t' < 1024
        → ((((d' == d) && (t' == t)) ≡ true) × (entry_at k' pgdir d' t' ≡ some x))
          ⊎ ((((d' == d) && (t' == t)) ≡ false)
              × (entry_at k' pgdir d' t' ≡ entry_at k pgdir d' t'))
    entry-cases d' t' dlt tlt = elim (Bool-cases ((d' == d) && (t' == t))) [
      | inl e ↦ inl (e, m.entries d' t' dlt tlt ∙ rw e refl)
      | inr e ↦
          inr
            (e, m.entries d' t' dlt tlt ∙ rw e (with_page-entry_at k pgdir pp rest w u l d' t' dlt))
    ]

    -- Both changes in one.
    both-Spares : Spares k pgdir k'
    both-Spares p out =
        let (out1, same1) = with_page-Spares k pgdir pp rest w u l p out in
        let (out2, same2) = m.spares p out1 in (out2, λ i lt. same2 i lt ∙ same1 i lt)

    both-pages : PagesOk k' pgdir
    both-pages d' t' y dlt tlt q = elim (entry-cases d' t' dlt tlt) [
      | inl (e, f) ↦
          let same : x ≡ y = cc in
          let names : ppn y ≡ pp = ap ppn (sym same) ∙ at in
          rw names (m.spares pp (with_page-Outside k pgdir pp rest w u l)).0
      | inr (e, f) ↦ (both-Spares (ppn y) (u.pages d' t' y dlt tlt (sym f ∙ q))).0
    ]

    with_page-Extends : Extends k pgdir d t w k'
    with_page-Extends = record {
      user = record { tables = m.tables; pages = both-pages };
      spares = both-Spares;
      words = λ d' t' i dlt tlt ilt. elim (entry-cases d' t' dlt tlt) [
        | inl (e, f) ↦
            let same = (m.spares pp (with_page-Outside k pgdir pp rest w u l)).1 i ilt in
            let here : (pp == pp) ≡ true = ground arith in
            ap (λ o. word_of k' o i) f ∙ rw (e, at, same, here) refl
        | inr (e, f) ↦
            ap (λ o. word_of k' o i) f
            ∙ word_of-kept k k' (entry_at k pgdir d' t') i
                (λ y q. (both-Spares (ppn y) (u.pages d' t' y dlt tlt q)).1 i ilt)
            ∙ rw e refl
      ];
      envs = m.envs;
    }

  with_page-PageOk : PageOk h pp read_write
  with_page-PageOk = record {
    exists = u.tables.free.below pp (rw l (ground arith));
    used = (with_page-Outside k pgdir pp rest w u l).not_free;
    room =
        let z : k.pp_ref pp ≡ 0 = u.tables.free.unref pp (rw l (ground arith)) in ground (arith, z);
    flags = omega arith;
  }

  -- The page is mapped at an address where none was.
  pub insert_page_lem :
      (e va : ℕ)
      → (k.envs e).env_pgdir ≡ some pgdir
      → pdx va < pdx_utop
      → entry_at k pgdir (pdx va) (ptx va) ≡ none
      → Returns (RoundSays k pgdir (pdx va) (ptx va) w) (insert_page e pp va h)
  unfolding insert_page
  insert_page_lem e va dir lt none_there =
      let g = with_page-PageOk in
      let unmapped : entry_at h pgdir (pdx va) (ptx va) ≡ none =
        with_page-entry_at k pgdir pp rest w u l (pdx va) (ptx va) lt ∙ none_there in
      let u' = with_page-UserOk k pgdir pp rest w u l in
      let out = with_page-Outside k pgdir pp rest w u l in
      let at =
        (entry_fields pp read_write (omega (arith, g.exists, u.tables.free.small)) g.flags).2 in
      rw (dir_of-some h e pgdir dir, ◌>>=◌)
        (bind (RoundSays k pgdir (pdx va) (ptx va) w) (page_insert pgdir pp va read_write h)
          (λ r k1. some (if r == 0 then 0 else e_no_mem, k1))
          (page_insert-Maps h pgdir pp va read_write u' out g lt unmapped)
          (λ r k1 says. elim says [
            | inl (z, m) ↦ rw z (inl (refl, with_page-Extends (pdx va) (ptx va) _ k1 at m))
            | inr (z, empty) ↦ rw z (inr (refl, empty))
          ]))
