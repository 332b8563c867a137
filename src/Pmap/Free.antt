-- ===== src/Pmap/Free.antt =====
-- The free list of physical pages: what every operation of mm/pmap.c keeps of it.
use buaa_mips_os.Base.{
  ◌∙◌, Option, ℕ, ◌+◌, ◌-◌, ◌≤◌, ◌<◌, ◌≡◌, ◌≢◌, List-cases, inl, inr, refl, true, false, none, some,
  List, [], ◌∷◌, ◌==◌, if◌then◌else◌, arith, update, contains, nodup, ltb, Bool-cases,
}
use buaa_mips_os.Base.Words.{u16}
use buaa_mips_os.Kernel.{Kern, ◌>>=◌, ◌>>◌}
use buaa_mips_os.Pmap.{page_alloc, page_free, page_decref, bzero_page, kaddr, page2pa, ppn}
use buaa_mips_os.Pmap.Returns.{Returns}

-- No page is free twice, a free page exists, and nothing refers to it. Physical addresses fit
-- 32 bits, and a reference count is a `u_short`.
pub record FreeOk (k : Kern) : Type 0 where
  pub distinct : nodup k.page_free_list ≡ true
  pub below : (p : ℕ) → contains k.page_free_list p ≡ true → p < k.npage
  pub unref : (p : ℕ) → contains k.page_free_list p ≡ true → k.pp_ref p ≡ 0
  pub small : k.npage ≤ 0x10_0000
  pub short : (p : ℕ) → k.pp_ref p < 0x1_0000

-- What the functions of mm/pmap.c leave alone: the environments and the scheduler.
pub record SameEnvs (k k' : Kern) : Type 0 where
  pub envs : k'.envs ≡ k.envs
  pub curenv : k'.curenv ≡ k.curenv
  pub env_free_list : k'.env_free_list ≡ k.env_free_list
  pub next_env_id : k'.next_env_id ≡ k.next_env_id
  pub pos : k'.pos ≡ k.pos
  pub frame : k'.kernel_sp ≡ k.kernel_sp
  pub npage : k'.npage ≡ k.npage

pub SameEnvs-refl : (k : Kern) → SameEnvs k k
SameEnvs-refl k = record {
  envs = refl;
  curenv = refl;
  env_free_list = refl;
  next_env_id = refl;
  pos = refl;
  frame = refl;
  npage = refl;
}

pub SameEnvs-trans : (k k1 k' : Kern) → SameEnvs k k1 → SameEnvs k1 k' → SameEnvs k k'
SameEnvs-trans k k1 k' a b = record {
  envs = b.envs ∙ a.envs;
  curenv = b.curenv ∙ a.curenv;
  env_free_list = b.env_free_list ∙ a.env_free_list;
  next_env_id = b.next_env_id ∙ a.next_env_id;
  pos = b.pos ∙ a.pos;
  frame = b.frame ∙ a.frame;
  npage = b.npage ∙ a.npage;
}

-- The condition is about the free list, the references and the size of memory alone.
pub FreeOk-frame :
    (k k' : Kern)
    → k'.page_free_list ≡ k.page_free_list
    → k'.npage ≡ k.npage
    → k'.pp_ref ≡ k.pp_ref
    → FreeOk k
    → FreeOk k'
FreeOk-frame k k' l n r f = record {
  distinct = rw l f.distinct;
  below = rw (l, n) f.below;
  unref = rw (l, r) f.unref;
  small = rw n f.small;
  short = rw r f.short;
}

pub kaddr-ok : (k : Kern) (pa : ℕ) → ppn pa < k.npage → kaddr pa k ≡ some (ppn pa, k)
unfolding kaddr
kaddr-ok k pa h = ground arith

pub ppn-page2pa : (pp n : ℕ) → pp < n → n ≤ 0x10_0000 → ppn (page2pa pp) ≡ pp
unfolding page2pa
ppn-page2pa pp n h s = omega arith

pub bzero_page-ok :
    (k : Kern) (pp : ℕ)
    → pp < k.npage
    → k.npage ≤ 0x10_0000
    → bzero_page pp k ≡ some (tt, record k { mem = update k.mem pp (λ _. 0) })
unfolding bzero_page
bzero_page-ok k pp h s =
    let e = ppn-page2pa pp k.npage h s in
    rw (kaddr-ok k (page2pa pp) (rw e h), bzero_page, ◌>>=◌, e) refl

-- What `page_alloc` does on each branch.
pub page_alloc-nil : (k : Kern) → k.page_free_list ≡ [] → page_alloc k ≡ some (none, k)
unfolding page_alloc
page_alloc-nil k e = simp (e, page_alloc)

abbrev pub allocated : Kern → ℕ → List ℕ → Kern
allocated k pp rest = record k { page_free_list = rest; mem = update k.mem pp (λ _. 0) }

pub page_alloc-cons :
    (k : Kern) (pp : ℕ) (rest : List ℕ)
    → FreeOk k
    → k.page_free_list ≡ pp ∷ rest
    → page_alloc k ≡ some (some pp, allocated k pp rest)
unfolding page_alloc
page_alloc-cons k pp rest f e =
    let k' : Kern = record k { page_free_list = rest } in
    simp (e, page_alloc, ◌>>=◌, ◌>>◌, bzero_page-ok k' pp (ground (arith, f.below pp)) f.small)

pub allocated-FreeOk :
    (k : Kern) (pp : ℕ) (rest : List ℕ)
    → FreeOk k
    → k.page_free_list ≡ pp ∷ rest
    → FreeOk (allocated k pp rest)
allocated-FreeOk k pp rest f e = record {
  distinct = ground (arith, f.distinct);
  below = λ p m. f.below p (rw e (ground arith));
  unref = λ p m. f.unref p (rw e (ground arith));
  small = f.small;
  short = f.short;
}

-- What `page_alloc` promises of its result and of the state behind it.
abbrev pub Allocates : Kern → Option ℕ → Kern → Type 0
Allocates k r k' = FreeOk k' × elim r [
  | none ↦ (k.page_free_list ≡ []) × (k' ≡ k)
  | some pp ↦
      (k.page_free_list ≡ pp ∷ k'.page_free_list)
      × (pp < k.npage)
      × (k'.pp_ref ≡ k.pp_ref)
      × (k'.pp_ref pp ≡ 0)
      × (contains k'.page_free_list pp ≡ false)
      × ((i : ℕ) → k'.mem pp i ≡ 0)
      × ((q i : ℕ) → q ≢ pp → k'.mem q i ≡ k.mem q i)
      × (k' ≡ record k { page_free_list = k'.page_free_list; mem = k'.mem })
]

-- `page_alloc` does not panic. It fails exactly when no page is free, and then changes nothing; it
-- returns a page that was free, unreferenced and in range, is free no more and holds zeros.
-- All other pages are as before, and so is all of the kernel's state but memory and the free list, which is
-- as it should be.
pub page_alloc_lem : (k : Kern) → FreeOk k → Returns (Allocates k) (page_alloc k)
page_alloc_lem k f = elim (List-cases k.page_free_list) [
  | inl e ↦ rw (page_alloc-nil k e) (f, (e, refl))
  | inr (pp, rest, e) ↦ rw (page_alloc-cons k pp rest f e) (
    allocated-FreeOk k pp rest f e,
    (
      e,
      f.below pp (ground arith),
      refl,
      f.unref pp (ground arith),
      ground (arith, f.distinct),
      λ i. ground arith,
      λ q i ne. ground arith,
      refl,
    ),
  )
]

abbrev pub freed : Kern → ℕ → Kern
freed k pp = record k { page_free_list = pp ∷ k.page_free_list }

freed-FreeOk :
    (k : Kern) (pp : ℕ)
    → FreeOk k
    → contains k.page_free_list pp ≡ false
    → pp < k.npage
    → k.pp_ref pp ≡ 0
    → FreeOk (freed k pp)
freed-FreeOk k pp f out lt z = record {
  distinct = ground (arith, f.distinct);
  below = λ p m. ground (arith, f.below p);
  unref = λ p m. ground (arith, f.unref p);
  small = f.small;
  short = f.short;
}

-- `page_free` does not panic. A page that is still referenced stays as it is; any other page goes
-- to the front of the free list, which is as it should be again if the page was not on it.
page_free_lem :
    (k : Kern) (pp : ℕ)
    → FreeOk k
    → contains k.page_free_list pp ≡ false
    → pp < k.npage
    → Returns
        (λ _ k'. FreeOk k' × (k' ≡ (if ltb 0 (k.pp_ref pp) then k else freed k pp)))
        (page_free pp k)
unfolding page_free
page_free_lem k pp f out lt = elim (Bool-cases (ltb 0 (k.pp_ref pp))) [
  | inl held ↦ rw held (f, refl)
  | inr unheld ↦ rw unheld (freed-FreeOk k pp f out lt (ground arith), refl)
]

-- A reference dropped: `--pp->pp_ref`, and the page is freed with its last one.
abbrev pub dropped : Kern → ℕ → Kern
dropped k pp = record k {
  pp_ref = update k.pp_ref pp (k.pp_ref pp - 1);
  page_free_list = if k.pp_ref pp == 1 then pp ∷ k.page_free_list else k.page_free_list;
}

pub dropped-FreeOk :
    (k : Kern) (pp : ℕ) → FreeOk k → pp < k.npage → 0 < k.pp_ref pp → FreeOk (dropped k pp)
dropped-FreeOk k pp f lt pos = record {
  distinct = ground (arith, f.distinct, f.unref pp);
  below = λ p m. ground (arith, f.below p);
  unref = λ p m. ground (arith, f.unref p, f.unref pp);
  small = f.small;
  short = λ p. ground (arith, f.short p);
}

-- `page_decref` of a referenced page drops one reference, and frees the page with the last one.
pub page_decref_lem :
    (k : Kern) (pp : ℕ)
    → 0 < k.pp_ref pp
    → k.pp_ref pp < 0x1_0000
    → page_decref pp k ≡ some (tt, dropped k pp)
unfolding page_decref page_free
page_decref_lem k pp pos small =
    let e : u16 (k.pp_ref pp + 0xffff) ≡ k.pp_ref pp - 1 = omega arith in
    rw e
      (elim (Bool-cases (k.pp_ref pp == 1)) [ inl last ↦ ground arith | inr more ↦ ground arith ])
