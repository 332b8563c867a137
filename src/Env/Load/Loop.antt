-- ===== src/Env/Load/Loop.antt =====
-- A loop of rounds: the pages from an address on, one after another.
use buaa_mips_os.Base.{
  ℕ, suc, ◌+◌, ◌-◌, ◌*◌, ◌/◌, ◌%◌, ◌≤◌, ◌<◌, ◌≡◌, ◌⊎◌, refl, true, false, not, ◌&&◌, Option, none,
  some, [], ◌==◌, if◌then◌else◌, Bool-cases, inl, inr, arith, ap, ◌∙◌, sym,
}
use buaa_mips_os.Kernel.{Kern, M, pure, e_no_mem}
use buaa_mips_os.Pmap.{pdx, ptx}
use buaa_mips_os.Pmap.Returns.{Returns, bind, mono}
use buaa_mips_os.Pmap.Vm.Entry.{entry_at}
use buaa_mips_os.Pmap.Vm.Loop.{covers}
use buaa_mips_os.Env.{pdx_utop}
use buaa_mips_os.Env.Load.Space.{word_at, word_of-none, word_of, UserOk, Spares}
use buaa_mips_os.Env.Load.Round.{Extends}
use buaa_mips_os.Env.Load.Pages.{RoundOk, RoundGives}

-- The `n` pages from `va` on hold the words `g`, page by page, and all other words are as before.
pub record Fills (k : Kern) (pgdir va n : ℕ) (g : ℕ → ℕ → ℕ) (k' : Kern) : Type 0 where
  pub user : UserOk k' pgdir
  pub spares : Spares k pgdir k'
  pub words :
      (d t i : ℕ)
      → d < pdx_utop
      → t < 1024
      → i < 1024
      → word_at k' pgdir d t i ≡ (
          if covers va n (d * 1024 + t)
          then some (g (d * 1024 + t - va / 4096) i)
          else word_at k pgdir d t i)
  pub envs : k'.envs ≡ k.envs

abbrev pub Filled : Kern → ℕ → ℕ → ℕ → (ℕ → ℕ → ℕ) → ℕ → Kern → Type 0
Filled k pgdir va n g r k' =
    ((r ≡ e_no_mem) × (k'.page_free_list ≡ [])) ⊎ ((r ≡ 0) × Fills k pgdir va n g k')

-- The pages are below UTOP, and none of them is mapped.
pub record Ready (k : Kern) (e pgdir va n : ℕ) : Type 0 where
  pub dir : (k.envs e).env_pgdir ≡ some pgdir
  pub user : UserOk k pgdir
  pub whole : va % 4096 ≡ 0
  pub fits : va + n * 4096 ≤ 0x7f40_0000
  pub unmapped :
      (d t : ℕ)
      → d < pdx_utop
      → t < 1024
      → covers va n (d * 1024 + t) ≡ true
      → entry_at k pgdir d t ≡ none

pub Ready-RoundOk :
    (k : Kern) (e pgdir va n : ℕ) → Ready k e pgdir va (suc n) → RoundOk k e pgdir va
Ready-RoundOk k e pgdir va n o =
    let lt : va < 0x7f40_0000 = omega (arith, o.fits) in
    record {
      dir = o.dir;
      user = o.user;
      below = lt;
      unmapped =
          o.unmapped (pdx va) (ptx va) (omega (arith, lt)) (omega arith) (ground (arith, lt));
    }

-- An entry is the first of the pages, or one behind it, or none of them.
split_page :
    (va n d t : ℕ)
    → va % 4096 ≡ 0
    → va + suc n * 4096 ≤ 0x7f40_0000
    → d < pdx_utop
    → t < 1024
    → ((((d == pdx va) && (t == ptx va)) ≡ true)
        × (covers (va + 4096) n (d * 1024 + t) ≡ false)
        × (covers va (suc n) (d * 1024 + t) ≡ true)
        × (d * 1024 + t - va / 4096 ≡ 0))
      ⊎ ((((d == pdx va) && (t == ptx va)) ≡ false)
          × (covers va (suc n) (d * 1024 + t) ≡ covers (va + 4096) n (d * 1024 + t)))
split_page va n d t whole fits dlt tlt =
    let x : ℕ = d * 1024 + t in
    let next : (va + 4096) / 4096 ≡ va / 4096 + 1 = omega arith in
    elim (Bool-cases (x == va / 4096)) [
      | inl f ↦
          let here : ((d == pdx va) && (t == ptx va)) ≡ true = ground (arith, f, fits) in
          inl (here, ground (arith, f, next), ground (arith, f), ground (arith, f))
      | inr f ↦
          let far : ((d == pdx va) && (t == ptx va)) ≡ false = ground (arith, f, fits) in
          elim (Bool-cases (covers (va + 4096) n x)) [
            | inl e ↦
                let c : covers va (suc n) x ≡ true = ground (arith, e, next) in inr (far, c ∙ sym e)
            | inr e ↦
                let c : covers va (suc n) x ≡ false = ground (arith, e, f, next) in
                inr (far, c ∙ sym e)
          ]
    ]

module _ (k k1 : Kern) (e pgdir va n : ℕ) (w : ℕ → ℕ) (o : Ready k e pgdir va (suc n))
    (x : Extends k pgdir (pdx va) (ptx va) w k1) where
  Ready-next : Ready k1 e pgdir (va + 4096) n
  Ready-next = record {
    dir = rw x.envs o.dir;
    user = x.user;
    whole = omega (arith, o.whole);
    fits = omega (arith, o.fits);
    unmapped = λ d t dlt tlt c. word_of-none k1 (entry_at k1 pgdir d t) 0 (
        x.words d t 0 dlt tlt (omega arith) ∙ elim (split_page va n d t o.whole o.fits dlt tlt) [
          | inl (_, out, _, _) ↦ absurd (cc)
          | inr (far, same) ↦ rw far (ap (λ y. word_of k y 0) (o.unmapped d t dlt tlt (same ∙ c)))
        ]);
  }

  -- A page, and then those behind it.
  Fills-next :
      (g : ℕ → ℕ → ℕ) (k2 : Kern)
      → ((i : ℕ) → i < 1024 → w i ≡ g 0 i)
      → Fills k1 pgdir (va + 4096) n (λ j. g (j + 1)) k2
      → Fills k pgdir va (suc n) g k2
  Fills-next g k2 first rest = record {
    user = rest.user;
    spares = λ p out.
        let (out1, same1) = x.spares p out in
        let (out2, same2) = rest.spares p out1 in (out2, λ i lt. same2 i lt ∙ same1 i lt);
    words = λ d t i dlt tlt ilt.
        rest.words d t i dlt tlt ilt ∙ elim (split_page va n d t o.whole o.fits dlt tlt) [
          | inl (here, out, c, at) ↦
              rw (out, c, at) (x.words d t i dlt tlt ilt ∙ rw here (ap some (first i ilt)))
          | inr (far, same) ↦ rw same (elim (Bool-cases (covers (va + 4096) n (d * 1024 + t))) [
            | inl c ↦
                let at : d * 1024 + t - (va + 4096) / 4096 + 1 ≡ d * 1024 + t - va / 4096 =
                  ground (arith, c) in
                rw (c, at) refl
            | inr c ↦ rw c (x.words d t i dlt tlt ilt ∙ rw far refl)
          ])
        ];
    envs = rest.envs ∙ x.envs;
  }

-- A loop that ends at once.
pub Fills-none : (k : Kern) (pgdir va : ℕ) (g : ℕ → ℕ → ℕ) → UserOk k pgdir → Fills k pgdir va 0 g k
Fills-none k pgdir va g u = record {
  user = u;
  spares = λ p out. (out, λ i lt. refl);
  words =
      λ d t i dlt tlt ilt. let c : covers va 0 (d * 1024 + t) ≡ false = ground arith in rw c refl;
  envs = refl;
}

-- A round, and the loop behind it.
pub round_then :
    (k : Kern) (e pgdir va n : ℕ) (g : ℕ → ℕ → ℕ) (o : Option (ℕ × Kern)) (f : M ℕ)
    → Ready k e pgdir va (suc n)
    → Returns (RoundGives k pgdir va (g 0)) o
    → ((k1 : Kern) (w : ℕ → ℕ)
        → Extends k pgdir (pdx va) (ptx va) w k1
        → Ready k1 e pgdir (va + 4096) n
        → Returns (Filled k1 pgdir (va + 4096) n (λ j. g (j + 1))) (f k1))
    → Returns
        (Filled k pgdir va (suc n) g)
        (elim o [ none ↦ none | some (r, k1) ↦ (if not (r == 0) then pure r else f) k1 ])
round_then k e pgdir va n g o f ready first next =
    bind (Filled k pgdir va (suc n) g) o (λ r. if not (r == 0) then pure r else f) first
      (λ r k1 says. elim says [
        | inl (z, empty) ↦ rw z (inl (refl, empty))
        | inr (z, w, x, words) ↦ rw z (
            mono (f k1) (next k1 w x (Ready-next k k1 e pgdir va n w ready x)) (λ r2 k2 said.
              elim said [
                | inl full ↦ inl full
                | inr (z2, fills) ↦
                    inr (z2, Fills-next k k1 e pgdir va n w ready x g k2 words fills)
              ]))
      ])
