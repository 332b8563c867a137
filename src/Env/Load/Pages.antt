-- ===== src/Env/Load/Pages.antt =====
-- The rounds of both loops of `load_icode_mapper`, and a loop of rounds.
use buaa_mips_os.Base.{
  ℕ, ◌+◌, ◌-◌, ◌*◌, ◌%◌, ◌<◌, ◌≡◌, ◌⊎◌, refl, true, none, some, [], ◌==◌, Bool-cases, List-cases,
  inl, inr, arith,
}
use buaa_mips_os.Base.Words.{u32, rounddown}
use buaa_mips_os.Kernel.{Kern, ◌>>=◌, ◌>>◌, e_no_mem}
use buaa_mips_os.Pmap.{pdx, ptx}
use buaa_mips_os.Pmap.Returns.{Returns, mono}
use buaa_mips_os.Pmap.Free.{page_alloc-nil, page_alloc-cons}
use buaa_mips_os.Pmap.Vm.Entry.{entry_at}
use buaa_mips_os.Copy.{is_aligned}
use buaa_mips_os.Env.Load.{copy_to_page, copy_round, minimum, load_round, blank_round, insert_page}
use buaa_mips_os.Env.Load.Space.{UserOk}
use buaa_mips_os.Env.Load.Step.{with_page}
use buaa_mips_os.Env.Load.Round.{Extends, insert_page_lem}
use buaa_mips_os.Env.Load.Words.{ImageOutside, image_word, copy_to_page-image}

-- The environment that is loaded: its directory is well-formed, and an address in it is not mapped.
pub record RoundOk (k : Kern) (e pgdir va : ℕ) : Type 0 where
  pub dir : (k.envs e).env_pgdir ≡ some pgdir
  pub user : UserOk k pgdir
  pub below : va < 0x7f40_0000
  pub unmapped : entry_at k pgdir (pdx va) (ptx va) ≡ none

copy_round-aligned :
    (bin size i p : ℕ)
    → copy_round 0 bin size i p ≡ copy_to_page (bin + i) p 0 (minimum 4096 (size - i))
unfolding copy_round
copy_round-aligned bin size i p = elim (Bool-cases (i == 0)) [
  | inl e ↦
      let z : i ≡ 0 = ground (arith, e) in
      let same : bin + 0 ≡ bin = omega arith in rw (z, same) refl
  | inr e ↦ let same : bin + i - 0 ≡ bin + i = omega arith in rw (e, same) refl
]

-- A round maps a page with the words `g`, or fails where no page is free.
abbrev pub RoundGives : Kern → ℕ → ℕ → (ℕ → ℕ) → ℕ → Kern → Type 0
RoundGives k pgdir va g r k' =
    ((r ≡ e_no_mem) × (k'.page_free_list ≡ []))
    ⊎ ((r ≡ 0)
        × (w : ℕ → ℕ) × Extends k pgdir (pdx va) (ptx va) w k'
        × ((x : ℕ) → x < 1024 → w x ≡ g x))

-- A round of step 1 gives the words of the image.
pub load_round_lem :
    (k : Kern) (e pgdir va bin size i : ℕ)
    → RoundOk k e pgdir (va + i)
    → va % 4096 ≡ 0
    → i % 4096 ≡ 0
    → is_aligned bin ≡ true
    → ImageOutside k pgdir bin size
    → Returns
        (RoundGives k pgdir (va + i) (λ x. image_word k bin size (i + x * 4)))
        (load_round e va bin size i k)
unfolding load_round
load_round_lem k e pgdir va bin size i o va_whole i_whole al out =
    elim (List-cases k.page_free_list) [
      | inl l ↦ rw (page_alloc-nil k l, ◌>>=◌) (inl (refl, l))
      | inr (pp, rest, l) ↦
          let offset : va - rounddown va ≡ 0 = omega arith in
          let wraps : u32 (va + i) ≡ va + i = omega (arith, o.below) in
          let (w, ran, words) =
            copy_to_page-image k pp rest bin size i i_whole
              (λ x lt. ground (arith, (out x lt).not_free, l)) al in
          let inserted =
            insert_page_lem k pgdir pp rest w o.user l e (va + i) o.dir (omega (arith, o.below))
              o.unmapped in
          rw (page_alloc-cons k pp rest o.user.tables.free l, ◌>>=◌, ◌>>◌)
            (rw (offset, copy_round-aligned bin size i pp, ◌>>=◌, ran, wraps)
              (mono (insert_page e pp (va + i) (with_page k pp rest w)) inserted (λ r k' says.
                elim says [ inl (z, x) ↦ inr (z, w, x, words) | inr full ↦ inl full ])))
    ]

-- A round of step 2 gives zeros.
pub blank_round_lem :
    (k : Kern) (e pgdir va i : ℕ)
    → RoundOk k e pgdir (va + i)
    → Returns (RoundGives k pgdir (va + i) (λ x. 0)) (blank_round e va i k)
unfolding blank_round
blank_round_lem k e pgdir va i o = elim (List-cases k.page_free_list) [
  | inl l ↦ rw (page_alloc-nil k l, ◌>>=◌) (inl (refl, l))
  | inr (pp, rest, l) ↦
      let wraps : u32 (va + i) ≡ va + i = omega (arith, o.below) in
      let inserted =
        insert_page_lem k pgdir pp rest (λ x. 0) o.user l e (va + i) o.dir (omega (arith, o.below))
          o.unmapped in
      rw (page_alloc-cons k pp rest o.user.tables.free l, ◌>>=◌, ◌>>◌)
        (rw wraps (
          mono (insert_page e pp (va + i) (with_page k pp rest (λ x. 0))) inserted (λ r k' says.
            elim says [ inl (z, x) ↦ inr (z, (λ x. 0), x, λ x lt. refl) | inr full ↦ inl full ])))
]
