-- ===== src/Env/Load/Mapper.antt =====
-- `load_icode_mapper` as a whole: a segment of the image in the address space.
use buaa_mips_os.Base.{
  ℕ, zero, suc, ◌+◌, ◌-◌, ◌*◌, ◌%◌, ◌≤◌, ◌≡◌, refl, true, false, not, none, some, ◌==◌, ltb,
  if◌then◌else◌, inl, inr, arith, ap, ◌∙◌, sym, fun_ext,
}
use mathlib.Core.Path.{subst}
use buaa_mips_os.Kernel.{Kern, pure}
use buaa_mips_os.Pmap.Returns.{Returns, bind, mono}
use buaa_mips_os.Copy.{is_aligned}
use buaa_mips_os.Elf.{Segment}
use buaa_mips_os.Env.Load.{
  load_round, load_pages, blank_round, blank_pages, rounds_to, load_icode_mapper,
}
use buaa_mips_os.Env.Load.Words.{
  ImageOutside, ImageOutside-kept, image_byte, image_word, image_word-kept,
}
use buaa_mips_os.Env.Load.Pages.{load_round_lem, blank_round_lem}
use buaa_mips_os.Env.Load.Loop.{Filled, Ready, Ready-RoundOk, Fills-none, round_then}
use buaa_mips_os.Env.Load.Behind.{Ready-front, Ready-behind, Fills-both}

load_pages_lem :
    (n : ℕ) (k : Kern) (e pgdir va bin size i : ℕ)
    → Ready k e pgdir (va + i) n
    → va % 4096 ≡ 0
    → i % 4096 ≡ 0
    → is_aligned bin ≡ true
    → ImageOutside k pgdir bin size
    → Returns
        (Filled k pgdir (va + i) n (λ j x. image_word k bin size (i + j * 4096 + x * 4)))
        (load_pages n e va bin size i k)
unfolding load_pages
load_pages_lem zero k e pgdir va bin size i o vw iw al out =
    inr (refl, Fills-none k pgdir (va + i) _ o.user)
load_pages_lem (suc n) k e pgdir va bin size i o vw iw al out =
    let z : i + 0 * 4096 ≡ i = omega arith in
    round_then k e pgdir (va + i) n (λ j x. image_word k bin size (i + j * 4096 + x * 4))
      (load_round e va bin size i k) (load_pages n e va bin size (i + 4096)) o
      (rw z (
        load_round_lem k e pgdir va bin size i (Ready-RoundOk k e pgdir (va + i) n o) vw iw al out))
      (λ k1 w x ready.
        let next : va + i + 4096 ≡ va + (i + 4096) = omega arith in
        let out1 = ImageOutside-kept k k1 pgdir bin size x.spares out in
        let rest =
          load_pages_lem n k1 e pgdir va bin size (i + 4096) (rw next at ready) vw
            (omega (arith, iw)) al out1 in
        let same : (λ j x. image_word k1 bin size (i + 4096 + j * 4096 + x * 4))
            ≡ (λ j x. image_word k bin size (i + (j + 1) * 4096 + x * 4)) =
          fun_ext (λ j. fun_ext (λ y.
            let at : i + 4096 + j * 4096 + y * 4 ≡ i + (j + 1) * 4096 + y * 4 = omega arith in
            image_word-kept k k1 pgdir bin size x.spares out (i + 4096 + j * 4096 + y * 4)
            ∙ ap (image_word k bin size) at)) in
        rw next (
          subst
            (λ g.
              Returns (Filled k1 pgdir (va + (i + 4096)) n g)
                (load_pages n e va bin size (i + 4096) k1))
            same rest))

blank_pages_lem :
    (n : ℕ) (k : Kern) (e pgdir va i : ℕ)
    → Ready k e pgdir (va + i) n
    → Returns (Filled k pgdir (va + i) n (λ j x. 0)) (blank_pages n e va i k)
unfolding blank_pages
blank_pages_lem zero k e pgdir va i o = inr (refl, Fills-none k pgdir (va + i) _ o.user)
blank_pages_lem (suc n) k e pgdir va i o =
    round_then k e pgdir (va + i) n (λ j x. 0) (blank_round e va i k)
      (blank_pages n e va (i + 4096)) o
      (blank_round_lem k e pgdir va i (Ready-RoundOk k e pgdir (va + i) n o))
      (λ k1 w x ready.
        let next : va + i + 4096 ≡ va + (i + 4096) = omega arith in
        rw next (blank_pages_lem n k1 e pgdir va (i + 4096) (rw next at ready)))

-- Behind the image there are zeros.
image_word-zero : (k : Kern) (bin size x : ℕ) → size ≤ x → image_word k bin size x ≡ 0
image_word-zero k bin size x h =
    let z : (c : ℕ) → image_byte k bin size (x + c) ≡ 0 =
      λ c. let e : ltb (x + c) size ≡ false = ground (arith, h) in rw e refl in
    let z0 : image_byte k bin size x ≡ 0 =
      let e : ltb x size ≡ false = ground (arith, h) in rw e refl in
    rw (z0, z 1, z 2, z 3) refl

rounds-sum :
    (size sgsize : ℕ)
    → size ≤ sgsize
    → rounds_to size + rounds_to (sgsize - rounds_to size * 4096) ≡ rounds_to sgsize
rounds-sum size sgsize h = omega arith

-- Both loops.
module _ (k : Kern) (e pgdir va n m bin size : ℕ) (small : size ≤ n * 4096)
    (al : is_aligned bin ≡ true) (out : ImageOutside k pgdir bin size)
    (ready : Ready k e pgdir va (n + m)) where
  abbrev g : ℕ → ℕ → ℕ
  g j i = image_word k bin size (j * 4096 + i * 4)

  first_loop : Returns (Filled k pgdir va n g) (load_pages n e va bin size 0 k)
  first_loop =
      let z : va + 0 ≡ va = omega arith in
      let same : (λ j i. image_word k bin size (0 + j * 4096 + i * 4)) ≡ g = fun_ext (λ j.
        fun_ext (λ i.
          let at : 0 + j * 4096 + i * 4 ≡ j * 4096 + i * 4 = omega arith in
          ap (image_word k bin size) at)) in
      let front = Ready-front k e pgdir va n m ready in
      let loop = load_pages_lem n k e pgdir va bin size 0 (rw z front) front.whole refl al out in
      subst (λ g. Returns (Filled k pgdir va n g) (load_pages n e va bin size 0 k)) same
        (rw z at loop)

  both_loops : Returns (Filled k pgdir va (n + m) g) (elim (load_pages n e va bin size 0 k) [
    | none ↦ none
    | some (r, k1) ↦ (if not (r == 0) then pure r else blank_pages m e va (n * 4096)) k1
  ])
  both_loops =
      bind (Filled k pgdir va (n + m) g) (load_pages n e va bin size 0 k)
        (λ r. if not (r == 0) then pure r else blank_pages m e va (n * 4096)) first_loop
        (λ r k1 says. elim says [
          | inl (z, empty) ↦ rw z (inl (refl, empty))
          | inr (z, fills) ↦
              let behind = Ready-behind k k1 e pgdir va n m g ready fills in
              rw z (
                mono (blank_pages m e va (n * 4096) k1)
                  (blank_pages_lem m k1 e pgdir va (n * 4096) behind)
                  (λ r2 k2 said. elim said [
                    | inl full ↦ inl full
                    | inr (z2, more) ↦ inr (
                      z2,
                      Fills-both k k1 e pgdir va n m g ready fills (λ j i. 0) k2
                          (λ j i far.
                            image_word-zero k bin size (j * 4096 + i * 4)
                              (omega (arith, far, small)))
                          more,
                    )
                  ]))
        ])

-- For a segment at a page boundary whose image is aligned to words and stands in no page of the address space,
-- load_icode_mapper does not panic. Either no page is left, and it fails with E_NO_MEM; or it succeeds, and
-- then the pages of the segment, which were not mapped, hold the bytes of the image, most significant byte
-- first, and zeros behind them, up to the end of the last page; every other word of the address space
-- is as before, and so is every page in use that is not part of the page tables.
pub load_icode_mapper_lem :
    (k : Kern) (e pgdir binary : ℕ) (x : Segment)
    → x.bin_size ≤ x.sgsize
    → is_aligned (binary + x.bin) ≡ true
    → ImageOutside k pgdir (binary + x.bin) x.bin_size
    → Ready k e pgdir x.va (rounds_to x.sgsize)
    → Returns
        (Filled k pgdir x.va
          (rounds_to x.sgsize)
          (λ j i. image_word k (binary + x.bin) x.bin_size (j * 4096 + i * 4)))
        (load_icode_mapper e binary x k)
unfolding load_icode_mapper
load_icode_mapper_lem k e pgdir binary x h al out ready =
    let n : ℕ = rounds_to x.bin_size in
    let m : ℕ = rounds_to (x.sgsize - n * 4096) in
    let all : n + m ≡ rounds_to x.sgsize = rounds-sum x.bin_size x.sgsize h in
    let pages : Ready k e pgdir x.va (n + m) = subst (Ready k e pgdir x.va) (sym all) ready in
    subst
      (λ c.
        Returns
          (Filled k pgdir x.va c
            (λ j i. image_word k (binary + x.bin) x.bin_size (j * 4096 + i * 4)))
          (load_icode_mapper e binary x k))
      all (both_loops k e pgdir x.va n m (binary + x.bin) x.bin_size (omega arith) al out pages)
