-- ===== src/Env/Load/Program.antt =====
-- lib/env.c: the whole image of a program, segment by segment.
use buaa_mips_os.Base.{
  ℕ, ◌+◌, ◌*◌, ◌≤◌, ◌≡◌, ◌≢◌, ◌⊎◌, refl, Option, none, some, List, [], ◌∷◌, ◌==◌, if◌then◌else◌,
  inl, inr, ap, sym,
}
use buaa_mips_os.Kernel.{Kern, e_no_mem}
use buaa_mips_os.Pmap.Returns.{Returns}
use buaa_mips_os.Elf.{Image, Segment, loaded, failed, loads, run, load_elf_lem}
use mathlib.Core.Path.{subst}
use buaa_mips_os.Env.Load.{entry_point_of, rounds_to, load_icode_mapper, callback, run_elf}
use buaa_mips_os.Env.Load.Space.{UserOk}
use buaa_mips_os.Env.Load.Words.{image_word}
use buaa_mips_os.Env.Load.Loop.{Fills}
use buaa_mips_os.Env.Load.Mapper.{load_icode_mapper_lem}
use buaa_mips_os.Env.Load.Segments.{
  SegmentsOk, with_segments, LoadsAll, SegmentsOk-kept, LoadsAll-next,
}

-- What the loader's loop leaves: no page is free, or all segments are loaded. It has not panicked.
abbrev RunSays : Kern → ℕ → ℕ → List Segment → ℕ × Option Kern → Type 0
RunSays k pgdir binary segments (r, none) = ⊥
RunSays k pgdir binary segments (r, some k') =
    ((r ≡ e_no_mem) × (k'.page_free_list ≡ [])) ⊎ ((r ≡ 0) × LoadsAll k pgdir binary segments k')

-- A run that returns has a result.
returned :
    {P : ℕ → Kern → Type 0} (o : Option (ℕ × Kern))
    → Returns P o
    → (r : ℕ) × (k' : Kern) × (o ≡ some (r, k')) × P r k'
returned none h = absurd h
returned (some (r, k')) h = (r, k', refl, h)

callback-some :
    (k k' : Kern) (e binary r : ℕ) (s : Segment)
    → load_icode_mapper e binary s k ≡ some (r, k')
    → callback e binary s (some k) ≡ (r, some k')
callback-some k k' e binary r s h =
    ap (λ o. elim o as (λ _. ℕ × Option Kern) [ none ↦ (1, none) | some (r, k') ↦ (r, some k') ]) h

LoadsAll-then :
    (k k1 : Kern) (e pgdir binary : ℕ) (s : Segment) (rest : List Segment)
    → Fills k pgdir s.va
        (rounds_to s.sgsize)
        (λ j i. image_word k (binary + s.bin) s.bin_size (j * 4096 + i * 4))
        k1
    → SegmentsOk k e pgdir binary rest
    → (o : ℕ × Option Kern) → RunSays k1 pgdir binary rest o
    → RunSays k pgdir binary (s ∷ rest) o
LoadsAll-then k k1 e pgdir binary s rest x ok (r, none) h = h
LoadsAll-then k k1 e pgdir binary s rest x ok (r, some k2) (inl full) = inl full
LoadsAll-then k k1 e pgdir binary s rest x ok (r, some k2) (inr (z, y)) =
    inr (z, LoadsAll-next k k1 e pgdir binary s _ x rest k2 (λ j i. refl) ok y)

segments-run :
    (segments : List Segment) (k : Kern) (e pgdir binary : ℕ)
    → UserOk k pgdir
    → SegmentsOk k e pgdir binary segments
    → RunSays k pgdir binary segments (run (callback e binary) segments (some k))
unfolding SegmentsOk with_segments
segments-run [] k e pgdir binary u ok = inr (
  refl,
  record {
    user = u;
    spares = λ p out. (out, λ i lt. refl);
    words = λ d t i dlt tlt ilt. refl;
    envs = refl;
  },
)
segments-run (s ∷ rest) k e pgdir binary u (first, alone, ok) =
    let (r, k1, ran, says) = returned (load_icode_mapper e binary s k) (
      load_icode_mapper_lem k e pgdir binary s first.small first.aligned first.outside
        first.ready) in
    rw (callback-some k k1 e binary r s ran) (elim says [
      | inl (z, empty) ↦ rw z (inl (refl, empty))
      | inr (z, x) ↦ rw z (
          LoadsAll-then k k1 e pgdir binary s rest x ok (run (callback e binary) rest (some k1)) (
            segments-run rest k1 e pgdir binary x.user
              (SegmentsOk-kept k k1 e pgdir binary s _ x rest alone ok)))
    ])

-- What the loader gives: the entry point, and all segments are loaded; or the old value, and no page is free.
abbrev pub ElfSays : Kern → (pgdir unset binary : ℕ) → Image → ℕ → Kern → Type 0
ElfSays k pgdir unset binary image pc k' =
    ((pc ≡ unset) × (k'.page_free_list ≡ []))
    ⊎ ((pc ≡ image.ehdr.e_entry)
        × LoadsAll k pgdir binary (loads image.ehdr.e_phnum image.ehdr.e_phoff image) k')

RunSays-ElfSays :
    (k : Kern) (pgdir unset binary : ℕ) (image : Image) (o : ℕ × Option Kern)
    → RunSays k pgdir binary (loads image.ehdr.e_phnum image.ehdr.e_phoff image) o
    → Returns
        (ElfSays k pgdir unset binary image)
        (entry_point_of unset (if o.0 == 0 then loaded image.ehdr.e_entry o.1 else failed o.0 o.1))
unfolding entry_point_of
RunSays-ElfSays k pgdir unset binary image (r, none) h = absurd h
RunSays-ElfSays k pgdir unset binary image (r, some k') (inl (z, empty)) = rw z (inl (refl, empty))
RunSays-ElfSays k pgdir unset binary image (r, some k') (inr (z, y)) = rw z (inr (refl, y))

-- For an image of at least four bytes whose first byte is not 0 (the code's own test; its other
-- identification bytes do not matter), with segments at page boundaries that do not overlap, are not
-- mapped, and whose bytes are aligned to words and stand in no page of the address space, the loading
-- of the image into an environment does not panic. Either the entry point is returned, all loadable
-- segments are in the address space, and the rest of it is as before; or no page is left, and the
-- variable for the entry point is not set.
pub run_elf_lem :
    (k : Kern) (e pgdir unset binary : ℕ) (image : Image)
    → UserOk k pgdir
    → 4 ≤ image.size
    → image.ehdr.e_ident 0 ≢ 0
    → SegmentsOk k e pgdir binary (loads image.ehdr.e_phnum image.ehdr.e_phoff image)
    → Returns (ElfSays k pgdir unset binary image) (run_elf unset e binary image k)
unfolding run_elf
run_elf_lem k e pgdir unset binary image u big first ok =
    let segments = loads image.ehdr.e_phnum image.ehdr.e_phoff image in
    subst (λ o. Returns (ElfSays k pgdir unset binary image) (entry_point_of unset o))
      (sym (load_elf_lem (callback e binary) image (some k) big first))
      (RunSays-ElfSays k pgdir unset binary image (run (callback e binary) segments (some k))
        (segments-run segments k e pgdir binary u ok))
