-- ===== src/Env/Load/Segments.antt =====
-- The segments of a program, one put on the other.
use buaa_mips_os.Base.{
  Bool, ℕ, ◌+◌, ◌-◌, ◌*◌, ◌/◌, ◌≤◌, ◌<◌, ◌≡◌, refl, true, false, Option, some, List, [], ◌∷◌,
  if◌then◌else◌, arith, ap, ◌∙◌,
}
use buaa_mips_os.Kernel.{Kern}
use buaa_mips_os.Pmap.Vm.Entry.{entry_at}
use buaa_mips_os.Pmap.Vm.Loop.{covers}
use buaa_mips_os.Copy.{is_aligned}
use buaa_mips_os.Elf.{Segment}
use buaa_mips_os.Env.{pdx_utop}
use buaa_mips_os.Env.Load.{rounds_to}
use buaa_mips_os.Env.Load.Space.{word_at, word_of, word_of-none, UserOk, Spares}
use buaa_mips_os.Env.Load.Words.{ImageOutside, ImageOutside-kept, image_word, image_word-kept}
use buaa_mips_os.Env.Load.Loop.{Fills, Ready}

-- Page `x` of the address space is one of the segment's.
abbrev in_segment : Segment → ℕ → Bool
in_segment s x = covers s.va (rounds_to s.sgsize) x

-- The word that a segment has at word `i` of page `x`.
abbrev segment_word : Kern → ℕ → Segment → ℕ → ℕ → ℕ
segment_word k binary s x i =
    image_word k (binary + s.bin) s.bin_size ((x - s.va / 4096) * 4096 + i * 4)

-- Word `i` of page `x`, where the segments are put on what was there.
unfoldable pub with_segments : Kern → ℕ → List Segment → ℕ → ℕ → Option ℕ → Option ℕ
with_segments k binary [] x i o = o
with_segments k binary (s ∷ rest) x i o =
    with_segments k binary rest x i
      (if in_segment s x then some (segment_word k binary s x i) else o)

-- A segment that `load_icode_mapper` loads in full.
pub record SegmentOk (k : Kern) (e pgdir binary : ℕ) (s : Segment) : Type 0 where
  pub small : s.bin_size ≤ s.sgsize
  pub aligned : is_aligned (binary + s.bin) ≡ true
  pub outside : ImageOutside k pgdir (binary + s.bin) s.bin_size
  pub ready : Ready k e pgdir s.va (rounds_to s.sgsize)

-- No page is in the segment and in one of the others.
unfoldable pub Alone : Segment → List Segment → Type 0
Alone s [] = Unit
Alone s (s' ∷ rest) = ((x : ℕ) → in_segment s' x ≡ true → in_segment s x ≡ false) × Alone s rest

unfoldable pub SegmentsOk : Kern → ℕ → ℕ → ℕ → List Segment → Type 0
SegmentsOk k e pgdir binary [] = Unit
SegmentsOk k e pgdir binary (s ∷ rest) =
    SegmentOk k e pgdir binary s × Alone s rest × SegmentsOk k e pgdir binary rest

-- All segments are in the address space, and nothing else has changed there.
pub record LoadsAll (k : Kern) (pgdir binary : ℕ) (segments : List Segment) (k' : Kern)
    : Type 0 where
  pub user : UserOk k' pgdir
  pub spares : Spares k pgdir k'
  pub words :
      (d t i : ℕ)
      → d < pdx_utop
      → t < 1024
      → i < 1024
      → word_at k' pgdir d t i
        ≡ with_segments k binary segments (d * 1024 + t) i (word_at k pgdir d t i)
  pub envs : k'.envs ≡ k.envs

module _ (k k1 : Kern) (e pgdir binary : ℕ) (s : Segment) (g : ℕ → ℕ → ℕ)
    (x : Fills k pgdir s.va (rounds_to s.sgsize) g k1) where
  SegmentOk-kept :
      (s' : Segment)
      → ((y : ℕ) → in_segment s' y ≡ true → in_segment s y ≡ false)
      → SegmentOk k e pgdir binary s'
      → SegmentOk k1 e pgdir binary s'
  SegmentOk-kept s' apart o = record {
    small = o.small;
    aligned = o.aligned;
    outside = ImageOutside-kept k k1 pgdir (binary + s'.bin) s'.bin_size x.spares o.outside;
    ready = record {
      dir = rw x.envs o.ready.dir;
      user = x.user;
      whole = o.ready.whole;
      fits = o.ready.fits;
      unmapped = λ d t dlt tlt c. word_of-none k1 (entry_at k1 pgdir d t) 0 (
          x.words d t 0 dlt tlt (omega arith)
          ∙ rw (apart (d * 1024 + t) c) (ap (λ y. word_of k y 0) (o.ready.unmapped d t dlt tlt c)));
    };
  }

  pub SegmentsOk-kept :
      (rest : List Segment)
      → Alone s rest
      → SegmentsOk k e pgdir binary rest
      → SegmentsOk k1 e pgdir binary rest
  unfolding SegmentsOk Alone
  SegmentsOk-kept [] alone o = tt
  SegmentsOk-kept (s' ∷ rest) (apart, alone) (first, own, o) =
      (SegmentOk-kept s' apart first, own, SegmentsOk-kept rest alone o)

  with_segments-kept :
      (rest : List Segment) (y i : ℕ) (o : Option ℕ)
      → SegmentsOk k e pgdir binary rest
      → with_segments k1 binary rest y i o ≡ with_segments k binary rest y i o
  unfolding with_segments SegmentsOk
  with_segments-kept [] y i o ok = refl
  with_segments-kept (s' ∷ rest) y i o (first, own, ok) =
      let same =
        image_word-kept k k1 pgdir (binary + s'.bin) s'.bin_size x.spares first.outside
          ((y - s'.va / 4096) * 4096 + i * 4) in
      with_segments-kept rest y i _ ok
      ∙ ap (λ w. with_segments k binary rest y i (if in_segment s' y then some w else o)) same

  -- A segment, and then those behind it.
  pub LoadsAll-next :
      (rest : List Segment) (k2 : Kern)
      → ((j i : ℕ) → g j i ≡ image_word k (binary + s.bin) s.bin_size (j * 4096 + i * 4))
      → SegmentsOk k e pgdir binary rest
      → LoadsAll k1 pgdir binary rest k2
      → LoadsAll k pgdir binary (s ∷ rest) k2
  unfolding with_segments
  LoadsAll-next rest k2 words ok y = record {
    user = y.user;
    spares = λ p out.
        let (out1, same1) = x.spares p out in
        let (out2, same2) = y.spares p out1 in (out2, λ i lt. same2 i lt ∙ same1 i lt);
    words = λ d t i dlt tlt ilt.
        let page : ℕ = d * 1024 + t in
        let first : word_at k1 pgdir d t i ≡ (
            if in_segment s page
            then some (segment_word k binary s page i)
            else word_at k pgdir d t i) =
          x.words d t i dlt tlt ilt
          ∙ ap (λ w. if in_segment s page then some w else word_at k pgdir d t i)
              (words (page - s.va / 4096) i) in
        y.words d t i dlt tlt ilt
        ∙ with_segments-kept rest page i (word_at k1 pgdir d t i) ok
        ∙ ap (with_segments k binary rest page i) first;
    envs = y.envs ∙ x.envs;
  }
