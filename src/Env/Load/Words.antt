-- ===== src/Env/Load/Words.antt =====
-- The bytes of the image, and what `copy_to_page` makes of them on a page that is all zeros.
use buaa_mips_os.Base.{
  Option, ℕ, ◌+◌, ◌-◌, ◌*◌, ◌/◌, ◌%◌, ◌^◌, ◌≤◌, ◌<◌, ◌≡◌, refl, true, false, ◌&&◌, none, some, List,
  ◌==◌, leb, ltb, if◌then◌else◌, update, Bool-cases, inl, inr, arith, ap, ◌∙◌, fun_ext,
}
use native.Mathlib.Nat.{zero-div}
use buaa_mips_os.Kernel.{Kern}
use buaa_mips_os.Pmap.{incref}
use buaa_mips_os.Pmap.Free.{allocated}
use buaa_mips_os.Copy.{is_aligned, bcopy}
use buaa_mips_os.Copy.Bytes.{moved, Apart, bcopy_lem}
use buaa_mips_os.Env.Load.{phys_byte, page_of, copy_to_page, minimum}
use buaa_mips_os.Env.Load.Space.{Outside, Spares}
use buaa_mips_os.Env.Load.Step.{with_page}

-- Byte `x` of a segment of `size` bytes from `bin` on, and zeros behind it; and the word from `x` on.
abbrev pub image_byte : Kern → ℕ → ℕ → ℕ → ℕ
image_byte k bin size x = if ltb x size then phys_byte k (bin + x) else 0

abbrev pub image_word : Kern → ℕ → ℕ → ℕ → ℕ
image_word k bin size x =
    image_byte k bin size x * 0x100_0000
    + image_byte k bin size (x + 1) * 0x1_0000
    + image_byte k bin size (x + 2) * 0x100
    + image_byte k bin size (x + 3)

-- The image stands beside the address space.
abbrev pub ImageOutside : Kern → ℕ → ℕ → ℕ → Type 0
ImageOutside k pgdir bin size = (x : ℕ) → x < size → Outside k pgdir ((bin + x) / 4096)

byte-kept :
    (k k' : Kern) (a : ℕ)
    → ((i : ℕ) → i < 1024 → k'.mem (a / 4096) i ≡ k.mem (a / 4096) i)
    → phys_byte k' a ≡ phys_byte k a
byte-kept k k' a h = ap (λ w. w / 2 ^ (8 * (3 - a % 4)) % 256) (h (a % 4096 / 4) (omega arith))

module _ (k k' : Kern) (pgdir bin size : ℕ) (s : Spares k pgdir k')
    (out : ImageOutside k pgdir bin size) where
  pub ImageOutside-kept : ImageOutside k' pgdir bin size
  ImageOutside-kept x lt = (s ((bin + x) / 4096) (out x lt)).0

  image_byte-kept : (x : ℕ) → image_byte k' bin size x ≡ image_byte k bin size x
  image_byte-kept x = elim (Bool-cases (ltb x size)) [
    | inr h ↦ rw h refl
    | inl h ↦ rw h (byte-kept k k' (bin + x) ((s ((bin + x) / 4096) (out x (ground (arith, h)))).1))
  ]

  pub image_word-kept : (x : ℕ) → image_word k' bin size x ≡ image_word k bin size x
  image_word-kept x =
      rw
        (
          image_byte-kept x,
          image_byte-kept (x + 1),
          image_byte-kept (x + 2),
          image_byte-kept (x + 3),
        )
        refl

-- Bytes that are in none of the pages of a range stand before or behind it.
no_overlap :
    (pp src len : ℕ)
    → len ≤ 4096
    → ((x : ℕ) → x < len → ((src + x) / 4096 == pp) ≡ false)
    → Apart src (pp * 4096) len
no_overlap pp src len small h = elim (Bool-cases (leb (pp * 4096 + len) src)) [
  | inl e ↦ inl (ground (arith, e))
  | inr e ↦ elim (Bool-cases (leb (src + len) (pp * 4096))) [
    | inl f ↦ inr (ground (arith, f))
    | inr f ↦
        let a : ℕ = if ltb src (pp * 4096) then pp * 4096 - src else 0 in
        let inside : a < len = ground (arith, e, f) in
        let same : (src + a) / 4096 ≡ pp = ground (arith, e, f, small) in
        absurd (ground (arith, h a inside, same))
  ]
]

copy_to_page-some :
    (k : Kern) (src pp len : ℕ) (m : ℕ → ℕ)
    → bcopy src (pp * 4096) len (phys_byte k) ≡ some m
    → copy_to_page src pp 0 len k ≡ some (tt, record k { mem = update k.mem pp (page_of m pp) })
unfolding copy_to_page
copy_to_page-some k src pp len m h =
    let dst : pp * 4096 + 0 ≡ pp * 4096 = omega arith in
    ap
      (λ o. elim o as (λ _. Option (Unit {0} × Kern)) [
        | none ↦ none
        | some m ↦ some (tt, record k { mem = update k.mem pp (page_of m pp) })
      ])
      (ap (λ a. bcopy src a len (phys_byte k)) dst ∙ h)

module _ (k : Kern) (pp : ℕ) (rest : List ℕ) where
  abbrev pub blank : Kern
  blank = incref pp (allocated k pp rest)

  byte-other : (a : ℕ) → (a / 4096 == pp) ≡ false → phys_byte blank a ≡ phys_byte k a
  byte-other a h = byte-kept k blank a (λ i lt. rw h refl)

  byte-zero : (a : ℕ) → a / 4096 ≡ pp → phys_byte blank a ≡ 0
  byte-zero a h =
      let z : blank.mem (a / 4096) (a % 4096 / 4) ≡ 0 =
        let e : (a / 4096 == pp) ≡ true = ground (arith, h) in rw e refl in
      ap (λ w. w / 2 ^ (8 * (3 - a % 4)) % 256) z
      ∙ ap (λ w. w % 256) (zero-div (2 ^ (8 * (3 - a % 4))))

  module _ (bin size i : ℕ) (whole : i % 4096 ≡ 0)
      (beside : (x : ℕ) → x < size → ((bin + x) / 4096 == pp) ≡ false) where
    -- The length of the copy of a round.
    abbrev pub len : ℕ
    len = minimum 4096 (size - i)

    -- Byte `j` of the page behind the copy.
    moved-image :
        (j : ℕ)
        → j < 4096
        → moved (bin + i) (pp * 4096) len (phys_byte blank) (pp * 4096 + j)
          ≡ image_byte k bin size (i + j)
    moved-image j lt = elim (Bool-cases (ltb (i + j) size)) [
      | inl e ↦
          let inside : (leb (pp * 4096) (pp * 4096 + j) && ltb (pp * 4096 + j) (pp * 4096 + len))
              ≡ true =
            ground (arith, e) in
          let at : pp * 4096 + j - pp * 4096 + (bin + i) ≡ bin + (i + j) = omega arith in
          rw (e, inside, at) (byte-other (bin + (i + j)) (beside (i + j) (ground (arith, e))))
      | inr e ↦
          let beyond : (leb (pp * 4096) (pp * 4096 + j) && ltb (pp * 4096 + j) (pp * 4096 + len))
              ≡ false =
            ground (arith, e) in
          rw (e, beyond) (byte-zero (pp * 4096 + j) (omega arith))
    ]

    -- The page that a copy fills has the words of the image, and is filled as a whole.
    abbrev pub FillsPage : Type 0
    FillsPage =
        (w : ℕ → ℕ) × (copy_to_page (bin + i) pp 0 len blank ≡ some (tt, with_page k pp rest w))
        × ((x : ℕ) → x < 1024 → w x ≡ image_word k bin size (i + x * 4))

    page_of-word :
        (m : ℕ → ℕ) (x : ℕ)
        → x < 1024
        → ((j : ℕ) → j < 4096 → m (pp * 4096 + j) ≡ image_byte k bin size (i + j))
        → page_of m pp x ≡ image_word k bin size (i + x * 4)
    page_of-word m x lt says =
        let at : (c : ℕ)
            → c < 4
            → m (pp * 4096 + x * 4 + c) ≡ image_byte k bin size (i + x * 4 + c) =
          λ c clt.
            let e : pp * 4096 + x * 4 + c ≡ pp * 4096 + (x * 4 + c) = omega arith in
            let f : i + x * 4 + c ≡ i + (x * 4 + c) = omega arith in
            rw (e, f) (says (x * 4 + c) (omega arith)) in
        let zeroth : m (pp * 4096 + x * 4) ≡ image_byte k bin size (i + x * 4) =
          let e : pp * 4096 + x * 4 ≡ pp * 4096 + (x * 4) = refl in says (x * 4) (omega arith) in
        rw (zeroth, at 1 (omega arith), at 2 (omega arith), at 3 (omega arith)) refl

    copied-image :
        (m : ℕ → ℕ)
        → bcopy (bin + i) (pp * 4096) len (phys_byte blank) ≡ some m
        → ((a : ℕ) → m a ≡ moved (bin + i) (pp * 4096) len (phys_byte blank) a)
        → FillsPage
    copied-image m ran all = (
      page_of m pp,
      copy_to_page-some blank (bin + i) pp len m ran
          ∙ ap (λ f. some (tt, record blank { mem = f }))
              (fun_ext
                (λ q. elim (Bool-cases (q == pp)) [ inl e ↦ rw e refl | inr e ↦ rw e refl ])),
      λ x lt. page_of-word m x lt (λ j jlt. all (pp * 4096 + j) ∙ moved-image j jlt),
    )

    pub copy_to_page-image : is_aligned bin ≡ true → FillsPage
    copy_to_page-image al =
        let apart : Apart (bin + i) (pp * 4096) len =
          no_overlap pp (bin + i) len (ground arith) (λ x lt.
            let same : bin + i + x ≡ bin + (i + x) = omega arith in
            rw same (beside (i + x) (ground arith))) in
        let both : (is_aligned (bin + i) && is_aligned (pp * 4096)) ≡ true =
          ground (arith, al, whole) in
        let (m, ran, all) = (bcopy_lem (bin + i) (pp * 4096) len (phys_byte blank) apart).1 both in
        copied-image m ran all
