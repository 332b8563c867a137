-- ===== src/Fs/Dir/Path/Name.antt =====
-- fs/fs.c: the name that `strcpy` stores in a file is the one that `strcmp` finds there.
use buaa_mips_os.Base.{
  refl, ap, ◌∙◌, [], ◌∷◌, false, Bool-cases, inl, inr, ap, ◌∷◌, false, ◌∙◌, inr, inl, Bool-cases,
  zero, suc, ◌-◌, ◌*◌, ◌/◌, ◌%◌, ◌^◌, ◌<◌, ◌%◌, ◌-◌, ◌*◌, ◌^◌, ◌<◌, ◌/◌, ℕ, ◌+◌, ◌≡◌, true, List,
  ◌==◌, if◌then◌else◌, arith,
}
use buaa_mips_os.Fs.{Server}
use buaa_mips_os.Fs.Dir.{FilePtr, byte, with_byte, set_byte, has_name}
use buaa_mips_os.Fs.Dir.Path.{strcpy_name}

-- Every character is a byte.
abbrev pub AreChars : List ℕ → Type 0
AreChars [] = Unit {0}
AreChars (c ∷ name) = (c < 256) × AreChars name

abbrev lane : ℕ → ℕ → ℕ
lane w j = w / 2 ^ (8 * (3 - j)) % 256

abbrev with_lane : ℕ → ℕ → ℕ → ℕ
with_lane w k c = let unit : ℕ = 2 ^ (8 * (3 - k)) in w - w / unit % 256 * unit + c * unit

lane-with_lane :
    (w j k c : ℕ)
    → j < 4
    → k < 4
    → c < 256
    → lane (with_lane w k c) j ≡ (if j == k then c else lane w j)
lane-with_lane w zero zero c l m n = omega arith
lane-with_lane w zero (suc zero) c l m n = omega arith
lane-with_lane w zero (suc (suc zero)) c l m n = omega arith
lane-with_lane w zero (suc (suc (suc zero))) c l m n = omega arith
lane-with_lane w (suc zero) zero c l m n = omega arith
lane-with_lane w (suc zero) (suc zero) c l m n = omega arith
lane-with_lane w (suc zero) (suc (suc zero)) c l m n = omega arith
lane-with_lane w (suc zero) (suc (suc (suc zero))) c l m n = omega arith
lane-with_lane w (suc (suc zero)) zero c l m n = omega arith
lane-with_lane w (suc (suc zero)) (suc zero) c l m n = omega arith
lane-with_lane w (suc (suc zero)) (suc (suc zero)) c l m n = omega arith
lane-with_lane w (suc (suc zero)) (suc (suc (suc zero))) c l m n = omega arith
lane-with_lane w (suc (suc (suc zero))) zero c l m n = omega arith
lane-with_lane w (suc (suc (suc zero))) (suc zero) c l m n = omega arith
lane-with_lane w (suc (suc (suc zero))) (suc (suc zero)) c l m n = omega arith
lane-with_lane w (suc (suc (suc zero))) (suc (suc (suc zero))) c l m n = omega arith
lane-with_lane w (suc (suc (suc (suc j)))) k c l m n = absurd (omega arith)
lane-with_lane w j (suc (suc (suc (suc k)))) c l m n = absurd (omega arith)

set_byte-word :
    (s : Server) (p : FilePtr) (k c i : ℕ)
    → (set_byte p k c s).mem p.block (p.word + i) ≡ (
        if i == k / 4
        then with_byte (s.mem p.block (p.word + k / 4)) k c
        else s.mem p.block (p.word + i))
set_byte-word s p k c i =
    let here : (p.block == p.block) ≡ true = ground arith in
    rw here (elim (Bool-cases (i == k / 4)) [
      | inl e ↦
          let e' : (p.word + i == p.word + k / 4) ≡ true = ground (arith, e) in rw (e, e') refl
      | inr e ↦
          let e' : (p.word + i == p.word + k / 4) ≡ false = ground (arith, e) in rw (e, e') refl
    ])

-- A store to byte `k` of a file is read back, and leaves the file's other bytes alone.
with_byte-bytes :
    (s : Server) (p : FilePtr) (k c j : ℕ)
    → c < 256
    → byte (set_byte p k c s) p j ≡ (if j == k then c else byte s p j)
with_byte-bytes s p k c j l = elim (Bool-cases (j / 4 == k / 4)) [
  | inl e ↦
      let word : (set_byte p k c s).mem p.block (p.word + j / 4)
          ≡ with_byte (s.mem p.block (p.word + k / 4)) k c =
        set_byte-word s p k c (j / 4) ∙ rw e refl in
      let at : p.word + k / 4 ≡ p.word + j / 4 = ground (arith, e) in
      ap (λ w. lane w (j % 4)) word
      ∙ lane-with_lane (s.mem p.block (p.word + k / 4)) (j % 4) (k % 4) c (omega arith)
          (omega arith) l
      ∙ (elim (Bool-cases (j == k)) [
        | inl f ↦ let f' : (j % 4 == k % 4) ≡ true = ground (arith, f) in rw (f, f') refl
        | inr f ↦ let f' : (j % 4 == k % 4) ≡ false = ground (arith, e, f) in rw (f, f', at) refl
      ])
  | inr e ↦
      let word : (set_byte p k c s).mem p.block (p.word + j / 4) ≡ s.mem p.block (p.word + j / 4) =
        set_byte-word s p k c (j / 4) ∙ rw e refl in
      let f : (j == k) ≡ false = ground (arith, e) in rw f (ap (λ w. lane w (j % 4)) word)
]

-- Stores from byte `k` on leave the bytes before.
strcpy_name-before :
    (name : List ℕ) (s : Server) (p : FilePtr) (k j : ℕ)
    → AreChars name
    → j < k
    → byte (strcpy_name p k name s) p j ≡ byte s p j
unfolding strcpy_name
strcpy_name-before [] s p k j h l =
    with_byte-bytes s p k 0 j (omega arith) ∙ (let e : (j == k) ≡ false = ground arith in rw e refl)
strcpy_name-before (c ∷ name) s p k j h l =
    strcpy_name-before name (set_byte p k c s) p (k + 1) j h.1 (omega arith)
    ∙ with_byte-bytes s p k c j h.0
    ∙ (let e : (j == k) ≡ false = ground arith in rw e refl)

-- A name of characters that is stored in a file is the name that the file has.
pub has_name-strcpy_name :
    (name : List ℕ) (s : Server) (p : FilePtr) (k : ℕ)
    → AreChars name
    → has_name (strcpy_name p k name s) p k name ≡ true
unfolding has_name strcpy_name
has_name-strcpy_name [] s p k h =
    let kept : byte (set_byte p k 0 s) p k ≡ 0 =
      with_byte-bytes s p k 0 k (omega arith)
      ∙ (let e : (k == k) ≡ true = ground arith in rw e refl) in
    ground (arith, kept)
has_name-strcpy_name (c ∷ name) s p k h =
    let kept : byte (strcpy_name p (k + 1) name (set_byte p k c s)) p k ≡ c =
      strcpy_name-before name (set_byte p k c s) p (k + 1) k h.1 (omega arith)
      ∙ with_byte-bytes s p k c k h.0
      ∙ (let e : (k == k) ≡ true = ground arith in rw e refl) in
    let same : (byte (strcpy_name p (k + 1) name (set_byte p k c s)) p k == c) ≡ true =
      ground (arith, kept) in
    rw same (has_name-strcpy_name name (set_byte p k c s) p (k + 1) h.1)
