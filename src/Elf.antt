-- ===== src/Elf.antt =====
-- lib/kernel_elfloader.c. The image is its header and its program headers by their offsets; `map` is
-- the callback of the caller, on a state of its own.
mod Tests
use buaa_mips_os.Base.{
  ap, ◌≤◌, ℕ, zero, suc, ◌+◌, ◌-◌, ◌<◌, ◌≡◌, ◌≢◌, ◌⊎◌, refl, Bool, true, false, not, ◌&&◌, ◌||◌,
  List, [], ◌∷◌, ◌==◌, ltb, if◌then◌else◌, arith, Bool-cases, inl, inr,
}

-- The fields of Elf32_Ehdr and Elf32_Phdr that are read.
pub record Ehdr : Type 0 where
  pub e_ident : ℕ → ℕ
  pub e_entry : ℕ
  pub e_phoff : ℕ
  pub e_phentsize : ℕ
  pub e_phnum : ℕ

pub record Phdr : Type 0 where
  pub p_type : ℕ
  pub p_offset : ℕ
  pub p_vaddr : ℕ
  pub p_filesz : ℕ
  pub p_memsz : ℕ

pub record Image : Type 0 where
  pub size : ℕ
  pub ehdr : Ehdr
  pub phdr_at : ℕ → Phdr

-- The arguments of one call of `map`: address, size in memory, offset and size in the image.
pub record Segment : Type 0 where
  pub va : ℕ
  pub sgsize : ℕ
  pub bin : ℕ
  pub bin_size : ℕ

abbrev pub segment : Phdr → Segment
segment h = record { va = h.p_vaddr; sgsize = h.p_memsz; bin = h.p_offset; bin_size = h.p_filesz }

-- PT_LOAD
abbrev pt_load : ℕ
pt_load = 1

-- EI_MAG0 to EI_MAG3 are 0 to 3.
pub is_elf_format : Ehdr → ℕ
is_elf_format h =
    if ((h.e_ident 0 == 0) && (h.e_ident 1 == 1)) && ((h.e_ident 2 == 2) && (h.e_ident 3 == 3))
    then 0
    else 1

-- The entry point, or the code of an error; -1 is 1.
pub data Result (S : Type 0) : Type 0 where
  loaded : ℕ → S → Result S
  failed : ℕ → S → Result S

module _ {S : Type 0} (map : Segment → S → ℕ × S) where
  -- The loop, with the entries that are left, from the offset `ptr` on: the return code, which is 0
  -- where no call of `map` failed, and the state.
  pub load_segments : ℕ → ℕ → Image → S → ℕ × S
  load_segments zero ptr image s = (0, s)
  load_segments (suc n) ptr image s =
      let h : Phdr = image.phdr_at ptr in
      let mapped : ℕ × S = map (segment h) s in
      let next : ℕ × S = load_segments n (ptr + image.ehdr.e_phentsize) image mapped.1 in
      let skip : ℕ × S = load_segments n (ptr + image.ehdr.e_phentsize) image s in
      if not (h.p_type == pt_load) then skip else if mapped.0 == 0 then next else mapped

  pub load_elf : Image → S → Result S
  load_elf image s =
      if ltb image.size 4 || (is_elf_format image.ehdr == 0)
      then failed 1 s
      else let r : ℕ × S = load_segments image.ehdr.e_phnum image.ehdr.e_phoff image s in
        if r.0 == 0 then loaded image.ehdr.e_entry r.1 else failed r.0 r.1

-- The loadable segments of an image, in the order of the table.
abbrev pub loads : ℕ → ℕ → Image → List Segment
loads zero ptr image = []
loads (suc n) ptr image =
    let rest : List Segment = loads n (ptr + image.ehdr.e_phentsize) image in
    if (image.phdr_at ptr).p_type == pt_load then segment (image.phdr_at ptr) ∷ rest else rest

-- The callback on one segment after another, up to the first that fails.
abbrev pub run : {S : Type 0} → (Segment → S → ℕ × S) → List Segment → S → ℕ × S
run map [] s = (0, s)
run map (x ∷ xs) s =
    let rest : ℕ × _ = run map xs (map x s).1 in if (map x s).0 == 0 then rest else map x s

load_segments-run :
    {S : Type 0} (map : Segment → S → ℕ × S) (n ptr : ℕ) (image : Image) (s : S)
    → load_segments map n ptr image s ≡ run map (loads n ptr image) s
unfolding load_segments
load_segments-run map zero ptr image s = refl
load_segments-run map (suc n) ptr image s =
    let next : ℕ = ptr + image.ehdr.e_phentsize in
    let x : Segment = segment (image.phdr_at ptr) in
    elim (Bool-cases ((image.phdr_at ptr).p_type == pt_load)) [
      | inr other ↦ rw other (load_segments-run map n next image s)
      | inl load ↦ rw load (elim (Bool-cases ((map x s).0 == 0)) [
        | inl fine ↦ rw fine (load_segments-run map n next image (map x s).1)
        | inr bad ↦ rw bad refl
      ])
    ]

-- An image of at least four bytes whose first byte is not 0 is loaded, whatever its other bytes of
-- identification are: `map` is called on the loadable segments in the order of the table, up to the
-- first that fails, and the entry point is returned if none does.
pub load_elf_lem :
    {S : Type 0} (map : Segment → S → ℕ × S) (image : Image) (s : S)
    → 4 ≤ image.size
    → image.ehdr.e_ident 0 ≢ 0
    → let r : ℕ × S = run map (loads image.ehdr.e_phnum image.ehdr.e_phoff image) s in
      load_elf map image s ≡ (if r.0 == 0 then loaded image.ehdr.e_entry r.1 else failed r.0 r.1)
unfolding load_elf is_elf_format
load_elf_lem map image s big first =
    let a : ltb image.size 4 ≡ false = ground arith in
    let b : (image.ehdr.e_ident 0 == 0) ≡ false = ground arith in
    rw (a, b)
      (ap (λ r. if r.0 == 0 then loaded image.ehdr.e_entry r.1 else failed r.0 r.1)
        (load_segments-run map image.ehdr.e_phnum image.ehdr.e_phoff image s))
