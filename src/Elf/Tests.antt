-- ===== src/Elf/Tests.antt =====
-- A run of the loader.
use buaa_mips_os.Base.{ℕ, ◌≡◌, ◌==◌, List, [], ◌∷◌, if◌then◌else◌, refl}
use buaa_mips_os.Elf.{load_segments, is_elf_format, Image, Segment, loaded, load_elf}

-- One segment of 100 bytes at 0x400000, behind an entry of another type.
abbrev image : Image
image = record {
  size = 5000;
  ehdr = record {
    e_ident = λ i. if i == 0 then 0x7f else 0;
    e_entry = 0x40_0010;
    e_phoff = 52;
    e_phentsize = 32;
    e_phnum = 2;
  };
  phdr_at = λ ptr. record {
    p_type = if ptr == 84 then 1 else 0x7000_0000;
    p_offset = 4096;
    p_vaddr = 0x40_0000;
    p_filesz = 100;
    p_memsz = 100;
  };
}

-- The callback that notes the addresses.
abbrev note : Segment → List ℕ → ℕ × List ℕ
note x s = (0, x.va ∷ s)

load_elf-image : load_elf note image [] ≡ loaded 0x40_0010 (0x40_0000 ∷ [])
unfolding load_elf is_elf_format load_segments
load_elf-image = refl
