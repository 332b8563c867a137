-- ===== src/Env/Load/Tests.antt =====
-- An image of six bytes, and an instance of what is proved of its loading.
use buaa_mips_os.Base.{◌/◌, ℕ, ◌+◌, ◌*◌, ◌≡◌, refl, ◌==◌, ◌&&◌, if◌then◌else◌, arith}
use buaa_mips_os.Kernel.{Kern}
use buaa_mips_os.Kernel.Samples.{sample, sample_words}
use buaa_mips_os.Pmap.{ppn}
use buaa_mips_os.Pmap.Returns.{Returns}
use buaa_mips_os.Elf.{Image, Segment, loads}
use buaa_mips_os.Env.Load.{load_icode_mapper, rounds_to, run_elf}
use buaa_mips_os.Env.Load.Space.{UserOk}
use buaa_mips_os.Env.Load.Words.{image_word, ImageOutside}
use buaa_mips_os.Env.Load.Loop.{Filled, Ready}
use buaa_mips_os.Env.Load.Mapper.{load_icode_mapper_lem}
use buaa_mips_os.Env.Load.Segments.{SegmentsOk, Alone}
use buaa_mips_os.Env.Load.Program.{ElfSays, run_elf_lem}

-- The image is the two words at the start of page 7.
abbrev machine : Kern
machine = record sample {
  mem = λ p i.
      if (p == 7) && (i == 0)
      then 0x1122_3344
      else if (p == 7) && (i == 1)
      then 0x5566_7788
      else sample_words p i;
}

abbrev six_bytes : ℕ → Segment
six_bytes va = record { va = va; sgsize = 6; bin = 0; bin_size = 6 }

machine-UserOk : UserOk machine 1
machine-UserOk = record {
  tables = record {
    free = record {
      distinct = refl;
      below = λ p m. ground arith;
      unref = λ p m. ground arith;
      small = omega arith;
      short = λ p. ground arith;
    };
    dir_used = refl;
    named = λ d lt. ground arith;
    other = λ d lt h. ground arith;
    used = λ d lt h. ground arith;
    apart = λ d d' lt lt' h h' q. ground arith;
  };
  pages = λ d t w dlt tlt h.
      let at : ppn w ≡ 3 = ground (arith, h) in
      rw at (record { not_dir = refl; not_free = refl; not_table = λ d lt h. ground arith });
}

machine-Ready : Ready machine 0 1 0x40_1000 (rounds_to 6)
machine-Ready = record {
  dir = refl;
  user = machine-UserOk;
  whole = refl;
  fits = omega arith;
  unmapped = λ d t dlt tlt c. ground (arith, c);
}

image-ImageOutside : ImageOutside machine 1 (7 * 4096 + 0) 6
image-ImageOutside x lt =
    let at : (7 * 4096 + 0 + x) / 4096 ≡ 7 = omega arith in
    rw at (record { not_dir = refl; not_free = refl; not_table = λ d lt h. ground arith })

load_icode_mapper_lem_example :
    Returns
      (Filled machine 1 0x40_1000
        (rounds_to 6)
        (λ j i. image_word machine (7 * 4096 + 0) 6 (j * 4096 + i * 4)))
      (load_icode_mapper 0 (7 * 4096) (six_bytes 0x40_1000) machine)
load_icode_mapper_lem_example =
    load_icode_mapper_lem machine 0 1 (7 * 4096) (six_bytes 0x40_1000) (omega arith) refl
      image-ImageOutside machine-Ready

-- An image with that segment alone.
abbrev program : Image
program = record {
  size = 6;
  ehdr = record {
    e_ident = λ i. if i == 0 then 0x7f else 0;
    e_entry = 0x40_1004;
    e_phoff = 52;
    e_phentsize = 32;
    e_phnum = 1;
  };
  phdr_at =
      λ ptr. record { p_type = 1; p_offset = 0; p_vaddr = 0x40_1000; p_filesz = 6; p_memsz = 6 };
}

program-SegmentsOk : SegmentsOk machine 0 1 (7 * 4096) (loads 1 52 program)
unfolding SegmentsOk Alone
program-SegmentsOk = (
  record {
    small = omega arith;
    aligned = refl;
    outside = image-ImageOutside;
    ready = machine-Ready;
  },
  tt,
  tt,
)

run_elf_lem_example :
    Returns (ElfSays machine 1 0xdead 0x7000 program) (run_elf 0xdead 0 0x7000 program machine)
run_elf_lem_example =
    run_elf_lem machine 0 1 0xdead 0x7000 program machine-UserOk (omega arith) (omega arith)
      program-SegmentsOk
