-- ===== src/Pmap/Tests.antt =====
-- Runs of the page functions on a small machine, and instances of what is proved of them.
use buaa_mips_os.Base.{◌≡◌, refl, some, arith}
use buaa_mips_os.Kernel.Samples.{sample}
use buaa_mips_os.Pmap.{Kern, page_alloc, page_remove, page_insert, va2pa, kaddr}
use buaa_mips_os.Pmap.Returns.{Returns}
use buaa_mips_os.Pmap.Boot.{PagesInit, page_init, page_init_lem}
use buaa_mips_os.Pmap.Free.{FreeOk, Allocates, page_alloc_lem}
use buaa_mips_os.Pmap.Remove.{SpaceOk, Removes, page_remove_lem}
use buaa_mips_os.Pmap.Entry.{Inserted, PageOk}
use buaa_mips_os.Pmap.Insert.{page_insert_lem}

sample-FreeOk : FreeOk sample
sample-FreeOk = record {
  distinct = refl;
  below = λ p m. ground arith;
  unref = λ p m. ground arith;
  small = omega arith;
  short = λ p. ground arith;
}

sample-SpaceOk : SpaceOk sample 1 0x40_0000
sample-SpaceOk = record {
  table_below = omega arith;
  table_apart = λ h. omega arith;
  page_below = λ h. omega arith;
  page_held = λ h. omega arith;
  page_ne_dir = λ h. omega arith;
  page_ne_table = λ h. omega arith;
  dir_used = refl;
  table_used = λ h. refl;
}

sample-PageOk : PageOk sample 7 0x400
sample-PageOk = record {
  exists = omega arith;
  used = refl;
  room = omega arith;
  flags = omega arith;
}

va2pa-sample : va2pa 1 0x40_0000 sample ≡ some (0x3000, sample)
unfolding va2pa kaddr
va2pa-sample = refl

page_alloc_lem_example : Returns (Allocates sample) (page_alloc sample)
page_alloc_lem_example = page_alloc_lem sample sample-FreeOk

-- Page 3 is unmapped and becomes free.
page_remove_lem_example :
    Returns (λ _ k'. Removes sample 1 0x40_0000 k') (page_remove 1 0x40_0000 sample)
page_remove_lem_example = page_remove_lem sample 1 0x40_0000 sample-FreeOk sample-SpaceOk

-- Page 7 takes the place of page 3.
page_insert_lem_example :
    Returns (Inserted sample 1 7 0x40_0000 0x400) (page_insert 1 7 0x40_0000 0x400 sample)
page_insert_lem_example =
    page_insert_lem sample 1 7 0x40_0000 0x400 sample-FreeOk sample-SpaceOk sample-PageOk

-- The kernel's memory ends in page 3.
abbrev at_boot : Kern
at_boot = record sample { freemem = 0x8000_3010 }

page_init_lem_example : Returns (λ _ k'. PagesInit at_boot 4 k') (page_init at_boot)
page_init_lem_example =
    page_init_lem at_boot (omega arith) (omega arith) (omega arith) (λ p. ground arith)
