-- ===== src/Fs/Dir/Samples.antt =====
-- A small disk.
use buaa_mips_os.Base.{ℕ, true, some, ◌==◌, leb, ◌&&◌, if◌then◌else◌}
use buaa_mips_os.Fs.{Server}

-- The root holds one block, 9, whose first file is called "hi".
abbrev pub disk_words : ℕ → ℕ → ℕ
disk_words b i =
    if (b == 1) && (i == 34)
    then 4096
    else if (b == 1) && (i == 35)
    then 1
    else if (b == 1) && (i == 36)
    then 9
    else if (b == 9) && (i == 0)
    then 0x6869_0000
    else 0

abbrev pub small_disk : Server
small_disk = record {
  super = some 64;
  bitmap = true;
  mapped = λ b. leb b 9;
  mem = disk_words;
  disk = λ b i. 0;
  room = 4;
}
