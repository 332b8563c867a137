-- ===== src/Copy/Tests.antt =====
-- Instances of what is proved of the copies.
use buaa_mips_os.Base.{ℕ, ◌≡◌, inr, true, ◌&&◌, arith}
use buaa_mips_os.Copy.{is_aligned, bcopy, user_bcopy}
use buaa_mips_os.Copy.Bytes.{IsMoved, bcopy_lem}

abbrev memory : ℕ → ℕ
memory a = a

bcopy_lem_example :
    IsMoved 0x100 0x200 7 memory (user_bcopy 0x100 0x200 7 memory)
    × ((is_aligned 0x100 && is_aligned 0x200) ≡ true
        → IsMoved 0x100 0x200 7 memory (bcopy 0x100 0x200 7 memory))
bcopy_lem_example = bcopy_lem 0x100 0x200 7 memory (inr (omega arith))
