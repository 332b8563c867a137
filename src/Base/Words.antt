-- ===== src/Base/Words.antt =====
-- C's unsigned types: values wrap around at the width.
use buaa_mips_os.Base.{ℕ, ◌+◌, ◌-◌, ◌%◌}

-- `u_int` and `u_long` (32 bits), and `u_short` (16 bits).
abbrev pub u32 : ℕ → ℕ
u32 n = n % 0x1_0000_0000

abbrev pub u16 : ℕ → ℕ
u16 n = n % 0x1_0000

-- `a - b` in `u_int`.
abbrev pub sub32 : ℕ → ℕ → ℕ
sub32 a b = (a + 0x1_0000_0000 - b) % 0x1_0000_0000

-- `ROUNDDOWN(a, BY2PG)` and `ROUND(a, BY2PG)`.
abbrev pub rounddown : ℕ → ℕ
rounddown a = a - a % 4096

abbrev pub round : ℕ → ℕ
round a = rounddown (u32 (a + 4095))
