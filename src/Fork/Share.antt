-- ===== src/Fork/Share.antt =====
-- user/fork.c: what a process and its child share after `fork`.
use buaa_mips_os.Base.{ℕ, ◌≡◌, Bool, true, false, ◌⊎◌, ◌&&◌, Option, none, some, if◌then◌else◌}
use buaa_mips_os.Fork.{Perm, Mapping, Pair, duppage}

-- Whether a store to the page goes through without a fault.
abbrev pub is_writable : Perm → Bool
is_writable p = p.pte_v && (p.pte_r && (if p.pte_cow then false else true))

-- A page that the parent can write, or could but for copy-on-write.
abbrev pub WasWritable : Perm → Type 0
WasWritable m = (m.pte_v ≡ true) × ((m.pte_r ≡ true) ⊎ (m.pte_cow ≡ true))

-- What a process may do with the page: both can write it and it is a library page, or neither can, and a store
-- faults as copy-on-write, or the permissions are as they were.
abbrev pub Permitted : Perm → Perm → Type 0
Permitted m p =
    (WasWritable m × (m.pte_library ≡ true) × (is_writable p ≡ true) × (p.pte_library ≡ true))
    ⊎ (WasWritable m
        × (m.pte_library ≡ false)
        × (is_writable p ≡ false)
        × (p.pte_v ≡ true)
        × (p.pte_cow ≡ true)
        × (p.pte_library ≡ false))
    ⊎ ((WasWritable m → ⊥) × (p ≡ m))

-- After `fork`: the page is mapped to the same page in both, with the same permissions.
abbrev pub Forked : Option Mapping → Option Mapping → Option Mapping → Type 0
Forked none parent child = parent ≡ none
Forked (some m) parent child =
    (p : Perm) × (parent ≡ some (record { page = m.page; perm = p }))
    × (child ≡ some (record { page = m.page; perm = p }))
    × Permitted m.perm p

-- A round of the loop of `fork`.
abbrev round : ℕ → Pair → Pair
round pn t = elim (t.parent pn) [ none ↦ t | some m ↦ duppage pn m t ]
