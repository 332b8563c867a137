-- ===== src/Fork/Tests.antt =====
-- Instances of what is proved of `fork` and `pgfault`.
use buaa_mips_os.Base.{◌+◌, ◌<◌, ◌≡◌, refl, true, false, none, some, ◌==◌, if◌then◌else◌, arith}
use buaa_mips_os.Fork.{Perm, Mapping, Table, Memory, cow_perm, shared_perm, pgfault}
use buaa_mips_os.Fork.Fault.{CannotCopy, IsPrivate, pgfault_lem}

-- Page 5 is a data page, and page 6 a library page.
abbrev data_perm : Perm
data_perm = record { pte_v = true; pte_r = true; pte_library = false; pte_cow = false }

abbrev parent : Table
parent pn =
    if pn == 5
    then some (record { page = 40; perm = data_perm })
    else if pn == 6
    then some (record { page = 41; perm = shared_perm })
    else none

abbrev child : Table
child pn = none

abbrev memory : Memory
memory = record { content = λ page word. page + word; fresh = 50; room = 3 }

abbrev cow_mapping : Mapping
cow_mapping = record { page = 40; perm = cow_perm }

abbrev cow_table : Table
cow_table pn = if pn == 5 then some cow_mapping else none

pgfault_lem_example :
    ((cow_perm.pte_cow ≡ true) × (cow_perm.pte_v ≡ true) × (0 < memory.room)
      → IsPrivate 5 cow_mapping cow_table memory (pgfault 5 cow_table memory))
    × (CannotCopy cow_mapping memory → pgfault 5 cow_table memory ≡ none)
pgfault_lem_example = pgfault_lem 5 cow_mapping cow_table memory refl refl (omega arith)
