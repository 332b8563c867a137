-- ===== src/Env/Load/Space.antt =====
-- The address space of an environment below UTOP, as a memory of words: what of the kernel's pages it
-- stands on, and what else may be in memory beside it.
use buaa_mips_os.Base.{
  ℕ, ◌<◌, ◌≡◌, refl, true, false, Option, none, some, ◌==◌, contains, Bool-cases, inl, inr, arith,
}
use buaa_mips_os.Kernel.{Kern}
use buaa_mips_os.Pmap.{pdx, ptx, ppn, pte_v, is_set}
use buaa_mips_os.Pmap.Free.{FreeOk}
use buaa_mips_os.Pmap.Walk.{has_table, pte}
use buaa_mips_os.Pmap.Remove.{SpaceOk, mapped}
use buaa_mips_os.Pmap.Vm.Entry.{entry_at}
use buaa_mips_os.Env.{pdx_utop}

-- Word `i` of the page that an entry maps, and of the page that entry `t` of table `d` maps.
abbrev pub word_of : Kern → Option ℕ → ℕ → Option ℕ
word_of k none i = none
word_of k (some w) i = some (k.mem (ppn w) i)

abbrev pub word_at : Kern → ℕ → ℕ → ℕ → ℕ → Option ℕ
word_at k pgdir d t i = word_of k (entry_at k pgdir d t) i

-- The directory and its tables are used, and are pages of their own.
pub record TablesOk (k : Kern) (pgdir : ℕ) : Type 0 where
  pub free : FreeOk k
  pub dir_used : contains k.page_free_list pgdir ≡ false
  pub named : (d : ℕ) → d < pdx_utop → ppn (k.mem pgdir d) < k.npage
  pub other :
      (d : ℕ)
      → d < pdx_utop
      → is_set (k.mem pgdir d) pte_v ≡ true
      → (ppn (k.mem pgdir d) == pgdir) ≡ false
  pub used :
      (d : ℕ)
      → d < pdx_utop
      → is_set (k.mem pgdir d) pte_v ≡ true
      → contains k.page_free_list (ppn (k.mem pgdir d)) ≡ false
  pub apart :
      (d d' : ℕ)
      → d < pdx_utop
      → d' < pdx_utop
      → is_set (k.mem pgdir d) pte_v ≡ true
      → is_set (k.mem pgdir d') pte_v ≡ true
      → ppn (k.mem pgdir d) ≡ ppn (k.mem pgdir d')
      → d ≡ d'

-- A page that is used, and neither the directory nor a table.
pub record Outside (k : Kern) (pgdir p : ℕ) : Type 0 where
  pub not_dir : (p == pgdir) ≡ false
  pub not_free : contains k.page_free_list p ≡ false
  pub not_table :
      (d : ℕ)
      → d < pdx_utop
      → is_set (k.mem pgdir d) pte_v ≡ true
      → (ppn (k.mem pgdir d) == p) ≡ false

-- Every page that is mapped is such a page.
abbrev pub PagesOk : Kern → ℕ → Type 0
PagesOk k pgdir =
    (d t w : ℕ) → d < pdx_utop → t < 1024 → entry_at k pgdir d t ≡ some w → Outside k pgdir (ppn w)

pub record UserOk (k : Kern) (pgdir : ℕ) : Type 0 where
  pub tables : TablesOk k pgdir
  pub pages : PagesOk k pgdir

-- Pages outside keep their words, and stay outside.
abbrev pub Spares : Kern → ℕ → Kern → Type 0
Spares k pgdir k' =
    (p : ℕ) → Outside k pgdir p → Outside k' pgdir p × ((i : ℕ) → i < 1024 → k'.mem p i ≡ k.mem p i)

-- A word is mapped only where its entry is.
pub word_of-none : (k : Kern) (o : Option ℕ) (i : ℕ) → word_of k o i ≡ none → o ≡ none
word_of-none k none i h = refl
word_of-none k (some w) i h = absurd (cc)

pub entry_at-mapped :
    (k : Kern) (pgdir va : ℕ)
    → entry_at k pgdir (pdx va) (ptx va) ≡ none
    → mapped k pgdir va ≡ false
entry_at-mapped k pgdir va h = elim (Bool-cases (has_table k pgdir va)) [
  | inr t ↦ rw t refl
  | inl t ↦ elim (Bool-cases (is_set (pte k pgdir va) pte_v)) [
    | inr v ↦ rw (t, v) refl
    | inl v ↦ absurd (ground (arith, h, t, v))
  ]
]

-- What `page_insert` asks for, at an address that is not mapped.
pub UserOk-SpaceOk :
    (k : Kern) (pgdir va : ℕ)
    → TablesOk k pgdir
    → pdx va < pdx_utop
    → mapped k pgdir va ≡ false
    → SpaceOk k pgdir va
UserOk-SpaceOk k pgdir va o lt m = record {
  table_below = o.named (pdx va) lt;
  table_apart = λ h. ground (arith, o.other (pdx va) lt h);
  page_below = λ h. absurd (cc);
  page_held = λ h. absurd (cc);
  page_ne_dir = λ h. absurd (cc);
  page_ne_table = λ h. absurd (cc);
  dir_used = o.dir_used;
  table_used = λ h. o.used (pdx va) lt h;
}
