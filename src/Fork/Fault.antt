-- ===== src/Fork/Fault.antt =====
-- user/fork.c: the copy that a process gets of a copy-on-write page.
use buaa_mips_os.Base.{
  ℕ, ◌<◌, ◌≡◌, ◌≢◌, refl, sym, ap, ◌∙◌, true, false, not, ◌⊎◌, update, ◌||◌, Option, none, some,
  ◌==◌, if◌then◌else◌, arith, Bool-cases, inl, inr,
}
use mathlib.Core.Path.{subst}
use buaa_mips_os.Fork.{
  Perm, Mapping, Table, Memory, copy_on_write, pgfault, temp, alloc_temp, copy_page, replace_page,
  copy_back, without_cow, with_temp, with_fresh,
}

-- What `pgfault` leaves: at the faulting page a new page with the old one's content and its permissions but for
-- PTE_COW; nothing at the page where it makes the copy; and every other mapping, and the content of every
-- page that was in use, as before.
abbrev pub IsPrivate : ℕ → Mapping → Table → Memory → Option (Table × Memory) → Type 0
IsPrivate pn m t mem none = ⊥
IsPrivate pn m t mem (some (t', mem')) =
    (t' pn ≡ some (record { page = mem.fresh; perm = without_cow m.perm }))
    × (mem.fresh ≢ m.page)
    × (mem'.content mem.fresh ≡ mem.content m.page)
    × ((page : ℕ) → page < mem.fresh → mem'.content page ≡ mem.content page)
    × (t' temp ≡ none)
    × ((other : ℕ) → other ≢ pn → other ≢ temp → t' other ≡ t other)

-- The table and the memory that `pgfault` leaves.
abbrev private_table : ℕ → Mapping → Table → Memory → Table
private_table pn m t mem =
    update
      (update (with_temp (without_cow m.perm) t mem) pn
        (some (record { page = mem.fresh; perm = without_cow m.perm })))
      temp none

abbrev private_memory : Mapping → Memory → Memory
private_memory m mem =
    let new : Memory = with_fresh mem in
    record new { content = update new.content mem.fresh (new.content m.page) }

own_copy-IsPrivate :
    (pn : ℕ) (m : Mapping) (t : Table) (mem : Memory)
    → (pn == temp) ≡ false
    → m.page < mem.fresh
    → IsPrivate pn m t mem (some (private_table pn m t mem, private_memory m mem))
own_copy-IsPrivate pn m t mem far used =
    let self : (pn == pn) ≡ true = ground arith in
    let new : (mem.fresh == mem.fresh) ≡ true = ground arith in
    let old : (m.page == mem.fresh) ≡ false = ground (arith, used) in
    (
      rw (far, self) refl,
      omega (arith, used),
      rw (new, old) refl,
      λ page l. let other : (page == mem.fresh) ≡ false = ground (arith, l) in rw other refl,
      refl,
      λ other ne ne'.
          let a : (other == pn) ≡ false = ground (arith, ne) in
          let b : (other == temp) ≡ false = ground (arith, ne') in rw (a, b) refl,
    )

copy_back_lem :
    (pn : ℕ) (m : Mapping) (t : Table) (mem : Memory)
    → t pn ≡ some m
    → (pn == temp) ≡ false
    → copy_back pn (without_cow m.perm) (with_temp (without_cow m.perm) t mem) (with_fresh mem)
      ≡ some (private_table pn m t mem, private_memory m mem)
unfolding copy_back copy_page replace_page
copy_back_lem pn m t mem at far =
    let t' : Table = with_temp (without_cow m.perm) t mem in
    let from : t' pn ≡ some m = rw far at in
    ap
      (λ o. elim (copy_page o (t' temp) (with_fresh mem)) as (λ _. Option (Table × Memory)) [
        | none ↦ none
        | some mem' ↦ some (replace_page pn (without_cow m.perm) t' (t' temp), mem')
      ])
      from

mem_alloc_lem :
    (perm : Perm) (t : Table) (mem : Memory)
    → perm.pte_cow ≡ false
    → perm.pte_v ≡ true
    → (mem.room == 0) ≡ false
    → alloc_temp perm t mem ≡ some (with_temp perm t mem, with_fresh mem)
unfolding alloc_temp
mem_alloc_lem perm t mem cow valid room =
    let good : (perm.pte_cow || not perm.pte_v) ≡ false = ground (arith, cow, valid) in
    ap
      (λ b.
        if b
        then none
        else if mem.room == 0
        then none
        else some (with_temp perm t mem, with_fresh mem))
      good
    ∙ ap (λ b. if b then none else some (with_temp perm t mem, with_fresh mem)) room

copy_on_write_lem :
    (pn : ℕ) (m : Mapping) (t : Table) (mem : Memory)
    → t pn ≡ some m
    → (pn == temp) ≡ false
    → m.perm.pte_cow ≡ true
    → m.perm.pte_v ≡ true
    → (mem.room == 0) ≡ false
    → copy_on_write pn m t mem ≡ some (private_table pn m t mem, private_memory m mem)
unfolding copy_on_write
copy_on_write_lem pn m t mem at far cow valid room =
    let back : Option (Table × Memory) → Option (Table × Memory) = λ o.
      elim o as (λ _. Option (Table × Memory)) [
        | none ↦ none
        | some (t', mem') ↦ copy_back pn (without_cow m.perm) t' mem'
      ] in
    ap (λ b. if not b then none else back (alloc_temp (without_cow m.perm) t mem)) cow
    ∙ ap back (mem_alloc_lem (without_cow m.perm) t mem refl valid room)
    ∙ copy_back_lem pn m t mem at far

-- When `pgfault` cannot make a copy.
abbrev pub CannotCopy : Mapping → Memory → Type 0
CannotCopy m mem = (m.perm.pte_cow ≡ false) ⊎ (m.perm.pte_v ≡ false) ⊎ (mem.room ≡ 0)

module _ (pn : ℕ) (m : Mapping) (t : Table) (mem : Memory) (at : t pn ≡ some m) where
  pgfault-mapped : pgfault pn t mem ≡ copy_on_write pn m t mem
  unfolding pgfault
  pgfault-mapped =
      ap
        (λ o. elim o as (λ _. Option (Table × Memory)) [
          | none ↦ none
          | some m ↦ copy_on_write pn m t mem
        ])
        at

  cannot_copy : CannotCopy m mem → copy_on_write pn m t mem ≡ none
  unfolding copy_on_write alloc_temp
  cannot_copy (inl c) = rw c refl
  cannot_copy (inr (inl v)) = elim (Bool-cases m.perm.pte_cow) [
    | inl c ↦ rw (c, v) refl
    | inr c ↦ rw c refl
  ]
  cannot_copy (inr (inr full)) = elim (Bool-cases m.perm.pte_cow) [
    | inl c ↦ elim (Bool-cases m.perm.pte_v) [
      | inl v ↦ rw (c, v, full) refl
      | inr v ↦ rw (c, v) refl
    ]
    | inr c ↦ rw c refl
  ]

  -- `pgfault` on a page that is mapped, other than the one at 0x50000000 where it makes the copy. On a
  -- copy-on-write page that is valid, while a page can be had, the process gets a copy of its own with the
  -- permissions but for PTE_COW, and the page that it shared stays as it is; what was mapped at
  -- 0x50000000 is lost. On any other page, and without memory, it panics.
  pub pgfault_lem :
      (pn == temp) ≡ false
      → m.page < mem.fresh
      → ((m.perm.pte_cow ≡ true) × (m.perm.pte_v ≡ true) × (0 < mem.room)
          → IsPrivate pn m t mem (pgfault pn t mem))
        × (CannotCopy m mem → pgfault pn t mem ≡ none)
  pgfault_lem far used = (
    λ (cow, valid, room).
        subst (IsPrivate pn m t mem)
          (sym
            (pgfault-mapped ∙ copy_on_write_lem pn m t mem at far cow valid (ground (arith, room))))
          (own_copy-IsPrivate pn m t mem far used),
    λ h. pgfault-mapped ∙ cannot_copy h,
  )
