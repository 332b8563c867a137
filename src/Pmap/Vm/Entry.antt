-- ===== src/Pmap/Vm/Entry.antt =====
-- mm/pmap.c: one page that `boot_map_segment` maps.
use buaa_mips_os.Base.{
  ◌⊎◌, ℕ, ◌+◌, ◌*◌, ◌/◌, ◌%◌, ◌<◌, ◌≡◌, refl, sym, ◌∙◌, true, false, ◌&&◌, Option, none, some, ◌==◌,
  ltb, leb, if◌then◌else◌, bit_or, arith, Bool-cases, inl, inr,
}
use buaa_mips_os.Base.Bits.{bit_or_v, bit_or-ppn, bit_or-set_v}
use buaa_mips_os.Kernel.{Kern, store_word}
use buaa_mips_os.Pmap.{ppn, pte_v, pte_r, is_set, ulim}
use buaa_mips_os.Pmap.Vm.{boot_perm}
use buaa_mips_os.Pmap.Vm.Place.{new_page}

-- A word with the permissions is valid, and names the page that it named without them.
pub boot_perm-v : (x perm : ℕ) → is_set (boot_perm x perm) pte_v ≡ true
boot_perm-v x perm =
    let a : ℕ = bit_or (bit_or x perm) pte_v in
    let e : bit_or a pte_r / 0x200 % 2 ≡ 1 =
      omega (arith, bit_or_v a pte_r, bit_or-set_v (bit_or x perm)) in
    ground (arith, e)

pub boot_perm-ppn : (x perm : ℕ) → perm < 4096 → ppn (boot_perm x perm) ≡ ppn x
boot_perm-ppn x perm h =
    let a : ℕ = bit_or x perm in
    bit_or-ppn (bit_or a pte_v) pte_r (omega arith)
    ∙ bit_or-ppn a pte_v (omega arith)
    ∙ bit_or-ppn x perm h

pub table_entry-v : (x : ℕ) → is_set (bit_or (bit_or x pte_v) pte_r) pte_v ≡ true
table_entry-v x =
    let e : bit_or (bit_or x pte_v) pte_r / 0x200 % 2 ≡ 1 =
      omega (arith, bit_or_v (bit_or x pte_v) pte_r, bit_or-set_v x) in
    ground (arith, e)

table_entry-ppn : (x : ℕ) → ppn (bit_or (bit_or x pte_v) pte_r) ≡ ppn x
table_entry-ppn x =
    bit_or-ppn (bit_or x pte_v) pte_r (omega arith) ∙ bit_or-ppn x pte_v (omega arith)

-- The entry behind a directory entry and a table entry, if both are valid.
abbrev pub entry_at : Kern → ℕ → ℕ → ℕ → Option ℕ
entry_at k pgdir d t =
    if is_set (k.mem pgdir d) pte_v
    then if is_set (k.mem (ppn (k.mem pgdir d)) t) pte_v
      then some (k.mem (ppn (k.mem pgdir d)) t)
      else none
    else none

-- The directory and its tables are pages of their own below `top`, where the memory given out ends.
pub record BootOk (k : Kern) (pgdir top : ℕ) : Type 0 where
  pub npage : k.npage ≡ 0x4000
  pub freemem : k.freemem ≡ ulim + top * 4096
  pub dir : pgdir < top
  pub named : (d : ℕ) → d < 1024 → ppn (k.mem pgdir d) < 0x4000
  pub below : (d : ℕ) → d < 1024 → is_set (k.mem pgdir d) pte_v ≡ true → ppn (k.mem pgdir d) < top
  pub other :
      (d : ℕ)
      → d < 1024
      → is_set (k.mem pgdir d) pte_v ≡ true
      → (ppn (k.mem pgdir d) == pgdir) ≡ false
  pub apart :
      (d d' : ℕ)
      → d < 1024
      → d' < 1024
      → is_set (k.mem pgdir d) pte_v ≡ true
      → is_set (k.mem pgdir d') pte_v ≡ true
      → ppn (k.mem pgdir d) ≡ ppn (k.mem pgdir d')
      → d ≡ d'

-- The state with a table for a directory entry that had none, and the state with an entry.
abbrev pub with_table : ℕ → ℕ → ℕ → Kern → Kern
with_table top pgdir d k =
    store_word pgdir d (bit_or (bit_or (top * 4096) pte_v) pte_r) (new_page top k)

-- One more entry, and nothing else.
abbrev pub Enters : Kern → ℕ → ℕ → ℕ → ℕ → Kern → Type 0
Enters k pgdir d t w k' =
    (d' t' : ℕ)
    → d' < 1024
    → t' < 1024
    → entry_at k' pgdir d' t' ≡ (if (d' == d) && (t' == t) then some w else entry_at k pgdir d' t')

module _ (k : Kern) (pgdir top : ℕ) (o : BootOk k pgdir top) (d t : ℕ) (dlt : d < 1024)
    (tlt : t < 1024) where
  -- The table is there.
  module _ (w : ℕ) (v : is_set w pte_v ≡ true) (here : is_set (k.mem pgdir d) pte_v ≡ true) where
    abbrev pub stored : Kern
    stored = store_word (ppn (k.mem pgdir d)) t w k

    dir_kept : (i : ℕ) → stored.mem pgdir i ≡ k.mem pgdir i
    dir_kept i = ground (arith, o.other d dlt here)

    pub stored-BootOk : BootOk stored pgdir top
    stored-BootOk = record {
      npage = o.npage;
      freemem = o.freemem;
      dir = o.dir;
      named = λ d' h. rw (dir_kept d') (o.named d' h);
      below = λ d' h. rw (dir_kept d') (o.below d' h);
      other = λ d' h. rw (dir_kept d') (o.other d' h);
      apart = λ d' d'' h h'. rw (dir_kept d', dir_kept d'') (o.apart d' d'' h h');
    }

    pub stored-Enters : Enters k pgdir d t w stored
    stored-Enters d' t' lt lt' =
        rw (dir_kept d') (elim (Bool-cases (is_set (k.mem pgdir d') pte_v)) [
          | inl set ↦ elim (Bool-cases (d' == d)) [
            | inl e ↦ let same : d' ≡ d = ground (arith, e) in ground (arith, same, here, v)
            | inr e ↦
                let far : (ppn (k.mem pgdir d') == ppn (k.mem pgdir d)) ≡ false =
                  ground (arith, e, o.apart d' d lt dlt set here) in
                ground (arith, far, e, set)
          ]
          | inr unset ↦
              let e : (d' == d) ≡ false = ground (arith, unset, here) in ground (arith, unset, e)
        ])

  -- The table is new.
  module _ (absent : is_set (k.mem pgdir d) pte_v ≡ false) (room : top + 1 < 0x4000) where
    abbrev pub new_entry : ℕ
    new_entry = bit_or (bit_or (top * 4096) pte_v) pte_r

    abbrev pub tabled : Kern
    tabled = with_table top pgdir d k

    pub new_entry-ppn : ppn new_entry ≡ top
    new_entry-ppn = table_entry-ppn (top * 4096) ∙ omega arith

    page_kept : (p i : ℕ) → p < top → i < 1024 → (new_page top k).mem p i ≡ k.mem p i
    page_kept p i h lt =
        let out : (leb (top * 4096) (p * 4096 + i * 4)
              && ltb (p * 4096 + i * 4) (top * 4096 + 4096))
            ≡ false =
          ground arith in
        rw out refl

    page_zero : (i : ℕ) → i < 1024 → tabled.mem top i ≡ 0
    page_zero i lt =
        let far : (top == pgdir) ≡ false = ground (arith, o.dir) in
        let inside : (leb (top * 4096) (top * 4096 + i * 4)
              && ltb (top * 4096 + i * 4) (top * 4096 + 4096))
            ≡ true =
          ground arith in
        rw (far, inside) refl

    pub row :
        (i : ℕ) → i < 1024 → tabled.mem pgdir i ≡ (if i == d then new_entry else k.mem pgdir i)
    row i lt =
        let here : (pgdir == pgdir) ≡ true = ground arith in
        rw (here, page_kept pgdir i o.dir lt) refl

    table_kept : (p i : ℕ) → p < top → (p == pgdir) ≡ false → i < 1024 → tabled.mem p i ≡ k.mem p i
    table_kept p i h far lt = rw (far, page_kept p i h lt) refl

    -- An entry of the directory: the new one, or an old one.
    row-cases :
        (i : ℕ)
        → i < 1024
        → ((i ≡ d) × (tabled.mem pgdir i ≡ new_entry))
          ⊎ (((i == d) ≡ false) × (tabled.mem pgdir i ≡ k.mem pgdir i))
    row-cases i lt = elim (Bool-cases (i == d)) [
      | inl e ↦ inl (ground (arith, e), row i lt ∙ rw e refl)
      | inr e ↦ inr (e, row i lt ∙ rw e refl)
    ]

    pub tabled-BootOk : BootOk tabled pgdir (top + 1)
    tabled-BootOk = record {
      npage = o.npage;
      freemem = refl;
      dir = omega (arith, o.dir);
      named = λ i lt. elim (row-cases i lt) [
        | inl (e, f) ↦ rw (f, new_entry-ppn) (omega (arith, room))
        | inr (e, f) ↦ rw f (o.named i lt)
      ];
      below = λ i lt h. elim (row-cases i lt) [
        | inl (e, f) ↦ rw (f, new_entry-ppn) (omega arith)
        | inr (e, f) ↦ rw f (omega (arith, o.below i lt (rw f at h)))
      ];
      other = λ i lt h. elim (row-cases i lt) [
        | inl (e, f) ↦ rw (f, new_entry-ppn) (ground (arith, o.dir))
        | inr (e, f) ↦ rw f (o.other i lt (rw f at h))
      ];
      apart = λ i j lt lt' h h' q. elim (row-cases i lt) [
        | inl (e, f) ↦ elim (row-cases j lt') [
          | inl (e', f') ↦ e ∙ sym e'
          | inr (e', f') ↦
              let less : ppn (k.mem pgdir j) < top = o.below j lt' (rw f' at h') in
              let both : top ≡ ppn (k.mem pgdir j) = rw (f, f', new_entry-ppn) at q in
              absurd (omega (arith, less, both))
        ]
        | inr (e, f) ↦ elim (row-cases j lt') [
          | inl (e', f') ↦
              let less : ppn (k.mem pgdir i) < top = o.below i lt (rw f at h) in
              let both : ppn (k.mem pgdir i) ≡ top = rw (f, f', new_entry-ppn) at q in
              absurd (omega (arith, less, both))
          | inr (e', f') ↦ o.apart i j lt lt' (rw f at h) (rw f' at h') (rw (f, f') at q)
        ]
      ];
    }

    pub tabled-entry_at :
        (d' t' : ℕ) → d' < 1024 → t' < 1024 → entry_at tabled pgdir d' t' ≡ entry_at k pgdir d' t'
    tabled-entry_at d' t' lt lt' = elim (row-cases d' lt) [
      | inl (e, f) ↦
          rw (f, new_entry-ppn, table_entry-v (top * 4096), page_zero t' lt', e, absent) refl
      | inr (e, f) ↦ elim (Bool-cases (is_set (k.mem pgdir d') pte_v)) [
        | inl set ↦
            rw
              (
                f,
                set,
                table_kept (ppn (k.mem pgdir d')) t' (o.below d' lt set) (o.other d' lt set) lt',
              )
              refl
        | inr unset ↦ rw (f, unset) refl
      ]
    ]
