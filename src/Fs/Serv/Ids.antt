-- ===== src/Fs/Serv/Ids.antt =====
-- fs/serv.c: the file ids that `open_alloc` gives out.
use buaa_mips_os.Base.{
  ℕ, zero, suc, ◌+◌, ◌%◌, ◌<◌, ◌≡◌, ◌≢◌, refl, sym, ap, ◌∙◌, true, false, some, ◌==◌, if◌then◌else◌,
  arith, update, Bool-cases, inl, inr,
}
use buaa_mips_os.Base.Words.{u32}
use buaa_mips_os.Fs.{ok, fail, e_inval}
use buaa_mips_os.Fs.Serv.{
  Serve, maxopen, taken, granted, take_entry, new_entry, alloc_from, open_alloc, open_lookup,
  init_from, serve_init,
}

-- An id belongs to the entry that it names.
abbrev pub IsTable : Serve → Type 0
IsTable s = (i : ℕ) → i < maxopen → s.o_fileid i % maxopen ≡ i

-- Entry `k` is given out under an id.
abbrev GivenOut : Serve → ℕ → ℕ → Serve → Type 0
GivenOut s k id s' = (id ≡ u32 (s.o_fileid k + maxopen)) × (s'.o_fileid ≡ update s.o_fileid k id)

take_entry_lem :
    (k : ℕ) (s s' : Serve) (id : ℕ) → take_entry k s ≡ some (ok id, s') → GivenOut s k id s'
unfolding take_entry
take_entry_lem k s s' id run =
    let here : (k == k) ≡ true = ground arith in
    let new : (taken k s).o_fileid k ≡ id = cc in
    let end : taken k s ≡ s' = cc in
    let id' : u32 (s.o_fileid k + maxopen) ≡ id = rw here at new in
    (sym id', ap (λ t. t.o_fileid) (sym end) ∙ ap (update s.o_fileid k) id')

new_entry_lem :
    (k : ℕ) (s s' : Serve) (id : ℕ) → new_entry k s ≡ some (ok id, s') → GivenOut s k id s'
unfolding new_entry
new_entry_lem k s s' id run = elim (Bool-cases (s.fs.room == 0)) [
  | inl e ↦ absurd (ground (arith, e, run))
  | inr e ↦ take_entry_lem k (granted k s) s' id (rw e at run)
]

alloc_from_lem :
    (n i : ℕ) (s s' : Serve) (id : ℕ)
    → alloc_from n i s ≡ some (ok id, s')
    → (k : ℕ) × (k < i + n) × GivenOut s k id s'
unfolding alloc_from
alloc_from_lem zero i s s' id run = absurd (ground arith)
alloc_from_lem (suc n) i s s' id run = elim (Bool-cases (s.pageref i == 0)) [
  | inl e ↦ (i, omega arith, new_entry_lem i s s' id (rw e at run))
  | inr e ↦ elim (Bool-cases (s.pageref i == 1)) [
    | inl f ↦ (i, omega arith, take_entry_lem i s s' id (rw (e, f) at run))
    | inr f ↦
        let (k, below, given) = alloc_from_lem n (i + 1) s s' id (rw (e, f) at run) in
        (k, omega arith, given)
  ]
]

-- The table once the client has mapped the Filefd page too.
abbrev pub shared_with_client : Serve → ℕ → Serve
shared_with_client s id = record s { pageref = update s.pageref (id % maxopen) 2 }

-- What a file id that was just given out is good for.
abbrev pub IsFresh : Serve → ℕ → Serve → Type 0
IsFresh s id s' =
    IsTable s'
    × (open_lookup id (shared_with_client s' id) ≡ ok (id % maxopen))
    × (s.o_fileid (id % maxopen) ≢ id)
    × ((old : ℕ)
        → old % maxopen ≡ id % maxopen
        → old ≢ id
        → open_lookup old (shared_with_client s' id) ≡ fail e_inval)

-- The entry's id behind `open_alloc`.
slot :
    (s : Serve) (id k : ℕ)
    → IsTable s
    → k < maxopen
    → id ≡ u32 (s.o_fileid k + maxopen)
    → id % maxopen ≡ k
slot s id k table below new = omega (arith, table k below, new)

IsTable-kept :
    (s s' : Serve) (id k : ℕ)
    → IsTable s
    → id % maxopen ≡ k
    → s'.o_fileid ≡ update s.o_fileid k id
    → IsTable s'
IsTable-kept s s' id k table at ids i below = elim (Bool-cases (i == k)) [
  | inl e ↦ ap (λ t. t i % maxopen) ids ∙ rw e (ground (arith, at, e))
  | inr e ↦ ap (λ t. t i % maxopen) ids ∙ rw e (table i below)
]

lookup_mapped :
    (s : Serve) (id other : ℕ)
    → s.o_fileid (id % maxopen) ≡ id
    → other % maxopen ≡ id % maxopen
    → open_lookup other (shared_with_client s id)
      ≡ (if other == id then ok (id % maxopen) else fail e_inval)
unfolding open_lookup
lookup_mapped s id other at same =
    let here : (id % maxopen == id % maxopen) ≡ true = ground arith in
    rw (same, here, at)
      (elim (Bool-cases (other == id)) [
        | inl e ↦ let e' : (id == other) ≡ true = ground (arith, e) in rw (e, e') refl
        | inr e ↦ let e' : (id == other) ≡ false = ground (arith, e) in rw (e, e') refl
      ])

-- In a table whose ids name their entries, the id that `open_alloc` returns is new for its entry; once the
-- client has the page, `open_lookup` finds the entry by this id, and refuses every other id of the entry,
-- so a stale one too. The ids of the table still name their entries.
pub open_alloc-IsFresh :
    (s s' : Serve) (id : ℕ) → IsTable s → open_alloc s ≡ some (ok id, s') → IsFresh s id s'
unfolding open_alloc
open_alloc-IsFresh s s' id table run =
    let (k, below, (new, ids)) = alloc_from_lem maxopen 0 s s' id run in
    let at : id % maxopen ≡ k = slot s id k table (omega (arith, below)) new in
    let self : (k == k) ≡ true = ground arith in
    let now : s'.o_fileid (id % maxopen) ≡ id =
      ap s'.o_fileid at ∙ ap (λ t. t k) ids ∙ rw self refl in
    (
      IsTable-kept s s' id k table at ids,
      lookup_mapped s' id id now refl ∙ (let e : (id == id) ≡ true = ground arith in rw e refl),
      λ stale. absurd (omega (arith, new, sym stale ∙ ap s.o_fileid at)),
      λ old same other.
          lookup_mapped s' id old now same
          ∙ (let e : (old == id) ≡ false = ground (arith, other) in rw e refl),
    )

init_from_lem :
    (n i : ℕ) (s : Serve)
    → ((k : ℕ) → k < i → s.o_fileid k ≡ k)
    → (k : ℕ) → k < i + n
    → (init_from n i s).o_fileid k ≡ k
unfolding init_from
init_from_lem zero i s h k l = h k (omega arith)
init_from_lem (suc n) i s h k l =
    init_from_lem n (i + 1) (record s { o_fileid = update s.o_fileid i i })
      (λ j m. elim (Bool-cases (j == i)) [
        | inl e ↦ rw e (ground (arith, e))
        | inr e ↦ rw e (h j (ground (arith, e)))
      ])
      k (omega arith)

-- `serve_init` makes such a table.
pub serve_init-IsTable : (s : Serve) → IsTable (serve_init s)
unfolding serve_init
serve_init-IsTable s i l =
    omega (arith, init_from_lem maxopen 0 s (λ k m. absurd (omega arith)) i (omega arith))
