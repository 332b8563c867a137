-- ===== src/Strings.antt =====
-- user/string.c. A C string is the list of its characters before the NUL; memory is a function from
-- addresses to bytes.
use buaa_mips_os.Base.{
  ◌⊎◌, ℕ, zero, suc, ◌+◌, ◌-◌, ◌≤◌, ◌≡◌, ◌↔◌, refl, true, false, ◌&&◌, Option, none, some, List, [],
  ◌∷◌, ◌++◌, ◌==◌, ltb, leb, if◌then◌else◌, arith, update, contains, Bool-cases, inl, inr, ap,
}

pub strlen : List ℕ → ℕ
strlen [] = 0
strlen (c ∷ s) = strlen s + 1

-- -1, 0 and 1.
pub data Cmp : Type 0 where
  less : Cmp
  same : Cmp
  greater : Cmp

pub strcmp : List ℕ → List ℕ → Cmp
strcmp [] [] = same
strcmp [] (d ∷ q) = less
strcmp (c ∷ p) [] = greater
strcmp (c ∷ p) (d ∷ q) =
    let rest : Cmp = strcmp p q in if c == d then rest else if ltb c d then less else greater

-- The rest of the string from the first `c` on; `none` is NULL.
pub strchr : List ℕ → ℕ → Option (List ℕ)
strchr [] c = none
strchr (d ∷ s) c = let rest : Option (List ℕ) = strchr s c in if d == c then some (d ∷ s) else rest

-- `n` rounds of `*dest++ = *src++`.
pub memcpy : ℕ → ℕ → ℕ → (ℕ → ℕ) → ℕ → ℕ
memcpy zero dest src mem = mem
memcpy (suc n) dest src mem = memcpy n (dest + 1) (src + 1) (update mem dest (mem src))

-- The other sign.
abbrev pub opposite : Cmp → Cmp
opposite less = greater
opposite same = same
opposite greater = less

strcmp_refl : (p : List ℕ) → strcmp p p ≡ same
unfolding strcmp
strcmp_refl [] = refl
strcmp_refl (c ∷ p) = let e : (c == c) ≡ true = ground arith in rw e (strcmp_refl p)

strcmp_eq : (p q : List ℕ) → strcmp p q ≡ same → p ≡ q
unfolding strcmp
strcmp_eq [] [] h = refl
strcmp_eq [] (d ∷ q) h = absurd (cc)
strcmp_eq (c ∷ p) [] h = absurd (cc)
strcmp_eq (c ∷ p) (d ∷ q) h = ground (arith, strcmp_eq p q)

strcmp_swap : (p q : List ℕ) → strcmp q p ≡ opposite (strcmp p q)
unfolding strcmp
strcmp_swap [] [] = refl
strcmp_swap [] (d ∷ q) = refl
strcmp_swap (c ∷ p) [] = refl
strcmp_swap (c ∷ p) (d ∷ q) = ground (arith, strcmp_swap p q)

-- `memcpy` of areas that do not overlap: the bytes at `dest` are those at `src`, and no other byte
-- changes.
memcpy_lem :
    (n dest src : ℕ) (mem : ℕ → ℕ)
    → (dest + n ≤ src) ⊎ (src + n ≤ dest)
    → (a : ℕ)
    → memcpy n dest src mem a
      ≡ (if leb dest a && ltb a (dest + n) then mem (a - dest + src) else mem a)
unfolding memcpy
memcpy_lem zero dest src mem apart a = ground arith
memcpy_lem (suc n) dest src mem apart a =
    grind (arith, memcpy_lem n (dest + 1) (src + 1) (update mem dest (mem src)) (ground arith) a)

-- `strcmp` gives 0 for equal strings and for no others, and the opposite sign for the strings
-- exchanged.
strcmp_lem : (p q : List ℕ) → ((strcmp p q ≡ same) ↔ (p ≡ q)) × (strcmp q p ≡ opposite (strcmp p q))
strcmp_lem p q = ((strcmp_eq p q, λ e. rw e (strcmp_refl q)), strcmp_swap p q)

-- What `strchr` promises of its result.
abbrev pub Finds : List ℕ → ℕ → Option (List ℕ) → Type 0
Finds s c none = contains s c ≡ false
Finds s c (some t) =
    (before : List ℕ) × (rest : List ℕ) × (t ≡ c ∷ rest)
    × (s ≡ before ++ t)
    × (contains before c ≡ false)

Finds-suc :
    (d : ℕ) (s : List ℕ) (c : ℕ) (r : Option (List ℕ))
    → (d == c) ≡ false
    → Finds s c r
    → Finds (d ∷ s) c r
Finds-suc d s c none other h = ground arith
Finds-suc d s c (some t) other (before, rest, e, split, out) =
    (d ∷ before, rest, e, ap (λ x. d ∷ x) split, ground arith)

-- What `strchr` returns begins with the character, and is the rest of the string behind a part
-- without it; it is NULL where the string has no such character.
strchr_lem : (s : List ℕ) (c : ℕ) → Finds s c (strchr s c)
unfolding strchr
strchr_lem [] c = refl
strchr_lem (d ∷ s) c = elim (Bool-cases (d == c)) [
  | inl here ↦ let e : d ≡ c = ground arith in rw here ([], s, ap (λ x. x ∷ s) e, refl, refl)
  | inr other ↦ rw other (Finds-suc d s c (strchr s c) other (strchr_lem s c))
]
