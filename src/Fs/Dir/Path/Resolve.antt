-- ===== src/Fs/Dir/Path/Resolve.antt =====
-- fs/fs.c: `walk_path`, which reads the characters of a path while it goes down, against a resolution of
-- the path's elements that is told them beforehand.
use buaa_mips_os.Base.{
  contains, ◌≢◌, ℕ, zero, suc, ◌≤◌, ◌≡◌, refl, sym, ap, ◌∙◌, fun_ext, Bool, true, false, not,
  Option, none, some, List, [], ◌∷◌, ◌++◌, ◌==◌, leb, if◌then◌else◌, arith, length, Bool-cases, inl,
  inr,
}
use mathlib.Core.List.{append-nil, append_assoc}
use buaa_mips_os.Fs.{Server, F, done, user_panic, state, ◌>>=◌, e_not_found}
use buaa_mips_os.Fs.Dir.{FilePtr, root, f_type, found, missing, dir_lookup}
use buaa_mips_os.Fs.Dir.Path.{
  slash, e_bad_path, skip_slash, element, Walked, reached, stuck, lost, is_nil, walk, walk_path,
}

-- The elements of a path: the pieces between slashes that are not empty. `piece` is the piece so far.
abbrev end_piece : List ℕ → List (List ℕ) → List (List ℕ)
end_piece [] names = names
end_piece (c ∷ piece) names = (c ∷ piece) ∷ names

components_from : List ℕ → List ℕ → List (List ℕ)
components_from piece [] = end_piece piece []
components_from piece (c ∷ p) =
    let here : List (List ℕ) = end_piece piece (components_from [] p) in
    let more : List (List ℕ) = components_from (piece ++ c ∷ []) p in
    if c == slash then here else more

pub components : List ℕ → List (List ℕ)
components p = components_from [] p

abbrev no_more : List (List ℕ) → Bool
no_more [] = true
no_more (n ∷ ns) = false

-- Go down from a file by the elements of a path.
pub resolve : Option FilePtr → FilePtr → List (List ℕ) → F Walked
resolve dir file [] = done (reached dir file)
resolve dir file (name ∷ names) =
    let next = λ (f : FilePtr). resolve (some file) f names in
    if leb 128 (length name) then done (stuck e_bad_path none []) else do
      s ← state
      if not (f_type s file == 1) then done (stuck e_not_found none []) else do
        r ← dir_lookup file name
        elim r [ missing e ↦ done (lost e (no_more names) file name) | found f ↦ next f ]

-- One character of the loops.
components-slash :
    (piece p : List ℕ) (c : ℕ)
    → (c == slash) ≡ true
    → components_from piece (c ∷ p) ≡ end_piece piece (components_from [] p)
unfolding components_from
components-slash piece p c e = rw e refl

components-other :
    (piece p : List ℕ) (c : ℕ)
    → (c == slash) ≡ false
    → components_from piece (c ∷ p) ≡ components_from (piece ++ c ∷ []) p
unfolding components_from
components-other piece p c e = rw e refl

element-slash : (p : List ℕ) (c : ℕ) → (c == slash) ≡ true → element (c ∷ p) ≡ ([], c ∷ p)
unfolding element
element-slash p c e = rw e refl

element-other :
    (p : List ℕ) (c : ℕ)
    → (c == slash) ≡ false
    → element (c ∷ p) ≡ (c ∷ (element p).0, (element p).1)
unfolding element
element-other p c e = rw e refl

skip-slash : (p : List ℕ) (c : ℕ) → (c == slash) ≡ true → skip_slash (c ∷ p) ≡ skip_slash p
unfolding skip_slash
skip-slash p c e = rw e refl

skip-other : (p : List ℕ) (c : ℕ) → (c == slash) ≡ false → skip_slash (c ∷ p) ≡ c ∷ p
unfolding skip_slash
skip-other p c e = rw e refl

components-skip : (p : List ℕ) → components_from [] (skip_slash p) ≡ components_from [] p
components-skip [] = unfold skip_slash in refl
components-skip (c ∷ p) = elim (Bool-cases (c == slash)) [
  | inl e ↦ rw (skip-slash p c e, components-slash [] p c e) (components-skip p)
  | inr e ↦ ap (components_from []) (skip-other p c e)
]

-- The path behind its leading slashes is empty, or begins with another character.
abbrev Starts : List ℕ → Type 0
Starts [] = Unit {0}
Starts (c ∷ p) = (c == slash) ≡ false

skip_slash-Starts : (p : List ℕ) → Starts (skip_slash p)
skip_slash-Starts [] = unfold skip_slash in tt
skip_slash-Starts (c ∷ p) = elim (Bool-cases (c == slash)) [
  | inl e ↦ rw (skip-slash p c e) (skip_slash-Starts p)
  | inr e ↦ rw (skip-other p c e) e
]

-- With a piece begun, the first element is that piece and what stands before the next slash.
components-element :
    (c : ℕ) (piece p : List ℕ)
    → components_from (c ∷ piece) p
      ≡ (c ∷ piece ++ (element p).0) ∷ components_from [] (element p).1
components-element c piece [] =
    unfold components_from element in ap (λ l. (c ∷ l) ∷ []) (sym (append-nil piece))
components-element c piece (d ∷ p) = elim (Bool-cases (d == slash)) [
  | inl e ↦
      rw
        (
          components-slash (c ∷ piece) p d e,
          element-slash p d e,
          components-slash [] p d e,
          append-nil piece,
        )
        refl
  | inr e ↦
      rw (components-other (c ∷ piece) p d e, element-other p d e)
        (components-element c (piece ++ d ∷ []) p
          ∙ ap (λ l. (c ∷ l) ∷ components_from [] (element p).1)
              (append_assoc piece (d ∷ []) (element p).0))
]

-- The first element of a path that begins with no slash.
components-cons :
    (c : ℕ) (p : List ℕ)
    → (c == slash) ≡ false
    → components_from [] (c ∷ p)
      ≡ (element (c ∷ p)).0 ∷ components_from [] (skip_slash (element (c ∷ p)).1)
components-cons c p e =
    components-other [] p c e
    ∙ components-element c [] p
    ∙ rw (components-skip (element (c ∷ p)).1, element-other p c e) refl

-- The rest of the path is shorter.
skip-le : (p : List ℕ) → length (skip_slash p) ≤ length p
unfolding skip_slash
skip-le [] = omega arith
skip-le (c ∷ p) = ground (arith, skip-le p)

element-le : (p : List ℕ) → length (element p).1 ≤ length p
unfolding element
element-le [] = omega arith
element-le (c ∷ p) = ground (arith, element-le p)

rest-lt :
    (c : ℕ) (p : List ℕ) → (c == slash) ≡ false → length (skip_slash (element (c ∷ p)).1) ≤ length p
rest-lt c p e = rw (element-other p c e) (omega (arith, skip-le (element p).1, element-le p))

no_more-components : (p : List ℕ) → Starts p → no_more (components_from [] p) ≡ is_nil p
no_more-components [] h = unfold components_from in refl
no_more-components (c ∷ p) h = rw (components-cons c p h) refl

-- What a round of both does with the name, and then with the file that it finds.
abbrev enter : FilePtr → List ℕ → Bool → (FilePtr → F Walked) → F Walked
enter file name last next = if leb 128 (length name) then done (stuck e_bad_path none []) else do
  s ← state
  if not (f_type s file == 1) then done (stuck e_not_found none []) else do
    r ← dir_lookup file name
    elim r [ missing e ↦ done (lost e last file name) | found f ↦ next f ]

walk_round :
    (fuel : ℕ) (dir : Option FilePtr) (file : FilePtr) (c : ℕ) (p : List ℕ)
    → walk (suc fuel) dir file (c ∷ p)
      ≡ enter file
          (element (c ∷ p)).0
          (is_nil (skip_slash (element (c ∷ p)).1))
          (λ f. walk fuel (some file) f (skip_slash (element (c ∷ p)).1))
unfolding walk
walk_round fuel dir file c p = refl

resolve_round :
    (dir : Option FilePtr) (file : FilePtr) (name : List ℕ) (names : List (List ℕ))
    → resolve dir file (name ∷ names)
      ≡ enter file name (no_more names) (λ f. resolve (some file) f names)
unfolding resolve
resolve_round dir file name names = refl

-- The loop, with fuel for each character that is left.
walk-resolve :
    (fuel : ℕ) (dir : Option FilePtr) (file : FilePtr) (p : List ℕ)
    → length p ≤ fuel
    → Starts p
    → walk fuel dir file p ≡ resolve dir file (components_from [] p)
walk-resolve fuel dir file [] k h = unfold walk resolve components_from in refl
walk-resolve zero dir file (c ∷ p) k h = absurd (omega arith)
walk-resolve (suc fuel) dir file (c ∷ p) k h =
    let rest : List ℕ = skip_slash (element (c ∷ p)).1 in
    let start : Starts rest = skip_slash-Starts (element (c ∷ p)).1 in
    walk_round fuel dir file c p
    ∙ ap (enter file (element (c ∷ p)).0 (is_nil rest)) (
        fun_ext (λ f.
          walk-resolve fuel (some file) f (skip_slash (element (c ∷ p)).1)
            (omega (arith, rest-lt c p h)) start))
    ∙ ap
        (λ l.
          enter file (element (c ∷ p)).0 l (λ f. resolve (some file) f (components_from [] rest)))
        (sym (no_more-components rest start))
    ∙ sym (resolve_round dir file (element (c ∷ p)).0 (components_from [] rest))
    ∙ ap (resolve dir file) (sym (components-cons c p h))

-- With a superblock, `walk_path` ends for every path, and does what the resolution of the path's
-- elements from the root does, on the errors too.
pub walk_path-resolve :
    (path : List ℕ) (s : Server) {n : ℕ}
    → s.super ≡ some n
    → walk_path path s ≡ resolve none root (components path) s
unfolding walk_path components
walk_path-resolve path s {n} sup =
    ap
      (λ o.
        let m : F Walked = elim o [
          | none ↦ user_panic
          | some _ ↦ walk (length (skip_slash path)) none root (skip_slash path)
        ] in
        m s)
      sup
    ∙ ap (λ (m : F Walked). m s)
        (walk-resolve (length (skip_slash path)) none root (skip_slash path) (omega arith)
            (skip_slash-Starts path)
          ∙ ap (resolve none root) (components-skip path))

-- The elements of a path that is put together of names are those names.
abbrev pub join : List (List ℕ) → List ℕ
join [] = []
join (n ∷ ns) = slash ∷ n ++ join ns

abbrev pub AreNames : List (List ℕ) → Type 0
AreNames [] = Unit {0}
AreNames (n ∷ ns) = (n ≢ []) × (contains n slash ≡ false) × AreNames ns

components-name :
    (c : ℕ) (piece n rest : List ℕ)
    → contains n slash ≡ false
    → components_from (c ∷ piece) (n ++ rest) ≡ components_from (c ∷ piece ++ n) rest
components-name c piece [] rest h = ap (λ l. components_from (c ∷ l) rest) (sym (append-nil piece))
components-name c piece (d ∷ n) rest h =
    components-other (c ∷ piece) (n ++ rest) d (ground arith)
    ∙ components-name c (piece ++ d ∷ []) n rest (ground arith)
    ∙ ap (λ l. components_from (c ∷ l) rest) (append_assoc piece (d ∷ []) n)

components-end :
    (c : ℕ) (piece : List ℕ) (ns : List (List ℕ))
    → components_from (c ∷ piece) (join ns) ≡ (c ∷ piece) ∷ components_from [] (join ns)
components-end c piece [] = unfold components_from in refl
components-end c piece (n ∷ ns) =
    components-slash (c ∷ piece) (n ++ join ns) slash refl
    ∙ ap (λ l. (c ∷ piece) ∷ l) (sym (components-slash [] (n ++ join ns) slash refl))

components-join : (ns : List (List ℕ)) → AreNames ns → components (join ns) ≡ ns
unfolding components
components-join [] h = unfold components_from in refl
components-join ([] ∷ ns) h = absurd (h.0 refl)
components-join ((c ∷ n) ∷ ns) h =
    components-slash [] (c ∷ n ++ join ns) slash refl
    ∙ components-other [] (n ++ join ns) c (ground (arith, h.1))
    ∙ components-name c [] n (join ns) (ground (arith, h.1))
    ∙ components-end c n ns
    ∙ ap (λ l. (c ∷ n) ∷ l) (components-join ns h.2)

-- With a superblock, the path that is put together of names that are not empty and hold no slash leads
-- from the root down by these names.
walk_path-join :
    (ns : List (List ℕ)) (s : Server) {n : ℕ}
    → AreNames ns
    → s.super ≡ some n
    → walk_path (join ns) s ≡ resolve none root ns s
walk_path-join ns s names sup =
    walk_path-resolve (join ns) s sup ∙ ap (λ l. resolve none root l s) (components-join ns names)
