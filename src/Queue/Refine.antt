-- ===== src/Queue/Refine.antt =====
-- The linked lists of include/queue.h refine finite sequences of distinct elements.
use buaa_mips_os.Base.{
  ℕ, ◌≡◌, refl, sym, Bool, true, false, not, Option, none, some, List, [], ◌∷◌, ◌==◌, if◌then◌else◌,
  arith, update, contains, nodup, Bool-cases, ◌⊎◌, Option-cases, ◌∙◌, inl, inr,
}
use mathlib.Core.Path.{subst}
use buaa_mips_os.Queue.{
  Place, lh_first, le_next, Links, content, store, set_prev, list_init, list_first,
  list_insert_head, list_remove,
}

-- From `place` the links run through `xs` to NULL, and every `le_prev` points back.
abbrev pub Linked : Links → Place → List ℕ → Type 0
Linked q place [] = content q place ≡ none
Linked q place (x ∷ xs) = (content q place ≡ some x) × (q.prev x ≡ place) × Linked q (le_next x) xs

pub record IsList (q : Links) (xs : List ℕ) : Type 0 where
  pub linked : Linked q lh_first xs
  pub distinct : nodup xs ≡ true

-- The sequence without its first `e`.
unfoldable pub erase : List ℕ → ℕ → List ℕ
erase [] e = []
erase (x ∷ xs) e = if e == x then xs else x ∷ erase xs e

-- Links that agree on the elements of `xs` and on the place run through the same sequence.
Linked-frame :
    (q r : Links) (p : Place) (xs : List ℕ)
    → content r p ≡ content q p
    → ((e : ℕ) → contains xs e ≡ true → r.next e ≡ q.next e)
    → ((e : ℕ) → contains xs e ≡ true → r.prev e ≡ q.prev e)
    → Linked q p xs
    → Linked r p xs
Linked-frame q r p [] c n v h = ground arith
Linked-frame q r p (x ∷ xs) c n v h = (
  ground arith,
  ground (arith, v x),
  Linked-frame q r (le_next x) xs (ground (arith, n x)) (λ e m. n e (ground arith))
      (λ e m. v e (ground arith)) h.2,
)

content-store : (p : Place) (v : Option ℕ) (q : Links) → content (store p v q) p ≡ v
unfolding store
content-store lh_first v q = refl
content-store (le_next e) v q = ground arith

-- LIST_INIT makes the empty list.
pub list_init-nil : (q : Links) → IsList (list_init q) []
unfolding list_init
list_init-nil q = record { linked = refl; distinct = refl }

-- LIST_FIRST is the first element.
list_first-nil : {q : Links} → IsList q [] → list_first q ≡ none
list_first-nil h = h.linked

pub list_first-cons : {q : Links} {x : ℕ} {xs : List ℕ} → IsList q (x ∷ xs) → list_first q ≡ some x
list_first-cons h = h.linked.0

insert_head-Linked :
    (q : Links) (e : ℕ) (xs : List ℕ)
    → contains xs e ≡ false
    → nodup xs ≡ true
    → Linked q lh_first xs
    → Linked (list_insert_head q e) lh_first (e ∷ xs)
unfolding list_insert_head store set_prev
insert_head-Linked q e [] new d h = ground arith
insert_head-Linked q e (x ∷ xs) new d h = (
  refl,
  ground arith,
  (
    ground arith,
    ground arith,
    Linked-frame q (list_insert_head q e) (le_next x) xs (ground arith) (λ a m. ground arith)
        (λ a m. ground arith) h.2,
  ),
)

-- LIST_INSERT_HEAD puts a new element in front.
pub list_insert_head-cons :
    (q : Links) (e : ℕ) (xs : List ℕ)
    → contains xs e ≡ false
    → IsList q xs
    → IsList (list_insert_head q e) (e ∷ xs)
list_insert_head-cons q e xs new h = record {
  linked = insert_head-Linked q e xs new h.distinct h.linked;
  distinct = ground (arith, h.distinct);
}

-- The place is `lh_first`, or belongs to an element outside the sequence.
abbrev outside : Place → List ℕ → Bool
outside lh_first xs = true
outside (le_next y) xs = not (contains xs y)

-- What stands before an element of a list: the list's own place, or an element.
prev-cases :
    (q : Links) (p : Place) (xs : List ℕ) (e : ℕ)
    → Linked q p xs
    → contains xs e ≡ true
    → (q.prev e ≡ p) ⊎ ((z : ℕ) × (q.prev e ≡ le_next z) × (contains xs z ≡ true))
prev-cases q p [] e h m = absurd (ground arith)
prev-cases q p (x ∷ xs) e h m = elim (Bool-cases (e == x)) [
  | inl here ↦ inl (ground arith)
  | inr more ↦ elim (prev-cases q (le_next x) xs e h.2 (ground arith)) [
    | inl first ↦ inr (x, first, ground arith)
    | inr (z, at, m') ↦ inr (z, at, ground arith)
  ]
]

-- What stands behind an element of a list belongs to it.
next-contains :
    (q : Links) (p : Place) (xs : List ℕ) (e y : ℕ)
    → Linked q p xs
    → contains xs e ≡ true
    → q.next e ≡ some y
    → contains xs y ≡ true
next-contains q p [] e y h m n = absurd (ground arith)
next-contains q p (x ∷ []) e y h m n = ground arith
next-contains q p (x ∷ w ∷ xs) e y h m n = elim (Bool-cases (e == x)) [
  | inl here ↦ ground arith
  | inr more ↦ ground (arith, next-contains q (le_next x) (w ∷ xs) e y h.2)
]

-- LIST_REMOVE on its two branches.
remove_last :
    (q : Links) (e : ℕ) (p : Place)
    → q.prev e ≡ p
    → q.next e ≡ none
    → list_remove q e ≡ store p none q
unfolding list_remove set_prev
remove_last q e p v n = ground arith

remove_middle :
    (q : Links) (e y : ℕ) (p : Place)
    → q.prev e ≡ p
    → q.next e ≡ some y
    → list_remove q e ≡ store p (some y) (record q { prev = update q.prev y p })
unfolding list_remove set_prev
remove_middle q e y p v n = ground arith

prev-store : (p : Place) (v : Option ℕ) (q : Links) (e : ℕ) → (store p v q).prev e ≡ q.prev e
unfolding store
prev-store lh_first v q e = refl
prev-store (le_next a) v q e = refl

-- A store to a place that no element of `xs` owns leaves their `le_next` alone.
next-store :
    (p : Place) (v : Option ℕ) (q : Links) (xs : List ℕ) (e : ℕ)
    → outside p xs ≡ true
    → contains xs e ≡ true
    → (store p v q).next e ≡ q.next e
unfolding store
next-store lh_first v q xs e o m = refl
next-store (le_next a) v q xs e o m = ground arith

-- LIST_REMOVE of the first element.
remove-first :
    (q : Links) (e : ℕ) (p : Place) (xs : List ℕ)
    → outside p (e ∷ xs) ≡ true
    → nodup (e ∷ xs) ≡ true
    → Linked q p (e ∷ xs)
    → Linked (list_remove q e) p xs
remove-first q e p [] o d h = rw (remove_last q e p h.1 h.2) (content-store p none q)
remove-first q e p (y ∷ ys) o d h =
    let q' : Links = record q { prev = update q.prev y p } in
    subst (λ r. Linked r p (y ∷ ys)) (sym (remove_middle q e y p h.1 h.2.0))
      (
        content-store p (some y) q',
        ground (arith, prev-store p (some y) q' y),
        Linked-frame q (store p (some y) q') (le_next y) ys
            (next-store p (some y) q' (e ∷ y ∷ ys) y o (ground arith))
            (λ a m. next-store p (some y) q' (e ∷ y ∷ ys) a o (ground arith))
            (λ a m. ground (arith, prev-store p (some y) q' a)) h.2.2,
      )

-- LIST_REMOVE leaves other places and other elements' `le_prev` alone.
content-remove :
    (q : Links) (e z : ℕ) (p : Place) (xs : List ℕ)
    → q.prev e ≡ le_next z
    → outside p xs ≡ true
    → contains xs z ≡ true
    → content (list_remove q e) p ≡ content q p
unfolding list_remove store set_prev
content-remove q e z lh_first xs v o m = ground arith
content-remove q e z (le_next a) xs v o m = ground arith

prev-remove :
    (q : Links) (e x : ℕ) (xs : List ℕ)
    → contains xs x ≡ false
    → ((y : ℕ) → q.next e ≡ some y → contains xs y ≡ true)
    → (list_remove q e).prev x ≡ q.prev x
prev-remove q e x xs out after = elim (Option-cases (q.next e)) [
  | inl n ↦ rw (remove_last q e (q.prev e) refl n) (prev-store (q.prev e) none q x)
  | inr (y, n) ↦
      let q' : Links = record q { prev = update q.prev y (q.prev e) } in
      rw (remove_middle q e y (q.prev e) refl n)
        (ground (arith, prev-store (q.prev e) (some y) q' x, after y n))
]

remove-head :
    (q : Links) (e x : ℕ) (p : Place) (xs : List ℕ)
    → contains xs e ≡ true
    → outside p (x ∷ xs) ≡ true
    → Linked q p (x ∷ xs)
    → content (list_remove q e) p ≡ some x
remove-head q e x p xs m o h = elim (prev-cases q (le_next x) xs e h.2 m) [
  | inl at ↦ content-remove q e x p (x ∷ xs) at o (ground arith) ∙ h.0
  | inr (z, at, m') ↦ content-remove q e z p (x ∷ xs) at o (ground arith) ∙ h.0
]

-- LIST_REMOVE takes an element out of the sequence.
remove-Linked :
    (q : Links) (e : ℕ) (p : Place) (xs : List ℕ)
    → contains xs e ≡ true
    → outside p xs ≡ true
    → nodup xs ≡ true
    → Linked q p xs
    → Linked (list_remove q e) p (erase xs e)
unfolding erase
remove-Linked q e p [] m o d h = absurd (ground arith)
remove-Linked q e p (x ∷ xs) m o d h = elim (Bool-cases (e == x)) [
  | inl here ↦ let same : e ≡ x = ground arith in rw here (rw same (remove-first q x p xs o d h))
  | inr more ↦ rw more (
    remove-head q e x p xs (ground arith) o h,
    prev-remove q e x xs (ground arith)
          (λ y n. next-contains q (le_next x) xs e y h.2 (ground arith) n)
        ∙ h.1,
    remove-Linked q e (le_next x) xs (ground arith) (ground arith) (ground arith) h.2,
  )
]

contains-erase : (xs : List ℕ) (e a : ℕ) → contains xs a ≡ false → contains (erase xs e) a ≡ false
unfolding erase
contains-erase [] e a h = refl
contains-erase (x ∷ xs) e a h = ground (arith, contains-erase xs e a)

nodup-erase : (xs : List ℕ) (e : ℕ) → nodup xs ≡ true → nodup (erase xs e) ≡ true
unfolding erase
nodup-erase [] e h = refl
nodup-erase (x ∷ xs) e h = ground (arith, nodup-erase xs e, contains-erase xs e x)

-- LIST_REMOVE of an element of a list leaves the list without that element: every link and back
-- link is again as it should be, and no element stands twice.
pub list_remove-erase :
    (q : Links) (e : ℕ) (xs : List ℕ)
    → contains xs e ≡ true
    → IsList q xs
    → IsList (list_remove q e) (erase xs e)
list_remove-erase q e xs m h = record {
  linked = remove-Linked q e lh_first xs m refl h.distinct h.linked;
  distinct = nodup-erase xs e h.distinct;
}
