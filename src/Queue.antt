-- ===== src/Queue.antt =====
-- include/queue.h: the doubly linked lists that thread the free pages and the free environments.
-- An element is named by its index in its array. `le_next` and `le_prev` are fields of the
-- element; `le_prev` points at the `le_next` field of the element before it, or at `lh_first`.
pub mod Refine
mod Tests
use buaa_mips_os.Base.{ℕ, Option, none, some, update}

-- What a `struct type **` can point at: `lh_first`, or the `le_next` of an element.
pub data Place : Type 0 where
  lh_first : Place
  le_next : ℕ → Place

pub record Links : Type 0 where
  pub first : Option ℕ
  pub next : ℕ → Option ℕ
  pub prev : ℕ → Place

-- `*place` and `*place = v`.
abbrev pub content : Links → Place → Option ℕ
content q lh_first = q.first
content q (le_next e) = q.next e

store : Place → Option ℕ → Links → Links
store lh_first v q = record q { first = v }
store (le_next e) v q = record q { next = update q.next e v }

-- `if (elm != NULL) elm->le_prev = place`.
set_prev : Option ℕ → Place → Links → Links
set_prev none place q = q
set_prev (some e) place q = record q { prev = update q.prev e place }

-- LIST_INIT
pub list_init : Links → Links
list_init q = record q { first = none }

-- LIST_FIRST
abbrev pub list_first : Links → Option ℕ
list_first q = q.first

-- LIST_INSERT_HEAD
pub list_insert_head : Links → ℕ → Links
unfolding store set_prev
list_insert_head q elm =
    let q1 : Links = store (le_next elm) q.first q in
    let q2 : Links = set_prev q1.first (le_next elm) q1 in
    let q3 : Links = store lh_first (some elm) q2 in set_prev (some elm) lh_first q3

-- LIST_REMOVE
pub list_remove : Links → ℕ → Links
unfolding store set_prev
list_remove q elm =
    let q1 : Links = set_prev (q.next elm) (q.prev elm) q in store (q1.prev elm) (q1.next elm) q1
