-- ===== src/Queue/Tests.antt =====
-- Runs of the list operations, and instances of what is proved of them.
use buaa_mips_os.Base.{◌≡◌, refl, none, some, [], ◌∷◌}
use buaa_mips_os.Queue.{Links, lh_first, list_init, list_first, list_insert_head, list_remove}
use buaa_mips_os.Queue.Refine.{
  IsList, erase, list_init-nil, list_first-cons, list_insert_head-cons, list_remove-erase,
}

abbrev empty : Links
empty = record { first = none; next = λ _. none; prev = λ _. lh_first }

-- The list 7, 4.
abbrev two : Links
two = list_insert_head (list_insert_head (list_init empty) 4) 7

two-IsList : IsList two (7 ∷ 4 ∷ [])
two-IsList =
    list_insert_head-cons (list_insert_head (list_init empty) 4) 7 (4 ∷ []) refl
      (list_insert_head-cons (list_init empty) 4 [] refl (list_init-nil empty))

list_first-two : list_first two ≡ some 7
list_first-two = list_first-cons two-IsList

list_remove-erase_example : IsList (list_remove two 4) (erase (7 ∷ 4 ∷ []) 4)
list_remove-erase_example = list_remove-erase two 4 (7 ∷ 4 ∷ []) refl two-IsList
