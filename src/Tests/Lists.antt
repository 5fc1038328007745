-- ===== src/Tests/Lists.antt =====
-- lib/list.c at a list of two elements.
use enix.Base.{◌≡◌, refl, [], ◌∷◌, arith}
use enix.Interrupt.{intr_on}
use enix.LinkedList.{
  Store, ListHead, list_init, list_append, list_remove, nodes, IsList, SameOutside,
}
use enix.LinkedList.Insert.{list_append_lem}
use enix.LinkedList.Remove.{list_remove_lem}
use enix.LinkedList.Walk.{list_init_lem}

abbrev pub l : ListHead
l = record { head = 100; tail = 108 }

abbrev pub memory : Store
memory = record { prev = λ a. 0; next = λ a. 0; intr = intr_on }

abbrev pub none_in : Store
none_in = list_init l memory

pub none_in-IsList : IsList none_in l []
none_in-IsList = list_init_lem l memory (omega arith) (omega arith) (omega arith)

abbrev one_in : Store
one_in = list_append l 200 none_in

abbrev two_in : Store
two_in = list_append l 300 one_in

two_in-IsList : IsList two_in l (200 ∷ 300 ∷ [])
two_in-IsList =
    (list_append_lem one_in l 300 (200 ∷ [])
      (list_append_lem none_in l 200 [] none_in-IsList refl).0 refl).0

-- The links as the code leaves them.
two_in_links :
    (two_in.next 100 ≡ 200)
    × (two_in.next 200 ≡ 300)
    × (two_in.next 300 ≡ 108)
    × (two_in.prev 108 ≡ 300)
unfolding list_append list_init
two_in_links = (refl, refl, refl, refl)

list_remove_lem_example :
    IsList (list_remove 200 two_in) l (300 ∷ [])
    × SameOutside (nodes l (200 ∷ 300 ∷ [])) two_in (list_remove 200 two_in)
list_remove_lem_example = list_remove_lem two_in l 200 [] (300 ∷ []) two_in-IsList
