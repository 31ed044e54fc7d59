-- ===== src/LinkedList/Tests.antt =====
-- The theorems on data_structures/list.c at concrete lists.
use c_utils.Base.{
  ◌≡◌, refl, inl, true, false, some, none, [], ◌∷◌, arith, compare, compare-Ranks, Returns, fault,
  ◌==◌, if◌then◌else◌,
}
use c_utils.Node.{Store, load, change}
use c_utils.Node.Links.{Cell, Cells, live}
use c_utils.LinkedList.{LinkedList, ListConf, Block, add}
use c_utils.LinkedList.Invariant.{IsList}
use c_utils.LinkedList.Insert.{InOrder, new_cell, add-InOrder}
use c_utils.LinkedList.Drop.{
  retire, remove_normal, invalidate_node, remove_node, remove_at, remove, clear,
}
use c_utils.LinkedList.Retire.{held, all_held, Removal}
use c_utils.LinkedList.Cut.{Dropped}
use c_utils.LinkedList.Bridge.{remove_node-Dropped}
use c_utils.LinkedList.Index.{remove_at_lem}
use c_utils.LinkedList.Find.{Taken, remove_present}
use c_utils.LinkedList.Clear.{Cleared, clear-Cleared}

abbrev pub first : Cell
first = record { ptr = 10; item = 3; refs = 0 }

abbrev pub middle : Cell
middle = record { ptr = 20; item = 5; refs = 0 }

abbrev pub last : Cell
last = record { ptr = 30; item = 8; refs = 0 }

abbrev pub three : Cells
three = first ∷ middle ∷ last ∷ []

abbrev pub nodes : Store
nodes a =
    if 10 == a
    then some (live first 0 20)
    else if 20 == a
    then some (live middle 10 30)
    else if 30 == a
    then some (live last 20 0)
    else none

abbrev pub conf : ListConf
conf = record {
  rc_instance = false;
  rc_item = false;
  delete_on_destroy = false;
  compare = none;
  max = 0;
}

-- The items 3, 5 and 8.
abbrev pub numbers : LinkedList
numbers = record { head = 10; tail = 30; size = 3; nodes = nodes; conf = conf; events = [] }

abbrev sorted_numbers : LinkedList
sorted_numbers = record numbers { conf = record conf { compare = some compare } }

abbrev pub full_numbers : LinkedList
full_numbers = record numbers { conf = record conf { max = 3 } }

pub numbers-IsList : IsList numbers three
numbers-IsList = record {
  head = refl;
  tail = refl;
  size = refl;
  links = (
    record { ne_null = omega arith; holds = refl },
    (
      record { ne_null = omega arith; holds = refl },
      (record { ne_null = omega arith; holds = refl }, tt),
    ),
  );
  distinct = (refl, (refl, (refl, tt)));
}

sorted-IsList : IsList sorted_numbers three
sorted-IsList = record {
  head = refl;
  tail = refl;
  size = refl;
  links = numbers-IsList.links;
  distinct = numbers-IsList.distinct;
}

pub full-IsList : IsList full_numbers three
full-IsList = record {
  head = refl;
  tail = refl;
  size = refl;
  links = numbers-IsList.links;
  distinct = numbers-IsList.distinct;
}

-- An iterator is at 5, so that it holds all three nodes.
abbrev held_first : Cell
held_first = record first { refs = 1 }

abbrev held_middle : Cell
held_middle = record middle { refs = 1 }

abbrev held_last : Cell
held_last = record last { refs = 1 }

abbrev held_three : Cells
held_three = held_first ∷ held_middle ∷ held_last ∷ []

abbrev held_nodes : Store
held_nodes a =
    if 10 == a
    then some (live held_first 0 20)
    else if 20 == a
    then some (live held_middle 10 30)
    else if 30 == a
    then some (live held_last 20 0)
    else none

abbrev held_numbers : LinkedList
held_numbers = record numbers { nodes = held_nodes }

held-IsList : IsList held_numbers held_three
held-IsList = record {
  head = refl;
  tail = refl;
  size = refl;
  links = (
    record { ne_null = omega arith; holds = refl },
    (
      record { ne_null = omega arith; holds = refl },
      (record { ne_null = omega arith; holds = refl }, tt),
    ),
  );
  distinct = (refl, (refl, (refl, tt)));
}

abbrev pub block : Block
block = record { ptr = 40; junk = live first 1 2 }

remove_node-Dropped_example :
    Removal
      (held held_middle)
      (Dropped held_numbers (held_first ∷ []) held_middle (held_last ∷ []) true)
      (remove_node held_numbers 20 true)
remove_node-Dropped_example =
    remove_node-Dropped held_numbers held_middle true (held_first ∷ []) (held_last ∷ []) held-IsList

-- No iterator holds the node of 5: its last release is undefined.
remove_unheld : remove_node numbers 20 true ≡ fault
unfolding remove_node remove_normal retire invalidate_node change load
remove_unheld = refl

add-InOrder_example :
    Returns (InOrder (λ a. a) three (new_cell block 6)) (add block sorted_numbers 6)
add-InOrder_example =
    add-InOrder block sorted_numbers 6 three sorted-IsList
      (record { ne_null = omega arith; unused = refl }) compare-Ranks (omega arith) (inl refl) refl
      ((omega arith, (omega arith, tt)), ((omega arith, tt), (tt, tt)))

remove_at_example :
    Removal
      (held held_middle)
      (λ (item, l').
        (item ≡ 5) × Dropped held_numbers (held_first ∷ []) held_middle (held_last ∷ []) false l')
      (remove_at held_numbers 1 false)
remove_at_example =
    remove_at_lem held_numbers (held_first ∷ []) held_middle (held_last ∷ []) held-IsList false

remove_present_example : Taken held_numbers held_three 5 true (remove held_numbers 5 true)
remove_present_example =
    remove_present held_numbers held_three held-IsList 5 true (omega arith) refl

clear-Cleared_example :
    Removal (all_held held_three) (Cleared held_numbers held_three true) (clear held_numbers true)
clear-Cleared_example = clear-Cleared held_numbers held_three held-IsList true
