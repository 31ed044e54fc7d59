-- ===== src/LinkedList/IterateTests.antt =====
-- The theorems on the iterator of data_structures/list.c at a concrete list.
use c_utils.Base.{◌≡◌, true, [], ◌∷◌, arith, ok, Returns}
use c_utils.LinkedList.{LinkedList}
use c_utils.LinkedList.Iterate.{nowhere}
use c_utils.LinkedList.Session.{to_next, to_prev, to_tail, run_moves, run_moves_lem}
use c_utils.LinkedList.Walk.{Walked, list_for_each, list_for_each_rev, list_for_each-both}
use c_utils.LinkedList.Tests.{three, numbers, numbers-IsList, conf}

run_moves_example :
    run_moves (to_next ∷ to_next ∷ to_prev ∷ to_tail ∷ to_next ∷ []) numbers nowhere
    ≡ ok (3 ∷ 5 ∷ 3 ∷ 8 ∷ 0 ∷ [], numbers)
run_moves_example =
    run_moves_lem numbers three numbers-IsList
      (to_next ∷ to_next ∷ to_prev ∷ to_tail ∷ to_next ∷ [])

list_for_each-both_example :
    Returns (Walked numbers (3 ∷ 5 ∷ 8 ∷ [])) (list_for_each true true numbers)
    × Returns (Walked numbers (8 ∷ 5 ∷ 3 ∷ [])) (list_for_each_rev true true numbers)
list_for_each-both_example = list_for_each-both numbers true true three numbers-IsList (omega arith)

abbrev shared : LinkedList
shared = record numbers { conf = record conf { rc_instance = true } }
