-- ===== src/Stack/Tests.antt =====
-- The theorems on data_structures/stack.c at concrete stacks.
use c_utils.Base.{refl, true, false, none, some, List, [], ◌∷◌, arith, Returns, ◌==◌, if◌then◌else◌}
use c_utils.Stack.{Stack, new_node}
use c_utils.Stack.Chain.{Entry, IsStack}
use c_utils.Stack.Session.{Call, push_call, pop_call, AsList, run_calls, run_calls-AsList}

abbrev entry : Entry
entry = record { ptr = 16; item = 7 }

-- The item 7, with a destructor.
abbrev one_item : Stack
one_item = record {
  head = 16;
  size = 1;
  nodes = λ a. if 16 == a then some (new_node 7) else none;
  del = true;
  destroyed = [];
}

one_item-IsStack : IsStack one_item (entry ∷ [])
one_item-IsStack = record {
  head = refl;
  size = refl;
  chain = ((0, false, 0, record { ne_null = omega arith; holds = refl }), refl, tt);
}

abbrev calls : List Call
calls = push_call 32 9 ∷ pop_call ∷ pop_call ∷ pop_call ∷ push_call 16 4 ∷ []

run_calls-AsList_example : Returns (AsList calls (7 ∷ [])) (run_calls calls one_item)
run_calls-AsList_example =
    run_calls-AsList calls one_item (entry ∷ []) one_item-IsStack
      (omega arith, refl, (omega arith, refl, tt))
