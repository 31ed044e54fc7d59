-- ===== src/Heap/Tests.antt =====
-- The theorems on data_structures/heap.c at concrete heaps.
use c_utils.Base.{
  List, Option, ℕ, ◌+◌, ◌≡◌, ◌≤◌, refl, sym, subst, inl, true, false, some, none, [], ◌∷◌, arith,
  compare, compare-Ranks, replicate, ok, Returns,
}
use c_utils.Heap.Array.{at}
use c_utils.Heap.{
  parent, Heap, HeapConf, insert, remove, remove_all, store, heapify_up, up_loop, grow, above, load,
  swap, extract_max, heapify_down, down_loop, larger,
}
use c_utils.Heap.Create.{Memory, default_growth_rate, default_growth_trigger}
use c_utils.Heap.Insert.{IsValid, Inserted, count, insert_correct}
use c_utils.Heap.Remove.{Removed, remove_correct}
use c_utils.Heap.Session.{
  IsRoomy, asked, Descends, occurrences, highest, heap_sort, heap_sort-Descends,
}
use c_utils.Heap.Fresh.{IsZeroed}
use c_utils.Heap.Clear.{released, remove_all-Released}

abbrev conf : HeapConf
conf = record {
  rc_instance = false;
  rc_item = false;
  delete_on_destroy = false;
  destructor = some true;
  initial = 8;
  max = 0;
  rate = default_growth_rate;
  trigger = default_growth_trigger;
}

abbrev counted_conf : HeapConf
counted_conf = record conf { rc_item = true }

abbrev empty_heap : Heap
empty_heap = record {
  slots = replicate 8 0;
  cmp = compare;
  size = 8;
  used = 0;
  conf = conf;
  events = [];
  freed = false;
}

-- The items 7 and 3.
abbrev pair_heap : Heap
pair_heap = record empty_heap { slots = 0 ∷ 7 ∷ 3 ∷ replicate 5 0; used = 2 }

abbrev counted_heap : Heap
counted_heap = record pair_heap { conf = counted_conf }

-- One more item is allowed, and no slot is left for it.
abbrev bounded_heap : Heap
bounded_heap = record empty_heap {
  slots = 0 ∷ 7 ∷ [];
  size = 2;
  used = 1;
  conf = record conf { max = 2 };
}

empty-IsValid : IsValid (λ a. a) empty_heap
empty-IsValid = record { sized = refl; room = omega arith; ordered = λ c p q. absurd (omega arith) }

pair-IsValid : IsValid (λ a. a) pair_heap
pair-IsValid = record {
  sized = refl;
  room = omega arith;
  ordered = λ c p q.
      let e : c ≡ 2 = omega arith in
      subst (λ c. at pair_heap.slots c ≤ at pair_heap.slots (parent c)) (sym e) (omega arith);
}

counted-IsValid : IsValid (λ a. a) counted_heap
counted-IsValid = record { sized = refl; room = omega arith; ordered = pair-IsValid.ordered }

bounded-IsValid : IsValid (λ a. a) bounded_heap
bounded-IsValid = record {
  sized = refl;
  room = omega arith;
  ordered = λ c p q. absurd (omega arith);
}

empty-IsRoomy : IsRoomy empty_heap
empty-IsRoomy = record {
  default = record { unbounded = refl; rate = refl; trigger = refl };
  big = omega arith;
  filled = omega arith;
}

-- The run itself: 5, 9, 2, 9 come back in order.
abbrev inserts : List (Option ℕ × ℕ)
inserts = (some 0, 5) ∷ (some 0, 9) ∷ (some 0, 2) ∷ (some 0, 9) ∷ []

heap_sort-runs : heap_sort empty_heap inserts ≡ ok (9 ∷ 9 ∷ 5 ∷ 2 ∷ [])
unfolding heap_sort insert store heapify_up up_loop grow above load swap remove extract_max
    heapify_down down_loop larger
heap_sort-runs = refl

abbrev memory : Memory
memory = record { heap_ok = true; lock_ok = true; slots_ok = true; junk = 5; junk_used = 0 }

memory-IsZeroed : IsZeroed memory
memory-IsZeroed = record { heap_ok = refl; lock_ok = refl; slots_ok = refl; used = refl }

abbrev blank_conf : HeapConf
blank_conf = record conf {
  destructor = none;
  initial = 0;
  rate = record { num = 0; den = 1 };
  trigger = record { num = 0; den = 1 };
}

heap_sort-Descends_example :
    Returns
      (λ ys.
        Descends (λ a. a) (highest (λ a. a) (asked inserts)) ys
        × ((x : ℕ) → occurrences x ys ≡ occurrences x (asked inserts)))
      (heap_sort empty_heap inserts)
heap_sort-Descends_example =
    heap_sort-Descends empty_heap compare-Ranks inserts empty-IsValid empty-IsRoomy refl (
      (λ e. cc, omega arith),
      ((λ e. cc, omega arith), ((λ e. cc, omega arith), ((λ e. cc, omega arith), tt))),
    )

insert_correct_example : Returns (Inserted (λ a. a) pair_heap 9) (insert (some 0) pair_heap 9)
insert_correct_example =
    insert_correct pair_heap 9 compare-Ranks pair-IsValid (omega arith) (omega arith) (some 0)
      (omega arith) (inl refl)

remove_correct_example : Returns (Removed (λ a. a) pair_heap) (remove pair_heap)
remove_correct_example = remove_correct pair_heap compare-Ranks pair-IsValid (omega arith)

remove_all-Released_example :
    Returns
      (λ h'.
        (h'.used ≡ 0)
        × ((x : ℕ) → released x h'.events ≡ released x counted_heap.events + count x counted_heap))
      (remove_all counted_heap)
remove_all-Released_example = remove_all-Released counted_heap counted-IsValid
