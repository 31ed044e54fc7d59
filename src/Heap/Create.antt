-- ===== src/Heap/Create.antt =====
-- data_structures/heap.c: configure, creation from nothing and from an array, and destruction.
use c_utils.Base.{
  ℕ, zero, suc, ◌+◌, ◌/◌, Bool, true, false, not, ◌&&◌, Option, none, some, List, [], ◌∷◌, ltb,
  ◌==◌, if◌then◌else◌, Comparator, length, replicate, Run, ok, ◌>>=◌,
}
use c_utils.Heap.{Ratio, HeapConf, Heap, store, shift_down, remove_all, delete_all}

abbrev pub default_initial : ℕ
default_initial = 64

abbrev pub default_growth_rate : Ratio
default_growth_rate = record { num = 2; den = 1 }

abbrev pub default_growth_trigger : Ratio
default_growth_trigger = record { num = 3; den = 4 }

-- The answers of the allocators, and what `malloc` leaves in the memory that it hands out.
pub record Memory : Type 0 where
  pub heap_ok : Bool
  pub lock_ok : Bool
  pub slots_ok : Bool
  pub junk : ℕ
  pub junk_used : ℕ

unfoldable pub configure : HeapConf → HeapConf
configure c = record c {
  rate = if c.rate.num == 0 then default_growth_rate else c.rate;
  trigger = if c.trigger.num == 0 then default_growth_trigger else c.trigger;
  initial = if c.initial == 0 then default_initial else c.initial;
  destructor = elim c.destructor [ none ↦ some true | some d ↦ some d ];
}

-- `used` is never assigned: the new heap has what `malloc` left there.
unfoldable pub create_with : Memory → Comparator → HeapConf → Option Heap
create_with m cmp c =
    if not m.heap_ok
    then none
    else if not m.lock_ok
    then none
    else if not m.slots_ok
    then none
    else some (record {
      slots = replicate c.initial m.junk;
      cmp = cmp;
      size = c.initial;
      used = m.junk_used;
      conf = c;
      events = [];
      freed = false;
    })

-- NULL for the comparator or the configuration gives NULL.
unfoldable pub create_conf : Memory → Option Comparator → Option HeapConf → Option Heap
unfolding create_with configure
create_conf m (some cmp) (some c) = create_with m cmp (configure c)
create_conf m _ _ = none

-- for(i = 0; i < len; i++) data[i] = arr[i]
unfoldable pub fill : List ℕ → ℕ → List ℕ → Run (List ℕ)
fill a i [] = ok a
fill a i (x ∷ arr) = do a' ← store a i x; fill a' (i + 1) arr

-- for(i = len / 2; i >= 1; i--) shift_down(heap, i)
unfoldable pub shift_all : ℕ → Heap → Run Heap
shift_all zero h = ok h
shift_all (suc i) h = do h' ← shift_down h (suc i); shift_all i h'

abbrev pub raise : List ℕ → HeapConf → HeapConf
raise arr c = record c {
  initial = if ltb c.initial (length arr) then length arr else c.initial;
  max = if not (c.max == 0) && ltb c.max (length arr) then length arr else c.max;
}

-- The rest of the creation, once there is a heap.
unfoldable pub take_array : List ℕ → Option Heap → Run (Option Heap)
take_array arr none = ok none
take_array arr (some h) = do
  a ← fill h.slots 0 arr
  h' ← shift_all (length arr / 2) (record h { slots = a })
  ok (some h')

-- An empty array makes a standard heap.
unfoldable pub create_from_conf :
    Memory → Option Comparator → List ℕ → Option HeapConf → Run (Option Heap)
unfolding take_array
create_from_conf m (some cmp) [] (some c) = ok (create_conf m (some cmp) (some c))
create_from_conf m (some cmp) (x ∷ arr) (some c) =
    take_array (x ∷ arr) (create_conf m (some cmp) (some (raise (x ∷ arr) c)))
create_from_conf m _ _ _ = ok none

-- The last state of the heap; its memory is gone afterwards.
unfoldable pub destroy_heap : Heap → Run Heap
destroy_heap h = if h.conf.delete_on_destroy then delete_all h else remove_all h
