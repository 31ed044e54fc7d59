-- ===== src/Heap.antt =====
-- data_structures/heap.c: the binary heap over an array. Slot 0 of `data` is never used: the root
-- stands in slot 1. An item is its address, and `null` is 0. The lock is not modelled: each
-- operation is one step.
pub mod Create
pub mod Array
pub mod Order
pub mod Sift
pub mod Insert
pub mod Remove
pub mod Session
pub mod Fresh
pub mod Tests
pub mod Clear
use c_utils.Base.{
  ℕ, zero, suc, ◌+◌, ◌-◌, ◌*◌, ◌/◌, Bool, true, false, not, ◌&&◌, Option, none, some, List, [], ◌∷◌,
  ltb, leb, ◌==◌, if◌then◌else◌, Comparator, is_gt, length, get_elem?, set, take, replicate, ◌++◌,
  Run, ok, fault, out_of_fuel, ◌>>=◌,
}

-- A `float` of the configuration, as the fraction that it stands for.
pub record Ratio : Type 0 where
  pub num : ℕ
  pub den : ℕ

pub record HeapConf : Type 0 where
  pub rc_instance : Bool
  pub rc_item : Bool
  pub delete_on_destroy : Bool
  -- `callbacks.destructors.item`: `none` is NULL, `some true` is `free`, `some false` another.
  pub destructor : Option Bool
  pub initial : ℕ
  pub max : ℕ
  pub rate : Ratio
  pub trigger : Ratio

-- What the heap does to its items and to itself through other code.
pub data Event : Type 0 where
  ref_inc : ℕ → Event
  ref_dec : ℕ → Event
  destruct_heap : Event

pub record Heap : Type 0 where
  pub slots : List ℕ
  pub cmp : Comparator
  pub size : ℕ
  pub used : ℕ
  pub conf : HeapConf
  pub events : List Event
  -- whether the block that holds the structure itself was handed to `free`
  pub freed : Bool

abbrev pub null : ℕ
null = 0

abbrev pub left : ℕ → ℕ
left p = p * 2

abbrev pub right : ℕ → ℕ
right p = p * 2 + 1

abbrev pub parent : ℕ → ℕ
parent c = c / 2

-- Reads and writes of `heap->data`: out of bounds they are undefined.
unfoldable pub load : List ℕ → ℕ → Run ℕ
load a i = elim (get_elem? a i) [ some x ↦ ok x | none ↦ fault ]

unfoldable pub store : List ℕ → ℕ → ℕ → Run (List ℕ)
store a i x = if ltb i (length a) then ok (set a i x) else fault

unfoldable pub swap : List ℕ → ℕ → ℕ → Run (List ℕ)
swap a first second = do
  item ← load a first
  other ← load a second
  a' ← store a first other
  store a' second item

-- `heap->cmp(heap->data[i], heap->data[j]) > 0`
unfoldable pub above : Comparator → List ℕ → ℕ → ℕ → Run Bool
above cmp a i j = do x ← load a i; y ← load a j; ok (is_gt (cmp x y))

-- for(i = used; i > 1; i = parent(i)), at most `i` rounds
unfoldable pub up_loop : Comparator → ℕ → List ℕ → ℕ → Run (List ℕ)
up_loop cmp zero a i = out_of_fuel
up_loop cmp (suc k) a i =
    if ltb 1 i
    then (do
      higher ← above cmp a i (parent i)
      if higher then (do a' ← swap a i (parent i); up_loop cmp k a' (parent i)) else ok a)
    else ok a

unfoldable pub heapify_up : Heap → Run Heap
heapify_up h = do a ← up_loop h.cmp (h.used + 1) h.slots h.used; ok (record h { slots = a })

-- `if(c <= used && cmp(data[c], data[largest]) > 0) largest = c;`
unfoldable pub larger : Comparator → List ℕ → ℕ → ℕ → ℕ → Run ℕ
larger cmp a used c largest =
    if leb c used
    then (do higher ← above cmp a c largest; ok (if higher then c else largest))
    else ok largest

unfoldable pub down_loop : Comparator → ℕ → List ℕ → ℕ → ℕ → Run (List ℕ)
down_loop cmp zero a used i = out_of_fuel
down_loop cmp (suc k) a used i =
    if leb i used
    then (do
      l ← larger cmp a used (left i) i
      largest ← larger cmp a used (right i) l
      if largest == i then ok a else (do a' ← swap a largest i; down_loop cmp k a' used largest))
    else ok a

unfoldable pub heapify_down : Heap → Run Heap
heapify_down h = do a ← down_loop h.cmp (h.used + 1) h.slots h.used 1; ok (record h { slots = a })

-- unlike `heapify_down` this compares with both children whatever `used` is
unfoldable pub shift_loop : Comparator → ℕ → List ℕ → ℕ → ℕ → Run (List ℕ)
shift_loop cmp zero a used i = out_of_fuel
shift_loop cmp (suc k) a used i =
    if leb i used
    then (do
      go_left ← above cmp a (left i) i
      if go_left then (do a' ← swap a (left i) i; shift_loop cmp k a' used (left i)) else (do
        go_right ← above cmp a (right i) i
        if go_right
            then (do a' ← swap a (right i) i; shift_loop cmp k a' used (right i))
            else ok a))
    else ok a

unfoldable pub shift_down : Heap → ℕ → Run Heap
shift_down h i = do a ← shift_loop h.cmp (h.used + 1) h.slots h.used i; ok (record h { slots = a })

unfoldable pub extract_max : Heap → Run (ℕ × Heap)
extract_max h = do
  item ← load h.slots 1
  last ← load h.slots h.used
  a ← store h.slots 1 last
  h' ← heapify_down (record h { slots = a; used = h.used - 1 })
  ok (item, h')

-- `realloc` keeps the old contents, and fills what is new with `junk`.
unfoldable pub realloc : ℕ → List ℕ → ℕ → List ℕ
realloc junk a n = take n (a ++ replicate (n - length a) junk)

-- The result is not looked at by any caller.
unfoldable pub resize : Option ℕ → Heap → ℕ → Heap
resize memory h n =
    if not (h.conf.max == 0) && (h.size == h.conf.max)
    then h
    else (let m = if h.conf.max == 0 then n else if ltb h.conf.max n then h.conf.max else n in
        elim memory [
          | none ↦ h
          | some junk ↦ record h { slots = realloc junk h.slots m; size = m }
        ])

-- `((double) used / size) > trigger`, and `size * rate` cut to an integer
abbrev pub exceeds : Ratio → ℕ → ℕ → Bool
exceeds t used size = ltb (t.num * size) (used * t.den)

abbrev pub scale : Ratio → ℕ → ℕ
scale r n = n * r.num / r.den

abbrev pub note : Bool → Event → List Event → List Event
note flag e es = if flag then e ∷ es else es

unfoldable pub grow : Option ℕ → Heap → Heap
unfolding resize
grow memory h =
    if exceeds h.conf.trigger h.used h.size then resize memory h (scale h.conf.rate h.size) else h

-- `memory` says what `realloc` answers: `none` if it fails.
unfoldable pub insert : Option ℕ → Heap → ℕ → Run (Bool × Heap)
insert memory h item =
    if item == null
    then ok (false, h)
    else if not (h.conf.max == 0) && (h.conf.max == h.used)
    then ok (false, h)
    else (do
      a ← store h.slots (h.used + 1) item
      h' ← heapify_up (record h {
        slots = a;
        used = h.used + 1;
        events = note h.conf.rc_item (ref_inc item) h.events;
      })
      ok (true, grow memory h'))

unfoldable pub get : Heap → Run (ℕ × Heap)
get h = if h.used == 0 then ok (null, h) else (do
  item ← load h.slots 1
  ok (item, record h { events = note h.conf.rc_item (ref_inc item) h.events }))

unfoldable pub remove : Heap → Run (ℕ × Heap)
remove h = if h.used == 0 then ok (null, h) else extract_max h

-- `destructors.item(heap)`: the code hands over the heap, not the item.
unfoldable pub destruct : Heap → Heap
destruct h = record h {
  events = destruct_heap ∷ h.events;
  freed = elim h.conf.destructor [ some true ↦ true | _ ↦ h.freed ];
}

unfoldable pub delete : Heap → Run (Bool × Heap)
delete h = if h.used == 0 then ok (false, h) else (do
  (item, h') ← extract_max h
  ok (
    true,
    if h.conf.rc_item then record h' { events = ref_dec item ∷ h'.events } else destruct h',
  ))

-- for(i = 1; i <= used; i++), `n` rounds left
unfoldable pub remove_loop : ℕ → ℕ → Heap → Run Heap
remove_loop zero i h = ok h
remove_loop (suc n) i h = do
  item ← load h.slots i
  remove_loop n (i + 1) (record h { events = note h.conf.rc_item (ref_dec item) h.events })

unfoldable pub remove_all : Heap → Run Heap
remove_all h =
    if h.used == 0 then ok h else (do h' ← remove_loop h.used 1 h; ok (record h' { used = 0 }))

-- Each round reads the structure, which the round before may have freed.
unfoldable pub delete_loop : ℕ → ℕ → Heap → Run Heap
delete_loop zero i h = if h.freed then fault else ok h
delete_loop (suc n) i h = if h.freed then fault else (do
  item ← load h.slots i
  delete_loop n (i + 1)
      (if h.conf.rc_item then record h { events = ref_dec item ∷ h.events } else destruct h))

unfoldable pub delete_all : Heap → Run Heap
delete_all h =
    if h.used == 0 then ok h else (do h' ← delete_loop h.used 1 h; ok (record h' { used = 0 }))
