-- ===== src/Heap/Fresh.antt =====
-- New heaps of data_structures/heap.c: from a configuration, and from an array.
use c_utils.Base.{
  ℕ, zero, suc, ◌+◌, ◌/◌, ◌≤◌, ◌≡◌, refl, ◌∙◌, true, false, some, List, [], ◌∷◌, arith, Comparator,
  length, length-set, length-replicate, replicate, ok, Returns, returns, Returns-bind, Returns-mono,
}
use c_utils.Heap.{Heap, HeapConf, shift_loop, shift_down}
use c_utils.Heap.Create.{Memory, create_conf, configure, create_from_conf, fill, shift_all, raise}
use c_utils.Heap.Array.{store-ok}
use c_utils.Heap.Insert.{IsValid, count}
use c_utils.Heap.Session.{count-empty, IsRoomy}

-- Every allocation succeeds, and the memory for the structure happens to be zeroed.
pub record IsZeroed (m : Memory) : Type 0 where
  pub heap_ok : m.heap_ok ≡ true
  pub lock_ok : m.lock_ok ≡ true
  pub slots_ok : m.slots_ok ≡ true
  pub used : m.junk_used ≡ 0

-- A configuration of zeros, but for what does not bear on the capacity.
pub record IsBlank (c : HeapConf) : Type 0 where
  pub initial : c.initial ≡ 0
  pub max : c.max ≡ 0
  pub rate : c.rate.num ≡ 0
  pub trigger : c.trigger.num ≡ 0

-- What `create_with` makes when all goes well.
abbrev pub fresh : Memory → Comparator → HeapConf → Heap
fresh m cmp c = record {
  slots = replicate c.initial m.junk;
  cmp = cmp;
  size = c.initial;
  used = m.junk_used;
  conf = c;
  events = [];
  freed = false;
}

create_conf-fresh :
    (m : Memory) (cmp : Comparator) (c : HeapConf)
    → IsZeroed m
    → create_conf m (some cmp) (some c) ≡ some (fresh m cmp (configure c))
unfolding create_conf
create_conf-fresh m cmp c z = rw (z.heap_ok, z.lock_ok, z.slots_ok)

-- c_utils_heap_create_conf with a configuration of zeros gives an empty valid heap with the
-- default capacity, if the allocations succeed and malloc happens to leave 0 in the field of the
-- number of items.
pub create_conf-IsRoomy :
    (rank : ℕ → ℕ) (m : Memory) (cmp : Comparator) (c : HeapConf)
    → IsZeroed m
    → IsBlank c
    → (h : Heap) × (create_conf m (some cmp) (some c) ≡ some h)
      × IsValid rank h
      × IsRoomy h
      × (h.used ≡ 0)
      × (h.cmp ≡ cmp)
unfolding configure
create_conf-IsRoomy rank m cmp c z b = (
  fresh m cmp (configure c),
  create_conf-fresh m cmp c z,
  record {
    sized = length-replicate (configure c).initial m.junk;
    room = ground (arith, z.used, b.initial);
    ordered = λ i p q. omega (arith, z.used);
  },
  record {
    default = record {
      unbounded = b.max;
      rate = ground (arith, b.rate);
      trigger = ground (arith, b.trigger);
    };
    big = ground (arith, b.initial);
    filled = ground (arith, z.used);
  },
  z.used,
  refl,
)

fill-length :
    (a : List ℕ) (i : ℕ) (xs : List ℕ)
    → i + length xs ≤ length a
    → Returns (λ b. length b ≡ length a) (fill a i xs)
unfolding fill
fill-length a i [] p = returns refl
fill-length a i (x ∷ xs) p = rw (store-ok a i x (omega arith)) (
    Returns-mono (fill-length _ (i + 1) xs (omega (arith, length-set a i x)))
      λ b e. e ∙ length-set a i x)

-- On an empty heap there is nothing to sift.
shift_all-empty : (i : ℕ) (h : Heap) → h.used ≡ 0 → shift_all i h ≡ ok h
unfolding shift_all shift_down shift_loop
shift_all-empty zero h e = refl
shift_all-empty (suc i) h e = ground (arith, shift_all-empty i h e)

raised-length :
    (x : ℕ) (xs : List ℕ) (c : HeapConf) → length (x ∷ xs) ≤ (configure (raise (x ∷ xs) c)).initial
unfolding configure
raised-length x xs c = ground arith

-- c_utils_heap_create_from_conf with an array that is not empty, where the allocations succeed
-- and malloc happens to leave 0 in the field of the number of items, returns a heap that has none
-- of the items.
pub create_from_conf-empty :
    (m : Memory) (cmp : Comparator) (x : ℕ) (xs : List ℕ) (c : HeapConf)
    → IsZeroed m
    → Returns
        (λ o. (h : Heap) × (o ≡ some h) × (h.used ≡ 0) × ((y : ℕ) → count y h ≡ 0))
        (create_from_conf m (some cmp) (x ∷ xs) (some c))
unfolding create_from_conf
create_from_conf-empty m cmp x xs c z =
    let h = fresh m cmp (configure (raise (x ∷ xs) c)) in
    rw (create_conf-fresh m cmp (raise (x ∷ xs) c) z) (
      Returns-bind
        (fill-length h.slots 0 (x ∷ xs)
          (omega (arith, length-replicate h.size m.junk, raised-length x xs c)))
        λ a e.
          rw (shift_all-empty (length (x ∷ xs) / 2) (record h { slots = a }) z.used)
            (returns (_, refl, z.used, λ y. count-empty y _ z.used)))
