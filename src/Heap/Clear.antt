-- ===== src/Heap/Clear.antt =====
-- c_utils_heap_remove_all and c_utils_heap_delete_all of data_structures/heap.c, and the limits of
-- the heap.
use c_utils.Base.{
  subst, ok-bind, ok-if, ok-injective, ◌∙◌, ℕ, zero, suc, ◌+◌, ◌-◌, ◌≤◌, ◌<◌, ◌≡◌, refl, ◌≢◌, true,
  false, Option, some, List, [], ◌∷◌, arith, ◌==◌, if◌then◌else◌, ap, Bool-cases, ==_true, inl, inr,
  length, ok, fault, Returns, returns, Returns-bind, Returns-mono,
}
use c_utils.Heap.{
  Heap, Event, ref_inc, ref_dec, destruct_heap, null, remove_loop, remove_all, delete_loop,
  delete_all, destruct, insert, store, load,
}
use c_utils.Heap.Array.{at, one_if, occurs, load-ok}
use c_utils.Heap.Insert.{IsValid, count}

-- How often the reference to `x` was given up.
unfoldable pub released : ℕ → List Event → ℕ
released x [] = 0
released x (ref_dec y ∷ es) = one_if y x + released x es
released x (ref_inc y ∷ es) = released x es
released x (destruct_heap ∷ es) = released x es

-- Occurrences in the slots from `i`, `n` of them.
occurs_from : ℕ → List ℕ → ℕ → ℕ → ℕ
occurs_from x a zero i = 0
occurs_from x a (suc n) i = one_if (at a i) x + occurs_from x a n (i + 1)

occurs_from_last :
    (x : ℕ) (a : List ℕ) (n i : ℕ)
    → occurs_from x a (suc n) i ≡ occurs_from x a n i + one_if (at a (i + n)) x
unfolding occurs_from
occurs_from_last x a zero i = let e : i + 0 ≡ i = omega arith in rw e (omega arith)
occurs_from_last x a (suc n) i =
    let e : i + suc n ≡ i + 1 + n = omega arith in
    rw e (omega (arith, occurs_from_last x a n (i + 1)))

occurs_from-occurs : (x : ℕ) (a : List ℕ) (n : ℕ) → occurs_from x a n 1 ≡ occurs x a n
unfolding occurs occurs_from
occurs_from-occurs x a zero = refl
occurs_from-occurs x a (suc n) =
    let e : 1 + n ≡ suc n = omega arith in
    omega (arith, rw e at (occurs_from_last x a n 1), occurs_from-occurs x a n)

occurs-zero : (x : ℕ) (a : List ℕ) → occurs x a 0 ≡ 0
unfolding occurs
occurs-zero x a = refl

-- What giving up the items does.
record Released (h : Heap) (n i : ℕ) (h' : Heap) : Type 0 where
  slots : h'.slots ≡ h.slots
  events :
      (x : ℕ)
      → released x h'.events
        ≡ released x h.events + (if h.conf.rc_item then occurs_from x h.slots n i else 0)

remove_loop-Released :
    (n i : ℕ) (h : Heap) → i + n ≤ length h.slots → Returns (Released h n i) (remove_loop n i h)
unfolding remove_loop released occurs_from
remove_loop-Released zero i h p = returns (record { slots = refl; events = λ x. ground arith })
remove_loop-Released (suc n) i h p = rw (load-ok h.slots i (omega arith)) (
    Returns-mono (remove_loop-Released n (i + 1) _ (omega arith))
      λ h' s. record { slots = s.slots; events = λ x. ground (arith, s.events x) })

-- c_utils_heap_remove_all on a valid heap leaves it empty, and releases each item as often as it
-- is in the heap, where items are counted, and never where they are not.
pub remove_all-Released :
    {rank : ℕ → ℕ} (h : Heap)
    → IsValid rank h
    → Returns
        (λ h'.
          (h'.used ≡ 0)
          × ((x : ℕ)
              → released x h'.events
                ≡ released x h.events + (if h.conf.rc_item then count x h else 0)))
        (remove_all h)
unfolding remove_all count
remove_all-Released h v = elim (Bool-cases (h.used == 0)) [
  | inl e ↦
      rw e (returns (==_true _ _ e, λ x. ground (arith, ==_true _ _ e, occurs-zero x h.slots)))
  | inr e ↦ rw e (
      Returns-bind (remove_loop-Released h.used 1 h (omega (arith, v.sized, v.room))) λ h' s.
        returns (refl, λ x. ground (arith, s.events x, occurs_from-occurs x h.slots h.used)))
]

delete_loop-fault : (n i : ℕ) (h : Heap) → h.freed ≡ true → delete_loop n i h ≡ fault
unfolding delete_loop
delete_loop-fault zero i h e = rw e
delete_loop-fault (suc n) i h e = rw e

delete_loop-first :
    (n i : ℕ) (h : Heap)
    → i < length h.slots
    → h.conf.rc_item ≡ false
    → h.conf.destructor ≡ some true
    → delete_loop (suc n) i h ≡ fault
unfolding delete_loop destruct
delete_loop-first n i h p counted default =
    ground (arith, load-ok h.slots i p, delete_loop-fault n (i + 1) (destruct h))

-- c_utils_heap_delete_all on a valid heap that is not empty, with the default destructor and
-- items that are not counted, frees the heap itself and uses it afterwards.
pub delete_all-fault :
    {rank : ℕ → ℕ} (h : Heap)
    → IsValid rank h
    → 0 < h.used
    → h.conf.rc_item ≡ false
    → h.conf.destructor ≡ some true
    → delete_all h ≡ fault
unfolding delete_all
delete_all-fault h v p counted default =
    let e : h.used ≡ suc (h.used - 1) = omega arith in
    ground (
      arith,
      ap (λ n. delete_loop n 1 h) e,
      delete_loop-first (h.used - 1) 1 h (omega (arith, v.sized, v.room)) counted default,
    )

-- `c_utils_heap_insert` into a full heap reports it and changes nothing.
pub insert_full :
    (memory : Option ℕ) (h : Heap) (item : ℕ)
    → h.conf.max ≢ 0
    → h.conf.max ≡ h.used
    → insert memory h item ≡ ok (false, h)
unfolding insert
insert_full memory h item p q = ground arith

-- c_utils_heap_insert into a valid heap whose array has the length of its maximum, and which has
-- one item less than that, writes past the end of the array.
pub insert_last-fault :
    {rank : ℕ → ℕ} (memory : Option ℕ) (h : Heap) (item : ℕ)
    → IsValid rank h
    → item ≢ null
    → h.conf.max ≡ h.size
    → h.used + 1 ≡ h.size
    → insert memory h item ≡ fault
unfolding insert store
insert_last-fault memory h item v real p q = ground (arith, v.sized)

-- The same heap but for its events and for the memory that it lost.
record SameHeap (h h' : Heap) : Type 0 where
  pub slots : h'.slots ≡ h.slots
  pub size : h'.size ≡ h.size
  pub used : h'.used ≡ h.used
  pub cmp : h'.cmp ≡ h.cmp
  pub conf : h'.conf ≡ h.conf

-- The loop of c_utils_heap_remove_all only gives up references.
remove_loop-same :
    (n i : ℕ) (h : Heap) → i + n ≤ length h.slots → Returns (SameHeap h) (remove_loop n i h)
unfolding remove_loop
remove_loop-same zero i h p =
    returns (record { slots = refl; size = refl; used = refl; cmp = refl; conf = refl })
remove_loop-same (suc n) i h p = rw (load-ok h.slots i (omega arith)) (
    Returns-mono (remove_loop-same n (i + 1) _ (omega arith))
      λ h' s. record { slots = s.slots; size = s.size; used = s.used; cmp = s.cmp; conf = s.conf })

-- The heap without its items.
pub record Emptied (h h' : Heap) : Type 0 where
  pub slots : h'.slots ≡ h.slots
  pub size : h'.size ≡ h.size
  pub used : h'.used ≡ 0
  pub cmp : h'.cmp ≡ h.cmp
  pub conf : h'.conf ≡ h.conf

SameHeap-Emptied : (h h' : Heap) → SameHeap h h' → Emptied h (record h' { used = 0 })
SameHeap-Emptied h h' s = record {
  slots = s.slots;
  size = s.size;
  used = refl;
  cmp = s.cmp;
  conf = s.conf;
}

-- c_utils_heap_remove_all on a valid heap keeps its slots.
pub remove_all-Emptied :
    {rank : ℕ → ℕ} (h : Heap) → IsValid rank h → Returns (Emptied h) (remove_all h)
unfolding remove_all
remove_all-Emptied h v = elim (Bool-cases (h.used == 0)) [
  | inl e ↦ rw e (
      returns (record { slots = refl; size = refl; used = ==_true _ _ e; cmp = refl; conf = refl }))
  | inr e ↦ rw e (
      Returns-bind (remove_loop-same h.used 1 h (omega (arith, v.sized, v.room)))
        λ h' s. returns (SameHeap-Emptied h h' s))
]

SameHeap-trans : (h m h' : Heap) → SameHeap h m → SameHeap m h' → SameHeap h h'
SameHeap-trans h m h' s t = record {
  slots = t.slots ∙ s.slots;
  size = t.size ∙ s.size;
  used = t.used ∙ s.used;
  cmp = t.cmp ∙ s.cmp;
  conf = t.conf ∙ s.conf;
}

-- What one round of the loop leaves.
deleted : Heap → ℕ → Heap
deleted h item =
    if h.conf.rc_item then record h { events = ref_dec item ∷ h.events } else destruct h

deleted-same : (h : Heap) (item : ℕ) → SameHeap h (deleted h item)
unfolding deleted destruct
deleted-same h item = elim (Bool-cases h.conf.rc_item) [
  | inl e ↦ rw e (record { slots = refl; size = refl; used = refl; cmp = refl; conf = refl })
  | inr e ↦ rw e (record { slots = refl; size = refl; used = refl; cmp = refl; conf = refl })
]

delete_loop-same : (n i : ℕ) (h h' : Heap) → delete_loop n i h ≡ ok h' → SameHeap h h'
unfolding delete_loop deleted
delete_loop-same zero i h h' e =
    subst (SameHeap h) (ok-injective (ok-if h.freed _ e))
      (record { slots = refl; size = refl; used = refl; cmp = refl; conf = refl })
delete_loop-same (suc n) i h h' e =
    let (item, _, rest) = ok-bind (load h.slots i) _ (ok-if h.freed _ e) in
    SameHeap-trans h (deleted h item) h' (deleted-same h item)
      (delete_loop-same n (i + 1) (deleted h item) h' rest)

-- c_utils_heap_delete_all keeps the slots too, where it returns.
pub delete_all-Emptied : (h h' : Heap) → delete_all h ≡ ok h' → Emptied h h'
unfolding delete_all
delete_all-Emptied h h' e = elim (Bool-cases (h.used == 0)) [
  | inl z ↦
      subst (Emptied h) (ok-injective (rw z at e))
        (record { slots = refl; size = refl; used = ==_true _ _ z; cmp = refl; conf = refl })
  | inr z ↦
      let (m, looped, same) = ok-bind (delete_loop h.used 1 h) _ (rw z at e) in
      subst (Emptied h) (ok-injective same)
        (SameHeap-Emptied h m (delete_loop-same h.used 1 h m looped))
]
