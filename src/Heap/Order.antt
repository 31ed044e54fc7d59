-- ===== src/Heap/Order.antt =====
-- The heap order of data_structures/heap.c: no item is above its parent.
use c_utils.Base.{
  ℕ, zero, suc, ◌≤◌, ◌<◌, ◌≡◌, List, arith, ltb, Comparator, is_gt, Ranks, length, set, length-set,
  get_or-set, Run, ok, Returns, Returns-mono, compare, ◌∙◌, ap,
}
use c_utils.Heap.{parent, above}
use c_utils.Heap.Array.{at, occurs, above-ok, swapped, length-swapped, occurs-set}

abbrev pub IsHeap : (ℕ → ℕ) → List ℕ → ℕ → Type 0
IsHeap rank a used = (c : ℕ) → 1 < c → c ≤ used → rank (at a c) ≤ rank (at a (parent c))

-- The edges past `i`, from its parent to its children, are in order.
abbrev pub IsBridged : (ℕ → ℕ) → List ℕ → ℕ → ℕ → Type 0
IsBridged rank a used i =
    (c : ℕ) → 1 < c → c ≤ used → parent c ≡ i → 1 < i → rank (at a c) ≤ rank (at a (parent i))

-- `b` holds the items of `a`, in heap order.
abbrev pub Sifted : (ℕ → ℕ) → List ℕ → ℕ → List ℕ → Type 0
Sifted rank a used b =
    IsHeap rank b used × ((x : ℕ) → occurs x b used ≡ occurs x a used) × (length b ≡ length a)

pub is_gt-compare : (x y : ℕ) → is_gt (compare x y) ≡ ltb y x
is_gt-compare x y = ground arith

pub above-ranked :
    {cmp : Comparator} (r : Ranks cmp) (a : List ℕ) (i j : ℕ)
    → i < length a
    → j < length a
    → above cmp a i j ≡ ok (ltb (r.rank (at a j)) (r.rank (at a i)))
above-ranked {cmp} r a i j p q =
    above-ok a cmp i j p q ∙ ap ok (ap is_gt (r.agrees (at a i) (at a j)) ∙ is_gt-compare _ _)

-- A swap within the range keeps the items.
pub occurs-swapped :
    (x : ℕ) (a : List ℕ) (i j n : ℕ)
    → n < length a
    → 0 < i
    → i ≤ n
    → 0 < j
    → j ≤ n
    → occurs x (swapped a i j) n ≡ occurs x a n
occurs-swapped x a i j n room p q s t =
    let b = set a i (at a j) in
    ground (
      arith,
      occurs-set x a i (at a j) n (omega arith) p q,
      occurs-set x b j (at a i) n (omega (arith, length-set a i (at a j))) s t,
      get_or-set a i j (at a j) 0 (omega arith),
    )

pub Sifted-swap :
    (rank : ℕ → ℕ) (used i j : ℕ) (a : List ℕ) {run : Run (List ℕ)}
    → used < length a
    → 0 < i
    → i ≤ used
    → 0 < j
    → j ≤ used
    → Returns (Sifted rank (swapped a i j) used) run
    → Returns (Sifted rank a used) run
Sifted-swap rank used i j a room p q s t run = Returns-mono run λ b (heap, same, size).
    (heap, (λ x. same x ∙ occurs-swapped x a i j used room p q s t), size ∙ length-swapped a i j)

root_above_below :
    (rank : ℕ → ℕ) (k : ℕ) (a : List ℕ) (used i : ℕ)
    → IsHeap rank a used
    → i < k
    → 0 < i
    → i ≤ used
    → rank (at a i) ≤ rank (at a 1)
root_above_below rank zero a used i h f p q = absurd (omega arith)
root_above_below rank (suc k) a used i h f p q =
    ground (arith, h i, root_above_below rank k a used (parent i) h)

-- The root of a heap is above every item.
pub root_above :
    (rank : ℕ → ℕ) (a : List ℕ) (used i : ℕ)
    → IsHeap rank a used
    → 0 < i
    → i ≤ used
    → rank (at a i) ≤ rank (at a 1)
root_above rank a used i h p q = root_above_below rank (suc i) a used i h (omega arith) p q
