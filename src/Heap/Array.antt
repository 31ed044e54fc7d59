-- ===== src/Heap/Array.antt =====
-- The slots of the heap as an array: accesses in bounds, and how often an item stands in it.
use c_utils.Base.{
  ℕ, zero, suc, ◌+◌, ◌≤◌, ◌<◌, ◌≡◌, refl, List, arith, ◌==◌, if◌then◌else◌, Comparator, is_gt,
  length, get_or, set, length-set, get_elem?-lt, get_or-set, ok,
}
use c_utils.Heap.{load, store, swap, above}

-- The item in a slot.
abbrev pub at : List ℕ → ℕ → ℕ
at a i = get_or a i 0

-- How often `x` stands in the slots 1 to `n`.
unfoldable pub occurs : ℕ → List ℕ → ℕ → ℕ
occurs x a zero = 0
occurs x a (suc n) = (if at a (suc n) == x then 1 else 0) + occurs x a n

abbrev pub one_if : ℕ → ℕ → ℕ
one_if y x = if y == x then 1 else 0

module _ (a : List ℕ) where
  pub load-ok : (i : ℕ) → i < length a → load a i ≡ ok (at a i)
  unfolding load
  load-ok i h = ground (arith, get_elem?-lt a i 0)

  pub store-ok : (i x : ℕ) → i < length a → store a i x ≡ ok (set a i x)
  unfolding store
  store-ok i x h = ground arith

  pub above-ok :
      (cmp : Comparator) (i j : ℕ)
      → i < length a
      → j < length a
      → above cmp a i j ≡ ok (is_gt (cmp (at a i) (at a j)))
  unfolding above
  above-ok cmp i j p q = ground (arith, load-ok i p, load-ok j q)

-- The slots after a swap.
abbrev pub swapped : List ℕ → ℕ → ℕ → List ℕ
swapped a i j = set (set a i (at a j)) j (at a i)

pub swap-ok : (a : List ℕ) (i j : ℕ) → i < length a → j < length a → swap a i j ≡ ok (swapped a i j)
unfolding swap
swap-ok a i j p q = ground (
  arith,
  load-ok a i p,
  load-ok a j q,
  store-ok a i (at a j) p,
  length-set a i (at a j),
  store-ok (set a i (at a j)) j (at a i),
)

pub length-swapped : (a : List ℕ) (i j : ℕ) → length (swapped a i j) ≡ length a
length-swapped a i j = simp length-set

module _ (a : List ℕ) (i j : ℕ) (hi : i < length a) (hj : j < length a) where
  pub at-swapped :
      (c : ℕ)
      → at (swapped a i j) c ≡ (if j == c then at a i else if i == c then at a j else at a c)
  at-swapped c = rw (
    get_or-set (set a i (at a j)) j c (at a i) 0 (rw length-set hj),
    get_or-set a i c (at a j) 0 hi,
  )

-- A write in the range trades the old item for the new one.
pub occurs-set :
    (x : ℕ) (a : List ℕ) (i v n : ℕ)
    → i < length a
    → 0 < i
    → i ≤ n
    → occurs x (set a i v) n + one_if (at a i) x ≡ occurs x a n + one_if v x
unfolding occurs
occurs-set x a i v zero h p q = absurd (omega arith)
occurs-set x a i v (suc n) h p q =
    ground (arith, get_or-set a i (suc n) v 0 h, occurs-set x a i v n, occurs-set_above x a i v n h)
  where
    occurs-set_above :
        (x : ℕ) (a : List ℕ) (i v n : ℕ)
        → i < length a
        → n < i
        → occurs x (set a i v) n ≡ occurs x a n
    occurs-set_above x a i v zero h q = refl
    occurs-set_above x a i v (suc n) h q =
        ground (arith, get_or-set a i (suc n) v 0 h, occurs-set_above x a i v n)
