-- ===== src/Heap/Remove.antt =====
-- c_utils_heap_get, c_utils_heap_remove and c_utils_heap_delete of data_structures/heap.c.
use c_utils.Base.{
  ap, ℕ, zero, suc, ◌+◌, ◌-◌, ◌≤◌, ◌<◌, ◌≡◌, refl, ◌∙◌, List, arith, ◌==◌, Ranks, length, set,
  length-set, get_or-set, Returns, returns, Returns-bind, Returns-if,
}
use c_utils.Heap.{Heap, parent, extract_max, remove}
use c_utils.Heap.Array.{at, one_if, occurs, load-ok, store-ok, occurs-set}
use c_utils.Heap.Order.{root_above}
use c_utils.Heap.Sift.{DownInv, heapify_down-Sifted}
use c_utils.Heap.Insert.{IsValid, count}

-- What taking the root does: no item left is above the one that is returned.
pub record Removed (rank : ℕ → ℕ) (h : Heap) (r : ℕ × Heap) : Type 0 where
  pub valid : IsValid rank r.1
  pub used : r.1.used + 1 ≡ h.used
  pub items : (x : ℕ) → count x r.1 + one_if r.0 x ≡ count x h
  pub highest : (i : ℕ) → 0 < i → i ≤ h.used → rank (at h.slots i) ≤ rank r.0
  pub size : r.1.size ≡ h.size
  pub cmp : r.1.cmp ≡ h.cmp
  pub conf : r.1.conf ≡ h.conf

-- The last item moves to the root, and the root leaves.
occurs-last_first :
    (x : ℕ) (a : List ℕ) (n : ℕ)
    → 0 < n
    → n < length a
    → occurs x (set a 1 (at a n)) (n - 1) + one_if (at a 1) x ≡ occurs x a n
unfolding occurs
occurs-last_first x a zero p q = absurd (omega arith)
occurs-last_first x a (suc zero) p q = omega arith
occurs-last_first x a (suc (suc n)) p q =
    let e : suc (suc n) - 1 ≡ suc n = omega arith in
    rw e (
      ground (
        arith,
        occurs-set x a 1 (at a (suc (suc n))) (suc n) (omega arith) (omega arith) (omega arith),
      ))

module _ (h : Heap) (r : Ranks h.cmp) (v : IsValid r.rank h) (some_ : 0 < h.used) where
  abbrev last_first : List ℕ
  last_first = set h.slots 1 (at h.slots h.used)

  last_first-DownInv : DownInv r.rank last_first (h.used - 1) 1
  last_first-DownInv = record {
    room = omega (arith, v.sized, v.room, length-set h.slots 1 (at h.slots h.used));
    positive = omega arith;
    edges = λ c p q s. ground (
      arith,
      v.sized,
      v.room,
      v.ordered c,
      get_or-set h.slots 1 c (at h.slots h.used) 0,
      get_or-set h.slots 1 (parent c) (at h.slots h.used) 0,
    );
    bridged = λ c p q s t. omega arith;
  }

  -- Taking the root gives a highest item, and leaves a valid heap of the others.
  pub extract_max-Removed : Returns (Removed r.rank h) (extract_max h)
  unfolding extract_max count
  extract_max-Removed =
      rw
        (
          load-ok h.slots 1 (omega (arith, v.sized, v.room)),
          load-ok h.slots h.used (omega (arith, v.sized, v.room)),
          store-ok h.slots 1 (at h.slots h.used) (omega (arith, v.sized, v.room)),
        )
        (Returns-bind
          (heapify_down-Sifted (record h { slots = last_first; used = h.used - 1 }) r
            last_first-DownInv)
          λ h' (a, e, (heap, same, size)). rw e (
            returns (record {
              valid = record {
                sized = size ∙ length-set h.slots 1 _ ∙ v.sized;
                room = omega (arith, v.room);
                ordered = heap;
              };
              used = omega arith;
              items = λ x.
                  ap (λ n. n + one_if (at h.slots 1) x) (same x)
                  ∙ occurs-last_first x h.slots h.used some_ (omega (arith, v.sized, v.room));
              highest = λ i p q. root_above r.rank h.slots h.used i v.ordered p q;
              size = refl;
              cmp = refl;
              conf = refl;
            })))

-- c_utils_heap_remove on a valid heap that is not empty and whose comparator follows a rank
-- returns an item of the highest rank, and a valid heap with that one item less.
pub remove_correct :
    (h : Heap) (r : Ranks h.cmp)
    → IsValid r.rank h
    → 0 < h.used
    → Returns (Removed r.rank h) (remove h)
unfolding remove
remove_correct h r v p =
    Returns-if (h.used == 0) (λ e. absurd (ground arith)) λ _. extract_max-Removed h r v p
