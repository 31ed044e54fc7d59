-- ===== src/Heap/Sift.antt =====
-- heapify_up and heapify_down of data_structures/heap.c restore the heap order.
use c_utils.Base.{
  ℕ, zero, suc, ◌+◌, ◌≤◌, ◌<◌, ◌≡◌, refl, ◌≢◌, List, arith, ltb, leb, Comparator, Ranks, length, ok,
  Returns, returns, Returns-bind, Returns-if, ◌>>=◌, ◌&&◌, ◌==◌, if◌then◌else◌,
}
use c_utils.Heap.{
  Heap, heapify_up, heapify_down, parent, left, right, swap, up_loop, larger, down_loop,
}
use c_utils.Heap.Array.{at, swap-ok, swapped, length-swapped, at-swapped}
use c_utils.Heap.Order.{IsBridged, Sifted, Sifted-swap, above-ranked}

-- Only the edge above `i` may be out of order.
pub record UpInv (rank : ℕ → ℕ) (a : List ℕ) (used i : ℕ) : Type 0 where
  pub room : used < length a
  pub inside : i ≤ used
  pub edges : (c : ℕ) → 1 < c → c ≤ used → c ≢ i → rank (at a c) ≤ rank (at a (parent c))
  pub bridged : IsBridged rank a used i

swapped-UpInv :
    (rank : ℕ → ℕ) (a : List ℕ) (used i : ℕ)
    → UpInv rank a used i
    → 1 < i
    → rank (at a (parent i)) < rank (at a i)
    → UpInv rank (swapped a i (parent i)) used (parent i)
swapped-UpInv rank a used i v p q =
    let moved = at-swapped a i (parent i) (omega arith) (omega arith) in
    record {
      room = omega (arith, length-swapped a i (parent i));
      inside = omega arith;
      edges = λ c s t u.
          ground (arith, moved c, moved (parent c), v.edges c, v.edges (parent i), v.bridged c);
      bridged = λ c s t u w.
          ground (arith, moved c, moved (parent (parent i)), v.edges c, v.edges (parent i));
    }

module _ {cmp : Comparator} (r : Ranks cmp) where
  pub up_loop-Sifted :
      (k : ℕ) (a : List ℕ) (used i : ℕ)
      → i < k
      → UpInv r.rank a used i
      → Returns (Sifted r.rank a used) (up_loop cmp k a i)
  unfolding up_loop
  up_loop-Sifted zero a used i f v = absurd (omega arith)
  up_loop-Sifted (suc k) a used i f v =
      Returns-if (ltb 1 i)
        (λ e.
          let p : 1 < i = ground arith in
          rw
            (
              above-ranked r a i (parent i) (omega arith) (omega arith),
              swap-ok a i (parent i) (omega arith) (omega arith),
            )
            (Returns-if (ltb (r.rank (at a (parent i))) (r.rank (at a i)))
              (λ higher.
                Sifted-swap r.rank used i (parent i) a v.room (omega arith) v.inside (omega arith)
                  (omega arith)
                  (up_loop-Sifted k (swapped a i (parent i)) used (parent i) (omega arith)
                    (swapped-UpInv r.rank a used i v p (ground arith))))
              (λ settled. returns ((λ c s t. ground (arith, v.edges c)), (λ x. refl), refl))))
        (λ e. returns ((λ c s t. ground (arith, v.edges c)), (λ x. refl), refl))

-- Only the edges below `i` may be out of order.
pub record DownInv (rank : ℕ → ℕ) (a : List ℕ) (used i : ℕ) : Type 0 where
  pub room : used < length a
  pub positive : 0 < i
  pub edges : (c : ℕ) → 1 < c → c ≤ used → parent c ≢ i → rank (at a c) ≤ rank (at a (parent c))
  pub bridged : IsBridged rank a used i

-- What `larger` chooses.
bigger : (ℕ → ℕ) → List ℕ → ℕ → ℕ → ℕ → ℕ
bigger rank a used c l = if leb c used && ltb (rank (at a l)) (rank (at a c)) then c else l

-- The highest of `i` and its children.
top_of : (ℕ → ℕ) → List ℕ → ℕ → ℕ → ℕ
unfolding bigger
top_of rank a used i = bigger rank a used (right i) (bigger rank a used (left i) i)

-- `m` is a child of `i` above it and above its sibling.
record IsTopChild (rank : ℕ → ℕ) (a : List ℕ) (used i m : ℕ) : Type 0 where
  inside : m ≤ used
  child : parent m ≡ i
  later : i < m
  higher : rank (at a i) < rank (at a m)
  top : (c : ℕ) → 1 < c → c ≤ used → parent c ≡ i → rank (at a c) ≤ rank (at a m)

top_of-IsTopChild :
    (rank : ℕ → ℕ) (a : List ℕ) (used i : ℕ)
    → 0 < i
    → top_of rank a used i ≢ i
    → IsTopChild rank a used i (top_of rank a used i)
unfolding top_of
top_of-IsTopChild rank a used i p h = record {
  inside = ground arith;
  child = ground arith;
  later = ground arith;
  higher = ground arith;
  top = λ c s t u. ground arith;
}

top_of-settled :
    (rank : ℕ → ℕ) (a : List ℕ) (used i c : ℕ)
    → top_of rank a used i ≡ i
    → 0 < i
    → c ≤ used
    → parent c ≡ i
    → 1 < c
    → rank (at a c) ≤ rank (at a i)
unfolding top_of
top_of-settled rank a used i c h p q s t = ground arith

swapped-DownInv :
    (rank : ℕ → ℕ) (a : List ℕ) (used i m : ℕ)
    → DownInv rank a used i
    → i ≤ used
    → IsTopChild rank a used i m
    → DownInv rank (swapped a m i) used m
swapped-DownInv rank a used i m v p t =
    let at' = at-swapped a m i (omega arith) (omega arith) in
    record {
      room = omega (arith, length-swapped a m i);
      positive = omega arith;
      edges = λ c s u w. ground (arith, at' c, at' (parent c), v.edges c, v.bridged m, t.top c);
      bridged = λ c s u w x. ground (arith, at' c, at' (parent m), v.edges c);
    }

bigger-le : (rank : ℕ → ℕ) (a : List ℕ) (used c l : ℕ) → l ≤ used → bigger rank a used c l ≤ used
unfolding bigger
bigger-le rank a used c l p = ground arith

module _ {cmp : Comparator} (r : Ranks cmp) where
  larger-bigger :
      (a : List ℕ) (used c l : ℕ)
      → used < length a
      → l ≤ used
      → larger cmp a used c l ≡ ok (bigger r.rank a used c l)
  unfolding larger bigger
  larger-bigger a used c l room p = ground (arith, above-ranked r a c l)

  down_again :
      (k : ℕ) (a : List ℕ) (used i : ℕ) {m : ℕ}
      → used + 1 < i + suc k
      → DownInv r.rank a used i
      → i ≤ used
      → IsTopChild r.rank a used i m
      → (used + 1 < m + k
          → m ≤ used + 1
          → DownInv r.rank (swapped a m i) used m
          → Returns (Sifted r.rank (swapped a m i) used) (down_loop cmp k (swapped a m i) used m))
      → Returns (Sifted r.rank a used) (swap a m i >>= λ b. down_loop cmp k b used m)
  down_again k a used i {m} f v p t again = rw (swap-ok a m i (omega arith) (omega arith)) (
      Sifted-swap r.rank used m i a v.room (omega arith) t.inside v.positive p
        (again (omega arith) (omega arith) (swapped-DownInv r.rank a used i m v p t)))

  pub down_loop-Sifted :
      (k : ℕ) (a : List ℕ) (used i : ℕ)
      → used + 1 < i + k
      → i ≤ used + 1
      → DownInv r.rank a used i
      → Returns (Sifted r.rank a used) (down_loop cmp k a used i)
  unfolding down_loop top_of
  down_loop-Sifted zero a used i f g v = absurd (omega arith)
  down_loop-Sifted (suc k) a used i f g v =
      Returns-if (leb i used)
        (λ e.
          let p : i ≤ used = ground arith in
          rw (larger-bigger a used (left i) i v.room p) (
            rw
              (larger-bigger a used (right i) (bigger r.rank a used (left i) i) v.room
                (bigger-le r.rank a used (left i) i p))
              (Returns-if (top_of r.rank a used i == i)
                (λ same. returns (
                  (λ c s t. ground (arith, v.edges c, top_of-settled r.rank a used i c)),
                  (λ x. refl),
                  refl,
                ))
                (λ other.
                  down_again k a used i f v p
                    (top_of-IsTopChild r.rank a used i v.positive (ground arith))
                    (down_loop-Sifted k _ used (top_of r.rank a used i))))))
        (λ e. returns ((λ c s t. ground (arith, v.edges c)), (λ x. refl), refl))

module _ (h : Heap) (r : Ranks h.cmp) where
  -- The heap with its slots sifted.
  abbrev pub IsSifted : Heap → Type 0
  IsSifted h' = (a : List ℕ) × (h' ≡ record h { slots = a }) × Sifted r.rank h.slots h.used a

  -- `heapify_up` restores a heap whose last item may be too low in the tree.
  pub heapify_up-Sifted : UpInv r.rank h.slots h.used h.used → Returns IsSifted (heapify_up h)
  unfolding heapify_up
  heapify_up-Sifted v =
      Returns-bind (up_loop-Sifted r (h.used + 1) h.slots h.used h.used (omega arith) v)
        λ a s. returns (a, refl, s)

  -- `heapify_down` restores a heap whose root may be too high in the tree.
  pub heapify_down-Sifted : DownInv r.rank h.slots h.used 1 → Returns IsSifted (heapify_down h)
  unfolding heapify_down
  heapify_down-Sifted v =
      Returns-bind (down_loop-Sifted r (h.used + 1) h.slots h.used 1 (omega arith) (omega arith) v)
        λ a s. returns (a, refl, s)
