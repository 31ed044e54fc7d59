-- ===== src/LinkedList/Sorted.antt =====
-- add_sorted of data_structures/list.c: a list with a comparator stays in its order.
use c_utils.Base.{
  ℕ, zero, suc, ◌+◌, ◌≤◌, ◌<◌, ◌≡◌, ◌≢◌, refl, sym, subst, ap, ◌∙◌, append_assoc, Bool, true, List,
  [], ◌∷◌, ◌++◌, arith, ◌==◌, length, ok, Returns, returns, Returns-bind, Returns-if, ◌>>=◌,
  Bool-cases, ==_true, inl, inr, Comparator, Ranks, is_le, is_lt, is_ge, append-nil, is_le-rank,
  is_lt-rank, is_ge-rank, All, if◌then◌else◌,
}
use c_utils.Node.{null, load-ok}
use c_utils.Node.Links.{Cell, Cells, first_or, last_or, last_or-snoc, Links-split}
use c_utils.LinkedList.{LinkedList, add_as_head, add_as_tail, sorted_loop, add_sorted}
use c_utils.LinkedList.Invariant.{IsList, IsLoose}
use c_utils.LinkedList.Add.{Added, add_as_head-Added, add_as_tail-Added}
use c_utils.LinkedList.Between.{add_before-Added}

abbrev pub Below : (ℕ → ℕ) → ℕ → Cells → Type 0
Below rank x = All (λ c. rank c.item ≤ rank x)

abbrev pub Above : (ℕ → ℕ) → ℕ → Cells → Type 0
Above rank x = All (λ c. rank x ≤ rank c.item)

-- No cell has a lower rank than one before it.
abbrev pub Ascends : (ℕ → ℕ) → Cells → Type 0
Ascends rank [] = Unit
Ascends rank (c ∷ cs) = Above rank c.item cs × Ascends rank cs

-- The cell went between those of at most its rank and those of at least its rank.
pub record Placed (rank : ℕ → ℕ) (l : LinkedList) (cells : Cells) (c : Cell) (r : Bool × LinkedList)
    : Type 0 where
  pub front : Cells
  pub back : Cells
  pub split : cells ≡ front ++ back
  pub done : r.0 ≡ true
  pub added : Added l front back c r.1
  pub below : Below rank c.item front
  pub above : Above rank c.item back

All-append {ℓ κ} :
    {A : Type ℓ} (P : A → Type κ) (xs ys : List A) → All P xs → All P ys → All P (xs ++ ys)
All-append P [] ys hx hy = hy
All-append P (x ∷ xs) ys hx hy = (hx.0, All-append P xs ys hx.1 hy)

All-split {ℓ κ} :
    {A : Type ℓ} (P : A → Type κ) (xs ys : List A) → All P (xs ++ ys) → All P xs × All P ys
All-split P [] ys h = (tt, h)
All-split P (x ∷ xs) ys h = let (a, b) = All-split P xs ys h.1 in ((h.0, a), b)

Above-trans :
    (rank : ℕ → ℕ) (x y : ℕ) (cs : Cells) → rank x ≤ rank y → Above rank y cs → Above rank x cs
Above-trans rank x y [] h a = tt
Above-trans rank x y (c ∷ cs) h a = (omega arith, Above-trans rank x y cs h a.1)

Above-first :
    (rank : ℕ → ℕ) (x : ℕ) (d : Cell) (ds : Cells)
    → Ascends rank (d ∷ ds)
    → rank x ≤ rank d.item
    → Above rank x (d ∷ ds)
Above-first rank x d ds a h = (h, Above-trans rank x d.item ds h a.0)

Ascends-split :
    (rank : ℕ → ℕ) (xs ys : Cells) → Ascends rank (xs ++ ys) → Ascends rank xs × Ascends rank ys
Ascends-split rank [] ys a = (tt, a)
Ascends-split rank (x ∷ xs) ys a =
    let (below, above) = All-split _ xs ys a.0 in
    let (front, back) = Ascends-split rank xs ys a.1 in ((below, front), back)

Below-last :
    (rank : ℕ → ℕ) (x : ℕ) (xs : Cells) (t : Cell)
    → Ascends rank (xs ++ t ∷ [])
    → rank t.item ≤ rank x
    → Below rank x (xs ++ t ∷ [])
Below-last rank x [] t a h = (h, tt)
Below-last rank x (y ∷ ys) t a h =
    (omega (arith, (All-split _ ys (t ∷ []) a.0).1.0), Below-last rank x ys t a.1 h)

-- A cell that is put between lower and higher ones keeps the order.
pub Ascends-insert :
    (rank : ℕ → ℕ) (c : Cell) (xs ys : Cells)
    → Ascends rank (xs ++ ys)
    → Below rank c.item xs
    → Above rank c.item ys
    → Ascends rank (xs ++ c ∷ ys)
Ascends-insert rank c [] ys a b h = (h, a)
Ascends-insert rank c (x ∷ xs) ys a b h =
    let (front, back) = All-split _ xs ys a.0 in
    (All-append _ xs (c ∷ ys) front (b.0, back), Ascends-insert rank c xs ys a.1 b.1 h)

-- A chain with a cell has a last one.
pub snoc-view : (d : Cell) (ds : Cells) → (xs : Cells) × (t : Cell) × (d ∷ ds ≡ xs ++ t ∷ [])
snoc-view d [] = ([], d, refl)
snoc-view d (n ∷ ds) = let (xs, t, e) = snoc-view n ds in (d ∷ xs, t, ap (◌∷◌ d) e)

module _ {cmp : Comparator} (r : Ranks cmp) (l : LinkedList) (c : Cell) (cells : Cells)
    (v : IsList l cells) (loose : IsLoose l cells c) (sorted : Ascends r.rank cells) where
  cell-ne-null : (front : Cells) (n : Cell) (ds : Cells) → cells ≡ front ++ n ∷ ds → n.ptr ≢ null
  cell-ne-null front n ds e =
      (Links-split l.nodes null null front (n ∷ ds) (subst (IsList l) e v).links).1.0.ne_null

  -- One round: `d` takes the new cell before it, or is below it.
  round-Placed :
      (k : ℕ) (xs : Cells) (b d : Cell) (ds : Cells)
      → cells ≡ (xs ++ b ∷ []) ++ d ∷ ds
      → Below r.rank c.item (xs ++ b ∷ [])
      → (r.rank d.item ≤ r.rank c.item
          → Returns (Placed r.rank l cells c) (
              if first_or null ds == null
              then (add_as_tail l c.ptr >>= λ l'. ok (true, l'))
              else sorted_loop cmp k l c.ptr c.item (first_or null ds)))
      → Returns (Placed r.rank l cells c) (sorted_loop cmp (suc k) l c.ptr c.item d.ptr)
  unfolding sorted_loop
  round-Placed k xs b d ds e below next =
      let v' = subst (IsList l) e v in
      let loose' = subst (λ cs. IsLoose l cs c) e loose in
      let node = (Links-split l.nodes null null (xs ++ b ∷ []) (d ∷ ds) v'.links).1.0 in
      let sorted' =
        (Ascends-split r.rank (xs ++ b ∷ []) (d ∷ ds) (subst (Ascends r.rank) e sorted)).1 in
      rw (load-ok node) (
        Returns-if (d.ptr == null) (λ h. absurd (ground (arith, node.ne_null)))
          λ _.
            Returns-if (is_le (cmp c.item d.item))
              (λ le. Returns-bind (add_before-Added l c xs b d ds v' loose') λ l' a.
                returns (record {
                  front = xs ++ b ∷ [];
                  back = d ∷ ds;
                  split = e;
                  done = refl;
                  added = a;
                  below = below;
                  above =
                      Above-first r.rank c.item d ds sorted'
                        (ground (arith, is_le-rank r c.item d.item));
                }))
              λ gt. next (ground (arith, is_le-rank r c.item d.item)))

  -- The new cell goes behind the last one.
  tail-Placed :
      (xs : Cells) (t : Cell)
      → cells ≡ xs ++ t ∷ []
      → r.rank t.item ≤ r.rank c.item
      → Returns (Placed r.rank l cells c) (add_as_tail l c.ptr >>= λ l'. ok (true, l'))
  tail-Placed xs t e h =
      Returns-bind
        (add_as_tail-Added l c xs t (subst (IsList l) e v) (subst (λ cs. IsLoose l cs c) e loose))
        λ l' a. returns (record {
          front = xs ++ t ∷ [];
          back = [];
          split = e ∙ sym (append-nil _);
          done = refl;
          added = a;
          below = Below-last r.rank c.item xs t (subst (Ascends r.rank) e sorted) h;
          above = tt;
        })

  sorted_loop-Placed :
      (k : ℕ) (xs : Cells) (b d : Cell) (ds : Cells)
      → cells ≡ (xs ++ b ∷ []) ++ d ∷ ds
      → Below r.rank c.item (xs ++ b ∷ [])
      → length ds < k
      → Returns (Placed r.rank l cells c) (sorted_loop cmp k l c.ptr c.item d.ptr)
  sorted_loop-Placed zero xs b d ds e below f = absurd (omega arith)
  sorted_loop-Placed (suc k) xs b d [] e below f =
      round-Placed k xs b d [] e below (tail-Placed (xs ++ b ∷ []) d e)
  sorted_loop-Placed (suc k) xs b d (n ∷ ds) e below f = round-Placed k xs b d (n ∷ ds) e below λ h.
      Returns-if (n.ptr == null)
        (λ z. absurd (
          cell-ne-null _ n ds (e ∙ sym (append_assoc (xs ++ b ∷ []) (d ∷ []) (n ∷ ds)))
            (==_true _ _ z)))
        λ _.
          sorted_loop-Placed k (xs ++ b ∷ []) d n ds
            (e ∙ sym (append_assoc (xs ++ b ∷ []) (d ∷ []) (n ∷ ds)))
            (All-append _ (xs ++ b ∷ []) (d ∷ []) below (h, tt)) (omega arith)

  head-Placed :
      (d : Cell) (ds : Cells)
      → cells ≡ d ∷ ds
      → r.rank c.item ≤ r.rank d.item
      → Returns (Placed r.rank l cells c) (add_as_head l c.ptr >>= λ l'. ok (true, l'))
  head-Placed d ds e h =
      Returns-bind
        (add_as_head-Added l c d ds (subst (IsList l) e v) (subst (λ cs. IsLoose l cs c) e loose))
        λ l' a. returns (record {
          front = [];
          back = d ∷ ds;
          split = e;
          done = refl;
          added = a;
          below = tt;
          above = Above-first r.rank c.item d ds (subst (Ascends r.rank) e sorted) h;
        })

  -- The walk from the first cell, which is below the new one.
  walk-Placed :
      (d n : Cell) (ds : Cells)
      → cells ≡ d ∷ n ∷ ds
      → r.rank d.item < r.rank c.item
      → Returns (Placed r.rank l cells c) (sorted_loop cmp (l.size + 1) l c.ptr c.item d.ptr)
  unfolding sorted_loop
  walk-Placed d n ds e h =
      let node = (subst (IsList l) e v).links.0 in
      let k : l.size + 1 ≡ suc l.size = omega arith in
      simp k (
        rw (load-ok node) (
          Returns-if (d.ptr == null) (λ z. absurd (ground (arith, node.ne_null)))
            λ _.
              Returns-if (is_le (cmp c.item d.item))
                (λ z. absurd (ground (arith, is_le-rank r c.item d.item)))
                λ _.
                  Returns-if (n.ptr == null)
                    (λ z. absurd (cell-ne-null (d ∷ []) n ds e (==_true _ _ z)))
                    λ _.
                      sorted_loop-Placed l.size [] d n ds e (omega arith, tt)
                        (omega (arith, v.size, ap length e))))

  -- `add_sorted` on a list with a cell.
  pub add_sorted-Placed :
      (d : Cell) (ds : Cells)
      → cells ≡ d ∷ ds
      → Returns (Placed r.rank l cells c) (add_sorted l c.ptr cmp)
  unfolding add_sorted
  add_sorted-Placed d [] e =
      let node = (subst (IsList l) e v).links.0 in
      simp (load-ok loose.node, v.head ∙ ap (first_or null) e, load-ok node)
        (Returns-if (l.size == 1)
          (λ _. elim (Bool-cases (is_lt (cmp c.item d.item))) [
            | inl lt ↦ rw lt (head-Placed d [] e (ground (arith, is_lt-rank r c.item d.item)))
            | inr ge ↦ rw ge (tail-Placed [] d e (ground (arith, is_lt-rank r c.item d.item)))
          ])
          λ z. absurd (ground (arith, v.size, ap length e)))
  add_sorted-Placed d (n ∷ ds) e =
      let node = (subst (IsList l) e v).links.0 in
      let (xs, t, snoc) = snoc-view d (n ∷ ds) in
      let last =
        (Links-split l.nodes null null xs (t ∷ []) (subst (IsList l) (e ∙ snoc) v).links).1.0 in
      simp (load-ok loose.node, v.head ∙ ap (first_or null) e, load-ok node)
        (Returns-if (l.size == 1) (λ z. absurd (ground (arith, v.size, ap length e)))
          λ _.
            Returns-if (is_le (cmp c.item d.item))
              (λ z. head-Placed d (n ∷ ds) e (ground (arith, is_le-rank r c.item d.item)))
              λ z.
                simp (v.tail ∙ ap (last_or null) (e ∙ snoc) ∙ last_or-snoc null xs t, load-ok last)
                  (Returns-if (is_ge (cmp c.item t.item))
                    (λ ge. tail-Placed xs t (e ∙ snoc) (ground (arith, is_ge-rank r c.item t.item)))
                    λ _. walk-Placed d n ds e (ground (arith, is_le-rank r c.item d.item))))
