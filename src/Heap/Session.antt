-- ===== src/Heap/Session.antt =====
-- Sequences of calls on a heap of data_structures/heap.c with the default configuration: it never
-- runs out of slots, and it sorts.
use c_utils.Base.{
  ℕ, zero, suc, ◌+◌, ◌*◌, ◌≤◌, ◌<◌, ◌≡◌, refl, sym, ◌≢◌, inl, inr, ltb, ==_true, ◌/◌, ◌∙◌, List, [],
  ◌∷◌, Option, none, some, arith, ◌==◌, if◌then◌else◌, Bool-cases, Ranks, Run, ok, ◌>>=◌, Returns,
  returns, Returns-bind, Returns-mono, Returns-both, All, max,
}
use c_utils.Heap.{Heap, HeapConf, null, insert, remove, grow, resize}
use c_utils.Heap.Create.{default_growth_rate, default_growth_trigger}
use c_utils.Heap.Array.{at, one_if, occurs}
use c_utils.Heap.Insert.{IsValid, count, Inserted, placed, insert_correct, insert_places}
use c_utils.Heap.Remove.{remove_correct}

-- The configuration that `configure` makes of an empty one, in what the capacity rests on.
pub record IsDefault (c : HeapConf) : Type 0 where
  pub unbounded : c.max ≡ 0
  pub rate : c.rate ≡ default_growth_rate
  pub trigger : c.trigger ≡ default_growth_trigger

-- There is a slot behind the last one, and after an insertion there will be one again.
pub record IsRoomy (h : Heap) : Type 0 where
  pub default : IsDefault h.conf
  pub big : 5 ≤ h.size
  pub filled : 4 * h.used ≤ 3 * h.size

module _ (junk : ℕ) (h : Heap) (d : IsDefault h.conf) where
  grow-size :
      (grow (some junk) h).size ≡ (if ltb (3 * h.size) (h.used * 4) then h.size * 2 / 1 else h.size)
  unfolding grow resize
  grow-size = ground (arith, d.unbounded, d.rate, d.trigger)

  grow-used : (grow (some junk) h).used ≡ h.used
  unfolding grow resize
  grow-used = ground arith

  grow-conf : (grow (some junk) h).conf ≡ h.conf
  unfolding grow resize
  grow-conf = ground arith

  grow-IsRoomy : 5 ≤ h.size → 4 * h.used ≤ 6 * h.size → IsRoomy (grow (some junk) h)
  grow-IsRoomy big filled = record {
    default = rw grow-conf d;
    big = ground (arith, grow-size);
    filled = ground (arith, grow-size, grow-used);
  }

-- With the default configuration, c_utils_heap_insert of an item that is not NULL into a valid
-- heap whose comparator follows a rank, which is filled to three quarters at most, is correct and
-- leaves the heap filled to three quarters at most.
pub insert-IsRoomy :
    (junk : ℕ) (h : Heap) (item : ℕ) (r : Ranks h.cmp)
    → IsValid r.rank h
    → IsRoomy h
    → item ≢ null
    → Returns
        (λ (done, h'). Inserted r.rank h item (done, h') × IsRoomy h')
        (insert (some junk) h item)
insert-IsRoomy junk h item r v roomy real =
    let room : h.used + 1 < h.size = omega arith in
    Returns-both
      (insert_correct h item r v real room (some junk) (ground (arith, roomy.default.rate))
        (inl roomy.default.unbounded))
      (Returns-mono (insert_places h item r v real (inl roomy.default.unbounded) room (some junk))
        λ (done, h') (e, a, g, s).
          rw g (grow-IsRoomy junk (placed h item a) roomy.default roomy.big (omega arith)))

-- `c_utils_heap_insert` for each item of a list, which comes with what `realloc` answers if the call
-- asks for memory.
pub insert_all : List (Option ℕ × ℕ) → Heap → Run Heap
insert_all [] h = ok h
insert_all ((memory, x) ∷ xs) h = do (done, h') ← insert memory h x; insert_all xs h'

abbrev pub asked : List (Option ℕ × ℕ) → List ℕ
asked [] = []
asked ((memory, x) ∷ xs) = x ∷ asked xs

-- There is memory, and the item is not NULL.
abbrev pub IsGranted : Option ℕ × ℕ → Type 0
IsGranted (memory, x) = (memory ≢ none) × (x ≢ null)

-- `c_utils_heap_remove`, `n` times.
pub drain : ℕ → Heap → Run (List ℕ × Heap)
drain zero h = ok ([], h)
drain (suc n) h = do (x, h') ← remove h; (xs, h'') ← drain n h'; ok (x ∷ xs, h'')

pub occurrences : ℕ → List ℕ → ℕ
occurrences x [] = 0
occurrences x (y ∷ ys) = one_if y x + occurrences x ys

-- No item is above the one before it, and the first has at most rank `b`.
abbrev pub Descends : (ℕ → ℕ) → ℕ → List ℕ → Type 0
Descends rank b [] = Unit
Descends rank b (x ∷ xs) = (rank x ≤ b) × Descends rank (rank x) xs

-- Where an item occurs, its rank is among those of the slots.
pub occurs_le :
    (rank : ℕ → ℕ) (b x : ℕ) (a : List ℕ) (n : ℕ)
    → ((i : ℕ) → 0 < i → i ≤ n → rank (at a i) ≤ b)
    → 0 < occurs x a n
    → rank x ≤ b
unfolding occurs
occurs_le rank b x a zero h p = absurd (omega arith)
occurs_le rank b x a (suc n) h p = elim (Bool-cases (at a (suc n) == x)) [
  | inl e ↦ rw (← ==_true _ _ e) (h (suc n) (omega arith) (omega arith))
  | inr e ↦ occurs_le rank b x a n (λ i q s. h i q (omega arith)) (ground arith)
]

pub count-empty : (x : ℕ) (h : Heap) → h.used ≡ 0 → count x h ≡ 0
unfolding count occurs
count-empty x h e = rw e

-- An item of the heap occurs in its slots.
pub count-occurs : (x : ℕ) (h : Heap) → 0 < count x h → 0 < occurs x h.slots h.used
unfolding count
count-occurs x h p = p

drain-Descends :
    (n b : ℕ) (h : Heap) (r : Ranks h.cmp)
    → IsValid r.rank h
    → h.used ≡ n
    → ((x : ℕ) → 0 < count x h → r.rank x ≤ b)
    → Returns
        (λ (xs, h').
          Descends r.rank b xs × ((x : ℕ) → occurrences x xs ≡ count x h) × (h'.used ≡ 0))
        (drain n h)
unfolding drain occurrences
drain-Descends zero b h r v e top = returns (tt, (λ x. sym (count-empty x h e)), e)
drain-Descends (suc n) b h r v e top =
    Returns-bind (remove_correct h r v (omega arith)) λ (x, h') s.
      let r' : Ranks h'.cmp = record { rank = r.rank; agrees = rw s.cmp r.agrees } in
      Returns-bind
        (drain-Descends n (r.rank x) h' r' s.valid (omega (arith, s.used)) λ y p.
          occurs_le r.rank (r.rank x) y h.slots h.used s.highest
            (count-occurs y h (omega (arith, s.items y))))
        λ (xs, h'') (sorted, same, empty). returns (
          (top x (ground (arith, s.items x)), sorted),
          (λ y. omega (arith, same y, s.items y)),
          empty,
        )

insert_all-Holds :
    (xs : List (Option ℕ × ℕ)) (h : Heap) (r : Ranks h.cmp)
    → IsValid r.rank h
    → IsRoomy h
    → All IsGranted xs
    → Returns
        (λ h'.
          IsValid r.rank h'
          × ((x : ℕ) → count x h' ≡ count x h + occurrences x (asked xs))
          × (h'.cmp ≡ h.cmp))
        (insert_all xs h)
unfolding insert_all occurrences
insert_all-Holds [] h r v roomy real = returns (v, (λ x. omega arith), refl)
insert_all-Holds ((none, x) ∷ xs) h r v roomy real = absurd (real.0.0 refl)
insert_all-Holds ((some junk, x) ∷ xs) h r v roomy real =
    Returns-bind (insert-IsRoomy junk h x r v roomy real.0.1) λ (done, h') (s, roomy').
      let r' : Ranks h'.cmp = record { rank = r.rank; agrees = rw s.cmp r.agrees } in
      Returns-mono (insert_all-Holds xs h' r' s.valid roomy' real.1)
        λ h'' (v'', same, cmp). (v'', (λ y. omega (arith, same y, s.items y)), cmp ∙ s.cmp)

-- The highest rank of a list.
pub highest : (ℕ → ℕ) → List ℕ → ℕ
highest rank [] = 0
highest rank (x ∷ xs) = max (rank x) (highest rank xs)

le-highest : (rank : ℕ → ℕ) (x : ℕ) (xs : List ℕ) → 0 < occurrences x xs → rank x ≤ highest rank xs
unfolding occurrences highest
le-highest rank x [] p = absurd (omega arith)
le-highest rank x (y ∷ ys) p = elim (Bool-cases (y == x)) [
  | inl e ↦ rw (==_true y x e) (omega arith)
  | inr e ↦ omega (arith, le-highest rank x ys (ground arith))
]

-- `c_utils_heap_insert` of each item into a new heap, and `c_utils_heap_remove` until it is empty.
unfoldable pub heap_sort : Heap → List (Option ℕ × ℕ) → Run (List ℕ)
unfolding insert_all drain
heap_sort h xs = do h' ← insert_all xs h; (ys, h'') ← drain h'.used h'; ok ys

-- From a valid empty heap with the default configuration, whose comparator follows a rank,
-- inserting items that are not NULL, for each of which a realloc that the insertion asks for gets
-- memory, and removing them until the heap is empty runs to its end, and gives the same items,
-- none of a higher rank than the one before it.
pub heap_sort-Descends :
    (h : Heap) (r : Ranks h.cmp) (xs : List (Option ℕ × ℕ))
    → IsValid r.rank h
    → IsRoomy h
    → h.used ≡ 0
    → All IsGranted xs
    → Returns
        (λ ys.
          Descends r.rank (highest r.rank (asked xs)) ys
          × ((x : ℕ) → occurrences x ys ≡ occurrences x (asked xs)))
        (heap_sort h xs)
unfolding heap_sort
heap_sort-Descends h r xs v roomy empty real =
    Returns-bind (insert_all-Holds xs h r v roomy real) λ h' (v', same, cmp).
      let r' : Ranks h'.cmp = record { rank = r.rank; agrees = rw cmp r.agrees } in
      let items : (x : ℕ) → count x h' ≡ occurrences x (asked xs) =
        λ x. omega (arith, same x, count-empty x h empty) in
      Returns-bind
        (drain-Descends h'.used (highest r.rank (asked xs)) h' r' v' refl
          λ x p. le-highest r.rank x (asked xs) (omega (arith, items x)))
        λ (ys, h'') (sorted, kept, _). returns (sorted, λ x. kept x ∙ items x)
