-- ===== src/Heap/Insert.antt =====
-- c_utils_heap_insert of data_structures/heap.c, the growth that follows it included.
use c_utils.Base.{
  get_or-take, length-take, ap, not, ◌&&◌, ℕ, zero, suc, ◌+◌, ◌-◌, ◌≤◌, ◌<◌, ◌≡◌, refl, ◌≢◌, ◌⊎◌,
  inl, inr, ◌∙◌, Bool, true, List, ◌++◌, Option, arith, ◌==◌, Bool-cases, Option-cases, Ranks,
  length, set, replicate, length-set, length-append, length-replicate, get_or-set, get_or-append,
  Returns, returns, Returns-bind, Returns-mono, Returns-if,
}
use c_utils.Heap.{Heap, ref_inc, null, parent, insert, grow, resize, realloc, exceeds, scale, note}
use c_utils.Heap.Array.{at, one_if, occurs, store-ok}
use c_utils.Heap.Order.{IsHeap, Sifted}
use c_utils.Heap.Sift.{UpInv, heapify_up-Sifted}

pub record IsValid (rank : ℕ → ℕ) (h : Heap) : Type 0 where
  pub sized : length h.slots ≡ h.size
  pub room : h.used < h.size
  pub ordered : IsHeap rank h.slots h.used

-- How often an item is in the heap.
unfoldable pub count : ℕ → Heap → ℕ
count x h = occurs x h.slots h.used

-- The heap once the item is in its place, before it grows.
abbrev pub placed : Heap → ℕ → List ℕ → Heap
placed h item a = record h {
  slots = a;
  used = h.used + 1;
  events = note h.conf.rc_item (ref_inc item) h.events;
}

pub occurs-cong :
    (x : ℕ) (a b : List ℕ) (n : ℕ)
    → ((i : ℕ) → i ≤ n → at b i ≡ at a i)
    → occurs x b n ≡ occurs x a n
unfolding occurs
occurs-cong x a b zero h = refl
occurs-cong x a b (suc n) h =
    ground (arith, h (suc n), occurs-cong x a b n λ i p. h i (omega arith))

occurs_top :
    (x : ℕ) (a : List ℕ) (n : ℕ) → occurs x a (n + 1) ≡ one_if (at a (n + 1)) x + occurs x a n
unfolding occurs
occurs_top x a n = ground arith

-- The slot behind the last one takes the item.
occurs-place :
    (x : ℕ) (a : List ℕ) (n item : ℕ)
    → n + 1 < length a
    → occurs x (set a (n + 1) item) (n + 1) ≡ occurs x a n + one_if item x
occurs-place x a n item h =
    occurs_top x (set a (n + 1) item) n
    ∙ ground (
      arith,
      get_or-set a (n + 1) (n + 1) item 0 h,
      occurs-cong x a (set a (n + 1) item) n
          (λ i p. ground (arith, get_or-set a (n + 1) i item 0 h)),
    )

module _ (h : Heap) (item : ℕ) (r : Ranks h.cmp) (v : IsValid r.rank h) (real : item ≢ null)
    (open_ : (h.conf.max ≡ 0) ⊎ (h.conf.max ≢ h.used)) (room : h.used + 1 < h.size) where
  -- The slots with the item behind the last one in use.
  abbrev behind : List ℕ
  behind = set h.slots (h.used + 1) item

  behind-UpInv : UpInv r.rank behind (h.used + 1) (h.used + 1)
  behind-UpInv = record {
    room = omega (arith, v.sized, length-set h.slots (h.used + 1) item);
    inside = omega arith;
    edges = λ c p q s. ground (
      arith,
      v.sized,
      v.ordered c,
      get_or-set h.slots (h.used + 1) c item 0,
      get_or-set h.slots (h.used + 1) (parent c) item 0,
    );
    bridged = λ c p q s t. omega arith;
  }

  pub insert_places :
      (memory : Option ℕ)
      → Returns
          (λ (done, h').
            (done ≡ true)
            × (a : List ℕ) × (h' ≡ grow memory (placed h item a))
            × Sifted r.rank behind (h.used + 1) a)
          (insert memory h item)
  unfolding insert
  insert_places memory = rw (store-ok h.slots (h.used + 1) item (omega (arith, v.sized))) (
      Returns-if (item == null) (λ e. absurd (ground arith))
        λ _.
          Returns-if (not (h.conf.max == 0) && (h.conf.max == h.used)) (λ e. absurd (ground arith))
            λ _.
              Returns-bind (heapify_up-Sifted (placed h item behind) r behind-UpInv)
                λ h' (a, e, s). returns (refl, a, ap (grow memory) e, s))

-- What a growth keeps of a heap whose slots in use stay in use.
record Grown (rank : ℕ → ℕ) (h h' : Heap) : Type 0 where
  valid : IsValid rank h'
  used : h'.used ≡ h.used
  items : (x : ℕ) → count x h' ≡ count x h
  cmp : h'.cmp ≡ h.cmp
  conf : h'.conf ≡ h.conf

get_or-realloc :
    (junk : ℕ) (a : List ℕ) (m i : ℕ) → i < length a → i < m → at (realloc junk a m) i ≡ at a i
unfolding realloc
get_or-realloc junk a m i p q =
    get_or-take m (a ++ replicate (m - length a) junk) i 0 q ∙ get_or-append a _ i 0 p

length-realloc : (junk : ℕ) (a : List ℕ) (m : ℕ) → length (realloc junk a m) ≡ m
unfolding realloc
length-realloc junk a m = omega (
  arith,
  length-take m (a ++ replicate (m - length a) junk),
  length-append a (replicate (m - length a) junk),
  length-replicate (m - length a) junk,
)

IsHeap-cong :
    (rank : ℕ → ℕ) (a b : List ℕ) (n : ℕ)
    → IsHeap rank a n
    → ((i : ℕ) → i ≤ n → at b i ≡ at a i)
    → IsHeap rank b n
IsHeap-cong rank a b n h same c p q = ground (arith, h c, same c, same (parent c))

module _ (rank : ℕ → ℕ) (memory : Option ℕ) (h : Heap) (v : IsValid rank h) where
  realloc-Grown :
      (junk m : ℕ)
      → h.used < m
      → Grown rank h (record h { slots = realloc junk h.slots m; size = m })
  unfolding count
  realloc-Grown junk m p =
      let same : (i : ℕ) → i ≤ h.used → at (realloc junk h.slots m) i ≡ at h.slots i =
        λ i q. get_or-realloc junk h.slots m i (omega (arith, v.sized)) (omega arith) in
      record {
        valid = record {
          sized = length-realloc junk h.slots m;
          room = p;
          ordered = IsHeap-cong rank h.slots _ h.used v.ordered same;
        };
        used = refl;
        items = λ x. occurs-cong x h.slots _ h.used same;
        cmp = refl;
        conf = refl;
      }

  unchanged-Grown : Grown rank h h
  unchanged-Grown = record { valid = v; used = refl; items = λ x. refl; cmp = refl; conf = refl }

  resize-Grown :
      (n : ℕ)
      → h.used < n
      → (h.conf.max ≡ 0) ⊎ (h.used < h.conf.max)
      → Grown rank h (resize memory h n)
  unfolding resize
  resize-Grown n p q = elim (Bool-cases (not (h.conf.max == 0) && (h.size == h.conf.max))) [
    | inl full ↦ rw full unchanged-Grown
    | inr more ↦ rw more (elim (Option-cases memory) [
      | inl e ↦ rw e unchanged-Grown
      | inr (junk, e) ↦ rw e (elim (Bool-cases (h.conf.max == 0)) [
        | inl unbounded ↦ rw unbounded (realloc-Grown junk n p)
        | inr bounded ↦ rw bounded (realloc-Grown junk _ (ground arith))
      ])
    ])
  ]

  grow-Grown :
      h.size ≤ scale h.conf.rate h.size
      → (h.conf.max ≡ 0) ⊎ (h.used < h.conf.max)
      → Grown rank h (grow memory h)
  unfolding grow
  grow-Grown p q = elim (Bool-cases (exceeds h.conf.trigger h.used h.size)) [
    | inl e ↦ rw e (resize-Grown (scale h.conf.rate h.size) (omega (arith, v.room)) q)
    | inr e ↦ rw e unchanged-Grown
  ]

-- What a successful insertion does.
pub record Inserted (rank : ℕ → ℕ) (h : Heap) (item : ℕ) (r : Bool × Heap) : Type 0 where
  pub done : r.0 ≡ true
  pub valid : IsValid rank r.1
  pub used : r.1.used ≡ h.used + 1
  pub items : (x : ℕ) → count x r.1 ≡ count x h + one_if item x
  pub cmp : r.1.cmp ≡ h.cmp
  pub conf : r.1.conf ≡ h.conf

module _ (h : Heap) (item : ℕ) (r : Ranks h.cmp) (v : IsValid r.rank h) (real : item ≢ null)
    (room : h.used + 1 < h.size) where
  placed-IsValid :
      (a : List ℕ)
      → Sifted r.rank (set h.slots (h.used + 1) item) (h.used + 1) a
      → IsValid r.rank (placed h item a)
  placed-IsValid a (heap, same, size) = record {
    sized = size ∙ length-set h.slots (h.used + 1) item ∙ v.sized;
    room = room;
    ordered = heap;
  }

  -- c_utils_heap_insert of an item that is not NULL into a valid heap whose comparator follows
  -- a rank, with a slot to spare, a growth ratio that does not shrink and a maximum that is not
  -- reached, returns a valid heap with that one item more, whatever realloc answers.
  pub insert_correct :
      (memory : Option ℕ)
      → h.size ≤ scale h.conf.rate h.size
      → (h.conf.max ≡ 0) ⊎ (h.used + 1 < h.conf.max)
      → Returns (Inserted r.rank h item) (insert memory h item)
  unfolding count
  insert_correct memory grows open_ =
      Returns-mono (insert_places h item r v real (ground arith) room memory)
        λ (done, h') (e, a, g, s).
          let kept = grow-Grown r.rank memory (placed h item a) (placed-IsValid a s) grows open_ in
          record {
            done = e;
            valid = rw g kept.valid;
            used = rw g kept.used;
            items = λ x. rw g (
                kept.items x ∙ s.1 x ∙ occurs-place x h.slots h.used item (omega (arith, v.sized)));
            cmp = rw g kept.cmp;
            conf = rw g kept.conf;
          }
