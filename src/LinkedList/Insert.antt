-- ===== src/LinkedList/Insert.antt =====
-- c_utils_list_add of data_structures/list.c.
use c_utils.Base.{
  ℕ, ◌≡◌, inl, inr, Bool-cases, ==_true, if-equal, if◌then◌else◌, ok, ◌≢◌, ◌⊎◌, refl, sym, subst,
  Bool, true, false, some, none, [], ◌∷◌, ◌++◌, arith, ◌==◌, not, ◌&&◌, Returns, returns,
  Returns-bind, Returns-mono, Returns-if, Comparator, Ranks,
}
use c_utils.Node.{null}
use c_utils.Node.Links.{Cell, Cells, has, Links-frame}
use c_utils.LinkedList.{LinkedList, Block, create_node, add_node, add}
use c_utils.LinkedList.Invariant.{IsList, IsLoose}
use c_utils.LinkedList.Add.{add_as_only-Added, add_unsorted-Added}
use c_utils.LinkedList.Sorted.{Ascends, add_sorted-Placed, Ascends-insert, snoc-view}

-- The cell that a block becomes.
abbrev pub new_cell : Block → ℕ → Cell
new_cell b item = record { ptr = b.ptr; item = item; refs = 0 }

-- `malloc` returned memory that is not that of a node of the list.
pub record IsFresh (cells : Cells) (b : Block) : Type 0 where
  pub ne_null : b.ptr ≢ null
  pub unused : has b.ptr cells ≡ false

-- Nothing in the way of an addition.
abbrev pub HasRoom : LinkedList → Type 0
HasRoom l = (l.conf.max ≡ 0) ⊎ (l.conf.max ≢ l.size)

-- The item is in its place and the order is kept.
pub record InOrder (rank : ℕ → ℕ) (cells : Cells) (c : Cell) (r : Bool × LinkedList) : Type 0 where
  pub done : r.0 ≡ true
  pub front : Cells
  pub back : Cells
  pub split : cells ≡ front ++ back
  pub valid : IsList r.1 (front ++ c ∷ back)
  pub sorted : Ascends rank (front ++ c ∷ back)

not_full : (l : LinkedList) → HasRoom l → (not (l.conf.max == 0) && (l.conf.max == l.size)) ≡ false
not_full l room = ground arith

module _ (l : LinkedList) (c : Cell) (room : HasRoom l) where
  add_node-last :
      (cells : Cells)
      → IsList l cells
      → IsLoose l cells c
      → l.conf.compare ≡ none
      → Returns
          (λ (done, l'). (done ≡ true) × IsList l' (cells ++ c ∷ []) × (l'.conf ≡ l.conf))
          (add_node l c.ptr)
  unfolding add_node
  add_node-last [] v loose e = rw (not_full l room) (
      Returns-if (l.size == 0)
        (λ _. Returns-bind (add_as_only-Added l c v loose) λ l' a. returns (refl, a.valid, a.conf))
        λ z. absurd (ground (arith, v.size)))
  add_node-last (d ∷ ds) v loose e =
      let (xs, t, snoc) = snoc-view d ds in
      rw (not_full l room) (
        Returns-if (l.size == 0) (λ z. absurd (ground (arith, v.size)))
          λ _. simp e (
            Returns-bind
              (add_unsorted-Added l c xs t (subst (IsList l) snoc v)
                (subst (λ cs. IsLoose l cs c) snoc loose))
              λ l' a.
                returns (refl, subst (λ cs. IsList l' (cs ++ c ∷ [])) (sym snoc) a.valid, a.conf)))

  add_node-InOrder :
      {cmp : Comparator} (r : Ranks cmp) (cells : Cells)
      → IsList l cells
      → IsLoose l cells c
      → l.conf.compare ≡ some cmp
      → Ascends r.rank cells
      → Returns (InOrder r.rank cells c) (add_node l c.ptr)
  unfolding add_node
  add_node-InOrder r [] v loose e sorted = rw (not_full l room) (
      Returns-if (l.size == 0)
        (λ _. Returns-bind (add_as_only-Added l c v loose) λ l' a. returns (record {
          done = refl;
          front = [];
          back = [];
          split = refl;
          valid = a.valid;
          sorted = (tt, tt);
        }))
        λ z. absurd (ground (arith, v.size)))
  add_node-InOrder r (d ∷ ds) v loose e sorted = rw (not_full l room) (
      Returns-if (l.size == 0) (λ z. absurd (ground (arith, v.size)))
        λ _. simp e (
          Returns-mono (add_sorted-Placed r l c (d ∷ ds) v loose sorted d ds refl) λ (done, l') p.
            record {
              done = p.done;
              front = p.front;
              back = p.back;
              split = p.split;
              valid = p.added.valid;
              sorted =
                  Ascends-insert r.rank c p.front p.back (subst (Ascends r.rank) p.split sorted)
                    p.below p.above;
            }))

module _ (b : Block) (l : LinkedList) (item : ℕ) (cells : Cells) (v : IsList l cells)
    (f : IsFresh cells b) where
  -- The list with the new node in the store.
  abbrev stocked : LinkedList
  stocked = record l { nodes = create_node b item l.nodes }

  stocked-IsList : IsList stocked cells
  unfolding create_node
  stocked-IsList = record {
    head = v.head;
    tail = v.tail;
    size = v.size;
    links =
        Links-frame l.nodes stocked.nodes null null cells (λ a p. ground (arith, f.unused)) v.links;
    distinct = v.distinct;
  }

  stocked-IsLoose : IsLoose stocked cells (new_cell b item)
  unfolding create_node
  stocked-IsLoose = record {
    prev = b.junk.prev;
    next = b.junk.next;
    node = record { ne_null = f.ne_null; holds = ground arith };
    out = f.unused;
  }

  add-add_node : item ≢ null → add b l item ≡ add_node stocked b.ptr
  unfolding add
  add-add_node real = ground (arith, f.ne_null)

  pub add_last-conf :
      item ≢ null
      → HasRoom l
      → l.conf.compare ≡ none
      → Returns
          (λ (done, l').
            (done ≡ true) × IsList l' (cells ++ new_cell b item ∷ []) × (l'.conf ≡ l.conf))
          (add b l item)
  add_last-conf real room unordered =
      rw (add-add_node real) (
        add_node-last stocked (new_cell b item) room cells stocked-IsList stocked-IsLoose unordered)

  -- c_utils_list_add on a well-formed list without a comparator, with room and with fresh
  -- memory for the node, returns true and puts an item that is not NULL behind the others.
  pub add_last :
      item ≢ null
      → HasRoom l
      → l.conf.compare ≡ none
      → Returns
          (λ (done, l'). (done ≡ true) × IsList l' (cells ++ new_cell b item ∷ []))
          (add b l item)
  add_last real room unordered = Returns-mono (add_last-conf real room unordered) λ r a. (a.0, a.1)

  -- c_utils_list_add on a well-formed list that is in the order of its comparator, with room
  -- and with fresh memory for the node, returns true and puts an item that is not NULL in a
  -- place where the list is well formed and in order again.
  pub add-InOrder :
      {cmp : Comparator} (r : Ranks cmp)
      → item ≢ null
      → HasRoom l
      → l.conf.compare ≡ some cmp
      → Ascends r.rank cells
      → Returns (InOrder r.rank cells (new_cell b item)) (add b l item)
  add-InOrder r real room ordered sorted = rw (add-add_node real) (
      add_node-InOrder stocked (new_cell b item) room r cells stocked-IsList stocked-IsLoose ordered
        sorted)

  add_full :
      item ≢ null
      → (not (l.conf.max == 0) && (l.conf.max == l.size)) ≡ true
      → Returns (λ (done, l'). (done ≡ false) × IsList l' cells × (l'.conf ≡ l.conf)) (add b l item)
  unfolding add_node create_node
  add_full real full = rw (add-add_node real, full) (returns (refl, stocked-IsList, refl))

add-null :
    (b : Block) (l : LinkedList) (item : ℕ) → (item == null) ≡ true → add b l item ≡ ok (false, l)
unfolding add
add-null b l item z = rw z refl

add-no_memory :
    (b : Block) (l : LinkedList) (item : ℕ) → (b.ptr == null) ≡ true → add b l item ≡ ok (false, l)
unfolding add
add-no_memory b l item z = if-equal (item == null) (λ e. refl) λ e. rw z refl

has_room : (l : LinkedList) → (not (l.conf.max == 0) && (l.conf.max == l.size)) ≡ false → HasRoom l
has_room l e = elim (Bool-cases (l.conf.max == 0)) [
  | inl z ↦ inl (==_true l.conf.max 0 z)
  | inr nz ↦ inr (ground arith)
]

-- What c_utils_list_add does to a list without a comparator, whether it returns true or false.
abbrev pub Outcome : Block → LinkedList → ℕ → Cells → (Bool × LinkedList) → Type 0
Outcome b l item cells r =
    IsList r.1 (if r.0 then cells ++ new_cell b item ∷ [] else cells)
    × (r.1.conf ≡ l.conf)
    × (r.0 ≡ true → item ≢ null)

-- `malloc` returned NULL, or memory that is not that of a node of the list.
abbrev pub Answer : Cells → Block → Type 0
Answer cells b = (b.ptr ≡ null) ⊎ IsFresh cells b

pub add_unordered-Outcome :
    (b : Block) (l : LinkedList) (item : ℕ) (cells : Cells)
    → IsList l cells
    → l.conf.compare ≡ none
    → Answer cells b
    → Returns (Outcome b l item cells) (add b l item)
add_unordered-Outcome b l item cells v unordered answer = elim (Bool-cases (item == null)) [
  | inl z ↦ rw (add-null b l item z) (returns (v, refl, λ e. cc))
  | inr real ↦ elim answer [
    | inl none_left ↦ rw (add-no_memory b l item (ground arith)) (returns (v, refl, λ e. cc))
    | inr f ↦ elim (Bool-cases (not (l.conf.max == 0) && (l.conf.max == l.size))) [
      | inl full ↦
          Returns-mono (add_full b l item cells v f (ground arith) full)
            λ r a. rw a.0 (a.1, a.2, λ e. cc)
      | inr room ↦
          Returns-mono (add_last-conf b l item cells v f (ground arith) (has_room l room) unordered)
            λ r a. rw a.0 (a.1, a.2, λ e. ground arith)
    ]
  ]
]

-- A full list refuses every item.
pub add_unordered-full :
    (b : Block) (l : LinkedList) (item : ℕ) (cells : Cells)
    → IsList l cells
    → Answer cells b
    → l.conf.max ≢ 0
    → l.conf.max ≡ l.size
    → Returns (λ r. (r.0 ≡ false) × IsList r.1 cells × (r.1.conf ≡ l.conf)) (add b l item)
add_unordered-full b l item cells v answer bounded full = elim (Bool-cases (item == null)) [
  | inl z ↦ rw (add-null b l item z) (returns (refl, v, refl))
  | inr real ↦ elim answer [
    | inl none_left ↦ rw (add-no_memory b l item (ground arith)) (returns (refl, v, refl))
    | inr f ↦ add_full b l item cells v f (ground arith) (ground arith)
  ]
]
