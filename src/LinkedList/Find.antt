-- ===== src/LinkedList/Find.antt =====
-- Search by item in data_structures/list.c, and what depends on it.
use c_utils.Base.{
  ℕ, zero, suc, ◌+◌, ◌<◌, ◌≡◌, ◌≢◌, refl, sym, subst, ap, ◌∙◌, Bool, true, false, not, ◌||◌, List,
  [], ◌∷◌, ◌++◌, arith, ◌==◌, length, ok, fault, Returns, returns, Returns-bind, Returns-inv, Run,
  Returns-mono, Returns-if, if-equal, ==_true,
}
use c_utils.Node.{Ptr, null, Store, IsNode, load, load-ok}
use c_utils.Node.Links.{Cell, Cells, live, first_or, last_or, last_or-snoc, Links, Links-split}
use c_utils.LinkedList.{LinkedList}
use c_utils.LinkedList.Invariant.{IsList}
use c_utils.LinkedList.Access.{find_loop, holds, item_to_node, items_loop, for_each_item, contains}
use c_utils.LinkedList.Sorted.{snoc-view}
use c_utils.LinkedList.Cut.{Dropped}
use c_utils.LinkedList.Bridge.{remove_node-Dropped}
use c_utils.LinkedList.Retire.{held, Removal}
use c_utils.LinkedList.Drop.{
  retire, remove_only, remove_tail, remove_head, remove_normal, remove_node, remove_item, remove,
}

abbrev pub elem : ℕ → Cells → Bool
elem item [] = false
elem item (c ∷ cs) = (item == c.item) || elem item cs

abbrev pub items : Cells → List ℕ
items [] = []
items (c ∷ cs) = c.item ∷ items cs

-- What a search may answer: NULL, or a cell with the item.
pub data Found (item : ℕ) (cells : Cells) : Ptr → Type 0 where
  absent : elem item cells ≡ false → Found item cells null
  found :
      (xs : Cells) (c : Cell) (ys : Cells)
      → cells ≡ xs ++ c ∷ ys
      → c.item ≡ item
      → Found item cells c.ptr

Found-cons :
    (item : ℕ) (d : Cell) (cells : Cells) (p : Ptr)
    → (item == d.item) ≡ false
    → Found item cells p
    → Found item (d ∷ cells) p
Found-cons item d cells p ne (absent e) = absent (ground arith)
Found-cons item d cells p ne (found xs c ys e q) = found (d ∷ xs) c ys (ap (◌∷◌ d) e) q

find_loop-Found :
    (s : Store) (item k : ℕ) (prev : Ptr) (ds : Cells)
    → Links s prev ds null
    → length ds < k
    → Returns (Found item ds) (find_loop k s (first_or null ds) item)
unfolding find_loop
find_loop-Found s item zero prev ds l fuel = absurd (omega arith)
find_loop-Found s item (suc k) prev [] l fuel = returns (absent refl)
find_loop-Found s item (suc k) prev (d ∷ ds) l fuel =
    Returns-if (d.ptr == null) (λ z. absurd (l.0.ne_null (==_true d.ptr null z)))
      λ _. rw (load-ok l.0) (
        Returns-if (item == d.item)
          (λ e. returns (found [] d ds refl (sym (==_true item d.item e))))
          λ e.
            Returns-mono (find_loop-Found s item k d.ptr ds l.1 (omega arith))
              λ p f. Found-cons item d ds p e f)

holds-node :
    (s : Store) (c : Cell) (prev next : Ptr) (item : ℕ)
    → IsNode s c.ptr (live c prev next)
    → holds s c.ptr item ≡ ok (c.item == item)
unfolding holds
holds-node s c prev next item node =
    let ne : (c.ptr == null) ≡ false = ground (arith, node.ne_null) in rw (ne, load-ok node) refl

module _ (l : LinkedList) (cells : Cells) (v : IsList l cells) (item : ℕ) where
  search_all : Returns (Found item cells) (find_loop (l.size + 1) l.nodes l.head item)
  search_all =
      simp v.head
        (find_loop-Found l.nodes item (l.size + 1) null cells v.links (omega (arith, v.size)))

item_to_node-nonempty :
    (l : LinkedList) (d : Cell) (ds : Cells) (item : ℕ)
    → IsList l (d ∷ ds)
    → Returns (Found item (d ∷ ds)) (item_to_node l item)
unfolding item_to_node
item_to_node-nonempty l d ds item v =
    let (ws, t, snoc) = snoc-view d ds in
    let last = (Links-split l.nodes null null ws (t ∷ []) (subst (IsList l) snoc v).links).1.0 in
    let tail : l.tail ≡ t.ptr = v.tail ∙ ap (last_or null) snoc ∙ last_or-snoc null ws t in
    let all = search_all l (d ∷ ds) v item in
    simp (v.head, holds-node l.nodes d null (first_or null ds) item v.links.0)
      (Returns-if (d.item == item) (λ e. returns (found [] d ds refl (==_true d.item item e)))
        λ _.
          simp (tail, holds-node l.nodes t (last_or null ws) null item last)
            (Returns-if (t.item == item) (λ e. returns (found ws t [] snoc (==_true t.item item e)))
              λ _. simp (← v.head) all))

pub item_to_node-Found :
    (l : LinkedList) (cells : Cells) (item : ℕ)
    → IsList l cells
    → Returns (Found item cells) (item_to_node l item)
unfolding item_to_node holds
item_to_node-Found l [] item v = simp (v.head, v.tail) (simp (← v.head) (search_all l [] v item))
item_to_node-Found l (d ∷ ds) item v = item_to_node-nonempty l d ds item v

elem-split :
    (item : ℕ) (xs : Cells) (c : Cell) (ys : Cells)
    → c.item ≡ item
    → elem item (xs ++ c ∷ ys) ≡ true
elem-split item [] c ys e = ground arith
elem-split item (x ∷ xs) c ys e = ground (arith, elem-split item xs c ys e)

module _ (l : LinkedList) (cells : Cells) (v : IsList l cells) (item : ℕ) where
  in-cells-ne_null : (xs : Cells) (c : Cell) (ys : Cells) → cells ≡ xs ++ c ∷ ys → c.ptr ≢ null
  in-cells-ne_null xs c ys e =
      (Links-split l.nodes null null xs (c ∷ ys) (subst (IsList l) e v).links).1.0.ne_null

  -- c_utils_list_contains on a well-formed list returns whether one of its cells has the item,
  -- if the item is not NULL.
  pub contains-elem : item ≢ null → Returns (λ b. b ≡ elem item cells) (contains l item)
  unfolding contains
  contains-elem ne =
      Returns-if (item == null) (λ z. absurd (ne (==_true item null z)))
        λ _. Returns-bind (item_to_node-Found l cells item v) λ p f. returns (answer p f)
    where
      answer : (p : Ptr) → Found item cells p → not (p == null) ≡ elem item cells
      answer p (absent e) = sym e
      answer p (found xs c ys e q) =
          let ne = in-cells-ne_null xs c ys e in rw (e, elem-split item xs c ys q) (ground arith)

-- What a removal by item, `run`, does to a list that has it.
pub record Taken (l : LinkedList) (cells : Cells) (item : ℕ) (del : Bool) (run : Run LinkedList)
    : Type 0 where
  pub front : Cells
  pub cell : Cell
  pub back : Cells
  pub split : cells ≡ front ++ cell ∷ back
  pub is_item : cell.item ≡ item
  pub removal : Removal (held cell) (Dropped l front cell back del) run

load-null : (s : Store) → load s null ≡ fault
unfolding load
load-null s = refl

-- Each of the removals reads through the NULL it is given.
remove_node-null : (l : LinkedList) (del : Bool) → remove_node l null del ≡ fault
unfolding remove_node remove_only remove_head remove_tail remove_normal retire
remove_node-null l del =
    if-equal (l.size == 1) (λ _. rw load-null refl)
      λ _.
        if-equal (l.tail == null) (λ e. simp (==_true l.tail null e, load-null) refl)
          λ _.
            if-equal (l.head == null) (λ e. simp (==_true l.head null e, load-null) refl)
              λ _. rw load-null refl

module _ (l : LinkedList) (cells : Cells) (v : IsList l cells) (item : ℕ) (del : Bool)
    (given : item ≢ null) where
  -- c_utils_list_remove and c_utils_list_delete of an item that is not NULL and that a
  -- well-formed list has come to one cell with the item: where an iterator holds its node, they
  -- take out that cell and no other; where none does, the run is undefined.
  pub remove_present : elem item cells ≡ true → Taken l cells item del (remove l item del)
  unfolding remove remove_item
  remove_present has =
      let (p, e, f) = Returns-inv (item_to_node-Found l cells item v) in
      let nz : (item == null) ≡ false = ground (arith, given) in rw (nz, e) (take p f)
    where
      take : (p : Ptr) → Found item cells p → Taken l cells item del (remove_node l p del)
      take p (absent e) = absurd (ground arith)
      take p (found xs c ys e q) = record {
        front = xs;
        cell = c;
        back = ys;
        split = e;
        is_item = q;
        removal = remove_node-Dropped l c del xs ys (subst (IsList l) e v);
      }

  -- c_utils_list_remove and c_utils_list_delete of an item that is not NULL and that a
  -- well-formed list does not have read through NULL.
  pub remove_absent : elem item cells ≡ false → remove l item del ≡ fault
  unfolding remove remove_item
  remove_absent out =
      let (p, e, f) = Returns-inv (item_to_node-Found l cells item v) in
      let p_null = nowhere p f in
      let nz : (item == null) ≡ false = ground (arith, given) in
      rw (nz, e, p_null) (remove_node-null l del)
    where
      nowhere : (p : Ptr) → Found item cells p → p ≡ null
      nowhere p (absent e) = refl
      nowhere p (found xs c ys e q) =
          absurd (ground (arith, e, ap (elem item) e, elem-split item xs c ys q))

items_loop_lem :
    (s : Store) (k : ℕ) (prev : Ptr) (ds : Cells)
    → Links s prev ds null
    → length ds < k
    → items_loop k s (first_or null ds) ≡ ok (items ds)
unfolding items_loop
items_loop_lem s zero prev ds l fuel = absurd (omega arith)
items_loop_lem s (suc k) prev [] l fuel = refl
items_loop_lem s (suc k) prev (d ∷ ds) l fuel =
    let ne : (d.ptr == null) ≡ false = ground (arith, l.0.ne_null) in
    rw (ne, load-ok l.0, items_loop_lem s k d.ptr ds l.1 (omega arith)) refl

-- The walk over a well-formed list ends, and meets the items of its cells in order.
pub for_each_item-items :
    (l : LinkedList) (cells : Cells) → IsList l cells → for_each_item l ≡ ok (items cells)
unfolding for_each_item
for_each_item-items l cells v =
    simp v.head (items_loop_lem l.nodes (l.size + 1) null cells v.links (omega (arith, v.size)))
