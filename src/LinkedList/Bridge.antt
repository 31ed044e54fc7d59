-- ===== src/LinkedList/Bridge.antt =====
-- `remove_normal` of data_structures/list.c, and `remove_node`, which chooses among the removals.
use c_utils.Base.{
  ◌≡◌, ◌≢◌, refl, sym, subst, ◌∙◌, Bool, true, false, [], ◌∷◌, ◌++◌, arith, ◌==◌, length-append,
  ==_true, ==_self,
}
use c_utils.Node.{Ptr, null, Store, load-ok, change-ok, modify, IsNode, modify_other}
use c_utils.Node.Links.{
  Cell, Cells, live, first_or, last_or, has, has-append, has-ne, last_or-snoc, last_or-append,
  last_or-ne, first_or-front, Distinct-split, Distinct-disjoint, Links, Links-split, with_next,
  with_prev,
}
use c_utils.LinkedList.{LinkedList}
use c_utils.LinkedList.Invariant.{IsList}
use c_utils.LinkedList.Retire.{held, Removal, Removal-if}
use c_utils.LinkedList.Drop.{remove_tail, remove_normal, remove_node}
use c_utils.LinkedList.Sorted.{snoc-view}
use c_utils.LinkedList.Cut.{
  Dropped, Unlinked, retire-Dropped, not-front, not-back, gone, remove_only-Dropped,
  remove_head-Dropped, remove_tail-Dropped,
}

head-in : (xs : Cells) (b : Cell) → has (first_or null (xs ++ b ∷ [])) (xs ++ b ∷ []) ≡ true
head-in [] b = rw ==_self refl
head-in (x ∷ xs) b = rw ==_self refl

-- A cell with another behind it is not the last.
tail-ne :
    (l : LinkedList) (xs : Cells) (c d : Cell) (ys : Cells)
    → IsList l (xs ++ c ∷ d ∷ ys)
    → l.tail ≢ c.ptr
tail-ne l xs c d ys v e =
    last_or-ne c.ptr d ys (Distinct-split xs (c ∷ d ∷ ys) v.distinct).1.0
      (sym (last_or-append null xs (c ∷ d ∷ ys)) ∙ sym v.tail ∙ e)

module _ (l : LinkedList) (xs : Cells) (b c d : Cell) (ys : Cells)
    (v : IsList l ((xs ++ b ∷ []) ++ c ∷ d ∷ ys)) where
  parts :
      Links l.nodes null (xs ++ b ∷ []) c.ptr
      × Links l.nodes (last_or null (xs ++ b ∷ [])) (c ∷ d ∷ ys) null
  parts = Links-split l.nodes null null (xs ++ b ∷ []) (c ∷ d ∷ ys) v.links

  before-IsNode : IsNode l.nodes b.ptr (live b (last_or null xs) c.ptr)
  before-IsNode = (Links-split l.nodes null c.ptr xs (b ∷ []) parts.0).1.0

  current-IsNode : IsNode l.nodes c.ptr (live c b.ptr d.ptr)
  current-IsNode =
      subst (λ p. IsNode l.nodes c.ptr (live c p d.ptr)) (last_or-snoc null xs b) parts.1.0

  next-IsNode : IsNode l.nodes d.ptr (live d c.ptr (first_or null ys))
  next-IsNode = parts.1.1.0

  -- What stands in front of the cell is not among what stands behind it.
  apart : (a : Ptr) → has a (xs ++ b ∷ []) ≡ true → has a (d ∷ ys) ≡ false
  apart a p =
      let q = Distinct-disjoint a (xs ++ b ∷ []) (c ∷ d ∷ ys) v.distinct p in ground (arith, q)

  b-in-front : has b.ptr (xs ++ b ∷ []) ≡ true
  b-in-front = ground (arith, has-append b.ptr xs (b ∷ []))

  c-ne-b : c.ptr ≢ b.ptr
  c-ne-b = not-front l (xs ++ b ∷ []) c (d ∷ ys) v b.ptr b-in-front

  c-ne-d : c.ptr ≢ d.ptr
  c-ne-d = not-back l (xs ++ b ∷ []) c (d ∷ ys) v d.ptr (ground arith)

  d-ne-b : d.ptr ≢ b.ptr
  d-ne-b = ground (arith, apart b.ptr b-in-front)

  d-ne-front : (a : Ptr) → has a (xs ++ b ∷ []) ≡ true → d.ptr ≢ a
  d-ne-front a p e = ground (arith, apart a p)

  b-ne-back : (a : Ptr) → has a (d ∷ ys) ≡ true → b.ptr ≢ a
  b-ne-back a p = has-ne a b.ptr (d ∷ ys) p (apart b.ptr b-in-front)

  -- The store once the neighbours are linked to each other.
  abbrev bridged : Store
  bridged = modify (modify l.nodes d.ptr (with_prev b.ptr)) b.ptr (with_next d.ptr)

  bridged-Unlinked : Unlinked l (xs ++ b ∷ []) c (d ∷ ys) (record l { nodes = bridged })
  bridged-Unlinked = record {
    node = (
      _,
      _,
      modify_other b.ptr (with_next d.ptr)
          (modify_other d.ptr (with_prev b.ptr) current-IsNode (λ e. c-ne-d (sym e)))
          (λ e. c-ne-b (sym e)),
    );
    front = λ a p. rw last_or-snoc (ground (arith, d-ne-front a p));
    back = λ a p. rw last_or-snoc (ground (arith, b-ne-back a p));
    same =
        λ a p. ground (arith, has-append a (xs ++ b ∷ []) (c ∷ d ∷ ys), has-append a xs (b ∷ []));
    head = v.head ∙ first_or-front xs b (c ∷ d ∷ ys) ∙ sym (first_or-front xs b (d ∷ ys));
    tail =
        v.tail
        ∙ last_or-append null (xs ++ b ∷ []) (c ∷ d ∷ ys)
        ∙ sym (last_or-append null (xs ++ b ∷ []) (d ∷ ys));
    size = refl;
    conf = refl;
    events = refl;
  }

  remove_normal-Dropped :
      (del : Bool)
      → Removal (held c) (Dropped l (xs ++ b ∷ []) c (d ∷ ys) del) (remove_normal l c.ptr del)
  unfolding remove_normal
  remove_normal-Dropped del =
      simp
        (
          load-ok current-IsNode,
          change-ok next-IsNode (with_prev b.ptr),
          load-ok (modify_other d.ptr (with_prev b.ptr) current-IsNode (λ e. c-ne-d (sym e))),
          change-ok (modify_other d.ptr (with_prev b.ptr) before-IsNode d-ne-b) (with_next d.ptr),
        )
        (retire-Dropped l (xs ++ b ∷ []) c (d ∷ ys) v _ bridged-Unlinked del)

module _ (l : LinkedList) (c : Cell) (del : Bool) where
  -- The removal of a cell behind others: the last one, or one in the middle.
  inner-Dropped :
      (xs : Cells) (b : Cell) (ys : Cells)
      → IsList l ((xs ++ b ∷ []) ++ c ∷ ys)
      → Removal (held c) (Dropped l (xs ++ b ∷ []) c ys del) (remove_node l c.ptr del)
  unfolding remove_node
  inner-Dropped xs b ys v =
      let size : l.size ≢ 1 =
        ground (arith, v.size, length-append (xs ++ b ∷ []) (c ∷ ys), length-append xs (b ∷ [])) in
      let head : l.head ≢ c.ptr =
        ground (
          arith,
          v.head,
          first_or-front xs b (c ∷ ys),
          head-in xs b,
          gone l (xs ++ b ∷ []) c ys v,
        ) in
      Removal-if (l.size == 1) (λ e. absurd (size (==_true l.size 1 e)))
        λ _.
          Removal-if (l.tail == c.ptr) (λ e. last ys v (==_true l.tail c.ptr e))
            λ e.
              Removal-if (l.head == c.ptr) (λ h. absurd (head (==_true l.head c.ptr h)))
                λ _. middle ys v e
    where
      last :
          (ys : Cells)
          → IsList l ((xs ++ b ∷ []) ++ c ∷ ys)
          → l.tail ≡ c.ptr
          → Removal (held c) (Dropped l (xs ++ b ∷ []) c ys del) (remove_tail l c.ptr del)
      last [] v e = remove_tail-Dropped l xs b c del v
      last (d ∷ ys) v e = absurd (tail-ne l (xs ++ b ∷ []) c d ys v e)

      middle :
          (ys : Cells)
          → IsList l ((xs ++ b ∷ []) ++ c ∷ ys)
          → (l.tail == c.ptr) ≡ false
          → Removal (held c) (Dropped l (xs ++ b ∷ []) c ys del) (remove_normal l c.ptr del)
      middle [] v e =
          absurd (ground (arith, e, v.tail, last_or-append null (xs ++ b ∷ []) (c ∷ [])))
      middle (d ∷ ys) v e = remove_normal-Dropped l xs b c d ys v del

  front-Dropped :
      (ys : Cells)
      → IsList l (c ∷ ys)
      → Removal (held c) (Dropped l [] c ys del) (remove_node l c.ptr del)
  unfolding remove_node
  front-Dropped [] v = simp v.size (remove_only-Dropped l c del v)
  front-Dropped (d ∷ ys) v =
      Removal-if (l.size == 1) (λ e. absurd (ground (arith, v.size)))
        λ _.
          Removal-if (l.tail == c.ptr)
            (λ e. absurd (tail-ne l [] c d ys v (==_true l.tail c.ptr e)))
            λ _.
              Removal-if (l.head == c.ptr) (λ _. remove_head-Dropped l c del d ys v)
                λ e. absurd (ground (arith, v.head))

  -- remove_node, given the node of a cell of a well-formed list, whichever of the four removals
  -- it chooses: where an iterator holds the node it returns, the other cells stay linked in
  -- their order, the item is given up as the configuration says, the node is left marked with
  -- one reference fewer, and no node outside of the list changes; where none holds it, the run
  -- is undefined, since the node is freed at an address inside its block.
  pub remove_node-Dropped :
      (xs ys : Cells)
      → IsList l (xs ++ c ∷ ys)
      → Removal (held c) (Dropped l xs c ys del) (remove_node l c.ptr del)
  remove_node-Dropped [] ys v = front-Dropped ys v
  remove_node-Dropped (x ∷ xs) ys v =
      let (zs, b, e) = snoc-view x xs in
      subst (λ z. Removal (held c) (Dropped l z c ys del) (remove_node l c.ptr del)) (sym e)
        (inner-Dropped zs b ys (subst (λ z. IsList l (z ++ c ∷ ys)) e v))
