-- ===== src/LinkedList/Between.antt =====
-- add_before of data_structures/list.c at a cell that is not the first.
use c_utils.Base.{
  ◌+◌, ◌≡◌, ◌≢◌, refl, sym, ◌∙◌, true, false, [], ◌∷◌, ◌++◌, arith, ◌==◌, Returns, returns,
  Bool-cases, inl, inr, ==_true,
}
use c_utils.Node.{
  Ptr, null, Store, change-ok, load-ok, modify, at_node, IsNode, modify_self, modify_other,
}
use c_utils.Node.Links.{
  Cell, Cells, live, first_or, last_or, has, has-append, has-ne, last_or-snoc, last_or-append,
  first_or-front, Links, Links-split, Distinct-disjoint, with_next, with_prev,
}
use c_utils.LinkedList.{LinkedList, add_before}
use c_utils.LinkedList.Invariant.{IsList, IsLoose}
use c_utils.LinkedList.Add.{Added, Spliced-Added}

module _ (l : LinkedList) (c : Cell) (xs : Cells) (b d : Cell) (ys : Cells)
    (v : IsList l ((xs ++ b ∷ []) ++ d ∷ ys)) (loose : IsLoose l ((xs ++ b ∷ []) ++ d ∷ ys) c) where
  parts :
      Links l.nodes null (xs ++ b ∷ []) d.ptr
      × Links l.nodes (last_or null (xs ++ b ∷ [])) (d ∷ ys) null
  parts = Links-split l.nodes null null (xs ++ b ∷ []) (d ∷ ys) v.links

  before-IsNode : IsNode l.nodes b.ptr (live b (last_or null xs) d.ptr)
  before-IsNode = (Links-split l.nodes null d.ptr xs (b ∷ []) parts.0).1.0

  current-IsNode : IsNode l.nodes d.ptr (live d b.ptr (first_or null ys))
  current-IsNode = rw last_or-snoc at parts.1.0

  b-ne-c : b.ptr ≢ c.ptr
  b-ne-c =
      ground
        (arith, loose.out, has-append c.ptr (xs ++ b ∷ []) (d ∷ ys), has-append c.ptr xs (b ∷ []))

  d-ne-c : d.ptr ≢ c.ptr
  d-ne-c = ground (arith, loose.out, has-append c.ptr (xs ++ b ∷ []) (d ∷ ys))

  -- What stands in front of the cell is not among what stands from it.
  apart : (a : Ptr) → has a (xs ++ b ∷ []) ≡ true → has a (d ∷ ys) ≡ false
  apart a = Distinct-disjoint a (xs ++ b ∷ []) (d ∷ ys) v.distinct

  b-in-front : has b.ptr (xs ++ b ∷ []) ≡ true
  b-in-front = ground (arith, has-append b.ptr xs (b ∷ []))

  b-ne-d : b.ptr ≢ d.ptr
  b-ne-d = ground (arith, apart b.ptr b-in-front)

  -- A store in which `c` is linked between `b` and `d`.
  between-Added :
      (s : Store)
      → IsNode s c.ptr (live c b.ptr d.ptr)
      → s d.ptr ≡ at_node (with_prev c.ptr) (l.nodes d.ptr)
      → ((a : Ptr) → c.ptr ≢ a → d.ptr ≢ a → s a ≡ modify l.nodes b.ptr (with_next c.ptr) a)
      → Added l (xs ++ b ∷ []) (d ∷ ys) c (record l { nodes = s; size = l.size + 1 })
  between-Added s node at_d rest = Spliced-Added l (xs ++ b ∷ []) (d ∷ ys) c _ v loose.out (record {
    node = rw last_or-snoc node;
    front = λ a p. rw last_or-snoc (
        rest a
          (has-ne a c.ptr _ p (ground (arith, loose.out, has-append c.ptr (xs ++ b ∷ []) (d ∷ ys))))
          (ground (arith, apart a p)));
    back = back;
    same = λ a out.
        ground (arith, rest a, has-append a (xs ++ b ∷ []) (c ∷ d ∷ ys), has-append a xs (b ∷ []));
    head = v.head ∙ first_or-front xs b (d ∷ ys) ∙ sym (first_or-front xs b (c ∷ d ∷ ys));
    tail =
        v.tail
        ∙ last_or-append null (xs ++ b ∷ []) (d ∷ ys)
        ∙ sym (last_or-append null (xs ++ b ∷ []) (c ∷ d ∷ ys));
    size = refl;
    conf = refl;
    events = refl;
  })
    where
      out_behind : has c.ptr (d ∷ ys) ≡ false
      out_behind = ground (arith, loose.out, has-append c.ptr (xs ++ b ∷ []) (d ∷ ys))

      back : (a : Ptr) → has a (d ∷ ys) ≡ true → s a ≡ modify l.nodes d.ptr (with_prev c.ptr) a
      back a p = elim (Bool-cases (d.ptr == a)) [
        | inl e ↦ rw (e, ← ==_true d.ptr a e) at_d
        | inr e ↦ ground (
          arith,
          rest a,
          has-ne a b.ptr (d ∷ ys) p (apart b.ptr b-in-front),
          has-ne a c.ptr (d ∷ ys) p out_behind,
        )
      ]

  -- `add_before` at a cell that is not the first.
  pub add_before-Added : Returns (Added l (xs ++ b ∷ []) (d ∷ ys) c) (add_before l d.ptr c.ptr)
  unfolding add_before
  add_before-Added =
      let n1 = modify_other b.ptr (with_next c.ptr) loose.node b-ne-c in
      let n2 = modify_self (with_next d.ptr) n1 refl in
      let n3 = modify_self (with_prev b.ptr) n2 refl in
      let n4 = modify_other d.ptr (with_prev c.ptr) n3 d-ne-c in
      let d1 = modify_other b.ptr (with_next c.ptr) current-IsNode b-ne-d in
      let d2 = modify_other c.ptr (with_next d.ptr) d1 (λ e. d-ne-c (sym e)) in
      let d3 = modify_other c.ptr (with_prev b.ptr) d2 (λ e. d-ne-c (sym e)) in
      simp
        (
          load-ok current-IsNode,
          change-ok before-IsNode (with_next c.ptr),
          change-ok n1 (with_next d.ptr),
          change-ok n2 (with_prev b.ptr),
          change-ok d3 (with_prev c.ptr),
        )
        (returns (between-Added _ n4 (ground (arith, b-ne-d, d-ne-c)) λ a p q. ground arith))
