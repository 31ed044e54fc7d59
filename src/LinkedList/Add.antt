-- ===== src/LinkedList/Add.antt =====
-- The functions of data_structures/list.c that put a node into a list.
use c_utils.Base.{
  ◌+◌, ◌≡◌, ◌≢◌, refl, sym, subst, ◌∙◌, append-nil, true, false, [], ◌∷◌, ◌++◌, arith, length,
  Returns, returns,
}
use c_utils.Node.{Ptr, null, Store, change-ok, modify, IsNode, modify_self, modify_other}
use c_utils.Node.Links.{
  Cell, Cells, live, first_or, last_or, has, has-append, has-ne, last_or-snoc, last_or-append,
  first_or-front, Distinct, Links, Links-append, Links-split, Links-retarget, Links-reroot,
  Distinct-split, with_next, with_prev,
}
use c_utils.LinkedList.{LinkedList, add_as_head, add_as_tail, add_as_only, add_unsorted}
use c_utils.LinkedList.Invariant.{IsList, IsLoose, SameOutside}

-- Two chains and a node between them make one.
Links-insert :
    (s : Store) (c : Cell) (xs ys : Cells)
    → Links s null xs c.ptr
    → IsNode s c.ptr (live c (last_or null xs) (first_or null ys))
    → Links s c.ptr ys null
    → Links s null (xs ++ c ∷ ys) null
Links-insert s c xs ys front node back = Links-append s null null xs (c ∷ ys) front (node, back)

Distinct-insert :
    (c : Cell) (xs ys : Cells)
    → Distinct (xs ++ ys)
    → has c.ptr (xs ++ ys) ≡ false
    → Distinct (xs ++ c ∷ ys)
Distinct-insert c [] ys d out = (out, d)
Distinct-insert c (x ∷ xs) ys d out = (
  ground (arith, has-append x.ptr xs ys, has-append x.ptr xs (c ∷ ys)),
  Distinct-insert c xs ys d.1 (ground arith),
)

length-insert : (c : Cell) (xs ys : Cells) → length (xs ++ c ∷ ys) ≡ length (xs ++ ys) + 1
length-insert c [] ys = omega arith
length-insert c (x ∷ xs) ys = omega (arith, length-insert c xs ys)

-- What putting `c` between `xs` and `ys` does.
pub record Added (l : LinkedList) (xs ys : Cells) (c : Cell) (l' : LinkedList) : Type 0 where
  pub valid : IsList l' (xs ++ c ∷ ys)
  pub same : SameOutside (xs ++ c ∷ ys) l.nodes l'.nodes
  pub conf : l'.conf ≡ l.conf
  pub events : l'.events ≡ l.events

-- The writes that put `c` between `xs` and `ys`, whatever their order.
pub record Spliced (l : LinkedList) (xs ys : Cells) (c : Cell) (l' : LinkedList) : Type 0 where
  pub node : IsNode l'.nodes c.ptr (live c (last_or null xs) (first_or null ys))
  pub front :
      (a : Ptr)
      → has a xs ≡ true
      → l'.nodes a ≡ modify l.nodes (last_or null xs) (with_next c.ptr) a
  pub back :
      (a : Ptr)
      → has a ys ≡ true
      → l'.nodes a ≡ modify l.nodes (first_or null ys) (with_prev c.ptr) a
  pub same : SameOutside (xs ++ c ∷ ys) l.nodes l'.nodes
  pub head : l'.head ≡ first_or null (xs ++ c ∷ ys)
  pub tail : l'.tail ≡ last_or null (xs ++ c ∷ ys)
  pub size : l'.size ≡ l.size + 1
  pub conf : l'.conf ≡ l.conf
  pub events : l'.events ≡ l.events

pub Spliced-Added :
    (l : LinkedList) (xs ys : Cells) (c : Cell) (l' : LinkedList)
    → IsList l (xs ++ ys)
    → has c.ptr (xs ++ ys) ≡ false
    → Spliced l xs ys c l'
    → Added l xs ys c l'
Spliced-Added l xs ys c l' v out w =
    let (front, back) = Links-split l.nodes null null xs ys v.links in
    let (dx, dy) = Distinct-split xs ys v.distinct in
    record {
      valid = record {
        head = w.head;
        tail = w.tail;
        size = omega (arith, w.size, v.size, length-insert c xs ys);
        links =
            Links-insert l'.nodes c xs ys
              (Links-retarget l.nodes l'.nodes null (first_or null ys) c.ptr xs dx w.front front)
              w.node (Links-reroot l.nodes l'.nodes (last_or null xs) c.ptr null ys dy w.back back);
        distinct = Distinct-insert c xs ys v.distinct out;
      };
      same = w.same;
      conf = w.conf;
      events = w.events;
    }

module _ (l : LinkedList) (c : Cell) where
  pub add_as_only-Added :
      IsList l [] → IsLoose l [] c → Returns (Added l [] [] c) (add_as_only l c.ptr)
  unfolding add_as_only
  add_as_only-Added v loose =
      let n1 = modify_self (with_prev null) loose.node refl in
      let n2 = modify_self (with_next null) n1 refl in
      rw (change-ok loose.node (with_prev null), change-ok n1 (with_next null))
        (returns (
          Spliced-Added l [] [] c _ v refl (record {
            node = n2;
            front = λ a p. cc;
            back = λ a p. cc;
            same = λ a out. ground arith;
            head = refl;
            tail = refl;
            size = refl;
            conf = refl;
            events = refl;
          })))

  -- the list has a first cell
  pub add_as_head-Added :
      (d : Cell) (ys : Cells)
      → IsList l (d ∷ ys)
      → IsLoose l (d ∷ ys) c
      → Returns (Added l [] (d ∷ ys) c) (add_as_head l c.ptr)
  unfolding add_as_head
  add_as_head-Added d ys v loose =
      let ne : c.ptr ≢ d.ptr = ground (arith, loose.out) in
      let n1 = modify_self (with_next d.ptr) loose.node refl in
      let n2 = modify_other d.ptr (with_prev c.ptr) n1 (λ e. ne (sym e)) in
      let n3 = modify_self (with_prev null) n2 refl in
      let d1 = modify_other c.ptr (with_next d.ptr) v.links.0 ne in
      simp
        (
          v.head,
          change-ok loose.node (with_next d.ptr),
          change-ok d1 (with_prev c.ptr),
          change-ok n2 (with_prev null),
        )
        (returns (
          Spliced-Added l [] (d ∷ ys) c _ v loose.out (record {
            node = n3;
            front = λ a p. cc;
            back = λ a p. ground (arith, loose.out);
            same = λ a out. ground arith;
            head = refl;
            tail = v.tail;
            size = refl;
            conf = refl;
            events = refl;
          })))

module _ (l : LinkedList) (c : Cell) (xs : Cells) (t : Cell) (v : IsList l (xs ++ t ∷ []))
    (loose : IsLoose l (xs ++ t ∷ []) c) where
  -- The list has a last cell.
  last-IsNode : IsNode l.nodes t.ptr (live t (last_or null xs) null)
  last-IsNode = (Links-split l.nodes null null xs (t ∷ []) v.links).1.0

  last-ne : c.ptr ≢ t.ptr
  last-ne = ground (arith, loose.out, has-append c.ptr xs (t ∷ []))

  tail-last : l.tail ≡ t.ptr
  tail-last = v.tail ∙ last_or-snoc null xs t

  -- A store in which `c` is linked behind the last cell.
  behind-Added :
      (s : Store)
      → IsNode s c.ptr (live c t.ptr null)
      → ((a : Ptr) → c.ptr ≢ a → s a ≡ modify l.nodes t.ptr (with_next c.ptr) a)
      → Added l (xs ++ t ∷ []) [] c (record l { nodes = s; tail = c.ptr; size = l.size + 1 })
  behind-Added s node rest =
      Spliced-Added l (xs ++ t ∷ []) [] c _ (subst (IsList l) (sym (append-nil _)) v)
        (rw append-nil loose.out)
        (record {
          node = rw last_or-snoc node;
          front = λ a p. rw last_or-snoc (rest a (has-ne a c.ptr _ p loose.out));
          back = λ a p. cc;
          same = λ a out.
              ground
                (arith, rest a, has-append a (xs ++ t ∷ []) (c ∷ []), has-append a xs (t ∷ []));
          head = v.head ∙ sym (first_or-front xs t (c ∷ []));
          tail = sym (last_or-append null (xs ++ t ∷ []) (c ∷ []));
          size = refl;
          conf = refl;
          events = refl;
        })

  pub add_as_tail-Added : Returns (Added l (xs ++ t ∷ []) [] c) (add_as_tail l c.ptr)
  unfolding add_as_tail
  add_as_tail-Added =
      let t1 = last-IsNode in
      let n1 = modify_other t.ptr (with_next c.ptr) loose.node (λ e. last-ne (sym e)) in
      let n2 = modify_self (with_prev t.ptr) n1 refl in
      let n3 = modify_self (with_next null) n2 refl in
      simp
        (
          tail-last,
          change-ok last-IsNode (with_next c.ptr),
          change-ok n1 (with_prev t.ptr),
          change-ok n2 (with_next null),
        )
        (returns (behind-Added _ n3 λ a p. ground arith))

  pub add_unsorted-Added : Returns (Added l (xs ++ t ∷ []) [] c) (add_unsorted l c.ptr)
  unfolding add_unsorted
  add_unsorted-Added =
      let n1 = modify_self (with_next null) loose.node refl in
      let n2 = modify_self (with_prev t.ptr) n1 refl in
      let t1 = modify_other c.ptr (with_next null) last-IsNode last-ne in
      let t2 = modify_other c.ptr (with_prev t.ptr) t1 last-ne in
      let n3 = modify_other t.ptr (with_next c.ptr) n2 (λ e. last-ne (sym e)) in
      simp
        (
          tail-last,
          change-ok loose.node (with_next null),
          change-ok n1 (with_prev t.ptr),
          change-ok t2 (with_next c.ptr),
        )
        (returns (behind-Added _ n3 λ a p. ground arith))
