-- ===== src/LinkedList/Cut.antt =====
-- The removals of data_structures/list.c take one cell out and keep the others linked.
use c_utils.Base.{
  ◌+◌, ◌≡◌, ◌≢◌, refl, sym, subst, ap, ◌∙◌, append-nil, Bool, true, false, some, ◌==◌, Bool-cases,
  inl, inr, [], ◌∷◌, ◌++◌, arith, length, Returns, returns,
}
use c_utils.Node.{Ptr, null, Store, load-ok, change-ok, modify, IsNode, modify_ne, modify_other}
use c_utils.Node.Links.{
  Cell, Cells, live, first_or, last_or, has, has-append, has-ne, last_or-snoc, last_or-append,
  first_or-front, Distinct, Distinct-split, Links, Links-append, Links-split, Links-retarget,
  Links-reroot, with_next, with_prev,
}
use c_utils.LinkedList.{LinkedList}
use c_utils.LinkedList.Invariant.{IsList, SameOutside}
use c_utils.LinkedList.Retire.{held, dead, Removal, bad_free, taken}
use c_utils.LinkedList.Drop.{
  drop_item, invalid, invalidate_node, retire, remove_only, remove_head, remove_tail,
}

Distinct-remove :
    (c : Cell) (xs ys : Cells)
    → Distinct (xs ++ c ∷ ys)
    → Distinct (xs ++ ys) × (has c.ptr (xs ++ ys) ≡ false)
Distinct-remove c [] ys d = (d.1, d.0)
Distinct-remove c (x ∷ xs) ys d =
    let (dd, out) = Distinct-remove c xs ys d.1 in
    (
      (ground (arith, has-append x.ptr xs ys, has-append x.ptr xs (c ∷ ys)), dd),
      ground (arith, out, has-append x.ptr xs (c ∷ ys)),
    )

length-remove : (c : Cell) (xs ys : Cells) → length (xs ++ c ∷ ys) ≡ length (xs ++ ys) + 1
length-remove c [] ys = omega arith
length-remove c (x ∷ xs) ys = omega (arith, length-remove c xs ys)

-- What taking `c` from between `xs` and `ys` does. Its node stays with those who hold it.
pub record Dropped (l : LinkedList) (xs : Cells) (c : Cell) (ys : Cells) (del : Bool)
    (l' : LinkedList) : Type 0 where
  pub valid : IsList l' (xs ++ ys)
  pub left : (prev : Ptr) × (next : Ptr) × (l'.nodes c.ptr ≡ some (dead c prev next))
  pub same : SameOutside (xs ++ c ∷ ys) l.nodes l'.nodes
  pub conf : l'.conf ≡ l.conf
  pub events : l'.events ≡ drop_item l del c.item

-- The writes that unlink `c`, before its node is retired.
pub record Unlinked (l : LinkedList) (xs : Cells) (c : Cell) (ys : Cells) (m : LinkedList)
    : Type 0 where
  pub node : (prev : Ptr) × (next : Ptr) × IsNode m.nodes c.ptr (live c prev next)
  pub front :
      (a : Ptr)
      → has a xs ≡ true
      → m.nodes a ≡ modify l.nodes (last_or null xs) (with_next (first_or null ys)) a
  pub back :
      (a : Ptr)
      → has a ys ≡ true
      → m.nodes a ≡ modify l.nodes (first_or null ys) (with_prev (last_or null xs)) a
  pub same : SameOutside (xs ++ c ∷ ys) l.nodes m.nodes
  pub head : m.head ≡ first_or null (xs ++ ys)
  pub tail : m.tail ≡ last_or null (xs ++ ys)
  pub size : m.size ≡ l.size
  pub conf : m.conf ≡ l.conf
  pub events : m.events ≡ l.events

module _ (l : LinkedList) (xs : Cells) (c : Cell) (ys : Cells) (v : IsList l (xs ++ c ∷ ys)) where
  pub gone : has c.ptr (xs ++ ys) ≡ false
  gone = (Distinct-remove c xs ys v.distinct).1

  pub not-front : (a : Ptr) → has a xs ≡ true → c.ptr ≢ a
  not-front a p = has-ne a c.ptr xs p (ground (arith, gone, has-append c.ptr xs ys))

  pub not-back : (a : Ptr) → has a ys ≡ true → c.ptr ≢ a
  not-back a p = has-ne a c.ptr ys p (ground (arith, gone, has-append c.ptr xs ys))

  module _ (m : LinkedList) (u : Unlinked l xs c ys m) where
    -- The store once the node is retired.
    abbrev retired : Store
    retired = modify m.nodes c.ptr invalid

    retired-Links : Links retired null (xs ++ ys) null
    retired-Links =
        let (front, back) = Links-split l.nodes null null xs (c ∷ ys) v.links in
        let (dx, dy) = Distinct-split xs ys (Distinct-remove c xs ys v.distinct).0 in
        Links-append retired null null xs ys
          (Links-retarget l.nodes retired null c.ptr (first_or null ys) xs dx
            (λ a p. modify_ne m.nodes c.ptr a invalid (not-front a p) ∙ u.front a p) front)
          (Links-reroot l.nodes retired c.ptr (last_or null xs) null ys dy
            (λ a p. modify_ne m.nodes c.ptr a invalid (not-back a p) ∙ u.back a p) back.1)

    retire-held :
        (c.refs == 0) ≡ false → (del : Bool) → Returns (Dropped l xs c ys del) (retire m c.ptr del)
    unfolding retire invalidate_node
    retire-held nz del =
        let (p, n, node) = u.node in
        rw (load-ok node, nz, change-ok node invalid)
          (returns (record {
            valid = record {
              head = u.head;
              tail = u.tail;
              size = omega (arith, u.size, v.size, length-remove c xs ys);
              links = retired-Links;
              distinct = (Distinct-remove c xs ys v.distinct).0;
            };
            left = (p, n, ground (arith, node.holds));
            same = λ a out. ground (arith, u.same a, has-append a xs (c ∷ ys));
            conf = u.conf;
            events = simp (u.conf, u.events);
          }))

    -- Retiring an unlinked node completes the removal.
    pub retire-Dropped :
        (del : Bool) → Removal (held c) (Dropped l xs c ys del) (retire m c.ptr del)
    unfolding retire invalidate_node
    retire-Dropped del = elim (Bool-cases (c.refs == 0)) [
      | inl z ↦
          let (p, n, node) = u.node in bad_free (ground (arith, z)) (rw (load-ok node, z) refl)
      | inr nz ↦ taken (ground (arith, nz)) (retire-held nz del)
    ]

module _ (l : LinkedList) (c : Cell) (del : Bool) where
  pub remove_only-Dropped :
      IsList l (c ∷ []) → Removal (held c) (Dropped l [] c [] del) (remove_only l c.ptr del)
  unfolding remove_only
  remove_only-Dropped v =
      retire-Dropped l [] c [] v _
        (record {
          node = (_, _, v.links.0);
          front = λ a p. cc;
          back = λ a p. cc;
          same = λ a p. refl;
          head = refl;
          tail = refl;
          size = refl;
          conf = refl;
          events = refl;
        })
        del

  pub remove_head-Dropped :
      (d : Cell) (ys : Cells)
      → IsList l (c ∷ d ∷ ys)
      → Removal (held c) (Dropped l [] c (d ∷ ys) del) (remove_head l c.ptr del)
  unfolding remove_head
  remove_head-Dropped d ys v =
      let ne : d.ptr ≢ c.ptr = ground (arith, v.distinct.0) in
      let h = modify_other d.ptr (with_prev null) v.links.0 ne in
      simp (v.head, load-ok v.links.0, change-ok v.links.1.0 (with_prev null), load-ok h)
        (retire-Dropped l [] c (d ∷ ys) v _
          (record {
            node = (_, _, h);
            front = λ a p. cc;
            back = λ a p. refl;
            same = λ a p. ground arith;
            head = refl;
            tail = v.tail;
            size = refl;
            conf = refl;
            events = refl;
          })
          del)

module _ (l : LinkedList) (xs : Cells) (b c : Cell) (del : Bool) where
  pub remove_tail-Dropped :
      IsList l ((xs ++ b ∷ []) ++ c ∷ [])
      → Removal (held c) (Dropped l (xs ++ b ∷ []) c [] del) (remove_tail l c.ptr del)
  unfolding remove_tail
  remove_tail-Dropped v =
      let (front, back) = Links-split l.nodes null null (xs ++ b ∷ []) (c ∷ []) v.links in
      let before = (Links-split l.nodes null c.ptr xs (b ∷ []) front).1.0 in
      let current =
        subst (λ p. IsNode l.nodes c.ptr (live c p null)) (last_or-snoc null xs b) back.0 in
      let ne : c.ptr ≢ b.ptr =
        not-front l (xs ++ b ∷ []) c [] v b.ptr (ground (arith, has-append b.ptr xs (b ∷ []))) in
      simp
        (
          v.tail ∙ last_or-append null (xs ++ b ∷ []) (c ∷ []),
          load-ok current,
          change-ok before (with_next null),
        )
        (retire-Dropped l (xs ++ b ∷ []) c [] v _
          (record {
            node = (_, _, modify_other b.ptr (with_next null) current (λ e. ne (sym e)));
            front = λ a p. rw last_or-snoc refl;
            back = λ a p. cc;
            same = λ a p.
                ground (arith, has-append a (xs ++ b ∷ []) (c ∷ []), has-append a xs (b ∷ []));
            head =
                v.head
                ∙ first_or-front xs b (c ∷ [])
                ∙ ap (first_or null) (sym (append-nil (xs ++ b ∷ [])));
            tail =
                sym (last_or-snoc null xs b) ∙ ap (last_or null) (sym (append-nil (xs ++ b ∷ [])));
            size = refl;
            conf = refl;
            events = refl;
          })
          del)
