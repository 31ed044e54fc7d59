-- ===== src/LinkedList/Moves.antt =====
-- data_structures/list.c: what `update_pos` does to the references and the events of a list.
use c_utils.Base.{
  ℕ, ◌+◌, ◌<◌, ◌≡◌, refl, sym, true, false, none, some, List, ◌⊎◌, inl, inr, arith, ◌==◌,
  if◌then◌else◌, ok, Returns, returns, Returns-bind, ◌>>=◌,
}
use c_utils.Node.{Ptr, null, Node, Store, IsNode, load-ok, load}
use c_utils.LinkedList.{LinkedList, ItemEvent, ref_inc, ref_dec}
use c_utils.LinkedList.Iterate.{
  Position, nowhere, note, let_go, take_hold, update_pos, get_item, move,
}
use c_utils.LinkedList.Hold.{
  Counted, Counted-ext, IsHeld, IsOwned, counted-IsNode, one, holds, ref_dec_node-Counted,
  ref_inc_node-Counted,
}

abbrev pub item_at : Store → Ptr → ℕ
item_at s p = elim (s p) [ none ↦ null | some n ↦ n.item ]

abbrev pub item_or_null : Store → Ptr → ℕ
item_or_null owned p = if p == null then null else item_at owned p

-- The item of the node that is left, and that of the node that is come to.
abbrev pub left : LinkedList → Store → Ptr → List ItemEvent
left l owned p =
    if p == null then l.events else note l.conf.rc_item (ref_dec (item_at owned p)) l.events

abbrev pub entered : LinkedList → Store → Ptr → List ItemEvent → List ItemEvent
entered l owned p es = if p == null then es else note l.conf.rc_item (ref_inc (item_at owned p)) es

-- The position at a node.
abbrev pub stand : Store → Ptr → Position
stand s p = elim (s p) [
  | none ↦ nowhere
  | some n ↦ record { prev = n.prev; curr = p; next = n.next }
]

abbrev pub stand_at : Store → Ptr → Position
stand_at s p = if p == null then nowhere else stand s p

module _ {owned : Store} {p : Ptr} {n : Node} (node : IsNode owned p n) where
  pub item_at_lem : item_at owned p ≡ n.item
  item_at_lem = ground (arith, node.holds)

  pub stand_at_lem : stand_at owned p ≡ record { prev = n.prev; curr = p; next = n.next }
  stand_at_lem = ground (arith, node.holds, node.ne_null)

pub stand_at-null : (owned : Store) (p : Ptr) → p ≡ null → stand_at owned p ≡ nowhere
stand_at-null owned p z = ground arith

module _ (owned : Store) (l : LinkedList) where
  left-load :
      (pos : Position)
      → IsHeld owned pos
      → Counted owned (holds pos) l.nodes
      → (if pos.curr == null
          then ok l.events
          else (do c ← load l.nodes pos.curr; ok (note l.conf.rc_item (ref_dec c.item) l.events)))
        ≡ ok (left l owned pos.curr)
  left-load pos h c = elim h.curr [
    | inl z ↦ let e : (pos.curr == null) ≡ true = ground arith in rw e refl
    | inr (n, node, _) ↦
        let e : (pos.curr == null) ≡ false = ground (arith, node.ne_null) in
        let here = counted-IsNode owned (holds pos) l.nodes c node (ground arith) in
        simp (e, load-ok here, item_at_lem node) refl
  ]

  pub let_go-Counted :
      (pos : Position)
      → IsHeld owned pos
      → Counted owned (holds pos) l.nodes
      → Returns
          (λ l'.
            Counted owned (λ a. 0) l'.nodes
            × (l' ≡ record l { nodes = l'.nodes; events = left l owned pos.curr }))
          (let_go l pos)
  unfolding let_go
  let_go-Counted pos h c = rw (left-load pos h c) (
      Returns-bind
        (ref_dec_node-Counted owned (λ a. one pos.prev a + one pos.next a) l.nodes pos.curr h.curr
          (Counted-ext owned (holds pos) _ l.nodes (λ a. omega arith) c))
        λ s1 c1.
          Returns-bind (ref_dec_node-Counted owned (one pos.prev) s1 pos.next h.next c1) λ s2 c2.
            Returns-bind
              (ref_dec_node-Counted owned (λ a. 0) s2 pos.prev h.prev
                (Counted-ext owned _ _ s2 (λ a. omega arith) c2))
              λ s3 c3. returns (c3, refl))

-- A node that has an owner beside the iterator, and so do its neighbours.
pub record IsMet (owned : Store) (p : Ptr) (n : Node) : Type 0 where
  pub node : IsNode owned p n
  pub has_owner : 0 < n.refs
  pub prev : IsOwned owned n.prev
  pub next : IsOwned owned n.next

-- Where the iterator can go.
abbrev pub CanGo : Store → Ptr → Type 0
CanGo owned p = (p ≡ null) ⊎ ((n : Node) × IsMet owned p n)

-- What `take_hold` gives.
abbrev pub Held : Store → LinkedList → Ptr → List ItemEvent → (Position × LinkedList) → Type 0
Held owned l p es r =
    (r.0 ≡ stand_at owned p)
    × Counted owned (holds r.0) r.1.nodes
    × (r.1 ≡ record l { nodes = r.1.nodes; events = es })

module _ (owned : Store) (l : LinkedList) where
  pub take_hold-Held :
      (p : Ptr)
      → CanGo owned p
      → Counted owned (λ a. 0) l.nodes
      → Returns (Held owned l p (entered l owned p l.events)) (take_hold l p)
  unfolding take_hold
  take_hold-Held p (inl z) c =
      let e : (p == null) ≡ true = ground arith in
      rw e (returns (sym (stand_at-null owned p z), c, refl))
  take_hold-Held p (inr (n, m)) c =
      let e : (p == null) ≡ false = ground (arith, m.node.ne_null) in
      simp (e, item_at_lem m.node)
        (Returns-bind
          (ref_inc_node-Counted owned (λ a. 0) l.nodes p (inr (n, m.node, m.has_owner)) c)
          λ s1 c1.
            simp (load-ok (counted-IsNode owned _ s1 c1 m.node (omega (arith, m.has_owner)))) (
              Returns-bind (ref_inc_node-Counted owned _ s1 n.next m.next c1) λ s2 c2.
                Returns-bind (ref_inc_node-Counted owned _ s2 n.prev m.prev c2) λ s3 c3. returns (
                  sym (stand_at_lem m.node),
                  Counted-ext owned _ _ s3 (λ a. omega arith) c3,
                  refl,
                )))

-- What `update_pos` comes to.
abbrev pub Moved : Store → LinkedList → Ptr → Ptr → (Position × LinkedList) → Type 0
Moved owned l from p r = Held owned l p (entered l owned p (left l owned from)) r

module _ (owned : Store) (l : LinkedList) (pos : Position) (h : IsHeld owned pos)
    (c : Counted owned (holds pos) l.nodes) (p : Ptr) (go : CanGo owned p) where
  pub update_pos-Moved : Returns (Moved owned l pos.curr p) (update_pos l pos p)
  unfolding update_pos
  update_pos-Moved = Returns-bind (let_go-Counted owned l pos h c) λ l1 (c1, e1).
      rw e1 (
        take_hold-Held owned (record l { nodes = l1.nodes; events = left l owned pos.curr }) p go
          c1)

  get_item-ok :
      (r : Position × LinkedList)
      → Moved owned l pos.curr p r
      → get_item r.1.nodes p ≡ ok (item_or_null owned p)
  unfolding get_item
  get_item-ok r m = elim go [
    | inl z ↦ let e : (p == null) ≡ true = ground arith in rw e refl
    | inr (n, met) ↦
        let e : (p == null) ≡ false = ground (arith, met.node.ne_null) in
        let here =
          counted-IsNode owned (holds r.0) r.1.nodes m.1 met.node (omega (arith, met.has_owner)) in
        simp (e, load-ok here, item_at_lem met.node) refl
  ]

  -- The item of the node that is come to is returned.
  pub move-Moved :
      Returns
        (λ r. (r.0 ≡ item_or_null owned p) × Moved owned l pos.curr p (r.1, r.2))
        (move l pos p)
  unfolding move
  move-Moved =
      Returns-bind update_pos-Moved
        λ (pos', l') m. rw (get_item-ok (pos', l') m) (returns (refl, m))
