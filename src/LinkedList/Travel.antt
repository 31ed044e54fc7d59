-- ===== src/LinkedList/Travel.antt =====
-- data_structures/list.c: an iterator over a list that nobody changes, against a cursor.
use c_utils.Base.{
  ℕ, ◌+◌, ◌≡◌, refl, sym, ap, ◌∙◌, fun_ext, Bool, some, List, [], ◌∷◌, inl, inr, arith, Returns,
  Returns-mono, subst,
}
use c_utils.Node.{Ptr, null, Node, Store, at_node, IsNode}
use c_utils.Node.Links.{Cell, Cells, live, first_or, Links}
use c_utils.LinkedList.{LinkedList, ItemEvent, ref_inc, ref_dec}
use c_utils.LinkedList.Invariant.{IsList}
use c_utils.LinkedList.Iterate.{Position, nowhere, note, prev, move, update_pos}
use c_utils.LinkedList.Hold.{Counted, IsHeld, IsOwned, holds}
use c_utils.LinkedList.Moves.{
  CanGo, IsMet, Moved, update_pos-Moved, move-Moved, stand_at, stand_at_lem, item_at_lem,
  item_or_null, left, entered,
}

-- The list is one owner of each of its nodes, beside those that a counter counts.
abbrev pub owners : Store → Store
owners s a = at_node (λ n. some (record n { refs = n.refs + 1 })) (s a)

-- Where an iterator stands: at no cell, or at one, with those before it in reverse and those after.
pub data Cursor : Type 0 where
  off : Cursor
  on : Cells → Cell → Cells → Cursor

-- The cells in front are put back.
abbrev pub rebuild : Cells → Cells → Cells
rebuild [] cs = cs
rebuild (r ∷ rs) cs = rebuild rs (r ∷ cs)

abbrev pub Splits : Cells → Cursor → Type 0
Splits cells off = Unit
Splits cells (on rs c cs) = rebuild rs (c ∷ cs) ≡ cells

abbrev pub first_cursor : Cells → Cursor
first_cursor [] = off
first_cursor (c ∷ cs) = on [] c cs

abbrev pub last_from : Cells → Cell → Cells → Cursor
last_from rs c [] = on rs c []
last_from rs c (d ∷ cs) = last_from (c ∷ rs) d cs

abbrev pub last_cursor : Cells → Cursor
last_cursor [] = off
last_cursor (c ∷ cs) = last_from [] c cs

abbrev pub next_cursor : Cells → Cursor → Cursor
next_cursor cells off = first_cursor cells
next_cursor cells (on rs c []) = off
next_cursor cells (on rs c (d ∷ cs)) = on (c ∷ rs) d cs

abbrev pub prev_cursor : Cells → Cursor → Cursor
prev_cursor cells off = last_cursor cells
prev_cursor cells (on [] c cs) = off
prev_cursor cells (on (r ∷ rs) c cs) = on rs r (c ∷ cs)

abbrev pub cursor_item : Cursor → ℕ
cursor_item off = null
cursor_item (on rs c cs) = c.item

abbrev pub position : Cursor → Position
position off = nowhere
position (on rs c cs) = record { prev = first_or null rs; curr = c.ptr; next = first_or null cs }

-- What is noted when an iterator goes from one place to another.
abbrev pub enter_cursor : Bool → Cursor → List ItemEvent → List ItemEvent
enter_cursor rc off es = es
enter_cursor rc (on rs c cs) es = note rc (ref_inc c.item) es

abbrev pub leave_cursor : Bool → Cursor → List ItemEvent → List ItemEvent
leave_cursor rc off es = es
leave_cursor rc (on rs c cs) es = note rc (ref_dec c.item) es

owners-IsNode :
    {s : Store} {p : Ptr} {n : Node}
    → IsNode s p n
    → IsNode (owners s) p (record n { refs = n.refs + 1 })
owners-IsNode node = record { ne_null = node.ne_null; holds = ground (arith, node.holds) }

pub owners-Counted : (s : Store) → Counted (owners s) (λ a. 0) s
owners-Counted s a = ground arith

pub Counted-owners : (s t : Store) → Counted (owners s) (λ a. 0) t → t ≡ s
Counted-owners s t c = fun_ext λ a. ground (arith, c a)

owned_node : {s : Store} {p : Ptr} {n : Node} → IsNode s p n → IsOwned (owners s) p
owned_node node = inr (_, owners-IsNode node, omega arith)

first-IsOwned :
    (s : Store) (prev : Ptr) (cs : Cells)
    → Links s prev cs null
    → IsOwned (owners s) (first_or null cs)
first-IsOwned s prev [] k = inl refl
first-IsOwned s prev (c ∷ cs) k = owned_node k.0

rebuild-Links :
    (s : Store) (rs cs : Cells)
    → Links s null (rebuild rs cs) null
    → Links s (first_or null rs) cs null × IsOwned (owners s) (first_or null rs)
rebuild-Links s [] cs k = (k, inl refl)
rebuild-Links s (r ∷ rs) cs k =
    let (links, owned) = rebuild-Links s rs (r ∷ cs) k in (links.1, owned_node links.0)

module _ (s : Store) (rs : Cells) (c : Cell) (cs : Cells)
    (k : Links s null (rebuild rs (c ∷ cs)) null) where
  on-IsMet :
      IsMet
        (owners s)
        c.ptr
        (record (live c (first_or null rs) (first_or null cs)) { refs = c.refs + 1 })
  on-IsMet =
      let (links, owned) = rebuild-Links s rs (c ∷ cs) k in
      record {
        node = owners-IsNode links.0;
        has_owner = omega arith;
        prev = owned;
        next = first-IsOwned s c.ptr cs links.1;
      }

  on-IsHeld : IsHeld (owners s) (position (on rs c cs))
  on-IsHeld = record {
    prev = on-IsMet.prev;
    curr = inr (_, on-IsMet.node, on-IsMet.has_owner);
    next = on-IsMet.next;
  }

module _ (l : LinkedList) (cells : Cells) (v : IsList l cells) where
  cursor-IsHeld : (u : Cursor) → Splits cells u → IsHeld (owners l.nodes) (position u)
  cursor-IsHeld off e = record { prev = inl refl; curr = inl refl; next = inl refl }
  cursor-IsHeld (on rs c cs) e = on-IsHeld l.nodes rs c cs (rw e v.links)

  cursor-CanGo : (u : Cursor) → Splits cells u → CanGo (owners l.nodes) (position u).curr
  cursor-CanGo off e = inl refl
  cursor-CanGo (on rs c cs) e = inr (_, on-IsMet l.nodes rs c cs (rw e v.links))

  pub cursor-IsMet :
      (rs : Cells) (c : Cell) (cs : Cells)
      → Splits cells (on rs c cs)
      → IsMet
          (owners l.nodes)
          c.ptr
          (record (live c (first_or null rs) (first_or null cs)) { refs = c.refs + 1 })
  cursor-IsMet rs c cs e = on-IsMet l.nodes rs c cs (rw e v.links)

  stand_at-cursor :
      (u : Cursor) → Splits cells u → stand_at (owners l.nodes) (position u).curr ≡ position u
  stand_at-cursor off e = refl
  stand_at-cursor (on rs c cs) e = stand_at_lem (cursor-IsMet rs c cs e).node

  item-cursor :
      (u : Cursor)
      → Splits cells u
      → item_or_null (owners l.nodes) (position u).curr ≡ cursor_item u
  item-cursor off e = refl
  item-cursor (on rs c cs) e =
      let m = cursor-IsMet rs c cs e in ground (arith, item_at_lem m.node, m.node.ne_null)

  -- The list as an iterator at a cursor leaves it.
  pub record IsAt (u : Cursor) (es : List ItemEvent) (pos : Position) (l' : LinkedList)
      : Type 0 where
    pub splits : Splits cells u
    pub stands : pos ≡ position u
    pub counted : Counted (owners l.nodes) (holds pos) l'.nodes
    pub rest : l' ≡ record l { nodes = l'.nodes; events = es }

  leave-left :
      (l' : LinkedList) (u : Cursor)
      → Splits cells u
      → l'.conf ≡ l.conf
      → left l' (owners l.nodes) (position u).curr ≡ leave_cursor l.conf.rc_item u l'.events
  leave-left l' off e q = refl
  leave-left l' (on rs c cs) e q =
      let m = cursor-IsMet rs c cs e in ground (arith, item_at_lem m.node, m.node.ne_null, q)

  enter-entered :
      (l' : LinkedList) (u : Cursor) (es : List ItemEvent)
      → Splits cells u
      → l'.conf ≡ l.conf
      → entered l' (owners l.nodes) (position u).curr es ≡ enter_cursor l.conf.rc_item u es
  enter-entered l' off es e q = refl
  enter-entered l' (on rs c cs) es e q =
      let m = cursor-IsMet rs c cs e in ground (arith, item_at_lem m.node, m.node.ne_null, q)

  module _ (u w : Cursor) (es : List ItemEvent) (pos : Position) (l' : LinkedList)
      (a : IsAt u es pos l') (e : Splits cells w) where
    abbrev noted : List ItemEvent
    noted = enter_cursor l.conf.rc_item w (leave_cursor l.conf.rc_item u es)

    Moved-IsAt :
        (r : Position × LinkedList)
        → Moved (owners l.nodes) l' pos.curr (position w).curr r
        → IsAt w noted r.0 r.1
    Moved-IsAt r m =
        let same : l'.conf ≡ l.conf = ap (λ (x : LinkedList). x.conf) a.rest in
        let before : l'.events ≡ es = ap (λ (x : LinkedList). x.events) a.rest in
        let gone = leave-left l' u a.splits same in
        record {
          splits = e;
          stands = m.0 ∙ stand_at-cursor w e;
          counted = m.1;
          rest = cc (
            m.2,
            a.rest,
            before,
            a.stands,
            gone,
            enter-entered l' w (left l' (owners l.nodes) pos.curr) e same,
          );
        }

    held : IsHeld (owners l.nodes) pos
    held = subst (IsHeld (owners l.nodes)) (sym a.stands) (cursor-IsHeld u a.splits)

    pub update_pos-IsAt : Returns (λ r. IsAt w noted r.0 r.1) (update_pos l' pos (position w).curr)
    update_pos-IsAt =
        Returns-mono
          (update_pos-Moved (owners l.nodes) l' pos held a.counted (position w).curr
            (cursor-CanGo w e))
          Moved-IsAt

    pub move-IsAt :
        Returns (λ r. (r.0 ≡ cursor_item w) × IsAt w noted r.1 r.2) (move l' pos (position w).curr)
    move-IsAt =
        Returns-mono
          (move-Moved (owners l.nodes) l' pos held a.counted (position w).curr (cursor-CanGo w e))
          λ (item, pos', l'') m. (m.0 ∙ item-cursor w e, Moved-IsAt (pos', l'') m.1)
