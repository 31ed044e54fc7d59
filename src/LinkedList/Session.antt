-- ===== src/LinkedList/Session.antt =====
-- Sequences of moves of an iterator of data_structures/list.c, against a cursor.
use c_utils.Base.{
  ℕ, ◌<◌, ◌≡◌, refl, ap, ◌∙◌, Bool, false, List, [], ◌∷◌, arith, ◌==◌, ok, Returns, Returns-inv,
  Run, ◌>>=◌, length, subst,
}
use c_utils.Node.{null, load-ok}
use c_utils.Node.Links.{Cell, Cells, first_or, last_or}
use c_utils.LinkedList.{LinkedList, ItemEvent}
use c_utils.LinkedList.Invariant.{IsList}
use c_utils.LinkedList.Iterate.{Position, nowhere, head, tail, next, prev, move, finalize}
use c_utils.LinkedList.Hold.{Counted, counted-IsNode, holds}
use c_utils.LinkedList.Travel.{
  Cursor, off, on, rebuild, Splits, first_cursor, last_from, last_cursor, next_cursor, prev_cursor,
  cursor_item, position, enter_cursor, leave_cursor, owners, IsAt, move-IsAt, update_pos-IsAt,
  Counted-owners, owners-Counted, cursor-IsMet,
}

pub data Move : Type 0 where
  to_head to_tail to_next to_prev : Move

unfoldable pub do_move : Move → LinkedList → Position → Run (ℕ × Position × LinkedList)
unfolding head tail next prev
do_move to_head l pos = head l pos
do_move to_tail l pos = tail l pos
do_move to_next l pos = next l pos
do_move to_prev l pos = prev l pos

-- The moves of a new iterator, and what they return; in the end it is finalized.
unfoldable pub run_moves : List Move → LinkedList → Position → Run (List ℕ × LinkedList)
unfolding do_move finalize
run_moves [] l pos = do l' ← finalize l pos; ok ([], l')
run_moves (m ∷ ms) l pos = do
  (item, pos', l') ← do_move m l pos
  (rest, l'') ← run_moves ms l' pos'
  ok (item ∷ rest, l'')

abbrev pub cursor_move : Move → Cells → Cursor → Cursor
cursor_move to_head cells u = first_cursor cells
cursor_move to_tail cells u = last_cursor cells
cursor_move to_next cells u = next_cursor cells u
cursor_move to_prev cells u = prev_cursor cells u

-- The items that a cursor comes to.
abbrev pub cursor_items : List Move → Cells → Cursor → List ℕ
cursor_items [] cells u = []
cursor_items (m ∷ ms) cells u =
    let w = cursor_move m cells u in cursor_item w ∷ cursor_items ms cells w

-- What is noted on its way.
abbrev pub cursor_events : Bool → List Move → Cells → Cursor → List ItemEvent → List ItemEvent
cursor_events rc [] cells u es = leave_cursor rc u es
cursor_events rc (m ∷ ms) cells u es =
    let w = cursor_move m cells u in
    cursor_events rc ms cells w (enter_cursor rc w (leave_cursor rc u es))

length-rebuild : (rs : Cells) (c : Cell) (cs : Cells) → 0 < length (rebuild rs (c ∷ cs))
length-rebuild [] c cs = omega arith
length-rebuild (r ∷ rs) c cs = length-rebuild rs r (c ∷ cs)

pub last_from-Splits :
    (rs : Cells) (c : Cell) (cs cells : Cells)
    → rebuild rs (c ∷ cs) ≡ cells
    → Splits cells (last_from rs c cs)
last_from-Splits rs c [] cells e = e
last_from-Splits rs c (d ∷ cs) cells e = last_from-Splits (c ∷ rs) d cs cells e

cursor_move-Splits :
    (m : Move) (cells : Cells) (u : Cursor) → Splits cells u → Splits cells (cursor_move m cells u)
cursor_move-Splits to_head [] u e = tt
cursor_move-Splits to_head (c ∷ cs) u e = refl
cursor_move-Splits to_tail [] u e = tt
cursor_move-Splits to_tail (c ∷ cs) u e = last_from-Splits [] c cs (c ∷ cs) refl
cursor_move-Splits to_next [] off e = tt
cursor_move-Splits to_next (c ∷ cs) off e = refl
cursor_move-Splits to_next cells (on rs c []) e = tt
cursor_move-Splits to_next cells (on rs c (d ∷ cs)) e = e
cursor_move-Splits to_prev [] off e = tt
cursor_move-Splits to_prev (c ∷ cs) off e = last_from-Splits [] c cs (c ∷ cs) refl
cursor_move-Splits to_prev cells (on [] c cs) e = tt
cursor_move-Splits to_prev cells (on (r ∷ rs) c cs) e = e

first_cursor-first : (cells : Cells) → (position (first_cursor cells)).curr ≡ first_or null cells
first_cursor-first [] = refl
first_cursor-first (c ∷ cs) = refl

last_from-last :
    (rs : Cells) (c : Cell) (cs : Cells) → (position (last_from rs c cs)).curr ≡ last_or c.ptr cs
last_from-last rs c [] = refl
last_from-last rs c (d ∷ cs) = last_from-last (c ∷ rs) d cs

last_cursor-last : (cells : Cells) → (position (last_cursor cells)).curr ≡ last_or null cells
last_cursor-last [] = refl
last_cursor-last (c ∷ cs) = last_from-last [] c cs

next-first :
    (rs : Cells) (c : Cell) (cs cells : Cells)
    → (position (next_cursor cells (on rs c cs))).curr ≡ first_or null cs
next-first rs c [] cells = refl
next-first rs c (d ∷ cs) cells = refl

prev-first :
    (rs : Cells) (c : Cell) (cs cells : Cells)
    → (position (prev_cursor cells (on rs c cs))).curr ≡ first_or null rs
prev-first [] c cs cells = refl
prev-first (r ∷ rs) c cs cells = refl

module _ (l : LinkedList) (cells : Cells) (v : IsList l cells) (l' : LinkedList) (pos : Position)
    (es : List ItemEvent) where
  same-head : (u : Cursor) → IsAt l cells v u es pos l' → l'.head ≡ first_or null cells
  same-head u a = ap (λ (x : LinkedList). x.head) a.rest ∙ v.head

  same-tail : (u : Cursor) → IsAt l cells v u es pos l' → l'.tail ≡ last_or null cells
  same-tail u a = ap (λ (x : LinkedList). x.tail) a.rest ∙ v.tail

  same-size : (u : Cursor) → IsAt l cells v u es pos l' → l'.size ≡ length cells
  same-size u a = ap (λ (x : LinkedList). x.size) a.rest ∙ v.size

  -- From a cell the iterator goes on by the links of its node.
  on-next :
      (rs : Cells) (c : Cell) (cs : Cells)
      → IsAt l cells v (on rs c cs) es pos l'
      → next l' pos ≡ move l' pos (first_or null cs)
  unfolding next
  on-next rs c cs a =
      let m = cursor-IsMet l cells v rs c cs a.splits in
      let some_size : (l'.size == 0) ≡ false =
        ground (arith, same-size (on rs c cs) a, length-rebuild rs c cs, a.splits) in
      let at : pos.curr ≡ c.ptr = ap (λ (x : Position). x.curr) a.stands in
      let there : (c.ptr == null) ≡ false = ground (arith, m.node.ne_null) in
      simp
        (
          some_size,
          at,
          there,
          load-ok
              (counted-IsNode (owners l.nodes) (holds pos) l'.nodes a.counted m.node (omega arith)),
        )
        refl

  on-prev :
      (rs : Cells) (c : Cell) (cs : Cells)
      → IsAt l cells v (on rs c cs) es pos l'
      → prev l' pos ≡ move l' pos (first_or null rs)
  unfolding prev
  on-prev rs c cs a =
      let m = cursor-IsMet l cells v rs c cs a.splits in
      let some_size : (l'.size == 0) ≡ false =
        ground (arith, same-size (on rs c cs) a, length-rebuild rs c cs, a.splits) in
      let at : pos.curr ≡ c.ptr = ap (λ (x : Position). x.curr) a.stands in
      let there : (c.ptr == null) ≡ false = ground (arith, m.node.ne_null) in
      simp
        (
          some_size,
          at,
          there,
          load-ok
              (counted-IsNode (owners l.nodes) (holds pos) l'.nodes a.counted m.node (omega arith)),
        )
        refl

  off-next : IsAt l cells v off es pos l' → next l' pos ≡ move l' pos (first_or null cells)
  unfolding next
  off-next a =
      let at : pos.curr ≡ null = ap (λ (x : Position). x.curr) a.stands in
      go cells (same-size off a) (same-head off a) at
    where
      go :
          (ds : Cells)
          → l'.size ≡ length ds
          → l'.head ≡ first_or null ds
          → pos.curr ≡ null
          → next l' pos ≡ move l' pos (first_or null ds)
      go [] s h at = simp (s) refl
      go (d ∷ ds) s h at =
          let some_size : (l'.size == 0) ≡ false = ground (arith, s) in simp (some_size, at, h) refl

  off-prev : IsAt l cells v off es pos l' → prev l' pos ≡ move l' pos (last_or null cells)
  unfolding prev
  off-prev a =
      let at : pos.curr ≡ null = ap (λ (x : Position). x.curr) a.stands in
      go cells (same-size off a) (same-tail off a) at
    where
      go :
          (ds : Cells)
          → l'.size ≡ length ds
          → l'.tail ≡ last_or null ds
          → pos.curr ≡ null
          → prev l' pos ≡ move l' pos (last_or null ds)
      go [] s h at = simp (s) refl
      go (d ∷ ds) s h at =
          let some_size : (l'.size == 0) ≡ false = ground (arith, s) in simp (some_size, at, h) refl

  -- Each move goes where the cursor goes.
  do_move-move :
      (m : Move) (u : Cursor)
      → IsAt l cells v u es pos l'
      → do_move m l' pos ≡ move l' pos (position (cursor_move m cells u)).curr
  unfolding do_move head tail
  do_move-move to_head u a = rw (same-head u a, first_cursor-first) refl
  do_move-move to_tail u a = rw (same-tail u a, last_cursor-last) refl
  do_move-move to_next off a = rw first_cursor-first (off-next a)
  do_move-move to_next (on rs c cs) a = rw next-first (on-next rs c cs a)
  do_move-move to_prev off a = rw last_cursor-last (off-prev a)
  do_move-move to_prev (on rs c cs) a = rw prev-first (on-prev rs c cs a)

module _ (l : LinkedList) (cells : Cells) (v : IsList l cells) where
  pub do_move-IsAt :
      (m : Move) (u : Cursor) (es : List ItemEvent) (pos : Position) (l' : LinkedList)
      → IsAt l cells v u es pos l'
      → let w = cursor_move m cells u in
        Returns
          (λ r.
            (r.0 ≡ cursor_item w)
            × IsAt l cells v w
                (enter_cursor l.conf.rc_item w (leave_cursor l.conf.rc_item u es))
                r.1
                r.2)
          (do_move m l' pos)
  do_move-IsAt m u es pos l' a = rw (do_move-move l cells v l' pos es m u a) (
      move-IsAt l cells v u (cursor_move m cells u) es pos l' a
        (cursor_move-Splits m cells u a.splits))

  -- An iterator that is finalized leaves every counter as it was.
  pub finalize_lem :
      (u : Cursor) (es : List ItemEvent) (pos : Position) (l' : LinkedList)
      → IsAt l cells v u es pos l'
      → finalize l' pos ≡ ok (record l { events = leave_cursor l.conf.rc_item u es })
  unfolding finalize
  finalize_lem u es pos l' a =
      let (r, e, at) = Returns-inv (update_pos-IsAt l cells v u off es pos l' a tt) in
      let none_held : Counted (owners l.nodes) (λ k. 0) r.1.nodes =
        subst (λ p. Counted (owners l.nodes) (holds p) r.1.nodes) at.stands at.counted in
      let back : r.1.nodes ≡ l.nodes = Counted-owners l.nodes r.1.nodes none_held in
      rw e (
        ap ok (
          at.rest
          ∙ ap (λ s. record l { nodes = s; events = leave_cursor l.conf.rc_item u es }) back))

  run_moves-cursor :
      (ms : List Move) (u : Cursor) (es : List ItemEvent) (pos : Position) (l' : LinkedList)
      → IsAt l cells v u es pos l'
      → run_moves ms l' pos
        ≡ ok (
          cursor_items ms cells u,
          record l { events = cursor_events l.conf.rc_item ms cells u es },
        )
  unfolding run_moves
  run_moves-cursor [] u es pos l' a = rw (finalize_lem u es pos l' a) refl
  run_moves-cursor (m ∷ ms) u es pos l' a =
      let (r, e, at) = Returns-inv (do_move-IsAt m u es pos l' a) in
      rw (e, run_moves-cursor ms (cursor_move m cells u) _ r.1 r.2 at.1, at.0) refl

  pub new-IsAt : IsAt l cells v off l.events nowhere l
  new-IsAt = record { splits = tt; stands = refl; counted = owners-Counted l.nodes; rest = refl }

  -- Any sequence of head, tail, next and prev with a new iterator on a well-formed list, and
  -- then finalize, returns the items that a cursor on the cells comes to, and leaves the list
  -- as it was, each counter of a node included; where items are counted, the references that
  -- the iterator took and gave up are those of the cursor.
  pub run_moves_lem :
      (ms : List Move)
      → run_moves ms l nowhere
        ≡ ok (
          cursor_items ms cells off,
          record l { events = cursor_events l.conf.rc_item ms cells off l.events },
        )
  run_moves_lem ms = run_moves-cursor ms off l.events nowhere l new-IsAt
