-- ===== src/LinkedList/Index.antt =====
-- Access by index in data_structures/list.c.
use c_utils.Base.{
  false, ℕ, zero, suc, ◌+◌, ◌-◌, ◌/◌, ◌<◌, ◌≤◌, ◌≡◌, ◌≢◌, refl, subst, ap, ◌∙◌, Bool, true, [], ◌∷◌,
  ◌++◌, arith, ltb, leb, ◌==◌, length, length-append, ok, Returns, returns, Returns-bind,
  Returns-inv, Returns-if, ==_true,
}
use c_utils.Node.{Ptr, null, Store, IsNode, load-ok}
use c_utils.Node.Links.{
  Cell, Cells, live, first_or, last_or, last_or-snoc, last_or-append, Links, Links-split,
}
use c_utils.LinkedList.{LinkedList}
use c_utils.LinkedList.Invariant.{IsList}
use c_utils.LinkedList.Access.{back_loop, forward_loop, index_to_node, get}
use c_utils.LinkedList.Sorted.{snoc-view}
use c_utils.LinkedList.Cut.{Dropped}
use c_utils.LinkedList.Bridge.{remove_node-Dropped}
use c_utils.LinkedList.Retire.{held, Removal, Removal-bind}
use c_utils.LinkedList.Drop.{remove_at}

module _ (s : Store) (c : Cell) where
  forward_loop_lem :
      (k i index : ℕ) (prev next : Ptr) (b : Cell) (zs ys : Cells)
      → Links s prev (b ∷ zs ++ c ∷ ys) next
      → length zs < k
      → index ≡ i + length zs + 1
      → Returns (λ p. p ≡ c.ptr) (forward_loop k s b.ptr i index)
  unfolding forward_loop
  forward_loop_lem zero i index prev next b zs ys l fuel e = absurd (omega arith)
  forward_loop_lem (suc k) i index prev next b [] ys l fuel e = rw (load-ok l.0) (
      Returns-if (c.ptr == null) (λ z. absurd (l.1.0.ne_null (==_true c.ptr null z)))
        λ _. Returns-if (i + 1 == index) (λ _. returns refl) λ z. absurd (ground arith))
  forward_loop_lem (suc k) i index prev next b (z ∷ zs) ys l fuel e = rw (load-ok l.0) (
      Returns-if (z.ptr == null) (λ n. absurd (l.1.0.ne_null (==_true z.ptr null n)))
        λ _.
          Returns-if (i + 1 == index) (λ n. absurd (ground arith))
            λ _.
              forward_loop_lem k (i + 1) index b.ptr next z zs ys l.1 (omega arith)
                (omega (arith, e)))

  back_loop_lem :
      (k i index : ℕ) (prev next : Ptr) (b : Cell) (zs : Cells)
      → Links s prev ((c ∷ zs) ++ b ∷ []) next
      → length zs < k
      → i ≡ index + length zs + 1
      → c.ptr ≢ null
      → Returns (λ p. p ≡ c.ptr) (back_loop k s b.ptr i index)
  unfolding back_loop
  back_loop_lem zero i index prev next b zs l fuel e ne = absurd (omega arith)
  back_loop_lem (suc k) i index prev next b [] l fuel e ne = rw (load-ok l.1.0) (
      Returns-if (c.ptr == null) (λ z. absurd (ne (==_true c.ptr null z)))
        λ _. Returns-if (i - 1 == index) (λ _. returns refl) λ z. absurd (ground arith))
  back_loop_lem (suc k) i index prev next b (z ∷ zs) l fuel e ne =
      let (ws, t, snoc) = snoc-view z zs in
      let l' = subst (λ w. Links s prev ((c ∷ w) ++ b ∷ []) next) snoc l in
      let (front, back) = Links-split s prev next (c ∷ ws ++ t ∷ []) (b ∷ []) l' in
      let at_t = (Links-split s prev b.ptr (c ∷ ws) (t ∷ []) front).1.0 in
      let at_b = subst (λ p. IsNode s b.ptr (live b p next)) (last_or-snoc c.ptr ws t) back.0 in
      let size = ap length snoc ∙ length-append ws (t ∷ []) in
      rw (load-ok at_b) (
        Returns-if (t.ptr == null) (λ n. absurd (at_t.ne_null (==_true t.ptr null n)))
          λ _.
            Returns-if (i - 1 == index) (λ n. absurd (ground (arith, size)))
              λ _.
                back_loop_lem k (i - 1) index prev b.ptr t ws front (omega (arith, size))
                  (omega (arith, e, size)) ne)

module _ (l : LinkedList) (xs : Cells) (c : Cell) (ys : Cells) (v : IsList l (xs ++ c ∷ ys)) where
  at_cell : IsNode l.nodes c.ptr (live c (last_or null xs) (first_or null ys))
  at_cell = (Links-split l.nodes null null xs (c ∷ ys) v.links).1.0

  total : l.size ≡ length xs + length ys + 1
  total = omega (arith, v.size, length-append xs (c ∷ ys))

  from_tail :
      (zs : Cells)
      → ys ≡ zs
      → zs ≢ []
      → Returns (λ p. p ≡ c.ptr) (back_loop l.size l.nodes l.tail (l.size - 1) (length xs))
  from_tail [] e ne = absurd (ne refl)
  from_tail (z ∷ zs) e ne =
      let (ws, t, snoc) = snoc-view z zs in
      let back = (Links-split l.nodes null null xs (c ∷ ys) v.links).1 in
      let tail : l.tail ≡ t.ptr =
        v.tail
        ∙ last_or-append null xs (c ∷ ys)
        ∙ ap (last_or c.ptr) (e ∙ snoc)
        ∙ last_or-snoc c.ptr ws t in
      let size = ap length (e ∙ snoc) ∙ length-append ws (t ∷ []) in
      rw tail (
        back_loop_lem l.nodes c l.size (l.size - 1) (length xs) (last_or null xs) null t ws
          (subst (λ w. Links l.nodes (last_or null xs) (c ∷ w) null) (e ∙ snoc) back)
          (omega (arith, size, total)) (omega (arith, size, total)) at_cell.ne_null)

  from_head :
      (zs : Cells)
      → xs ≡ zs
      → zs ≢ []
      → Returns (λ p. p ≡ c.ptr) (forward_loop l.size l.nodes l.head 0 (length xs))
  from_head [] e ne = absurd (ne refl)
  from_head (z ∷ zs) e ne =
      let v' = subst (λ w. IsList l (w ++ c ∷ ys)) e v in
      rw v'.head (
        forward_loop_lem l.nodes c l.size 0 (length xs) null null z zs ys v'.links
          (omega (arith, total, ap length e)) (omega (arith, ap length e)))

  at_tail : length xs ≡ l.size - 1 → (zs : Cells) → ys ≡ zs → l.tail ≡ c.ptr
  at_tail e [] p = v.tail ∙ last_or-append null xs (c ∷ ys) ∙ ap (last_or c.ptr) p
  at_tail e (z ∷ zs) p = absurd (omega (arith, total, ap length p))

  at_head : length xs ≡ 0 → (zs : Cells) → xs ≡ zs → l.head ≡ c.ptr
  at_head e [] p = v.head ∙ ap (λ w. first_or null (w ++ c ∷ ys)) p
  at_head e (z ∷ zs) p = absurd (omega (arith, ap length p))

  -- From whichever end the walk starts, it stops at the cell with `index` cells in front of it.
  pub index_to_node_lem : Returns (λ p. p ≡ c.ptr) (index_to_node l (length xs))
  unfolding index_to_node
  index_to_node_lem =
      Returns-if (leb l.size (length xs)) (λ z. absurd (ground (arith, total)))
        λ _.
          Returns-if (length xs == l.size - 1) (λ z. returns (at_tail (==_true _ _ z) ys refl))
            λ m.
              Returns-if (length xs == 0) (λ z. returns (at_head (==_true _ _ z) xs refl))
                λ n.
                  Returns-if (ltb (l.size / 2) (length xs))
                    (λ _. from_tail ys refl (λ e. ground (arith, total, ap length e)))
                    λ _. from_head xs refl (λ e. ground (arith, ap length e))

  -- c_utils_list_get with the number of the cells in front of a cell of a well-formed list
  -- returns its item.
  pub get_lem : Returns (λ item. item ≡ c.item) (get l (length xs))
  unfolding get
  get_lem = Returns-bind index_to_node_lem λ p e. rw (e) (
      Returns-if (c.ptr == null) (λ z. absurd (at_cell.ne_null (==_true c.ptr null z)))
        λ _. rw (load-ok at_cell) (returns refl))

  -- c_utils_list_remove_at and c_utils_list_delete_at with the number of the cells in front of
  -- a cell of a well-formed list: where an iterator holds the node of that cell, they take out
  -- that cell, and return its item; where none does, the run is undefined.
  pub remove_at_lem :
      (del : Bool)
      → Removal
          (held c)
          (λ (item, l'). (item ≡ c.item) × Dropped l xs c ys del l')
          (remove_at l (length xs) del)
  unfolding remove_at
  remove_at_lem del =
      let (p, e, at) = Returns-inv index_to_node_lem in
      let ne : (c.ptr == null) ≡ false = ground (arith, at_cell.ne_null) in
      rw (e, at, ne, load-ok at_cell)
        (Removal-bind (remove_node-Dropped l c del xs ys v) λ l' d. returns (refl, d))

-- For an index that is not below the size of a list, c_utils_list_get gives NULL, and
-- c_utils_list_remove_at and c_utils_list_delete_at give NULL and leave the list as it is.
pub remove_at_outside :
    (l : LinkedList) (index : ℕ) (del : Bool)
    → l.size ≤ index
    → (get l index ≡ ok null) × (remove_at l index del ≡ ok (null, l))
unfolding get remove_at index_to_node
remove_at_outside l index del out =
    let past : leb l.size index ≡ true = ground arith in (rw (past) refl, rw (past) refl)
