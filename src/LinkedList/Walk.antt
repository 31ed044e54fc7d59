-- ===== src/LinkedList/Walk.antt =====
-- data_structures/list.h: the loops C_UTILS_LIST_FOR_EACH and C_UTILS_LIST_FOR_EACH_REV.
use c_utils.Base.{
  Bool, true, ◌&&◌, ℕ, zero, suc, ◌+◌, ◌<◌, ◌≡◌, ◌≢◌, refl, sym, ap, ◌∙◌, false, List, [], ◌∷◌,
  arith, ◌==◌, if◌then◌else◌, ok, out_of_fuel, Returns, returns, Returns-bind, Run, ◌>>=◌, All,
  length,
}
use c_utils.Node.{null}
use c_utils.Node.Links.{Cell, Cells}
use c_utils.LinkedList.{LinkedList, ItemEvent}
use c_utils.LinkedList.Invariant.{IsList}
use c_utils.LinkedList.Iterate.{Position, nowhere, finalize}
use c_utils.LinkedList.Travel.{Cursor, off, on, rebuild, last_from, IsAt}
use c_utils.LinkedList.Session.{
  Move, cursor_move, to_next, to_prev, do_move, do_move-IsAt, finalize_lem, new-IsAt,
  last_from-Splits,
}

-- The items that the body of the loop gets. The iterator is finalized behind the loop.
unfoldable pub for_each_loop : Move → ℕ → LinkedList → Position → Run (List ℕ × LinkedList)
for_each_loop m zero l pos = out_of_fuel
for_each_loop m (suc k) l pos = do
  (item, pos', l') ← do_move m l pos
  if item == null
      then (do l'' ← finalize l' pos'; ok ([], l''))
      else (do (rest, l'') ← for_each_loop m k l' pos'; ok (item ∷ rest, l''))

-- The flags say whether the two allocations of c_utils_list_iterator succeed. Without an iterator the
-- condition of the loop is NULL at once. The reference to the list, where it is counted, is taken and
-- given up again, while the caller has one.
unfoldable pub list_for_each : Bool → Bool → LinkedList → Run (List ℕ × LinkedList)
unfolding for_each_loop
list_for_each it_ok pos_ok l =
    if it_ok && pos_ok then for_each_loop to_next (l.size + 1) l nowhere else ok ([], l)

unfoldable pub list_for_each_rev : Bool → Bool → LinkedList → Run (List ℕ × LinkedList)
unfolding for_each_loop
list_for_each_rev it_ok pos_ok l =
    if it_ok && pos_ok then for_each_loop to_prev (l.size + 1) l nowhere else ok ([], l)

abbrev pub items : Cells → List ℕ
items [] = []
items (c ∷ cs) = c.item ∷ items cs

abbrev pub NotNull : Cells → Type 0
NotNull = All (λ (c : Cell). c.item ≢ null)

-- What the loop gets, and that the list is as before but for what is noted.
abbrev pub Walked : LinkedList → List ℕ → (List ℕ × LinkedList) → Type 0
Walked l xs r = (r.0 ≡ xs) × (r.1 ≡ record l { events = r.1.events })

rebuild_twice : (rs cs : Cells) → rebuild (rebuild rs cs) [] ≡ rebuild cs rs
rebuild_twice [] cs = refl
rebuild_twice (r ∷ rs) cs = rebuild_twice rs (r ∷ cs)

rebuild-NotNull : (rs cs : Cells) → NotNull rs → NotNull cs → NotNull (rebuild rs cs)
rebuild-NotNull [] cs a b = b
rebuild-NotNull (r ∷ rs) cs a b = rebuild-NotNull rs (r ∷ cs) a.1 (a.0, b)

length-rebuild : (rs cs : Cells) → length (rebuild rs cs) ≡ length rs + length cs
length-rebuild [] cs = omega arith
length-rebuild (r ∷ rs) cs = omega (arith, length-rebuild rs (r ∷ cs))

module _ (l : LinkedList) (cells : Cells) (v : IsList l cells) where
  abbrev From : Move → ℕ → Cursor → Cells → Type 0
  From m k u cs =
      (es : List ItemEvent) (pos : Position) (l' : LinkedList)
      → IsAt l cells v u es pos l'
      → Returns (Walked l (items cs)) (for_each_loop m k l' pos)

  -- The last round, and a round before it.
  end-From : (m : Move) (k : ℕ) (u : Cursor) → cursor_move m cells u ≡ off → From m (suc k) u []
  unfolding for_each_loop
  end-From m k u e es pos l' a =
      Returns-bind (rw e at (do_move-IsAt l cells v m u es pos l' a)) λ (item, pos', l'') r.
        rw (r.0, finalize_lem l cells v off _ pos' l'' r.1) (returns (refl, refl))

  round-From :
      (m : Move) (k : ℕ) (u : Cursor) (rs : Cells) (c : Cell) (bs cs : Cells)
      → cursor_move m cells u ≡ on rs c bs
      → c.item ≢ null
      → From m k (on rs c bs) cs
      → From m (suc k) u (c ∷ cs)
  unfolding for_each_loop
  round-From m k u rs c bs cs e ne next es pos l' a =
      let given : (c.item == null) ≡ false = ground arith in
      Returns-bind (rw e at (do_move-IsAt l cells v m u es pos l' a)) λ (item, pos', l'') r.
        simp (r.0, given)
          (Returns-bind (next _ pos' l'' r.1) λ (rest, l3) q. returns (ap (◌∷◌ c.item) q.0, q.1))

  forward-From :
      (k : ℕ) (rs : Cells) (c : Cell) (cs : Cells)
      → NotNull cs
      → length cs < k
      → From to_next k (on rs c cs) cs
  forward-From zero rs c cs ne h = absurd (omega arith)
  forward-From (suc k) rs c [] ne h = end-From to_next k (on rs c []) refl
  forward-From (suc k) rs c (d ∷ cs) ne h =
      round-From to_next k (on rs c (d ∷ cs)) (c ∷ rs) d cs cs refl ne.0
        (forward-From k (c ∷ rs) d cs ne.1 (omega arith))

  back-From :
      (k : ℕ) (rs : Cells) (c : Cell) (cs : Cells)
      → NotNull rs
      → length rs < k
      → From to_prev k (on rs c cs) rs
  back-From zero rs c cs ne h = absurd (omega arith)
  back-From (suc k) [] c cs ne h = end-From to_prev k (on [] c cs) refl
  back-From (suc k) (r ∷ rs) c cs ne h =
      round-From to_prev k (on (r ∷ rs) c cs) rs r (c ∷ cs) rs refl ne.0
        (back-From k rs r (c ∷ cs) ne.1 (omega arith))

-- The last cell, and those before it in reverse.
last_from-on :
    (rs : Cells) (c : Cell) (cs : Cells)
    → (ds : Cells) × (d : Cell) × (last_from rs c cs ≡ on ds d [])
last_from-on rs c [] = (rs, c, refl)
last_from-on rs c (d ∷ cs) = last_from-on (c ∷ rs) d cs

module _ (l : LinkedList) where
  list_for_each-Walked :
      (cells : Cells)
      → IsList l cells
      → NotNull cells
      → Returns (Walked l (items cells)) (list_for_each true true l)
  unfolding list_for_each
  list_for_each-Walked [] v ne =
      let e : l.size + 1 ≡ suc 0 = omega (arith, v.size) in
      simp e (end-From l [] v to_next 0 off refl l.events nowhere l (new-IsAt l [] v))
  list_for_each-Walked (c ∷ cs) v ne =
      let e : l.size + 1 ≡ suc (length cs + 1) = omega (arith, v.size) in
      simp e (
        round-From l (c ∷ cs) v to_next (length cs + 1) off [] c cs cs refl ne.0
          (forward-From l (c ∷ cs) v (length cs + 1) [] c cs ne.1 (omega arith)) l.events nowhere l
          (new-IsAt l (c ∷ cs) v))

  list_for_each_rev-Walked :
      (cells : Cells)
      → IsList l cells
      → NotNull cells
      → Returns (Walked l (items (rebuild cells []))) (list_for_each_rev true true l)
  unfolding list_for_each_rev
  list_for_each_rev-Walked [] v ne =
      let e : l.size + 1 ≡ suc 0 = omega (arith, v.size) in
      simp e (end-From l [] v to_prev 0 off refl l.events nowhere l (new-IsAt l [] v))
  list_for_each_rev-Walked (c ∷ cs) v ne =
      let (ds, d, e) = last_from-on [] c cs in
      let back : rebuild ds (d ∷ []) ≡ c ∷ cs = rw e at (last_from-Splits [] c cs (c ∷ cs) refl) in
      let all : rebuild (c ∷ cs) [] ≡ d ∷ ds =
        ap (λ xs. rebuild xs []) (sym back) ∙ rebuild_twice ds (d ∷ []) in
      let given : NotNull (d ∷ ds) = rw all at (rebuild-NotNull (c ∷ cs) [] ne tt) in
      let size : length ds ≡ length cs =
        omega (arith, ap length back, length-rebuild ds (d ∷ [])) in
      let fuel : l.size + 1 ≡ suc (length cs + 1) = omega (arith, v.size) in
      simp (fuel, all)
        (round-From l (c ∷ cs) v to_prev (length cs + 1) off ds d [] ds e given.0
          (back-From l (c ∷ cs) v (length cs + 1) ds d [] given.1 (omega arith)) l.events nowhere l
          (new-IsAt l (c ∷ cs) v))

  -- On a well-formed list without NULL items that nobody changes, where there is memory for the
  -- iterator and its position, C_UTILS_LIST_FOR_EACH gives its body the items in order, and
  -- C_UTILS_LIST_FOR_EACH_REV in reverse; where there is none, neither makes a round. Both end,
  -- and leave the list as it was but for what is noted of the items.
  pub list_for_each-both :
      (it_ok pos_ok : Bool) (cells : Cells)
      → IsList l cells
      → NotNull cells
      → Returns
          (Walked l (if it_ok && pos_ok then items cells else []))
          (list_for_each it_ok pos_ok l)
        × Returns
            (Walked l (if it_ok && pos_ok then items (rebuild cells []) else []))
            (list_for_each_rev it_ok pos_ok l)
  unfolding list_for_each list_for_each_rev
  list_for_each-both true true cells v ne =
      (list_for_each-Walked cells v ne, list_for_each_rev-Walked cells v ne)
  list_for_each-both true false cells v ne = (returns (refl, refl), returns (refl, refl))
  list_for_each-both false pos_ok cells v ne = (returns (refl, refl), returns (refl, refl))
