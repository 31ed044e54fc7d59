-- ===== src/Node/Links.antt =====
-- Chains of nodes that are linked both ways, and what writes to their ends do.
use c_utils.Base.{
  ℕ, ◌≡◌, ◌≢◌, refl, sym, ap, ◌∙◌, Bool, true, false, ◌||◌, Option, some, List, [], ◌∷◌, ◌++◌,
  arith, ◌==◌, ==_true, ==_self, Bool-cases, inl, inr,
}
use mathlib.Core.Bool.{false≢true}
use c_utils.Node.{Ptr, null, Node, Store, modify, IsNode, modify_ne}

-- A node of a chain: where it is, what it holds, and the count in front of it.
pub record Cell : Type 0 where
  pub ptr : Ptr
  pub item : ℕ
  pub refs : ℕ

abbrev pub Cells : Type 0
Cells = List Cell

-- The node of a cell between two others.
abbrev pub live : Cell → Ptr → Ptr → Node
live c prev next = record {
  next = next;
  prev = prev;
  is_valid = true;
  item = c.item;
  refs = c.refs;
}

abbrev pub first_or : Ptr → Cells → Ptr
first_or d [] = d
first_or d (c ∷ cs) = c.ptr

abbrev pub last_or : Ptr → Cells → Ptr
last_or d [] = d
last_or d (c ∷ cs) = last_or c.ptr cs

abbrev pub has : Ptr → Cells → Bool
has a [] = false
has a (c ∷ cs) = (c.ptr == a) || has a cs

abbrev pub Distinct : Cells → Type 0
Distinct [] = Unit
Distinct (c ∷ cs) = (has c.ptr cs ≡ false) × Distinct cs

-- The cells lead from one to the next and back, between `prev` and `next`.
abbrev pub Links : Store → Ptr → Cells → Ptr → Type 0
Links s prev [] next = Unit
Links s prev (c ∷ cs) next = IsNode s c.ptr (live c prev (first_or next cs)) × Links s c.ptr cs next

pub has-append : (a : Ptr) (xs ys : Cells) → has a (xs ++ ys) ≡ (has a xs || has a ys)
has-append a [] ys = refl
has-append a (x ∷ xs) ys = ground (arith, has-append a xs ys)

pub first_or-append :
    (d : Ptr) (xs ys : Cells) → first_or d (xs ++ ys) ≡ first_or (first_or d ys) xs
first_or-append d [] ys = refl
first_or-append d (x ∷ xs) ys = refl

pub last_or-append : (d : Ptr) (xs ys : Cells) → last_or d (xs ++ ys) ≡ last_or (last_or d xs) ys
last_or-append d [] ys = refl
last_or-append d (x ∷ xs) ys = last_or-append x.ptr xs ys

-- The last cell of a chain is one of the chain.
pub last_or-ne : (a : Ptr) (e : Cell) (cs : Cells) → has a (e ∷ cs) ≡ false → last_or e.ptr cs ≢ a
last_or-ne a e [] out = ground arith
last_or-ne a e (c ∷ cs) out = last_or-ne a c cs (ground arith)

module _ (s : Store) where
  pub Links-append :
      (prev next : Ptr) (xs ys : Cells)
      → Links s prev xs (first_or next ys)
      → Links s (last_or prev xs) ys next
      → Links s prev (xs ++ ys) next
  Links-append prev next [] ys l r = r
  Links-append prev next (x ∷ xs) ys l r =
      (rw first_or-append l.0, Links-append x.ptr next xs ys l.1 r)

  pub Links-split :
      (prev next : Ptr) (xs ys : Cells)
      → Links s prev (xs ++ ys) next
      → Links s prev xs (first_or next ys) × Links s (last_or prev xs) ys next
  Links-split prev next [] ys l = (tt, l)
  Links-split prev next (x ∷ xs) ys l =
      let (front, back) = Links-split x.ptr next xs ys l.1 in
      ((rw first_or-append at l.0, front), back)

-- A chain survives any change that spares its nodes.
pub Links-frame :
    (s t : Store) (prev next : Ptr) (cs : Cells)
    → ((a : Ptr) → has a cs ≡ true → t a ≡ s a)
    → Links s prev cs next
    → Links t prev cs next
Links-frame s t prev next [] same l = tt
Links-frame s t prev next (c ∷ cs) same l = (
  record { ne_null = l.0.ne_null; holds = ground (arith, same c.ptr, l.0.holds) },
  Links-frame s t c.ptr next cs (λ a p. same a (ground arith)) l.1,
)

abbrev pub with_next : Ptr → Node → Option Node
with_next q n = some (record n { next = q })

abbrev pub with_prev : Ptr → Node → Option Node
with_prev q n = some (record n { prev = q })

-- A chain whose last node is led elsewhere.
pub Links-retarget :
    (s t : Store) (prev next next' : Ptr) (cs : Cells)
    → Distinct cs
    → ((a : Ptr) → has a cs ≡ true → t a ≡ modify s (last_or null cs) (with_next next') a)
    → Links s prev cs next
    → Links t prev cs next'
Links-retarget s t prev next next' [] d change l = tt
Links-retarget s t prev next next' (c ∷ []) d change l =
    (record { ne_null = l.0.ne_null; holds = ground (arith, change c.ptr, l.0.holds) }, tt)
Links-retarget s t prev next next' (c ∷ e ∷ cs) d change l = (
  record {
    ne_null = l.0.ne_null;
    holds =
        change c.ptr (rw ==_self refl)
        ∙ modify_ne s (last_or e.ptr cs) c.ptr (with_next next') (last_or-ne c.ptr e cs d.0)
        ∙ l.0.holds;
  },
  Links-retarget s t c.ptr next next' (e ∷ cs) d.1 (λ a p. change a (ground arith)) l.1,
)

-- A chain whose first node is led back elsewhere.
pub Links-reroot :
    (s t : Store) (prev prev' next : Ptr) (cs : Cells)
    → Distinct cs
    → ((a : Ptr) → has a cs ≡ true → t a ≡ modify s (first_or null cs) (with_prev prev') a)
    → Links s prev cs next
    → Links t prev' cs next
Links-reroot s t prev prev' next [] d change l = tt
Links-reroot s t prev prev' next (c ∷ cs) d change l = (
  record { ne_null = l.0.ne_null; holds = ground (arith, change c.ptr, l.0.holds) },
  Links-frame s t c.ptr next cs (λ a p. ground (arith, change a)) l.1,
)

pub Distinct-split : (xs ys : Cells) → Distinct (xs ++ ys) → Distinct xs × Distinct ys
Distinct-split [] ys d = (tt, d)
Distinct-split (x ∷ xs) ys d =
    let (dx, dy) = Distinct-split xs ys d.1 in ((ground (arith, has-append x.ptr xs ys), dx), dy)

pub has-ne : (a b : Ptr) (cs : Cells) → has a cs ≡ true → has b cs ≡ false → b ≢ a
has-ne a b cs p q e = false≢true (sym q ∙ ap (λ x. has x cs) e ∙ p)

pub last_or-snoc : (d : Ptr) (xs : Cells) (t : Cell) → last_or d (xs ++ t ∷ []) ≡ t.ptr
last_or-snoc d xs t = last_or-append d xs (t ∷ [])

-- The first cell does not depend on what stands behind the others.
pub first_or-front :
    (xs : Cells) (t : Cell) (zs : Cells)
    → first_or null ((xs ++ t ∷ []) ++ zs) ≡ first_or null (xs ++ t ∷ [])
first_or-front [] t zs = refl
first_or-front (x ∷ xs) t zs = refl

pub Distinct-disjoint :
    (a : Ptr) (xs ys : Cells) → Distinct (xs ++ ys) → has a xs ≡ true → has a ys ≡ false
Distinct-disjoint a [] ys d p = absurd (false≢true p)
Distinct-disjoint a (x ∷ xs) ys d p = elim (Bool-cases (x.ptr == a)) [
  | inl e ↦
      let q : has x.ptr ys ≡ false = ground (arith, has-append x.ptr xs ys, d.0) in
      rw (==_true x.ptr a e) at q
  | inr e ↦ Distinct-disjoint a xs ys d.1 (ground arith)
]
