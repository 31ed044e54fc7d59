-- ===== src/LinkedList/Hold.antt =====
-- data_structures/list.c: the references that an iterator's position holds, over a store in which
-- `refs` is the number of owners beside the iterator. A counter is one less than all the owners.
use c_utils.Base.{
  ℕ, ◌+◌, ◌-◌, ◌<◌, ◌≡◌, ap, subst, ◌∙◌, true, false, Option, none, some, ◌⊎◌, inl, inr, arith,
  ◌==◌, if◌then◌else◌, Returns, returns, Bool-cases,
}
use c_utils.Node.{Ptr, null, Node, Store, at_node, IsNode, change-ok, load-ok}
use c_utils.LinkedList.Iterate.{Position, given_up, taken, ref_dec_node, ref_inc_node}

-- A node with `k` owners more than it says; without any, it is gone.
abbrev pub counted : ℕ → Node → Option Node
counted k n = if n.refs + k == 0 then none else some (record n { refs = n.refs + k - 1 })

abbrev pub Counted : Store → (Ptr → ℕ) → Store → Type 0
Counted owned k s = (a : Ptr) → s a ≡ at_node (counted (k a)) (owned a)

-- What a pointer counts for at an address.
abbrev pub one : Ptr → Ptr → ℕ
one p a = if p == null then 0 else if p == a then 1 else 0

abbrev pub holds : Position → Ptr → ℕ
holds pos a = one pos.curr a + one pos.next a + one pos.prev a

-- The pointer is NULL, or leads to a node that has an owner beside the iterator.
abbrev pub IsOwned : Store → Ptr → Type 0
IsOwned owned p = (p ≡ null) ⊎ ((n : Node) × IsNode owned p n × (0 < n.refs))

pub record IsHeld (owned : Store) (pos : Position) : Type 0 where
  pub prev : IsOwned owned pos.prev
  pub curr : IsOwned owned pos.curr
  pub next : IsOwned owned pos.next

module _ (owned : Store) where
  pub Counted-ext :
      (k m : Ptr → ℕ) (s : Store) → ((a : Ptr) → k a ≡ m a) → Counted owned k s → Counted owned m s
  Counted-ext k m s e c a = c a ∙ ap (λ j. at_node (counted j) (owned a)) (e a)

  -- A node with an owner is there.
  pub counted-IsNode :
      (k : Ptr → ℕ) (s : Store) {p : Ptr} {n : Node}
      → Counted owned k s
      → IsNode owned p n
      → 0 < n.refs + k p
      → IsNode s p (record n { refs = n.refs + k p - 1 })
  counted-IsNode k s {p} {n} c node h = record {
    ne_null = node.ne_null;
    holds = c p ∙ ground (arith, node.holds);
  }

  pub ref_dec_node-Counted :
      (k : Ptr → ℕ) (s : Store) (p : Ptr)
      → IsOwned owned p
      → Counted owned (λ a. k a + one p a) s
      → Returns (Counted owned k) (ref_dec_node s p)
  unfolding ref_dec_node
  ref_dec_node-Counted k s p (inl z) c =
      let e : (p == null) ≡ true = ground arith in
      rw e (returns (λ a. c a ∙ ap (λ j. at_node (counted j) (owned a)) (ground arith)))
  ref_dec_node-Counted k s p (inr (n, node, live)) c =
      let e : (p == null) ≡ false = ground (arith, node.ne_null) in
      let size : n.refs + (k p + one p p) - 1 ≡ n.refs + k p = ground (arith, node.ne_null) in
      let here =
        subst (λ r. IsNode s p (record n { refs = r })) size
          (counted-IsNode (λ a. k a + one p a) s c node (ground arith)) in
      let more : ((n.refs + k p) == 0) ≡ false = ground (arith, live) in
      simp (e, load-ok here, more, change-ok here given_up)
        (returns λ a. elim (Bool-cases (p == a)) [
          | inl q ↦ ground (arith, c a, here.holds, node.holds)
          | inr q ↦ ground (arith, c a)
        ])

  pub ref_inc_node-Counted :
      (k : Ptr → ℕ) (s : Store) (p : Ptr)
      → IsOwned owned p
      → Counted owned k s
      → Returns (Counted owned (λ a. k a + one p a)) (ref_inc_node s p)
  unfolding ref_inc_node
  ref_inc_node-Counted k s p (inl z) c =
      let e : (p == null) ≡ true = ground arith in
      rw e (returns (λ a. c a ∙ ap (λ j. at_node (counted j) (owned a)) (ground arith)))
  ref_inc_node-Counted k s p (inr (n, node, live)) c =
      let e : (p == null) ≡ false = ground (arith, node.ne_null) in
      let here = counted-IsNode k s c node (omega arith) in
      simp (e, change-ok here taken)
        (returns λ a. elim (Bool-cases (p == a)) [
          | inl q ↦ ground (arith, c a, here.holds, node.holds)
          | inr q ↦ ground (arith, c a)
        ])
