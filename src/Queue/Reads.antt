-- ===== src/Queue/Reads.antt =====
-- What a thread learns by its reads, on a queue of data_structures/queue.c.
use c_utils.Base.{
  ℕ, suc, ◌≡◌, ◌≢◌, ◌≤◌, ◌<◌, sym, ap, ◌∙◌, subst, none, some, get_elem?, arith, ◌==◌, ==_true,
  if◌then◌else◌, inl, inr, Option-cases, Bool-cases,
}
use c_utils.Node.{Ptr, null, Node}
use c_utils.Queue.{Queue}
use c_utils.Queue.Invariant.{Entry, Place, Next, UpTo, Invariant, ptr_or_null, entry_node}

some-injective {ℓ} : {A : Type ℓ} {a b : A} → some a ≡ some b → a ≡ b
some-injective h = cc

module _ (q : Queue) (v : Invariant q) where
  -- The node at a place.
  pub place-node :
      (i : ℕ) (p : Ptr) (m : Node)
      → (r : Place v.all i p) → q.nodes p ≡ some m
      → m ≡ entry_node r.entry (ptr_or_null (get_elem? v.all (suc i)))
  place-node i p m r e =
      some-injective (sym e ∙ ap q.nodes (sym r.ptr) ∙ (v.nodes i r.entry r.is).holds)

  -- The link of a node that is not NULL leads to the node behind it.
  pub next-Next :
      (i : ℕ) (p : Ptr) (m : Node)
      → Place v.all i p
      → q.nodes p ≡ some m
      → m.next ≢ null
      → Next v.all p m.next
  next-Next i p m r e ne =
      let link : m.next ≡ ptr_or_null (get_elem? v.all (suc i)) =
        ap (λ (n : Node). n.next) (place-node i p m r e) in
      elim (Option-cases (get_elem? v.all (suc i))) [
        | inl z ↦ absurd (ne (link ∙ ap ptr_or_null z))
        | inr (f, is) ↦ record {
          at = i;
          first = r;
          second = record { entry = f; is = is; ptr = sym (link ∙ ap ptr_or_null is) };
        }
      ]

  -- A link that is NULL is that of the last node.
  pub next-last :
      (i : ℕ) (p : Ptr) (m : Node)
      → Place v.all i p
      → q.nodes p ≡ some m
      → m.next ≡ null
      → get_elem? v.all (suc i) ≡ none
  next-last i p m r e z =
      let link : m.next ≡ ptr_or_null (get_elem? v.all (suc i)) =
        ap (λ (n : Node). n.next) (place-node i p m r e) in
      elim (Option-cases (get_elem? v.all (suc i))) [
        | inl none_behind ↦ none_behind
        | inr (f, is) ↦
            absurd ((v.nodes (suc i) f is).ne_null (sym (ap ptr_or_null is) ∙ sym link ∙ z))
      ]

  pub tail-UpTo : UpTo v.all v.tail_at q.tail
  tail-UpTo = record { at = v.tail_at; place = v.tail; bound = omega arith }

  pub head-UpTo : UpTo v.all v.tail_at q.head
  head-UpTo = record { at = v.head_at; place = v.head; bound = v.order }

  at-tail : (i : ℕ) (h : Ptr) → Place v.all i h → i ≡ v.tail_at → h ≡ q.tail
  at-tail i h p e =
      sym p.ptr
      ∙ ap (λ (f : Entry). f.ptr) (some-injective (sym p.is ∙ ap (get_elem? v.all) e ∙ v.tail.is))
      ∙ v.tail.ptr

  -- Another tail than the node at hand is behind it.
  pub behind :
      (h : Ptr) → UpTo v.all v.tail_at h → h ≢ q.tail → (i : ℕ) × Place v.all i h × (i < v.tail_at)
  behind h u ne = elim (Bool-cases (u.at == v.tail_at)) [
    | inl e ↦ absurd (ne (at-tail u.at h u.place (==_true u.at v.tail_at e)))
    | inr e ↦ (u.at, u.place, ground (arith, u.bound))
  ]

  -- Where the tail goes when it is swung to the node behind.
  pub swung :
      (t x : Ptr)
      → Next v.all t x
      → (k : ℕ) × Place v.all k (if q.tail == t then x else q.tail) × (v.tail_at ≤ k)
  swung t x n = elim (Bool-cases (q.tail == t)) [
    | inl e ↦
        let same : n.at ≡ v.tail_at =
          v.unique n.at v.tail_at t n.first
            (subst (Place v.all v.tail_at) (==_true q.tail t e) v.tail) in
        (suc n.at, rw e n.second, omega (arith, same))
    | inr e ↦ (v.tail_at, rw e v.tail, omega arith)
  ]
