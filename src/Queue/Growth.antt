-- ===== src/Queue/Growth.antt =====
-- The steps on a queue of data_structures/queue.c that change its nodes or its head.
use c_utils.Base.{
  some-injective, ℕ, zero, suc, ◌≡◌, ◌≢◌, ◌≤◌, ◌<◌, refl, sym, ap, ap₂, ◌∙◌, subst, none, some,
  List, [], ◌∷◌, ◌++◌, get_elem?, length, take, drop, arith, ◌==◌, ==_true, ==_self, inl, inr, ◌⊎◌,
  Bool-cases,
}
use c_utils.Node.{Ptr, null, Node, Store, write, IsNode, modify_other, modify_self}
use c_utils.Queue.{
  Queue, At, go, link, outside, enq_start, enq_decided, enq_swing, deq_item, new_node,
}
use c_utils.Queue.Invariant.{
  Entry, Is, Place, UpTo, Ready, IsLoose, Invariant, ptr_or_null, entry_node, items,
}
use c_utils.Queue.Frame.{Allowed, knows', loose', apart'}
use c_utils.Queue.Reads.{next-last}

-- Lists that an entry is added to.
module _ (f : Entry) where
  Is-snoc : (all : List Entry) (i : ℕ) (e : Entry) → Is all i e → Is (all ++ f ∷ []) i e
  Is-snoc [] i e is = absurd (ground arith)
  Is-snoc (x ∷ all) zero e is = is
  Is-snoc (x ∷ all) (suc i) e is = Is-snoc all i e is

  Is-snoc_last : (all : List Entry) → Is (all ++ f ∷ []) (length all) f
  Is-snoc_last [] = refl
  Is-snoc_last (x ∷ all) = Is-snoc_last all

  snoc-Is :
      (all : List Entry) (i : ℕ) (e : Entry)
      → Is (all ++ f ∷ []) i e
      → Is all i e ⊎ ((i ≡ length all) × (e ≡ f))
  snoc-Is [] zero e is = inr (refl, sym (some-injective is))
  snoc-Is [] (suc i) e is = absurd (ground arith)
  snoc-Is (x ∷ all) zero e is = inl is
  snoc-Is (x ∷ all) (suc i) e is = elim (snoc-Is all i e is) [
    | inl old ↦ inl old
    | inr (h, g) ↦ inr (ap suc h, g)
  ]

  get_elem?-past : (all : List Entry) → get_elem? (all ++ f ∷ []) (suc (length all)) ≡ none
  get_elem?-past [] = refl
  get_elem?-past (x ∷ all) = get_elem?-past all

  get_elem?-snoc :
      (all : List Entry) (i : ℕ) → i < length all → get_elem? (all ++ f ∷ []) i ≡ get_elem? all i
  get_elem?-snoc [] i h = absurd (omega arith)
  get_elem?-snoc (x ∷ all) zero h = refl
  get_elem?-snoc (x ∷ all) (suc i) h = get_elem?-snoc all i (omega arith)

  items-snoc : (all : List Entry) → items (all ++ f ∷ []) ≡ items all ++ f.item ∷ []
  items-snoc [] = refl
  items-snoc (x ∷ all) = ap (◌∷◌ x.item) (items-snoc all)

  items-drop-snoc :
      (all : List Entry)
      → 0 < length all
      → items (drop 1 (all ++ f ∷ [])) ≡ items (drop 1 all) ++ f.item ∷ []
  items-drop-snoc [] h = absurd (omega arith)
  items-drop-snoc (x ∷ all) h = items-snoc all

  take-snoc : (k : ℕ) (all : List Entry) → k ≤ length all → take k (all ++ f ∷ []) ≡ take k all
  take-snoc zero all h = refl
  take-snoc (suc k) [] h = absurd (omega arith)
  take-snoc (suc k) (x ∷ all) h = ap (◌∷◌ x) (take-snoc k all (omega arith))

  take-drop-snoc :
      (k : ℕ) (all : List Entry)
      → k < length all
      → take k (drop 1 (all ++ f ∷ [])) ≡ take k (drop 1 all)
  take-drop-snoc k [] h = absurd (omega arith)
  take-drop-snoc k (x ∷ all) h = take-snoc k all (omega arith)

Is-lt : (all : List Entry) (i : ℕ) (e : Entry) → Is all i e → i < length all
Is-lt [] i e is = absurd (ground arith)
Is-lt (x ∷ all) zero e is = omega arith
Is-lt (x ∷ all) (suc i) e is = omega (arith, Is-lt all i e is)

none-ge : (all : List Entry) (i : ℕ) → get_elem? all i ≡ none → length all ≤ i
none-ge [] i h = omega arith
none-ge (x ∷ all) zero h = cc
none-ge (x ∷ all) (suc i) h = omega (arith, none-ge all i h)

pub take_suc :
    (k : ℕ) (all : List Entry) (e : Entry)
    → Is all k e
    → items (take (suc k) all) ≡ items (take k all) ++ e.item ∷ []
take_suc k [] e is = absurd (ground arith)
take_suc zero (x ∷ all) e is = ap (λ (y : Entry). y.item ∷ []) (some-injective is)
take_suc (suc k) (x ∷ all) e is = ap (◌∷◌ x.item) (take_suc k all e is)

pub Is-drop_one : (all : List Entry) (k : ℕ) (e : Entry) → Is all (suc k) e → Is (drop 1 all) k e
Is-drop_one [] k e is = absurd (ground arith)
Is-drop_one (x ∷ all) k e is = is

module _ (q : Queue) (v : Invariant q) (i : ℕ) where
  -- The head goes on to the node behind it.
  pub take-Invariant :
      (h x w : ℕ)
      → At q i (deq_item h x w)
      → q.head ≡ h
      → Invariant (go (record q { head = x; taken = q.taken ++ w ∷ [] }) i outside)
  take-Invariant h x w here e =
      let r : Ready v.all v.tail_at h x w = v.knows i (deq_item h x w) here in
      let same : r.at ≡ v.head_at =
        v.unique r.at v.head_at h r.first (subst (Place v.all v.head_at) e v.head) in
      let a : Allowed q v i (deq_item h x w) outside here v.all v.tail_at q.nodes = record {
        grows = λ j f is. is;
        later = omega arith;
        knows = tt;
        others = λ j k n u at_j ne m. v.loose j k n u at_j m;
        own = λ n u m. absurd (ground arith);
        alone = λ j k n u y at_j ne m mk. ground arith;
      } in
      record {
        all = v.all;
        head_at = suc v.head_at;
        tail_at = v.tail_at;
        nodes = v.nodes;
        unique = v.unique;
        head = subst (λ k. Place v.all (suc k) x) same r.second;
        tail = v.tail;
        order = omega (arith, r.bound);
        knows = knows' q v i _ outside here v.all v.tail_at q.nodes a;
        loose = loose' q v i _ outside here v.all v.tail_at q.nodes a;
        apart = apart' q v i _ outside here v.all v.tail_at q.nodes a;
        accepted = v.accepted;
        taken =
            ap₂ (λ xs y. xs ++ y ∷ []) v.taken (sym r.item)
            ∙ sym (
                take_suc v.head_at (drop 1 v.all) r.second.entry (
                  Is-drop_one v.all v.head_at r.second.entry
                    (subst (λ k. Is v.all (suc k) r.second.entry) same r.second.is)));
      }

  module _ (n w : ℕ) (real : n ≢ null) (free : q.nodes n ≡ none) where
    -- A node that is there stays as it is when memory is written that held none.
    kept :
        (p : Ptr) (m : Node) → IsNode q.nodes p m → IsNode (write q.nodes n (some (new_node w))) p m
    kept p m node = record { ne_null = node.ne_null; holds = ground (arith, node.holds, free) }

    kept-IsLoose :
        (p u : ℕ)
        → IsLoose q.nodes v.all p u
        → IsLoose (write q.nodes n (some (new_node w))) v.all p u
    kept-IsLoose p u l = record { node = kept p (new_node u) l.node; out = l.out }

    not-there : (p : Ptr) (m : Node) → IsNode q.nodes p m → p ≢ n
    not-there p m node e = absurd (ground (arith, node.holds, free))

    new-IsLoose : IsLoose (write q.nodes n (some (new_node w))) v.all n w
    new-IsLoose = record {
      node = record { ne_null = real; holds = rw ==_self refl };
      out = λ j p. not-there p.entry.ptr _ (v.nodes j p.entry p.is) p.ptr;
    }

    pub enqueue-Invariant :
        At q i outside
        → Invariant
            (go (record q { nodes = write q.nodes n (some (new_node w)) }) i (enq_start n w))
    enqueue-Invariant here =
        let s' = write q.nodes n (some (new_node w)) in
        let a : Allowed q v i outside (enq_start n w) here v.all v.tail_at s' = record {
          grows = λ j f is. is;
          later = omega arith;
          knows = tt;
          others = λ j k p u at_j ne m. kept-IsLoose p u (v.loose j k p u at_j m);
          own = λ p u m.
              let both : ◌≡◌ {A = ℕ × ℕ} (n, w) (p, u) = some-injective m in
              subst (λ (r : ℕ × ℕ). IsLoose s' v.all r.0 r.1) both new-IsLoose;
          alone = λ j k p u y at_j ne m mk.
              not-there p (new_node y) (v.loose j k p y at_j mk).node
                (sym (ap (λ (r : ℕ × ℕ). r.0) (some-injective m)));
        } in
        record {
          all = v.all;
          head_at = v.head_at;
          tail_at = v.tail_at;
          nodes = λ j e is. kept e.ptr _ (v.nodes j e is);
          unique = v.unique;
          head = v.head;
          tail = v.tail;
          order = v.order;
          knows = knows' q v i outside (enq_start n w) here v.all v.tail_at s' a;
          loose = loose' q v i outside (enq_start n w) here v.all v.tail_at s' a;
          apart = apart' q v i outside (enq_start n w) here v.all v.tail_at s' a;
          accepted = v.accepted;
          taken = v.taken;
        }

  module _ (n w t : ℕ) (m : Node) (here : At q i (enq_decided n w t null))
      (at_t : q.nodes t ≡ some m) (last : m.next ≡ null) where
    abbrev f : Entry
    f = record { ptr = n; item = w }

    abbrev all' : List Entry
    all' = v.all ++ f ∷ []

    abbrev s' : Store
    s' = link q.nodes t n

    tail_known : UpTo v.all v.tail_at t
    tail_known = (v.knows i (enq_decided n w t null) here).0

    at_end : suc tail_known.at ≡ length v.all
    at_end = omega (
      arith,
      none-ge v.all (suc tail_known.at)
          (next-last q v tail_known.at t m tail_known.place at_t last),
      Is-lt v.all tail_known.at tail_known.place.entry tail_known.place.is,
    )

    fresh : IsLoose q.nodes v.all n w
    fresh = v.loose i (enq_decided n w t null) n w here refl

    t-ne : (p : Ptr) → ((j : ℕ) → Place v.all j p → ⊥) → t ≢ p
    t-ne p out e = out tail_known.at (subst (Place v.all tail_known.at) e tail_known.place)

    old-Place : {j : ℕ} {p : Ptr} → Place v.all j p → Place all' j p
    old-Place {j} p = record { entry = p.entry; is = Is-snoc f v.all j p.entry p.is; ptr = p.ptr }

    new-Place : Place all' (length v.all) n
    new-Place = record { entry = f; is = Is-snoc_last f v.all; ptr = refl }

    place-cases :
        (j : ℕ) (p : Ptr) → Place all' j p → Place v.all j p ⊎ ((j ≡ length v.all) × (p ≡ n))
    place-cases j p r = elim (snoc-Is f v.all j r.entry r.is) [
      | inl old ↦ inl (record { entry = r.entry; is = old; ptr = r.ptr })
      | inr (e, g) ↦ inr (e, sym r.ptr ∙ ap (λ (y : Entry). y.ptr) g)
    ]

    append_unique : (j k : ℕ) (p : Ptr) → Place all' j p → Place all' k p → j ≡ k
    append_unique j k p a b = elim (place-cases j p a) [
      | inl old ↦ elim (place-cases k p b) [
        | inl old' ↦ v.unique j k p old old'
        | inr (e, g) ↦ absurd (fresh.out j (subst (Place v.all j) g old))
      ]
      | inr (e, g) ↦ elim (place-cases k p b) [
        | inl old' ↦ absurd (fresh.out k (subst (Place v.all k) g old'))
        | inr (e', g') ↦ e ∙ sym e'
      ]
    ]

    still-IsLoose : (p u : ℕ) → IsLoose q.nodes v.all p u → p ≢ n → IsLoose s' all' p u
    still-IsLoose p u l ne = record {
      node = modify_other t _ l.node (t-ne p l.out);
      out = λ j r. elim (place-cases j p r) [ inl old ↦ l.out j old | inr (e, g) ↦ ne g ];
    }

    last-IsNode :
        (j : ℕ) (e : Entry) → Is v.all j e → j ≡ tail_known.at → IsNode s' e.ptr (entry_node e n)
    last-IsNode j e old same =
        let is_t : e.ptr ≡ t =
          ap (λ (y : Entry). y.ptr)
            (some-injective (sym old ∙ ap (get_elem? v.all) same ∙ tail_known.place.is))
          ∙ tail_known.place.ptr in
        subst (λ p. IsNode (link q.nodes p n) e.ptr (entry_node e n)) is_t
          (modify_self _ (v.nodes j e old) refl)

    other-IsNode :
        (j : ℕ) (e : Entry)
        → Is v.all j e
        → j ≢ tail_known.at
        → IsNode s' e.ptr (entry_node e (ptr_or_null (get_elem? all' (suc j))))
    other-IsNode j e old ne =
        let inside : suc j < length v.all = omega (arith, at_end, Is-lt v.all j e old) in
        let here_not : t ≢ e.ptr = λ z. ne (
          v.unique j tail_known.at e.ptr (record { entry = e; is = old; ptr = refl })
            (subst (Place v.all tail_known.at) z tail_known.place)) in
        rw (get_elem?-snoc f v.all (suc j) inside) (modify_other t _ (v.nodes j e old) here_not)

    append-nodes :
        (j : ℕ) (e : Entry)
        → Is all' j e
        → IsNode s' e.ptr (entry_node e (ptr_or_null (get_elem? all' (suc j))))
    append-nodes j e is = elim (snoc-Is f v.all j e is) [
      | inl old ↦ elim (Bool-cases (j == tail_known.at)) [
        | inl z ↦
            let same : j ≡ tail_known.at = ==_true j tail_known.at z in
            let behind : get_elem? all' (suc j) ≡ some f =
              ap (get_elem? all') (ap suc same ∙ at_end) ∙ Is-snoc_last f v.all in
            subst (λ o. IsNode s' e.ptr (entry_node e (ptr_or_null o))) (sym behind)
              (last-IsNode j e old same)
        | inr z ↦ other-IsNode j e old (λ y. ground arith)
      ]
      | inr (at_last, g) ↦
          let none_behind : get_elem? all' (suc j) ≡ none =
            ap (λ k. get_elem? all' (suc k)) at_last ∙ get_elem?-past f v.all in
          let new : IsNode s' n (entry_node f null) =
            modify_other t _ fresh.node (t-ne n fresh.out) in
          subst (λ o. IsNode s' e.ptr (entry_node e (ptr_or_null o))) (sym none_behind)
            (subst (λ (y : Entry). IsNode s' y.ptr (entry_node y null)) (sym g) new)
    ]

    append-Allowed : Allowed q v i (enq_decided n w t null) (enq_swing n w t) here all' v.tail_at s'
    append-Allowed = record {
      grows = λ j e is. Is-snoc f v.all j e is;
      later = omega arith;
      knows = record {
        at = tail_known.at;
        first = old-Place tail_known.place;
        second = subst (λ k. Place all' k n) (sym at_end) new-Place;
      };
      others = λ j k p u at_j ne mk.
          still-IsLoose p u (v.loose j k p u at_j mk)
            (λ e. ne (v.apart j i k _ n u w at_j here (mk ∙ ap (λ z. some (z, u)) e) refl));
      own = λ p u mk. absurd (ground arith);
      alone = λ j k p u y at_j ne mk z. ground arith;
    }

    pub append-Invariant :
        Invariant
          (go (record q { nodes = s'; accepted = q.accepted ++ w ∷ [] }) i (enq_swing n w t))
    append-Invariant =
        let a = append-Allowed in
        record {
          all = all';
          head_at = v.head_at;
          tail_at = v.tail_at;
          nodes = append-nodes;
          unique = append_unique;
          head = old-Place v.head;
          tail = old-Place v.tail;
          order = v.order;
          knows = knows' q v i _ _ here all' v.tail_at s' a;
          loose = loose' q v i _ _ here all' v.tail_at s' a;
          apart = apart' q v i _ _ here all' v.tail_at s' a;
          accepted =
              ap (λ xs. xs ++ w ∷ []) v.accepted
              ∙ sym (items-drop-snoc f v.all (omega (arith, at_end)));
          taken =
              v.taken
              ∙ ap items (
                  sym (
                    take-drop-snoc f v.head_at v.all
                      (Is-lt v.all v.head_at v.head.entry v.head.is)));
        }
