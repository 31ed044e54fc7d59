-- ===== src/Queue/Frame.antt =====
-- Every step on a queue of data_structures/queue.c keeps its invariant: what the steps share.
use c_utils.Base.{
  ℕ, ◌≡◌, ◌≢◌, ◌≤◌, ◌<◌, sym, ap, ◌∙◌, subst, some, List, get_elem?, set, arith, at-set, inl, inr,
}
use c_utils.Node.{Ptr, Store}
use c_utils.Queue.{
  Queue, Local, At, outside, enq_start, enq_tail, enq_checked, enq_next, enq_decided, enq_swing,
  deq_start, deq_head, deq_checked, deq_tail, deq_next, deq_decided, deq_item,
}
use c_utils.Queue.Invariant.{Entry, Is, Place, Next, UpTo, Ready, Knows, made, IsLoose, Invariant}

module _ (all all' : List Entry) (k k' : ℕ) (grows : (i : ℕ) (e : Entry) → Is all i e → Is all' i e)
    (later : k ≤ k') where
  Place-mono : {i : ℕ} {p : Ptr} → Place all i p → Place all' i p
  Place-mono {i} r = record { entry = r.entry; is = grows i r.entry r.is; ptr = r.ptr }

  UpTo-mono : {p : Ptr} → UpTo all k p → UpTo all' k' p
  UpTo-mono u = record { at = u.at; place = Place-mono u.place; bound = omega (arith, u.bound) }

  Next-mono : {p x : Ptr} → Next all p x → Next all' p x
  Next-mono n = record { at = n.at; first = Place-mono n.first; second = Place-mono n.second }

  Ready-mono : {h x v : ℕ} → Ready all k h x v → Ready all' k' h x v
  unfolding Place-mono
  Ready-mono r = record {
    at = r.at;
    first = Place-mono r.first;
    second = Place-mono r.second;
    item = r.item;
    bound = omega (arith, r.bound);
  }

  before_mono :
      {h t : Ptr}
      → (h ≢ t → (i : ℕ) × Place all i h × (i < k))
      → h ≢ t
      → (i : ℕ) × Place all' i h × (i < k')
  before_mono f ne = let (i, p, b) = f ne in (i, Place-mono p, omega (arith, b))

  -- What a thread knows stays true.
  pub Knows-mono : (l : Local) → Knows all k l → Knows all' k' l
  Knows-mono outside w = tt
  Knows-mono (enq_start n v) w = tt
  Knows-mono (enq_tail n v t) w = UpTo-mono w
  Knows-mono (enq_checked n v t) w = UpTo-mono w
  Knows-mono (enq_next n v t x) w = (UpTo-mono w.0, λ ne. Next-mono (w.1 ne))
  Knows-mono (enq_decided n v t x) w = (UpTo-mono w.0, λ ne. Next-mono (w.1 ne))
  Knows-mono (enq_swing n v t) w = Next-mono w
  Knows-mono deq_start w = tt
  Knows-mono (deq_head h) w = UpTo-mono w
  Knows-mono (deq_checked h) w = UpTo-mono w
  Knows-mono (deq_tail h t) w = (UpTo-mono w.0, before_mono w.1)
  Knows-mono (deq_next h t x) w = (UpTo-mono w.0, before_mono w.1, λ ne. Next-mono (w.2 ne))
  Knows-mono (deq_decided h t x) w = (UpTo-mono w.0, before_mono w.1, λ ne. Next-mono (w.2 ne))
  Knows-mono (deq_item h x v) w = Ready-mono w

-- The thread has no other new node than before.
abbrev pub NoMore : Local → Local → Type 0
NoMore l l' = (n w : ℕ) → made l' ≡ some (n, w) → made l ≡ some (n, w)

module _ (q : Queue) (v : Invariant q) (i : ℕ) (l l' : Local) (here : At q i l) where
  -- What the step of one thread has to show of all threads.
  pub record Allowed (all' : List Entry) (k' : ℕ) (s' : Store) : Type 0 where
    pub grows : (j : ℕ) (e : Entry) → Is v.all j e → Is all' j e
    pub later : v.tail_at ≤ k'
    pub knows : Knows all' k' l'
    pub others :
        (j : ℕ) (k : Local) (n w : ℕ)
        → At q j k
        → j ≢ i
        → made k ≡ some (n, w)
        → IsLoose s' all' n w
    pub own : (n w : ℕ) → made l' ≡ some (n, w) → IsLoose s' all' n w
    pub alone :
        (j : ℕ) (k : Local) (n w x : ℕ)
        → At q j k
        → j ≢ i
        → made l' ≡ some (n, w)
        → made k ≡ some (n, x)
        → ⊥

  module _ (all' : List Entry) (k' : ℕ) (s' : Store) (a : Allowed all' k' s') where
    abbrev threads' : List Local
    threads' = set q.threads i l'

    pub knows' : (j : ℕ) (k : Local) → get_elem? threads' j ≡ some k → Knows all' k' k
    knows' j k at_j = elim (at-set q.threads i j l l' k here at_j) [
      | inl (e, same) ↦ subst (Knows all' k') (sym same) a.knows
      | inr (ne, at_q) ↦ Knows-mono v.all all' v.tail_at k' a.grows a.later k (v.knows j k at_q)
    ]

    pub loose' :
        (j : ℕ) (k : Local) (n w : ℕ)
        → get_elem? threads' j ≡ some k
        → made k ≡ some (n, w)
        → IsLoose s' all' n w
    loose' j k n w at_j h = elim (at-set q.threads i j l l' k here at_j) [
      | inl (e, same) ↦ a.own n w (ap made (sym same) ∙ h)
      | inr (ne, at_q) ↦ a.others j k n w at_q ne h
    ]

    pub apart' :
        (j m : ℕ) (k r : Local) (n w x : ℕ)
        → get_elem? threads' j ≡ some k
        → get_elem? threads' m ≡ some r
        → made k ≡ some (n, w)
        → made r ≡ some (n, x)
        → j ≡ m
    apart' j m k r n w x at_j at_m hj hm = elim (at-set q.threads i j l l' k here at_j) [
      | inl (e, same) ↦ elim (at-set q.threads i m l l' r here at_m) [
        | inl (e', same') ↦ e ∙ sym e'
        | inr (ne, at_q) ↦ absurd (a.alone m r n w x at_q ne (ap made (sym same) ∙ hj) hm)
      ]
      | inr (ne, at_q) ↦ elim (at-set q.threads i m l l' r here at_m) [
        | inl (e', same') ↦ absurd (a.alone j k n x w at_q ne (ap made (sym same') ∙ hm) hj)
        | inr (ne', at_q') ↦ v.apart j m k r n w x at_q at_q' hj hm
      ]
    ]

  quiet-Allowed :
      (k' : ℕ) → v.tail_at ≤ k' → Knows v.all k' l' → NoMore l l' → Allowed v.all k' q.nodes
  quiet-Allowed k' later knows no_more = record {
    grows = λ j e is. is;
    later = later;
    knows = knows;
    others = λ j k n w at_j ne h. v.loose j k n w at_j h;
    own = λ n w h. v.loose i l n w here (no_more n w h);
    alone = λ j k n w x at_j ne h hk. ne (v.apart j i k l n x w at_j here hk (no_more n w h));
  }

  -- A step that at most moves the tail on.
  pub quiet :
      (t : Ptr) (k' : ℕ)
      → Place v.all k' t
      → v.tail_at ≤ k'
      → Knows v.all k' l'
      → NoMore l l'
      → Invariant (record q { tail = t; threads = set q.threads i l' })
  quiet t k' place later knows no_more =
      let a = quiet-Allowed k' later knows no_more in
      record {
        all = v.all;
        head_at = v.head_at;
        tail_at = k';
        nodes = v.nodes;
        unique = v.unique;
        head = v.head;
        tail = place;
        order = omega (arith, v.order);
        knows = knows' v.all k' q.nodes a;
        loose = loose' v.all k' q.nodes a;
        apart = apart' v.all k' q.nodes a;
        accepted = v.accepted;
        taken = v.taken;
      }
