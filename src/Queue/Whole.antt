-- ===== src/Queue/Whole.antt =====
-- A queue of data_structures/queue.c that any number of threads share.
use c_utils.Base.{
  ℕ, zero, suc, ◌+◌, ◌≡◌, ◌≢◌, ◌<◌, refl, sym, ap, ap₂, ◌∙◌, subst, false, none, some, List, [],
  ◌∷◌, ◌++◌, get_elem?, length, length-append, replicate-only, take, drop, arith, ◌==◌, ==_self,
  inl, inr, ◌⊎◌, Returns, returns, ok, ◌>>=◌,
}
use c_utils.Node.{Ptr, null, Node, Store, IsNode, write, load-ok}
use c_utils.Queue.{Queue, Steps, outside, new_node, queue_create, destroy_loop, queue_destroy}
use c_utils.Queue.Invariant.{
  Entry, Is, Place, Invariant, Knows, made, ptr_or_null, entry_node, items,
}
use c_utils.Queue.Growth.{take_suc, Is-drop_one}
use c_utils.Queue.Order.{Steps-Invariant}

-- From the node at `p` links lead to nodes with the items, and then to NULL.
abbrev pub Leads : Store → Ptr → List ℕ → Type 0
Leads s p [] = (m : Node) × IsNode s p m × (m.next ≡ null)
Leads s p (x ∷ xs) =
    (m : Node) × IsNode s p m × ((n : Node) × IsNode s m.next n × (n.item ≡ x)) × Leads s m.next xs

-- What was taken out and what is linked behind the head is, in order, what was put in.
pub record IsFifo (q : Queue) : Type 0 where
  pub rest : List ℕ
  pub line : q.accepted ≡ q.taken ++ rest
  pub linked : Leads q.nodes q.head rest

drop-Is :
    (i : ℕ) (all : List Entry) (e : Entry) (es : List Entry)
    → drop i all ≡ e ∷ es
    → Is all i e × (drop (suc i) all ≡ es)
drop-Is zero [] e es h = cc
drop-Is zero (x ∷ all) e es h = (cc, cc)
drop-Is (suc i) [] e es h = cc
drop-Is (suc i) (x ∷ all) e es h = drop-Is i all e es h

Is-drop : (i : ℕ) (all : List Entry) (e : Entry) → Is all i e → drop i all ≡ e ∷ drop (suc i) all
Is-drop i [] e h = absurd (ground arith)
Is-drop zero (x ∷ all) e h = cc
Is-drop (suc i) (x ∷ all) e h = Is-drop i all e h

drop-empty : (i : ℕ) (all : List Entry) → drop i all ≡ [] → get_elem? all i ≡ none
drop-empty i [] h = refl
drop-empty zero (x ∷ all) h = cc
drop-empty (suc i) (x ∷ all) h = drop-empty i all h

drop_one : (k : ℕ) (all : List Entry) → drop k (drop 1 all) ≡ drop (suc k) all
drop_one zero [] = refl
drop_one (suc k) [] = refl
drop_one k (x ∷ all) = refl

items-take-drop : (k : ℕ) (xs : List Entry) → items xs ≡ items (take k xs) ++ items (drop k xs)
items-take-drop zero xs = refl
items-take-drop (suc k) [] = refl
items-take-drop (suc k) (x ∷ xs) = ap (◌∷◌ x.item) (items-take-drop k xs)

module _ (q : Queue) (v : Invariant q) where
  entry-Leads :
      (i : ℕ) (e : Entry) (es : List Entry)
      → Is v.all i e
      → drop (suc i) v.all ≡ es
      → Leads q.nodes e.ptr (items es)
  entry-Leads i e [] is h = (_, v.nodes i e is, ap ptr_or_null (drop-empty (suc i) v.all h))
  entry-Leads i e (g ∷ es) is h =
      let (behind, more) = drop-Is (suc i) v.all g es h in
      let link : ptr_or_null (get_elem? v.all (suc i)) ≡ g.ptr = ap ptr_or_null behind in
      let both =
        subst
          (λ p. ((n : Node) × IsNode q.nodes p n × (n.item ≡ g.item)) × Leads q.nodes p (items es))
          (sym link) ((_, v.nodes (suc i) g behind, refl), entry-Leads (suc i) g es behind more) in
      (_, v.nodes i e is, both.0, both.1)

  abbrev behind_head : List ℕ
  behind_head = items (drop (suc v.head_at) v.all)

  Invariant-line : q.accepted ≡ q.taken ++ behind_head
  Invariant-line =
      v.accepted
      ∙ items-take-drop v.head_at (drop 1 v.all)
      ∙ ap₂ ◌++◌ (sym v.taken) (ap items (drop_one v.head_at v.all))

  Invariant-IsFifo : IsFifo q
  Invariant-IsFifo = record {
    rest = behind_head;
    line = Invariant-line;
    linked =
        subst (λ p. Leads q.nodes p behind_head) v.head.ptr
          (entry-Leads v.head_at v.head.entry _ v.head.is refl);
  }

abbrev dummy : Ptr → Entry
dummy node = record { ptr = node; item = null }

dummy-first : (node : Ptr) (i : ℕ) (p : Ptr) → Place (dummy node ∷ []) i p → i ≡ 0
dummy-first node zero p r = refl
dummy-first node (suc i) p r = absurd (ground (arith, r.is))

dummy-nodes :
    (node : Ptr) (i : ℕ) (e : Entry)
    → node ≢ null
    → Is (dummy node ∷ []) i e
    → IsNode
        (write (λ a. none) node (some (new_node null)))
        e.ptr
        (entry_node e (ptr_or_null (get_elem? (dummy node ∷ []) (suc i))))
dummy-nodes node zero e real is =
    let same : dummy node ≡ e = cc in
    subst
      (λ (y : Entry).
        IsNode (write (λ a. none) node (some (new_node null))) y.ptr (entry_node y null))
      same (record { ne_null = real; holds = rw ==_self refl })
dummy-nodes node (suc i) e real is = absurd (ground arith)

new-Invariant : (node : Ptr) (n : ℕ) → node ≢ null → Invariant (queue_create node n)
unfolding queue_create
new-Invariant node n real =
    let here : Place (dummy node ∷ []) 0 node = record {
      entry = dummy node;
      is = refl;
      ptr = refl;
    } in
    record {
      all = dummy node ∷ [];
      head_at = 0;
      tail_at = 0;
      nodes = λ i e is. dummy-nodes node i e real is;
      unique = λ i j p a b. dummy-first node i p a ∙ sym (dummy-first node j p b);
      head = here;
      tail = here;
      order = omega arith;
      knows = λ i l at_i.
          subst (Knows (dummy node ∷ []) 0) (sym (replicate-only n i outside l at_i)) tt;
      loose =
          λ i l m w at_i h. absurd (ground (arith, ap made (replicate-only n i outside l at_i)));
      apart = λ i j l k m w x at_i at_j h hk.
          absurd (ground (arith, ap made (replicate-only n i outside l at_i)));
      accepted = refl;
      taken = refl;
    }

-- Whatever steps the threads that know a new queue make in c_utils_queue_enqueue and
-- c_utils_queue_dequeue, in whatever order, where a node is not NULL and gets memory that no node
-- had: what the dequeues returned, in their order, and then what is linked behind the head, is in
-- this order what the enqueues appended.
pub Steps-IsFifo :
    (node : Ptr) (n : ℕ) (q : Queue) → node ≢ null → Steps (queue_create node n) q → IsFifo q
Steps-IsFifo node n q real steps =
    Invariant-IsFifo q (Steps-Invariant (queue_create node n) q steps (new-Invariant node n real))

destroy_loop-node :
    (k : ℕ) (s : Store) (p : Ptr) (m : Node)
    → IsNode s p m
    → destroy_loop (suc k) s p ≡ (destroy_loop k s m.next >>= λ rest. ok (m.item ∷ rest))
unfolding destroy_loop
destroy_loop-node k s p m node =
    let e : (p == null) ≡ false = ground (arith, node.ne_null) in rw (e, load-ok node) refl

destroy_loop-null : (k : ℕ) (s : Store) → destroy_loop (suc k) s null ≡ ok []
unfolding destroy_loop
destroy_loop-null k s = refl

same-node : (s : Store) (p : Ptr) (m n : Node) → IsNode s p m → IsNode s p n → m ≡ n
same-node s p m n a b = cc (a.holds, b.holds)

-- The loop of the destruction goes along the links.
destroy_loop-Leads :
    (k : ℕ) (s : Store) (p : Ptr) (xs : List ℕ) (m : Node)
    → length xs + 1 < k
    → IsNode s p m
    → Leads s p xs
    → destroy_loop k s p ≡ ok (m.item ∷ xs)
destroy_loop-Leads zero s p xs m h node leads = absurd (omega arith)
destroy_loop-Leads (suc zero) s p xs m h node leads = absurd (omega arith)
destroy_loop-Leads (suc (suc k)) s p [] m h node (n, node', z) =
    let end : m.next ≡ null = ap (λ (y : Node). y.next) (same-node s p m n node node') ∙ z in
    rw (destroy_loop-node (suc k) s p m node, end, destroy_loop-null) refl
destroy_loop-Leads (suc k) s p (x ∷ xs) m h node (n, node', (o, behind, e), leads) =
    let link : n.next ≡ m.next = ap (λ (y : Node). y.next) (same-node s p n m node' node) in
    let rest = destroy_loop-Leads k s n.next xs o (omega arith) behind leads in
    rw (destroy_loop-node k s p m node, ← link, rest, e) refl

-- What the destructor gets: the item of the node at the head, and then those behind it.
pub record Destroyed (q : Queue) (ds : List ℕ) : Type 0 where
  pub rest : List ℕ
  pub line : q.accepted ≡ q.taken ++ rest
  pub head_item : ℕ
  pub destroyed : ds ≡ head_item ∷ rest
  pub twice : (q.taken ≡ []) ⊎ ((before : List ℕ) × (q.taken ≡ before ++ head_item ∷ []))

head_item-last :
    (k : ℕ) (all : List Entry) (e : Entry) (xs : List ℕ)
    → Is all k e
    → xs ≡ items (take k (drop 1 all))
    → (xs ≡ []) ⊎ ((before : List ℕ) × (xs ≡ before ++ e.item ∷ []))
head_item-last zero all e xs is h = inl h
head_item-last (suc k) all e xs is h =
    inr (_, h ∙ take_suc k (drop 1 all) e (Is-drop_one all k e is))

module _ (q : Queue) (v : Invariant q) where
  abbrev head_node : Node
  head_node = entry_node v.head.entry (ptr_or_null (get_elem? v.all (suc v.head_at)))

  head-IsNode : IsNode q.nodes q.head head_node
  head-IsNode =
      subst (λ p. IsNode q.nodes p head_node) v.head.ptr (v.nodes v.head_at v.head.entry v.head.is)

  Invariant-Destroyed : Returns (Destroyed q) (queue_destroy q)
  unfolding queue_destroy
  Invariant-Destroyed =
      let f = Invariant-IsFifo q v in
      let enough : length f.rest + 1 < length q.accepted + 2 =
        omega (arith, ap length f.line, length-append q.taken f.rest) in
      rw
        (destroy_loop-Leads (length q.accepted + 2) q.nodes q.head f.rest head_node enough
          head-IsNode f.linked)
        (returns (record {
          rest = f.rest;
          line = f.line;
          head_item = v.head.entry.item;
          destroyed = refl;
          twice = head_item-last v.head_at v.all v.head.entry q.taken v.head.is v.taken;
        }))

-- After whatever steps of the threads that know a new queue, c_utils_queue_destroy ends, and
-- hands its destructor the items that are still there, in order, but before them the item of the
-- node at the head, which is the one that the last dequeue returned, if there was one.
pub queue_destroy-Destroyed :
    (node : Ptr) (n : ℕ) (q : Queue)
    → node ≢ null
    → Steps (queue_create node n) q
    → Returns (Destroyed q) (queue_destroy q)
queue_destroy-Destroyed node n q real steps =
    Invariant-Destroyed q
      (Steps-Invariant (queue_create node n) q steps (new-Invariant node n real))
