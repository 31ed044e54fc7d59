-- ===== src/LinkedList/Clear.antt =====
-- The functions of data_structures/list.c that empty a list.
use c_utils.Base.{
  ℕ, zero, suc, ◌+◌, ◌<◌, ◌≡◌, refl, ap, ◌∙◌, Bool, true, false, some, Run, ◌>>=◌, Returns-inv,
  List, [], ◌∷◌, arith, ◌==◌, if◌then◌else◌, length, All, returns, Returns-mono,
}
use c_utils.Node.{Ptr, null}
use c_utils.Node.Links.{Cell, Cells, has}
use c_utils.LinkedList.{LinkedList, ListConf, ItemEvent, ref_dec, destruct}
use c_utils.LinkedList.Invariant.{IsList, SameOutside}
use c_utils.LinkedList.Retire.{held, all_held, dead, Removal, bad_free, taken}
use c_utils.LinkedList.Drop.{delete_all_nodes, clear, destroy_list}
use c_utils.LinkedList.Cut.{Dropped}
use c_utils.LinkedList.Bridge.{remove_node-Dropped}

-- What a list does to one item that it gives up: the reference goes, or the destructor runs.
abbrev pub given_up : ListConf → Bool → ℕ → List ItemEvent → List ItemEvent
given_up conf del item events =
    if conf.rc_item then ref_dec item ∷ events else if del then destruct item ∷ events else events

abbrev pub all_given_up : ListConf → Bool → Cells → List ItemEvent → List ItemEvent
all_given_up conf del [] events = events
all_given_up conf del (c ∷ cs) events = all_given_up conf del cs (given_up conf del c.item events)

-- No cell is left, each item is given up once, in order, and each node is marked and stays with those
-- who hold it.
pub record Cleared (l : LinkedList) (cells : Cells) (del : Bool) (l' : LinkedList) : Type 0 where
  pub valid : IsList l' []
  pub left :
      All (λ c. (prev : Ptr) × (next : Ptr) × (l'.nodes c.ptr ≡ some (dead c prev next))) cells
  pub same : SameOutside cells l.nodes l'.nodes
  pub conf : l'.conf ≡ l.conf
  pub events : l'.events ≡ all_given_up l.conf del cells l.events

Cleared-cons :
    (l m l' : LinkedList) (c : Cell) (cells : Cells) (del : Bool)
    → has c.ptr cells ≡ false
    → Dropped l [] c cells del m
    → Cleared m cells del l'
    → Cleared l (c ∷ cells) del l'
Cleared-cons l m l' c cells del out d rest = record {
  valid = rest.valid;
  left = ((d.left.0, d.left.1, rest.same c.ptr out ∙ d.left.2), rest.left);
  same = λ a p. rest.same a (ground arith) ∙ d.same a p;
  conf = rest.conf ∙ d.conf;
  events =
      rest.events
      ∙ ap (λ k. all_given_up k del cells m.events) d.conf
      ∙ ap (all_given_up l.conf del cells) d.events;
}

delete_all_nodes-Cleared :
    (k : ℕ) (l : LinkedList) (cells : Cells) (del : Bool)
    → IsList l cells
    → length cells < k
    → Removal (all_held cells) (Cleared l cells del) (delete_all_nodes k l del)
unfolding delete_all_nodes
delete_all_nodes-Cleared zero l cells del v fuel = absurd (omega arith)
delete_all_nodes-Cleared (suc k) l [] del v fuel = taken refl (
    simp v.head
      (returns (record { valid = v; left = tt; same = λ a p. refl; conf = refl; events = refl })))
delete_all_nodes-Cleared (suc k) l (c ∷ cells) del v fuel =
    let ne : (c.ptr == null) ≡ false = ground (arith, v.links.0.ne_null) in
    simp (v.head, ne)
      (first (λ m w. delete_all_nodes-Cleared k m cells del w (omega (arith, fuel)))
        (remove_node-Dropped l c del [] cells v))
  where
    others :
        (m : LinkedList)
        → held c ≡ true
        → Dropped l [] c cells del m
        → Removal (all_held cells) (Cleared m cells del) (delete_all_nodes k m del)
        → Removal (all_held (c ∷ cells)) (Cleared l (c ∷ cells) del) (delete_all_nodes k m del)
    others m h d (bad_free f e) = bad_free (ground (arith, h, f)) e
    others m h d (taken t r) =
        taken (ground (arith, h, t))
          (Returns-mono r λ l' rest. Cleared-cons l m l' c cells del v.distinct.0 d rest)

    first :
        {run : Run LinkedList}
        → ((m : LinkedList)
            → IsList m cells
            → Removal (all_held cells) (Cleared m cells del) (delete_all_nodes k m del))
        → Removal (held c) (Dropped l [] c cells del) run
        → Removal
            (all_held (c ∷ cells))
            (Cleared l (c ∷ cells) del)
            (run >>= λ m. delete_all_nodes k m del)
    first next (bad_free h e) = bad_free (ground (arith, h)) (rw e refl)
    first next (taken h r) = let (m, e, d) = Returns-inv r in rw e (others m h d (next m d.valid))

module _ (l : LinkedList) (cells : Cells) (v : IsList l cells) where
  -- c_utils_list_remove_all and c_utils_list_delete_all on a well-formed list: where iterators
  -- hold each node, the loop ends with an empty list, each item is given up once and in order,
  -- each node is left marked with one reference fewer, and no other node changes; where some
  -- node is not held, the run is undefined.
  pub clear-Cleared : (del : Bool) → Removal (all_held cells) (Cleared l cells del) (clear l del)
  unfolding clear
  clear-Cleared del = delete_all_nodes-Cleared (l.size + 1) l cells del v (omega (arith, v.size))

  pub destroy_list-Cleared :
      Removal (all_held cells) (Cleared l cells l.conf.delete_on_destroy) (destroy_list l)
  unfolding destroy_list
  destroy_list-Cleared = clear-Cleared l.conf.delete_on_destroy
