-- ===== src/BlockingQueue/Results.antt =====
-- What the calls of data_structures/blocking_queue.c return.
use c_utils.Base.{
  ℕ, ◌≡◌, ◌≢◌, refl, sym, ap, ◌∙◌, Bool, true, false, ◌&&◌, if◌then◌else◌, Option, none, some, List,
  length, arith, Returns, returns, Returns-if, Returns-bind,
}
use c_utils.BlockingQueue.{
  BlockingQueue, at_once, leave_with, to_int, add_item, enqueue_test, Acquired, nothing,
  create_conf,
}
use c_utils.LinkedList.Insert.{add_unordered-full}
use c_utils.BlockingQueue.OverList.{
  ListStore, HasItems, over_list, next_block, next_block-Answer, other_blocks-Supplied,
  length-items,
}

module _ (s : ListStore) (item : ℕ) (xs : List ℕ) (h : HasItems s xs)
    (bounded : s.list.conf.max ≢ 0) (full : s.list.conf.max ≡ length xs) where
  size-length : s.list.size ≡ length xs
  size-length = omega (arith, h.valid.size, length-items h.cells, ap length h.items_are)

  add-full : Returns (λ r. (r.0 ≡ false) × HasItems r.1 xs) (over_list.add item s)
  unfolding over_list
  add-full =
      Returns-bind
        (add_unordered-full (next_block s.supply) s.list item h.cells h.valid
          (next_block-Answer h.cells s.supply h.supplied) bounded (full ∙ sym size-length))
        λ (done, l) r. returns (
          r.0,
          record {
            cells = h.cells;
            valid = r.1;
            unordered = rw r.2 h.unordered;
            given = h.given;
            items_are = h.items_are;
            supplied = other_blocks-Supplied h.cells s.supply h.supplied;
          },
        )

-- c_utils_blocking_queue_enqueue with a timeout of 0 on a queue over a full list that is not shut
-- down leaves its loop with true, and the items of the queue are those that it had.
pub enqueue_full-true :
    (q : BlockingQueue ListStore) (item : ℕ) (xs : List ℕ)
    → HasItems q.store xs
    → q.shutdown ≡ false
    → q.store.list.conf.max ≢ 0
    → q.store.list.conf.max ≡ length xs
    → Returns
        (λ r. (r.0 ≡ leave_with (to_int true)) × HasItems r.1.store xs)
        (enqueue_test over_list q item at_once)
unfolding enqueue_test add_item
enqueue_full-true q item xs h up bounded full =
    Returns-if q.shutdown (λ down. absurd (ground (arith, up)))
      λ _.
        Returns-bind
          {Good = λ (r : Bool × BlockingQueue ListStore). (r.0 ≡ false) × HasItems r.1.store xs}
          (Returns-bind (add-full q.store item xs h bounded full)
            λ (done, s) r. returns {value = (done, record q { store = s })} r)
          λ (done, q') r. rw r.0 (returns (refl, r.1))

abbrev pub has_all : Acquired → Bool
has_all a = a.memory && a.mutex && a.removed && a.added

-- What a creation is to give: a new queue, with all that was acquired, or NULL, with nothing.
abbrev pub created : {S : Type 0} → Acquired → Option S → Option (BlockingQueue S) × Acquired
created wants none = (none, nothing)
created wants (some s) =
    if has_all wants
    then (
      some (record { store = s; shutdown = false; blocked = 0 }),
      record { memory = true; mutex = true; removed = true; added = true },
    )
    else (none, nothing)

create_conf-answers :
    {S : Type 0} (m x r a : Bool) (made : Option S)
    → let w : Acquired = record { memory = m; mutex = x; removed = r; added = a } in
      create_conf w made ≡ created w made
unfolding create_conf
create_conf-answers false x r a none = refl
create_conf-answers false x r a (some s) = refl
create_conf-answers true false r a none = refl
create_conf-answers true false r a (some s) = refl
create_conf-answers true true false a none = refl
create_conf-answers true true false a (some s) = refl
create_conf-answers true true true false none = refl
create_conf-answers true true true false (some s) = refl
create_conf-answers true true true true none = refl
create_conf-answers true true true true (some s) = refl

-- c_utils_blocking_queue_create_conf, whichever of the memory, the mutex, the two condition
-- variables and the data structure cannot be had, gives NULL and keeps nothing; where all can be
-- had, it keeps all, and gives a queue that is not shut down, with no call under way.
pub create_conf-created :
    {S : Type 0} (wants : Acquired) (made : Option S) → create_conf wants made ≡ created wants made
create_conf-created wants made =
    create_conf-answers wants.memory wants.mutex wants.removed wants.added made
