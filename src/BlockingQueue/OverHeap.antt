-- ===== src/BlockingQueue/OverHeap.antt =====
-- data_structures/blocking_queue.c with a comparator: the queue is over a heap, and hands its items out
-- like a queue with priorities.
use c_utils.Base.{
  ℕ, ◌+◌, ◌≡◌, ◌≢◌, ◌≤◌, ◌<◌, refl, sym, ap, ◌∙◌, subst, Bool, true, false, Option, none,
  Option-cases, [], ◌∷◌, ok, ◌>>=◌, ◌==◌, ==_true, arith, total, Returns, returns, Returns-inv,
  Bool-cases, inl, inr, ok-bind, ok-injective, compare, Ranks, length,
}
use c_utils.Heap.{Heap, insert, remove, remove_all, delete_all}
use c_utils.Heap.Create.{destroy_heap}
use c_utils.Heap.Array.{at}
use c_utils.Heap.Insert.{IsValid, Inserted, count}
use c_utils.Heap.Remove.{Removed, remove_correct}
use c_utils.Heap.Session.{IsRoomy, insert-IsRoomy, occurs_le, count-occurs, count-empty}
use c_utils.Heap.Clear.{Emptied, remove_all-Emptied, delete_all-Emptied}
use c_utils.BlockingQueue.{Backing, BlockingQueue, null}
use c_utils.BlockingQueue.History.{
  had_none, emptied, contents, IsLegal, start, take_in, give, have_none, empty, Log, logged, put_in,
  take_out,
}
use c_utils.BlockingQueue.Steps.{Local, System, At, Steps, new_system}
use c_utils.BlockingQueue.Waiting.{inside, holds, Keeps}
use c_utils.BlockingQueue.Progress.{Settles, Steps-Settles}

-- A heap, and what `realloc` will answer at each insertion.
pub record HeapStore : Type 0 where
  pub heap : Heap
  pub inserted : ℕ
  pub memory : ℕ → Option ℕ

unfoldable pub over_heap : Backing HeapStore
over_heap = record {
  add = λ item s. insert (s.memory s.inserted) s.heap item >>= λ (done, h).
      ok (done, record s { heap = h; inserted = s.inserted + 1 });
  take = λ s. remove s.heap >>= λ (item, h). ok (item, record s { heap = h });
  remove_all = λ s. remove_all s.heap >>= λ h. ok (record s { heap = h });
  delete_all = λ s. delete_all s.heap >>= λ h. ok (record s { heap = h });
  size = λ s. s.heap.used;
  destroy = λ s. destroy_heap s.heap >>= λ h. ok (record s { heap = h });
}

-- A valid heap with the default growth and no maximum, ordered by the rank, which is given memory.
pub record IsReady (rank : ℕ → ℕ) (s : HeapStore) : Type 0 where
  pub agrees : (a b : ℕ) → s.heap.cmp a b ≡ compare (rank a) (rank b)
  pub valid : IsValid rank s.heap
  pub roomy : IsRoomy s.heap
  pub supplied : (i : ℕ) → s.memory i ≢ none

-- The heap has what the history says.
pub record InStep (rank : ℕ → ℕ) (g : Log HeapStore) : Type 0 where
  pub ready : IsReady rank g.store
  pub same : (x : ℕ) → count x g.store.heap ≡ contents g.history x
  pub no_null : contents g.history null ≡ 0
  pub legal : IsLegal rank g.history

-- Whatever the threads do with a new queue.
pub record IsSound (rank : ℕ → ℕ) (y : System (Log HeapStore)) : Type 0 where
  pub in_step : InStep rank y.queue.store
  pub counter : y.queue.blocked ≡ total inside y.threads
  pub exclusive :
      (i j : ℕ) (l k : Local) → At y i l → At y j k → holds l ≡ true → holds k ≡ true → i ≡ j

insert-null :
    (memory : Option ℕ) (h : Heap) (item : ℕ)
    → (item == null) ≡ true
    → insert memory h item ≡ ok (false, h)
unfolding insert
insert-null memory h item z = rw z refl

remove_none : (h : Heap) → (h.used == 0) ≡ true → remove h ≡ ok (null, h)
unfolding remove
remove_none h z = rw z refl

module _ (rank : ℕ → ℕ) where
  abbrev ranks : (s : HeapStore) → IsReady rank s → Ranks s.heap.cmp
  ranks s p = record { rank = rank; agrees = p.agrees }

  added-InStep :
      (item : ℕ) (g : Log HeapStore)
      → InStep rank g
      → item ≢ null
      → (done : Bool) (h : Heap) → Inserted rank g.store.heap item (done, h)
      → IsRoomy h
      → InStep rank (record {
        store = record g.store { heap = h; inserted = g.store.inserted + 1 };
        history = put_in item done g.history;
      })
  unfolding contents
  added-InStep item g p real done h i roomy = rw i.done (record {
    ready = record {
      agrees = rw i.cmp p.ready.agrees;
      valid = i.valid;
      roomy = roomy;
      supplied = p.ready.supplied;
    };
    same = λ x. omega (arith, i.items x, p.same x);
    no_null = ground (arith, p.no_null);
    legal = take_in item p.legal;
  })

  add-InStep :
      (item : ℕ) (g : Log HeapStore)
      → InStep rank g
      → Returns (λ r. InStep rank r.1) ((logged over_heap).add item g)
  unfolding over_heap
  add-InStep item g p = elim (Bool-cases (item == null)) [
    | inl z ↦ rw (insert-null (g.store.memory g.store.inserted) g.store.heap item z) (
        returns (record {
          ready = record {
            agrees = p.ready.agrees;
            valid = p.ready.valid;
            roomy = p.ready.roomy;
            supplied = p.ready.supplied;
          };
          same = p.same;
          no_null = p.no_null;
          legal = p.legal;
        }))
    | inr real ↦ elim (Option-cases (g.store.memory g.store.inserted)) [
      | inl lacks ↦ absurd (p.ready.supplied g.store.inserted lacks)
      | inr (junk, e) ↦
          let (r, done, good) = Returns-inv (
            insert-IsRoomy junk g.store.heap item (ranks g.store p.ready) p.ready.valid
              p.ready.roomy (ground arith)) in
          rw (e, done) (returns (added-InStep item g p (ground arith) r.0 r.1 good.0 good.1))
    ]
  ]

  -- The heap has an item of each rank that the history has.
  below :
      (g : Log HeapStore) (p : InStep rank g) (y x : ℕ)
      → ((i : ℕ) → 0 < i → i ≤ g.store.heap.used → rank (at g.store.heap.slots i) ≤ rank y)
      → 0 < contents g.history x
      → rank x ≤ rank y
  below g p y x highest some_x =
      occurs_le rank (rank y) x g.store.heap.slots g.store.heap.used highest
        (count-occurs x g.store.heap (omega (arith, p.same x, some_x)))

  take_out-InStep :
      (g : Log HeapStore) (item : ℕ) (h : Heap)
      → InStep rank g
      → Removed rank g.store.heap (item, h)
      → InStep rank
          (record { store = record g.store { heap = h }; history = take_out item g.history })
  unfolding contents
  take_out-InStep g item h p r =
      let there : 0 < contents g.history item = ground (arith, r.items item, p.same item) in
      let real : (item == null) ≡ false = ground (arith, there, p.no_null) in
      rw real (record {
        ready = record {
          agrees = rw r.cmp p.ready.agrees;
          valid = r.valid;
          roomy = record {
            default = rw r.conf p.ready.roomy.default;
            big = omega (arith, r.size, p.ready.roomy.big);
            filled = omega (arith, r.size, r.used, p.ready.roomy.filled);
          };
          supplied = p.ready.supplied;
        };
        same = λ x. omega (arith, r.items x, p.same x);
        no_null = omega (arith, p.no_null);
        legal = give item there (λ x some_x. below g p item x r.highest some_x) p.legal;
      })

  nothing-InStep :
      (g : Log HeapStore)
      → InStep rank g
      → g.store.heap.used ≡ 0
      → InStep rank (record { store = g.store; history = had_none ∷ g.history })
  unfolding contents
  nothing-InStep g p z = record {
    ready = p.ready;
    same = p.same;
    no_null = p.no_null;
    legal = have_none (λ x. sym (p.same x) ∙ count-empty x g.store.heap z) p.legal;
  }

  take-InStep :
      (g : Log HeapStore)
      → InStep rank g
      → Returns (λ r. InStep rank r.1) ((logged over_heap).take g)
  unfolding over_heap
  take-InStep g p = elim (Bool-cases (g.store.heap.used == 0)) [
    | inl z ↦ rw (remove_none g.store.heap z) (returns (nothing-InStep g p (==_true _ _ z)))
    | inr more ↦
        let (r, done, good) =
          Returns-inv
            (remove_correct g.store.heap (ranks g.store p.ready) p.ready.valid (ground arith)) in
        rw done (returns (take_out-InStep g r.0 r.1 p good))
  ]

  emptied-InStep :
      (g : Log HeapStore) (h : Heap)
      → InStep rank g
      → Emptied g.store.heap h
      → InStep rank (record { store = record g.store { heap = h }; history = emptied ∷ g.history })
  unfolding contents
  emptied-InStep g h p e = record {
    ready = record {
      agrees = rw e.cmp p.ready.agrees;
      valid = record {
        sized = ap length e.slots ∙ p.ready.valid.sized ∙ sym e.size;
        room = omega (arith, e.used, e.size, p.ready.valid.room);
        ordered = λ c a b. absurd (omega (arith, e.used, a, b));
      };
      roomy = record {
        default = rw e.conf p.ready.roomy.default;
        big = omega (arith, e.size, p.ready.roomy.big);
        filled = omega (arith, e.used);
      };
      supplied = p.ready.supplied;
    };
    same = λ x. count-empty x h e.used;
    no_null = refl;
    legal = empty p.legal;
  }

  logged-Keeps : Keeps (logged over_heap) (InStep rank)
  unfolding over_heap
  logged-Keeps = record {
    add = add-InStep;
    take = take-InStep;
    remove_all = λ g p.
        let (h, done, e) = Returns-inv (remove_all-Emptied g.store.heap p.ready.valid) in
        rw done (returns (emptied-InStep g h p e));
    delete_all = λ g g' p e.
        let (s, first, last) = ok-bind _ _ e in
        let (h, deleted, same) = ok-bind (delete_all g.store.heap) _ first in
        let store : record g.store { heap = h } ≡ s = ok-injective same in
        subst (InStep rank) (ok-injective last) (
          subst (λ t. InStep rank (record { store = t; history = emptied ∷ g.history })) store
            (emptied-InStep g h p (delete_all-Emptied g.store.heap h deleted)));
  }

-- A new queue over a heap.
abbrev pub new_queue : HeapStore → BlockingQueue (Log HeapStore)
new_queue s = record { store = record { store = s; history = [] }; shutdown = false; blocked = 0 }

module _ (rank : ℕ → ℕ) (s : HeapStore) (p : IsReady rank s) (none_yet : s.heap.used ≡ 0) where
  new-InStep : InStep rank (new_queue s).store
  unfolding contents
  new-InStep = record {
    ready = p;
    same = λ x. count-empty x s.heap none_yet;
    no_null = refl;
    legal = start;
  }

  -- After whatever steps of the threads that know a new queue over an empty, valid heap with
  -- the default growth and no maximum, whose comparator follows a rank, and where realloc gets
  -- memory: the threads can bring each other, one step at a time and without a wait that ends,
  -- to a state in which each is outside of the calls or in a wait; each of these steps brings
  -- one thread nearer to the end of its call or to a wait and leaves the others where they
  -- stand, and there are at most as many of them as all threads have before them (four behind
  -- the start of a call, three at the test, two with an error or before the signal, one behind
  -- the lock).
  pub heap_queue-Settles :
      (n : ℕ) (y : System (Log HeapStore))
      → Steps (logged over_heap) (new_system (new_queue s) n) y
      → Settles (logged over_heap) y
  heap_queue-Settles n y steps =
      Steps-Settles (logged over_heap) (InStep rank) (logged-Keeps rank) (new_queue s) n y refl
        new-InStep steps
