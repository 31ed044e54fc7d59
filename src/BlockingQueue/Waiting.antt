-- ===== src/BlockingQueue/Waiting.antt =====
-- The counter and the mutex of a queue of data_structures/blocking_queue.c, and what holds of the
-- data structure behind it.
use c_utils.Base.{
  ok-bind, ok-injective, subst, ok, ℕ, ◌+◌, ◌≡◌, refl, sym, ◌∙◌, Bool, true, false, none, some,
  replicate, set, arith, total, total-set, weight-le-total, total-replicate, Mutex, Mutex-keep,
  Mutex-acquire, Mutex-release, Mutex-replicate, Owned, Owned-keep, Owned-acquire, Owned-none,
  Returns, returns, Returns-ok, Returns-if, Returns-bind,
}
use c_utils.BlockingQueue.{
  Backing, BlockingQueue, Call, put, take, Timeout, null, test, add_item, take_item, enqueue_test,
  dequeue_test, shut_down, activate, queue_remove_all, queue_delete_all,
}
use c_utils.BlockingQueue.Steps.{
  Local, outside, starting, testing, asleep, failing, signalling, leaving, System, At, go, Step,
  enter, lock, leave_loop, sleep, wake, give_up, fail, signal, leave, shutdown_by, remove_all_by,
  delete_all_by, activate_by, Steps, none_yet, and_then, new_system,
}

-- 1 for a thread between the two changes of the counter.
abbrev pub inside : Local → ℕ
inside outside = 0
inside _ = 1

-- Whether a thread holds the mutex there.
abbrev pub holds : Local → Bool
holds (testing call) = true
holds failing = true
holds (signalling result) = true
holds _ = false

-- The calls of the data structure return, and keep what is true of it; the last one does where it
-- returns.
pub record Keeps {S : Type 0} (b : Backing S) (P : S → Type 0) : Type 0 where
  pub add : (item : ℕ) (s : S) → P s → Returns (λ r. P r.1) (b.add item s)
  pub take : (s : S) → P s → Returns (λ r. P r.1) (b.take s)
  pub remove_all : (s : S) → P s → Returns P (b.remove_all s)
  pub delete_all : (s s' : S) → P s → b.delete_all s ≡ ok s' → P s'

pub record Invariant {S : Type 0} (P : S → Type 0) (y : System S) : Type 0 where
  pub counter : y.queue.blocked ≡ total inside y.threads
  pub mutex : Mutex holds y.owner y.threads
  pub owned : Owned holds y.owner y.threads
  pub store : P y.queue.store

module _ {S : Type 0} (b : Backing S) (P : S → Type 0) (k : Keeps b P) where
  -- Nothing changes but the data structure.
  pub record Tested (q q' : BlockingQueue S) : Type 0 where
    pub blocked : q'.blocked ≡ q.blocked
    pub store : P q'.store

  enqueue-Tested :
      (q : BlockingQueue S) (item : ℕ) (timeout : Timeout)
      → P q.store
      → Returns (λ r. Tested q r.1) (enqueue_test b q item timeout)
  unfolding enqueue_test add_item
  enqueue-Tested q item timeout p =
      Returns-if q.shutdown (λ s. returns (record { blocked = refl; store = p }))
        λ s.
          Returns-bind
            (Returns-bind (k.add item q.store p) λ (done, s') r.
              returns {value = (done, record q { store = s' })}
                (record { blocked = refl; store = r }))
            λ (done, q') t. returns t

  dequeue-Tested :
      (q : BlockingQueue S) (last : ℕ) (timeout : Timeout)
      → P q.store
      → Returns (λ r. Tested q r.1) (dequeue_test b q last timeout)
  unfolding dequeue_test take_item
  dequeue-Tested q last timeout p =
      Returns-if q.shutdown (λ s. returns (record { blocked = refl; store = p }))
        λ s.
          Returns-bind
            (Returns-bind (k.take q.store p) λ (item, s') r.
              returns {value = (item, record q { store = s' })}
                (record { blocked = refl; store = r }))
            λ (item, q') t. returns t

  -- The test of a loop returns.
  pub test-Tested :
      (call : Call) (q : BlockingQueue S) → P q.store → Returns (λ r. Tested q r.1) (test b call q)
  unfolding test
  test-Tested (put item timeout) q p = enqueue-Tested q item timeout p
  test-Tested (take last timeout) q p = dequeue-Tested q last timeout p

  remove_all-Tested : (q : BlockingQueue S) → P q.store → Returns (Tested q) (queue_remove_all b q)
  unfolding queue_remove_all
  remove_all-Tested q p =
      Returns-bind (k.remove_all q.store p) λ s r. returns (record { blocked = refl; store = r })

  delete_all-Tested :
      (q q' : BlockingQueue S) → P q.store → queue_delete_all b q ≡ ok q' → Tested q q'
  unfolding queue_delete_all
  delete_all-Tested q q' p e =
      let (s, done, same) = ok-bind (b.delete_all q.store) _ e in
      subst (Tested q) (ok-injective same)
        (record { blocked = refl; store = k.delete_all q.store s p done })

  module _ (y : System S) (v : Invariant P y) (i : ℕ) (l l' : Local) (here : At y i l) where
    -- The counter of a queue with the change of the thread that moves.
    moved :
        (w : ℕ) → w + inside l ≡ y.queue.blocked + inside l' → w ≡ total inside (set y.threads i l')
    moved w c = omega (arith, v.counter, total-set inside y.threads i l l' here)

    keep :
        (q : BlockingQueue S)
        → q.blocked + inside l ≡ y.queue.blocked + inside l'
        → P q.store
        → holds l' ≡ holds l
        → Invariant P (go (record y { queue = q }) i l')
    keep q c p same = record {
      counter = moved q.blocked c;
      mutex = Mutex-keep holds y.owner y.threads v.mutex i l l' here same;
      owned = Owned-keep holds y.owner y.threads i l l' here same v.owned;
      store = p;
    }

    acquire :
        y.owner ≡ none
        → inside l ≡ inside l'
        → holds l' ≡ true
        → Invariant P (go (record y { owner = some i }) i l')
    acquire free c h = record {
      counter = moved y.queue.blocked (omega (arith, c));
      mutex = Mutex-acquire holds y.owner y.threads v.mutex i l l' here free;
      owned = Owned-acquire holds y.threads i l l' here h;
      store = v.store;
    }

    release :
        (q : BlockingQueue S)
        → q.blocked + inside l ≡ y.queue.blocked + inside l'
        → P q.store
        → holds l ≡ true
        → holds l' ≡ false
        → Invariant P (go (record y { queue = q; owner = none }) i l')
    release q c p held freed = record {
      counter = moved q.blocked c;
      mutex = Mutex-release holds y.owner y.threads v.mutex i l l' here held freed;
      owned = Owned-none holds (set y.threads i l');
      store = p;
    }

  pub Step-Invariant : (y z : System S) → Step b y z → Invariant P y → Invariant P z
  unfolding shut_down activate queue_remove_all queue_delete_all
  Step-Invariant y z (enter i call h e) v =
      rw e (keep y v i outside (starting call) h _ (omega arith) v.store refl)
  Step-Invariant y z (lock i call h f e) v =
      rw e (acquire y v i (starting call) (testing call) h f refl refl)
  Step-Invariant y z (leave_loop i call r q h t e) v =
      let d = Returns-ok t (test-Tested call y.queue v.store) in
      rw e (keep y v i (testing call) (signalling r) h q (omega (arith, d.blocked)) d.store refl)
  Step-Invariant y z (sleep i call again q h t e) v =
      let d = Returns-ok t (test-Tested call y.queue v.store) in
      rw e (
        release y v i (testing call) (asleep again) h q (omega (arith, d.blocked)) d.store refl
          refl)
  Step-Invariant y z (wake i call h f e) v =
      rw e (acquire y v i (asleep call) (testing call) h f refl refl)
  Step-Invariant y z (give_up i call h f e) v =
      rw e (acquire y v i (asleep call) failing h f refl refl)
  Step-Invariant y z (fail i h e) v =
      rw e (release y v i failing (leaving null) h y.queue refl v.store refl refl)
  Step-Invariant y z (signal i r h e) v =
      rw e (release y v i (signalling r) (leaving r) h y.queue refl v.store refl refl)
  Step-Invariant y z (leave i r h e) v = rw e (
      keep y v i (leaving r) outside h _
        (omega (arith, v.counter, weight-le-total inside y.threads i (leaving r) h)) v.store refl)
  Step-Invariant y z (shutdown_by f e) v =
      rw e (record { counter = v.counter; mutex = v.mutex; owned = v.owned; store = v.store })
  Step-Invariant y z (remove_all_by q f t e) v =
      let d = Returns-ok t (remove_all-Tested y.queue v.store) in
      rw e (record {
        counter = d.blocked ∙ v.counter;
        mutex = v.mutex;
        owned = v.owned;
        store = d.store;
      })
  Step-Invariant y z (delete_all_by q f t e) v =
      let d = delete_all-Tested y.queue q v.store t in
      rw e (record {
        counter = d.blocked ∙ v.counter;
        mutex = v.mutex;
        owned = v.owned;
        store = d.store;
      })
  Step-Invariant y z (activate_by e) v =
      rw e (record { counter = v.counter; mutex = v.mutex; owned = v.owned; store = v.store })

  pub Steps-Invariant : (y z : System S) → Steps b y z → Invariant P y → Invariant P z
  Steps-Invariant y z none_yet v = v
  Steps-Invariant y z (and_then {u} steps step) v =
      Step-Invariant u z step (Steps-Invariant y u steps v)

pub new-Invariant :
    {S : Type 0} (P : S → Type 0) (q : BlockingQueue S) (n : ℕ)
    → q.blocked ≡ 0
    → P q.store
    → Invariant P (new_system q n)
new-Invariant P q n z p = record {
  counter = z ∙ sym (total-replicate inside n outside refl);
  mutex = Mutex-replicate holds none n outside refl;
  owned = Owned-none holds (replicate n outside);
  store = p;
}
