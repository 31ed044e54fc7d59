-- ===== src/BlockingQueue/Progress.antt =====
-- data_structures/blocking_queue.c: the threads in its calls can always come to their ends or to a wait.
use c_utils.Base.{
  ℕ, ◌≡◌, Bool-cases, ◌==◌, ==_true, ◌∙◌, sym, ◌<◌, refl, arith, true, none, ok, Option-cases, inl,
  inr, Returns-inv, set, get_elem?, List, [], ◌∷◌, ◌+◌, ◌≤◌, zero, suc, ap, ◌⊎◌, some,
}
use c_utils.BlockingQueue.{Backing, BlockingQueue, Call, Verdict, leave_with, wait_as, test}
use c_utils.BlockingQueue.Steps.{
  Local, outside, starting, testing, asleep, failing, signalling, leaving, System, At, go, Step,
  lock, leave_loop, sleep, fail, signal, leave, Steps, new_system,
}
use c_utils.BlockingQueue.Waiting.{
  holds, Keeps, Invariant, Step-Invariant, Steps-Invariant, new-Invariant, test-Tested,
}

-- How many steps a thread has left to the end of its call, or to a wait, at most.
abbrev pub distance : Local → ℕ
distance outside = 0
distance (starting call) = 4
distance (testing call) = 3
distance (asleep call) = 0
distance failing = 2
distance (signalling result) = 2
distance (leaving result) = 1

-- A thread that is in a call, and not in a wait, makes a step towards the end of the call, or into a
-- wait.
pub record GoesOn {S : Type 0} (b : Backing S) (y : System S) : Type 0 where
  pub thread : ℕ
  pub before : Local
  pub after : Local
  pub at_before : At y thread before
  pub next : System S
  pub step : Step b y next
  pub threads : next.threads ≡ set y.threads thread after
  pub nearer : distance after < distance before

some-injective : {a b : Local} → some a ≡ some b → a ≡ b
some-injective h = cc

module _ {S : Type 0} (b : Backing S) (P : S → Type 0) (k : Keeps b P) (y : System S) where
  step_of :
      (i : ℕ) (l l' : Local) (z : System S)
      → At y i l
      → distance l' < distance l
      → Step b y (go z i l')
      → z.threads ≡ y.threads
      → GoesOn b y
  step_of i l l' z h less step same = record {
    thread = i;
    before = l;
    after = l';
    at_before = h;
    next = go z i l';
    step = step;
    threads = ap (λ ls. set ls i l') same;
    nearer = less;
  }

  verdict-GoesOn :
      (i : ℕ) (call : Call) (v : Verdict) (q : BlockingQueue S)
      → At y i (testing call)
      → test b call y.queue ≡ ok (v, q)
      → GoesOn b y
  verdict-GoesOn i call (leave_with r) q h t =
      step_of i (testing call) (signalling r) _ h (omega arith) (leave_loop i call r q h t refl)
        refl
  verdict-GoesOn i call (wait_as again) q h t =
      step_of i (testing call) (asleep again) _ h (omega arith) (sleep i call again q h t refl) refl

  -- The thread with the mutex can go on.
  holder-GoesOn : (i : ℕ) (l : Local) → P y.queue.store → At y i l → holds l ≡ true → GoesOn b y
  holder-GoesOn i outside p h e = cc
  holder-GoesOn i (starting call) p h e = cc
  holder-GoesOn i (testing call) p h e =
      let (r, t, d) = Returns-inv (test-Tested b P k call y.queue p) in
      verdict-GoesOn i call r.0 r.1 h t
  holder-GoesOn i (asleep call) p h e = cc
  holder-GoesOn i failing p h e =
      step_of i failing (leaving _) _ h (omega arith) (fail i h refl) refl
  holder-GoesOn i (signalling r) p h e =
      step_of i (signalling r) (leaving r) _ h (omega arith) (signal i r h refl) refl
  holder-GoesOn i (leaving r) p h e = cc

  -- Where the mutex is free, each thread in a call that is not in a wait can.
  free-GoesOn :
      (i : ℕ) (l : Local)
      → P y.queue.store
      → y.owner ≡ none
      → At y i l
      → 0 < distance l
      → GoesOn b y
  free-GoesOn i outside p f h far = absurd (omega (arith, far))
  free-GoesOn i (starting call) p f h far =
      step_of i (starting call) (testing call) _ h (omega arith) (lock i call h f refl) refl
  free-GoesOn i (testing call) p f h far = holder-GoesOn i (testing call) p h refl
  free-GoesOn i (asleep call) p f h far = absurd (omega (arith, far))
  free-GoesOn i failing p f h far = holder-GoesOn i failing p h refl
  free-GoesOn i (signalling r) p f h far = holder-GoesOn i (signalling r) p h refl
  free-GoesOn i (leaving r) p f h far =
      step_of i (leaving r) outside _ h (omega arith) (leave i r h refl) refl

  pub Invariant-GoesOn :
      Invariant P y → (i : ℕ) (l : Local) → At y i l → 0 < distance l → GoesOn b y
  Invariant-GoesOn v i l h ne = elim (Option-cases y.owner) [
    | inl f ↦ free-GoesOn i l v.store f h ne
    | inr (j, e) ↦ let (k', at_j, held) = v.owned j e in holder-GoesOn j k' v.store at_j held
  ]

-- So many such steps, one after the other.
pub data Ahead {S : Type 0} (b : Backing S) : ℕ → System S → System S → Type 0 where
  arrived : {y : System S} → Ahead b 0 y y
  ahead : {n : ℕ} {y z : System S} (g : GoesOn b y) → Ahead b n g.next z → Ahead b (suc n) y z

abbrev pub all_distances : List Local → ℕ
all_distances [] = 0
all_distances (l ∷ ls) = distance l + all_distances ls

-- With as many such steps as are left at most, each thread comes to the end of its call or into a wait.
pub record Settles {S : Type 0} (b : Backing S) (y : System S) : Type 0 where
  pub number : ℕ
  pub final : System S
  pub way : Ahead b number y final
  pub few : number ≤ all_distances y.threads
  pub settled : (i : ℕ) (l : Local) → At final i l → distance l ≡ 0

all_distances-set :
    (ls : List Local) (i : ℕ) (l l' : Local)
    → get_elem? ls i ≡ some l
    → all_distances (set ls i l') + distance l ≡ all_distances ls + distance l'
all_distances-set [] i l l' h = absurd (ground arith)
all_distances-set (k ∷ ls) zero l l' h =
    let same : distance k ≡ distance l = ap distance (some-injective h) in omega (arith, same)
all_distances-set (k ∷ ls) (suc i) l l' h = omega (arith, all_distances-set ls i l l' h)

-- All threads are settled, or one of them is not.
one_is_far :
    (ls : List Local)
    → ((i : ℕ) (l : Local) → get_elem? ls i ≡ some l → distance l ≡ 0)
      ⊎ ((i : ℕ) × (l : Local) × (get_elem? ls i ≡ some l) × (0 < distance l))
one_is_far [] = inl λ i l h. absurd (ground arith)
one_is_far (k ∷ ls) = elim (one_is_far ls) [
  | inr (i, l, h, far) ↦ inr (suc i, l, h, far)
  | inl near ↦ elim (Bool-cases (distance k == 0)) [
    | inl z ↦ inl λ i l h. near_all near (==_true _ _ z) i l h
    | inr far ↦ inr (0, k, refl, ground arith)
  ]
]
  where
    near_all :
        ((i : ℕ) (l : Local) → get_elem? ls i ≡ some l → distance l ≡ 0)
        → distance k ≡ 0
        → (i : ℕ) (l : Local) → get_elem? (k ∷ ls) i ≡ some l
        → distance l ≡ 0
    near_all near z zero l h = ap distance (sym (some-injective h)) ∙ z
    near_all near z (suc i) l h = near i l h

module _ {S : Type 0} (b : Backing S) (P : S → Type 0) (k : Keeps b P) where
  closer : (y : System S) (g : GoesOn b y) → all_distances g.next.threads < all_distances y.threads
  closer y g =
      let less = all_distances-set y.threads g.thread g.before g.after g.at_before in
      rw g.threads (omega (arith, less, g.nearer))

  settled_here : (y : System S) → ((i : ℕ) (l : Local) → At y i l → distance l ≡ 0) → Settles b y
  settled_here y near = record {
    number = 0;
    final = y;
    way = arrived;
    few = omega arith;
    settled = near;
  }

  settled_after : (y : System S) (g : GoesOn b y) → Settles b g.next → Settles b y
  settled_after y g s = record {
    number = suc s.number;
    final = s.final;
    way = ahead g s.way;
    few = omega (arith, s.few, closer y g);
    settled = s.settled;
  }

  Invariant-Settles :
      (n : ℕ) (y : System S) → all_distances y.threads ≤ n → Invariant P y → Settles b y
  Invariant-Settles zero y enough v = elim (one_is_far y.threads) [
    | inl near ↦ settled_here y near
    | inr (i, l, h, far) ↦
        let g = Invariant-GoesOn b P k y v i l h far in absurd (omega (arith, enough, closer y g))
  ]
  Invariant-Settles (suc n) y enough v = elim (one_is_far y.threads) [
    | inl near ↦ settled_here y near
    | inr (i, l, h, far) ↦
        let g = Invariant-GoesOn b P k y v i l h far in
        settled_after y g (
          Invariant-Settles n g.next (omega (arith, enough, closer y g))
            (Step-Invariant b P k y g.next g.step v))
  ]

  pub Steps-Settles :
      (q : BlockingQueue S) (n : ℕ) (y : System S)
      → q.blocked ≡ 0
      → P q.store
      → Steps b (new_system q n) y
      → Settles b y
  Steps-Settles q n y z p steps =
      Invariant-Settles (all_distances y.threads) y (omega arith)
        (Steps-Invariant b P k (new_system q n) y steps (new-Invariant P q n z p))
