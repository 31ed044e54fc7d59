-- ===== src/Stack/Chain.antt =====
-- What a stack of data_structures/stack.c stands for, and what its operations do to it.
use c_utils.Base.{
  ℕ, zero, suc, ◌+◌, ◌≡◌, ◌≢◌, ◌<◌, refl, sym, ap, ◌∙◌, Bool, true, false, ◌||◌, none, some, List,
  [], ◌∷◌, arith, ◌==◌, if◌then◌else◌, length, ok, Returns, returns, Returns-mono, ==_true, ==_self,
  Bool-cases, inl, inr,
}
use c_utils.Node.{Ptr, null, Store, write, IsNode, load-ok, change-ok}
use c_utils.Stack.{Stack, new_node, push, stack_push, pop, free, destroy_loop, stack_destroy}

-- A node of the stack: its address and its item.
pub record Entry : Type 0 where
  pub ptr : Ptr
  pub item : ℕ

abbrev pub items : List Entry → List ℕ
items [] = []
items (e ∷ es) = e.item ∷ items es

abbrev pub among : Ptr → List Entry → Bool
among a [] = false
among a (e ∷ es) = (e.ptr == a) || among a es

abbrev pub top : List Entry → Ptr
top [] = null
top (e ∷ es) = e.ptr

-- Each node leads to the next, and no address comes twice.
abbrev pub Chain : Store → List Entry → Type 0
Chain s [] = Unit
Chain s (e ∷ es) =
    ((prev : Ptr) × (valid : Bool) × (refs : ℕ) × IsNode s e.ptr
        (record { next = top es; prev = prev; is_valid = valid; item = e.item; refs = refs }))
    × (among e.ptr es ≡ false)
    × Chain s es

pub record IsStack (st : Stack) (es : List Entry) : Type 0 where
  pub head : st.head ≡ top es
  pub size : st.size ≡ length es
  pub chain : Chain st.nodes es

pub Chain-frame :
    (s t : Store) (es : List Entry)
    → ((a : Ptr) → among a es ≡ true → t a ≡ s a)
    → Chain s es
    → Chain t es
Chain-frame s t [] same c = tt
Chain-frame s t (e ∷ es) same c =
    let (p, v, r, node) = c.0 in
    (
      (
        p,
        v,
        r,
        record { ne_null = node.ne_null; holds = same e.ptr (rw ==_self refl) ∙ node.holds },
      ),
      c.1,
      Chain-frame s t es (λ a h. same a (ground arith)) c.2,
    )

-- What a push into fresh memory makes.
pub record Pushed (st : Stack) (node : Ptr) (item : ℕ) (es : List Entry) (r : Bool × Stack)
    : Type 0 where
  pub done : r.0 ≡ true
  pub valid : IsStack r.1 (record { ptr = node; item = item } ∷ es)
  pub same : (a : Ptr) → node ≢ a → r.1.nodes a ≡ st.nodes a

pub stack_push-Pushed :
    (st : Stack) (es : List Entry) (node : Ptr) (item : ℕ)
    → IsStack st es
    → node ≢ null
    → among node es ≡ false
    → item ≢ null
    → Returns (Pushed st node item es) (stack_push node st item)
unfolding stack_push push
stack_push-Pushed st es node item v real out given =
    let g : (item == null) ≡ false = ground (arith, given) in
    let r : (node == null) ≡ false = ground (arith, real) in
    let fresh : IsNode (write st.nodes node (some (new_node item))) node (new_node item) = record {
      ne_null = real;
      holds = rw ==_self refl;
    } in
    rw (g, r, change-ok fresh (λ n. some (record n { next = st.head })))
      (returns (record {
        done = refl;
        valid = record {
          head = refl;
          size = omega (arith, v.size);
          chain = (
            (null, false, 0, record { ne_null = real; holds = ground (arith, v.head) }),
            out,
            Chain-frame st.nodes _ es (λ a h. ground (arith, out)) v.chain,
          );
        };
        same = λ a ne. ground arith;
      }))

-- What a pop takes away.
pub record Popped (st : Stack) (e : Entry) (es : List Entry) (r : ℕ × Stack) : Type 0 where
  pub item : r.0 ≡ e.item
  pub valid : IsStack r.1 es
  pub freed : r.1.nodes e.ptr ≡ none

pub pop-Popped :
    (st : Stack) (e : Entry) (es : List Entry)
    → IsStack st (e ∷ es)
    → Returns (Popped st e es) (pop st)
unfolding pop
pop-Popped st e es v =
    let (p, f, r, node) = v.chain.0 in
    let ne : (e.ptr == null) ≡ false = ground (arith, node.ne_null) in
    simp (v.head, ne, load-ok node)
      (returns (record {
        item = refl;
        valid = record {
          head = refl;
          size = omega (arith, v.size);
          chain = Chain-frame st.nodes _ es (λ a h. ground (arith, v.chain.1)) v.chain.2;
        };
        freed = rw ==_self refl;
      }))

pub pop-empty : (st : Stack) → IsStack st [] → pop st ≡ ok (null, st)
unfolding pop
pop-empty st v = let e : (st.head == null) ≡ true = ground (arith, v.head) in rw e refl

-- The items that the destructor was given, with those of some entries in front.
abbrev pub all_destroyed : Bool → List Entry → List ℕ → List ℕ
all_destroyed del [] ds = ds
all_destroyed del (e ∷ es) ds = all_destroyed del es (if del then e.item ∷ ds else ds)

-- Every node is freed, the one that waits to be freed included.
pub record Destroyed (st : Stack) (waiting : Ptr) (es : List Entry) (st' : Stack) : Type 0 where
  pub freed : (a : Ptr) → among a es ≡ true → st'.nodes a ≡ none
  pub last : waiting ≢ null → st'.nodes waiting ≡ none
  pub same : (a : Ptr) → among a es ≡ false → waiting ≢ a → st'.nodes a ≡ st.nodes a
  pub destroyed : st'.destroyed ≡ all_destroyed st.del es st.destroyed

free_self : (s : Store) (p : Ptr) → p ≢ null → free s p p ≡ none
free_self s p ne = ground arith

free-other : (s : Store) (p a : Ptr) → p ≢ a → free s p a ≡ s a
free-other s p a ne = ground arith

free-among :
    (s : Store) (p a : Ptr) (es : List Entry)
    → among a es ≡ true
    → among p es ≡ false
    → free s p a ≡ s a
free-among s p a es q out = free-other s p a λ e. ground (arith, ap (λ x. among x es) e)

null-among : (s : Store) (es : List Entry) → Chain s es → among null es ≡ false
null-among s [] c = refl
null-among s (e ∷ es) c =
    let out = null-among s es c.2 in let (p, f, r, node) = c.0 in ground (arith, node.ne_null)

destroy_loop-Destroyed :
    (k : ℕ) (st : Stack) (waiting : Ptr) (es : List Entry)
    → Chain st.nodes es
    → among waiting es ≡ false
    → length es < k
    → Returns (Destroyed st waiting es) (destroy_loop k st waiting (top es))
unfolding destroy_loop
destroy_loop-Destroyed zero st waiting es c out h = absurd (omega arith)
destroy_loop-Destroyed (suc k) st waiting [] c out h = returns (record {
  freed = λ a p. absurd (ground arith);
  last = λ ne. ground arith;
  same = λ a o ne. ground arith;
  destroyed = refl;
})
destroy_loop-Destroyed (suc k) st waiting (e ∷ es) c out h =
    let st1 = record st {
      nodes = free st.nodes waiting;
      destroyed = if st.del then e.item ∷ st.destroyed else st.destroyed;
    } in
    let other : e.ptr ≢ waiting = ground (arith, out) in
    let c' : Chain (free st.nodes waiting) (e ∷ es) =
      Chain-frame st.nodes (free st.nodes waiting) (e ∷ es)
        (λ a q. free-among st.nodes waiting a (e ∷ es) q out) c in
    let node : IsNode (free st.nodes waiting) e.ptr _ = c'.0.3 in
    let ne : (e.ptr == null) ≡ false = ground (arith, node.ne_null) in
    rw (ne, load-ok node)
      (Returns-mono (destroy_loop-Destroyed k st1 e.ptr es c'.2 c'.1 (omega arith)) λ st' d.
        record {
          freed = λ a q. elim (Bool-cases (e.ptr == a)) [
            | inl here ↦ ap st'.nodes (sym (==_true e.ptr a here)) ∙ d.last node.ne_null
            | inr there ↦ d.freed a (ground arith)
          ];
          last = λ q. d.same waiting (ground arith) other ∙ free_self st.nodes waiting q;
          same =
              λ a q ne'. d.same a (ground arith) (ground arith) ∙ free-other st.nodes waiting a ne';
          destroyed = d.destroyed;
        })

-- c_utils_stack_destroy on a well-formed stack ends: every node is freed, and the destructor, if
-- there is one, is given each item once and in order.
pub stack_destroy-Destroyed :
    (st : Stack) (es : List Entry)
    → IsStack st es
    → Returns
        (λ st'.
          ((a : Ptr) → among a es ≡ true → st'.nodes a ≡ none)
          × (st'.destroyed ≡ all_destroyed st.del es st.destroyed))
        (stack_destroy st)
unfolding stack_destroy
stack_destroy-Destroyed st es v = simp v.head (
    Returns-mono
      (destroy_loop-Destroyed (st.size + 1) st null es v.chain (null-among st.nodes es v.chain)
        (omega (arith, v.size)))
      λ st' d. (d.freed, d.destroyed))
