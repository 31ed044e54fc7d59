-- ===== src/Stack/Session.antt =====
-- Sequences of calls on a stack of data_structures/stack.c, against a list.
use c_utils.Base.{
  ℕ, ◌≡◌, ◌≢◌, refl, ap, ap₂, Bool, true, false, List, [], ◌∷◌, arith, ◌==◌, if◌then◌else◌, Run, ok,
  Returns, returns, Returns-bind, ◌>>=◌, Bool-cases, inl, inr,
}
use c_utils.Node.{Ptr, null}
use c_utils.Stack.{Stack, stack_push, pop}
use c_utils.Stack.Chain.{Entry, items, among, IsStack, stack_push-Pushed, pop-Popped, pop-empty}

-- A push comes with the memory that it is given.
pub data Call : Type 0 where
  push_call : Ptr → ℕ → Call
  pop_call : Call

abbrev pub to_int : Bool → ℕ
to_int true = 1
to_int false = 0

-- What the calls return, and the stack behind them.
unfoldable pub run_calls : List Call → Stack → Run (List ℕ × Stack)
run_calls [] st = ok ([], st)
run_calls (push_call node item ∷ calls) st = do
  (done, st') ← stack_push node st item
  (rs, st'') ← run_calls calls st'
  ok (to_int done ∷ rs, st'')
run_calls (pop_call ∷ calls) st = do
  (item, st') ← pop st
  (rs, st'') ← run_calls calls st'
  ok (item ∷ rs, st'')

-- The same calls on a list.
abbrev pub on_list : List Call → List ℕ → List ℕ × List ℕ
on_list [] xs = ([], xs)
on_list (push_call node item ∷ calls) xs =
    let kept = on_list calls xs in
    let more = on_list calls (item ∷ xs) in
    if item == null then (0 ∷ kept.0, kept.1) else (1 ∷ more.0, more.1)
on_list (pop_call ∷ calls) [] = let r = on_list calls [] in (null ∷ r.0, r.1)
on_list (pop_call ∷ calls) (x ∷ xs) = let r = on_list calls xs in (x ∷ r.0, r.1)

abbrev rest_of : List Entry → List Entry
rest_of [] = []
rest_of (e ∷ es) = es

-- The memory for a node is never that of a node which is in the stack.
abbrev pub IsFresh : List Entry → List Call → Type 0
IsFresh es [] = Unit
IsFresh es (push_call node item ∷ calls) =
    (node ≢ null)
    × (among node es ≡ false)
    × IsFresh (if item == null then es else record { ptr = node; item = item } ∷ es) calls
IsFresh es (pop_call ∷ calls) = IsFresh (rest_of es) calls

-- The results are those of the list, and so is what is left.
pub record AsList (calls : List Call) (xs : List ℕ) (r : List ℕ × Stack) : Type 0 where
  pub entries : List Entry
  pub valid : IsStack r.1 entries
  pub results : r.0 ≡ (on_list calls xs).0
  pub left : items entries ≡ (on_list calls xs).1

stack_push-null :
    (node : Ptr) (st : Stack) (item : ℕ)
    → (item == null) ≡ true
    → stack_push node st item ≡ ok (false, st)
unfolding stack_push
stack_push-null node st item e = rw e refl

-- Any sequence of c_utils_stack_push and c_utils_stack_pop on a well-formed stack that is not
-- lock-free, where the memory for a node is not NULL and never that of a node in the stack,
-- returns, and gives the results and leaves the items that the same calls on a list do.
pub run_calls-AsList :
    (calls : List Call) (st : Stack) (es : List Entry)
    → IsStack st es
    → IsFresh es calls
    → Returns (AsList calls (items es)) (run_calls calls st)
unfolding run_calls
run_calls-AsList [] st es v f =
    returns (record { entries = es; valid = v; results = refl; left = refl })
run_calls-AsList (push_call node item ∷ calls) st es v f = elim (Bool-cases (item == null)) [
  | inl e ↦ rw (stack_push-null node st item e) (
      Returns-bind (run_calls-AsList calls st es v (rw e at f.2)) λ (rs, st') r. returns (record {
        entries = r.entries;
        valid = r.valid;
        results = rw e (ap (◌∷◌ 0) r.results);
        left = rw e r.left;
      }))
  | inr e ↦
      Returns-bind (stack_push-Pushed st es node item v f.0 f.1 (λ z. ground (arith, e)))
        λ (done, st') p.
          Returns-bind
            (run_calls-AsList calls st' (record { ptr = node; item = item } ∷ es) p.valid
              (rw e at f.2))
            λ (rs, st'') r. returns (record {
              entries = r.entries;
              valid = r.valid;
              results = rw (e, p.done) (ap (◌∷◌ 1) r.results);
              left = rw e r.left;
            })
]
run_calls-AsList (pop_call ∷ calls) st [] v f = rw (pop-empty st v) (
    Returns-bind (run_calls-AsList calls st [] v f) λ (rs, st') r. returns (record {
      entries = r.entries;
      valid = r.valid;
      results = ap (◌∷◌ null) r.results;
      left = r.left;
    }))
run_calls-AsList (pop_call ∷ calls) st (e ∷ es) v f =
    Returns-bind (pop-Popped st e es v) λ (item, st') p.
      Returns-bind (run_calls-AsList calls st' es p.valid f) λ (rs, st'') r. returns (record {
        entries = r.entries;
        valid = r.valid;
        results = ap₂ ◌∷◌ p.item r.results;
        left = r.left;
      })
