-- ===== src/RefCount/Life.antt =====
-- How long an object of memory/ref_count.c lives.
use c_utils.Base.{
  ℕ, zero, suc, ◌+◌, ◌-◌, ◌%◌, ◌^◌, ◌<◌, ◌≡◌, refl, Bool, true, false, Option, none, some, List, [],
  ◌∷◌, ◌++◌, arith, leb, ◌==◌, length, ok, ap, sym, ◌∙◌, append-nil, Returns, returns, ◌>>=◌,
}
use c_utils.RefCount.{Object, ref_inc, ref_dec, run_destructor, Call, inc, dec, run_calls}

-- The references behind the first one that are left after some calls, unless the object died.
abbrev pub left : ℕ → List Call → Option ℕ
left n [] = some n
left n (inc ∷ calls) = left (n + 1) calls
left zero (dec ∷ calls) = none
left (suc n) (dec ∷ calls) = left n calls

abbrev pub alive : ℕ → Bool → Object
alive n custom = record { refs = n; custom = custom; destroyed = 0; freed = false }

ref_inc-alive :
    (n : ℕ) (custom : Bool) → n + 1 < 2 ^ 31 → ref_inc (alive n custom) ≡ ok (alive (n + 1) custom)
unfolding ref_inc
ref_inc-alive n custom h = let e : (n + 1) % 2 ^ 32 ≡ n + 1 = omega arith in rw e refl

ref_dec-alive :
    (n : ℕ) (custom : Bool) → suc n < 2 ^ 31 → ref_dec (alive (suc n) custom) ≡ ok (alive n custom)
unfolding ref_dec
ref_dec-alive n custom h =
    let e : (suc n + (2 ^ 32 - 1)) % 2 ^ 32 ≡ n = omega arith in
    let s : leb (2 ^ 31) (suc n) ≡ false = ground arith in
    let z : (suc n == 0) ≡ false = ground arith in rw (s, e, z) refl

run_calls-append :
    (n k : ℕ) (custom : Bool) (calls rest : List Call)
    → n + length calls < 2 ^ 31
    → left n calls ≡ some k
    → run_calls (calls ++ rest) (alive n custom) ≡ run_calls rest (alive k custom)
unfolding run_calls
run_calls-append n k custom [] rest h e =
    let same : n ≡ k = ground arith in ap (λ j. run_calls rest (alive j custom)) same
run_calls-append n k custom (inc ∷ calls) rest h e =
    ap (λ r. r >>= run_calls (calls ++ rest)) (ref_inc-alive n custom (omega arith))
    ∙ run_calls-append (n + 1) k custom calls rest (omega arith) e
run_calls-append zero k custom (dec ∷ calls) rest h e = absurd (ground arith)
run_calls-append (suc n) k custom (dec ∷ calls) rest h e =
    ap (λ r. r >>= run_calls (calls ++ rest)) (ref_dec-alive n custom (omega arith))
    ∙ run_calls-append n k custom calls rest (omega arith) e

-- Where the calls on a new object, in whatever order threads make them, never give up more
-- references than there are, with fewer than 2^31 references and calls, all of them return, and
-- the object is alive with the references that are left.
pub run_calls-alive :
    (n k : ℕ) (custom : Bool) (calls : List Call)
    → n + length calls < 2 ^ 31
    → left n calls ≡ some k
    → run_calls calls (alive n custom) ≡ ok (alive k custom)
unfolding run_calls
run_calls-alive n k custom calls h e =
    ap (λ c. run_calls c (alive n custom)) (sym (append-nil calls))
    ∙ run_calls-append n k custom calls [] h e

-- What the last reference leaves: the destructor ran once, and the memory is gone.
pub record IsDead (o : Object) : Type 0 where
  pub destroyed : o.destroyed ≡ 1
  pub freed : o.freed ≡ true

last-IsDead : Returns IsDead (run_calls (dec ∷ []) (alive 0 true))
unfolding run_calls ref_dec run_destructor
last-IsDead = returns (record { destroyed = refl; freed = refl })

-- Where the calls on a new object, in whatever order threads make them, never give up more
-- references than there are and leave none behind the first, with fewer than 2^31 references and
-- calls, one more _c_utils_ref_dec runs the destructor, which is not free, for the first time,
-- and frees the object.
pub run_calls-IsDead :
    (n : ℕ) (calls : List Call)
    → n + length calls < 2 ^ 31
    → left n calls ≡ some 0
    → Returns IsDead (run_calls (calls ++ dec ∷ []) (alive n true))
run_calls-IsDead n calls h e = rw (run_calls-append n 0 true calls (dec ∷ []) h e) last-IsDead
