-- ===== src/RefCount.antt =====
-- memory/ref_count.c: an object with a counter in front of it. The counter is an atomic `int`: here
-- it is the number below 2^32 with the same bits, negative from 2^31 on. Each call reads and
-- writes it in one atomic step, so that calls of several threads come in some order.
pub mod Life
pub mod Tests
use c_utils.Base.{
  ℕ, ◌+◌, ◌-◌, ◌%◌, ◌^◌, Bool, true, false, Option, none, some, List, [], ◌∷◌, leb, ◌==◌,
  if◌then◌else◌, Run, ok, fault, ◌>>=◌,
}

-- `destroyed` counts the calls of the destructor; `custom` says that it is not `free`.
pub record Object : Type 0 where
  pub refs : ℕ
  pub custom : Bool
  pub destroyed : ℕ
  pub freed : Bool

-- `malloc_ok` says whether there is memory. Without a destructor `free` is taken.
unfoldable pub create_conf : Bool → ℕ → Bool → Option Object
create_conf malloc_ok initial_ref_count custom =
    if malloc_ok
    then some (record {
      refs = initial_ref_count % 2 ^ 32;
      custom = custom;
      destroyed = 0;
      freed = false;
    })
    else none

unfoldable pub ref_inc : Object → Run Object
ref_inc o = if o.freed then fault else ok (record o { refs = (o.refs + 1) % 2 ^ 32 })

-- `free` is handed an address inside of the block that `malloc` returned.
unfoldable pub run_destructor : Object → Run Object
run_destructor o = if o.custom then ok (record o { destroyed = o.destroyed + 1 }) else fault

-- The assertion demands that the counter was not negative.
unfoldable pub ref_dec : Object → Run Object
unfolding run_destructor
ref_dec o = if o.freed then fault else if leb (2 ^ 31) o.refs then fault else (do
  let lower = record o { refs = (o.refs + (2 ^ 32 - 1)) % 2 ^ 32 }
  if o.refs == 0 then (do o' ← run_destructor lower; ok (record o' { freed = true })) else ok lower)

-- Without the destructor.
unfoldable pub ref_destroy : Object → Run Object
ref_destroy o = if o.freed then fault else ok (record o { freed = true })

pub data Call : Type 0 where
  inc dec : Call

unfoldable pub run_calls : List Call → Object → Run Object
unfolding ref_inc ref_dec
run_calls [] o = ok o
run_calls (inc ∷ calls) o = do o' ← ref_inc o; run_calls calls o'
run_calls (dec ∷ calls) o = do o' ← ref_dec o; run_calls calls o'
