-- ===== src/RefCount/Tests.antt =====
-- The theorems on memory/ref_count.c at concrete calls.
use c_utils.Base.{◌≡◌, refl, true, false, [], ◌∷◌, ◌++◌, arith, fault, Returns}
use c_utils.RefCount.{inc, dec, run_calls, ref_dec, run_destructor}
use c_utils.RefCount.Life.{alive, IsDead, run_calls-IsDead}

-- The default destructor is handed an address that `malloc` did not return.
ref_dec-default : ref_dec (alive 0 false) ≡ fault
unfolding ref_dec run_destructor
ref_dec-default = refl

run_calls-IsDead_example : Returns IsDead (run_calls ((inc ∷ dec ∷ []) ++ dec ∷ []) (alive 0 true))
run_calls-IsDead_example = run_calls-IsDead 0 (inc ∷ dec ∷ []) (omega arith) refl
