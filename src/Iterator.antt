-- ===== src/Iterator.antt =====
-- data_structures/iterator.c: calls through the table of functions that a data structure fills in.
-- `S` is the data structure together with the position of the iterator. A callback is its address.
use c_utils.Base.{ℕ, Bool, false, Option, none, some, if◌then◌else◌, Run, ok, ◌>>=◌}

-- A field is `none` where the function pointer is NULL.
pub record Iterator (S : Type 0) : Type 0 where
  pub head : Option (S → Run (ℕ × S))
  pub tail : Option (S → Run (ℕ × S))
  pub next : Option (S → Run (ℕ × S))
  pub prev : Option (S → Run (ℕ × S))
  pub curr : Option (S → Run (ℕ × S))
  pub append : Option (ℕ → S → Run (Bool × S))
  pub prepend : Option (ℕ → S → Run (Bool × S))
  pub for_each : Option (ℕ → S → Run (Bool × S))
  pub rem : Option (S → Run (Bool × S))
  pub del : Option (S → Run (Bool × S))
  pub finalize : Option (S → Run S)
  pub ref_counted : Bool

module _ {S : Type 0} where
  -- A call of a function that may be missing.
  abbrev pub call_item : Option (S → Run (ℕ × S)) → S → Run (ℕ × S)
  call_item none s = ok (0, s)
  call_item (some f) s = f s

  abbrev pub call_bool : Option (S → Run (Bool × S)) → S → Run (Bool × S)
  call_bool none s = ok (false, s)
  call_bool (some f) s = f s

  abbrev pub call_with : Option (ℕ → S → Run (Bool × S)) → ℕ → S → Run (Bool × S)
  call_with none x s = ok (false, s)
  call_with (some f) x s = f x s

  -- A NULL iterator is `none`.
  unfoldable pub iterator_head : Option (Iterator S) → S → Run (ℕ × S)
  iterator_head none s = ok (0, s)
  iterator_head (some it) s = call_item it.head s

  unfoldable pub iterator_tail : Option (Iterator S) → S → Run (ℕ × S)
  iterator_tail none s = ok (0, s)
  iterator_tail (some it) s = call_item it.tail s

  unfoldable pub iterator_next : Option (Iterator S) → S → Run (ℕ × S)
  iterator_next none s = ok (0, s)
  iterator_next (some it) s = call_item it.next s

  unfoldable pub iterator_prev : Option (Iterator S) → S → Run (ℕ × S)
  iterator_prev none s = ok (0, s)
  iterator_prev (some it) s = call_item it.prev s

  unfoldable pub iterator_curr : Option (Iterator S) → S → Run (ℕ × S)
  iterator_curr none s = ok (0, s)
  iterator_curr (some it) s = call_item it.curr s

  unfoldable pub iterator_append : Option (Iterator S) → ℕ → S → Run (Bool × S)
  iterator_append none item s = ok (false, s)
  iterator_append (some it) item s = call_with it.append item s

  unfoldable pub iterator_prepend : Option (Iterator S) → ℕ → S → Run (Bool × S)
  iterator_prepend none item s = ok (false, s)
  iterator_prepend (some it) item s = call_with it.prepend item s

  unfoldable pub iterator_for_each : Option (Iterator S) → ℕ → S → Run (Bool × S)
  iterator_for_each none callback s = ok (false, s)
  iterator_for_each (some it) callback s = call_with it.for_each callback s

  unfoldable pub iterator_remove : Option (Iterator S) → S → Run (Bool × S)
  iterator_remove none s = ok (false, s)
  iterator_remove (some it) s = call_bool it.rem s

  unfoldable pub iterator_delete : Option (Iterator S) → S → Run (Bool × S)
  iterator_delete none s = ok (false, s)
  iterator_delete (some it) s = call_bool it.del s

  -- `ref_dec` gives up the reference to the data structure. The iterator itself is left out.
  unfoldable pub iterator_destroy : (S → Run S) → Option (Iterator S) → S → Run S
  iterator_destroy ref_dec none s = ok s
  iterator_destroy ref_dec (some it) s = do
    s' ← (if it.ref_counted then ref_dec s else ok s)
    elim it.finalize [ none ↦ ok s' | some f ↦ f s' ]
