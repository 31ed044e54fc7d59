-- ===== src/LinkedList/Release.antt =====
-- An iterator of data_structures/list.c that is destroyed, while others have the list or not.
use c_utils.Base.{ℕ, true, none, some, Run, fault, ◌>>=◌}
use c_utils.LinkedList.{LinkedList, Block}
use c_utils.LinkedList.Handle.{Handle, list_iterator, list_ref_dec}
use c_utils.Iterator.{iterator_destroy}

-- The creator of the list gives up its reference, and then the iterator is destroyed.
unfoldable pub outlive : Block → LinkedList → ℕ → Run Handle
outlive b l refs = elim (list_iterator b true true (some l) refs) [
  | none ↦ fault
  | some r ↦ do h ← list_ref_dec r.1; iterator_destroy list_ref_dec (some r.0) h
]
