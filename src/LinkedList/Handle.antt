-- ===== src/LinkedList/Handle.antt =====
-- data_structures/list.c: `c_utils_list_iterator`, and the reference that an iterator holds to its
-- list.
use c_utils.Base.{
  ℕ, ◌+◌, ◌-◌, Bool, true, false, Option, none, some, ◌==◌, if◌then◌else◌, Run, ok, fault, ◌>>=◌,
}
use c_utils.LinkedList.{LinkedList, Block}
use c_utils.LinkedList.Drop.{destroy_list}
use c_utils.LinkedList.Iterate.{
  Position, nowhere, head, tail, next, prev, curr, append, prepend, rem_at, finalize,
}
use c_utils.Iterator.{Iterator}

-- A list under an iterator. `refs` is the counter in front of a list that counts its references.
pub record Handle : Type 0 where
  pub list : LinkedList
  pub pos : Position
  pub refs : ℕ
  pub freed : Bool

-- A use of the list.
abbrev pub use_list {ℓ} : {A : Type ℓ} → Handle → Run A → Run A
use_list h run = if h.freed then fault else run

abbrev pub item_call :
    (LinkedList → Position → Run (ℕ × Position × LinkedList)) → Handle → Run (ℕ × Handle)
item_call f h =
    use_list h (do (item, p, l) ← f h.list h.pos; ok (item, record h { list = l; pos = p }))

abbrev pub curr_call : Handle → Run (ℕ × Handle)
curr_call h = use_list h (do item ← curr h.list h.pos; ok (item, h))

abbrev pub append_call : Block → ℕ → Handle → Run (Bool × Handle)
append_call b item h =
    use_list h (do (done, l) ← append b h.list h.pos item; ok (done, record h { list = l }))

abbrev pub prepend_call : Block → ℕ → Handle → Run (Bool × Handle)
prepend_call b item h =
    use_list h
      (do (done, p, l) ← prepend b h.list h.pos item; ok (done, record h { list = l; pos = p }))

abbrev pub rem_call : Bool → Handle → Run (Bool × Handle)
rem_call del h =
    use_list h (do (done, l) ← rem_at h.list h.pos del; ok (done, record h { list = l }))

abbrev pub finalize_call : Handle → Run Handle
finalize_call h =
    use_list h (do l ← finalize h.list h.pos; ok (record h { list = l; pos = nowhere }))

-- `b` is the memory for the nodes; the flags say whether the two allocations succeed. A NULL list
-- is `none`.
unfoldable pub list_iterator :
    Block → Bool → Bool → Option LinkedList → ℕ → Option (Iterator Handle × Handle)
list_iterator b it_ok pos_ok none refs = none
list_iterator b it_ok pos_ok (some l) refs =
    if it_ok
    then if pos_ok
      then some (
        record {
          head = some (item_call head);
          tail = some (item_call tail);
          next = some (item_call next);
          prev = some (item_call prev);
          curr = some curr_call;
          append = some (append_call b);
          prepend = some (prepend_call b);
          for_each = none;
          rem = some (rem_call false);
          del = some (rem_call true);
          finalize = some finalize_call;
          ref_counted = l.conf.rc_instance;
        },
        record {
          list = l;
          pos = nowhere;
          refs = if l.conf.rc_instance then refs + 1 else refs;
          freed = false;
        },
      )
      else none
    else none

-- C_UTILS_REF_DEC of the list: with the last reference it is destroyed.
unfoldable pub list_ref_dec : Handle → Run Handle
list_ref_dec h = use_list h (
    if h.refs == 0
    then (do l ← destroy_list h.list; ok (record h { list = l; freed = true }))
    else ok (record h { refs = h.refs - 1 }))
