-- ===== src/LinkedList/Invariant.antt =====
-- What a list of data_structures/list.c stands for: its cells, in order.
use c_utils.Base.{◌≡◌, false, length}
use c_utils.Node.{Ptr, null, Store, IsNode}
use c_utils.Node.Links.{Cell, Cells, live, first_or, last_or, has, Distinct, Links}
use c_utils.LinkedList.{LinkedList}

pub record IsList (l : LinkedList) (cells : Cells) : Type 0 where
  pub head : l.head ≡ first_or null cells
  pub tail : l.tail ≡ last_or null cells
  pub size : l.size ≡ length cells
  pub links : Links l.nodes null cells null
  pub distinct : Distinct cells

-- A node that is made but not yet in the list.
pub record IsLoose (l : LinkedList) (cells : Cells) (c : Cell) : Type 0 where
  pub prev : Ptr
  pub next : Ptr
  pub node : IsNode l.nodes c.ptr (live c prev next)
  pub out : has c.ptr cells ≡ false

-- The nodes that are not among the cells stay as they are.
abbrev pub SameOutside : Cells → Store → Store → Type 0
SameOutside cells s t = (a : Ptr) → has a cells ≡ false → t a ≡ s a
