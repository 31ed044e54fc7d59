-- ===== src/BlockingQueue/OverList.antt =====
-- data_structures/blocking_queue.c without a comparator: the queue is over a list.
use c_utils.Base.{
  ℕ, ◌≡◌, ◌≢◌, refl, true, false, none, List, [], ◌∷◌, ◌++◌, ok, ◌>>=◌, arith, All, inl, inr,
  length,
}
use c_utils.Node.{Ptr}
use c_utils.Node.Links.{Cell, Cells, has, has-append}
use c_utils.LinkedList.{LinkedList, Block, add}
use c_utils.LinkedList.Invariant.{IsList}
use c_utils.LinkedList.Insert.{IsFresh, Answer, new_cell}
use c_utils.LinkedList.Drop.{remove_at, clear, destroy_list}
use c_utils.LinkedList.Walk.{items}
use c_utils.BlockingQueue.{Backing, null}

-- A list, and the memory that `malloc` will return for its nodes; after the last block it returns
-- NULL.
pub record ListStore : Type 0 where
  pub list : LinkedList
  pub supply : List Block

abbrev pub no_memory : Block
no_memory = record {
  ptr = 0;
  junk = record { next = 0; prev = 0; is_valid = false; item = 0; refs = 0 };
}

abbrev pub next_block : List Block → Block
next_block [] = no_memory
next_block (b ∷ bs) = b

abbrev pub other_blocks : List Block → List Block
other_blocks [] = []
other_blocks (b ∷ bs) = bs

unfoldable pub over_list : Backing ListStore
over_list = record {
  add = λ item s. add (next_block s.supply) s.list item >>= λ (done, l).
      ok (done, record { list = l; supply = other_blocks s.supply });
  take = λ s. remove_at s.list 0 false >>= λ (item, l). ok (item, record s { list = l });
  remove_all = λ s. clear s.list false >>= λ l. ok (record s { list = l });
  delete_all = λ s. clear s.list true >>= λ l. ok (record s { list = l });
  size = λ s. s.list.size;
  destroy = λ s. destroy_list s.list >>= λ l. ok (record s { list = l });
}

-- No block of the supply is that of a cell, and none comes twice.
abbrev pub Supplied : Cells → List Block → Type 0
Supplied cells [] = Unit
Supplied cells (b ∷ bs) = IsFresh cells b × Supplied (cells ++ new_cell b 0 ∷ []) bs

Supplied-mono :
    (cs ds : Cells) (bs : List Block)
    → ((a : Ptr) → has a cs ≡ false → has a ds ≡ false)
    → Supplied cs bs
    → Supplied ds bs
Supplied-mono cs ds [] less s = tt
Supplied-mono cs ds (b ∷ bs) less s = (
  record { ne_null = s.0.ne_null; unused = less b.ptr s.0.unused },
  Supplied-mono (cs ++ new_cell b 0 ∷ []) (ds ++ new_cell b 0 ∷ []) bs
      (λ a out.
        ground
          (arith, has-append a cs (new_cell b 0 ∷ []), has-append a ds (new_cell b 0 ∷ []), less a))
      s.1,
)

abbrev pub NotNull : Cells → Type 0
NotNull = All (λ (c : Cell). c.item ≢ null)

pub length-items : (cs : Cells) → length (items cs) ≡ length cs
length-items [] = refl
length-items (c ∷ cs) = omega (arith, length-items cs)

-- The list is well formed, not ordered, has the items, and there is memory.
pub record HasItems (s : ListStore) (xs : List ℕ) : Type 0 where
  pub cells : Cells
  pub valid : IsList s.list cells
  pub unordered : s.list.conf.compare ≡ none
  pub given : NotNull cells
  pub items_are : items cells ≡ xs
  pub supplied : Supplied cells s.supply

pub next_block-Answer :
    (cells : Cells) (bs : List Block) → Supplied cells bs → Answer cells (next_block bs)
next_block-Answer cells [] s = inl refl
next_block-Answer cells (b ∷ bs) s = inr s.0

pub other_blocks-Supplied :
    (cells : Cells) (bs : List Block) → Supplied cells bs → Supplied cells (other_blocks bs)
other_blocks-Supplied cells [] s = tt
other_blocks-Supplied cells (b ∷ bs) s =
    Supplied-mono (cells ++ new_cell b 0 ∷ []) cells bs
      (λ a out. ground (arith, has-append a cells (new_cell b 0 ∷ []))) s.1
