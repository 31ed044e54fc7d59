-- ===== src/LinkedList/Retire.antt =====
-- How a removal of data_structures/list.c ends. A node is created with the destructor `free`, which
-- the last release hands an address inside of the block that `malloc` returned.
use c_utils.Base.{
  ◌-◌, ◌≡◌, Bool, true, false, not, ◌&&◌, [], ◌∷◌, ◌==◌, if◌then◌else◌, Run, fault, ◌>>=◌, Returns,
  Returns-bind, refl, ap,
}
use c_utils.Node.{Ptr, Node}
use c_utils.Node.Links.{Cell, Cells}

-- An iterator holds a reference to the node.
abbrev pub held : Cell → Bool
held c = not (c.refs == 0)

abbrev pub all_held : Cells → Bool
all_held [] = true
all_held (c ∷ cs) = held c && all_held cs

-- The node of a cell that was taken out, with the iterators that still hold it.
abbrev pub dead : Cell → Ptr → Ptr → Node
dead c prev next = record {
  next = next;
  prev = prev;
  is_valid = false;
  item = c.item;
  refs = c.refs - 1;
}

-- Where the nodes are held, the run returns and the predicate holds of its value; where one of them is
-- not, the run is undefined.
pub data Removal {ℓ κ} {A : Type ℓ} (is_held : Bool) (Good : A → Type κ) (run : Run A)
    : Type (ℓ ⊔ κ) where
  bad_free : is_held ≡ false → run ≡ fault → Removal is_held Good run
  taken : is_held ≡ true → Returns Good run → Removal is_held Good run

pub Removal-if {ℓ κ} :
    {A : Type ℓ} {Good : A → Type κ} {is_held : Bool} {yes_run no_run : Run A} (test : Bool)
    → (test ≡ true → Removal is_held Good yes_run)
    → (test ≡ false → Removal is_held Good no_run)
    → Removal is_held Good (if test then yes_run else no_run)
Removal-if true whenever otherwise = whenever refl
Removal-if false whenever otherwise = otherwise refl

pub Removal-bind {ℓ κ ℓ' κ'} :
    {A : Type ℓ} {Good : A → Type κ} {B : Type ℓ'} {Better : B → Type κ'} {is_held : Bool}
    {run : Run A} {next : A → Run B}
    → Removal is_held Good run
    → ((value : A) → Good value → Returns Better (next value))
    → Removal is_held Better (run >>= next)
Removal-bind {next} (bad_free h e) go_on = bad_free h (ap (λ r. r >>= next) e)
Removal-bind (taken h r) go_on = taken h (Returns-bind r go_on)
