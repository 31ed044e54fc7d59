-- ===== src/Base/Tests.antt =====
-- Boolean tests on the native numbers, the conditional, and the sign of a comparator's result.
use Prim.Native.Nat.{ℕ, compare, Ordering}
use mathlib.Core.Path.{◌≡◌, refl}
use mathlib.Core.Logic.{◌⊎◌, inl, inr}
use mathlib.Core.Bool.{Bool, true, false}
use mathlib.Core.Option.{Option, none, some}
use native.Mathlib.Omega.{arith}

abbrev pub ltb : ℕ → ℕ → Bool
ltb a b = elim (compare a b) [ Ordering.lt ↦ true | _ ↦ false ]

abbrev pub leb : ℕ → ℕ → Bool
leb a b = elim (compare a b) [ Ordering.gt ↦ false | _ ↦ true ]

infix 50 ◌==◌
abbrev pub ◌==◌ : ℕ → ℕ → Bool
a == b = elim (compare a b) [ Ordering.eq ↦ true | _ ↦ false ]

infix 1 if◌then◌else◌
abbrev pub if◌then◌else◌ {ℓ} : {A : Type ℓ} → Bool → A → A → A
if true then x else y = x
if false then x else y = y

pub Bool-cases : (b : Bool) → (b ≡ true) ⊎ (b ≡ false)
Bool-cases true = inl refl
Bool-cases false = inr refl

pub Option-cases {ℓ} : {A : Type ℓ} (o : Option A) → (o ≡ none) ⊎ ((a : A) × (o ≡ some a))
Option-cases none = inl refl
Option-cases (some a) = inr (a, refl)

pub some-injective {ℓ} : {A : Type ℓ} {a b : A} → some a ≡ some b → a ≡ b
some-injective h = cc

pub ==_true : (a b : ℕ) → (a == b) ≡ true → a ≡ b
==_true a b h = ground arith

pub ==_self : (a : ℕ) → (a == a) ≡ true
==_self a = ground arith

-- A C comparator's `int`, by its sign.
abbrev pub Comparator : Type 0
Comparator = ℕ → ℕ → Ordering

-- `cmp(a, b) > 0`, `< 0`, `<= 0` and `>= 0`.
abbrev pub is_gt : Ordering → Bool
is_gt o = elim o [ Ordering.gt ↦ true | _ ↦ false ]

abbrev pub is_lt : Ordering → Bool
is_lt o = elim o [ Ordering.lt ↦ true | _ ↦ false ]

abbrev pub is_le : Ordering → Bool
is_le o = elim o [ Ordering.gt ↦ false | _ ↦ true ]

abbrev pub is_ge : Ordering → Bool
is_ge o = elim o [ Ordering.lt ↦ false | _ ↦ true ]

abbrev pub is_eq : Ordering → Bool
is_eq o = elim o [ Ordering.eq ↦ true | _ ↦ false ]

-- The contract of a comparator: it orders the items by some rank.
pub record Ranks (cmp : Comparator) : Type 0 where
  pub rank : ℕ → ℕ
  pub agrees : (a b : ℕ) → cmp a b ≡ compare (rank a) (rank b)

abbrev pub compare-Ranks : Ranks compare
compare-Ranks = record { rank = λ a. a; agrees = λ a b. refl }

module _ {cmp : Comparator} (r : Ranks cmp) (a b : ℕ) where
  pub is_le-rank : is_le (cmp a b) ≡ leb (r.rank a) (r.rank b)
  is_le-rank = rw r.agrees (ground arith)

  pub is_lt-rank : is_lt (cmp a b) ≡ ltb (r.rank a) (r.rank b)
  is_lt-rank = rw r.agrees (ground arith)

  pub is_ge-rank : is_ge (cmp a b) ≡ leb (r.rank b) (r.rank a)
  is_ge-rank = rw r.agrees (ground arith)

-- Both branches lead to the same.
pub if-equal {ℓ} :
    {A : Type ℓ} {x y z : A} (b : Bool)
    → (b ≡ true → x ≡ z)
    → (b ≡ false → y ≡ z)
    → (if b then x else y) ≡ z
if-equal true p q = p refl
if-equal false p q = q refl
