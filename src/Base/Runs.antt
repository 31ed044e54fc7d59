-- ===== src/Base/Runs.antt =====
-- How a call ends, and the rules for calls that end well.
use mathlib.Core.Path.{◌≡◌, refl, subst}
use mathlib.Core.Bool.{Bool, true, false}
use c_utils.Base.Tests.{if◌then◌else◌}

-- A returned value, undefined behaviour (an access out of bounds or through a bad pointer), or the
-- model's fuel running out.
pub data Run {ℓ} (A : Type ℓ) : Type ℓ where
  fault out_of_fuel : Run A
  ok : A → Run A

pub ok-injective {ℓ} : {A : Type ℓ} {a b : A} → ok a ≡ ok b → a ≡ b
ok-injective h = cc

-- The call goes on with the value that was returned.
abbrev pub ◌>>=◌ {ℓ κ} : {A : Type ℓ} {B : Type κ} → Run A → (A → Run B) → Run B
fault >>= next = fault
out_of_fuel >>= next = out_of_fuel
ok value >>= next = next value

infixl 5 ◌>>=◌
-- A sequence that returns has returned from its first part.
pub ok-bind {ℓ κ} :
    {A : Type ℓ} {B : Type κ} (run : Run A) (next : A → Run B) {value : B}
    → run >>= next ≡ ok value
    → (a : A) × (run ≡ ok a) × (next a ≡ ok value)
ok-bind fault next e = cc
ok-bind out_of_fuel next e = cc
ok-bind (ok a) next e = (a, refl, e)

-- A guarded run that returns has passed the guard.
pub ok-if {ℓ} :
    {A : Type ℓ} (stuck : Bool) (run : Run A) {value : A}
    → (if stuck then fault else run) ≡ ok value
    → run ≡ ok value
ok-if true run e = cc
ok-if false run e = e

-- The run returns, and the predicate holds of its value.
pub data Returns {ℓ κ} {A : Type ℓ} (Good : A → Type κ) : Run A → Type (ℓ ⊔ κ) where
  returns : {value : A} → Good value → Returns Good (ok value)

module _ {ℓ κ} {A : Type ℓ} {Good : A → Type κ} where
  pub Returns-inv : {run : Run A} → Returns Good run → (value : A) × (run ≡ ok value) × Good value
  Returns-inv (returns good) = (_, refl, good)

  pub Returns-ok : {value : A} {run : Run A} → run ≡ ok value → Returns Good run → Good value
  Returns-ok e (returns good) = subst Good (ok-injective e) good

  pub Returns-if :
      {yes_run no_run : Run A} (test : Bool)
      → (test ≡ true → Returns Good yes_run)
      → (test ≡ false → Returns Good no_run)
      → Returns Good (if test then yes_run else no_run)
  Returns-if false whenever otherwise = otherwise refl
  Returns-if true whenever otherwise = whenever refl

  module _ {μ} {Better : A → Type μ} where
    pub Returns-mono :
        {run : Run A}
        → Returns Good run
        → ((value : A) → Good value → Better value)
        → Returns Better run
    Returns-mono (returns good) improve = returns (improve _ good)

    pub Returns-both :
        {run : Run A}
        → Returns Good run
        → Returns Better run
        → Returns (λ value. Good value × Better value) run
    Returns-both good (returns better) = returns (Returns-ok refl good, better)

  module _ {ℓ' κ'} {B : Type ℓ'} {Next : B → Type κ'} where
    pub Returns-bind :
        {run : Run A} {next : A → Run B}
        → Returns Good run
        → ((value : A) → Good value → Returns Next (next value))
        → Returns Next (run >>= next)
    Returns-bind (returns good) after = after _ good
