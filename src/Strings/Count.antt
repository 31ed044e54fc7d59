-- ===== src/Strings/Count.antt =====
-- Where c_utils_string_count of string/string_manip.c finds a string.
use c_utils.Base.{
  ℕ, ◌+◌, ◌≡◌, ◌≤◌, ◌<◌, Bool, true, false, ◌&&◌, ◌||◌, List, [], ◌∷◌, ltb, leb, ◌==◌, length,
  get_or, drop, All,
}
use c_utils.Strings.{equal}

-- The substring stands at the start of the string: its first byte does, and then all of it, with case
-- or without.
abbrev pub starts : List ℕ → List ℕ → Bool → Bool
starts str substr ignore_case =
    get_or str 0 0 == get_or substr 0 0 && equal str substr (length substr) ignore_case

-- The index lies in one of the places, which are `n` long.
abbrev pub covered : ℕ → ℕ → List ℕ → Bool
covered n i [] = false
covered n i (p ∷ ps) = (leb p i && ltb i (p + n)) || covered n i ps

-- Each place begins behind the ends of those before it.
abbrev pub Apart : ℕ → List ℕ → Type 0
Apart n [] = Unit
Apart n (p ∷ ps) = All (λ q. p + n ≤ q) ps × Apart n ps

-- The places at which the substring was found between two indexes.
pub record Places (str substr : List ℕ) (ignore_case : Bool) (low high found : ℕ) : Type 0 where
  pub places : List ℕ
  pub number : length places ≡ found
  pub each :
      All (λ p. (low ≤ p) × (p < high) × (starts (drop p str) substr ignore_case ≡ true)) places
  pub apart : Apart (length substr) places
  pub complete :
      (i : ℕ)
      → low ≤ i
      → i < high
      → starts (drop i str) substr ignore_case ≡ true
      → covered (length substr) i places ≡ true

module _ (str substr : List ℕ) (ignore_case : Bool) (some_byte : 0 < length substr) (high : ℕ)
    (inside : high ≤ length str) where
  abbrev n : ℕ
  n = length substr

  abbrev Result : ℕ → ℕ → Type 0
  Result = λ low found. Places str substr ignore_case low high found
