-- ===== src/Strings/Tests.antt =====
-- The theorems on string/string_manip.c at concrete strings.
use c_utils.Base.{
  ℕ, true, some, ok, fault, codes, ◌≡◌, refl, false, none, List, [], ◌∷◌, arith, Returns,
}
use c_utils.Strings.Edit.{trim, count}
use c_utils.Strings.Trim.{Trimmed, trim-Trimmed}
use c_utils.Strings.{contains, index_of, reverse_str}
use c_utils.Strings.Search.{First, is_some, index_of-First, contains-index_of}
use c_utils.Strings.Reverse.{Reversed, reverse_str-Reversed}

-- "abcb"
abbrev word : List ℕ
word = 97 ∷ 98 ∷ 99 ∷ 98 ∷ []

-- "cb" is at the end of "abcb", where the search does not look.
index_of-misses : index_of word (99 ∷ 98 ∷ []) 0 false ≡ none
unfolding index_of
index_of-misses = refl

index_of-First_example : First word (98 ∷ []) 3 0 (index_of word (98 ∷ []) 0 false)
index_of-First_example = index_of-First (98 ∷ []) (omega arith) word (omega arith)

contains-index_of_example :
    contains word (98 ∷ []) 0 false ≡ is_some (index_of word (98 ∷ []) 0 false)
contains-index_of_example = contains-index_of (98 ∷ []) (omega arith) word

reverse_str-Reversed_example : Returns (Reversed word) (reverse_str word 0)
reverse_str-Reversed_example = reverse_str-Reversed word (omega arith)

-- "  ab "
abbrev padded : List ℕ
padded = codes "  ab "

trim-Trimmed_example :
    Returns
      (λ result. (r : List ℕ) × (result ≡ some r) × Trimmed padded r)
      (trim true true padded 0)
trim-Trimmed_example = trim-Trimmed padded (omega arith)

trim-padded : trim true true padded 0 ≡ ok (some (codes "ab"))
unfolding trim
trim-padded = refl

-- The second loop of c_utils_string_trim reads in front of the empty string.
trim_empty : trim true true [] 0 ≡ fault
unfolding trim
trim_empty = refl

-- "ab" in "abcabc" is found twice, and in "cab" not at all.
count_twice : count (codes "abcabc") (codes "ab") 0 false ≡ 2
unfolding count
count_twice = refl

count_misses : count (codes "cab") (codes "ab") 0 false ≡ 0
unfolding count
count_misses = refl
