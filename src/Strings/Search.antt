-- ===== src/Strings/Search.antt =====
-- The searches of string/string_manip.c.
use c_utils.Base.{
  ℕ, zero, suc, ◌+◌, ◌-◌, ◌≡◌, ◌≢◌, ◌<◌, refl, subst, Bool, true, false, ◌&&◌, Option, none, some,
  List, [], ◌∷◌, arith, ltb, ◌==◌, length, get_or, drop, Bool-cases, inl, inr,
}
use c_utils.Strings.{same_start, equal, contains_loop, contains, first_test, index_loop, index_of}

-- `sub` stands in `str` at an index.
abbrev pub match_at : List ℕ → List ℕ → ℕ → Bool
match_at str sub i = same_start (length sub) (drop i str) sub

abbrev pub is_some : Option ℕ → Bool
is_some none = false
is_some (some i) = true

-- What a search over the first `k` indexes should find, counted from `base`.
pub data First (str sub : List ℕ) (k base : ℕ) : Option ℕ → Type 0 where
  nowhere : ((j : ℕ) → j < k → match_at str sub j ≡ false) → First str sub k base none
  first :
      (i : ℕ)
      → i < k
      → match_at str sub i ≡ true
      → ((j : ℕ) → j < i → match_at str sub j ≡ false)
      → First str sub k base (some (base + i))

-- The substring is not empty and has no zero byte at its beginning.
abbrev pub Wanted : List ℕ → Type 0
Wanted [] = ⊥
Wanted (s ∷ sub) = s ≢ 0

module _ (sub : List ℕ) (wanted : Wanted sub) where
  first_test-true : (c : ℕ) → first_test c sub false ≡ true
  first_test-true c = at_first sub wanted
    where
      at_first : (sub : List ℕ) → Wanted sub → first_test c sub false ≡ true
      at_first [] w = absurd w
      at_first (s ∷ sub) w = ground arith

  wanted-length : 0 < length sub
  wanted-length = at_first sub wanted
    where
      at_first : (sub : List ℕ) → Wanted sub → 0 < length sub
      at_first [] w = absurd w
      at_first (s ∷ sub) w = omega arith

  equal-match : (str : List ℕ) → equal str sub (length sub) false ≡ same_start (length sub) str sub
  unfolding equal
  equal-match str = let l : (length sub == 0) ≡ false = ground (arith, wanted-length) in rw l refl

  no-match-nil : (j : ℕ) → match_at [] sub j ≡ false
  no-match-nil j = at_first sub wanted j
    where
      at_first : (sub : List ℕ) → Wanted sub → (j : ℕ) → match_at [] sub j ≡ false
      at_first [] w j = absurd w
      at_first (s ∷ sub) w zero = refl
      at_first (s ∷ sub) w (suc j) = refl

  First-later :
      (c : ℕ) (cs : List ℕ) (k base : ℕ) (r : Option ℕ)
      → match_at (c ∷ cs) sub 0 ≡ false
      → First cs sub k (base + 1) r
      → First (c ∷ cs) sub (suc k) base r
  First-later c cs k base r miss (nowhere all) = nowhere (each all)
    where
      each :
          ((j : ℕ) → j < k → match_at cs sub j ≡ false)
          → (j : ℕ) → j < suc k
          → match_at (c ∷ cs) sub j ≡ false
      each all zero h = miss
      each all (suc j) h = all j (omega arith)
  First-later c cs k base r miss (first i lt hit all) =
      subst (λ n. First (c ∷ cs) sub (suc k) base (some n)) (omega arith)
        (first (suc i) (omega arith) hit (each all))
    where
      each :
          ((j : ℕ) → j < i → match_at cs sub j ≡ false)
          → (j : ℕ) → j < suc i
          → match_at (c ∷ cs) sub j ≡ false
      each all zero h = miss
      each all (suc j) h = all j (omega arith)

  index_loop-First :
      (k base : ℕ) (str : List ℕ) → First str sub k base (index_loop k base str sub false)
  unfolding index_loop
  index_loop-First zero base str = nowhere λ j h. absurd (omega arith)
  index_loop-First (suc k) base [] = nowhere λ j h. no-match-nil j
  index_loop-First (suc k) base (c ∷ cs) =
      elim (Bool-cases (same_start (length sub) (c ∷ cs) sub)) [
        | inl yes_here ↦
            rw (first_test-true c, equal-match (c ∷ cs), yes_here)
              (subst (λ n. First (c ∷ cs) sub (suc k) base (some n)) (omega arith)
                (first 0 (omega arith) yes_here λ j h. absurd (omega arith)))
        | inr not_here ↦
            rw (first_test-true c, equal-match (c ∷ cs), not_here)
              (First-later c cs k base _ not_here (index_loop-First k (base + 1) cs))
      ]

  -- c_utils_string_index_of, with case, of a substring that is shorter than the whole string
  -- and not empty returns the first index below the difference of the lengths at which the
  -- substring stands, and -1 where there is none below it.
  pub index_of-First :
      (str : List ℕ)
      → length sub < length str
      → First str sub (length str - length sub) 0 (index_of str sub 0 false)
  unfolding index_of
  index_of-First str lt =
      let short : ltb (length str) (length sub) ≡ false = ground arith in
      let ne : (length sub == length str) ≡ false = ground arith in
      rw (short, ne) (index_loop-First (length str - length sub) 0 str)

  head-match :
      (c : ℕ) (cs : List ℕ)
      → same_start (length sub) (c ∷ cs) sub ≡ true
      → (c == get_or sub 0 0) ≡ true
  head-match c cs e = at_first sub wanted e
    where
      at_first :
          (sub : List ℕ)
          → Wanted sub
          → same_start (length sub) (c ∷ cs) sub ≡ true
          → (c == get_or sub 0 0) ≡ true
      at_first [] w e = absurd w
      at_first (s ∷ sub) w e = ground arith

  contains_loop-index :
      (k base : ℕ) (str : List ℕ)
      → contains_loop k str sub false ≡ is_some (index_loop k base str sub false)
  unfolding contains_loop index_loop
  contains_loop-index zero base str = refl
  contains_loop-index (suc k) base [] = refl
  contains_loop-index (suc k) base (c ∷ cs) =
      elim (Bool-cases (same_start (length sub) (c ∷ cs) sub)) [
        | inl yes_here ↦
            rw (first_test-true c, equal-match (c ∷ cs), yes_here, head-match c cs yes_here) refl
        | inr not_here ↦
            let never : ((c == get_or sub 0 0) && same_start (length sub) (c ∷ cs) sub) ≡ false =
              ground (arith, not_here) in
            rw (first_test-true c, equal-match (c ∷ cs), never, not_here)
              (contains_loop-index k (base + 1) cs)
      ]

  -- c_utils_string_contains and c_utils_string_index_of, with case, agree on whether a
  -- substring that is not empty is found.
  pub contains-index_of :
      (str : List ℕ) → contains str sub 0 false ≡ is_some (index_of str sub 0 false)
  unfolding contains index_of
  contains-index_of str = elim (Bool-cases (ltb (length str) (length sub))) [
    | inl s ↦ rw s refl
    | inr s ↦ elim (Bool-cases (length sub == length str)) [
      | inl e ↦ elim (Bool-cases (equal str sub 0 false)) [
        | inl q ↦ rw (s, e, q) refl
        | inr q ↦ rw (s, e, q) refl
      ]
      | inr e ↦ rw (s, e) (contains_loop-index (length str - length sub) 0 str)
    ]
  ]
