-- ===== src/Strings/Match.antt =====
-- The comparisons of string/string_manip.c, against prefixes and suffixes of lists.
use c_utils.Base.{
  ℕ, zero, suc, ◌+◌, ◌-◌, ◌≡◌, ◌≤◌, ◌<◌, ◌↔◌, refl, sym, ap, ap₂, ◌∙◌, true, false, List, [], ◌∷◌,
  ◌++◌, arith, ltb, ◌==◌, length, length-append, drop, append-nil, Bool-cases, inl, inr, ==_self,
}
use c_utils.Strings.{same_start, len_of, equal, starts_with, ends_with}

pub same_start-prefix : (find rest : List ℕ) → same_start (length find) (find ++ rest) find ≡ true
same_start-prefix [] rest = refl
same_start-prefix (c ∷ find) rest = rw (==_self c) (same_start-prefix find rest)

pub prefix-same_start :
    (str find : List ℕ)
    → same_start (length find) str find ≡ true
    → (rest : List ℕ) × (str ≡ find ++ rest)
prefix-same_start str [] e = (str, refl)
prefix-same_start [] (c ∷ find) e = absurd (ground arith)
prefix-same_start (s ∷ str) (c ∷ find) e =
    let (rest, same) = prefix-same_start str find (ground arith) in
    let first : s ≡ c = ground arith in (rest, ap₂ ◌∷◌ first same)

pub equal-start :
    (str find : List ℕ)
    → equal str find (length find) false ≡ same_start (len_of (length find) str) str find
unfolding equal
equal-start str find = refl

-- c_utils_string_starts_with, with case, returns true just when the string is what it looks for,
-- which is not empty, with something behind it.
pub starts_with_lem :
    (str find : List ℕ)
    → 0 < length find
    → (starts_with str find false ≡ true) ↔ ((rest : List ℕ) × (str ≡ find ++ rest))
unfolding starts_with equal
starts_with_lem str find some_find =
    let l : (length find == 0) ≡ false = ground arith in
    (
      λ e. elim (Bool-cases (ltb (length str) (length find))) [
        | inl s ↦ absurd (ground (arith, (rw s at e)))
        | inr s ↦ prefix-same_start str find (rw (s, l) at e)
      ],
      λ (rest, e).
          let s : ltb (length str) (length find) ≡ false =
            ground (arith, ap length e, length-append find rest) in
          rw (s, l, e) (same_start-prefix find rest),
    )

drop-append : (xs ys : List ℕ) → drop (length xs) (xs ++ ys) ≡ ys
drop-append [] ys = refl
drop-append (x ∷ xs) ys = drop-append xs ys

take-drop :
    (n : ℕ) (xs : List ℕ)
    → n ≤ length xs
    → (front : List ℕ) × (xs ≡ front ++ drop n xs) × (length front ≡ n)
take-drop zero xs h = ([], refl, refl)
take-drop (suc n) [] h = absurd (omega arith)
take-drop (suc n) (x ∷ xs) h =
    let (f, e, l) = take-drop n xs (omega arith) in (x ∷ f, ap (◌∷◌ x) e, ap suc l)

rest-empty : (find rest : List ℕ) → length (find ++ rest) ≡ length find → find ++ rest ≡ find
rest-empty [] [] e = refl
rest-empty [] (r ∷ rest) e = absurd (omega arith)
rest-empty (c ∷ find) rest e = ap (◌∷◌ c) (rest-empty find rest (omega arith))

-- c_utils_string_ends_with, with case, returns true just when the string is what it looks for,
-- which is not empty, with something in front of it.
pub ends_with_lem :
    (str find : List ℕ)
    → 0 < length find
    → (ends_with str find false ≡ true) ↔ ((front : List ℕ) × (str ≡ front ++ find))
unfolding ends_with equal
ends_with_lem str find some_find =
    let l : (length find == 0) ≡ false = ground arith in
    (
      λ e. elim (Bool-cases (ltb (length str) (length find))) [
        | inl s ↦ absurd (ground (arith, (rw s at e)))
        | inr s ↦
            let (rest, same) =
              prefix-same_start (drop (length str - length find) str) find (rw (s, l) at e) in
            let (front, whole, size) = take-drop (length str - length find) str (omega arith) in
            let le : length find ≤ length str = ground arith in
            let total : length str ≡ length front + length (find ++ rest) =
              ap length (whole ∙ ap (◌++◌ front) same) ∙ length-append front (find ++ rest) in
            (
              front,
              whole
                  ∙ ap (◌++◌ front) (same ∙ rest-empty find rest (omega (arith, total, size, le))),
            )
      ],
      λ (front, e).
          let size = ap length e ∙ length-append front find in
          let s : ltb (length str) (length find) ≡ false = ground (arith, size) in
          let n : length str - length find ≡ length front = omega (arith, size) in
          let tail : drop (length str - length find) str ≡ find ++ [] =
            ap (λ k. drop k str) n
            ∙ ap (drop (length front)) e
            ∙ drop-append front find
            ∙ sym (append-nil find) in
          rw (s, l, tail) (same_start-prefix find []),
    )
