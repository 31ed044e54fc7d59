-- ===== src/Strings/Reverse.antt =====
-- c_utils_string_reverse of string/string_manip.c.
use c_utils.Base.{
  ℕ, zero, suc, ◌+◌, ◌-◌, ◌≡◌, ◌≢◌, ◌≤◌, ◌<◌, refl, sym, ap, ◌∙◌, false, List, [], arith, ltb, leb,
  ◌==◌, if◌then◌else◌, length, length-set, get_or, get_or-set, set, fault, Returns, returns,
  Returns-if, Bool-cases, inl, inr, ==_true, subst,
}
use c_utils.Strings.{reverse_loop, reverse_str}

-- Each index below `n` has the entry that stood as far from the other end.
pub record Reversed (str : List ℕ) (r : List ℕ) : Type 0 where
  pub size : length r ≡ length str
  pub mirror : (k : ℕ) → k < length str → get_or r k 0 ≡ get_or str (length str - 1 - k) 0

-- Before the indexes `i` and `j` meet, what lies outside of them is reversed.
record Partly (str r : List ℕ) (i j : ℕ) : Type 0 where
  size : length r ≡ length str
  close : i ≤ j + 1
  sum : i + j + 1 ≡ length str
  low : (k : ℕ) → k < i → get_or r k 0 ≡ get_or str (length str - 1 - k) 0
  high : (k : ℕ) → j < k → k < length str → get_or r k 0 ≡ get_or str (length str - 1 - k) 0
  inner : (k : ℕ) → i ≤ k → k ≤ j → get_or r k 0 ≡ get_or str k 0

module _ (str : List ℕ) where
  module _ (r : List ℕ) (i j : ℕ) (p : Partly str r i j) (lt : i < j) where
    abbrev exchanged : List ℕ
    exchanged = set (set r i (get_or r j 0)) j (get_or r i 0)

    entry :
        (k : ℕ)
        → get_or exchanged k 0
          ≡ (if j == k then get_or r i 0 else if i == k then get_or r j 0 else get_or r k 0)
    entry k =
        let l1 : i < length r = omega (arith, p.size, p.sum) in
        let l2 : j < length (set r i (get_or r j 0)) =
          omega (arith, p.size, p.sum, length-set r i (get_or r j 0)) in
        get_or-set (set r i (get_or r j 0)) j k (get_or r i 0) 0 l2
        ∙ ap (λ x. if j == k then get_or r i 0 else x) (get_or-set r i k (get_or r j 0) 0 l1)

    at-low : get_or exchanged i 0 ≡ get_or str (length str - 1 - i) 0
    at-low =
        let mirror : length str - 1 - i ≡ j = omega (arith, p.sum) in
        ground (arith, entry i, p.inner j, ap (λ k. get_or str k 0) mirror)

    at-high : get_or exchanged j 0 ≡ get_or str (length str - 1 - j) 0
    at-high =
        let mirror : length str - 1 - j ≡ i = omega (arith, p.sum) in
        ground (arith, entry j, p.inner i, ap (λ k. get_or str k 0) mirror)

    elsewhere : (k : ℕ) → k ≢ i → k ≢ j → get_or exchanged k 0 ≡ get_or r k 0
    elsewhere k a b = ground (arith, entry k)

    swapped : Partly str exchanged (i + 1) (j - 1)
    swapped = record {
      size =
          length-set (set r i (get_or r j 0)) j (get_or r i 0)
          ∙ length-set r i (get_or r j 0)
          ∙ p.size;
      close = omega (arith, lt);
      sum = omega (arith, p.sum);
      low = λ k h. elim (Bool-cases (k == i)) [
        | inl e ↦
            subst (λ x. get_or exchanged x 0 ≡ get_or str (length str - 1 - x) 0)
              (sym (==_true k i e)) at-low
        | inr e ↦ elsewhere k (ground arith) (ground arith) ∙ p.low k (ground arith)
      ];
      high = λ k h h'. elim (Bool-cases (k == j)) [
        | inl e ↦
            subst (λ x. get_or exchanged x 0 ≡ get_or str (length str - 1 - x) 0)
              (sym (==_true k j e)) at-high
        | inr e ↦ elsewhere k (omega arith) (ground arith) ∙ p.high k (ground arith) h'
      ];
      inner =
          λ k h h'. elsewhere k (omega arith) (omega arith) ∙ p.inner k (omega arith) (omega arith);
    }

  met : (r : List ℕ) (i j : ℕ) → Partly str r i j → j ≤ i → Reversed str r
  met r i j p ge = record {
    size = p.size;
    mirror = λ k h. elim (Bool-cases (ltb k i)) [
      | inl a ↦ p.low k (ground arith)
      | inr a ↦ elim (Bool-cases (ltb j k)) [
        | inl b ↦ p.high k (ground arith) h
        | inr b ↦
            let here : length str - 1 - k ≡ k = ground (arith, p.sum) in
            p.inner k (ground arith) (ground arith) ∙ ap (λ x. get_or str x 0) (sym here)
      ]
    ];
  }

  reverse_loop-Reversed :
      (fuel : ℕ) (r : List ℕ) (i j : ℕ)
      → Partly str r i j
      → j + 2 ≤ fuel + i
      → Returns (Reversed str) (reverse_loop fuel r i j)
  unfolding reverse_loop
  reverse_loop-Reversed zero r i j p h = absurd (omega (arith, p.close))
  reverse_loop-Reversed (suc fuel) r i j p h =
      Returns-if (ltb i j)
        (λ lt.
          Returns-if (leb (length r) j) (λ e. absurd (ground (arith, p.size, p.sum)))
            λ _.
              reverse_loop-Reversed fuel _ (i + 1) (j - 1) (swapped r i j p (ground arith))
                (ground arith))
        λ ge. returns (met r i j p (ground arith))

-- c_utils_string_reverse of a whole string that is not empty returns the string with the byte at
-- each index that stood as far from the other end.
pub reverse_str-Reversed :
    (str : List ℕ) → 0 < length str → Returns (Reversed str) (reverse_str str 0)
unfolding reverse_str
reverse_str-Reversed str h =
    let n : (length str == 0) ≡ false = ground arith in
    rw n (
      reverse_loop-Reversed str (length str + 1) str 0 (length str - 1)
        (record {
          size = refl;
          close = omega arith;
          sum = omega arith;
          low = λ k h. absurd (omega arith);
          high = λ k h h'. absurd (omega arith);
          inner = λ k h h'. refl;
        })
        (omega arith))

-- The last index of an empty string wraps around, and the first write is far out of bounds.
pub reverse_str-empty : reverse_str [] 0 ≡ fault
unfolding reverse_str reverse_loop
reverse_str-empty = refl
