-- ===== src/Strings/Trim.antt =====
-- c_utils_string_trim of string/string_manip.c takes off the spaces at both ends and nothing else.
use c_utils.Base.{
  ℕ, zero, suc, ◌+◌, ◌-◌, ◌≡◌, ◌≤◌, ◌<◌, refl, ap, ◌∙◌, true, false, ◌&&◌, some, List, [], ◌∷◌,
  arith, ltb, ◌==◌, Bool-cases, inl, inr, length, get_or, take, drop, length-take, get_or-take, ok,
  Returns, returns,
}
use c_utils.Strings.Edit.{isspace, front_loop, back_loop, back, trim}

-- The bytes of `r` are those of the string from `start` on; in front of them and behind them there are
-- only spaces, and neither the first nor the last of them is a space.
pub record Trimmed (str r : List ℕ) : Type 0 where
  pub start : ℕ
  pub fits : start + length r ≤ length str
  pub same : (k : ℕ) → k < length r → get_or r k 0 ≡ get_or str (start + k) 0
  pub before : (k : ℕ) → k < start → isspace (get_or str k 0) ≡ true
  pub after : (k : ℕ) → start + length r ≤ k → k < length str → isspace (get_or str k 0) ≡ true
  pub first : 0 < length r → isspace (get_or str start 0) ≡ false
  pub last : 0 < length r → isspace (get_or str (start + length r - 1) 0) ≡ false

-- Where the first loop ends.
record AtFront (str : List ℕ) (k i i' : ℕ) : Type 0 where
  low : i ≤ i'
  high : i' ≤ i + k
  spaces : (x : ℕ) → i ≤ x → x < i' → isspace (get_or str x 0) ≡ true
  stops : i' < i + k → isspace (get_or str i' 0) ≡ false

front_loop-AtFront : (k : ℕ) (str : List ℕ) (i : ℕ) → AtFront str k i (front_loop k str i)
unfolding front_loop
front_loop-AtFront zero str i = record {
  low = omega arith;
  high = omega arith;
  spaces = λ x a b. absurd (omega arith);
  stops = λ h. absurd (omega arith);
}
front_loop-AtFront (suc k) str i = elim (Bool-cases (isspace (get_or str i 0))) [
  | inl e ↦
      let f = front_loop-AtFront k str (i + 1) in
      rw e (record {
        low = omega (arith, f.low);
        high = omega (arith, f.high);
        spaces = λ x a b. elim (Bool-cases (x == i)) [
          | inl same ↦ let here : x ≡ i = ground arith in rw here e
          | inr other ↦ f.spaces x (ground arith) b
        ];
        stops = λ h. f.stops (omega (arith, h));
      })
  | inr e ↦ rw e (record {
    low = omega arith;
    high = omega arith;
    spaces = λ x a b. absurd (omega arith);
    stops = λ h. e;
  })
]

-- Where the second loop ends, after at most `k` steps back from `j`.
record AtBack (str : List ℕ) (k j j' : ℕ) : Type 0 where
  low : j ≤ j' + k
  high : j' ≤ j
  spaces : (x : ℕ) → j' < x → x ≤ j → isspace (get_or str x 0) ≡ true
  stops : j < j' + k → isspace (get_or str j' 0) ≡ false

back_loop-AtBack : (k : ℕ) (str : List ℕ) (j : ℕ) → k ≤ j → AtBack str k j (back_loop k str j)
unfolding back_loop
back_loop-AtBack zero str j h = record {
  low = omega arith;
  high = omega arith;
  spaces = λ x a b. absurd (omega arith);
  stops = λ l. absurd (omega arith);
}
back_loop-AtBack (suc k) str j h = elim (Bool-cases (isspace (get_or str j 0))) [
  | inl e ↦
      let f = back_loop-AtBack k str (j - 1) (omega arith) in
      rw e (record {
        low = omega (arith, f.low);
        high = omega (arith, f.high);
        spaces = λ x a b. elim (Bool-cases (x == j)) [
          | inl same ↦ let here : x ≡ j = ground arith in rw here e
          | inr other ↦ f.spaces x a (ground arith)
        ];
        stops = λ l. f.stops (omega (arith, l));
      })
  | inr e ↦ rw e (record {
    low = omega arith;
    high = omega arith;
    spaces = λ x a b. absurd (omega arith);
    stops = λ l. e;
  })
]

get_or-drop : (n : ℕ) (xs : List ℕ) (k : ℕ) → get_or (drop n xs) k 0 ≡ get_or xs (n + k) 0
get_or-drop zero xs k = let same : k ≡ 0 + k = omega arith in ap (λ x. get_or xs x 0) same
get_or-drop (suc n) [] k = refl
get_or-drop (suc n) (x ∷ xs) k =
    let next : suc (n + k) ≡ suc n + k = omega arith in
    get_or-drop n xs k ∙ ap (λ i. get_or (x ∷ xs) i 0) next

length-drop : (n : ℕ) (xs : List ℕ) → length (drop n xs) ≡ length xs - n
length-drop zero xs = omega arith
length-drop (suc n) [] = omega arith
length-drop (suc n) (x ∷ xs) = omega (arith, length-drop n xs)

-- The bytes between the two places.
between-Trimmed :
    (str : List ℕ) (i j : ℕ)
    → 0 < length str
    → AtFront str (length str) 0 i
    → AtBack str (length str - 1 - i) (length str - 1) j
    → Trimmed str (take (j + 1 - i) (drop i str))
between-Trimmed str i j some_byte f b =
    let r = take (j + 1 - i) (drop i str) in
    let size : length r ≡ j + 1 - i =
      omega (
        arith,
        length-take (j + 1 - i) (drop i str),
        length-drop i str,
        f.high,
        b.high,
        some_byte,
      ) in
    record {
      start = i;
      fits = omega (arith, size, f.high, b.high, some_byte);
      same = λ k h.
          get_or-take (j + 1 - i) (drop i str) k 0 (omega (arith, size, h)) ∙ get_or-drop i str k;
      before = λ k h. f.spaces k (omega arith) h;
      after = λ k h h'. b.spaces k (omega (arith, size, h, h', b.low, f.high)) (omega (arith, h'));
      first = λ h. f.stops (omega (arith, size, h, b.high));
      last = λ h.
          let end : i + length r - 1 ≡ j = omega (arith, size, h) in
          rw end (elim (Bool-cases (ltb i j)) [
            | inl later ↦ b.stops (ground (arith, size, h, b.high, later))
            | inr one ↦
                let here : j ≡ i = ground (arith, size, h, one) in
                rw here (f.stops (omega (arith, size, h, b.high)))
          ]);
    }

back-ok : (str : List ℕ) (i j : ℕ) → j ≤ length str → back str i j ≡ ok (back_loop (j - i) str j)
unfolding back
back-ok str i j h =
    let inside : (ltb i j && ltb (length str) j) ≡ false = ground (arith, h) in
    rw (inside, back) refl

-- c_utils_string_trim of a whole string that is not empty, where there is memory, returns the
-- bytes of the string from some index on, such that in front of them and behind them there are
-- only spaces, and neither the first nor the last of them is one.
pub trim-Trimmed :
    (str : List ℕ)
    → 0 < length str
    → Returns (λ result. (r : List ℕ) × (result ≡ some r) × Trimmed str r) (trim true true str 0)
unfolding trim
trim-Trimmed str some_byte =
    let n = length str in
    let i = front_loop n str 0 in
    let some_len : (n == 0) ≡ false = ground (arith, some_byte) in
    let f = front_loop-AtFront n str 0 in
    let b = back_loop-AtBack (n - 1 - i) str (n - 1) (omega arith) in
    rw (some_len, back-ok str i (n - 1) (omega arith))
      (returns (_, refl, between-Trimmed str i _ some_byte f b))
