-- ===== src/HashMap/Count.antt =====
-- The invariant of the map of data_structures/map.c: its size is the number of buckets in use.
use c_utils.Base.{
  ℕ, zero, suc, ◌+◌, ◌%◌, ◌<◌, ◌≤◌, ◌≡◌, inl, inr, refl, sym, ap, ◌∙◌, true, false, Option, none,
  some, List, [], ◌∷◌, arith, if◌then◌else◌, is_eq, length, get_or, set, replicate, Bool-cases,
}
use c_utils.HashMap.{HashMap, Bucket, blank, at, key_cmp, empty_loop}
use c_utils.HashMap.Lookup.{IsSized}

-- The number of buckets in use.
abbrev pub count : List Bucket → ℕ
count [] = 0
count (b ∷ bs) = if b.in_use then suc (count bs) else count bs

pub record IsMap (m : HashMap) : Type 0 where
  pub sized : IsSized m
  pub counted : m.size ≡ count m.buckets

pub count-set_free :
    (bs : List Bucket) (i : ℕ) (b : Bucket)
    → i < length bs
    → (get_or bs i blank).in_use ≡ false
    → b.in_use ≡ true
    → count (set bs i b) ≡ count bs + 1
count-set_free [] i b h f u = absurd (omega arith)
count-set_free (x ∷ bs) zero b h f u = ground arith
count-set_free (x ∷ bs) (suc i) b h f u = ground (arith, count-set_free bs i b (omega arith) f u)

pub count-set_used :
    (bs : List Bucket) (i : ℕ) (b : Bucket)
    → i < length bs
    → (get_or bs i blank).in_use ≡ true
    → b.in_use ≡ false
    → count bs ≡ count (set bs i b) + 1
count-set_used [] i b h f u = absurd (omega arith)
count-set_used (x ∷ bs) zero b h f u = ground arith
count-set_used (x ∷ bs) (suc i) b h f u = ground (arith, count-set_used bs i b (omega arith) f u)

pub count-set_same :
    (bs : List Bucket) (i : ℕ) (b : Bucket)
    → (get_or bs i blank).in_use ≡ false
    → b.in_use ≡ false
    → count (set bs i b) ≡ count bs
count-set_same [] i b f u = refl
count-set_same (x ∷ bs) zero b f u = ground arith
count-set_same (x ∷ bs) (suc i) b f u = ground (arith, count-set_same bs i b f u)

pub count-le : (bs : List Bucket) → count bs ≤ length bs
count-le [] = omega arith
count-le (b ∷ bs) = ground (arith, count-le bs)

pub count-replicate : (n : ℕ) → count (replicate n blank) ≡ 0
count-replicate zero = refl
count-replicate (suc n) = count-replicate n

-- Where not all are in use, one is free.
pub free-bucket :
    (bs : List Bucket)
    → count bs < length bs
    → (i : ℕ) × (i < length bs) × ((get_or bs i blank).in_use ≡ false)
free-bucket [] h = absurd (omega arith)
free-bucket (b ∷ bs) h = elim (Bool-cases b.in_use) [
  | inr f ↦ (0, omega arith, f)
  | inl u ↦ let (i, lt, f) = free-bucket bs (ground arith) in (suc i, omega arith, f)
]

-- What the probe for a free bucket says.
pub data Probed (m : HashMap) (key index : ℕ) (k : ℕ) (r : Option ℕ) : Type 0 where
  duplicate :
      (j : ℕ)
      → j < k
      → (at m (index + j)).in_use ≡ true
      → is_eq (key_cmp m key (at m (index + j)).key) ≡ true
      → r ≡ none
      → Probed m key index k r
  vacant :
      (j : ℕ)
      → j < k
      → (at m (index + j)).in_use ≡ false
      → r ≡ some ((index + j) % m.num_buckets)
      → Probed m key index k r
  exhausted : ((j : ℕ) → j < k → (at m (index + j)).in_use ≡ true) → Probed m key index k r

pub empty_loop-Probed :
    (m : HashMap) (key k index last : ℕ) → Probed m key index k (empty_loop k m key index last)
unfolding empty_loop
empty_loop-Probed m key zero index last = exhausted λ j h. absurd (omega arith)
empty_loop-Probed m key (suc k) index last = elim (Bool-cases (at m index).in_use) [
  | inr f ↦
      vacant 0 (omega arith) (ap (λ i. (at m i).in_use) z ∙ f)
        (rw f (ap (λ i. some (i % m.num_buckets)) (sym z)))
  | inl u ↦ elim (Bool-cases (is_eq (key_cmp m key (at m index).key))) [
    | inl e ↦
        duplicate 0 (omega arith) (ap (λ i. (at m i).in_use) z ∙ u)
          (ap (λ i. is_eq (key_cmp m key (at m i).key)) z ∙ e) (rw (u, e) refl)
    | inr ne ↦ rw (u, ne) (later u (empty_loop-Probed m key k (index + 1) (index % m.num_buckets)))
  ]
]
  where
    z : index + 0 ≡ index
    z = omega arith

    shift : (j : ℕ) → index + suc j ≡ (index + 1) + j
    shift j = omega arith

    later :
        {r : Option ℕ}
        → (at m index).in_use ≡ true
        → Probed m key (index + 1) k r
        → Probed m key index (suc k) r
    later u (duplicate j h a b e) =
        duplicate (suc j) (omega arith) (ap (λ i. (at m i).in_use) (shift j) ∙ a)
          (ap (λ i. is_eq (key_cmp m key (at m i).key)) (shift j) ∙ b) e
    later u (vacant j h f e) =
        vacant (suc j) (omega arith) (ap (λ i. (at m i).in_use) (shift j) ∙ f)
          (e ∙ ap (λ i. some (i % m.num_buckets)) (sym (shift j)))
    later u (exhausted all) = exhausted (each all u)
      where
        each :
            ((j : ℕ) → j < k → (at m ((index + 1) + j)).in_use ≡ true)
            → (at m index).in_use ≡ true
            → (j : ℕ) → j < suc k
            → (at m (index + j)).in_use ≡ true
        each all u zero h = ap (λ i. (at m i).in_use) z ∙ u
        each all u (suc j) h = ap (λ i. (at m i).in_use) (shift j) ∙ all j (omega arith)
