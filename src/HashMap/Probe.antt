-- ===== src/HashMap/Probe.antt =====
-- The two probes of data_structures/map.c.
use c_utils.Base.{
  ℕ, zero, suc, ◌+◌, ◌%◌, ◌<◌, ◌≡◌, ◌≢◌, ◌⊎◌, inl, inr, refl, sym, ap, subst, ◌∙◌, true, false,
  ◌&&◌, none, some, arith, ◌==◌, is_eq, Bool-cases, ==_self,
}
use c_utils.HashMap.{HashMap, at, key_cmp, existing_loop, empty_loop}

-- The buckets that a search for `key` goes past: in use, with the key's hash, and another key.
abbrev pub Passed : HashMap → ℕ → ℕ → ℕ → ℕ → Type 0
Passed m key hash index zero = Unit
Passed m key hash index (suc n) =
    ((at m index).in_use ≡ true)
    × ((at m index).hash ≡ hash)
    × (is_eq (key_cmp m key (at m index).key) ≡ false)
    × Passed m key hash (index + 1) n

-- The buckets that an addition of `key` goes past: in use, with another key, whatever the hash.
abbrev pub Crossed : HashMap → ℕ → ℕ → ℕ → Type 0
Crossed m key index zero = Unit
Crossed m key index (suc n) =
    ((at m index).in_use ≡ true)
    × (is_eq (key_cmp m key (at m index).key) ≡ false)
    × Crossed m key (index + 1) n

pub Passed-Crossed :
    (m : HashMap) (key hash index n : ℕ) → Passed m key hash index n → Crossed m key index n
Passed-Crossed m key hash index zero p = tt
Passed-Crossed m key hash index (suc n) p = (p.0, p.2, Passed-Crossed m key hash (index + 1) n p.3)

-- A bucket that holds the key.
pub record Holds (m : HashMap) (key hash index : ℕ) : Type 0 where
  pub used : (at m index).in_use ≡ true
  pub hashed : (at m index).hash ≡ hash
  pub equal : is_eq (key_cmp m key (at m index).key) ≡ true

module _ (m : HashMap) (key hash : ℕ) where
  shift : (i n : ℕ) → i + suc n ≡ (i + 1) + n
  shift i n = omega arith

  pub existing_loop-hit :
      (k n index : ℕ)
      → n < k
      → Passed m key hash index n
      → Holds m key hash (index + n)
      → existing_loop k m key hash index ≡ some ((index + n) % m.num_buckets)
  unfolding existing_loop
  existing_loop-hit zero n index h p e = absurd (omega arith)
  existing_loop-hit (suc k) zero index h p e =
      let z : index + 0 ≡ index = omega arith in
      let e' = subst (Holds m key hash) z e in
      rw (z, e'.used, e'.hashed, ==_self hash, e'.equal) refl
  existing_loop-hit (suc k) (suc n) index h p e =
      rw (p.0, p.1, ==_self hash, p.2)
        (existing_loop-hit k n (index + 1) (omega arith) p.3
            (subst (Holds m key hash) (shift index n) e)
          ∙ ap (λ i. some (i % m.num_buckets)) (sym (shift index n)))

  -- A bucket that is free, or has another hash, ends the search.
  pub existing_loop-miss :
      (k n index : ℕ)
      → n < k
      → Passed m key hash index n
      → ((at m (index + n)).in_use ≡ false) ⊎ ((at m (index + n)).hash ≢ hash)
      → existing_loop k m key hash index ≡ none
  unfolding existing_loop
  existing_loop-miss zero n index h p e = absurd (omega arith)
  existing_loop-miss (suc k) zero index h p e =
      let z : index + 0 ≡ index = omega arith in
      let e' = subst (λ i. ((at m i).in_use ≡ false) ⊎ ((at m i).hash ≢ hash)) z e in
      let stop : ((at m index).in_use && ((at m index).hash == hash)) ≡ false =
        ground (arith, e') in
      rw stop refl
  existing_loop-miss (suc k) (suc n) index h p e =
      rw (p.0, p.1, ==_self hash, p.2)
        (existing_loop-miss k n (index + 1) (omega arith) p.3
          (subst (λ i. ((at m i).in_use ≡ false) ⊎ ((at m i).hash ≢ hash)) (shift index n) e))

  -- What a successful search went past.
  pub existing_loop-inv :
      (k index i : ℕ)
      → existing_loop k m key hash index ≡ some i
      → (n : ℕ) × (n < k)
        × Passed m key hash index n
        × Holds m key hash (index + n)
        × (i ≡ (index + n) % m.num_buckets)
  unfolding existing_loop
  existing_loop-inv zero index i e = absurd (ground arith)
  existing_loop-inv (suc k) index i e =
      elim (Bool-cases ((at m index).in_use && ((at m index).hash == hash))) [
        | inr stops ↦ absurd (ground (arith, (rw stops at e)))
        | inl goes ↦ elim (Bool-cases (is_eq (key_cmp m key (at m index).key))) [
          | inl eq ↦
              let z : index + 0 ≡ index = omega arith in
              let used : (at m index).in_use ≡ true = ground arith in
              let same : (at m index).hash ≡ hash = ground arith in
              (
                0,
                omega arith,
                tt,
                subst (Holds m key hash) (sym z)
                    (record { used = used; hashed = same; equal = eq }),
                ground (arith, (rw (goes, eq) at e), z),
              )
          | inr ne ↦
              let (n, lt, p, hit, pos) = existing_loop-inv k (index + 1) i (rw (goes, ne) at e) in
              let used : (at m index).in_use ≡ true = ground arith in
              let same : (at m index).hash ≡ hash = ground arith in
              (
                suc n,
                omega arith,
                (used, same, ne, p),
                subst (Holds m key hash) (sym (shift index n)) hit,
                pos ∙ ap (λ j. j % m.num_buckets) (sym (shift index n)),
              )
        ]
      ]

  pub empty_loop-vacant :
      (k n index last : ℕ)
      → n < k
      → Crossed m key index n
      → (at m (index + n)).in_use ≡ false
      → empty_loop k m key index last ≡ some ((index + n) % m.num_buckets)
  unfolding empty_loop
  empty_loop-vacant zero n index last h p e = absurd (omega arith)
  empty_loop-vacant (suc k) zero index last h p e =
      let z : index + 0 ≡ index = omega arith in
      rw (z, subst (λ i. (at m i).in_use ≡ false) z e) refl
  empty_loop-vacant (suc k) (suc n) index last h p e =
      rw (p.0, p.1)
        (empty_loop-vacant k n (index + 1) (index % m.num_buckets) (omega arith) p.2
            (subst (λ i. (at m i).in_use ≡ false) (shift index n) e)
          ∙ ap (λ i. some (i % m.num_buckets)) (sym (shift index n)))

-- A search goes the same way in a map that agrees on the buckets it passes.
pub Passed-frame :
    (m m' : HashMap) (key hash : ℕ)
    → ((k : ℕ) → key_cmp m' key k ≡ key_cmp m key k)
    → ((i : ℕ)
        → (at m i).in_use ≡ true
        → is_eq (key_cmp m key (at m i).key) ≡ false
        → at m' i ≡ at m i)
    → (n index : ℕ) → Passed m key hash index n
    → Passed m' key hash index n
Passed-frame m m' key hash cmp same zero index p = tt
Passed-frame m m' key hash cmp same (suc n) index p =
    let e = same index p.0 p.2 in
    (
      ap (λ b. b.in_use) e ∙ p.0,
      ap (λ b. b.hash) e ∙ p.1,
      ap is_eq (cmp (at m' index).key ∙ ap (λ b. key_cmp m key b.key) e) ∙ p.2,
      Passed-frame m m' key hash cmp same n (index + 1) p.3,
    )
