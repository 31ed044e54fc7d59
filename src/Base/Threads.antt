-- ===== src/Base/Threads.antt =====
-- Threads by their number: counts over where they stand, and a mutex that one of them holds.
use Prim.Native.Nat.{ℕ, zero, suc, ◌+◌, ◌≤◌}
use mathlib.Core.Path.{◌≡◌, refl, sym, ap, ◌∙◌}
use mathlib.Core.Logic.{◌≢◌, ◌⊎◌, inl, inr}
use mathlib.Core.Bool.{Bool, true, false}
use mathlib.Core.Option.{Option, none, some}
use mathlib.Core.List.{List, [], ◌∷◌}
use native.Mathlib.Omega.{arith}
use c_utils.Base.Lists.{get_elem?, set, replicate}

some-injective {ℓ} : {A : Type ℓ} {a b : A} → some a ≡ some b → a ≡ b
some-injective h = cc

eq-or-ne : (i j : ℕ) → (i ≡ j) ⊎ (i ≢ j)
eq-or-ne zero zero = inl refl
eq-or-ne zero (suc j) = inr (omega arith)
eq-or-ne (suc i) zero = inr (omega arith)
eq-or-ne (suc i) (suc j) = elim (eq-or-ne i j) [
  | inl e ↦ inl (ap suc e)
  | inr ne ↦ inr (omega (arith))
]

module _ {L : Type 0} where
  -- Where the threads stand after one of them has moved.
  pub at-set :
      (ls : List L) (i j : ℕ) (l l' k : L)
      → get_elem? ls i ≡ some l
      → get_elem? (set ls i l') j ≡ some k
      → ((j ≡ i) × (k ≡ l')) ⊎ ((j ≢ i) × (get_elem? ls j ≡ some k))
  at-set [] i j l l' k here h = absurd (ground arith)
  at-set (x ∷ ls) zero zero l l' k here h = inl (refl, sym (some-injective h))
  at-set (x ∷ ls) zero (suc j) l l' k here h = inr (omega arith, h)
  at-set (x ∷ ls) (suc i) zero l l' k here h = inr (omega arith, h)
  at-set (x ∷ ls) (suc i) (suc j) l l' k here h = elim (at-set ls i j l l' k here h) [
    | inl (e, q) ↦ inl (ap suc e, q)
    | inr (ne, q) ↦ inr (omega arith, q)
  ]

  -- What was written is read back.
  pub get_elem?-set_self :
      (ls : List L) (i : ℕ) (l l' : L)
      → get_elem? ls i ≡ some l
      → get_elem? (set ls i l') i ≡ some l'
  get_elem?-set_self [] i l l' here = absurd (ground arith)
  get_elem?-set_self (x ∷ ls) zero l l' here = refl
  get_elem?-set_self (x ∷ ls) (suc i) l l' here = get_elem?-set_self ls i l l' here

  get_elem?-set_ne :
      (ls : List L) (i j : ℕ) (l' : L) → i ≢ j → get_elem? (set ls i l') j ≡ get_elem? ls j
  get_elem?-set_ne [] i j l' ne = refl
  get_elem?-set_ne (x ∷ ls) zero zero l' ne = absurd (ne refl)
  get_elem?-set_ne (x ∷ ls) zero (suc j) l' ne = refl
  get_elem?-set_ne (x ∷ ls) (suc i) zero l' ne = refl
  get_elem?-set_ne (x ∷ ls) (suc i) (suc j) l' ne = get_elem?-set_ne ls i j l' λ e. ne (ap suc e)

  pub replicate-only : (n i : ℕ) (l k : L) → get_elem? (replicate n l) i ≡ some k → k ≡ l
  replicate-only zero i l k h = absurd (ground arith)
  replicate-only (suc n) zero l k h = sym (some-injective h)
  replicate-only (suc n) (suc i) l k h = replicate-only n i l k h

  module _ (weight : L → ℕ) where
    abbrev pub total : List L → ℕ
    total [] = 0
    total (l ∷ ls) = weight l + total ls

    pub total-set :
        (ls : List L) (i : ℕ) (l l' : L)
        → get_elem? ls i ≡ some l
        → total (set ls i l') + weight l ≡ total ls + weight l'
    total-set [] i l l' h = absurd (ground arith)
    total-set (x ∷ ls) zero l l' h = omega (arith, ap weight (some-injective h))
    total-set (x ∷ ls) (suc i) l l' h = omega (arith, total-set ls i l l' h)

    pub weight-le-total :
        (ls : List L) (i : ℕ) (l : L) → get_elem? ls i ≡ some l → weight l ≤ total ls
    weight-le-total [] i l h = absurd (ground arith)
    weight-le-total (x ∷ ls) zero l h = omega (arith, ap weight (some-injective h))
    weight-le-total (x ∷ ls) (suc i) l h = omega (arith, weight-le-total ls i l h)

    pub total-replicate : (n : ℕ) (l : L) → weight l ≡ 0 → total (replicate n l) ≡ 0
    total-replicate zero l h = refl
    total-replicate (suc n) l h = omega (arith, total-replicate n l h)

  module _ (holds : L → Bool) where
    -- A thread that stands where the mutex is held is its owner.
    abbrev pub Mutex : Option ℕ → List L → Type 0
    Mutex owner ls = (i : ℕ) (l : L) → get_elem? ls i ≡ some l → holds l ≡ true → owner ≡ some i

    pub Mutex-exclusive :
        (owner : Option ℕ) (ls : List L)
        → Mutex owner ls
        → (i j : ℕ) (l k : L) → get_elem? ls i ≡ some l
        → get_elem? ls j ≡ some k
        → holds l ≡ true
        → holds k ≡ true
        → i ≡ j
    Mutex-exclusive owner ls m i j l k at_i at_j hi hj =
        some-injective (sym (m i l at_i hi) ∙ m j k at_j hj)

    pub Mutex-replicate :
        (owner : Option ℕ) (n : ℕ) (l : L) → holds l ≡ false → Mutex owner (replicate n l)
    Mutex-replicate owner n l idle i k at_i h =
        absurd (ground (arith, ap holds (replicate-only n i l k at_i)))

    -- The owner stands where the mutex is held.
    abbrev pub Owned : Option ℕ → List L → Type 0
    Owned owner ls =
        (i : ℕ) → owner ≡ some i → (l : L) × (get_elem? ls i ≡ some l) × (holds l ≡ true)

    pub Owned-keep :
        (owner : Option ℕ) (ls : List L) (i : ℕ) (l l' : L)
        → get_elem? ls i ≡ some l
        → holds l' ≡ holds l
        → Owned owner ls
        → Owned owner (set ls i l')
    Owned-keep owner ls i l l' here same o j e =
        let (k, at_j, h) = o j e in
        elim (eq-or-ne i j) [
          | inl q ↦
              let both : l ≡ k = some-injective (sym here ∙ ap (get_elem? ls) q ∙ at_j) in
              (
                l',
                ap (get_elem? (set ls i l')) (sym q) ∙ get_elem?-set_self ls i l l' here,
                same ∙ ap holds both ∙ h,
              )
          | inr ne ↦ (k, get_elem?-set_ne ls i j l' ne ∙ at_j, h)
        ]

    pub Owned-acquire :
        (ls : List L) (i : ℕ) (l l' : L)
        → get_elem? ls i ≡ some l
        → holds l' ≡ true
        → Owned (some i) (set ls i l')
    Owned-acquire ls i l l' here h j e = (
      l',
      ap (get_elem? (set ls i l')) (sym (some-injective e)) ∙ get_elem?-set_self ls i l l' here,
      h,
    )

    pub Owned-none : (ls : List L) → Owned none ls
    Owned-none ls i e = absurd (cc)

    module _ (owner : Option ℕ) (ls : List L) (m : Mutex owner ls) (i : ℕ) (l l' : L)
        (here : get_elem? ls i ≡ some l) where
      -- The thread moves and holds the mutex as before.
      pub Mutex-keep : holds l' ≡ holds l → Mutex owner (set ls i l')
      Mutex-keep same j k at_j h = elim (at-set ls i j l l' k here at_j) [
        | inl (q, r) ↦ m i l here (sym same ∙ ap holds (sym r) ∙ h) ∙ ap some (sym q)
        | inr (ne, q) ↦ m j k q h
      ]

      pub Mutex-acquire : owner ≡ none → Mutex (some i) (set ls i l')
      Mutex-acquire free j k at_j h = elim (at-set ls i j l l' k here at_j) [
        | inl (q, r) ↦ ap some (sym q)
        | inr (ne, q) ↦ absurd (ground (arith, m j k q h))
      ]

      pub Mutex-release : holds l ≡ true → holds l' ≡ false → Mutex none (set ls i l')
      Mutex-release held freed j k at_j h = elim (at-set ls i j l l' k here at_j) [
        | inl (q, r) ↦ absurd (ground (arith, ap holds r))
        | inr (ne, q) ↦ absurd (ne (Mutex-exclusive owner ls m j i k l q here h held))
      ]
