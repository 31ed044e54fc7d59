-- ===== src/HashMap/Walk.antt =====
-- The iterator of data_structures/map.c: what it copies, and what a walk over it meets.
use c_utils.Base.{
  Bool, true, ◌&&◌, ℕ, zero, suc, ◌+◌, ◌-◌, ◌≡◌, ◌≢◌, ◌≤◌, ◌<◌, refl, sym, ap, ◌∙◌, false, List, [],
  ◌∷◌, arith, leb, ◌==◌, if◌then◌else◌, length, get_or, drop, All, Bool-cases, inl, inr,
}
use c_utils.HashMap.{
  HashMap, MapConf, Bucket, MapEvent, ref_inc, ref_dec, destruct_key, destruct_value, null,
}
use c_utils.HashMap.Count.{count, IsMap}
use c_utils.HashMap.Clear.{entries, no-entries}
use c_utils.HashMap.Scan.{pairs_of}
use c_utils.HashMap.Iterate.{
  Position, copy_loop, copy_pairs, iterator, next, for_each_pair, map_for_each, key_at, value_at,
  take_refs,
}

-- How many references to an address were taken, and how many given up.
abbrev pub taken : ℕ → List MapEvent → ℕ
taken x [] = 0
taken x (ref_inc y ∷ es) = if x == y then suc (taken x es) else taken x es
taken x (ref_dec y ∷ es) = taken x es
taken x (destruct_key y ∷ es) = taken x es
taken x (destruct_value y ∷ es) = taken x es

abbrev pub dropped : ℕ → List MapEvent → ℕ
dropped x [] = 0
dropped x (ref_inc y ∷ es) = dropped x es
dropped x (ref_dec y ∷ es) = if x == y then suc (dropped x es) else dropped x es
dropped x (destruct_key y ∷ es) = dropped x es
dropped x (destruct_value y ∷ es) = dropped x es

-- The references that the flags ask for, in a list of pairs.
abbrev pub counted : MapConf → ℕ → List (ℕ × ℕ) → ℕ
counted conf x [] = 0
counted conf x ((k, v) ∷ ps) =
    (if conf.rc_key then (if x == k then 1 else 0) else 0)
    + (if conf.rc_value then (if x == v then 1 else 0) else 0)
    + counted conf x ps

copy_loop_lem :
    (conf : MapConf) (bs : List Bucket) (occupied : ℕ) (es : List MapEvent)
    → occupied ≡ count bs
    → ((copy_loop conf bs occupied es).0 ≡ pairs_of (entries bs))
      × ((x : ℕ)
          → taken x (copy_loop conf bs occupied es).1
            ≡ taken x es + counted conf x (pairs_of (entries bs)))
unfolding copy_loop
copy_loop_lem conf [] occupied es e = (refl, λ x. omega arith)
copy_loop_lem conf (b ∷ bs) occupied es e = elim (Bool-cases b.in_use) [
  | inl u ↦
      let n : (occupied == 0) ≡ false = ground arith in
      let (ps, refs) = copy_loop_lem conf bs (occupied - 1) (take_refs conf b es) (ground arith) in
      simp (u, n) (ap (◌∷◌ (b.key, b.value)) ps, λ x. refs x ∙ one_more x)
  | inr f ↦ elim (Bool-cases (occupied == 0)) [
    | inl z ↦
        let nothing = no-entries bs (ground arith) in simp (f, z, nothing) (refl, λ x. omega arith)
    | inr n ↦ simp (f, n) (copy_loop_lem conf bs occupied es (ground arith))
  ]
]
  where
    one_more :
        (x : ℕ)
        → taken x (take_refs conf b es) + counted conf x (pairs_of (entries bs))
          ≡ taken x es + counted conf x ((b.key, b.value) ∷ pairs_of (entries bs))
    one_more x = ground arith

-- One for the map's own address, where the map is counted.
abbrev pub own : MapConf → ℕ → ℕ → ℕ
own conf self x = if conf.rc_instance then (if x == self then 1 else 0) else 0

length-pairs_of : (bs : List Bucket) → length (pairs_of (entries bs)) ≡ count bs
length-pairs_of [] = refl
length-pairs_of (b ∷ bs) = ground (arith, length-pairs_of bs)

-- Neither the key nor the value is NULL, as `c_utils_map_add` demands.
abbrev pub IsGiven : ℕ × ℕ → Type 0
IsGiven (k, v) = (k ≢ null) × (v ≢ null)

drop-get :
    (ps : List (ℕ × ℕ)) (i : ℕ)
    → i < length ps
    → drop i ps ≡ get_or ps i (null, null) ∷ drop (suc i) ps
drop-get [] i h = absurd (omega arith)
drop-get (p ∷ ps) zero h = refl
drop-get (p ∷ ps) (suc i) h = drop-get ps i (omega arith)

drop-all : (ps : List (ℕ × ℕ)) (i : ℕ) → length ps ≤ i → drop i ps ≡ []
drop-all [] zero h = refl
drop-all [] (suc i) h = refl
drop-all (p ∷ ps) zero h = absurd (omega arith)
drop-all (p ∷ ps) (suc i) h = drop-all ps i (omega arith)

IsGiven-at :
    (ps : List (ℕ × ℕ)) (i : ℕ)
    → i < length ps
    → All IsGiven ps
    → IsGiven (get_or ps i (null, null))
IsGiven-at [] i h g = absurd (omega arith)
IsGiven-at (p ∷ ps) zero h g = g.0
IsGiven-at (p ∷ ps) (suc i) h g = IsGiven-at ps i (omega arith) g.1

for_each_pair-drop :
    (k : ℕ) (p : Position)
    → All IsGiven p.pairs
    → length p.pairs ≤ p.index + k
    → for_each_pair k p ≡ drop (suc p.index) p.pairs
unfolding for_each_pair next
for_each_pair-drop zero p given enough = sym (drop-all p.pairs (suc p.index) (omega arith))
for_each_pair-drop (suc k) p given enough =
    let s : p.index + 1 ≡ suc p.index = omega arith in
    elim (Bool-cases (leb (length p.pairs) (p.index + 1))) [
      | inl past ↦ rw past (sym (drop-all p.pairs (suc p.index) (ground arith)))
      | inr more ↦
          let l : suc p.index < length p.pairs = ground arith in
          let g = IsGiven-at p.pairs (suc p.index) l given in
          let v : (value_at p (suc p.index) == null) ≡ false = ground (arith, g.1) in
          let n : (key_at p (suc p.index) == null) ≡ false = ground (arith, g.0) in
          rw (more, s, v, n)
            (ap (◌∷◌ (get_or p.pairs (suc p.index) (null, null)))
                (for_each_pair-drop k (record p { index = suc p.index }) given (omega arith))
              ∙ sym (drop-get p.pairs (suc p.index) l))
    ]

-- The loop of C_UTILS_MAP_FOR_EACH_PAIR over a new iterator of a well-formed map, where no key
-- and no value is NULL, ends after as many rounds as there are entries at most, and meets all of
-- them but the first; where there is no memory for the iterator or its position, it makes no
-- round.
pub for_each_pair_lem :
    (it_ok pos_ok : Bool) (self : ℕ) (m : HashMap) (k : ℕ)
    → IsMap m
    → All IsGiven (pairs_of (entries m.buckets))
    → m.size ≤ k
    → map_for_each k (iterator it_ok pos_ok self m)
      ≡ (if it_ok && pos_ok then drop 1 (pairs_of (entries m.buckets)) else [])
unfolding iterator copy_pairs map_for_each
for_each_pair_lem true true self m k v given enough =
    let (ps, refs) = copy_loop_lem m.conf m.buckets m.size m.events v.counted in
    for_each_pair-drop k (copy_pairs m).0 (rw ps given)
      (omega (arith, ap length ps, length-pairs_of m.buckets, v.counted))
    ∙ (rw ps refl)
for_each_pair_lem true false self m k v given enough = refl
for_each_pair_lem false pos_ok self m k v given enough = refl
