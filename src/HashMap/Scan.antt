-- ===== src/HashMap/Scan.antt =====
-- The functions of data_structures/map.c that go through all entries.
use c_utils.Base.{
  ℕ, ◌-◌, ◌≡◌, ◌≢◌, refl, sym, ◌∙◌, false, List, [], ◌∷◌, arith, ◌==◌, if◌then◌else◌, is_eq, length,
  Bool-cases, inl, inr, ==_true,
}
use c_utils.HashMap.{HashMap, Bucket, null, value_cmp}
use c_utils.HashMap.Bulk.{search_loop, value_to_key, contains, pairs, for_each}
use c_utils.HashMap.Count.{count, IsMap}
use c_utils.HashMap.Clear.{entries, no-entries}

-- The key of the first entry with the value.
abbrev pub first_key : HashMap → ℕ → List Bucket → ℕ
first_key m value [] = null
first_key m value (b ∷ bs) =
    if is_eq (value_cmp m value b.value) then b.key else first_key m value bs

search_loop_lem :
    (m : HashMap) (value : ℕ) (bs : List Bucket) (search : ℕ)
    → search ≡ count bs
    → search_loop m value bs search ≡ first_key m value (entries bs)
unfolding search_loop
search_loop_lem m value [] search e = refl
search_loop_lem m value (b ∷ bs) search e = elim (Bool-cases b.in_use) [
  | inl u ↦
      let n : (search == 0) ≡ false = ground arith in
      rw (u, n, search_loop_lem m value bs (search - 1) (ground arith)) refl
  | inr f ↦ elim (Bool-cases (search == 0)) [
    | inl z ↦ rw (f, z, no-entries bs (ground arith)) refl
    | inr n ↦ rw (f, n) (search_loop_lem m value bs search (ground arith))
  ]
]

-- c_utils_map_contains on a well-formed map and a value that is not NULL gives the key of the
-- first entry with the value, or NULL where there is none, although its loop stops after as many
-- entries as the map counts.
pub contains-first_key :
    (m : HashMap) (value : ℕ)
    → IsMap m
    → value ≢ null
    → (contains m value).0 ≡ first_key m value (entries m.buckets)
unfolding contains value_to_key
contains-first_key m value v given =
    let g : (value == null) ≡ false = ground (arith, given) in
    let all = search_loop_lem m value m.buckets m.size v.counted in
    elim (Bool-cases (m.size == 0)) [
      | inl e ↦ rw (e, no-entries m.buckets (sym v.counted ∙ ==_true m.size 0 e)) refl
      | inr e ↦ elim (Bool-cases (search_loop m value m.buckets m.size == null)) [
        | inl k ↦ rw (e, g, k) (sym (==_true _ null k) ∙ all)
        | inr k ↦ rw (e, g, k) all
      ]
    ]

abbrev pub pair_of : Bucket → ℕ × ℕ
pair_of b = (b.key, b.value)

abbrev pub pairs_of : List Bucket → List (ℕ × ℕ)
pairs_of [] = []
pairs_of (b ∷ bs) = pair_of b ∷ pairs_of bs

pairs-entries : (bs : List Bucket) → pairs bs ≡ pairs_of (entries bs)
unfolding pairs
pairs-entries [] = refl
pairs-entries (b ∷ bs) = elim (Bool-cases b.in_use) [
  | inl u ↦ rw (u, pairs-entries bs) refl
  | inr f ↦ rw (f, pairs-entries bs) refl
]

length-pairs : (bs : List Bucket) → length (pairs bs) ≡ count bs
unfolding pairs
length-pairs [] = refl
length-pairs (b ∷ bs) = ground (arith, length-pairs bs)

-- c_utils_map_for_each on a well-formed map hands each entry to its callback once, in the order
-- of the buckets: as many as the size of the map.
pub for_each_lem :
    (m : HashMap)
    → IsMap m
    → ((for_each m).1 ≡ pairs_of (entries m.buckets)) × (length (for_each m).1 ≡ m.size)
unfolding for_each
for_each_lem m v = elim (Bool-cases (m.size == 0)) [
  | inl e ↦
      let z = ==_true m.size 0 e in rw (e, no-entries m.buckets (sym v.counted ∙ z)) (refl, sym z)
  | inr e ↦ rw e (pairs-entries m.buckets, length-pairs m.buckets ∙ sym v.counted)
]
