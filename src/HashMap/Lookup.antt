-- ===== src/HashMap/Lookup.antt =====
-- What the map of data_structures/map.c answers for a key that was added or removed.
use native.Mathlib.Nat.{mod-lt}
use c_utils.Base.{
  ℕ, ◌+◌, ◌%◌, ◌<◌, ◌≡◌, ◌≢◌, inl, inr, refl, sym, ap, ◌∙◌, true, false, ◌&&◌, none, some, arith,
  ◌==◌, if◌then◌else◌, is_eq, length, length-set, get_or, get_or-set, set, Bool-cases, ==_true,
  ==_self, ok, Returns, returns, if-equal, ◌>>=◌,
}
use c_utils.HashMap.{
  HashMap, Bucket, null, blank, at, hash_of, get_key_size, key_cmp, existing_loop,
  get_existing_bucket, empty_loop, get_empty_bucket, update, resize_map, reaches, falls_to, scale,
}
use c_utils.HashMap.Access.{grow, occupy, add, get, shrink}
use c_utils.HashMap.Probe.{
  Passed-Crossed, Passed, Crossed, existing_loop-hit, existing_loop-miss, empty_loop-vacant,
  Passed-frame,
}

-- The array is as long as it is said to be, and has never been resized.
pub record IsSized (m : HashMap) : Type 0 where
  pub full_length : length m.buckets ≡ m.num_buckets
  pub initial : m.num_buckets ≡ m.conf.initial
  pub ne_zero : 0 < m.num_buckets

-- The position where the search for a key begins.
abbrev pub home : HashMap → ℕ → ℕ
home m key = hash_of m key % m.num_buckets

pub resize_map-same : (m : HashMap) (n : ℕ) → m.num_buckets ≡ m.conf.initial → resize_map m n ≡ ok m
unfolding resize_map
resize_map-same m n e =
    if-equal (m.num_buckets == m.conf.initial) (λ _. refl) λ ne. absurd (ground (arith, ne))

pub grow-same : (m : HashMap) → m.num_buckets ≡ m.conf.initial → grow m ≡ ok m
unfolding grow
grow-same m e =
    if-equal (reaches m.conf.growth_trigger m.size m.num_buckets)
      (λ _. resize_map-same m (scale m.conf.growth_ratio m.num_buckets) e) λ _. refl

pub shrink-same : (m : HashMap) → m.num_buckets ≡ m.conf.initial → shrink m ≡ ok m
unfolding shrink
shrink-same m e =
    if-equal (m.conf.shrink_on_trigger && falls_to m.conf.shrink_trigger m.size m.num_buckets)
      (λ _. resize_map-same m (scale m.conf.shrink_ratio m.size) e) λ _. refl

-- Only the answer of `get`, whatever its references.
pub get-hit :
    (m : HashMap) (key i : ℕ)
    → m.size ≢ 0
    → key ≢ null
    → existing_loop m.num_buckets m key (hash_of m key) (home m key) ≡ some i
    → (get m key).0 ≡ (get_or m.buckets i blank).value
unfolding get get_existing_bucket
get-hit m key i size given e =
    let s : (m.size == 0) ≡ false = ground (arith, size) in
    let g : (key == null) ≡ false = ground (arith, given) in rw (s, g, e) refl

pub get-miss :
    (m : HashMap) (key : ℕ)
    → existing_loop m.num_buckets m key (hash_of m key) (home m key) ≡ none
    → (get m key).0 ≡ null
unfolding get get_existing_bucket
get-miss m key e = elim (Bool-cases (m.size == 0)) [
  | inl s ↦ rw s refl
  | inr s ↦ elim (Bool-cases (key == null)) [ inl g ↦ rw (s, g) refl | inr g ↦ rw (s, g, e) refl ]
]

-- The probe of an addition, by what its loop says.
pub probe-full :
    (m : HashMap) (key : ℕ) → m.size ≡ m.num_buckets → get_empty_bucket m key ≡ (none, m)
unfolding get_empty_bucket
probe-full m key e = let f : (m.size == m.num_buckets) ≡ true = ground (arith, e) in rw f refl

module _ (m : HashMap) (key : ℕ) (room : m.size ≢ m.num_buckets) where
  not_full : (m.size == m.num_buckets) ≡ false
  not_full = ground (arith, room)

  pub probe-none :
      empty_loop m.num_buckets m key (home m key) 0 ≡ none → get_empty_bucket m key ≡ (none, m)
  unfolding get_empty_bucket
  probe-none e = rw not_full (rw e refl)

  pub probe-some :
      (i : ℕ)
      → empty_loop m.num_buckets m key (home m key) 0 ≡ some i
      → get_empty_bucket m key
        ≡ (some i, update m i (record (get_or m.buckets i blank) { hash = hash_of m key }))
  unfolding get_empty_bucket
  probe-some i e = rw not_full (rw e refl)

module _ (m : HashMap) (key value : ℕ) (given : key ≢ null) (kept : value ≢ null)
    (m' : HashMap) where
  has_key : (key == null) ≡ false
  has_key = ground (arith, given)

  has_value : (value == null) ≡ false
  has_value = ground (arith, kept)

  pub add-refused : get_empty_bucket m key ≡ (none, m') → add m key value ≡ ok (false, m')
  unfolding add
  add-refused e = rw (has_key, has_value, ap (λ r. r.0) e, ap (λ r. r.1) e) refl

  pub add-stored :
      (i : ℕ)
      → get_empty_bucket m key ≡ (some i, m')
      → m'.num_buckets ≡ m'.conf.initial
      → add m key value ≡ ok (true, occupy m' i key value)
  unfolding add
  add-stored i e same =
      rw (has_key, has_value, ap (λ r. r.0) e, ap (λ r. r.1) e)
        (ap (λ r. r >>= λ m''. ok (true, m'')) (grow-same (occupy m' i key value) same))

-- The bucket as an addition leaves it.
abbrev pub filled : HashMap → ℕ → ℕ → Bucket
filled m key value = record { hash = hash_of m key; key = key; value = value; in_use = true }

module _ (m : HashMap) (key value : ℕ) (sized : IsSized m) where
  -- The map with an entry at a position.
  abbrev pub added : ℕ → HashMap
  added i =
      occupy (update m i (record (get_or m.buckets i blank) { hash = hash_of m key })) i key value

  pub at-added :
      (i j : ℕ)
      → i < m.num_buckets
      → at (added i) j ≡ (if i == j % m.num_buckets then filled m key value else at m j)
  at-added i j lt =
      let b = record (get_or m.buckets i blank) { hash = hash_of m key } in
      let l0 : i < length m.buckets = omega (arith, sized.full_length) in
      let l1 : i < length (set m.buckets i b) = omega (arith, l0, length-set m.buckets i b) in
      let here : get_or (set m.buckets i b) i blank ≡ b =
        get_or-set m.buckets i i b blank l0 ∙ (rw ==_self refl) in
      let entry = λ (w : Bucket). record w { key = key; value = value; in_use = true } in
      get_or-set (set m.buckets i b) i (j % m.num_buckets)
        (entry (get_or (set m.buckets i b) i blank)) blank l1
      ∙ if-equal (i == j % m.num_buckets) (λ e. ap entry here ∙ (rw e refl))
          λ e. get_or-set m.buckets i (j % m.num_buckets) b blank l0 ∙ (rw e refl)

  added-cmp : (i k : ℕ) → key_cmp (added i) key k ≡ key_cmp m key k
  unfolding key_cmp
  added-cmp i k = refl

  added-hash : (i : ℕ) → hash_of (added i) key ≡ hash_of m key
  unfolding hash_of get_key_size
  added-hash i = refl

  module _ (n : ℕ) (given : key ≢ null) (stored : value ≢ null) (room : m.size ≢ m.num_buckets)
      (near : n < m.num_buckets) (crossed : Crossed m key (home m key) n)
      (vacant : (at m (home m key + n)).in_use ≡ false) where
    abbrev pub place : ℕ
    place = (home m key + n) % m.num_buckets

    place-lt : place < m.num_buckets
    place-lt = mod-lt (home m key + n) sized.ne_zero

    pub add_lem : add m key value ≡ ok (true, added place)
    add_lem =
        add-stored m key value given stored
          (update m place (record (get_or m.buckets place blank) { hash = hash_of m key })) place
          (probe-some m key room place (
            empty_loop-vacant m key (hash_of m key) m.num_buckets n (home m key) 0 near crossed
              vacant))
          sized.initial

    -- The buckets in use stay as they are.
    kept : (j : ℕ) → (at m j).in_use ≡ true → at (added place) j ≡ at m j
    kept j used =
        at-added place j place-lt
        ∙ if-equal (place == j % m.num_buckets)
            (λ e.
              absurd
                (ground (arith, used, vacant, ap (λ k. get_or m.buckets k blank) (==_true _ _ e))))
            λ _. refl

    pub added-Passed :
        Passed m key (hash_of m key) (home m key) n
        → Passed (added place) key (hash_of m key) (home m key) n
    added-Passed passed =
        Passed-frame m (added place) key (hash_of m key) (added-cmp place) (λ j u _. kept j u) n
          (home m key) passed

    pub added-place : at (added place) (home m key + n) ≡ filled m key value
    added-place = at-added place (home m key + n) place-lt ∙ (rw ==_self refl)

    added-get :
        Passed m key (hash_of m key) (home m key) n
        → is_eq (key_cmp m key key) ≡ true
        → (get (added place) key).0 ≡ value
    added-get passed same =
        get-hit (added place) key place (omega arith) given (
          rw (added-hash place) (
            existing_loop-hit (added place) key (hash_of m key) m.num_buckets n (home m key) near
              (added-Passed passed)
              (record {
                used = ap (λ b. b.in_use) added-place;
                hashed = ap (λ b. b.hash) added-place;
                equal =
                    ap (λ b. is_eq (key_cmp (added place) key b.key)) added-place
                    ∙ ap is_eq (added-cmp place key)
                    ∙ same;
              })))
        ∙ ap (λ b. b.value) added-place

    -- In a map whose array was never resized and is not full, where a bucket in use with
    -- another hash stands at the home of a key and a free one behind buckets with other keys,
    -- c_utils_map_add of the key with a value, neither NULL, returns true, and
    -- c_utils_map_get of the key then gives NULL.
    pub add_then_lose :
        (at m (home m key)).in_use ≡ true
        → (at m (home m key)).hash ≢ hash_of m key
        → Returns (λ (done, m'). (done ≡ true) × ((get m' key).0 ≡ null)) (add m key value)
    add_then_lose used other =
        let z : home m key + 0 ≡ home m key = omega arith in
        rw add_lem (
          returns (
            refl,
            get-miss (added place) key (
                rw (added-hash place) (
                  existing_loop-miss (added place) key (hash_of m key) m.num_buckets 0 (home m key)
                    sized.ne_zero tt
                    (inr (λ e. other (
                      ap (λ b. b.hash)
                        (sym (kept (home m key) used) ∙ ap (at (added place)) (sym z))
                      ∙ e))))),
          ))

  -- The same, where the probe passes only buckets with the hash of the key.
  module _ (n : ℕ) (given : key ≢ null) (stored : value ≢ null) (room : m.size ≢ m.num_buckets)
      (near : n < m.num_buckets) (passed : Passed m key (hash_of m key) (home m key) n)
      (vacant : (at m (home m key + n)).in_use ≡ false) where
    crossed : Crossed m key (home m key) n
    crossed = Passed-Crossed m key (hash_of m key) (home m key) n passed

    -- In a map whose array was never resized and is not full, where the probe from the home
    -- of a key passes only buckets of the same hash and other keys and then comes to a free
    -- one, c_utils_map_add of a key and a value that are not NULL returns true, counts one
    -- more entry, and c_utils_map_get of the key then gives the value, if the key compares
    -- equal to itself.
    pub add_then_get :
        is_eq (key_cmp m key key) ≡ true
        → Returns
            (λ (done, m'). (done ≡ true) × (m'.size ≡ m.size + 1) × ((get m' key).0 ≡ value))
            (add m key value)
    add_then_get same =
        rw (add_lem n given stored room near crossed vacant)
          (returns (refl, refl, added-get n given stored room near crossed vacant passed same))
