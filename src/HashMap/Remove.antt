-- ===== src/HashMap/Remove.antt =====
-- c_utils_map_remove of data_structures/map.c.
use native.Mathlib.Nat.{mod-lt}
use c_utils.Base.{
  ℕ, ◌+◌, ◌%◌, ◌<◌, ◌≡◌, ◌≢◌, inl, inr, refl, sym, ap, ◌∙◌, true, false, some, List, arith, ◌==◌,
  if◌then◌else◌, is_eq, length, length-set, get_or, ==_true, Returns, returns, get_or-set, if-equal,
  Bool-cases,
}
use c_utils.HashMap.{
  HashMap, null, blank, at, hash_of, get_key_size, key_cmp, existing_loop, get_existing_bucket,
  MapEvent, ref_dec,
}
use c_utils.HashMap.Access.{release, remove, get, note, delete, give_deleted}
use c_utils.HashMap.Probe.{existing_loop-inv, existing_loop-miss, Passed-frame}
use c_utils.HashMap.Lookup.{home, shrink-same, get-miss}
use c_utils.HashMap.Count.{IsMap, count-set_used}

-- What marking the bucket of a key does.
pub record Released (m : HashMap) (key : ℕ) (m' : HashMap) : Type 0 where
  pub valid : IsMap m'
  pub size : m.size ≡ m'.size + 1
  pub gone : (get m' key).0 ≡ null

module _ (m : HashMap) (key i : ℕ) (v : IsMap m) (given : key ≢ null)
    (found : get_existing_bucket m key ≡ some i) where
  nonempty : (m.size == 0) ≡ false
  unfolding get_existing_bucket
  nonempty = elim (Bool-cases (m.size == 0)) [
    | inl e ↦ absurd (ground (arith, (rw e at found)))
    | inr e ↦ e
  ]

  looked : existing_loop m.num_buckets m key (hash_of m key) (home m key) ≡ some i
  unfolding get_existing_bucket
  looked = rw nonempty at found

  module _ (events : List MapEvent) where
    abbrev pub after : HashMap
    unfolding release
    after = release (record m { events = events }) i

    after-hash : hash_of after key ≡ hash_of m key
    unfolding hash_of get_key_size release
    after-hash = refl

    after-cmp : (k : ℕ) → key_cmp after key k ≡ key_cmp m key k
    unfolding key_cmp release
    after-cmp k = refl

    after-Released : Released m key after
    unfolding release
    after-Released =
        let (n, lt, passed, hit, pos) =
          existing_loop-inv m key (hash_of m key) m.num_buckets (home m key) i looked in
        let l : i < m.num_buckets = rw pos (mod-lt (home m key + n) v.sized.ne_zero) in
        let l0 : i < length m.buckets = omega (arith, l, v.sized.full_length) in
        let b = record (get_or m.buckets i blank) { in_use = false } in
        let used : (get_or m.buckets i blank).in_use ≡ true =
          ap (λ k. (get_or m.buckets k blank).in_use) pos ∙ hit.used in
        let fewer = count-set_used m.buckets i b l0 used refl in
        let if-here : (if i == (home m key + n) % m.num_buckets then b else at m (home m key + n))
            ≡ b =
          if-equal (i == (home m key + n) % m.num_buckets) (λ _. refl)
            (λ ne. absurd (ground (arith, ne, pos))) in
        let cell = λ (j : ℕ). get_or-set m.buckets i (j % m.num_buckets) b blank l0 in
        record {
          valid = record {
            sized = record {
              full_length = length-set m.buckets i b ∙ v.sized.full_length;
              initial = v.sized.initial;
              ne_zero = v.sized.ne_zero;
            };
            counted = omega (arith, fewer, v.counted);
          };
          size = omega (arith, fewer, v.counted);
          gone = get-miss after key (
              rw after-hash (
                existing_loop-miss after key (hash_of m key) m.num_buckets n (home m key) lt
                  (Passed-frame m after key (hash_of m key) (λ k. after-cmp k)
                    (λ j u ne.
                      cell j
                      ∙ if-equal (i == j % m.num_buckets)
                          (λ e. absurd (
                            ground (
                              arith,
                              ne,
                              hit.equal,
                              ap (λ k. is_eq (key_cmp m key (get_or m.buckets k blank).key))
                                  (sym pos ∙ ==_true _ _ e),
                            )))
                          λ _. refl)
                    n (home m key) passed)
                  (inl (ap (λ w. w.in_use) (cell (home m key + n) ∙ if-here)))));
        }

  -- c_utils_map_remove of a key that is not NULL and that the probe of a well-formed map finds
  -- returns what c_utils_map_get gives for it, and leaves a well-formed map with one entry less
  -- in which c_utils_map_get of the key gives NULL.
  pub remove_lem :
      Returns (λ (value, m'). (value ≡ (get m key).0) × Released m key m') (remove m key)
  unfolding remove get
  remove_lem =
      let g : (key == null) ≡ false = ground (arith, given) in
      let es = note m.conf.rc_key (ref_dec (get_or m.buckets i blank).key) m.events in
      rw (nonempty, g, found, shrink-same (after es) v.sized.initial)
        (returns (refl, after-Released es))

  -- c_utils_map_delete of a key that is not NULL and that the probe of a well-formed map finds
  -- returns true and a well-formed map with one entry less and without the key; it releases the
  -- key where the flag for counted keys is not set, and the value where the flag for counted
  -- values is not set, and calls the destructor of the value where it is.
  pub delete_lem :
      Returns
        (λ (done, m').
          (done ≡ true)
          × Released m key m'
          × (m'.events ≡ give_deleted m.conf (get_or m.buckets i blank) m.events))
        (delete m key)
  unfolding delete release
  delete_lem =
      let g : (key == null) ≡ false = ground (arith, given) in
      let es = give_deleted m.conf (get_or m.buckets i blank) m.events in
      rw (nonempty, g, found, shrink-same (after es) v.sized.initial)
        (returns (refl, after-Released es, refl))
