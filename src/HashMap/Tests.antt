-- ===== src/HashMap/Tests.antt =====
-- The theorems on data_structures/map.c at concrete maps.
use c_utils.Base.{◌+◌, ◌%◌, ◌≡◌, refl, true, false, some, none, [], ◌∷◌, arith, compare, Returns}
use c_utils.Heap.{Ratio}
use c_utils.HashMap.{
  HashMap, MapConf, no_destructor, given, null, blank, get_existing_bucket, key_cmp, hash_of,
}
use c_utils.HashMap.Hash.{Memory, hash_key}
use c_utils.HashMap.Access.{add, get, remove}
use c_utils.HashMap.Bulk.{clear_with, give_refs, give_all, map_destroy, contains}
use c_utils.HashMap.Lookup.{IsSized, add_then_get, add_then_lose}
use c_utils.HashMap.Count.{IsMap}
use c_utils.HashMap.Remove.{Released, remove_lem}
use c_utils.HashMap.Clear.{entries, all_given, clear_with_lem, map_destroy_lem}
use c_utils.HashMap.Iterate.{iterator, map_for_each}
use c_utils.HashMap.Walk.{for_each_pair_lem}
use c_utils.HashMap.Scan.{first_key, contains-first_key}

abbrev half : Ratio
half = record { num = 1; den = 2 }

abbrev conf : MapConf
conf = record {
  rc_instance = false;
  rc_key = true;
  rc_value = false;
  shrink_on_trigger = false;
  delete_on_destroy = true;
  destroy_key = no_destructor;
  destroy_value = given;
  compare_key = some compare;
  compare_value = none;
  hash_function = some (λ k. k % 2);
  growth_ratio = half;
  growth_trigger = half;
  shrink_ratio = half;
  shrink_trigger = half;
  initial = 4;
  min = 1;
  max = 8;
  key_length = 0;
  value_length = 0;
}

abbrev memory : Memory
memory = record { text = λ a. []; block = λ a n. [] }

-- Key 1 with value 70 in its home.
abbrev one_entry : HashMap
one_entry = record {
  buckets = blank ∷ record { hash = 1; key = 1; value = 70; in_use = true } ∷ blank ∷ blank ∷ [];
  size = 1;
  num_buckets = 4;
  conf = conf;
  memory = memory;
  events = [];
}

-- The same, where each key is its own hash.
abbrev spread_entry : HashMap
spread_entry = record one_entry { conf = record conf { hash_function = some (λ k. k) } }

one_entry-IsMap : IsMap one_entry
one_entry-IsMap = record {
  sized = record { full_length = refl; initial = refl; ne_zero = omega arith };
  counted = refl;
}

spread_entry-IsSized : IsSized spread_entry
spread_entry-IsSized = record { full_length = refl; initial = refl; ne_zero = omega arith }

one_entry-found : get_existing_bucket one_entry 1 ≡ some 1
unfolding get_existing_bucket key_cmp
one_entry-found = refl

-- Jenkins's hash of one byte.
hash_key-one : hash_key (97 ∷ []) ≡ 3392050242
unfolding hash_key
hash_key-one = refl

add_then_get_example :
    Returns
      (λ (done, m'). (done ≡ true) × (m'.size ≡ 1 + 1) × ((get m' 3).0 ≡ 80))
      (add one_entry 3 80)
unfolding hash_of key_cmp
add_then_get_example =
    add_then_get one_entry 3 80 one_entry-IsMap.sized 1 (omega arith) (omega arith) (omega arith)
      (omega arith) (refl, refl, refl, tt) refl refl

add_then_lose_example :
    Returns (λ (done, m'). (done ≡ true) × ((get m' 5).0 ≡ null)) (add spread_entry 5 80)
unfolding hash_of key_cmp
add_then_lose_example =
    add_then_lose spread_entry 5 80 spread_entry-IsSized 1 (omega arith) (omega arith) (omega arith)
      (omega arith) (refl, refl, tt) refl refl (omega arith)

remove_example :
    Returns
      (λ (value, m'). (value ≡ (get one_entry 1).0) × Released one_entry 1 m')
      (remove one_entry 1)
remove_example = remove_lem one_entry 1 1 one_entry-IsMap (omega arith) one_entry-found

clear_with_example :
    IsMap (clear_with give_refs one_entry)
    × ((clear_with give_refs one_entry).size ≡ 0)
    × ((clear_with give_refs one_entry).events
        ≡ all_given give_refs conf (entries one_entry.buckets) [])
clear_with_example = clear_with_lem give_refs one_entry one_entry-IsMap

map_destroy_example :
    map_destroy one_entry ≡ all_given (give_all true) conf (entries one_entry.buckets) []
map_destroy_example = map_destroy_lem one_entry one_entry-IsMap

contains-first_key_example :
    (contains one_entry 70).0 ≡ first_key one_entry 70 (entries one_entry.buckets)
contains-first_key_example = contains-first_key one_entry 70 one_entry-IsMap (omega arith)

for_each_pair_example : map_for_each 1 (iterator true true 500 one_entry) ≡ []
for_each_pair_example =
    for_each_pair_lem true true 500 one_entry 1 one_entry-IsMap
      (((λ e. omega (arith, e)), λ e. omega (arith, e)), tt) (omega arith)
