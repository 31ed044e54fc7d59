-- ===== src/HashMap/Insert.antt =====
-- c_utils_map_add of data_structures/map.c keeps the invariant and overwrites no entry.
use c_utils.Base.{
  ℕ, ◌<◌, ◌≡◌, refl, sym, Bool, true, false, some, arith, is_eq, length-replicate, get_or,
}
use c_utils.HashMap.{HashMap, MapConf, blank, key_cmp}
use c_utils.HashMap.Hash.{Memory}
use c_utils.HashMap.Create.{configure, create_conf}
use c_utils.HashMap.Lookup.{IsSized, added}
use c_utils.HashMap.Count.{IsMap, count-replicate}

-- What an addition may do: refuse, since the map is full or has the key, or fill one free bucket.
pub data Outcome (m : HashMap) (key value : ℕ) : Bool × HashMap → Type 0 where
  full : m.size ≡ m.num_buckets → Outcome m key value (false, m)
  present :
      (i : ℕ)
      → (get_or m.buckets i blank).in_use ≡ true
      → is_eq (key_cmp m key (get_or m.buckets i blank).key) ≡ true
      → Outcome m key value (false, m)
  stored :
      (sized : IsSized m) (i : ℕ)
      → i < m.num_buckets
      → (get_or m.buckets i blank).in_use ≡ false
      → IsMap (added m key value sized i)
      → Outcome m key value (true, added m key value sized i)

-- c_utils_map_create_conf gives an empty well-formed map, whatever the configuration, if the
-- allocations succeed.
pub create_conf-IsMap :
    (memory : Memory) (conf : MapConf)
    → (m : HashMap) × (create_conf true true true memory conf ≡ some m) × IsMap m × (m.size ≡ 0)
unfolding create_conf configure
create_conf-IsMap memory conf = (
  _,
  refl,
  record {
    sized = record {
      full_length = length-replicate (configure conf).initial blank;
      initial = refl;
      ne_zero = positive;
    };
    counted = sym (count-replicate (configure conf).initial);
  },
  refl,
)
  where
    positive : 0 < (configure conf).initial
    positive = ground arith
