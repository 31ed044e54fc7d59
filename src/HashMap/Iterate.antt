-- ===== src/HashMap/Iterate.antt =====
-- data_structures/map.c: the iterator, which works on a copy of the entries.
use c_utils.Base.{
  Bool, ◌&&◌, Option, none, some, ℕ, zero, suc, ◌+◌, ◌-◌, List, [], ◌∷◌, leb, ◌==◌, if◌then◌else◌,
  length, get_or,
}
use c_utils.HashMap.{HashMap, MapConf, Bucket, MapEvent, ref_inc, ref_dec, null}
use c_utils.HashMap.Access.{note}

-- The copied pairs, and where the iterator stands; its size is the number of pairs.
pub record Position : Type 0 where
  pub index : ℕ
  pub pairs : List (ℕ × ℕ)

-- The references that an iterator takes to a pair.
abbrev pub take_refs : MapConf → Bucket → List MapEvent → List MapEvent
take_refs conf b es = note conf.rc_value (ref_inc b.value) (note conf.rc_key (ref_inc b.key) es)

-- for(i = 0, j = 0; occupied_buckets && i < num_buckets; i++), with the buckets from `i` on.
unfoldable pub copy_loop : MapConf → List Bucket → ℕ → List MapEvent → List (ℕ × ℕ) × List MapEvent
copy_loop conf [] occupied es = ([], es)
copy_loop conf (b ∷ bs) occupied es =
    let copied = copy_loop conf bs (occupied - 1) (take_refs conf b es) in
    let skipped = copy_loop conf bs occupied es in
    if occupied == 0
    then ([], es)
    else if b.in_use
    then ((b.key, b.value) ∷ copied.0, copied.1)
    else skipped

unfoldable pub copy_pairs : HashMap → Position × HashMap
unfolding copy_loop
copy_pairs m =
    let r = copy_loop m.conf m.buckets m.size m.events in
    (record { index = 0; pairs = r.0 }, record m { events = r.1 })

-- `c_utils_map_iterator`; the flags say whether the two allocations succeed, and `self` is the address
-- of the map.
unfoldable pub iterator : Bool → Bool → ℕ → HashMap → Option (Position × HashMap)
unfolding copy_pairs
iterator it_ok pos_ok self m =
    let r = copy_pairs m in
    if it_ok && pos_ok
    then some (r.0, record r.1 { events = note m.conf.rc_instance (ref_inc self) r.1.events })
    else none

abbrev pub value_at : Position → ℕ → ℕ
value_at p i = (get_or p.pairs i (null, null)).1

abbrev pub key_at : Position → ℕ → ℕ
key_at p i = (get_or p.pairs i (null, null)).0

unfoldable pub head : Position → ℕ × Position
head p = if length p.pairs == 0 then (null, p) else (value_at p 0, record p { index = 0 })

unfoldable pub tail : Position → ℕ × Position
tail p =
    let last = length p.pairs - 1 in
    if length p.pairs == 0 then (null, p) else (value_at p last, record p { index = last })

unfoldable pub next : Position → ℕ × Position
next p =
    if leb (length p.pairs) (p.index + 1)
    then (null, p)
    else (value_at p (p.index + 1), record p { index = p.index + 1 })

unfoldable pub prev : Position → ℕ × Position
prev p =
    if p.index == 0 then (null, p) else (value_at p (p.index - 1), record p { index = p.index - 1 })

unfoldable pub curr : Position → ℕ
curr p = if length p.pairs == 0 then null else value_at p p.index

-- The references to the pairs are given up, and then the one to the map.
unfoldable pub finalize_loop : MapConf → List (ℕ × ℕ) → List MapEvent → List MapEvent
finalize_loop conf [] es = es
finalize_loop conf ((k, v) ∷ ps) es =
    finalize_loop conf ps (note conf.rc_value (ref_dec v) (note conf.rc_key (ref_dec k) es))

unfoldable pub finalize : ℕ → MapConf → List (ℕ × ℕ) → List MapEvent → List MapEvent
unfolding finalize_loop
finalize self conf ps es = note conf.rc_instance (ref_dec self) (finalize_loop conf ps es)

-- `c_utils_iterator_destroy` of an iterator of a map.
unfoldable pub iterator_destroy : ℕ → MapConf → List (ℕ × ℕ) → List MapEvent → List MapEvent
unfolding finalize
iterator_destroy self conf ps es = finalize self conf ps (note conf.rc_instance (ref_dec self) es)

-- C_UTILS_MAP_FOR_EACH of map.h: `next` before each round, until it gives NULL.
unfoldable pub for_each_pair : ℕ → Position → List (ℕ × ℕ)
for_each_pair zero p = []
for_each_pair (suc k) p =
    let p' = (next p).1 in
    let rest = for_each_pair k p' in
    if (next p).0 == null
    then []
    else if key_at p' p'.index == null
    then []
    else (key_at p' p'.index, value_at p' p'.index) ∷ rest

-- Without an iterator there is no round.
unfoldable pub map_for_each : ℕ → Option (Position × HashMap) → List (ℕ × ℕ)
unfolding for_each_pair
map_for_each k none = []
map_for_each k (some (p, m)) = for_each_pair k p
