-- ===== src/HashMap.antt =====
-- data_structures/map.c: the hash map with open addressing. Keys and values are addresses, and
-- `null` is 0. The lock is not modelled: each operation is one step.
pub mod Hash
pub mod Create
pub mod Access
pub mod Bulk
pub mod Probe
pub mod Lookup
pub mod Count
pub mod Insert
pub mod Remove
pub mod Clear
pub mod Scan
pub mod Iterate
pub mod Walk
pub mod Tests
use c_utils.Base.{
  ℕ, zero, suc, ◌+◌, ◌-◌, ◌*◌, ◌/◌, ◌%◌, Bool, true, false, not, ◌&&◌, Option, none, some, List, [],
  ◌∷◌, ltb, leb, ◌==◌, if◌then◌else◌, Comparator, Ordering, is_eq, length, get_or, set, replicate,
  Run, ok, fault, out_of_fuel, ◌>>=◌,
}
use c_utils.Heap.{Ratio}
use c_utils.HashMap.Hash.{Memory, hash_key, compare_bytes}

pub record Bucket : Type 0 where
  pub hash : ℕ
  pub key : ℕ
  pub value : ℕ
  pub in_use : Bool

-- A destructor: NULL, or one that the caller gave, or `free`.
pub data Destructor : Type 0 where
  no_destructor given free : Destructor

-- A length of 0 and a missing callback leave the default.
pub record MapConf : Type 0 where
  pub rc_instance : Bool
  pub rc_key : Bool
  pub rc_value : Bool
  pub shrink_on_trigger : Bool
  pub delete_on_destroy : Bool
  pub destroy_key : Destructor
  pub destroy_value : Destructor
  pub compare_key : Option Comparator
  pub compare_value : Option Comparator
  pub hash_function : Option (ℕ → ℕ)
  pub growth_ratio : Ratio
  pub growth_trigger : Ratio
  pub shrink_ratio : Ratio
  pub shrink_trigger : Ratio
  pub initial : ℕ
  pub min : ℕ
  pub max : ℕ
  pub key_length : ℕ
  pub value_length : ℕ

-- What the map does to keys and values through other code.
pub data MapEvent : Type 0 where
  ref_inc : ℕ → MapEvent
  ref_dec : ℕ → MapEvent
  destruct_key : ℕ → MapEvent
  destruct_value : ℕ → MapEvent

-- `memory` is what the caller's keys and values point to; the map only reads it.
pub record HashMap : Type 0 where
  pub buckets : List Bucket
  pub size : ℕ
  pub num_buckets : ℕ
  pub conf : MapConf
  pub memory : Memory
  pub events : List MapEvent

abbrev pub null : ℕ
null = 0

-- A bucket as `calloc` leaves it.
abbrev pub blank : Bucket
blank = record { hash = 0; key = null; value = null; in_use = false }

unfoldable pub get_key_size : HashMap → ℕ → ℕ
get_key_size m key =
    if m.conf.key_length == 0 then length (m.memory.text key) else m.conf.key_length

unfoldable pub hash_of : HashMap → ℕ → ℕ
unfolding get_key_size
hash_of m key = elim m.conf.hash_function [
  | some f ↦ f key
  | none ↦ hash_key (m.memory.block key (get_key_size m key))
]

unfoldable pub key_cmp : HashMap → ℕ → ℕ → Ordering
key_cmp m a b = elim m.conf.compare_key [
  | some cmp ↦ cmp a b
  | none ↦
      if m.conf.key_length == 0
      then compare_bytes (m.memory.text a) (m.memory.text b)
      else compare_bytes (m.memory.block a m.conf.key_length) (m.memory.block b m.conf.key_length)
]

-- By address, two values are equal or not: `a != b` is 0 or 1.
unfoldable pub value_cmp : HashMap → ℕ → ℕ → Ordering
value_cmp m a b = elim m.conf.compare_value [
  | some cmp ↦ cmp a b
  | none ↦
      if m.conf.value_length == 0
      then (if a == b then Ordering.eq else Ordering.gt)
      else compare_bytes (m.memory.block a m.conf.value_length)
          (m.memory.block b m.conf.value_length)
]

-- `buckets + (index % num_buckets)`
abbrev pub at : HashMap → ℕ → Bucket
at m index = get_or m.buckets (index % m.num_buckets) blank

-- The probe for a key: the rounds left, the hash, and the index before it is wrapped. The answer
-- is the position of a bucket.
unfoldable pub existing_loop : ℕ → HashMap → ℕ → ℕ → ℕ → Option ℕ
existing_loop zero m key hash index = none
existing_loop (suc k) m key hash index =
    let rest = existing_loop k m key hash (index + 1) in
    let b = at m index in
    if b.in_use && (b.hash == hash)
    then (if is_eq (key_cmp m key b.key) then some (index % m.num_buckets) else rest)
    else none

unfoldable pub get_existing_bucket : HashMap → ℕ → Option ℕ
unfolding hash_of existing_loop
get_existing_bucket m key =
    let hash = hash_of m key in
    if m.size == 0 then none else existing_loop m.num_buckets m key hash (hash % m.num_buckets)

-- The probe for a free bucket. `last` is the bucket that the round before looked at: it is what
-- the loop leaves when no round is left.
unfoldable pub empty_loop : ℕ → HashMap → ℕ → ℕ → ℕ → Option ℕ
empty_loop zero m key index last = some last
empty_loop (suc k) m key index last =
    let rest = empty_loop k m key (index + 1) (index % m.num_buckets) in
    let b = at m index in
    if b.in_use
    then (if is_eq (key_cmp m key b.key) then none else rest)
    else some (index % m.num_buckets)

abbrev pub update : HashMap → ℕ → Bucket → HashMap
update m i b = record m { buckets = set m.buckets i b }

-- The hash is written into the bucket that is found.
unfoldable pub get_empty_bucket : HashMap → ℕ → Option ℕ × HashMap
unfolding hash_of empty_loop
get_empty_bucket m key =
    let hash = hash_of m key in
    if m.size == m.num_buckets
    then (none, m)
    else elim (empty_loop m.num_buckets m key (hash % m.num_buckets) 0) [
      | none ↦ (none, m)
      | some i ↦ (some i, update m i (record (get_or m.buckets i blank) { hash = hash }))
    ]

-- for(size_t i = 0; i < num_buckets;), without a step
unfoldable pub collect_loop : ℕ → HashMap → ℕ → Run HashMap
collect_loop zero m i = out_of_fuel
collect_loop (suc k) m i =
    let rest =
      collect_loop k (update m i (record (get_or m.buckets i blank) { in_use = false })) i in
    if ltb i m.num_buckets then rest else ok m

-- The loop ends only where there is no bucket. Behind it, the `memset` is given the address of the
-- field instead of the array, and writes over the map.
unfoldable pub resize_map : HashMap → ℕ → Run HashMap
unfolding collect_loop
resize_map m size =
    if m.num_buckets == m.conf.initial
    then ok m
    else if ltb size m.conf.initial
    then ok m
    else (do m ← collect_loop (m.num_buckets + 1) m 0; fault)

-- `size / (double)num_buckets >= trigger`
abbrev pub reaches : Ratio → ℕ → ℕ → Bool
reaches t size buckets = leb (t.num * buckets) (size * t.den)

abbrev pub scale : Ratio → ℕ → ℕ
scale r n = n * r.num / r.den

abbrev pub falls_to : Ratio → ℕ → ℕ → Bool
falls_to t size buckets = leb (size * t.den) (t.num * buckets)
