-- ===== src/HashMap/Access.antt =====
-- data_structures/map.c: the operations on one key.
use c_utils.Base.{
  ℕ, ◌+◌, ◌-◌, Bool, true, false, not, ◌&&◌, none, some, List, ◌∷◌, ◌==◌, if◌then◌else◌, get_or,
  Run, ok, ◌>>=◌,
}
use c_utils.HashMap.{
  HashMap, MapConf, Bucket, MapEvent, ref_inc, ref_dec, destruct_value, null, blank,
  get_existing_bucket, get_empty_bucket, resize_map, reaches, falls_to, scale, update,
}

-- What a growth does once an entry is in.
unfoldable pub grow : HashMap → Run HashMap
grow m =
    if reaches m.conf.growth_trigger m.size m.num_buckets
    then resize_map m (scale m.conf.growth_ratio m.num_buckets)
    else ok m

abbrev pub occupy : HashMap → ℕ → ℕ → ℕ → HashMap
occupy m i key value =
    record (update m i
      (record (get_or m.buckets i blank) { key = key; value = value; in_use = true })) {
        size = m.size + 1;
      }

unfoldable pub add : HashMap → ℕ → ℕ → Run (Bool × HashMap)
unfolding grow
add m key value =
    if key == null
    then ok (false, m)
    else if value == null
    then ok (false, m)
    else (let (found, m') = get_empty_bucket m key in
        elim found [
          | none ↦ ok (false, m')
          | some i ↦ do m'' ← grow (occupy m' i key value); ok (true, m'')
        ])

abbrev pub note : Bool → MapEvent → List MapEvent → List MapEvent
note flag e es = if flag then e ∷ es else es

unfoldable pub get : HashMap → ℕ → ℕ × HashMap
get m key =
    if m.size == 0
    then (null, m)
    else if key == null
    then (null, m)
    else elim (get_existing_bucket m key) [
      | none ↦ (null, m)
      | some i ↦
          let b = get_or m.buckets i blank in
          (b.value, record m { events = note m.conf.rc_value (ref_inc b.value) m.events })
    ]

-- The bucket keeps its key, its value and its hash, and is only marked.
unfoldable pub release : HashMap → ℕ → HashMap
release m i = record (update m i (record (get_or m.buckets i blank) { in_use = false })) {
  size = m.size - 1;
}

unfoldable pub shrink : HashMap → Run HashMap
shrink m =
    if m.conf.shrink_on_trigger && falls_to m.conf.shrink_trigger m.size m.num_buckets
    then resize_map m (scale m.conf.shrink_ratio m.size)
    else ok m

unfoldable pub remove : HashMap → ℕ → Run (ℕ × HashMap)
unfolding release shrink
remove m key =
    if m.size == 0
    then ok (null, m)
    else if key == null
    then ok (null, m)
    else elim (get_existing_bucket m key) [
      | none ↦ ok (null, m)
      | some i ↦ do
        m' ← shrink (
            release
              (record m {
                events = note m.conf.rc_key (ref_dec (get_or m.buckets i blank).key) m.events;
              })
              i)
        ok ((get_or m.buckets i blank).value, m')
    ]

-- The references go where the flags are not set, and a set flag calls the destructor.
abbrev pub give_deleted : MapConf → Bucket → List MapEvent → List MapEvent
give_deleted conf b es =
    (if conf.rc_value then destruct_value b.value else ref_dec b.value)
    ∷ note (not conf.rc_key) (ref_dec b.key) es

unfoldable pub delete : HashMap → ℕ → Run (Bool × HashMap)
unfolding release shrink
delete m key =
    if m.size == 0
    then ok (false, m)
    else if key == null
    then ok (false, m)
    else elim (get_existing_bucket m key) [
      | none ↦ ok (false, m)
      | some i ↦ do
        m' ← shrink (
            release (record m { events = give_deleted m.conf (get_or m.buckets i blank) m.events })
              i)
        ok (true, m')
    ]
