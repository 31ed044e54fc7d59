-- ===== src/HashMap/Bulk.antt =====
-- data_structures/map.c: the operations that go through all buckets.
use c_utils.Base.{ℕ, ◌-◌, Bool, true, false, ◌&&◌, List, [], ◌∷◌, ◌==◌, if◌then◌else◌, is_eq}
use c_utils.HashMap.{
  HashMap, MapConf, Bucket, MapEvent, ref_inc, ref_dec, destruct_key, destruct_value, Destructor,
  no_destructor, given, free, null, value_cmp,
}
use c_utils.HashMap.Access.{note}

abbrev pub has_destructor : Destructor → Bool
has_destructor no_destructor = false
has_destructor given = true
has_destructor free = true

-- What happens to the key and the value of one bucket.
abbrev pub Give : Type 0
Give = MapConf → Bucket → List MapEvent → List MapEvent

-- `remove_all` gives up the references.
abbrev pub give_refs : Give
give_refs conf b es = note conf.rc_value (ref_dec b.value) (note conf.rc_key (ref_dec b.key) es)

-- `delete_all` and `map_destroy`: the destructors run where there are no references, and, on
-- destruction, only with the flag.
abbrev pub give_all : Bool → Give
give_all wanted conf b es =
    let es' =
      if conf.rc_key
      then ref_dec b.key ∷ es
      else if wanted && has_destructor conf.destroy_key
      then destruct_key b.key ∷ es
      else es in
    if conf.rc_value
    then ref_dec b.value ∷ es'
    else if wanted
    then destruct_value b.value ∷ es'
    else es'

-- for(size_t i = 0; i < num_buckets; i++), with the buckets from `i` on.
unfoldable pub empty_all :
    Give → MapConf → List Bucket → ℕ → List MapEvent → List Bucket × (ℕ × List MapEvent)
empty_all give conf [] size es = ([], (size, es))
empty_all give conf (b ∷ bs) size es =
    let used = empty_all give conf bs (size - 1) (give conf b es) in
    let skipped = empty_all give conf bs size es in
    if b.in_use then (record b { in_use = false } ∷ used.0, used.1) else (b ∷ skipped.0, skipped.1)

unfoldable pub clear_with : Give → HashMap → HashMap
unfolding empty_all
clear_with give m =
    let r = empty_all give m.conf m.buckets m.size m.events in
    if m.size == 0 then m else record m { buckets = r.0; size = r.1.0; events = r.1.1 }

abbrev pub remove_all : HashMap → HashMap
remove_all m = clear_with give_refs m

abbrev pub delete_all : HashMap → HashMap
delete_all m = clear_with (give_all true) m

-- The loop of `map_destroy` stops when no entry is left; its buckets are freed, not marked.
unfoldable pub destroy_loop : Bool → MapConf → List Bucket → ℕ → List MapEvent → List MapEvent
destroy_loop wanted conf [] size es = es
destroy_loop wanted conf (b ∷ bs) size es =
    let used = destroy_loop wanted conf bs (size - 1) (give_all wanted conf b es) in
    let skipped = destroy_loop wanted conf bs size es in
    if size == 0 then es else if b.in_use then used else skipped

unfoldable pub map_destroy : HashMap → List MapEvent
unfolding destroy_loop
map_destroy m = destroy_loop m.conf.delete_on_destroy m.conf m.buckets m.size m.events

-- The walk of `value_to_key`; `search` is the number of entries not yet seen.
unfoldable pub search_loop : HashMap → ℕ → List Bucket → ℕ → ℕ
search_loop m value [] search = null
search_loop m value (b ∷ bs) search =
    let seen = search_loop m value bs (search - 1) in
    let skipped = search_loop m value bs search in
    if search == 0
    then null
    else if b.in_use
    then (if is_eq (value_cmp m value b.value) then b.key else seen)
    else skipped

unfoldable pub value_to_key : HashMap → ℕ → ℕ
unfolding search_loop
value_to_key m value = search_loop m value m.buckets m.size

unfoldable pub contains : HashMap → ℕ → ℕ × HashMap
contains m value =
    if m.size == 0
    then (null, m)
    else if value == null
    then (null, m)
    else (let key = value_to_key m value in
        if key == null
        then (null, m)
        else (key, record m { events = note m.conf.rc_key (ref_inc key) m.events }))

-- The pairs that `for_each` hands to its callback, in order.
unfoldable pub pairs : List Bucket → List (ℕ × ℕ)
pairs [] = []
pairs (b ∷ bs) = let rest = pairs bs in if b.in_use then (b.key, b.value) ∷ rest else rest

unfoldable pub for_each : HashMap → Bool × List (ℕ × ℕ)
unfolding pairs
for_each m = if m.size == 0 then (false, []) else (true, pairs m.buckets)
