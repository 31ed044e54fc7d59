-- ===== src/HashMap/Clear.antt =====
-- The functions of data_structures/map.c that empty a map.
use c_utils.Base.{
  ℕ, suc, ◌-◌, ◌≡◌, refl, sym, ap, ◌∙◌, Bool, false, List, [], ◌∷◌, arith, ◌==◌, if◌then◌else◌,
  length, Bool-cases, inl, inr, ==_true,
}
use c_utils.HashMap.{HashMap, MapConf, Bucket, MapEvent}
use c_utils.HashMap.Bulk.{Give, give_all, empty_all, clear_with, destroy_loop, map_destroy}
use c_utils.HashMap.Count.{count, IsMap}

-- The buckets in use, in order.
abbrev pub entries : List Bucket → List Bucket
entries [] = []
entries (b ∷ bs) = if b.in_use then b ∷ entries bs else entries bs

-- What is done to each of several entries, in order.
abbrev pub all_given : Give → MapConf → List Bucket → List MapEvent → List MapEvent
all_given give conf [] es = es
all_given give conf (b ∷ bs) es = all_given give conf bs (give conf b es)

pub length-entries : (bs : List Bucket) → length (entries bs) ≡ count bs
length-entries [] = refl
length-entries (b ∷ bs) = ground (arith, length-entries bs)

pub no-entries : (bs : List Bucket) → count bs ≡ 0 → entries bs ≡ []
no-entries [] e = refl
no-entries (b ∷ bs) e = ground (arith, no-entries bs)

module _ (give : Give) (conf : MapConf) where
  empty_all_lem :
      (bs : List Bucket) (size : ℕ) (es : List MapEvent)
      → (length (empty_all give conf bs size es).0 ≡ length bs)
        × (count (empty_all give conf bs size es).0 ≡ 0)
        × ((empty_all give conf bs size es).1.0 ≡ size - count bs)
        × ((empty_all give conf bs size es).1.1 ≡ all_given give conf (entries bs) es)
  unfolding empty_all
  empty_all_lem [] size es = (refl, refl, omega arith, refl)
  empty_all_lem (b ∷ bs) size es = elim (Bool-cases b.in_use) [
    | inl u ↦
        let (l, c, s, e) = empty_all_lem bs (size - 1) (give conf b es) in
        simp u (ap suc l, c, omega (arith, s), e)
    | inr f ↦ let (l, c, s, e) = empty_all_lem bs size es in simp f (ap suc l, c, s, e)
  ]

-- The loop of c_utils_map_remove_all and c_utils_map_delete_all over a well-formed map leaves a
-- well-formed map of size 0, and does to each entry once, in the order of the buckets, what is
-- done to an entry.
pub clear_with_lem :
    (give : Give) (m : HashMap)
    → IsMap m
    → IsMap (clear_with give m)
      × ((clear_with give m).size ≡ 0)
      × ((clear_with give m).events ≡ all_given give m.conf (entries m.buckets) m.events)
unfolding clear_with
clear_with_lem give m v = elim (Bool-cases (m.size == 0)) [
  | inl e ↦
      let none_used = no-entries m.buckets (sym v.counted ∙ ==_true m.size 0 e) in
      rw (e, none_used) (v, ==_true m.size 0 e, refl)
  | inr e ↦
      let (l, c, s, es) = empty_all_lem give m.conf m.buckets m.size m.events in
      rw e (
        record {
          sized = record {
            full_length = l ∙ v.sized.full_length;
            initial = v.sized.initial;
            ne_zero = v.sized.ne_zero;
          };
          counted = omega (arith, c, s, v.counted);
        },
        omega (arith, s, v.counted),
        es,
      )
]

destroy_loop_lem :
    (wanted : Bool) (conf : MapConf) (bs : List Bucket) (size : ℕ) (es : List MapEvent)
    → size ≡ count bs
    → destroy_loop wanted conf bs size es ≡ all_given (give_all wanted) conf (entries bs) es
unfolding destroy_loop
destroy_loop_lem wanted conf [] size es e = refl
destroy_loop_lem wanted conf (b ∷ bs) size es e = elim (Bool-cases b.in_use) [
  | inl u ↦
      let n : (size == 0) ≡ false = ground arith in
      rw (u, n)
        (destroy_loop_lem wanted conf bs (size - 1) (give_all wanted conf b es) (ground arith))
  | inr f ↦ elim (Bool-cases (size == 0)) [
    | inl z ↦ rw (f, z, no-entries bs (ground arith)) refl
    | inr n ↦ rw (f, n) (destroy_loop_lem wanted conf bs size es (ground arith))
  ]
]

-- map_destroy on a well-formed map gives up each entry once, in the order of the buckets,
-- although its loop stops when the count of entries is at 0.
pub map_destroy_lem :
    (m : HashMap)
    → IsMap m
    → map_destroy m
      ≡ all_given (give_all m.conf.delete_on_destroy) m.conf (entries m.buckets) m.events
unfolding map_destroy
map_destroy_lem m v =
    destroy_loop_lem m.conf.delete_on_destroy m.conf m.buckets m.size m.events v.counted
