-- ===== src/HashMap/Create.antt =====
-- data_structures/map.c: the configuration and the creation.
use c_utils.Base.{ℕ, Bool, not, Option, none, some, [], ◌==◌, if◌then◌else◌, replicate}
use c_utils.Heap.{Ratio}
use c_utils.HashMap.Hash.{Memory}
use c_utils.HashMap.{HashMap, MapConf, no_destructor, given, free, blank}

abbrev pub default_initial : ℕ
default_initial = 64

abbrev pub default_min : ℕ
default_min = 32

abbrev pub default_max : ℕ
default_max = 1024

abbrev pub or_default : ℕ → ℕ → ℕ
or_default n d = if n == 0 then d else n

-- `!x <= 0` reads `(!x) <= 0`: it holds of what is not 0.
abbrev pub unless_zero : Ratio → Ratio → Ratio
unless_zero r d = if r.num == 0 then r else d

-- `x <= 0`
abbrev pub if_zero : Ratio → Ratio → Ratio
if_zero r d = if r.num == 0 then d else r

unfoldable pub configure : MapConf → MapConf
configure conf = record conf {
  initial = or_default conf.initial default_initial;
  min = or_default conf.min default_min;
  max = or_default conf.max default_max;
  growth_ratio = unless_zero conf.growth_ratio (record { num = 2; den = 1 });
  growth_trigger = unless_zero conf.growth_trigger (record { num = 1; den = 2 });
  shrink_ratio =
      if conf.shrink_on_trigger
      then if_zero conf.shrink_ratio (record { num = 1; den = 2 })
      else conf.shrink_ratio;
  shrink_trigger =
      if conf.shrink_on_trigger
      then if_zero conf.shrink_trigger (record { num = 1; den = 10 })
      else conf.shrink_trigger;
  destroy_value = elim conf.destroy_value [ no_destructor ↦ free | given ↦ given | free ↦ free ];
}

-- The flags say whether the allocations of the map, of its buckets and of its lock succeed.
unfoldable pub create_conf : Bool → Bool → Bool → Memory → MapConf → Option HashMap
unfolding configure
create_conf map_ok buckets_ok lock_ok memory conf =
    let conf' = configure conf in
    if not map_ok
    then none
    else if not buckets_ok
    then none
    else if not lock_ok
    then none
    else some (record {
      buckets = replicate conf'.initial blank;
      size = 0;
      num_buckets = conf'.initial;
      conf = conf';
      memory = memory;
      events = [];
    })
