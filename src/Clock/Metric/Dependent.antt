-- ===== src/Clock/Metric/Dependent.antt =====
-- include/criticalPath.h: class `DependentMetric`, a time and a counter that follows it.
use otf_cpt.Common.{ℕ, ◌+◌, ◌%◌, ◌^◌, ◌≡◌, refl, arith, if◌then◌else◌}
use otf_cpt.Common.Int.{ℤ, ◌+ℤ◌, ltb_ℤ, max_ℤ}
use otf_cpt.Clock.Metric.Interface.{Metric}

pub record DependentMetric : Type 0 where
  pub ref_value : ℤ
  pub dep_value : ℕ  -- uint64_t

unfoldable pub max_update : DependentMetric → DependentMetric → DependentMetric
max_update m other =
    if ltb_ℤ m.ref_value other.ref_value
    then record { ref_value = other.ref_value; dep_value = other.dep_value }
    else m

-- `add(const DependentMetric &)`
unfoldable pub add_metric : DependentMetric → DependentMetric → DependentMetric
add_metric m ref = record {
  ref_value = m.ref_value +ℤ ref.ref_value;
  dep_value = (m.dep_value + ref.dep_value) % 2 ^ 64;
}

-- The constructor from a `double`; a call `add(time)` converts its argument by it.
unfoldable pub of_time : ℤ → DependentMetric
of_time t = record { ref_value = t; dep_value = 0 }

unfoldable pub add : DependentMetric → ℤ → DependentMetric
unfolding add_metric of_time
add m time = add_metric m (of_time time)

unfoldable pub reset : ℤ → DependentMetric
reset t = record { ref_value = t; dep_value = 0 }

unfoldable pub get_time : DependentMetric → ℤ
get_time m = m.ref_value

pub get_time-max_update :
    (a b : DependentMetric) → get_time (max_update a b) ≡ max_ℤ (get_time a) (get_time b)
unfolding max_update get_time max_ℤ
get_time-max_update a b = ground arith

pub get_time-add : (a : DependentMetric) (t : ℤ) → get_time (add a t) ≡ get_time a +ℤ t
unfolding add get_time
get_time-add a t = refl

pub get_time-reset : (t : ℤ) → get_time (reset t) ≡ t
unfolding reset get_time
get_time-reset t = refl

instance unfoldable pub dependent_metric : Metric DependentMetric
unfolding max_update add reset get_time
dependent_metric = record {
  max_update = max_update;
  add = add;
  reset = reset;
  get_time = get_time;
  get_time-max_update = get_time-max_update;
  get_time-add = get_time-add;
  get_time-reset = get_time-reset;
}
