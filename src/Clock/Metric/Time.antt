-- ===== src/Clock/Metric/Time.antt =====
-- include/criticalPath.h: class `TimeMetric`, as one thread at a time sees it.
use otf_cpt.Common.{◌≡◌, refl, arith, if◌then◌else◌}
use otf_cpt.Common.Int.{ℤ, ◌+ℤ◌, ltb_ℤ, max_ℤ}
use otf_cpt.Clock.Metric.Interface.{Metric}

pub record TimeMetric : Type 0 where
  pub value : ℤ

unfoldable pub max_update : TimeMetric → TimeMetric → TimeMetric
max_update m other = if ltb_ℤ m.value other.value then record m { value = other.value } else m

unfoldable pub add : TimeMetric → ℤ → TimeMetric
add m time = record m { value = m.value +ℤ time }

unfoldable pub reset : ℤ → TimeMetric
reset t = record { value = t }

unfoldable pub get_time : TimeMetric → ℤ
get_time m = m.value

pub get_time-max_update :
    (a b : TimeMetric) → get_time (max_update a b) ≡ max_ℤ (get_time a) (get_time b)
unfolding max_update get_time max_ℤ
get_time-max_update a b = ground arith

pub get_time-add : (a : TimeMetric) (t : ℤ) → get_time (add a t) ≡ get_time a +ℤ t
unfolding add get_time
get_time-add a t = refl

pub get_time-reset : (t : ℤ) → get_time (reset t) ≡ t
unfolding reset get_time
get_time-reset t = refl

instance unfoldable pub time_metric : Metric TimeMetric
unfolding max_update add reset get_time
time_metric = record {
  max_update = max_update;
  add = add;
  reset = reset;
  get_time = get_time;
  get_time-max_update = get_time-max_update;
  get_time-add = get_time-add;
  get_time-reset = get_time-reset;
}
