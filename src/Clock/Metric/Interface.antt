-- ===== src/Clock/Metric/Interface.antt =====
-- The template parameter `T` of `cpClocks`, `syncClock` and `threadClock`.
use otf_cpt.Common.{◌≡◌}
use otf_cpt.Common.Int.{ℤ, ◌+ℤ◌, max_ℤ}

pub record Metric (M : Type 0) : Type 0 where
  pub max_update : M → M → M
  pub add : M → ℤ → M
  pub reset : ℤ → M
  pub get_time : M → ℤ
  pub get_time-max_update : (a b : M) → get_time (max_update a b) ≡ max_ℤ (get_time a) (get_time b)
  pub get_time-add : (a : M) (t : ℤ) → get_time (add a t) ≡ get_time a +ℤ t
  pub get_time-reset : (t : ℤ) → get_time (reset t) ≡ t
