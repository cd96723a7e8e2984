-- ===== src/Openmp/Returns/Sync.antt =====
-- The callbacks `sync_region` and `sync_region_wait`, src/ompt-critical.cpp.
use otf_cpt.Common.{ℕ, refl, ◌∙◌, ap, Bool}
use otf_cpt.Clock.Metric.{Metric}
use otf_cpt.Openmp.Objects.{Sizes}
use otf_cpt.Openmp.Regions.{
  SyncRegion, region_taskwait, region_taskgroup, region_reduction, Endpoint, scope_begin, scope_end,
  scope_beginend, region_begin, count_region_begin, count_region_end, sync_region, wait_begin,
  wait_end, sync_region_wait,
}
use otf_cpt.Tool.World.{World}
use otf_cpt.Tool.Action.{count, exit}
use otf_cpt.Openmp.Returns.Ran.{Ran-some, Ran-imp, Ran-bind}
use otf_cpt.Openmp.Returns.Primitives.{Kept, exit-Quiet}
use otf_cpt.Openmp.Returns.Clocks.{count-Quiet}
use otf_cpt.Openmp.Returns.Good.{Good, Ends, on_flags-Good, Quiet-first, Quiet-last, then-Good}
use otf_cpt.Openmp.Returns.Regions.{
  CanBegin, CanEnd, tasks-Kept, taskwait_begin-Entered, region_begin-Ends, region_end-Ends,
}

module _ {M : Type 0} ⦃metric : Metric M⦄ where
  CanBegin-Kept :
      {t : ℕ} {w w' : World M} (kind : SyncRegion) (i : ℕ)
      → Kept t w w'
      → CanBegin kind i w
      → CanBegin kind i w'
  CanBegin-Kept region_taskwait i k h = tt
  CanBegin-Kept region_taskgroup i k h = tt
  CanBegin-Kept region_reduction i k h = tt
  CanBegin-Kept _ i k h = (h.0, ap (λ d. d.team) (tasks-Kept i k) ∙ h.1)

  CanEnd-Kept :
      {t : ℕ} {w w' : World M} (kind : SyncRegion) (i : ℕ)
      → Kept t w w'
      → CanEnd kind i w
      → CanEnd kind i w'
  CanEnd-Kept region_taskwait i k h = tt
  CanEnd-Kept region_taskgroup i k h = (h.0, ap (λ d. d.task_group) (tasks-Kept i k) ∙ h.1)
  CanEnd-Kept region_reduction i k h = tt
  CanEnd-Kept _ i k h = (h.0, ap (λ d. d.team) (tasks-Kept i k) ∙ h.1)

  -- What `sync_region` needs of its task.
  abbrev pub CanSync : SyncRegion → Endpoint → ℕ → World M → Type 0
  CanSync kind scope_begin i w = CanBegin kind i w
  CanSync kind scope_end i w = CanEnd kind i w
  CanSync kind scope_beginend i w = CanBegin kind i w

  pub sync_region-Ends :
      {t : ℕ} (sizes : Sizes) (kind : SyncRegion) (endpoint : Endpoint) (has_parallel : Bool)
      (i : ℕ) (w : World M)
      → CanSync kind endpoint i w
      → Good t w
      → Ends t (sync_region sizes kind endpoint has_parallel t i w)
  unfolding sync_region count_region_begin count_region_end
  sync_region-Ends {t} sizes kind scope_begin has_parallel i w h g =
      Quiet-first _ (count t _) _ w (count-Quiet t _) g λ w₁ k₁ g₁.
        Ran-imp _ _ (λ u w' p. p.0)
          (region_begin-Ends sizes kind i w₁ (CanBegin-Kept kind i k₁ h) g₁)
  sync_region-Ends {t} sizes kind scope_end has_parallel i w h g =
      Quiet-first _ (count t _) _ w (count-Quiet t _) g
        λ w₁ k₁ g₁. region_end-Ends kind has_parallel i w₁ (CanEnd-Kept kind i k₁ h) g₁
  sync_region-Ends {t} sizes kind scope_beginend has_parallel i w h g =
      Quiet-first _ (count t _) _ w (count-Quiet t _) g λ w₁ k₁ g₁.
        Ran-bind _ _ (region_begin sizes kind t i) _ w₁
          (region_begin-Ends sizes kind i w₁ (CanBegin-Kept kind i k₁ h) g₁)
          λ u w₂ (g₂, h₂).
            Quiet-first _ (count t _) _ w₂ (count-Quiet t _) g₂
              λ w₃ k₃ g₃. region_end-Ends kind has_parallel i w₃ (CanEnd-Kept kind i k₃ h₂) g₃

  wait_begin-Ends : {t : ℕ} (i : ℕ) (w : World M) → Good t w → Ends t (wait_begin t i w)
  unfolding wait_begin count_region_begin
  wait_begin-Ends {t} i w g =
      Quiet-first _ (count t _) _ w (count-Quiet t _) g
        λ w₁ k₁ g₁. Ran-imp _ _ (λ u w' b. b.0) (taskwait_begin-Entered i w₁ g₁)

  wait_end-Ends : {t : ℕ} (i : ℕ) (w : World M) → Good t w → Ends t (wait_end t i w)
  unfolding wait_end count_region_end
  wait_end-Ends {t} i w g =
      Quiet-first _ (count t _) _ w (count-Quiet t _) g
        λ w₁ k₁ g₁. Quiet-last (exit t _) _ (exit-Quiet t _) (on_flags-Good i _ w₁ refl g₁)

  pub sync_region_wait-Ends :
      {t : ℕ} (kind : SyncRegion) (endpoint : Endpoint) (i : ℕ) (w : World M)
      → Good t w
      → Ends t (sync_region_wait kind endpoint t i w)
  unfolding sync_region_wait
  sync_region_wait-Ends region_taskgroup scope_begin i w g = wait_begin-Ends i w g
  sync_region_wait-Ends region_taskgroup scope_end i w g = wait_end-Ends i w g
  sync_region_wait-Ends {t} region_taskgroup scope_beginend i w g =
      then-Good (wait_begin t i) _ w (wait_begin-Ends i w g) λ u w' g'. wait_end-Ends i w' g'
  sync_region_wait-Ends _ endpoint i w g = Ran-some _ tt w g
