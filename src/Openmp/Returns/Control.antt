-- ===== src/Openmp/Returns/Control.antt =====
-- `startTool`, `stopTool` and `finishMeasurement` of src/critical-core.cpp, and the callback for them.
use otf_cpt.Common.{ℕ, refl, Bool, true, not, ◌&&◌}
use otf_cpt.Common.Int.{ℤ}
use otf_cpt.Clock.State.{ClockState, state_init, state_useful, state_mpi, same_state}
use otf_cpt.Clock.Metric.{Metric}
use otf_cpt.Openmp.Threads.{
  Command, tool_start, tool_pause, tool_flush, tool_end, other, control_tool,
}
use otf_cpt.Tool.World.{World}
use otf_cpt.Tool.Action.{when, get_time, set, current}
use otf_cpt.Tool.Measure.{
  start_measurement, stop_measurement, gather_all, finish_measurement, start_tool, stop_running,
  stop_tool,
}
use otf_cpt.Openmp.Returns.Ran.{Ran-some, Ran-deref}
use otf_cpt.Openmp.Returns.Primitives.{Quiet-bind, set-Quiet, enter_at-Quiet}
use otf_cpt.Openmp.Returns.Clocks.{when-Quiet, current-Quiet}
use otf_cpt.Openmp.Returns.Good.{Good, Ends, Quiet-first, Quiet-last, then-Good, when-Ends}
use otf_cpt.Openmp.Returns.Measure.{same-Good, gather_all-Ends}

module _ {M : Type 0} ⦃metric : Metric M⦄ where
  stop_measurement-Ends :
      {t : ℕ} (time : ℤ) (w : World M) → Good t w → Ends t (stop_measurement time w)
  unfolding stop_measurement
  stop_measurement-Ends time w g =
      when-Ends w.running _ w g (Ran-some _ tt _ (same-Good refl refl refl refl refl refl g))

  -- The measurement is finished: every thread of the list is found.
  finish_measurement-Ends :
      {t : ℕ} (runtime : ℤ) (w : World M) → Good t w → Ends t (finish_measurement runtime t w)
  unfolding finish_measurement get_time
  finish_measurement-Ends {t} runtime w g = when-Ends (not w.finished) _ w g (
      then-Good (stop_measurement (w.times w.calls)) _ _
        (stop_measurement-Ends _ _ (same-Good refl refl refl refl refl refl g))
        λ u w₁ g₁.
          Quiet-first _ (set t w₁.end_programm_time state_init) _ w₁ (set-Quiet t _) g₁ λ w₂ k₂ g₂.
            then-Good (gather_all t w₂.thread_clocks) _ w₂
              (gather_all-Ends w₂.thread_clocks w₂ g₂.valid.listed.clocks g₂)
              λ totals w₃ g₃.
                Ran-deref _ (w₃.threads t) g₃.begun.clock.0 _ w₃ g₃.begun.clock.1
                  (Ran-some _ tt _ (same-Good refl refl refl refl refl refl g₃)))

  start_tool-Ends :
      {t : ℕ} (tool_control : Bool) (cs : ClockState) (w : World M)
      → Good t w
      → Ends t (start_tool t tool_control cs w)
  unfolding start_tool get_time start_measurement
  start_tool-Ends {t} tool_control cs w g =
      when-Ends (not (w.stopped && not tool_control) && not w.running) _ w g (
        then-Good (current t) _ _ (state _ (same-Good refl refl refl refl refl refl g)) λ a w₁ g₁.
          Quiet-last _ w₁
            (Quiet-bind _ _
              (when-Quiet (same_state cs state_mpi && same_state a state_init) _
                (enter_at-Quiet t _ state_useful))
              (enter_at-Quiet t _ cs))
            g₁)
    where
      state : (w : World M) → Good t w → Ends t (current t w)
      state w g =
          let (s, e) = current-Quiet t w g.valid.timed g.begun in
          record { value = s; after = w; returned = e; post = g }

  stop_running-Ends : {t : ℕ} (w : World M) → Good t w → Ends t (stop_running t w)
  unfolding stop_running get_time
  stop_running-Ends {t} w g =
      then-Good (stop_measurement (w.times w.calls)) _ _
        (stop_measurement-Ends _ _ (same-Good refl refl refl refl refl refl g))
        λ u w₁ g₁. Quiet-last (set t w₁.end_programm_time state_init) w₁ (set-Quiet t _) g₁

  stop_tool-Ends : {t : ℕ} (runtime : ℤ) (w : World M) → Good t w → Ends t (stop_tool runtime t w)
  unfolding stop_tool
  stop_tool-Ends {t} runtime w g =
      then-Good (when w.running (stop_running t)) _ w
        (when-Ends w.running _ w g (stop_running-Ends w g))
        λ u w₂ g₂. when-Ends w₂.dump_on_stop _ w₂ g₂ (finish_measurement-Ends runtime w₂ g₂)

  pub control_tool-Ends :
      {t : ℕ} (runtime : ℤ) (command : Command) (w : World M)
      → Good t w
      → Ends t (control_tool runtime t command w)
  unfolding control_tool
  control_tool-Ends runtime tool_start w g =
      then-Good (start_tool _ true state_useful) _ w (start_tool-Ends true state_useful w g)
        λ u w₁ g₁. Ran-some _ 0 w₁ g₁
  control_tool-Ends runtime tool_pause w g = Ran-some _ 1 w g
  control_tool-Ends runtime tool_flush w g = Ran-some _ 1 w g
  control_tool-Ends runtime tool_end w g =
      then-Good (stop_tool runtime _) _ w (stop_tool-Ends runtime w g) λ u w₁ g₁. Ran-some _ 0 w₁ g₁
  control_tool-Ends runtime other w g = Ran-some _ 0 w g
