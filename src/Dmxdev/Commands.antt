-- ===== src/Dmxdev/Commands.antt =====
-- The commands and the release of the demultiplexer device keep its filters sound.
use tuxbox_git_driver.Common.{
  ℕ, zero, suc, ◌≡◌, refl, List, [], ◌∷◌, Bool, true, false, ◌&&◌, ◌||◌, none, ◌==◌, if◌then◌else◌,
  arith, get_or, set, bit_and,
}
use tuxbox_git_driver.Common.Int.{ℤ, pos, ltb_ℤ}
use tuxbox_git_driver.Kernel.{einval, erestartsys}
use tuxbox_git_driver.Dmxdev.{set_buffer_size}
use tuxbox_git_driver.Dmxdev.Filters.{
  type_none, type_pes, state_free, state_allocated, state_set, is_set, SctFilterParams,
  PesFilterParams, DmxdevFilter, DmxDemux, Dmxdev, no_filter,
}
use tuxbox_git_driver.Dmxdev.Feeds.{
  at, put, dmx_immediate_start, dmx_pes_other, filter_stop, filter_reset,
}
use tuxbox_git_driver.Dmxdev.Device.{
  Command, dmx_start, dmx_stop, dmx_set_filter, dmx_set_pes_filter, dmx_set_buffer_size,
  dmx_get_event, dmx_get_pes_pids, dmx_get_stc, dmx_unknown, Around, start, filter_set,
  pes_filter_set, filter_free, resize, with_filter, demux_do_ioctl,
}
use tuxbox_git_driver.Dmxdev.Running.{is_some, sound, AllSound, at-Sound, set-AllSound, branch}
use tuxbox_git_driver.Dmxdev.Stopping.{filter_stop-AllSound, filter_stop-stopped}
use tuxbox_git_driver.Dmxdev.Starting.{filter_start-AllSound}

quiet-set :
    (fs : List DmxdevFilter) (i : ℕ) (f : DmxdevFilter)
    → is_some f.timer ≡ false
    → is_some (get_or (set fs i f) i no_filter).timer ≡ false
quiet-set [] i f h = refl
quiet-set (g ∷ fs) zero f h = h
quiet-set (g ∷ fs) (suc i) f h = quiet-set fs i f h

module _ {D : Type 0} (ops : DmxDemux D) (a : Around) where
  start-AllSound :
      (i : ℕ) (dev : Dmxdev D) → AllSound dev.filters → AllSound (start ops a i dev).1.filters
  start-AllSound i dev h = filter_start-AllSound ops a.hz a.jiffies i a.memory dev h

  -- A filter that has just been stopped takes new parameters, and may start at once.
  set_up-AllSound :
      (now : Bool) (i : ℕ) (dev : Dmxdev D) (f : DmxdevFilter)
      → AllSound dev.filters
      → sound f ≡ true
      → let ready = put dev i f in
        AllSound (if now then (pos 0, ready) else start ops a i ready).1.filters
  set_up-AllSound now i dev f h s =
      let ready = put dev i f in
      let h' = set-AllSound dev.filters i f h s in
      branch (λ (r : ℤ × Dmxdev D). AllSound r.1.filters) now (pos 0, ready) (start ops a i ready)
        h' (start-AllSound i ready h')

  quiet_when_stopped :
      (i : ℕ) (dev : Dmxdev D)
      → AllSound dev.filters
      → is_some (at (filter_stop ops i dev).1 i).timer ≡ false
  quiet_when_stopped i dev h =
      let stopped = (filter_stop ops i dev).1 in
      ground (
        arith,
        at-Sound stopped.filters i (filter_stop-AllSound ops i dev h),
        filter_stop-stopped ops i dev h,
      )

  filter_set-AllSound :
      (params : SctFilterParams) (i : ℕ) (dev : Dmxdev D)
      → AllSound dev.filters
      → AllSound (filter_set ops a params i dev).1.filters
  unfolding filter_set
  filter_set-AllSound params i dev h =
      let quiet = quiet_when_stopped i dev h in
      set_up-AllSound (bit_and params.flags dmx_immediate_start == 0) i (filter_stop ops i dev).1 _
        (filter_stop-AllSound ops i dev h) (ground (arith, quiet))

  pes_filter_set-AllSound :
      (params : PesFilterParams) (i : ℕ) (dev : Dmxdev D)
      → AllSound dev.filters
      → AllSound (pes_filter_set ops a params i dev).1.filters
  unfolding pes_filter_set
  pes_filter_set-AllSound params i dev h =
      let stopped = (filter_stop ops i dev).1 in
      let h' = filter_stop-AllSound ops i dev h in
      let f' : DmxdevFilter = record (at stopped i) {
        ftype = type_pes;
        pid = params.pid;
        pes = params;
        state = state_set;
      } in
      let now = bit_and params.flags dmx_immediate_start == 0 in
      branch (λ (r : ℤ × Dmxdev D). AllSound r.1.filters)
        (ltb_ℤ dmx_pes_other params.pes_type || ltb_ℤ params.pes_type (pos 0)) (einval, stopped)
        (if now then (pos 0, put stopped i f') else start ops a i (put stopped i f')) h'
        (set_up-AllSound now i stopped f' h' (ground (arith, quiet_when_stopped i dev h)))

  filter_reset-AllSound :
      (i : ℕ) (dev : Dmxdev D)
      → AllSound dev.filters
      → is_some (at dev i).timer ≡ false
      → AllSound (filter_reset ops i dev).filters
        × (is_some (at (filter_reset ops i dev) i).timer ≡ false)
  unfolding filter_reset
  filter_reset-AllSound i dev h quiet =
      let f' : DmxdevFilter = record (at dev i) {
        ftype = type_none;
        pid = 0xffff;
        state = state_allocated;
      } in
      branch (λ (d : Dmxdev D). AllSound d.filters × (is_some (at d i).timer ≡ false))
        (is_set (at dev i).state) (put dev i f') dev
        (set-AllSound dev.filters i f' h (ground (arith, quiet)), quiet-set dev.filters i f' quiet)
        (h, quiet)

  pub filter_free-AllSound :
      (i : ℕ) (dev : Dmxdev D) → AllSound dev.filters → AllSound (filter_free ops a i dev).1.filters
  unfolding filter_free
  filter_free-AllSound i dev h =
      let reset = filter_reset ops i (filter_stop ops i dev).1 in
      let f = at reset i in
      let freed : DmxdevFilter = record f {
        buffer = record f.buffer { mem = none };
        state = state_free;
      } in
      let kept =
        filter_reset-AllSound i (filter_stop ops i dev).1 (filter_stop-AllSound ops i dev h)
          (quiet_when_stopped i dev h) in
      branch (λ (r : ℤ × Dmxdev D). AllSound r.1.filters) (a.device_got && a.filter_got)
        (pos 0, put reset i freed) (erestartsys, dev)
        (set-AllSound reset.filters i freed kept.0 (ground (arith, kept.1))) h

  resize-AllSound :
      (size i : ℕ) (dev : Dmxdev D)
      → AllSound dev.filters
      → AllSound (resize ops a size i dev).1.filters
  unfolding resize set_buffer_size
  resize-AllSound size i dev h =
      set-AllSound dev.filters i _ h (ground (arith, at-Sound dev.filters i h))

  with_filter-AllSound :
      (cmd : Command) (i : ℕ) (dev : Dmxdev D)
      → AllSound dev.filters
      → AllSound (with_filter ops a cmd i dev).1.filters
  unfolding with_filter
  with_filter-AllSound dmx_start i dev h =
      branch (λ (r : ℤ × Dmxdev D). AllSound r.1.filters) (is_set (at dev i).state)
        (start ops a i dev) (einval, dev) (start-AllSound i dev h) h
  with_filter-AllSound dmx_stop i dev h = filter_stop-AllSound ops i dev h
  with_filter-AllSound (dmx_set_filter params) i dev h = filter_set-AllSound params i dev h
  with_filter-AllSound (dmx_set_pes_filter params) i dev h = pes_filter_set-AllSound params i dev h
  with_filter-AllSound (dmx_set_buffer_size size) i dev h = resize-AllSound size i dev h
  with_filter-AllSound dmx_get_event i dev h = h
  with_filter-AllSound (dmx_get_pes_pids there) i dev h = h
  with_filter-AllSound (dmx_get_stc answer) i dev h = h
  with_filter-AllSound dmx_unknown i dev h = h

  pub demux_do_ioctl-AllSound :
      (cmd : Command) (i : ℕ) (dev : Dmxdev D)
      → AllSound dev.filters
      → AllSound (demux_do_ioctl ops a cmd i dev).1.filters
  unfolding demux_do_ioctl
  demux_do_ioctl-AllSound cmd i dev h =
      let worked = with_filter-AllSound cmd i dev h in ground (arith, worked, h)
