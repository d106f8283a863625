-- ===== src/Dmxdev/Starting.antt =====
-- dvb_dmxdev_filter_start keeps the filters sound, whatever the demultiplexer answers.
use tuxbox_git_driver.Common.{
  ℕ, ◌≡◌, refl, sym, subst, List, true, false, not, Option, none, some, if◌then◌else◌, arith,
  get_or, set, bit_and, ◌==◌, inl, inr, Bool-cases,
}
use tuxbox_git_driver.Common.Int.{ℤ, pos, ltb_ℤ}
use tuxbox_git_driver.Kernel.{einval}
use tuxbox_git_driver.Dmxdev.Filters.{
  FilterType, type_none, type_sec, type_pes, state_go, runs, is_set, DmxdevFilter, Allocation,
  refused, granted, DmxDemux, Dmxdev, Outcome, returned, broke, no_filter, fill_filter, expiry,
}
use tuxbox_git_driver.Dmxdev.Feeds.{
  at, put, call, dmx_check_crc, feed_stop, feed_restart, rewound, filter_stop,
}
use tuxbox_git_driver.Dmxdev.Start.{
  ts_type_of, fill_and_start, start_on_feed, set_new_feed, start_found, start_section,
  start_ts_feed, start_pes, start_by, finish_start, start_with, or_else, filter_start,
}
use tuxbox_git_driver.Dmxdev.Running.{
  AllSound, at-Sound, branch, feed_stop-filters, feed_restart-AllSound,
}
use tuxbox_git_driver.Dmxdev.Stopping.{filter_stop-AllSound, filter_stop-stopped}
use tuxbox_git_driver.Dmxdev.Prepared.{
  Prepared, set-Prepared, quiet_lem, go-AllSound, timed-AllSound,
}

abbrev Good : {D : Type 0} → ℕ → Outcome D → Type 0
Good i (returned ret dev) = AllSound dev.filters
Good i (broke dev) = AllSound (set dev.filters i (record (at dev i) { state = state_go }))

module _ {D : Type 0} (ops : DmxDemux D) (hz jiffies i : ℕ) where
  fill_and_start-Good :
      (feed : ℕ) (a : Allocation) (dev : Dmxdev D)
      → Prepared true type_sec i dev.filters
      → Good i (fill_and_start ops hz jiffies i feed a dev)
  unfolding fill_and_start
  fill_and_start-Good feed (refused e) dev p = feed_restart-AllSound ops i dev p.all
  fill_and_start-Good feed (granted sf) dev p =
      let f = at dev i in
      let filled : DmxdevFilter = record f { filter = some sf; todo = pos 0 } in
      let p' =
        set-Prepared true type_sec i dev.filters filled p.all p.still (quiet_lem i dev.filters p)
          p.has_feed p.has_mem p.has_type in
      let started = call ops ops.section_start_filtering (some feed) (record dev {
        filters = set dev.filters i filled;
        demux = ops.update_filter sf (fill_filter f.sec) dev.demux;
      }) in
      branch (Good {D = D} i) (ltb_ℤ started.0 (pos 0)) (returned started.0 started.1)
        (broke
          (put started.1 i (record (at started.1 i) { timer = expiry hz jiffies f.sec.timeout })))
        p'.all (timed-AllSound i (set dev.filters i filled) (expiry hz jiffies f.sec.timeout) p')

  start_on_feed-Good :
      (feed : ℕ) (dev : Dmxdev D)
      → Prepared true type_sec i dev.filters
      → Good i (start_on_feed ops hz jiffies i feed dev)
  unfolding start_on_feed
  start_on_feed-Good feed dev p =
      fill_and_start-Good feed (ops.allocate_filter feed dev.demux).0
        (record dev { demux = (ops.allocate_filter feed dev.demux).1 }) p

  fed_lem :
      (t : FilterType) (feed : ℕ) (fs : List DmxdevFilter)
      → Prepared false t i fs
      → Prepared true t i (set fs i (record (get_or fs i no_filter) { feed = some feed }))
  fed_lem t feed fs p =
      set-Prepared true t i fs _ p.all p.still (quiet_lem i fs p) (λ h e. refl) p.has_mem p.has_type

  set_new_feed-Good :
      (a : Allocation) (dev : Dmxdev D)
      → Prepared false type_sec i dev.filters
      → Good i (set_new_feed ops hz jiffies i a dev)
  unfolding set_new_feed
  set_new_feed-Good (refused e) dev p = p.all
  set_new_feed-Good (granted feed) dev p =
      let p' = fed_lem type_sec feed dev.filters p in
      let f = at dev i in
      let r =
        call ops
          (λ s.
            ops.section_set s f.sec.pid 32768 false (not (bit_and f.sec.flags dmx_check_crc == 0)))
          (some feed) (put dev i (record f { feed = some feed })) in
      branch (Good {D = D} i) (ltb_ℤ r.0 (pos 0)) (returned r.0 (feed_restart ops i r.1))
        (start_on_feed ops hz jiffies i feed r.1) (feed_restart-AllSound ops i r.1 p'.all)
        (start_on_feed-Good feed r.1 p')

  start_found-Good :
      (found : Option ℕ) (dev : Dmxdev D)
      → Prepared false type_sec i dev.filters
      → Good i (start_found ops hz jiffies i found dev)
  unfolding start_found
  start_found-Good (some feed) dev p =
      let fed = put dev i (record (at dev i) { feed = some feed }) in
      let p' = fed_lem type_sec feed dev.filters p in
      start_on_feed-Good feed (feed_stop ops i fed).1 (
        subst (Prepared true type_sec i) (sym (feed_stop-filters ops i fed)) (
          set-Prepared true type_sec i fed.filters _ p'.all refl
            (ground (arith, quiet_lem i fed.filters p')) p'.has_feed p'.has_mem p'.has_type))
  start_found-Good none dev p =
      set_new_feed-Good (ops.allocate_section_feed dev.demux).0
        (record dev { demux = (ops.allocate_section_feed dev.demux).1 }) p

  start_section-Good :
      (dev : Dmxdev D)
      → Prepared false type_sec i dev.filters
      → Good i (start_section ops hz jiffies i dev)
  unfolding start_section
  start_section-Good dev p =
      start_found-Good _ (put dev i (record (at dev i) { filter = none; feed = none })) (
        set-Prepared false type_sec i dev.filters _ p.all p.still (quiet_lem i dev.filters p)
          (λ h e. absurd (cc)) p.has_mem p.has_type)

  start_ts_feed-Good :
      (a : Allocation) (dev : Dmxdev D)
      → Prepared false type_pes i dev.filters
      → Good i (start_ts_feed ops i a dev)
  unfolding start_ts_feed
  start_ts_feed-Good (refused e) dev p = p.all
  start_ts_feed-Good (granted feed) dev p =
      let p' = fed_lem type_pes feed dev.filters p in
      let f = at dev i in
      let fed = put dev i (record f { feed = some feed }) in
      let r =
        call ops (λ s. ops.ts_set s f.pes.pid (ts_type_of ops f.pes) f.pes.pes_type) (some feed)
          fed in
      let started = call ops ops.ts_start_filtering (some feed) r.1 in
      let on : Outcome D =
        if ltb_ℤ started.0 (pos 0) then returned started.0 started.1 else broke started.1 in
      branch (Good {D = D} i) (ltb_ℤ r.0 (pos 0))
        (returned r.0 (call ops ops.release_ts_feed (some feed) r.1).1) on p'.all
        (branch (Good {D = D} i) (ltb_ℤ started.0 (pos 0)) (returned started.0 started.1)
          (broke started.1) p'.all (go-AllSound i fed.filters p'))

  start_pes-Good :
      (dev : Dmxdev D) → Prepared false type_pes i dev.filters → Good i (start_pes ops i dev)
  unfolding start_pes
  start_pes-Good dev p = start_ts_feed-Good _ _ (
      set-Prepared false type_pes i dev.filters _ p.all p.still (quiet_lem i dev.filters p)
        (λ h e. absurd (cc)) p.has_mem p.has_type)

  start_by-Good :
      (t : FilterType) (dev : Dmxdev D)
      → Prepared false t i dev.filters
      → Good i (start_by ops hz jiffies t i dev)
  unfolding start_by
  start_by-Good type_sec dev p = start_section-Good dev p
  start_by-Good type_pes dev p = start_pes-Good dev p
  start_by-Good type_none dev p = p.all

  finish_start-AllSound : (r : Outcome D) → Good i r → AllSound (finish_start ops i r).1.filters
  unfolding finish_start
  finish_start-AllSound (returned ret dev) h = h
  finish_start-AllSound (broke dev) h = h

  start_with-AllSound :
      (memory : Option (List ℕ)) (dev : Dmxdev D)
      → AllSound dev.filters
      → runs (at dev i).state ≡ false
      → AllSound (start_with ops hz jiffies memory i dev).1.filters
  unfolding start_with
  start_with-AllSound none dev h still = h
  start_with-AllSound (some m) dev h still =
      let f = at dev i in
      let f' : DmxdevFilter = record f {
        buffer = rewound ops (record f.buffer { mem = some m });
      } in
      finish_start-AllSound _ (
        start_by-Good f.ftype (put dev i f') (
          set-Prepared false f.ftype i dev.filters f' h still
            (ground (arith, still, at-Sound dev.filters i h)) (λ k e. absurd (cc)) (λ k. refl)
            (λ k. refl)))

  pub filter_start-AllSound :
      (memory : Option (List ℕ)) (dev : Dmxdev D)
      → AllSound dev.filters
      → AllSound (filter_start ops hz jiffies memory i dev).1.filters
  unfolding filter_start
  filter_start-AllSound memory dev h =
      let running = runs (at dev i).state in
      let stopped : Dmxdev D = if running then (filter_stop ops i dev).1 else dev in
      let sound_behind =
        branch (λ (d : Dmxdev D). AllSound d.filters) running (filter_stop ops i dev).1 dev
          (filter_stop-AllSound ops i dev h) h in
      let still : runs (at stopped i).state ≡ false = elim (Bool-cases running) [
        | inl e ↦
            subst (λ b. runs (at (if b then (filter_stop ops i dev).1 else dev) i).state ≡ false)
              (sym e) (filter_stop-stopped ops i dev h)
        | inr e ↦
            subst (λ b. runs (at (if b then (filter_stop ops i dev).1 else dev) i).state ≡ false)
              (sym e) e
      ] in
      let memory' = or_else ops (at stopped i).buffer.mem memory in
      branch (λ (r : ℤ × Dmxdev D). AllSound r.1.filters) (is_set (at dev i).state)
        (start_with ops hz jiffies memory' i stopped) (einval, dev)
        (start_with-AllSound memory' stopped sound_behind still) h
