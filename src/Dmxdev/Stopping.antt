-- ===== src/Dmxdev/Stopping.antt =====
-- dvb_dmxdev_filter_stop keeps the filters sound, and leaves its filter stopped.
use tuxbox_git_driver.Common.{
  ℕ, ◌≡◌, refl, sym, subst, true, false, Option, none, some, if◌then◌else◌, arith, get_or,
  Bool-cases, inl, inr,
}
use tuxbox_git_driver.Common.Int.{ℤ, pos}
use tuxbox_git_driver.Dmxdev.Filters.{
  FilterType, type_none, type_sec, type_pes, runs, DmxDemux, Dmxdev, no_filter,
}
use tuxbox_git_driver.Dmxdev.Feeds.{
  at, feed_stop, feed_restart, release_own, stop_section, stop_pes, stop_by, filter_stop, rewind,
}
use tuxbox_git_driver.Dmxdev.Running.{
  is_some, typed, AllSound, at-Sound, set-AllSound, still-set_self, branch, feed_stop-filters,
  feed_restart-stopped, finish_stop,
}

module _ {D : Type 0} (ops : DmxDemux D) where
  feed_stop-AllSound :
      (i : ℕ) (dev : Dmxdev D) → AllSound dev.filters → AllSound (feed_stop ops i dev).1.filters
  feed_stop-AllSound i dev h =
      let good = at-Sound dev.filters i h in
      subst AllSound (sym (feed_stop-filters ops i dev))
        (set-AllSound dev.filters i _ h (ground (arith, good)))

  feed_stop-stopped : (i : ℕ) (dev : Dmxdev D) → runs (at (feed_stop ops i dev).1 i).state ≡ false
  feed_stop-stopped i dev =
      subst (λ fs. runs (get_or fs i no_filter).state ≡ false) (sym (feed_stop-filters ops i dev))
        (still-set_self dev.filters i _ refl)

  release_own-filters :
      (sf : Option ℕ) (feed : ℕ) (dev : Dmxdev D)
      → (release_own ops sf feed dev).filters ≡ dev.filters
  unfolding release_own
  release_own-filters none feed dev = refl
  release_own-filters (some sf) feed dev = refl

  stop_section-AllSound :
      (i feed : ℕ) (dev : Dmxdev D)
      → AllSound dev.filters
      → AllSound (stop_section ops i feed dev).filters
  unfolding stop_section
  stop_section-AllSound i feed dev h =
      let stopped = (feed_stop ops i dev).1 in
      let same = release_own-filters (at stopped i).filter feed stopped in
      finish_stop ops i (release_own ops (at stopped i).filter feed stopped)
        (subst AllSound (sym same) (feed_stop-AllSound i dev h))
        (subst (λ fs. runs (get_or fs i no_filter).state ≡ false) (sym same)
          (feed_stop-stopped i dev))

  stop_pes-AllSound :
      (i feed : ℕ) (dev : Dmxdev D)
      → AllSound dev.filters
      → AllSound (stop_pes ops i feed dev).filters
  unfolding stop_pes
  stop_pes-AllSound i feed dev h =
      let h' = feed_stop-AllSound i dev h in
      let stopped = (feed_stop ops i dev).1 in
      set-AllSound stopped.filters i _ h'
        (ground (arith, at-Sound stopped.filters i h', feed_stop-stopped i dev))

  pub rewind-AllSound :
      (i : ℕ) (dev : Dmxdev D) → AllSound dev.filters → AllSound (rewind ops i dev).1.filters
  rewind-AllSound i dev h =
      set-AllSound dev.filters i _ h (ground (arith, at-Sound dev.filters i h))

  stop_by-AllSound :
      (t : FilterType) (feed : Option ℕ) (i : ℕ) (dev : Dmxdev D)
      → AllSound dev.filters
      → AllSound (stop_by ops t feed i dev).1.filters
  unfolding stop_by
  stop_by-AllSound type_sec none i dev h = rewind-AllSound i dev h
  stop_by-AllSound type_sec (some feed) i dev h =
      rewind-AllSound i (stop_section ops i feed dev) (stop_section-AllSound i feed dev h)
  stop_by-AllSound type_pes none i dev h = rewind-AllSound i dev h
  stop_by-AllSound type_pes (some feed) i dev h =
      rewind-AllSound i (stop_pes ops i feed dev) (stop_pes-AllSound i feed dev h)
  stop_by-AllSound type_none feed i dev h = h

  pub filter_stop-AllSound :
      (i : ℕ) (dev : Dmxdev D) → AllSound dev.filters → AllSound (filter_stop ops i dev).1.filters
  unfolding filter_stop
  filter_stop-AllSound i dev h =
      branch (λ (r : ℤ × Dmxdev D). AllSound r.1.filters) (runs (at dev i).state) _ _
        (stop_by-AllSound (at dev i).ftype (at dev i).feed i dev h) h

  -- Behind dvb_dmxdev_filter_stop the filter does not run.
  stop_section-stopped :
      (i feed : ℕ) (dev : Dmxdev D) → runs (at (stop_section ops i feed dev) i).state ≡ false
  unfolding stop_section
  stop_section-stopped i feed dev =
      let stopped = (feed_stop ops i dev).1 in
      let own = release_own ops (at stopped i).filter feed stopped in
      still-set_self (feed_restart ops i own).filters i _ (
        feed_restart-stopped ops i own (
          subst (λ fs. runs (get_or fs i no_filter).state ≡ false)
            (sym (release_own-filters (at stopped i).filter feed stopped))
            (feed_stop-stopped i dev)))

  stop_pes-stopped :
      (i feed : ℕ) (dev : Dmxdev D) → runs (at (stop_pes ops i feed dev) i).state ≡ false
  unfolding stop_pes
  stop_pes-stopped i feed dev =
      still-set_self (feed_stop ops i dev).1.filters i _ (feed_stop-stopped i dev)

  stop_by-stopped :
      (t : FilterType) (feed : Option ℕ) (i : ℕ) (dev : Dmxdev D)
      → typed t ≡ true
      → is_some feed ≡ true
      → runs (at (stop_by ops t feed i dev).1 i).state ≡ false
  unfolding stop_by
  stop_by-stopped type_sec none i dev h k = absurd (cc)
  stop_by-stopped type_sec (some feed) i dev h k =
      still-set_self (stop_section ops i feed dev).filters i _ (stop_section-stopped i feed dev)
  stop_by-stopped type_pes none i dev h k = absurd (cc)
  stop_by-stopped type_pes (some feed) i dev h k =
      still-set_self (stop_pes ops i feed dev).filters i _ (stop_pes-stopped i feed dev)
  stop_by-stopped type_none feed i dev h k = absurd (cc)

  pub filter_stop-stopped :
      (i : ℕ) (dev : Dmxdev D)
      → AllSound dev.filters
      → runs (at (filter_stop ops i dev).1 i).state ≡ false
  unfolding filter_stop
  filter_stop-stopped i dev h =
      let good = at-Sound dev.filters i h in
      elim (Bool-cases (runs (at dev i).state)) [
        | inl e ↦
            subst
              (λ b.
                runs
                  (at
                    (if b
                      then stop_by ops (at dev i).ftype (at dev i).feed i dev
                      else (pos 0, dev)).1
                    i).state
                ≡ false)
              (sym e)
              (stop_by-stopped (at dev i).ftype (at dev i).feed i dev (ground (arith, e, good))
                (ground (arith, e, good)))
        | inr e ↦
            subst
              (λ b.
                runs
                  (at
                    (if b
                      then stop_by ops (at dev i).ftype (at dev i).feed i dev
                      else (pos 0, dev)).1
                    i).state
                ≡ false)
              (sym e) e
      ]
