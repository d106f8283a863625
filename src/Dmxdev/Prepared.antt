-- ===== src/Dmxdev/Prepared.antt =====
-- A filter on its way to DMXDEV_STATE_GO in dvb_dmxdev_filter_start.
use tuxbox_git_driver.Common.{
  ℕ, zero, suc, ◌≤◌, ◌<◌, ◌≡◌, refl, ap, sym, subst, ◌∙◌, List, [], ◌∷◌, Bool, true, false, Option,
  arith, length, length-set, get_or, set, dec_lt,
}
use tuxbox_git_driver.Dmxdev.Filters.{
  FilterType, type_sec, type_pes, state_go, runs, DmxdevFilter, no_filter,
}
use tuxbox_git_driver.Dmxdev.Running.{
  is_some, sound, AllSound, at-Sound, set-AllSound, set_twice, set_self, still-set_self,
}

-- A filter that is about to start: it does not run, and has memory, its type and, if `fed`, a feed.
pub record Prepared (fed : Bool) (t : FilterType) (i : ℕ) (fs : List DmxdevFilter) : Type 0 where
  pub all : AllSound fs
  pub still : runs (get_or fs i no_filter).state ≡ false
  pub has_feed : i < length fs → fed ≡ true → is_some (get_or fs i no_filter).feed ≡ true
  pub has_mem : i < length fs → is_some (get_or fs i no_filter).buffer.mem ≡ true
  pub has_type : i < length fs → (get_or fs i no_filter).ftype ≡ t

pub set-Prepared :
    (fed : Bool) (t : FilterType) (i : ℕ) (fs : List DmxdevFilter) (f : DmxdevFilter)
    → AllSound fs
    → runs f.state ≡ false
    → is_some f.timer ≡ false
    → (i < length fs → fed ≡ true → is_some f.feed ≡ true)
    → (i < length fs → is_some f.buffer.mem ≡ true)
    → (i < length fs → f.ftype ≡ t)
    → Prepared fed t i (set fs i f)
set-Prepared fed t i fs f all still quiet feed mem kind =
    let short = length-set fs i f in
    record {
      all = set-AllSound fs i f all (ground arith);
      still = still-set_self fs i f still;
      has_feed = λ h e.
          let h' : i < length fs = omega arith in
          subst (λ g. is_some g.feed ≡ true) (sym (set_self fs i f h')) (feed h' e);
      has_mem = λ h.
          let h' : i < length fs = omega arith in
          subst (λ g. is_some g.buffer.mem ≡ true) (sym (set_self fs i f h')) (mem h');
      has_type = λ h.
          let h' : i < length fs = omega arith in
          subst (λ g. g.ftype ≡ t) (sym (set_self fs i f h')) (kind h');
    }

pub set_past : (fs : List DmxdevFilter) (i : ℕ) (f : DmxdevFilter) → length fs ≤ i → set fs i f ≡ fs
set_past [] i f h = refl
set_past (g ∷ fs) zero f h = absurd (omega arith)
set_past (g ∷ fs) (suc i) f h = ap (◌∷◌ g) (set_past fs i f (omega arith))

pub quiet_lem :
    {fed : Bool} {t : FilterType} (i : ℕ) (fs : List DmxdevFilter)
    → Prepared fed t i fs
    → is_some (get_or fs i no_filter).timer ≡ false
quiet_lem i fs p = ground (arith, p.still, at-Sound fs i p.all)

-- Where the state of a prepared filter becomes DMXDEV_STATE_GO, of a section filter with a timer.
pub go-AllSound :
    (i : ℕ) (fs : List DmxdevFilter)
    → Prepared true type_pes i fs
    → AllSound (set fs i (record (get_or fs i no_filter) { state = state_go }))
go-AllSound i fs p = elim (dec_lt i (length fs)) [
  | yes h ↦
      set-AllSound fs i _ p.all
        (ground (arith, p.has_feed h refl, p.has_mem h, p.has_type h, quiet_lem i fs p))
  | no h ↦ subst AllSound (sym (set_past fs i _ (omega arith))) p.all
]

pub timed-AllSound :
    (i : ℕ) (fs : List DmxdevFilter) (timer : Option ℕ)
    → Prepared true type_sec i fs
    → let timed = set fs i (record (get_or fs i no_filter) { timer = timer }) in
      AllSound (set timed i (record (get_or timed i no_filter) { state = state_go }))
timed-AllSound i fs timer p =
    let f : DmxdevFilter = record (get_or fs i no_filter) { timer = timer } in
    elim (dec_lt i (length fs)) [
      | yes h ↦ subst AllSound (sym (set_twice fs i f _)) (
          set-AllSound fs i _ p.all (
            subst (λ g. sound (record g { state = state_go }) ≡ true) (sym (set_self fs i f h))
              (ground (arith, p.has_feed h refl, p.has_mem h, p.has_type h))))
      | no h ↦ subst AllSound (sym (set_twice fs i f _ ∙ set_past fs i _ (omega arith))) p.all
    ]
