-- ===== src/Dmxdev/Running.antt =====
-- What the calls of the demultiplexer device keep of its filters: a filter that is running has a type, a
-- feed and memory, and a timer runs only for a section filter that is running.
use tuxbox_git_driver.Common.{
  ℕ, zero, suc, ◌<◌, ◌≡◌, ◌⊎◌, refl, ap, sym, subst, List, [], ◌∷◌, Bool, true, false, not, ◌&&◌,
  ◌||◌, Option, none, some, if◌then◌else◌, arith, length, get_or, set, Option-cases, inl, inr,
}
use tuxbox_git_driver.Dmxdev.Filters.{
  FilterType, type_none, type_sec, state_set, state_go, runs, DmxdevFilter, DmxDemux, Dmxdev,
  no_filter, running_on,
}
use tuxbox_git_driver.Dmxdev.Feeds.{at, put, feed_stop, feed_start, restart_on, feed_restart}

abbrev pub is_some : {A : Type 0} → Option A → Bool
is_some none = false
is_some (some a) = true

abbrev pub is_sec : FilterType → Bool
is_sec type_sec = true
is_sec _ = false

abbrev pub typed : FilterType → Bool
typed type_none = false
typed _ = true

abbrev pub ready : DmxdevFilter → Bool
ready f = is_some f.feed && (is_some f.buffer.mem && typed f.ftype)

abbrev pub sound : DmxdevFilter → Bool
sound f =
    if runs f.state
    then ready f && (is_sec f.ftype || not (is_some f.timer))
    else not (is_some f.timer)

abbrev pub AllSound : List DmxdevFilter → Type 0
AllSound [] = Unit {0}
AllSound (f ∷ fs) = (sound f ≡ true) × AllSound fs

pub at-Sound : (fs : List DmxdevFilter) (i : ℕ) → AllSound fs → sound (get_or fs i no_filter) ≡ true
at-Sound [] i h = refl
at-Sound (f ∷ fs) zero h = h.0
at-Sound (f ∷ fs) (suc i) h = at-Sound fs i h.1

pub set-AllSound :
    (fs : List DmxdevFilter) (i : ℕ) (f : DmxdevFilter)
    → AllSound fs
    → sound f ≡ true
    → AllSound (set fs i f)
set-AllSound [] i f h s = tt
set-AllSound (g ∷ fs) zero f h s = (s, h.1)
set-AllSound (g ∷ fs) (suc i) f h s = (h.0, set-AllSound fs i f h.1 s)

pub set_twice :
    (fs : List DmxdevFilter) (i : ℕ) (f g : DmxdevFilter) → set (set fs i f) i g ≡ set fs i g
set_twice [] i f g = refl
set_twice (h ∷ fs) zero f g = refl
set_twice (h ∷ fs) (suc i) f g = ap (◌∷◌ h) (set_twice fs i f g)

pub set_self :
    (fs : List DmxdevFilter) (i : ℕ) (f : DmxdevFilter)
    → i < length fs
    → get_or (set fs i f) i no_filter ≡ f
set_self [] i f h = absurd (omega arith)
set_self (g ∷ fs) zero f h = refl
set_self (g ∷ fs) (suc i) f h = set_self fs i f (omega arith)

-- Where a filter is not running before and behind a change of another place or of its own.
pub still-set :
    (fs : List DmxdevFilter) (i j : ℕ) (f : DmxdevFilter)
    → runs (get_or fs i no_filter).state ≡ false
    → (i ≡ j → runs f.state ≡ false)
    → runs (get_or (set fs j f) i no_filter).state ≡ false
still-set [] i j f h s = refl
still-set (g ∷ fs) zero zero f h s = s refl
still-set (g ∷ fs) zero (suc j) f h s = h
still-set (g ∷ fs) (suc i) zero f h s = h
still-set (g ∷ fs) (suc i) (suc j) f h s = still-set fs i j f h (λ e. s (ap suc e))

pub still-set_self :
    (fs : List DmxdevFilter) (i : ℕ) (f : DmxdevFilter)
    → runs f.state ≡ false
    → runs (get_or (set fs i f) i no_filter).state ≡ false
still-set_self [] i f h = refl
still-set_self (g ∷ fs) zero f h = h
still-set_self (g ∷ fs) (suc i) f h = still-set_self fs i f h

-- What running_on finds runs, and stands where it says.
abbrev Found : List DmxdevFilter → Option (ℕ × DmxdevFilter) → Type 0
Found fs none = Unit {0}
Found fs (some (j, g)) = (get_or fs j no_filter ≡ g) × (runs g.state ≡ true) × (j < length fs)

running_on-Found : (pid : ℕ) (fs : List DmxdevFilter) → Found fs (running_on pid fs)
unfolding running_on
running_on-Found pid [] = tt
running_on-Found pid (f ∷ fs) = elim (Option-cases (running_on pid fs)) [
  | inl e ↦ ground (arith, e)
  | inr ((j, g), e) ↦ let there = subst (Found fs) e (running_on-Found pid fs) in ground (arith, e)
]

pub branch {ℓ} :
    {X : Type 0} (P : X → Type ℓ) (b : Bool) (x y : X) → P x → P y → P (if b then x else y)
branch P true x y p q = p
branch P false x y p q = q

module _ {D : Type 0} (ops : DmxDemux D) where
  pub feed_stop-filters :
      (i : ℕ) (dev : Dmxdev D)
      → let f = at dev i in
        (feed_stop ops i dev).1.filters
        ≡ set dev.filters i
            (record f { state = state_set; timer = if is_sec f.ftype then none else f.timer })
  unfolding feed_stop
  feed_stop-filters i dev = ground arith

  feed_start-filters :
      (i : ℕ) (dev : Dmxdev D)
      → (feed_start ops i dev).1.filters
        ≡ set dev.filters i (record (at dev i) { state = state_go })
  unfolding feed_start
  feed_start-filters i dev = ground arith

  restart_on-cases :
      (r : Option (ℕ × DmxdevFilter)) (i : ℕ) (dev : Dmxdev D)
      → Found dev.filters r
      → ((restart_on ops r i dev).filters ≡ dev.filters)
        ⊎ ((j : ℕ) × ((restart_on ops r i dev).filters
              ≡ set dev.filters j (record (at dev j) { state = state_go }))
            × (runs (at dev j).state ≡ true))
  unfolding restart_on
  restart_on-cases none i dev h = inl refl
  restart_on-cases (some (j, g)) i dev (there, going, _) =
      inr (j, feed_start-filters j dev, rw there going)

  feed_restart-cases :
      (i : ℕ) (dev : Dmxdev D)
      → ((feed_restart ops i dev).filters ≡ dev.filters)
        ⊎ ((j : ℕ) × ((feed_restart ops i dev).filters
              ≡ set dev.filters j (record (at dev j) { state = state_go }))
            × (runs (at dev j).state ≡ true))
  unfolding feed_restart
  feed_restart-cases i dev =
      restart_on-cases (running_on (at dev i).sec.pid dev.filters) i dev
        (running_on-Found (at dev i).sec.pid dev.filters)

  pub feed_restart-AllSound :
      (i : ℕ) (dev : Dmxdev D) → AllSound dev.filters → AllSound (feed_restart ops i dev).filters
  feed_restart-AllSound i dev h = elim (feed_restart-cases i dev) [
    | inl e ↦ subst AllSound (sym e) h
    | inr (j, e, going) ↦
        let good = at-Sound dev.filters j h in
        subst AllSound (sym e) (set-AllSound dev.filters j _ h (ground (arith, going, good)))
  ]

  pub feed_restart-stopped :
      (i : ℕ) (dev : Dmxdev D)
      → runs (at dev i).state ≡ false
      → runs (at (feed_restart ops i dev) i).state ≡ false
  feed_restart-stopped i dev still = elim (feed_restart-cases i dev) [
    | inl e ↦ subst (λ fs. runs (get_or fs i no_filter).state ≡ false) (sym e) still
    | inr (j, e, going) ↦
        subst (λ fs. runs (get_or fs i no_filter).state ≡ false) (sym e)
          (still-set dev.filters i j _ still
            (λ same. absurd (cc (still, going, ap (λ k. runs (at dev k).state) same))))
  ]

  pub finish_stop :
      (i : ℕ) (dev : Dmxdev D)
      → AllSound dev.filters
      → runs (at dev i).state ≡ false
      → let restarted = feed_restart ops i dev in
        AllSound (put restarted i (record (at restarted i) { feed = none })).filters
  finish_stop i dev h still =
      let restarted = feed_restart ops i dev in
      let h' = feed_restart-AllSound i dev h in
      let good = at-Sound restarted.filters i h' in
      set-AllSound restarted.filters i _ h' (ground (arith, good, feed_restart-stopped i dev still))
