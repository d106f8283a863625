-- ===== src/Frontend/Bounds.antt =====
-- The thread's estimate of the quality and its delay stay in their ranges, and the zigzag scan of a
-- front-end without a lock stays near the frequency asked for.
use tuxbox_git_driver.Common.{
  ℕ, zero, suc, ◌+◌, ◌-◌, ◌*◌, ◌/◌, ◌%◌, ◌≤◌, ◌≡◌, Bool, true, false, none, some, leb, ltb, ◌==◌,
  if◌then◌else◌, arith, bit_and, subst, dec_lt, ℕ_discrete,
}
use mathlib.Core.Option.{some-injective}
use tuxbox_git_driver.Kernel.{sub_size}
use native.Mathlib.Nat.{add-mul, mul-le-mul, mul-le-mul_right, div-le_of_le-mul}
use tuxbox_git_driver.Common.Int.{ℤ, pos, negsuc, ◌+ℤ◌, ◌-ℤ◌, sub_ℕ, eqb_ℤ}
use tuxbox_git_driver.Frontend.{
  FrontendInfo, Frontend, FrontendData, fe_timedout, has_lock, dvb_frontend_internal_ioctl,
  fe_read_status, no_arg,
}
use tuxbox_git_driver.Frontend.Tune.{
  update_delay, zigzag, Moment, Thread, thread_round, watch, tell, try_recovery, time_out, recovers,
  waits, dvb_frontend_is_exiting,
}

-- What a loop of losses makes of the drift, from a new tuning on.
abbrev pub scan : ℤ → ℕ → ℤ
scan stepsize zero = pos 0
scan stepsize (suc n) = zigzag stepsize (pos (suc n)) (scan stepsize n)

turn_on :
    (step n : ℕ)
    → zigzag
        (pos step)
        (pos (suc n))
        (let k = n % 32 in if k % 2 == 1 then pos ((k + 1) / 2 * step) else sub_ℕ 0 (k / 2 * step))
      ≡ (let k = suc n % 32 in
          if k % 2 == 1 then pos ((k + 1) / 2 * step) else sub_ℕ 0 (k / 2 * step))
unfolding zigzag ◌+ℤ◌ ◌-ℤ◌
turn_on step n = elim (dec_lt (n % 32) 31) [
  | no p ↦ let zero_again : suc n % 32 ≡ 0 = omega arith in rw zero_again (ground arith)
  | yes p ↦
      let on : suc n % 32 ≡ n % 32 + 1 = omega arith in
      elim (ℕ_discrete (n % 32 % 2) 1) [
        | yes odd ↦
            let even : suc n % 2 ≡ 0 = omega arith in
            let odd' : (n % 32 + 1) % 2 ≡ 0 = omega arith in rw (on, odd, even, odd') (ground arith)
        | no even ↦
            let half : (n % 32 + 1 + 1) / 2 ≡ n % 32 / 2 + 1 = omega arith in
            let even' : n % 32 % 2 ≡ 0 = omega arith in
            let odd : suc n % 2 ≡ 1 = omega arith in
            let odd' : (n % 32 + 1) % 2 ≡ 1 = omega arith in
            rw (on, even', odd, odd', half) (ground (arith, add-mul (n % 32 / 2) 1 step))
      ]
]

-- After n rounds without a lock since a tuning, the zigzag scan of dvb_frontend_recover with a step of 0
-- or more has the drift of the place n % 32 in its turn: 0, 1, -1, 2, -2 and so on up to 15, -15 and 16
-- steps.
pub scan_lem :
    (step n : ℕ)
    → scan (pos step) n
      ≡ (let k = n % 32 in if k % 2 == 1 then pos ((k + 1) / 2 * step) else sub_ℕ 0 (k / 2 * step))
scan_lem step zero = ground arith
scan_lem step (suc n) = rw (scan_lem step n) (turn_on step n)

update_delay_lem :
    (hz : ℕ) (locked : Bool) (quality : ℕ)
    → quality ≤ 249
    → let r = update_delay hz locked quality in (r.0 ≤ 249) × (hz / 20 ≤ r.1) × (r.1 ≤ hz / 20 + hz)
unfolding update_delay
update_delay_lem hz locked quality h =
    let q = if locked then (quality * 220 + 36 * 256) / 256 else (quality * 220 + 0) / 256 in
    let small : q ≤ 249 = ground arith in
    let off = if leb 128 q then q - 128 else 128 - q in
    let near : off ≤ 128 = off_lem q small in
    let square : off * off ≤ 128 * 128 = mul-le-mul near near in
    let scaled : off * off * hz ≤ 128 * 128 * hz = mul-le-mul_right hz square in
    (small, omega arith, omega (arith, div-le_of_le-mul (128 * 128) scaled))
  where
    off_lem : (q : ℕ) → q ≤ 249 → (if leb 128 q then q - 128 else 128 - q) ≤ 128
    off_lem q h = ground arith

pub record IsSettled (hz : ℕ) (t : Thread) : Type 0 where
  pub quality_below : t.quality ≤ 249
  pub delay_below : t.delay ≤ 3 * hz

last_of :
    {X : Type 0} (P : X → Type 0) (b c : Bool) (x y r : X)
    → P x
    → P y
    → (if b then some x else if c then none else some y) ≡ some r
    → P r
last_of P true c x y r p q e = subst P (some-injective _ _ e) p
last_of P false true x y r p q e = absurd (ground arith)
last_of P false false x y r p q e = subst P (some-injective _ _ e) q

branch : {X : Type 0} (P : X → Type 0) (b : Bool) (x y : X) → P x → P y → P (if b then x else y)
branch P true x y p q = p
branch P false x y p q = q

module _ {Dev : Type 0} (frontend : Frontend Dev) (info : FrontendInfo) (hz : ℕ) where
  abbrev Settles : Thread × FrontendData Dev → Type 0
  Settles r = IsSettled hz r.0

  try_recovery-Settles :
      (m : Moment) (t : Thread) (fe : FrontendData Dev)
      → IsSettled hz t
      → Settles (try_recovery frontend info hz m t fe)
  unfolding try_recovery
  try_recovery-Settles m t fe settled =
      branch Settles (recovers info) _ _
        (record { quality_below = settled.quality_below; delay_below = omega arith }) settled

  time_out-Settles :
      (m : Moment) (r : Thread × FrontendData Dev)
      → Settles r
      → Settles (time_out frontend info hz m r)
  unfolding time_out
  time_out-Settles m r settled =
      branch Settles (ltb (2 * hz) (sub_size m.jiffies r.1.lost_sync_jiffies)) _ _
        (record { quality_below = settled.quality_below; delay_below = settled.delay_below })
        settled

  watch-IsSettled :
      (m : Moment) (t : Thread) (fe : FrontendData Dev)
      → IsSettled hz t
      → IsSettled hz (watch frontend info hz m t fe).0
  unfolding watch tell
  watch-IsSettled m t fe settled =
      let read =
        dvb_frontend_internal_ioctl frontend info fe_read_status (record no_arg { status = t.s })
          fe.dev in
      let s = read.1.status in
      let bounds = update_delay_lem hz (has_lock s) t.quality settled.quality_below in
      let fresh : IsSettled hz (record t {
        quality = (update_delay hz (has_lock s) t.quality).0;
        delay = (update_delay hz (has_lock s) t.quality).1;
      }) =
        record { quality_below = bounds.0; delay_below = omega (arith, bounds.2) } in
      branch Settles (has_lock (s - bit_and s fe_timedout)) _ _
        (record { quality_below = fresh.quality_below; delay_below = fresh.delay_below })
        (branch Settles (waits info (fe.lost_sync_count +ℤ pos 1)) _ _
          (record { quality_below = fresh.quality_below; delay_below = fresh.delay_below })
          (time_out-Settles _ _ (
            try_recovery-Settles _ _ _
              (record { quality_below = fresh.quality_below; delay_below = fresh.delay_below }))))

  -- A round of the thread keeps the quality at most 249 and the delay at most three seconds, which the
  -- thread starts with, whatever the front-end answers.
  pub thread_round_bounds :
      (dvb_shutdown_timeout : ℕ) (m : Moment) (t t' : Thread) (fe fe' : FrontendData Dev)
      → IsSettled hz t
      → thread_round frontend info hz dvb_shutdown_timeout m t fe ≡ some (t', fe')
      → IsSettled hz t'
  unfolding thread_round
  thread_round_bounds dvb_shutdown_timeout m t t' fe fe' settled e =
      last_of Settles (eqb_ℤ fe.lost_sync_count (negsuc 0))
        (dvb_frontend_is_exiting hz dvb_shutdown_timeout m fe) (t, fe)
        (watch frontend info hz m t fe) (t', fe') settled (watch-IsSettled m t fe settled) e
