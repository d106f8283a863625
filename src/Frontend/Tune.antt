-- ===== src/Frontend/Tune.antt =====
-- Tuning: dvb_bend_frequency, dvb_frontend_set_parameters, update_delay, dvb_frontend_recover, a round of
-- dvb_frontend_thread, and dvb_frontend_ioctl. An `int` is an integer without bounds here, since its
-- overflow is undefined; unsigned numbers wrap around.
use tuxbox_git_driver.Common.{
  ℕ, zero, suc, ◌+◌, ◌-◌, ◌*◌, ◌/◌, ◌%◌, ◌^◌, List, [], ◌∷◌, Bool, true, false, not, ◌&&◌, ◌||◌,
  Option, none, some, ltb, leb, ◌==◌, if◌then◌else◌, bit_and,
}
use tuxbox_git_driver.Common.Int.{ℤ, pos, negsuc, pos_part, neg_part, ◌+ℤ◌, ◌-ℤ◌, ltb_ℤ, eqb_ℤ}
use tuxbox_git_driver.Kernel.{sub_size, as_ssize, enodev, erestartsys}
use tuxbox_git_driver.Frontend.{
  fe_timedout, fe_can_recover, fe_can_clean_setup, fe_qpsk, fe_qam, fe_ofdm, FrontendInfo,
  FrontendParameters, FeCommand, fe_init, fe_sleep, fe_reset, fe_read_status, fe_set_frontend,
  fe_get_frontend, fe_get_event, fe_diseqc, fe_other, FeArg, no_arg, Frontend, FrontendData,
  Neighbour, has_lock, dvb_frontend_internal_ioctl, dvb_call_frontend_notifiers,
  dvb_frontend_add_event, Wait, dvb_frontend_get_event,
}

-- Whether another front-end of the adapter is tuned to less than a step off this frequency.
unfoldable pub conflicts : ℕ → ℤ → ℤ → Neighbour → Bool
conflicts adapter_num stepsize frequency fe =
    let f = as_ssize fe.frequency +ℤ fe.lnb_drift +ℤ fe.bending in
    (fe.adapter_num == adapter_num)
    && not (eqb_ℤ fe.lost_sync_count (negsuc 0))
    && ltb_ℤ (f -ℤ stepsize) frequency
    && ltb_ℤ frequency (f +ℤ stepsize)

unfoldable pub any_conflict : ℕ → ℤ → ℤ → List Neighbour → Bool
any_conflict adapter_num stepsize frequency [] = false
any_conflict adapter_num stepsize frequency (fe ∷ fes) =
    conflicts adapter_num stepsize frequency fe || any_conflict adapter_num stepsize frequency fes

-- The recursion of dvb_bend_frequency from `bending` on. The source's `recursive` is 11 - left, and at
-- 11 it gives up, which the second component says.
unfoldable pub bend : ℕ → ℕ → ℤ → ℤ → List Neighbour → ℤ → ℤ × Bool
bend zero adapter_num stepsize base fes bending = (bending, false)
bend (suc left) adapter_num stepsize base fes bending =
    let recursive = 10 - left in
    let next = if recursive % 2 == 1 then bending +ℤ stepsize else pos 0 -ℤ bending in
    let rest = bend left adapter_num stepsize base fes next in
    if any_conflict adapter_num stepsize (base +ℤ bending) fes then rest else (bending, true)

-- What a call finds around it: the time, the other front-ends, this one's adapter, and whether the
-- semaphores of the front-ends and of the events are got.
pub record Moment : Type 0 where
  pub jiffies : ℕ
  pub neighbours : List Neighbour
  pub adapter_num : ℕ
  pub frontends_free : Bool
  pub events_free : Bool
  pub writers : ℕ

-- An `unsigned int` with an `int` added to it, or subtracted.
abbrev pub add_int : ℕ → ℤ → ℕ
add_int u z = (u + pos_part z % 2 ^ 32 + (2 ^ 32 - neg_part z % 2 ^ 32)) % 2 ^ 32

abbrev pub sub_int : ℕ → ℤ → ℕ
sub_int u z = (u + neg_part z % 2 ^ 32 + (2 ^ 32 - pos_part z % 2 ^ 32)) % 2 ^ 32

-- update_delay, with HZ of the kernel: the quality and the delay.
unfoldable pub update_delay : ℕ → Bool → ℕ → ℕ × ℕ
update_delay hz locked quality =
    let q = if locked then (quality * 220 + 36 * 256) / 256 else (quality * 220 + 0) / 256 in
    let off = if leb 128 q then q - 128 else 128 - q in (q, hz / 20 + off * off * hz / (128 * 128))

-- `j % n == 0` of C for an `int` j.
abbrev pub divides : ℕ → ℤ → Bool
divides n (pos j) = j % n == 0
divides n (negsuc j) = (j + 1) % n == 0

unfoldable pub step_of : FrontendInfo → FrontendParameters → ℤ
step_of info parameters = elim info.fe_type [
  | fe_qpsk ↦ pos (parameters.symbol_rate / 16000)
  | fe_qam ↦ pos 0
  | fe_ofdm ↦ as_ssize (info.frequency_stepsize * 2 % 2 ^ 32)
]

-- The next drift of the zigzag scan of dvb_frontend_recover.
unfoldable pub zigzag : ℤ → ℤ → ℤ → ℤ
zigzag stepsize j lnb_drift =
    if divides 32 j
    then pos 0
    else if divides 2 j
    then pos 0 -ℤ lnb_drift
    else pos 0 -ℤ lnb_drift +ℤ stepsize

unfoldable pub dvb_frontend_is_exiting : {Dev : Type 0} → ℕ → ℕ → Moment → FrontendData Dev → Bool
dvb_frontend_is_exiting hz dvb_shutdown_timeout m fe =
    fe.exit
    || ((m.writers == 1)
        && ltb (dvb_shutdown_timeout * hz % 2 ^ 32) (sub_size m.jiffies fe.release_jiffies))

module _ {Dev : Type 0} (frontend : Frontend Dev) (info : FrontendInfo) where
  unfoldable pub dvb_bend_frequency : Moment → FrontendData Dev → FrontendData Dev
  dvb_bend_frequency m fe =
      let stepsize = as_ssize info.frequency_stepsize in
      if eqb_ℤ stepsize (pos 0) || not m.frontends_free then fe else record fe {
        bending =
            (bend 11 m.adapter_num stepsize (as_ssize fe.parameters.frequency +ℤ fe.lnb_drift)
              m.neighbours (pos 0)).0;
      }

  -- The part of dvb_frontend_set_parameters under `first_trial`.
  unfoldable pub first_trial : Moment → FrontendParameters → FrontendData Dev → FrontendData Dev
  first_trial m param fe =
      let fe' = record fe {
        timeout_count = 0;
        lost_sync_count = pos 0;
        lost_sync_jiffies = m.jiffies;
        lnb_drift = pos 0;
      } in
      let told = dvb_frontend_add_event frontend info m.events_free m.jiffies 0 fe' in
      record (if fe.status - bit_and fe.status fe_timedout == 0 then fe' else told) {
        parameters = param;
      }

  -- The rest: the result, the parameters behind `param`, and the front-end.
  unfoldable pub tune :
      Moment → FrontendParameters → FrontendData Dev → ℤ × FrontendParameters × FrontendData Dev
  tune m param fe =
      let fe' = dvb_bend_frequency m fe in
      let off = fe'.lnb_drift +ℤ fe'.bending in
      let called =
        dvb_frontend_internal_ioctl frontend info fe_set_frontend
          (record no_arg { parameters = record param { frequency = add_int param.frequency off } })
          fe'.dev in
      let out = called.1.parameters in
      (
        called.0,
        record out { frequency = sub_int out.frequency off },
        record fe' { dev = called.2 },
      )

  unfoldable pub dvb_frontend_set_parameters :
      Moment → FrontendParameters → FrontendData Dev → ℤ × FrontendParameters × FrontendData Dev
  dvb_frontend_set_parameters m param fe = tune m param (first_trial m param fe)

  -- It passes the front-end's own parameters as `param`.
  unfoldable pub dvb_frontend_recover : Moment → FrontendData Dev → FrontendData Dev
  dvb_frontend_recover m fe =
      let fe' = record fe {
        lnb_drift = zigzag (step_of info fe.parameters) fe.lost_sync_count fe.lnb_drift;
      } in
      let tuned = tune m fe'.parameters fe' in
      let fe'' : FrontendData Dev = record tuned.2 { parameters = tuned.1 } in
      record fe'' { dev = (dvb_frontend_internal_ioctl frontend info fe_reset no_arg fe''.dev).2 }

-- The local variables of dvb_frontend_thread. FE_READ_STATUS stores into `s`.
pub record Thread : Type 0 where
  pub quality : ℕ
  pub delay : ℕ
  pub s : ℕ

-- Whether the core recovers for the front-end, and whether it waits for ten losses first.
unfoldable pub recovers : FrontendInfo → Bool
recovers info = bit_and info.caps fe_can_recover == 0

unfoldable pub waits : FrontendInfo → ℤ → Bool
waits info lost_sync_count =
    recovers info && (bit_and info.caps fe_can_clean_setup == 0) && ltb_ℤ lost_sync_count (pos 10)

module _ {Dev : Type 0} (frontend : Frontend Dev) (info : FrontendInfo) (hz : ℕ) where
  -- The recovery of a round without a lock, and the next delay.
  unfoldable pub try_recovery : Moment → Thread → FrontendData Dev → Thread × FrontendData Dev
  try_recovery m t fe =
      if recovers info
      then (record t { delay = hz / 5 }, dvb_frontend_recover frontend info m fe)
      else (t, fe)

  -- The time since the lock was lost. FE_TIMEDOUT is not in `s` yet.
  unfoldable pub time_out : Moment → Thread × FrontendData Dev → Thread × FrontendData Dev
  time_out m r =
      if ltb (2 * hz) (sub_size m.jiffies r.1.lost_sync_jiffies)
      then (
        record r.0 { s = r.0.s + fe_timedout },
        record r.1 {
          timeout_count =
              if bit_and r.1.status fe_timedout == 0
              then r.1.timeout_count + 1
              else r.1.timeout_count;
        },
      )
      else r

  -- The last test of a round.
  unfoldable pub tell : Moment → Thread × FrontendData Dev → Thread × FrontendData Dev
  tell m r = (
    r.0,
    if r.0.s == r.1.status
        then r.1
        else dvb_frontend_add_event frontend info m.events_free m.jiffies r.0.s r.1,
  )

  -- A round that reads the status.
  unfoldable pub watch : Moment → Thread → FrontendData Dev → Thread × FrontendData Dev
  watch m t fe =
      let read =
        dvb_frontend_internal_ioctl frontend info fe_read_status (record no_arg { status = t.s })
          fe.dev in
      let s = read.1.status in
      let updated = update_delay hz (has_lock s) t.quality in
      let t' : Thread = record {
        quality = updated.0;
        delay = updated.1;
        s = s - bit_and s fe_timedout;
      } in
      let fe' = record fe { dev = read.2 } in
      let lost = record fe' { lost_sync_count = fe'.lost_sync_count +ℤ pos 1 } in
      if has_lock t'.s
      then tell m (t', record fe' { timeout_count = 0; lost_sync_count = pos 0 })
      else if waits info lost.lost_sync_count
      then (t', lost)
      else tell m (time_out m (try_recovery m t' lost))

  -- A round behind the sleep and the semaphore; `none`: the loop breaks.
  unfoldable pub thread_round :
      ℕ → Moment → Thread → FrontendData Dev → Option (Thread × FrontendData Dev)
  thread_round dvb_shutdown_timeout m t fe =
      if eqb_ℤ fe.lost_sync_count (negsuc 0)
      then some (t, fe)
      else if dvb_frontend_is_exiting hz dvb_shutdown_timeout m fe
      then none
      else some (watch m t fe)

-- dvb_frontend_ioctl behind its semaphore. The commands of a tone or a switch and the others return 0
-- whatever the driver returns.
module _ {Dev : Type 0} (frontend : Frontend Dev) (info : FrontendInfo) where
  unfoldable pub pass_on : FeCommand → FeArg → FrontendData Dev → ℤ × FeArg × FrontendData Dev
  pass_on cmd arg fe =
      let called = dvb_frontend_internal_ioctl frontend info cmd arg fe.dev in
      (pos 0, called.1, record fe { dev = called.2 })

  unfoldable pub dispatch :
      Moment → Bool → Wait → FeCommand → FeArg → FrontendData Dev → ℤ × FeArg × FrontendData Dev
  dispatch m nonblock w (fe_diseqc n) arg fe =
      pass_on (fe_diseqc n) arg
        (if fe.status == 0 then fe else dvb_call_frontend_notifiers frontend info m.jiffies 0 fe)
  dispatch m nonblock w fe_set_frontend arg fe =
      let r = dvb_frontend_set_parameters frontend info m arg.parameters fe in
      (r.0, record arg { parameters = r.1 }, r.2)
  dispatch m nonblock w fe_get_event arg fe =
      let r = dvb_frontend_get_event nonblock w fe.events in
      (r.0, elim r.1 [ none ↦ arg | some e ↦ record arg { event = e } ], record fe { events = r.2 })
  dispatch m nonblock w fe_get_frontend arg fe =
      pass_on fe_get_frontend (record arg { parameters = fe.parameters }) fe
  dispatch m nonblock w fe_init arg fe = pass_on fe_init arg fe
  dispatch m nonblock w fe_sleep arg fe = pass_on fe_sleep arg fe
  dispatch m nonblock w fe_reset arg fe = pass_on fe_reset arg fe
  dispatch m nonblock w fe_read_status arg fe = pass_on fe_read_status arg fe
  dispatch m nonblock w (fe_other n) arg fe = pass_on (fe_other n) arg fe

  -- `free` is whether the semaphore of the front-end is got.
  unfoldable pub dvb_frontend_ioctl :
      Bool
      → Moment
      → Bool
      → Wait
      → FeCommand
      → FeArg
      → FrontendData Dev
      → ℤ × FeArg × FrontendData Dev
  dvb_frontend_ioctl free m nonblock w cmd arg fe =
      if fe.exit
      then (enodev, arg, fe)
      else if free
      then dispatch m nonblock w cmd arg fe
      else (erestartsys, arg, fe)
