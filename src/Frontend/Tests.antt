-- ===== src/Frontend/Tests.antt =====
-- The theorems on front-ends at a driver that stores the frequency it is given.
use tuxbox_git_driver.Common.{
  ℕ, ◌-◌, ◌≡◌, refl, [], ◌∷◌, ◌++◌, true, false, none, length, replicate, arith, ◌==◌,
  if◌then◌else◌,
}
use tuxbox_git_driver.Common.Int.{ℤ, pos, ◌+ℤ◌, ◌-ℤ◌}
use tuxbox_git_driver.Frontend.{
  FrontendEvent, FeEvents, FrontendInfo, Frontend, FrontendData, FeCommand, fe_set_frontend,
  fe_reset, FeArg, no_arg, Neighbour, Wait, fe_ofdm, max_event, no_event, no_parameters,
  store_event, dvb_frontend_get_event, dvb_frontend_internal_ioctl,
}
use tuxbox_git_driver.Frontend.Queue.{
  IsValid, waiting, keep_last, store_event_lem, spec_get_event, view, seen, get_event_refines,
}
use tuxbox_git_driver.Frontend.Tune.{
  Moment, Thread, bend, any_conflict, thread_round, watch, update_delay, dvb_frontend_recover,
  zigzag, step_of, waits, recovers, dvb_frontend_is_exiting,
}
use tuxbox_git_driver.Frontend.RoundTrip.{IsQuiet, shifted, recover_lem}
use tuxbox_git_driver.Frontend.Bending.{bend_lem}
use tuxbox_git_driver.Frontend.Bounds.{IsSettled, thread_round_bounds}

-- An event with the lock.
abbrev locked : FrontendEvent
locked = record { status = 0x1f; parameters = no_parameters }

-- Seven events, around the end of the array.
abbrev seven : FeEvents
seven = record {
  events = replicate 7 no_event ++ locked ∷ [];
  eventw = 6;
  eventr = 7;
  overflow = 0;
}

seven-IsValid : IsValid seven
seven-IsValid = record { places = refl; write_inside = omega arith; read_inside = omega arith }

store_event_lem_example :
    IsValid (store_event no_event seven)
    × (waiting (store_event no_event seven) ≡ keep_last (waiting seven ++ no_event ∷ []))
    × ((store_event no_event seven).overflow
        ≡ (if length (waiting seven) == max_event - 1 then 1 else 0))
store_event_lem_example = store_event_lem no_event seven seven-IsValid

abbrev empty : FeEvents
empty = record seven { eventw = 7 }

empty-IsValid : IsValid empty
empty-IsValid = record { places = refl; write_inside = omega arith; read_inside = omega arith }

-- While the caller sleeps an event with the lock comes.
abbrev wait : Wait
wait = record {
  wait_event = λ events. (pos 0, record events { eventw = 0 });
  fe_free = true;
  events_free = true;
}

get_event_refines_example :
    let r = dvb_frontend_get_event false wait empty in
    (seen r ≡ spec_get_event false (view empty) (view (record empty { eventw = 0 }))) × IsValid r.2
get_event_refines_example =
    get_event_refines false wait {events = empty} empty-IsValid refl refl refl
      (record { places = refl; write_inside = omega arith; read_inside = omega arith })
      (omega arith)

-- Two tuners next to each other on one frequency.
abbrev neighbour : Neighbour
neighbour = record {
  adapter_num = 0;
  frequency = 1000;
  lnb_drift = pos 0;
  bending = pos 0;
  lost_sync_count = pos 0;
}

bend_lem_example :
    let fes = neighbour ∷ [] in
    bend 11 0 (pos 125) (pos 1000) fes (pos 0) ≡ (
      if any_conflict 0 (pos 125) (pos 1000 +ℤ pos 0) fes
      then (if any_conflict 0 (pos 125) (pos 1000 +ℤ pos 125) fes
          then (
            pos 0 -ℤ pos 125,
            if any_conflict 0 (pos 125) (pos 1000 +ℤ (pos 0 -ℤ pos 125)) fes then false else true,
          )
          else (pos 125, true))
      else (pos 0, true))
bend_lem_example = bend_lem 0 (pos 125) (pos 1000) (neighbour ∷ [])

-- A driver whose status has no lock; its state is the frequency.
abbrev answer : FeCommand → FeArg → ℕ → ℤ × FeArg × ℕ
answer fe_set_frontend arg dev = (pos 0, arg, arg.parameters.frequency)
answer cmd arg dev = (pos 0, arg, dev)

abbrev driver : Frontend ℕ
driver = record {
  before_ioctl = none;
  ioctl = answer;
  after_ioctl = none;
  notifier_callback = none;
}

abbrev info : FrontendInfo
info = record { fe_type = fe_ofdm; frequency_stepsize = 125; caps = 0 }

abbrev fe : FrontendData ℕ
fe = record {
  dev = 1000;
  parameters = record no_parameters { frequency = 1000 };
  events = seven;
  release_jiffies = 0;
  lost_sync_jiffies = 0;
  bending = pos 0;
  lnb_drift = pos 0;
  timeout_count = 0;
  lost_sync_count = pos 3;
  exit = false;
  status = 0;
}

abbrev moment : Moment
moment = record {
  jiffies = 500;
  neighbours = [];
  adapter_num = 0;
  frontends_free = true;
  events_free = true;
  writers = 0;
}

abbrev start : Thread
start = record { quality = 0; delay = 300; s = 0 }

thread_round_bounds_example : IsSettled 100 (record { quality = 0; delay = 105; s = 0 })
unfolding thread_round watch update_delay dvb_frontend_internal_ioctl waits recovers
    dvb_frontend_is_exiting ◌+ℤ◌
thread_round_bounds_example =
    thread_round_bounds driver info 100 0 moment start (record { quality = 0; delay = 105; s = 0 })
      fe (record fe { lost_sync_count = pos 4 })
      (record { quality_below = omega arith; delay_below = omega arith }) refl

-- A front-end with a lock that was lost once, on its way to another frequency.
abbrev drifting : FrontendData ℕ
drifting = record fe { lnb_drift = pos 250 }

driver-IsQuiet : IsQuiet driver info
unfolding dvb_frontend_internal_ioctl
driver-IsQuiet = record { unchanged = λ arg dev. refl }

recover_lem_example :
    let fe' = dvb_frontend_recover driver info moment drifting in
    let drift = zigzag (step_of info drifting.parameters) (pos 3) (pos 250) in
    let tuned =
      dvb_frontend_internal_ioctl driver info fe_set_frontend
        (shifted drifting.parameters (drift +ℤ fe'.bending))
        1000 in
    (fe'.dev ≡ (dvb_frontend_internal_ioctl driver info fe_reset no_arg tuned.2).2)
    × (fe'.lnb_drift ≡ drift)
    × (fe'.parameters ≡ drifting.parameters)
recover_lem_example = recover_lem driver info driver-IsQuiet moment drifting (omega arith)
