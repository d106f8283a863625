-- ===== src/Frontend.antt =====
-- dvb-core/dvb_frontend.c: the core of the front-ends (tuners). It keeps a queue of status events for
-- user space, calls the driver with the hooks of the adapter around it, and runs a thread that watches
-- the lock. The driver, its hooks and the demultiplexer's callback are parameters with a state `Dev`,
-- the `data` of a front-end. A semaphore shows only in whether a signal keeps the caller from it.
pub mod Types
pub mod Tune
pub mod Queue
pub mod Bounds
pub mod Bending
pub mod RoundTrip
mod Tests
unfoldable pub use Types.*
use tuxbox_git_driver.Common.{
  ℕ, ◌+◌, ◌%◌, ◌<◌, List, Bool, true, false, not, ◌&&◌, Option, none, some, ltb, ◌==◌,
  if◌then◌else◌, get_or, set, replicate, bit_and,
}
use tuxbox_git_driver.Common.Int.{ℤ, pos, negsuc, ltb_ℤ, eqb_ℤ}
use tuxbox_git_driver.Kernel.{eopnotsupp, eoverflow, eagain, erestartsys}

abbrev pub has_lock : ℕ → Bool
has_lock s = not (bit_and s fe_has_lock == 0)

-- The queue's part of dvb_frontend_add_event: an event stored behind the others. The source stores the
-- event's status behind the other assignments.
unfoldable pub store_event : FrontendEvent → FeEvents → FeEvents
store_event e events =
    let wp = (events.eventw + 1) % max_event in
    let full = wp == events.eventr in
    record {
      events = set events.events events.eventw e;
      eventw = wp;
      eventr = if full then (events.eventr + 1) % max_event else events.eventr;
      overflow = if full then 1 else events.overflow;
    }

module _ {Dev : Type 0} (frontend : Frontend Dev) (info : FrontendInfo) where
  -- With the memory behind `arg`, before and behind the call.
  unfoldable pub dvb_frontend_internal_ioctl : FeCommand → FeArg → Dev → ℤ × FeArg × Dev
  dvb_frontend_internal_ioctl cmd arg dev =
      let before : ℤ × FeArg × Dev = elim frontend.before_ioctl [
        | none ↦ (eopnotsupp, arg, dev)
        | some f ↦ f cmd arg dev
      ] in
      let called = frontend.ioctl cmd before.1 before.2 in
      let after : ℤ × FeArg × Dev = elim frontend.after_ioctl [
        | none ↦ called
        | some f ↦ f cmd called.1 called.2
      ] in
      if eqb_ℤ before.0 eopnotsupp
      then (if eqb_ℤ called.0 eopnotsupp then after else called)
      else before

  -- `jiffies` is the time of the call. dvb_delay is left out.
  unfoldable pub dvb_call_frontend_notifiers : ℕ → ℕ → FrontendData Dev → FrontendData Dev
  dvb_call_frontend_notifiers jiffies s fe =
      let fe' = record fe {
        lost_sync_jiffies =
            if has_lock fe.status && not (has_lock s) then jiffies else fe.lost_sync_jiffies;
        status = s;
      } in
      if not (has_lock s) && not (bit_and info.caps fe_can_mute_ts == 0)
      then fe'
      else elim frontend.notifier_callback [
        | none ↦ fe'
        | some f ↦ record fe' { dev = f s fe'.dev }
      ]

  -- `free` is whether down_interruptible got the semaphore of the events.
  unfoldable pub dvb_frontend_add_event : Bool → ℕ → ℕ → FrontendData Dev → FrontendData Dev
  dvb_frontend_add_event free jiffies status fe =
      let asked =
        dvb_frontend_internal_ioctl fe_get_frontend (record no_arg { parameters = fe.parameters })
          fe.dev in
      let stored : FrontendParameters × Dev =
        if has_lock status then (asked.1.parameters, asked.2) else (fe.parameters, fe.dev) in
      if free
      then dvb_call_frontend_notifiers jiffies status (record fe {
        events = store_event (record { status = status; parameters = stored.0 }) fe.events;
        dev = stored.1;
      })
      else fe

-- The rest of dvb_frontend_get_event behind the wait: the oldest event, and the queue without it.
unfoldable pub fetch_event : FeEvents → ℤ × Option FrontendEvent × FeEvents
fetch_event events = (
  pos 0,
  some (get_or events.events events.eventr no_event),
  record events { eventr = (events.eventr + 1) % max_event },
)

-- wait_event_interruptible, with what it returns and the queue behind it, and whether the semaphores of
-- the front-end and of the events are got then.
pub record Wait : Type 0 where
  pub wait_event : FeEvents → ℤ × FeEvents
  pub fe_free : Bool
  pub events_free : Bool

unfoldable pub dvb_frontend_get_event : Bool → Wait → FeEvents → ℤ × Option FrontendEvent × FeEvents
dvb_frontend_get_event nonblock w events =
    let woken = w.wait_event events in
    if not (events.overflow == 0)
    then (eoverflow, none, record events { overflow = 0 })
    else if events.eventw == events.eventr
    then (if nonblock
        then (eagain, none, events)
        else if not w.fe_free
        then (erestartsys, none, woken.1)
        else if ltb_ℤ woken.0 (pos 0)
        then (woken.0, none, woken.1)
        else if w.events_free
        then fetch_event woken.1
        else (erestartsys, none, woken.1))
    else if w.events_free
    then fetch_event events
    else (erestartsys, none, events)

-- dvb_frontend_poll
unfoldable pub dvb_frontend_poll : FeEvents → Bool
dvb_frontend_poll events = not (events.eventw == events.eventr)

-- dvb_frontend_open with what dvb_generic_open and dvb_frontend_start return; the last component is
-- whether the file stays open, which dvb_generic_release undoes.
unfoldable pub dvb_frontend_open : Bool → ℤ → ℤ → FeEvents → ℤ × FeEvents × Bool
dvb_frontend_open writable opened started events =
    if ltb_ℤ opened (pos 0)
    then (opened, events, false)
    else if writable
    then (started, record events { eventr = 0; eventw = 0 }, eqb_ℤ started (pos 0))
    else (opened, events, true)
