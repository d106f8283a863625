-- ===== src/Dmxdev/Steps.antt =====
-- What happens to a demultiplexer device, call by call: opens, commands, releases, deliveries of the feeds
-- and timers that expire, in any order.
use tuxbox_git_driver.Common.{ℕ, ◌≡◌, List, Bool, true}
use tuxbox_git_driver.Dmxdev.Filters.{DmxDemux, Dmxdev}
use tuxbox_git_driver.Dmxdev.Feeds.{at, put}
use tuxbox_git_driver.Dmxdev.Device.{
  section_callback, filter_timeout, ts_callback, demux_open, Command, Around, filter_free,
  demux_do_ioctl,
}
use tuxbox_git_driver.Dmxdev.Running.{is_some, AllSound, at-Sound, set-AllSound}
use tuxbox_git_driver.Dmxdev.Deliveries.{
  section_callback-Sound, filter_timeout-Sound, ts_callback-AllSound, demux_open-AllSound,
}
use tuxbox_git_driver.Dmxdev.Commands.{filter_free-AllSound, demux_do_ioctl-AllSound}

-- One call, or one expiry of a timer that is pending.
pub data Step {D : Type 0} (ops : DmxDemux D) : Dmxdev D → Dmxdev D → Type 0 where
  opened : (got : Bool) (dev : Dmxdev D) → Step ops dev (demux_open got dev).2
  commanded :
      (a : Around) (cmd : Command) (i : ℕ) (dev : Dmxdev D)
      → Step ops dev (demux_do_ioctl ops a cmd i dev).1
  released : (a : Around) (i : ℕ) (dev : Dmxdev D) → Step ops dev (filter_free ops a i dev).1
  section_came :
      (buffer1 buffer2 : List ℕ) (i : ℕ) (dev : Dmxdev D)
      → Step ops dev (put dev i (section_callback buffer1 buffer2 (at dev i)))
  packets_came :
      (buffer1 buffer2 : List ℕ) (i : ℕ) (dev : Dmxdev D)
      → Step ops dev (ts_callback buffer1 buffer2 i dev)
  expired :
      (i : ℕ) (dev : Dmxdev D)
      → is_some (at dev i).timer ≡ true
      → Step ops dev (put dev i (filter_timeout (at dev i)))
  demux_moved : (d : D) (dev : Dmxdev D) → Step ops dev (record dev { demux = d })

pub data Steps {D : Type 0} (ops : DmxDemux D) : Dmxdev D → Dmxdev D → Type 0 where
  done : (dev : Dmxdev D) → Steps ops dev dev
  and_then :
      {dev dev' dev'' : Dmxdev D} → Step ops dev dev' → Steps ops dev' dev'' → Steps ops dev dev''

module _ {D : Type 0} (ops : DmxDemux D) where
  Step-AllSound :
      {dev dev' : Dmxdev D} → Step ops dev dev' → AllSound dev.filters → AllSound dev'.filters
  Step-AllSound (opened got dev) h = demux_open-AllSound got dev h
  Step-AllSound (commanded a cmd i dev) h = demux_do_ioctl-AllSound ops a cmd i dev h
  Step-AllSound (released a i dev) h = filter_free-AllSound ops a i dev h
  Step-AllSound (section_came buffer1 buffer2 i dev) h =
      set-AllSound dev.filters i _ h
        (section_callback-Sound buffer1 buffer2 (at dev i) (at-Sound dev.filters i h))
  Step-AllSound (packets_came buffer1 buffer2 i dev) h =
      ts_callback-AllSound buffer1 buffer2 i dev h
  Step-AllSound (expired i dev pending) h =
      set-AllSound dev.filters i _ h
        (filter_timeout-Sound (at dev i) (at-Sound dev.filters i h) pending)
  Step-AllSound (demux_moved d dev) h = h

  -- From a device whose filters are sound, any sequence of opens, commands, releases, deliveries, changes of
  -- the demultiplexer's own state and expiries of pending timers leads to sound filters, whatever the
  -- demultiplexer answers: a filter that is running (go, done or timed out) has a feed, memory and a type,
  -- and a timer is pending only for a section filter that is running.
  pub Steps-AllSound :
      {dev dev' : Dmxdev D} → AllSound dev.filters → Steps ops dev dev' → AllSound dev'.filters
  Steps-AllSound h (done dev) = h
  Steps-AllSound h (and_then s rest) = Steps-AllSound (Step-AllSound s h) rest
