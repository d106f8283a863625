-- ===== src/Dmxdev/Deliveries.antt =====
-- The callbacks of the feeds, the timer and the open of the demultiplexer device keep its filters sound.
use tuxbox_git_driver.Common.{
  ℕ, ◌≡◌, refl, List, [], ◌∷◌, Bool, true, false, Option, none, some, arith, Option-cases, inl, inr,
}
use tuxbox_git_driver.Dmxdev.{DmxdevBuffer, buffer_write, write_at}
use tuxbox_git_driver.Dmxdev.Filters.{DmxdevFilter, Dmxdev}
use tuxbox_git_driver.Dmxdev.Feeds.{at}
use tuxbox_git_driver.Dmxdev.Device.{
  deliver_parts, section_callback, filter_timeout, ts_callback, to_dvr, find_free, open_at,
  demux_open,
}
use tuxbox_git_driver.Dmxdev.Running.{is_some, sound, AllSound, at-Sound, set-AllSound}

buffer_write-kept :
    (b : DmxdevBuffer) (src : List ℕ)
    → is_some b.mem ≡ true
    → is_some (buffer_write b src).1.mem ≡ true
unfolding buffer_write write_at
buffer_write-kept b [] h = h
buffer_write-kept b (c ∷ src) h = elim (Option-cases b.mem) [
  | inl e ↦ absurd (cc (h, e))
  | inr (m, e) ↦ ground (arith, e)
]

deliver_parts-kept :
    (buffer1 buffer2 : List ℕ) (b : DmxdevBuffer)
    → is_some b.mem ≡ true
    → is_some (deliver_parts buffer1 buffer2 b).mem ≡ true
unfolding deliver_parts
deliver_parts-kept buffer1 buffer2 b h =
    let first = buffer_write-kept b buffer1 h in
    ground (arith, first, buffer_write-kept (buffer_write b buffer1).1 buffer2 first)

pub section_callback-Sound :
    (buffer1 buffer2 : List ℕ) (f : DmxdevFilter)
    → sound f ≡ true
    → sound (section_callback buffer1 buffer2 f) ≡ true
unfolding section_callback
section_callback-Sound buffer1 buffer2 f h =
    ground (arith, h, deliver_parts-kept buffer1 buffer2 f.buffer)

pub filter_timeout-Sound :
    (f : DmxdevFilter) → sound f ≡ true → is_some f.timer ≡ true → sound (filter_timeout f) ≡ true
unfolding filter_timeout
filter_timeout-Sound f h pending = ground (arith, h, pending)

delivered-Sound :
    (buffer1 buffer2 : List ℕ) (f : DmxdevFilter)
    → sound f ≡ true
    → sound (record f { buffer = deliver_parts buffer1 buffer2 f.buffer }) ≡ true
delivered-Sound buffer1 buffer2 f h = ground (arith, h, deliver_parts-kept buffer1 buffer2 f.buffer)

pub ts_callback-AllSound :
    {D : Type 0} (buffer1 buffer2 : List ℕ) (i : ℕ) (dev : Dmxdev D)
    → AllSound dev.filters
    → AllSound (ts_callback buffer1 buffer2 i dev).filters
unfolding ts_callback to_dvr
ts_callback-AllSound buffer1 buffer2 i dev h =
    let f = at dev i in
    let new =
      set-AllSound dev.filters i (record f { buffer = deliver_parts buffer1 buffer2 f.buffer }) h
        (delivered-Sound buffer1 buffer2 f (at-Sound dev.filters i h)) in
    ground (arith, h, new)

open_at-AllSound :
    {D : Type 0} (found : Option ℕ) (dev : Dmxdev D)
    → AllSound dev.filters
    → AllSound (open_at found dev).2.filters
unfolding open_at
open_at-AllSound none dev h = h
open_at-AllSound (some i) dev h = set-AllSound dev.filters i _ h refl

pub demux_open-AllSound :
    {D : Type 0} (got : Bool) (dev : Dmxdev D)
    → AllSound dev.filters
    → AllSound (demux_open got dev).2.filters
unfolding demux_open
demux_open-AllSound false dev h = h
demux_open-AllSound true dev h = open_at-AllSound (find_free dev.filters) dev h
