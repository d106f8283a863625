-- ===== src/Event/Tests.antt =====
-- The theorems on events at concrete files.
use tuxbox_git_driver.Common.{
  ◌-◌, ◌≡◌, refl, [], ◌∷◌, ◌++◌, true, false, arith, none, some, length, take, replicate, ◌==◌,
  if◌then◌else◌,
}
use tuxbox_git_driver.Common.Int.{pos}
use tuxbox_git_driver.Event.{
  EventPrivate, Events, buffer_size, fresh, event_write_message, event_read, write_one, try_read,
  event_read_loop, write_each,
}
use tuxbox_git_driver.Circular
use tuxbox_git_driver.Event.Queue
use tuxbox_git_driver.Event.Queue.{waiting, keep, event_poll_lem}
use tuxbox_git_driver.Event.Slots.{IsValid, event_write_message_refines}
use tuxbox_git_driver.Event.Read.{spec_read, seen, event_read_refines}

-- A structure for the events 1 and 4 with the event 4 waiting, at the end of its buffer.
abbrev one_waits : EventPrivate
one_waits = record {
  event_filter = 5;
  event = replicate 31 0 ++ 4 ∷ [];
  event_free = 31;
  event_ptr = 0;
  event_read_ptr = 31;
}

one_waits-IsValid : Queue.IsValid one_waits
one_waits-IsValid = omega arith

-- One open file, at the address 7.
abbrev one_file : Events
one_file = record {
  open_handle = pos 1;
  slots = none ∷ some 7 ∷ none ∷ none ∷ none ∷ [];
  heap = λ a. if a == 7 then some one_waits else none;
}

one_file-IsValid : IsValid one_file
one_file-IsValid = record {
  slot_count = refl;
  handles = refl;
  live = ((one_waits, refl, one_waits-IsValid), tt);
  distinct = (refl, tt);
}

sleeper_wakes :
    seen (
      event_read true false 4
        (record { signal = false; brought = 8 ∷ [] }
          ∷ record { signal = false; brought = 1 ∷ [] }
          ∷ [])
        fresh)
    ≡ some (pos 4, 8 ∷ [], [])
unfolding event_read event_read_loop try_read write_each write_one Circular.fetch_at
sleeper_wakes = refl

event_write_message_refines_example :
    (s' : Events) × (e : EventPrivate) × (e' : EventPrivate) × (event_write_message
        (8 ∷ 1 ∷ [])
        one_file
      ≡ some s')
    × IsValid s'
    × (one_file.heap 7 ≡ some e)
    × (s'.heap 7 ≡ some e')
    × (waiting e'
        ≡ waiting e ++ take (buffer_size - length (waiting e)) (keep e.event_filter (8 ∷ 1 ∷ [])))
    × (e'.event_filter ≡ e.event_filter)
event_write_message_refines_example =
    event_write_message_refines (8 ∷ 1 ∷ []) 7 one_file-IsValid refl

event_read_refines_example :
    seen (event_read true false 4 [] one_waits) ≡ spec_read false 5 [] (waiting one_waits)
event_read_refines_example = event_read_refines false 4 [] one_waits-IsValid (omega arith)
