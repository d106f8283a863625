-- ===== src/Event.antt =====
-- event/event.c: the queue of events that the drivers of the box tell user space. Every open file has
-- a private structure, which is also in one of five slots; event_write_message goes over the slots. A
-- pointer is an address of the heap here, and what kmalloc returns is a parameter. The spinlock and
-- the wake-up of readers are left out; what is written while a reader sleeps is a parameter.
pub mod Queue
pub mod Slots
pub mod Read
mod Tests
use tuxbox_git_driver.Common.{
  ℕ, zero, suc, ◌+◌, ◌-◌, List, [], ◌∷◌, Bool, true, false, not, ◌&&◌, Option, none, some, ltb,
  ◌==◌, if◌then◌else◌, get_or, set, replicate, bit_and,
}
use tuxbox_git_driver.Common.Int.{ℤ, pos, negsuc, ◌+ℤ◌, ◌-ℤ◌}
use tuxbox_git_driver.Kernel.{einval, efault, emfile, eagain, erestartsys}

-- EVENTBUFFERSIZE and MAX_EVENT_OPEN
abbrev pub buffer_size : ℕ
buffer_size = 32

abbrev pub max_open : ℕ
max_open = 5

-- `struct event_private_t` and the `struct event_data_t` in it; a `struct event_t` is its one number.
pub record EventPrivate : Type 0 where
  pub event_filter : ℕ
  pub event : List ℕ
  pub event_free : ℕ
  pub event_ptr : ℕ
  pub event_read_ptr : ℕ

-- `open_handle`, `event_private`, and the private structures by their addresses.
pub record Events : Type 0 where
  pub open_handle : ℤ
  pub slots : List (Option ℕ)
  pub heap : ℕ → Option EventPrivate

abbrev pub put : (ℕ → Option EventPrivate) → ℕ → Option EventPrivate → ℕ → Option EventPrivate
put heap a e b = if b == a then e else heap b

-- The body of the loop of event_write_message, for one event and one private structure.
unfoldable pub write_one : ℕ → EventPrivate → EventPrivate
write_one ev e =
    if ltb 0 e.event_free && not (bit_and ev e.event_filter == 0)
    then record e {
      event_free = e.event_free - 1;
      event = set e.event e.event_ptr ev;
      event_ptr = if e.event_ptr + 1 == buffer_size then 0 else e.event_ptr + 1;
    }
    else e

-- The loop over the slots; `none`: it follows a pointer to freed memory.
unfoldable pub each_slot :
    ℕ → List (Option ℕ) → (ℕ → Option EventPrivate) → Option (ℕ → Option EventPrivate)
each_slot ev [] heap = some heap
each_slot ev (none ∷ slots) heap = each_slot ev slots heap
each_slot ev (some a ∷ slots) heap = elim (heap a) [
  | none ↦ none
  | some e ↦ each_slot ev slots (put heap a (some (write_one ev e)))
]

unfoldable pub event_write_message : List ℕ → Events → Option Events
event_write_message [] s = some s
event_write_message (ev ∷ events) s = elim (each_slot ev s.slots s.heap) [
  | none ↦ none
  | some heap ↦ event_write_message events (record s { heap = heap })
]

-- event_ioctl with EVENT_SET_FILTER, whose command is 1; other commands do nothing.
unfoldable pub event_ioctl : ℕ → ℕ → EventPrivate → ℤ × EventPrivate
event_ioctl cmd arg e = if cmd == 1 then (pos 0, record e { event_filter = arg }) else (pos 0, e)

-- An open or a release returns, with `private_data` of the file; or it follows a null pointer or
-- writes behind the slots.
pub data Opened : Type 0 where
  done : ℤ → Option ℕ → Events → Opened
  faults : Opened

-- The slots with the address in the first free one.
unfoldable pub take_slot : ℕ → List (Option ℕ) → Option (List (Option ℕ))
take_slot a [] = none
take_slot a (none ∷ slots) = some (some a ∷ slots)
take_slot a (some b ∷ slots) = elim (take_slot a slots) [
  | none ↦ none
  | some slots' ↦ some (some b ∷ slots')
]

-- The structure behind the memset and the last two assignments of event_open.
abbrev pub fresh : EventPrivate
fresh = record {
  event_filter = 0xffffffff;
  event = replicate buffer_size 0;
  event_free = buffer_size;
  event_ptr = 0;
  event_read_ptr = 0;
}

abbrev pub is_max : ℤ → Bool
is_max (pos n) = n == max_open
is_max (negsuc n) = false

-- event_open; `memory` is what kmalloc returns.
unfoldable pub event_open : Option ℕ → Events → Opened
event_open memory s = if is_max s.open_handle then done emfile none s else elim memory [
  | none ↦ faults
  | some a ↦ elim (take_slot a s.slots) [
    | none ↦ faults
    | some slots ↦ done (pos 0) (some a) (record {
      open_handle = s.open_handle +ℤ pos 1;
      slots = slots;
      heap = put s.heap a (some fresh);
    })
  ]
]

-- The loop of event_release: the first slot with the address becomes NULL.
unfoldable pub clear_slot : ℕ → List (Option ℕ) → List (Option ℕ)
clear_slot a [] = []
clear_slot a (none ∷ slots) = none ∷ clear_slot a slots
clear_slot a (some b ∷ slots) = if b == a then none ∷ slots else some b ∷ clear_slot a slots

unfoldable pub event_release : Option ℕ → Events → Opened
event_release none s = done (pos 0) none (record s { open_handle = s.open_handle -ℤ pos 1 })
event_release (some a) s = done (pos 0) none (record {
  open_handle = s.open_handle -ℤ pos 1;
  slots = clear_slot a s.slots;
  heap = put s.heap a none;
})

-- sizeof(struct event_t), and sizeof(unsigned long) on the 32-bit PowerPC
abbrev pub event_size : ℕ
event_size = 4

-- What happens in a round of event_read that finds nothing: whether a signal is pending, and which
-- events event_write_message brings while it sleeps.
pub record Nap : Type 0 where
  pub signal : Bool
  pub brought : List ℕ

unfoldable pub write_each : List ℕ → EventPrivate → EventPrivate
write_each [] e = e
write_each (ev ∷ events) e = write_each events (write_one ev e)

module _ (put_user_ok non_blocking : Bool) where
  -- A round of event_read up to the sleep: the result, what put_user stored, and the structure, or
  -- nothing where it goes on.
  unfoldable pub try_read : EventPrivate → Option (ℤ × List ℕ × EventPrivate)
  try_read e =
      if not (e.event_free == buffer_size)
      then (if put_user_ok
          then some (
            pos event_size,
            get_or e.event e.event_read_ptr 0 ∷ [],
            record e {
              event_free = e.event_free + 1;
              event_read_ptr =
                  if e.event_read_ptr + 1 == buffer_size then 0 else e.event_read_ptr + 1;
            },
          )
          else some (efault, [], e))
      else if non_blocking
      then some (eagain, [], e)
      else none

  -- The loop; `none`: it sleeps behind the last of the naps.
  unfoldable pub event_read_loop : List Nap → EventPrivate → Option (ℤ × List ℕ × EventPrivate)
  event_read_loop [] e = try_read e
  event_read_loop (nap ∷ naps) e =
      let rest = event_read_loop naps (write_each nap.brought e) in
      elim (try_read e) [
        | some r ↦ some r
        | none ↦ if nap.signal then some (erestartsys, [], e) else rest
      ]

  unfoldable pub event_read : ℕ → List Nap → EventPrivate → Option (ℤ × List ℕ × EventPrivate)
  event_read count naps e =
      if ltb count event_size then some (einval, [], e) else event_read_loop naps e

-- event_poll
unfoldable pub event_poll : EventPrivate → Bool
event_poll e = not (e.event_free == buffer_size)
