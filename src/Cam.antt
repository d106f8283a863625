-- ===== src/Cam.antt =====
-- cam/cam.c: the messages of the conditional access module. An interrupt makes cam_task fetch a message
-- over the I2C bus and queue it, or answer it; cam_read_message takes bytes from the queue. The I2C
-- transfers are a parameter. The firmware load and the module's set-up are left out: they write
-- registers.
pub mod Queue
pub mod Busy
mod Tests
use tuxbox_git_driver.Common.{
  ℕ, zero, suc, ◌+◌, ◌-◌, ◌%◌, List, [], ◌∷◌, ◌++◌, Bool, true, false, not, ◌&&◌, Option, none,
  some, ltb, leb, ◌==◌, if◌then◌else◌, get_or, set, slice, take, memcpy, bit_xor,
}
use tuxbox_git_driver.Common.Int.{ℤ, pos}
use tuxbox_git_driver.Kernel.{enodev, eintr}

-- CAM_QUEUE_SIZE
abbrev pub queue_size : ℕ
queue_size = 0x800

-- `cam_queue`, its indices, the count of the semaphore `cam_busy`, and whether `dclient` is set.
pub record Cam : Type 0 where
  pub queue : List ℕ
  pub queuewptr : ℕ
  pub queuerptr : ℕ
  pub busy : ℕ
  pub attached : Bool

-- i2c_master_send and i2c_master_recv for the client: the result of sending bytes, and for the n-th
-- receive of a task, with the length that is asked for, the result and the bytes.
pub record Bus : Type 0 where
  pub send : List ℕ → ℤ
  pub recv : ℕ → ℕ → ℕ × List ℕ

-- Whether cam_poll reports data to read.
unfoldable pub poll : Cam → Bool
poll c = not (c.queuerptr == c.queuewptr)

-- `wptr - rptr`, and CAM_QUEUE_SIZE more where that is negative.
abbrev pub queued : Cam → ℕ
queued c =
    if ltb c.queuewptr c.queuerptr
    then c.queuewptr + queue_size - c.queuerptr
    else c.queuewptr - c.queuerptr

-- cam_read_message: the number of bytes, the bytes, and the state.
unfoldable pub read_message : ℕ → Cam → ℕ × List ℕ × Cam
read_message count c =
    let cb = if ltb count (queued c) then count else queued c in
    let first = queue_size - c.queuerptr in
    if ltb queue_size (c.queuerptr + cb)
    then (
      cb,
      slice c.queue c.queuerptr first ++ slice c.queue 0 (cb - first),
      record c { queuerptr = cb - first },
    )
    else (cb, slice c.queue c.queuerptr cb, record c { queuerptr = c.queuerptr + cb })

-- `cam_queue[cam_queuewptr++] = …`, and back to the start at the end.
unfoldable pub put_byte : ℕ → Cam → Cam
put_byte b c = record c {
  queue = set c.queue c.queuewptr b;
  queuewptr = if c.queuewptr + 1 == queue_size then 0 else c.queuewptr + 1;
}

unfoldable pub put_bytes : List ℕ → Cam → Cam
put_bytes [] c = c
put_bytes (b ∷ bs) c = put_bytes bs (put_byte b c)

-- The queueing of a message of cam_task: what does not fit empties the queue.
unfoldable pub queue_message : List ℕ → ℕ → Cam → Cam
queue_message buffer len c =
    if ltb (queue_size - queued c) len
    then record c { queuewptr = c.queuerptr }
    else put_bytes (take len buffer) (put_byte 0x6f c)

-- The answer to a request of the CAID: `caid[8]` is 0x6e and the other bytes, exclusive or.
checksum : ℕ → List ℕ → ℕ
checksum acc [] = acc
checksum acc (b ∷ bs) = checksum (bit_xor acc b) bs

unfoldable pub caid_answer : List ℕ → List ℕ
unfolding checksum
caid_answer buffer =
    let head =
      0x50 ∷ 0x06 ∷ 0x23 ∷ 0x84 ∷ 0x01 ∷ 0x02 ∷ get_or buffer 5 0 ∷ get_or buffer 6 0 ∷ [] in
    head ++ checksum 0x6e head ∷ []

-- `up(&cam_busy)`
abbrev pub up : Cam → Cam
up c = record c { busy = c.busy + 1 }

abbrev pub is_caid_request : List ℕ → Bool
is_caid_request buffer = (get_or buffer 2 0 == 0x23) && leb (get_or buffer 3 0) 7

module _ (bus : Bus) where
  -- cam_write_message; `none`: it waits for cam_busy for good. `signal`: a signal ends the wait.
  unfoldable pub write_message : Bool → List ℕ → Cam → Option (ℤ × Cam)
  write_message signal bytes c =
      if not c.attached
      then some (enodev, c)
      else if ltb 0 c.busy
      then some (bus.send bytes, record c { queuewptr = c.queuerptr })
      else if signal
      then some (eintr, c)
      else none

  -- Behind the receives. The branch of the CAID request raises the semaphore before it sends, and the
  -- end of the task raises it once more.
  unfoldable pub handle : Bool → List ℕ → ℕ → Cam → Option Cam
  handle signal buffer len c =
      if is_caid_request buffer
      then elim (write_message signal (caid_answer buffer) (up c)) [
        | none ↦ none
        | some (_, c') ↦ some (up c')
      ]
      else some (up (queue_message buffer len c))

  -- The receives of cam_task, with the semaphore taken; `buffer` keeps what was received last.
  unfoldable pub receive : Bool → Cam → Option Cam
  receive signal c =
      let (got, head) = bus.recv 0 2 in
      let len = get_or head 1 0 % 128 in
      let (got₁, buffer₁) = bus.recv 1 (len + 3) in
      let len' = get_or buffer₁ 1 0 % 128 in
      let (got₂, buffer₂) = bus.recv 2 (len' + 3) in
      if not (got == 2)
      then some (up c)
      else if not (got₁ == len + 3)
      then some (up c)
      else if len' == len
      then handle signal buffer₁ (len + 3) c
      else if got₂ == len' + 3
      then handle signal buffer₂ (len' + 3) c
      else some (up c)

  unfoldable pub task : Bool → Cam → Option Cam
  task signal c =
      if ltb 0 c.busy
      then receive signal (record c { busy = c.busy - 1 })
      else if signal
      then some c
      else none
