-- ===== src/Cam/Busy.antt =====
-- The semaphore that keeps transfers apart.
use tuxbox_git_driver.Common.{
  ℕ, ◌+◌, ◌-◌, ◌<◌, ◌≡◌, inl, inr, refl, arith, List, [], ◌∷◌, Bool, true, false, not, ltb,
  if◌then◌else◌, Option, none, some, get_or, ◌%◌, ◌==◌, take, Bool-cases,
}
use tuxbox_git_driver.Common.Int.{ℤ}
use tuxbox_git_driver.Kernel.{enodev}
use tuxbox_git_driver.Cam.{
  Cam, Bus, is_caid_request, up, put_byte, put_bytes, queue_message, write_message, caid_answer,
  handle, receive, task,
}

put_bytes_busy : (bs : List ℕ) (c : Cam) → (put_bytes bs c).busy ≡ c.busy
unfolding put_bytes put_byte
put_bytes_busy [] c = refl
put_bytes_busy (b ∷ bs) c = put_bytes_busy bs (put_byte b c)

queue_message_busy :
    (buffer : List ℕ) (len : ℕ) (c : Cam) → (queue_message buffer len c).busy ≡ c.busy
unfolding queue_message put_byte
queue_message_busy buffer len c = ground (arith, put_bytes_busy (take len buffer) (put_byte 0x6f c))

-- With the semaphore raised, a message is sent, or refused without a client.
write_message_raised :
    (bus : Bus) (signal : Bool) (bytes : List ℕ) (c : Cam)
    → 0 < c.busy
    → (res : ℤ) × (c' : Cam) × (write_message bus signal bytes c ≡ some (res, c'))
      × (c'.busy ≡ c.busy)
unfolding write_message
write_message_raised bus signal bytes c h =
    let free : ltb 0 c.busy ≡ true = ground arith in
    elim (Bool-cases c.attached) [
      | inl e ↦ (bus.send bytes, record c { queuewptr = c.queuerptr }, rw (e, free) refl, refl)
      | inr e ↦ (enodev, c, rw e refl, refl)
    ]

-- The part of cam_task behind its receives ends, whatever the state and whether a signal comes. A
-- message that is no request of the CAID raises the semaphore once, a request raises it twice.
pub handle_busy :
    (bus : Bus) (signal : Bool) (buffer : List ℕ) (len : ℕ) (c : Cam)
    → (c' : Cam) × (handle bus signal buffer len c ≡ some c')
      × (c'.busy ≡ (if is_caid_request buffer then c.busy + 2 else c.busy + 1))
unfolding handle
handle_busy bus signal buffer len c = elim (Bool-cases (is_caid_request buffer)) [
  | inl e ↦
      let (res, c', sent, kept) =
        write_message_raised bus signal (caid_answer buffer) (up c) (omega arith) in
      (up c', rw (e, sent) refl, rw e (omega (arith, kept)))
  | inr e ↦ (
    up (queue_message buffer len c),
    rw e refl,
    rw e (omega (arith, queue_message_busy buffer len c)),
  )
]

-- The message that a task handles: the last one it receives. There is none where a transfer gives less
-- than it is asked for: the header of two bytes, the message, whose length the header tells, or the
-- message once more, where it tells another length.
abbrev pub message : Bus → Option (List ℕ)
message bus =
    let (got, head) = bus.recv 0 2 in
    let len = get_or head 1 0 % 128 in
    let (got₁, first) = bus.recv 1 (len + 3) in
    let len' = get_or first 1 0 % 128 in
    let (got₂, second) = bus.recv 2 (len' + 3) in
    if not (got == 2)
    then none
    else if not (got₁ == len + 3)
    then none
    else if len' == len
    then some first
    else if got₂ == len' + 3
    then some second
    else none

-- How often the semaphore is raised beyond what the task took: once where a request of the CAID is
-- answered.
abbrev pub raised_for : Option (List ℕ) → ℕ
raised_for none = 0
raised_for (some buffer) = if is_caid_request buffer then 1 else 0

-- A run that ends, with the semaphore at `n` and what its message raises it by.
abbrev pub Ends : ℕ → Option (List ℕ) → Option Cam → Type 0
Ends n m run = (c' : Cam) × (run ≡ some c') × (c'.busy ≡ n + raised_for m)

either_way :
    (n : ℕ) (b : Bool) (m m' : Option (List ℕ)) {x y : Option Cam}
    → Ends n m x
    → Ends n m' y
    → Ends n (if b then m else m') (if b then x else y)
either_way n true m m' p q = p
either_way n false m m' p q = q

handle-Ends :
    (bus : Bus) (signal : Bool) (buffer : List ℕ) (len : ℕ) (c : Cam)
    → Ends (c.busy + 1) (some buffer) (handle bus signal buffer len c)
handle-Ends bus signal buffer len c =
    let (c', e, busy) = handle_busy bus signal buffer len c in
    (
      c',
      e,
      elim (Bool-cases (is_caid_request buffer)) [
        | inl t ↦ rw t (omega (arith, rw t at busy))
        | inr f ↦ rw f (omega (arith, rw f at busy))
      ],
    )

receive-Ends :
    (bus : Bus) (signal : Bool) (c : Cam) → Ends (c.busy + 1) (message bus) (receive bus signal c)
unfolding receive
receive-Ends bus signal c =
    let (got, head) = bus.recv 0 2 in
    let n = get_or head 1 0 % 128 in
    let (got₁, buffer₁) = bus.recv 1 (n + 3) in
    let n' = get_or buffer₁ 1 0 % 128 in
    let (got₂, buffer₂) = bus.recv 2 (n' + 3) in
    let given : Ends (c.busy + 1) none (some (up c)) = (up c, refl, omega arith) in
    let second = if got₂ == n' + 3 then some buffer₂ else none in
    let first = if n' == n then some buffer₁ else second in
    let all = if not (got₁ == n + 3) then none else first in
    either_way (c.busy + 1) (not (got == 2)) none all given (
      either_way (c.busy + 1) (not (got₁ == n + 3)) none first given (
        either_way (c.busy + 1) (n' == n) (some buffer₁) second
          (handle-Ends bus signal buffer₁ (n + 3) c)
          (either_way (c.busy + 1) (got₂ == n' + 3) (some buffer₂) none
            (handle-Ends bus signal buffer₂ (n' + 3) c) given)))

-- A run of cam_task that gets the semaphore ends. It leaves the semaphore raised once more than it found
-- it where the message it handles is a request of the CAID, and as it found it on every other path: an
-- ordinary message, queued or not, and a transfer that fails.
pub task_busy :
    (bus : Bus) (signal : Bool) (c : Cam)
    → 0 < c.busy
    → (c' : Cam) × (task bus signal c ≡ some c') × (c'.busy ≡ c.busy + raised_for (message bus))
unfolding task
task_busy bus signal c h =
    let taken : ltb 0 c.busy ≡ true = ground arith in
    let back : c.busy - 1 + 1 ≡ c.busy = omega arith in
    let run = receive-Ends bus signal (record c { busy = c.busy - 1 }) in rw taken (rw back at run)
