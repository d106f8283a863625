-- ===== src/Cam/Tests.antt =====
-- The theorems on the conditional access module at concrete states.
use tuxbox_git_driver.Common.{
  ℕ, ◌+◌, ◌≡◌, refl, List, [], ◌∷◌, ◌++◌, true, false, arith, some, length, replicate,
  length-replicate, length-append, take, drop,
}
use tuxbox_git_driver.Common.Int.{pos}
use tuxbox_git_driver.Cam.Queue
use tuxbox_git_driver.Cam.{Cam, Bus, read_message, queue_message, task}
use tuxbox_git_driver.Cam.Queue.{
  IsValid, contents, read_message_refines, queue_message_refines, queue_message_overrun, poll_lem,
}
use tuxbox_git_driver.Cam.Busy.{message, raised_for, task_busy}

-- 1, 2, 3 from index 2047 on, round the end of the queue
abbrev wrapped : Cam
wrapped = record {
  queue = 2 ∷ 3 ∷ (replicate 2045 0 ++ 1 ∷ []);
  queuewptr = 2;
  queuerptr = 2047;
  busy = 1;
  attached = true;
}

abbrev wrapped-IsValid : IsValid wrapped
wrapped-IsValid =
    omega
      (arith, length-append {A = ℕ} (replicate 2045 0) (1 ∷ []), length-replicate {A = ℕ} 2045 0)

-- a queue with room for three bytes
abbrev nearly_full : Cam
nearly_full = record {
  queue = replicate 2048 7;
  queuewptr = 2045;
  queuerptr = 0;
  busy = 1;
  attached = true;
}

abbrev nearly_full-IsValid : IsValid nearly_full
nearly_full-IsValid = omega (arith, length-replicate {A = ℕ} 2048 7)

-- A module that gives a message of one byte behind its header.
abbrev bus : Bus
bus = record { send = λ bytes. pos (length bytes); recv = λ n len. (len, 0x6f ∷ 1 ∷ 0x23 ∷ 5 ∷ []) }

read_message_refines_example :
    let (cb, out, c') = read_message 2 wrapped in
    (cb ≡ length out)
    × (out ≡ take 2 (contents wrapped))
    × (contents c' ≡ drop 2 (contents wrapped))
    × IsValid c'
read_message_refines_example = read_message_refines 2 wrapped-IsValid

queue_message_refines_example :
    (contents (queue_message (4 ∷ 5 ∷ 6 ∷ []) 3 wrapped)
      ≡ contents wrapped ++ 0x6f ∷ 4 ∷ 5 ∷ 6 ∷ [])
    × IsValid (queue_message (4 ∷ 5 ∷ 6 ∷ []) 3 wrapped)
queue_message_refines_example =
    queue_message_refines (4 ∷ 5 ∷ 6 ∷ []) 3 wrapped-IsValid (omega arith)
      (omega (arith, Queue.length-contents wrapped-IsValid))

queue_message_overrun_example :
    let c' = queue_message (4 ∷ 5 ∷ []) 2 nearly_full in
    (c'.queuewptr ≡ c'.queuerptr) × (contents c' ≡ [])
queue_message_overrun_example =
    queue_message_overrun (4 ∷ 5 ∷ []) 2 nearly_full-IsValid (omega arith) (omega arith) refl

-- a request of the CAID
abbrev request : List ℕ
request = 0 ∷ 2 ∷ 0x23 ∷ 1 ∷ 0 ∷ 9 ∷ 8 ∷ []

task_busy_example :
    (c' : Cam) × (task bus false wrapped ≡ some c') × (c'.busy ≡ 1 + raised_for (message bus))
task_busy_example = task_busy bus false wrapped (omega arith)
