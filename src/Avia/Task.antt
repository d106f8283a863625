-- ===== src/Avia/Task.antt =====
-- avia_gt_dmx_bh_task, which hands what the chip has written to the client of the queue.
use tuxbox_git_driver.Common.{
  ℕ, List, not, Option, none, some, leb, ◌==◌, if◌then◌else◌, get_or, set,
}
use tuxbox_git_driver.Avia.{Queue, at, queue_message, ts, queue_count, resync, is_system_queue}

-- `pid1` and `pid2`; in SPTS mode the queue for video has both PIDs. `garbage` stands in `pid2` where it is
-- not assigned.
unfoldable pub pids_of : ℕ → ℕ → List Queue → ℕ × ℕ
pids_of garbage n queue_list =
    let video = (at queue_list 0).pid in
    let audio = (at queue_list 1).pid in
    let own = (at queue_list n).pid in
    if not (n == 0)
    then (own, own)
    else if audio == 0xffff
    then (video, if video == 0xffff then garbage else video)
    else (if video == 0xffff then audio else video, audio)

-- The client of a system queue may be a user queue.
unfoldable pub callback_of : List (Option ℕ) → ℕ → List Queue → Option ℕ
callback_of queue_client n queue_list =
    let client = if is_system_queue n then get_or queue_client n none else none in
    elim client [ none ↦ (at queue_list n).cb_proc | some c ↦ (at queue_list c).cb_proc ]

-- The callback that runs, and the queues.
unfoldable pub bh_task : ℕ → List (Option ℕ) → ℕ → List Queue → Option ℕ × List Queue
bh_task garbage queue_client n queue_list =
    let q = at queue_list n in
    let q₁ = record q { write_pos = q.hw_write_pos } in
    let emptied = record q₁ { read_pos = q.hw_write_pos; overflow_count = 0 } in
    let pids = pids_of garbage n queue_list in
    let synced = resync pids.0 pids.1 q₁ in
    let callback = callback_of queue_client n queue_list in
    if leb queue_count n
    then (none, queue_list)
    else if not (q.overflow_count == 0)
    then (none, set queue_list n emptied)
    else if n == queue_message
    then (q.cb_proc, set queue_list n q₁)
    else if q.mode == ts
    then (if synced.0 then callback else none, set queue_list n synced.1)
    else (callback, set queue_list n q₁)
