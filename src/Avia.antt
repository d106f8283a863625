-- ===== src/Avia.antt =====
-- dvb/drivers/media/dvb/avia/avia_gt_dmx.c: the queues in memory that the demultiplexer of the AViA chips
-- fills. Registers are parameters: what is read from them is an argument, and what only goes to them is
-- left out. The memory of a queue is the list of its bytes, which start at its address; what is written
-- behind it is lost here. A callback is a number.
pub mod Get
pub mod Put
pub mod Overflow
pub mod Resync
pub mod Task
pub mod Alloc
mod Tests
use tuxbox_git_driver.Common.{
  ℕ, zero, suc, ◌+◌, ◌-◌, ◌*◌, ◌/◌, ◌%◌, ◌^◌, List, [], ◌∷◌, ◌++◌, Bool, true, false, not, ◌&&◌,
  ◌||◌, Option, none, some, ltb, leb, ◌==◌, if◌then◌else◌, length, get_or, set, take, drop, slice,
  memcpy,
}
use tuxbox_git_driver.Kernel.{UserMemory, add_size, sub_size}

-- AVIA_GT_DMX_QUEUE_COUNT and AVIA_GT_DMX_QUEUE_USER_START
abbrev pub queue_count : ℕ
queue_count = 32

abbrev pub user_start : ℕ
user_start = 3

-- The fields of sAviaGtDmxQueue that the functions here use, and the memory at `mem_addr`.
pub record Queue : Type 0 where
  pub cb_proc : Option ℕ
  pub irq_proc : Option ℕ
  pub hw_read_pos : ℕ
  pub hw_write_pos : ℕ
  pub index : ℕ
  pub mem_addr : ℕ
  pub mem : List ℕ
  pub read_pos : ℕ
  pub size : ℕ
  pub write_pos : ℕ
  pub pid : ℕ
  pub busy : Bool
  pub overflow_count : ℕ
  pub mode : ℕ

abbrev pub is_system_queue : ℕ → Bool
is_system_queue queue_nr = ltb queue_nr user_start

unfoldable pub buf1_ptr : Queue → ℕ
buf1_ptr q = add_size q.mem_addr q.read_pos

unfoldable pub buf2_ptr : Queue → ℕ
buf2_ptr q = if leb q.read_pos q.write_pos then 0 else q.mem_addr

unfoldable pub buf1_size : Queue → ℕ
buf1_size q =
    if leb q.read_pos q.write_pos
    then sub_size q.write_pos q.read_pos
    else sub_size q.size q.read_pos

unfoldable pub buf2_size : Queue → ℕ
buf2_size q = if leb q.read_pos q.write_pos then 0 else q.write_pos

unfoldable pub bytes_avail : Queue → ℕ
bytes_avail q = add_size (buf1_size q) (buf2_size q)

unfoldable pub flush : Queue → Queue
flush q = record q { read_pos = q.write_pos }

-- avia_gt_dmx_queue_data_get: the result, the bytes that go to `dest`, and the queue.
unfoldable pub data_get : ℕ → Bool → Queue → ℕ × List ℕ × Queue
data_get count peek q =
    let avail = bytes_avail q in
    let n = if ltb avail count then avail else count in
    let wraps = ltb q.write_pos q.read_pos && leb (sub_size q.size q.read_pos) n in
    let done = if wraps then sub_size q.size q.read_pos else 0 in
    let head = if wraps then slice q.mem q.read_pos done else [] in
    let at = if wraps then 0 else q.read_pos in
    let q' = if peek then q else record q { read_pos = sub_size (add_size at n) done } in
    if leb queue_count q.index
    then (0, [], q)
    else (n, head ++ slice q.mem at (sub_size n done), q')

-- avia_gt_dmx_system_queue_get_read_pos, with the stable value of the registers.
unfoldable pub get_read_pos : ℕ → Queue → ℕ
get_read_pos register q =
    if not (is_system_queue q.index)
    then 0
    else if ltb register q.mem_addr || leb (add_size q.mem_addr q.size) register
    then 0
    else sub_size register q.mem_addr

-- avia_gt_dmx_queue_get_bytes_free
unfoldable pub bytes_free : ℕ → Queue → ℕ × Queue
bytes_free register q =
    let hw = get_read_pos register q in
    let q' = record q { hw_read_pos = hw } in
    if not (is_system_queue q.index)
    then (0, q)
    else if leb hw q.write_pos
    then (sub_size (add_size (sub_size q.size q.write_pos) hw) 1, q')
    else (sub_size (sub_size hw q.write_pos) 1, q')

module _ (user : UserMemory) where
  -- What a copy of `bytes`, at offset `at` of `src`, puts into the queue; its result is not looked at.
  abbrev pub copied_in : Bool → ℕ → List ℕ → List ℕ
  copied_in usermem at bytes = if usermem then (user.copy_from_user at bytes).0 else bytes

  -- The copies of avia_gt_dmx_queue_data_put, with its `count` behind the test.
  unfoldable pub put_bytes : ℕ → List ℕ → Bool → Queue → Queue
  put_bytes n src usermem q =
      let wraps = leb q.size (add_size q.write_pos n) in
      let done = if wraps then sub_size q.size q.write_pos else 0 in
      let mem =
        if wraps then memcpy q.mem q.write_pos (copied_in usermem 0 (take done src)) else q.mem in
      let at = if wraps then 0 else q.write_pos in
      let rest = sub_size n done in
      record q {
        mem =
            if rest == 0 then mem else memcpy mem at (copied_in usermem done (slice src done rest));
        write_pos = if rest == 0 then at else add_size at rest;
      }

  -- avia_gt_dmx_queue_data_put; `src` holds the `count` bytes.
  unfoldable pub data_put : ℕ → List ℕ → Bool → Queue → ℕ × Queue
  data_put register src usermem q =
      let (free, q₁) = bytes_free register q in
      let count = length src in
      let n = if ltb free count then free else count in
      if not (is_system_queue q.index) then (0, q₁) else (n, put_bytes n src usermem q₁)

-- avia_gt_dmx_queue_crc32; `crc` is avia_gt_accel_crc32 of the chip on the bytes at an address.
unfoldable pub queue_crc32 : (List ℕ → ℕ → ℕ) → Bool → ℕ → ℕ → Queue → ℕ
queue_crc32 crc gtx count seed q =
    let chunk1_size = sub_size q.size q.read_pos in
    if leb queue_count q.index
    then 0
    else if ltb q.size (add_size q.read_pos count)
    then (if gtx && leb chunk1_size 4
        then 0
        else crc (slice q.mem 0 (sub_size count chunk1_size))
            (crc (slice q.mem q.read_pos chunk1_size) seed))
    else crc (slice q.mem q.read_pos count) seed

-- avia_gt_dmx_queue_get_write_pos, with the stable value of the registers.
unfoldable pub get_write_pos : ℕ → Queue → ℕ × Queue
get_write_pos register q =
    if ltb register q.mem_addr || leb (add_size q.mem_addr q.size) register
    then (0, record q { hw_read_pos = 0; hw_write_pos = 0; read_pos = 0; write_pos = 0 })
    else (sub_size register q.mem_addr, q)

-- The first four bytes of a packet, `struct ts_header`: whether it has the sync byte and one of two PIDs.
unfoldable pub is_synced : ℕ → ℕ → List ℕ → Bool
is_synced pid1 pid2 ts =
    let pid = get_or ts 1 0 % 2 ^ 5 * 2 ^ 8 + get_or ts 2 0 in
    (get_or ts 0 0 == 0x47) && ((pid == pid1) || (pid == pid2))

-- The `while (avail >= 188)` loop of avia_gt_dmx_bh_task: `avail` behind it, and the queue. With as much
-- fuel as there are bytes it ends by its own tests.
unfoldable pub resync_loop : ℕ → ℕ → ℕ → ℕ → Queue → ℕ × Queue
resync_loop zero pid1 pid2 avail q = (avail, q)
resync_loop (suc fuel) pid1 pid2 avail q =
    let q' = (data_get 1 false q).2 in
    let rest = resync_loop fuel pid1 pid2 (avail - 1) q' in
    if ltb avail 188
    then (avail, q)
    else if is_synced pid1 pid2 (data_get 4 true q').1
    then (avail - 1, q')
    else rest

-- The part of avia_gt_dmx_bh_task under `q->mode == TS`: whether it goes on, and the queue.
unfoldable pub resync : ℕ → ℕ → Queue → Bool × Queue
resync pid1 pid2 q =
    let avail = bytes_avail q in
    let (left, q') = resync_loop avail pid1 pid2 avail q in
    if ltb avail 188
    then (false, q)
    else if is_synced pid1 pid2 (data_get 4 true q).1
    then (true, q)
    else (leb 188 left, q')

-- Behind the array; a call is made with an index in it.
abbrev pub no_queue : Queue
no_queue = record {
  cb_proc = none;
  irq_proc = none;
  hw_read_pos = 0;
  hw_write_pos = 0;
  index = 0;
  mem_addr = 0;
  mem = [];
  read_pos = 0;
  size = 0;
  write_pos = 0;
  pid = 0;
  busy = false;
  overflow_count = 0;
  mode = 0;
}

abbrev pub at : List Queue → ℕ → Queue
at queue_list n = get_or queue_list n no_queue

-- AVIA_GT_DMX_QUEUE_MESSAGE, and the mode TS
abbrev pub queue_message : ℕ
queue_message = 31

abbrev pub ts : ℕ
ts = 0
