-- ===== src/Avia/Overflow.antt =====
-- The interrupt of a queue: which queue it is about, and whether the chip has written over bytes that the
-- driver has not read yet.
use tuxbox_git_driver.Common.{
  ℕ, ◌+◌, ◌-◌, ◌*◌, ◌/◌, ◌%◌, ◌^◌, ◌≤◌, ◌<◌, ◌≡◌, ◌||◌, ◌&&◌, ◌==◌, not, Bool, true, false, none,
  some, arith, ltb, leb, if◌then◌else◌,
}
use tuxbox_git_driver.Circular.{used}
use tuxbox_git_driver.Avia.{Queue, queue_count, get_write_pos}
use tuxbox_git_driver.Avia.Get.{IsValid}

-- Whether avia_gt_dmx_queue_irq counts an overflow, with the new position of the hardware.
unfoldable pub overflows : ℕ → ℕ → ℕ → Bool
overflows read_pos old new =
    (ltb read_pos old && (leb read_pos new && ltb new old))
    || (ltb old read_pos && (leb read_pos new || ltb new old))

-- avia_gt_dmx_queue_irq on its queue, behind the search for it. The counts of interrupts and the mode with
-- fewer of them set only when the next interrupt comes, and are left out. The second component is the
-- callback that runs at once, or whether the task is queued.
pub data Raised : Type 0 where
  nothing : Raised
  at_once : ℕ → Raised
  task : Raised

unfoldable pub queue_irq : ℕ → Queue → Raised × Queue
queue_irq register q =
    let (pos, q₁) = get_write_pos register q in
    let q₂ = record q₁ { hw_write_pos = pos } in
    let count =
      if overflows q₂.read_pos q.hw_write_pos pos
      then (q.overflow_count + 1) % 2 ^ 8
      else q.overflow_count in
    let raised : Raised = elim q.irq_proc [
      | some p ↦ at_once p
      | none ↦ elim q.cb_proc [ some c ↦ task | none ↦ nothing ]
    ] in
    if not q.busy then (nothing, q) else (raised, record q₂ { overflow_count = count })

-- AVIA_GT_IRQ, _BIT and _REG
abbrev pub irq_of : ℕ → ℕ → ℕ
irq_of reg bit = reg % 2 ^ 8 * 2 ^ 8 + bit % 2 ^ 8

-- avia_gt_dmx_get_queue_irq on the eNX, or else on the GTX.
unfoldable pub get_queue_irq : Bool → ℕ → ℕ
get_queue_irq enx queue_nr =
    if leb queue_count queue_nr
    then 0
    else if enx
    then (if leb 17 queue_nr
        then irq_of 3 (queue_nr - 16)
        else if leb 2 queue_nr
        then irq_of 4 (queue_nr - 1)
        else irq_of 5 (queue_nr + 6))
    else irq_of (2 + queue_nr / 16 % 2) (queue_nr % 16)

-- The queue that avia_gt_dmx_queue_irq finds for an interrupt, an u8.
unfoldable pub queue_of_irq : Bool → ℕ → ℕ
queue_of_irq enx i =
    let bit = i % 2 ^ 8 in
    let nr = i / 2 ^ 8 % 2 ^ 8 in
    if enx
    then (if nr == 3
        then (bit + 16) % 2 ^ 8
        else if nr == 4
        then (bit + 1) % 2 ^ 8
        else if nr == 5
        then (bit + 250) % 2 ^ 8
        else queue_count)
    else ((nr + 254) * 16 + bit) % 2 ^ 8

-- On both chips, the interrupt that avia_gt_dmx_get_queue_irq gives for one of the 32 queues is the one for
-- which avia_gt_dmx_queue_irq finds this queue.
pub get_queue_irq_recovers :
    (enx : Bool) (queue_nr : ℕ)
    → queue_nr < queue_count
    → queue_of_irq enx (get_queue_irq enx queue_nr) ≡ queue_nr
unfolding queue_of_irq get_queue_irq
get_queue_irq_recovers true queue_nr h = ground arith
get_queue_irq_recovers false queue_nr h = ground arith

overflows_lem :
    (size r old new : ℕ)
    → r < size
    → old < size
    → new < size
    → overflows r old new ≡ leb size (used size r old + used size old new)
unfolding overflows
overflows_lem size r old new hr ho hn = ground arith

-- avia_gt_dmx_queue_irq on a valid queue in use, where the registers have the address of a place of the
-- queue: an overflow is counted exactly if the bytes that waited and those that the chip wrote since the
-- last interrupt, less than the size, are together as many as the queue has or more. The place is taken
-- over, and nothing of what the driver reads is touched.
pub queue_irq_lem :
    (register : ℕ) (q : Queue)
    → IsValid q
    → q.busy ≡ true
    → q.hw_write_pos < q.size
    → q.mem_addr ≤ register
    → register < q.mem_addr + q.size
    → q.mem_addr + q.size < 2 ^ 32
    → let new = register - q.mem_addr in
      let over =
        leb q.size (used q.size q.read_pos q.hw_write_pos + used q.size q.hw_write_pos new) in
      (queue_irq register q).1 ≡ record q {
        hw_write_pos = new;
        overflow_count = if over then (q.overflow_count + 1) % 2 ^ 8 else q.overflow_count;
      }
unfolding queue_irq get_write_pos
queue_irq_lem register q v busy old from below addressed =
    let new = register - q.mem_addr in
    ground (arith, v.small, v.read_in, overflows_lem q.size q.read_pos q.hw_write_pos new)
