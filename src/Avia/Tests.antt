-- ===== src/Avia/Tests.antt =====
-- The theorems on the queues of the AViA demultiplexer at concrete queues.
use tuxbox_git_driver.Common.{
  ◌<◌, ◌≡◌, ◌⊎◌, ◌&&◌, refl, List, [], ◌∷◌, true, false, some, arith, length, replicate, take, leb,
}
use tuxbox_git_driver.Kernel.{UserMemory}
use tuxbox_git_driver.Circular
use tuxbox_git_driver.Avia.{Queue, no_queue, at, data_get, data_put, is_synced, resync}
use tuxbox_git_driver.Avia.Get.{IsValid, contents, data_get_refines}
use tuxbox_git_driver.Avia.Put.{Reading, unread, data_put_refines}
use tuxbox_git_driver.Avia.Overflow.{queue_irq, queue_irq_lem}
use tuxbox_git_driver.Avia.Resync.{Dropped, resync_lem}

abbrev mapped : UserMemory
mapped = record {
  copy_to_user = λ at bytes. 0;
  copy_from_user = λ at bytes. (bytes, 0);
  copied = λ at bytes e. refl;
}

-- 8, 9, 10 from place 3 on, round the end of five bytes
abbrev round : Queue
round = record no_queue {
  mem_addr = 100;
  mem = 10 ∷ 0 ∷ 0 ∷ 8 ∷ 9 ∷ [];
  size = 5;
  read_pos = 3;
  write_pos = 1;
  hw_write_pos = 1;
  busy = true;
}

round-IsValid : IsValid round
round-IsValid = record {
  storage = omega arith;
  small = omega arith;
  read_in = omega arith;
  write_in = omega arith;
  index_in = omega arith;
}

data_get_refines_example :
    let (ret, bytes, q') = data_get 2 false round in
    (ret ≡ 2) × (bytes ≡ 8 ∷ 9 ∷ []) × (contents q' ≡ 10 ∷ []) × IsValid q'
unfolding Circular.contents
data_get_refines_example = data_get_refines 2 false round-IsValid

round-Reading : Reading 103 round
round-Reading = record {
  valid = round-IsValid;
  system = omega arith;
  from = omega arith;
  below = omega arith;
  addressed = omega arith;
}

data_put_refines_example :
    let (ret, q') = data_put mapped 103 (11 ∷ 12 ∷ []) true round in
    (ret ≡ 1) × (unread 103 q' ≡ 8 ∷ 9 ∷ 10 ∷ 11 ∷ []) × Reading 103 q'
unfolding Circular.contents
data_put_refines_example =
    data_put_refines mapped true (λ at bytes on. refl) (11 ∷ 12 ∷ []) round-Reading

queue_irq_lem_example :
    (queue_irq 104 round).1 ≡ record round { hw_write_pos = 4; overflow_count = 1 }
queue_irq_lem_example =
    queue_irq_lem 104 round round-IsValid refl (omega arith) (omega arith) (omega arith)
      (omega arith)

-- Two bytes of dirt before a packet of the PID 17, in a queue of 256 bytes.
abbrev packets : Queue
packets = record no_queue {
  cb_proc = some 7;
  index = 3;
  mem_addr = 256;
  mem = 0 ∷ 0x47 ∷ 0x47 ∷ 0x40 ∷ 0x11 ∷ 0x10 ∷ replicate 250 0;
  size = 256;
  hw_write_pos = 190;
  write_pos = 190;
  pid = 17;
  busy = true;
}

packets-IsValid : IsValid packets
packets-IsValid = record {
  storage = omega arith;
  small = omega arith;
  read_in = omega arith;
  write_in = omega arith;
  index_in = omega arith;
}

resync_lem_example :
    let (goes_on, q') = resync 17 17 packets in
    IsValid q'
    × Dropped 17 17 (contents packets) (contents q')
    × (goes_on ≡ (leb 188 (length (contents q')) && is_synced 17 17 (take 4 (contents q'))))
    × ((goes_on ≡ true) ⊎ (length (contents q') < 188))
resync_lem_example = resync_lem 17 17 packets-IsValid

abbrev queues : List Queue
queues = no_queue ∷ no_queue ∷ no_queue ∷ packets ∷ []
