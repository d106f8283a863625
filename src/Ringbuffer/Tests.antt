-- ===== src/Ringbuffer/Tests.antt =====
-- Tests of the ring buffer, and the theorems at concrete rings.
use tuxbox_git_driver.Common.{◌≡◌, ◌≢◌, refl, [], ◌∷◌, Bool, true, false, arith}
use tuxbox_git_driver.Common.Int.{pos}
use tuxbox_git_driver.Kernel.{UserMemory}
use tuxbox_git_driver.Circular
use tuxbox_git_driver.Ringbuffer.{write_first, write_rest, Ringbuffer, read, write}
use tuxbox_git_driver.Ringbuffer.Invariant.{IsValid}
use tuxbox_git_driver.Ringbuffer.Refine.{contents, Accessible, read_refines, write_refines}
use tuxbox_git_driver.Ringbuffer.Wrap.{read_wrap_misplaced}

-- User memory that is always there.
abbrev mapped : UserMemory
mapped = record {
  copy_to_user = λ at bytes. 0;
  copy_from_user = λ at bytes. (bytes, 0);
  copied = λ at bytes e. refl;
}

mapped-Accessible : (usermem : Bool) → Accessible mapped usermem
mapped-Accessible usermem at bytes e = (refl, refl)

-- 8, 9, 10 from index 3 on, round the end of five bytes
abbrev wrapped : Ringbuffer
wrapped = record { buf = 10 ∷ 0 ∷ 0 ∷ 8 ∷ 9 ∷ []; size = 5; pread = 3; pwrite = 1 }

abbrev wrapped-IsValid : IsValid wrapped
wrapped-IsValid = omega arith

abbrev late : Ringbuffer
late = record { buf = 0 ∷ 0 ∷ 0 ∷ 8 ∷ 0 ∷ []; size = 5; pread = 3; pwrite = 4 }

abbrev late-IsValid : IsValid late
late-IsValid = omega arith

read_round : read mapped wrapped 3 true ≡ (pos 3, 8 ∷ 9 ∷ 10 ∷ [], record wrapped { pread = 3 })
unfolding read
read_round = refl

write_round : (write mapped late (1 ∷ 2 ∷ 3 ∷ []) false).1.buf ≡ 2 ∷ 3 ∷ 0 ∷ 8 ∷ 1 ∷ []
unfolding write write_first write_rest
write_round = refl

read_refines_example :
    let (ret, out, r') = read mapped wrapped 2 true in
    (ret ≡ pos 2) × (out ≡ 8 ∷ 9 ∷ []) × (contents r' ≡ 10 ∷ [])
unfolding Circular.contents
read_refines_example =
    read_refines mapped true (mapped-Accessible true) 2 wrapped-IsValid (omega arith) (omega arith)

write_refines_example :
    let (ret, r') = write mapped late (1 ∷ []) true in (ret ≡ pos 1) × (contents r' ≡ 8 ∷ 1 ∷ [])
unfolding Circular.contents
write_refines_example =
    write_refines mapped true (mapped-Accessible true) (1 ∷ []) late-IsValid (omega arith)
      (omega arith)

read_wrap_misplaced_example :
    let (ret, out, r') = read mapped wrapped 3 true in
    (out ≡ 8 ∷ 9 ∷ 10 ∷ []) × (r'.pread ≡ 3) × (r'.pread ≢ 1)
unfolding Circular.contents
read_wrap_misplaced_example =
    read_wrap_misplaced mapped true (mapped-Accessible true) 3 wrapped-IsValid (omega arith)
      (omega arith)
