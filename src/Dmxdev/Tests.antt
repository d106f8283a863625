-- ===== src/Dmxdev/Tests.antt =====
-- The theorems on the buffer of the demultiplexer device at concrete buffers.
use tuxbox_git_driver.Common.{
  ℕ, ◌+◌, ◌<◌, ◌≤◌, ◌≡◌, ◌⊎◌, refl, List, [], ◌∷◌, ◌++◌, true, arith, none, some, length,
}
use tuxbox_git_driver.Common.Int.{pos, negsuc}
use tuxbox_git_driver.Kernel.{UserMemory}
use tuxbox_git_driver.Circular
use tuxbox_git_driver.Dmxdev.{DmxdevBuffer, buffer_write, buffer_read, write_at}
use tuxbox_git_driver.Dmxdev.Buffer.{IsValid, contents, buffer_write_refines}
use tuxbox_git_driver.Dmxdev.Read.{buffer_read_refines}

abbrev mapped : UserMemory
mapped = record {
  copy_to_user = λ at bytes. 0;
  copy_from_user = λ at bytes. (bytes, 0);
  copied = λ at bytes e. refl;
}

abbrev storage : List ℕ
storage = 10 ∷ 0 ∷ 0 ∷ 8 ∷ 9 ∷ []

-- 8, 9, 10 from index 3 on, round the end of five bytes
abbrev round : DmxdevBuffer
round = record { mem = some storage; size = 5; pread = 3; pwrite = 1; error = pos 0 }

round-IsValid : IsValid round storage
round-IsValid = record {
  allocated = refl;
  storage = omega arith;
  pread_in = omega arith;
  pwrite_in = omega arith;
}

abbrev late : DmxdevBuffer
late = record { mem = some storage; size = 5; pread = 3; pwrite = 4; error = pos 0 }

late-IsValid : IsValid late storage
late-IsValid = record {
  allocated = refl;
  storage = omega arith;
  pread_in = omega arith;
  pwrite_in = omega arith;
}

write_goes_round :
    buffer_write late (1 ∷ 2 ∷ [])
    ≡ (pos 2, record late { mem = some (2 ∷ 0 ∷ 0 ∷ 8 ∷ 1 ∷ []); pwrite = 1 })
unfolding buffer_write write_at
write_goes_round = refl

buffer_write_refines_example :
    let (ret, b') = buffer_write late (1 ∷ 2 ∷ []) in
    ((length (contents late storage) + 2 < 5)
      × (mem' : List ℕ) × (ret ≡ pos 2)
      × (contents b' mem' ≡ contents late storage ++ 1 ∷ 2 ∷ [])
      × IsValid b' mem')
    ⊎ ((5 ≤ length (contents late storage) + 2) × (ret ≡ negsuc 0) × (b' ≡ late))
buffer_write_refines_example = buffer_write_refines (1 ∷ 2 ∷ []) late-IsValid

buffer_read_refines_example :
    (b' : DmxdevBuffer) × (buffer_read mapped (λ b. none) true 2 round
      ≡ some (pos 2, 8 ∷ 9 ∷ [], b'))
    × (contents b' storage ≡ 10 ∷ [])
    × IsValid b' storage
    × (b'.error ≡ pos 0)
unfolding Circular.contents
buffer_read_refines_example =
    buffer_read_refines mapped (λ b. none) (λ at bytes. refl) 2 round-IsValid refl (omega arith)
