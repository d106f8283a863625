-- ===== src/Clock/Tests.antt =====
-- The clock theorems at a chip of eight registers.
use tuxbox_git_driver.Common.{
  ℕ, ◌+◌, ◌*◌, ◌/◌, ◌%◌, ◌≡◌, refl, List, [], ◌∷◌, true, some, ◌==◌, if◌then◌else◌, arith,
}
use tuxbox_git_driver.Common.Int.{ℤ, pos}
use tuxbox_git_driver.Kernel.{}
use tuxbox_git_driver.Clock.{I2cClient, BcdMacros, RtcTime, rtc_rd_time, rtc_set_time, rtc_ioctl}
use tuxbox_git_driver.Clock.Chip.{IsChip, IsBcd}
use tuxbox_git_driver.Clock.RoundTrip.{IsTime, set_then_read}

abbrev macros : BcdMacros
macros = record {
  bin_to_bcd = λ v. 16 * (v / 10) + v % 10;
  bcd_to_bin = λ b. 10 * (b / 16) + b % 16;
}

macros-IsBcd : IsBcd macros
macros-IsBcd = record { to_bcd = λ v h. refl; to_bin = λ b. refl }

-- The pointer and the registers.
abbrev Registers : Type 0
Registers = ℕ × (ℕ → ℕ)

abbrev send : List ℕ → Registers → ℤ × Registers
send [] s = (pos 0, s)
send (r ∷ []) s = (pos 1, (r, s.1))
send (r ∷ v ∷ bytes) s = (pos 2, (r + 1, λ q. if q == r then v else s.1 q))

abbrev chip : I2cClient Registers
chip = record { master_send = send; master_recv = λ n s. (pos 1, s.1 s.0 ∷ [], (s.0 + 1, s.1)) }

chip-IsChip : IsChip chip
chip-IsChip = record {
  register = λ s. s.1;
  pointer = λ s. s.0;
  sent_one = λ r s h. refl;
  pointed = λ r s h. refl;
  not_written = λ r q s h. refl;
  sent_two = λ r v s h w. refl;
  written = λ r v q s h w. refl;
  received = λ s. refl;
  answered = λ s. refl;
  not_changed = λ q s. refl;
}

abbrev blank : Registers
blank = (0, λ r. 0)

-- 23:59:58 on Tuesday, 29 February 2000.
abbrev leap_day : RtcTime
leap_day = record {
  tm_sec = 58;
  tm_min = 59;
  tm_hour = 23;
  tm_mday = 29;
  tm_mon = 1;
  tm_year = 100;
  tm_wday = 2;
}

leap_day-IsTime : IsTime leap_day
leap_day-IsTime = record {
  seconds = omega arith;
  minutes = omega arith;
  hours = omega arith;
  first_day = omega arith;
  last_day = omega arith;
  months = omega arith;
  first_year = omega arith;
  last_year = omega arith;
  weekdays = omega arith;
}

-- 29 February 1999, which the driver refuses.
abbrev no_day : RtcTime
no_day = record leap_day { tm_year = 99 }

set_then_read_example :
    let written = rtc_ioctl macros (some chip) (rtc_set_time true (some leap_day)) blank in
    let read = rtc_ioctl macros (some chip) (rtc_rd_time true) written.2 in
    (written.0 ≡ pos 0) × (read.0 ≡ pos 0) × (read.1 ≡ some leap_day)
set_then_read_example =
    set_then_read macros chip leap_day blank macros-IsBcd chip-IsChip leap_day-IsTime
