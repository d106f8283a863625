-- ===== src/Clock.antt =====
-- ds1307/ds1307.c: the driver of the real time clock. The I2C bus, and the macros of the kernel's
-- headers between binary and BCD, are parameters. An `int` of a `struct rtc_time` is the 32-bit number
-- that stands for it. Only the first client that the bus finds is modelled, without its registration.
pub mod Chip
pub mod RoundTrip
mod Tests
use tuxbox_git_driver.Common.{
  ℕ, ◌+◌, ◌-◌, ◌*◌, ◌%◌, ◌^◌, List, [], ◌∷◌, Bool, true, false, not, ◌&&◌, ◌||◌, Option, none, some,
  ltb, leb, ◌==◌, if◌then◌else◌, get_or, bit_and,
}
use tuxbox_git_driver.Common.Int.{ℤ, pos, negsuc}
use tuxbox_git_driver.Kernel.{eacces, efault, einval}

abbrev pub ds1307_seconds : ℕ
ds1307_seconds = 0

abbrev pub ds1307_minutes : ℕ
ds1307_minutes = 1

abbrev pub ds1307_hours : ℕ
ds1307_hours = 2

abbrev pub ds1307_weekday : ℕ
ds1307_weekday = 3

abbrev pub ds1307_day_of_month : ℕ
ds1307_day_of_month = 4

abbrev pub ds1307_month : ℕ
ds1307_month = 5

abbrev pub ds1307_year : ℕ
ds1307_year = 6

abbrev pub days_in_mo : List ℕ
days_in_mo = 0 ∷ 31 ∷ 28 ∷ 31 ∷ 30 ∷ 31 ∷ 30 ∷ 31 ∷ 31 ∷ 30 ∷ 31 ∷ 30 ∷ 31 ∷ []

-- i2c_master_send and i2c_master_recv of a client on a bus with the states S.
pub record I2cClient (S : Type 0) : Type 0 where
  pub master_send : List ℕ → S → ℤ × S
  pub master_recv : ℕ → S → ℤ × List ℕ × S

-- BIN_TO_BCD and BCD_TO_BIN
pub record BcdMacros : Type 0 where
  pub bin_to_bcd : ℕ → ℕ
  pub bcd_to_bin : ℕ → ℕ

-- The fields of `struct rtc_time` that the driver uses.
pub record RtcTime : Type 0 where
  pub tm_sec : ℕ
  pub tm_min : ℕ
  pub tm_hour : ℕ
  pub tm_mday : ℕ
  pub tm_mon : ℕ
  pub tm_year : ℕ
  pub tm_wday : ℕ

-- RTC_RD_TIME with whether the user's memory can be written, and RTC_SET_TIME with whether the caller
-- is the superuser and what copy_from_user reads, if it can.
pub data RtcCommand : Type 0 where
  rtc_rd_time : Bool → RtcCommand
  rtc_set_time : Bool → Option RtcTime → RtcCommand
  rtc_other : RtcCommand

abbrev pub is_count : ℕ → ℤ → Bool
is_count n (pos k) = k == n
is_count n (negsuc k) = false

module _ {S : Type 0} where
  unfoldable pub ds1307_readreg : Option (I2cClient S) → ℕ → S → ℕ × S
  ds1307_readreg none reg s = (0, s)
  ds1307_readreg (some client) reg s =
      let sent = client.master_send (reg % 256 ∷ []) s in
      let received = client.master_recv 1 sent.1 in
      if is_count 1 sent.0
      then (if is_count 1 received.0 then (get_or received.1 0 0, received.2) else (0, received.2))
      else (0, sent.1)

  unfoldable pub ds1307_writereg : Option (I2cClient S) → ℕ → ℕ → S → ℕ × S
  ds1307_writereg none val reg s = (0, s)
  ds1307_writereg (some client) val reg s =
      let sent = client.master_send (reg % 256 ∷ val % 256 ∷ []) s in
      if is_count 2 sent.0 then (val, sent.1) else (0, sent.1)

  -- rtc_i2c_init_client, but for the last line, which keeps the client.
  unfoldable pub rtc_i2c_init_client : Option (I2cClient S) → S → S
  rtc_i2c_init_client client s =
      let read = ds1307_readreg client ds1307_seconds s in
      if not (bit_and read.0 0x80 == 0)
      then (ds1307_writereg client (read.0 - 0x80) ds1307_seconds read.1).1
      else read.1

-- The tests of RTC_SET_TIME, in the source's order; the arguments are the local variables.
unfoldable pub time_rejected : ℕ → ℕ → ℕ → ℕ → ℕ → ℕ → ℕ → Bool
time_rejected yrs mon day hrs min sec wday =
    let leap_yr = ((yrs % 4 == 0) && not (yrs % 100 == 0)) || (yrs % 400 == 0) in
    (ltb yrs 1970 || ltb 2069 yrs)
    || (ltb 12 mon || (day == 0))
    || ltb (get_or days_in_mo mon 0 + (if (mon == 2) && leap_yr then 1 else 0)) day
    || (leb 24 hrs || leb 60 min || leb 60 sec)
    || ltb 6 wday

module _ {S : Type 0} (macros : BcdMacros) where
  unfoldable pub ds1307_get_rtc_time : Option (I2cClient S) → S → RtcTime × S
  ds1307_get_rtc_time client s =
      let sec = ds1307_readreg client ds1307_seconds s in
      let min = ds1307_readreg client ds1307_minutes sec.1 in
      let hour = ds1307_readreg client ds1307_hours min.1 in
      let mday = ds1307_readreg client ds1307_day_of_month hour.1 in
      let mon = ds1307_readreg client ds1307_month mday.1 in
      let year = ds1307_readreg client ds1307_year mon.1 in
      let wday = ds1307_readreg client ds1307_weekday year.1 in
      let year_bin = macros.bcd_to_bin year.0 in
      (
        record {
          tm_sec = macros.bcd_to_bin (bit_and sec.0 0x7f);
          tm_min = macros.bcd_to_bin (bit_and min.0 0x7f);
          tm_hour = macros.bcd_to_bin (bit_and hour.0 0x3f);
          tm_mday = macros.bcd_to_bin (bit_and mday.0 0x3f);
          tm_mon = (macros.bcd_to_bin (bit_and mon.0 0x1f) + (2 ^ 32 - 1)) % 2 ^ 32;
          tm_year = if leb year_bin 69 then year_bin + 100 else year_bin;
          tm_wday = macros.bcd_to_bin (bit_and wday.0 0x07);
        },
        wday.1,
      )

  -- The seven writes of RTC_SET_TIME.
  unfoldable pub write_time : Option (I2cClient S) → ℕ → ℕ → ℕ → ℕ → ℕ → ℕ → ℕ → S → S
  write_time client yrs mon day hrs min sec wday s =
      let s = (ds1307_writereg client (macros.bin_to_bcd yrs) ds1307_year s).1 in
      let s = (ds1307_writereg client (macros.bin_to_bcd mon) ds1307_month s).1 in
      let s = (ds1307_writereg client (macros.bin_to_bcd day) ds1307_day_of_month s).1 in
      let s = (ds1307_writereg client (macros.bin_to_bcd hrs) ds1307_hours s).1 in
      let s = (ds1307_writereg client (macros.bin_to_bcd min) ds1307_minutes s).1 in
      let s = (ds1307_writereg client (macros.bin_to_bcd sec) ds1307_seconds s).1 in
      (ds1307_writereg client (macros.bin_to_bcd wday) ds1307_weekday s).1

  -- RTC_SET_TIME behind the copy: the local variables are `unsigned int` and `unsigned char`.
  unfoldable pub set_time : Option (I2cClient S) → RtcTime → S → ℤ × S
  set_time client t s =
      let yrs = (t.tm_year + 1900) % 2 ^ 32 in
      let mon = (t.tm_mon + 1) % 256 in
      if time_rejected yrs mon (t.tm_mday % 256) (t.tm_hour % 256) (t.tm_min % 256) (t.tm_sec % 256)
        (t.tm_wday % 256)
      then (einval, s)
      else (
        pos 0,
        write_time client (if leb 2000 yrs then yrs - 2000 else yrs - 1900) mon (t.tm_mday % 256)
            (t.tm_hour % 256) (t.tm_min % 256) (t.tm_sec % 256) (t.tm_wday % 256) s,
      )

  -- rtc_ioctl: the result, what copy_to_user stored, and the bus.
  unfoldable pub rtc_ioctl : Option (I2cClient S) → RtcCommand → S → ℤ × Option RtcTime × S
  rtc_ioctl client (rtc_rd_time writable) s =
      let read = ds1307_get_rtc_time client s in
      if writable then (pos 0, some read.0, read.1) else (efault, none, read.1)
  rtc_ioctl client (rtc_set_time suser from_user) s =
      if suser
      then elim from_user [
        | none ↦ (efault, none, s)
        | some t ↦ let r = set_time client t s in (r.0, none, r.1)
      ]
      else (eacces, none, s)
  rtc_ioctl client rtc_other s = (einval, none, s)
