-- ===== src/Clock/RoundTrip.antt =====
-- RTC_SET_TIME takes the times of 1970 to 2069, and RTC_RD_TIME gives back what was set.
use tuxbox_git_driver.Common.{
  ℕ, zero, suc, ◌+◌, ◌-◌, ◌%◌, ◌^◌, ◌<◌, ◌≤◌, ◌≡◌, ◌↔◌, ◌⊎◌, inl, inr, refl, ap, sym, ◌∙◌, subst,
  Bool-cases, Bool, true, false, not, ◌&&◌, ◌||◌, Option, some, ◌==◌, ltb, leb, if◌then◌else◌,
  arith, get_or,
}
use tuxbox_git_driver.Common.Int.{pos}
use tuxbox_git_driver.Common.Bits.{bit_and-7, bit_and-31, bit_and-63, bit_and-127}
use tuxbox_git_driver.Kernel.{einval}
use tuxbox_git_driver.Clock.{
  I2cClient, BcdMacros, RtcTime, rtc_rd_time, rtc_set_time, days_in_mo, ds1307_readreg,
  ds1307_writereg, ds1307_get_rtc_time, time_rejected, write_time, set_time, rtc_ioctl,
}
use tuxbox_git_driver.Clock.Chip.{
  IsChip, IsBcd, ds1307_readreg_lem, register-ds1307_readreg, register-ds1307_writereg,
}

-- The days of a month from 0 in a year from 1900, in the years that the clock has.
abbrev pub month_days : ℕ → ℕ → ℕ
month_days year mon =
    if mon == 1
    then (if year % 4 == 0 then 29 else 28)
    else if (mon == 3) || (mon == 5) || (mon == 8) || (mon == 10)
    then 30
    else 31

month_days-max : (year mon : ℕ) → month_days year mon ≤ 31
month_days-max year mon = ground arith

-- A time of the years 1970 to 2069, in the units of a `struct rtc_time`.
pub record IsTime (t : RtcTime) : Type 0 where
  pub seconds : t.tm_sec < 60
  pub minutes : t.tm_min < 60
  pub hours : t.tm_hour < 24
  pub first_day : 1 ≤ t.tm_mday
  pub last_day : t.tm_mday ≤ month_days t.tm_year t.tm_mon
  pub months : t.tm_mon < 12
  pub first_year : 70 ≤ t.tm_year
  pub last_year : t.tm_year < 170
  pub weekdays : t.tm_wday < 7

month_days_lem :
    (year mon : ℕ) (leap : Bool)
    → leap ≡ (year % 4 == 0)
    → mon < 12
    → get_or days_in_mo (mon + 1) 0 + (if (mon + 1 == 2) && leap then 1 else 0)
      ≡ month_days year mon
month_days_lem year zero leap e h = refl
month_days_lem year (suc zero) leap e h = rw e (ground arith)
month_days_lem year (suc (suc zero)) leap e h = refl
month_days_lem year (suc (suc (suc zero))) leap e h = refl
month_days_lem year (suc (suc (suc (suc zero)))) leap e h = refl
month_days_lem year (suc (suc (suc (suc (suc zero))))) leap e h = refl
month_days_lem year (suc (suc (suc (suc (suc (suc zero)))))) leap e h = refl
month_days_lem year (suc (suc (suc (suc (suc (suc (suc zero))))))) leap e h = refl
month_days_lem year (suc (suc (suc (suc (suc (suc (suc (suc zero)))))))) leap e h = refl
month_days_lem year (suc (suc (suc (suc (suc (suc (suc (suc (suc zero))))))))) leap e h = refl
month_days_lem year (suc (suc (suc (suc (suc (suc (suc (suc (suc (suc zero)))))))))) leap e h = refl
month_days_lem year (suc (suc (suc (suc (suc (suc (suc (suc (suc (suc (suc zero))))))))))) leap e
      h =
    refl
month_days_lem year (suc (suc (suc (suc (suc (suc (suc (suc (suc (suc (suc (suc mon)))))))))))) leap
      e h =
    absurd (omega arith)

module _ {S : Type 0} (client : I2cClient S) (chip : IsChip client) where
  write_then :
      {s : S} {f : ℕ → ℕ} (val reg : ℕ)
      → reg < 8
      → val < 256
      → ((q : ℕ) → chip.register s q ≡ f q)
      → (q : ℕ)
      → chip.register (ds1307_writereg (some client) val reg s).1 q
        ≡ (if q == reg then val else f q)
  write_then {s} {f} val reg h v same q =
      rw (register-ds1307_writereg client chip val reg q s h v, same q) refl

  read_then :
      {s : S} {f : ℕ → ℕ} (reg : ℕ)
      → reg < 8
      → ((q : ℕ) → chip.register s q ≡ f q)
      → ((ds1307_readreg (some client) reg s).0 ≡ f reg)
        × ((q : ℕ) → chip.register (ds1307_readreg (some client) reg s).1 q ≡ f q)
  read_then {s} {f} reg h same = (
    rw (ds1307_readreg_lem client chip reg s h) (same reg),
    (λ q. rw (register-ds1307_readreg client chip reg q s h) (same q)),
  )

  module _ (macros : BcdMacros) (bcd : IsBcd macros) where
    bcd_byte : (v : ℕ) → v < 100 → macros.bin_to_bcd v < 256
    bcd_byte v h = omega (arith, bcd.to_bcd v h)

    write_time_lem :
        (yrs mon day hrs min sec wday : ℕ) (s : S)
        → yrs < 100
        → mon < 100
        → day < 100
        → hrs < 100
        → min < 100
        → sec < 100
        → wday < 100
        → (q : ℕ)
        → chip.register (write_time macros (some client) yrs mon day hrs min sec wday s) q ≡ (
            if q == 3
            then macros.bin_to_bcd wday
            else if q == 0
            then macros.bin_to_bcd sec
            else if q == 1
            then macros.bin_to_bcd min
            else if q == 2
            then macros.bin_to_bcd hrs
            else if q == 4
            then macros.bin_to_bcd day
            else if q == 5
            then macros.bin_to_bcd mon
            else if q == 6
            then macros.bin_to_bcd yrs
            else chip.register s q)
    unfolding write_time
    write_time_lem yrs mon day hrs min sec wday s hy hm hd hh hi hs hw =
        write_then (macros.bin_to_bcd wday) 3 (omega arith) (bcd_byte wday hw) (
          write_then (macros.bin_to_bcd sec) 0 (omega arith) (bcd_byte sec hs) (
            write_then (macros.bin_to_bcd min) 1 (omega arith) (bcd_byte min hi) (
              write_then (macros.bin_to_bcd hrs) 2 (omega arith) (bcd_byte hrs hh) (
                write_then (macros.bin_to_bcd day) 4 (omega arith) (bcd_byte day hd) (
                  write_then (macros.bin_to_bcd mon) 5 (omega arith) (bcd_byte mon hm) (
                    write_then (macros.bin_to_bcd yrs) 6 (omega arith) (bcd_byte yrs hy)
                      (λ q. refl)))))))

    -- What a read of the time makes of the registers.
    get_time_lem :
        (s : S) (f : ℕ → ℕ)
        → ((q : ℕ) → chip.register s q ≡ f q)
        → (ds1307_get_rtc_time macros (some client) s).0 ≡ record {
          tm_sec = macros.bcd_to_bin (f 0 % 128);
          tm_min = macros.bcd_to_bin (f 1 % 128);
          tm_hour = macros.bcd_to_bin (f 2 % 64);
          tm_mday = macros.bcd_to_bin (f 4 % 64);
          tm_mon = (macros.bcd_to_bin (f 5 % 32) + (2 ^ 32 - 1)) % 2 ^ 32;
          tm_year =
              if leb (macros.bcd_to_bin (f 6)) 69
              then macros.bcd_to_bin (f 6) + 100
              else macros.bcd_to_bin (f 6);
          tm_wday = macros.bcd_to_bin (f 3 % 8);
        }
    unfolding ds1307_get_rtc_time
    get_time_lem s f same =
        let sec = read_then 0 (omega arith) same in
        let min = read_then 1 (omega arith) sec.1 in
        let hour = read_then 2 (omega arith) min.1 in
        let mday = read_then 4 (omega arith) hour.1 in
        let mon = read_then 5 (omega arith) mday.1 in
        let year = read_then 6 (omega arith) mon.1 in
        let wday = read_then 3 (omega arith) year.1 in
        rw
          (
            sec.0,
            min.0,
            hour.0,
            mday.0,
            mon.0,
            year.0,
            wday.0,
            bit_and-127 (f 0),
            bit_and-127 (f 1),
            bit_and-63 (f 2),
            bit_and-63 (f 4),
            bit_and-31 (f 5),
            bit_and-7 (f 3),
          )
          refl

    bcd_round : (v : ℕ) → v < 100 → macros.bcd_to_bin (macros.bin_to_bcd v) ≡ v
    bcd_round v h = omega (arith, bcd.to_bcd v h, bcd.to_bin (macros.bin_to_bcd v))

    -- The registers behind write_time, read back.
    get_time-write_time :
        (yrs mon day hrs min sec wday : ℕ) (s : S)
        → yrs < 100
        → 1 ≤ mon
        → mon < 13
        → day < 32
        → hrs < 24
        → min < 60
        → sec < 60
        → wday < 7
        → (ds1307_get_rtc_time macros
            (some client)
            (write_time macros (some client) yrs mon day hrs min sec wday s)).0
          ≡ record {
            tm_sec = sec;
            tm_min = min;
            tm_hour = hrs;
            tm_mday = day;
            tm_mon = mon - 1;
            tm_year = if leb yrs 69 then yrs + 100 else yrs;
            tm_wday = wday;
          }
    get_time-write_time yrs mon day hrs min sec wday s hy lm hm hd hh hi hs hw =
        let sec_masked : macros.bin_to_bcd sec % 128 ≡ macros.bin_to_bcd sec =
          omega (arith, bcd.to_bcd sec (omega arith)) in
        let min_masked : macros.bin_to_bcd min % 128 ≡ macros.bin_to_bcd min =
          omega (arith, bcd.to_bcd min (omega arith)) in
        let hrs_masked : macros.bin_to_bcd hrs % 64 ≡ macros.bin_to_bcd hrs =
          omega (arith, bcd.to_bcd hrs (omega arith)) in
        let day_masked : macros.bin_to_bcd day % 64 ≡ macros.bin_to_bcd day =
          omega (arith, bcd.to_bcd day (omega arith)) in
        let mon_masked : macros.bin_to_bcd mon % 32 ≡ macros.bin_to_bcd mon =
          omega (arith, bcd.to_bcd mon (omega arith)) in
        let wday_masked : macros.bin_to_bcd wday % 8 ≡ macros.bin_to_bcd wday =
          omega (arith, bcd.to_bcd wday (omega arith)) in
        let month : (mon + (2 ^ 32 - 1)) % 2 ^ 32 ≡ mon - 1 = omega arith in
        get_time_lem _ _ (
          write_time_lem yrs mon day hrs min sec wday s hy (omega arith) (omega arith) (omega arith)
            (omega arith) (omega arith) (omega arith))
        ∙ rw
            (
              sec_masked,
              bcd_round sec (omega arith),
              min_masked,
              bcd_round min (omega arith),
              hrs_masked,
              bcd_round hrs (omega arith),
              day_masked,
              bcd_round day (omega arith),
              mon_masked,
              bcd_round mon (omega arith),
              wday_masked,
              bcd_round wday (omega arith),
              bcd_round yrs hy,
              month,
            )
            refl

-- What the unsigned chars of RTC_SET_TIME keep of a time.
abbrev pub truncated : RtcTime → RtcTime
truncated t = record t {
  tm_sec = t.tm_sec % 256;
  tm_min = t.tm_min % 256;
  tm_hour = t.tm_hour % 256;
  tm_mday = t.tm_mday % 256;
  tm_mon = t.tm_mon % 256;
  tm_wday = t.tm_wday % 256;
}

leap_lem :
    (year : ℕ)
    → 70 ≤ year
    → year < 170
    → (let yrs = year + 1900 in ((yrs % 4 == 0) && not (yrs % 100 == 0)) || (yrs % 400 == 0))
      ≡ (year % 4 == 0)
leap_lem year l h = ground arith

days_lem :
    (year mon : ℕ)
    → 70 ≤ year
    → year < 170
    → mon < 12
    → (let yrs = year + 1900 in
        let leap = ((yrs % 4 == 0) && not (yrs % 100 == 0)) || (yrs % 400 == 0) in
        get_or days_in_mo (mon + 1) 0 + (if (mon + 1 == 2) && leap then 1 else 0))
      ≡ month_days year mon
days_lem year mon l h m = month_days_lem year mon _ (leap_lem year l h) m

-- The days that RTC_SET_TIME computes for a year and a month of its own.
abbrev most_days : ℕ → ℕ → ℕ
most_days yrs mon =
    let leap = ((yrs % 4 == 0) && not (yrs % 100 == 0)) || (yrs % 400 == 0) in
    get_or days_in_mo mon 0 + (if (mon == 2) && leap then 1 else 0)

accepted_lem :
    (yrs mon day hrs min sec wday : ℕ)
    → time_rejected yrs mon day hrs min sec wday ≡ false
    → (1970 ≤ yrs)
      × (yrs ≤ 2069)
      × (mon ≤ 12)
      × (1 ≤ day)
      × (day ≤ most_days yrs mon)
      × (hrs < 24)
      × (min < 60)
      × (sec < 60)
      × (wday < 7)
unfolding time_rejected
accepted_lem yrs mon day hrs min sec wday e =
    let (a, b, c, d, f) =
      five (ltb yrs 1970 || ltb 2069 yrs) (ltb 12 mon || (day == 0)) (ltb (most_days yrs mon) day)
        (leb 24 hrs || leb 60 min || leb 60 sec) (ltb 6 wday) e in
    (
      ground arith,
      ground arith,
      ground arith,
      ground arith,
      ground arith,
      ground arith,
      ground arith,
      ground arith,
      ground arith,
    )
  where
    five :
        (a b c d e : Bool)
        → (a || b || c || d || e) ≡ false
        → (a ≡ false) × (b ≡ false) × (c ≡ false) × (d ≡ false) × (e ≡ false)
    five a b c d e h = ground arith

accept_lem :
    (yrs mon day hrs min sec wday : ℕ)
    → 1970 ≤ yrs
    → yrs ≤ 2069
    → mon ≤ 12
    → 1 ≤ day
    → day ≤ most_days yrs mon
    → hrs < 24
    → min < 60
    → sec < 60
    → wday < 7
    → time_rejected yrs mon day hrs min sec wday ≡ false
unfolding time_rejected
accept_lem yrs mon day hrs min sec wday a b c d e f g h i =
    let one : (ltb yrs 1970 || ltb 2069 yrs) ≡ false = ground arith in
    let two : (ltb 12 mon || (day == 0)) ≡ false = ground arith in
    let three : ltb (most_days yrs mon) day ≡ false = ground arith in
    let four : (leb 24 hrs || leb 60 min || leb 60 sec) ≡ false = ground arith in
    let five : ltb 6 wday ≡ false = ground arith in rw (one, two, three, four, five) refl

month_not_zero : (yrs mon day : ℕ) → 1 ≤ day → day ≤ most_days yrs mon → 1 ≤ mon
month_not_zero yrs zero day l h = absurd (omega arith)
month_not_zero yrs (suc mon) day l h = omega arith

-- The tests on the local variables are those on the truncated time.
pub time_rejected_lem :
    (t : RtcTime)
    → t.tm_year < 2 ^ 32
    → (time_rejected
          ((t.tm_year + 1900) % 2 ^ 32)
          ((t.tm_mon + 1) % 256)
          (t.tm_mday % 256)
          (t.tm_hour % 256)
          (t.tm_min % 256)
          (t.tm_sec % 256)
          (t.tm_wday % 256)
        ≡ false)
      ↔ IsTime (truncated t)
unfolding time_rejected
time_rejected_lem t h = (
  (λ e.
      let (y, y', m, d, d', hour, minute, second, week) =
        accepted_lem ((t.tm_year + 1900) % 2 ^ 32) ((t.tm_mon + 1) % 256) (t.tm_mday % 256)
          (t.tm_hour % 256) (t.tm_min % 256) (t.tm_sec % 256) (t.tm_wday % 256) e in
      let year : (t.tm_year + 1900) % 2 ^ 32 ≡ t.tm_year + 1900 = omega arith in
      let some_month =
        month_not_zero ((t.tm_year + 1900) % 2 ^ 32) ((t.tm_mon + 1) % 256) (t.tm_mday % 256) d
          d' in
      let month : (t.tm_mon + 1) % 256 ≡ t.tm_mon % 256 + 1 = omega arith in
      let days = days_lem t.tm_year (t.tm_mon % 256) (omega arith) (omega arith) (omega arith) in
      let d'' = rw (year, month, days) at d' in
      record {
        seconds = second;
        minutes = minute;
        hours = hour;
        first_day = d;
        last_day = d'';
        months = omega arith;
        first_year = omega arith;
        last_year = omega arith;
        weekdays = week;
      }),
  (λ v.
      let year : (t.tm_year + 1900) % 2 ^ 32 ≡ t.tm_year + 1900 = omega (arith, v.last_year) in
      let month : (t.tm_mon + 1) % 256 ≡ t.tm_mon % 256 + 1 = omega (arith, v.months) in
      let days = days_lem t.tm_year (t.tm_mon % 256) v.first_year v.last_year v.months in
      rw (year, month)
        (accept_lem (t.tm_year + 1900) (t.tm_mon % 256 + 1) (t.tm_mday % 256) (t.tm_hour % 256)
          (t.tm_min % 256) (t.tm_sec % 256) (t.tm_wday % 256) (omega (arith, v.first_year))
          (omega (arith, v.last_year)) (omega (arith, v.months)) v.first_day (rw days v.last_day)
          v.hours v.minutes v.seconds v.weekdays)),
)

clash : {b : Bool} → b ≡ false → b ≡ true → ⊥
clash p q = ground arith

truncated-valid : (t : RtcTime) → IsTime t → truncated t ≡ t
truncated-valid t v =
    let days = month_days-max t.tm_year t.tm_mon in
    let sec : t.tm_sec % 256 ≡ t.tm_sec = omega (arith, v.seconds) in
    let min : t.tm_min % 256 ≡ t.tm_min = omega (arith, v.minutes) in
    let hour : t.tm_hour % 256 ≡ t.tm_hour = omega (arith, v.hours) in
    let mday : t.tm_mday % 256 ≡ t.tm_mday = omega (arith, v.last_day, days) in
    let mon : t.tm_mon % 256 ≡ t.tm_mon = omega (arith, v.months) in
    let wday : t.tm_wday % 256 ≡ t.tm_wday = omega (arith, v.weekdays) in
    rw (sec, min, hour, mday, mon, wday) refl

-- The test of RTC_SET_TIME.
abbrev rejects : RtcTime → Bool
rejects t =
    time_rejected ((t.tm_year + 1900) % 2 ^ 32) ((t.tm_mon + 1) % 256) (t.tm_mday % 256)
      (t.tm_hour % 256) (t.tm_min % 256) (t.tm_sec % 256) (t.tm_wday % 256)

-- RTC_SET_TIME of the superuser, at any time in user memory: it returns 0 exactly where the lowest bytes
-- of the time's fields and its year are a time of 1970 to 2069, and otherwise -EINVAL without a call of
-- the bus.
pub set_time_lem :
    {S : Type 0} (macros : BcdMacros) (client : Option (I2cClient S)) (t : RtcTime) (s : S)
    → t.tm_year < 2 ^ 32
    → let r = rtc_ioctl macros client (rtc_set_time true (some t)) s in
      ((r.0 ≡ pos 0) ↔ IsTime (truncated t)) × ((r.0 ≡ pos 0) ⊎ ((r.0 ≡ einval) × (r.2 ≡ s)))
unfolding rtc_ioctl set_time
set_time_lem macros client t s h =
    let taken = time_rejected_lem t h in
    elim (Bool-cases (rejects t)) [
      | inl bad ↦ (
        rw bad ((λ e. absurd (ground arith)), (λ v. absurd (clash (taken.1 v) bad))),
        inr (rw bad refl, rw bad refl),
      )
      | inr good ↦ (rw good ((λ e. taken.0 good), (λ v. refl)), inl (rw good refl))
    ]

-- A valid time that RTC_SET_TIME has written to the chip is what RTC_RD_TIME reads.
pub set_then_read :
    {S : Type 0} (macros : BcdMacros) (client : I2cClient S) (t : RtcTime) (s : S)
    → IsBcd macros
    → IsChip client
    → IsTime t
    → let written = rtc_ioctl macros (some client) (rtc_set_time true (some t)) s in
      let read = rtc_ioctl macros (some client) (rtc_rd_time true) written.2 in
      (written.0 ≡ pos 0) × (read.0 ≡ pos 0) × (read.1 ≡ some t)
unfolding rtc_ioctl set_time
set_then_read macros client t s bcd chip v =
    let good : rejects t ≡ false =
      (time_rejected_lem t (omega (arith, v.last_year))).1
        (subst IsTime (sym (truncated-valid t v)) v) in
    let year : (t.tm_year + 1900) % 2 ^ 32 ≡ t.tm_year + 1900 = omega (arith, v.last_year) in
    let month : (t.tm_mon + 1) % 256 ≡ t.tm_mon + 1 = omega (arith, v.months) in
    let same = truncated-valid t v in
    let short : (if leb 2000 (t.tm_year + 1900)
          then t.tm_year + 1900 - 2000
          else t.tm_year + 1900 - 1900)
        < 100 =
      ground (arith, v.first_year, v.last_year) in
    let before : t.tm_mon + 1 - 1 ≡ t.tm_mon = omega arith in
    let back : (let y =
            if leb 2000 (t.tm_year + 1900)
            then t.tm_year + 1900 - 2000
            else t.tm_year + 1900 - 1900 in
          if leb y 69 then y + 100 else y)
        ≡ t.tm_year =
      ground (arith, v.first_year, v.last_year) in
    let read =
      get_time-write_time client chip macros bcd _ (t.tm_mon + 1) t.tm_mday t.tm_hour t.tm_min
        t.tm_sec t.tm_wday s short (omega arith) (omega (arith, v.months))
        (omega (arith, v.last_day, month_days-max t.tm_year t.tm_mon)) v.hours v.minutes v.seconds
        v.weekdays in
    rw
      (
        good,
        year,
        month,
        ap (λ u. u.tm_sec) same,
        ap (λ u. u.tm_min) same,
        ap (λ u. u.tm_hour) same,
        ap (λ u. u.tm_mday) same,
        ap (λ u. u.tm_wday) same,
      )
      (refl, refl, ap some (read ∙ rw (back, before) refl))
