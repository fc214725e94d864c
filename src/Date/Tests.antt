-- ===== src/Date/Tests.antt =====
-- src/lib/libc.c and src/lib/klib.c: dates, and the theorems at them.
use aneasyos.Base.{ℕ, ◌+◌, ◌*◌, ◌%◌, ◌≡◌, refl, arith, if◌then◌else◌, ◌==◌}
use aneasyos.Base.Word.{word}
use aneasyos.Kernel.{done}
use aneasyos.Date.{
  CalendarDate, daytime, is_leap_year, mktime, read_rtc, leap_year_cnt, year_cnt, month_cnt,
}
use aneasyos.Date.Calendar.{days_of_years, days_of_months, mktime-days}

-- 2024-02-29 12:30:15
abbrev leap_day_2024 : CalendarDate
leap_day_2024 = record { year = 2024; month = 2; day = 29; hour = 12; minute = 30; second = 15 }

mktime_2024 : mktime leap_day_2024 ≡ done 1709209815
unfolding mktime year_cnt leap_year_cnt month_cnt
mktime_2024 = refl

-- The chip holds that date in BCD, in the 24 hour format.
abbrev chip : ℕ → ℕ
chip a =
    if a == 0
    then 0x15
    else if a == 2
    then 0x30
    else if a == 4
    then 0x12
    else if a == 7
    then 0x29
    else if a == 8
    then 2
    else if a == 9
    then 0x24
    else 2

read_rtc_2024 : read_rtc chip ≡ leap_day_2024
unfolding read_rtc
read_rtc_2024 = refl

mktime-days_example :
    mktime leap_day_2024
    ≡ done (
        (days_of_years 54 * daytime
          + days_of_months (is_leap_year (1970 + 54)) 1 * daytime
          + 28 * daytime
          + 12 * 3600
          + 30 * 60
          + 15)
        % word)
mktime-days_example = mktime-days 54 1 28 12 30 15 (omega arith) (omega arith) (omega arith)
