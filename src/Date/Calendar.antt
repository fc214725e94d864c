-- ===== src/Date/Calendar.antt =====
-- src/lib/libc.c: `mktime` counts days, one year and one month after another.
use aneasyos.Base.{
  ℕ, zero, suc, ◌+◌, ◌-◌, ◌*◌, ◌/◌, ◌%◌, ◌<◌, ◌≡◌, refl, ◌⊎◌, Bool, true, false, ◌&&◌, ◌||◌, arith,
  ltb, ◌==◌, if◌then◌else◌, holds_below, holds_at,
}
use aneasyos.Base.Lists.{get_or}
use aneasyos.Base.Word.{word, add32, sub32, mul32}
use aneasyos.Kernel.{done, assert_failed}
use aneasyos.Date.{
  CalendarDate, daytime, is_leap_year, month_day_sum, leap_year_cnt, year_cnt, month_cnt, mktime,
}

-- The calendar: the days of the first `n` years from 1970 on.
pub days_of_years : ℕ → ℕ
days_of_years zero = 0
days_of_years (suc n) = days_of_years n + (if is_leap_year (1970 + n) then 366 else 365)

-- The days of the month with the number `m`, from 0, in a leap year or in another one.
pub month_length : Bool → ℕ → ℕ
month_length leap m =
    if m == 1
    then (if leap then 29 else 28)
    else if (m == 3) || (m == 5) || (m == 8) || (m == 10)
    then 30
    else 31

pub days_of_months : Bool → ℕ → ℕ
days_of_months leap zero = 0
days_of_months leap (suc m) = days_of_months leap m + month_length leap m

-- The leap years among the first `n` from 1970 on.
leaps : ℕ → ℕ
leaps zero = 0
leaps (suc n) = leaps n + (if is_leap_year (1970 + n) then 1 else 0)

days_of_years-leaps : (n : ℕ) → days_of_years n ≡ n * 365 + leaps n
unfolding days_of_years leaps
days_of_years-leaps zero = omega arith
days_of_years-leaps (suc n) = ground (arith, days_of_years-leaps n)

-- Counted by fours, hundreds and four hundreds.
leaps_counted : (n : ℕ) → leaps n ≡ (n + 1) / 4 - (n + 69) / 100 + (n + 369) / 400
unfolding leaps
leaps_counted zero = omega arith
leaps_counted (suc n) = ground (arith, leaps_counted n)

leap_year_cnt-leaps : (n : ℕ) → 1970 + n < word → leap_year_cnt (1970 + n) ≡ leaps n
unfolding leap_year_cnt
leap_year_cnt-leaps n h = ground (arith, leaps_counted n)

year_cnt-days : (n : ℕ) → 1970 + n < word → year_cnt (1970 + n) ≡ days_of_years n * daytime % word
unfolding year_cnt
year_cnt-days n h = omega (arith, leap_year_cnt-leaps n h, days_of_years-leaps n)

sums : Bool → ℕ → Bool
sums leap m = days_of_months leap m == get_or month_day_sum m 0 + (if leap && ltb 1 m then 1 else 0)

sums_table : (holds_below (sums false) 12 ≡ true) × (holds_below (sums true) 12 ≡ true)
unfolding holds_below sums days_of_months month_length
sums_table = (refl, refl)

month_sums :
    (leap : Bool) (m : ℕ)
    → m < 12
    → days_of_months leap m ≡ get_or month_day_sum m 0 + (if leap && ltb 1 m then 1 else 0)
unfolding sums
month_sums false m h = ground (arith, holds_at (sums false) h sums_table.0)
month_sums true m h = ground (arith, holds_at (sums true) h sums_table.1)

leap_day :
    (leap : Bool) (m s : ℕ)
    → (if leap && ltb 2 (m + 1) then add32 (mul32 s daytime) daytime else mul32 s daytime)
      ≡ (s + (if leap && ltb 1 m then 1 else 0)) * daytime % word
leap_day leap m s = ground arith

month_cnt-days :
    (year m : ℕ)
    → m < 12
    → month_cnt year (m + 1) ≡ days_of_months (is_leap_year year) m * daytime % word
unfolding month_cnt
month_cnt-days year m h =
    let index : sub32 (m + 1) 1 ≡ m = omega arith in
    rw (index, month_sums (is_leap_year year) m h)
      (leap_day (is_leap_year year) m (get_or month_day_sum m 0))

total :
    (a b c d e f : ℕ)
    → add32 (add32 (add32 (add32 (add32 (a % word) (b % word)) (c % word)) (d % word)) (e % word)) f
      ≡ (a + b + c + d + e + f) % word
total a b c d e f = omega arith

hours : (h : ℕ) → mul32 (mul32 h 60) 60 ≡ h * 3600 % word
hours h = omega arith

-- For a date of 1970 or later with a month from 1 to 12 and a day from 1 to 31, `mktime` is the
-- number of seconds, modulo 2 ^ 32, in the days of the years and of the months before, counted one
-- after another in the calendar, in the days of the month before and in the time of the day.
pub mktime-days :
    (n m day hour minute second : ℕ)
    → 1970 + n < word
    → m < 12
    → day < 31
    → mktime (record {
      year = 1970 + n;
      month = m + 1;
      day = day + 1;
      hour = hour;
      minute = minute;
      second = second;
    })
      ≡ done (
          (days_of_years n * daytime
            + days_of_months (is_leap_year (1970 + n)) m * daytime
            + day * daytime
            + hour * 3600
            + minute * 60
            + second)
          % word)
unfolding mktime
mktime-days n m day hour minute second hn hm hd =
    let month_ok : ltb 0 (m + 1) && ltb (m + 1) 13 ≡ true = ground arith in
    let day_ok : ltb 0 (day + 1) && ltb (day + 1) 32 ≡ true = ground arith in
    let days : sub32 (day + 1) 1 ≡ day = omega arith in
    rw (
      month_ok,
      day_ok,
      year_cnt-days n hn,
      month_cnt-days (1970 + n) m hm,
      days,
      hours hour,
      total (days_of_years n * daytime) (days_of_months (is_leap_year (1970 + n)) m * daytime)
          (day * daytime) (hour * 3600) (minute * 60) second,
    )

-- A month or a day out of range fails an assert.
pub mktime_range :
    (d : CalendarDate)
    → (d.month ≡ 0) ⊎ (12 < d.month) ⊎ (d.day ≡ 0) ⊎ (31 < d.day)
    → mktime d ≡ assert_failed
unfolding mktime
mktime_range d h = ground (arith, h)
