-- ===== src/Date.antt =====
-- src/lib/libc.c, and the clock chip's part of src/lib/klib.c: dates and seconds since 1970.
-- The fields of a date are u32.
pub mod Calendar
mod Tests
use aneasyos.Base.{
  ℕ, ◌+◌, ◌*◌, ◌/◌, ◌%◌, Bool, true, false, ◌&&◌, ◌||◌, not, List, [], ◌∷◌, ltb, leb, ◌==◌, ◌!=◌,
  if◌then◌else◌,
}
use aneasyos.Base.Lists.{get_or}
use aneasyos.Base.Word.{add32, sub32, mul32}
use aneasyos.Base.Flags.{has_flag}
use aneasyos.Kernel.{Outcome, done, ◌>>=◌, ◌>>◌, assert}

-- DATE
pub record CalendarDate : Type 0 where
  pub year : ℕ
  pub month : ℕ
  pub day : ℕ
  pub hour : ℕ
  pub minute : ℕ
  pub second : ℕ

abbrev pub daytime : ℕ
daytime = 86400

abbrev pub yeartime : ℕ
yeartime = 31536000

abbrev pub is_leap_year : ℕ → Bool
is_leap_year year = (year % 4 == 0) && (year % 100 != 0) || (year % 400 == 0)

abbrev pub month_day_sum : List ℕ
month_day_sum = 0 ∷ 31 ∷ 59 ∷ 90 ∷ 120 ∷ 151 ∷ 181 ∷ 212 ∷ 243 ∷ 273 ∷ 304 ∷ 334 ∷ []

-- `leap_year_cnt` of `mktime`
unfoldable pub leap_year_cnt : ℕ → ℕ
leap_year_cnt year =
    let fours = add32 (sub32 (sub32 year 1) 1972 / 4) 1 in
    if ltb 1972 year
    then (if ltb 2000 year
        then add32 (sub32 fours (sub32 (sub32 year 1) 2000 / 100)) (sub32 (sub32 year 1) 2000 / 400)
        else fours)
    else 0

unfoldable pub year_cnt : ℕ → ℕ
year_cnt year = add32 (mul32 (sub32 year 1970) yeartime) (mul32 (leap_year_cnt year) daytime)

unfoldable pub month_cnt : ℕ → ℕ → ℕ
month_cnt year month =
    let months = mul32 (get_or month_day_sum (sub32 month 1) 0) daytime in
    if is_leap_year year && ltb 2 month then add32 months daytime else months

unfoldable pub mktime : CalendarDate → Outcome ℕ
mktime d = do
  assert (ltb 0 d.month && ltb d.month 13)
  assert (ltb 0 d.day && ltb d.day 32)
  done (
      add32
        (add32
          (add32
            (add32 (add32 (year_cnt d.year) (month_cnt d.year d.month))
              (mul32 (sub32 d.day 1) daytime))
            (mul32 (mul32 d.hour 60) 60))
          (mul32 d.minute 60))
        d.second)

-- BCD2BIN of a byte
abbrev pub bcd2bin : ℕ → ℕ
bcd2bin a = a / 16 * 10 + a % 16

-- `read_rtc`, for what the registers of the clock chip hold; its loop ends when the chip is not
-- updating them.
unfoldable pub read_rtc : (ℕ → ℕ) → CalendarDate
read_rtc reg =
    let format = reg 0xb in
    let bcd = not (has_flag format 0x40) in
    let field = λ (a : ℕ). if bcd then bcd2bin a % 0x100 else a in
    let hour = field (reg 4) in
    let year = if bcd then bcd2bin (reg 9) else reg 9 in
    record {
      year = 2017 / 100 * 100 + year;
      month = field (reg 8);
      day = field (reg 7);
      hour =
          if not (has_flag format 2) && has_flag hour 0x80 then (hour % 0x80 + 12) % 24 else hour;
      minute = field (reg 2);
      second = field (reg 0);
    }

unfoldable pub get_rtc_unxi_time : (ℕ → ℕ) → Outcome ℕ
get_rtc_unxi_time reg = mktime (read_rtc reg)
