-- ===== src/Runtime/Days.antt =====
-- `days_to_ymd` of src/runtime.rs against the calendar.
use tracescript.Prelude.{
  ℕ, ◌+◌, ◌-◌, ◌*◌, ◌/◌, ◌%◌, ◌^◌, ◌≤◌, ◌<◌, ◌≡◌, refl, ap, ◌∙◌, leb, if◌then◌else◌, ℤ, pos,
  i64_add, i64_sub, i64_mul, i64_div, to_bits, wrap, arith,
}
use tracescript.Runtime.Dates.{
  ymd_of_era, days_to_ymd, year_of_era, day_of_year, day_of, month_from_march,
}
use tracescript.Runtime.Calendar.{month_of, date_of, date_after}
use tracescript.Runtime.Years.{
  year_in_era, day_in_year, year_lt, year_starts, year_ends, date_of_era, date_of_day,
  date_after-date_of_day,
}

small_to_bits : (a : ℕ) → a < 2 ^ 64 → to_bits (pos a) ≡ a
unfolding to_bits
small_to_bits a h = omega arith

abbrev pub dated : ℕ × ℕ × ℕ → ℤ × ℕ × ℕ
dated (y, m, d) = (pos y, m, d)

add_pos : (a b : ℕ) → a + b < 2 ^ 62 → i64_add (pos a) (pos b) ≡ pos (a + b)
unfolding i64_add wrap
add_pos a b h = ground arith

sub_pos : (a b : ℕ) → b ≤ a → a < 2 ^ 62 → i64_sub (pos a) (pos b) ≡ pos (a - b)
unfolding i64_sub wrap
sub_pos a b h k = ground arith

year_of_era-year_in_era : (doe : ℕ) → doe < 146097 → year_of_era doe ≡ year_in_era doe
year_of_era-year_in_era doe h = ground arith

day_of_year-day_in_year :
    (doe : ℕ) → doe < 146097 → day_of_year doe (year_in_era doe) ≡ day_in_year doe (year_in_era doe)
day_of_year-day_in_year doe h = let lower = year_starts doe (year_in_era doe) h refl in ground arith

day_of-date :
    (doy : ℕ)
    → doy < 366
    → day_of doy (month_from_march doy) ≡ doy - (153 * month_from_march doy + 2) / 5 + 1
day_of-date doy h = ground arith

mul_400 : (a : ℕ) → a < 2 ^ 50 → i64_mul (pos a) (pos 400) ≡ pos (a * 400)
unfolding i64_mul wrap
mul_400 a h = ground arith

mul_146097 : (a : ℕ) → a < 2 ^ 45 → i64_mul (pos a) (pos 146097) ≡ pos (a * 146097)
unfolding i64_mul wrap
mul_146097 a h = ground arith

year_or_next :
    (m y : ℕ)
    → y < 2 ^ 61
    → (if leb m 2 then i64_add (pos y) (pos 1) else pos y) ≡ pos (if leb m 2 then y + 1 else y)
year_or_next m y h = rw (add_pos y 1 (omega arith)) ground arith

ymd_of_era-date_of_era :
    (era doe : ℕ)
    → era < 2 ^ 45
    → doe < 146097
    → ymd_of_era (pos era) doe ≡ dated (date_of_era era doe)
unfolding ymd_of_era date_of_era date_of
ymd_of_era-date_of_era era doe k h =
    let bound = year_lt doe (year_in_era doe) h refl in
    let upper = year_ends doe (year_in_era doe) h refl in
    let lower = year_starts doe (year_in_era doe) h refl in
    rw
      (
        year_of_era-year_in_era doe h,
        day_of_year-day_in_year doe h,
        mul_400 era (omega arith),
        add_pos (year_in_era doe) (era * 400) (omega arith),
        day_of-date (day_in_year doe (year_in_era doe)) (omega arith),
        year_or_next (month_of (month_from_march (day_in_year doe (year_in_era doe))))
            (year_in_era doe + era * 400) (omega arith),
      )
      refl

remainder : (a : ℕ) → a - a / 146097 * 146097 ≡ a % 146097
remainder a = omega arith

-- The date of a day number is the date that counting days from 1 January 1970 arrives at, by the
-- rules of the Gregorian calendar, for fewer than 2 ^ 61 days.
pub days_to_ymd-date_after : (n : ℕ) → n < 2 ^ 61 → days_to_ymd (pos n) ≡ dated (date_after n)
unfolding days_to_ymd i64_div date_of_day
days_to_ymd-date_after n h =
    let a : ℕ = n + 719468 in
    rw
      (
        add_pos n 719468 (omega arith),
        mul_146097 (a / 146097) (omega arith),
        sub_pos a (a / 146097 * 146097) (omega arith) (omega arith),
        small_to_bits (a - a / 146097 * 146097) (omega arith),
        ymd_of_era-date_of_era (a / 146097) (a - a / 146097 * 146097) (omega arith) (omega arith),
      )
      (ap dated (ap (date_of_era (a / 146097)) (remainder a) ∙ date_after-date_of_day n))
