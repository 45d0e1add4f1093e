-- ===== src/Runtime/Dates.antt =====
-- The dates of src/runtime.rs: `format_ts` and `days_to_ymd`.
use tracescript.Prelude.{
  ℕ, suc, ◌+◌, ◌-◌, ◌*◌, ◌/◌, ◌%◌, ◌^◌, ◌∷◌, ◌++◌, ltb, leb, if◌then◌else◌, ℤ, pos, negsuc,
  is_negative, to_bits, i64_add, i64_sub, i64_mul, i64_div, Text, codes, show_nat, length,
  replicate,
}

-- `-` on `u64`
abbrev pub u64_sub : ℕ → ℕ → ℕ
u64_sub a b = if leb b a then a - b else a + 2 ^ 64 - b

-- the year of the era, the day of the year, and the month from March, of a day of the era
abbrev pub year_of_era : ℕ → ℕ
year_of_era doe = u64_sub (u64_sub doe (doe / 1460) + doe / 36524) (doe / 146096) / 365

abbrev pub day_of_year : ℕ → ℕ → ℕ
day_of_year doe yoe = u64_sub doe (u64_sub (365 * yoe + yoe / 4) (yoe / 100))

abbrev pub month_from_march : ℕ → ℕ
month_from_march doy = (5 * doy + 2) / 153

abbrev pub month_of : ℕ → ℕ
month_of mp = if ltb mp 10 then mp + 3 else mp - 9

abbrev pub day_of : ℕ → ℕ → ℕ
day_of doy mp = u64_sub doy ((153 * mp + 2) / 5) + 1

-- the last lines of `days_to_ymd`, from the era and the day of the era
unfoldable pub ymd_of_era : ℤ → ℕ → ℤ × ℕ × ℕ
ymd_of_era era doe =
    let yoe : ℕ = year_of_era doe in
    let y : ℤ = i64_add (pos yoe) (i64_mul era (pos 400)) in
    let doy : ℕ = day_of_year doe yoe in
    let mp : ℕ = month_from_march doy in
    let m : ℕ = month_of mp in (if leb m 2 then i64_add y (pos 1) else y, m, day_of doy mp)

unfoldable pub days_to_ymd : ℤ → ℤ × ℕ × ℕ
unfolding i64_add i64_sub i64_div i64_mul to_bits ymd_of_era
days_to_ymd days =
    let z : ℤ = i64_add days (pos 719468) in
    let era : ℤ = i64_div (if is_negative z then i64_sub z (pos 146096) else z) (pos 146097) in
    ymd_of_era era (to_bits (i64_sub z (i64_mul era (pos 146097))))

-- `secs.div_euclid(86_400)` and `secs.rem_euclid(86_400)`
abbrev day_number : ℤ → ℤ
day_number (pos n) = pos (n / 86400)
day_number (negsuc n) = negsuc (n / 86400)

abbrev second_of_day : ℤ → ℕ
second_of_day (pos n) = n % 86400
second_of_day (negsuc n) = 86399 - n % 86400

-- `{:02}` and `{:04}`: zeros after the sign
abbrev zeros : ℕ → Text → Text
zeros w s = replicate (w - length s) b'0' ++ s

abbrev padded : ℕ → ℤ → Text
padded w (pos n) = zeros w (show_nat n)
padded w (negsuc n) = b'-' ∷ zeros (w - 1) (show_nat (suc n))

unfoldable pub format_ts : ℤ → Text
unfolding days_to_ymd show_nat
format_ts secs =
    let (y, m, d) = days_to_ymd (day_number secs) in
    let s : ℕ = second_of_day secs in
    padded 4 y
    ++ (codes "-"
        ++ (zeros 2 (show_nat m)
            ++ (codes "-"
                ++ (zeros 2 (show_nat d)
                    ++ (codes "T"
                        ++ (zeros 2 (show_nat (s / 3600))
                            ++ (codes ":"
                                ++ (zeros 2 (show_nat (s % 3600 / 60))
                                    ++ (codes ":"
                                        ++ (zeros 2 (show_nat (s % 60)) ++ codes "Z"))))))))))
