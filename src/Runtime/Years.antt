-- ===== src/Runtime/Years.antt =====
-- The year of a day in an era of 400 years, as `days_to_ymd` of src/runtime.rs computes it.
use mathlib.Core.Path.{subst}
use tracescript.Prelude.{
  ℕ, zero, suc, ◌+◌, ◌-◌, ◌*◌, ◌/◌, ◌%◌, ◌≤◌, ◌<◌, ◌≡◌, ◌⊎◌, inl, inr, refl, ap, sym, ◌∙◌, true,
  false, arith,
}
use tracescript.Runtime.Calendar.{
  lt_or_le, is_leap, next_date, date_of, next_day_of_year, next_year, date_after,
}

pub year_lt :
    (doe yoe : ℕ)
    → doe < 146097
    → yoe ≡ (doe - doe / 1460 + doe / 36524 - doe / 146096) / 365
    → yoe < 400
year_lt doe yoe h e = omega arith

pub year_starts :
    (doe yoe : ℕ)
    → doe < 146097
    → yoe ≡ (doe - doe / 1460 + doe / 36524 - doe / 146096) / 365
    → 365 * yoe + yoe / 4 ≤ doe + yoe / 100
year_starts doe yoe h e = omega arith

pub year_ends :
    (doe yoe : ℕ)
    → doe < 146097
    → yoe ≡ (doe - doe / 1460 + doe / 36524 - doe / 146096) / 365
    → doe + yoe / 100 ≤ 365 * yoe + yoe / 4 + 365
year_ends doe yoe h e = omega arith

-- the last day, of leap years only
no_leap4 :
    (doe yoe : ℕ)
    → doe < 146097
    → yoe ≡ (doe - doe / 1460 + doe / 36524 - doe / 146096) / 365
    → 0 < suc yoe % 4
    → doe + yoe / 100 < 365 * yoe + yoe / 4 + 365
no_leap4 doe yoe h e l = omega arith

no_leap100 :
    (doe yoe : ℕ)
    → doe < 146097
    → yoe ≡ (doe - doe / 1460 + doe / 36524 - doe / 146096) / 365
    → suc yoe % 100 ≡ 0
    → suc yoe < 400
    → doe + yoe / 100 < 365 * yoe + yoe / 4 + 365
no_leap100 doe yoe h e l k = omega arith

-- consecutive days
same_or_next_year :
    (doe yoe yoe' : ℕ)
    → doe < 146096
    → yoe ≡ (doe - doe / 1460 + doe / 36524 - doe / 146096) / 365
    → yoe' ≡ (suc doe - suc doe / 1460 + suc doe / 36524 - suc doe / 146096) / 365
    → (yoe ≤ yoe') × (yoe' ≤ suc yoe)
same_or_next_year doe yoe yoe' h e e' = (omega arith, omega arith)

new_year :
    (doe yoe : ℕ)
    → doe < 146096
    → yoe ≡ (doe - doe / 1460 + doe / 36524 - doe / 146096) / 365
    → suc yoe ≡ (suc doe - suc doe / 1460 + suc doe / 36524 - suc doe / 146096) / 365
    → suc doe + suc yoe / 100 ≡ 365 * suc yoe + suc yoe / 4
new_year doe yoe h e e' = omega arith

abbrev pub year_in_era : ℕ → ℕ
year_in_era doe = (doe - doe / 1460 + doe / 36524 - doe / 146096) / 365

abbrev pub day_in_year : ℕ → ℕ → ℕ
day_in_year doe yoe = doe + yoe / 100 - (365 * yoe + yoe / 4)

unfoldable pub date_of_era : ℕ → ℕ → ℕ × ℕ × ℕ
date_of_era era doe = date_of (year_in_era doe + era * 400) (day_in_year doe (year_in_era doe))

leap_in_era :
    (era yoe : ℕ)
    → suc yoe % 4 ≡ 0
    → (0 < suc yoe % 100) ⊎ (suc yoe ≡ 400)
    → is_leap (yoe + era * 400 + 1) ≡ true
leap_in_era era yoe h (inl k) = ground arith
leap_in_era era yoe h (inr k) = ground arith

no_leap_in_era :
    (era yoe : ℕ)
    → (0 < suc yoe % 4) ⊎ ((suc yoe % 100 ≡ 0) × (suc yoe < 400))
    → is_leap (yoe + era * 400 + 1) ≡ false
no_leap_in_era era yoe (inl k) = ground arith
no_leap_in_era era yoe (inr (k, l)) = ground arith

HasNoLeapDay : ℕ → Type 0
HasNoLeapDay yoe = (0 < suc yoe % 4) ⊎ ((suc yoe % 100 ≡ 0) × (suc yoe < 400))

HasLeapDay : ℕ → Type 0
HasLeapDay yoe = (suc yoe % 4 ≡ 0) × ((0 < suc yoe % 100) ⊎ (suc yoe ≡ 400))

leap_cases : (yoe : ℕ) → yoe < 400 → HasNoLeapDay yoe ⊎ HasLeapDay yoe
unfolding HasNoLeapDay HasLeapDay
leap_cases yoe h = elim (lt_or_le 1 (suc yoe % 4 + 1)) [
  | inl a ↦ inl (inl (omega arith))
  | inr a ↦ elim (lt_or_le 0 (suc yoe % 100)) [
    | inl b ↦ inr (omega arith, inl b)
    | inr b ↦ elim (lt_or_le (suc yoe) 400) [
      | inl c ↦ inl (inr (omega arith, c))
      | inr c ↦ inr (omega arith, inr (omega arith))
    ]
  ]
]

-- the first and the last day of a year
no_leap_len :
    (doe : ℕ)
    → doe < 146097
    → HasNoLeapDay (year_in_era doe)
    → day_in_year doe (year_in_era doe) < 365
unfolding HasNoLeapDay
no_leap_len doe h (inl k) =
    let u = no_leap4 doe (year_in_era doe) h refl k in
    let v = year_starts doe (year_in_era doe) h refl in omega arith
no_leap_len doe h (inr (k, l)) =
    let u = no_leap100 doe (year_in_era doe) h refl k l in
    let v = year_starts doe (year_in_era doe) h refl in omega arith

last_day :
    (doe yoe : ℕ)
    → doe < 146096
    → yoe ≡ year_in_era doe
    → suc yoe ≡ year_in_era (suc doe)
    → (HasNoLeapDay yoe → day_in_year doe yoe ≡ 364)
      × ((HasLeapDay yoe → day_in_year doe yoe ≡ 365) × (day_in_year (suc doe) (suc yoe) ≡ 0))
unfolding HasNoLeapDay HasLeapDay
last_day doe yoe h e e' =
    let u = new_year doe yoe h e e' in
    (
      λ c. elim c [ inl k ↦ omega arith | inr (k, l) ↦ omega arith ],
      (λ (k, c). elim c [ inl l ↦ omega arith | inr l ↦ omega arith ], omega arith),
    )

suc_add : (a b : ℕ) → suc a + b ≡ suc (a + b)
suc_add a b = omega arith

next_of_era :
    (era doe : ℕ) → doe < 146096 → date_of_era era (suc doe) ≡ next_date (date_of_era era doe)
unfolding date_of_era HasNoLeapDay HasLeapDay
next_of_era era doe h =
    let yoe : ℕ = year_in_era doe in
    let y : ℕ = yoe + era * 400 in
    let (lo, hi) = same_or_next_year doe yoe (year_in_era (suc doe)) h refl refl in
    elim (lt_or_le yoe (year_in_era (suc doe))) [
      | inl a ↦
          let e : year_in_era (suc doe) ≡ suc yoe = omega arith in
          let (short, (long, first)) = last_day doe yoe h refl (sym e) in
          rw (e, first)
            (ap (λ z. date_of z 0) (suc_add yoe (era * 400))
              ∙ next_year y (day_in_year doe yoe)
                  (elim (leap_cases yoe (year_lt doe yoe (omega arith) refl)) [
                    | inl c ↦ inl (short c, no_leap_in_era era yoe c)
                    | inr c ↦ inr (long c, leap_in_era era yoe (c.0) (c.1))
                  ]))
      | inr a ↦
          let e : year_in_era (suc doe) ≡ yoe = omega arith in
          let lower = year_starts doe yoe (omega arith) refl in
          let upper = year_ends (suc doe) (year_in_era (suc doe)) (omega arith) refl in
          let d : day_in_year (suc doe) yoe ≡ suc (day_in_year doe yoe) = omega arith in
          rw (e, d)
            (next_day_of_year y (day_in_year doe yoe) (omega arith) (λ last.
              elim (leap_cases yoe (year_lt doe yoe (omega arith) refl)) [
                | inl c ↦
                    let short =
                      no_leap_len (suc doe) (omega arith) (subst HasNoLeapDay (sym e) c) in
                    absurd (omega arith)
                | inr c ↦ leap_in_era era yoe (c.0) (c.1)
              ]))
    ]

-- day 146096 is the last of its era
next_era : (era : ℕ) → date_of_era (suc era) 0 ≡ next_date (date_of_era era 146096)
unfolding date_of_era
next_era era =
    let e : 0 + suc era * 400 ≡ suc (399 + era * 400) = omega arith in
    ap (λ y. date_of y 0) e
    ∙ (next_year (399 + era * 400) 365 (inr (refl, leap_in_era era 399 refl (inr refl))))

unfoldable pub date_of_day : ℕ → ℕ × ℕ × ℕ
date_of_day a = date_of_era (a / 146097) (a % 146097)

next_of_day : (a : ℕ) → date_of_day (suc a) ≡ next_date (date_of_day a)
unfolding date_of_day
next_of_day a = elim (lt_or_le (a % 146097) 146096) [
  | inl b ↦
      let e : suc a / 146097 ≡ a / 146097 = omega arith in
      let f : suc a % 146097 ≡ suc (a % 146097) = omega arith in
      rw (e, f) (next_of_era (a / 146097) (a % 146097) b)
  | inr b ↦
      let e : suc a / 146097 ≡ suc (a / 146097) = omega arith in
      let f : suc a % 146097 ≡ 0 = omega arith in
      let g : a % 146097 ≡ 146096 = omega arith in rw (e, f, g) (next_era (a / 146097))
]

pub date_after-date_of_day : (n : ℕ) → date_of_day (n + 719468) ≡ date_after n
unfolding date_after date_of_day date_of_era date_of
date_after-date_of_day zero = refl
date_after-date_of_day (suc n) =
    ap date_of_day (suc_add n 719468)
    ∙ next_of_day (n + 719468)
    ∙ ap next_date (date_after-date_of_day n)
