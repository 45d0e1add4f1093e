-- ===== src/Runtime/Calendar.antt =====
-- The Gregorian calendar: the date behind a date, and the dates of a year that begins in March.
use tracescript.Prelude.{
  ℕ, zero, suc, ◌+◌, ◌-◌, ◌*◌, ◌/◌, ◌%◌, ◌≤◌, ◌<◌, ◌≡◌, ◌⊎◌, inl, inr, refl, ap, sym, ◌∙◌, Bool,
  true, false, not, ◌&&◌, ◌||◌, ltb, leb, ◌==◌, if◌then◌else◌, lt→ltb, arith,
}

pub lt_or_le : (a b : ℕ) → (a < b) ⊎ (b ≤ a)
lt_or_le a b = ground arith

-- every fourth year, save the centuries that 400 does not divide
abbrev pub is_leap : ℕ → Bool
is_leap y = y % 4 == 0 && (not (y % 100 == 0) || y % 400 == 0)

abbrev pub days_in_month : ℕ → ℕ → ℕ
days_in_month y m =
    if m == 2
    then (if is_leap y then 29 else 28)
    else if m == 4 || m == 6 || m == 9 || m == 11
    then 30
    else 31

-- the date of the next day
abbrev pub next_date : ℕ × ℕ × ℕ → ℕ × ℕ × ℕ
next_date (y, m, d) =
    if ltb d (days_in_month y m)
    then (y, m, d + 1)
    else if m == 12
    then (y + 1, 1, 1)
    else (y, m + 1, 1)

abbrev month_len : ℕ → ℕ
month_len mp = (153 * suc mp + 2) / 5 - (153 * mp + 2) / 5

abbrev pub month_of : ℕ → ℕ
month_of mp = if ltb mp 10 then mp + 3 else mp - 9

days_in_month-month_of : (y mp : ℕ) → mp < 11 → days_in_month y (month_of mp) ≡ month_len mp
days_in_month-month_of y mp h = ground arith

days_in_month-february : (y : ℕ) → is_leap y ≡ true → days_in_month y 2 ≡ 29
days_in_month-february y h = ground arith

next_same : (y m d : ℕ) → d < days_in_month y m → next_date (y, m, d) ≡ (y, m, d + 1)
next_same y m d h = rw (lt→ltb d (days_in_month y m) h) refl

month_same :
    (doy mp : ℕ)
    → mp ≡ (5 * doy + 2) / 153
    → suc doy < (153 * suc mp + 2) / 5
    → (5 * suc doy + 2) / 153 ≡ mp
month_same doy mp e h = omega arith

month_next :
    (doy mp : ℕ)
    → mp ≡ (5 * doy + 2) / 153
    → (153 * suc mp + 2) / 5 ≤ suc doy
    → ((5 * suc doy + 2) / 153 ≡ suc mp) × (suc doy ≡ (153 * suc mp + 2) / 5)
month_next doy mp e h = (omega arith, omega arith)

abbrev pub year_from_march : ℕ → ℕ → ℕ
year_from_march y mp = if leb (month_of mp) 2 then y + 1 else y

-- the date of day `doy` of the year that begins in March of year `y`
unfoldable pub date_of : ℕ → ℕ → ℕ × ℕ × ℕ
date_of y doy =
    let mp : ℕ = (5 * doy + 2) / 153 in
    (year_from_march y mp, month_of mp, doy - (153 * mp + 2) / 5 + 1)

next_new :
    (y mp : ℕ)
    → mp < 11
    → next_date (year_from_march y mp, month_of mp, month_len mp)
      ≡ (year_from_march y (suc mp), month_of (suc mp), 1)
next_new y mp h = rw (days_in_month-month_of (year_from_march y mp) mp h) ground arith

february_room :
    (y doy : ℕ)
    → 337 ≤ doy
    → doy < 365
    → (doy ≡ 364 → is_leap (y + 1) ≡ true)
    → doy - 337 + 1 < days_in_month (y + 1) 2
february_room y doy g h l = elim (lt_or_le doy 364) [
  | inl a ↦ ground arith
  | inr a ↦ rw (days_in_month-february (y + 1) (l (omega arith))) (omega arith)
]

has_room :
    (y doy mp : ℕ)
    → mp ≡ (5 * doy + 2) / 153
    → doy < 365
    → suc doy < (153 * suc mp + 2) / 5
    → (doy ≡ 364 → is_leap (y + 1) ≡ true)
    → doy - (153 * mp + 2) / 5 + 1 < days_in_month (year_from_march y mp) (month_of mp)
has_room y doy mp e h k l = elim (lt_or_le mp 11) [
  | inl a ↦ rw (days_in_month-month_of (year_from_march y mp) mp a) (omega arith)
  | inr a ↦ let last : mp ≡ 11 = omega arith in rw last (february_room y doy (omega arith) h l)
]

pub next_day_of_year :
    (y doy : ℕ)
    → doy < 365
    → (doy ≡ 364 → is_leap (y + 1) ≡ true)
    → date_of y (suc doy) ≡ next_date (date_of y doy)
unfolding date_of
next_day_of_year y doy h l =
    let mp : ℕ = (5 * doy + 2) / 153 in
    elim (lt_or_le (suc doy) ((153 * suc mp + 2) / 5)) [
      | inl a ↦
          rw (month_same doy mp refl a, next_same _ _ _ (has_room y doy mp refl h a l))
            (ap (λ d. (year_from_march y mp, month_of mp, d)) (omega arith))
      | inr a ↦
          let (e, f) = month_next doy mp refl a in
          rw e (
            ap (λ d. (year_from_march y (suc mp), month_of (suc mp), d)) (omega arith)
            ∙ sym (next_new y mp (omega arith))
            ∙ ap (λ d. next_date (year_from_march y mp, month_of mp, d)) (omega arith))
    ]

pub next_year :
    (y doy : ℕ)
    → ((doy ≡ 364) × (is_leap (y + 1) ≡ false)) ⊎ ((doy ≡ 365) × (is_leap (y + 1) ≡ true))
    → date_of (suc y) 0 ≡ next_date (date_of y doy)
unfolding date_of
next_year y doy (inl (e, l)) = rw (e, l) (ap (λ z. (z, 3, 1)) (omega arith))
next_year y doy (inr (e, l)) = rw (e, l) (ap (λ z. (z, 3, 1)) (omega arith))

-- the days counted from 1 January 1970
unfoldable pub date_after : ℕ → ℕ × ℕ × ℕ
date_after zero = (1970, 1, 1)
date_after (suc n) = next_date (date_after n)
