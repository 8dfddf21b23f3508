-- ===== src/Model/Time.antt =====
-- util/intop/model.py: `time.strftime('%Y-%m-%d.%H:%M:%S', time.gmtime(end_time))` in `get_data`.
-- The calendar is the proleptic Gregorian one of the standard library, from 1970 on.
use pna.Base.{
  ℕ, zero, suc, ◌+◌, ◌-◌, ◌/◌, ◌%◌, List, [], ◌∷◌, ◌++◌, Bool, not, ◌&&◌, ◌||◌, ◌==◌, ltb, nat_eq,
  if◌then◌else◌,
}
use pna.Base.Text.{Text, show}

abbrev pub is_leap : ℕ → Bool
is_leap y = (y % 4 == 0 && not (y % 100 == 0)) || y % 400 == 0

abbrev pub year_length : ℕ → ℕ
year_length y = if is_leap y then 366 else 365

-- The year and the day of the year, of a day counted from the start of year `y`. A year takes
-- more than one day, so the number of days is enough fuel.
unfoldable pub year_of : ℕ → ℕ → ℕ → ℕ × ℕ
year_of zero y days = (y, days)
year_of (suc fuel) y days =
    let later = year_of fuel (y + 1) (days - year_length y) in
    if ltb days (year_length y) then (y, days) else later

abbrev pub month_lengths : ℕ → List ℕ
month_lengths y =
    31 ∷ (if is_leap y then 29 else 28) ∷ 31 ∷ 30 ∷ 31 ∷ 30 ∷ 31 ∷ 31 ∷ 30 ∷ 31 ∷ 30 ∷ 31 ∷ []

-- The month and the day of the month.
unfoldable pub month_of : ℕ → List ℕ → ℕ → ℕ × ℕ
month_of m [] days = (m, days + 1)
month_of m (l ∷ ls) days = if ltb days l then (m, days + 1) else month_of (m + 1) ls (days - l)

-- A number with at least two digits.
abbrev pub two : ℕ → Text
two n = if ltb n 10 then b'0' ∷ show n else show n

unfoldable pub format_time : ℕ → Text
unfolding year_of month_of
format_time t =
    let (year, rest) = year_of (t / 86400) 1970 (t / 86400) in
    let (month, day) = month_of 1 (month_lengths year) rest in
    let s = t % 86400 in
    show year
    ++ b'-' ∷ two month
    ++ b'-' ∷ two day
    ++ b'.' ∷ two (s / 3600)
    ++ b':' ∷ two (s / 60 % 60)
    ++ b':' ∷ two (s % 60)
