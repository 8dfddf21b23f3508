-- ===== src/Cui/Times.antt =====
-- util/intop/cui.py: the times that `add_data` reads from the options, as `datetime` has them.
pub mod Window
pub mod Stamp
use pna.Base.{
  ℕ, zero, suc, ◌+◌, ◌-◌, ◌*◌, List, [], ◌∷◌, Bool, true, false, ◌&&◌, ◌||◌, ◌==◌, nat_eq, ltb, leb,
  if◌then◌else◌, Option, none, some, get_elem?, Result, ok, err, value_error, attribute_error,
  overflow_error, ◌>>=◌,
}
use pna.Base.Text.{Text, is_digit}
use pna.Model.Time.{month_lengths}

-- An object of the class `datetime`.
pub record DateTime : Type 0 where
  pub year : ℕ
  pub month : ℕ
  pub day : ℕ
  pub hour : ℕ
  pub minute : ℕ
  pub second : ℕ
  pub microsecond : ℕ

-- The number of days of a month, and 0 where there is no such month.
unfoldable pub days_in : ℕ → ℕ → ℕ
days_in year zero = 0
days_in year (suc m) = elim (get_elem? (month_lengths year) m) [ none ↦ 0 | some n ↦ n ]

abbrev pub is_valid : DateTime → Bool
is_valid d =
    leb 1 d.year
    && leb d.year 9999
    && leb 1 d.month
    && leb d.month 12
    && leb 1 d.day
    && leb d.day (days_in d.year d.month)
    && ltb d.hour 24
    && ltb d.minute 60
    && ltb d.second 60
    && ltb d.microsecond 1000000

-- `datetime(year, month, day, hour, minute, second, microsecond)`
unfoldable pub datetime : DateTime → Result DateTime
unfolding days_in
datetime d = if is_valid d then ok d else err value_error

-- `d - timedelta(seconds=1)`
unfoldable pub minus_second : DateTime → Result DateTime
unfolding days_in
minus_second d =
    if ltb 0 d.second
    then ok (record d { second = d.second - 1 })
    else if ltb 0 d.minute
    then ok (record d { minute = d.minute - 1; second = 59 })
    else if ltb 0 d.hour
    then ok (record d { hour = d.hour - 1; minute = 59; second = 59 })
    else if ltb 1 d.day
    then ok (record d { day = d.day - 1; hour = 23; minute = 59; second = 59 })
    else if ltb 1 d.month
    then ok (record d {
      month = d.month - 1;
      day = days_in d.year (d.month - 1);
      hour = 23;
      minute = 59;
      second = 59;
    })
    else if ltb 1 d.year
    then ok
        (record d { year = d.year - 1; month = 12; day = 31; hour = 23; minute = 59; second = 59 })
    else err overflow_error

-- `d - timedelta(seconds=n)`
unfoldable pub minus_seconds : ℕ → DateTime → Result DateTime
unfolding minus_second
minus_seconds zero d = ok d
minus_seconds (suc n) d = do d' ← minus_second d; minus_seconds n d'

-- `<=` of two objects: by the year, then the month, and so on.
abbrev pub lexical : List ℕ → List ℕ → Bool
lexical (a ∷ as') (b ∷ bs) = ltb a b || (a == b && lexical as' bs)
lexical _ _ = true

abbrev pub fields : DateTime → List ℕ
fields d = d.year ∷ d.month ∷ d.day ∷ d.hour ∷ d.minute ∷ d.second ∷ d.microsecond ∷ []

abbrev pub not_after : DateTime → DateTime → Bool
not_after d e = lexical (fields d) (fields e)

-- The groups of '(\d{4})(\d{2})(\d{2})?(\d{2})?(\d{2})?(\d{2})?(\d{6})?'.
pub record Groups : Type 0 where
  pub year : ℕ
  pub month : ℕ
  pub day : Option ℕ
  pub hour : Option ℕ
  pub minute : Option ℕ
  pub second : Option ℕ
  pub microsecond : Option ℕ

-- `\d{n}`: the number behind the value so far, and the rest.
unfoldable pub read_digits : ℕ → ℕ → Text → Option (ℕ × Text)
read_digits zero value s = some (value, s)
read_digits (suc n) value [] = none
read_digits (suc n) value (c ∷ s) =
    let rest = read_digits n (value * 10 + (c - b'0')) s in if is_digit c then rest else none

-- `(\d{n})?`, which takes the digits if they are there.
unfoldable pub read_optional : ℕ → Text → Option ℕ × Text
unfolding read_digits
read_optional n s = elim (read_digits n 0 s) [
  | none ↦ (none, s)
  | some (value, rest) ↦ (some value, rest)
]

-- The groups behind the year and the month
unfoldable pub optional_groups : ℕ → ℕ → Text → Groups
optional_groups year month s2 =
    let (day, s3) = read_optional 2 s2 in
    let (hour, s4) = read_optional 2 s3 in
    let (minute, s5) = read_optional 2 s4 in
    let (second, s6) = read_optional 2 s5 in
    let (microsecond, _) = read_optional 6 s6 in
    record {
      year = year;
      month = month;
      day = day;
      hour = hour;
      minute = minute;
      second = second;
      microsecond = microsecond;
    }

abbrev pub from_month : ℕ → Option (ℕ × Text) → Option Groups
from_month year r = elim r [ none ↦ none | some (month, s2) ↦ some (optional_groups year month s2) ]

abbrev pub from_year : Option (ℕ × Text) → Option Groups
from_year r = elim r [ none ↦ none | some (year, s1) ↦ from_month year (read_digits 2 0 s1) ]

-- A match at the start of the text
unfoldable pub match_groups : Text → Option Groups
match_groups s = from_year (read_digits 4 0 s)

-- `re.search`: the first place where there is a match
unfoldable pub search : Text → Option Groups
search [] = match_groups []
search (c ∷ s) = elim (match_groups (c ∷ s)) [ some g ↦ some g | none ↦ search s ]

-- `if b.group(i) != None : field = int(b.group(i))`
abbrev pub given : Option ℕ → ℕ → ℕ
given none default = default
given (some n) default = n

abbrev pub with_groups : Groups → ℕ → ℕ → ℕ → ℕ → ℕ → DateTime
with_groups g day hour minute second microsecond = record {
  year = g.year;
  month = g.month;
  day = given g.day day;
  hour = given g.hour hour;
  minute = given g.minute minute;
  second = given g.second second;
  microsecond = given g.microsecond microsecond;
}

unfoldable pub begin_of : Groups → Result DateTime
unfolding datetime
begin_of g = datetime (with_groups g 1 0 0 0 0)

-- `datetime(year, month, 1)`
abbrev pub first_of : ℕ → ℕ → DateTime
first_of year month = record {
  year = year;
  month = month;
  day = 1;
  hour = 0;
  minute = 0;
  second = 0;
  microsecond = 0;
}

-- "get last day of the month": a second before the next month
unfoldable pub end_of : Groups → Result DateTime
unfolding datetime minus_second
end_of g = do
  next_month ← datetime (first_of g.year (g.month + 1))
  num_day ← minus_second next_month
  datetime (with_groups g num_day.day 23 59 59 999999)

-- `b.group(1)` without a match
abbrev pub matched : Option Groups → Result Groups
matched none = err attribute_error
matched (some g) = ok g

-- The two ends of the window, where `today` is what `datetime.today()` returns.
unfoldable pub begin_time : Option Text → DateTime → Result DateTime
unfolding minus_seconds search match_groups optional_groups read_optional begin_of
begin_time none today = minus_seconds 290 today
begin_time (some t) today = do g ← matched (search t); begin_of g

unfoldable pub end_time : Option Text → DateTime → Result DateTime
unfolding search match_groups optional_groups read_optional end_of
end_time none today = ok today
end_time (some t) today = do g ← matched (search t); end_of g
