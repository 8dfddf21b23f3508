-- ===== src/Cui/Times/Stamp.antt =====
-- A time that is written with all its digits is read back.
use pna.Base.{
  ℕ, zero, suc, ◌+◌, ◌-◌, ◌*◌, ◌/◌, ◌%◌, ◌≤◌, ◌<◌, ◌≡◌, ap, ◌∙◌, List, [], ◌∷◌, Bool, true, false,
  ltb, All, length, get_elem?, if◌then◌else◌, Option, none, some, ok, ◌>>=◌, arith,
}
use pna.Base.Text.{Text, is_digit}
use pna.Model.Time.{is_leap, month_lengths}
use pna.Cui.Times.Window.{valid_month}
use pna.Cui.Times.{
  DateTime, days_in, is_valid, datetime, minus_second, Groups, read_digits, read_optional,
  optional_groups, from_month, from_year, match_groups, search, first_of, begin_of, end_of,
  begin_time, end_time, matched,
}

abbrev pub two_digits : ℕ → Text → Text
two_digits n s = (b'0' + n / 10) ∷ (b'0' + n % 10) ∷ s

abbrev pub four_digits : ℕ → Text → Text
four_digits n s = two_digits (n / 100) (two_digits (n % 100) s)

abbrev pub six_digits : ℕ → Text → Text
six_digits n s = two_digits (n / 10000) (four_digits (n % 10000) s)

-- 'YYYYMMDDHHMMSSssssss', as the help of the options has it
abbrev pub stamp : DateTime → Text
stamp d = four_digits d.year (
    two_digits d.month (
      two_digits d.day (
        two_digits d.hour
          (two_digits d.minute (two_digits d.second (six_digits d.microsecond []))))))

read_two :
    (k v n : ℕ) (s : Text)
    → n < 100
    → read_digits (suc (suc k)) v (two_digits n s) ≡ read_digits k (v * 100 + n) s
unfolding read_digits
read_two k v n s h =
    let front : is_digit (b'0' + n / 10) ≡ true = ground arith in
    let back : is_digit (b'0' + n % 10) ≡ true = ground arith in
    let value : (v * 10 + (b'0' + n / 10 - b'0')) * 10 + (b'0' + n % 10 - b'0') ≡ v * 100 + n =
      omega arith in
    rw (front, back) (ap (λ w. read_digits k w s) value)

read_four :
    (k v n : ℕ) (s : Text)
    → n < 10000
    → read_digits (suc (suc (suc (suc k)))) v (four_digits n s) ≡ read_digits k (v * 10000 + n) s
read_four k v n s h =
    let value : (v * 100 + n / 100) * 100 + n % 100 ≡ v * 10000 + n = omega arith in
    read_two (suc (suc k)) v (n / 100) (two_digits (n % 100) s) (omega arith)
    ∙ read_two k (v * 100 + n / 100) (n % 100) s (omega arith)
    ∙ ap (λ w. read_digits k w s) value

read_six :
    (v n : ℕ) (s : Text)
    → n < 1000000
    → read_digits 6 v (six_digits n s) ≡ read_digits 0 (v * 1000000 + n) s
read_six v n s h =
    let value : (v * 100 + n / 10000) * 10000 + n % 10000 ≡ v * 1000000 + n = omega arith in
    read_two 4 v (n / 10000) (four_digits (n % 10000) s) (omega arith)
    ∙ read_four 0 (v * 100 + n / 10000) (n % 10000) s (omega arith)
    ∙ ap (λ w. read_digits 0 w s) value

year_read : (n : ℕ) (s : Text) → n < 10000 → read_digits 4 0 (four_digits n s) ≡ some (n, s)
unfolding read_digits
year_read n s h =
    let e : 0 * 10000 + n ≡ n = omega arith in read_four 0 0 n s h ∙ ap (λ w. some (w, s)) e

month_read : (n : ℕ) (s : Text) → n < 100 → read_digits 2 0 (two_digits n s) ≡ some (n, s)
unfolding read_digits
month_read n s h =
    let e : 0 * 100 + n ≡ n = omega arith in read_two 0 0 n s h ∙ ap (λ w. some (w, s)) e

abbrev optional : Text → Option (ℕ × Text) → Option ℕ × Text
optional s r = elim r [ none ↦ (none, s) | some (value, rest) ↦ (some value, rest) ]

two_read : (n : ℕ) (s : Text) → n < 100 → read_optional 2 (two_digits n s) ≡ (some n, s)
unfolding read_optional
two_read n s h = ap (optional (two_digits n s)) (month_read n s h)

six_read : (n : ℕ) (s : Text) → n < 1000000 → read_optional 6 (six_digits n s) ≡ (some n, s)
unfolding read_optional read_digits
six_read n s h =
    let e : 0 * 1000000 + n ≡ n = omega arith in
    let reads : read_digits 6 0 (six_digits n s) ≡ some (n, s) =
      read_six 0 n s h ∙ ap (λ w. some (w, s)) e in
    ap (optional (six_digits n s)) reads

-- All groups are given.
abbrev groups_of : DateTime → Groups
groups_of d = record {
  year = d.year;
  month = d.month;
  day = some d.day;
  hour = some d.hour;
  minute = some d.minute;
  second = some d.second;
  microsecond = some d.microsecond;
}

optional_read :
    (year month day hour minute second microsecond : ℕ)
    → day < 100
    → hour < 100
    → minute < 100
    → second < 100
    → microsecond < 1000000
    → optional_groups year month (
        two_digits day
          (two_digits hour (two_digits minute (two_digits second (six_digits microsecond [])))))
      ≡ record {
        year = year;
        month = month;
        day = some day;
        hour = some hour;
        minute = some minute;
        second = some second;
        microsecond = some microsecond;
      }
unfolding optional_groups
optional_read year month day hour minute second microsecond h1 h2 h3 h4 h5 = rw (
  two_read day _ h1,
  two_read hour _ h2,
  two_read minute _ h3,
  two_read second _ h4,
  six_read microsecond [] h5,
)

-- The fields have as many digits as the text has for them.
module _ (d : DateTime) (valid : is_valid d ≡ true) where
  year_fits : (d.year < 10000) × (d.month < 100)
  year_fits = (ground arith, ground arith)

  day_fits : days_in d.year d.month < 100 → d.day < 100
  day_fits few = ground arith

  time_fits : (d.hour < 100) × (d.minute < 100) × (d.second < 100) × (d.microsecond < 1000000)
  time_fits = (ground arith, ground arith, ground arith, ground arith)

  stamp-match_groups : d.day < 100 → match_groups (stamp d) ≡ some (groups_of d)
  unfolding match_groups
  stamp-match_groups few =
      let (y, m) = year_fits in
      let (h, mi, se, us) = time_fits in
      ap from_year (year_read d.year _ y)
      ∙ ap (from_month d.year) (month_read d.month _ m)
      ∙ ap some
          (optional_read d.year d.month d.day d.hour d.minute d.second d.microsecond few h mi se us)

found_first : (s : Text) (g : Groups) → match_groups s ≡ some g → search s ≡ some g
unfolding search
found_first [] g h = h
found_first (c ∷ s) g h = ap (λ r. elim r [ some g ↦ some g | none ↦ search s ]) h

-- The lengths of the months
abbrev IsLength : ℕ → Type 0
IsLength n = (1 ≤ n) × (n ≤ 31)

february-IsLength : (b : Bool) → IsLength (if b then 29 else 28)
february-IsLength true = (omega arith, omega arith)
february-IsLength false = (omega arith, omega arith)

month_lengths-IsLength : (year : ℕ) → All IsLength (month_lengths year)
month_lengths-IsLength year =
    let long : IsLength 31 = (omega arith, omega arith) in
    let short : IsLength 30 = (omega arith, omega arith) in
    (
      long,
      (
        february-IsLength (is_leap year),
        (long, (short, (long, (short, (long, (long, (short, (long, (short, (long, tt)))))))))),
      ),
    )

elem-IsLength :
    (ls : List ℕ) (i : ℕ)
    → All IsLength ls
    → i < length ls
    → IsLength (elim (get_elem? ls i) [ none ↦ 0 | some n ↦ n ])
elem-IsLength [] i h lt = absurd (omega arith)
elem-IsLength (l ∷ ls) zero (h, hs) lt = h
elem-IsLength (l ∷ ls) (suc i) (h, hs) lt = elem-IsLength ls i hs (omega arith)

days_in-IsLength : (year month : ℕ) → 1 ≤ month → month ≤ 12 → IsLength (days_in year month)
unfolding days_in
days_in-IsLength year zero low high = absurd (omega arith)
days_in-IsLength year (suc m) low high =
    elem-IsLength (month_lengths year) m (month_lengths-IsLength year) (omega arith)

datetime_valid : (d : DateTime) → is_valid d ≡ true → datetime d ≡ ok d
unfolding datetime
datetime_valid d valid = rw valid

module _ (d : DateTime) (valid : is_valid d ≡ true) where
  stamp-search : search (stamp d) ≡ some (groups_of d)
  stamp-search =
      let (low, high) = valid_month d valid in
      let (_, few) = days_in-IsLength d.year d.month low high in
      found_first (stamp d) (groups_of d)
        (stamp-match_groups d valid (day_fits d valid (omega (arith, few))))

  stamp-begin_of : begin_of (groups_of d) ≡ ok d
  unfolding begin_of
  stamp-begin_of = datetime_valid d valid

  stamp-end_of : d.month ≤ 11 → end_of (groups_of d) ≡ ok d
  unfolding end_of minus_second
  stamp-end_of early =
      let (low, high) = valid_month d valid in
      let (some_day, _) = days_in-IsLength d.year (d.month + 1) (omega arith) (omega arith) in
      let next_valid : is_valid (first_of d.year (d.month + 1)) ≡ true = ground arith in
      let later : ltb 1 (d.month + 1) ≡ true = ground arith in
      rw (datetime_valid (first_of d.year (d.month + 1)) next_valid, later, datetime_valid d valid)

-- A valid time of January to November that is written with all its digits, YYYYMMDDHHMMSS and six
-- of the microsecond, is read back as the begin and as the end of the window.
pub begin_time-end_time :
    (d today : DateTime)
    → is_valid d ≡ true
    → d.month ≤ 11
    → (begin_time (some (stamp d)) today ≡ ok d) × (end_time (some (stamp d)) today ≡ ok d)
unfolding begin_time end_time
begin_time-end_time d today valid early = (
  ap (λ r. matched r >>= begin_of) (stamp-search d valid) ∙ stamp-begin_of d valid,
  ap (λ r. matched r >>= end_of) (stamp-search d valid) ∙ stamp-end_of d valid early,
)
