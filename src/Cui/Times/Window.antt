-- ===== src/Cui/Times/Window.antt =====
-- The time that an option of `add_data` stands for: the first or the last one that fits.
use pna.Base.{
  ℕ, ◌+◌, ◌-◌, ◌≤◌, ◌≡◌, refl, ap, sym, subst, ◌∙◌, List, [], ◌∷◌, true, false, nat_eq, ltb, Option,
  none, some, ok, err, value_error, >>=-eq-ok, ok-injective, Bool-cases, inl, inr, arith,
}
use pna.Cui.Times.{
  DateTime, days_in, is_valid, datetime, minus_second, lexical, fields, not_after, Groups, given,
  with_groups, first_of, begin_of, end_of,
}

-- No field is greater.
abbrev Below : List ℕ → List ℕ → Type 0
Below [] [] = Unit
Below (a ∷ as') (b ∷ bs) = (a ≤ b) × Below as' bs
Below _ _ = ⊥

Below-lexical : (as' bs : List ℕ) → Below as' bs → lexical as' bs ≡ true
Below-lexical [] [] h = refl
Below-lexical (a ∷ as') (b ∷ bs) (h, hs) =
    ground (arith, nat_eq.beq_iff a b, Below-lexical as' bs hs)
Below-lexical [] (b ∷ bs) h = absurd h
Below-lexical (a ∷ as') [] h = absurd h

-- The field is the one that the text gives, if it gives one.
abbrev pub IsGiven : Option ℕ → ℕ → Type 0
IsGiven none n = Unit
IsGiven (some k) n = n ≡ k

-- The time has the fields that the text gives.
abbrev pub Fits : Groups → DateTime → Type 0
Fits g d =
    (d.year ≡ g.year)
    × (d.month ≡ g.month)
    × IsGiven g.day d.day
    × IsGiven g.hour d.hour
    × IsGiven g.minute d.minute
    × IsGiven g.second d.second
    × IsGiven g.microsecond d.microsecond

given-IsGiven : (o : Option ℕ) (n : ℕ) → IsGiven o (given o n)
given-IsGiven none n = tt
given-IsGiven (some k) n = refl

given_least : (o : Option ℕ) (n k : ℕ) → IsGiven o k → n ≤ k → given o n ≤ k
given_least none n k h le = le
given_least (some j) n k h le = omega arith

given_greatest : (o : Option ℕ) (n k : ℕ) → IsGiven o k → k ≤ n → k ≤ given o n
given_greatest none n k h le = le
given_greatest (some j) n k h le = omega arith

with_groups-Fits :
    (g : Groups) (day hour minute second microsecond : ℕ)
    → Fits g (with_groups g day hour minute second microsecond)
with_groups-Fits g day hour minute second microsecond = (
  refl,
  refl,
  given-IsGiven g.day day,
  given-IsGiven g.hour hour,
  given-IsGiven g.minute minute,
  given-IsGiven g.second second,
  given-IsGiven g.microsecond microsecond,
)

datetime-is_valid : (x d : DateTime) → datetime x ≡ ok d → (x ≡ d) × (is_valid x ≡ true)
unfolding datetime
datetime-is_valid x d h = elim (Bool-cases (is_valid x)) [
  | inl valid ↦ (ok-injective (rw valid at h), valid)
  | inr other ↦ cc
]

module _ (d : DateTime) (valid : is_valid d ≡ true) where
  pub valid_month : (1 ≤ d.month) × (d.month ≤ 12)
  valid_month = (ground arith, ground arith)

  valid_day : (1 ≤ d.day) × (d.day ≤ days_in d.year d.month)
  valid_day = (ground arith, ground arith)

  valid_time : (d.hour ≤ 23) × (d.minute ≤ 59) × (d.second ≤ 59) × (d.microsecond ≤ 999999)
  valid_time = (ground arith, ground arith, ground arith, ground arith)

fields-not_after :
    (d e : DateTime)
    → d.year ≤ e.year
    → d.month ≤ e.month
    → d.day ≤ e.day
    → d.hour ≤ e.hour
    → d.minute ≤ e.minute
    → d.second ≤ e.second
    → d.microsecond ≤ e.microsecond
    → not_after d e ≡ true
fields-not_after d e y mo da ho mi se us =
    Below-lexical (fields d) (fields e) (y, (mo, (da, (ho, (mi, (se, (us, tt)))))))

begin_of_least :
    (g : Groups) (d : DateTime)
    → begin_of g ≡ ok d
    → (is_valid d ≡ true)
      × Fits g d
      × ((e : DateTime) → is_valid e ≡ true → Fits g e → not_after d e ≡ true)
unfolding begin_of
begin_of_least g d h =
    let (same, valid) = datetime-is_valid (with_groups g 1 0 0 0 0) d h in
    subst
      (λ d.
        (is_valid d ≡ true)
        × Fits g d
        × ((e : DateTime) → is_valid e ≡ true → Fits g e → not_after d e ≡ true))
      same
      (
        valid,
        with_groups-Fits g 1 0 0 0 0,
        λ e ve (y, mo, da, ho, mi, se, us).
            fields-not_after (with_groups g 1 0 0 0 0) e (omega arith) (omega arith)
              (given_least g.day 1 e.day da (valid_day e ve).0)
              (given_least g.hour 0 e.hour ho (omega arith))
              (given_least g.minute 0 e.minute mi (omega arith))
              (given_least g.second 0 e.second se (omega arith))
              (given_least g.microsecond 0 e.microsecond us (omega arith)),
      )

next_month_day :
    (year month : ℕ) (d : DateTime)
    → 1 ≤ month
    → minus_second (first_of year (month + 1)) ≡ ok d
    → d.day ≡ days_in year month
unfolding minus_second
next_month_day year month d h e =
    let later : ltb 1 (month + 1) ≡ true = ground arith in
    let last : month + 1 - 1 ≡ month = omega arith in
    let same = ok-injective (rw later at e) in ap (λ d. d.day) (sym same) ∙ ap (days_in year) last

end_of_greatest :
    (g : Groups) (d : DateTime)
    → end_of g ≡ ok d
    → (is_valid d ≡ true)
      × Fits g d
      × ((e : DateTime) → is_valid e ≡ true → Fits g e → not_after e d ≡ true)
unfolding end_of
end_of_greatest g d h =
    let (next, made, later) = >>=-eq-ok (datetime (first_of g.year (g.month + 1))) _ h in
    let (before, stepped, last) = >>=-eq-ok (minus_second next) _ later in
    let (same, valid) = datetime-is_valid (with_groups g before.day 23 59 59 999999) d last in
    let from = (datetime-is_valid (first_of g.year (g.month + 1)) next made).0 in
    let month = valid_month (with_groups g before.day 23 59 59 999999) valid in
    let day =
      next_month_day g.year g.month before month.0
        (subst (λ n. minus_second n ≡ ok before) (sym from) stepped) in
    subst
      (λ d.
        (is_valid d ≡ true)
        × Fits g d
        × ((e : DateTime) → is_valid e ≡ true → Fits g e → not_after e d ≡ true))
      same
      (
        valid,
        with_groups-Fits g before.day 23 59 59 999999,
        λ e ve (y, mo, da, ho, mi, se, us).
            let (h1, h2, h3, h4) = valid_time e ve in
            let in_month : e.day ≤ days_in g.year g.month =
              subst (λ m. e.day ≤ days_in g.year m) mo
                (subst (λ y. e.day ≤ days_in y e.month) y (valid_day e ve).1) in
            fields-not_after e (with_groups g before.day 23 59 59 999999) (omega arith)
              (omega arith)
              (given_greatest g.day before.day e.day da (omega (arith, day, in_month)))
              (given_greatest g.hour 23 e.hour ho h1) (given_greatest g.minute 59 e.minute mi h2)
              (given_greatest g.second 59 e.second se h3)
              (given_greatest g.microsecond 999999 e.microsecond us h4),
      )

-- If the begin and the end of the window can be made from what their texts give, they have the
-- given fields, no valid time with the given fields is before the begin, and none is after the end.
pub begin_of-end_of :
    (g h : Groups) (begin until : DateTime)
    → begin_of g ≡ ok begin
    → end_of h ≡ ok until
    → Fits g begin
      × Fits h until
      × ((e : DateTime) → is_valid e ≡ true → Fits g e → not_after begin e ≡ true)
      × ((e : DateTime) → is_valid e ≡ true → Fits h e → not_after e until ≡ true)
begin_of-end_of g h begin until eb eu =
    let (_, fits_begin, least) = begin_of_least g begin eb in
    let (_, fits_end, greatest) = end_of_greatest h until eu in
    (fits_begin, fits_end, least, greatest)

-- An end time in December raises ValueError, whatever else its text gives.
pub end_of_december : (g : Groups) → g.month ≡ 12 → end_of g ≡ err value_error
unfolding end_of datetime
end_of_december g h =
    let invalid : is_valid (first_of g.year (g.month + 1)) ≡ false = ground arith in rw invalid
