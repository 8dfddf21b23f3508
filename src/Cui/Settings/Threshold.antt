-- ===== src/Cui/Settings/Threshold.antt =====
-- The threshold that the dialog stores.
use pna.Base.{
  ℕ, ◌+◌, ◌*◌, ◌-◌, ◌≤◌, ◌≡◌, refl, List, [], ◌∷◌, All, true, false, length, ltb, arith, Option,
  none, some, ok, ◌⊎◌, inl, inr, ok-injective, if◌then◌else◌,
}
use pna.Base.Int.{pos}
use pna.Base.Text.{Text, show, int, unsigned, scan_digits}
use pna.Base.Text.Decimal.{IsDigit, int_digits, show-digits}
use pna.Model.State.{PnaModel}
use pna.Cui.Keys.{Key, str, code}
use pna.Cui.Edit.{returns, get_value, part_of}
use pna.Cui.Edit.Bounds.{IsTyped, AllTyped, get_value_bounds}
use pna.Cui.Settings.{digits, max_threshold, read_threshold, set_threshold}

digits_part : (c : ℕ) → part_of (c ∷ []) digits ≡ true → IsDigit c
digits_part c h = ground arith

scan_digits_total : (s : Text) (n : ℕ) → All IsDigit s → (k : ℕ) × (scan_digits s n ≡ ok k)
unfolding scan_digits
scan_digits_total [] n h = (n, refl)
scan_digits_total (c ∷ s) n ((low, high), hs) =
    let (k, e) = scan_digits_total s (n * 10 + (c - b'0')) hs in (k, ground arith)

int_total : (c : ℕ) (s : Text) → All IsDigit (c ∷ s) → (k : ℕ) × (int (c ∷ s) ≡ ok (pos k))
unfolding unsigned
int_total c s h = let (k, e) = scan_digits_total (c ∷ s) 0 h in (k, rw (int_digits (c ∷ s) h, e))

-- A key that the field of digits takes is one character: a key that curses names is no digits.
abbrev pub IsPlain : Key → Type 0
IsPlain (code n) = Unit
IsPlain (str s) = (length s ≡ 1) ⊎ (part_of s digits ≡ false)

abbrev pub AllPlain : List (Option Key) → Type 0
AllPlain [] = Unit
AllPlain (none ∷ keys) = AllPlain keys
AllPlain (some key ∷ keys) = IsPlain key × AllPlain keys

one-IsDigit : (s : Text) → length s ≡ 1 → part_of s digits ≡ true → All IsDigit s
one-IsDigit [] one h = absurd (omega arith)
one-IsDigit (c ∷ []) one h = (digits_part c h, tt)
one-IsDigit (c ∷ d ∷ s) one h = absurd (omega arith)

IsPlain-IsTyped : (most : ℕ) (key : Key) → IsPlain key → IsTyped IsDigit most digits key
IsPlain-IsTyped most (code n) h e = cc
IsPlain-IsTyped most (str s) (inl one) e = (one, one-IsDigit s one (ok-injective e))
IsPlain-IsTyped most (str s) (inr other) e = cc

AllPlain-AllTyped :
    (most : ℕ) (initial : Text) (wide : 15 - 2 ≤ most) (keys : List (Option Key))
    → AllPlain keys
    → AllTyped IsDigit most 15 initial digits wide keys
AllPlain-AllTyped most initial wide [] h = tt
AllPlain-AllTyped most initial wide (none ∷ keys) h = AllPlain-AllTyped most initial wide keys h
AllPlain-AllTyped most initial wide (some key ∷ keys) (h, hs) =
    (IsPlain-IsTyped most key h, AllPlain-AllTyped most initial wide keys hs)

read_zero : read_threshold [] ≡ ok 0
unfolding read_threshold int
read_zero = refl

read_threshold_total :
    (value : Text)
    → All IsDigit value
    → (n : ℕ) × (read_threshold value ≡ ok n) × (n ≤ max_threshold)
unfolding read_threshold
read_threshold_total [] h = (0, read_zero, omega arith)
read_threshold_total (c ∷ cs) h =
    let (k, e) = int_total c cs h in
    ((if ltb max_threshold k then max_threshold else k), rw e, ground arith)

-- When the user leaves the field of the threshold, whatever was typed (no key that the field takes
-- being more than one character), set_threshold raises no exception: it stores a number of at most
-- 4294967295, and changes nothing else of the model.
pub set_threshold_total :
    (keys : List (Option Key)) (m : PnaModel) (value : Text)
    → AllPlain keys
    → get_value 15 (show m.threshold) digits keys ≡ ok (returns value)
    → (n : ℕ) × (set_threshold keys m ≡ ok (some (record m { threshold = n }))) × (n ≤ 4294967295)
unfolding set_threshold
set_threshold_total keys m value plain e =
    let start = show m.threshold in
    let most = length start + 13 in
    let wide : 15 - 2 ≤ most = omega arith in
    let (_, good) =
      get_value_bounds IsDigit most 15 start digits wide keys (returns value) (omega arith)
        (show-digits m.threshold) (AllPlain-AllTyped most start wide keys plain) e in
    let (n, stores, small) = read_threshold_total value good in (n, rw (e, stores), small)
