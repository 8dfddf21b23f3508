-- ===== src/Base/Text/Decimal.antt =====
-- `int` reads back what `str` prints.
use Prim.Native.Nat.{ℕ, zero, suc, ◌+◌, ◌-◌, ◌*◌, ◌/◌, ◌%◌, ◌≤◌, ◌<◌}
use mathlib.Core.Path.{◌≡◌, refl}
use mathlib.Core.Logic.{◌≢◌, inl, inr}
use mathlib.Core.List.{
  List, [], ◌∷◌, ◌++◌, reverse, reverse-append, reverse-reverse, reverse-cons, cons-ne-nil,
  concat-ne-nil,
}
use native.Mathlib.Omega.{arith}
use pna.Base.Tests.{ltb, Bool-cases}
use pna.Base.Lists.{All, All-append}
use pna.Base.Outcome.{ok, ◌>>=◌}
use pna.Base.Int.{pos}
use pna.Base.Text.{Text, show_fuel, show, strip_left, strip, scan_digits, unsigned, signed, int}

abbrev pub IsDigit : ℕ → Type 0
IsDigit c = (b'0' ≤ c) × (c ≤ b'9')

pub scan_digits-append :
    (s t : Text) (n : ℕ) → scan_digits (s ++ t) n ≡ (scan_digits s n >>= scan_digits t)
unfolding scan_digits
scan_digits-append [] t n = refl
scan_digits-append (c ∷ s) t n = ground (arith, scan_digits-append s t (n * 10 + (c - b'0')))

show_fuel-digits : (fuel n : ℕ) → All IsDigit (show_fuel fuel n)
unfolding show_fuel
show_fuel-digits zero n = tt
show_fuel-digits (suc fuel) n = ground (
  arith,
  show_fuel-digits fuel (n / 10),
  All-append IsDigit (show_fuel fuel (n / 10)) ((b'0' + n % 10) ∷ []),
)

scan_digits-show_fuel : (fuel n : ℕ) → n < fuel → scan_digits (show_fuel fuel n) 0 ≡ ok n
unfolding scan_digits show_fuel
scan_digits-show_fuel zero n h = elim h [ ]
scan_digits-show_fuel (suc fuel) n h = ground (
  arith,
  scan_digits-show_fuel fuel (n / 10),
  scan_digits-append (show_fuel fuel (n / 10)) ((b'0' + n % 10) ∷ []) 0,
)

All-reverse {ℓ} : {A : Type ℓ} (P : A → Type 0) (s : List A) → All P s → All P (reverse s)
All-reverse P [] h = tt
All-reverse P (c ∷ s) h =
    rw (reverse-cons c s) (All-append P (reverse s) (c ∷ []) (All-reverse P s h.1) (h.0, tt))

strip_left_digits : (s : Text) → All IsDigit s → strip_left s ≡ s
unfolding strip_left
strip_left_digits [] h = refl
strip_left_digits (c ∷ s) h = ground arith

strip_digits : (s : Text) → All IsDigit s → strip s ≡ s
unfolding strip
strip_digits s h =
    rw (strip_left_digits s h, strip_left_digits (reverse s) (All-reverse IsDigit s h))
      (reverse-reverse s)

signed_digits : (s : Text) → All IsDigit s → signed s ≡ (unsigned s >>= λ n. ok (pos n))
unfolding signed
signed_digits [] h = unfold unsigned in refl
signed_digits (c ∷ s) h = ground arith

pub show-digits : (n : ℕ) → All IsDigit (show n)
unfolding show
show-digits n = show_fuel-digits (suc n) n

pub show-ne-nil : (n : ℕ) → show n ≢ []
unfolding show show_fuel
show-ne-nil n = elim (Bool-cases (ltb n 10)) [
  | inl short ↦ rw short (cons-ne-nil _ _)
  | inr long ↦ rw long (concat-ne-nil _ _)
]

-- Digits are read as the number that they spell, without a sign and with no blank to strip.
pub int_digits : (s : Text) → All IsDigit s → int s ≡ (unsigned s >>= λ n. ok (pos n))
unfolding int
int_digits s h = rw (strip_digits s h) (signed_digits s h)

unsigned-scan_digits : (s : Text) → s ≢ [] → unsigned s ≡ scan_digits s 0
unfolding unsigned
unsigned-scan_digits [] h = absurd (h refl)
unsigned-scan_digits (c ∷ s) h = refl

-- `int(str(n))` is n.
pub int-show : (n : ℕ) → int (show n) ≡ ok (pos n)
unfolding show
int-show n = rw (
  int_digits (show n) (show-digits n),
  unsigned-scan_digits (show n) (show-ne-nil n),
  scan_digits-show_fuel (suc n) n (omega arith),
)

strip_left_head : (c : ℕ) (s : Text) → IsDigit c → strip_left (c ∷ s) ≡ c ∷ s
unfolding strip_left
strip_left_head c s h = ground arith

strip_left_line : (s : Text) → strip_left (10 ∷ s) ≡ strip_left s
unfolding strip_left
strip_left_line s = refl

-- A line feed behind digits is stripped.
strip_line : (s : Text) → All IsDigit s → s ≢ [] → strip (s ++ 10 ∷ []) ≡ s
unfolding strip
strip_line [] h ne = absurd (ne refl)
strip_line (c ∷ s) h ne =
    let back : reverse (c ∷ (s ++ 10 ∷ [])) ≡ 10 ∷ reverse (c ∷ s) =
      reverse-append (c ∷ s) (10 ∷ []) in
    rw
      (
        strip_left_head c (s ++ 10 ∷ []) h.0,
        back,
        strip_left_line (reverse (c ∷ s)),
        strip_left_digits (reverse (c ∷ s)) (All-reverse IsDigit (c ∷ s) h),
      )
      (reverse-reverse (c ∷ s))

pub int_line : (s : Text) → All IsDigit s → s ≢ [] → int (s ++ 10 ∷ []) ≡ int s
unfolding int
int_line s h ne = rw (strip_line s h ne, strip_digits s h)
