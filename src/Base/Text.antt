-- ===== src/Base/Text.antt =====
-- Text as a list of code points, decimal numerals, and Python's operations on text.
use Prim.Native.Char.{code}
use Prim.Native.String.{String}
use Prim.Native.Nat.{ℕ, zero, suc, ◌+◌, ◌-◌, ◌*◌, ◌/◌, ◌%◌}
use mathlib.Core.Bool.{Bool, ◌&&◌, ◌||◌}
use mathlib.Core.List.{List, [], ◌∷◌, ◌++◌, reverse}
use pna.Base.Tests.{ltb, leb, ◌==◌, nat_eq, if◌then◌else◌}
use pna.Base.Outcome.{Result, ok, err, value_error, ◌>>=◌}
use pna.Base.Int.{ℤ, pos, sub_ℕ}
pub mod Decimal
pub mod Split
pub mod Format

abbrev pub Text : Type 0
Text = List ℕ

-- The characters of a literal.
abbrev pub codes : String → Text
codes String.[] = []
codes (String.◌∷◌ c s) = code c ∷ codes s

-- `str(n)`. The fuel suc n is enough, since each round divides by ten.
pub show_fuel : ℕ → ℕ → Text
show_fuel zero n = []
show_fuel (suc fuel) n =
    let front = show_fuel fuel (n / 10) in
    if ltb n 10 then (b'0' + n) ∷ [] else front ++ (b'0' + n % 10) ∷ []

unfoldable pub show : ℕ → Text
unfolding show_fuel
show n = show_fuel (suc n) n

abbrev pub is_digit : ℕ → Bool
is_digit c = leb b'0' c && leb c b'9'

-- Tab to carriage return, and the blank.
abbrev pub is_space : ℕ → Bool
is_space c = (leb 9 c && leb c 13) || c == 32

unfoldable pub strip_left : Text → Text
strip_left [] = []
strip_left (c ∷ s) = let rest = strip_left s in if is_space c then rest else c ∷ s

unfoldable pub strip : Text → Text
unfolding strip_left
strip s = reverse (strip_left (reverse (strip_left s)))

unfoldable pub scan_digits : Text → ℕ → Result ℕ
scan_digits [] n = ok n
scan_digits (c ∷ s) n =
    let rest = scan_digits s (n * 10 + (c - b'0')) in if is_digit c then rest else err value_error

unfoldable pub unsigned : Text → Result ℕ
unfolding scan_digits
unsigned [] = err value_error
unsigned (c ∷ s) = scan_digits (c ∷ s) 0

unfoldable pub signed : Text → Result ℤ
unfolding unsigned
signed [] = err value_error
signed (c ∷ s) =
    if c == b'-'
    then (do n ← unsigned s; ok (sub_ℕ 0 n))
    else if c == b'+'
    then (do n ← unsigned s; ok (pos n))
    else (do n ← unsigned (c ∷ s); ok (pos n))

-- `int(s)`, in base ten, of a text without a trailing `L`
unfoldable pub int : Text → Result ℤ
unfolding strip signed
int s = signed (strip s)

-- A character before the first part.
abbrev put : ℕ → List Text → List Text
put c [] = (c ∷ []) ∷ []
put c (p ∷ ps) = (c ∷ p) ∷ ps

-- `s.split(sep)`, which has one part at least
unfoldable pub split : ℕ → Text → List Text
split sep [] = [] ∷ []
split sep (c ∷ s) = if c == sep then [] ∷ split sep s else put c (split sep s)

-- `sep.join(parts)`
unfoldable pub join : ℕ → List Text → Text
join sep [] = []
join sep (p ∷ []) = p
join sep (p ∷ q ∷ ps) = p ++ (sep ∷ join sep (q ∷ ps))
