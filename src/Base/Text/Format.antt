-- ===== src/Base/Text/Format.antt =====
-- Python's `%s` with a width.
use Prim.Native.Nat.{ℕ, ◌-◌, max}
use mathlib.Core.Bool.{Bool, true, false}
use mathlib.Core.List.{◌++◌}
use mathlib.Core.Path.{◌≡◌}
use native.Mathlib.Omega.{arith}
use pna.Base.Lists.{length, replicate, length-append, length-replicate}
use pna.Base.Text.{Text}

-- One of '%-17s', '%3s', ...: whether the text stands on the left, and the width.
abbrev pub Column : Type 0
Column = Bool × ℕ

abbrev pub pad : Column → Text → Text
pad (true, width) t = t ++ replicate (width - length t) b' '
pad (false, width) t = replicate (width - length t) b' ' ++ t

pub length-pad : (c : Column) (t : Text) → length (pad c t) ≡ max c.1 (length t)
length-pad (true, width) t = omega (
  arith,
  length-append t (replicate (width - length t) b' '),
  length-replicate {A = ℕ} (width - length t) b' ',
)
length-pad (false, width) t = omega (
  arith,
  length-append (replicate (width - length t) b' ') t,
  length-replicate {A = ℕ} (width - length t) b' ',
)
