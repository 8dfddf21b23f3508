-- ===== src/Struct/Tests.antt =====
-- `struct` on a format with alignment and padding.
use pna.Base.{◌≡◌, refl, List, [], ◌∷◌, ok}
use pna.Base.Value.{Value, num, Tuple}
use pna.Struct.{Bytes, Code, u_int1, u_int2, u_int4, pad_byte, pack}

abbrev mixed : List Code
mixed = u_int1 ∷ u_int4 ∷ pad_byte ∷ u_int2 ∷ []

abbrev values : List (Value Tuple)
values = num 7 ∷ num 513 ∷ num 258 ∷ []

abbrev mixed_bytes : Bytes
mixed_bytes = 7 ∷ 0 ∷ 0 ∷ 0 ∷ 1 ∷ 2 ∷ 0 ∷ 0 ∷ 0 ∷ 0 ∷ 2 ∷ 1 ∷ []

packed : pack mixed values ≡ ok mixed_bytes
unfolding pack
packed = refl

abbrev front : Bytes
front = 99 ∷ 98 ∷ []
