-- ===== src/Struct.antt =====
-- Python's `struct`, as parse.py, identity.py and npr.py use it: formats with no prefix, so native
-- sizes and alignment, on a little-endian machine.
mod Tests
pub mod Bounds
pub mod RoundTrip
use pna.Base.{
  ℕ, zero, suc, ◌+◌, ◌-◌, ◌*◌, ◌/◌, ◌%◌, ◌^◌, List, [], ◌∷◌, ◌++◌, Option, none, some, take, drop,
  length, replicate, ltb, leb, if◌then◌else◌, Result, ok, err, struct_error, ◌>>=◌,
}
use pna.Base.Value.{Value, num, text, rows}

abbrev pub Bytes : Type 0
Bytes = List ℕ

-- 'c', 'B', 'H', 'I' and the pad byte 'x'
pub data Code : Type 0 where
  char u_int1 u_int2 u_int4 pad_byte : Code

abbrev pub size : Code → ℕ
size char = 1
size u_int1 = 1
size u_int2 = 2
size u_int4 = 4
size pad_byte = 1

-- The bytes that alignment inserts before an item at an offset.
abbrev pub padding : ℕ → Code → ℕ
padding offset c = (size c - offset % size c) % size c

unfoldable pub end_of : ℕ → List Code → ℕ
end_of offset [] = offset
end_of offset (c ∷ cs) = end_of (offset + padding offset c + size c) cs

-- `struct.Struct(fmt).size`
unfoldable pub calc_size : List Code → ℕ
unfolding end_of
calc_size = end_of 0

-- The number that bytes spell, least byte first.
unfoldable pub value_of : Bytes → ℕ
value_of [] = 0
value_of (b ∷ bs) = b + 256 * value_of bs

unfoldable pub bytes_of : ℕ → ℕ → Bytes
bytes_of zero n = []
bytes_of (suc w) n = n % 256 ∷ bytes_of w (n / 256)

module _ {R : Type 0} where
  unfoldable pub read_item : Code → Bytes → List (Value R)
  unfolding value_of
  read_item char bs = text bs ∷ []
  read_item pad_byte bs = []
  read_item _ bs = num (value_of bs) ∷ []

  unfoldable pub unpack : ℕ → List Code → Bytes → List (Value R)
  unfolding read_item
  unpack offset [] bs = []
  unpack offset (c ∷ cs) bs =
      let start = drop (padding offset c) bs in
      read_item c (take (size c) start)
      ++ unpack (offset + padding offset c + size c) cs (drop (size c) start)

  -- `Struct.unpack_from(data, position)`
  unfoldable pub unpack_from : List Code → Bytes → ℕ → Result (List (Value R))
  unfolding unpack calc_size
  unpack_from fmt bytes position =
      if leb (position + calc_size fmt) (length bytes)
      then ok (unpack 0 fmt (drop position bytes))
      else err struct_error

  -- One item, and the arguments that are left.
  unfoldable pub write_item : Code → List (Value R) → Result (Bytes × List (Value R))
  unfolding bytes_of
  write_item pad_byte vs = ok (0 ∷ [], vs)
  write_item char (text (b ∷ []) ∷ vs) = ok (b ∷ [], vs)
  write_item char _ = err struct_error
  write_item c (num n ∷ vs) =
      if ltb n (256 ^ size c) then ok (bytes_of (size c) n, vs) else err struct_error
  write_item c _ = err struct_error

  unfoldable pub pack_from : ℕ → List Code → List (Value R) → Result Bytes
  unfolding write_item
  pack_from offset [] [] = ok []
  pack_from offset [] (v ∷ vs) = err struct_error
  pack_from offset (c ∷ cs) vs = do
    (item, rest) ← write_item c vs
    more ← pack_from (offset + padding offset c + size c) cs rest
    ok (replicate (padding offset c) 0 ++ (item ++ more))

  -- `struct.pack(fmt, *vs)`
  unfoldable pub pack : List Code → List (Value R) → Result Bytes
  unfolding pack_from
  pack = pack_from 0
