-- ===== src/Struct/Bounds.antt =====
-- When `unpack_from` reads, and when it raises.
use pna.Base.{ℕ, ◌+◌, ◌≤◌, ◌<◌, ◌≡◌, List, drop, length, arith, ok, err, struct_error}
use pna.Struct.{Bytes, Code, calc_size, unpack, unpack_from}

module _ {R : Type 0} (fmt : List Code) (bytes : Bytes) (position : ℕ) where
  pub unpack_from_fits :
      position + calc_size fmt ≤ length bytes
      → unpack_from {R = R} fmt bytes position ≡ ok (unpack 0 fmt (drop position bytes))
  unfolding unpack_from
  unpack_from_fits h = ground arith

  pub unpack_from_short :
      length bytes < position + calc_size fmt
      → unpack_from {R = R} fmt bytes position ≡ err struct_error
  unfolding unpack_from
  unpack_from_short h = ground arith
