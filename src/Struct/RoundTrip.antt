-- ===== src/Struct/RoundTrip.antt =====
-- What `pack` writes `unpack_from` reads back.
use native.Mathlib.Nat.{pow-suc}
use pna.Base.{
  ℕ, zero, suc, ◌+◌, ◌/◌, ◌^◌, ◌<◌, ◌≡◌, refl, ap, List, [], ◌∷◌, ◌++◌, drop, length, replicate,
  length-append, length-replicate, take_of_append, drop_of_append, append_assoc, ltb, arith, ok,
  err, struct_error, >>=-eq-ok, if◌then◌else◌,
}
use pna.Base.Value.{Value, num, text, rows}
use pna.Struct.{
  Bytes, Code, char, u_int1, u_int2, u_int4, pad_byte, size, padding, end_of, calc_size, value_of,
  bytes_of, read_item, unpack, unpack_from, write_item, pack_from, pack,
}

pub length-bytes_of : (w n : ℕ) → length (bytes_of w n) ≡ w
unfolding bytes_of
length-bytes_of zero n = refl
length-bytes_of (suc w) n = ap suc (length-bytes_of w (n / 256))

pub value_of-bytes_of : (w n : ℕ) → n < 256 ^ w → value_of (bytes_of w n) ≡ n
unfolding value_of bytes_of
value_of-bytes_of zero n h = omega arith
value_of-bytes_of (suc w) n h =
    omega (arith, value_of-bytes_of w (n / 256) (omega (arith, pow-suc 256 w)))

-- What one item takes of the arguments, its bytes spell.
module _ {R : Type 0} where
  abbrev Written : Code → List (Value R) → Bytes × List (Value R) → Type 0
  Written c vs (item, left) = (length item ≡ size c) × (read_item c item ++ left ≡ vs)

  number-Written :
      (c : Code) (w n : ℕ) (vs : List (Value R)) (r : Bytes × List (Value R))
      → w ≡ size c
      → ((bs : Bytes) → read_item {R = R} c bs ≡ num (value_of bs) ∷ [])
      → (if ltb n (256 ^ w) then ok (bytes_of w n, vs) else err struct_error) ≡ ok r
      → Written c (num n ∷ vs) r
  number-Written c w n vs r e k h =
      ground (arith, k (bytes_of w n), value_of-bytes_of w n, length-bytes_of w n)

  write_item-Written :
      (c : Code) (vs : List (Value R)) (r : Bytes × List (Value R))
      → write_item c vs ≡ ok r
      → Written c vs r
  unfolding write_item read_item
  write_item-Written pad_byte vs r h = ground arith
  write_item-Written char [] r h = cc
  write_item-Written char (num n ∷ vs) r h = cc
  write_item-Written char (rows n ∷ vs) r h = cc
  write_item-Written char (text [] ∷ vs) r h = cc
  write_item-Written char (text (b ∷ []) ∷ vs) r h = ground arith
  write_item-Written char (text (b ∷ b' ∷ bs) ∷ vs) r h = cc
  write_item-Written u_int1 [] r h = cc
  write_item-Written u_int1 (text n ∷ vs) r h = cc
  write_item-Written u_int1 (rows n ∷ vs) r h = cc
  write_item-Written u_int1 (num n ∷ vs) r h = number-Written u_int1 1 n vs r refl (λ bs. refl) h
  write_item-Written u_int2 [] r h = cc
  write_item-Written u_int2 (text n ∷ vs) r h = cc
  write_item-Written u_int2 (rows n ∷ vs) r h = cc
  write_item-Written u_int2 (num n ∷ vs) r h = number-Written u_int2 2 n vs r refl (λ bs. refl) h
  write_item-Written u_int4 [] r h = cc
  write_item-Written u_int4 (text n ∷ vs) r h = cc
  write_item-Written u_int4 (rows n ∷ vs) r h = cc
  write_item-Written u_int4 (num n ∷ vs) r h = number-Written u_int4 4 n vs r refl (λ bs. refl) h

  -- The parts of what `pack_from` writes for a format with an item.
  pack_from-cons :
      (offset : ℕ) (c : Code) (cs : List Code) (vs : List (Value R)) {bs : Bytes}
      → pack_from offset (c ∷ cs) vs ≡ ok bs
      → (r : Bytes × List (Value R)) × Written c vs r
        × ((more : Bytes) × (pack_from (offset + padding offset c + size c) cs r.1 ≡ ok more)
            × (bs ≡ replicate (padding offset c) 0 ++ (r.0 ++ more)))
  unfolding pack_from
  pack_from-cons offset c cs vs h =
      let (r, wrote, later) = >>=-eq-ok (write_item c vs) _ h in
      let (more, packed, whole) = >>=-eq-ok (pack_from _ cs r.1) _ later in
      (r, write_item-Written c vs r wrote, (more, packed, ground arith))

  length-pack_from :
      (offset : ℕ) (fmt : List Code) (vs : List (Value R)) {bs : Bytes}
      → pack_from offset fmt vs ≡ ok bs
      → length bs + offset ≡ end_of offset fmt
  unfolding pack_from end_of
  length-pack_from offset [] [] h = ground arith
  length-pack_from offset [] (v ∷ vs) h = cc
  length-pack_from offset (c ∷ cs) vs h =
      let (r, wrote, (more, packed, whole)) = pack_from-cons offset c cs vs h in
      let filler : Bytes = replicate (padding offset c) 0 in
      rw whole (
        omega (
          arith,
          length-pack_from (offset + padding offset c + size c) cs r.1 packed,
          length-append filler (r.0 ++ more),
          length-append r.0 more,
          length-replicate {A = ℕ} (padding offset c) 0,
          wrote.0,
        ))

  unpack-pack_from :
      (offset : ℕ) (fmt : List Code) (vs : List (Value R)) (rest : Bytes) {bs : Bytes}
      → pack_from offset fmt vs ≡ ok bs
      → unpack offset fmt (bs ++ rest) ≡ vs
  unfolding pack_from unpack
  unpack-pack_from offset [] [] rest h = refl
  unpack-pack_from offset [] (v ∷ vs) rest h = cc
  unpack-pack_from offset (c ∷ cs) vs rest {bs} h =
      let (r, wrote, (more, packed, whole)) = pack_from-cons offset c cs vs h in
      let filler : Bytes = replicate (padding offset c) 0 in
      let items : bs ++ rest ≡ filler ++ (r.0 ++ (more ++ rest)) = rw whole (simp append_assoc) in
      let start : drop (padding offset c) (bs ++ rest) ≡ r.0 ++ (more ++ rest) =
        rw items (drop_of_append _ filler _ (length-replicate {A = ℕ} (padding offset c) 0)) in
      rw start (
        rw
          (
            take_of_append (size c) r.0 (more ++ rest) wrote.0,
            drop_of_append (size c) r.0 (more ++ rest) wrote.0,
            unpack-pack_from (offset + padding offset c + size c) cs r.1 rest packed,
          )
          wrote.1)

-- The packed bytes are as long as the format says.
pub length-pack :
    {R : Type 0} (fmt : List Code) (vs : List (Value R)) {bs : Bytes}
    → pack fmt vs ≡ ok bs
    → length bs ≡ calc_size fmt
unfolding pack calc_size
length-pack fmt vs h = omega (arith, length-pack_from 0 fmt vs h)

pub unpack-pack :
    {R : Type 0} (fmt : List Code) (vs : List (Value R)) (rest : Bytes) {bs : Bytes}
    → pack fmt vs ≡ ok bs
    → unpack 0 fmt (bs ++ rest) ≡ vs
unfolding pack
unpack-pack fmt vs rest h = unpack-pack_from 0 fmt vs rest h

-- Behind any prefix and before any rest, unpack_from at the start of packed bytes gives back
-- exactly the values that were packed, whatever the format and its alignment.
pub unpack_from-pack :
    {R : Type 0} (fmt : List Code) (vs : List (Value R)) (before rest : Bytes) {bs : Bytes}
    → pack fmt vs ≡ ok bs
    → unpack_from fmt (before ++ (bs ++ rest)) (length before) ≡ ok vs
unfolding pack unpack_from
unpack_from-pack fmt vs before rest {bs} h =
    rw (drop_of_append (length before) before (bs ++ rest) refl, unpack-pack_from 0 fmt vs rest h)
      (ground (
        arith,
        length-pack_from 0 fmt vs h,
        length-append before (bs ++ rest),
        length-append bs rest,
      ))
