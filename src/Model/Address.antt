-- ===== src/Model/Address.antt =====
-- util/intop/model.py: addresses as numbers and as text (`int2ip`, `ip2int`), and the test of an
-- address against the value of an address filter.
pub mod RoundTrip
pub mod Network
use pna.Base.{
  ℕ, zero, suc, ◌+◌, ◌-◌, ◌*◌, ◌/◌, ◌%◌, ◌^◌, List, [], ◌∷◌, map, Bool, not, get_elem?, none, some,
  Result, ok, index_error, or_raise, ◌>>=◌, ltb, ◌==◌, nat_eq, text_eq, if◌then◌else◌,
}
use pna.Base.Int.{ℤ, pos, negsuc, ◌+ℤ◌, scale, ltb_ℤ}
use pna.Base.Text.{Text, show, int, split, join}
use Prim.Native.Nat.{bit_and}

-- `(addr >> 24 & 0xff, addr >> 16 & 0xff, addr >> 8 & 0xff, addr & 0xff)`
unfoldable pub octets : ℕ → List ℕ
octets addr =
    addr / 2 ^ 24 % 2 ^ 8 ∷ addr / 2 ^ 16 % 2 ^ 8 ∷ addr / 2 ^ 8 % 2 ^ 8 ∷ addr % 2 ^ 8 ∷ []

unfoldable pub int2ip : ℕ → Text
unfolding octets
int2ip addr = join b'.' (map show (octets addr))

-- `int(octets[i])`
unfoldable pub octet : List Text → ℕ → Result ℤ
octet parts i = do part ← or_raise (get_elem? parts i) index_error; int part

unfoldable pub ip2int : Text → Result ℤ
unfolding octet
ip2int ip = do
  let parts = split b'.' ip
  a ← octet parts 0
  b ← octet parts 1
  c ← octet parts 2
  d ← octet parts 3
  ok (scale 256 (scale 256 (scale 256 a +ℤ b) +ℤ c) +ℤ d)

-- `n & m` of Python, for a mask m that is not negative: -(n + 1) has the complement of n's bits.
unfoldable pub and_mask : ℤ → ℕ → ℕ
and_mask (pos n) m = bit_and n m
and_mask (negsuc n) m = m - bit_and m n

-- `for i in range(32): mask = (mask << 1) + (1 if filter_bits > i else 0)`, with the rounds left.
unfoldable pub mask_loop : ℕ → ℕ → ℤ → ℕ → ℕ
mask_loop zero i bits m = m
mask_loop (suc left) i bits m =
    mask_loop left (i + 1) bits (m * 2 + (if ltb_ℤ (pos i) bits then 1 else 0))

unfoldable pub netmask : ℤ → ℕ
unfolding mask_loop
netmask bits = mask_loop 32 0 bits 0

-- The branch of `filter_reject` for 'local-ip' and 'remote-ip'.
unfoldable pub reject_address : Text → ℕ → Result Bool
unfolding and_mask netmask
reject_address filter value = do
  let parts = split b'/' filter
  first ← or_raise (get_elem? parts 0) index_error
  elim (get_elem? parts 1) [
    | none ↦ ok (not (int2ip value == first))
    | some width ↦ do
      ip ← ip2int first
      bits ← int width
      ok (not (bit_and value (netmask bits) == and_mask ip (netmask bits)))
  ]
