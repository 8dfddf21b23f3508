-- ===== src/Model/Address/Network.antt =====
-- What an address filter accepts.
use Prim.Native.Nat.{bit_and}
use pna.Base.{
  inl, ℕ, zero, suc, ◌+◌, ◌-◌, ◌*◌, ◌/◌, ◌^◌, ◌<◌, ◌≤◌, ◌≡◌, ap, sym, ◌∙◌, ◌∷◌, ◌++◌, arith, ok,
  not, true, false, ◌==◌, nat_eq, text_eq,
}
use pna.Base.Int.{pos, ltb_ℤ}
use pna.Base.Bits.{ones, mask, bit_and-mask, mul_beq, pow_add, pow_pos}
use pna.Base.Text.{show}
use pna.Base.Text.Decimal.{int-show}
use pna.Base.Text.Split.{split_lacking, split-append}
use pna.Model.Address.{int2ip, mask_loop, netmask, and_mask, reject_address}
use pna.Model.Address.RoundTrip.{ip2int-int2ip, int2ip-injective, int2ip-Lacks, show-Lacks}

-- After the rounds below `bits` the mask is all ones.
mask_loop-ones :
    (left more i bits : ℕ)
    → left + i ≡ bits
    → mask_loop (left + more) i (pos bits) (ones i) ≡ mask_loop more bits (pos bits) (ones bits)
unfolding mask_loop
mask_loop-ones zero more i bits h =
    let start : i ≡ bits = omega arith in
    let rounds : zero + more ≡ more = omega arith in rw (start, rounds)
mask_loop-ones (suc left) more i bits h =
    let rounds : suc left + more ≡ suc (left + more) = omega arith in
    let on : ltb_ℤ (pos i) (pos bits) ≡ true = ground arith in
    let digit : ones i * 2 + 1 ≡ ones (suc i) = omega arith in
    let next : i + 1 ≡ suc i = omega arith in
    rw rounds
      (rw (on, mask_loop, digit, next) (mask_loop-ones left more (suc i) bits (omega arith)))

-- The other rounds put zeroes behind.
mask_loop_zeroes :
    (left i bits k : ℕ)
    → bits ≤ i
    → mask_loop left i (pos bits) (mask bits k) ≡ mask bits (k + left)
unfolding mask_loop
mask_loop_zeroes zero i bits k h = ap (mask bits) (omega arith)
mask_loop_zeroes (suc left) i bits k h =
    let off : ltb_ℤ (pos i) (pos bits) ≡ false = ground arith in
    let digit : mask bits k * 2 + 0 ≡ mask bits (suc k) = omega arith in
    let rounds : suc k + left ≡ k + suc left = omega arith in
    rw (off, mask_loop, digit)
      (mask_loop_zeroes left (i + 1) bits (suc k) (omega arith) ∙ ap (mask bits) rounds)

-- `bits` ones, with zeroes up to 32 digits.
pub netmask_lem : (bits : ℕ) → bits ≤ 32 → netmask (pos bits) ≡ mask bits (32 - bits)
unfolding netmask
netmask_lem bits h =
    let rounds : 32 ≡ bits + (32 - bits) = omega arith in
    ap (λ n. mask_loop n 0 (pos bits) 0) rounds
    ∙ (mask_loop-ones bits (32 - bits) 0 bits (omega arith)
        ∙ (mask_loop_zeroes (32 - bits) bits bits 0 (omega arith) ∙ ap (mask bits) (omega arith)))

two_power : (bits : ℕ) → bits ≤ 32 → 2 ^ (32 - bits) * 2 ^ bits ≡ 2 ^ 32
two_power bits h =
    let whole : 32 - bits + bits ≡ 32 = omega arith in
    sym (pow_add (32 - bits) bits) ∙ ap (λ n. 2 ^ n) whole

-- Two addresses agree under the mask exactly if their first `bits` digits are the same.
pub netmask-prefix :
    (bits a b : ℕ)
    → bits ≤ 32
    → a < 2 ^ 32
    → b < 2 ^ 32
    → (bit_and a (netmask (pos bits)) == bit_and b (netmask (pos bits)))
      ≡ (a / 2 ^ (32 - bits) == b / 2 ^ (32 - bits))
netmask-prefix bits a b h ha hb =
    rw
      (
        netmask_lem bits h,
        bit_and-mask a bits (32 - bits) (omega (arith, two_power bits h)),
        bit_and-mask b bits (32 - bits) (omega (arith, two_power bits h)),
      )
      (mul_beq _ _ (2 ^ (32 - bits)) (pow_pos (32 - bits)))

text_beq_int2ip : (a b : ℕ) → a < 2 ^ 32 → b < 2 ^ 32 → (int2ip a == int2ip b) ≡ (a == b)
text_beq_int2ip a b ha hb =
    ground (arith, text_eq.beq_iff (int2ip a) (int2ip b), int2ip-injective a b ha hb)

-- A filter that is the text of a 32-bit address rejects exactly the other 32-bit addresses.
pub reject_address_exact :
    (ip value : ℕ)
    → ip < 2 ^ 32
    → value < 2 ^ 32
    → reject_address (int2ip ip) value ≡ ok (not (value == ip))
unfolding reject_address
reject_address_exact ip value hi hv =
    rw (split_lacking b'/' (int2ip ip) (int2ip-Lacks b'/' ip (inl (omega arith)) (omega arith)))
      (rw (text_beq_int2ip value ip hv hi))

-- A filter address/bits, with at most 32 bits, rejects exactly the 32-bit addresses whose first
-- bits differ from those of its address.
pub reject_address_network :
    (ip bits value : ℕ)
    → ip < 2 ^ 32
    → bits ≤ 32
    → value < 2 ^ 32
    → reject_address (int2ip ip ++ (b'/' ∷ show bits)) value
      ≡ ok (not (value / 2 ^ (32 - bits) == ip / 2 ^ (32 - bits)))
unfolding reject_address and_mask netmask
reject_address_network ip bits value hi hb hv = rw (
  split-append b'/' (int2ip ip) (show bits)
      (int2ip-Lacks b'/' ip (inl (omega arith)) (omega arith)),
  split_lacking b'/' (show bits) (show-Lacks b'/' bits (inl (omega arith))),
  ip2int-int2ip ip hi,
  int-show bits,
  netmask-prefix bits value ip hb hv hi,
)
