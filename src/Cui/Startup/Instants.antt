-- ===== src/Cui/Startup/Instants.antt =====
-- The order in which `add_data` compares times, by the microseconds that they stand for.
use native.Mathlib.Decide.{dec_lt}
use pna.Base.{ℕ, ◌+◌, ◌-◌, ◌*◌, ◌<◌, ◌≡◌, Bool, true, ◌&&◌, ◌||◌, arith, ltb, leb, ◌==◌, nat_eq}
use pna.Cui.Times.{DateTime, not_after}

-- The fields of a time are in their ranges.
abbrev pub IsTime : DateTime → Type 0
IsTime d =
    (d.month < 13)
    × (d.day < 32)
    × (d.hour < 24)
    × (d.minute < 60)
    × (d.second < 60)
    × (d.microsecond < 1000000)

-- A number of microseconds that grows with time: a month has room for 32 days, a year for 13 months.
abbrev pub instant : DateTime → ℕ
instant d =
    d.year * 35942400000000
    + (d.month * 2764800000000
        + (d.day * 86400000000
            + (d.hour * 3600000000 + (d.minute * 60000000 + (d.second * 1000000 + d.microsecond)))))

below : (B a b n m : ℕ) → n < B → a < b → a * B + n < b * B + m
below B a b n m hn h =
    let k = b - (a + 1) in let whole : b ≡ a + 1 + k = omega arith in rw whole (grind arith)

digit :
    (B a b n m : ℕ) (rest : Bool)
    → n < B
    → m < B
    → rest ≡ leb n m
    → (ltb a b || (a == b && rest)) ≡ leb (a * B + n) (b * B + m)
digit B a b n m rest hn hm e = elim (dec_lt a b) [
  | yes less ↦ ground (arith, below B a b n m hn less)
  | no other ↦ elim (dec_lt b a) [
    | yes more ↦ ground (arith, below B b a m n hm more, nat_eq.beq_iff a b)
    | no neither ↦
        let same : a ≡ b = omega arith in rw (e, same) (ground (arith, nat_eq.beq_iff b b))
  ]
]

last_digit : (a b : ℕ) → (ltb a b || (a == b && true)) ≡ leb a b
last_digit a b = ground (arith, nat_eq.beq_iff a b)

-- Of two times, the one is not after the other exactly if it is no later instant.
pub not_after-instant :
    (d e : DateTime) → IsTime d → IsTime e → not_after d e ≡ leb (instant d) (instant e)
not_after-instant d e (h1, h2, h3, h4, h5, h6) (k1, k2, k3, k4, k5, k6) =
    digit 35942400000000 d.year e.year _ _ _ (omega arith) (omega arith) (
      digit 2764800000000 d.month e.month _ _ _ (omega arith) (omega arith) (
        digit 86400000000 d.day e.day _ _ _ (omega arith) (omega arith) (
          digit 3600000000 d.hour e.hour _ _ _ (omega arith) (omega arith) (
            digit 60000000 d.minute e.minute _ _ _ (omega arith) (omega arith) (
              digit 1000000 d.second e.second _ _ _ (omega arith) (omega arith)
                (last_digit d.microsecond e.microsecond))))))
