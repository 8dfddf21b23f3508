-- ===== src/Model/Derive/Running.antt =====
-- `pkts['all']` adds the running value of `pkts['tcp']` or `pkts['udp']` for every tuple, where
-- `pkts['tcp']` and `pkts['udp']` themselves are plain sums.
use pna.Base.{ℕ, ◌+◌, ◌≡◌, ◌∙◌, List, [], ◌∷◌, map, arith, ok, ap, string_eq}
use pna.Base.Value.{Tuple, get_num}
use pna.Model.Derive.{Sums, add_tuple, add_tuples}

-- The packets and the octets of a tuple.
abbrev pub Volume : Type 0
Volume = ℕ × ℕ

-- The four numbers of a tuple that the loop reads, whatever else the tuple has.
abbrev pub HasVolume : Tuple → Volume × Volume → Type 0
HasVolume t ((pi, po), (bi, bo)) =
    (get_num "npkts-in" t ≡ ok pi)
    × (get_num "npkts-out" t ≡ ok po)
    × (get_num "nbytes-in" t ≡ ok bi)
    × (get_num "nbytes-out" t ≡ ok bo)

abbrev pub HaveVolumes : List Tuple → List (Volume × Volume) → Type 0
HaveVolumes [] [] = Unit
HaveVolumes (t ∷ ts) (v ∷ vs) = HasVolume t v × HaveVolumes ts vs
HaveVolumes _ _ = ⊥

-- A plain sum, and the sum of the sums of all prefixes that have at least one element.
abbrev pub total : List ℕ → ℕ
total [] = 0
total (x ∷ xs) = x + total xs

abbrev pub prefix_totals : ℕ → List ℕ → ℕ
prefix_totals before [] = 0
prefix_totals before (x ∷ xs) = (before + x) + prefix_totals (before + x) xs

abbrev pub packets : Volume × Volume → ℕ
packets ((pi, po), b) = pi + po

abbrev pub octets : Volume × Volume → ℕ
octets (p, (bi, bo)) = bi + bo

sums-cong :
    {a b c d a' b' c' d' : ℕ}
    → a ≡ a'
    → b ≡ b'
    → c ≡ c'
    → d ≡ d'
    → Path Sums
        (record { pkts_all = a; pkts = b; bytes_all = c; bytes = d })
        (record { pkts_all = a'; pkts = b'; bytes_all = c'; bytes = d' })
sums-cong p q r s = λ i. record { pkts_all = p i; pkts = q i; bytes_all = r i; bytes = s i }

-- On port tuples that have the four numbers of packets and octets, whatever else they have, the
-- loop over the tuples of a protocol returns plain sums of packets and octets, and adds to all the
-- sums of the running sums.
pub add_tuples_lem :
    (ts : List Tuple) (vs : List (Volume × Volume)) (s : Sums)
    → HaveVolumes ts vs
    → add_tuples s ts
      ≡ ok (record {
        pkts_all = s.pkts_all + prefix_totals s.pkts (map packets vs);
        pkts = s.pkts + total (map packets vs);
        bytes_all = s.bytes_all + prefix_totals s.bytes (map octets vs);
        bytes = s.bytes + total (map octets vs);
      })
unfolding add_tuples add_tuple
add_tuples_lem [] [] s h = ap ok (sums-cong (omega arith) (omega arith) (omega arith) (omega arith))
add_tuples_lem [] (v ∷ vs) s h = absurd h
add_tuples_lem (t ∷ ts) [] s h = absurd h
add_tuples_lem (t ∷ ts) (((pi, po), (bi, bo)) ∷ vs) s ((a, b, c, d), hs) =
    rw (a, b, c, d)
      (add_tuples_lem ts vs _ hs
        ∙ ap ok (sums-cong (omega arith) (omega arith) (omega arith) (omega arith)))
