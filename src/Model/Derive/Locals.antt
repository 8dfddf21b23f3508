-- ===== src/Model/Derive/Locals.antt =====
-- `derive_local_ips`: one row per local address.
use mathlib.Core.Option
use pna.Base.{
  map, Option, none, some, sym, ℕ, ◌+◌, ◌≡◌, refl, ◌∙◌, ap, List, [], ◌∷◌, arith, text_eq, ◌==◌,
  Bool-cases, if◌then◌else◌, inl, inr,
}
use pna.Base.Dict.{Dict, lookup, lookup-insert}
use pna.Base.Text.{Text}
use pna.Model.Derive.{
  Name, count, PointToPoint, values, LocalIp, LocalRow, rename_all_ports, connections_of,
  local_counts_of, combine_local, locals_of, derive_local_ips,
}
use pna.Model.Derive.Fold.{sum, count-add_counts, count_none}
use pna.Model.Derive.Totals.{pair_count, one}
use pna.Model.Derive.Keyed.{
  IsKeyed, by_key, Differs, IsDistinct, by_key-values, insert-IsKeyed, insert-IsDistinct,
}

abbrev pub local_key : LocalIp → Text
local_key e = e.local_ip

-- A measure of an item, if it belongs to the address.
abbrev pub at_ip : Text → (PointToPoint → ℕ) → PointToPoint → ℕ
at_ip ip f item = if item.local_ip == ip then f item else 0

locals_of-IsKeyed :
    (items : List PointToPoint) (d : Dict Text LocalIp)
    → IsKeyed local_key d
    → IsKeyed local_key (locals_of items d)
unfolding locals_of combine_local
locals_of-IsKeyed [] d h = h
locals_of-IsKeyed (e ∷ es) d h =
    locals_of-IsKeyed es (combine_local d e) (insert-IsKeyed local_key e.local_ip _ d refl h)

locals_of-IsDistinct :
    (items : List PointToPoint) (d : Dict Text LocalIp)
    → IsKeyed local_key d
    → IsDistinct local_key (values d)
    → IsDistinct local_key (values (locals_of items d))
unfolding locals_of combine_local
locals_of-IsDistinct [] d k h = h
locals_of-IsDistinct (e ∷ es) d k h =
    locals_of-IsDistinct es (combine_local d e) (insert-IsKeyed local_key e.local_ip _ d refl k)
      (insert-IsDistinct local_key e.local_ip _ d refl k h)

combine_local-connections :
    (ip : Text) (d : Dict Text LocalIp) (e : PointToPoint)
    → connections_of (lookup ip (combine_local d e)) ≡ connections_of (lookup ip d) + at_ip ip one e
unfolding combine_local
combine_local-connections ip d e = elim (Bool-cases (e.local_ip == ip)) [
  | inl same ↦
      let key : e.local_ip ≡ ip = (text_eq.beq_iff e.local_ip ip).0 same in
      rw (lookup-insert e.local_ip ip _ d, same) (ap (λ j. connections_of (lookup j d) + 1) key)
  | inr other ↦ rw (lookup-insert e.local_ip ip _ d, other) (omega arith)
]

combine_local-counts :
    (n : Name) (ip : Text) (d : Dict Text LocalIp) (e : PointToPoint)
    → count n (local_counts_of (lookup ip (combine_local d e)))
      ≡ count n (local_counts_of (lookup ip d)) + at_ip ip (pair_count n) e
unfolding combine_local
combine_local-counts n ip d e = elim (Bool-cases (e.local_ip == ip)) [
  | inl same ↦
      let key : e.local_ip ≡ ip = (text_eq.beq_iff e.local_ip ip).0 same in
      let old = local_counts_of (lookup e.local_ip d) in
      rw (lookup-insert e.local_ip ip _ d, same)
        (count-add_counts n old e.counts
          ∙ ap (λ j. count n (local_counts_of (lookup j d)) + count n e.counts) key)
  | inr other ↦ rw (lookup-insert e.local_ip ip _ d, other) (omega arith)
]

locals_of-connections :
    (ip : Text) (es : List PointToPoint) (d : Dict Text LocalIp)
    → connections_of (lookup ip (locals_of es d))
      ≡ connections_of (lookup ip d) + sum (at_ip ip one) es
unfolding locals_of
locals_of-connections ip [] d = omega arith
locals_of-connections ip (e ∷ es) d =
    omega (arith, locals_of-connections ip es (combine_local d e), combine_local-connections ip d e)

locals_of-counts :
    (n : Name) (ip : Text) (es : List PointToPoint) (d : Dict Text LocalIp)
    → count n (local_counts_of (lookup ip (locals_of es d)))
      ≡ count n (local_counts_of (lookup ip d)) + sum (at_ip ip (pair_count n)) es
unfolding locals_of
locals_of-counts n ip [] d = omega arith
locals_of-counts n ip (e ∷ es) d =
    omega (arith, locals_of-counts n ip es (combine_local d e), combine_local-counts n ip d e)

abbrev pub row_key : LocalRow → Text
row_key r = r.local_ip

-- What a row has, where there is one: the number of a name, or the sessions for all ports.
abbrev pub row_connections : Option LocalRow → ℕ
row_connections none = 0
row_connections (some r) = r.connections

abbrev pub row_count : Name → Option LocalRow → ℕ
row_count n none = 0
row_count Name.tcp_ports (some r) = r.tcp_ports
row_count Name.tcp_packets (some r) = r.tcp_packets
row_count Name.tcp_octets (some r) = r.tcp_octets
row_count Name.udp_ports (some r) = r.udp_ports
row_count Name.udp_packets (some r) = r.udp_packets
row_count Name.udp_octets (some r) = r.udp_octets
row_count Name.all_ports (some r) = r.sessions
row_count Name.all_packets (some r) = r.all_packets
row_count Name.all_octets (some r) = r.all_octets

rename_lookup :
    (ip : Text) (es : List LocalIp)
    → lookup ip (by_key row_key (map rename_all_ports es))
      ≡ Option.map rename_all_ports (lookup ip (by_key local_key es))
unfolding rename_all_ports
rename_lookup ip [] = refl
rename_lookup ip (e ∷ es) = elim (Bool-cases (e.local_ip == ip)) [
  | inl same ↦ rw same refl
  | inr other ↦ rw other (rename_lookup ip es)
]

rename-Differs :
    (k : Text) (es : List LocalIp)
    → Differs local_key k es
    → Differs row_key k (map rename_all_ports es)
unfolding rename_all_ports
rename-Differs k [] h = tt
rename-Differs k (e ∷ es) (h, hs) = (h, rename-Differs k es hs)

rename-IsDistinct :
    (es : List LocalIp) → IsDistinct local_key es → IsDistinct row_key (map rename_all_ports es)
unfolding rename_all_ports
rename-IsDistinct [] h = tt
rename-IsDistinct (e ∷ es) (h, hs) = (rename-Differs e.local_ip es h, rename-IsDistinct es hs)

rename_connections :
    (o : Option LocalIp) → row_connections (Option.map rename_all_ports o) ≡ connections_of o
unfolding rename_all_ports
rename_connections none = refl
rename_connections (some e) = refl

rename_count :
    (n : Name) (o : Option LocalIp)
    → row_count n (Option.map rename_all_ports o) ≡ count n (local_counts_of o)
unfolding rename_all_ports
rename_count n none = sym (count_none n)
rename_count Name.tcp_ports (some e) = refl
rename_count _ (some e) = refl

-- Derive_local_ips returns rows of which no two have the same local address; the row of an address
-- has as connections the number of items with that address, as sessions the sum of their all-ports,
-- and under each of the other eight names the sum of the counts of those items.
pub derive_local_ips_grouped :
    (items : List PointToPoint) (ip : Text) (n : Name)
    → IsDistinct row_key (derive_local_ips items)
      × (row_connections (lookup ip (by_key row_key (derive_local_ips items)))
          ≡ sum (at_ip ip one) items)
      × (row_count n (lookup ip (by_key row_key (derive_local_ips items)))
          ≡ sum (at_ip ip (pair_count n)) items)
unfolding derive_local_ips
derive_local_ips_grouped items ip n =
    let d = locals_of items [] in
    let keyed = by_key-values local_key d (locals_of-IsKeyed items [] tt) in
    let found =
      rename_lookup ip (values d) ∙ ap (λ x. Option.map rename_all_ports (lookup ip x)) keyed in
    (
      rename-IsDistinct (values d) (locals_of-IsDistinct items [] tt tt),
      ap row_connections found
          ∙ (rename_connections (lookup ip d) ∙ (locals_of-connections ip items [] ∙ omega arith)),
      ap (row_count n) found
          ∙ (rename_count n (lookup ip d)
              ∙ (locals_of-counts n ip items [] ∙ omega (arith, count_none n))),
    )
