-- ===== src/Model/Derive.antt =====
-- util/intop/model.py: `derive_point_to_points` and `derive_local_ips`. A dict whose keys are the
-- same for every value is a record; `data.values()` is in the order of first use.
mod Tests
pub mod Keyed
pub mod Fold
pub mod Locals
pub mod Totals
pub mod Pairs
pub mod Grouped
pub mod Order
pub mod Running
use pna.Base.{
  ℕ, ◌+◌, List, [], ◌∷◌, ◌++◌, map, Option, none, some, Result, ok, ◌>>=◌, text_eq, string_eq,
  String,
}
use pna.Base.Dict.{Dict, lookup, insert}
use pna.Base.Text.{Text}
use pna.Base.Value.{Value, Tuple, Entry, Log, get_num, get_rows}
use pna.Model.Address.{int2ip}

-- The nine `data_names`.
pub record Counts : Type 0 where
  pub tcp_ports : ℕ
  pub tcp_packets : ℕ
  pub tcp_octets : ℕ
  pub udp_ports : ℕ
  pub udp_packets : ℕ
  pub udp_octets : ℕ
  pub all_ports : ℕ
  pub all_packets : ℕ
  pub all_octets : ℕ

abbrev pub no_counts : Counts
no_counts = record {
  tcp_ports = 0;
  tcp_packets = 0;
  tcp_octets = 0;
  udp_ports = 0;
  udp_packets = 0;
  udp_octets = 0;
  all_ports = 0;
  all_packets = 0;
  all_octets = 0;
}

unfoldable pub add_counts : Counts → Counts → Counts
add_counts a b = record {
  tcp_ports = a.tcp_ports + b.tcp_ports;
  tcp_packets = a.tcp_packets + b.tcp_packets;
  tcp_octets = a.tcp_octets + b.tcp_octets;
  udp_ports = a.udp_ports + b.udp_ports;
  udp_packets = a.udp_packets + b.udp_packets;
  udp_octets = a.udp_octets + b.udp_octets;
  all_ports = a.all_ports + b.all_ports;
  all_packets = a.all_packets + b.all_packets;
  all_octets = a.all_octets + b.all_octets;
}

-- One of the names, and `entry[name]`.
pub data Name : Type 0 where
  tcp_ports tcp_packets tcp_octets : Name
  udp_ports udp_packets udp_octets : Name
  all_ports all_packets all_octets : Name

abbrev pub count : Name → Counts → ℕ
count tcp_ports c = c.tcp_ports
count tcp_packets c = c.tcp_packets
count tcp_octets c = c.tcp_octets
count udp_ports c = c.udp_ports
count udp_packets c = c.udp_packets
count udp_octets c = c.udp_octets
count all_ports c = c.all_ports
count all_packets c = c.all_packets
count all_octets c = c.all_octets

pub record PointToPoint : Type 0 where
  pub local_ip : Text
  pub remote_ip : Text
  pub counts : Counts

-- `pkts` and `bytes` during one of the two loops over port tuples: 'all', and 'tcp' or 'udp'.
pub record Sums : Type 0 where
  pub pkts_all : ℕ
  pub pkts : ℕ
  pub bytes_all : ℕ
  pub bytes : ℕ

unfoldable pub add_tuple : Sums → Tuple → Result Sums
add_tuple s t = do
  npkts_in ← get_num "npkts-in" t
  npkts_out ← get_num "npkts-out" t
  nbytes_in ← get_num "nbytes-in" t
  nbytes_out ← get_num "nbytes-out" t
  let pkts = s.pkts + (npkts_in + npkts_out)
  let bytes = s.bytes + (nbytes_in + nbytes_out)
  ok (record {
    pkts_all = s.pkts_all + pkts;
    pkts = pkts;
    bytes_all = s.bytes_all + bytes;
    bytes = bytes;
  })

unfoldable pub add_tuples : Sums → List Tuple → Result Sums
unfolding add_tuple
add_tuples s [] = ok s
add_tuples s (t ∷ ts) = do s' ← add_tuple s t; add_tuples s' ts

abbrev pub no_sums : Sums
no_sums = record { pkts_all = 0; pkts = 0; bytes_all = 0; bytes = 0 }

-- What one entry of 'watch-data' adds, and to which pair of addresses.
unfoldable pub entry_counts : Entry → Result PointToPoint
unfolding add_tuples
entry_counts entry = do
  local_ip ← get_num "local-ip" entry
  remote_ip ← get_num "remote-ip" entry
  ntcp ← get_num "ntcp" entry
  nudp ← get_num "nudp" entry
  tcp_tuples ← get_rows "tcp-tuples" entry
  udp_tuples ← get_rows "udp-tuples" entry
  tcp ← add_tuples no_sums tcp_tuples
  udp ← add_tuples (record tcp { pkts = 0; bytes = 0 }) udp_tuples
  ok (record {
    local_ip = int2ip local_ip;
    remote_ip = int2ip remote_ip;
    counts = record {
      tcp_ports = ntcp;
      tcp_packets = tcp.pkts;
      tcp_octets = tcp.bytes;
      udp_ports = nudp;
      udp_packets = udp.pkts;
      udp_octets = udp.bytes;
      all_ports = ntcp + nudp;
      all_packets = udp.pkts_all;
      all_octets = udp.bytes_all;
    };
  })

-- `local_ip+'>'+remote_ip`
unfoldable pub pair_key : PointToPoint → Text
pair_key e = e.local_ip ++ (b'>' ∷ e.remote_ip)

-- The counts so far, `p2p.get(name, 0)`.
abbrev pub counts_of : Option PointToPoint → Counts
counts_of none = no_counts
counts_of (some p) = p.counts

-- "now combine all the data into the structure"
unfoldable pub combine_pair : Dict Text PointToPoint → PointToPoint → Dict Text PointToPoint
unfolding pair_key add_counts
combine_pair d e =
    insert (pair_key e)
      (record e { counts = add_counts (counts_of (lookup (pair_key e) d)) e.counts }) d

unfoldable pub pairs_of_entries :
    List Entry → Dict Text PointToPoint → Result (Dict Text PointToPoint)
unfolding entry_counts combine_pair
pairs_of_entries [] d = ok d
pairs_of_entries (entry ∷ entries) d = do
  e ← entry_counts entry
  pairs_of_entries entries (combine_pair d e)

unfoldable pub pairs_of_logs : List Log → Dict Text PointToPoint → Result (Dict Text PointToPoint)
unfolding pairs_of_entries
pairs_of_logs [] d = ok d
pairs_of_logs (item ∷ items) d = do
  watch_data ← get_rows "watch-data" item
  d' ← pairs_of_entries watch_data d
  pairs_of_logs items d'

abbrev pub values {ℓ} : {V : Type ℓ} → Dict Text V → List V
values = map (λ e. e.1)

unfoldable pub derive_point_to_points : List Log → Result (List PointToPoint)
unfolding pairs_of_logs
derive_point_to_points all_data = do d ← pairs_of_logs all_data []; ok (values d)

-- An entry of `derive_local_ips` while the items are combined.
pub record LocalIp : Type 0 where
  pub local_ip : Text
  pub connections : ℕ
  pub counts : Counts

abbrev pub connections_of : Option LocalIp → ℕ
connections_of none = 0
connections_of (some e) = e.connections

abbrev pub local_counts_of : Option LocalIp → Counts
local_counts_of none = no_counts
local_counts_of (some e) = e.counts

unfoldable pub combine_local : Dict Text LocalIp → PointToPoint → Dict Text LocalIp
unfolding add_counts
combine_local d item =
    let old = lookup item.local_ip d in
    insert item.local_ip
      (record {
        local_ip = item.local_ip;
        connections = connections_of old + 1;
        counts = add_counts (local_counts_of old) item.counts;
      })
      d

unfoldable pub locals_of : List PointToPoint → Dict Text LocalIp → Dict Text LocalIp
unfolding combine_local
locals_of [] d = d
locals_of (item ∷ items) d = locals_of items (combine_local d item)

-- An entry with 'sessions' in place of 'all-ports'.
pub record LocalRow : Type 0 where
  pub local_ip : Text
  pub connections : ℕ
  pub sessions : ℕ
  pub tcp_ports : ℕ
  pub tcp_packets : ℕ
  pub tcp_octets : ℕ
  pub udp_ports : ℕ
  pub udp_packets : ℕ
  pub udp_octets : ℕ
  pub all_packets : ℕ
  pub all_octets : ℕ

-- "now rename all-ports -> sessions"
unfoldable pub rename_all_ports : LocalIp → LocalRow
rename_all_ports e = record {
  local_ip = e.local_ip;
  connections = e.connections;
  sessions = e.counts.all_ports;
  tcp_ports = e.counts.tcp_ports;
  tcp_packets = e.counts.tcp_packets;
  tcp_octets = e.counts.tcp_octets;
  udp_ports = e.counts.udp_ports;
  udp_packets = e.counts.udp_packets;
  udp_octets = e.counts.udp_octets;
  all_packets = e.counts.all_packets;
  all_octets = e.counts.all_octets;
}

unfoldable pub derive_local_ips : List PointToPoint → List LocalRow
unfolding locals_of rename_all_ports
derive_local_ips all_data = map rename_all_ports (values (locals_of all_data []))
