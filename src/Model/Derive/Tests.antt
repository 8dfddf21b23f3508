-- ===== src/Model/Derive/Tests.antt =====
-- The groups of model.py on a log of the old format.
use mathlib.Core.List.{Permᴰ}
use mathlib.Core.Quot
use pna.Base.{◌+◌, ◌≡◌, refl, List, [], ◌∷◌, map, text_eq, string_eq, ok}
use pna.Base.Dict.{lookup}
use pna.Base.Text.{Text, codes, show, join}
use pna.Base.Value.{num, rows, Entry, Log, Tuple}
use pna.Model.Address.{int2ip}
use pna.Model.Derive.{
  entry_counts, Name, PointToPoint, derive_point_to_points, derive_local_ips, no_sums, add_tuples,
}
use pna.Model.Derive.Fold.{sum, logs_counts}
use pna.Model.Derive.Totals.{pair_count, one}
use pna.Model.Derive.Pairs.{at_pair, once}
use pna.Model.Derive.Keyed.{IsDistinct, by_key}
use pna.Model.Derive.Grouped.{derive_point_to_points_grouped}
use pna.Model.Derive.Order.{bag, derive_point_to_points-bag}
use pna.Model.Derive.Locals.{row_key, row_connections, row_count, at_ip, derive_local_ips_grouped}
use pna.Model.Derive.Running.{prefix_totals, packets, octets, total, Volume, add_tuples_lem}

abbrev volumes : List (Volume × Volume)
volumes = ((1, 2), (100, 200)) ∷ ((3, 4), (300, 400)) ∷ []

-- A port tuple with the keys that util/intop/identity.py writes
abbrev port_tuple : Volume × Volume → Tuple
port_tuple ((pi, po), (bi, bo)) =
    ("local-port", num 80)
    ∷ ("remote-port", num 1234)
    ∷ ("npkts-in", num pi)
    ∷ ("npkts-out", num po)
    ∷ ("nbytes-in", num bi)
    ∷ ("nbytes-out", num bo)
    ∷ ("begin-time", num 100)
    ∷ ("first-direction", num 0)
    ∷ []

abbrev watch_entry : Entry
watch_entry =
    ("local-ip", num 167772161)
    ∷ ("remote-ip", num 134744072)
    ∷ ("ntcp", num 2)
    ∷ ("nudp", num 0)
    ∷ ("tcp-tuples", rows (map port_tuple volumes))
    ∷ ("udp-tuples", rows [])
    ∷ []

-- Two entries of one pair of addresses, in two logs
abbrev old_logs : List Log
old_logs =
    (("watch-data", rows (watch_entry ∷ [])) ∷ [])
    ∷ (("watch-data", rows (watch_entry ∷ [])) ∷ [])
    ∷ []

abbrev entry_row : PointToPoint
entry_row = record {
  local_ip = codes "10.0.0.1";
  remote_ip = codes "8.8.8.8";
  counts = record {
    tcp_ports = 2;
    tcp_packets = 10;
    tcp_octets = 1000;
    udp_ports = 0;
    udp_packets = 0;
    udp_octets = 0;
    all_ports = 2;
    all_packets = 13;
    all_octets = 1300;
  };
}

abbrev both_rows : PointToPoint
both_rows = record entry_row {
  counts = record {
    tcp_ports = 4;
    tcp_packets = 20;
    tcp_octets = 2000;
    udp_ports = 0;
    udp_packets = 0;
    udp_octets = 0;
    all_ports = 4;
    all_packets = 26;
    all_octets = 2600;
  };
}

read_entries : logs_counts old_logs ≡ ok (entry_row ∷ entry_row ∷ [])
unfolding logs_counts entry_counts int2ip show join
read_entries = refl

one_row : derive_point_to_points old_logs ≡ ok (both_rows ∷ [])
unfolding derive_point_to_points int2ip show join
one_row = refl

derive_point_to_points_grouped_example :
    (sum (at_pair entry_row.local_ip entry_row.remote_ip one) (both_rows ∷ [])
      ≡ once
          (sum (at_pair entry_row.local_ip entry_row.remote_ip one) (entry_row ∷ entry_row ∷ [])))
    × (sum
          (at_pair entry_row.local_ip entry_row.remote_ip (pair_count Name.all_octets))
          (both_rows ∷ [])
        ≡ sum
            (at_pair entry_row.local_ip entry_row.remote_ip (pair_count Name.all_octets))
            (entry_row ∷ entry_row ∷ []))
derive_point_to_points_grouped_example =
    derive_point_to_points_grouped old_logs (entry_row ∷ entry_row ∷ []) (both_rows ∷ [])
      entry_row.local_ip entry_row.remote_ip Name.all_octets read_entries one_row

-- Logs of two pairs, in two orders
abbrev first_log : Log
first_log = ("watch-data", rows (watch_entry ∷ [])) ∷ []

abbrev other_entry : Entry
other_entry =
    ("local-ip", num 167772162)
    ∷ ("remote-ip", num 134744072)
    ∷ ("ntcp", num 0)
    ∷ ("nudp", num 1)
    ∷ ("tcp-tuples", rows [])
    ∷ ("udp-tuples", rows [])
    ∷ []

abbrev other_log : Log
other_log = ("watch-data", rows (other_entry ∷ watch_entry ∷ [])) ∷ []

abbrev other_row : PointToPoint
other_row = record {
  local_ip = codes "10.0.0.2";
  remote_ip = codes "8.8.8.8";
  counts = record {
    tcp_ports = 0;
    tcp_packets = 0;
    tcp_octets = 0;
    udp_ports = 1;
    udp_packets = 0;
    udp_octets = 0;
    all_ports = 1;
    all_packets = 0;
    all_octets = 0;
  };
}

read_first : logs_counts (first_log ∷ other_log ∷ []) ≡ ok (entry_row ∷ other_row ∷ entry_row ∷ [])
unfolding logs_counts entry_counts int2ip show join
read_first = refl

read_other : logs_counts (other_log ∷ first_log ∷ []) ≡ ok (other_row ∷ entry_row ∷ entry_row ∷ [])
unfolding logs_counts entry_counts int2ip show join
read_other = refl

rows_of_first :
    derive_point_to_points (first_log ∷ other_log ∷ []) ≡ ok (both_rows ∷ other_row ∷ [])
unfolding derive_point_to_points int2ip show join
rows_of_first = refl

rows_of_other :
    derive_point_to_points (other_log ∷ first_log ∷ []) ≡ ok (other_row ∷ both_rows ∷ [])
unfolding derive_point_to_points int2ip show join
rows_of_other = refl

same_logs : bag (first_log ∷ other_log ∷ []) ≡ bag (other_log ∷ first_log ∷ [])
same_logs = Quot.sound (Permᴰ.swap refl refl)

derive_point_to_points-bag_example :
    (sum (at_pair entry_row.local_ip entry_row.remote_ip one) (both_rows ∷ other_row ∷ [])
      ≡ sum (at_pair entry_row.local_ip entry_row.remote_ip one) (other_row ∷ both_rows ∷ []))
    × (sum
          (at_pair entry_row.local_ip entry_row.remote_ip (pair_count Name.all_octets))
          (both_rows ∷ other_row ∷ [])
        ≡ sum
            (at_pair entry_row.local_ip entry_row.remote_ip (pair_count Name.all_octets))
            (other_row ∷ both_rows ∷ []))
derive_point_to_points-bag_example =
    derive_point_to_points-bag (first_log ∷ other_log ∷ []) (other_log ∷ first_log ∷ [])
      (entry_row ∷ other_row ∷ entry_row ∷ []) (other_row ∷ entry_row ∷ entry_row ∷ [])
      (both_rows ∷ other_row ∷ []) (other_row ∷ both_rows ∷ []) entry_row.local_ip
      entry_row.remote_ip Name.all_octets same_logs read_first read_other rows_of_first
      rows_of_other

abbrev here : Text
here = codes "10.0.0.1"

derive_local_ips_grouped_example :
    IsDistinct row_key (derive_local_ips (entry_row ∷ entry_row ∷ []))
    × (row_connections
          (lookup here (by_key row_key (derive_local_ips (entry_row ∷ entry_row ∷ []))))
        ≡ sum (at_ip here one) (entry_row ∷ entry_row ∷ []))
    × (row_count Name.all_octets
          (lookup here (by_key row_key (derive_local_ips (entry_row ∷ entry_row ∷ []))))
        ≡ sum (at_ip here (pair_count Name.all_octets)) (entry_row ∷ entry_row ∷ []))
derive_local_ips_grouped_example =
    derive_local_ips_grouped (entry_row ∷ entry_row ∷ []) here Name.all_octets

add_tuples_lem_example :
    add_tuples no_sums (map port_tuple volumes)
    ≡ ok (record {
      pkts_all = no_sums.pkts_all + prefix_totals no_sums.pkts (map packets volumes);
      pkts = no_sums.pkts + total (map packets volumes);
      bytes_all = no_sums.bytes_all + prefix_totals no_sums.bytes (map octets volumes);
      bytes = no_sums.bytes + total (map octets volumes);
    })
add_tuples_lem_example =
    add_tuples_lem (map port_tuple volumes) volumes no_sums
      ((refl, refl, refl, refl), ((refl, refl, refl, refl), tt))
