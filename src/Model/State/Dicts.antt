-- ===== src/Model/State/Dicts.antt =====
-- util/intop/model.py: the rows of a table as the dicts that `get_data` returns.
use pna.Base.{◌≡◌, refl, List, [], ◌∷◌, ◌++◌, map}
use pna.Base.Value.{num, text, Entry, get_num}
use pna.Model.Derive.{Name, Counts}
use pna.Model.State.{
  SortKey, raw, connections, sessions, column, Row, pair, local, row_value, Output, logs, flat,
  table,
}
use pna.Model.State.Fields.{key_text, row_keys}

abbrev pub protocol_dict : Counts → Entry
protocol_dict c =
    ("tcp-ports", num c.tcp_ports)
    ∷ ("tcp-packets", num c.tcp_packets)
    ∷ ("tcp-octets", num c.tcp_octets)
    ∷ ("udp-ports", num c.udp_ports)
    ∷ ("udp-packets", num c.udp_packets)
    ∷ ("udp-octets", num c.udp_octets)
    ∷ []

-- A row as a dict. A local row has 'sessions' in place of 'all-ports'.
abbrev pub row_dict : Row → Entry
row_dict (pair p) =
    ("local-ip", text p.local_ip) ∷ ("remote-ip", text p.remote_ip) ∷ protocol_dict p.counts
    ++ ("all-ports", num p.counts.all_ports)
      ∷ ("all-packets", num p.counts.all_packets)
      ∷ ("all-octets", num p.counts.all_octets)
      ∷ []
row_dict (local l) =
    ("local-ip", text l.local_ip)
    ∷ ("connections", num l.connections)
    ∷ ("tcp-ports", num l.tcp_ports)
    ∷ ("tcp-packets", num l.tcp_packets)
    ∷ ("tcp-octets", num l.tcp_octets)
    ∷ ("udp-ports", num l.udp_ports)
    ∷ ("udp-packets", num l.udp_packets)
    ∷ ("udp-octets", num l.udp_octets)
    ∷ ("all-packets", num l.all_packets)
    ∷ ("all-octets", num l.all_octets)
    ∷ ("sessions", num l.sessions)
    ∷ []

-- The dicts that the information window shows. Without raw, `get_data` returns no logs.
abbrev pub items : Output → List Entry
items (logs ls) = []
items (flat es) = es
items (table rs) = map row_dict rs

-- The dict of a row has the keys of the row, and under a sort key the number that sorts it; it
-- lacks the key where the row does.
pub row_dict_lem :
    (key : SortKey) (r : Row)
    → (map (λ e. e.0) (row_dict r) ≡ row_keys r)
      × (row_value key r ≡ get_num (key_text key) (row_dict r))
unfolding row_value
row_dict_lem raw (pair p) = (refl, refl)
row_dict_lem raw (local l) = (refl, refl)
row_dict_lem connections (pair p) = (refl, refl)
row_dict_lem connections (local l) = (refl, refl)
row_dict_lem sessions (pair p) = (refl, refl)
row_dict_lem sessions (local l) = (refl, refl)
row_dict_lem (column Name.tcp_ports) (pair p) = (refl, refl)
row_dict_lem (column _) (pair p) = (refl, refl)
row_dict_lem (column Name.tcp_ports) (local l) = (refl, refl)
row_dict_lem (column _) (local l) = (refl, refl)
