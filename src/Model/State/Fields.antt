-- ===== src/Model/State/Fields.antt =====
-- util/intop/model.py: `get_fields`, the columns of a table.
use pna.Base.{
  List, [], ◌∷◌, ◌++◌, Bool, true, false, if◌then◌else◌, String, drop, ◌==◌, ◌&&◌, ◌||◌, string_eq,
  err, key_error, ◌≢◌, ◌≡◌, refl,
}
use pna.Model.State.{
  SortKey, raw, connections, sessions, column, name_text, same_sort_key, Row, pair, local,
  row_value,
}
use pna.Model.Derive.{Name, PointToPoint, LocalRow}

abbrev pub tcp_fields : List String
tcp_fields = "tcp-ports" ∷ "tcp-packets" ∷ "tcp-octets" ∷ []

abbrev pub udp_fields : List String
udp_fields = "udp-ports" ∷ "udp-packets" ∷ "udp-octets" ∷ []

abbrev pub all_fields : List String
all_fields = "all-ports" ∷ "all-packets" ∷ "all-octets" ∷ []

-- `eval(key[0:3]+'_fields')`
abbrev pub fields_of : Name → List String
fields_of Name.tcp_ports = tcp_fields
fields_of Name.tcp_packets = tcp_fields
fields_of Name.tcp_octets = tcp_fields
fields_of Name.udp_ports = udp_fields
fields_of Name.udp_packets = udp_fields
fields_of Name.udp_octets = udp_fields
fields_of Name.all_ports = all_fields
fields_of Name.all_packets = all_fields
fields_of Name.all_octets = all_fields

-- `get_fields(headers)`
unfoldable pub get_fields : Bool → SortKey → List String
get_fields headers raw =
    "local-ip" ∷ "remote-ip" ∷ "end-time" ∷ "ntcp" ∷ "nudp" ∷ "tcp-tuples" ∷ "udp-tuples" ∷ []
get_fields headers (column n) =
    "local-ip"
    ∷ "remote-ip"
    ∷ (if headers then fields_of n else tcp_fields ++ udp_fields ++ all_fields)
get_fields headers _ =
    "local-ip" ∷ "connections" ∷ "sessions" ∷ drop 1 all_fields ++ tcp_fields ++ udp_fields

-- The keys of a row.
abbrev pub row_keys : Row → List String
row_keys (pair p) = "local-ip" ∷ "remote-ip" ∷ tcp_fields ++ udp_fields ++ all_fields
row_keys (local l) =
    "local-ip" ∷ "connections" ∷ tcp_fields ++ udp_fields ++ drop 1 all_fields ++ "sessions" ∷ []

-- Rows of the table that a sort key makes.
abbrev pub row_of : SortKey → PointToPoint → LocalRow → Row
row_of (column n) p l = pair p
row_of _ p l = local l

abbrev pub key_text : SortKey → String
key_text raw = "raw"
key_text connections = "connections"
key_text sessions = "sessions"
key_text (column n) = name_text n

abbrev pub member : String → List String → Bool
member k [] = false
member k (j ∷ ks) = j == k || member k ks

abbrev pub subset : List String → List String → Bool
subset [] ks = true
subset (j ∷ js) ks = member j ks && subset js ks

-- For every sort key of a table, with and without headers: each column is a key of the rows, and
-- the sort key is one of the columns and a key of the rows.
pub get_fields_lem :
    (headers : Bool) (key : SortKey) (p : PointToPoint) (l : LocalRow)
    → same_sort_key key raw ≡ false
    → (subset (get_fields headers key) (row_keys (row_of key p l)) ≡ true)
      × (member (key_text key) (get_fields headers key) ≡ true)
      × (row_value key (row_of key p l) ≢ err (key_error (key_text key)))
unfolding get_fields row_value
get_fields_lem headers raw p l h = cc
get_fields_lem headers connections p l h = (refl, refl, λ e. cc)
get_fields_lem headers sessions p l h = (refl, refl, λ e. cc)
get_fields_lem true (column Name.tcp_ports) p l h = (refl, refl, λ e. cc)
get_fields_lem true (column _) p l h = (refl, refl, λ e. cc)
get_fields_lem false (column Name.tcp_ports) p l h = (refl, refl, λ e. cc)
get_fields_lem false (column _) p l h = (refl, refl, λ e. cc)
