-- ===== src/Model/State.antt =====
-- util/intop/model.py: the object of `PNAModel` with its settings and its cache, and `get_data`.
-- A dict of filters is an object that settings, cache and class share, and stands in a store.
mod Tests
pub mod Loaded
pub mod Cached
pub mod Raw
pub mod Fields
pub mod Dicts
pub mod Settings
pub mod Race
pub mod Idle
pub mod Refines
use pna.Base.{
  ℕ, zero, suc, ◌+◌, List, [], ◌∷◌, ◌++◌, map, Bool, true, false, not, ◌&&◌, ◌||◌, ◌==◌, nat_eq,
  text_eq, Eq, string_eq, if◌then◌else◌, String, Option, none, some, Result, ok, err, key_error,
  type_error, ◌>>=◌,
}
use pna.Base.Dict.{Dict, lookup, insert}
use pna.Base.Text.{Text}
use pna.Base.Value.{Value, text, num, rows, Tuple, Entry, Log, get_num, get_rows, as_log, as_num}
use pna.LogFile.{Parser, init, parse}
use pna.Struct.{Bytes}
use pna.Model.Address.{int2ip}
use pna.Model.Filter.{Filters, do_filter}
use pna.Model.Time.{format_time}
use pna.Model.Rank.{ranked, sorted}
use pna.Model.Derive.{Name, count, PointToPoint, LocalRow, derive_point_to_points, derive_local_ips}

-- One of `sort_keys`.
pub data SortKey : Type 0 where
  raw connections sessions : SortKey
  column : Name → SortKey

-- `==` of two keys.
abbrev pub name_code : Name → ℕ
name_code Name.tcp_ports = 0
name_code Name.tcp_packets = 1
name_code Name.tcp_octets = 2
name_code Name.udp_ports = 3
name_code Name.udp_packets = 4
name_code Name.udp_octets = 5
name_code Name.all_ports = 6
name_code Name.all_packets = 7
name_code Name.all_octets = 8

abbrev pub same_sort_key : SortKey → SortKey → Bool
same_sort_key raw raw = true
same_sort_key connections connections = true
same_sort_key sessions sessions = true
same_sort_key (column m) (column n) = name_code m == name_code n
same_sort_key _ _ = false

-- A row of the table that `get_data` returns.
pub data Row : Type 0 where
  pair : PointToPoint → Row
  local : LocalRow → Row

abbrev pub name_text : Name → String
name_text Name.tcp_ports = "tcp-ports"
name_text Name.tcp_packets = "tcp-packets"
name_text Name.tcp_octets = "tcp-octets"
name_text Name.udp_ports = "udp-ports"
name_text Name.udp_packets = "udp-packets"
name_text Name.udp_octets = "udp-octets"
name_text Name.all_ports = "all-ports"
name_text Name.all_packets = "all-packets"
name_text Name.all_octets = "all-octets"

-- `row[name]` of a local row, in which 'sessions' has taken the place of 'all-ports'
abbrev pub local_value : Name → LocalRow → Result ℕ
local_value Name.tcp_ports l = ok l.tcp_ports
local_value Name.tcp_packets l = ok l.tcp_packets
local_value Name.tcp_octets l = ok l.tcp_octets
local_value Name.udp_ports l = ok l.udp_ports
local_value Name.udp_packets l = ok l.udp_packets
local_value Name.udp_octets l = ok l.udp_octets
local_value Name.all_ports l = err (key_error "all-ports")
local_value Name.all_packets l = ok l.all_packets
local_value Name.all_octets l = ok l.all_octets

-- `row[key]`
unfoldable pub row_value : SortKey → Row → Result ℕ
row_value (column n) (pair p) = ok (count n p.counts)
row_value (column n) (local l) = local_value n l
row_value connections (local l) = ok l.connections
row_value sessions (local l) = ok l.sessions
row_value connections (pair p) = err (key_error "connections")
row_value sessions (pair p) = err (key_error "sessions")
row_value raw _ = err (key_error "raw")

-- What `get_data` returns: the filtered logs, the flat entries of 'raw', or a table.
pub data Output : Type 0 where
  logs : List Log → Output
  flat : List Entry → Output
  table : List Row → Output

pub record Cache : Type 0 where
  pub key : Option SortKey
  pub threshold : Option ℕ
  pub filters : Option ℕ
  pub valid : Bool
  pub contents : Option (List Row)

-- A reference to a dict of filters is a number; `next` is the first that is not in use.
pub record PnaModel : Type 0 where
  pub sort_key : SortKey
  pub threshold : ℕ
  pub filters : ℕ
  pub all_data : List Log
  pub cache : Cache
  pub store : ℕ → Filters
  pub next : ℕ

-- `PNAModel()`. The filters are the one dict of the class `PNADefaults`, whatever it holds by now.
unfoldable pub new_model : (ℕ → Filters) → ℕ → ℕ → PnaModel
new_model store next defaults = record {
  sort_key = sessions;
  threshold = 0;
  filters = defaults;
  all_data = [];
  cache = record { key = none; threshold = none; filters = none; valid = false; contents = none };
  store = store;
  next = next;
}

-- `add_file`, on the bytes that the file holds.
unfoldable pub add_file : Bytes → PnaModel → Result PnaModel
add_file bytes m = do
  file_data ← init bytes
  (flows, _) ← parse file_data
  ok (record m {
    all_data = m.all_data ++ insert "flows" (rows flows) (as_log file_data.header) ∷ [];
    cache = record m.cache { valid = false };
  })

-- `PNAModel.filters`, the names.
abbrev pub filter_names : List String
filter_names =
    "local-ip" ∷ "remote-ip" ∷ "source-port" ∷ "destination-port" ∷ "begin-time" ∷ "end-time"
    ∷ "latest" ∷ []

-- `f in c_filters and f in s_filters` and `c_filters[f] != s_filters[f]`
abbrev pub differ : Option Text → Option Text → Bool
differ (some v) (some w) = not (v == w)
differ _ _ = false

-- The loop that compares the filters of the cache with those of the settings.
unfoldable pub same_filters : Filters → Filters → List String → Bool
same_filters c_filters s_filters [] = true
same_filters c_filters s_filters (f ∷ fs) =
    let rest = same_filters c_filters s_filters fs in
    if differ (lookup f c_filters) (lookup f s_filters) then false else rest

abbrev pub is_key : SortKey → Option SortKey → Bool
is_key key none = false
is_key key (some k) = same_sort_key k key

abbrev pub is_threshold : ℕ → Option ℕ → Bool
is_threshold threshold none = false
is_threshold threshold (some t) = t == threshold

-- "see if any thing has changed": the table to return at once, if there is one.
unfoldable pub cached : PnaModel → Result (Option (List Row))
unfolding same_filters
cached m =
    if is_key m.sort_key m.cache.key && is_threshold m.threshold m.cache.threshold && m.cache.valid
    then elim m.cache.filters [
      | none ↦ err type_error
      | some c ↦
          if same_filters (m.store c) (m.store m.filters) filter_names
          then elim m.cache.contents [ none ↦ err (key_error "data") | some rs ↦ ok (some rs) ]
          else ok none
    ]
    else ok none

-- One entry of 'watch-data' under the time of its log. Its addresses become texts.
unfoldable pub flat_items : Entry → Entry → Result Entry
flat_items [] flat_entry = ok flat_entry
flat_items ((item, value) ∷ entry) flat_entry =
    if item == "local-ip" || item == "remote-ip"
    then (do n ← as_num value; flat_items entry (insert item (text (int2ip n)) flat_entry))
    else flat_items entry (insert item value flat_entry)

unfoldable pub flat_entries : Text → List Entry → Result (List Entry)
unfolding flat_items
flat_entries end_time [] = ok []
flat_entries end_time (entry ∷ entries) = do
  flat_entry ← flat_items entry (("end-time", text end_time) ∷ [])
  rest ← flat_entries end_time entries
  ok (flat_entry ∷ rest)

unfoldable pub flat_logs : List Log → Result (List Entry)
unfolding flat_entries
flat_logs [] = ok []
flat_logs (d ∷ ds) = do
  end_time ← get_num "end-time" d
  watch_data ← get_rows "watch-data" d
  entries ← flat_entries (format_time end_time) watch_data
  rest ← flat_logs ds
  ok (entries ++ rest)

-- The branch of `key == 'raw'`
unfoldable pub flatten : List Log → Result (List Entry)
unfolding flat_logs
flatten items = do ds ← sorted (get_num "end-time") items; flat_logs ds

-- The rows that the key asks for.
unfoldable pub rows_for : SortKey → List Log → Result (List Row)
rows_for (column n) items = do ps ← derive_point_to_points items; ok (map pair ps)
rows_for _ items = do ps ← derive_point_to_points items; ok (map local (derive_local_ips ps))

-- The end of `get_data`, from the threshold on.
unfoldable pub rank_and_store : PnaModel → List Row → Result (PnaModel × Output)
unfolding ranked row_value
rank_and_store m all_rows = do
  rs ← ranked (row_value m.sort_key) m.threshold all_rows
  ok (
    record m {
      cache = record {
        key = some m.sort_key;
        threshold = some m.threshold;
        filters = some m.filters;
        valid = true;
        contents = some rs;
      };
    },
    table rs,
  )

unfoldable pub view_for : SortKey → PnaModel → List Log → Result (PnaModel × Output)
unfolding flatten rows_for rank_and_store
view_for raw m items = do es ← flatten items; ok (m, flat es)
view_for key m items = do rs ← rows_for key items; rank_and_store m rs

unfoldable pub view_data : PnaModel → List Log → Result (PnaModel × Output)
unfolding view_for
view_data m items = view_for m.sort_key m items

-- `get_data(raw)`. An exception leaves the object as it was.
unfoldable pub get_data : Bool → PnaModel → Result (PnaModel × Output)
get_data as_raw m = do
  hit ← cached m
  elim hit [
    | some rs ↦ ok (m, table rs)
    | none ↦ do
      items ← do_filter (m.store m.filters) m.all_data
      if as_raw then ok (m, logs items) else view_data m items
  ]
