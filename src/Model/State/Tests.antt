-- ===== src/Model/State/Tests.antt =====
-- The object of model.py on the sample log.
use pna.Base.{
  ℕ, ◌≡◌, inl, List, refl, [], ◌∷◌, All, true, false, none, ok, err, key_error, string_eq, text_eq,
}
use pna.Base.Dict.{insert}
use pna.Base.Text.{codes}
use pna.Base.Value.{rows, Log, as_log}
use pna.Struct.{unpack_from}
use pna.LogFile.{init, parse, parse_entry, complete}
use pna.Model.Filter.{Filters, do_filter}
use pna.Model.Filter.Keeps.{IsLog}
use pna.Model.Derive.{PointToPoint, LocalRow, no_counts, derive_point_to_points, derive_local_ips}
use pna.Model.State.{sessions, table, PnaModel, cached, new_model, add_file, get_data, view_data}
use pna.Model.State.Loaded.{add_file-IsLoaded}
use pna.Model.State.Cached.{stored, get_data_repeats}
use pna.Model.State.Raw.{get_data_raises}
use pna.Model.State.Refines.{plain_of}
use pna.Model.State.Refines.Commands.{
  Command, by_threshold, adds, asks, run, run_plain, run_refines,
}
use pna.Samples.{log_bytes, reader, session_entry}

abbrev no_filters : ℕ → Filters
no_filters r = []

abbrev http_filters : ℕ → Filters
http_filters r = ("source-port", codes "80") ∷ []

-- `PNAModel()`, where the defaults hold no filter; written out, so that its fields compute.
abbrev fresh : PnaModel
fresh = record {
  sort_key = sessions;
  threshold = 0;
  filters = 0;
  all_data = [];
  cache = record { key = none; threshold = none; filters = none; valid = false; contents = none };
  store = no_filters;
  next = 1;
}

fresh_lem : new_model no_filters 1 0 ≡ fresh
unfolding new_model
fresh_lem = refl

abbrev sample_item : Log
sample_item = insert "flows" (rows (session_entry ∷ [])) (as_log reader.header)

abbrev with_sample : PnaModel
with_sample = record fresh { all_data = sample_item ∷ [] }

added : add_file log_bytes fresh ≡ ok with_sample
unfolding add_file init parse unpack_from parse_entry complete
added = refl

sample_loaded : All IsLog with_sample.all_data
sample_loaded = add_file-IsLoaded log_bytes fresh with_sample tt added

get_data_raises_example : get_data false with_sample ≡ err (key_error "watch-data")
get_data_raises_example = get_data_raises with_sample sample_item [] refl tt refl sample_loaded

-- Without logs there is an empty table, which the cache then holds.
abbrev tabled : PnaModel
tabled = record fresh { cache = stored fresh [] }

empty_table : get_data false fresh ≡ ok (tabled, table [])
unfolding get_data view_data cached do_filter derive_point_to_points derive_local_ips
empty_table = refl

get_data_repeats_example :
    get_data true (record tabled { store = http_filters })
    ≡ ok (record tabled { store = http_filters }, table [])
get_data_repeats_example = get_data_repeats fresh tabled [] true http_filters refl empty_table

abbrev sample_pair : PointToPoint
sample_pair = record {
  local_ip = codes "10.0.0.1";
  remote_ip = codes "8.8.8.8";
  counts = no_counts;
}

abbrev sample_local : LocalRow
sample_local = record {
  local_ip = codes "10.0.0.1";
  connections = 1;
  sessions = 0;
  tcp_ports = 0;
  tcp_packets = 0;
  tcp_octets = 0;
  udp_ports = 0;
  udp_packets = 0;
  udp_octets = 0;
  all_packets = 0;
  all_octets = 0;
}

-- A table of nothing twice, and an error once a log is there
abbrev commands : List Command
commands = asks ∷ by_threshold 5 ∷ asks ∷ by_threshold 0 ∷ asks ∷ adds log_bytes ∷ asks ∷ []

run_refines_example : run commands fresh ≡ run_plain commands (plain_of fresh)
run_refines_example = run_refines commands fresh (inl refl)
