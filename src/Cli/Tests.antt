-- ===== src/Cli/Tests.antt =====
-- cli.py on the sample log, with a filter that no flow of it passes.
use pna.Base.{◌≡◌, refl, [], ◌∷◌, true, false, string_eq, none, some, ok}
use pna.Base.Text.{codes}
use pna.Base.Dict.{insert}
use pna.Base.Value.{rows, as_log, Log}
use pna.Struct.{unpack_from}
use pna.LogFile.{init, parse, parse_entry, complete}
use pna.Model.Filter.Keeps.{renamed}
use pna.Model.State.{PnaModel, sessions, logs, add_file}
use pna.Cli.{Options, interact, prints, add_files}
use pna.LogFile.{entry_v2, as_dict}
use pna.LogFile.RoundTrip.{write_v2}
use pna.Struct.{pack}
use pna.Base.Value.{num}
use pna.Base.{map}
use pna.Samples.{session}
use pna.Cli.EndToEnd.{interact-write_v2}
use pna.Base.Text.{show}
use pna.Cli.Flow.Table.{header, all_rows}
use pna.Cli.Main.{Library, main, printed, main-flow_format}
use pna.Samples.{log_bytes, reader, session_entry}

abbrev options : Options
options = record {
  format = "json";
  local_ip = some (codes "1.1.1.1");
  remote_ip = none;
  begin_time = none;
  end_time = some (codes "1999");
}

abbrev empty_model : PnaModel
empty_model = record {
  sort_key = sessions;
  threshold = 0;
  filters = 0;
  all_data = [];
  cache = record { key = none; threshold = none; filters = none; valid = false; contents = none };
  store = λ r. [];
  next = 1;
}

abbrev sample_item : Log
sample_item = insert "flows" (rows (session_entry ∷ [])) (as_log reader.header)

loaded :
    add_files (log_bytes ∷ []) empty_model ≡ ok (record empty_model { all_data = sample_item ∷ [] })
unfolding add_files add_file init parse unpack_from parse_entry complete
loaded = refl

written_sample : write_v2 100 110 1 (session ∷ []) ≡ ok log_bytes
unfolding write_v2 pack
written_sample = refl

interact-write_v2_example :
    interact options (log_bytes ∷ []) empty_model
    ≡ ok (
        prints "json" (
          logs (
            (("start_time", num 100)
              ∷ ("end_time", num 110)
              ∷ ("entries", num 1)
              ∷ ("flows", rows (map (as_dict entry_v2) (session ∷ [])))
              ∷ [])
            ∷ [])))
interact-write_v2_example =
    interact-write_v2 options empty_model 100 110 1 (session ∷ []) log_bytes refl refl refl
      written_sample

abbrev library : Library
library = record {
  local_time = show;
  print_text = λ out. codes "[...]";
  dumps = λ out. codes "[]";
  has_json = true;
}

main-flow_format_example :
    main library (record options { format = "flow" }) (log_bytes ∷ []) empty_model
    ≡ ok (printed (header ∷ all_rows show (map renamed (sample_item ∷ []))))
main-flow_format_example =
    main-flow_format library (record options { format = "flow" }) log_bytes [] empty_model
      (record empty_model { all_data = sample_item ∷ [] }) refl refl refl loaded
