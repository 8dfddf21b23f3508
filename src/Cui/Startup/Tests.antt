-- ===== src/Cui/Startup/Tests.antt =====
-- The start of cui.py on a directory with one log.
use pna.Base.{
  ◌≡◌, refl, List, [], ◌∷◌, true, false, none, some, ok, err, key_error, value_error, inl, inr,
  arith, text_eq, nat_eq, string_eq, if◌then◌else◌, ◌==◌,
}
use pna.Base.Text.{Text, codes}
use pna.Base.Dict.{insert}
use pna.Base.Value.{Log, rows, as_log}
use pna.Samples.{log_bytes, reader, session_entry}
use pna.Struct.{Bytes, unpack_from}
use pna.LogFile.{init, parse, parse_entry, complete}
use pna.Model.State.{PnaModel, sessions, add_file}
use pna.Cli.{add_files}
use pna.Cui.Times.{
  DateTime, Groups, is_valid, not_after, begin_of, end_of, begin_time, end_time, search,
}
use pna.Cui.Times.Stamp.{stamp, begin_time-end_time}
use pna.Cui.Times.{match_groups, read_digits, optional_groups, read_optional}
use pna.Cui.Times.{days_in}
use pna.Cui.Times.Window.{Fits, begin_of-end_of}
use pna.Cui.Startup.{Environment, Arguments, add_data, cui_main}
use pna.Cui.Startup.Selected.{Selects, add_data-add_files}
use pna.Cui.Startup.Raises.{cui_main_raises, add_data_december}

abbrev groups : Groups
groups = record {
  year = 2012;
  month = 2;
  day = none;
  hour = none;
  minute = none;
  second = none;
  microsecond = none;
}

abbrev first : DateTime
first = record {
  year = 2012;
  month = 2;
  day = 1;
  hour = 0;
  minute = 0;
  second = 0;
  microsecond = 0;
}

abbrev last : DateTime
last = record {
  year = 2012;
  month = 2;
  day = 29;
  hour = 23;
  minute = 59;
  second = 59;
  microsecond = 999999;
}

-- The text gives a year and a month; the year has 29 days in February.
read_text : search (codes "from 201202") ≡ some groups
unfolding search match_groups read_digits optional_groups read_optional
read_text = refl

begins : begin_of groups ≡ ok first
unfolding begin_of
begins = refl

ends : end_of groups ≡ ok last
unfolding end_of
ends = refl

begin_of-end_of_example :
    Fits groups first
    × Fits groups last
    × ((e : DateTime) → is_valid e ≡ true → Fits groups e → not_after first e ≡ true)
    × ((e : DateTime) → is_valid e ≡ true → Fits groups e → not_after e last ≡ true)
begin_of-end_of_example = begin_of-end_of groups groups first last begins ends

begin_time-end_time_example :
    (begin_time (some (stamp last)) first ≡ ok last)
    × (end_time (some (stamp last)) first ≡ ok last)
unfolding days_in
begin_time-end_time_example = begin_time-end_time last first refl (omega arith)

abbrev log_dir : Text
log_dir = codes "d/"

-- A hidden file, and a log
abbrev env : Environment
env = record {
  begin_today = first;
  end_today = last;
  listdir = λ dir. codes ".x" ∷ codes "a" ∷ [];
  file = λ name.
      if name == codes "d/a" then some (record { modified = last; contents = log_bytes }) else none;
}

abbrev plain_model : PnaModel
plain_model = record {
  sort_key = sessions;
  threshold = 0;
  filters = 0;
  all_data = [];
  cache = record { key = none; threshold = none; filters = none; valid = false; contents = none };
  store = λ r. [];
  next = 1;
}

from : begin_time (some (codes "201202")) first ≡ ok first
unfolding begin_time
from = refl

until : end_time none last ≡ ok last
unfolding end_time
until = refl

add_data-add_files_example :
    (files : List Bytes) × Selects env log_dir first last (codes ".x" ∷ codes "a" ∷ []) files
    × (add_data env log_dir (some (codes "201202")) none plain_model ≡ add_files files plain_model)
add_data-add_files_example =
    add_data-add_files env log_dir (some (codes "201202")) none first last plain_model from until
      (omega arith, omega arith, omega arith, omega arith, omega arith, omega arith)
      (omega arith, omega arith, omega arith, omega arith, omega arith, omega arith)
      (
        inl (codes "x", refl),
        (
          inr (
            record { modified = last; contents = log_bytes },
            refl,
            (omega arith, omega arith, omega arith, omega arith, omega arith, omega arith),
          ),
          tt,
        ),
      )

abbrev arguments : Arguments
arguments = record {
  directory = some log_dir;
  static = none;
  begin = some (codes "201202");
  end_option = none;
  args = [];
}

abbrev sample_item : Log
sample_item = insert "flows" (rows (session_entry ∷ [])) (as_log reader.header)

abbrev loaded : PnaModel
loaded = record plain_model { all_data = sample_item ∷ [] }

loads : add_data env log_dir arguments.begin arguments.end_option plain_model ≡ ok loaded
unfolding add_data add_file init parse unpack_from parse_entry complete begin_time end_time
loads = refl

cui_main_raises_example : cui_main env arguments 20 80 plain_model ≡ err (key_error "watch-data")
cui_main_raises_example =
    cui_main_raises env arguments b'd' (codes "/") 20 80 plain_model loaded sample_item [] refl refl
      (record { fit = tt; small = omega arith; loaded = tt }) refl loads refl

abbrev december : Groups
december = record groups { year = 2011; month = 12; day = some 24 }

-- 290 seconds before the first of February
abbrev before : DateTime
before = record {
  year = 2012;
  month = 1;
  day = 31;
  hour = 23;
  minute = 55;
  second = 10;
  microsecond = 0;
}

before_lem : begin_time none first ≡ ok before
unfolding begin_time
before_lem = refl

december_text : search (codes "20111224") ≡ some december
unfolding search match_groups read_digits optional_groups read_optional
december_text = refl

add_data_december_example :
    add_data env log_dir none (some (codes "20111224")) plain_model ≡ err value_error
add_data_december_example =
    add_data_december env log_dir (codes "20111224") none before december plain_model before_lem
      december_text refl
