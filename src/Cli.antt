-- ===== src/Cli.antt =====
-- util/intop/cli.py: `CommandLineInterface.interact`, on the options that `optparse` returns, and
-- util/intop/monitor.py: the handler of a new file.
mod Tests
pub mod Flow
pub mod Unfiltered
pub mod EndToEnd
pub mod Main
use pna.Base.{
  ℕ, ◌+◌, List, [], ◌∷◌, ◌++◌, Bool, true, false, ◌||◌, ◌==◌, nat_eq, text_eq, string_eq,
  if◌then◌else◌, String, Option, none, some, Result, ok, ◌>>=◌,
}
use pna.Base.Dict.{insert}
use pna.Base.Text.{Text}
use pna.Struct.{Bytes}
use pna.Model.Filter.{Filters}
use pna.Model.State.{PnaModel, SortKey, raw, Output, add_file, get_data}

-- `options`, of which an option that is not given is None.
pub record Options : Type 0 where
  pub format : String
  pub local_ip : Option Text
  pub remote_ip : Option Text
  pub begin_time : Option Text
  pub end_time : Option Text

-- `if options.x: settings['filters'][name] = options.x`, where an empty text counts as false.
abbrev pub set_filter : String → Option Text → Filters → Filters
set_filter name none filters = filters
set_filter name (some []) filters = filters
set_filter name (some (c ∷ cs)) filters = insert name (c ∷ cs) filters

unfoldable pub option_filters : Options → Filters
option_filters o = set_filter "end-time" o.end_time (
    set_filter "begin-time" o.begin_time
      (set_filter "remote-ip" o.remote_ip (set_filter "local-ip" o.local_ip [])))

-- The part that sets the model up, with a new dict for the filters.
unfoldable pub configure : Options → PnaModel → PnaModel
unfolding option_filters
configure o m = record m {
  sort_key = raw;
  threshold = 0;
  filters = m.next;
  store = λ r. if r == m.next then option_filters o else m.store r;
  next = m.next + 1;
}

-- "Add each file in the list to the model": the bytes of the files. The handler of monitor.py does
-- the same for each file that is created.
unfoldable pub add_files : List Bytes → PnaModel → Result PnaModel
add_files [] m = ok m
add_files (file ∷ files) m = do m' ← add_file file m; add_files files m'

-- `process_IN_CREATE`
unfoldable pub process_in_create : Bytes → PnaModel → Result PnaModel
process_in_create event m = add_file event m

-- The attributes that end in '_format'.
abbrev pub is_format : String → Bool
is_format f = f == "flow" || f == "json" || f == "python"

-- How `interact` ends: with the usage text and exit code 1, or with data for a format.
pub data Ending : Type 0 where
  usage : Ending
  prints : String → Output → Ending

unfoldable pub interact : Options → List Bytes → PnaModel → Result Ending
unfolding configure add_files
interact o files m =
    if is_format o.format
    then elim files [
      | [] ↦ ok usage
      | f ∷ fs ↦ do
        m' ← add_files (f ∷ fs) (configure o m)
        (_, out) ← get_data true m'
        ok (prints o.format out)
    ]
    else ok usage
