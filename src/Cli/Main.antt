-- ===== src/Cli/Main.antt =====
-- util/intop/cli.py: `main`, and the three formats. What Python and json write for the data, and the
-- local time, are parameters.
use pna.Base.{
  ℕ, ◌≡◌, refl, subst, sym, List, [], ◌∷◌, map, All, Bool, true, false, ◌==◌, string_eq,
  if◌then◌else◌, String, Result, ok, ◌>>=◌,
}
use pna.Base.Text.{Text, codes}
use pna.Base.Value.{Log, as_log}
use pna.Struct.{Bytes}
use pna.Model.Filter.Keeps.{renamed, IsLog}
use pna.Model.State.{PnaModel, Output, logs, flat, table}
use pna.Model.State.Dicts.{row_dict}
use pna.Cli.{Options, usage, prints, interact, add_files, is_format}
use pna.Cli.Flow.{flow_format}
use pna.Cli.Flow.Table.{header, all_rows, flow_format-add_files}
use pna.Cli.Unfiltered.{interact_unfiltered}

-- `print data`, `json.dumps(data)` and `time.localtime`; `has_json` after the import of json.
pub record Library : Type 0 where
  pub local_time : ℕ → Text
  pub print_text : Output → Text
  pub dumps : Output → Text
  pub has_json : Bool

-- The data as a list of dicts
abbrev pub dicts : Output → List Log
dicts (logs ls) = ls
dicts (flat es) = map as_log es
dicts (table rs) = map (λ r. as_log (row_dict r)) rs

-- The program prints lines, or the usage and ends with code 1.
pub data Run : Type 0 where
  exits_1 : Run
  printed : List Text → Run

module _ (py : Library) where
  unfoldable pub json_format : Output → List Text
  json_format data' = (if py.has_json then py.dumps data' else codes "json unavailable") ∷ []

  unfoldable pub python_format : Output → List Text
  python_format data' = py.print_text data' ∷ []

  -- `getattr(self, options.format+'_format')`, of a format that is there
  unfoldable pub print_format : String → Output → Result (List Text)
  unfolding json_format python_format
  print_format format data' =
      if format == "flow"
      then flow_format py.local_time (dicts data')
      else if format == "json"
      then ok (json_format data')
      else ok (python_format data')

  -- `main`, with what `PNAModel()` returns
  unfoldable pub main : Options → List Bytes → PnaModel → Result Run
  unfolding print_format
  main o files m = do
    ending ← interact o files m
    elim ending [
      | usage ↦ ok exits_1
      | prints format data' ↦ do lines ← print_format format data'; ok (printed lines)
    ]

  -- With the format flow, at least one file, files that add_file reads, and a model without logs
  -- and without a valid cache, the program raises no exception and prints the header and then one
  -- line for each flow of the logs, in order: its begin time, the start of its log, the local
  -- address and port as the source, the remote ones as the destination, the protocol, the flags of
  -- both sides and the sums of packets and octets, each in its column, whatever filters the options
  -- give.
  pub main-flow_format :
      (o : Options) (file : Bytes) (files : List Bytes) (m m' : PnaModel)
      → o.format ≡ "flow"
      → m.all_data ≡ []
      → m.cache.valid ≡ false
      → add_files (file ∷ files) m ≡ ok m'
      → main o (file ∷ files) m
        ≡ ok (printed (header ∷ all_rows py.local_time (map renamed m'.all_data)))
  unfolding main
  main-flow_format o file files m m' flow none_yet invalid added =
      let known : is_format o.format ≡ true = rw flow refl in
      let none_wrong = subst (All IsLog) (sym none_yet) tt in
      let shown = interact_unfiltered o file files m m' known none_wrong invalid added in
      rw (shown, flow, flow_format-add_files py.local_time (file ∷ files) m m' none_yet added) refl
