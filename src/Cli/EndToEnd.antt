-- ===== src/Cli/EndToEnd.antt =====
-- A log that is written, and then printed by cli.py.
use pna.Base.{ℕ, ◌≡◌, sym, subst, All, List, [], ◌∷◌, ◌++◌, map, true, false, string_eq, ok}
use pna.Base.Dict.{insert}
use pna.Base.Value.{Value, num, rows, Tuple, Log, as_log}
use pna.Struct.{Bytes}
use pna.LogFile.{entry_v2, header_v2, as_dict}
use pna.LogFile.RoundTrip.{write_v2, values_v2, init-write_v2}
use pna.Model.Filter.Keeps.{IsLog}
use pna.Model.State.{PnaModel, logs, add_file}
use pna.Cli.{Options, is_format, interact, prints, add_files}
use pna.Cli.Unfiltered.{interact_unfiltered}

abbrev pub added : List Log → Log → PnaModel → PnaModel
added before item m = record m {
  all_data = before ++ item ∷ [];
  cache = record m.cache { valid = false };
}

-- The log as the model keeps it.
abbrev pub item_v2 : ℕ → ℕ → ℕ → List (List (Value Tuple)) → Log
item_v2 start end count vss =
    insert "flows" (rows (map (as_dict entry_v2) vss))
      (as_log (as_dict header_v2 (values_v2 start end count)))

add_files-write_v2 :
    (start end count : ℕ) (vss : List (List (Value Tuple))) (bytes : Bytes) (m : PnaModel)
    → write_v2 start end count vss ≡ ok bytes
    → add_files (bytes ∷ []) m ≡ ok (added m.all_data (item_v2 start end count vss) m)
unfolding add_files add_file
add_files-write_v2 start end count vss bytes m h =
    let (made, parsed) = init-write_v2 start end count vss h in rw (made, parsed)

-- Whatever version 2 log is written field by field with struct.pack, interact, with a format that
-- the tool has and a model without logs and without a valid cache, prints that log alone, with its
-- times, its count and exactly the written flows in order, whatever filters the options give.
pub interact-write_v2 :
    (o : Options) (m : PnaModel) (start end count : ℕ) (vss : List (List (Value Tuple)))
    (bytes : Bytes)
    → is_format o.format ≡ true
    → m.all_data ≡ []
    → m.cache.valid ≡ false
    → write_v2 start end count vss ≡ ok bytes
    → interact o (bytes ∷ []) m
      ≡ ok (
          prints o.format (
            logs (
              (("start_time", num start)
                ∷ ("end_time", num end)
                ∷ ("entries", num count)
                ∷ ("flows", rows (map (as_dict entry_v2) vss))
                ∷ [])
              ∷ [])))
interact-write_v2 o m start end count vss bytes known none_yet invalid h =
    interact_unfiltered o bytes [] m (added [] (item_v2 start end count vss) m) known
      (subst (All IsLog) (sym none_yet) tt) invalid
      (subst (λ l. add_files (bytes ∷ []) m ≡ ok (added l (item_v2 start end count vss) m)) none_yet
        (add_files-write_v2 start end count vss bytes m h))
