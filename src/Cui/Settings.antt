-- ===== src/Cui/Settings.antt =====
-- util/intop/cui.py: `SettingsWindow.set_threshold`, and what `view_filters` writes.
pub mod Threshold
pub mod Accepted
pub mod Dialog
pub mod Stays
pub mod Refused
pub mod View
use pna.Base.{
  ℕ, List, [], ◌∷◌, Bool, true, false, ◌||◌, ltb, if◌then◌else◌, Option, none, some, Result, ok,
  err, stuck, ◌>>=◌, String, string_eq,
}
use pna.Base.Int.{ℤ, pos, negsuc}
use pna.Base.Dict.{Dict, lookup, insert, erase, contains}
use pna.Base.Text.{Text, codes, show, int}
use pna.Model.Filter.{Filters}
use pna.Model.State.{PnaModel}
use pna.Cui.Keys.{Key}
use pna.Cui.Edit.{Step, going, returns, get_value}

abbrev pub digits : Text
digits = codes "0123456789"

abbrev pub max_threshold : ℕ
max_threshold = 4294967295

-- "parse the value into number": '' stands for '0'. The text has no sign.
unfoldable pub read_threshold : Text → Result ℕ
read_threshold value = do
  n ← int (elim value [ [] ↦ codes "0" | c ∷ cs ↦ c ∷ cs ])
  elim n [ pos k ↦ ok (if ltb max_threshold k then max_threshold else k) | negsuc k ↦ stuck ]

-- `set_threshold`; none while the field waits for keys.
unfoldable pub set_threshold : List (Option Key) → PnaModel → Result (Option PnaModel)
unfolding read_threshold
set_threshold keys m = do
  step ← get_value 15 (show m.threshold) digits keys
  elim step [
    | going l ↦ ok none
    | returns value ↦ do n ← read_threshold value; ok (some (record m { threshold = n }))
  ]

-- `if filter in settings['filters']: del settings['filters'][filter]`
unfoldable pub clear_filter : String → Filters → Filters
clear_filter filter filters = if contains filter filters then erase filter filters else filters

-- What the dialog writes into `settings['filters']`.
unfoldable pub store_filter : String → Text → Filters → Filters
unfolding clear_filter
store_filter filter [] filters = clear_filter filter filters
store_filter filter (c ∷ cs) filters = insert filter (c ∷ cs) filters
