-- ===== src/Model/Filter.antt =====
-- util/intop/model.py: `filter_reject` and `do_filter`.
pub mod Accepted
pub mod Keeps
pub mod Total
use pna.Base.{
  ℕ, List, [], ◌∷◌, ◌++◌, Bool, true, false, ◌||◌, ◌==◌, nat_eq, string_eq, if◌then◌else◌, String,
  Option, none, some, Result, ok, err, attribute_error, ◌>>=◌,
}
use pna.Base.Dict.{Dict, lookup}
use pna.Base.Text.{Text}
use pna.Base.Value.{Value, num, text, rows, Tuple, Entry, Log, get, as_num, get_rows}
use pna.Model.Address.{reject_address}
use pna.Model.Pattern.{Re, accepts, regex_of}

-- `settings['filters']`: the values as they were typed.
abbrev pub Filters : Type 0
Filters = Dict String Text

-- What the branches for the times and for 'latest' do with the expression that they found: a match
-- accepts the item, and without a match `match.groups()` is called on None.
unfoldable pub reject_unmatched : Option Re → Text → Result Bool
reject_unmatched none filter = ok false
reject_unmatched (some regex) filter =
    if accepts regex filter then ok false else err attribute_error

module _ {R : Type 0} where
  -- The branches of `filter_reject`, by the filter's name.
  unfoldable pub reject_value : String → Text → Value R → Result Bool
  unfolding reject_unmatched
  reject_value name filter value =
      if name == "local-ip" || name == "remote-ip"
      then (do n ← as_num value; reject_address filter n)
      else if name == "source-port" || name == "destination-port"
      then ok true
      else if name == "begin-time" || name == "end-time" || name == "latest"
      then reject_unmatched (regex_of name) filter
      else ok false

  unfoldable pub filter_reject : Filters → String → Value R → Result Bool
  unfolding reject_value
  filter_reject filters name value = elim (lookup name filters) [
    | none ↦ ok false
    | some filter ↦ reject_value name filter value
  ]

-- The body of the loop over an item's flows: whether the flow is appended.
unfoldable pub keep_flow : Filters → Entry → Result Bool
keep_flow filters flow = do
  local_ip ← get "local_ip" flow
  remote_ip ← get "remote_ip" flow
  begin_time ← get "begin_time" flow
  by_local ← filter_reject filters "local_ip" local_ip
  if by_local then ok false else do
    by_remote ← filter_reject filters "remote_ip" remote_ip
    if by_remote then ok false else do
      by_begin ← filter_reject filters "begin_time" begin_time
      if by_begin then ok false else ok true

unfoldable pub filter_flows : Filters → List Entry → List Entry → Result (List Entry)
unfolding keep_flow
filter_flows filters [] new_flows = ok new_flows
filter_flows filters (flow ∷ flows) new_flows = do
  kept ← keep_flow filters flow
  filter_flows filters flows (if kept then new_flows ++ flow ∷ [] else new_flows)

-- `new_item`, which has the entry count under another name.
unfoldable pub filtered_item : Filters → Value Entry → Value Entry → Log → Result Log
unfolding filter_flows
filtered_item filters start_time end_time item = do
  flows ← get_rows "flows" item
  new_flows ← filter_flows filters flows []
  entries ← get "nentries" item
  ok (
      ("start_time", start_time)
      ∷ ("end_time", end_time)
      ∷ ("entries", entries)
      ∷ ("flows", rows new_flows)
      ∷ [])

-- One round over `all_data`: what the item adds to `new_data`.
unfoldable pub filter_item : Filters → Log → Result (List Log)
unfolding filtered_item
filter_item filters item = do
  start_time ← get "start_time" item
  end_time ← get "end_time" item
  by_end ← filter_reject filters "end_time" end_time
  if by_end then ok [] else do
    by_latest ← filter_reject filters "latest" end_time
    if by_latest
        then ok []
        else do new_item ← filtered_item filters start_time end_time item; ok (new_item ∷ [])

unfoldable pub filter_items : Filters → List Log → List Log → Result (List Log)
unfolding filter_item
filter_items filters [] new_data = ok new_data
filter_items filters (item ∷ items) new_data = do
  added ← filter_item filters item
  filter_items filters items (new_data ++ added)

unfoldable pub do_filter : Filters → List Log → Result (List Log)
unfolding filter_items
do_filter filters all_data = filter_items filters all_data []
