-- ===== src/Model/Filter/Keeps.antt =====
-- What `do_filter` drops: nothing.
use pna.Base.{
  ◌≡◌, ap, ◌∙◌, List, [], ◌∷◌, ◌++◌, append_assoc, append-nil, map, All, true, false, string_eq,
  arith, String, none, some, ok, err, attribute_error, Option-cases, inl, inr,
}
use pna.Base.Dict.{Dict, lookup}
use pna.Base.Text.{Text}
use pna.Base.Value.{Value, rows, Entry, Log, get_rows, field, Has}
use pna.Model.Pattern.{accepts, latest_re}
use pna.Model.Filter.{
  Filters, filter_reject, reject_unmatched, keep_flow, filter_flows, filtered_item, filter_item,
  filter_items, do_filter,
}

-- The names that `do_filter` asks for. They are spelt with an underscore, and only 'latest' is the
-- name of a filter.
module _ {R : Type 0} (filters : Filters) (value : Value R) where
  pub filter_reject-end_time : filter_reject filters "end_time" value ≡ ok false
  unfolding filter_reject
  filter_reject-end_time = ground arith

  pub filter_reject-local_ip : filter_reject filters "local_ip" value ≡ ok false
  unfolding filter_reject
  filter_reject-local_ip = ground arith

  pub filter_reject-remote_ip : filter_reject filters "remote_ip" value ≡ ok false
  unfolding filter_reject
  filter_reject-remote_ip = ground arith

  pub filter_reject-begin_time : filter_reject filters "begin_time" value ≡ ok false
  unfolding filter_reject
  filter_reject-begin_time = ground arith

module _ {R : Type 0} where
  abbrev pub rows_at : String → Dict String (Value R) → List R
  rows_at k d = elim (field k d) [ rows l ↦ l | _ ↦ [] ]

-- What the loops read of a flow and of a log.
pub record IsFlow (flow : Entry) : Type 0 where
  pub local_ip : Has "local_ip" flow
  pub remote_ip : Has "remote_ip" flow
  pub begin_time : Has "begin_time" flow

pub record IsLog (item : Log) : Type 0 where
  pub start_time : Has "start_time" item
  pub end_time : Has "end_time" item
  pub nentries : Has "nentries" item
  pub flows : get_rows "flows" item ≡ ok (rows_at "flows" item)
  pub all_flows : All IsFlow (rows_at "flows" item)

-- The item with its count renamed.
abbrev pub renamed : Log → Log
renamed item =
    ("start_time", field "start_time" item)
    ∷ ("end_time", field "end_time" item)
    ∷ ("entries", field "nentries" item)
    ∷ ("flows", rows (rows_at "flows" item))
    ∷ []

keep_flow_lem : (filters : Filters) (flow : Entry) → IsFlow flow → keep_flow filters flow ≡ ok true
unfolding keep_flow
keep_flow_lem filters flow has = rw (
  has.local_ip,
  has.remote_ip,
  has.begin_time,
  filter_reject-local_ip filters,
  filter_reject-remote_ip filters,
  filter_reject-begin_time filters,
)

filter_flows_lem :
    (filters : Filters) (flows done : List Entry)
    → All IsFlow flows
    → filter_flows filters flows done ≡ ok (done ++ flows)
unfolding filter_flows
filter_flows_lem filters [] done h = rw append-nil
filter_flows_lem filters (flow ∷ flows) done (h, hs) = rw (keep_flow_lem filters flow h) (
    filter_flows_lem filters flows (done ++ flow ∷ []) hs
    ∙ ap ok (append_assoc done (flow ∷ []) flows))

-- The value of the 'latest' filter, if it is set, is one that its expression accepts.
abbrev pub LatestAccepted : Filters → Type 0
LatestAccepted filters = elim (lookup "latest" filters) [
  | none ↦ Unit
  | some f ↦ accepts latest_re f ≡ true
]

filter_reject-latest :
    {R : Type 0} (filters : Filters) (value : Value R)
    → LatestAccepted filters
    → filter_reject filters "latest" value ≡ ok false
unfolding filter_reject
filter_reject-latest filters value h = elim (Option-cases (lookup "latest" filters)) [
  | inl unset ↦ rw (unset, filter_reject)
  | inr (f, set) ↦
      let accepted : accepts latest_re f ≡ true = rw (set, LatestAccepted) at h in
      rw (set, filter_reject, accepted, reject_unmatched)
]

filter_reject-latest_error :
    {R : Type 0} (filters : Filters) (f : Text) (value : Value R)
    → lookup "latest" filters ≡ some f
    → accepts latest_re f ≡ false
    → filter_reject filters "latest" value ≡ err attribute_error
unfolding filter_reject
filter_reject-latest_error filters f value set refused =
    rw (set, filter_reject, refused, reject_unmatched)

filter_item_lem :
    (filters : Filters) (item : Log)
    → LatestAccepted filters
    → IsLog item
    → filter_item filters item ≡ ok (renamed item ∷ [])
unfolding filter_item
filter_item_lem filters item latest has = rw (
  has.start_time,
  has.end_time,
  filter_reject-end_time filters,
  filter_reject-latest filters _ latest,
  filtered_item,
  has.flows,
  filter_flows_lem filters _ [] has.all_flows,
  has.nentries,
)

filter_items_lem :
    (filters : Filters) (items done : List Log)
    → LatestAccepted filters
    → All IsLog items
    → filter_items filters items done ≡ ok (done ++ map renamed items)
unfolding filter_items
filter_items_lem filters [] done latest h = rw append-nil
filter_items_lem filters (item ∷ items) done latest (h, hs) =
    rw (filter_item_lem filters item latest h) (
      filter_items_lem filters items (done ++ renamed item ∷ []) latest hs
      ∙ ap ok (append_assoc done (renamed item ∷ []) (map renamed items)))

-- Unless a set latest filter has a value that its expression does not accept, do_filter keeps every
-- log and every flow of logs that have the fields it reads, whatever filters are set, and renames
-- nentries.
pub do_filter_keeps :
    (filters : Filters) (items : List Log)
    → LatestAccepted filters
    → All IsLog items
    → do_filter filters items ≡ ok (map renamed items)
unfolding do_filter
do_filter_keeps filters items = filter_items_lem filters items []

-- With a value of latest that its expression does not accept, the first log, if it has the fields
-- do_filter reads, makes do_filter raise AttributeError.
pub do_filter_raises :
    (filters : Filters) (f : Text) (item : Log) (items : List Log)
    → lookup "latest" filters ≡ some f
    → accepts latest_re f ≡ false
    → IsLog item
    → do_filter filters (item ∷ items) ≡ err attribute_error
unfolding do_filter
do_filter_raises filters f item items set refused has = rw (
  has.start_time,
  has.end_time,
  filter_reject-end_time filters,
  filter_reject-latest_error filters f _ set refused,
)
