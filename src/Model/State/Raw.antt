-- ===== src/Model/State/Raw.antt =====
-- What `get_data` returns once logs are loaded.
use pna.Base.{
  ◌≡◌, refl, ap, ◌∙◌, List, [], ◌∷◌, map, All, true, false, string_eq, String, ok, err, key_error,
}
use pna.Base.Value.{Log}
use pna.Model.Filter.{do_filter}
use pna.Model.Filter.Keeps.{IsLog, renamed, LatestAccepted, do_filter_keeps}
use pna.Model.Rank.{sorted}
use pna.Model.Derive.{derive_point_to_points}
use pna.Model.State.{
  PnaModel, SortKey, raw, connections, sessions, column, logs, get_data, view_data, view_for,
  flatten,
}
use pna.Model.State.Cached.{invalid-cached}

-- If nothing is cached and all logs are well-formed, get_data(raw=True) returns all the logs with
-- all their flows, whatever filters are set (but for a latest that its expression does not accept).
pub get_data_raw :
    (m : PnaModel)
    → m.cache.valid ≡ false
    → LatestAccepted (m.store m.filters)
    → All IsLog m.all_data
    → get_data true m ≡ ok (m, logs (map renamed m.all_data))
unfolding get_data
get_data_raw m h latest loaded =
    rw (invalid-cached m h, do_filter_keeps (m.store m.filters) m.all_data latest loaded)

no_watch_data :
    (item : Log) (items : List Log)
    → derive_point_to_points (renamed item ∷ items) ≡ err (key_error "watch-data")
unfolding derive_point_to_points
no_watch_data item items = refl

no_end_time :
    (item : Log) (items : List Log)
    → flatten (renamed item ∷ map renamed items) ≡ err (key_error "end-time")
unfolding flatten sorted
no_end_time item [] = refl
no_end_time item (next ∷ items) = refl

-- The key that the branch of a sort key misses first.
abbrev pub missing_key : SortKey → String
missing_key raw = "end-time"
missing_key _ = "watch-data"

view_for_raises :
    (key : SortKey) (m : PnaModel) (item : Log) (items : List Log)
    → view_for key m (renamed item ∷ map renamed items) ≡ err (key_error (missing_key key))
unfolding view_for
view_for_raises raw m item items = rw (no_end_time item items)
view_for_raises connections m item items = rw (no_watch_data item (map renamed items))
view_for_raises sessions m item items = rw (no_watch_data item (map renamed items))
view_for_raises (column n) m item items = rw (no_watch_data item (map renamed items))

-- With at least one log loaded, all logs having the fields do_filter reads, nothing cached, and no
-- latest filter that its expression refuses, get_data() raises KeyError under every sort key: at
-- end-time for raw, and at watch-data for all others.
pub get_data_raises :
    (m : PnaModel) (item : Log) (items : List Log)
    → m.cache.valid ≡ false
    → LatestAccepted (m.store m.filters)
    → m.all_data ≡ item ∷ items
    → All IsLog m.all_data
    → get_data false m ≡ err (key_error (missing_key m.sort_key))
unfolding get_data view_data
get_data_raises m item items h latest all loaded =
    let kept : do_filter (m.store m.filters) m.all_data ≡ ok (renamed item ∷ map renamed items) =
      do_filter_keeps (m.store m.filters) m.all_data latest loaded
      ∙ ap (λ l. ok (map renamed l)) all in
    rw (invalid-cached m h, kept, view_for_raises m.sort_key m item items)
