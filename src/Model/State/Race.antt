-- ===== src/Model/State/Race.antt =====
-- util/intop/model.py: `add_file` in the watcher's thread, between the two halves of a `get_data`.
use pna.Base.{◌≡◌, sym, subst, List, [], ◌∷◌, ◌++◌, Bool, ok, ◌>>=◌}
use pna.Base.Value.{Log}
use pna.Struct.{Bytes}
use pna.Model.Filter.{do_filter}
use pna.Model.State.{Row, table, PnaModel, get_data, rank_and_store, rows_for, add_file}
use pna.Model.State.Cached.{stored, stored-cached, rank_and_store-stored, add_file_lem}

-- A file that is added between the two halves of a get_data is in the logs, and stays hidden: later
-- calls return the rows of before.
pub get_data-add_file :
    (file : Bytes) (m m' m'' : PnaModel) (all_rows rs : List Row) (as_raw : Bool)
    → (do_filter (m.store m.filters) m.all_data >>= rows_for m.sort_key) ≡ ok all_rows
    → add_file file m ≡ ok m'
    → rank_and_store m' all_rows ≡ ok (m'', table rs)
    → ((item : Log) × (m''.all_data ≡ m.all_data ++ item ∷ []))
      × (get_data as_raw m'' ≡ ok (m'', table rs))
unfolding get_data
get_data-add_file file m m' m'' all_rows rs as_raw read added kept =
    let (item, all, _, _) = add_file_lem file m m' added in
    let same : m'' ≡ record m' { cache = stored m' rs } =
      rank_and_store-stored m' m'' rs all_rows kept in
    subst
      (λ n.
        ((item : Log) × (n.all_data ≡ m.all_data ++ item ∷ []))
        × (get_data as_raw n ≡ ok (n, table rs)))
      (sym same) ((item, all), rw (stored-cached m' rs m'.store))
