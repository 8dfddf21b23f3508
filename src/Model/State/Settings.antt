-- ===== src/Model/State/Settings.antt =====
-- util/intop/model.py: `get_data` changes nothing of the object but its cache.
use pna.Base.{
  ◌≡◌, refl, ap, subst, List, Bool, true, false, if◌then◌else◌, Option, none, some, Result, ok,
  ◌>>=◌, >>=-eq-ok, ok-injective,
}
use pna.Base.Value.{Log}
use pna.Model.Filter.{do_filter}
use pna.Model.Rank.{ranked}
use pna.Model.State.{
  SortKey, raw, connections, sessions, column, Row, row_value, Output, logs, table, PnaModel,
  cached, rank_and_store, rows_for, view_for, view_data, get_data, flatten,
}

abbrev pub IsRefreshed : PnaModel → PnaModel → Type 0
IsRefreshed m n = n ≡ record m { cache = n.cache }

returns-IsRefreshed :
    (m n m' : PnaModel) (out out' : Output)
    → IsRefreshed m n
    → ◌≡◌ {A = Result (PnaModel × Output)} (ok (n, out)) (ok (m', out'))
    → IsRefreshed m m'
returns-IsRefreshed m n m' out out' h e = subst (IsRefreshed m) (ap (λ p. p.0) (ok-injective e)) h

rank_and_store-IsRefreshed :
    (m m' : PnaModel) (all_rows : List Row) (out : Output)
    → rank_and_store m all_rows ≡ ok (m', out)
    → IsRefreshed m m'
unfolding rank_and_store
rank_and_store-IsRefreshed m m' all_rows out h =
    let (rs, _, later) = >>=-eq-ok (ranked (row_value m.sort_key) m.threshold all_rows) _ h in
    returns-IsRefreshed m _ m' _ out refl later

table_for-IsRefreshed :
    (key : SortKey) (m m' : PnaModel) (items : List Log) (out : Output)
    → (rows_for key items >>= rank_and_store m) ≡ ok (m', out)
    → IsRefreshed m m'
table_for-IsRefreshed key m m' items out h =
    let (all_rows, _, later) = >>=-eq-ok (rows_for key items) (rank_and_store m) h in
    rank_and_store-IsRefreshed m m' all_rows out later

view_for-IsRefreshed :
    (key : SortKey) (m m' : PnaModel) (items : List Log) (out : Output)
    → view_for key m items ≡ ok (m', out)
    → IsRefreshed m m'
unfolding view_for
view_for-IsRefreshed raw m m' items out h =
    let (es, _, later) = >>=-eq-ok (flatten items) _ h in
    returns-IsRefreshed m m m' _ out refl later
view_for-IsRefreshed connections m m' items out h =
    table_for-IsRefreshed connections m m' items out h
view_for-IsRefreshed sessions m m' items out h = table_for-IsRefreshed sessions m m' items out h
view_for-IsRefreshed (column n) m m' items out h = table_for-IsRefreshed (column n) m m' items out h

-- A call that returns leaves the settings, the logs and the store as they were.
pub get_data-IsRefreshed :
    (m m' : PnaModel) (as_raw : Bool) (out : Output)
    → get_data as_raw m ≡ ok (m', out)
    → IsRefreshed m m'
unfolding get_data view_data
get_data-IsRefreshed m m' as_raw out h =
    let (hit, _, later) = >>=-eq-ok (cached m) _ h in computed hit as_raw later
  where
    computed :
        (hit : Option (List Row)) (as_raw : Bool)
        → elim hit [
          | some rs ↦ ok (m, table rs)
          | none ↦ do
            items ← do_filter (m.store m.filters) m.all_data
            if as_raw then ok (m, logs items) else view_data m items
        ]
          ≡ ok (m', out)
        → IsRefreshed m m'
    computed (some rs) as_raw e = returns-IsRefreshed m m m' _ out refl e
    computed none true e =
        let (items, _, later) = >>=-eq-ok (do_filter (m.store m.filters) m.all_data) _ e in
        returns-IsRefreshed m m m' _ out refl later
    computed none false e =
        let (items, _, later) = >>=-eq-ok (do_filter (m.store m.filters) m.all_data) _ e in
        view_for-IsRefreshed m.sort_key m m' items out later
