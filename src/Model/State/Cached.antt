-- ===== src/Model/State/Cached.antt =====
-- `get_data`'s cache.
use pna.Base.{
  ℕ, ◌≡◌, refl, sym, ap, subst, ◌∙◌, List, [], ◌∷◌, ◌++◌, Bool, true, false, ◌==◌, text_eq, nat_eq,
  string_eq, arith, String, Option, none, some, ok, ◌>>=◌, >>=-eq-ok, ok-injective,
}
use pna.Base.Dict.{lookup, insert}
use pna.Base.Text.{Text}
use pna.Base.Value.{Log, rows, as_log}
use pna.Struct.{Bytes}
use pna.LogFile.{init, parse}
use pna.Model.Filter.{Filters, do_filter}
use pna.Model.Rank.{ranked}
use pna.Model.State.{
  SortKey, raw, connections, sessions, column, same_sort_key, name_code, Row, row_value, Output,
  table, Cache, PnaModel, cached, differ, same_filters, filter_names, get_data, view_data, view_for,
  rank_and_store, rows_for, add_file, flatten,
}

nat_same : (n : ℕ) → (n == n) ≡ true
nat_same n = (nat_eq.beq_iff n n).1 refl

same_sort_key_refl : (k : SortKey) → same_sort_key k k ≡ true
same_sort_key_refl raw = refl
same_sort_key_refl connections = refl
same_sort_key_refl sessions = refl
same_sort_key_refl (column n) = nat_same (name_code n)

differ_same : (o : Option Text) → differ o o ≡ false
differ_same none = refl
differ_same (some v) = rw ((text_eq.beq_iff v v).1 refl) refl

pub same_filters_refl : (d : Filters) (fs : List String) → same_filters d d fs ≡ true
unfolding same_filters
same_filters_refl d [] = refl
same_filters_refl d (f ∷ fs) = rw (differ_same (lookup f d)) (same_filters_refl d fs)

-- The cache of a table.
abbrev pub stored : PnaModel → List Row → Cache
stored m rs = record {
  key = some m.sort_key;
  threshold = some m.threshold;
  filters = some m.filters;
  valid = true;
  contents = some rs;
}

pub stored-cached :
    (m : PnaModel) (rs : List Row) (filters : ℕ → Filters)
    → cached (record m { cache = stored m rs; store = filters }) ≡ ok (some rs)
unfolding cached
stored-cached m rs filters = rw (
  same_sort_key_refl m.sort_key,
  nat_same m.threshold,
  same_filters_refl (filters m.filters) filter_names,
)

pub invalid-cached : (m : PnaModel) → m.cache.valid ≡ false → cached m ≡ ok none
unfolding cached
invalid-cached m h = ground arith

-- The rows of a table.
abbrev table_rows : Output → List Row
table_rows (table rs) = rs
table_rows _ = []

pub rank_and_store-stored :
    (m m' : PnaModel) (rs : List Row) (all_rows : List Row)
    → rank_and_store m all_rows ≡ ok (m', table rs)
    → m' ≡ record m { cache = stored m rs }
unfolding rank_and_store
rank_and_store-stored m m' rs all_rows h =
    let (out, ranks, whole) = >>=-eq-ok (ranked (row_value m.sort_key) m.threshold all_rows) _ h in
    let both : (record m { cache = stored m out }, table out) ≡ (m', table rs) =
      ok-injective whole in
    let same : out ≡ rs = ap (λ p. table_rows p.1) both in
    sym (ap (λ p. p.0) both) ∙ ap (λ l. record m { cache = stored m l }) same

pub table_for-stored :
    (key : SortKey) (m m' : PnaModel) (rs : List Row) (items : List Log)
    → (rows_for key items >>= rank_and_store m) ≡ ok (m', table rs)
    → m' ≡ record m { cache = stored m rs }
table_for-stored key m m' rs items h =
    let (all_rows, _, later) = >>=-eq-ok (rows_for key items) (rank_and_store m) h in
    rank_and_store-stored m m' rs all_rows later

view_for-stored :
    (key : SortKey) (m m' : PnaModel) (rs : List Row) (items : List Log)
    → view_for key m items ≡ ok (m', table rs)
    → m' ≡ record m { cache = stored m rs }
unfolding view_for
view_for-stored raw m m' rs items h = let (es, _, later) = >>=-eq-ok (flatten items) _ h in cc
view_for-stored connections m m' rs items h = table_for-stored connections m m' rs items h
view_for-stored sessions m m' rs items h = table_for-stored sessions m m' rs items h
view_for-stored (column n) m m' rs items h = table_for-stored (column n) m m' rs items h

fresh-stored :
    (m m' : PnaModel) (rs : List Row)
    → m.cache.valid ≡ false
    → get_data false m ≡ ok (m', table rs)
    → m' ≡ record m { cache = stored m rs }
unfolding get_data view_data
fresh-stored m m' rs h r =
    let r1 : (do_filter (m.store m.filters) m.all_data >>= view_data m) ≡ ok (m', table rs) =
      rw (invalid-cached m h) at r in
    let (items, _, later) = >>=-eq-ok (do_filter (m.store m.filters) m.all_data) _ r1 in
    view_for-stored m.sort_key m m' rs items later

-- After a call of get_data that computed a table (the cache was not valid), every further call
-- returns the same table and leaves the object as it is, also with raw, and whatever the dicts of
-- filters hold by then.
pub get_data_repeats :
    (m m' : PnaModel) (rs : List Row) (as_raw : Bool) (filters : ℕ → Filters)
    → m.cache.valid ≡ false
    → get_data false m ≡ ok (m', table rs)
    → get_data as_raw (record m' { store = filters }) ≡ ok (record m' { store = filters }, table rs)
unfolding get_data
get_data_repeats m m' rs as_raw filters h r =
    subst
      (λ n.
        get_data as_raw (record n { store = filters })
        ≡ ok (record n { store = filters }, table rs))
      (sym (fresh-stored m m' rs h r)) (rw (stored-cached m rs filters))

-- Adding a file without an exception appends one log, changes no setting, and makes the next
-- get_data compute its result from the logs.
pub add_file_lem :
    (bytes : Bytes) (m m' : PnaModel)
    → add_file bytes m ≡ ok m'
    → (item : Log) × (m'.all_data ≡ m.all_data ++ item ∷ [])
      × (cached m' ≡ ok none)
      × (m' ≡ record m { all_data = m'.all_data; cache = record m.cache { valid = false } })
unfolding add_file
add_file_lem bytes m m' h =
    let (file_data, _, later) = >>=-eq-ok (init bytes) _ h in
    let ((flows, p), _, later') = >>=-eq-ok (parse file_data) _ later in
    let item = insert "flows" (rows flows) (as_log file_data.header) in
    let whole : record m {
      all_data = m.all_data ++ item ∷ [];
      cache = record m.cache { valid = false };
    }
        ≡ m' =
      ok-injective later' in
    rw (← whole) (item, refl, invalid-cached _ refl, refl)
