-- ===== src/Model/State/Refines.antt =====
-- util/intop/model.py: `get_data` with its cache against a model that keeps no cache.
pub mod Coherent
pub mod Commands
use pna.Base.{
  ℕ, ◌≡◌, ◌⊎◌, refl, ap, sym, subst, ◌∙◌, List, [], ◌∷◌, ◌++◌, Bool, true, false, ◌&&◌, ◌==◌,
  nat_eq, if◌then◌else◌, Option, none, some, Result, ok, err, stuck, ◌>>=◌, >>=-eq-ok, ok-injective,
  inl, inr, Bool-cases,
}
use pna.Base.Value.{Entry, Log}
use pna.Model.Filter.{Filters, do_filter}
use pna.Model.Rank.{ranked}
use pna.Model.State.{
  SortKey, raw, connections, sessions, column, same_sort_key, name_code, Row, row_value, Output,
  logs, flat, table, Cache, PnaModel, is_key, is_threshold, cached, same_filters, filter_names,
  rank_and_store, rows_for, flatten, view_for, view_data, get_data,
}
use pna.Model.State.Cached.{stored, invalid-cached, same_filters_refl, rank_and_store-stored}

-- The settings and the logs, without a cache.
pub record Plain : Type 0 where
  pub sort_key : SortKey
  pub threshold : ℕ
  pub filters : Filters
  pub all_data : List Log

abbrev pub plain_of : PnaModel → Plain
plain_of m = record {
  sort_key = m.sort_key;
  threshold = m.threshold;
  filters = m.store m.filters;
  all_data = m.all_data;
}

-- The rows of the logs that pass the filters, from the threshold on, in order.
unfoldable pub table_answer : SortKey → ℕ → List Log → Result Output
table_answer key threshold items = do
  all_rows ← rows_for key items
  rs ← ranked (row_value key) threshold all_rows
  ok (table rs)

unfoldable pub view_answer : SortKey → ℕ → List Log → Result Output
unfolding table_answer
view_answer raw threshold items = do es ← flatten items; ok (flat es)
view_answer key threshold items = table_answer key threshold items

-- What `get_data()` is to return.
unfoldable pub answer : Plain → Result Output
unfolding view_answer
answer p = do items ← do_filter p.filters p.all_data; view_answer p.sort_key p.threshold items

-- The result without the object
abbrev pub output_of : Result (PnaModel × Output) → Result Output
output_of r = r >>= λ p. ok p.1

rank_and_store-output :
    (m : PnaModel) (all_rows : List Row)
    → output_of (rank_and_store m all_rows)
      ≡ (do rs ← ranked (row_value m.sort_key) m.threshold all_rows; ok (table rs))
unfolding rank_and_store
rank_and_store-output m all_rows = with_rows (ranked (row_value m.sort_key) m.threshold all_rows)
  where
    with_rows :
        (r : Result (List Row))
        → output_of (do rs ← r; ok (record m { cache = stored m rs }, table rs))
          ≡ (do rs ← r; ok (table rs))
    with_rows (ok rs) = refl
    with_rows (err e) = refl
    with_rows stuck = refl

table-output :
    (key : SortKey) (m : PnaModel) (items : List Log)
    → m.sort_key ≡ key
    → output_of (rows_for key items >>= rank_and_store m) ≡ table_answer key m.threshold items
unfolding table_answer
table-output key m items same = rw (← same) (with_rows (rows_for m.sort_key items))
  where
    with_rows :
        (r : Result (List Row))
        → output_of (r >>= rank_and_store m) ≡ (do
          all_rows ← r
          rs ← ranked (row_value m.sort_key) m.threshold all_rows
          ok (table rs))
    with_rows (ok all_rows) = rank_and_store-output m all_rows
    with_rows (err e) = refl
    with_rows stuck = refl

view_for-output :
    (key : SortKey) (m : PnaModel) (items : List Log)
    → m.sort_key ≡ key
    → output_of (view_for key m items) ≡ view_answer key m.threshold items
unfolding view_for view_answer
view_for-output raw m items same = with_entries (flatten items)
  where
    with_entries :
        (r : Result (List Entry))
        → output_of (do es ← r; ok (m, flat es)) ≡ (do es ← r; ok (flat es))
    with_entries (ok es) = refl
    with_entries (err e) = refl
    with_entries stuck = refl
view_for-output connections m items same = table-output connections m items same
view_for-output sessions m items same = table-output sessions m items same
view_for-output (column n) m items same = table-output (column n) m items same
