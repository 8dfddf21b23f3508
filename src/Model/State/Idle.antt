-- ===== src/Model/State/Idle.antt =====
-- `get_data` of an object without logs.
use pna.Base.{
  ◌≡◌, ◌⊎◌, refl, ℕ, List, [], Bool, true, false, ◌&&◌, if◌then◌else◌, Option, none, some, Result,
  ok, inl, inr,
}
use pna.Model.Derive.{derive_point_to_points, derive_local_ips}
use pna.Model.Filter.{do_filter}
use pna.Model.State.{
  SortKey, raw, connections, sessions, column, Row, Output, flat, table, PnaModel, is_key,
  is_threshold, cached, same_filters, filter_names, rank_and_store, view_for, view_data, get_data,
}
use pna.Model.State.Cached.{stored, invalid-cached}
use pna.Model.State.Dicts.{items}

-- There are no logs, and a valid cache holds an empty table.
abbrev pub IsIdle : PnaModel → Type 0
IsIdle m =
    (m.all_data ≡ [])
    × ((m.cache.valid ≡ false)
        ⊎ ((r : ℕ) × (m.cache.filters ≡ some r) × (m.cache.contents ≡ some [])))

-- A miss, or an empty table
abbrev Looks : Result (Option (List Row)) → Type 0
Looks r = (r ≡ ok none) ⊎ (r ≡ ok (some []))

if-Empty : (b : Bool) (x : Result (Option (List Row))) → Looks x → Looks (if b then x else ok none)
if-Empty true x h = h
if-Empty false x h = inl refl

hit_or_miss : (b : Bool) → Looks (if b then ok (some []) else ok none)
hit_or_miss true = inr refl
hit_or_miss false = inl refl

idle-cached : (m : PnaModel) → IsIdle m → Looks (cached m)
unfolding cached
idle-cached m (none_loaded, inl invalid) = inl (invalid-cached m invalid)
idle-cached m (none_loaded, inr (r, ef, ec)) =
    if-Empty
      (is_key m.sort_key m.cache.key && is_threshold m.threshold m.cache.threshold && m.cache.valid)
      _ (rw (ef, ec) (hit_or_miss (same_filters (m.store r) (m.store m.filters) filter_names)))

-- What a call returns
abbrev pub IsEmptied : Result (PnaModel × Output) → Type 0
IsEmptied r = (m : PnaModel) × (out : Output) × (r ≡ ok (m, out)) × (items out ≡ []) × IsIdle m

stored-IsEmptied : (m : PnaModel) → IsIdle m → IsEmptied (rank_and_store m [])
unfolding rank_and_store
stored-IsEmptied m h =
    (record m { cache = stored m [] }, table [], refl, refl, (h.0, inr (m.filters, refl, refl)))

view_for-IsEmptied : (key : SortKey) (m : PnaModel) → IsIdle m → IsEmptied (view_for key m [])
unfolding view_for derive_point_to_points derive_local_ips
view_for-IsEmptied raw m h = (m, flat [], refl, refl, h)
view_for-IsEmptied connections m h = stored-IsEmptied m h
view_for-IsEmptied sessions m h = stored-IsEmptied m h
view_for-IsEmptied (column n) m h = stored-IsEmptied m h

filter_nothing : (m : PnaModel) → m.all_data ≡ [] → do_filter (m.store m.filters) m.all_data ≡ ok []
unfolding do_filter
filter_nothing m h = rw h

-- Without logs, get_data returns nothing to show, and the object stays without.
pub get_data-IsEmptied : (m : PnaModel) → IsIdle m → IsEmptied (get_data false m)
unfolding get_data view_data
get_data-IsEmptied m h = elim (idle-cached m h) [
  | inl missed ↦ rw (missed, filter_nothing m h.0) (view_for-IsEmptied m.sort_key m h)
  | inr hit ↦ rw hit (m, table [], refl, refl, h)
]
