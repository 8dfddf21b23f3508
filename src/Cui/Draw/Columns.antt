-- ===== src/Cui/Draw/Columns.antt =====
-- What is drawn of the rows of a table: every column is there, and the lines fit.
use pna.Base.{
  ℕ, suc, ◌+◌, ◌≡◌, refl, ap, subst, List, [], ◌∷◌, map, All, false, length, Result, ok, >>=-eq-ok,
  ok-injective,
}
use pna.Base.Text.{Text, show}
use pna.Base.Value.{Log}
use pna.Model.Derive.{Name, PointToPoint, LocalRow, derive_point_to_points, derive_local_ips}
use pna.Model.State.{
  SortKey, same_sort_key, raw, connections, sessions, column, Row, pair, local, rows_for,
}
use pna.Model.State.Fields.{get_fields}
use pna.Model.State.Dicts.{row_dict}
use pna.Cui.Draw.{table_text, table_line, shown_fields, field_texts, row_lines}

-- A row of the table that a sort key makes; 'raw' makes no table.
abbrev pub IsRowOf : SortKey → Row → Type 0
IsRowOf raw r = ⊥
IsRowOf connections (local l) = Unit
IsRowOf sessions (local l) = Unit
IsRowOf (column n) (pair p) = Unit
IsRowOf _ _ = ⊥

-- The texts of five columns
abbrev Five : Result (List Text) → Type 0
Five r =
    (a : Text) × (b : Text) × (c : Text) × (d : Text) × (e : Text) × (r
      ≡ ok (a ∷ b ∷ c ∷ d ∷ e ∷ []))

row-Five :
    (key : SortKey) (r : Row) → IsRowOf key r → Five (field_texts (shown_fields key) (row_dict r))
unfolding field_texts shown_fields get_fields
row-Five raw r h = absurd h
row-Five connections (local l) h = (_, _, _, _, _, refl)
row-Five connections (pair p) h = absurd h
row-Five sessions (local l) h = (_, _, _, _, _, refl)
row-Five sessions (pair p) h = absurd h
row-Five (column Name.tcp_ports) (pair p) h = (_, _, _, _, _, refl)
row-Five (column _) (pair p) h = (_, _, _, _, _, refl)
row-Five (column Name.tcp_ports) (local l) h = absurd h
row-Five (column _) (local l) h = absurd h

-- For rows of the kind that a sort key makes, redraw finds each of the five columns in every row
-- and writes one line for each row.
pub row_lines_total :
    (key : SortKey) (i : ℕ) (rs : List Row)
    → All (IsRowOf key) rs
    → (ls : List Text) × (row_lines (shown_fields key) i (map row_dict rs) ≡ ok ls)
      × (length ls ≡ length rs)
unfolding row_lines table_line
row_lines_total key i [] h = ([], refl, refl)
row_lines_total key i (r ∷ rs) (h, hs) =
    let (a, b, c, d, e, texts) = row-Five key r h in
    let (ls, later, size) = row_lines_total key (i + 1) rs hs in
    (table_text (show (i + 1)) a b c d e ∷ ls, rw (texts, later), ap suc size)

map-local :
    (ls : List LocalRow) (key : SortKey)
    → ((l : LocalRow) → IsRowOf key (local l))
    → All (IsRowOf key) (map local ls)
map-local [] key h = tt
map-local (l ∷ ls) key h = (h l, map-local ls key h)

map-pair : (ps : List PointToPoint) (n : Name) → All (IsRowOf (column n)) (map pair ps)
map-pair [] n = tt
map-pair (p ∷ ps) n = (tt, map-pair ps n)

-- The rows that `get_data` makes for a key are of its kind.
pub rows_for-IsRowOf :
    (key : SortKey) (logs : List Log) (rs : List Row)
    → same_sort_key key raw ≡ false
    → rows_for key logs ≡ ok rs
    → All (IsRowOf key) rs
unfolding rows_for
rows_for-IsRowOf raw logs rs h e = cc
rows_for-IsRowOf connections logs rs h e =
    let (ps, _, later) = >>=-eq-ok (derive_point_to_points logs) _ e in
    subst (All (IsRowOf connections)) (ok-injective later)
      (map-local (derive_local_ips ps) connections (λ l. tt))
rows_for-IsRowOf sessions logs rs h e =
    let (ps, _, later) = >>=-eq-ok (derive_point_to_points logs) _ e in
    subst (All (IsRowOf sessions)) (ok-injective later)
      (map-local (derive_local_ips ps) sessions (λ l. tt))
rows_for-IsRowOf (column n) logs rs h e =
    let (ps, _, later) = >>=-eq-ok (derive_point_to_points logs) _ e in
    subst (All (IsRowOf (column n))) (ok-injective later) (map-pair ps n)
