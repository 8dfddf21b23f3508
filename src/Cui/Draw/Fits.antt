-- ===== src/Cui/Draw/Fits.antt =====
-- What is drawn fits into the windows.
use pna.Base.{
  map, ℕ, suc, ◌+◌, ◌-◌, ◌≤◌, ◌≡◌, refl, ap, sym, subst, ◌∙◌, List, [], ◌∷◌, All, true, false, ltb,
  leb, if◌then◌else◌, take, length, length-append, length-take, String, ok, >>=-eq-ok, ok-injective,
  Bool-cases, inl, inr, arith,
}
use pna.Base.Text.{Text, codes, show}
use pna.Base.Value.{Entry}
use pna.Model.Derive.{Name}
use pna.Model.State.{SortKey, raw, connections, sessions, column, Row, pair, local}
use pna.Model.State.Fields.{get_fields}
use pna.Model.State.Dicts.{row_dict}
use pna.Cui.Draw.{
  shown_fields, table_line, field_texts, row_lines, detail_text, detail_format, detail_lines,
  fitted, max_width,
}
use pna.Cui.Draw.Columns.{IsRowOf, row_lines_total}

fitted-le : (width : ℕ) (t : Text) → 5 ≤ width → length (fitted width t) + 2 ≤ width
unfolding fitted
fitted-le width t h = elim (Bool-cases (ltb width (length t + 2))) [
  | inl long ↦
      let wide : leb 5 width ≡ true = ground arith in
      let cut = length-take (width - 5) t in
      rw (long, wide) (omega (arith, length-append (take (width - 5) t) (codes "..."), cut))
  | inr short ↦ rw short (ground arith)
]

-- No line takes the columns of the border.
abbrev Narrow : ℕ → List Text → Type 0
Narrow width ls = All (λ l. length l + 2 ≤ width) ls

detail_lines-Narrow :
    (width : ℕ) (items : List String) (row : Entry) (ls : List Text)
    → 5 ≤ width
    → detail_lines width items row ≡ ok ls
    → Narrow width ls
unfolding detail_lines
detail_lines-Narrow width [] row ls h e = subst (Narrow width) (ok-injective e) tt
detail_lines-Narrow width (item ∷ items) row ls h e =
    let (value, _, later) = >>=-eq-ok (detail_text item row) _ e in
    let (rest, more, last) = >>=-eq-ok (detail_lines width items row) _ later in
    subst (Narrow width) (ok-injective last) (
      fitted-le width (detail_format item value) h,
      detail_lines-Narrow width items row rest h more,
    )

max_width-le :
    (width : ℕ) (ls : List Text) (widest : ℕ)
    → widest + 2 ≤ width
    → Narrow width ls
    → max_width ls widest + 2 ≤ width
unfolding max_width
max_width-le width [] widest h hs = h
max_width-le width (l ∷ ls) widest h (hl, hs) =
    max_width-le width ls (if ltb widest (length l) then length l else widest) (ground arith) hs

-- The texts of all the fields of a row
details_total :
    (width : ℕ) (key : SortKey) (r : Row)
    → IsRowOf key r
    → (ls : List Text) × (detail_lines width (get_fields false key) (row_dict r) ≡ ok ls)
unfolding detail_lines detail_text get_fields
details_total width raw r h = absurd h
details_total width connections (local l) h = (_, refl)
details_total width connections (pair p) h = absurd h
details_total width sessions (local l) h = (_, refl)
details_total width sessions (pair p) h = absurd h
details_total width (column Name.tcp_ports) (pair p) h = (_, refl)
details_total width (column _) (pair p) h = (_, refl)
details_total width (column Name.tcp_ports) (local l) h = absurd h
details_total width (column _) (local l) h = absurd h

-- In a window of at least five columns, and for a row of the kind that a sort key makes,
-- view_details finds all its fields, and the box of the lines with its border is not wider than the
-- window.
pub detail_lines_fit :
    (width : ℕ) (key : SortKey) (r : Row)
    → 5 ≤ width
    → IsRowOf key r
    → (ls : List Text) × (detail_lines width (get_fields false key) (row_dict r) ≡ ok ls)
      × (max_width ls 0 + 2 ≤ width)
detail_lines_fit width key r wide h =
    let (ls, e) = details_total width key r h in
    (
      ls,
      e,
      max_width-le width ls 0 (omega arith)
          (detail_lines-Narrow width (get_fields false key) (row_dict r) ls wide e),
    )

-- For rows of the kind that a sort key makes, redraw finds each of the five columns in every row
-- and writes one line for each row; and in a window of at least five columns view_details finds all
-- the fields of such a row, and the box of its lines with the border is not wider than the window.
pub row_lines-detail_lines :
    (width : ℕ) (key : SortKey) (rs : List Row) (r : Row)
    → 5 ≤ width
    → All (IsRowOf key) rs
    → IsRowOf key r
    → ((ls : List Text) × (row_lines (shown_fields key) 0 (map row_dict rs) ≡ ok ls)
        × (length ls ≡ length rs))
      × ((ls : List Text) × (detail_lines width (get_fields false key) (row_dict r) ≡ ok ls)
          × (max_width ls 0 + 2 ≤ width))
row_lines-detail_lines width key rs r wide hs h =
    (row_lines_total key 0 rs hs, detail_lines_fit width key r wide h)

pub length-row_lines :
    (fields : List String) (i : ℕ) (items : List Entry) (ls : List Text)
    → row_lines fields i items ≡ ok ls
    → length ls ≡ length items
unfolding row_lines
length-row_lines fields i [] ls e = ap length (sym (ok-injective e))
length-row_lines fields i (item ∷ items) ls e =
    let (texts, _, e1) = >>=-eq-ok (field_texts fields item) _ e in
    let (first, _, e2) = >>=-eq-ok (table_line (show (i + 1) ∷ texts)) _ e1 in
    let (rest, more, e3) = >>=-eq-ok (row_lines fields (i + 1) items) _ e2 in
    ap length (sym (ok-injective e3)) ∙ ap suc (length-row_lines fields (i + 1) items rest more)
