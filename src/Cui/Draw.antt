-- ===== src/Cui/Draw.antt =====
-- util/intop/cui.py: the lines that `InfoWindow.redraw` and `InfoWindow.view_details` show.
pub mod Columns
pub mod Fits
use pna.Base.{
  ℕ, zero, suc, ◌+◌, ◌-◌, List, [], ◌∷◌, ◌++◌, map, Bool, true, false, ◌&&◌, ◌||◌, ◌==◌, ltb, leb,
  if◌then◌else◌, take, drop, length, String, string_eq, text_eq, Result, ok, err, stuck, type_error,
  ◌>>=◌,
}
use pna.Base.Text.{Text, codes, show}
use pna.Base.Text.Format.{pad}
use pna.Base.Value.{Value, num, text, rows, Tuple, Entry, get, as_rows}
use pna.Model.Label.{stringify}
use pna.Model.State.{SortKey}
use pna.Model.State.Fields.{get_fields}

-- `format % tuple(data)` of '%3s  %-15s  %-15s  %-19s  %-13s  %-13s', which takes six values.
abbrev pub table_text : Text → Text → Text → Text → Text → Text → Text
table_text n a b c d e =
    pad (false, 3) n
    ++ codes "  "
    ++ pad (true, 15) a
    ++ codes "  "
    ++ pad (true, 15) b
    ++ codes "  "
    ++ pad (true, 19) c
    ++ codes "  "
    ++ pad (true, 13) d
    ++ codes "  "
    ++ pad (true, 13) e

unfoldable pub table_line : List Text → Result Text
table_line (n ∷ a ∷ b ∷ c ∷ d ∷ e ∷ []) = ok (table_text n a b c d e)
table_line _ = err type_error

-- `get_fields()[0:5]`
unfoldable pub shown_fields : SortKey → List String
shown_fields key = take 5 (get_fields true key)

unfoldable pub header_line : SortKey → Result Text
unfolding shown_fields table_line
header_line key = table_line (codes "#" ∷ map stringify (shown_fields key))

-- The text of a value. The text of a list is not spelt out: no column holds one.
abbrev pub value_text : {R : Type 0} → Value R → Result Text
value_text (num n) = ok (show n)
value_text (text t) = ok t
value_text (rows l) = stuck

-- `item[f]`, for each of the fields
unfoldable pub field_texts : List String → Entry → Result (List Text)
field_texts [] item = ok []
field_texts (f ∷ fs) item = do
  v ← get f item
  t ← value_text v
  ts ← field_texts fs item
  ok (t ∷ ts)

-- The lines of the rows, of which the first has the index `i`.
unfoldable pub row_lines : List String → ℕ → List Entry → Result (List Text)
unfolding table_line field_texts
row_lines fields i [] = ok []
row_lines fields i (item ∷ items) = do
  texts ← field_texts fields item
  first ← table_line (show (i + 1) ∷ texts)
  rest ← row_lines fields (i + 1) items
  ok (first ∷ rest)

-- `', '.join(parts)`
unfoldable pub comma_join : List Text → Text
comma_join [] = []
comma_join (p ∷ []) = p
comma_join (p ∷ q ∷ ps) = p ++ (codes ", " ++ comma_join (q ∷ ps))

unfoldable pub port_texts : List Tuple → Result (List Text)
port_texts [] = ok []
port_texts (t ∷ ts) = do
  local_port ← get "local-port" t
  local_text ← value_text local_port
  remote_port ← get "remote-port" t
  remote_text ← value_text remote_port
  rest ← port_texts ts
  ok ((local_text ++ (b':' ∷ remote_text)) ∷ rest)

-- `str(self.data[self.selection][item])`, or the ports of a list of tuples
unfoldable pub detail_text : String → Entry → Result Text
unfolding comma_join port_texts
detail_text item row =
    if item == "tcp-tuples" || item == "udp-tuples"
    then (do v ← get item row; tuples ← as_rows v; ports ← port_texts tuples; ok (comma_join ports))
    else (do v ← get item row; value_text v)

-- "my_str[0:self.width-5]", which counts from the end in a window of less than five columns, and
-- the dots, where the text is too long
unfoldable pub fitted : ℕ → Text → Text
fitted width my_str =
    if ltb width (length my_str + 2)
    then (if leb 5 width
        then take (width - 5) my_str
        else take (length my_str - (5 - width)) my_str)
      ++ codes "..."
    else my_str

-- `format % (name, value)`, of ' %15s: %-17s'
abbrev pub detail_format : String → Text → Text
detail_format item value =
    b' ' ∷ pad (false, 15) (stringify item) ++ (codes ": " ++ pad (true, 17) value)

abbrev pub detail_line : ℕ → String → Text → Text
detail_line width item value = fitted width (detail_format item value)

-- `items`
unfoldable pub detail_lines : ℕ → List String → Entry → Result (List Text)
unfolding detail_text fitted
detail_lines width [] row = ok []
detail_lines width (item ∷ items) row = do
  value ← detail_text item row
  rest ← detail_lines width items row
  ok (detail_line width item value ∷ rest)

-- `max_width`
unfoldable pub max_width : List Text → ℕ → ℕ
max_width [] widest = widest
max_width (my_str ∷ items) widest =
    max_width items (if ltb widest (length my_str) then length my_str else widest)
