-- ===== src/Cui/Settings/Dialog.antt =====
-- util/intop/cui.py: `SettingsWindow.view_filters`, key by key: in the list, and in the edit field that
-- Enter opens.
use pna.Base.{
  ℕ, List, [], ◌∷◌, length, get_elem?, Bool, true, if◌then◌else◌, Option, none, some, Result, ok,
  or_raise, index_error, ◌>>=◌, String, string_eq,
}
use pna.Base.Dict.{lookup}
use pna.Base.Text.{Text, codes}
use pna.Model.Filter.{Filters}
use pna.Model.Pattern.{Re, filter_res, accepts}
use pna.Cui.Keys.{Key, letter, among, esc, bs, del}
use pna.Cui.Edit.{Line, going, returns, edit_key}
use pna.Cui.Select.{move_selection}
use pna.Cui.Settings.{clear_filter, store_filter}

-- The open edit field of a filter: what `get_value` was called with, and its line.
pub record Field : Type 0 where
  pub filter : String
  pub regex : Re
  pub initial : Text
  pub line : Line

-- The selected line, `settings['filters']`, and the edit field while it is open; `left` once the
-- dialog is closed.
pub record Dialog : Type 0 where
  pub selection : ℕ
  pub filters : Filters
  pub field : Option Field
  pub left : Bool

abbrev pub filter_count : ℕ
filter_count = length filter_res

-- `string.letters+string.digits+'.-:/ '`
abbrev pub filter_chars : Text
filter_chars = codes "abcdefghijklmnopqrstuvwxyzABCDEFGHIJKLMNOPQRSTUVWXYZ0123456789.-:/ "

-- `edit_box.get_value(initial=value, chars=chars)`, before the first key
abbrev pub field_of : String → Re → Text → Field
field_of filter regex value = record {
  filter = filter;
  regex = regex;
  initial = value;
  line = record { value = value; position = length value };
}

-- `settings['filters'].get(filter, '')`
abbrev pub value_or : Option Text → Text
value_or none = []
value_or (some value) = value

-- `value == '' or None != regex.match(value)`
abbrev pub is_accepted : Re → Text → Bool
is_accepted regex [] = true
is_accepted regex (c ∷ cs) = accepts regex (c ∷ cs)

-- The loop around `get_value`: a text that is refused is edited again, and is then the text that the
-- field returns to.
unfoldable pub returned : Field → Text → Dialog → Dialog
unfolding store_filter
returned f value s =
    if is_accepted f.regex value
    then record s { field = none; filters = store_filter f.filter value s.filters }
    else record s { field = some (field_of f.filter f.regex value) }

-- A key in the edit field, which is 21 columns wide.
unfoldable pub field_key : Key → Field → Dialog → Result Dialog
unfolding returned
field_key key f s = do
  step ← edit_key 21 f.initial filter_chars key f.line
  elim step [
    | going line ↦ ok (record s { field = some (record f { line = line }) })
    | returns value ↦ ok (returned f value s)
  ]

-- A key in the list. The selected name and its expression have one index in two tuples.
unfoldable pub list_key : Key → Dialog → Result Dialog
unfolding clear_filter
list_key key s =
    if among key (letter b'q' ∷ letter b'Q' ∷ esc ∷ [])
    then ok (record s { left = true })
    else if among key (letter 13 ∷ letter 10 ∷ [])
    then (do
      (filter, regex) ← or_raise (get_elem? filter_res s.selection) index_error
      ok (record s { field = some (field_of filter regex (value_or (lookup filter s.filters))) }))
    else if among key (bs ∷ del ∷ [])
    then (do
      (filter, regex) ← or_raise (get_elem? filter_res s.selection) index_error
      ok (record s { filters = clear_filter filter s.filters }))
    else ok (record s { selection = move_selection filter_count key s.selection })

unfoldable pub dialog_key : Key → Dialog → Result Dialog
unfolding list_key field_key
dialog_key key s = elim s.field [ none ↦ list_key key s | some f ↦ field_key key f s ]

-- The loops, on the keys that come in (`none` where `curses.error` was raised): the dialog as it is
-- left, or as it is when the keys are used up and it still waits.
unfoldable pub view_filters : List (Option Key) → Dialog → Result Dialog
unfolding dialog_key
view_filters [] s = ok s
view_filters (none ∷ keys) s = view_filters keys s
view_filters (some key ∷ keys) s = do
  s' ← dialog_key key s
  if s'.left then ok s' else view_filters keys s'
