-- ===== src/Cui/Session.antt =====
-- util/intop/cui.py: `CursesInterface` with its two windows: drawing, the handlers of keys and the
-- loop, beside the files that the watcher of util/intop/monitor.py adds.
mod Tests
pub mod Invariant
pub mod Handlers
pub mod Reach
pub mod Arrival
pub mod Dispatch
pub mod Idle
pub mod Escape
pub mod Closes
pub mod Quits
pub mod Fits
use pna.Base.{
  ℕ, List, [], ◌∷◌, ◌++◌, map, Bool, true, false, ◌||◌, if◌then◌else◌, ◌==◌, nat_eq, Option, none,
  some, Result, ok, err, stuck, ◌>>=◌,
}
use pna.Base.Text.{Text, codes}
use pna.Base.Int.{pos}
use pna.Base.Value.{Entry}
use pna.Struct.{Bytes}
use pna.Model.Label.{stringify}
use pna.Model.Filter.{Filters}
use pna.Model.State.{PnaModel, add_file, get_data}
use pna.Model.State.Fields.{get_fields}
use pna.Model.State.Dicts.{items}
use pna.Cui.Keys.{Key, letter, among, esc, ff, dc2, key_up, key_down, key_left, key_right}
use pna.Cui.Select.{set_sort_key}
use pna.Cui.Settings.{set_threshold}
use pna.Cui.Settings.Dialog.{Dialog, view_filters}
use pna.Cui.Settings.View.{Placed, settings_view}
use pna.Cui.Info.{
  Info, Details, beep, details, Move, up, down, first, last, move, update_data, view_details,
}
use pna.Cui.Draw.{shown_fields, header_line, row_lines, detail_lines}

-- The model, the information window with its size, its selection and data, and its lines, and what
-- the settings window shows.
pub record Session : Type 0 where
  pub model : PnaModel
  pub height : ℕ
  pub width : ℕ
  pub info : Info Entry
  pub lines : List Text
  pub settings : List Placed

-- `InfoWindow.update_data`
unfoldable pub update : Session → Result Session
update s = do
  (m, out) ← get_data false s.model
  ok (record s { model = m; info = update_data s.height (items out) s.info })

-- `InfoWindow.redraw`
unfoldable pub redraw : Session → Result Session
unfolding update
redraw s = do
  header ← header_line s.model.sort_key
  s' ← update s
  rest ← row_lines (shown_fields s.model.sort_key) 0 s'.info.shown
  ok (record s' { lines = header ∷ rest })

-- `CursesInterface(screen, model, dirwatch)`, as far as the information window reads its data.
unfoldable pub start : ℕ → ℕ → PnaModel → Result Session
start height width m = update (record {
  model = m;
  height = height;
  width = width;
  info = record { selection = pos 0; shown = [] };
  lines = [];
  settings = [];
})

-- The functions in `self.actions` of both windows.
pub data Action : Type 0 where
  sort_key_action threshold_action filters_action quit_action : Action
  details_action update_action : Action
  move_action : Move → Action

-- After a key: the interface goes on, a dialog still waits for keys, or `sys.exit(0)`.
pub data Control : Type 0 where
  runs : Session → Control
  waits : Control
  exits : Control

-- The end of a dialog: `self.interface.windows['information'].clear()`.
unfoldable pub settle : Session → Option PnaModel → Result Control
settle s none = ok waits
settle s (some m) = do s' ← redraw (record s { model = m }); ok (runs s')

-- The dialog of the filters writes into the dict that the settings refer to.
abbrev pub write_filters : Filters → PnaModel → PnaModel
write_filters filters m = record m { store = λ r. if r == m.filters then filters else m.store r }

-- The dialog as it opens.
abbrev pub opened : Session → Dialog
opened s = record {
  selection = 0;
  filters = s.model.store s.model.filters;
  field = none;
  left = false;
}

unfoldable pub run_filters : List (Option Key) → Session → Result Control
unfolding settle
run_filters inputs s = do
  d ← view_filters inputs (opened s)
  settle s (if d.left then some (write_filters d.filters s.model) else none)

-- The loop of `view_details`, and whether it ended.
unfoldable pub details_closed : List (Option Key) → Bool
details_closed [] = false
details_closed (none ∷ keys) = details_closed keys
details_closed (some key ∷ keys) =
    among key (letter b'q' ∷ letter b'Q' ∷ esc ∷ letter 13 ∷ letter 10 ∷ []) || details_closed keys

unfoldable pub run_details : List (Option Key) → Session → Result Control
unfolding details_closed
run_details keys s = do
  shows ← view_details s.info
  elim shows [
    | beep ↦ ok (runs s)
    | details row ↦ do
      _ ← detail_lines s.width (get_fields false s.model.sort_key) row
      ok (if details_closed keys then runs s else waits)
  ]

-- `handler[1]()`, with the keys that come in while a dialog is open.
unfoldable pub run_action : Action → List (Option Key) → Session → Result Control
unfolding run_filters run_details
run_action sort_key_action inputs s = do m ← set_sort_key inputs s.model; settle s m
run_action threshold_action inputs s = do m ← set_threshold inputs s.model; settle s m
run_action filters_action inputs s = run_filters inputs s
run_action quit_action inputs s = ok exits
run_action details_action inputs s = run_details inputs s
run_action update_action inputs s = do s' ← update s; ok (runs s')
run_action (move_action m) inputs s = ok (runs (record s { info = move m s.info }))

-- `self.handlers`, as the two windows add them.
abbrev pub Handlers : Type 0
Handlers = List (List Key × Action)

abbrev pub settings_actions : Handlers
settings_actions =
    (letter b's' ∷ letter b'S' ∷ [], sort_key_action)
    ∷ (letter b't' ∷ letter b'T' ∷ [], threshold_action)
    ∷ (letter b'f' ∷ letter b'F' ∷ [], filters_action)
    ∷ (letter b'q' ∷ letter b'Q' ∷ esc ∷ [], quit_action)
    ∷ []

abbrev pub info_actions : Handlers
info_actions =
    (letter 13 ∷ letter 10 ∷ [], details_action)
    ∷ (letter b'k' ∷ key_up ∷ [], move_action up)
    ∷ (letter b'j' ∷ key_down ∷ [], move_action down)
    ∷ (letter b'h' ∷ key_left ∷ [], move_action first)
    ∷ (letter b'l' ∷ key_right ∷ [], move_action last)
    ∷ (letter b'r' ∷ letter b'R' ∷ ff ∷ dc2 ∷ [], update_action)
    ∷ []

abbrev pub handlers : Handlers
handlers = settings_actions ++ info_actions

-- `for handler in self.handlers`: each handler with the key runs.
unfoldable pub dispatch : Handlers → Key → List (Option Key) → Session → Result Control
unfolding run_action
dispatch [] key inputs s = ok (runs s)
dispatch ((keys, action) ∷ rest) key inputs s = do
  c ← if among key keys then run_action action inputs s else ok (runs s)
  elim c [ runs s' ↦ dispatch rest key inputs s' | waits ↦ ok waits | exits ↦ ok exits ]

-- `handle_control`; none where `curses.error` was raised.
unfoldable pub handle_control : Option Key → List (Option Key) → Session → Result Control
unfolding dispatch
handle_control none inputs s = ok (runs s)
handle_control (some key) inputs s = dispatch handlers key inputs s

-- A file that the watcher's thread adds. Where it cannot be read, the exception stays in that thread.
unfoldable pub receive : Bytes → Session → Session
receive file s = elim (add_file file s.model) [ ok m ↦ record s { model = m } | _ ↦ s ]

-- `write_view`: both windows are drawn; the settings window has five lines.
unfoldable pub write_view : Session → Result Session
unfolding redraw
write_view s = redraw (record s { settings = settings_view 5 s.width s.model })

-- What happens, one after the other: a file is added, or a round of the loop with a key.
pub data Event : Type 0 where
  arrives : Bytes → Event
  round : Option Key → List (Option Key) → Event

-- `interact`: each round draws the windows and then handles a key.
unfoldable pub interact : List Event → Session → Result Control
unfolding write_view handle_control receive
interact [] s = ok (runs s)
interact (arrives file ∷ events) s = interact events (receive file s)
interact (round key inputs ∷ events) s = do
  s' ← write_view s
  c ← handle_control key inputs s'
  elim c [ runs s'' ↦ interact events s'' | waits ↦ ok waits | exits ↦ ok exits ]
