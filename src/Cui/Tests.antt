-- ===== src/Cui/Tests.antt =====
-- The dialogs and the window of cui.py on a few keys.
use pna.Base.{
  ℕ, ◌≤◌, ◌+◌, ◌≡◌, map, All, refl, List, [], ◌∷◌, false, arith, length, Option, none, some, ok,
  string_eq, text_eq, nat_eq,
}
use pna.Base.Int.{pos}
use pna.Base.Text.{Text, codes, show}
use pna.Base.Text.Decimal.{IsDigit}
use pna.Model.Filter.{Filters}
use pna.Model.Filter.Total.{AllFit}
use pna.Model.Pattern.{accepts, latest_re}
use pna.Model.State.{PnaModel, sessions}
use pna.Cui.Keys.{Key, letter, key_left, bs, esc}
use pna.Cui.Edit.{returns, get_value}
use pna.Cui.Edit.Bounds.{IsStep, get_value_bounds}
use pna.Cui.Settings.{digits}
use pna.Cui.Settings.Dialog.{Field, Dialog, field_of, view_filters}
use pna.Cui.Settings.Refused.{enter_refused}
use pna.Model.State.{Row, local}
use pna.Model.State.Fields.{get_fields}
use pna.Model.State.Dicts.{row_dict}
use pna.Cui.Draw.{shown_fields, row_lines, detail_lines, max_width}
use pna.Cui.Draw.Fits.{row_lines-detail_lines}
use pna.Model.Label.{stringify}
use pna.Cui.Settings.View.{settings_view, IsInside, AreShort, settings_view-IsInside}
use pna.Cui.Info.{Info, Details, Move, up, down, last, update_data, rounds, view_details}
use pna.Cui.Info.Selection.{IsIndex, view_details_total}

abbrev plain_model : PnaModel
plain_model = record {
  sort_key = sessions;
  threshold = 0;
  filters = 0;
  all_data = [];
  cache = record { key = none; threshold = none; filters = none; valid = false; contents = none };
  store = λ r. [];
  next = 1;
}

-- '1', '2', cursor to the left, backspace (of the '1'), Enter, behind the '0' that is there
abbrev typed : List (Option Key)
typed =
    some (letter b'1') ∷ none ∷ some (letter b'2') ∷ some key_left ∷ some bs ∷ some (letter 13) ∷ []

edited : get_value 15 (codes "0") digits typed ≡ ok (returns (codes "02"))
unfolding get_value
edited = refl

get_value_bounds_example : IsStep IsDigit 13 (returns (codes "02"))
get_value_bounds_example =
    get_value_bounds IsDigit 13 15 (codes "0") digits (omega arith) typed (returns (codes "02"))
      (omega arith) ((omega arith, omega arith), tt)
      (
        (λ e. (refl, ((omega arith, omega arith), tt))),
        (
          (λ e. (refl, ((omega arith, omega arith), tt))),
          ((λ e. cc), ((λ e. cc), ((λ e. cc), tt))),
        ),
      )
      edited

edited_threshold : get_value 15 (show 0) digits typed ≡ ok (returns (codes "02"))
unfolding get_value show
edited_threshold = refl

abbrev latest_filters : Filters
latest_filters = ("latest", codes "60") ∷ []

latest_fits : AllFit latest_filters
unfolding accepts
latest_fits = (refl, tt)

-- The field of the last filter, with a text that is refused
abbrev seconds_field : Field
seconds_field = record {
  filter = "latest";
  regex = latest_re;
  initial = codes "60";
  line = record { value = codes "60x"; position = 3 };
}

abbrev dialog : Dialog
dialog = record {
  selection = 6;
  filters = latest_filters;
  field = some seconds_field;
  left = false;
}

enter_refused_example :
    view_filters (some (letter 13) ∷ some esc ∷ some (letter b'q') ∷ []) dialog
    ≡ ok (record dialog { field = some (field_of "latest" latest_re (codes "60x")) })
unfolding accepts
enter_refused_example =
    enter_refused seconds_field dialog (esc ∷ letter b'q' ∷ []) refl refl refl (refl, (refl, tt))

abbrev window : Info ℕ
window = record { selection = pos 0; shown = [] }

abbrev events : List (List ℕ × Move)
events = ((7 ∷ 8 ∷ 9 ∷ []), last) ∷ ([], up) ∷ ((7 ∷ 8 ∷ []), down) ∷ []

view_details_total_example :
    (let now = update_data 20 (5 ∷ []) (rounds 20 events window) in
      IsIndex now.selection (length now.shown) × ((d : Details ℕ) × (view_details now ≡ ok d)))
view_details_total_example = view_details_total 20 events (5 ∷ []) window tt

abbrev row : Row
row = local (record {
  local_ip = codes "10.0.0.1";
  connections = 1;
  sessions = 1;
  tcp_ports = 1;
  tcp_packets = 20;
  tcp_octets = 300;
  udp_ports = 0;
  udp_packets = 0;
  udp_octets = 0;
  all_packets = 20;
  all_octets = 300;
})

row_lines-detail_lines_example :
    ((ls : List Text) × (row_lines (shown_fields sessions) 0 (map row_dict (row ∷ [])) ≡ ok ls)
      × (length ls ≡ 1))
    × ((ls : List Text) × (detail_lines 20 (get_fields false sessions) (row_dict row) ≡ ok ls)
        × (max_width ls 0 + 2 ≤ 20))
row_lines-detail_lines_example =
    row_lines-detail_lines 20 sessions (row ∷ []) row (omega arith) (tt, tt) tt

abbrev filtered_model : PnaModel
filtered_model = record plain_model {
  threshold = 100;
  store = λ r.
      ("latest", codes "60") ∷ ("source-port", codes "80") ∷ ("local-ip", codes "1.2.3.4") ∷ [];
}

settings_view-IsInside_example : All (IsInside 5 80) (settings_view 5 80 filtered_model)
unfolding show stringify
settings_view-IsInside_example =
    settings_view-IsInside 5 80 (omega arith) (omega arith) filtered_model hundred short
  where
    hundred : length (show 100) + 12 ≤ 80
    hundred = omega arith

    short : AreShort 80 (filtered_model.store 0)
    short = (omega arith, (omega arith, (omega arith, tt)))
