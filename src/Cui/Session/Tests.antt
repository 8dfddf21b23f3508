-- ===== src/Cui/Session/Tests.antt =====
-- A session of cui.py on a few keys.
use pna.Base.{
  ◌≡◌, ◌≢◌, refl, List, [], ◌∷◌, ◌++◌, Option, none, some, Result, ok, err, key_error, false, arith,
  inl, inr, string_eq, text_eq, nat_eq,
}
use pna.Base.Int.{pos}
use pna.Samples.{log_bytes}
use pna.Struct.{unpack_from}
use pna.LogFile.{init, parse, parse_entry, complete}
use pna.Model.Filter.{do_filter}
use pna.Model.Derive.{derive_point_to_points, derive_local_ips}
use pna.Model.State.{PnaModel, sessions, cached, add_file, get_data, view_data}
use pna.Model.State.Fields.{get_fields}
use pna.Model.State.Raw.{missing_key}
use pna.Cui.Draw.{header_line, row_lines}
use pna.Cui.Info.{update_data}
use pna.Cui.Select.{set_sort_key}
use pna.Cui.Keys.{Key, letter, key_down}
use pna.Cui.Session.{
  Session, Control, runs, waits, exits, Event, arrives, round, interact, handlers, handle_control,
}
use pna.Cui.Session.Invariant.{IsSession}
use pna.Cui.Session.Reach.{interact-IsSession}
use pna.Cui.Session.Arrival.{interact-arrives}
use pna.Cui.Session.Dispatch.{action_of, on_action, handle_control-action_of}
use pna.Cui.Session.Escape.{closed}
use pna.Cui.Session.Closes.{handle_control-closed}
use pna.Cui.Session.Quits.{interact_quits}

abbrev plain_model : PnaModel
plain_model = record {
  sort_key = sessions;
  threshold = 0;
  filters = 0;
  all_data = [];
  cache = record { key = none; threshold = none; filters = none; valid = false; contents = none };
  store = λ r. [];
  next = 1;
}

abbrev session : Session
session = record {
  model = plain_model;
  height = 20;
  width = 80;
  info = record { selection = pos 0; shown = [] };
  lines = [];
  settings = [];
}

-- The sort key below, then a key that moves, and one that nothing handles
abbrev dialog_keys : List (Option Key)
dialog_keys = some key_down ∷ none ∷ some (letter 13) ∷ []

abbrev events : List Event
events =
    round (some (letter b's')) dialog_keys
    ∷ round none []
    ∷ round (some key_down) []
    ∷ round (some (letter b'x')) []
    ∷ []

abbrev session_in : Result Control → Session
session_in (ok (runs s)) = s
session_in _ = session

abbrev reached : Session
reached = session_in (interact events session)

goes : interact events session ≡ ok (runs reached)
unfolding interact get_data view_data cached do_filter derive_point_to_points derive_local_ips
    header_line get_fields row_lines update_data set_sort_key
goes = refl

session_ok : IsSession session
session_ok = (record { fit = tt; small = omega arith; loaded = tt }, tt)

interact-IsSession_example : IsSession reached
interact-IsSession_example =
    interact-IsSession events session reached ((tt, (inl refl, tt)), (tt, (tt, (tt, tt))))
      session_ok goes

abbrev loaded_model : PnaModel
loaded_model = elim (add_file log_bytes reached.model) [ ok m ↦ m | _ ↦ plain_model ]

loads : add_file log_bytes reached.model ≡ ok loaded_model
unfolding add_file init parse unpack_from parse_entry complete interact
loads = refl

-- A file is added, and the window is drawn.
interact-arrives_example :
    interact (events ++ arrives log_bytes ∷ round none [] ∷ []) session
    ≡ err (key_error (missing_key reached.model.sort_key))
interact-arrives_example =
    interact-arrives events [] session reached loaded_model log_bytes none [] session_ok
      ((tt, (inl refl, tt)), (tt, (tt, (tt, tt)))) goes loads

handle_control-action_of_example :
    handle_control (some key_down) [] session ≡ on_action (action_of handlers key_down) [] session
handle_control-action_of_example = handle_control-action_of key_down [] session

-- The threshold is edited, and left.
handle_control-closed_example :
    handle_control (some (letter b't')) (closed (some (letter b'7') ∷ [])) session ≢ ok waits
handle_control-closed_example =
    handle_control-closed (some (letter b't')) (some (letter b'7') ∷ []) session session_ok

-- A text that the first filter refuses
abbrev refused_keys : List (Option Key)
refused_keys = some (letter 13) ∷ some (letter b'9') ∷ some (letter 13) ∷ []

abbrev closed_events : List Event
closed_events =
    round (some (letter b't')) (closed (some (letter b'7') ∷ []))
    ∷ round (some (letter b'f')) (closed (refused_keys))
    ∷ []

interact_quits_example :
    interact (closed_events ++ round (some (letter b'q')) [] ∷ []) session ≡ ok exits
interact_quits_example =
    interact_quits closed_events session (letter b'q') []
      (
        (some (letter b'7') ∷ [], refl),
        ((inl refl, (tt, (inl refl, (tt, (tt, tt))))), (tt, (refl, (tt, (refl, (refl, tt)))))),
        (
          (refused_keys, refl),
          (
            (inr refl, (inl refl, (inr refl, (tt, (inr refl, (tt, (tt, tt))))))),
            (tt, (tt, (tt, (refl, (tt, (refl, (refl, tt))))))),
          ),
          tt,
        ),
      )
      session_ok (refl, inl refl) refl
