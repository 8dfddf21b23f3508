-- ===== src/Cui/Session/Arrival.antt =====
-- A session in which a file arrives.
use pna.Base.{
  ◌≡◌, refl, ap, ◌∙◌, List, [], ◌∷◌, ◌++◌, Option, false, String, ok, err, key_error, Option-cases,
  inl, inr, string_eq,
}
use pna.Base.Dict.{lookup}
use pna.Base.Text.{Text}
use pna.Struct.{Bytes}
use pna.Model.Derive.{Name}
use pna.Model.Filter.{Filters}
use pna.Model.Filter.Keeps.{LatestAccepted}
use pna.Model.Filter.Total.{AllFit, lookup-Fits}
use pna.Model.State.{SortKey, raw, connections, sessions, column, PnaModel, add_file, get_data}
use pna.Model.State.Fields.{get_fields}
use pna.Model.State.Cached.{add_file_lem}
use pna.Model.State.Raw.{missing_key, get_data_raises}
use pna.Cui.Keys.{Key}
use pna.Cui.Draw.{header_line}
use pna.Cui.Settings.View.{settings_view}
use pna.Cui.Session.{
  Session, update, redraw, write_view, runs, receive, Event, arrives, round, interact,
}
use pna.Cui.Session.Invariant.{IsSettled, IsSession, add_file-IsSettled}
use pna.Cui.Session.Reach.{AllRoundsPlain, interact-IsSession, interact-append}

pub AllFit-LatestAccepted : (filters : Filters) → AllFit filters → LatestAccepted filters
AllFit-LatestAccepted filters h = elim (Option-cases (lookup "latest" filters)) [
  | inl unset ↦ rw (LatestAccepted, unset) tt
  | inr (f, set) ↦ rw (LatestAccepted, set) (lookup-Fits filters "latest" f h set)
]

-- The line of the headers: there are always five fields.
pub header_line_total : (key : SortKey) → (l : Text) × (header_line key ≡ ok l)
unfolding header_line get_fields
header_line_total raw = (_, refl)
header_line_total connections = (_, refl)
header_line_total sessions = (_, refl)
header_line_total (column Name.tcp_ports) = (_, refl)
header_line_total (column _) = (_, refl)

first_of_append :
    {A : Type 0} (xs : List A) (x : A) → (y : A) × (ys : List A) × (xs ++ x ∷ [] ≡ y ∷ ys)
first_of_append [] x = (x, [], refl)
first_of_append (y ∷ ys) x = (y, ys ++ x ∷ [], refl)

added_raises :
    (file : Bytes) (m m' : PnaModel)
    → IsSettled m
    → add_file file m ≡ ok m'
    → get_data false m' ≡ err (key_error (missing_key m.sort_key))
added_raises file m m' h e =
    let (item, all, _, same) = add_file_lem file m m' e in
    let h' = add_file-IsSettled file m m' e h in
    let (first, others, front) = first_of_append m.all_data item in
    let invalid : m'.cache.valid ≡ false = ap (λ n. n.cache.valid) same in
    let key : m'.sort_key ≡ m.sort_key = ap (λ n. n.sort_key) same in
    get_data_raises m' first others invalid (AllFit-LatestAccepted _ h'.fit) (all ∙ front) h'.loaded
    ∙ ap (λ k. err (key_error (missing_key k))) key

redraw_raises :
    (s : Session) (e : String)
    → get_data false s.model ≡ err (key_error e)
    → redraw s ≡ err (key_error e)
unfolding redraw update
redraw_raises s e h = let (l, header) = header_line_total s.model.sort_key in rw (header, h)

write_view_raises :
    (s : Session) (e : String)
    → get_data false s.model ≡ err (key_error e)
    → write_view s ≡ err (key_error e)
unfolding write_view
write_view_raises s e h =
    redraw_raises (record s { settings = settings_view 5 s.width s.model }) e h

receive_lem :
    (file : Bytes) (s : Session) (m : PnaModel)
    → add_file file s.model ≡ ok m
    → receive file s ≡ record s { model = m }
unfolding receive
receive_lem file s m e = rw (receive, e)

-- From a session as in the invariant, whatever the loop did before (no key that the field of the
-- threshold takes being more than one character), once a file arrives that can be read, the next
-- round raises KeyError while it draws the window: at end-time under the sort key raw, and at
-- watch-data under all others.
pub interact-arrives :
    (events later : List Event) (s t : Session) (m : PnaModel) (file : Bytes) (key : Option Key)
    (inputs : List (Option Key))
    → IsSession s
    → AllRoundsPlain events
    → interact events s ≡ ok (runs t)
    → add_file file t.model ≡ ok m
    → interact (events ++ arrives file ∷ round key inputs ∷ later) s
      ≡ err (key_error (missing_key t.model.sort_key))
unfolding interact
interact-arrives events later s t m file key inputs h plain e added =
    let (settled, _) = interact-IsSession events s t plain h e in
    let raises =
      write_view_raises (record t { model = m }) (missing_key t.model.sort_key)
        (added_raises file t.model m settled added) in
    rw (
      interact-append events (arrives file ∷ round key inputs ∷ later) s t e,
      receive_lem file t m added,
      raises,
    )
