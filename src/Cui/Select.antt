-- ===== src/Cui/Select.antt =====
-- util/intop/cui.py: the selection box of `SettingsWindow.set_sort_key`; the one of `view_filters`
-- moves alike.
pub mod InList
use pna.Base.{
  ℕ, ◌+◌, ◌-◌, List, [], ◌∷◌, Bool, true, false, leb, if◌then◌else◌, length, get_elem?, Option,
  none, some, Result, ok, or_raise, index_error, ◌>>=◌,
}
use pna.Model.Derive.{Name}
use pna.Model.State.{SortKey, raw, connections, sessions, column, PnaModel}
use pna.Cui.Keys.{Key, letter, among, esc, key_up, key_down, key_left, key_right}

-- `PNAModel.sort_keys`
abbrev pub sort_keys : List SortKey
sort_keys =
    raw
    ∷ connections
    ∷ sessions
    ∷ column Name.tcp_ports
    ∷ column Name.tcp_packets
    ∷ column Name.tcp_octets
    ∷ column Name.udp_ports
    ∷ column Name.udp_packets
    ∷ column Name.udp_octets
    ∷ column Name.all_ports
    ∷ column Name.all_packets
    ∷ column Name.all_octets
    ∷ []

-- How the box is left: without a choice, or with an index. It may also still wait for keys.
pub data Choice : Type 0 where
  waits : ℕ → Choice
  leaves : Choice
  chooses : ℕ → Choice

-- The new selection. It starts at an index and stops at 0, so that it is never negative.
unfoldable pub move_selection : ℕ → Key → ℕ → ℕ
move_selection count key selection =
    if among key (letter b'k' ∷ key_up ∷ [])
    then selection - 1
    else if among key (letter b'j' ∷ key_down ∷ [])
    then (if leb count (selection + 1) then count - 1 else selection + 1)
    else if among key (letter b'h' ∷ key_left ∷ [])
    then 0
    else if among key (letter b'l' ∷ key_right ∷ [])
    then count - 1
    else selection

unfoldable pub select_loop : ℕ → List (Option Key) → ℕ → Choice
unfolding move_selection
select_loop count [] selection = waits selection
select_loop count (none ∷ keys) selection = select_loop count keys selection
select_loop count (some key ∷ keys) selection =
    let rest = select_loop count keys (move_selection count key selection) in
    if among key (letter b'q' ∷ letter b'Q' ∷ esc ∷ [])
    then leaves
    else if among key (letter 13 ∷ letter 10 ∷ [])
    then chooses selection
    else rest

-- `list(sort_keys).index(current_key)`, of a key that is there
abbrev pub position_of : SortKey → ℕ
position_of raw = 0
position_of connections = 1
position_of sessions = 2
position_of (column Name.tcp_ports) = 3
position_of (column Name.tcp_packets) = 4
position_of (column Name.tcp_octets) = 5
position_of (column Name.udp_ports) = 6
position_of (column Name.udp_packets) = 7
position_of (column Name.udp_octets) = 8
position_of (column Name.all_ports) = 9
position_of (column Name.all_packets) = 10
position_of (column Name.all_octets) = 11

-- `set_sort_key`; none while the box waits for keys.
unfoldable pub set_sort_key : List (Option Key) → PnaModel → Result (Option PnaModel)
unfolding select_loop
set_sort_key keys m = elim (select_loop (length sort_keys) keys (position_of m.sort_key)) [
  | waits _ ↦ ok none
  | leaves ↦ ok (some m)
  | chooses selection ↦ do
    key ← or_raise (get_elem? sort_keys selection) index_error
    ok (some (record m { sort_key = key }))
]
