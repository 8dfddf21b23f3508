-- ===== src/Cui/Select/InList.antt =====
-- The selection of a box stays in its list.
use pna.Base.{
  ℕ, ◌+◌, ◌-◌, ◌<◌, ◌≡◌, ◌⊎◌, inl, inr, refl, List, [], ◌∷◌, Bool, true, false, leb, if◌then◌else◌,
  length, get_elem?, Option, none, some, Result, ok, or_raise, index_error, ◌>>=◌, arith,
}
use pna.Model.Derive.{Name}
use pna.Model.State.{SortKey, raw, connections, sessions, column, PnaModel}
use pna.Cui.Keys.{Key, letter, among, esc, key_up, key_down, key_left, key_right}
use pna.Cui.Select.{
  sort_keys, Choice, waits, leaves, chooses, move_selection, select_loop, position_of, set_sort_key,
}
use pna.Cui.Info.Selection.{get_elem?_total}

if-below : (count : ℕ) (b : Bool) (x y : ℕ) → x < count → y < count → (if b then x else y) < count
if-below count true x y hx hy = hx
if-below count false x y hx hy = hy

next-below : (count s : ℕ) → s < count → (if leb count (s + 1) then count - 1 else s + 1) < count
next-below count s h = ground arith

pub move_selection-below :
    (count : ℕ) (key : Key) (s : ℕ) → s < count → move_selection count key s < count
unfolding move_selection
move_selection-below count key s h =
    if-below count (among key (letter b'k' ∷ key_up ∷ [])) _ _ (omega arith) (
      if-below count (among key (letter b'j' ∷ key_down ∷ [])) _ _ (next-below count s h) (
        if-below count (among key (letter b'h' ∷ key_left ∷ [])) _ _ (omega arith)
          (if-below count (among key (letter b'l' ∷ key_right ∷ [])) _ _ (omega arith) h)))

abbrev pub IsChoice : ℕ → Choice → Type 0
IsChoice count (waits s) = s < count
IsChoice count leaves = Unit
IsChoice count (chooses s) = s < count

if-IsChoice :
    (count : ℕ) (b : Bool) (x y : Choice)
    → IsChoice count x
    → IsChoice count y
    → IsChoice count (if b then x else y)
if-IsChoice count true x y hx hy = hx
if-IsChoice count false x y hx hy = hy

pub select_loop-IsChoice :
    (count : ℕ) (keys : List (Option Key)) (s : ℕ)
    → s < count
    → IsChoice count (select_loop count keys s)
unfolding select_loop
select_loop-IsChoice count [] s h = h
select_loop-IsChoice count (none ∷ keys) s h = select_loop-IsChoice count keys s h
select_loop-IsChoice count (some key ∷ keys) s h =
    if-IsChoice count (among key (letter b'q' ∷ letter b'Q' ∷ esc ∷ [])) _ _ tt (
      if-IsChoice count (among key (letter 13 ∷ letter 10 ∷ [])) _ _ h (
        select_loop-IsChoice count keys (move_selection count key s)
          (move_selection-below count key s h)))

position_of-below : (k : SortKey) → position_of k < 12
position_of-below raw = omega arith
position_of-below connections = omega arith
position_of-below sessions = omega arith
position_of-below (column Name.tcp_ports) = omega arith
position_of-below (column _) = omega arith

-- How a box was left: still waiting, or with the model as it was but for its sort key, which is
-- the old one or one of `sort_keys`.
abbrev pub Sets : PnaModel → Result (Option PnaModel) → Type 0
Sets m r =
    (r ≡ ok none)
    ⊎ (r ≡ ok (some m))
    ⊎ ((i : ℕ) × (k : SortKey) × (get_elem? sort_keys i ≡ some k)
        × (r ≡ ok (some (record m { sort_key = k }))))

choice-Sets :
    (m : PnaModel) (c : Choice)
    → IsChoice (length sort_keys) c
    → Sets m (elim c [
      | waits _ ↦ ok none
      | leaves ↦ ok (some m)
      | chooses selection ↦ do
        key ← or_raise (get_elem? sort_keys selection) index_error
        ok (some (record m { sort_key = key }))
    ])
choice-Sets m (waits s) h = inl refl
choice-Sets m leaves h = inr (inl refl)
choice-Sets m (chooses s) h =
    let (k, found) = get_elem?_total sort_keys s h in inr (inr (s, k, found, rw found))

-- Whatever keys are pressed, set_sort_key raises no IndexError: it waits, leaves the model as it
-- was, or sets its sort key to one of sort_keys and changes nothing else.
pub set_sort_key_total : (keys : List (Option Key)) (m : PnaModel) → Sets m (set_sort_key keys m)
unfolding set_sort_key
set_sort_key_total keys m = choice-Sets m _ (
    select_loop-IsChoice (length sort_keys) keys (position_of m.sort_key)
      (position_of-below m.sort_key))
